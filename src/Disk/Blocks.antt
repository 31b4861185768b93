-- ===== src/Disk/Blocks.antt =====
-- The blocks that `read_block` gives.
use starweld.Prelude.{ℕ, ◌≤◌, ◌≡◌, ap, ◌∙◌, arith, length, false, refl, wrap64, ◌*◌, ltb}
use starweld.Prelude.Bytes.{Bytes, zeros, length-zeros, length-slice}
use starweld.Error.{guard, ok_or, Error, virt_offset_out_of_range, Result, ok, err, >>=-eq-ok}
use starweld.IoUtil.{File, read_exact_at}
use starweld.IoUtil.Files.{read_exact_at_inv}
use starweld.Bat.{
  bitmap_from_raw, payload_entry, sector_bitmap_entry, PayloadState, BatEntry, fully_present,
  zero_block, partially_present, not_present, unmapped, undefined, other, from_raw, state,
  file_offset,
}
use starweld.Disk.{
  is_present, read_sector_bitmap, VhdxDisk, BlockRead, full, partial, absent, block_size,
  block_count, read_present, read_block,
}

abbrev pub HasSize : ℕ → BlockRead → Type 0
HasSize n (full content) = length content ≡ n
HasSize n (partial payload bitmap) = length payload ≡ n
HasSize n absent = Unit

read_exact_at-length :
    (f : File) (off n : ℕ) {x : Bytes} → read_exact_at f off n ≡ ok x → length x ≡ n
read_exact_at-length f off n e = ap length (read_exact_at_inv f off n e).0 ∙ length-slice f off n

only_ok :
    (n : ℕ) (r r' : BlockRead)
    → ◌≡◌ {A = Result BlockRead} (ok r) (ok r')
    → HasSize n r
    → HasSize n r'
only_ok n r r' h size = let e : r ≡ r' = cc in rw (← e) size

read_present-HasSize :
    (disk : VhdxDisk) (file : File) (entry : BatEntry) (b : ℕ) (s : PayloadState) (r : BlockRead)
    → read_present disk file entry b s ≡ ok r
    → HasSize (block_size disk) r
unfolding read_present
read_present-HasSize disk file entry b fully_present r h =
    let (buf, e, h1) = >>=-eq-ok (read_exact_at file (file_offset entry) (block_size disk)) _ h in
    only_ok (block_size disk) (full buf) r h1
      (read_exact_at-length file (file_offset entry) (block_size disk) e)
read_present-HasSize disk file entry b zero_block r h =
    only_ok (block_size disk) (full (zeros (block_size disk))) r h (length-zeros (block_size disk))
read_present-HasSize disk file entry b partially_present r h =
    let (sb, e0, h0) = >>=-eq-ok (ok_or (sector_bitmap_entry disk.bat b) _) _ h in
    let (u, e1, h1) = >>=-eq-ok (guard (is_present (bitmap_from_raw (state sb))) _) _ h0 in
    let (payload, e2, h2) =
      >>=-eq-ok (read_exact_at file (file_offset entry) (block_size disk)) _ h1 in
    let (bm, e3, h3) = >>=-eq-ok (read_sector_bitmap disk file b) _ h2 in
    only_ok (block_size disk) (partial payload bm) r h3
      (read_exact_at-length file (file_offset entry) (block_size disk) e2)
read_present-HasSize disk file entry b not_present r h = only_ok (block_size disk) absent r h tt
read_present-HasSize disk file entry b unmapped r h = only_ok (block_size disk) absent r h tt
read_present-HasSize disk file entry b undefined r h = only_ok (block_size disk) absent r h tt
read_present-HasSize disk file entry b (other s) r h = cc

-- A block that is read has the size of a block.
pub read_block-HasSize :
    (disk : VhdxDisk) (file : File) (b : ℕ) (r : BlockRead)
    → read_block disk file b ≡ ok r
    → HasSize (block_size disk) r
unfolding read_block
read_block-HasSize disk file b r h =
    let (count, e0, h0) = >>=-eq-ok (block_count disk) _ h in
    let (u, e1, h1) = >>=-eq-ok (guard (ltb b count) _) _ h0 in
    let (entry, e2, h2) = >>=-eq-ok (ok_or (payload_entry disk.bat b) _) _ h1 in
    read_present-HasSize disk file entry b (from_raw (state entry)) r h2

-- Behind the last block nothing is read.
pub read_block_out :
    (disk : VhdxDisk) (file : File) (b count : ℕ)
    → block_count disk ≡ ok count
    → count ≤ b
    → (e : Error) × (read_block disk file b ≡ err e)
unfolding read_block
read_block_out disk file b count e h =
    let outside : ltb b count ≡ false = ground arith in
    (virt_offset_out_of_range (wrap64 (b * block_size disk)), rw (e, outside) refl)
