-- ===== src/TarHeader/Fields.antt =====
-- What a reader of the archive finds in the header.
use starweld.Prelude.{ℕ, suc, ◌+◌, ◌-◌, ◌*◌, ◌%◌, ◌^◌, ◌≤◌, ◌<◌, ◌≡◌, sym, ap, ◌∙◌}
use starweld.Prelude.{[], ◌∷◌, ◌++◌, length, arith, leb, true, false, le→leb, inl}
use starweld.Prelude.{
  replicate, set, length-replicate, mod-eq_of_lt, All, All-append, All-set, All-replicate,
}
use starweld.Prelude.Bytes.{
  Bytes, zeros, byte, slice, splice, byte_total, field_laws, length-splice,
}
use starweld.Prelude.Bytes.{length-zeros, slice-splice_within, slice-splice_out}
use starweld.Prelude.Bytes.{bytes_ext, byte-splice, byte-slice}
use starweld.Prelude.Le.{IsByte}
use starweld.Error.{Result, ok, err, unsupported}
use starweld.TarHeader.{tar_block_size, tar_header_size, name_len, magic, version, root}
use starweld.TarHeader.{octal_digits, format_octal, write_octal_field, write_size_field}
use starweld.TarHeader.{header_fields, write_ustar_header, padding_to_block}
use starweld.TarHeader.Octal.{of_octal, of_octal-octal_digits, length-octal_digits}
use starweld.TarHeader.Octal.{format_octal_fits, length-write_octal_field, write_octal_field_fits}
use starweld.TarHeader.Size.{read_size, SizeField, write_size_field-SizeField, slice-append_first}
use starweld.TarHeader.Size.{octal_digits-small, small_IsByte}

blank-IsByte : All IsByte (zeros tar_header_size)
unfolding zeros
blank-IsByte = All-replicate IsByte tar_header_size 0 (omega arith)

All-splice :
    (buf : Bytes) (off : ℕ) (x : Bytes)
    → All IsByte buf
    → All IsByte x
    → All IsByte (splice buf off x)
unfolding splice
All-splice buf off [] h hx = h
All-splice buf off (b ∷ x) h hx =
    All-splice (set buf off b) (suc off) x (All-set IsByte buf off b h hx.0) hx.1

byte_total-le : (x : Bytes) → All IsByte x → byte_total x ≤ 255 * length x
unfolding byte_total
byte_total-le [] h = omega arith
byte_total-le (b ∷ x) h = omega (arith, byte_total-le x h.1)

write_octal_field-IsByte : (w v : ℕ) → v < 8 ^ w → 0 < w → All IsByte (write_octal_field w v)
write_octal_field-IsByte w v h p = rw (write_octal_field_fits w v h p) (
    All-append IsByte (octal_digits w v) (0 ∷ []) (small_IsByte _ (octal_digits-small w v))
      (omega arith, tt))

module _ (name size_field : Bytes) (mtime : ℕ) (hs : length size_field ≡ 12) where
  length-header_fields : length (header_fields name size_field mtime) ≡ tar_header_size
  unfolding header_fields
  length-header_fields = simp (length-splice, length-zeros)

  module _ (hn : All IsByte name) (hb : All IsByte size_field) (ht : mtime < 8 ^ 11) where
    header_fields-IsByte : All IsByte (header_fields name size_field mtime)
    unfolding header_fields
    header_fields-IsByte =
        let zero_field = write_octal_field-IsByte 7 0 (omega arith) (omega arith) in
        let mode_field = write_octal_field-IsByte 7 0x1A4 (omega arith) (omega arith) in
        let time_field = write_octal_field-IsByte 11 mtime ht (omega arith) in
        let spaces = All-replicate IsByte 8 b' ' (omega arith) in
        let digit : All IsByte (b'0' ∷ []) = omega arith in
        let marks : All IsByte magic × All IsByte version × All IsByte root = omega arith in
        let named = All-splice _ 0 name blank-IsByte hn in
        let ids =
          All-splice _ 116 _ (All-splice _ 108 _ (All-splice _ 100 _ named mode_field) zero_field)
            zero_field in
        let timed = All-splice _ 136 _ (All-splice _ 124 _ ids hb) time_field in
        let typed = All-splice _ 156 _ (All-splice _ 148 _ timed spaces) digit in
        let marked = All-splice _ 263 version (All-splice _ 257 magic typed marks.0) marks.1 in
        let owned = All-splice _ 297 root (All-splice _ 265 root marked marks.2) marks.2 in
        All-splice _ 337 _ (All-splice _ 329 _ owned zero_field) zero_field

    checksum_fits : byte_total (header_fields name size_field mtime) < 8 ^ 6
    checksum_fits = omega (
      arith,
      byte_total-le (header_fields name size_field mtime) header_fields-IsByte,
      length-header_fields,
    )

-- The header as it is written: the fields with the checksum in place.
abbrev sealed : Bytes → Bytes
sealed h = splice (splice h 148 (octal_digits 6 (byte_total h))) 154 (0 ∷ b' ' ∷ [])

-- How a reader computes the checksum: the field itself counts as eight spaces.
abbrev pub expected_checksum : Bytes → ℕ
expected_checksum h = byte_total (splice h 148 (replicate 8 b' '))

module _ (name size_field : Bytes) (mtime : ℕ) (hs : length size_field ≡ 12)
    (hl : length name ≤ name_len) where
  abbrev header : Bytes
  header = header_fields name size_field mtime

  length-sealed : length (sealed header) ≡ tar_header_size
  unfolding header_fields
  length-sealed = simp (length-splice, length-zeros)

  read_size_field : slice (sealed header) 124 12 ≡ size_field
  unfolding header_fields
  read_size_field = simp (field_laws, hs)

  read_mtime_field : slice (sealed header) 136 12 ≡ write_octal_field 11 mtime
  unfolding header_fields
  read_mtime_field = simp (field_laws, length-write_octal_field)

  read_checksum_field : slice (sealed header) 148 6 ≡ octal_digits 6 (byte_total header)
  unfolding header_fields
  read_checksum_field = simp (field_laws, length-octal_digits)

  read_magic : slice (sealed header) 257 6 ≡ magic
  unfolding header_fields
  read_magic = simp (field_laws, length-octal_digits)

  read_spaces : slice header 148 8 ≡ replicate 8 b' '
  unfolding header_fields
  read_spaces = simp (field_laws, length-replicate)

  kept :
      (buf : Bytes) (off : ℕ) (x : Bytes)
      → leb name_len off ≡ true
      → slice (splice buf off x) 0 (length name) ≡ slice buf 0 (length name)
  kept buf off x h = slice-splice_out buf off x 0 (length name) (inl (ground arith))

  read_name : slice (sealed header) 0 (length name) ≡ name
  unfolding header_fields
  read_name = simp kept (
      slice-splice_within (zeros tar_header_size) 0 name
        (omega (arith, length-zeros tar_header_size)))

  -- With the spaces back in their place the header is what the checksum was computed of.
  reseeded : splice (sealed header) 148 (replicate 8 b' ') ≡ header
  reseeded =
      let chk = octal_digits 6 (byte_total header) in
      let size = length-header_fields name size_field mtime hs in
      let first = splice header 148 chk in
      let spaces = length-replicate {A = ℕ} 8 b' ' in
      bytes_ext _ header
        (length-splice (sealed header) 148 (replicate 8 b' ') ∙ length-sealed ∙ sym size)
        λ k lt. ground (
          arith,
          spaces,
          length-sealed,
          size,
          length-splice header 148 chk,
          length-octal_digits 6 (byte_total header),
          byte-splice (sealed header) 148 (replicate 8 b' ') k,
          byte-splice first 154 (0 ∷ b' ' ∷ []) k,
          byte-splice header 148 chk k,
          byte-slice header 148 8 (k - 148),
          ap (λ s. byte s (k - 148)) read_spaces,
        )

not_le : (a b : ℕ) → b < a → leb a b ≡ false
not_le a b h = ground arith

-- A header from which a reader takes the name, the size and the time, with the right checksum.
pub record IsUstar (out name : Bytes) (size mtime : ℕ) (r : Result Bytes) : Type 0 where
  pub block : Bytes
  pub returns : r ≡ ok (out ++ block)
  pub length_block : length block ≡ tar_block_size
  pub name_reads : slice block 0 (length name) ≡ name
  pub size_reads : read_size (slice block 124 12) ≡ size
  pub mtime_reads : of_octal (slice (slice block 136 12) 0 11) ≡ mtime
  pub checksum_reads : of_octal (slice block 148 6) ≡ expected_checksum block
  pub magic_reads : slice block 257 6 ≡ magic

module _ (out name : Bytes) (size mtime : ℕ) (hn : All IsByte name) (hs : size < 2 ^ 64)
    (ht : mtime < 8 ^ 11) where
  module _ (hl : length name ≤ name_len) (f : SizeField size (write_size_field size)) where
    abbrev fields : Bytes
    fields = header_fields name f.field_bytes mtime

    total_fits : byte_total fields < 8 ^ 6
    total_fits = checksum_fits name f.field_bytes mtime f.width hn f.all_bytes ht

    digits_of_total :
        format_octal 6 (byte_total fields % 2 ^ 32) ≡ octal_digits 6 (byte_total fields)
    digits_of_total =
        let e : byte_total fields % 2 ^ 32 ≡ byte_total fields =
          mod-eq_of_lt (let lt : byte_total fields < 2 ^ 32 = omega (arith, total_fits) in lt) in
        rw e (format_octal_fits 6 (byte_total fields) total_fits (omega arith))

    sealed-IsUstar : IsUstar out name size mtime (write_ustar_header out name size mtime)
    unfolding write_ustar_header
    sealed-IsUstar = record {
      block = sealed fields;
      returns =
          rw (le→leb _ _ hl, f.returns, digits_of_total, length-octal_digits 6 (byte_total fields));
      length_block = length-sealed name f.field_bytes mtime f.width hl;
      name_reads = read_name name f.field_bytes mtime f.width hl;
      size_reads = ap read_size (read_size_field name f.field_bytes mtime f.width hl) ∙ f.reads;
      mtime_reads =
          ap (λ s. of_octal (slice s 0 11))
            (read_mtime_field name f.field_bytes mtime f.width hl
              ∙ write_octal_field_fits 11 mtime ht (omega arith))
          ∙ ap of_octal (
              slice-append_first (octal_digits 11 mtime) (0 ∷ []) 11 (length-octal_digits 11 mtime))
          ∙ of_octal-octal_digits 11 mtime ht;
      checksum_reads =
          ap of_octal (read_checksum_field name f.field_bytes mtime f.width hl)
          ∙ of_octal-octal_digits 6 (byte_total fields) total_fits
          ∙ sym (ap byte_total (reseeded name f.field_bytes mtime f.width hl));
      magic_reads = read_magic name f.field_bytes mtime f.width hl;
    }

  -- For a name of bytes, a size below 2^64 and a time below 8^11: if the name has at most 100
  -- bytes, write_ustar_header appends one block from which a reader takes the name, the size
  -- (octal or base-256), the time, the magic and a checksum that is the sum of the block's bytes
  -- with spaces in its place; a longer name is an error.
  pub write_ustar_header_lem :
      (length name ≤ name_len
        → IsUstar out name size mtime (write_ustar_header out name size mtime))
      × (name_len < length name
          → write_ustar_header out name size mtime
            ≡ err (unsupported "tar entry filename too long is not supported"))
  write_ustar_header_lem = (
    λ h. sealed-IsUstar h (write_size_field-SizeField size hs),
    λ h. unfold write_ustar_header in rw (not_le (length name) name_len h),
  )

-- The padding is less than a block and brings the size to a multiple of the block size.
pub padding_to_block_lem :
    (size : ℕ)
    → ((size + padding_to_block size) % tar_block_size ≡ 0)
      × (padding_to_block size < tar_block_size)
unfolding padding_to_block
padding_to_block_lem size = ground arith
