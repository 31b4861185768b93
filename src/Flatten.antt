-- ===== src/Flatten.antt =====
-- crates/starweld-core/src/flatten.rs: the merge of a chain of disks, leaf first, into the blocks of
-- one disk.
pub mod Cells
pub mod Spec
pub mod Sectors
pub mod Overlap
pub mod Link
pub mod Merge
pub mod Scan
pub mod Driver
pub mod Output
pub mod Archive
use starweld.Prelude.{
  ℕ, zero, suc, ◌+◌, ◌-◌, ◌*◌, ◌/◌, ◌^◌, min, max, Bool, true, false, List, [], ◌∷◌,
}
use starweld.Prelude.{
  length, get_or, set, replicate, ltb, leb, ◌==◌, if◌then◌else◌, not, ◌&&◌, wrap64,
}
use starweld.Prelude.Bytes.{Bytes, zeros, slice, splice}
use starweld.Error.{Result, ok, err, panic, ◌>>=◌, ◌>>◌, must}
use starweld.IoUtil.{File, is_all_zero}
use starweld.Disk.{
  VhdxDisk, BlockRead, full, partial, absent, block_size, block_count, read_block, bit_is_set,
}

-- `composite` and `sector_filled`.
pub record Fill : Type 0 where
  pub composite : Bytes
  pub sector_filled : List Bool

-- The loops over the sectors of one block that was read, at sector `s` with `count` to go. That for a
-- full block copies every sector that is not filled, that for a partial block those whose bit is
-- set: `has` is that test.
unfoldable pub fill_sectors : (ℕ → Bool) → Bytes → ℕ → ℕ → ℕ → ℕ → ℕ → Fill → Result Fill
fill_sectors has content v_start link_v_start sector_size s zero st = ok st
fill_sectors has content v_start link_v_start sector_size s (suc count) st =
    let next = fill_sectors has content v_start link_v_start sector_size (s + 1) count in
    let dlo = s * sector_size in
    let dhi = dlo + sector_size in
    let src_v = wrap64 (v_start + dlo) in
    let slo = wrap64 (src_v + (2 ^ 64 - link_v_start)) in
    let shi = wrap64 (slo + sector_size) in
    if get_or st.sector_filled s true
    then must (ltb s (length st.sector_filled)) >> next st
    else if has (slo / sector_size)
    then (do
      must (leb slo shi && leb shi (length content))
      must (leb dhi (length st.composite))
      next (record {
        composite = splice st.composite dlo (slice content slo sector_size);
        sector_filled = set st.sector_filled s true;
      }))
    else next st

-- `(lo..hi).all(|s| sector_filled[s])`
unfoldable pub range_filled : List Bool → ℕ → ℕ → Result Bool
range_filled filled s zero = ok true
range_filled filled s (suc count) =
    let rest = range_filled filled (s + 1) count in
    must (ltb s (length filled)) >> (if get_or filled s true then rest else ok false)

unfoldable pub fill_read : BlockRead → ℕ → ℕ → ℕ → ℕ → ℕ → Fill → Result Fill
fill_read absent v_start link_v_start sector_size lo count st = ok st
fill_read (full content) v_start link_v_start sector_size lo count st =
    fill_sectors (λ i. true) content v_start link_v_start sector_size lo count st
fill_read (partial payload bitmap) v_start link_v_start sector_size lo count st =
    fill_sectors (bit_is_set bitmap) payload v_start link_v_start sector_size lo count st

-- The loop over the blocks of the link, at block `link_blk` with `count` to go.
unfoldable pub fill_blocks : VhdxDisk → File → ℕ → ℕ → ℕ → ℕ → ℕ → ℕ → Fill → Result Fill
fill_blocks disk file v_start v_end sector_size link_block_count link_blk zero st = ok st
fill_blocks disk file v_start v_end sector_size link_block_count link_blk (suc count) st =
    let next =
      fill_blocks disk file v_start v_end sector_size link_block_count (link_blk + 1) count in
    let link_bs = block_size disk in
    let link_v_start = wrap64 (link_blk * link_bs) in
    let ov_start = max v_start link_v_start in
    let ov_end = min v_end (wrap64 (link_v_start + link_bs)) in
    let dst_sec_lo = (ov_start - v_start) / sector_size in
    let dst_sec_hi = (ov_end - v_start) / sector_size in
    if leb link_block_count link_blk then ok st else if leb ov_end ov_start then next st else (do
      must (not (sector_size == 0))
      done ← range_filled st.sector_filled dst_sec_lo (dst_sec_hi - dst_sec_lo)
      if done then next st else (do
        read ← read_block disk file link_blk
        st' ←
            fill_read read v_start link_v_start sector_size dst_sec_lo (dst_sec_hi - dst_sec_lo) st
        next st'))

-- An empty range at 0 has its last byte at 2 ^ 64 - 1 and overlaps no block, as with a last byte at 0.
unfoldable pub fill_from_link : VhdxDisk → File → ℕ → ℕ → Fill → Result Fill
fill_from_link disk file v_start sector_size st = do
  let leaf_len = length st.composite
  let v_end = wrap64 (v_start + leaf_len)
  let link_bs = block_size disk
  link_block_count ← block_count disk
  let first_link_blk = v_start / link_bs
  let last_link_blk = (v_end - 1) / link_bs
  if link_block_count == 0
      then ok st
      else fill_blocks disk file v_start v_end sector_size link_block_count first_link_blk
          (last_link_blk + 1 - first_link_blk) st

-- `sector_filled.iter().all(|&v| v)`
unfoldable pub all_filled : List Bool → Bool
all_filled [] = true
all_filled (b ∷ filled) = if b then all_filled filled else false

abbrev pub ChainLink : Type 0
ChainLink = VhdxDisk × File

unfoldable pub merge_links : List ChainLink → ℕ → ℕ → Fill → Result Fill
merge_links [] v_start sector_size st = ok st
merge_links ((disk, file) ∷ links) v_start sector_size st = do
  st' ← fill_from_link disk file v_start sector_size st
  if all_filled st'.sector_filled then ok st' else merge_links links v_start sector_size st'

unfoldable pub merge_block : List ChainLink → ℕ → ℕ → ℕ → ℕ → Result Bytes
merge_block links block_index leaf_block_size sector_size sectors_per_block = do
  let v_start = wrap64 (block_index * leaf_block_size)
  st ← merge_links links v_start sector_size (record {
    composite = zeros leaf_block_size;
    sector_filled = replicate sectors_per_block false;
  })
  ok st.composite

-- The loop at block `blk` with `count` to go: the bits from there on.
unfoldable pub analyze_blocks : List ChainLink → ℕ → ℕ → ℕ → ℕ → ℕ → Result (List Bool)
analyze_blocks links leaf_block_size sector_size sectors_per_block blk zero = ok []
analyze_blocks links leaf_block_size sector_size sectors_per_block blk (suc count) = do
  composite ← merge_block links blk leaf_block_size sector_size sectors_per_block
  rest ← analyze_blocks links leaf_block_size sector_size sectors_per_block (blk + 1) count
  ok (is_all_zero composite ∷ rest)

-- The progress callback and the hints to the page cache are left out.
unfoldable pub analyze_chain_zero_blocks : List ChainLink → ℕ → ℕ → ℕ → ℕ → Result (List Bool)
analyze_chain_zero_blocks links block_count leaf_block_size sector_size sectors_per_block =
    analyze_blocks links leaf_block_size sector_size sectors_per_block 0 block_count
