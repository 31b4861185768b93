-- ===== src/Flatten/Driver.antt =====
-- `flatten_with_progress` of crates/starweld-core/src/flatten.rs, from the opened links of the chain
-- to the bytes of the output. `fsck`, the discovery of the chain, the events and the handling of
-- NTFS compression are left out; the fresh GUIDs are arguments. The loop merges a block with the
-- statements of `merge_block`, and calls it here.
use starweld.Prelude.{
  ℕ, zero, suc, ◌+◌, ◌/◌, Bool, true, false, ◌&&◌, not, none, List, [], ◌∷◌, ◌==◌, if◌then◌else◌,
}
use starweld.Prelude.Bytes.{Bytes}
use starweld.Externals.{Externals, Uuid}
use starweld.Error.{invalid_structure, Result, ok, panic, ◌>>=◌, ◌>>◌, guard, must}
use starweld.Format.{mib}
use starweld.IoUtil.{File, is_all_zero}
use starweld.Disk.{block_size, block_count, virtual_disk_size}
use starweld.Writer.{VhdxWriter, zero_source, buf, create, write_block, finish}
use starweld.Flatten.{ChainLink, merge_block}

pub data FlattenSubformat : Type 0 where
  dynamic fixed : FlattenSubformat

pub record FlattenOptions : Type 0 where
  pub subformat : FlattenSubformat
  pub elide_zero_blocks : Bool

-- The counters of `FlattenReport`.
pub record FlattenReport : Type 0 where
  pub blocks_total : ℕ
  pub blocks_written : ℕ
  pub blocks_zero : ℕ

abbrev pub is_fixed : FlattenSubformat → Bool
is_fixed dynamic = false
is_fixed fixed = true

unfoldable pub flatten_block :
    FlattenOptions → VhdxWriter → ℕ → Bytes → FlattenReport → Result (VhdxWriter × FlattenReport)
flatten_block opts w blk composite report =
    if opts.elide_zero_blocks && not (is_fixed opts.subformat) && is_all_zero composite
    then (do
      w' ← write_block w blk zero_source
      ok (w', record report { blocks_zero = report.blocks_zero + 1 }))
    else (do
      w' ← write_block w blk (buf composite)
      ok (w', record report { blocks_written = report.blocks_written + 1 }))

-- The loop over the blocks of the leaf, at block `blk` with `count` to go.
unfoldable pub flatten_blocks :
    FlattenOptions
    → List ChainLink
    → ℕ
    → ℕ
    → ℕ
    → ℕ
    → ℕ
    → VhdxWriter
    → FlattenReport
    → Result (VhdxWriter × FlattenReport)
flatten_blocks opts links leaf_block_size sector_size sectors_per_block blk zero w report =
    ok (w, report)
flatten_blocks opts links leaf_block_size sector_size sectors_per_block blk (suc count) w report =
    let next =
      flatten_blocks opts links leaf_block_size sector_size sectors_per_block (blk + 1) count in
    merge_block links blk leaf_block_size sector_size sectors_per_block >>= λ composite.
    flatten_block opts w blk composite report >>= λ step. next step.0 step.1

-- The disks behind the leaf have its virtual size and its sector size.
unfoldable pub check_links : ℕ → ℕ → List ChainLink → Result (Unit {0})
check_links size sector_size [] = ok tt
check_links size sector_size ((disk, file) ∷ links) = do
  guard (virtual_disk_size disk == size) (invalid_structure "virtual disk size mismatch in chain")
  guard (disk.metadata.logical_sector_size == sector_size)
      (invalid_structure "logical sector size mismatch in chain")
  check_links size sector_size links

module _ ⦃ext : Externals⦄ where
  unfoldable pub flatten_links :
      FlattenOptions → List ChainLink → Uuid → Uuid → Result (File × FlattenReport)
  flatten_links opts [] data_write_guid file_write_guid = panic
  flatten_links opts ((leaf, leaf_file) ∷ rest) data_write_guid file_write_guid = do
    count ← block_count leaf
    let sector_size = leaf.metadata.logical_sector_size
    check_links (virtual_disk_size leaf) sector_size rest
    w ← create (record {
      virtual_disk_size = virtual_disk_size leaf;
      block_size = block_size leaf;
      logical_sector_size = sector_size;
      physical_sector_size = leaf.metadata.physical_sector_size;
      fixed = is_fixed opts.subformat;
      parent_locator = none;
      log_size = mib;
      data_write_guid = data_write_guid;
      file_write_guid = file_write_guid;
      page_83_data = leaf.metadata.page_83_data;
    })
    must (not (sector_size == 0))
    let sectors_per_block = block_size leaf / sector_size
    let report : FlattenReport = record {
      blocks_total = count;
      blocks_written = 0;
      blocks_zero = 0;
    }
    merged ←
        flatten_blocks opts ((leaf, leaf_file) ∷ rest) (block_size leaf) sector_size
          sectors_per_block 0 count w report
    out ← finish merged.0
    ok (out, merged.1)
