-- ===== src/Merge/Driver.antt =====
-- The steps of `merge_with_progress` around the loop: the checks, the parent opened again, and what is
-- written at the end. The paths are the caller's: `merge_files` has the bytes of the child, and those
-- of the parent if `resolve_parent` finds it. The deletion of the child is left out.
use starweld.Prelude.{Bool, true, false, not, Option, none}
use starweld.Prelude.{some, length, leb, ◌==◌, if◌then◌else◌}
use starweld.Prelude.Bytes.{zeros, splice}
use starweld.Externals.{Externals, Uuid, nil}
use starweld.Error.{Result, ok, ◌>>=◌, ◌>>◌, must, guard, ok_or, missing_region}
use starweld.Error.{invalid_structure, parent_not_found, parent_guid_mismatch}
use starweld.IoUtil.{File, read_exact_at, write_all_at}
use starweld.Header.{Header, HeaderPair, verify_file_type, write_new}
use starweld.Header
use starweld.Region.{RegionEntry, RegionTable}
use starweld.Region
use starweld.Metadata.{Metadata}
use starweld.Metadata
use starweld.ParentLocator.{parent_linkage}
use starweld.Bat.{Bat, BatEntry, PayloadState, not_present, undefined, zero_block, unmapped}
use starweld.Bat.{fully_present, partially_present, other, from_raw, state, file_offset, new_entry}
use starweld.Bat.{payload_entry, set_payload_entry}
use starweld.Bat
use starweld.Disk.{VhdxDisk, BlockRead, full, partial, absent, bit_is_set, read_block, open_file}
use starweld.Disk
use starweld.Repair.{fsck}
use starweld.Merge.{MergeState, start_merge, merge_blocks}

pub record MergeOptions : Type 0 where
  pub keep_child : Bool
  pub skip_fsck : Bool

-- The checks on the two disks.
unfoldable pub check_linkage : Option Uuid → Uuid → Result (Unit {0})
check_linkage none actual = ok tt
check_linkage (some expected) actual =
    guard (actual == expected) (parent_guid_mismatch expected actual)

unfoldable pub check_disks : VhdxDisk → VhdxDisk → Result (Unit {0})
check_disks child parent = do
  guard (Disk.virtual_disk_size parent == Disk.virtual_disk_size child)
      (invalid_structure "virtual disk size mismatch")
  guard (Disk.block_size parent == Disk.block_size child) (invalid_structure "block size mismatch")
  guard (parent.metadata.logical_sector_size == child.metadata.logical_sector_size)
      (invalid_structure "logical sector size mismatch")

-- The table behind the region's end is an index out of range.
unfoldable pub persist_bat : File → RegionEntry → Bat → Result File
persist_bat file region bat = do
  let raw = Bat.encode bat
  must (leb (length raw) region.length_bytes)
  ok (write_all_at file region.file_offset (splice (zeros region.length_bytes) 0 raw))

-- The changes to the parent's header.
unfoldable pub touch : Uuid → Uuid → Header → Header
touch data_guid file_guid h = record h {
  data_write_guid = data_guid;
  file_write_guid = file_guid;
  log_guid = nil;
}

module _ ⦃ext : Externals⦄ where
  -- The parent, opened again for writing: its headers, the region of its table, and the table.
  unfoldable pub open_parent : File → Result (HeaderPair × RegionEntry × Bat)
  open_parent file = do
    verify_file_type file
    pair ← Header.read file
    region_pair ← Region.read file
    region ← Region.active region_pair
    bat_region ← ok_or (Region.bat region) (missing_region "BAT")
    metadata_region ← ok_or (Region.metadata region) (missing_region "Metadata")
    metadata_buf ← read_exact_at file metadata_region.file_offset metadata_region.length_bytes
    metadata ← Metadata.parse metadata_buf
    bat_buf ← read_exact_at file bat_region.file_offset bat_region.length_bytes
    blocks ← Metadata.block_count metadata
    ratio ← Metadata.chunk_ratio metadata
    bat ← Bat.parse bat_buf blocks ratio metadata.file_parameters.has_parent
    ok (pair, bat_region, bat)

  unfoldable pub repaired : MergeOptions → File → Result File
  repaired opts file =
      let checked = (do
        (file', _) ← fsck file (record { fix = true; dry_run = false; allow_log_discard = true })
        ok file') in
      if opts.skip_fsck then ok file else checked

  -- From the parent, opened for writing, to its new bytes and the counters. The two updates of the
  -- headers start from the header that was in force before.
  unfoldable pub merge_into : VhdxDisk → File → File → Uuid → Uuid → Result (File × MergeState)
  unfolding persist_bat start_merge
  merge_into child child_file parent_file new_data_guid new_file_guid = do
    (pair, bat_region, bat) ← open_parent parent_file
    let bs = Disk.block_size child
    let sector_size = child.metadata.logical_sector_size
    block_count ← Disk.block_count child
    must (not (sector_size == 0))
    merged ←
        merge_blocks bs sector_size child child_file 0 block_count (start_merge parent_file bat)
    file1 ← persist_bat merged.parent_file bat_region merged.parent_bat
    (file2, _) ← write_new file1 (Header.active pair) (touch new_data_guid new_file_guid)
    (file3, _) ← write_new file2 (Header.active pair) (touch new_data_guid new_file_guid)
    ok (file3, merged)

  -- The repaired child and the merged parent. What the caller has resolved is in `found`.
  unfoldable pub merge_files :
      MergeOptions → File → Option File → Uuid → Uuid → Result (File × File × MergeState)
  unfolding repaired check_linkage check_disks merge_into
  merge_files opts child found new_data_guid new_file_guid = do
    child_file ← repaired opts child
    child_disk ← open_file child_file true
    guard (Disk.has_parent child_disk)
        (invalid_structure "not a differencing disk; nothing to merge")
    pl ←
        ok_or child_disk.metadata.parent_locator
          (invalid_structure "HasParent set but no parent locator")
    parent ← ok_or found (parent_not_found "parent locator did not resolve to an existing file")
    parent_file ← repaired opts parent
    parent_disk ← open_file parent_file true
    check_linkage (parent_linkage pl) (Disk.active_header parent_disk).data_write_guid
    check_disks child_disk parent_disk
    (merged_file, merged) ← merge_into child_disk child_file parent_file new_data_guid new_file_guid
    ok (child_file, merged_file, merged)
