-- ===== src/Compact.antt =====
-- crates/starweld-core/src/compact.rs: a disk is rewritten without its zero blocks. `fsck`, which
-- runs before, and the names and the renaming of the files are left out; the fresh GUIDs are
-- arguments.
pub mod ZeroTest
pub mod Copy
use starweld.Prelude.{ℕ, zero, suc, ◌+◌, ◌-◌, ◌*◌, min, Bool, true, false, none, []}
use starweld.Prelude.{length, ltb, ◌==◌, ◌&&◌, if◌then◌else◌, not}
use starweld.Prelude.Bytes.{Bytes, slice}
use starweld.Externals.{Externals, Uuid}
use starweld.Error.{Error, unsupported, Result, ok, err, ◌>>=◌, ◌>>◌, guard}
use starweld.Format.{mib}
use starweld.IoUtil.{File, is_all_zero}
use starweld.Disk.{
  VhdxDisk, BlockRead, full, partial, absent, read_block, open_file, has_parent, block_size,
  block_count, virtual_disk_size,
}
use starweld.Writer.{
  WriterParams, VhdxWriter, BlockSource, zero_source, buf, create, write_block, finish,
}

-- The loop of `is_all_zero_aligned`, on fuel: a round advances by a positive granularity.
unfoldable pub zero_chunks : ℕ → Bytes → ℕ → ℕ → Bool
zero_chunks zero content i g = true
zero_chunks (suc fuel) content i g =
    let end = min (i + g) (length content) in
    let rest = zero_chunks fuel content (i + g) g in
    if ltb i (length content)
    then (if is_all_zero (slice content i (end - i)) then rest else false)
    else true

unfoldable pub is_all_zero_aligned : Bytes → ℕ → Bool
is_all_zero_aligned content granularity =
    if granularity == 0 then false else zero_chunks (length content) content 0 granularity

-- The counters of `CompactReport`.
pub record CompactReport : Type 0 where
  pub blocks_total : ℕ
  pub blocks_written : ℕ
  pub blocks_zero : ℕ

unfoldable pub copy_buf :
    ℕ → VhdxWriter → ℕ → Bytes → CompactReport → Result (VhdxWriter × CompactReport)
copy_buf sparse_size w blk content report =
    if ltb 0 sparse_size && is_all_zero_aligned content sparse_size
    then (do
      w' ← write_block w blk zero_source
      ok (w', record report { blocks_zero = report.blocks_zero + 1 }))
    else (do
      w' ← write_block w blk (buf content)
      ok (w', record report { blocks_written = report.blocks_written + 1 }))

unfoldable pub copy_read :
    ℕ → VhdxWriter → ℕ → BlockRead → CompactReport → Result (VhdxWriter × CompactReport)
copy_read sparse_size w blk absent report = do
  w' ← write_block w blk zero_source
  ok (w', record report { blocks_zero = report.blocks_zero + 1 })
copy_read sparse_size w blk (full content) report = copy_buf sparse_size w blk content report
copy_read sparse_size w blk (partial payload bitmap) report =
    copy_buf sparse_size w blk payload report

-- The loop over the blocks, at block `blk` with `count` to go.
unfoldable pub copy_blocks :
    ℕ → VhdxDisk → File → ℕ → ℕ → VhdxWriter → CompactReport → Result (VhdxWriter × CompactReport)
copy_blocks sparse_size disk file blk zero w report = ok (w, report)
copy_blocks sparse_size disk file blk (suc count) w report =
    let next = copy_blocks sparse_size disk file (blk + 1) count in
    read_block disk file blk >>= λ read.
    copy_read sparse_size w blk read report >>= λ step. next step.0 step.1

module _ ⦃ext : Externals⦄ where
  -- From the bytes of the input to those of the output.
  unfoldable pub compact : File → ℕ → Uuid → Uuid → Result (File × CompactReport)
  compact file sparse_size data_write_guid file_write_guid = do
    disk ← open_file file true
    guard (not (has_parent disk))
        (unsupported "compact does not operate on differencing disks; flatten first")
    count ← block_count disk
    w ← create (record {
      virtual_disk_size = virtual_disk_size disk;
      block_size = block_size disk;
      logical_sector_size = disk.metadata.logical_sector_size;
      physical_sector_size = disk.metadata.physical_sector_size;
      fixed = false;
      parent_locator = none;
      log_size = mib;
      data_write_guid = data_write_guid;
      file_write_guid = file_write_guid;
      page_83_data = disk.metadata.page_83_data;
    })
    let report : CompactReport = record {
      blocks_total = count;
      blocks_written = 0;
      blocks_zero = 0;
    }
    copied ← copy_blocks sparse_size disk file 0 count w report
    out ← finish copied.0
    ok (out, copied.1)
