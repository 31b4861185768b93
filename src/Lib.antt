-- ===== src/Lib.antt =====
-- starweld, a library and tool for VHDX virtual disks: it opens disks and chains of differencing
-- disks, flattens a chain into one disk, compacts a disk, merges a disk into its parent, repairs a
-- disk by replaying its log, and writes new ones. This development models the library,
-- crates/starweld-core, bottom up as its modules use each other.
--
-- Where each part is (paths from crates/starweld-core/src):
--   Error            error.rs: `Error`; `Result` is ok, err or panic (a Rust panic as a value).
--   Format           format.rs: signatures, offsets, GUIDs.
--   IoUtil           io_util.rs: `read_exact_at`, `write_all_at`, `read_at`, `align_up`,
--                    `is_all_zero`, `zero_range`. A file is the list of its bytes.
--   Guid             guid.rs and crc32c.rs, over the crates of Externals.
--   Bat              bat.rs: the words of the block allocation table, where the entries of a block
--                    stand, the table in memory and on disk.
--   Header           header.rs: one header, and the pair of which the valid one with the higher
--                    sequence number is in force; `HeaderPair::write_new` is `write_new`.
--   Region           region.rs: the region table, its two copies, `validate_layout`.
--   ParentLocator    parent_locator.rs; Metadata: metadata.rs.
--   Disk             disk.rs: `VhdxDisk::open` is `open_file`, `read_block`, `read_sector_bitmap`.
--   Log              log.rs: `parse_entry` in Log.Entry, `scan_log` in Log.Scan (its first pass is
--                    `collect`, the choice of the run `best_entries`), `apply_replay` and
--                    `mark_log_clean` in Log.Replay.
--   Flatten          flatten.rs: `fill_from_link` (a loop over the blocks of a link and a loop over
--                    sectors), `merge_block`, `analyze_chain_zero_blocks`; Flatten.Driver is the
--                    loop of `flatten_with_progress` that writes the output, Flatten.Archive
--                    `flatten_to_zst` with its second pass `stream_blocks`, and
--                    `inner_archive_name`.
--   Writer           writer.rs: `VhdxWriter` with `create`, `write_block`, `write_payload_buf`,
--                    `finish`; `&mut self` is passed and returned.
--   TarHeader        tar_header.rs: `write_ustar_header`, `write_ustar_eof`, `padding_to_block`.
--   Repair           repair.rs: `fsck` in its steps, with its report in Repair.Report,
--                    `open_repaired`, `force_clean_log`.
--   Merge            merge.rs: `merge_with_progress`; the loop over the blocks is `merge_blocks`, and
--                    in Merge.Driver stands what comes before it, `open_parent`, and after it,
--                    `persist_bat` and two updates of the headers.
--   Chain            chain.rs: `Chain::discover` is `discover`, its loop `walk`; `resolve_parent`.
--   Compact          compact.rs: `is_all_zero_aligned` and `compact`.
--   ZstWriter        zst_writer.rs: `Layout::compute` is `compute`, `build_bat_for_layout`, and the
--                    stream writer over a sink that is the list of its bytes.
--   Prelude          numbers, lists, bytes, little-endian fields and UTF-16 that these share.
--   Tests            concrete inputs that meet the hypotheses of the theorems.
--
-- Conventions. A `u64` or `usize` sum or product that an input can carry past 2 ^ 64 is written
-- `wrap64`, as the release build computes it; sums of offsets of a buffer in memory are plain. A
-- difference is written only where the code has tested that it is not negative, or with the wrap
-- written out. An index out of range and a division by zero are `panic`; `debug_assert` is absent
-- from a release build and from the model. A message keeps its fixed text. The crates `crc32c` and
-- `uuid` are the fields of `Externals`, with what their documentation promises as laws; fresh GUIDs
-- are arguments. Recursion is on the number of rounds of a loop; where a loop is a `while`, it is on
-- fuel, the length of the range, since each round advances by a byte at least (`zero_range_loop`,
-- `write_chunks`, `zero_chunks`, `zero_loop`; the theorems hold with this fuel), `pad_tail` has
-- the eight rounds that reach a multiple of 8, `collect` the length of the log (a round advances by
-- a sector), `skip_sectors` the number of descriptors (a round passes 128 of them), and `octal_len`
-- the rounds for the 22 digits of a 64-bit number.
-- `Chain.walk` has no result when the rounds run out before the chain ends; a number of rounds above
-- the number of canonical paths at which a disk opens is enough, since no path is visited twice.
--
-- The abstract views: `Flatten.Spec.merged` says sector by sector what a chain holds, with no
-- blocks, loops or buffers, and `Writer.Blocks.block_content` sees a disk that is being written as
-- an array of blocks. `Log.Writes.overlay` says of a byte which logged write decides it,
-- `Merge.Homes.held` sees a parent as an array of its fully present blocks and `Merge.Homes.spot`
-- says where the blocks lie that it has in whole or in part, `Repair.DryRun.inspect` is fsck for a
-- reader of the file, and `Flatten.Archive.Spec.IsArchived` says what an archive holds.
--
-- Not modelled: the file system (paths, temporary names, renaming and deletion, a full disk, the
-- file that a failed operation leaves), threads and the page cache, progress events, NTFS compression
-- (compress.rs), the zstd encoder (zst_compress.rs), which is an argument of `flatten_to_zst`, and the
-- command line (crates/starweld-cli).
pub mod Prelude
pub mod Error
pub mod Externals
pub mod Format
pub mod IoUtil
pub mod Guid
pub mod Bat
pub mod Header
pub mod Region
pub mod ParentLocator
pub mod Metadata
pub mod Disk
pub mod Log
pub mod Flatten
pub mod Writer
pub mod TarHeader
pub mod Repair
pub mod Merge
pub mod Chain
pub mod Compact
pub mod ZstWriter
pub mod Tests
