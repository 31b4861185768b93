-- ===== src/Disk.antt =====
-- crates/starweld-core/src/disk.rs: one open file, and the blocks it holds. The path, which only
-- messages use, is left out, and opening the file by its path is the caller's: `open_file` starts
-- from the file's bytes.
pub mod Blocks
use Prim.Native.Nat.{bit_and}
use starweld.Prelude.{
  ℕ, ◌+◌, ◌*◌, ◌/◌, ◌%◌, ◌^◌, Bool, true, false, ◌||◌, Option, some, none, length,
}
use starweld.Prelude.{ltb, leb, ◌==◌, if◌then◌else◌, wrap64}
use starweld.Prelude.Bytes.{Bytes, zeros, byte, splice}
use starweld.Externals.{Externals, nil}
use starweld.Error.{Error, missing_region, dirty_log, virt_offset_out_of_range, invalid_structure}
use starweld.Error.{unsupported, Result, ok, err, panic, ◌>>=◌, ◌>>◌, guard, ok_or}
use starweld.Format.{region_table_offset}
use starweld.IoUtil.{File, read_exact_at, read_at, write_all_at}
use starweld.Header.{HeaderPair, Header, verify_file_type}
use starweld.Header
use starweld.Region.{RegionTable, RegionEntry, RegionTablePair}
use starweld.Region
use starweld.Metadata.{Metadata, div_ceil}
use starweld.Metadata
use starweld.Bat.{
  Bat, BatEntry, PayloadState, fully_present, zero_block, partially_present, not_present,
}
use starweld.Bat.{unmapped, undefined, other, SectorBitmapState, payload_entry, sector_bitmap_entry}
use starweld.Bat.{state, file_offset, from_raw, bitmap_from_raw}
use starweld.Bat

pub record VhdxDisk : Type 0 where
  pub read_only : Bool
  pub header_pair : HeaderPair
  pub region_pair : RegionTablePair
  pub region : RegionTable
  pub bat_region : RegionEntry
  pub metadata_region : RegionEntry
  pub metadata : Metadata
  pub bat : Bat
  pub file_len : ℕ

pub data BlockRead : Type 0 where
  full : Bytes → BlockRead
  partial : (payload bitmap : Bytes) → BlockRead
  absent : BlockRead

unfoldable pub block_size : VhdxDisk → ℕ
unfolding Metadata.block_size
block_size disk = Metadata.block_size disk.metadata

unfoldable pub virtual_disk_size : VhdxDisk → ℕ
virtual_disk_size disk = disk.metadata.virtual_disk_size

unfoldable pub block_count : VhdxDisk → Result ℕ
block_count disk = Metadata.block_count disk.metadata

unfoldable pub has_parent : VhdxDisk → Bool
has_parent disk = disk.metadata.file_parameters.has_parent

unfoldable pub active_header : VhdxDisk → Header
active_header disk = Header.active disk.header_pair

unfoldable pub bit_is_set : Bytes → ℕ → Bool
bit_is_set bm i =
    let at = i / 8 in
    let bit = i % 8 in if leb (length bm) at then false else bit_and (byte bm at / 2 ^ bit) 1 == 1

abbrev pub is_present : SectorBitmapState → Bool
is_present SectorBitmapState.present = true
is_present SectorBitmapState.not_present = false
is_present (SectorBitmapState.other s) = false

-- The part of the bitmap behind the end of the file stays zero. The offset sum is below 2 ^ 64, since
-- a block's bits are within the first MiB of its chunk.
unfoldable pub read_sector_bitmap : VhdxDisk → File → ℕ → Result Bytes
read_sector_bitmap disk file block_index = do
  chunk_ratio ← Metadata.chunk_ratio disk.metadata
  block_in_chunk ← if chunk_ratio == 0 then panic else ok (block_index % chunk_ratio)
  sb_entry ←
      ok_or (sector_bitmap_entry disk.bat block_index) (invalid_structure "no sector bitmap entry")
  let sb_offset = file_offset sb_entry
  let sector_size = disk.metadata.logical_sector_size
  bits_per_block ← if sector_size == 0 then panic else ok (block_size disk / sector_size)
  bytes_per_block ← div_ceil bits_per_block 8
  let bit_offset_in_chunk = block_in_chunk * bits_per_block
  let byte_offset_in_chunk = bit_offset_in_chunk / 8
  guard (bit_offset_in_chunk % 8 == 0)
      (unsupported "sub-byte sector bitmap alignment is not yet supported")
  ok (
      splice (zeros bytes_per_block) 0
        (read_at file (sb_offset + byte_offset_in_chunk) bytes_per_block))

unfoldable pub read_present : VhdxDisk → File → BatEntry → ℕ → PayloadState → Result BlockRead
read_present disk file entry block_index fully_present = do
  buf ← read_exact_at file (file_offset entry) (block_size disk)
  ok (full buf)
read_present disk file entry block_index zero_block = ok (full (zeros (block_size disk)))
read_present disk file entry block_index partially_present = do
  sb_entry ←
      ok_or (sector_bitmap_entry disk.bat block_index) (invalid_structure "missing sector bitmap")
  guard (is_present (bitmap_from_raw (state sb_entry)))
      (invalid_structure "PartiallyPresent block without Present sector bitmap")
  payload ← read_exact_at file (file_offset entry) (block_size disk)
  bm ← read_sector_bitmap disk file block_index
  ok (partial payload bm)
read_present disk file entry block_index not_present = ok absent
read_present disk file entry block_index unmapped = ok absent
read_present disk file entry block_index undefined = ok absent
read_present disk file entry block_index (other s) = err (invalid_structure "unknown payload state")

unfoldable pub read_block : VhdxDisk → File → ℕ → Result BlockRead
read_block disk file block_index = do
  count ← block_count disk
  guard (ltb block_index count) (virt_offset_out_of_range (wrap64 (block_index * block_size disk)))
  entry ←
      ok_or (payload_entry disk.bat block_index) (invalid_structure "BAT entry missing for block")
  read_present disk file entry block_index (from_raw (state entry))

module _ ⦃ext : Externals⦄ where
  unfoldable pub open_file : File → Bool → Result VhdxDisk
  open_file file read_only = do
    verify_file_type file
    header_pair ← Header.read file
    region_pair ← Region.read file
    region ← Region.active region_pair
    Region.validate_layout region
    bat_region ← ok_or (Region.bat region) (missing_region "BAT")
    metadata_region ← ok_or (Region.metadata region) (missing_region "Metadata")
    metadata_buf ← read_exact_at file metadata_region.file_offset metadata_region.length_bytes
    metadata ← Metadata.parse metadata_buf
    bat_buf ← read_exact_at file bat_region.file_offset bat_region.length_bytes
    blocks ← Metadata.block_count metadata
    ratio ← Metadata.chunk_ratio metadata
    bat ← Bat.parse bat_buf blocks ratio metadata.file_parameters.has_parent
    let active = Header.active header_pair
    guard (read_only || active.log_guid == nil) dirty_log
    ok (record {
      read_only = read_only;
      header_pair = header_pair;
      region_pair = region_pair;
      region = region;
      bat_region = bat_region;
      metadata_region = metadata_region;
      metadata = metadata;
      bat = bat;
      file_len = length file;
    })

  unfoldable pub rewrite_region_tables : VhdxDisk → File → Result File
  rewrite_region_tables disk file = do
    raw ← Region.encode disk.region
    off0 ← region_table_offset 0
    off1 ← region_table_offset 1
    ok (write_all_at (write_all_at file off0 raw) off1 raw)
