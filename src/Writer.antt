-- ===== src/Writer.antt =====
-- crates/starweld-core/src/writer.rs: a new disk written block by block. The path and the handle of
-- the file are left out, and with them `sync_data` and `reopen`: the writer holds the file's bytes.
pub mod Chunks
pub mod Blocks
pub mod Sequence
use starweld.Prelude.{
  ℕ, zero, suc, ◌+◌, ◌-◌, ◌*◌, ◌%◌, ◌^◌, min, max, Bool, true, false, Option, none, some,
}
use starweld.Prelude.{
  List, [], ◌∷◌, length, replicate, ltb, leb, ◌==◌, ◌||◌, if◌then◌else◌, not, wrap64,
}
use starweld.Prelude.Bytes.{Bytes, zeros, slice, splice}
use starweld.Externals.{Externals, Uuid, nil}
use starweld.Error.{Result, ok, err, panic, ◌>>=◌, ◌>>◌, must}
use starweld.Format.{
  mib, file_type_identifier_offset, file_type_signature, header_offset, region_table_offset,
}
use starweld.Format.{
  region_guid_bat, region_guid_metadata, payload_block_fully_present, payload_block_zero,
}
use starweld.Format.{payload_block_not_present}
use starweld.IoUtil.{File, set_len, write_all_at, zero_range, align_up}
use starweld.ParentLocator.{ParentLocator}
use starweld.Metadata.{Metadata, div_ceil, ratio}
use starweld.Metadata
use starweld.Region.{RegionTable}
use starweld.Region
use starweld.Header.{Header}
use starweld.Header
use starweld.Bat.{
  Bat, empty_entry, new_entry, file_offset, payload_entry, set_payload_entry, total_bat_entries,
}
use starweld.Bat

pub record WriterParams : Type 0 where
  pub virtual_disk_size : ℕ
  pub block_size : ℕ
  pub logical_sector_size : ℕ
  pub physical_sector_size : ℕ
  pub fixed : Bool
  pub parent_locator : Option ParentLocator
  pub log_size : ℕ
  pub data_write_guid : Uuid
  pub file_write_guid : Uuid
  pub page_83_data : Uuid

pub data BlockSource : Type 0 where
  zero_source : BlockSource
  buf : Bytes → BlockSource

pub record VhdxWriter : Type 0 where
  pub params : WriterParams
  pub file : File
  pub bat : Bat
  pub log_offset : ℕ
  pub metadata_offset : ℕ
  pub bat_offset : ℕ
  pub bat_length : ℕ
  pub payload_cursor : ℕ
  pub chunked_write_size : ℕ

abbrev is_some : Option ParentLocator → Bool
is_some (some pl) = true
is_some none = false

-- The metadata of a new disk.
unfoldable pub new_metadata : WriterParams → Metadata
new_metadata params = record {
  file_parameters = record {
    block_size = params.block_size;
    leave_blocks_allocated = params.fixed;
    has_parent = is_some params.parent_locator;
  };
  virtual_disk_size = params.virtual_disk_size;
  logical_sector_size = params.logical_sector_size;
  physical_sector_size = params.physical_sector_size;
  page_83_data = params.page_83_data;
  parent_locator = params.parent_locator;
  extras = [];
}

unfoldable pub new_region : ℕ → ℕ → ℕ → RegionTable
new_region metadata_offset_at bat_offset_at bat_length_bytes = record {
  checksum_ok = true;
  entries =
      record {
        guid = region_guid_metadata;
        file_offset = metadata_offset_at;
        length_bytes = mib;
        required = true;
      }
      ∷ record {
        guid = region_guid_bat;
        file_offset = bat_offset_at;
        length_bytes = bat_length_bytes % 2 ^ 32;
        required = true;
      }
      ∷ [];
}

-- The first header of a new disk; the second has sequence number 2.
unfoldable pub new_header : WriterParams → ℕ → Header
new_header params log_offset_at = record {
  signature_ok = true;
  checksum_ok = true;
  checksum = 0;
  sequence_number = 1;
  file_write_guid = params.file_write_guid;
  data_write_guid = params.data_write_guid;
  log_guid = nil;
  log_version = 0;
  version = 1;
  log_length = params.log_size % 2 ^ 32;
  log_offset = log_offset_at;
}

-- `bat_buf[..raw.len()].copy_from_slice(&raw)`
unfoldable pub pad_bat : Bat → ℕ → Result Bytes
pad_bat bat bat_length = do
  let raw = Bat.encode bat
  must (leb (length raw) bat_length)
  ok (splice (zeros bat_length) 0 raw)

-- The loop that allocates the blocks of a fixed image, at block `i` with `count` to go.
unfoldable pub allocate : ℕ → Bat → ℕ → ℕ → ℕ → Bat × ℕ
allocate block_size bat cur i zero = (bat, cur)
allocate block_size bat cur i (suc count) =
    allocate block_size (set_payload_entry bat i (new_entry payload_block_fully_present cur))
      (wrap64 (cur + block_size)) (i + 1) count

-- The loop of `write_payload_buf`, on fuel: each round with a positive chunk size writes a byte at
-- least.
unfoldable pub write_chunks : ℕ → File → ℕ → Bytes → ℕ → ℕ → File
write_chunks zero file cursor content i chunk_size = file
write_chunks (suc fuel) file cursor content i chunk_size =
    let end = min (i + chunk_size) (length content) in
    let rest =
      write_chunks fuel (write_all_at file cursor (slice content i (end - i))) (cursor + (end - i))
        content end chunk_size in
    if ltb i (length content) then rest else file

unfoldable pub write_payload_buf : VhdxWriter → ℕ → Bytes → VhdxWriter
write_payload_buf w offset content =
    let chunk_size = w.chunked_write_size in
    if chunk_size == 0 || leb (length content) chunk_size
    then record w { file = write_all_at w.file offset content }
    else record w { file = write_chunks (length content) w.file offset content 0 chunk_size }

unfoldable pub set_chunked_write_size : VhdxWriter → ℕ → VhdxWriter
set_chunked_write_size w chunk_size = record w { chunked_write_size = chunk_size }

abbrev slot_of : Option Bat.BatEntry → Result ℕ
slot_of (some e) = ok (file_offset e)
slot_of none = panic

unfoldable pub write_block : VhdxWriter → ℕ → BlockSource → Result VhdxWriter
write_block w block_index zero_source =
    ok (record w { bat = set_payload_entry w.bat block_index (new_entry payload_block_zero 0) })
write_block w block_index (buf content) = do
  off ← if w.params.fixed then slot_of (payload_entry w.bat block_index) else ok w.payload_cursor
  let written = write_payload_buf w off content
  if w.params.fixed
      then ok written
      else ok (record written {
        bat = set_payload_entry w.bat block_index (new_entry payload_block_fully_present off);
        payload_cursor = wrap64 (w.payload_cursor + w.params.block_size);
      })

unfoldable pub mark_not_present : VhdxWriter → ℕ → VhdxWriter
mark_not_present w block_index = record w {
  bat = set_payload_entry w.bat block_index (new_entry payload_block_not_present 0);
}

-- Returns the file.
unfoldable pub finish : VhdxWriter → Result File
finish w = do
  bat_buf ← pad_bat w.bat w.bat_length
  let flushed = write_all_at w.file w.bat_offset bat_buf
  ok (if w.params.fixed then flushed else set_len flushed w.payload_cursor)

-- The file that `create` writes up to the allocation table, before a fixed image is allocated.
module _ ⦃ext : Externals⦄ where
  unfoldable pub write_front : WriterParams → ℕ → ℕ → ℕ → ℕ → Bat → Result File
  write_front params log_offset_at metadata_offset_at bat_offset_at bat_length_bytes bat = do
    let fti = splice (zeros 65536) 0 file_type_signature
    let typed = write_all_at [] file_type_identifier_offset fti
    let reserved = zero_range typed 65536 (mib - 65536)
    let logged = zero_range reserved log_offset_at params.log_size
    metadata_buf ← Metadata.encode (new_metadata params) mib
    let described = write_all_at logged metadata_offset_at metadata_buf
    bat_buf ← pad_bat bat bat_length_bytes
    let mapped = write_all_at described bat_offset_at bat_buf
    region_buf ← Region.encode (new_region metadata_offset_at bat_offset_at bat_length_bytes)
    r0 ← region_table_offset 0
    r1 ← region_table_offset 1
    let tabled = write_all_at (write_all_at mapped r0 region_buf) r1 region_buf
    let h1 = new_header params log_offset_at
    let h2 = record h1 { sequence_number = 2 }
    o0 ← header_offset 0
    o1 ← header_offset 1
    ok (write_all_at (write_all_at tabled o0 (Header.encode h1)) o1 (Header.encode h2))

  unfoldable pub create : WriterParams → Result VhdxWriter
  create params = do
    blocks ← div_ceil params.virtual_disk_size params.block_size
    chunk_ratio ← ratio params.logical_sector_size params.block_size
    total_entries ← total_bat_entries blocks chunk_ratio (is_some params.parent_locator)
    let bat_bytes_needed = wrap64 (total_entries * 8)
    let bat_length = align_up (max bat_bytes_needed mib) mib
    let log_offset = mib
    let metadata_offset = wrap64 (log_offset + align_up params.log_size mib)
    let bat_offset = wrap64 (metadata_offset + mib)
    let payload_start = wrap64 (bat_offset + bat_length)
    let bat : Bat = record {
      entries = replicate total_entries empty_entry;
      chunk_ratio = chunk_ratio;
      block_count = blocks;
    }
    file ← write_front params log_offset metadata_offset bat_offset bat_length bat
    let w : VhdxWriter = record {
      params = params;
      file = file;
      bat = bat;
      log_offset = log_offset;
      metadata_offset = metadata_offset;
      bat_offset = bat_offset;
      bat_length = bat_length;
      payload_cursor = payload_start;
      chunked_write_size = 0;
    }
    if params.fixed
        then (do
          let (allocated, cur) = allocate params.block_size bat payload_start 0 blocks
          bat_buf ← pad_bat allocated bat_length
          ok (record w {
            file = set_len (write_all_at file bat_offset bat_buf) cur;
            bat = allocated;
          }))
        else ok (record w { file = set_len file payload_start })
