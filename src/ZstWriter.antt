-- ===== src/ZstWriter.antt =====
-- crates/starweld-core/src/zst_writer.rs: a new disk written from front to back, with its table
-- behind the blocks. The sink is the list of the bytes it has taken.
pub mod Table
pub mod Places
pub mod Stream
pub mod Begin
pub mod Pieces
pub mod Headed
pub mod Front
pub mod TableSize
use starweld.Prelude.{
  ℕ, zero, suc, ◌+◌, ◌-◌, ◌*◌, ◌%◌, ◌^◌, min, max, Bool, true, false, not, List, [], ◌∷◌, ◌++◌,
}
use starweld.Prelude.{length, replicate, ltb, leb, ◌==◌, if◌then◌else◌, wrap64}
use starweld.Prelude.Bytes.{Bytes, zeros, splice}
use starweld.Externals.{Externals}
use starweld.Error.{Error, invalid_structure, Result, ok, err, ◌>>=◌, ◌>>◌, guard, must}
use starweld.Format.{
  mib, file_type_identifier_size, file_type_signature, region_guid_bat, region_guid_metadata,
}
use starweld.Format.{payload_block_fully_present, payload_block_zero}
use starweld.IoUtil.{align_up}
use starweld.Metadata
use starweld.Region.{RegionTable}
use starweld.Region
use starweld.Header
use starweld.Bat.{Bat, empty_entry, new_entry, set_payload_entry, total_bat_entries}
use starweld.Writer.{WriterParams, new_metadata, new_header, pad_bat}

pub record Layout : Type 0 where
  pub block_size : ℕ
  pub log_offset : ℕ
  pub log_size : ℕ
  pub metadata_offset : ℕ
  pub metadata_length : ℕ
  pub payload_start : ℕ
  pub bat_offset : ℕ
  pub bat_length : ℕ
  pub non_zero_blocks : ℕ
  pub total_size : ℕ

unfoldable pub compute : WriterParams → ℕ → ℕ → Layout
compute params non_zero_blocks bat_entries =
    let log_size = align_up params.log_size mib in
    let metadata_offset = wrap64 (mib + log_size) in
    let payload_start = wrap64 (metadata_offset + mib) in
    let payload_end = wrap64 (payload_start + wrap64 (non_zero_blocks * params.block_size)) in
    let bat_offset = align_up payload_end mib in
    let bat_bytes_needed = wrap64 (bat_entries * 8) in
    let bat_length = align_up (max bat_bytes_needed mib) mib in
    record {
      block_size = params.block_size;
      log_offset = mib;
      log_size = log_size;
      metadata_offset = metadata_offset;
      metadata_length = mib;
      payload_start = payload_start;
      bat_offset = bat_offset;
      bat_length = bat_length;
      non_zero_blocks = non_zero_blocks;
      total_size = wrap64 (bat_offset + bat_length);
    }

-- The loop of `build_bat_for_layout`, at block `blk` with `seq` blocks placed.
unfoldable pub place_blocks : ℕ → ℕ → Bat → ℕ → ℕ → List Bool → Bat × ℕ
place_blocks payload_start block_size bat seq blk [] = (bat, seq)
place_blocks payload_start block_size bat seq blk (z ∷ is_zero) =
    let off = wrap64 (payload_start + wrap64 (seq * block_size)) in
    if z
    then place_blocks payload_start block_size
        (set_payload_entry bat blk (new_entry payload_block_zero 0)) seq (blk + 1) is_zero
    else place_blocks payload_start block_size
        (set_payload_entry bat blk (new_entry payload_block_fully_present off)) (seq + 1) (blk + 1)
        is_zero

-- `take(n)`
unfoldable pub take : ℕ → List Bool → List Bool
take zero bits = []
take (suc n) [] = []
take (suc n) (b ∷ bits) = b ∷ take n bits

unfoldable pub build_bat_for_layout : ℕ → ℕ → Bool → ℕ → ℕ → List Bool → Result (Bat × ℕ)
build_bat_for_layout block_count chunk_ratio has_parent payload_start block_size is_zero = do
  total_entries ← total_bat_entries block_count chunk_ratio has_parent
  let bat : Bat = record {
    entries = replicate total_entries empty_entry;
    chunk_ratio = chunk_ratio;
    block_count = block_count;
  }
  ok (place_blocks payload_start block_size bat 0 0 (take block_count is_zero))

pub record ZstStreamWriter : Type 0 where
  pub out : Bytes
  pub cursor : ℕ
  pub layout : Layout
  pub bat : Bat
  pub expected_payload_blocks : ℕ
  pub written_payload_blocks : ℕ

-- `out` and `cursor`.
abbrev pub Sink : Type 0
Sink = Bytes × ℕ

unfoldable pub write_block : Sink → Bytes → Sink
write_block (out, cursor) buf = (out ++ buf, wrap64 (cursor + length buf))

-- The loop of `write_zeros`, on fuel: a round with bytes to go writes one at least.
unfoldable pub zero_loop : ℕ → Bytes → ℕ → Bytes
zero_loop zero out remaining = out
zero_loop (suc fuel) out remaining =
    let n = min remaining 65536 in
    let rest = zero_loop fuel (out ++ zeros n) (remaining - n) in
    if ltb 0 remaining then rest else out

unfoldable pub write_zeros : Sink → ℕ → Sink
write_zeros (out, cursor) len =
    if len == 0 then (out, cursor) else (zero_loop len out len, wrap64 (cursor + len))

-- A target before the cursor wraps in a release build.
unfoldable pub pad_to : Sink → ℕ → Sink
pad_to (out, cursor) target =
    if cursor == target
    then (out, cursor)
    else write_zeros (out, cursor) (wrap64 (target + (2 ^ 64 - cursor)))

unfoldable pub new_region : Layout → RegionTable
new_region layout = record {
  checksum_ok = true;
  entries =
      record {
        guid = region_guid_metadata;
        file_offset = layout.metadata_offset;
        length_bytes = layout.metadata_length % 2 ^ 32;
        required = true;
      }
      ∷ record {
        guid = region_guid_bat;
        file_offset = layout.bat_offset;
        length_bytes = layout.bat_length % 2 ^ 32;
        required = true;
      }
      ∷ [];
}

module _ ⦃ext : Externals⦄ where
  unfoldable pub begin : WriterParams → Bat → Layout → Result ZstStreamWriter
  begin params bat layout = do
    let fti = splice (zeros file_type_identifier_size) 0 file_type_signature
    let typed = write_block ([], 0) fti
    let h1 = new_header params layout.log_offset
    let h2 = record h1 { sequence_number = 2 }
    let headed = write_block (write_block typed (Header.encode h1)) (Header.encode h2)
    region_buf ← Region.encode (new_region layout)
    let tabled = write_block (write_block headed region_buf) region_buf
    let reserved = pad_to tabled layout.log_offset
    let logged = write_zeros reserved layout.log_size
    metadata_buf ← Metadata.encode (new_metadata params) layout.metadata_length
    let described = write_block logged metadata_buf
    ok (record {
      out = described.0;
      cursor = described.1;
      layout = layout;
      bat = bat;
      expected_payload_blocks = layout.non_zero_blocks;
      written_payload_blocks = 0;
    })

unfoldable pub write_payload_block : ZstStreamWriter → Bytes → Result ZstStreamWriter
write_payload_block w buf = do
  guard (ltb w.written_payload_blocks w.expected_payload_blocks) (
      invalid_structure
        "ZstStreamWriter received more payload blocks than the layout was sized for")
  let sink = write_block (w.out, w.cursor) buf
  ok (record w {
    out = sink.0;
    cursor = sink.1;
    written_payload_blocks = w.written_payload_blocks + 1;
  })

unfoldable pub finish : ZstStreamWriter → Result Bytes
finish w = do
  guard (w.written_payload_blocks == w.expected_payload_blocks)
      (invalid_structure "ZstStreamWriter got another number of payload blocks than expected")
  let padded = pad_to (w.out, w.cursor) w.layout.bat_offset
  bat_buf ← pad_bat w.bat w.layout.bat_length
  ok (write_block padded bat_buf).0
