-- ===== src/Header.antt =====
-- crates/starweld-core/src/header.rs: the file type identifier and the two headers.
pub mod RoundTrip
pub mod Pair
pub mod Replace
use starweld.Prelude.{ℕ, zero, suc, ◌+◌, ◌%◌, ◌^◌, ◌≤◌, Bool, true, false, ◌&&◌, not, List, [], ◌∷◌}
use starweld.Prelude.{length, ltb, leb, ◌==◌, if◌then◌else◌, wrap64}
use starweld.Prelude.Bytes.{Bytes, zeros, slice, splice, bytes_eq}
use starweld.Prelude.Le.{get_le, put_le}
use starweld.Externals.{Externals, Uuid, nil}
use starweld.Error.{
  Error, bad_signature, no_valid_header, Result, ok, err, panic, ◌>>=◌, ◌>>◌, guard,
}
use starweld.Format.{file_type_identifier_offset, file_type_signature, header_fixed_size}
use starweld.Format.{header_signature, header_size, header_offset}
use starweld.IoUtil.{File, read_exact_at, write_all_at}
use starweld.Guid.{read_guid_at, write_guid_at, crc32c, crc32c_with_zeroed_field}

unfoldable pub verify_file_type : File → Result (Unit {0})
verify_file_type file = do
  sig ← read_exact_at file file_type_identifier_offset 8
  guard (bytes_eq sig file_type_signature) (bad_signature sig)

pub record Header : Type 0 where
  pub signature_ok : Bool
  pub checksum_ok : Bool
  pub checksum : ℕ
  pub sequence_number : ℕ
  pub file_write_guid : Uuid
  pub data_write_guid : Uuid
  pub log_guid : Uuid
  pub log_version : ℕ
  pub version : ℕ
  pub log_length : ℕ
  pub log_offset : ℕ

-- What `parse` starts from.
abbrev pub blank : Header
blank = record {
  signature_ok = false;
  checksum_ok = false;
  checksum = 0;
  sequence_number = 0;
  file_write_guid = nil;
  data_write_guid = nil;
  log_guid = nil;
  log_version = 0;
  version = 0;
  log_length = 0;
  log_offset = 0;
}

unfoldable pub is_valid : Header → Bool
is_valid h = h.signature_ok && h.checksum_ok && h.version == 1 && h.log_version == 0

module _ ⦃ext : Externals⦄ where
  unfoldable pub parse : Bytes → Header
  parse buf =
      let checksum = get_le 4 buf 4 in
      let calc = crc32c_with_zeroed_field (slice buf 0 header_fixed_size) 4 in
      if ltb (length buf) header_fixed_size
      then blank
      else if not (bytes_eq (slice buf 0 4) header_signature)
      then blank
      else record {
        signature_ok = true;
        checksum_ok = calc == checksum;
        checksum = checksum;
        sequence_number = get_le 8 buf 8;
        file_write_guid = read_guid_at buf 16;
        data_write_guid = read_guid_at buf 32;
        log_guid = read_guid_at buf 48;
        log_version = get_le 2 buf 64;
        version = get_le 2 buf 66;
        log_length = get_le 4 buf 68;
        log_offset = get_le 8 buf 72;
      }

  -- The writes of `encode` up to the checksum, in their order.
  unfoldable pub encode_fields : Header → Bytes
  encode_fields h =
      let signed = splice (zeros header_size) 0 header_signature in
      let numbered = put_le 8 signed 8 h.sequence_number in
      let guids =
        write_guid_at
          (write_guid_at (write_guid_at numbered 16 h.file_write_guid) 32 h.data_write_guid) 48
          h.log_guid in
      let versions = put_le 2 (put_le 2 guids 64 h.log_version) 66 h.version in
      put_le 8 (put_le 4 versions 68 h.log_length) 72 h.log_offset

  unfoldable pub encode : Header → Bytes
  unfolding encode_fields
  encode h =
      let buf = encode_fields h in
      let cs = crc32c (slice buf 0 header_fixed_size) in put_le 4 buf 4 cs

-- `headers`, `raw` and `active_index`, which is 0 or 1.
pub record HeaderPair : Type 0 where
  pub header_0 : Header
  pub header_1 : Header
  pub raw_0 : Bytes
  pub raw_1 : Bytes
  pub active_index : ℕ

-- `headers[active_index]`
unfoldable pub active : HeaderPair → Header
active pair = if pair.active_index == 0 then pair.header_0 else pair.header_1

unfoldable pub pick : Header → Header → Result ℕ
pick h0 h1 =
    if is_valid h0
    then (if is_valid h1
        then (if leb h1.sequence_number h0.sequence_number then ok 0 else ok 1)
        else ok 0)
    else if is_valid h1
    then ok 1
    else err no_valid_header

-- The slot that `write_new` overwrites.
unfoldable pub target_idx : Result HeaderPair → ℕ
target_idx (ok p) =
    if is_valid p.header_0
    then (if is_valid p.header_1
        then (if leb p.header_0.sequence_number p.header_1.sequence_number then 0 else 1)
        else 1)
    else 0
target_idx (err e) = 0
target_idx panic = 0

module _ ⦃ext : Externals⦄ where
  unfoldable pub read : File → Result HeaderPair
  read file = do
    off0 ← header_offset 0
    off1 ← header_offset 1
    raw0 ← read_exact_at file off0 header_size
    raw1 ← read_exact_at file off1 header_size
    let h0 = parse raw0
    let h1 = parse raw1
    index ← pick h0 h1
    ok (record { header_0 = h0; header_1 = h1; raw_0 = raw0; raw_1 = raw1; active_index = index })

  -- Returns the file and the new sequence number.
  unfoldable pub write_new : File → Header → (Header → Header) → Result (File × ℕ)
  write_new file current mutate = do
    let mutated = mutate current
    let new_h = record mutated { sequence_number = wrap64 (current.sequence_number + 1) }
    let raw = encode new_h
    offset ← header_offset (target_idx (read file))
    ok (write_all_at file offset raw, new_h.sequence_number)
