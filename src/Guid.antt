-- ===== src/Guid.antt =====
-- crates/starweld-core/src/guid.rs and crc32c.rs: GUIDs and checksums inside a buffer.
pub mod Checksum
pub mod Fields
use starweld.Prelude.{ℕ, ◌+◌, ◌≤◌, length, leb, if◌then◌else◌}
use starweld.Prelude.Bytes.{Bytes, zeros, slice, splice}
use starweld.Externals.{Externals, Uuid}

module _ ⦃ext : Externals⦄ where
  unfoldable pub read_guid : Bytes → Uuid
  read_guid bytes = ext.from_bytes_le bytes

  unfoldable pub write_guid : Uuid → Bytes
  write_guid uuid = ext.to_bytes_le uuid

  -- The callers have tested that the 16 bytes are there.
  unfoldable pub read_guid_at : Bytes → ℕ → Uuid
  read_guid_at buf off = read_guid (slice buf off 16)

  unfoldable pub write_guid_at : Bytes → ℕ → Uuid → Bytes
  write_guid_at buf off uuid = splice buf off (write_guid uuid)

  unfoldable pub crc32c : Bytes → ℕ
  crc32c buf = ext.crc32c buf

  unfoldable pub crc32c_with_zeroed_field : Bytes → ℕ → ℕ
  crc32c_with_zeroed_field buf field_offset =
      let tmp =
        if leb (field_offset + 4) (length buf) then splice buf field_offset (zeros 4) else buf in
      ext.crc32c tmp
