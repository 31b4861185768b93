-- ===== src/Guid/Fields.antt =====
-- GUIDs as fields of a buffer.
use starweld.Prelude.{◌≡◌, length}
use starweld.Prelude.Bytes.{field_laws}
use starweld.Prelude.Le.{length-le_bytes}
use starweld.Externals.{Externals, Uuid, IsUuid}
use starweld.Guid.{read_guid, write_guid}

module _ ⦃ext : Externals⦄ where
  pub length-write_guid : (u : Uuid) → length (write_guid u) ≡ 16
  unfolding write_guid
  length-write_guid u = ext.length-to_bytes_le u

  -- The conversions of the crate undo one another through the two helpers.
  pub read_guid-write_guid : (u : Uuid) → IsUuid u → read_guid (write_guid u) ≡ u
  unfolding read_guid write_guid
  read_guid-write_guid u h = ext.from_bytes_le-to_bytes_le u h

-- Numbers, GUIDs and signatures read out of a buffer written at literal offsets.
pub ruleset layout = (field_laws, length-le_bytes, length-write_guid)
