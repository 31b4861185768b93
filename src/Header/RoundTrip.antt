-- ===== src/Header/RoundTrip.antt =====
-- `encode`, and `parse` of what it wrote.
use starweld.Prelude.{ℕ, ◌^◌, ◌<◌, ◌≡◌, ◌∙◌, true, arith, length}
use starweld.Prelude.Bytes.{zeros, slice, bytes_eq_refl}
use starweld.Prelude.Bytes.{length-zeros, length-splice}
use starweld.Prelude.Bytes.{byte}
use starweld.Guid.Fields.{layout, read_guid-write_guid}
use starweld.Guid.Checksum.{crc32c-lt, crc32c_with_zeroed_field-splice}
use starweld.Prelude.{replicate, ==_refl}
use starweld.Prelude.Le.{
  get_le, put_le, length-put_le, get_le-put_le, length-le_bytes, of_le-le_bytes,
}
use starweld.Externals.{Externals, IsUuid}
use starweld.Format.{header_signature, header_size, header_fixed_size}
use starweld.Guid.{read_guid_at, write_guid_at, crc32c, crc32c_with_zeroed_field}
use starweld.Header.{Header, encode_fields, encode, parse}

-- Fields that fit their places.
pub record Fits (h : Header) : Type 0 where
  pub sequence_number_fits : h.sequence_number < 2 ^ 64
  pub file_write_guid_fits : IsUuid h.file_write_guid
  pub data_write_guid_fits : IsUuid h.data_write_guid
  pub log_guid_fits : IsUuid h.log_guid
  pub log_version_fits : h.log_version < 2 ^ 16
  pub version_fits : h.version < 2 ^ 16
  pub log_length_fits : h.log_length < 2 ^ 32
  pub log_offset_fits : h.log_offset < 2 ^ 64

abbrev pub pristine : ⦃ext : Externals⦄ → Header → ℕ
pristine h = crc32c (slice (encode_fields h) 0 header_fixed_size)

module _ ⦃ext : Externals⦄ (h : Header) where
  length-encode_fields : length (encode_fields h) ≡ header_size
  unfolding encode_fields put_le write_guid_at
  length-encode_fields = simp (length-splice, length-zeros)

  pub length-encode : length (encode h) ≡ header_size
  unfolding encode
  length-encode = length-put_le 4 _ 4 _ ∙ length-encode_fields

  sig : slice (encode h) 0 4 ≡ header_signature
  unfolding encode encode_fields get_le put_le write_guid_at
  sig = simp layout

  checksum_clear : slice (encode_fields h) 4 4 ≡ zeros 4
  unfolding encode_fields put_le write_guid_at zeros slice byte replicate
  checksum_clear = simp layout

  checksum_read : get_le 4 (encode h) 4 ≡ pristine h
  unfolding encode
  checksum_read =
      get_le-put_le 4 (encode_fields h) 4 (pristine h) (crc32c-lt _)
        (omega (arith, length-encode_fields))

  checksum_calc : crc32c_with_zeroed_field (slice (encode h) 0 header_fixed_size) 4 ≡ pristine h
  unfolding encode put_le
  checksum_calc =
      crc32c_with_zeroed_field-splice (encode_fields h) 4 _ header_fixed_size (length-le_bytes 4 _)
        (omega arith) (omega (arith, length-encode_fields)) checksum_clear

  module _ (f : Fits h) where
    numbers :
        (get_le 8 (encode h) 8 ≡ h.sequence_number)
        × (get_le 2 (encode h) 64 ≡ h.log_version)
        × (get_le 2 (encode h) 66 ≡ h.version)
        × (get_le 4 (encode h) 68 ≡ h.log_length)
        × (get_le 8 (encode h) 72 ≡ h.log_offset)
    unfolding encode encode_fields get_le put_le write_guid_at
    numbers = (
      simp layout (of_le-le_bytes 8 _ f.sequence_number_fits),
      simp layout (of_le-le_bytes 2 _ f.log_version_fits),
      simp layout (of_le-le_bytes 2 _ f.version_fits),
      simp layout (of_le-le_bytes 4 _ f.log_length_fits),
      simp layout (of_le-le_bytes 8 _ f.log_offset_fits),
    )

    guids :
        (read_guid_at (encode h) 16 ≡ h.file_write_guid)
        × (read_guid_at (encode h) 32 ≡ h.data_write_guid)
        × (read_guid_at (encode h) 48 ≡ h.log_guid)
    unfolding encode encode_fields get_le put_le write_guid_at read_guid_at
    guids = (
      simp layout (read_guid-write_guid _ f.file_write_guid_fits),
      simp layout (read_guid-write_guid _ f.data_write_guid_fits),
      simp layout (read_guid-write_guid _ f.log_guid_fits),
    )

    -- For a header that fits its fields, parse of its encoding gives back every field that encode
    -- writes, with the signature and the checksum found right.
    pub parse-encode_header :
        parse (encode h)
        ≡ record h { signature_ok = true; checksum_ok = true; checksum = pristine h }
    unfolding parse
    parse-encode_header = rw (
      length-encode,
      sig,
      bytes_eq_refl header_signature,
      checksum_read,
      checksum_calc,
      ==_refl (pristine h),
      numbers.0,
      numbers.1,
      numbers.2,
      numbers.3,
      numbers.4,
      guids.0,
      guids.1,
      guids.2,
    )
