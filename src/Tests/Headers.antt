-- ===== src/Tests/Headers.antt =====
-- Headers written and read.
use starweld.Prelude.{◌+◌, ◌≤◌, ◌≡◌, refl, ap, ap₂, ◌∙◌, sym, true, arith, [], length, inl}
use starweld.Prelude.Bytes.{slice}
use starweld.Externals.{nil}
use starweld.Error.{ok}
use starweld.Format.{region_guid_bat, mib, header_1_offset, header_2_offset, header_size}
use starweld.IoUtil.{File, write_all_at}
use starweld.IoUtil.Files.{length-write_all_at, slice-write_self, slice-write_out}
use starweld.Header.{Header, HeaderPair, parse, encode, read, pick, is_valid, write_new, active}
use starweld.Header.RoundTrip.{Fits, pristine, length-encode, parse-encode_header}
use starweld.Header.Pair.{pick_lem, first, second, read-ok}
use starweld.Header.Replace.{Replaces, successor, write_new-Replaces}
use starweld.Tests.Crates.{crates}

-- `header_roundtrip` of header.rs.
abbrev h1 : Header
h1 = record {
  signature_ok = true;
  checksum_ok = true;
  checksum = 0;
  sequence_number = 7;
  file_write_guid = region_guid_bat;
  data_write_guid = 77;
  log_guid = nil;
  log_version = 0;
  version = 1;
  log_length = mib;
  log_offset = mib;
}

abbrev h2 : Header
h2 = record h1 { sequence_number = 8 }

h1-Fits : Fits h1
h1-Fits = omega arith

parse-encode_header_example :
    parse (encode h1)
    ≡ record h1 { signature_ok = true; checksum_ok = true; checksum = pristine h1 }
parse-encode_header_example = parse-encode_header h1 h1-Fits

-- `h1` in the first slot and `h2` in the second, as they are read.
abbrev d1 : Header
d1 = record h1 { checksum = pristine h1 }

abbrev d2 : Header
d2 = record h2 { checksum = pristine h2 }

pick_lem_example :
    (is_valid h2 ≡ true)
    × (is_valid h1 ≡ true → h1.sequence_number ≤ h2.sequence_number)
    × (is_valid h2 ≡ true → h2.sequence_number ≤ h2.sequence_number)
pick_lem_example = pick_lem h1 h2 1 (unfold pick is_valid in refl)

-- The file with the two headers; it is opaque, so that nothing evaluates it.
pub file : File
file = write_all_at (write_all_at [] header_1_offset (encode h1)) header_2_offset (encode h2)

long : header_2_offset + header_size ≤ length file
unfolding file
long = omega (
  arith,
  length-encode h2,
  length-write_all_at (write_all_at [] header_1_offset (encode h1)) header_2_offset (encode h2),
)

first_of_file : first file ≡ d1
unfolding file
first_of_file =
    ap parse (
      slice-write_out _ header_2_offset (encode h2) header_1_offset header_size (inl (omega arith))
      ∙ ap (slice (write_all_at [] header_1_offset (encode h1)) header_1_offset)
          (sym (length-encode h1))
      ∙ slice-write_self [] header_1_offset (encode h1))
    ∙ parse-encode_header h1 h1-Fits

second_of_file : second file ≡ d2
unfolding file
second_of_file =
    ap parse (
      ap (slice file header_2_offset) (sym (length-encode h2))
      ∙ slice-write_self _ header_2_offset (encode h2))
    ∙ parse-encode_header h2 (omega arith)

abbrev pair : HeaderPair
pair = record {
  header_0 = d1;
  header_1 = d2;
  raw_0 = slice file header_1_offset header_size;
  raw_1 = slice file header_2_offset header_size;
  active_index = 1;
}

read-file : read file ≡ ok pair
read-file =
    read-ok file 1 long (ap₂ pick first_of_file second_of_file ∙ unfold pick is_valid in refl)
    ∙ ap₂ (λ a b. ok (record pair { header_0 = a; header_1 = b })) first_of_file second_of_file

-- The log is marked as empty.
write_new-Replaces_example :
    Replaces file pair
      (successor (active pair) (λ h. record h { log_guid = nil }))
      (write_new file (active pair) (λ h. record h { log_guid = nil }))
write_new-Replaces_example =
    write_new-Replaces file pair (λ h. record h { log_guid = nil }) read-file
      (unfold active in omega arith) (unfold active in fits) (unfold active in refl)
      (unfold active in refl)
  where
    fits : Fits (record d2 { log_guid = nil; sequence_number = 9 })
    fits = omega arith
