-- ===== src/Tests/Regions.antt =====
-- Region tables: the BAT and the metadata region of a new disk.
use starweld.Prelude.{◌*◌, ◌≡◌, ◌↔◌, true, arith, [], ◌∷◌, length, some, All}
use starweld.Error.{ok}
use starweld.Format.{mib, region_guid_bat, region_guid_metadata, region_table_size}
use starweld.IoUtil.{File}
use starweld.Region.{
  RegionTable, RegionTablePair, parse, encode, active, read, write_both, validate_layout,
}
use starweld.Region.Layout.{Disjoint, IsAligned, validate_layout_iff}
use starweld.Region.RoundTrip.{Fits, parse-encode_regions}
use starweld.Region.Pair.{read-write_both}
use starweld.Prelude.Bytes.{Bytes}
use starweld.Tests.Crates.{crates}

abbrev table : RegionTable
table = record {
  checksum_ok = true;
  entries =
      record { guid = region_guid_bat; file_offset = 3 * mib; length_bytes = mib; required = true }
      ∷ record {
        guid = region_guid_metadata;
        file_offset = 2 * mib;
        length_bytes = mib;
        required = true;
      }
      ∷ [];
}

table-Fits : All Fits table.entries
table-Fits = (omega arith, (omega arith, tt))

validate_layout_iff_example :
    (validate_layout table ≡ ok tt) ↔ (Disjoint table.entries × All IsAligned table.entries)
validate_layout_iff_example = validate_layout_iff table (omega arith)

parse-encode_regions_example :
    (buf : Bytes) × (encode table ≡ ok buf)
    × (length buf ≡ region_table_size)
    × (parse buf ≡ record { checksum_ok = true; entries = table.entries })
parse-encode_regions_example = parse-encode_regions table table-Fits (omega arith)

read-write_both_example :
    (file' : File) × (pair : RegionTablePair) × (write_both [] table ≡ ok file')
    × (read file' ≡ ok pair)
    × (active pair ≡ ok table)
    × (pair.table_1 ≡ some table)
read-write_both_example = read-write_both table table-Fits (omega arith) []
