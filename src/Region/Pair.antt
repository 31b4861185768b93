-- ===== src/Region/Pair.antt =====
-- The two copies of the table.
use starweld.Prelude.{◌+◌, ◌≤◌, ◌≡◌, refl, sym, ap, ◌∙◌, true, arith, All, length, inl}
use starweld.Prelude.{some}
use starweld.Prelude.Bytes.{slice}
use starweld.Externals.{Externals}
use starweld.Error.{ok}
use starweld.Format.{region_table_1_offset, region_table_2_offset, region_table_size}
use starweld.Format.{region_table_max_entries}
use starweld.IoUtil.{File, write_all_at}
use starweld.IoUtil.Files.{read_exact_at-ok, length-write_all_at, slice-write_self, slice-write_out}
use starweld.Region.{RegionTable, RegionTablePair, parse, active, read, write_both}
use starweld.Region.RoundTrip.{Fits, parse-encode_regions}

-- The table with its checksum found right.
abbrev pub checked : RegionTable → RegionTable
checked table = record { checksum_ok = true; entries = table.entries }

-- A file with two right copies of a table.
pub read_copies :
    ⦃ext : Externals⦄ (table : RegionTable) (file : File)
    → region_table_2_offset + region_table_size ≤ length file
    → parse (slice file region_table_1_offset region_table_size) ≡ checked table
    → parse (slice file region_table_2_offset region_table_size) ≡ checked table
    → read file
      ≡ ok (record {
        table_0 = some (checked table);
        table_1 = some (checked table);
        active_index = 0;
      })
unfolding read
read_copies table file long first second = rw (
  read_exact_at-ok file region_table_1_offset region_table_size (omega arith),
  read_exact_at-ok file region_table_2_offset region_table_size (omega arith),
  first,
  second,
)

module _ ⦃ext : Externals⦄ (table : RegionTable) (fits : All Fits table.entries)
    (few : length table.entries ≤ region_table_max_entries) where
  -- For a table of at most 2047 entries that fit their fields, write_both succeeds on any file,
  -- and reading the pair back succeeds with the table's entries as the active table and in the
  -- second slot.
  pub read-write_both :
      (file : File)
      → (file' : File) × (pair : RegionTablePair) × (write_both file table ≡ ok file')
        × (read file' ≡ ok pair)
        × (active pair ≡ ok (checked table))
        × (pair.table_1 ≡ some (checked table))
  unfolding write_both active
  read-write_both file =
      let (raw, e, size, parsed) = parse-encode_regions table fits few in
      let once = write_all_at file region_table_1_offset raw in
      let twice = write_all_at once region_table_2_offset raw in
      let l1 = length-write_all_at file region_table_1_offset raw (omega (arith, size)) in
      let l2 = length-write_all_at once region_table_2_offset raw (omega (arith, size)) in
      let first : parse (slice twice region_table_1_offset region_table_size) ≡ checked table =
        ap parse (
          slice-write_out once region_table_2_offset raw region_table_1_offset region_table_size
            (inl (omega arith))
          ∙ ap (slice once region_table_1_offset) (sym size)
          ∙ slice-write_self file region_table_1_offset raw)
        ∙ parsed in
      let second : parse (slice twice region_table_2_offset region_table_size) ≡ checked table =
        ap parse (
          ap (slice twice region_table_2_offset) (sym size)
          ∙ slice-write_self once region_table_2_offset raw)
        ∙ parsed in
      (
        twice,
        record { table_0 = some (checked table); table_1 = some (checked table); active_index = 0 },
        rw e,
        read_copies table twice (omega arith) first second,
        refl,
        refl,
      )
