-- ===== src/Region.antt =====
-- crates/starweld-core/src/region.rs: the region table, its two copies and its layout check.
pub mod Intervals
pub mod Layout
pub mod RoundTrip
pub mod Pair
use Prim.Native.Nat.{bit_and}
use starweld.Prelude.{ℕ, zero, suc, ◌+◌, ◌*◌, ◌%◌, ◌^◌, Bool, true, false, ◌&&◌, ◌||◌, not}
use starweld.Prelude.{Option, none, some, List, [], ◌∷◌, map, length, ltb, leb, ◌==◌, if◌then◌else◌}
use starweld.Prelude.{wrap64}
use starweld.Prelude.Bytes.{Bytes, zeros, slice, splice, bytes_eq}
use starweld.Prelude.Le.{get_le, put_le}
use starweld.Externals.{Externals, Uuid}
use starweld.Error.{
  Error, invalid_structure, no_valid_region_table, Result, ok, err, panic, ◌>>=◌, ◌>>◌, guard,
}
use starweld.Error.{must}
use starweld.Format.{region_signature, region_table_header_size, region_table_entry_size, mib}
use starweld.Format.{region_table_max_entries, region_table_size, region_table_offset}
use starweld.Format.{region_guid_bat, region_guid_metadata, region_flag_required}
use starweld.IoUtil.{File, read_exact_at, write_all_at}
use starweld.Guid.{read_guid_at, write_guid_at, crc32c, crc32c_with_zeroed_field}

pub record RegionEntry : Type 0 where
  pub guid : Uuid
  pub file_offset : ℕ
  pub length_bytes : ℕ
  pub required : Bool

pub record RegionTable : Type 0 where
  pub checksum_ok : Bool
  pub entries : List RegionEntry

-- `entries.iter().find(|e| e.guid == guid)`
unfoldable pub find_entry : List RegionEntry → Uuid → Option RegionEntry
find_entry [] guid = none
find_entry (e ∷ es) guid = if e.guid == guid then some e else find_entry es guid

unfoldable pub find : RegionTable → Uuid → Option RegionEntry
unfolding find_entry
find table guid = find_entry table.entries guid

unfoldable pub bat : RegionTable → Option RegionEntry
unfolding find
bat table = find table region_guid_bat

unfoldable pub metadata : RegionTable → Option RegionEntry
unfolding find
metadata table = find table region_guid_metadata

abbrev pub Interval : Type 0
Interval = ℕ × ℕ

unfoldable pub interval : RegionEntry → Interval
interval e = (e.file_offset, wrap64 (e.file_offset + e.length_bytes))

-- The order of tuples by which `sort` goes.
unfoldable pub interval_le : Interval → Interval → Bool
interval_le (a, b) (c, d) = ltb a c || a == c && leb b d

unfoldable pub insert : Interval → List Interval → List Interval
insert x [] = x ∷ []
insert x (y ∷ ys) = if interval_le x y then x ∷ y ∷ ys else y ∷ insert x ys

unfoldable pub sort : List Interval → List Interval
unfolding insert
sort [] = []
sort (x ∷ xs) = insert x (sort xs)

-- The loop over `intervals.windows(2)`: whether some window overlaps.
unfoldable pub overlapping : List Interval → Bool
overlapping [] = false
overlapping (x ∷ []) = false
overlapping (x ∷ y ∷ ys) = ltb y.0 x.1 || overlapping (y ∷ ys)

unfoldable pub check_alignment : List RegionEntry → Result (Unit {0})
check_alignment [] = ok tt
check_alignment (e ∷ es) = do
  guard (e.file_offset % mib == 0) (invalid_structure "region offset not 1 MiB aligned")
  guard (e.length_bytes % mib == 0) (invalid_structure "region length not 1 MiB aligned")
  check_alignment es

unfoldable pub validate_layout : RegionTable → Result (Unit {0})
validate_layout table = do
  let intervals = sort (map interval table.entries)
  guard (not (overlapping intervals)) (invalid_structure "regions overlap")
  check_alignment table.entries

module _ ⦃ext : Externals⦄ where
  unfoldable pub parse_entry : Bytes → ℕ → RegionEntry
  parse_entry buf off = record {
    guid = read_guid_at buf off;
    file_offset = get_le 8 buf (off + 16);
    length_bytes = get_le 4 buf (off + 24);
    required = not (bit_and (get_le 4 buf (off + 28)) region_flag_required == 0);
  }

  -- The loop of `parse`, at entry `i` with `count` to go.
  unfoldable pub parse_entries : Bytes → ℕ → ℕ → List RegionEntry
  parse_entries buf i zero = []
  parse_entries buf i (suc count) =
      parse_entry buf (region_table_header_size + i * region_table_entry_size)
      ∷ parse_entries buf (i + 1) count

  unfoldable pub parse : Bytes → RegionTable
  parse buf =
      let none_read : RegionTable = record { checksum_ok = false; entries = [] } in
      let checksum = get_le 4 buf 4 in
      let entry_count = get_le 4 buf 8 in
      let need = region_table_header_size + entry_count * region_table_entry_size in
      let calc = crc32c_with_zeroed_field buf 4 in
      if ltb (length buf) region_table_header_size
      then none_read
      else if not (bytes_eq (slice buf 0 4) region_signature)
      then none_read
      else if ltb region_table_max_entries entry_count
      then none_read
      else if ltb (length buf) need
      then none_read
      else record { checksum_ok = calc == checksum; entries = parse_entries buf 0 entry_count }

  unfoldable pub put_entry : Bytes → ℕ → RegionEntry → Bytes
  put_entry buf off e =
      let named = write_guid_at buf off e.guid in
      let placed = put_le 8 named (off + 16) e.file_offset in
      let sized = put_le 4 placed (off + 24) e.length_bytes in
      let flags = if e.required then region_flag_required else 0 in put_le 4 sized (off + 28) flags

  unfoldable pub put_entries : Bytes → ℕ → List RegionEntry → Bytes
  put_entries buf i [] = buf
  put_entries buf i (e ∷ es) =
      put_entries (put_entry buf (region_table_header_size + i * region_table_entry_size) e) (i + 1)
        es

  -- The writes of `encode` up to the checksum.
  unfoldable pub encode_fields : RegionTable → Bytes
  encode_fields table =
      let signed = splice (zeros region_table_size) 0 region_signature in
      put_entries (put_le 4 signed 8 (length table.entries)) 0 table.entries

  -- An entry behind the end of the buffer is an index out of range.
  unfoldable pub encode : RegionTable → Result Bytes
  encode table = do
    must (
        leb (region_table_header_size + length table.entries * region_table_entry_size)
          region_table_size)
    let buf = encode_fields table
    let cs = crc32c buf
    ok (put_le 4 buf 4 cs)

pub record RegionTablePair : Type 0 where
  pub table_0 : Option RegionTable
  pub table_1 : Option RegionTable
  pub active_index : ℕ

-- `tables[active_index].expect(..)`
unfoldable pub active : RegionTablePair → Result RegionTable
active pair = expect (if pair.active_index == 0 then pair.table_0 else pair.table_1)
  where
    expect : Option RegionTable → Result RegionTable
    expect (some t) = ok t
    expect none = panic

module _ ⦃ext : Externals⦄ where
  unfoldable pub read : File → Result RegionTablePair
  read file = do
    off0 ← region_table_offset 0
    off1 ← region_table_offset 1
    buf0 ← read_exact_at file off0 region_table_size
    buf1 ← read_exact_at file off1 region_table_size
    let r0 = parse buf0
    let r1 = parse buf1
    index ←
        if r0.checksum_ok then ok 0 else if r1.checksum_ok then ok 1 else err no_valid_region_table
    ok (record {
      table_0 = if r0.checksum_ok then some r0 else none;
      table_1 = if r1.checksum_ok then some r1 else none;
      active_index = index;
    })

  unfoldable pub write_both : File → RegionTable → Result File
  write_both file table = do
    raw ← encode table
    off0 ← region_table_offset 0
    off1 ← region_table_offset 1
    ok (write_all_at (write_all_at file off0 raw) off1 raw)
