-- ===== src/ParentLocator.antt =====
-- crates/starweld-core/src/parent_locator.rs: the key-value item that names a disk's parent.
pub mod Linkage
use starweld.Prelude.{ℕ, zero, suc, ◌+◌, ◌*◌, ◌/◌, ◌%◌, ◌^◌, Bool, true, false, not}
use starweld.Prelude.{Option, none, some, List, [], ◌∷◌, ◌++◌, length, ltb, ◌==◌, if◌then◌else◌}
use starweld.Prelude.Bytes.{Bytes, zeros, splice, bytes_eq}
use starweld.Prelude.Le.{get_le, put_le, le_bytes}
use starweld.Prelude.Text.{encode_utf16, from_utf16}
use starweld.Externals.{Externals, Uuid, Text}
use starweld.Error.{invalid_structure, Result, ok, ◌>>=◌, ◌>>◌, guard, ok_or}
use starweld.Format.{parent_locator_type_vhdx, key_parent_linkage, key_parent_linkage2}
use starweld.Format.{key_relative_path, key_volume_path, key_absolute_win32_path}
use starweld.Guid.{read_guid_at, write_guid_at}

pub record ParentLocator : Type 0 where
  pub locator_type : Uuid
  pub entries : List (Text × Text)

-- The `u16` units of a range, at unit `i` with `count` to go.
unfoldable pub read_units : Bytes → ℕ → ℕ → ℕ → List ℕ
read_units buf off i zero = []
read_units buf off i (suc count) = get_le 2 buf (off + i * 2) ∷ read_units buf off (i + 1) count

unfoldable pub decode_utf16 : Bytes → ℕ → ℕ → Result Text
decode_utf16 buf off len = do
  guard (not (ltb (length buf) (off + len)))
      (invalid_structure "parent locator string out of bounds")
  guard (len % 2 == 0) (invalid_structure "parent locator string has odd length")
  ok_or (from_utf16 (read_units buf off 0 (len / 2)))
      (invalid_structure "invalid UTF-16 in parent locator")

unfoldable pub unit_bytes : List ℕ → Bytes
unit_bytes [] = []
unit_bytes (u ∷ us) = le_bytes 2 u ++ unit_bytes us

unfoldable pub encode_text : Text → Bytes
encode_text s = unit_bytes (encode_utf16 s)

-- The loop of `parse`, at entry `i` with `count` to go; an entry behind the end ends it.
unfoldable pub parse_entries : Bytes → ℕ → ℕ → Result (List (Text × Text))
parse_entries buf i zero = ok []
parse_entries buf i (suc count) =
    let off = 20 + i * 12 in
    let rest = parse_entries buf (i + 1) count in
    if ltb (length buf) (off + 12) then ok [] else (do
      key ← decode_utf16 buf (get_le 4 buf off) (get_le 2 buf (off + 8))
      value ← decode_utf16 buf (get_le 4 buf (off + 4)) (get_le 2 buf (off + 10))
      entries ← rest
      ok ((key, value) ∷ entries))

-- `while tail.len() % 8 != 0 { tail.push(0) }`: seven rounds at most.
unfoldable pub pad_tail : ℕ → Bytes → Bytes
pad_tail zero tail = tail
pad_tail (suc fuel) tail =
    let rest = pad_tail fuel (tail ++ (0 ∷ [])) in if length tail % 8 == 0 then tail else rest

-- `(kbo, vbo, kb.len(), vb.len())`
pub record Offsets : Type 0 where
  pub key_offset : ℕ
  pub value_offset : ℕ
  pub key_len : ℕ
  pub value_len : ℕ

-- The first loop of `encode`: the tail of strings, and where each stands.
unfoldable pub place_entries : ℕ → List (Text × Text) → Bytes → Bytes × List Offsets
place_entries table_base [] tail = (tail, [])
place_entries table_base ((k, v) ∷ entries) tail =
    let kb = encode_text k in
    let kbo = (table_base + length tail % 2 ^ 32) % 2 ^ 32 in
    let with_key = pad_tail 8 (tail ++ kb) in
    let vb = encode_text v in
    let vbo = (table_base + length with_key % 2 ^ 32) % 2 ^ 32 in
    let with_value = pad_tail 8 (with_key ++ vb) in
    let (tail', offsets) = place_entries table_base entries with_value in
    (
      tail',
      record {
        key_offset = kbo;
        value_offset = vbo;
        key_len = length kb % 2 ^ 16;
        value_len = length vb % 2 ^ 16;
      }
          ∷ offsets,
    )

unfoldable pub put_offsets : Bytes → ℕ → List Offsets → Bytes
put_offsets out i [] = out
put_offsets out i (o ∷ os) =
    let off = 20 + i * 12 in
    let keyed = put_le 4 out off o.key_offset in
    let valued = put_le 4 keyed (off + 4) o.value_offset in
    let sized = put_le 2 valued (off + 8) o.key_len in
    put_offsets (put_le 2 sized (off + 10) o.value_len) (i + 1) os

-- `entries.iter().find(|(k, _)| k == key)`
unfoldable pub find_key : List (Text × Text) → Text → Option Text
find_key [] key = none
find_key ((k, v) ∷ entries) key = if bytes_eq k key then some v else find_key entries key

unfoldable pub get : ParentLocator → Text → Option Text
get pl key = find_key pl.entries key

unfoldable pub is_vhdx_parent : ParentLocator → Bool
is_vhdx_parent pl = pl.locator_type == parent_locator_type_vhdx

unfoldable pub relative_path : ParentLocator → Option Text
relative_path pl = get pl key_relative_path

unfoldable pub volume_path : ParentLocator → Option Text
volume_path pl = get pl key_volume_path

unfoldable pub absolute_win32_path : ParentLocator → Option Text
absolute_win32_path pl = get pl key_absolute_win32_path

-- `str::trim_start_matches` and `trim_end_matches` at one character.
unfoldable pub trim_start : ℕ → Text → Text
trim_start c [] = []
trim_start c (d ∷ s) = if c == d then trim_start c s else d ∷ s

unfoldable pub trim_end : ℕ → Text → Text
trim_end c [] = []
trim_end c (d ∷ s) = drop_last (c == d) (trim_end c s)
  where
    drop_last : Bool → Text → Text
    drop_last true [] = []
    drop_last false [] = d ∷ []
    drop_last b (e ∷ r) = d ∷ e ∷ r

module _ ⦃ext : Externals⦄ where
  unfoldable pub parse : Bytes → Result ParentLocator
  parse buf = do
    guard (not (ltb (length buf) 20)) (invalid_structure "parent locator too small")
    entries ← parse_entries buf 0 (get_le 2 buf 18)
    ok (record { locator_type = read_guid_at buf 0; entries = entries })

  unfoldable pub encode : ParentLocator → Bytes
  encode pl =
      let count = length pl.entries in
      let table_size = 20 + count * 12 in
      let (tail, offsets) = place_entries (table_size % 2 ^ 32) pl.entries [] in
      let typed = write_guid_at (zeros (table_size + length tail)) 0 pl.locator_type in
      let counted = put_le 2 typed 18 (count % 2 ^ 16) in
      splice (put_offsets counted 0 offsets) table_size tail

  unfoldable pub linkage_of : Option Text → Option Uuid
  linkage_of none = none
  linkage_of (some s) = ext.parse_str (trim_end b'}' (trim_start b'{' s))

  unfoldable pub parent_linkage : ParentLocator → Option Uuid
  parent_linkage pl = linkage_of (get pl key_parent_linkage)

  unfoldable pub parent_linkage2 : ParentLocator → Option Uuid
  parent_linkage2 pl = linkage_of (get pl key_parent_linkage2)

  unfoldable pub new_vhdx_relative : Text → Uuid → ParentLocator
  new_vhdx_relative relative parent_data_write_guid =
      let linkage = b'{' ∷ (ext.hyphenated parent_data_write_guid ++ (b'}' ∷ [])) in
      record {
        locator_type = parent_locator_type_vhdx;
        entries = (key_parent_linkage, linkage) ∷ (key_relative_path, relative) ∷ [];
      }
