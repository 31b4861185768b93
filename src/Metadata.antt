-- ===== src/Metadata.antt =====
-- crates/starweld-core/src/metadata.rs: the metadata region.
use Prim.Native.Nat.{bit_and, bit_or}
use starweld.Prelude.{ℕ, zero, suc, ◌+◌, ◌*◌, ◌/◌, ◌%◌, ◌^◌, Bool, not, ◌&&◌}
use starweld.Prelude.{
  Option, none, some, List, [], ◌∷◌, ◌++◌, length, ltb, leb, ◌==◌, if◌then◌else◌,
}
use starweld.Prelude.Bytes.{Bytes, zeros, slice, splice, bytes_eq}
use starweld.Prelude.Le.{get_le, put_le}
use starweld.Externals.{Externals, Uuid}
use starweld.Error.{invalid_structure, missing_metadata, Result, ok, panic, ◌>>=◌, ◌>>◌}
use starweld.Error.{guard, must, ok_or}
use starweld.Format.{metadata_signature, metadata_header_size, metadata_entry_size}
use starweld.Format.{metadata_guid_file_parameters, metadata_guid_virtual_disk_size}
use starweld.Format.{metadata_guid_page_83_data, metadata_guid_logical_sector_size}
use starweld.Format.{metadata_guid_physical_sector_size, metadata_guid_parent_locator}
use starweld.Format.{file_parameters_flag_leave_blocks_allocated, file_parameters_flag_has_parent}
use starweld.Format.{
  metadata_flag_is_user, metadata_flag_is_virtual_disk, metadata_flag_is_required,
}
use starweld.Guid.{read_guid_at, write_guid_at}
use starweld.ParentLocator
use starweld.ParentLocator.{ParentLocator}

pub record FileParameters : Type 0 where
  pub block_size : ℕ
  pub leave_blocks_allocated : Bool
  pub has_parent : Bool

pub record MetadataItem : Type 0 where
  pub guid : Uuid
  pub content : Bytes
  pub is_user : Bool
  pub is_virtual_disk : Bool
  pub is_required : Bool

pub record Metadata : Type 0 where
  pub file_parameters : FileParameters
  pub virtual_disk_size : ℕ
  pub logical_sector_size : ℕ
  pub physical_sector_size : ℕ
  pub page_83_data : Uuid
  pub parent_locator : Option ParentLocator
  pub extras : List MetadataItem

-- The variables of the loop in `parse`.
pub record Found : Type 0 where
  pub file_parameters : Option FileParameters
  pub virtual_disk_size : Option ℕ
  pub logical_sector_size : Option ℕ
  pub physical_sector_size : Option ℕ
  pub page_83_data : Option Uuid
  pub parent_locator : Option ParentLocator
  pub extras : List MetadataItem

abbrev pub nothing_found : Found
nothing_found = record {
  file_parameters = none;
  virtual_disk_size = none;
  logical_sector_size = none;
  physical_sector_size = none;
  page_83_data = none;
  parent_locator = none;
  extras = [];
}

-- `flags & flag != 0`
abbrev pub has_flag : ℕ → ℕ → Bool
has_flag flags flag = not (bit_and flags flag == 0)

-- `if on { f |= flag }`
abbrev pub add_flag : Bool → ℕ → ℕ → ℕ
add_flag on flag f = if on then bit_or f flag else f

unfoldable pub block_size : Metadata → ℕ
block_size m = m.file_parameters.block_size

-- `div_ceil` and `/` panic on a zero divisor.
unfoldable pub div_ceil : ℕ → ℕ → Result ℕ
div_ceil a b = if b == 0 then panic else if a % b == 0 then ok (a / b) else ok (a / b + 1)

unfoldable pub block_count : Metadata → Result ℕ
unfolding block_size
block_count m = div_ceil m.virtual_disk_size (block_size m)

-- The product stays below 2 ^ 64 for a sector size of 32 bits.
unfoldable pub ratio : ℕ → ℕ → Result ℕ
ratio logical_sector_size block_size =
    if block_size == 0 then panic else ok (2 ^ 23 * logical_sector_size / block_size)

unfoldable pub chunk_ratio : Metadata → Result ℕ
unfolding block_size
chunk_ratio m = ratio m.logical_sector_size (block_size m)

-- An item of the table that `encode` writes: GUID, content and flags.
abbrev pub Item : Type 0
Item = Uuid × Bytes × ℕ

unfoldable pub encode_extra : MetadataItem → Item
encode_extra extra =
    let user = add_flag extra.is_user metadata_flag_is_user 0 in
    let disk = add_flag extra.is_virtual_disk metadata_flag_is_virtual_disk user in
    (extra.guid, extra.content, add_flag extra.is_required metadata_flag_is_required disk)

unfoldable pub encode_extras : List MetadataItem → List Item
encode_extras [] = []
encode_extras (x ∷ xs) = encode_extra x ∷ encode_extras xs

module _ ⦃ext : Externals⦄ where
  -- What one item adds to the variables.
  unfoldable pub take_item : Found → Uuid → Bytes → ℕ → Result Found
  take_item found guid content flags =
      let f = get_le 4 content 4 in
      if guid == metadata_guid_file_parameters && leb 8 (length content)
      then ok (record found {
        file_parameters = some (record {
          block_size = get_le 4 content 0;
          leave_blocks_allocated = has_flag f file_parameters_flag_leave_blocks_allocated;
          has_parent = has_flag f file_parameters_flag_has_parent;
        });
      })
      else if guid == metadata_guid_virtual_disk_size && leb 8 (length content)
      then ok (record found { virtual_disk_size = some (get_le 8 content 0) })
      else if guid == metadata_guid_logical_sector_size && leb 4 (length content)
      then ok (record found { logical_sector_size = some (get_le 4 content 0) })
      else if guid == metadata_guid_physical_sector_size && leb 4 (length content)
      then ok (record found { physical_sector_size = some (get_le 4 content 0) })
      else if guid == metadata_guid_page_83_data && leb 16 (length content)
      then ok (record found { page_83_data = some (read_guid_at content 0) })
      else if guid == metadata_guid_parent_locator
      then (do pl ← ParentLocator.parse content; ok (record found { parent_locator = some pl }))
      else ok (record found {
        extras =
            found.extras
            ++ (record {
              guid = guid;
              content = content;
              is_user = has_flag flags metadata_flag_is_user;
              is_virtual_disk = has_flag flags metadata_flag_is_virtual_disk;
              is_required = has_flag flags metadata_flag_is_required;
            }
                ∷ []);
      })

  -- The loop of `parse`, at entry `i` with `count` to go.
  unfoldable pub parse_items : Bytes → ℕ → ℕ → Found → Result Found
  parse_items buf i zero found = ok found
  parse_items buf i (suc count) found =
      let off = metadata_header_size + i * metadata_entry_size in
      let item_off = get_le 4 buf (off + 16) in
      let len = get_le 4 buf (off + 20) in
      let flags = get_le 4 buf (off + 24) in
      let next = parse_items buf (i + 1) count in
      if ltb (length buf) (off + metadata_entry_size)
      then ok found
      else if ltb (length buf) (item_off + len)
      then next found
      else take_item found (read_guid_at buf off) (slice buf item_off len) flags >>= next

  unfoldable pub assemble : Found → Result Metadata
  assemble found = do
    file_parameters ← ok_or found.file_parameters (missing_metadata "file_parameters")
    virtual_disk_size ← ok_or found.virtual_disk_size (missing_metadata "virtual_disk_size")
    logical_sector_size ← ok_or found.logical_sector_size (missing_metadata "logical_sector_size")
    physical_sector_size ←
        ok_or found.physical_sector_size (missing_metadata "physical_sector_size")
    page_83_data ← ok_or found.page_83_data (missing_metadata "page_83_data")
    ok (record {
      file_parameters = file_parameters;
      virtual_disk_size = virtual_disk_size;
      logical_sector_size = logical_sector_size;
      physical_sector_size = physical_sector_size;
      page_83_data = page_83_data;
      parent_locator = found.parent_locator;
      extras = found.extras;
    })

  unfoldable pub parse : Bytes → Result Metadata
  parse buf = do
    guard (not (ltb (length buf) metadata_header_size))
        (invalid_structure "metadata region too small")
    guard (bytes_eq (slice buf 0 8) metadata_signature)
        (invalid_structure "missing metadata signature")
    found ← parse_items buf 0 (get_le 2 buf 10) nothing_found
    assemble found

  -- The items of `encode`, in their order.
  unfoldable pub encode_items : Metadata → List Item
  encode_items m =
      let leave =
        add_flag m.file_parameters.leave_blocks_allocated
          file_parameters_flag_leave_blocks_allocated 0 in
      let flags = add_flag m.file_parameters.has_parent file_parameters_flag_has_parent leave in
      let fp = put_le 4 (put_le 4 (zeros 8) 0 m.file_parameters.block_size) 4 flags in
      let both = bit_or metadata_flag_is_virtual_disk metadata_flag_is_required in
      (metadata_guid_file_parameters, fp, metadata_flag_is_required)
      ∷ (metadata_guid_virtual_disk_size, put_le 8 (zeros 8) 0 m.virtual_disk_size, both)
      ∷ (metadata_guid_page_83_data, write_guid_at (zeros 16) 0 m.page_83_data, both)
      ∷ (metadata_guid_logical_sector_size, put_le 4 (zeros 4) 0 m.logical_sector_size, both)
      ∷ (metadata_guid_physical_sector_size, put_le 4 (zeros 4) 0 m.physical_sector_size, both)
      ∷ (locator_items m.parent_locator ++ encode_extras m.extras)
    where
      locator_items : Option ParentLocator → List Item
      locator_items none = []
      locator_items (some pl) =
          (metadata_guid_parent_locator, ParentLocator.encode pl, metadata_flag_is_required) ∷ []

  -- The loop that places the items; a range behind the end of the region is a panic.
  unfoldable pub put_items : Bytes → ℕ → ℕ → List Item → Result Bytes
  put_items buf i data_off [] = ok buf
  put_items buf i data_off ((guid, content, flags) ∷ items) = do
    let entry_off = metadata_header_size + i * metadata_entry_size
    must (leb (entry_off + 28) (length buf))
    must (leb (data_off + length content) (length buf))
    let named = write_guid_at buf entry_off guid
    let placed = put_le 4 named (entry_off + 16) (data_off % 2 ^ 32)
    let sized = put_le 4 placed (entry_off + 20) (length content % 2 ^ 32)
    let flagged = put_le 4 sized (entry_off + 24) flags
    put_items (splice flagged data_off content) (i + 1) ((data_off + length content + 7) / 8 * 8)
        items

  unfoldable pub encode : Metadata → ℕ → Result Bytes
  encode m region_size = do
    must (leb 12 region_size)
    let signed = splice (zeros region_size) 0 metadata_signature
    let entries = encode_items m
    put_items (put_le 2 signed 10 (length entries % 2 ^ 16)) 0 65536 entries
