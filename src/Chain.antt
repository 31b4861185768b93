-- ===== src/Chain.antt =====
-- crates/starweld-core/src/chain.rs: the walk from a disk to its parents, and what resolves the path
-- of a parent. `Volume` is the file system and `std::path`; `VhdxDisk::open` on a path is
-- `Disk.open_file` on the bytes behind it, as in `open_disk_of`. The printed form is left out.
pub mod Resolve
pub mod Ends
pub mod Linked
pub mod Walked
use starweld.Prelude.{
  ℕ, zero, suc, Bool, true, false, ◌&&◌, ◌||◌, not, Option, none, some, List, [],
}
use starweld.Prelude.{◌∷◌, ◌==◌, if◌then◌else◌}
use starweld.Prelude.Bytes.{bytes_eq}
use starweld.Externals.{Externals, Uuid, Text, nil}
use starweld.Error.{Result, ok, err, panic, ◌>>=◌, ◌>>◌, guard, ok_or, io, invalid_structure}
use starweld.Error.{parent_not_found, parent_guid_mismatch}
use starweld.Format.{parent_locator_type_vhdx}
use starweld.IoUtil.{File}
use starweld.Metadata.{Metadata}
use starweld.ParentLocator.{ParentLocator, relative_path, volume_path, absolute_win32_path}
use starweld.ParentLocator.{parent_linkage}
use starweld.Disk.{VhdxDisk, open_file, active_header, virtual_disk_size, block_size, has_parent}
use mathlib.Core.Option

-- `canonicalize` is none on an error, as are `parent_dir` (`Path::parent`) and `file_name` where
-- there is none.
pub record Volume : Type 0 where
  pub canonicalize : Text → Option Text
  pub open_disk : Text → Result VhdxDisk
  pub path_exists : Text → Bool
  pub parent_dir : Text → Option Text
  pub file_name : Text → Option Text
  pub is_absolute : Text → Bool
  pub join : Text → Text → Text
  pub main_separator : ℕ

-- How a volume of files opens a disk.
unfoldable pub open_disk_of : ⦃ext : Externals⦄ → (Text → Option File) → Text → Result VhdxDisk
open_disk_of files path = do file ← ok_or (files path) io; open_file file true

pub record ParentLink : Type 0 where
  pub locator_type : Uuid
  pub relative_path : Option Text
  pub volume_path : Option Text
  pub absolute_win32_path : Option Text
  pub expected_data_write_guid : Option Uuid
  pub resolved_path : Option Text

pub record ChainNode : Type 0 where
  pub path : Text
  pub data_write_guid : Uuid
  pub file_write_guid : Uuid
  pub virtual_disk_size : ℕ
  pub block_size : ℕ
  pub has_parent : Bool
  pub parent_link : Option ParentLink

pub record Chain : Type 0 where
  pub leaf_path : Text
  pub nodes : List ChainNode

-- `c.replace('\\', MAIN_SEPARATOR_STR)`
unfoldable pub normalize : ℕ → Text → Text
normalize separator [] = []
normalize separator (c ∷ s) = (if c == b'\\' then separator else c) ∷ normalize separator s

-- Whether a `HashSet` holds a path.
unfoldable pub contains : List Text → Text → Bool
contains [] p = false
contains (v ∷ vs) p = bytes_eq v p || contains vs p

unfoldable pub or_else : Option Text → Text → Text
or_else none default = default
or_else (some p) default = p

-- The first of the two if there is one.
unfoldable pub first_of : Option Text → Option Text → Option Text
first_of none q = q
first_of (some p) q = some p

-- A node before those of its parents.
abbrev pub prepend : ChainNode → Result (List ChainNode) → Result (List ChainNode)
prepend node rest = do nodes ← rest; ok (node ∷ nodes)

abbrev pub go_on :
    (Text → Option (Result (List ChainNode)))
    → Result (ChainNode × Option Text)
    → Option (Result (List ChainNode))
go_on rest panic = some panic
go_on rest (err e) = some (err e)
go_on rest (ok (node, none)) = some (ok (node ∷ []))
go_on rest (ok (node, some next)) = Option.map (prepend node) (rest next)

abbrev pub parent_guid : List ChainNode → Uuid
parent_guid [] = nil
parent_guid (m ∷ ns) = m.data_write_guid

abbrev pub check_expected : Option Uuid → Uuid → Result (Unit {0})
check_expected none actual = ok tt
check_expected (some expected) actual =
    guard (not (not (actual == expected) && not (actual == nil)))
      (parent_guid_mismatch expected actual)

abbrev pub expected_of : Option ParentLink → Option Uuid
expected_of none = none
expected_of (some link) = link.expected_data_write_guid

unfoldable pub check_guids : List ChainNode → Result (Unit {0})
check_guids [] = ok tt
check_guids (n ∷ ns) = check_expected (expected_of n.parent_link) (parent_guid ns) >> check_guids ns

unfoldable pub checked : Text → Result (List ChainNode) → Result Chain
unfolding check_guids
checked leaf found = do
  nodes ← found
  check_guids nodes
  ok (record { leaf_path = leaf; nodes = nodes })

unfoldable pub node_of : Text → VhdxDisk → ChainNode
node_of current disk = record {
  path = current;
  data_write_guid = (active_header disk).data_write_guid;
  file_write_guid = (active_header disk).file_write_guid;
  virtual_disk_size = virtual_disk_size disk;
  block_size = block_size disk;
  has_parent = has_parent disk;
  parent_link = none;
}

module _ (vol : Volume) where
  unfoldable pub if_exists : Text → Option Text
  if_exists p = if vol.path_exists p then some p else none

  unfoldable pub candidate : Text → Text → Text
  candidate child_dir normalized =
      if vol.is_absolute normalized then normalized else vol.join child_dir normalized

  -- The file's name next to the child.
  unfoldable pub alt : Text → Option Text → Option Text
  unfolding if_exists
  alt child_dir none = none
  alt child_dir (some name) = if_exists (vol.join child_dir name)

  unfoldable pub resolve_candidates : Text → List (Option Text) → Option Text
  unfolding if_exists alt
  resolve_candidates child_dir [] = none
  resolve_candidates child_dir (none ∷ cs) = resolve_candidates child_dir cs
  resolve_candidates child_dir (some c ∷ cs) =
      let rest = resolve_candidates child_dir cs in
      let normalized = normalize vol.main_separator c in
      first_of (if_exists (candidate child_dir normalized))
        (first_of (alt child_dir (vol.file_name normalized)) rest)

  unfoldable pub resolve_parent : Text → ParentLocator → Option Text
  unfolding resolve_candidates
  resolve_parent child pl =
      let child_dir = or_else (vol.parent_dir child) (b'.' ∷ []) in
      if not (pl.locator_type == parent_locator_type_vhdx)
      then none
      else resolve_candidates child_dir
          (relative_path pl ∷ volume_path pl ∷ absolute_win32_path pl ∷ [])

  unfoldable pub canonical : Text → Text
  canonical current = or_else (vol.canonicalize current) current

  module _ ⦃ext : Externals⦄ where
    unfoldable pub link_of : Text → ParentLocator → ParentLink
    link_of current pl = record {
      locator_type = pl.locator_type;
      relative_path = relative_path pl;
      volume_path = volume_path pl;
      absolute_win32_path = absolute_win32_path pl;
      expected_data_write_guid = parent_linkage pl;
      resolved_path = resolve_parent current pl;
    }

    unfoldable pub linked_node : Text → VhdxDisk → Result (ChainNode × Option Text)
    unfolding node_of link_of
    linked_node current disk = do
      pl ←
          ok_or disk.metadata.parent_locator
            (invalid_structure "HasParent set but no parent locator")
      next ←
          ok_or (resolve_parent current pl)
            (parent_not_found "no candidate path resolved on this filesystem")
      ok (record (node_of current disk) { parent_link = some (link_of current pl) }, some next)

    -- One round of the walk: the node at a path, and the path of its parent.
    unfoldable pub visit : Text → Result (ChainNode × Option Text)
    unfolding linked_node
    visit current = do
      disk ← vol.open_disk current
      if has_parent disk then linked_node current disk else ok (node_of current disk, none)

    -- The loop, on fuel; without fuel there is no result.
    unfoldable pub walk : ℕ → List Text → Text → Option (Result (List ChainNode))
    walk zero visited current = none
    walk (suc fuel) visited current =
        let rest = λ (next : Text). walk fuel (canonical current ∷ visited) next in
        if contains visited (canonical current)
        then some (err (invalid_structure "cycle detected in parent chain"))
        else go_on rest (visit current)

    unfoldable pub discover : ℕ → Text → Option (Result Chain)
    unfolding walk checked
    discover fuel leaf = Option.map (checked leaf) (walk fuel [] leaf)

unfoldable pub leaf : Chain → Result ChainNode
leaf chain = first chain.nodes
  where
    first : List ChainNode → Result ChainNode
    first [] = panic
    first (n ∷ ns) = ok n

unfoldable pub root : Chain → Result ChainNode
root chain = last chain.nodes
  where
    last : List ChainNode → Result ChainNode
    last [] = panic
    last (n ∷ []) = ok n
    last (n ∷ m ∷ ns) = last (m ∷ ns)
