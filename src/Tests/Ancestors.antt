-- ===== src/Tests/Ancestors.antt =====
-- A directory with a disk and its parent.
use starweld.Prelude.{◌≡◌, refl, true, false, some, [], ◌∷◌, ◌++◌}
use starweld.Prelude.{arith, Bool-cases, inl, inr, if◌then◌else◌}
use starweld.Prelude.Text.{codes}
use starweld.Prelude.Bytes.{bytes_eq, bytes_eq→≡}
use starweld.Externals.{Text}
use starweld.Error.{Result, ok, err, io}
use starweld.Header.{blank}
use starweld.Header
use starweld.ParentLocator
use starweld.ParentLocator.{
  ParentLocator, new_vhdx_relative, parent_linkage, linkage_of, relative_path, get,
}
use starweld.ParentLocator.{volume_path, absolute_win32_path, trim_start, trim_end}
use starweld.Disk.{VhdxDisk, active_header, has_parent}
use starweld.Chain.{
  Volume, Chain, contains, canonical, discover, resolve_parent, or_else, walk, visit,
}
use starweld.Chain.{
  linked_node, node_of, link_of, resolve_candidates, normalize, first_of, if_exists,
}
use starweld.Chain.{candidate, alt, checked, check_guids}
use starweld.Chain.Ends.{Ends, discover-Ends}
use starweld.Chain.Linked.{IsChain}
use starweld.Chain.Walked.{discover-IsChain}
use starweld.Chain.Resolve.{directory, tried, first_existing, resolve_parent_lem}
use starweld.Tests.Chains.{small_disk}
use starweld.Tests.Crates.{crates}

abbrev child_path : Text
child_path = codes "./c"

abbrev parent_path : Text
parent_path = codes "./p"

abbrev locator : ParentLocator
locator = new_vhdx_relative ⦃ext = crates⦄ (codes "p") 77

abbrev parent : VhdxDisk
parent =
    let disk = small_disk 8 8 [] in
    record disk {
      header_pair = record disk.header_pair { header_0 = record blank { data_write_guid = 77 } };
    }

abbrev child : VhdxDisk
child =
    let disk = small_disk 8 8 [] in
    record disk {
      metadata = record disk.metadata {
        file_parameters = record disk.metadata.file_parameters { has_parent = true };
        parent_locator = some locator;
      };
    }

abbrev open_disk : Text → Result VhdxDisk
open_disk p =
    if bytes_eq p child_path then ok child else if bytes_eq p parent_path then ok parent else err io

abbrev volume : Volume
volume = record {
  canonicalize = λ p. some p;
  open_disk = open_disk;
  path_exists = λ p. bytes_eq p parent_path;
  parent_dir = λ p. some (codes ".");
  file_name = λ p. some p;
  is_absolute = λ p. false;
  join = λ dir p. dir ++ b'/' ∷ p;
  main_separator = b'/';
}

finite :
    (p : Text) (d : VhdxDisk)
    → volume.open_disk p ≡ ok d
    → contains (child_path ∷ parent_path ∷ []) (canonical volume p) ≡ true
unfolding contains canonical or_else bytes_eq
finite p d e = elim (Bool-cases (bytes_eq p child_path)) [
  | inl c ↦ rw (bytes_eq→≡ p child_path c) refl
  | inr c ↦ elim (Bool-cases (bytes_eq p parent_path)) [
    | inl q ↦ rw (bytes_eq→≡ p parent_path q) refl
    | inr q ↦ cc
  ]
]

discover-Ends_example : Ends (discover volume 3 child_path)
discover-Ends_example =
    discover-Ends volume (child_path ∷ parent_path ∷ []) finite 3 child_path (omega arith)

abbrev chain : Chain
chain = record {
  leaf_path = child_path;
  nodes =
      record (node_of child_path child) { parent_link = some (link_of volume child_path locator) }
      ∷ node_of parent_path parent
      ∷ [];
}

finds : discover volume 3 child_path ≡ some (ok chain)
unfolding discover walk visit linked_node node_of link_of resolve_parent resolve_candidates
    normalize first_of if_exists candidate alt checked check_guids contains canonical or_else
    has_parent active_header relative_path volume_path absolute_win32_path get bytes_eq
    new_vhdx_relative parent_linkage linkage_of ParentLocator.find_key crates Header.active trim_end
    trim_start
finds = refl

discover-IsChain_example : IsChain volume child_path chain
discover-IsChain_example = discover-IsChain volume 3 child_path chain finds

resolve_parent_lem_example :
    resolve_parent volume child_path locator
    ≡ first_existing volume (tried volume (directory volume (volume.parent_dir child_path)) locator)
resolve_parent_lem_example = resolve_parent_lem volume child_path locator
