-- ===== src/Chain/Linked.antt =====
-- What a discovered chain is: disks that lead from the leaf to a disk without a parent.
use mathlib.Core.Path.{subst}
use starweld.Prelude.{◌≡◌, ◌≢◌, ◌⊎◌, refl, Bool, true, false}
use starweld.Prelude.{Option, none, some, List, [], ◌∷◌, if◌then◌else◌, All}
use starweld.Externals.{Externals, Uuid, Text, nil}
use starweld.Error.{Result, ok, err, panic, ◌>>=◌, ok_or, ok_or-eq-ok}
use starweld.ParentLocator.{ParentLocator, parent_linkage}
use starweld.Disk.{VhdxDisk, active_header, virtual_disk_size, block_size, has_parent}
use starweld.Chain.{Volume, ChainNode, ParentLink, Chain, visit, canonical}
use starweld.Chain.{resolve_parent, expected_of}
use starweld.Chain.{node_of, link_of, linked_node}

-- The guid that the child names, unless the parent's own is nil.
abbrev pub Matched : List ChainNode → Type 0
Matched [] = Unit {0}
Matched (n ∷ []) = Unit {0}
Matched (n ∷ m ∷ ns) =
    ((expected : Uuid)
      → expected_of n.parent_link ≡ some expected
      → (m.data_write_guid ≡ expected) ⊎ (m.data_write_guid ≡ nil))
    × Matched (m ∷ ns)

pub if_both {ℓ κ} :
    {A : Type ℓ} (P : A → Type κ) (b : Bool) (x y : A)
    → (b ≡ true → P x)
    → (b ≡ false → P y)
    → P (if b then x else y)
if_both P true x y hx hy = hx refl
if_both P false x y hx hy = hy refl

module _ (vol : Volume) ⦃ext : Externals⦄ where
  -- The link of a disk with a parent, and the path where the parent is.
  abbrev pub LinksTo : VhdxDisk → Text → Option ParentLink → Option Text → Type 0
  LinksTo disk current none none = has_parent disk ≡ false
  LinksTo disk current none (some next) = ⊥
  LinksTo disk current (some link) none = ⊥
  LinksTo disk current (some link) (some next) =
      (has_parent disk ≡ true)
      × ((pl : ParentLocator) × (disk.metadata.parent_locator ≡ some pl)
          × (link.expected_data_write_guid ≡ parent_linkage pl)
          × (link.resolved_path ≡ some next)
          × (resolve_parent vol current pl ≡ some next))

  -- A node with what the disk at its path says.
  pub record IsNode (current : Text) (n : ChainNode) (next : Option Text) : Type 0 where
    pub disk : VhdxDisk
    pub opens : vol.open_disk current ≡ ok disk
    pub at : n.path ≡ current
    pub guid : n.data_write_guid ≡ (active_header disk).data_write_guid
    pub file_guid : n.file_write_guid ≡ (active_header disk).file_write_guid
    pub size : n.virtual_disk_size ≡ virtual_disk_size disk
    pub block : n.block_size ≡ block_size disk
    pub parent : n.has_parent ≡ has_parent disk
    pub links : LinksTo disk current n.parent_link next

  -- From a path to a disk without a parent.
  abbrev pub Linked : Text → List ChainNode → Type 0
  Linked current [] = ⊥
  Linked current (n ∷ []) = IsNode current n none
  Linked current (n ∷ m ∷ ns) = IsNode current n (some m.path) × Linked m.path (m ∷ ns)

  abbrev pub Distinct : List ChainNode → Type 0
  Distinct [] = Unit {0}
  Distinct (n ∷ ns) = All (λ m. canonical vol m.path ≢ canonical vol n.path) ns × Distinct ns

  abbrev Good : Text → Result (ChainNode × Option Text) → Type 0
  Good current panic = Unit {0}
  Good current (err e) = Unit {0}
  Good current (ok (n, next)) = IsNode current n next

  bind-Good {ℓ} :
      {T : Type ℓ} (current : Text) (r : Result T) (next : T → Result (ChainNode × Option Text))
      → ((x : T) → r ≡ ok x → Good current (next x))
      → Good current (r >>= next)
  bind-Good current panic next h = tt
  bind-Good current (err e) next h = tt
  bind-Good current (ok x) next h = h x refl

  linked_node-Good :
      (current : Text) (d : VhdxDisk)
      → vol.open_disk current ≡ ok d
      → has_parent d ≡ true
      → Good current (linked_node vol current d)
  unfolding linked_node node_of link_of
  linked_node-Good current d opens has =
      bind-Good current (ok_or d.metadata.parent_locator _) _ λ pl e1.
        bind-Good current (ok_or (resolve_parent vol current pl) _) _ λ next e2.
          let resolved = ok_or-eq-ok (resolve_parent vol current pl) _ e2 in
          record {
            disk = d;
            opens = opens;
            at = refl;
            guid = refl;
            file_guid = refl;
            size = refl;
            block = refl;
            parent = refl;
            links =
                (has, (pl, ok_or-eq-ok d.metadata.parent_locator _ e1, refl, resolved, resolved));
          }

  visit-Good : (current : Text) → Good current (visit vol current)
  unfolding visit node_of
  visit-Good current = bind-Good current (vol.open_disk current) _ λ d opens.
      if_both (Good current) (has_parent d) _ _ (linked_node-Good current d opens) λ alone. record {
        disk = d;
        opens = opens;
        at = refl;
        guid = refl;
        file_guid = refl;
        size = refl;
        block = refl;
        parent = refl;
        links = alone;
      }

  pub visit-IsNode :
      (current : Text) (n : ChainNode) (next : Option Text)
      → visit vol current ≡ ok (n, next)
      → IsNode current n next
  visit-IsNode current n next e = subst (Good current) e (visit-Good current)

-- A chain from a leaf.
pub record IsChain (vol : Volume) ⦃ext : Externals⦄ (leaf_path : Text) (c : Chain) : Type 0 where
  pub starts : c.leaf_path ≡ leaf_path
  pub linked : Linked vol leaf_path c.nodes
  pub distinct : Distinct vol c.nodes
  pub matched : Matched c.nodes
