-- ===== src/Chain/Resolve.antt =====
-- The path of a parent: the first of the paths that are tried which exists.
use starweld.Prelude.{◌≡◌, refl, sym, ap, ◌∙◌, Option, none, some, List, [], ◌∷◌, ◌++◌, map}
use starweld.Prelude.{◌==◌, if◌then◌else◌, Bool-cases, inl, inr}
use starweld.Externals.{Text}
use starweld.Format.{parent_locator_type_vhdx}
use starweld.ParentLocator.{ParentLocator, relative_path, volume_path, absolute_win32_path}
use starweld.Chain.{
  Volume, normalize, or_else, first_of, if_exists, candidate, alt, resolve_candidates,
}
use starweld.Chain.{resolve_parent}

module _ (vol : Volume) where
  -- The directory of the child; the current one if the path has none.
  abbrev pub directory : Option Text → Text
  directory none = b'.' ∷ []
  directory (some dir) = dir

  -- A path with the separators of this system for the backslashes.
  abbrev pub with_separators : Text → Text
  with_separators = map (λ c. if c == b'\\' then vol.main_separator else c)

  -- A path as it is if it is absolute, and otherwise from the directory `dir`.
  abbrev pub from_directory : Text → Text → Text
  from_directory dir p = if vol.is_absolute p then p else vol.join dir p

  -- The file's name in the child's directory.
  abbrev pub beside : Text → Option Text → List Text
  beside dir none = []
  beside dir (some name) = vol.join dir name ∷ []

  -- A path as it is written, and then its last part next to the child.
  abbrev pub tries : Text → Option Text → List Text
  tries dir none = []
  tries dir (some c) =
      from_directory dir (with_separators c) ∷ beside dir (vol.file_name (with_separators c))

  -- The paths that a locator of the VHDX type stands for, in their order.
  abbrev pub tried : Text → ParentLocator → List Text
  tried dir pl =
      if pl.locator_type == parent_locator_type_vhdx
      then tries dir (relative_path pl)
        ++ (tries dir (volume_path pl) ++ tries dir (absolute_win32_path pl))
      else []

  unfoldable pub first_existing : List Text → Option Text
  first_existing [] = none
  first_existing (p ∷ ps) = if vol.path_exists p then some p else first_existing ps

  first_existing-append :
      (ps qs : List Text)
      → first_existing (ps ++ qs) ≡ first_of (first_existing ps) (first_existing qs)
  unfolding first_existing first_of
  first_existing-append [] qs = refl
  first_existing-append (p ∷ ps) qs = elim (Bool-cases (vol.path_exists p)) [
    | inl e ↦ rw e refl
    | inr e ↦ rw e (first_existing-append ps qs)
  ]

  alt-beside : (dir : Text) (o : Option Text) → alt vol dir o ≡ first_existing (beside dir o)
  unfolding alt first_existing if_exists
  alt-beside dir none = refl
  alt-beside dir (some name) = refl

  normalize-map : (c : Text) → normalize vol.main_separator c ≡ with_separators c
  unfolding normalize
  normalize-map [] = refl
  normalize-map (x ∷ c) =
      ap (λ t. (if x == b'\\' then vol.main_separator else x) ∷ t) (normalize-map c)

  candidate-eq : (dir p : Text) → candidate vol dir p ≡ from_directory dir p
  unfolding candidate
  candidate-eq dir p = refl

  directory-eq : (o : Option Text) → or_else o (b'.' ∷ []) ≡ directory o
  unfolding or_else
  directory-eq none = refl
  directory-eq (some dir) = refl

  resolve_candidates-cons :
      (dir : Text) (c : Option Text) (cs : List (Option Text))
      → resolve_candidates vol dir (c ∷ cs)
        ≡ first_of (first_existing (tries dir c)) (resolve_candidates vol dir cs)
  unfolding resolve_candidates first_existing first_of if_exists
  resolve_candidates-cons dir none cs = refl
  resolve_candidates-cons dir (some c) cs =
      let p = with_separators c in
      rw (normalize-map c) (
        rw (candidate-eq dir p, alt-beside dir (vol.file_name p))
          (elim (Bool-cases (vol.path_exists (from_directory dir p))) [
            | inl e ↦ rw e refl
            | inr e ↦ rw e refl
          ]))

  first_of-none : (o : Option Text) → first_of o none ≡ o
  unfolding first_of
  first_of-none none = refl
  first_of-none (some p) = refl

  resolve_candidates-one :
      (dir : Text) (c : Option Text)
      → resolve_candidates vol dir (c ∷ []) ≡ first_existing (tries dir c)
  unfolding resolve_candidates
  resolve_candidates-one dir c =
      resolve_candidates-cons dir c [] ∙ first_of-none (first_existing (tries dir c))

  -- resolve_parent gives the first path that exists among these, in their order, or none: for
  -- each of the relative, the volume and the absolute path that a locator of the VHDX type has,
  -- that path with the system's separator for each backslash (from the child's directory if it is
  -- not absolute) and then the last part of it in the child's directory, which is the current
  -- directory if the child's path has none; a locator of another type gives none.
  pub resolve_parent_lem :
      (child : Text) (pl : ParentLocator)
      → resolve_parent vol child pl ≡ first_existing (tried (directory (vol.parent_dir child)) pl)
  unfolding resolve_parent
  resolve_parent_lem child pl =
      rw (directory-eq (vol.parent_dir child))
        (elim (Bool-cases (pl.locator_type == parent_locator_type_vhdx)) [
          | inl e ↦
              let dir = directory (vol.parent_dir child) in
              let rel = tries dir (relative_path pl) in
              let volume = tries dir (volume_path pl) in
              let win32 = tries dir (absolute_win32_path pl) in
              rw e (
                resolve_candidates-cons dir (relative_path pl) _
                ∙ ap (first_of (first_existing rel)) (
                    resolve_candidates-cons dir (volume_path pl) _
                    ∙ ap (first_of (first_existing volume))
                        (resolve_candidates-one dir (absolute_win32_path pl))
                    ∙ sym (first_existing-append volume win32))
                ∙ sym (first_existing-append rel (volume ++ win32)))
          | inr e ↦ rw e (unfold first_existing in refl)
        ])
