-- ===== src/ParentLocator/Linkage.antt =====
-- The entries of a fresh locator, as they are looked up.
use starweld.Prelude.{
  ℕ, ◌≡◌, ◌≢◌, refl, ap, ◌∙◌, arith, true, false, ◌==◌, some, [], ◌∷◌, ◌++◌, All,
}
use starweld.Prelude.Bytes.{bytes_eq}
use starweld.Externals.{Externals, Uuid, IsUuid, Text}
use starweld.ParentLocator.{
  trim_start, trim_end, linkage_of, parent_linkage, relative_path, is_vhdx_parent,
  new_vhdx_relative, get, find_key,
}

abbrev Plain : Text → Type 0
Plain s = All (λ c. (c ≢ b'{') × (c ≢ b'}')) s

other_brace : (c : ℕ) → (c ≢ b'{') × (c ≢ b'}') → ((b'{' == c) ≡ false) × ((b'}' == c) ≡ false)
other_brace c h = ground (arith, h.0, h.1)

trim_start-Plain : (s : Text) → Plain s → trim_start b'{' (s ++ (b'}' ∷ [])) ≡ s ++ (b'}' ∷ [])
unfolding trim_start
trim_start-Plain [] p = refl
trim_start-Plain (c ∷ s) (h, p) = rw (other_brace c h).0

trim_end-Plain : (s : Text) → Plain s → trim_end b'}' (s ++ (b'}' ∷ [])) ≡ s
unfolding trim_end
trim_end-Plain [] p = refl
trim_end-Plain (c ∷ []) (h, p) = rw (other_brace c h).1
trim_end-Plain (c ∷ d ∷ s) (h, p) = rw ((other_brace c h).1, trim_end-Plain (d ∷ s) p)

-- For a 128-bit GUID, a fresh locator gives back the parent's GUID from its braces as the parent
-- linkage and the relative path, and is of the VHDX type.
pub new_vhdx_relative_lem :
    ⦃ext : Externals⦄ (relative : Text) (parent_data_write_guid : Uuid)
    → IsUuid parent_data_write_guid
    → let pl = new_vhdx_relative relative parent_data_write_guid in
      (parent_linkage pl ≡ some parent_data_write_guid)
      × (relative_path pl ≡ some relative)
      × (is_vhdx_parent pl ≡ true)
unfolding parent_linkage relative_path is_vhdx_parent new_vhdx_relative get find_key bytes_eq
    linkage_of
new_vhdx_relative_lem ⦃ext⦄ relative g h =
    let plain = ext.hyphenated-plain g in
    (
      ap (λ s. ext.parse_str (trim_end b'}' s)) (first ∙ trim_start-Plain (ext.hyphenated g) plain)
          ∙ ap ext.parse_str (trim_end-Plain (ext.hyphenated g) plain)
          ∙ ext.parse_str-hyphenated g h,
      refl,
      refl,
    )
  where
    first :
        trim_start b'{' (b'{' ∷ (ext.hyphenated g ++ (b'}' ∷ [])))
        ≡ trim_start b'{' (ext.hyphenated g ++ (b'}' ∷ []))
    first = unfold trim_start in refl
