-- ===== src/Tests/Locators.antt =====
-- A locator for a relative path.
use starweld.Prelude.{◌≡◌, true, some, [], ◌∷◌, arith}
use starweld.ParentLocator.{parent_linkage, relative_path, is_vhdx_parent, new_vhdx_relative}
use starweld.ParentLocator.Linkage.{new_vhdx_relative_lem}
use starweld.Tests.Crates.{crates}

new_vhdx_relative_lem_example :
    (parent_linkage (new_vhdx_relative (b'a' ∷ []) 77) ≡ some 77)
    × (relative_path (new_vhdx_relative (b'a' ∷ []) 77) ≡ some (b'a' ∷ []))
    × (is_vhdx_parent (new_vhdx_relative (b'a' ∷ []) 77) ≡ true)
new_vhdx_relative_lem_example = new_vhdx_relative_lem (b'a' ∷ []) 77 (omega arith)
