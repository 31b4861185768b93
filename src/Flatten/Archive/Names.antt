-- ===== src/Flatten/Archive/Names.antt =====
-- The name in the archive.
use starweld.Prelude.{suc, ◌+◌, ◌-◌, ◌≤◌, ◌≡◌, ◌⊎◌, refl, sym, ap, ◌∙◌, true, false}
use starweld.Prelude.{some, [], ◌∷◌, ◌++◌, length, length-append, leb, arith}
use starweld.Prelude.{le→leb, inl, inr}
use starweld.Prelude.Text.{codes}
use starweld.Prelude.{append_assoc}
use starweld.Prelude.Bytes.{
  Bytes, byte, slice, bytes_eq, slice_whole, slice-append_left, slice-append_at,
}
use starweld.Flatten.Archive.{to_ascii_lowercase, ends_with, truncated, stripped, with_extension}
use starweld.Flatten.Archive.{inner_archive_name}

length-to_ascii_lowercase : (s : Bytes) → length (to_ascii_lowercase s) ≡ length s
unfolding to_ascii_lowercase
length-to_ascii_lowercase [] = refl
length-to_ascii_lowercase (b ∷ s) = ap suc (length-to_ascii_lowercase s)

to_ascii_lowercase-append :
    (s t : Bytes) → to_ascii_lowercase (s ++ t) ≡ to_ascii_lowercase s ++ to_ascii_lowercase t
unfolding to_ascii_lowercase
to_ascii_lowercase-append [] t = refl
to_ascii_lowercase-append (b ∷ s) t = rw (to_ascii_lowercase-append s t) refl

-- The end of a name is that of its last part, if that is long enough.
ends_with-append :
    (p q suffix : Bytes) → length suffix ≤ length q → ends_with (p ++ q) suffix ≡ ends_with q suffix
unfolding ends_with
ends_with-append p q suffix h =
    let k = length suffix in
    let size = length-append p q in
    let place : length (p ++ q) - k ≡ length p + (length q - k) = omega (arith, size) in
    let long : leb k (length (p ++ q)) ≡ true = le→leb k _ (omega (arith, size)) in
    rw (long, le→leb k (length q) h, place, slice-append_at p q (length q - k) k) refl

truncated-append : (a b : Bytes) → truncated (a ++ b) (length b) ≡ a
unfolding truncated
truncated-append a b =
    let size : length (a ++ b) - length b ≡ length a = omega (arith, length-append a b) in
    rw size (slice-append_left a b 0 (length a) (omega arith) ∙ slice_whole a)

-- The endings that are taken off, in lower case.
abbrev pub IsArchive : Bytes → Type 0
IsArchive s = (s ≡ codes ".tar.zst") ⊎ ((s ≡ codes ".zst") ⊎ (s ≡ codes ".tar"))

module _ (stem ext : Bytes) (he : to_ascii_lowercase ext ≡ codes ".vhdx") where
  -- How the lower-case name ends.
  ending :
      (archive l suffix : Bytes)
      → to_ascii_lowercase archive ≡ l
      → length suffix ≤ length (codes ".vhdx" ++ l)
      → ends_with (to_ascii_lowercase (stem ++ (ext ++ archive))) suffix
        ≡ ends_with (codes ".vhdx" ++ l) suffix
  ending archive l suffix e h =
      rw
        (
          to_ascii_lowercase-append stem (ext ++ archive),
          to_ascii_lowercase-append ext archive,
          he,
          e,
        )
        (ends_with-append (to_ascii_lowercase stem) (codes ".vhdx" ++ l) suffix h)

  disk_ending :
      (suffix : Bytes)
      → length suffix ≤ 5
      → ends_with (to_ascii_lowercase (stem ++ ext)) suffix ≡ ends_with (codes ".vhdx") suffix
  disk_ending suffix h =
      rw (to_ascii_lowercase-append stem ext, he)
        (ends_with-append (to_ascii_lowercase stem) (codes ".vhdx") suffix h)

  kept : with_extension (stem ++ ext) ≡ stem ++ ext
  unfolding with_extension
  kept =
      let there : ends_with (codes ".vhdx") (codes ".vhdx") ≡ true =
        unfold ends_with bytes_eq slice byte in refl in
      rw (disk_ending (codes ".vhdx") (omega arith), there) refl

  archive_length : (archive l : Bytes) → to_ascii_lowercase archive ≡ l → length archive ≡ length l
  archive_length archive l e =
      sym (length-to_ascii_lowercase archive) ∙ ap (λ (s : Bytes). length s) e

  cut :
      (archive l : Bytes)
      → to_ascii_lowercase archive ≡ l
      → truncated (stem ++ (ext ++ archive)) (length l) ≡ stem ++ ext
  cut archive l e =
      rw (← archive_length archive l e, ← append_assoc stem ext archive)
        (truncated-append (stem ++ ext) archive)

  stripped-archive :
      (archive : Bytes)
      → IsArchive (to_ascii_lowercase archive)
      → stripped (stem ++ (ext ++ archive)) ≡ stem ++ ext
  unfolding stripped
  stripped-archive archive (inl e) =
      let both : ends_with (codes ".vhdx" ++ codes ".tar.zst") (codes ".tar.zst") ≡ true =
        unfold ends_with bytes_eq slice byte in refl in
      rw (ending archive (codes ".tar.zst") (codes ".tar.zst") e (omega arith), both)
        (cut archive (codes ".tar.zst") e)
  stripped-archive archive (inr (inl e)) =
      let both : ends_with (codes ".vhdx" ++ codes ".zst") (codes ".tar.zst") ≡ false =
        unfold ends_with bytes_eq slice byte in refl in
      let zst : ends_with (codes ".vhdx" ++ codes ".zst") (codes ".zst") ≡ true =
        unfold ends_with bytes_eq slice byte in refl in
      let tar : ends_with (codes ".vhdx") (codes ".tar") ≡ false =
        unfold ends_with bytes_eq slice byte in refl in
      rw
        (
          ending archive (codes ".zst") (codes ".tar.zst") e (omega arith),
          both,
          ending archive (codes ".zst") (codes ".zst") e (omega arith),
          zst,
          cut archive (codes ".zst") e,
          disk_ending (codes ".tar") (omega arith),
          tar,
        )
        refl
  stripped-archive archive (inr (inr e)) =
      let both : ends_with (codes ".vhdx" ++ codes ".tar") (codes ".tar.zst") ≡ false =
        unfold ends_with bytes_eq slice byte in refl in
      let zst : ends_with (codes ".vhdx" ++ codes ".tar") (codes ".zst") ≡ false =
        unfold ends_with bytes_eq slice byte in refl in
      let tar : ends_with (codes ".vhdx" ++ codes ".tar") (codes ".tar") ≡ true =
        unfold ends_with bytes_eq slice byte in refl in
      rw
        (
          ending archive (codes ".tar") (codes ".tar.zst") e (omega arith),
          both,
          ending archive (codes ".tar") (codes ".zst") e (omega arith),
          zst,
          ending archive (codes ".tar") (codes ".tar") e (omega arith),
          tar,
        )
        (cut archive (codes ".tar") e)

  -- From a name that ends with .vhdx, in either case, and then with .tar.zst, .zst or .tar, in
  -- either case, inner_archive_name takes the last of these endings off and nothing else.
  pub inner_archive_name_lem :
      (archive : Bytes)
      → IsArchive (to_ascii_lowercase archive)
      → inner_archive_name (some (stem ++ (ext ++ archive))) ≡ stem ++ ext
  unfolding inner_archive_name
  inner_archive_name_lem archive h = ap with_extension (stripped-archive archive h) ∙ kept
