-- ===== src/Region/Layout.antt =====
-- Which tables `validate_layout` accepts.
use starweld.Prelude.{ℕ, ◌+◌, ◌%◌, ◌^◌, ◌≤◌, ◌<◌, ◌≡◌, refl, ap}
use starweld.Prelude.{arith, List, [], ◌∷◌, map, All, inl, inr, ◌⊎◌, ◌↔◌}
use starweld.Prelude.{Bool-cases, mod-eq_of_lt}
use starweld.Error.{ok}
use starweld.Format.{mib}
use starweld.Region.{RegionEntry, RegionTable, Interval, interval, sort}
use starweld.Region.{overlapping, check_alignment, validate_layout}
use starweld.Region.Intervals.{
  Apart, AllApart, Ordered, All-sort, AllApart-sort, overlapping_sound, sort-Sorted,
  overlapping_complete,
}

abbrev pub IsAligned : RegionEntry → Type 0
IsAligned e = (e.file_offset % mib ≡ 0) × (e.length_bytes % mib ≡ 0)

-- A region whose end is a 64-bit number.
abbrev pub InRange : RegionEntry → Type 0
InRange e = e.file_offset + e.length_bytes < 2 ^ 64

abbrev Before : RegionEntry → RegionEntry → Type 0
Before a b = a.file_offset + a.length_bytes ≤ b.file_offset

-- Every two regions of the table are disjoint.
abbrev pub Disjoint : List RegionEntry → Type 0
Disjoint [] = Unit
Disjoint (e ∷ es) = All (λ x. Before e x ⊎ Before x e) es × Disjoint es

interval_plain :
    (e : RegionEntry) → InRange e → interval e ≡ (e.file_offset, e.file_offset + e.length_bytes)
unfolding interval
interval_plain e h = ap (λ (t : ℕ). (e.file_offset, t)) (mod-eq_of_lt h)

Apart-iff :
    (e x : RegionEntry)
    → InRange e
    → InRange x
    → Apart (interval e) (interval x) ↔ (Before e x ⊎ Before x e)
Apart-iff e x he hx = rw (interval_plain e he, interval_plain x hx) (λ h. h, λ h. h)

Apart-All :
    (e : RegionEntry) (es : List RegionEntry)
    → InRange e
    → All InRange es
    → All (Apart (interval e)) (map interval es) ↔ All (λ x. Before e x ⊎ Before x e) es
Apart-All e [] he hs = (λ h. h, λ h. h)
Apart-All e (x ∷ es) he (hx, hs) = (
  λ (h, k). ((Apart-iff e x he hx).0 h, (Apart-All e es he hs).0 k),
  λ (h, k). ((Apart-iff e x he hx).1 h, (Apart-All e es he hs).1 k),
)

Disjoint-iff : (es : List RegionEntry) → All InRange es → AllApart (map interval es) ↔ Disjoint es
Disjoint-iff [] hs = (λ h. h, λ h. h)
Disjoint-iff (e ∷ es) (he, hs) = (
  λ (h, k). ((Apart-All e es he hs).0 h, (Disjoint-iff es hs).0 k),
  λ (h, k). ((Apart-All e es he hs).1 h, (Disjoint-iff es hs).1 k),
)

Ordered-All : (es : List RegionEntry) → All InRange es → All Ordered (map interval es)
Ordered-All [] h = tt
Ordered-All (e ∷ es) (he, hs) = (rw (interval_plain e he) (omega arith), Ordered-All es hs)

check_alignment_iff : (es : List RegionEntry) → (check_alignment es ≡ ok tt) ↔ All IsAligned es
unfolding check_alignment
check_alignment_iff [] = (λ h. tt, λ h. refl)
check_alignment_iff (e ∷ es) = (
  λ h. ground (arith, h, (check_alignment_iff es).0),
  λ h. ground (arith, h, (check_alignment_iff es).1),
)

-- For a table whose regions all end within 64 bits, validate_layout succeeds exactly when every
-- two regions are disjoint and every offset and length is a multiple of 1 MiB.
pub validate_layout_iff :
    (t : RegionTable)
    → All InRange t.entries
    → (validate_layout t ≡ ok tt) ↔ (Disjoint t.entries × All IsAligned t.entries)
unfolding validate_layout
validate_layout_iff t r = (
  λ h. elim (Bool-cases (overlapping sorted)) [
    | inl bad ↦ ground (arith, h, bad)
    | inr good ↦ (
      (Disjoint-iff t.entries r).0
          ((AllApart-sort (map interval t.entries)).0 (overlapping_sound sorted ordered good)),
      (check_alignment_iff t.entries).0 (ground (arith, h, good)),
    )
  ],
  λ (d, a).
      rw
        (overlapping_complete sorted (sort-Sorted (map interval t.entries)) ordered
          ((AllApart-sort (map interval t.entries)).1 ((Disjoint-iff t.entries r).1 d)))
        ((check_alignment_iff t.entries).1 a),
)
  where
    sorted : List Interval
    sorted = sort (map interval t.entries)

    ordered : All Ordered sorted
    ordered = (All-sort Ordered (map interval t.entries)).1 (Ordered-All t.entries r)
