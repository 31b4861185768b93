-- ===== src/Region/Intervals.antt =====
-- The sweep over sorted intervals.
use starweld.Prelude.{ℕ, ◌≤◌, ◌≡◌, refl, true, false}
use starweld.Prelude.{arith, List, [], ◌∷◌, All, inl, inr, ◌⊎◌, ◌↔◌}
use starweld.Prelude.{Bool-cases}
use starweld.Region.{Interval, interval_le, insert, sort}
use starweld.Region.{overlapping}

abbrev pub Apart : Interval → Interval → Type 0
Apart x y = (x.1 ≤ y.0) ⊎ (y.1 ≤ x.0)

-- Every two members of the list, at different places, are apart.
abbrev pub AllApart : List Interval → Type 0
AllApart [] = Unit
AllApart (x ∷ xs) = All (Apart x) xs × AllApart xs

abbrev pub Ordered : Interval → Type 0
Ordered x = x.0 ≤ x.1

Apart-symm : (x y : Interval) → Apart x y → Apart y x
Apart-symm x y (inl h) = inr h
Apart-symm x y (inr h) = inl h

All-insert :
    (P : Interval → Type 0) (x : Interval) (xs : List Interval)
    → All P (insert x xs) ↔ (P x × All P xs)
unfolding insert
All-insert P x [] = (λ h. h, λ h. h)
All-insert P x (y ∷ ys) = elim (Bool-cases (interval_le x y)) [
  | inl e ↦ rw e (λ h. h, λ h. h)
  | inr e ↦ rw e (
    λ (py, h). let (px, ps) = (All-insert P x ys).0 h in (px, (py, ps)),
    λ (px, ps). (ps.0, (All-insert P x ys).1 (px, ps.1)),
  )
]

pub All-sort : (P : Interval → Type 0) (xs : List Interval) → All P (sort xs) ↔ All P xs
unfolding sort
All-sort P [] = (λ h. h, λ h. h)
All-sort P (x ∷ xs) = (
  λ h. let (px, ps) = (All-insert P x (sort xs)).0 h in (px, (All-sort P xs).0 ps),
  λ (px, ps). (All-insert P x (sort xs)).1 (px, (All-sort P xs).1 ps),
)

AllApart-insert :
    (x : Interval) (xs : List Interval) → AllApart (insert x xs) ↔ (All (Apart x) xs × AllApart xs)
unfolding insert
AllApart-insert x [] = (λ h. h, λ h. h)
AllApart-insert x (y ∷ ys) = elim (Bool-cases (interval_le x y)) [
  | inl e ↦ rw e (λ h. h, λ h. h)
  | inr e ↦ rw e (
    λ (hy, h).
        let (yx, hys) = (All-insert (Apart y) x ys).0 hy in
        let (hx, hs) = (AllApart-insert x ys).0 h in ((Apart-symm y x yx, hx), (hys, hs)),
    λ (hx, h). (
      (All-insert (Apart y) x ys).1 (Apart-symm x y hx.0, h.0),
      (AllApart-insert x ys).1 (hx.1, h.1),
    ),
  )
]

pub AllApart-sort : (xs : List Interval) → AllApart (sort xs) ↔ AllApart xs
unfolding sort
AllApart-sort [] = (λ h. h, λ h. h)
AllApart-sort (x ∷ xs) = (
  λ h.
      let (hx, hs) = (AllApart-insert x (sort xs)).0 h in
      ((All-sort (Apart x) xs).0 hx, (AllApart-sort xs).0 hs),
  λ (hx, hs).
      (AllApart-insert x (sort xs)).1 ((All-sort (Apart x) xs).1 hx, (AllApart-sort xs).1 hs),
)

-- If no window overlaps, an interval ends before all that follow it begin.
ends_before :
    (bound : ℕ) (x : Interval) (xs : List Interval)
    → bound ≤ x.1
    → All Ordered xs
    → overlapping (x ∷ xs) ≡ false
    → All (λ y. bound ≤ y.0) xs
unfolding overlapping
ends_before bound x [] hb ho h = tt
ends_before bound x (y ∷ ys) hb (oy, os) h =
    (ground arith, ends_before bound y ys (ground arith) os (ground arith))

All-imp :
    (P Q : Interval → Type 0) (xs : List Interval)
    → ((y : Interval) → P y → Q y)
    → All P xs
    → All Q xs
All-imp P Q [] f h = tt
All-imp P Q (x ∷ xs) f (h, hs) = (f x h, All-imp P Q xs f hs)

pub overlapping_sound : (xs : List Interval) → All Ordered xs → overlapping xs ≡ false → AllApart xs
unfolding overlapping
overlapping_sound [] o h = tt
overlapping_sound (x ∷ []) o h = (tt, tt)
overlapping_sound (x ∷ y ∷ ys) (ox, os) h = (
  All-imp (λ z. x.1 ≤ z.0) (Apart x) (y ∷ ys) (λ z. inl)
      (ends_before x.1 x (y ∷ ys) (omega arith) os h),
  overlapping_sound (y ∷ ys) os (ground arith),
)

abbrev pub Sorted : List Interval → Type 0
Sorted [] = Unit
Sorted (x ∷ xs) = All (λ y. interval_le x y ≡ true) xs × Sorted xs

interval_le_trans :
    (x y z : Interval) → interval_le x y ≡ true → interval_le y z ≡ true → interval_le x z ≡ true
unfolding interval_le
interval_le_trans x y z h k = ground arith

interval_le_total : (x y : Interval) → interval_le x y ≡ false → interval_le y x ≡ true
unfolding interval_le
interval_le_total x y h = ground arith

insert-Sorted : (x : Interval) (xs : List Interval) → Sorted xs → Sorted (insert x xs)
unfolding insert
insert-Sorted x [] s = (tt, tt)
insert-Sorted x (y ∷ ys) (hy, s) = elim (Bool-cases (interval_le x y)) [
  | inl e ↦ rw e (
    (
      e,
      All-imp (λ z. interval_le y z ≡ true) (λ z. interval_le x z ≡ true) ys
          (λ z. interval_le_trans x y z e) hy,
    ),
    (hy, s),
  )
  | inr e ↦ rw e (
    (All-insert (λ z. interval_le y z ≡ true) x ys).1 (interval_le_total x y e, hy),
    insert-Sorted x ys s,
  )
]

pub sort-Sorted : (xs : List Interval) → Sorted (sort xs)
unfolding sort
sort-Sorted [] = tt
sort-Sorted (x ∷ xs) = insert-Sorted x (sort xs) (sort-Sorted xs)

pub overlapping_complete :
    (xs : List Interval) → Sorted xs → All Ordered xs → AllApart xs → overlapping xs ≡ false
unfolding overlapping interval_le
overlapping_complete [] s o h = refl
overlapping_complete (x ∷ []) s o h = refl
overlapping_complete (x ∷ y ∷ ys) (sx, s) (ox, os) (hx, h) =
    ground (arith, overlapping_complete (y ∷ ys) s os h)
