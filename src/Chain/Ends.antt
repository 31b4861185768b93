-- ===== src/Chain/Ends.antt =====
-- The rounds of the walk to the parents.
use mathlib.Core.Option
use starweld.Prelude.{ℕ, zero, suc, ◌≤◌, ◌<◌, ◌≡◌, refl, ap, true, false, Option, none}
use starweld.Prelude.{some, List, [], ◌∷◌, length, if◌then◌else◌, arith, Bool-cases, inl, inr}
use starweld.Prelude.Bytes.{bytes_eq, bytes_eq→≡, bytes_eq_refl}
use starweld.Externals.{Externals, Text}
use starweld.Error.{Result, ok, err, panic, >>=-eq-ok}
use starweld.Disk.{VhdxDisk}
use starweld.Chain.{Volume, ChainNode, contains, visit, canonical, go_on, prepend, walk, checked}
use starweld.Chain.{discover}

-- How many of the names are not visited.
unfoldable remaining : List Text → List Text → ℕ
remaining visited [] = 0
remaining visited (n ∷ ns) =
    if contains visited n then remaining visited ns else suc (remaining visited ns)

remaining-nil : (ns : List Text) → remaining [] ns ≤ length ns
unfolding remaining contains
remaining-nil [] = omega arith
remaining-nil (n ∷ ns) = omega (arith, remaining-nil ns)

remaining-cons :
    (c : Text) (visited ns : List Text) → remaining (c ∷ visited) ns ≤ remaining visited ns
unfolding remaining contains
remaining-cons c visited [] = omega arith
remaining-cons c visited (n ∷ ns) = ground (arith, remaining-cons c visited ns)

remaining-visit :
    (c : Text) (visited ns : List Text)
    → contains visited c ≡ false
    → contains ns c ≡ true
    → remaining (c ∷ visited) ns < remaining visited ns
unfolding remaining contains
remaining-visit c visited [] h e = cc
remaining-visit c visited (n ∷ ns) h e = elim (Bool-cases (bytes_eq n c)) [
  | inl same ↦
      let eq : n ≡ c = bytes_eq→≡ n c same in
      let found : bytes_eq c n ≡ true = rw eq (bytes_eq_refl c) in
      let unseen : contains visited n ≡ false = rw eq h in
      rw found (rw unseen (omega (arith, remaining-cons c visited ns)))
  | inr differ ↦
      let later : contains ns c ≡ true = ground arith in
      ground (arith, remaining-visit c visited ns h later)
]

abbrev pub Ends {ℓ} : {A : Type ℓ} → Option A → Type ℓ
Ends {A = A} o = (r : A) × (o ≡ some r)

map-Ends {ℓ κ} :
    {A : Type ℓ} {B : Type κ} (f : A → B) (o : Option A) → Ends o → Ends (Option.map f o)
map-Ends f o h = (f h.0, ap (Option.map f) h.1)

module _ (vol : Volume) ⦃ext : Externals⦄ where
  go_on-Ends :
      (rest : Text → Option (Result (List ChainNode))) (v : Result (ChainNode × Option Text))
      → ((node : ChainNode) (next : Text) → v ≡ ok (node, some next) → Ends (rest next))
      → Ends (go_on rest v)
  go_on-Ends rest panic h = (panic, refl)
  go_on-Ends rest (err e) h = (err e, refl)
  go_on-Ends rest (ok (node, none)) h = (ok (node ∷ []), refl)
  go_on-Ends rest (ok (node, some next)) h = map-Ends (prepend node) (rest next) (h node next refl)

  visit-opens :
      (current : Text) (x : ChainNode × Option Text)
      → visit vol current ≡ ok x
      → (d : VhdxDisk) × (vol.open_disk current ≡ ok d)
  unfolding visit
  visit-opens current x e = let (d, e1, e2) = >>=-eq-ok (vol.open_disk current) _ e in (d, e1)

  module _ (names : List Text)
      (finite : (p : Text) (d : VhdxDisk)
        → vol.open_disk p ≡ ok d
        → contains names (canonical vol p) ≡ true) where
    walk-Ends :
        (fuel : ℕ) (visited : List Text) (current : Text)
        → remaining visited names < fuel
        → Ends (walk vol fuel visited current)
    unfolding walk
    walk-Ends zero visited current h = absurd (omega arith)
    walk-Ends (suc fuel) visited current h =
        elim (Bool-cases (contains visited (canonical vol current))) [
          | inl e ↦ rw e (err _, refl)
          | inr e ↦ rw e (
              go_on-Ends _ (visit vol current) λ node next eq.
                let (d, opens) = visit-opens current (node, some next) eq in
                let fresh =
                  remaining-visit (canonical vol current) visited names e
                    (finite current d opens) in
                walk-Ends fuel (canonical vol current ∷ visited) next (omega arith))
        ]

    -- If the canonical paths of all paths at which a disk opens are among finitely many names,
    -- then discover ends within any number of rounds that is above the number of names, whatever
    -- the parent locators say.
    pub discover-Ends :
        (fuel : ℕ) (leaf : Text) → length names < fuel → Ends (discover vol fuel leaf)
    unfolding discover
    discover-Ends fuel leaf h =
        map-Ends (checked leaf) (walk vol fuel [] leaf)
          (walk-Ends fuel [] leaf (omega (arith, remaining-nil names)))
