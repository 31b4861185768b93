-- ===== src/Flatten/Cells.antt =====
-- What the merge has for one sector of the block: whether it is filled, and its bytes.
use starweld.Prelude.{
  ℕ, ◌+◌, ◌*◌, ◌≤◌, ◌<◌, ◌≡◌, refl, sym, ap, ap₂, ◌∙◌, arith, Bool, true, false, inl, inr,
}
use starweld.Prelude.{
  Option, none, some, length, get_or, set, ==→≡, ◌==◌, if◌then◌else◌, Bool-cases,
}
use starweld.Prelude.{get_or-set_self, get_or-set_ne, length-set, ◌⊎◌}
use starweld.Prelude.Bytes.{
  Bytes, slice, splice, length-splice, slice-splice_out, slice-splice_within,
}
use starweld.Prelude.Products.{sector_le}
use starweld.Error.{Result, ok}
use starweld.Flatten.{Fill}
use starweld.Flatten.Spec.{or_else}

abbrev pub Cell : Type 0
Cell = Bool × Bytes

-- The sectors that a step provides: to a filled cell they make no difference.
abbrev pub update : Cell → Option Bytes → Cell
update (true, d) o = (true, d)
update (false, d) none = (false, d)
update (false, d) (some e) = (true, e)

pub update-or_else :
    (c : Cell) (a b : Option Bytes) → update (update c a) b ≡ update c (or_else a b)
update-or_else (true, d) a b = refl
update-or_else (false, d) none b = refl
update-or_else (false, d) (some e) b = refl

pub update-none : (c : Cell) → update c none ≡ c
update-none (true, d) = refl
update-none (false, d) = refl

pub update_filled : (c : Cell) (o : Option Bytes) → c.0 ≡ true → update c o ≡ c
update_filled (true, d) o h = refl
update_filled (false, d) o h = cc

module _ (n ss : ℕ) where
  abbrev pub cell : Fill → ℕ → Cell
  cell st t = (get_or st.sector_filled t true, slice st.composite (t * ss) ss)

  pub record Shape (st : Fill) : Type 0 where
    pub filled_len : length st.sector_filled ≡ n
    pub composite_len : length st.composite ≡ n * ss

  -- The step succeeds, and updates each sector `t` with `g t`.
  pub record Filled (st : Fill) (g : ℕ → Option Bytes) (r : Result Fill) : Type 0 where
    pub st' : Fill
    pub returns : r ≡ ok st'
    pub shape : Shape st'
    pub cells : (t : ℕ) → t < n → cell st' t ≡ update (cell st t) (g t)

  pub stay : (st : Fill) → Shape st → Filled st (λ t. none) (ok st)
  stay st sh = record {
    st' = st;
    returns = refl;
    shape = sh;
    cells = λ t h. sym (update-none (cell st t));
  }

  pub Filled-ext :
      {st : Fill} {g g' : ℕ → Option Bytes} {r : Result Fill}
      → Filled st g r
      → ((t : ℕ) → t < n → update (cell st t) (g t) ≡ update (cell st t) (g' t))
      → Filled st g' r
  Filled-ext f e = record {
    st' = f.st';
    returns = f.returns;
    shape = f.shape;
    cells = λ t h. f.cells t h ∙ e t h;
  }

  pub Filled-then :
      {st mid : Fill} (g : ℕ → Option Bytes) {g' : ℕ → Option Bytes} {r : Result Fill}
      → ((t : ℕ) → t < n → cell mid t ≡ update (cell st t) (g t))
      → Filled mid g' r
      → Filled st (λ t. or_else (g t) (g' t)) r
  Filled-then {st} {mid} g {g'} first f = record {
    st' = f.st';
    returns = f.returns;
    shape = f.shape;
    cells = λ t h.
        f.cells t h
        ∙ ap (λ c. update c (g' t)) (first t h)
        ∙ update-or_else (cell st t) (g t) (g' t);
  }

  abbrev pub copied : Fill → ℕ → Bytes → Fill
  copied st s d = record {
    composite = splice st.composite (s * ss) d;
    sector_filled = set st.sector_filled s true;
  }

  pub copied-Shape : (st : Fill) (s : ℕ) (d : Bytes) → Shape st → Shape (copied st s d)
  copied-Shape st s d sh = record {
    filled_len = length-set st.sector_filled s true ∙ sh.filled_len;
    composite_len = length-splice st.composite (s * ss) d ∙ sh.composite_len;
  }

  -- Copying a sector fills its cell and leaves the others.
  pub copied-cell :
      (st : Fill) (s : ℕ) (d : Bytes)
      → Shape st
      → s < n
      → length d ≡ ss
      → get_or st.sector_filled s true ≡ false
      → (t : ℕ) → t < n
      → cell (copied st s d) t ≡ update (cell st t) (if s == t then some d else none)
  copied-cell st s d sh hs len unfilled t ht = elim (Bool-cases (s == t)) [
    | inl e ↦
        rw (e, sym (==→≡ _ _ e), unfilled)
          (ap₂ (λ a b. (a, b))
            (get_or-set_self st.sector_filled s true true (omega (arith, sh.filled_len)))
            (ap (slice (splice st.composite (s * ss) d) (s * ss)) (sym len)
              ∙ slice-splice_within st.composite (s * ss) d
                  (omega (arith, len, sh.composite_len, sector_le ss s n hs))))
    | inr e ↦ rw e (
        ap₂ (λ a b. (a, b)) (get_or-set_ne st.sector_filled s t true true (ground arith))
          (slice-splice_out st.composite (s * ss) d (t * ss) ss (apart (ground arith)))
        ∙ sym (update-none (cell st t)))
  ]
    where
      apart : (t < s) ⊎ (s < t) → (t * ss + ss ≤ s * ss) ⊎ (s * ss + length d ≤ t * ss)
      apart (inl h) = inl (sector_le ss t s h)
      apart (inr h) = inr (omega (arith, len, sector_le ss s t h))
