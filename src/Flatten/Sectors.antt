-- ===== src/Flatten/Sectors.antt =====
-- The loop over the sectors of one block, on a block and a range that are whole sectors.
use native.Mathlib.Nat.{mul-div_cancel}
use starweld.Prelude.Products.{sector_le, mul_split, mul_sum, mul_mono}
use starweld.Prelude.{
  ℕ, zero, suc, ◌+◌, ◌-◌, ◌*◌, ◌^◌, ◌≤◌, ◌<◌, ◌≡◌, refl, sym, ap, ◌∙◌, arith, Bool, true, false,
  inl, inr,
}
use starweld.Prelude.{
  Option, none, some, List, length, get_or, ==→≡, ◌==◌, if◌then◌else◌, Bool-cases, ltb, leb, ◌&&◌,
  wrap64, lt→ltb, le→leb, mod-eq_of_lt,
}
use starweld.Prelude.Bytes.{Bytes, slice, length-slice}
use starweld.Error.{ok}
use starweld.Flatten.{Fill, fill_sectors, range_filled}
use starweld.Flatten.Spec.{or_else}
use starweld.Flatten.Cells.{
  Cell, cell, update, update-none, update_filled, Shape, Filled, Filled-ext, Filled-then, stay,
  copied, copied-Shape, copied-cell,
}

-- The range that begins at `lo`.
abbrev pub within : ℕ → ℕ → ℕ → Bool
within lo count t = leb lo t && ltb t (lo + count)

abbrev pub only : Bool → Option Bytes → Option Bytes
only b o = if b then o else none

-- Sectors are counted from the start of the disk: the range begins at sector `p`, the block at `k`.
module _ (n ss p k m : ℕ) (content : Bytes) (has : ℕ → Bool) (pos : 0 < ss)
    (len : length content ≡ m * ss) (range_small : (p + n) * ss < 2 ^ 64)
    (block_small : (k + m) * ss < 2 ^ 64) where
  abbrev pub source : ℕ → Option Bytes
  source t = only (has (p + t - k)) (some (slice content ((p + t - k) * ss) ss))

  src_plain : (s : ℕ) → s < n → wrap64 (p * ss + s * ss) ≡ (p + s) * ss
  src_plain s h = omega (arith, mul_sum ss p s, mul_mono ss (p + s) (p + n) (omega arith))

  slo_plain :
      (s : ℕ)
      → s < n
      → k ≤ p + s
      → wrap64 (wrap64 (p * ss + s * ss) + (2 ^ 64 - k * ss)) ≡ (p + s - k) * ss
  slo_plain s h hk =
      rw (src_plain s h)
        (omega (arith, mul_split ss (p + s) k hk, mul_mono ss (p + s) (p + n) (omega arith)))

  shi_plain :
      (s : ℕ)
      → p + s < k + m
      → k ≤ p + s
      → ((p + s - k) * ss + ss ≤ m * ss) × (wrap64 ((p + s - k) * ss + ss) ≡ (p + s - k) * ss + ss)
  shi_plain s h hk =
      let inside = sector_le ss (p + s - k) m (omega arith) in
      (inside, mod-eq_of_lt (omega (arith, inside, mul_sum ss k m)))

  -- The sectors of the range that are behind its first.
  behind :
      (s count : ℕ) (c : Cell) (t : ℕ)
      → (s ≡ t → update c none ≡ update c (source t))
      → update c (only (within (s + 1) count t) (source t))
        ≡ update c (only (within s (suc count) t) (source t))
  behind s count c t same = elim (Bool-cases (s == t)) [
    | inl e ↦ rw ((inside t (==→≡ _ _ e)).0, (inside t (==→≡ _ _ e)).1) (same (==→≡ _ _ e))
    | inr e ↦ ap (λ b. update c (only b (source t))) (ground arith)
  ]
    where
      inside : (t : ℕ) → s ≡ t → (within (s + 1) count t ≡ false) × (within s (suc count) t ≡ true)
      inside t e = ground arith

  front :
      (s count t : ℕ)
      → has (p + s - k) ≡ true
      → or_else
          (if s == t then some (slice content ((p + s - k) * ss) ss) else none)
          (only (within (s + 1) count t) (source t))
        ≡ only (within s (suc count) t) (source t)
  front s count t h = elim (Bool-cases (s == t)) [
    | inl e ↦ rw (e, sym (==→≡ _ _ e), h, inside) refl
    | inr e ↦ rw e (ap (λ b. only b (source t)) (ground arith))
  ]
    where
      inside : within s (suc count) s ≡ true
      inside = ground arith

  -- A range of whole sectors is copied from a block of whole sectors, where the block has them and
  -- the range is not filled.
  pub fill_sectors-Filled :
      (s count : ℕ) (st : Fill)
      → Shape n ss st
      → s + count ≤ n
      → k ≤ p + s
      → p + s + count ≤ k + m
      → Filled n ss st
          (λ t. only (within s count t) (source t))
          (fill_sectors has content (p * ss) (k * ss) ss s count st)
  unfolding fill_sectors
  fill_sectors-Filled s zero st sh hn hk hm =
      Filled-ext n ss (stay n ss st sh) (λ t h. ap (update (cell n ss st t)) (ground arith))
  fill_sectors-Filled s (suc count) st sh hn hk hm =
      let rest : (st : Fill)
          → Shape n ss st
          → Filled n ss st (λ t. only (within (s + 1) count t) (source t))
              (fill_sectors has content (p * ss) (k * ss) ss (s + 1) count st) =
        λ st sh.
          fill_sectors-Filled (s + 1) count st sh (omega arith) (omega arith) (omega arith) in
      elim (Bool-cases (get_or st.sector_filled s true)) [
        | inl done ↦
            rw (done, lt→ltb s (length st.sector_filled) (omega (arith, sh.filled_len)))
              (Filled-ext n ss (rest st sh) (λ t h. behind s count (cell n ss st t) t (λ e.
                update-none (cell n ss st t)
                ∙ sym (
                    update_filled (cell n ss st t) (source t)
                      (ap (λ (i : ℕ). get_or st.sector_filled i true) (sym e) ∙ done)))))
        | inr todo ↦
            rw
              (
                todo,
                slo_plain s (omega arith) hk,
                (shi_plain s (omega arith) hk).1,
                mul-div_cancel (p + s - k) pos,
              )
              (elim (Bool-cases (has (p + s - k))) [
                | inl there ↦
                    rw
                      (
                        there,
                        le→leb ((p + s - k) * ss) ((p + s - k) * ss + ss) (omega arith),
                        le→leb ((p + s - k) * ss + ss) (length content)
                            (omega (arith, len, (shi_plain s (omega arith) hk).0)),
                        le→leb (s * ss + ss) (length st.composite)
                            (omega (arith, sh.composite_len, sector_le ss s n (omega arith))),
                      )
                      (Filled-ext n ss
                        (Filled-then n ss _
                          (copied-cell n ss st s _ sh (omega arith) (length-slice content _ ss)
                            todo)
                          (rest (copied n ss st s _) (copied-Shape n ss st s _ sh)))
                        (λ t h. ap (update (cell n ss st t)) (front s count t there)))
                | inr hole ↦ rw hole (
                    Filled-ext n ss (rest st sh) (λ t h. behind s count (cell n ss st t) t (λ e.
                      ap
                        (λ b.
                          update (cell n ss st t)
                            (only b (some (slice content ((p + t - k) * ss) ss))))
                        (sym hole ∙ ap (λ (i : ℕ). has (p + i - k)) e))))
              ])
      ]

-- The test whether a range is filled already.
pub range_filled_lem :
    (filled : List Bool) (s count : ℕ)
    → s + count ≤ length filled
    → (b : Bool) × (range_filled filled s count ≡ ok b)
      × (b ≡ true → (t : ℕ) → within s count t ≡ true → get_or filled t true ≡ true)
unfolding range_filled
range_filled_lem filled s zero h = (true, refl, λ e t i. ground arith)
range_filled_lem filled s (suc count) h =
    let (b, e, f) = range_filled_lem filled (s + 1) count (omega arith) in
    elim (Bool-cases (get_or filled s true)) [
      | inl done ↦ (
        b,
        rw (lt→ltb s (length filled) (omega arith), done) e,
        λ h t i. elim (Bool-cases (s == t)) [
          | inl same ↦ ap (λ (k : ℕ). get_or filled k true) (sym (==→≡ _ _ same)) ∙ done
          | inr differs ↦ f h t (ground arith)
        ],
      )
      | inr todo ↦ (false, rw (lt→ltb s (length filled) (omega arith), todo), cc)
    ]
