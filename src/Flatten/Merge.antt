-- ===== src/Flatten/Merge.antt =====
-- The merged block against its description by sectors.
use starweld.Prelude.Products.{mul_sum}
use starweld.Prelude.{
  ℕ, zero, suc, ◌+◌, ◌*◌, ◌^◌, ◌<◌, ◌≡◌, refl, sym, ap, ap₂, ◌∙◌, arith, Bool, true, false, inl,
  inr,
}
use starweld.Prelude.{
  Option, none, some, List, [], ◌∷◌, length, get_or, Bool-cases, All, replicate, length-replicate,
  wrap64, mod-eq_of_lt,
}
use starweld.Prelude.Bytes.{
  Bytes, zeros, slice, length-zeros, byte-zeros, bytes_ext, byte-slice, length-slice,
}
use starweld.Error.{ok}
use starweld.Flatten.{ChainLink, Fill, all_filled, merge_links, merge_block}
use starweld.Flatten.Spec.{held, first_held, merged}
use starweld.Flatten.Cells.{
  Cell, cell, update, update-or_else, update_filled, Shape, Filled, Filled-ext, Filled-then, stay,
}
use starweld.Flatten.Link.{Readable, fill_from_link-Filled}

-- A link whose blocks are whole sectors and can all be read.
abbrev pub IsReadable : ℕ → ChainLink → Type 0
IsReadable ss (disk, file) = (q : ℕ) × (count : ℕ) × Readable ss q count disk file

all_filled_lem :
    (filled : List Bool) → all_filled filled ≡ true → (t : ℕ) → get_or filled t true ≡ true
unfolding all_filled
all_filled_lem [] h t = refl
all_filled_lem (true ∷ filled) h zero = refl
all_filled_lem (true ∷ filled) h (suc t) = all_filled_lem filled h t
all_filled_lem (false ∷ filled) h t = cc

module _ (n ss p : ℕ) (pos : 0 < ss) (range_small : (p + n) * ss < 2 ^ 64) where
  merge_links-Filled :
      (links : List ChainLink)
      → All (IsReadable ss) links
      → (st : Fill) → Shape n ss st
      → Filled n ss st (λ t. first_held ss links (p + t)) (merge_links links (p * ss) ss st)
  unfolding merge_links
  merge_links-Filled [] r st sh = stay n ss st sh
  merge_links-Filled ((disk, file) ∷ links) ((q, count, ready), rs) st sh =
      let f = fill_from_link-Filled n ss p pos range_small q count disk file ready st sh in
      rw f.returns (elim (Bool-cases (all_filled f.st'.sector_filled)) [
        | inl done ↦ rw done (
            Filled-ext n ss (Filled-then n ss _ f.cells (stay n ss f.st' f.shape)) (λ t h.
              sym (update-or_else (cell n ss st t) (held ss disk file (p + t)) none)
              ∙ ap (λ c. update c none) (sym (f.cells t h))
              ∙ update_filled (cell n ss f.st' t) none (all_filled_lem f.st'.sector_filled done t)
              ∙ sym (
                  update_filled (cell n ss f.st' t) (first_held ss links (p + t))
                    (all_filled_lem f.st'.sector_filled done t))
              ∙ ap (λ c. update c (first_held ss links (p + t))) (f.cells t h)
              ∙ update-or_else (cell n ss st t) (held ss disk file (p + t))
                  (first_held ss links (p + t))))
        | inr more ↦
            rw more (Filled-then n ss _ f.cells (merge_links-Filled links rs f.st' f.shape))
      ])

slice-zeros : (m off n : ℕ) → slice (zeros m) off n ≡ zeros n
slice-zeros m off n = bytes_ext _ _ (length-slice (zeros m) off n ∙ sym (length-zeros n)) (λ k h.
    byte-slice (zeros m) off n k (omega (arith, length-slice (zeros m) off n))
    ∙ byte-zeros m (off + k)
    ∙ sym (byte-zeros n k))

unfilled : (n t : ℕ) → t < n → get_or (replicate n false) t true ≡ false
unfolding replicate
unfilled zero t h = absurd (omega arith)
unfilled (suc n) zero h = refl
unfilled (suc n) (suc t) h = unfilled n t (omega arith)

picked :
    (ss : ℕ) (o : Option Bytes)
    → (update (false, zeros ss) o).1 ≡ elim o [ some d ↦ d | none ↦ zeros ss ]
picked ss none = refl
picked ss (some d) = refl

-- For a chain of links whose blocks are whole sectors (the block sizes may differ) and can all be
-- read, a positive sector size and a block whose bytes end within 64 bits, merge_block succeeds
-- with a whole block, each sector of which is that of the first link from the leaf on that holds
-- it, or zero if none does.
pub merge_block-merged :
    (links : List ChainLink) (blk n ss : ℕ)
    → 0 < ss
    → (blk * n + n) * ss < 2 ^ 64
    → All (IsReadable ss) links
    → (composite : Bytes) × (merge_block links blk (n * ss) ss n ≡ ok composite)
      × (length composite ≡ n * ss)
      × ((t : ℕ) → t < n → slice composite (t * ss) ss ≡ merged ss links (blk * n + t))
unfolding merge_block
merge_block-merged links blk n ss pos small r =
    let f = merge_links-Filled n ss (blk * n) pos small links r start start-Shape in
    (
      f.st'.composite,
      rw (begins, f.returns),
      f.shape.composite_len,
      λ t h.
          ap (λ (c : Cell). c.1)
            (f.cells t h
              ∙ ap (λ (c : Cell). update c (first_held ss links (blk * n + t)))
                  (ap₂ (λ a b. (a, b)) (unfilled n t h) (slice-zeros (n * ss) (t * ss) ss)))
          ∙ picked ss (first_held ss links (blk * n + t)),
    )
  where
    begins : wrap64 (blk * (n * ss)) ≡ blk * n * ss
    begins =
        let product : blk * (n * ss) ≡ blk * n * ss = grind arith in
        ap wrap64 product ∙ mod-eq_of_lt (omega (arith, mul_sum ss (blk * n) n))

    start : Fill
    start = record { composite = zeros (n * ss); sector_filled = replicate n false }

    start-Shape : Shape n ss start
    start-Shape = record {
      filled_len = length-replicate n false;
      composite_len = length-zeros (n * ss);
    }
