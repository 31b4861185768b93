-- ===== src/Flatten/Scan.antt =====
-- The scan for zero blocks.
use native.Mathlib.Nat.{div-lt_iff_lt-mul}
use starweld.Prelude.Products.{sector_le, mul_mono}
use starweld.Prelude.{div-add-mod, mod-lt, ltb, ltb→lt, ◌/◌, ◌%◌}
use starweld.Prelude.Bytes.{byte-ge}
use starweld.Flatten.Merge.{IsReadable, merge_block-merged}
use starweld.Prelude.{
  ℕ, zero, suc, ◌+◌, ◌*◌, ◌^◌, ◌≤◌, ◌<◌, ◌≡◌, ◌↔◌, refl, sym, ap, ◌∙◌, arith, Bool, true, inl, inr,
}
use starweld.Prelude.{List, [], ◌∷◌, length, Bool-cases, All}
use starweld.Prelude.Bytes.{
  Bytes, zeros, byte, slice, length-zeros, byte-zeros, bytes_ext, byte-slice, length-slice,
}
use starweld.Error.{ok}
use starweld.IoUtil.{is_all_zero}
use starweld.IoUtil.Zero.{is_all_zero_iff}
use starweld.Flatten.{ChainLink, merge_block, analyze_blocks, analyze_chain_zero_blocks}
use starweld.Flatten.Spec.{merged}

-- Each bit says whether all sectors of its block are zero.
abbrev pub SaysZero : ℕ → ℕ → List ChainLink → ℕ → List Bool → Type 0
SaysZero ss n links blk [] = Unit
SaysZero ss n links blk (b ∷ bits) =
    ((b ≡ true) ↔ ((t : ℕ) → t < n → merged ss links (blk * n + t) ≡ zeros ss))
    × SaysZero ss n links (blk + 1) bits

module _ (links : List ChainLink) (n ss : ℕ) (pos : 0 < ss) (r : All (IsReadable ss) links) where
  zero_byte :
      (blk : ℕ) (x : Bytes)
      → length x ≡ n * ss
      → ((t : ℕ) → t < n → slice x (t * ss) ss ≡ merged ss links (blk * n + t))
      → ((t : ℕ) → t < n → merged ss links (blk * n + t) ≡ zeros ss)
      → (i : ℕ) → byte x i ≡ 0
  zero_byte blk x len same z i = elim (Bool-cases (ltb i (n * ss))) [
    | inl inside ↦
        let t = i / ss in
        let t_in : t < n = (div-lt_iff_lt-mul {x = i} {y = n} pos).1 (ltb→lt _ _ inside) in
        let place : i ≡ t * ss + i % ss = grind (arith, div-add-mod i ss) in
        ap (byte x) place
        ∙ sym (byte-slice x (t * ss) ss (i % ss) (mod-lt i pos))
        ∙ ap (λ d. byte d (i % ss)) (same t t_in ∙ z t t_in)
        ∙ byte-zeros ss (i % ss)
    | inr outside ↦ byte-ge x i (ground (arith, len))
  ]

  sectors_zero :
      (blk : ℕ) (x : Bytes)
      → length x ≡ n * ss
      → ((t : ℕ) → t < n → slice x (t * ss) ss ≡ merged ss links (blk * n + t))
      → (is_all_zero x ≡ true) ↔ ((t : ℕ) → t < n → merged ss links (blk * n + t) ≡ zeros ss)
  sectors_zero blk x len same = (
    λ z t h.
        sym (same t h)
        ∙ bytes_ext _ _ (length-slice x (t * ss) ss ∙ sym (length-zeros ss)) (λ k hk.
          byte-slice x (t * ss) ss k (omega (arith, length-slice x (t * ss) ss))
          ∙ (is_all_zero_iff x).0 z (t * ss + k)
          ∙ sym (byte-zeros ss k)),
    λ z. (is_all_zero_iff x).1 (λ i. zero_byte blk x len same z i),
  )

  joined :
      (blk count : ℕ) {x : Bytes} {bits : List Bool}
      → merge_block links blk (n * ss) ss n ≡ ok x
      → analyze_blocks links (n * ss) ss n (blk + 1) count ≡ ok bits
      → analyze_blocks links (n * ss) ss n blk (suc count) ≡ ok (is_all_zero x ∷ bits)
  unfolding analyze_blocks
  joined blk count e e' = rw (e, e')

  analyze_blocks_lem :
      (count blk : ℕ)
      → (blk + count) * n * ss < 2 ^ 64
      → (bits : List Bool) × (analyze_blocks links (n * ss) ss n blk count ≡ ok bits)
        × (length bits ≡ count)
        × SaysZero ss n links blk bits
  unfolding analyze_blocks
  analyze_blocks_lem zero blk h = ([], refl, refl, tt)
  analyze_blocks_lem (suc count) blk h =
      let sum : (blk + suc count) * n * ss ≡ (blk + 1 + count) * n * ss =
        ap (λ (t : ℕ). t * n * ss) (omega arith) in
      let one : (blk * n + n) * ss ≤ (blk + suc count) * n * ss =
        mul_mono ss (blk * n + n) ((blk + suc count) * n)
          (sector_le n blk (blk + suc count) (omega arith)) in
      let (x, e, len, same) = merge_block-merged links blk n ss pos (omega (arith, h, one)) r in
      let (bits, e', len', z) = analyze_blocks_lem count (blk + 1) (rw (sum) at h) in
      (is_all_zero x ∷ bits, joined blk count e e', ap suc len', (sectors_zero blk x len same, z))

  -- On a readable chain, for a positive sector size and blocks whose bytes end within 64 bits,
  -- the scan succeeds with one bit per block, and the bit of a block is set exactly when every
  -- sector of the merged block is zero.
  pub analyze_chain_zero_blocks_lem :
      (count : ℕ)
      → count * n * ss < 2 ^ 64
      → (bits : List Bool) × (analyze_chain_zero_blocks links count (n * ss) ss n ≡ ok bits)
        × (length bits ≡ count)
        × SaysZero ss n links 0 bits
  unfolding analyze_chain_zero_blocks
  analyze_chain_zero_blocks_lem count h =
      let e : 0 + count ≡ count = omega arith in analyze_blocks_lem count 0 (rw e h)
