-- ===== src/Flatten/Overlap.antt =====
-- The overlap of a range of sectors with one block, in bytes as the code computes it and in sectors.
use native.Mathlib.Nat.{mul-div_cancel, mul-div-mul_right, div-lt_iff_lt-mul, div-add-mod}
use starweld.Prelude.Products.{sector_le, mul_split, mul_sum, mul_mono}
use starweld.Prelude.{
  ℕ, ◌+◌, ◌-◌, ◌*◌, ◌/◌, ◌%◌, ◌^◌, ◌≤◌, ◌<◌, min, max, ◌≡◌, sym, ap, ◌∙◌, arith, true,
}
use starweld.Prelude.{==→≡, ◌==◌, leb, wrap64, mod-eq_of_lt}
use starweld.Flatten.Sectors.{within}

-- The range is the `n` sectors from sector `p` on; block `blk` has `q` sectors.
module _ (n ss p : ℕ) (pos : 0 < ss) (range_small : (p + n) * ss < 2 ^ 64) where
  module _ (q blk : ℕ) (qpos : 0 < q) where
    abbrev pub lo : ℕ
    lo = max p (blk * q) - p

    abbrev pub hi : ℕ
    hi = min (p + n) (blk * q + q) - p

    pub max_mul : (a b : ℕ) → max (a * ss) (b * ss) ≡ max a b * ss
    max_mul a b = ground (arith, mul_mono ss a b, mul_mono ss b a)

    pub min_mul : (a b : ℕ) → min (a * ss) (b * ss) ≡ min a b * ss
    min_mul a b = ground (arith, mul_mono ss a b, mul_mono ss b a)

    pub leb_mul : (a b : ℕ) → leb (a * ss) (b * ss) ≡ leb a b
    leb_mul a b = ground (arith, pos, mul_mono ss a b, sector_le ss b a)

    pub in_block :
        (t : ℕ)
        → t < n
        → (((p + t) / q == blk) ≡ within lo (hi - lo) t)
          × (((p + t) / q == blk) ≡ true → (p + t) % q ≡ p + t - blk * q)
    in_block t h =
        let below = div-lt_iff_lt-mul {x = p + t} {y = blk} qpos in
        let above = div-lt_iff_lt-mul {x = p + t} {y = blk + 1} qpos in
        let next : (blk + 1) * q ≡ blk * q + q = grind arith in
        let whole = div-add-mod (p + t) q in
        let same : (p + t) / q ≡ blk → q * ((p + t) / q) ≡ blk * q =
          λ e. ap (λ (d : ℕ). q * d) e ∙ grind arith in
        (
          ground (arith, below.0, below.1, above.0, above.1, next),
          λ e. omega (arith, same (==→≡ _ _ e), whole),
        )

    pub units_sub : (a b : ℕ) → (a * ss - b * ss) / ss ≡ a - b
    units_sub a b =
        let split : a * ss - b * ss ≡ (a - b) * ss =
          ground (arith, mul_split ss a b, mul_mono ss a b) in
        ap (λ (t : ℕ). t / ss) split ∙ mul-div_cancel (a - b) pos

    pub block_start :
        (bs : ℕ) → bs ≡ q * ss → (blk * q + q) * ss < 2 ^ 64 → wrap64 (blk * bs) ≡ blk * q * ss
    block_start bs e h =
        let product : blk * bs ≡ blk * q * ss = ap (λ (t : ℕ). blk * t) e ∙ grind arith in
        ap wrap64 product ∙ mod-eq_of_lt (omega (arith, h, mul_sum ss (blk * q) q))

    pub block_end :
        (bs : ℕ)
        → bs ≡ q * ss
        → (blk * q + q) * ss < 2 ^ 64
        → wrap64 (blk * q * ss + bs) ≡ (blk * q + q) * ss
    block_end bs e h = omega (arith, e, h, mul_sum ss (blk * q) q)

-- Sector `x` of the disk, in a block of `q` sectors.
pub byte_div : (ss q x : ℕ) → 0 < ss → x * ss / (q * ss) ≡ x / q
byte_div ss q x pos = mul-div-mul_right x q pos

pub byte_mod : (ss q x : ℕ) → 0 < ss → x * ss % (q * ss) ≡ x % q * ss
byte_mod ss q x pos =
    let bytes = div-add-mod (x * ss) (q * ss) in
    let units = div-add-mod x q in
    let scaled : x * ss ≡ q * ss * (x / q) + x % q * ss =
      ap (λ (t : ℕ). t * ss) (sym units) ∙ grind arith in
    let same : q * ss * (x * ss / (q * ss)) ≡ q * ss * (x / q) =
      ap (λ (t : ℕ). q * ss * t) (byte_div ss q x pos) in
    omega (arith, bytes, scaled, same)

pub div_mono : (a b c : ℕ) → 0 < c → a ≤ b → a / c ≤ b / c
div_mono a b c pos h =
    let above = div-lt_iff_lt-mul {x = a} {y = b / c + 1} pos in
    let own = div-lt_iff_lt-mul {x = b} {y = b / c + 1} pos in
    let less = above.1 (omega (arith, own.0 (omega arith))) in omega arith
