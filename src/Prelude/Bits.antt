-- ===== src/Prelude/Bits.antt =====
-- `&` with a mask of low bits and `|` of fields that do not overlap, as arithmetic.
use Prim.Native.Nat.{ℕ, zero, suc, ◌+◌, ◌-◌, ◌*◌, ◌/◌, ◌%◌, ◌^◌, ◌≤◌, ◌<◌, min, max}
use Prim.Native.Nat.{bit_and, bit_or, digits, bit_and-bitwise, bit_or-bitwise}
use mathlib.Core.Path.{◌≡◌, refl, ap, ◌∙◌}
use native.Mathlib.Omega.{arith}
use native.Mathlib.Nat.{
  pow-suc, one-le-pow, div-add-mod, mul-add-mod_self_left, mod-eq_of_lt, mod-lt,
}

-- The recursion on binary digits does not depend on its fuel, and gives the lowest digit last.
module _ (base : ℕ → ℕ) (op : ℕ → ℕ → ℕ) where
  enough : (a b m n : ℕ) → a ≤ m → a ≤ n → digits base op m a b ≡ digits base op n a b
  enough a b zero zero hm hn = refl
  enough zero b zero (suc n) hm hn = refl
  enough zero b (suc m) zero hm hn = refl
  enough zero b (suc m) (suc n) hm hn = refl
  enough (suc a) b zero n hm hn = elim hm [ ]
  enough (suc a) b (suc m) zero hm hn = elim hn [ ]
  enough (suc a) b (suc m) (suc n) hm hn =
      ap (λ (d : ℕ). d * 2 + op (suc a % 2) (b % 2))
        (enough (suc a / 2) (b / 2) m n (omega arith) (omega arith))

  lowest_digit :
      (a b : ℕ)
      → digits base op (suc a) (suc a) b
        ≡ digits base op (suc a / 2) (suc a / 2) (b / 2) * 2 + op (suc a % 2) (b % 2)
  lowest_digit a b =
      ap (λ (d : ℕ). d * 2 + op (suc a % 2) (b % 2))
        (enough (suc a / 2) (b / 2) a (suc a / 2) (omega arith) (omega arith))

and_digit : (a b : ℕ) → bit_and a b ≡ bit_and (a / 2) (b / 2) * 2 + min (a % 2) (b % 2)
and_digit zero b = omega (arith, bit_and-bitwise 0 b, bit_and-bitwise 0 (b / 2))
and_digit (suc a) b = omega (
  arith,
  bit_and-bitwise (suc a) b,
  bit_and-bitwise (suc a / 2) (b / 2),
  lowest_digit (λ _. 0) min a b,
)

or_digit : (a b : ℕ) → bit_or a b ≡ bit_or (a / 2) (b / 2) * 2 + max (a % 2) (b % 2)
or_digit zero b = omega (arith, bit_or-bitwise 0 b, bit_or-bitwise 0 (b / 2))
or_digit (suc a) b = omega (
  arith,
  bit_or-bitwise (suc a) b,
  bit_or-bitwise (suc a / 2) (b / 2),
  lowest_digit (λ y. y) max a b,
)

and_zero_below : (n a : ℕ) → a ≤ n → bit_and a 0 ≡ 0
and_zero_below n zero h = refl
and_zero_below zero (suc a) h = elim h [ ]
and_zero_below (suc n) (suc a) h =
    omega (arith, and_digit (suc a) 0, and_zero_below n (suc a / 2) (omega arith))

twice_mod : (a m : ℕ) → 0 < m → a % (m * 2) ≡ 2 * (a / 2 % m) + a % 2
twice_mod a m h =
    let low = 2 * (a / 2 % m) + a % 2 in
    let whole : a ≡ m * 2 * (a / 2 / m) + low =
      omega (arith, ap (λ (t : ℕ). 2 * t) (div-add-mod (a / 2) m)) in
    ap (λ (t : ℕ). t % (m * 2)) whole
    ∙ mul-add-mod_self_left (m * 2) (a / 2 / m) low
    ∙ mod-eq_of_lt (omega (arith, mod-lt (a / 2) h))

-- `x & (2^k - 1)`
pub bit_and-mask : (k a : ℕ) → bit_and a (2 ^ k - 1) ≡ a % 2 ^ k
bit_and-mask zero a = omega (arith, and_zero_below a a (omega arith))
bit_and-mask (suc k) a = omega (
  arith,
  and_digit a (2 ^ suc k - 1),
  ap (λ (t : ℕ). bit_and (a / 2) t) half,
  bit_and-mask k (a / 2),
  pow-suc 2 k,
  one-le-pow k 2 (omega arith),
  ap (λ (t : ℕ). a % t) (pow-suc 2 k),
  twice_mod a (2 ^ k) (one-le-pow k 2 (omega arith)),
)
  where
    half : (2 ^ suc k - 1) / 2 ≡ 2 ^ k - 1
    half = omega (arith, pow-suc 2 k, one-le-pow k 2 (omega arith))

-- `low | (high << k)` when `low` fits the `k` bits.
pub bit_or-fields : (k low high : ℕ) → low < 2 ^ k → bit_or low (high * 2 ^ k) ≡ low + high * 2 ^ k
bit_or-fields zero zero high h = omega (arith, bit_or-bitwise 0 (high * 1))
bit_or-fields zero (suc low) high h = absurd (omega arith)
bit_or-fields (suc k) low high h =
    let doubled : high * 2 ^ suc k ≡ 2 * (high * 2 ^ k) =
      omega (arith, ap (λ (t : ℕ). high * t) (pow-suc 2 k)) in
    omega (
      arith,
      or_digit low (high * 2 ^ suc k),
      doubled,
      ap (λ (t : ℕ). bit_or (low / 2) t) (halved doubled),
      bit_or-fields k (low / 2) high (omega (arith, pow-suc 2 k)),
    )
  where
    halved : high * 2 ^ suc k ≡ 2 * (high * 2 ^ k) → high * 2 ^ suc k / 2 ≡ high * 2 ^ k
    halved e = omega arith
