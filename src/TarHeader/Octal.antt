-- ===== src/TarHeader/Octal.antt =====
-- Numbers in octal digits, written and read.
use native.Mathlib.Nat.{pow-suc}
use starweld.Prelude.{
  ℕ, zero, suc, ◌+◌, ◌-◌, ◌*◌, ◌/◌, ◌%◌, ◌^◌, ◌≤◌, ◌<◌, min, max, ◌≡◌, refl, sym, ap,
}
use starweld.Prelude.{◌∙◌, [], ◌∷◌, ◌++◌, length, length-append, arith, replicate}
use starweld.Prelude.{length-replicate}
use starweld.Prelude.Bytes.{Bytes, slice, length-slice, slice_whole}
use starweld.TarHeader.{octal_digits, octal_len, format_octal, fill_field, write_octal_field}
use starweld.TarHeader.{be_bytes}

-- How a reader takes the digits of a base.
unfoldable pub of_digits : ℕ → ℕ → ℕ → Bytes → ℕ
of_digits base zero_digit acc [] = acc
of_digits base zero_digit acc (c ∷ s) = of_digits base zero_digit (acc * base + (c - zero_digit)) s

abbrev pub of_octal : Bytes → ℕ
of_octal = of_digits 8 b'0' 0

abbrev pub of_be : Bytes → ℕ
of_be = of_digits 256 0 0

of_digits-append :
    (base z acc : ℕ) (s : Bytes) (c : ℕ)
    → of_digits base z acc (s ++ c ∷ []) ≡ of_digits base z acc s * base + (c - z)
unfolding of_digits
of_digits-append base z acc [] c = refl
of_digits-append base z acc (d ∷ s) c = of_digits-append base z (acc * base + (d - z)) s c

eighth_lt : (w v : ℕ) → v < 8 ^ suc w → v / 8 < 8 ^ w
eighth_lt w v h = omega (arith, pow-suc 8 w)

pub of_octal-octal_digits : (w v : ℕ) → v < 8 ^ w → of_octal (octal_digits w v) ≡ v
unfolding octal_digits
of_octal-octal_digits zero v h = unfold of_digits in omega (arith, h)
of_octal-octal_digits (suc w) v h = omega (
  arith,
  of_digits-append 8 b'0' 0 (octal_digits w (v / 8)) (b'0' + v % 8),
  of_octal-octal_digits w (v / 8) (eighth_lt w v h),
)

pub of_be-be_bytes : (w v : ℕ) → v < 256 ^ w → of_be (be_bytes w v) ≡ v
unfolding be_bytes
of_be-be_bytes zero v h = unfold of_digits in omega (arith, h)
of_be-be_bytes (suc w) v h = omega (
  arith,
  of_digits-append 256 0 0 (be_bytes w (v / 256)) (v % 256),
  of_be-be_bytes w (v / 256) (omega (arith, pow-suc 256 w)),
)

pub length-octal_digits : (w v : ℕ) → length (octal_digits w v) ≡ w
unfolding octal_digits
length-octal_digits zero v = refl
length-octal_digits (suc w) v =
    length-append (octal_digits w (v / 8)) _ ∙ omega (arith, length-octal_digits w (v / 8))

pub length-be_bytes : (w v : ℕ) → length (be_bytes w v) ≡ w
unfolding be_bytes
length-be_bytes zero v = refl
length-be_bytes (suc w) v =
    length-append (be_bytes w (v / 256)) _ ∙ omega (arith, length-be_bytes w (v / 256))

octal_len-le : (fuel w v : ℕ) → v < 8 ^ w → 0 < w → octal_len fuel v ≤ w
unfolding octal_len
octal_len-le zero w v h p = omega arith
octal_len-le (suc fuel) zero v h p = elim p [ ]
octal_len-le (suc fuel) (suc zero) v h p = ground arith
octal_len-le (suc fuel) (suc (suc w)) v h p =
    ground (arith, octal_len-le fuel (suc w) (v / 8) (eighth_lt (suc w) v h))

-- A number that fits the width has exactly as many digits.
pub format_octal_fits : (w v : ℕ) → v < 8 ^ w → 0 < w → format_octal w v ≡ octal_digits w v
unfolding format_octal
format_octal_fits w v h p =
    let e : max w (octal_len 21 v) ≡ w = omega (arith, octal_len-le 21 w v h p) in rw e

length-fill_field : (w : ℕ) (bytes : Bytes) → length (fill_field w bytes) ≡ w + 1
unfolding fill_field
length-fill_field w bytes =
    let n = min (length bytes) w in
    length-append (replicate (w - n) b'0') _
    ∙ omega (
      arith,
      length-replicate {A = ℕ} (w - n) b'0',
      length-append (slice bytes (length bytes - n) n) (0 ∷ []),
      length-slice bytes (length bytes - n) n,
    )

fill_field_exact : (bytes : Bytes) → fill_field (length bytes) bytes ≡ bytes ++ 0 ∷ []
unfolding fill_field replicate
fill_field_exact bytes =
    let whole : min (length bytes) (length bytes) ≡ length bytes = omega arith in
    let none_left : length bytes - length bytes ≡ 0 = omega arith in
    rw whole (rw none_left (ap (λ s. s ++ 0 ∷ []) (slice_whole bytes)))

pub length-write_octal_field : (w v : ℕ) → length (write_octal_field w v) ≡ w + 1
length-write_octal_field w v = unfold write_octal_field in length-fill_field w (format_octal w v)

pub write_octal_field_fits :
    (w v : ℕ) → v < 8 ^ w → 0 < w → write_octal_field w v ≡ octal_digits w v ++ 0 ∷ []
write_octal_field_fits w v h p =
    shown
    ∙ ap (fill_field w) (format_octal_fits w v h p)
    ∙ ap (λ (n : ℕ). fill_field n (octal_digits w v)) (sym (length-octal_digits w v))
    ∙ fill_field_exact (octal_digits w v)
  where
    shown : write_octal_field w v ≡ fill_field w (format_octal w v)
    shown = unfold write_octal_field in refl
