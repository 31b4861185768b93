-- ===== src/Prelude/Le.antt =====
-- `byteorder::LittleEndian` and `to_be_bytes`: a number as its bytes.
use Prim.Native.Nat.{ℕ, zero, suc, ◌+◌, ◌*◌, ◌/◌, ◌%◌, ◌^◌, ◌≤◌, ◌<◌}
use mathlib.Core.Path.{◌≡◌, refl, ap, ◌∙◌}
use mathlib.Core.List.{[], ◌∷◌}
use native.Mathlib.Omega.{arith}
use native.Mathlib.Nat.{pow-suc}
use starweld.Prelude.Lists.{length, All}
use starweld.Prelude.Bytes.{
  Bytes, slice, splice, length-splice, slice-splice_self, slice-splice_out,
}
use mathlib.Core.Logic.{◌⊎◌}

abbrev pub IsByte : ℕ → Type 0
IsByte b = b < 256

-- The lowest `w` bytes of `v`, lowest first.
unfoldable pub le_bytes : ℕ → ℕ → Bytes
le_bytes zero v = []
le_bytes (suc w) v = (v % 256) ∷ le_bytes w (v / 256)

unfoldable pub of_le : Bytes → ℕ
of_le [] = 0
of_le (b ∷ x) = b + 256 * of_le x

-- `LittleEndian::write_u16`, `write_u32`, `write_u64` into `buf[off..]`, for w = 2, 4, 8.
unfoldable pub put_le : ℕ → Bytes → ℕ → ℕ → Bytes
put_le w buf off v = splice buf off (le_bytes w v)

-- `LittleEndian::read_u16`, `read_u32`, `read_u64` of `buf[off..off + w]`.
unfoldable pub get_le : ℕ → Bytes → ℕ → ℕ
get_le w buf off = of_le (slice buf off w)

pub length-le_bytes : (w v : ℕ) → length (le_bytes w v) ≡ w
unfolding le_bytes
length-le_bytes zero v = refl
length-le_bytes (suc w) v = ap suc (length-le_bytes w (v / 256))

pub le_bytes-IsByte : (w v : ℕ) → All IsByte (le_bytes w v)
unfolding le_bytes
le_bytes-IsByte zero v = tt
le_bytes-IsByte (suc w) v = (omega arith, le_bytes-IsByte w (v / 256))

div_lt : (w v : ℕ) → v < 256 ^ suc w → v / 256 < 256 ^ w
div_lt w v h = omega (arith, pow-suc 256 w)

pub of_le-le_bytes : (w v : ℕ) → v < 256 ^ w → of_le (le_bytes w v) ≡ v
unfolding le_bytes of_le
of_le-le_bytes zero v h = omega (arith, h)
of_le-le_bytes (suc w) v h = omega (arith, of_le-le_bytes w (v / 256) (div_lt w v h))

pub of_le-lt : (x : Bytes) → All IsByte x → of_le x < 256 ^ length x
unfolding of_le
of_le-lt [] h = omega arith
of_le-lt (b ∷ x) (hb, hx) = rw pow-suc (omega (arith, of_le-lt x hx))

pub length-put_le : (w : ℕ) (buf : Bytes) (off v : ℕ) → length (put_le w buf off v) ≡ length buf
unfolding put_le
length-put_le w buf off v = length-splice buf off (le_bytes w v)

-- What is written at an offset within the buffer is read back there.
pub get_le-put_le :
    (w : ℕ) (buf : Bytes) (off v : ℕ)
    → v < 256 ^ w
    → off + w ≤ length buf
    → get_le w (put_le w buf off v) off ≡ v
unfolding get_le put_le
get_le-put_le w buf off v hv h =
    ap of_le (
      slice-splice_self buf off (le_bytes w v) w (ground (arith, length-le_bytes w v))
        (ground (arith, length-le_bytes w v)))
    ∙ of_le-le_bytes w v hv

-- A read depends on the bytes of its range alone.
pub get_le-agree :
    (w : ℕ) (a b : Bytes) (i j : ℕ) → slice a i w ≡ slice b j w → get_le w a i ≡ get_le w b j
unfolding get_le
get_le-agree w a b i j h = ap of_le h

-- A write leaves what is read beside it.
pub get_le-put_le_out :
    (w : ℕ) (buf : Bytes) (n off v a : ℕ)
    → (a + w ≤ off) ⊎ (off + n ≤ a)
    → get_le w (put_le n buf off v) a ≡ get_le w buf a
unfolding put_le
get_le-put_le_out w buf n off v a h =
    get_le-agree w _ _ a a
      (slice-splice_out buf off (le_bytes n v) a w (rw (length-le_bytes n v) h))

pub slice-put_le_out :
    (buf : Bytes) (n off v a k : ℕ)
    → (a + k ≤ off) ⊎ (off + n ≤ a)
    → slice (put_le n buf off v) a k ≡ slice buf a k
unfolding put_le
slice-put_le_out buf n off v a k h =
    slice-splice_out buf off (le_bytes n v) a k (rw (length-le_bytes n v) h)
