-- ===== src/Compact/ZeroTest.antt =====
-- The zero test by chunks.
use starweld.Prelude.{
  ℕ, zero, suc, ◌+◌, ◌-◌, ◌≤◌, ◌<◌, min, ◌≡◌, refl, sym, ap, ◌∙◌, arith, true, inl, inr,
}
use starweld.Prelude.{length, ltb, Bool-cases}
use starweld.Prelude.Bytes.{Bytes, byte, slice, byte-slice, byte-ge, length-slice}
use starweld.IoUtil.{is_all_zero}
use starweld.IoUtil.Zero.{is_all_zero_iff}
use starweld.Compact.{zero_chunks, is_all_zero_aligned}

abbrev ZeroFrom : Bytes → ℕ → Type 0
ZeroFrom x i = (k : ℕ) → i ≤ k → byte x k ≡ 0

slice_zero :
    (x : Bytes) (i n : ℕ)
    → is_all_zero (slice x i n) ≡ true
    → (k : ℕ) → i ≤ k
    → k < i + n
    → byte x k ≡ 0
slice_zero x i n h k lo up =
    let place : k ≡ i + (k - i) = omega arith in
    ap (byte x) place
    ∙ sym (byte-slice x i n (k - i) (omega arith))
    ∙ (is_all_zero_iff (slice x i n)).0 h (k - i)

zero_slice : (x : Bytes) (i n : ℕ) → ZeroFrom x i → is_all_zero (slice x i n) ≡ true
zero_slice x i n h = (is_all_zero_iff (slice x i n)).1 (λ k. elim (Bool-cases (ltb k n)) [
  | inl e ↦ byte-slice x i n k (ground arith) ∙ h (i + k) (omega arith)
  | inr e ↦ byte-ge (slice x i n) k (ground (arith, length-slice x i n))
])

zero_chunks_sound :
    (fuel : ℕ) (x : Bytes) (i g : ℕ)
    → 0 < g
    → length x ≤ i + fuel
    → zero_chunks fuel x i g ≡ true
    → ZeroFrom x i
unfolding zero_chunks
zero_chunks_sound zero x i g hg hf h k hk = byte-ge x k (omega arith)
zero_chunks_sound (suc fuel) x i g hg hf h k hk = ground (
  arith,
  h,
  λ (z : is_all_zero (slice x i (min (i + g) (length x) - i)) ≡ true).
      slice_zero x i (min (i + g) (length x) - i) z k,
  λ (t : zero_chunks fuel x (i + g) g ≡ true).
      zero_chunks_sound fuel x (i + g) g hg (omega arith) t k,
  byte-ge x k,
)

zero_chunks_complete :
    (fuel : ℕ) (x : Bytes) (i g : ℕ) → ZeroFrom x i → zero_chunks fuel x i g ≡ true
unfolding zero_chunks
zero_chunks_complete zero x i g h = refl
zero_chunks_complete (suc fuel) x i g h =
    rw
      (
        zero_slice x i (min (i + g) (length x) - i) h,
        zero_chunks_complete fuel x (i + g) g (λ k hk. h k (omega arith)),
      )
      (ground arith)

-- For every positive granularity, is_all_zero_aligned is the test whether all bytes are zero.
pub is_all_zero_aligned_lem :
    (x : Bytes) (granularity : ℕ)
    → 0 < granularity
    → is_all_zero_aligned x granularity ≡ is_all_zero x
unfolding is_all_zero_aligned
is_all_zero_aligned_lem x g hg = elim (Bool-cases (is_all_zero x)) [
  | inl z ↦
      rw z
        (ground (arith, zero_chunks_complete (length x) x 0 g (λ k hk. (is_all_zero_iff x).0 z k)))
  | inr nz ↦ rw nz (
      ground (
        arith,
        nz,
        λ (t : zero_chunks (length x) x 0 g ≡ true).
            (is_all_zero_iff x).1
              (λ k. zero_chunks_sound (length x) x 0 g hg (omega arith) t k (omega arith)),
      ))
]
