-- ===== src/Log/Ring.antt =====
-- Reading an entry out of the ring.
use starweld.Prelude.{ℕ, ◌+◌, ◌-◌, ◌*◌, ◌%◌, ◌≤◌, ◌<◌, ◌≡◌, sym, ap, ◌∙◌, ◌++◌}
use starweld.Prelude.{length, arith, Bool-cases, inl, inr, leb, ltb, length-append}
use starweld.Prelude.{mod-eq_of_lt}
use native.Mathlib.Nat.{mod-eq-sub-mod}
use starweld.Prelude.Bytes.{Bytes, byte, slice, length-slice, byte-slice, byte-append}
use starweld.Error.{Result, ok, panic}
use starweld.Log.Scan.{linear}

-- An entry of `n` bytes from `cursor` on, which goes on at the start of the ring.
pub record FromRing (buf : Bytes) (cursor n : ℕ) (r : Result Bytes) : Type 0 where
  pub entry : Bytes
  pub returns : r ≡ ok entry
  pub size : length entry ≡ n
  pub bytes : (k : ℕ) → k < n → byte entry k ≡ byte buf ((cursor + k) % length buf)

past_end : (i len : ℕ) → len ≤ i → i < 2 * len → i % len ≡ i - len
past_end i len h lt = mod-eq-sub-mod h ∙ mod-eq_of_lt (omega arith)

abbrev wrapped : Bytes → ℕ → ℕ → Bytes
wrapped buf cursor n =
    slice buf cursor (length buf - cursor) ++ slice buf 0 (n - (length buf - cursor))

length-wrapped :
    (buf : Bytes) (cursor n : ℕ)
    → cursor < length buf
    → length buf < cursor + n
    → length (wrapped buf cursor n) ≡ n
length-wrapped buf cursor n h long =
    let head = slice buf cursor (length buf - cursor) in
    let tail = slice buf 0 (n - (length buf - cursor)) in
    length-append head tail
    ∙ omega (
      arith,
      length-slice buf cursor (length buf - cursor),
      length-slice buf 0 (n - (length buf - cursor)),
    )

byte-wrapped :
    (buf : Bytes) (cursor n k : ℕ)
    → cursor < length buf
    → length buf < cursor + n
    → cursor + n ≤ 2 * length buf
    → k < n
    → byte (wrapped buf cursor n) k ≡ byte buf ((cursor + k) % length buf)
byte-wrapped buf cursor n k h long fits lt =
    let first = length buf - cursor in
    byte-append (slice buf cursor first) (slice buf 0 (n - first)) k
    ∙ elim (Bool-cases (ltb k (length (slice buf cursor first)))) [
      | inl e ↦ rw e (
          byte-slice buf cursor first k (ground (arith, length-slice buf cursor first))
          ∙ ap (byte buf) (sym (mod-eq_of_lt (ground (arith, length-slice buf cursor first)))))
      | inr e ↦
          let size = length-slice buf cursor first in
          rw e (
            ap (byte (slice buf 0 (n - first))) (ap (λ (m : ℕ). k - m) size)
            ∙ byte-slice buf 0 (n - first) (k - first) (ground (arith, size))
            ∙ ap (byte buf) (
                omega
                  (arith, past_end (cursor + k) (length buf) (ground (arith, size)) (omega arith))))
    ]

-- From a cursor inside the ring, an entry that ends within twice the ring's length is put
-- together from its bytes, each read at its position modulo the ring's length, and a longer one
-- is an index out of range.
pub linear_lem :
    (buf : Bytes) (cursor n : ℕ)
    → cursor < length buf
    → (cursor + n ≤ 2 * length buf → FromRing buf cursor n (linear buf cursor n))
      × (2 * length buf < cursor + n → linear buf cursor n ≡ panic)
unfolding linear
linear_lem buf cursor n h = (
  λ fits. elim (Bool-cases (leb (cursor + n) (length buf))) [
    | inl e ↦ record {
      entry = slice buf cursor n;
      returns = rw e;
      size = length-slice buf cursor n;
      bytes =
          λ k lt. byte-slice buf cursor n k lt ∙ ap (byte buf) (sym (mod-eq_of_lt (ground arith)));
    }
    | inr e ↦ record {
      entry = wrapped buf cursor n;
      returns = rw e (ground arith);
      size = length-wrapped buf cursor n h (ground arith);
      bytes = λ k lt. byte-wrapped buf cursor n k h (ground arith) fits lt;
    }
  ],
  λ long. ground arith,
)
