-- ===== src/Prelude/Bytes.antt =====
-- Byte buffers (`&[u8]`, `Vec<u8>`) as lists of numbers: reading and overwriting a range.
use Prim.Native.Nat.{ℕ, zero, suc, ◌+◌, ◌-◌, ◌≤◌, ◌<◌}
use mathlib.Core.Path.{◌≡◌, refl, ap, ap₂, ◌∙◌}
use mathlib.Core.List.{List, [], ◌∷◌, ◌++◌}
use mathlib.Core.Bool.{Bool, true, false, ◌&&◌}
use native.Mathlib.Omega.{arith}
use starweld.Prelude.Lists.{length, get_or, set, replicate, length-set, get_or-set_self}
use starweld.Prelude.Lists.{get_or-set_ne, get_or-ge, get_or-replicate, length-replicate}
use starweld.Prelude.Tests.{
  ◌==◌, ltb, if◌then◌else◌, Bool-cases, leb, leb→le, le→leb, ==→≡, ==_refl,
}
use mathlib.Core.Logic.{◌⊎◌, inl, inr}

abbrev pub Bytes : Type 0
Bytes = List ℕ

-- `vec![0u8; n]`
unfoldable pub zeros : ℕ → Bytes
zeros n = replicate n 0

-- `buf[i]`; the callers test the range first, and 0 stands for a read outside it.
unfoldable pub byte : Bytes → ℕ → ℕ
byte buf i = get_or buf i 0

-- `buf[off..off + n]`
unfoldable pub slice : Bytes → ℕ → ℕ → Bytes
slice buf off zero = []
slice buf off (suc n) = byte buf off ∷ slice buf (suc off) n

-- `buf[off..off + x.len()].copy_from_slice(x)`
unfoldable pub splice : Bytes → ℕ → Bytes → Bytes
splice buf off [] = buf
splice buf off (b ∷ x) = splice (set buf off b) (suc off) x

-- `a == b` on slices
unfoldable pub bytes_eq : Bytes → Bytes → Bool
bytes_eq [] [] = true
bytes_eq [] (b ∷ y) = false
bytes_eq (a ∷ x) [] = false
bytes_eq (a ∷ x) (b ∷ y) = (a == b) && bytes_eq x y

pub bytes_eq_refl : (x : Bytes) → bytes_eq x x ≡ true
unfolding bytes_eq
bytes_eq_refl [] = refl
bytes_eq_refl (a ∷ x) = ground (arith, bytes_eq_refl x)

pub bytes_eq→≡ : (x y : Bytes) → bytes_eq x y ≡ true → x ≡ y
unfolding bytes_eq
bytes_eq→≡ [] [] h = refl
bytes_eq→≡ [] (b ∷ y) h = ground arith
bytes_eq→≡ (a ∷ x) [] h = ground arith
bytes_eq→≡ (a ∷ x) (b ∷ y) h = ground (arith, bytes_eq→≡ x y)

pub length-zeros : (n : ℕ) → length (zeros n) ≡ n
unfolding zeros
length-zeros n = length-replicate n 0

pub byte-zeros : (n i : ℕ) → byte (zeros n) i ≡ 0
unfolding zeros byte
byte-zeros n i = get_or-replicate n i 0

pub byte-ge : (buf : Bytes) (i : ℕ) → length buf ≤ i → byte buf i ≡ 0
unfolding byte
byte-ge buf i h = get_or-ge buf i 0 h

pub length-slice : (buf : Bytes) (off n : ℕ) → length (slice buf off n) ≡ n
unfolding slice
length-slice buf off zero = refl
length-slice buf off (suc n) = ap suc (length-slice buf (suc off) n)

pub length-splice : (buf : Bytes) (off : ℕ) (x : Bytes) → length (splice buf off x) ≡ length buf
unfolding splice
length-splice buf off [] = refl
length-splice buf off (b ∷ x) = length-splice (set buf off b) (suc off) x ∙ length-set buf off b

pub byte-slice : (buf : Bytes) (off n i : ℕ) → i < n → byte (slice buf off n) i ≡ byte buf (off + i)
unfolding byte slice
byte-slice buf off zero i h = elim h [ ]
byte-slice buf off (suc n) zero h = ap (byte buf) (omega arith)
byte-slice buf off (suc n) (suc i) h =
    byte-slice buf (suc off) n i (omega arith) ∙ ap (byte buf) (omega arith)

pub byte-splice_lt :
    (buf : Bytes) (off : ℕ) (x : Bytes) (i : ℕ) → i < off → byte (splice buf off x) i ≡ byte buf i
unfolding splice byte
byte-splice_lt buf off [] i h = refl
byte-splice_lt buf off (b ∷ x) i h =
    byte-splice_lt (set buf off b) (suc off) x i (omega arith)
    ∙ get_or-set_ne buf off i b 0 (omega arith)

pub byte-splice_ge :
    (buf : Bytes) (off : ℕ) (x : Bytes) (i : ℕ)
    → off + length x ≤ i
    → byte (splice buf off x) i ≡ byte buf i
unfolding splice byte
byte-splice_ge buf off [] i h = refl
byte-splice_ge buf off (b ∷ x) i h =
    byte-splice_ge (set buf off b) (suc off) x i (omega arith)
    ∙ get_or-set_ne buf off i b 0 (omega arith)

pub byte-splice_in :
    (buf : Bytes) (off : ℕ) (x : Bytes) (i : ℕ)
    → i < length x
    → off + length x ≤ length buf
    → byte (splice buf off x) (off + i) ≡ byte x i
unfolding splice byte
byte-splice_in buf off [] i h f = elim h [ ]
byte-splice_in buf off (b ∷ x) zero h f =
    byte-splice_lt (set buf off b) (suc off) x (off + 0) (omega arith)
    ∙ ap (λ k. get_or (set buf off b) k 0) (omega arith)
    ∙ get_or-set_self buf off b 0 (omega arith)
byte-splice_in buf off (b ∷ x) (suc i) h f =
    ap (byte (splice (set buf off b) (suc off) x)) (omega arith)
    ∙ byte-splice_in (set buf off b) (suc off) x i (omega arith)
        (omega (arith, length-set {0} buf off b))

-- Two slices are equal when their bytes are.
pub slice_ext :
    (a b : Bytes) (i j n : ℕ)
    → ((k : ℕ) → k < n → byte a (i + k) ≡ byte b (j + k))
    → slice a i n ≡ slice b j n
unfolding slice
slice_ext a b i j zero h = refl
slice_ext a b i j (suc n) h =
    ap₂ ◌∷◌ (ap (byte a) (omega arith) ∙ h 0 (omega arith) ∙ ap (byte b) (omega arith)) (
      slice_ext a b (suc i) (suc j) n
        (λ k hk. ap (byte a) (omega arith) ∙ h (suc k) (omega arith) ∙ ap (byte b) (omega arith)))

-- A slice is the list whose bytes stand there.
pub slice_of :
    (a x : Bytes) (i : ℕ)
    → ((k : ℕ) → k < length x → byte a (i + k) ≡ byte x k)
    → slice a i (length x) ≡ x
unfolding slice byte
slice_of a [] i h = refl
slice_of a (b ∷ x) i h =
    ap₂ ◌∷◌ (ap (byte a) (omega arith) ∙ h 0 (omega arith))
      (slice_of a x (suc i) (λ k hk. ap (byte a) (omega arith) ∙ h (suc k) (omega arith)))

pub slice_whole : (x : Bytes) → slice x 0 (length x) ≡ x
slice_whole x = slice_of x x 0 (λ k h. ap (byte x) (omega arith))

-- The side conditions are tests, so that `simp` decides them at literal offsets.
pub slice-splice_before :
    (buf : Bytes) (off : ℕ) (x : Bytes) (a n : ℕ)
    → leb (a + n) off ≡ true
    → slice (splice buf off x) a n ≡ slice buf a n
slice-splice_before buf off x a n h =
    slice_ext _ _ a a n (λ k hk. byte-splice_lt buf off x (a + k) (omega (arith, leb→le _ _ h)))

pub slice-splice_after :
    (buf : Bytes) (off : ℕ) (x : Bytes) (a n : ℕ)
    → leb (off + length x) a ≡ true
    → slice (splice buf off x) a n ≡ slice buf a n
slice-splice_after buf off x a n h =
    slice_ext _ _ a a n (λ k hk. byte-splice_ge buf off x (a + k) (omega (arith, leb→le _ _ h)))

pub slice-splice_self :
    (buf : Bytes) (off : ℕ) (x : Bytes) (n : ℕ)
    → (n == length x) ≡ true
    → leb (off + length x) (length buf) ≡ true
    → slice (splice buf off x) off n ≡ x
slice-splice_self buf off x n e h =
    ap (slice (splice buf off x) off) (==→≡ _ _ e)
    ∙ slice_of _ x off (λ k hk. byte-splice_in buf off x k hk (leb→le _ _ h))

pub bytes_ext :
    (a b : Bytes) → length a ≡ length b → ((k : ℕ) → k < length a → byte a k ≡ byte b k) → a ≡ b
unfolding byte
bytes_ext [] [] e h = refl
bytes_ext [] (y ∷ b) e h = absurd (omega arith)
bytes_ext (x ∷ a) [] e h = absurd (omega arith)
bytes_ext (x ∷ a) (y ∷ b) e h =
    ap₂ ◌∷◌ (h 0 (omega arith)) (bytes_ext a b (omega arith) (λ k hk. h (suc k) (omega arith)))

-- Reads at literal offsets out of a buffer written at literal offsets.
pub ruleset field_laws = (
  slice-splice_before, slice-splice_after, slice-splice_self, length-splice, length-slice,
  length-zeros,
)

-- The same at offsets that are variables.
pub slice-splice_out :
    (buf : Bytes) (off : ℕ) (x : Bytes) (a n : ℕ)
    → (a + n ≤ off) ⊎ (off + length x ≤ a)
    → slice (splice buf off x) a n ≡ slice buf a n
slice-splice_out buf off x a n (inl h) = slice-splice_before buf off x a n (le→leb _ _ h)
slice-splice_out buf off x a n (inr h) = slice-splice_after buf off x a n (le→leb _ _ h)

pub slice-splice_within :
    (buf : Bytes) (off : ℕ) (x : Bytes)
    → off + length x ≤ length buf
    → slice (splice buf off x) off (length x) ≡ x
slice-splice_within buf off x h = slice-splice_self buf off x (length x) (==_refl _) (le→leb _ _ h)

-- Every byte of a buffer after a range of it is overwritten.
pub byte-splice :
    (buf : Bytes) (off : ℕ) (x : Bytes) (i : ℕ)
    → off + length x ≤ length buf
    → byte (splice buf off x) i
      ≡ (if leb off i && ltb i (off + length x) then byte x (i - off) else byte buf i)
byte-splice buf off x i h = elim (Bool-cases (leb off i && ltb i (off + length x))) [
  | inl e ↦ rw e (
      ap (byte (splice buf off x)) (ground arith)
      ∙ byte-splice_in buf off x (i - off) (ground arith) h)
  | inr e ↦ elim (Bool-cases (ltb i off)) [
    | inl l ↦ rw e (byte-splice_lt buf off x i (ground arith))
    | inr g ↦ rw e (byte-splice_ge buf off x i (ground arith))
  ]
]

pub byte-append_left : (a b : Bytes) (i : ℕ) → i < length a → byte (a ++ b) i ≡ byte a i
unfolding byte
byte-append_left [] b i h = elim h [ ]
byte-append_left (x ∷ a) b zero h = refl
byte-append_left (x ∷ a) b (suc i) h = byte-append_left a b i (omega arith)

pub byte-append_right : (a b : Bytes) (i : ℕ) → byte (a ++ b) (length a + i) ≡ byte b i
unfolding byte
byte-append_right [] b i = ap (λ (t : ℕ). byte b t) (omega arith)
byte-append_right (x ∷ a) b i =
    let step : suc (length a) + i ≡ suc (length a + i) = omega arith in
    ap (byte (x ∷ (a ++ b))) step ∙ byte-append_right a b i

pub byte-append :
    (a b : Bytes) (i : ℕ)
    → byte (a ++ b) i ≡ (if ltb i (length a) then byte a i else byte b (i - length a))
byte-append a b i = elim (Bool-cases (ltb i (length a))) [
  | inl e ↦ rw e (byte-append_left a b i (ground arith))
  | inr e ↦ rw e (ap (byte (a ++ b)) (ground arith) ∙ byte-append_right a b (i - length a))
]

-- The sum of the bytes.
unfoldable pub byte_total : Bytes → ℕ
byte_total [] = 0
byte_total (b ∷ x) = b + byte_total x

pub slice-append_left :
    (a b : Bytes) (off n : ℕ) → off + n ≤ length a → slice (a ++ b) off n ≡ slice a off n
slice-append_left a b off n h =
    slice_ext _ _ off off n (λ k hk. byte-append_left a b (off + k) (omega arith))

pub slice-append_right : (a b : Bytes) → slice (a ++ b) (length a) (length b) ≡ b
slice-append_right a b = slice_of (a ++ b) b (length a) (λ k h. byte-append_right a b k)

pub slice-append_at : (a b : Bytes) (off n : ℕ) → slice (a ++ b) (length a + off) n ≡ slice b off n
slice-append_at a b off n =
    slice_ext (a ++ b) b (length a + off) off n
      (λ k h. ap (byte (a ++ b)) (assoc k) ∙ byte-append_right a b (off + k))
  where
    assoc : (k : ℕ) → length a + off + k ≡ length a + (off + k)
    assoc k = omega arith
