-- ===== src/IoUtil/Files.antt =====
-- What reading and writing a file do, byte by byte.
use starweld.Prelude.{ℕ, zero, suc, ◌+◌, ◌≤◌, ◌<◌, max, ◌≡◌, refl, ap, ◌∙◌, [], ◌∷◌, arith}
use starweld.Prelude.{get_or-ge, length, ltb, if◌then◌else◌, Bool-cases, inl, inr, ltb→lt, sym, ◌⊎◌}
use starweld.Prelude.Bytes.{Bytes, byte, slice, length-splice, length-slice}
use starweld.Prelude.Bytes.{
  byte-splice_lt, byte-splice_ge, byte-splice_in, byte-slice, byte-ge, slice_of, slice_ext,
}
use starweld.Error.{ok}
use starweld.IoUtil.{File, set_len, read_exact_at, write_all_at}

pub length-set_len : (f : File) (n : ℕ) → length (set_len f n) ≡ n
unfolding set_len
length-set_len f n = length-slice f 0 n

pub byte-set_len : (f : File) (n i : ℕ) → byte (set_len f n) i ≡ (if ltb i n then byte f i else 0)
unfolding set_len byte
byte-set_len f n i = elim (Bool-cases (ltb i n)) [
  | inl e ↦ rw e (unfold byte in byte-slice f 0 n i (ltb→lt i n e) ∙ ap (byte f) (omega arith))
  | inr e ↦ rw e (get_or-ge (slice f 0 n) i 0 (ground (arith, length-slice f 0 n)))
]

-- The file grows when the write ends behind it.
pub length-write_all_at :
    (f : File) (off : ℕ) (x : Bytes)
    → 0 < length x
    → length (write_all_at f off x) ≡ max (length f) (off + length x)
unfolding write_all_at
length-write_all_at f off [] h = absurd (omega arith)
length-write_all_at f off (b ∷ x) h =
    rw (length-splice _ off (b ∷ x)) (elim (Bool-cases (ltb (length f) (off + length (b ∷ x)))) [
      | inl e ↦ rw e (omega (arith, length-set_len f (off + length (b ∷ x)), ltb→lt _ _ e))
      | inr e ↦ rw e (ground arith)
    ])

-- `set_len` where the file is shorter.
unfoldable pub grown : File → ℕ → File
grown f n = if ltb (length f) n then set_len f n else f

length-grown : (f : File) (n : ℕ) → n ≤ length (grown f n)
unfolding grown
length-grown f n = elim (Bool-cases (ltb (length f) n)) [
  | inl e ↦ rw e (omega (arith, length-set_len f n))
  | inr e ↦ rw e (ground arith)
]

pub size_of_grown : (f : File) (n : ℕ) → length (grown f n) ≡ max (length f) n
unfolding grown
size_of_grown f n = ground (arith, length-set_len f n)

pub byte-grown : (f : File) (n i : ℕ) → byte (grown f n) i ≡ byte f i
unfolding grown
byte-grown f n i = elim (Bool-cases (ltb (length f) n)) [
  | inl e ↦ rw e (byte-set_len f n i ∙ keep (ltb→lt _ _ e))
  | inr e ↦ rw e
]
  where
    keep : length f < n → (if ltb i n then byte f i else 0) ≡ byte f i
    keep h = elim (Bool-cases (ltb i n)) [
      | inl e ↦ rw e
      | inr e ↦ rw e (sym (byte-ge f i (ground arith)))
    ]

-- A write changes the bytes of its range and no other.
pub byte-write_in :
    (f : File) (off : ℕ) (x : Bytes) (i : ℕ)
    → i < length x
    → byte (write_all_at f off x) (off + i) ≡ byte x i
unfolding write_all_at grown
byte-write_in f off [] i h = elim h [ ]
byte-write_in f off (b ∷ x) i h =
    byte-splice_in (grown f (off + length (b ∷ x))) off (b ∷ x) i h
      (length-grown f (off + length (b ∷ x)))

pub byte-write_out :
    (f : File) (off : ℕ) (x : Bytes) (i : ℕ)
    → (i < off) ⊎ (off + length x ≤ i)
    → byte (write_all_at f off x) i ≡ byte f i
unfolding write_all_at grown
byte-write_out f off [] i h = refl
byte-write_out f off (b ∷ x) i (inl h) =
    byte-splice_lt (grown f (off + length (b ∷ x))) off (b ∷ x) i h ∙ byte-grown f _ i
byte-write_out f off (b ∷ x) i (inr h) =
    byte-splice_ge (grown f (off + length (b ∷ x))) off (b ∷ x) i h ∙ byte-grown f _ i

pub slice-write_self :
    (f : File) (off : ℕ) (x : Bytes) → slice (write_all_at f off x) off (length x) ≡ x
slice-write_self f off x = slice_of _ x off (byte-write_in f off x)

pub slice-write_out :
    (f : File) (off : ℕ) (x : Bytes) (a n : ℕ)
    → (a + n ≤ off) ⊎ (off + length x ≤ a)
    → slice (write_all_at f off x) a n ≡ slice f a n
slice-write_out f off x a n (inl h) =
    slice_ext _ _ a a n (λ k hk. byte-write_out f off x (a + k) (inl (omega arith)))
slice-write_out f off x a n (inr h) =
    slice_ext _ _ a a n (λ k hk. byte-write_out f off x (a + k) (inr (omega arith)))

pub read_exact_at-ok :
    (f : File) (off n : ℕ) → off + n ≤ length f → read_exact_at f off n ≡ ok (slice f off n)
unfolding read_exact_at slice
read_exact_at-ok f off zero h = refl
read_exact_at-ok f off (suc n) h = ground arith

-- What is written can be read back, and elsewhere nothing changes.
pub read-write :
    (f : File) (off : ℕ) (x : Bytes) → read_exact_at (write_all_at f off x) off (length x) ≡ ok x
read-write f off [] = unfold read_exact_at in refl
read-write f off (b ∷ x) =
    read_exact_at-ok (write_all_at f off (b ∷ x)) off (length (b ∷ x))
      (omega (arith, length-write_all_at f off (b ∷ x)))
    ∙ ap ok (slice-write_self f off (b ∷ x))

-- A read that succeeds gives the bytes of its range, and a range with any byte is within the file.
pub read_exact_at_inv :
    (f : File) (off n : ℕ) {x : Bytes}
    → read_exact_at f off n ≡ ok x
    → (x ≡ slice f off n) × (0 < n → off + n ≤ length f)
unfolding read_exact_at slice
read_exact_at_inv f off zero h = ground arith
read_exact_at_inv f off (suc n) h = ground arith
