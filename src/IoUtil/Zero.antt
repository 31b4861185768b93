-- ===== src/IoUtil/Zero.antt =====
-- `zero_range` and `is_all_zero`.
use starweld.Prelude.{length, sym, ℕ, zero, suc, ◌+◌, ◌-◌, ◌≤◌, min, ◌≡◌, refl, ap, ◌∙◌, arith}
use starweld.Prelude.{[], ◌∷◌, ltb, leb, ◌&&◌, if◌then◌else◌, Bool-cases, inl, inr}
use starweld.Prelude.{◌↔◌, true, ◌==◌, max}
use starweld.Prelude.Bytes.{bytes_ext, Bytes, zeros, byte, length-zeros, byte-zeros}
use starweld.IoUtil.{File, write_all_at, is_all_zero, zero_range_loop, zero_range}
use starweld.IoUtil.Files.{byte-write_in, byte-write_out, length-write_all_at}

byte-write_zeros :
    (f : File) (off n i : ℕ)
    → byte (write_all_at f off (zeros n)) i ≡ (if leb off i && ltb i (off + n) then 0 else byte f i)
byte-write_zeros f off n i = elim (Bool-cases (leb off i && ltb i (off + n))) [
  | inl e ↦ rw e (
      ap (byte (write_all_at f off (zeros n))) (ground arith)
      ∙ byte-write_in f off (zeros n) (i - off) (ground (arith, length-zeros n))
      ∙ byte-zeros n (i - off))
  | inr e ↦ rw e (byte-write_out f off (zeros n) i (ground (arith, length-zeros n)))
]

byte-zero_range_loop :
    (fuel : ℕ) (f : File) (off n i : ℕ)
    → n ≤ fuel
    → byte (zero_range_loop fuel f off n) i ≡ (if leb off i && ltb i (off + n) then 0 else byte f i)
unfolding zero_range_loop
byte-zero_range_loop zero f off n i h = ground arith
byte-zero_range_loop (suc fuel) f off n i h =
    let m = min n 65536 in
    ground (
      arith,
      byte-zero_range_loop fuel (write_all_at f off (zeros m)) (off + m) (n - m) i,
      byte-write_zeros f off m i,
    )

-- zero_range clears the bytes of its range, in however many chunks, and changes no other byte.
pub byte-zero_range :
    (f : File) (off n i : ℕ)
    → byte (zero_range f off n) i ≡ (if leb off i && ltb i (off + n) then 0 else byte f i)
unfolding zero_range
byte-zero_range f off n i = byte-zero_range_loop n f off n i (omega arith)

is_all_zero_sound : (buf : Bytes) → is_all_zero buf ≡ true → (i : ℕ) → byte buf i ≡ 0
unfolding is_all_zero byte
is_all_zero_sound [] h i = refl
is_all_zero_sound (b ∷ buf) h zero = ground arith
is_all_zero_sound (b ∷ buf) h (suc i) = is_all_zero_sound buf (ground arith) i

is_all_zero_complete : (buf : Bytes) → ((i : ℕ) → byte buf i ≡ 0) → is_all_zero buf ≡ true
unfolding is_all_zero byte
is_all_zero_complete [] h = refl
is_all_zero_complete (b ∷ buf) h = ground (arith, h 0, is_all_zero_complete buf (λ i. h (suc i)))

pub is_all_zero_iff : (buf : Bytes) → (is_all_zero buf ≡ true) ↔ ((i : ℕ) → byte buf i ≡ 0)
is_all_zero_iff buf = (is_all_zero_sound buf, is_all_zero_complete buf)

pub all_zero : (x : Bytes) → is_all_zero x ≡ true → x ≡ zeros (length x)
all_zero x z =
    bytes_ext x (zeros (length x)) (sym (length-zeros (length x)))
      (λ k h. (is_all_zero_iff x).0 z k ∙ sym (byte-zeros (length x) k))

length-zero_range_loop :
    (fuel : ℕ) (f : File) (off n : ℕ)
    → n ≤ fuel
    → length (zero_range_loop fuel f off n)
      ≡ (if n == 0 then length f else max (length f) (off + n))
unfolding zero_range_loop
length-zero_range_loop zero f off n h = ground arith
length-zero_range_loop (suc fuel) f off n h =
    let m = min n 65536 in
    ground (
      arith,
      length-zero_range_loop fuel (write_all_at f off (zeros m)) (off + m) (n - m),
      length-write_all_at f off (zeros m),
      length-zeros m,
    )

-- Zeros past the end extend the file.
pub length-zero_range :
    (f : File) (off n : ℕ)
    → length (zero_range f off n) ≡ (if n == 0 then length f else max (length f) (off + n))
unfolding zero_range
length-zero_range f off n = length-zero_range_loop n f off n (omega arith)
