-- ===== src/TarHeader/Size.antt =====
-- The size field: octal digits, or a binary number for a large file.
use native.Mathlib.Nat.{zero-add}
use starweld.Prelude.{ℕ, zero, suc, ◌+◌, ◌/◌, ◌%◌, ◌^◌, ◌<◌, ◌≡◌, ap, ◌∙◌}
use starweld.Prelude.{[], ◌∷◌, ◌++◌, length, length-append, arith, leb, ◌==◌, if◌then◌else◌}
use starweld.Prelude.{Bool-cases, inl, inr, replicate, All, All-append}
use starweld.Prelude.Bytes.{Bytes, zeros, byte, slice}
use starweld.Prelude.Bytes.{length-zeros, slice_of}
use starweld.Prelude.Bytes.{byte-append_left, byte-append_right}
use starweld.Prelude.Le.{IsByte}
use starweld.Error.{Result, ok}
use starweld.TarHeader.{max_octal_size}
use starweld.TarHeader.{octal_digits, write_size_field, be_bytes}
use starweld.TarHeader.Octal.{of_octal, of_be, of_octal-octal_digits, of_be-be_bytes}
use starweld.TarHeader.Octal.{length-octal_digits, length-be_bytes, format_octal_fits}

-- The size as a reader takes it from its field: octal, or binary behind the byte 0x80.
unfoldable pub read_size : Bytes → ℕ
read_size field =
    if byte field 0 == 0x80 then of_be (slice field 4 8) else of_octal (slice field 0 11)

pub slice-append_first : (a b : Bytes) (n : ℕ) → length a ≡ n → slice (a ++ b) 0 n ≡ a
slice-append_first a b n h =
    rw (← h)
      (slice_of (a ++ b) a 0 (λ k lt. ap (byte (a ++ b)) (zero-add k) ∙ byte-append_left a b k lt))

slice-append_second : (a b : Bytes) (m n : ℕ) → length a ≡ m → length b ≡ n → slice (a ++ b) m n ≡ b
slice-append_second a b m n ha hb =
    rw (← ha) (rw (← hb) (slice_of (a ++ b) b (length a) (λ k lt. byte-append_right a b k)))

pub octal_digits-small : (w v : ℕ) → All (λ c. c < 56) (octal_digits w v)
unfolding octal_digits
octal_digits-small zero v = tt
octal_digits-small (suc w) v =
    All-append _ (octal_digits w (v / 8)) ((b'0' + v % 8) ∷ []) (octal_digits-small w (v / 8))
      (omega arith, tt)

byte-lt_of_All : (m : ℕ) (s : Bytes) (i : ℕ) → 0 < m → All (λ c. c < m) s → byte s i < m
unfolding byte
byte-lt_of_All m [] i p h = p
byte-lt_of_All m (c ∷ s) zero p h = h.0
byte-lt_of_All m (c ∷ s) (suc i) p h = byte-lt_of_All m s i p h.1

pub record SizeField (size : ℕ) (r : Result Bytes) : Type 0 where
  pub field_bytes : Bytes
  pub returns : r ≡ ok field_bytes
  pub width : length field_bytes ≡ 12
  pub reads : read_size field_bytes ≡ size
  pub all_bytes : All IsByte field_bytes

octal_size_reads : (size : ℕ) → size < 8 ^ 11 → read_size (octal_digits 11 size ++ 0 ∷ []) ≡ size
unfolding read_size
octal_size_reads size h =
    let digits = octal_digits 11 size in
    let first =
      byte-lt_of_All 56 (digits ++ 0 ∷ []) 0 (omega arith)
        (All-append _ digits (0 ∷ []) (octal_digits-small 11 size) (omega arith, tt)) in
    ground (
      arith,
      first,
      slice-append_first digits (0 ∷ []) 11 (length-octal_digits 11 size),
      of_octal-octal_digits 11 size,
    )

binary_size_reads :
    (size : ℕ) → size < 2 ^ 64 → read_size ((0x80 ∷ zeros 3) ++ be_bytes 8 size) ≡ size
unfolding read_size byte
binary_size_reads size h =
    ap of_be (
      slice-append_second (0x80 ∷ zeros 3) (be_bytes 8 size) 4 8 (ap suc (length-zeros 3))
        (length-be_bytes 8 size))
    ∙ of_be-be_bytes 8 size (omega arith)

pub small_IsByte : (s : Bytes) → All (λ c. c < 56) s → All IsByte s
small_IsByte [] h = tt
small_IsByte (c ∷ s) h = (omega arith, small_IsByte s h.1)

be_bytes-IsByte : (w v : ℕ) → All IsByte (be_bytes w v)
unfolding be_bytes
be_bytes-IsByte zero v = tt
be_bytes-IsByte (suc w) v =
    All-append _ (be_bytes w (v / 256)) _ (be_bytes-IsByte w (v / 256)) (omega arith, tt)

pub write_size_field-SizeField : (size : ℕ) → size < 2 ^ 64 → SizeField size (write_size_field size)
unfolding write_size_field
write_size_field-SizeField size h = elim (Bool-cases (leb size max_octal_size)) [
  | inl small ↦
      let fits : size < 8 ^ 11 = ground arith in
      let digits = octal_digits 11 size in
      record {
        field_bytes = digits ++ 0 ∷ [];
        returns =
            rw (small, format_octal_fits 11 size fits (omega arith), length-octal_digits 11 size);
        width = length-append digits (0 ∷ []) ∙ omega (arith, length-octal_digits 11 size);
        reads = octal_size_reads size fits;
        all_bytes =
            All-append _ digits (0 ∷ []) (small_IsByte digits (octal_digits-small 11 size))
              (omega arith, tt);
      }
  | inr large ↦ record {
    field_bytes = (0x80 ∷ zeros 3) ++ be_bytes 8 size;
    returns = rw large;
    width =
        length-append (0x80 ∷ zeros 3) (be_bytes 8 size)
        ∙ omega (arith, length-be_bytes 8 size, length-zeros 3);
    reads = binary_size_reads size h;
    all_bytes =
        All-append _ (0x80 ∷ zeros 3) (be_bytes 8 size)
          (omega arith, unfold zeros replicate in omega arith) (be_bytes-IsByte 8 size);
  }
]
