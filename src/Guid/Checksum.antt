-- ===== src/Guid/Checksum.antt =====
-- The checksum of a structure whose checksum field was filled in afterwards.
use starweld.Prelude.{ℕ, ◌+◌, ◌-◌, ◌^◌, ◌≤◌, ◌<◌, ◌≡◌, sym, ap, ◌∙◌, arith, length, ltb}
use starweld.Prelude.{if◌then◌else◌, le→leb, ltb→lt, Bool-cases, inl, inr}
use starweld.Prelude.Bytes.{
  Bytes, zeros, byte, slice, splice, length-zeros, length-slice, length-splice,
}
use starweld.Prelude.Bytes.{byte-zeros, byte-slice, byte-splice_lt, byte-splice_ge, byte-splice_in}
use starweld.Prelude.Bytes.{bytes_ext, slice_whole}
use starweld.Externals.{Externals}
use starweld.Guid.{crc32c, crc32c_with_zeroed_field}

module _ ⦃ext : Externals⦄ where
  pub crc32c-lt : (buf : Bytes) → crc32c buf < 2 ^ 32
  unfolding crc32c
  crc32c-lt buf = ext.crc32c-lt buf

  zeroed-eq :
      (buf : Bytes) (off : ℕ)
      → off + 4 ≤ length buf
      → crc32c_with_zeroed_field buf off ≡ ext.crc32c (splice buf off (zeros 4))
  unfolding crc32c_with_zeroed_field
  zeroed-eq buf off h =
      ap (λ t. ext.crc32c (if t then splice buf off (zeros 4) else buf)) (le→leb _ _ h)

module _ (buf : Bytes) (off : ℕ) (x : Bytes) (n : ℕ) (four : length x ≡ 4) (inside : off + 4 ≤ n)
    (whole : n ≤ length buf) (cleared : slice buf off 4 ≡ zeros 4) where
  field_byte : (k : ℕ) → off ≤ k → k < off + 4 → byte buf k ≡ 0
  field_byte k lo hi =
      ap (byte buf) (omega arith)
      ∙ sym (byte-slice buf off 4 (k - off) (omega arith))
      ∙ ap (λ y. byte y (k - off)) cleared
      ∙ byte-zeros 4 (k - off)

  restored_byte :
      (k : ℕ)
      → k < n
      → byte (splice (slice (splice buf off x) 0 n) off (zeros 4)) k ≡ byte (slice buf 0 n) k
  restored_byte k hk = elim (Bool-cases (ltb k off)) [
    | inl before ↦
        byte-splice_lt _ off (zeros 4) k (ltb→lt _ _ before)
        ∙ byte-slice _ 0 n k hk
        ∙ byte-splice_lt buf off x (0 + k) (omega (arith, ltb→lt _ _ before))
        ∙ sym (byte-slice buf 0 n k hk)
    | inr other ↦ elim (Bool-cases (ltb k (off + 4))) [
      | inl within ↦
          ap (byte (splice (slice (splice buf off x) 0 n) off (zeros 4))) (ground arith)
          ∙ byte-splice_in (slice (splice buf off x) 0 n) off (zeros 4) (k - off)
              (ground (arith, length-zeros 4))
              (omega (arith, length-zeros 4, length-slice (splice buf off x) 0 n))
          ∙ byte-zeros 4 (k - off)
          ∙ sym (field_byte k (ground arith) (ltb→lt _ _ within))
          ∙ ap (byte buf) (omega arith)
          ∙ sym (byte-slice buf 0 n k hk)
      | inr after ↦
          byte-splice_ge _ off (zeros 4) k (ground (arith, length-zeros 4))
          ∙ byte-slice _ 0 n k hk
          ∙ byte-splice_ge buf off x (0 + k) (ground arith)
          ∙ sym (byte-slice buf 0 n k hk)
    ]
  ]

  module _ ⦃ext : Externals⦄ where
    -- Zeroing the field again gives the buffer that was hashed.
    pub crc32c_with_zeroed_field-splice :
        crc32c_with_zeroed_field (slice (splice buf off x) 0 n) off ≡ crc32c (slice buf 0 n)
    unfolding crc32c
    crc32c_with_zeroed_field-splice =
        zeroed-eq (slice (splice buf off x) 0 n) off
          (omega (arith, length-slice (splice buf off x) 0 n))
        ∙ ap ext.crc32c restored
      where
        restored : splice (slice (splice buf off x) 0 n) off (zeros 4) ≡ slice buf 0 n
        restored =
            bytes_ext _ _
              (length-splice _ off (zeros 4) ∙ length-slice _ 0 n ∙ sym (length-slice buf 0 n))
              (λ k hk. restored_byte k (
                omega (
                  arith,
                  length-splice (slice (splice buf off x) 0 n) off (zeros 4),
                  length-slice (splice buf off x) 0 n,
                )))

    -- The same over the whole buffer.
    pub crc32c_with_zeroed_field-whole :
        n ≡ length buf → crc32c_with_zeroed_field (splice buf off x) off ≡ crc32c buf
    crc32c_with_zeroed_field-whole e =
        ap (λ y. crc32c_with_zeroed_field y off)
          (sym (slice_whole (splice buf off x))
            ∙ ap (slice (splice buf off x) 0) (length-splice buf off x ∙ sym e))
        ∙ crc32c_with_zeroed_field-splice
        ∙ ap (λ m. crc32c (slice buf 0 m)) e
        ∙ ap crc32c (slice_whole buf)
