-- ===== src/Tests/Crates.antt =====
-- Functions that satisfy the assumptions on the crates: the mixed-endian layout of guid.rs, and a
-- sum of bytes in the place of the checksum.
use starweld.Prelude.{ℕ, ◌+◌, ◌*◌, ◌/◌, ◌%◌, ◌^◌, ◌<◌, ◌≡◌, refl, arith, [], ◌∷◌, ◌++◌, length, All}
use starweld.Prelude.Bytes.{Bytes, byte, slice}
use starweld.Prelude.Le.{IsByte, le_bytes, of_le, of_le-le_bytes}
use starweld.Prelude.{zero, suc, ◌-◌, ◌≢◌, ap, some, ltb, if◌then◌else◌}
use starweld.Externals.{Externals, Uuid, IsUuid, Text}

sum : Bytes → ℕ
sum [] = 0
sum (b ∷ x) = b + sum x

unfoldable pub byte_sum : Bytes → ℕ
unfolding sum
byte_sum x = sum x % 2 ^ 32

flip_8 : Bytes → Bytes
flip_8 x =
    byte x 7 ∷ byte x 6 ∷ byte x 5 ∷ byte x 4 ∷ byte x 3 ∷ byte x 2 ∷ byte x 1 ∷ byte x 0 ∷ []

unfoldable pub mixed_endian : Uuid → Bytes
unfolding le_bytes flip_8 byte
mixed_endian u =
    le_bytes 4 (u / 2 ^ 96)
    ++ (le_bytes 2 (u / 2 ^ 80 % 2 ^ 16)
        ++ (le_bytes 2 (u / 2 ^ 64 % 2 ^ 16) ++ flip_8 (le_bytes 8 (u % 2 ^ 64))))

unfoldable pub of_mixed_endian : Bytes → Uuid
unfolding of_le flip_8 byte slice
of_mixed_endian x =
    of_le (slice x 0 4) * 2 ^ 96
    + of_le (slice x 4 2) * 2 ^ 80
    + of_le (slice x 6 2) * 2 ^ 64
    + of_le (flip_8 (slice x 8 8))

parts :
    (u : Uuid)
    → of_mixed_endian (mixed_endian u)
      ≡ of_le (le_bytes 4 (u / 2 ^ 96)) * 2 ^ 96
        + of_le (le_bytes 2 (u / 2 ^ 80 % 2 ^ 16)) * 2 ^ 80
        + of_le (le_bytes 2 (u / 2 ^ 64 % 2 ^ 16)) * 2 ^ 64
        + of_le (le_bytes 8 (u % 2 ^ 64))
unfolding of_mixed_endian mixed_endian
parts u = refl

pub restored : (u : Uuid) → IsUuid u → of_mixed_endian (mixed_endian u) ≡ u
restored u h = omega (
  arith,
  parts u,
  of_le-le_bytes 4 (u / 2 ^ 96) (omega arith),
  of_le-le_bytes 2 (u / 2 ^ 80 % 2 ^ 16) (omega arith),
  of_le-le_bytes 2 (u / 2 ^ 64 % 2 ^ 16) (omega arith),
  of_le-le_bytes 8 (u % 2 ^ 64) (omega arith),
)

pub byte_sum-lt : (x : Bytes) → byte_sum x < 2 ^ 32
unfolding byte_sum
byte_sum-lt x = omega arith

pub mixed_endian-length : (u : Uuid) → length (mixed_endian u) ≡ 16
unfolding mixed_endian
mixed_endian-length u = refl

pub mixed_endian-IsByte : (u : Uuid) → All IsByte (mixed_endian u)
unfolding mixed_endian
mixed_endian-IsByte u = omega arith

hex_digit : ℕ → ℕ
hex_digit d = if ltb d 10 then 48 + d else 87 + d

-- The hexadecimal digits of a number, the lowest first.
unfoldable pub hex : ℕ → ℕ → Text
unfolding hex_digit
hex zero u = []
hex (suc n) u = hex_digit (u % 16) ∷ hex n (u / 16)

digit_value : ℕ → ℕ
digit_value c = if ltb c 58 then c - 48 else c - 87

unfoldable pub of_hex : Text → ℕ
unfolding digit_value
of_hex [] = 0
of_hex (c ∷ s) = digit_value c + 16 * of_hex s

digit_value-hex_digit : (d : ℕ) → d < 16 → digit_value (hex_digit d) ≡ d
unfolding digit_value hex_digit
digit_value-hex_digit d h = ground arith

pub of_hex-hex : (n u : ℕ) → u < 16 ^ n → of_hex (hex n u) ≡ u
unfolding of_hex hex
of_hex-hex zero u h = omega arith
of_hex-hex (suc n) u h =
    omega (arith, digit_value-hex_digit (u % 16) (omega arith), of_hex-hex n (u / 16) (omega arith))

pub hex-plain : (n u : ℕ) → All (λ c. (c ≢ b'{') × (c ≢ b'}')) (hex n u)
unfolding hex
hex-plain zero u = tt
hex-plain (suc n) u = ((ground arith, ground arith), hex-plain n (u / 16))

instance unfoldable pub crates : Externals
unfolding byte_sum mixed_endian of_mixed_endian hex of_hex
crates = record {
  crc32c = byte_sum;
  from_bytes_le = of_mixed_endian;
  to_bytes_le = mixed_endian;
  crc32c-lt = byte_sum-lt;
  length-to_bytes_le = mixed_endian-length;
  to_bytes_le-IsByte = mixed_endian-IsByte;
  from_bytes_le-to_bytes_le = restored;
  parse_str = λ s. some (of_hex s);
  hyphenated = hex 32;
  parse_str-hyphenated = λ u h. ap some (of_hex-hex 32 u h);
  hyphenated-plain = hex-plain 32;
}

-- `known_layout` of guid.rs.
known_layout :
    mixed_endian 0x00112233445566778899AABBCCDDEEFF
    ≡ 0x33 ∷ 0x22 ∷ 0x11 ∷ 0x00 ∷ 0x55 ∷ 0x44 ∷ 0x77 ∷ 0x66 ∷ 0x88 ∷ 0x99 ∷ 0xAA ∷ 0xBB ∷ 0xCC
      ∷ 0xDD ∷ 0xEE ∷ 0xFF ∷ []
unfolding mixed_endian
known_layout = refl
