-- ===== src/Externals.antt =====
-- The crates that the program calls: `crc32c::crc32c`, and `Uuid::from_bytes_le`, `to_bytes_le`,
-- `parse_str` and the hyphenated form that `format!` prints, of the `uuid` crate, with what their documentation says of them. A `Uuid` is
-- its value as a 128-bit number (`Uuid::as_u128`), so `Uuid::nil()` is 0.
use starweld.Prelude.{ℕ, ◌^◌, ◌<◌, ◌≡◌, ◌≢◌, List, Option, some}
use starweld.Prelude.{length, All}
use starweld.Prelude.Bytes.{Bytes}
use starweld.Prelude.Le.{IsByte}

abbrev pub Uuid : Type 0
Uuid = ℕ

abbrev pub IsUuid : Uuid → Type 0
IsUuid u = u < 2 ^ 128

abbrev pub nil : Uuid
nil = 0

-- A `String` is the list of its Unicode scalar values.
abbrev pub Text : Type 0
Text = List ℕ

pub record Externals : Type 0 where
  pub crc32c : Bytes → ℕ
  pub from_bytes_le : Bytes → Uuid
  pub to_bytes_le : Uuid → Bytes
  pub parse_str : Text → Option Uuid
  pub hyphenated : Uuid → Text
  pub crc32c-lt : (buf : Bytes) → crc32c buf < 2 ^ 32
  pub length-to_bytes_le : (u : Uuid) → length (to_bytes_le u) ≡ 16
  pub to_bytes_le-IsByte : (u : Uuid) → All IsByte (to_bytes_le u)
  pub from_bytes_le-to_bytes_le : (u : Uuid) → IsUuid u → from_bytes_le (to_bytes_le u) ≡ u
  pub parse_str-hyphenated : (u : Uuid) → IsUuid u → parse_str (hyphenated u) ≡ some u
  pub hyphenated-plain : (u : Uuid) → All (λ c. (c ≢ b'{') × (c ≢ b'}')) (hyphenated u)
