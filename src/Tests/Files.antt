-- ===== src/Tests/Files.antt =====
-- Small files.
use starweld.Prelude.{◌≡◌, [], ◌∷◌}
use starweld.Prelude.Bytes.{byte}
use starweld.IoUtil.{zero_range}
use starweld.IoUtil.Zero.{byte-zero_range}

byte-zero_range_example : byte (zero_range (1 ∷ 2 ∷ 3 ∷ []) 1 1) 2 ≡ byte (1 ∷ 2 ∷ 3 ∷ []) 2
byte-zero_range_example = byte-zero_range (1 ∷ 2 ∷ 3 ∷ []) 1 1 2
