-- ===== src/Tests/Streams.antt =====
-- Small streams.
use starweld.Prelude.{
  ℕ, ◌+◌, ◌*◌, ◌≡◌, refl, true, false, some, arith, List, [], ◌∷◌, length, get_elem?,
}
use starweld.Prelude.Bytes.{Bytes, slice}
use starweld.Error.{ok, ◌>>=◌}
use starweld.Format.{mib}
use starweld.Bat.{Bat, encode}
use starweld.Bat.Codec.{length-encode}
use starweld.ZstWriter.{ZstStreamWriter, compute, build_bat_for_layout, finish}
use starweld.ZstWriter.Table.{Placed, build_bat_for_layout-Placed}
use starweld.ZstWriter.Places.{Tiles, compute-Tiles}
use starweld.ZstWriter.Stream.{write_payload_blocks, finish_lem}
use starweld.Prelude.{All}
use starweld.Region.RoundTrip.{Fits}
use starweld.ZstWriter.{Layout, new_region, begin}
use starweld.ZstWriter.Front.{Begun, begin-Begun}
use starweld.Tests.Crates.{crates}
use starweld.Tests.Writing.{writer, table}

build_bat_for_layout-Placed_example :
    (bat : Bat) × (build_bat_for_layout 3 8 false (3 * mib) (2 * mib) (false ∷ true ∷ false ∷ [])
      ≡ ok (bat, 2))
    × Placed bat (3 * mib) (2 * mib) 0 0 (false ∷ true ∷ false ∷ [])
build_bat_for_layout-Placed_example =
    build_bat_for_layout-Placed 8 (omega arith) (omega arith) (3 * mib) (2 * mib) false
      (false ∷ true ∷ false ∷ []) refl refl (omega arith) (omega arith)

compute-Tiles_example : Tiles writer.params 5 6 (compute writer.params 5 6)
compute-Tiles_example = compute-Tiles writer.params 5 6 refl (omega arith)

-- Two bytes are out, and two blocks of two bytes are to come.
abbrev stream : ZstStreamWriter
stream = record {
  out = 7 ∷ 7 ∷ [];
  cursor = 2;
  layout = record {
    block_size = 2;
    log_offset = 0;
    log_size = 0;
    metadata_offset = 0;
    metadata_length = 0;
    payload_start = 2;
    bat_offset = 6;
    bat_length = 20;
    non_zero_blocks = 2;
    total_size = 26;
  };
  bat = table;
  expected_payload_blocks = 2;
  written_payload_blocks = 0;
}

abbrev blocks : List Bytes
blocks = (1 ∷ 2 ∷ []) ∷ (3 ∷ 4 ∷ []) ∷ []

finish_lem_example :
    (out : Bytes) × ((write_payload_blocks stream blocks >>= finish) ≡ ok out)
    × (length out ≡ 26)
    × (slice out 0 2 ≡ 7 ∷ 7 ∷ [])
    × ((j : ℕ) (x : Bytes) → get_elem? blocks j ≡ some x → slice out (2 + j * 2) 2 ≡ x)
    × (slice out 6 (length (encode table)) ≡ encode table)
finish_lem_example =
    finish_lem stream 2 blocks (refl, (refl, tt)) refl refl refl
      (omega (arith, length-encode table)) (omega arith)

abbrev front : Layout
front = record stream.layout {
  log_offset = mib;
  log_size = mib;
  metadata_offset = 2 * mib;
  metadata_length = mib;
  payload_start = 3 * mib;
  bat_offset = 5 * mib;
  bat_length = mib;
}

front-Fits : All Fits (new_region front).entries
unfolding new_region
front-Fits = (
  record { guid_fits = omega arith; file_offset_fits = omega arith; length_fits = omega arith },
  (
    record { guid_fits = omega arith; file_offset_fits = omega arith; length_fits = omega arith },
    tt,
  ),
)

begin-Begun_example :
    Begun ⦃ext = crates⦄ writer.params table front (begin ⦃ext = crates⦄ writer.params table front)
begin-Begun_example =
    begin-Begun writer.params table front refl refl refl (omega arith) front-Fits refl
