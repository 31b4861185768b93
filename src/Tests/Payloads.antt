-- ===== src/Tests/Payloads.antt =====
-- The second pass on a disk whose first block is zero and whose second is not.
use starweld.Prelude.{ℕ, zero, suc, ◌<◌, ◌≡◌, refl, true, false, arith, Bool, List, [], ◌∷◌, length}
use starweld.Prelude.Bytes.{Bytes, slice, byte, zeros}
use starweld.Prelude.{replicate}
use starweld.Error.{ok}
use starweld.IoUtil.{read_exact_at}
use starweld.Metadata
use starweld.Bat.{Bat, encode, payload_entry, payload_index, state, file_offset, from_raw}
use starweld.Bat.Codec.{length-encode}
use starweld.Disk.{read_block, read_present, block_size, block_count}
use starweld.ZstWriter.{ZstStreamWriter}
use starweld.ZstWriter.Table.{Placed}
use starweld.Flatten.{ChainLink}
use starweld.Flatten.Scan.{SaysZero}
use starweld.Flatten.Archive.{stream_payload}
use starweld.Flatten.Archive.Payload.{BlockIn, stream_payload_lem}
use starweld.Tests.Chains.{leaf, leaf_file, leaf-Readable}

abbrev links : List ChainLink
links = (leaf, leaf_file) ∷ []

abbrev is_zero : List Bool
is_zero = true ∷ false ∷ []

abbrev table : Bat
table = record {
  entries = record { raw = 2 } ∷ record { raw = 6 } ∷ [];
  chunk_ratio = 8;
  block_count = 2;
}

abbrev stream : ZstStreamWriter
stream = record {
  out = [];
  cursor = 0;
  layout = record {
    block_size = 4;
    log_offset = 0;
    log_size = 0;
    metadata_offset = 0;
    metadata_length = 0;
    payload_start = 0;
    bat_offset = 4;
    bat_length = 20;
    non_zero_blocks = 1;
    total_size = 24;
  };
  bat = table;
  expected_payload_blocks = 1;
  written_payload_blocks = 0;
}

says : SaysZero 2 2 links 0 is_zero
unfolding read_block read_present payload_entry payload_index state file_offset from_raw slice byte
    block_size Metadata.block_size block_count Metadata.block_count Metadata.div_ceil read_exact_at
    zeros replicate
says = (
  (
    λ e. elim [ zero ↦ λ h. refl | suc zero ↦ λ h. refl | suc (suc t) ↦ λ h. absurd (omega arith) ],
    λ z. refl,
  ),
  ((λ e. cc, λ z. let bad : 51 ∷ 52 ∷ [] ≡ 0 ∷ 0 ∷ [] = z 0 (omega arith) in ground arith), tt),
)

placed : Placed table 0 4 0 0 is_zero
unfolding payload_entry payload_index state file_offset from_raw
placed = ((record { raw = 2 }, refl, refl), ((record { raw = 6 }, refl, refl, refl), tt))

stream_payload_lem_example :
    (out : Bytes) × (stream_payload links 4 2 2 is_zero stream ≡ ok (out, 1))
    × (length out ≡ 24)
    × (slice out 0 0 ≡ [])
    × (slice out 4 (length (encode table)) ≡ encode table)
    × ((k : ℕ) → k < 2 → BlockIn links 2 2 table out k)
stream_payload_lem_example =
    stream_payload_lem links 2 2 (omega arith) ((2, 2, leaf-Readable), tt) stream is_zero
      (omega arith) says placed refl refl refl (omega (arith, length-encode table)) (omega arith)
