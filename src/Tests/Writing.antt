-- ===== src/Tests/Writing.antt =====
-- A disk of two blocks of 1 MiB that is being written.
use starweld.Prelude.{zero, suc, ◌+◌, ◌*◌, ◌≡◌, refl, false, none, arith, [], ◌∷◌}
use starweld.Prelude.Bytes.{zeros, length-zeros}
use starweld.Format.{mib}
use starweld.IoUtil.{write_all_at}
use starweld.Bat.{Bat, payload_index, payload_entry, from_raw, state, file_offset}
use starweld.Bat.Access
use starweld.Writer.{VhdxWriter, buf, write_block, write_payload_buf}
use starweld.Writer.Chunks.{write_payload_buf_lem}
use starweld.Writer.Blocks.{IsValid, Updates, write_block-Updates}

abbrev pub table : Bat
table = record {
  entries = record { raw = 6 + 3 * mib } ∷ record { raw = 0 } ∷ [];
  chunk_ratio = 8;
  block_count = 2;
}

-- The first block has been written, at 3 MiB, and chunks of 64 KiB are on.
abbrev pub writer : VhdxWriter
writer = record {
  params = record {
    virtual_disk_size = 2 * mib;
    block_size = mib;
    logical_sector_size = 512;
    physical_sector_size = 4096;
    fixed = false;
    parent_locator = none;
    log_size = mib;
    data_write_guid = 1;
    file_write_guid = 2;
    page_83_data = 3;
  };
  file = [];
  bat = table;
  log_offset = mib;
  metadata_offset = mib;
  bat_offset = 2 * mib;
  bat_length = mib;
  payload_cursor = 4 * mib;
  chunked_write_size = 65536;
}

table-IsValid : Access.IsValid table
unfolding payload_index
table-IsValid = record {
  chunk_pos = omega arith;
  chunk_small = omega arith;
  blocks_small = omega arith;
  covers = λ k h. omega arith;
}

pub writer-IsValid : IsValid writer
unfolding payload_index payload_entry from_raw state file_offset
writer-IsValid = record {
  dynamic = refl;
  table = table-IsValid;
  block_aligned = refl;
  cursor_aligned = refl;
  cursor_small = omega arith;
  below = elim [
    | zero ↦ λ h f. omega arith
    | suc zero ↦ λ h f. omega arith
    | suc (suc k) ↦ λ h. absurd (omega arith)
  ];
}

write_block-Updates_example : Updates writer 1 (zeros mib) (write_block writer 1 (buf (zeros mib)))
write_block-Updates_example =
    write_block-Updates writer 1 (buf (zeros mib)) writer-IsValid (omega arith)
      (length-zeros mib, omega arith)

write_payload_buf_lem_example :
    write_payload_buf writer (4 * mib) (1 ∷ 2 ∷ 3 ∷ [])
    ≡ record writer { file = write_all_at [] (4 * mib) (1 ∷ 2 ∷ 3 ∷ []) }
write_payload_buf_lem_example = write_payload_buf_lem writer (4 * mib) (1 ∷ 2 ∷ 3 ∷ [])
