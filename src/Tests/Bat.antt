-- ===== src/Tests/Bat.antt =====
-- Allocation tables: two blocks to a chunk.
use starweld.Prelude.{ℕ, ◌+◌, ◌*◌, ◌%◌, ◌^◌, ◌≤◌, ◌<◌, ◌≡◌, ◌≢◌, refl, true, false, arith, [], ◌∷◌}
use starweld.Error.{ok}
use starweld.Format.{mib}
use starweld.IoUtil.{align_up}
use starweld.IoUtil.Align.{align_up_lem}
use starweld.Bat.{Bat, new_entry, state, file_offset, payload_index, sector_bitmap_index}
use starweld.Bat.{
  total_bat_entries, payload_entry, set_payload_entry, sector_bitmap_entry, parse, encode,
}
use starweld.Bat.Entry.{new_entry_fields}
use starweld.Bat.Index.{payload_index_inj, total_bat_entries_covers}
use starweld.Bat.Access.{IsValid, payload_entry-set}
use starweld.Bat.Codec.{parse-encode_bat}

align_up_lem_example :
    (5000 ≤ align_up 5000 4096)
    × (align_up 5000 4096 < 5000 + 4096)
    × (align_up 5000 4096 % 4096 ≡ 0)
align_up_lem_example = align_up_lem 5000 4096 (omega arith) (omega arith)

new_entry_fields_example :
    (state (new_entry 6 (3 * mib)) ≡ 6)
    × (file_offset (new_entry 6 (3 * mib)) ≡ 3 * mib)
    × ((new_entry 6 (3 * mib)).raw < 2 ^ 64)
new_entry_fields_example = new_entry_fields 6 (3 * mib) (omega arith) refl (omega arith)

abbrev table : Bat
table = record {
  entries =
      record { raw = 6 + 4 * mib }
      ∷ record { raw = 0 }
      ∷ record { raw = 6 + 3 * mib }
      ∷ record { raw = 7 + 5 * mib }
      ∷ record { raw = 0 }
      ∷ record { raw = 0 }
      ∷ [];
  chunk_ratio = 2;
  block_count = 3;
}

table-IsValid : IsValid table
unfolding payload_index
table-IsValid = record {
  chunk_pos = omega arith;
  chunk_small = omega arith;
  blocks_small = omega arith;
  covers = covers;
}
  where
    covers : (vb : ℕ) → vb < 3 → payload_index vb 2 < 6
    covers vb h = omega arith

payload_entry-set_example :
    (payload_entry (set_payload_entry table 1 (new_entry 6 mib)) 2 ≡ payload_entry table 2)
    × (sector_bitmap_entry (set_payload_entry table 1 (new_entry 6 mib)) 2
        ≡ sector_bitmap_entry table 2)
payload_entry-set_example =
    payload_entry-set table 1 2 (new_entry 6 mib) table-IsValid (omega arith) (omega arith)

payload_index_inj_example :
    (payload_index 1 2 ≡ payload_index 2 2 → ◌≡◌ {A = ℕ} 1 2)
    × (payload_index 1 2 ≢ sector_bitmap_index 2 2)
payload_index_inj_example =
    payload_index_inj 2 (omega arith) (omega arith) 1 2 (omega arith) (omega arith)

total_is_6 : total_bat_entries 3 2 true ≡ ok 6
unfolding total_bat_entries
total_is_6 = refl

total_bat_entries_covers_example :
    (payload_index 2 2 < 6)
    × (true ≡ true → sector_bitmap_index 2 2 < 6)
    × (true ≡ false → 6 ≡ payload_index 2 2 + 1)
total_bat_entries_covers_example =
    total_bat_entries_covers 2 (omega arith) (omega arith) 3 6 2 true (omega arith) total_is_6
      (omega arith)

parse-encode_bat_example : parse (encode table) 3 2 true ≡ ok table
parse-encode_bat_example =
    parse-encode_bat table true (encode table) (omega arith) total_is_6 (omega arith) (λ k h. refl)
