-- ===== src/Tests/Logs.antt =====
-- A log of one sector with one entry, its scan and its replay.
use starweld.Prelude.{ℕ, ◌+◌, ◌*◌, ◌≤◌, ◌<◌, ◌≡◌, refl, sym, ap, ◌∙◌, true, some, []}
use starweld.Prelude.{◌∷◌, ◌++◌, length, length-append, max, arith, All, ltb, le→leb, lt→ltb, false}
use starweld.Prelude.Bytes.{Bytes, byte, zeros, slice, slice_whole}
use starweld.Prelude.Bytes.{length-zeros, bytes_eq}
use starweld.Prelude.Le.{get_le, of_le}
use starweld.Error.{ok, panic}
use starweld.IoUtil.{File, set_len, zero_range}
use starweld.IoUtil.Files.{read_exact_at-ok}
use starweld.Header.{Header, blank}
use starweld.Guid.{read_guid_at, read_guid}
use starweld.Log.Entry.{LogEntry, zero_desc, data_desc, parse_entry, parse_descriptor}
use starweld.Log.Entry.{parse_descriptors}
use starweld.Log.Scan.{
  LogScan, prepend_parsed, collect, linear, scan_log, select_entries, best_entries,
}
use starweld.Log.Replay.{apply_replay, apply_descriptor, extended}
use starweld.Log.Parsed.{IsReplayable}
use starweld.Log.Writes.{writes, overlay, top, apply_writes}
use starweld.Log.Effects.{Outcome}
use starweld.Log.Recovery.{needed, apply_replay-Outcome, apply_replay_again}
use starweld.Log.Collected.{scan_log-IsReplayable, collect-entry, collect-end, scan_log-dirty}
use starweld.Format.{log_entry_signature}
use starweld.Log.Ring.{FromRing, linear_lem}
use starweld.Log.Sorting.{Longest, best_entries-Longest}
use starweld.Tests.Crates.{crates, of_mixed_endian}

-- "loge", the checksum, the length 4096, the tail, the sequence number 7, one descriptor, the GUID
-- 77, the two offsets; then a descriptor that zeroes three bytes from byte 1 on.
abbrev head : Bytes
head =
    b'l' ∷ b'o' ∷ b'g' ∷ b'e' ∷ 0 ∷ 0 ∷ 0 ∷ 0 ∷ 0 ∷ 16 ∷ 0 ∷ 0 ∷ 0 ∷ 0 ∷ 0 ∷ 0 ∷ 7 ∷ 0 ∷ 0 ∷ 0 ∷ 0
    ∷ 0 ∷ 0 ∷ 0 ∷ 1 ∷ 0 ∷ 0 ∷ 0 ∷ 0 ∷ 0 ∷ 0 ∷ 0 ∷ 0 ∷ 0 ∷ 0 ∷ 0 ∷ 0 ∷ 0 ∷ 0 ∷ 0 ∷ 0 ∷ 0 ∷ 0 ∷ 0 ∷ 0
    ∷ 0 ∷ 0 ∷ 77 ∷ 0 ∷ 0 ∷ 0 ∷ 0 ∷ 0 ∷ 0 ∷ 0 ∷ 0 ∷ 9 ∷ 0 ∷ 0 ∷ 0 ∷ 0 ∷ 0 ∷ 0 ∷ 0 ∷ b'z' ∷ b'e'
    ∷ b'r' ∷ b'o' ∷ 0 ∷ 0 ∷ 0 ∷ 0 ∷ 3 ∷ 0 ∷ 0 ∷ 0 ∷ 0 ∷ 0 ∷ 0 ∷ 0 ∷ 1 ∷ 0 ∷ 0 ∷ 0 ∷ 0 ∷ 0 ∷ 0 ∷ 0
    ∷ 7 ∷ 0 ∷ 0 ∷ 0 ∷ 0 ∷ 0 ∷ 0 ∷ 0 ∷ []

-- Opaque, so that nothing computes its 4096 bytes.
ring : File
ring = head ++ zeros 4000

length-ring : length ring ≡ 4096
unfolding ring
length-ring = length-append head (zeros 4000) ∙ omega (arith, length-zeros 4000)

abbrev entry_7 : LogEntry
entry_7 = record {
  sequence_number = 7;
  flushed_file_offset = 0;
  last_file_offset = 9;
  descriptors = zero_desc 3 1 7 ∷ [];
  data_sectors = [];
  byte_len = 4096;
}

parse-ring : parse_entry ring 77 ≡ some entry_7
unfolding parse_entry parse_descriptors parse_descriptor get_le of_le slice byte bytes_eq
    read_guid_at read_guid crates of_mixed_endian ring
parse-ring = simp length-ring

abbrev dirty : Header
dirty = record blank { log_guid = 77; log_length = 4096 }

abbrev scanned : LogScan
scanned = record {
  log_offset = 0;
  log_length = 4096;
  active_sequence = entry_7 ∷ [];
  max_sequence = 7;
  max_file_offset = 9;
}

whole_ring : slice ring 0 4096 ≡ ring
whole_ring = ap (slice ring 0) (sym length-ring) ∙ slice_whole ring

entry_length : get_le 4 ring (0 + 8) ≡ 4096
unfolding get_le of_le slice byte ring
entry_length = refl

signed : bytes_eq (slice ring 0 4) log_entry_signature ≡ true
unfolding bytes_eq slice byte ring
signed = refl

linear-ring : linear ring 0 4096 ≡ ok ring
unfolding linear
linear-ring = rw (le→leb (0 + 4096) (length ring) (omega (arith, length-ring))) (ap ok whole_ring)

collect-ring : collect 4096 ring 77 0 ≡ ok ((0, entry_7) ∷ [])
collect-ring =
    collect-entry 4095 ring 77 0 4096 (not_long 4096 (omega arith)) signed entry_length refl
      linear-ring (collect-end 4094 ring 77 (0 + 4096) (lt→ltb _ _ (omega (arith, length-ring))))
    ∙ ap (λ o. ok (prepend_parsed 0 o [])) parse-ring
  where
    not_long : (n : ℕ) → n ≤ 4096 → ltb (length ring) n ≡ false
    not_long n h = ground (arith, length-ring)

scan-ring : scan_log ring dirty ≡ ok scanned
unfolding select_entries
scan-ring =
    scan_log-dirty ring dirty ring ((0, entry_7) ∷ []) refl
      (read_exact_at-ok ring 0 4096 (omega (arith, length-ring)) ∙ ap ok whole_ring) collect-ring

scan_log-IsReplayable_example : All IsReplayable (entry_7 ∷ [])
scan_log-IsReplayable_example = scan_log-IsReplayable ring dirty scanned scan-ring

-- Five bytes from byte 1 of a ring of three.
linear_lem_example :
    (1 + 5 ≤ 2 * length {A = ℕ} (1 ∷ 2 ∷ 3 ∷ [])
      → FromRing (1 ∷ 2 ∷ 3 ∷ []) 1 5 (linear (1 ∷ 2 ∷ 3 ∷ []) 1 5))
    × (2 * length {A = ℕ} (1 ∷ 2 ∷ 3 ∷ []) < 1 + 5 → linear (1 ∷ 2 ∷ 3 ∷ []) 1 5 ≡ panic)
linear_lem_example = linear_lem (1 ∷ 2 ∷ 3 ∷ []) 1 5 (omega arith)

abbrev numbered : ℕ → LogEntry
numbered n = record entry_7 { sequence_number = n }

-- Out of order, with a gap.
best_entries-Longest_example :
    Longest
      ((0, numbered 9) ∷ (1, numbered 7) ∷ (2, numbered 8) ∷ (3, numbered 4) ∷ [])
      (best_entries ((0, numbered 9) ∷ (1, numbered 7) ∷ (2, numbered 8) ∷ (3, numbered 4) ∷ []))
best_entries-Longest_example =
    best_entries-Longest
      ((0, numbered 9) ∷ (1, numbered 7) ∷ (2, numbered 8) ∷ (3, numbered 4) ∷ []) (omega arith)

three_in_a_row :
    best_entries ((0, numbered 9) ∷ (1, numbered 7) ∷ (2, numbered 8) ∷ (3, numbered 4) ∷ [])
    ≡ ok (numbered 7 ∷ numbered 8 ∷ numbered 9 ∷ [])
unfolding best_entries
three_in_a_row = refl

-- An older run of two goes before a newer one of one, and the first of two that are as long.
older_but_longer :
    best_entries ((0, numbered 9) ∷ (1, numbered 4) ∷ (2, numbered 5) ∷ [])
    ≡ ok (numbered 4 ∷ numbered 5 ∷ [])
unfolding best_entries
older_but_longer = refl

older_of_two : best_entries ((0, numbered 9) ∷ (1, numbered 4) ∷ []) ≡ ok (numbered 4 ∷ [])
unfolding best_entries
older_of_two = refl

-- An entry with a data sector too.
abbrev entry_8 : LogEntry
entry_8 = record entry_7 {
  sequence_number = 8;
  descriptors = data_desc (1 ∷ 2 ∷ 3 ∷ 4 ∷ []) (1 ∷ 2 ∷ 3 ∷ 4 ∷ 5 ∷ 6 ∷ 7 ∷ 8 ∷ []) 4096 8 0 ∷ [];
  data_sectors = zeros 4096 ∷ [];
}

abbrev two_entries : LogScan
two_entries = record scanned { active_sequence = entry_7 ∷ entry_8 ∷ []; max_sequence = 8 }

two_entries-IsReplayable : All IsReplayable two_entries.active_sequence
two_entries-IsReplayable = (
  record { named = (tt, tt); whole = tt },
  (record { named = ((omega arith, refl, refl), tt); whole = (length-zeros 4096, tt) }, tt),
)

apply_replay-Outcome_example :
    Outcome
      (5 ∷ 6 ∷ [])
      (max
        (needed two_entries two_entries.active_sequence)
        (top (writes two_entries.active_sequence)))
      (λ i. overlay (writes two_entries.active_sequence) i (byte (5 ∷ 6 ∷ []) i))
      (apply_replay (5 ∷ 6 ∷ []) two_entries)
apply_replay-Outcome_example =
    apply_replay-Outcome (5 ∷ 6 ∷ []) two_entries two_entries-IsReplayable

-- The first of the two writes is done when the machine stops.
abbrev crashed : File
crashed = zero_range (set_len (5 ∷ 6 ∷ []) 9) 1 3

apply_replay_again_example :
    apply_replay crashed two_entries ≡ apply_replay (5 ∷ 6 ∷ []) two_entries
apply_replay_again_example =
    apply_replay_again (5 ∷ 6 ∷ []) two_entries ((entry_7, zero_desc 3 1 7) ∷ [])
      ((entry_8, data_desc (1 ∷ 2 ∷ 3 ∷ 4 ∷ []) (1 ∷ 2 ∷ 3 ∷ 4 ∷ 5 ∷ 6 ∷ 7 ∷ 8 ∷ []) 4096 8 0) ∷ [])
      crashed two_entries-IsReplayable (unfold writes in refl)
      (unfold apply_writes apply_descriptor extended in refl)
