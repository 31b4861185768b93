-- ===== src/Log/Scan.antt =====
-- `scan_log`: the entries of the ring, and the longest run of consecutive sequence numbers.
use starweld.Prelude.{ℕ, zero, suc, ◌+◌, ◌-◌, ◌%◌, max, ◌||◌, not, Option, none}
use starweld.Prelude.{some, List, [], ◌∷◌, ◌++◌, length, ltb, leb, ◌==◌, if◌then◌else◌}
use starweld.Prelude.{wrap64}
use starweld.Prelude.Bytes.{Bytes, slice, bytes_eq}
use starweld.Prelude.Le.{get_le}
use starweld.Externals.{Externals, Uuid, nil}
use starweld.Error.{Result, ok, ◌>>=◌, ◌>>◌, must}
use starweld.Format.{log_entry_signature, log_sector_size}
use starweld.IoUtil.{File, read_exact_at}
use starweld.Header.{Header}
use starweld.Log.Entry.{LogEntry, parse_entry}

pub record LogScan : Type 0 where
  pub log_offset : ℕ
  pub log_length : ℕ
  pub active_sequence : List LogEntry
  pub max_sequence : ℕ
  pub max_file_offset : ℕ

-- An entry that straddles the end of the ring goes on at its start; one that is longer than the
-- ring is an index out of range.
unfoldable pub linear : Bytes → ℕ → ℕ → Result Bytes
linear buf cursor entry_length =
    let first = length buf - cursor in
    let rest = entry_length - first in
    if leb (cursor + entry_length) (length buf)
    then ok (slice buf cursor entry_length)
    else must (leb rest (length buf)) >> ok (slice buf cursor first ++ slice buf 0 rest)

abbrev pub prepend_parsed : ℕ → Option LogEntry → List (ℕ × LogEntry) → List (ℕ × LogEntry)
prepend_parsed cursor none es = es
prepend_parsed cursor (some e) es = (cursor, e) ∷ es

-- The first pass, on fuel: a round advances by a sector at least. `buf` has `log_length` bytes.
unfoldable pub collect : ⦃ext : Externals⦄ → ℕ → Bytes → Uuid → ℕ → Result (List (ℕ × LogEntry))
collect zero buf log_guid cursor = ok []
collect (suc fuel) buf log_guid cursor =
    let entry_length = get_le 4 buf (cursor + 8) in
    let skip = collect fuel buf log_guid (cursor + log_sector_size) in
    let found = (do
      bytes ← linear buf cursor entry_length
      es ← collect fuel buf log_guid (cursor + entry_length)
      ok (prepend_parsed cursor (parse_entry bytes log_guid) es)) in
    if ltb (length buf) (cursor + log_sector_size)
    then ok []
    else if not (bytes_eq (slice buf cursor 4) log_entry_signature)
    then skip
    else if entry_length == 0 || not (entry_length % log_sector_size == 0)
    then skip
    else found

-- `sort_by_key(|(_, e)| e.sequence_number)`, which is stable.
unfoldable pub insert : ℕ × LogEntry → List (ℕ × LogEntry) → List (ℕ × LogEntry)
insert x [] = x ∷ []
insert x (y ∷ ys) =
    if leb x.1.sequence_number y.1.sequence_number then x ∷ y ∷ ys else y ∷ insert x ys

unfoldable pub sort : List (ℕ × LogEntry) → List (ℕ × LogEntry)
unfolding insert
sort [] = []
sort (x ∷ xs) = insert x (sort xs)

-- `entries[i].1.sequence_number`; the loop stays in range, and 0 stands for a read outside it.
unfoldable pub seq_at : List (ℕ × LogEntry) → ℕ → ℕ
seq_at [] i = 0
seq_at (x ∷ xs) zero = x.1.sequence_number
seq_at (x ∷ xs) (suc i) = seq_at xs i

pub record Run : Type 0 where
  pub best_start : ℕ
  pub best_len : ℕ
  pub cur_start : ℕ

-- One round of the loop over `1..entries.len()`.
unfoldable pub extend_run : List (ℕ × LogEntry) → ℕ → Run → Run
unfolding seq_at
extend_run entries i run =
    let cur_len = i - run.cur_start + 1 in
    if seq_at entries i == wrap64 (seq_at entries (i - 1) + 1)
    then (if ltb run.best_len cur_len
        then record run { best_len = cur_len; best_start = run.cur_start }
        else run)
    else record run { cur_start = i }

unfoldable pub run_loop : List (ℕ × LogEntry) → ℕ → ℕ → Run → Run
unfolding extend_run
run_loop entries zero i run = run
run_loop entries (suc rounds) i run = run_loop entries rounds (i + 1) (extend_run entries i run)

abbrev pub first_run : Run
first_run = record { best_start = 0; best_len = 1; cur_start = 0 }

unfoldable pub longest_run : List (ℕ × LogEntry) → Run
unfolding run_loop
longest_run entries = run_loop entries (length entries - 1) 1 first_run

-- The entries from `start` on, `len` of them.
unfoldable pub entries_at : List (ℕ × LogEntry) → ℕ → ℕ → List LogEntry
entries_at [] start len = []
entries_at (x ∷ xs) start zero = []
entries_at (x ∷ xs) zero (suc len) = x.1 ∷ entries_at xs zero len
entries_at (x ∷ xs) (suc start) (suc len) = entries_at xs start (suc len)

unfoldable pub last_sequence : List LogEntry → ℕ
last_sequence [] = 0
last_sequence (e ∷ []) = e.sequence_number
last_sequence (e ∷ f ∷ es) = last_sequence (f ∷ es)

unfoldable pub max_last_offset : List LogEntry → ℕ
max_last_offset [] = 0
max_last_offset (e ∷ es) = max e.last_file_offset (max_last_offset es)

unfoldable pub best_entries : List (ℕ × LogEntry) → Result (List LogEntry)
unfolding sort longest_run entries_at
best_entries entries = do
  let sorted = sort entries
  let run = longest_run sorted
  must (leb (run.best_start + run.best_len) (length sorted))
  ok (entries_at sorted run.best_start run.best_len)

-- What is returned for a log that is empty or has no entry.
abbrev pub no_entries : Header → LogScan
no_entries header = record {
  log_offset = header.log_offset;
  log_length = header.log_length;
  active_sequence = [];
  max_sequence = 0;
  max_file_offset = 0;
}

unfoldable pub select_entries : Header → List (ℕ × LogEntry) → Result LogScan
unfolding best_entries last_sequence max_last_offset
select_entries header [] = ok (no_entries header)
select_entries header (x ∷ xs) = do
  best ← best_entries (x ∷ xs)
  ok (record (no_entries header) {
    active_sequence = best;
    max_sequence = last_sequence best;
    max_file_offset = max_last_offset best;
  })

unfoldable pub scan_log : ⦃ext : Externals⦄ → File → Header → Result LogScan
unfolding collect
scan_log file header =
    if header.log_guid == nil || header.log_length == 0 then ok (no_entries header) else do
      buf ← read_exact_at file header.log_offset header.log_length
      entries ← collect header.log_length buf header.log_guid 0
      select_entries header entries
