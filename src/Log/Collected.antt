-- ===== src/Log/Collected.antt =====
-- The entries that `scan_log` returns.
use starweld.Prelude.{ℕ, zero, suc, ◌+◌, ◌%◌, ◌≡◌, refl, List, []}
use starweld.Prelude.{◌∷◌, length, All, Bool-cases, inl, inr, ltb, leb, ◌==◌, ◌||◌, not, Bool}
use starweld.Prelude.{if◌then◌else◌, true, false, Option-cases}
use starweld.Prelude.Bytes.{Bytes, slice, bytes_eq}
use starweld.Prelude.Le.{get_le}
use starweld.Externals.{Externals, Uuid, nil}
use starweld.Error.{Result, ok, err, panic, ◌>>=◌, must, >>=-eq-ok}
use starweld.Format.{log_entry_signature, log_sector_size}
use starweld.IoUtil.{File, read_exact_at}
use starweld.Header.{Header}
use starweld.Log.Entry.{LogEntry, parse_entry}
use starweld.Log.Scan.{
  LogScan, linear, prepend_parsed, collect, insert, sort, entries_at, best_entries,
}
use starweld.Log.Scan.{select_entries, scan_log, longest_run}
use starweld.Log.Parsed.{IsReplayable, parse_entry-IsReplayable}

abbrev Found : List (ℕ × LogEntry) → Type 0
Found = All (λ x. IsReplayable x.1)

insert-Found :
    (x : ℕ × LogEntry) (xs : List (ℕ × LogEntry))
    → IsReplayable x.1
    → Found xs
    → Found (insert x xs)
unfolding insert
insert-Found x [] h hs = (h, tt)
insert-Found x (y ∷ ys) h hs = elim (Bool-cases (leb x.1.sequence_number y.1.sequence_number)) [
  | inl e ↦ rw e (h, hs)
  | inr e ↦ rw e (hs.0, insert-Found x ys h hs.1)
]

sort-Found : (xs : List (ℕ × LogEntry)) → Found xs → Found (sort xs)
unfolding sort
sort-Found [] h = tt
sort-Found (x ∷ xs) h = insert-Found x (sort xs) h.0 (sort-Found xs h.1)

entries_at-IsReplayable :
    (xs : List (ℕ × LogEntry)) (start len : ℕ)
    → Found xs
    → All IsReplayable (entries_at xs start len)
unfolding entries_at
entries_at-IsReplayable [] start len h = tt
entries_at-IsReplayable (x ∷ xs) zero zero h = tt
entries_at-IsReplayable (x ∷ xs) (suc start) zero h = tt
entries_at-IsReplayable (x ∷ xs) zero (suc len) h = (h.0, entries_at-IsReplayable xs zero len h.1)
entries_at-IsReplayable (x ∷ xs) (suc start) (suc len) h =
    entries_at-IsReplayable xs start (suc len) h.1

module _ ⦃ext : Externals⦄ where
  prepend_found :
      (cursor : ℕ) (bytes : Bytes) (guid : Uuid) (es : List (ℕ × LogEntry))
      → Found es
      → Found (prepend_parsed cursor (parse_entry bytes guid) es)
  prepend_found cursor bytes guid es h = elim (Option-cases (parse_entry bytes guid)) [
    | inl e ↦ rw e h
    | inr (x, e) ↦ rw e (parse_entry-IsReplayable bytes guid e, h)
  ]

  abbrev Finds : Result (List (ℕ × LogEntry)) → Type 0
  Finds r = (es : List (ℕ × LogEntry)) → r ≡ ok es → Found es

  Finds-if :
      (b : Bool) (r s : Result (List (ℕ × LogEntry)))
      → Finds r
      → Finds s
      → Finds (if b then r else s)
  Finds-if true r s hr hs = hr
  Finds-if false r s hr hs = hs

  Finds-nil : Finds (ok [])
  Finds-nil [] h = tt
  Finds-nil (x ∷ es) h = cc

  Finds-entry :
      (cursor : ℕ) (linear_bytes : Result Bytes) (guid : Uuid) (rest : Result (List (ℕ × LogEntry)))
      → Finds rest
      → Finds (
          linear_bytes >>= λ bytes.
          rest >>= λ es. ok (prepend_parsed cursor (parse_entry bytes guid) es))
  Finds-entry cursor (ok bytes) guid (ok more) h es e =
      let same : prepend_parsed cursor (parse_entry bytes guid) more ≡ es = cc in
      rw (← same) (prepend_found cursor bytes guid more (h more refl))
  Finds-entry cursor (ok bytes) guid (err e) h es q = cc
  Finds-entry cursor (ok bytes) guid panic h es q = cc
  Finds-entry cursor (err e) guid rest h es q = cc
  Finds-entry cursor panic guid rest h es q = cc

  collect-Finds :
      (fuel : ℕ) (buf : Bytes) (guid : Uuid) (cursor : ℕ) → Finds (collect fuel buf guid cursor)
  unfolding collect
  collect-Finds zero buf guid cursor = Finds-nil
  collect-Finds (suc fuel) buf guid cursor =
      let len = get_le 4 buf (cursor + 8) in
      let skip = collect-Finds fuel buf guid (cursor + log_sector_size) in
      Finds-if _ _ _ Finds-nil (
        Finds-if _ _ _ skip (
          Finds-if _ _ _ skip (
            Finds-entry cursor (linear buf cursor len) guid _
              (collect-Finds fuel buf guid (cursor + len)))))

  best_entries-IsReplayable :
      (xs : List (ℕ × LogEntry)) (es : List LogEntry)
      → Found xs
      → best_entries xs ≡ ok es
      → All IsReplayable es
  unfolding best_entries
  best_entries-IsReplayable xs es h e =
      let run = longest_run (sort xs) in
      let (u, _, e1) =
        >>=-eq-ok (must (leb (run.best_start + run.best_len) (length (sort xs)))) _ e in
      let same : entries_at (sort xs) run.best_start run.best_len ≡ es = cc in
      rw (← same) (entries_at-IsReplayable (sort xs) run.best_start run.best_len (sort-Found xs h))

  select_entries-IsReplayable :
      (header : Header) (xs : List (ℕ × LogEntry)) (scan : LogScan)
      → Found xs
      → select_entries header xs ≡ ok scan
      → All IsReplayable scan.active_sequence
  unfolding select_entries
  select_entries-IsReplayable header [] scan h e =
      let same : [] ≡ scan.active_sequence = cc in rw (← same) tt
  select_entries-IsReplayable header (x ∷ xs) scan h e =
      let (best, e1, e2) = >>=-eq-ok (best_entries (x ∷ xs)) _ e in
      let same : best ≡ scan.active_sequence = cc in
      rw (← same) (best_entries-IsReplayable (x ∷ xs) best h e1)

  -- In every entry of the sequence that scan_log returns, each data descriptor names a data
  -- sector of the entry, the sectors are whole, and the bytes kept aside have their sizes, so
  -- that the replay's condition holds.
  pub scan_log-IsReplayable :
      (file : File) (header : Header) (scan : LogScan)
      → scan_log file header ≡ ok scan
      → All IsReplayable scan.active_sequence
  unfolding scan_log
  scan_log-IsReplayable file header scan e =
      elim (Bool-cases (header.log_guid == nil || header.log_length == 0)) [
        | inl clean ↦
            select_entries-IsReplayable header [] scan tt (unfold select_entries in (rw clean at e))
        | inr dirty ↦
            let (buf, e1, e2) =
              >>=-eq-ok (read_exact_at file header.log_offset header.log_length) _
                (rw dirty at e) in
            let (xs, e3, e4) = >>=-eq-ok (collect header.log_length buf header.log_guid 0) _ e2 in
            select_entries-IsReplayable header xs scan
              (collect-Finds header.log_length buf header.log_guid 0 xs e3) e4
      ]

  -- One round of the first pass that finds an entry, and the last one.
  pub collect-entry :
      (fuel : ℕ) (buf : Bytes) (guid : Uuid) (cursor len : ℕ) {bytes : Bytes}
      {es : List (ℕ × LogEntry)}
      → ltb (length buf) (cursor + log_sector_size) ≡ false
      → bytes_eq (slice buf cursor 4) log_entry_signature ≡ true
      → get_le 4 buf (cursor + 8) ≡ len
      → (len == 0 || not (len % log_sector_size == 0)) ≡ false
      → linear buf cursor len ≡ ok bytes
      → collect fuel buf guid (cursor + len) ≡ ok es
      → collect (suc fuel) buf guid cursor ≡ ok (prepend_parsed cursor (parse_entry bytes guid) es)
  unfolding collect
  collect-entry fuel buf guid cursor len inside signed e sized whole rest =
      rw inside (rw signed (rw e (rw sized (rw whole (rw rest refl)))))

  pub collect-end :
      (fuel : ℕ) (buf : Bytes) (guid : Uuid) (cursor : ℕ)
      → ltb (length buf) (cursor + log_sector_size) ≡ true
      → collect (suc fuel) buf guid cursor ≡ ok []
  unfolding collect
  collect-end fuel buf guid cursor past = rw past refl

  pub scan_log-dirty :
      (file : File) (header : Header) (buf : Bytes) (entries : List (ℕ × LogEntry))
      → (header.log_guid == nil || header.log_length == 0) ≡ false
      → read_exact_at file header.log_offset header.log_length ≡ ok buf
      → collect header.log_length buf header.log_guid 0 ≡ ok entries
      → scan_log file header ≡ select_entries header entries
  unfolding scan_log
  scan_log-dirty file header buf entries dirty read found = rw dirty (rw read (rw found refl))
