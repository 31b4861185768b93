-- ===== src/Log/Recovery.antt =====
-- Replaying the log, once or, after an interruption, again.
use starweld.Prelude.{ℕ, max, ◌≡◌, refl, sym, ap, ◌∙◌, List, [], ◌∷◌, ◌++◌}
use starweld.Prelude.{length, All, arith}
use starweld.Prelude.Bytes.{byte, bytes_ext}
use starweld.Error.{Result, ok}
use starweld.IoUtil.{File}
use starweld.IoUtil.Files.{grown, size_of_grown, byte-grown}
use starweld.Log.Entry.{LogEntry}
use starweld.Log.Scan.{LogScan}
use starweld.Log.Replay.{extended, apply_replay, replay_entries}
use starweld.Log.Parsed.{IsReplayable}
use starweld.Log.Writes.{Write, writes, overlay, top, apply_writes, apply_entries-writes}
use starweld.Log.Writes.{CanWrite, writes-CanWrite}
use starweld.Log.Effects.{Outcome, apply_writes-Outcome, overlay_again, top-append, All-prefix}

-- How far the file is extended before the first write; not at all for an empty log.
abbrev pub needed : LogScan → List LogEntry → ℕ
needed scan [] = 0
needed scan (e ∷ es) = scan.max_file_offset

-- Before the first write.
abbrev pub started : File → LogScan → List LogEntry → File
started file scan [] = file
started file scan (e ∷ es) = extended file scan

size_of_started :
    (file : File) (scan : LogScan) (es : List LogEntry)
    → length (started file scan es) ≡ max (length file) (needed scan es)
size_of_started file scan [] = omega arith
size_of_started file scan (e ∷ es) =
    unfold extended grown in size_of_grown file scan.max_file_offset

byte-started :
    (file : File) (scan : LogScan) (es : List LogEntry) (i : ℕ)
    → byte (started file scan es) i ≡ byte file i
byte-started file scan [] i = refl
byte-started file scan (e ∷ es) i = unfold extended grown in byte-grown file scan.max_file_offset i

replay_entries-writes :
    (file : File) (scan : LogScan) (es : List LogEntry)
    → replay_entries file scan es ≡ apply_writes (started file scan es) (writes es)
unfolding replay_entries
replay_entries-writes file scan [] = unfold apply_writes writes in refl
replay_entries-writes file scan (e ∷ es) = apply_entries-writes (e ∷ es) (extended file scan)

replay_entries-Outcome :
    (file : File) (scan : LogScan) (es : List LogEntry)
    → All CanWrite (writes es)
    → Outcome file
        (max (needed scan es) (top (writes es)))
        (λ i. overlay (writes es) i (byte file i))
        (replay_entries file scan es)
replay_entries-Outcome file scan es h =
    let o = apply_writes-Outcome (writes es) (started file scan es) h in
    record {
      file' = o.file';
      returns = replay_entries-writes file scan es ∙ o.returns;
      bytes = λ i. o.bytes i ∙ ap (overlay (writes es) i) (byte-started file scan es i);
      size = omega (arith, o.size, size_of_started file scan es);
    }

-- When every data descriptor of the active sequence names a data sector of its entry and the
-- sectors and the bytes kept aside have their sizes, apply_replay succeeds, each byte of the file
-- is what the last logged write that covers it says (zero, or the byte of the sector with its
-- first eight and last four bytes put back) and is unchanged where none does, and the file is as
-- long as the longest of the old file, the offset recorded in the scan, if there is an entry, and
-- the end of the last write.
pub apply_replay-Outcome :
    (file : File) (scan : LogScan)
    → All IsReplayable scan.active_sequence
    → Outcome file
        (max (needed scan scan.active_sequence) (top (writes scan.active_sequence)))
        (λ i. overlay (writes scan.active_sequence) i (byte file i))
        (apply_replay file scan)
unfolding apply_replay
apply_replay-Outcome file scan h =
    replay_entries-Outcome file scan scan.active_sequence (writes-CanWrite scan.active_sequence h)

Outcome-unique :
    {f g : File} {m n : ℕ} {at at' : ℕ → ℕ} {r s : Result File}
    → Outcome f m at r
    → Outcome g n at' s
    → max (length f) m ≡ max (length g) n
    → ((i : ℕ) → at i ≡ at' i)
    → r ≡ s
Outcome-unique o p same_size same =
    o.returns
    ∙ ap ok (
        bytes_ext o.file' p.file' (o.size ∙ same_size ∙ sym p.size)
          (λ i h. o.bytes i ∙ same i ∙ sym (p.bytes i)))
    ∙ sym p.returns

interrupted_entries :
    (file : File) (scan : LogScan) (es : List LogEntry) (done rest : List Write)
    → All CanWrite (done ++ rest)
    → done ++ rest ≡ writes es
    → {crashed : File} → apply_writes (started file scan es) done ≡ ok crashed
    → replay_entries crashed scan es ≡ replay_entries file scan es
interrupted_entries file scan es done rest h split {crashed} e =
    let part = apply_writes-Outcome done (started file scan es) (All-prefix done rest h) in
    let same : part.file' ≡ crashed = cc in
    let all : All CanWrite (writes es) = rw (← split) h in
    Outcome-unique (replay_entries-Outcome crashed scan es all)
      (replay_entries-Outcome file scan es all)
      (rw (← same) (
        omega (arith, part.size, size_of_started file scan es, top-append done rest, ap top split)))
      (λ i.
        ap (overlay (writes es) i) (
          ap (λ f. byte f i) (sym same)
          ∙ part.bytes i
          ∙ ap (overlay done i) (byte-started file scan es i))
        ∙ rw (← split) (overlay_again done rest i (byte file i)))

-- For a scan that can be replayed, a replay that was interrupted after any number of its writes
-- and is begun again on the file that it left gives the same result as a replay without the
-- interruption.
pub apply_replay_again :
    (file : File) (scan : LogScan) (done rest : List Write) (crashed : File)
    → All IsReplayable scan.active_sequence
    → done ++ rest ≡ writes scan.active_sequence
    → apply_writes (started file scan scan.active_sequence) done ≡ ok crashed
    → apply_replay crashed scan ≡ apply_replay file scan
unfolding apply_replay
apply_replay_again file scan done rest crashed h split e =
    interrupted_entries file scan scan.active_sequence done rest
      (rw split (writes-CanWrite scan.active_sequence h)) split e
