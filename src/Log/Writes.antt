-- ===== src/Log/Writes.antt =====
-- The log as a sequence of writes, and what each leaves in the file, byte by byte.
use starweld.Prelude.{ℕ, zero, suc, ◌+◌, ◌-◌, ◌<◌, max, ◌≡◌, refl, sym, ◌∙◌}
use starweld.Prelude.{Bool, ◌&&◌, some, List, [], ◌∷◌, length, get_elem?}
use starweld.Prelude.{All, arith, ltb, leb, if◌then◌else◌, get_or}
use starweld.Prelude.Bytes.{
  Bytes, zeros, byte, slice, splice, length-splice, length-slice, length-zeros,
}
use starweld.Prelude.Bytes.{byte-splice, byte-slice}
use starweld.Error.{Result, ok, ◌>>=◌, >>=_assoc, >>=_congr}
use starweld.Format.{log_sector_size}
use starweld.IoUtil.{File}
use starweld.Log.Entry.{LogEntry, Descriptor, zero_desc, data_desc}
use starweld.Log.Replay.{apply_descriptor, apply_descriptors, apply_entries, restored_sector}
use starweld.Log.Parsed.{HasSector, IsSector, IsReplayable}

-- The bytes that a descriptor is about.
abbrev pub covers : Descriptor → ℕ → Bool
covers (zero_desc n off s) i = leb off i && ltb i (off + n)
covers (data_desc t l off s k) i = leb off i && ltb i (off + log_sector_size)

-- Byte `j` of a data sector: the log holds its first eight and its last four bytes elsewhere.
abbrev pub sector_byte : Bytes → Bytes → Bytes → ℕ → ℕ
sector_byte leading trailing raw j =
    if ltb j 8 then byte leading j else if ltb j 4092 then byte raw j else byte trailing (j - 4092)

abbrev pub logged : LogEntry → Descriptor → ℕ → ℕ
logged e (zero_desc n off s) i = 0
logged e (data_desc t l off s k) i = sector_byte l t (get_or e.data_sectors k []) (i - off)

-- Where a write ends; an empty one does nothing.
abbrev pub ends : Descriptor → ℕ
ends (zero_desc zero off s) = 0
ends (zero_desc (suc n) off s) = off + suc n
ends (data_desc t l off s k) = off + log_sector_size

abbrev pub Write : Type 0
Write = LogEntry × Descriptor

unfoldable pub entry_writes : LogEntry → List Descriptor → List Write → List Write
entry_writes e [] ws = ws
entry_writes e (d ∷ ds) ws = (e, d) ∷ entry_writes e ds ws

-- The writes of a sequence of entries, in their order.
unfoldable pub writes : List LogEntry → List Write
unfolding entry_writes
writes [] = []
writes (e ∷ es) = entry_writes e e.descriptors (writes es)

-- Byte `i` after the writes, when it was `b`: the last write that covers it decides.
unfoldable pub overlay : List Write → ℕ → ℕ → ℕ
overlay [] i b = b
overlay ((e, d) ∷ ws) i b = overlay ws i (if covers d i then logged e d i else b)

-- Where the last of the writes ends.
unfoldable pub top : List Write → ℕ
top [] = 0
top ((e, d) ∷ ws) = max (ends d) (top ws)

unfoldable pub apply_writes : File → List Write → Result File
apply_writes f [] = ok f
apply_writes f ((e, d) ∷ ws) = do f' ← apply_descriptor e f d; apply_writes f' ws

apply_descriptors-writes :
    (e : LogEntry) (ds : List Descriptor) (ws : List Write) (f : File)
    → apply_writes f (entry_writes e ds ws)
      ≡ (apply_descriptors e f ds >>= λ f'. apply_writes f' ws)
unfolding apply_writes entry_writes apply_descriptors
apply_descriptors-writes e [] ws f = refl
apply_descriptors-writes e (d ∷ ds) ws f =
    >>=_congr (apply_descriptor e f d) _ _ (λ f'. apply_descriptors-writes e ds ws f')
    ∙ sym (>>=_assoc (apply_descriptor e f d) _ _)

-- The entries are replayed write by write.
pub apply_entries-writes :
    (es : List LogEntry) (f : File) → apply_entries f es ≡ apply_writes f (writes es)
unfolding apply_entries writes
apply_entries-writes [] f = unfold apply_writes in refl
apply_entries-writes (e ∷ es) f =
    >>=_congr (apply_descriptors e f e.descriptors) _ _ (λ f'. apply_entries-writes es f')
    ∙ sym (apply_descriptors-writes e e.descriptors (writes es) f)

abbrev pub CanWrite : Write → Type 0
CanWrite (e, d) = HasSector (length e.data_sectors) d × All IsSector e.data_sectors

entry_writes-CanWrite :
    (e : LogEntry) (ds : List Descriptor) (ws : List Write)
    → All (HasSector (length e.data_sectors)) ds
    → All IsSector e.data_sectors
    → All CanWrite ws
    → All CanWrite (entry_writes e ds ws)
unfolding entry_writes
entry_writes-CanWrite e [] ws hd hs hw = hw
entry_writes-CanWrite e (d ∷ ds) ws hd hs hw =
    ((hd.0, hs), entry_writes-CanWrite e ds ws hd.1 hs hw)

pub writes-CanWrite : (es : List LogEntry) → All IsReplayable es → All CanWrite (writes es)
unfolding writes
writes-CanWrite [] h = tt
writes-CanWrite (e ∷ es) h =
    entry_writes-CanWrite e e.descriptors (writes es) h.0.named h.0.whole (writes-CanWrite es h.1)

pub All-get_or :
    (secs : List Bytes) (k : ℕ)
    → All IsSector secs
    → k < length secs
    → (get_elem? secs k ≡ some (get_or secs k [])) × IsSector (get_or secs k [])
All-get_or [] k h lt = elim lt [ ]
All-get_or (s ∷ secs) zero h lt = (refl, h.0)
All-get_or (s ∷ secs) (suc k) h lt = All-get_or secs k h.1 (omega arith)

module _ (l t raw : Bytes) (hl : length l ≡ 8) (ht : length t ≡ 4) where
  pub length-restored_sector : length (restored_sector l t raw) ≡ log_sector_size
  unfolding restored_sector
  length-restored_sector =
      length-splice _ 4092 t
      ∙ length-splice _ 8 (slice raw 8 4084)
      ∙ length-splice (zeros log_sector_size) 0 l
      ∙ length-zeros log_sector_size

  pub byte-restored_sector :
      (j : ℕ) → j < log_sector_size → byte (restored_sector l t raw) j ≡ sector_byte l t raw j
  unfolding restored_sector
  byte-restored_sector j h =
      let blank = zeros log_sector_size in
      let led = splice blank 0 l in
      let body = slice raw 8 4084 in
      let filled = splice led 8 body in
      ground (
        arith,
        byte-splice filled 4092 t j (
            omega (
              arith,
              length-splice led 8 body,
              length-splice blank 0 l,
              length-zeros log_sector_size,
            )),
        byte-splice led 8 body j (
            omega (
              arith,
              length-splice blank 0 l,
              length-zeros log_sector_size,
              length-slice raw 8 4084,
            )),
        byte-splice blank 0 l j (omega (arith, length-zeros log_sector_size)),
        length-slice raw 8 4084,
        byte-slice raw 8 4084 (j - 8),
      )
