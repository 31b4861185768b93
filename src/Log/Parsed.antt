-- ===== src/Log/Parsed.antt =====
-- What `parse_entry` has checked of an entry that it returns.
use starweld.Prelude.{
  ℕ, zero, suc, ◌+◌, ◌*◌, ◌%◌, ◌||◌, not, ◌^◌, ◌≤◌, ◌<◌, ◌≡◌, refl, ap, some, List, [],
}
use starweld.Prelude.{◌∷◌, length, All, arith, leb, ◌==◌}
use starweld.Prelude.Bytes.{Bytes, slice, bytes_eq, length-slice}
use starweld.Prelude.Le.{get_le}
use starweld.Prelude.Options.{check, >>=-eq-some}
use starweld.Externals.{Externals, Uuid}
use starweld.Guid.{read_guid_at}
use starweld.Format.{log_entry_signature, log_sector_size, data_sector_signature}
use starweld.Log.Entry.{LogEntry, Descriptor, zero_desc, data_desc, parse_descriptor}
use starweld.Log.Entry.{parse_descriptors, parse_sectors, parse_entry, first_data_sector}

-- A data descriptor names one of `n` sectors, and has the bytes that it replaces.
abbrev pub HasSector : ℕ → Descriptor → Type 0
HasSector n (zero_desc zero_length file_offset sequence_number) = Unit {0}
HasSector n (data_desc trailing leading file_offset sequence_number data_index) =
    (data_index < n) × (length trailing ≡ 4) × (length leading ≡ 8)

abbrev pub IsSector : Bytes → Type 0
IsSector s = length s ≡ log_sector_size

pub record IsReplayable (e : LogEntry) : Type 0 where
  pub named : All (HasSector (length e.data_sectors)) e.descriptors
  pub whole : All IsSector e.data_sectors

HasSector-le : (m n : ℕ) (d : Descriptor) → m ≤ n → HasSector m d → HasSector n d
HasSector-le m n (zero_desc z o s) h hs = tt
HasSector-le m n (data_desc t l o s k) h hs = (omega arith, hs.1, hs.2)

parse_descriptor-HasSector :
    (buf : Bytes) (seq off n : ℕ) (d : Descriptor) {m : ℕ}
    → parse_descriptor buf seq off n ≡ some (d, m)
    → (n ≤ m) × HasSector m d
unfolding parse_descriptor
parse_descriptor-HasSector buf seq off n (zero_desc z o s) h = ground arith
parse_descriptor-HasSector buf seq off n (data_desc t l o s k) h =
    ground (arith, length-slice buf (off + 4) 4, length-slice buf (off + 8) 8)

HasSector-cons :
    (n m t total : ℕ) (d : Descriptor) (es ds : List Descriptor)
    → d ∷ es ≡ ds
    → t ≡ total
    → (n ≤ m) × HasSector m d
    → (m ≤ t) × All (HasSector t) es
    → (n ≤ total) × All (HasSector total) ds
HasSector-cons n m t total d es ds e1 e2 one more =
    rw (← e2) (rw (← e1) (omega arith, (HasSector-le m t d more.0 one.1, more.1)))

parse_descriptors-HasSector :
    (buf : Bytes) (seq off n rounds : ℕ) (ds : List Descriptor) {total : ℕ}
    → parse_descriptors buf seq off n rounds ≡ some (ds, total)
    → (n ≤ total) × All (HasSector total) ds
unfolding parse_descriptors
parse_descriptors-HasSector buf seq off n zero [] h = (ground arith, tt)
parse_descriptors-HasSector buf seq off n zero (d ∷ ds) h = ground arith
parse_descriptors-HasSector buf seq off n (suc rounds) ds {total} h =
    let (u, _, h1) = >>=-eq-some (check (leb (off + 32) (length buf))) _ h in
    let ((d, m), e2, h2) = >>=-eq-some (parse_descriptor buf seq off n) _ h1 in
    let ((es, t), e3, h3) = >>=-eq-some (parse_descriptors buf seq (off + 32) m rounds) _ h2 in
    let one = parse_descriptor-HasSector buf seq off n d e2 in
    let more = parse_descriptors-HasSector buf seq (off + 32) m rounds es e3 in
    HasSector-cons n m t total d es ds (cc) (cc) one more

parse_sectors-IsSector :
    (buf : Bytes) (seq off rounds : ℕ) (secs : List Bytes)
    → parse_sectors buf seq off rounds ≡ some secs
    → (length secs ≡ rounds) × All IsSector secs
unfolding parse_sectors
parse_sectors-IsSector buf seq off zero [] h = (refl, tt)
parse_sectors-IsSector buf seq off zero (s ∷ secs) h = cc
parse_sectors-IsSector buf seq off (suc rounds) secs h =
    let sec = slice buf off log_sector_size in
    let (_, _, h1) = >>=-eq-some (check (leb (off + log_sector_size) (length buf))) _ h in
    let (_, _, h2) = >>=-eq-some (check (bytes_eq (slice sec 0 4) data_sector_signature)) _ h1 in
    let (_, _, h3) =
      >>=-eq-some (check (get_le 4 sec 4 * 2 ^ 32 + get_le 4 sec 4092 == seq)) _ h2 in
    let (more, e4, h4) = >>=-eq-some (parse_sectors buf seq (off + log_sector_size) rounds) _ h3 in
    let ih = parse_sectors-IsSector buf seq (off + log_sector_size) rounds more e4 in
    let same : sec ∷ more ≡ secs = cc in
    rw (← same) (ap suc ih.0, (length-slice buf off log_sector_size, ih.1))

pub parse_entry-IsReplayable :
    ⦃ext : Externals⦄ (buf : Bytes) (guid : Uuid) {e : LogEntry}
    → parse_entry buf guid ≡ some e
    → IsReplayable e
unfolding parse_entry
parse_entry-IsReplayable buf guid {e} h =
    let seq = get_le 8 buf 16 in
    let count = get_le 4 buf 24 in
    let (_, _, h1) = >>=-eq-some (check (leb 64 (length buf))) _ h in
    let (_, _, h2) = >>=-eq-some (check (bytes_eq (slice buf 0 4) log_entry_signature)) _ h1 in
    let (_, _, h3) =
      >>=-eq-some (check (not (get_le 4 buf 8 == 0 || not (get_le 4 buf 8 % log_sector_size == 0))))
        _ h2 in
    let (_, _, h4) = >>=-eq-some (check (get_le 4 buf 8 == length buf)) _ h3 in
    let (_, _, h5) = >>=-eq-some (check (read_guid_at buf 32 == guid)) _ h4 in
    let ((ds, n), e6, h6) = >>=-eq-some (parse_descriptors buf seq 64 0 count) _ h5 in
    let (secs, e7, h7) = >>=-eq-some (parse_sectors buf seq (first_data_sector count) n) _ h6 in
    let named = parse_descriptors-HasSector buf seq 64 0 count ds e6 in
    let held = parse_sectors-IsSector buf seq (first_data_sector count) n secs e7 in
    let same_ds : ds ≡ e.descriptors = cc in
    let same_secs : secs ≡ e.data_sectors = cc in
    record {
      named = rw (← same_ds) (rw (← same_secs) (rw held.0 named.1));
      whole = rw (← same_secs) held.1;
    }
