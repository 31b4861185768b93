-- ===== src/Log/Replay.antt =====
-- `apply_replay` and `mark_log_clean`.
use starweld.Prelude.{ℕ, List, [], ◌∷◌, length, get_elem?, ltb, leb}
use starweld.Prelude.{if◌then◌else◌}
use starweld.Prelude.Bytes.{Bytes, zeros, slice, splice}
use starweld.Externals.{Externals, nil}
use starweld.Error.{Result, ok, ◌>>=◌, ◌>>◌, must, ok_or, log_replay}
use starweld.Format.{log_sector_size}
use starweld.IoUtil.{File, set_len, write_all_at, zero_range}
use starweld.Header.{HeaderPair, active, write_new}
use starweld.Log.Entry.{LogEntry, Descriptor, zero_desc, data_desc}
use starweld.Log.Scan.{LogScan}

-- `leading_bytes (8) || raw[8..4092] || trailing_bytes (4)`
unfoldable pub restored_sector : Bytes → Bytes → Bytes → Bytes
restored_sector leading_bytes trailing_bytes raw =
    splice (splice (splice (zeros log_sector_size) 0 leading_bytes) 8 (slice raw 8 4084)) 4092
      trailing_bytes

unfoldable pub apply_descriptor : LogEntry → File → Descriptor → Result File
unfolding restored_sector
apply_descriptor entry file (zero_desc zero_length file_offset sequence_number) =
    ok (zero_range file file_offset zero_length)
apply_descriptor entry file (data_desc trailing leading file_offset sequence_number data_index) = do
  raw ←
      ok_or (get_elem? entry.data_sectors data_index) (log_replay "data sector index out of range")
  must (leb 4092 (length raw))
  ok (write_all_at file file_offset (restored_sector leading trailing raw))

unfoldable pub apply_descriptors : LogEntry → File → List Descriptor → Result File
unfolding apply_descriptor
apply_descriptors entry file [] = ok file
apply_descriptors entry file (d ∷ ds) = do
  file' ← apply_descriptor entry file d
  apply_descriptors entry file' ds

unfoldable pub apply_entries : File → List LogEntry → Result File
unfolding apply_descriptors
apply_entries file [] = ok file
apply_entries file (entry ∷ entries) = do
  file' ← apply_descriptors entry file entry.descriptors
  apply_entries file' entries

-- The file is long enough for what the entries say of it.
unfoldable pub extended : File → LogScan → File
extended file scan =
    if ltb (length file) scan.max_file_offset then set_len file scan.max_file_offset else file

unfoldable pub replay_entries : File → LogScan → List LogEntry → Result File
unfolding apply_entries extended
replay_entries file scan [] = ok file
replay_entries file scan (e ∷ es) = apply_entries (extended file scan) (e ∷ es)

unfoldable pub apply_replay : File → LogScan → Result File
unfolding replay_entries
apply_replay file scan = replay_entries file scan scan.active_sequence

unfoldable pub mark_log_clean : ⦃ext : Externals⦄ → File → HeaderPair → Result (File × ℕ)
mark_log_clean file pair = write_new file (active pair) (λ h. record h { log_guid = nil })
