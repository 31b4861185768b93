-- ===== src/Tests/Repairs.antt =====
-- fsck: a dry run on a file with headers, and a table of two blocks to a chunk.
use starweld.Prelude.{ℕ, ◌+◌, ◌*◌, ◌<◌, ◌≡◌, ◌↔◌, refl, true, some, [], ◌∷◌, arith}
use starweld.Error.{ok, ◌>>=◌}
use starweld.Format.{mib}
use starweld.Bat.{Bat, BatEntry, payload_entry, file_offset, from_raw, state}
use starweld.Bat.Index.{max_block}
use starweld.Repair.Report.{FsckOptions, check_entries, past_end, writes_file}
use starweld.Repair.{fsck}
use starweld.Repair.DryRun.{inspect, fsck_dry}
use starweld.Repair.Sound.{EntryInFile, check_entries-InFile}
use starweld.Tests.Crates.{crates}
use starweld.Tests.Headers

abbrev dry : FsckOptions
dry = record { fix = true; dry_run = true; allow_log_discard = true }

fsck_dry_example :
    fsck Headers.file dry ≡ (inspect dry Headers.file >>= λ report. ok (Headers.file, report))
fsck_dry_example = fsck_dry dry (unfold writes_file in refl) Headers.file

-- Block 0 at 4 MiB, block 1 absent, the bitmap of the chunk, block 2 at 5 MiB.
abbrev chunked : Bat
chunked = record {
  entries =
      record { raw = 6 + 4 * mib }
      ∷ record { raw = 0 }
      ∷ record { raw = 6 }
      ∷ record { raw = 6 + 5 * mib }
      ∷ [];
  chunk_ratio = 2;
  block_count = 3;
}

check_entries-InFile_example :
    (check_entries chunked.chunk_ratio mib (6 * mib) chunked.entries 0 0 ≡ []) ↔ (
      (b : ℕ) (e : BatEntry)
      → b < max_block
      → payload_entry chunked b ≡ some e
      → EntryInFile mib (6 * mib) e)
check_entries-InFile_example =
    check_entries-InFile chunked mib (6 * mib) (omega arith) (omega arith) (omega arith)

-- In a file of 5 MiB, block 2 is out of it.
block_out :
    check_entries 2 mib (5 * mib) chunked.entries 0 0 ≡ past_end 2 (5 * mib) mib (5 * mib) ∷ []
unfolding check_entries file_offset from_raw state
block_out = refl
