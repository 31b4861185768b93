-- ===== src/Repair.antt =====
-- crates/starweld-core/src/repair.rs: `fsck` on the bytes of a file, and what calls it. The path is
-- the caller's; the texts of the report keep their fixed part or are constructors.
pub mod Report
pub mod DryRun
pub mod Sound
use starweld.Repair.Report.{
  HeaderStatus, RegionStatus, LogStatus, BatIssue, FsckReport, FsckOptions, writes_file,
  header_status_of, region_status_of, both_headers, both_tables, state_issues, check_entries,
}
use starweld.Repair.Report.{empty, replayed, discarded, offset_zero, past_end, unknown_state}
use Prim.Native.String.{String}
use starweld.Prelude.{ℕ, ◌+◌, ◌<◌, Bool, true, false, ◌&&◌, ◌||◌, not, Option, none, some, List, []}
use starweld.Prelude.{◌∷◌, ◌++◌, length, ltb, leb, ◌==◌, if◌then◌else◌, wrap64}
use starweld.Externals.{Externals, nil}
use starweld.Error.{
  Result, ok, err, panic, ◌>>=◌, ◌>>◌, must, guard, ok_or, missing_region, integrity,
}
use starweld.Format.{header_offset}
use starweld.IoUtil.{File, read_exact_at, write_all_at}
use starweld.Header.{HeaderPair, verify_file_type, is_valid, active, write_new, encode}
use starweld.Header
use starweld.Region.{RegionTable, RegionTablePair, validate_layout, write_both}
use starweld.Region
use starweld.Metadata
use starweld.Bat.{Bat, BatEntry, PayloadState, not_present, undefined, zero_block, unmapped}
use starweld.Bat.{fully_present, partially_present, other, from_raw, state, file_offset}
use starweld.Bat
use starweld.Log.Scan.{LogScan, scan_log}
use starweld.Log.Replay.{apply_replay, mark_log_clean}

-- What a step of the repair leaves.
pub record Step : Type 0 where
  pub file : File
  pub log_replay : LogStatus
  pub fixed : Bool
  pub warnings : List String

module _ ⦃ext : Externals⦄ where
  unfoldable pub repair_headers :
      FsckOptions → HeaderPair → HeaderStatus → File → Result (File × Bool)
  repair_headers opts pair status file =
      let rewritten = (do
        (file1, _) ← write_new file (active pair) (λ h. h)
        (file2, _) ← write_new file1 (active pair) (λ h. h)
        ok (file2, true)) in
      if writes_file opts && not (both_headers status) then rewritten else ok (file, false)

  unfoldable pub repair_regions :
      FsckOptions → RegionTable → RegionStatus → File → Result (File × Bool)
  repair_regions opts region status file =
      let rewritten = (do file' ← write_both file region; ok (file', true)) in
      if writes_file opts && not (both_tables status) then rewritten else ok (file, false)

  unfoldable pub replay_log : FsckOptions → HeaderPair → File → Bool → LogScan → Result Step
  replay_log opts pair file fixed scan =
      let count = length scan.active_sequence in
      let replay = (do
        file1 ← apply_replay file scan
        (file2, _) ← mark_log_clean file1 pair
        ok (record {
          file = file2;
          log_replay = replayed count scan.max_sequence;
          fixed = true;
          warnings = [];
        })) in
      let report_only : Step = record {
        file = file;
        log_replay = replayed count scan.max_sequence;
        fixed = fixed;
        warnings = "log has replayable entries; rerun with --fix to apply" ∷ [];
      } in
      let discard = (do
        (file1, _) ← mark_log_clean file pair
        ok (record {
          file = file1;
          log_replay = discarded 0;
          fixed = true;
          warnings = "log was non-empty but no valid sequence was found; discarding log" ∷ [];
        })) in
      let untouched : Step = record {
        file = file;
        log_replay = empty;
        fixed = fixed;
        warnings = [];
      } in
      let corrupt : String =
        "log appears corrupt and cannot be replayed; rerun with --fix to discard it" in
      if ltb 0 count
      then (if writes_file opts then replay else ok report_only)
      else if writes_file opts && opts.allow_log_discard
      then discard
      else if not opts.fix
      then ok (record untouched { warnings = corrupt ∷ [] })
      else ok untouched

  unfoldable pub repair_log : FsckOptions → HeaderPair → File → Bool → Result Step
  unfolding replay_log
  repair_log opts pair file fixed =
      let header = active pair in
      let dirty = (do scan ← scan_log file header; replay_log opts pair file fixed scan) in
      if not (header.log_guid == nil) && ltb 0 header.log_length
      then dirty
      else ok (record { file = file; log_replay = empty; fixed = fixed; warnings = [] })

  unfoldable pub check_bat : File → RegionTable → Result (List BatIssue)
  unfolding check_entries
  check_bat file region = do
    bat_region ← ok_or (Region.bat region) (missing_region "BAT")
    metadata_region ← ok_or (Region.metadata region) (missing_region "Metadata")
    metadata_buf ← read_exact_at file metadata_region.file_offset metadata_region.length_bytes
    metadata ← Metadata.parse metadata_buf
    bat_buf ← read_exact_at file bat_region.file_offset bat_region.length_bytes
    blocks ← Metadata.block_count metadata
    ratio ← Metadata.chunk_ratio metadata
    bat ← Bat.parse bat_buf blocks ratio metadata.file_parameters.has_parent
    ok (check_entries ratio (Metadata.block_size metadata) (length file) bat.entries 0 0)

  -- `fsck` from the repairs on.
  unfoldable pub repair_file :
      FsckOptions → File → HeaderPair → RegionTablePair → RegionTable → Result (File × FsckReport)
  unfolding repair_headers repair_regions repair_log check_bat
  repair_file opts file pair region_pair region = do
    let header_status = header_status_of (is_valid pair.header_0) (is_valid pair.header_1)
    let region_status = region_status_of region_pair.table_0 region_pair.table_1
    (file1, fixed1) ← repair_headers opts pair header_status file
    (file2, fixed2) ← repair_regions opts region region_status file1
    step ← repair_log opts pair file2 (fixed1 || fixed2)
    issues ← check_bat step.file region
    ok (
      step.file,
      record {
        header_status = header_status;
        region_status = region_status;
        log_replay = step.log_replay;
        bat_issues = issues;
        fixed = step.fixed;
        warnings = step.warnings;
      },
    )

  unfoldable pub fsck : File → FsckOptions → Result (File × FsckReport)
  unfolding repair_file
  fsck file opts = do
    verify_file_type file
    pair ← Header.read file
    region_pair ← Region.read file
    region ← Region.active region_pair
    validate_layout region
    repair_file opts file pair region_pair region

  -- The file that `open_repaired` opens again.
  unfoldable pub open_repaired : File → Result File
  open_repaired file = do
    (file', report) ← fsck file (record { fix = true; dry_run = false; allow_log_discard = true })
    guard (length report.bat_issues == 0) (integrity "BAT issues found")
    ok file'

  unfoldable pub force_clean_log : File → Result File
  force_clean_log file = do
    verify_file_type file
    pair ← Header.read file
    let current = active pair
    let new_header = record current {
      log_guid = nil;
      sequence_number = wrap64 (current.sequence_number + 1);
    }
    let raw = encode new_header
    off0 ← header_offset 0
    off1 ← header_offset 1
    ok (write_all_at (write_all_at file off0 raw) off1 raw)
