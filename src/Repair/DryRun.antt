-- ===== src/Repair/DryRun.antt =====
-- fsck without `fix`, or in a dry run.
use starweld.Prelude.{false, ◌≡◌, refl, sym, ◌∙◌, not, ◌&&◌, length, List, []}
use starweld.Prelude.{◌∷◌, ltb, ◌==◌, if◌then◌else◌, Bool-cases, inl, inr}
use Prim.Native.String.{String}
use starweld.Externals.{Externals, nil}
use starweld.Error.{Result, ok, ◌>>=◌, ◌>>◌, >>=_congr, >>=_assoc, >>=_into}
use starweld.IoUtil.{File}
use starweld.Header.{HeaderPair, active, is_valid, verify_file_type}
use starweld.Header
use starweld.Region.{RegionTable, RegionTablePair, validate_layout}
use starweld.Region
use starweld.Log.Scan.{LogScan, scan_log}
use starweld.Repair.Report.{
  FsckOptions, FsckReport, HeaderStatus, RegionStatus, LogStatus, BatIssue,
}
use starweld.Repair.{Step}
use starweld.Repair.Report.{writes_file}
use starweld.Repair.{repair_headers, repair_regions, replay_log, repair_log, repair_file, fsck}
use starweld.Repair.Report.{header_status_of, region_status_of, replayed, empty}
use starweld.Repair.{check_bat}

-- What is said of a log that is not touched.
abbrev log_report : FsckOptions → LogScan → LogStatus × List String
log_report opts scan =
    if ltb 0 (length scan.active_sequence)
    then (
      replayed (length scan.active_sequence) scan.max_sequence,
      "log has replayable entries; rerun with --fix to apply" ∷ [],
    )
    else if opts.fix
    then (empty, [])
    else (empty, "log appears corrupt and cannot be replayed; rerun with --fix to discard it" ∷ [])

module _ ⦃ext : Externals⦄ where
  inspect_log : FsckOptions → HeaderPair → File → Result (LogStatus × List String)
  inspect_log opts pair file =
      let dirty = (do scan ← scan_log file (active pair); ok (log_report opts scan)) in
      if not ((active pair).log_guid == nil) && ltb 0 (active pair).log_length
      then dirty
      else ok (empty, [])

  -- The report on a file, from its bytes alone.
  pub inspect : FsckOptions → File → Result FsckReport
  inspect opts file = do
    verify_file_type file
    pair ← Header.read file
    region_pair ← Region.read file
    region ← Region.active region_pair
    validate_layout region
    (log_status, warnings) ← inspect_log opts pair file
    issues ← check_bat file region
    ok (record {
      header_status = header_status_of (is_valid pair.header_0) (is_valid pair.header_1);
      region_status = region_status_of region_pair.table_0 region_pair.table_1;
      log_replay = log_status;
      bat_issues = issues;
      fixed = false;
      warnings = warnings;
    })

module _ ⦃ext : Externals⦄ (opts : FsckOptions) (dry : writes_file opts ≡ false) where
  headers_kept :
      (pair : HeaderPair) (status : HeaderStatus) (file : File)
      → repair_headers opts pair status file ≡ ok (file, false)
  unfolding repair_headers
  headers_kept pair status file = rw dry refl

  regions_kept :
      (region : RegionTable) (status : RegionStatus) (file : File)
      → repair_regions opts region status file ≡ ok (file, false)
  unfolding repair_regions
  regions_kept region status file = rw dry refl

  abbrev seen : File → LogStatus × List String → Step
  seen file r = record { file = file; log_replay = r.0; fixed = false; warnings = r.1 }

  replay_kept :
      (pair : HeaderPair) (file : File) (scan : LogScan)
      → replay_log opts pair file false scan ≡ ok (seen file (log_report opts scan))
  unfolding replay_log
  replay_kept pair file scan = rw dry (elim (Bool-cases (ltb 0 (length scan.active_sequence))) [
    | inl some_entries ↦ rw some_entries refl
    | inr no_entry ↦ elim (Bool-cases opts.fix) [
      | inl fixing ↦ rw (no_entry, fixing) refl
      | inr looking ↦ rw (no_entry, looking) refl
    ]
  ])

  log_kept :
      (pair : HeaderPair) (file : File)
      → repair_log opts pair file false ≡ (inspect_log opts pair file >>= λ r. ok (seen file r))
  unfolding repair_log inspect_log
  log_kept pair file =
      elim (Bool-cases (not ((active pair).log_guid == nil) && ltb 0 (active pair).log_length)) [
        | inl dirty ↦ rw dirty (
            >>=_congr (scan_log file (active pair)) _ _ (λ scan. replay_kept pair file scan)
            ∙ sym (>>=_assoc (scan_log file (active pair)) (λ scan. ok (log_report opts scan)) _))
        | inr clean ↦ rw clean refl
      ]

  abbrev report_of :
      RegionTablePair → HeaderPair → LogStatus × List String → List BatIssue → FsckReport
  report_of region_pair pair r issues = record {
    header_status = header_status_of (is_valid pair.header_0) (is_valid pair.header_1);
    region_status = region_status_of region_pair.table_0 region_pair.table_1;
    log_replay = r.0;
    bat_issues = issues;
    fixed = false;
    warnings = r.1;
  }

  repair_file_kept :
      (file : File) (pair : HeaderPair) (region_pair : RegionTablePair) (region : RegionTable)
      → repair_file opts file pair region_pair region ≡ (
          (inspect_log opts pair file >>= λ r.
          check_bat file region >>= λ issues. ok (report_of region_pair pair r issues))
          >>= λ report. ok (file, report))
  unfolding repair_file
  repair_file_kept file pair region_pair region =
      rw (headers_kept, regions_kept, log_kept)
        (>>=_assoc (inspect_log opts pair file) _ _
          ∙ >>=_into (inspect_log opts pair file) _ _ (λ report. ok (file, report))
              λ r.
                >>=_into (check_bat file region) _ _ (λ report. ok (file, report)) (λ issues. refl))

  -- With options that do not both ask for a fix and allow writing, fsck leaves the file as it is
  -- and its result is the report of an inspection that only reads, or the error or panic of that
  -- inspection.
  pub fsck_dry :
      (file : File) → fsck file opts ≡ (inspect opts file >>= λ report. ok (file, report))
  unfolding fsck inspect
  fsck_dry file = >>=_into (verify_file_type file) _ _ _ λ _.
      >>=_into (Header.read file) _ _ _ λ pair. >>=_into (Region.read file) _ _ _ λ region_pair.
        >>=_into (Region.active region_pair) _ _ _ λ region.
          >>=_into (validate_layout region) _ _ _ λ _. repair_file_kept file pair region_pair region
