-- ===== src/Repair/Report.antt =====
-- What `fsck` is asked for and what it reports, and its check of the block allocation table.
use Prim.Native.String.{String}
use starweld.Prelude.{ℕ, ◌+◌, Bool, true, false, ◌&&◌, not, Option, none, some, List, []}
use starweld.Prelude.{◌∷◌, ◌++◌, ltb, ◌==◌, if◌then◌else◌, wrap64}
use starweld.Region.{RegionTable}
use starweld.Bat.{BatEntry, PayloadState, not_present, undefined, zero_block, unmapped}
use starweld.Bat.{fully_present, partially_present, other, from_raw, state, file_offset}

pub data HeaderStatus : Type 0 where
  both_valid header_1_only header_2_only both_invalid : HeaderStatus

pub data RegionStatus : Type 0 where
  both_valid table_1_only table_2_only both_invalid : RegionStatus

pub data LogStatus : Type 0 where
  empty : LogStatus
  replayed : (entries max_seq : ℕ) → LogStatus
  discarded : (entries_seen : ℕ) → LogStatus

-- The messages about a block, by what they say.
pub data BatIssue : Type 0 where
  offset_zero : (block : ℕ) → BatIssue
  past_end : (block offset block_size file_len : ℕ) → BatIssue
  unknown_state : (block s : ℕ) → BatIssue

pub record FsckReport : Type 0 where
  pub header_status : HeaderStatus
  pub region_status : RegionStatus
  pub log_replay : LogStatus
  pub bat_issues : List BatIssue
  pub fixed : Bool
  pub warnings : List String

pub record FsckOptions : Type 0 where
  pub fix : Bool
  pub dry_run : Bool
  pub allow_log_discard : Bool

-- `opts.fix && !opts.dry_run`
unfoldable pub writes_file : FsckOptions → Bool
writes_file opts = opts.fix && not opts.dry_run

abbrev pub header_status_of : Bool → Bool → HeaderStatus
header_status_of true true = HeaderStatus.both_valid
header_status_of true false = HeaderStatus.header_1_only
header_status_of false true = HeaderStatus.header_2_only
header_status_of false false = HeaderStatus.both_invalid

abbrev pub region_status_of : Option RegionTable → Option RegionTable → RegionStatus
region_status_of (some t) (some u) = RegionStatus.both_valid
region_status_of (some t) none = RegionStatus.table_1_only
region_status_of none (some u) = RegionStatus.table_2_only
region_status_of none none = RegionStatus.both_invalid

abbrev pub both_headers : HeaderStatus → Bool
both_headers HeaderStatus.both_valid = true
both_headers HeaderStatus.header_1_only = false
both_headers HeaderStatus.header_2_only = false
both_headers HeaderStatus.both_invalid = false

abbrev pub both_tables : RegionStatus → Bool
both_tables RegionStatus.both_valid = true
both_tables RegionStatus.table_1_only = false
both_tables RegionStatus.table_2_only = false
both_tables RegionStatus.both_invalid = false

-- The message about one payload entry, `payload_index` being its block.
unfoldable pub state_issues : ℕ → ℕ → ℕ → ℕ → PayloadState → List BatIssue
state_issues bs file_len payload_index off fully_present =
    if off == 0
    then offset_zero payload_index ∷ []
    else if ltb file_len (wrap64 (off + bs))
    then past_end payload_index off bs file_len ∷ []
    else []
state_issues bs file_len payload_index off partially_present =
    if off == 0
    then offset_zero payload_index ∷ []
    else if ltb file_len (wrap64 (off + bs))
    then past_end payload_index off bs file_len ∷ []
    else []
state_issues bs file_len payload_index off (other s) = unknown_state payload_index s ∷ []
state_issues bs file_len payload_index off not_present = []
state_issues bs file_len payload_index off undefined = []
state_issues bs file_len payload_index off zero_block = []
state_issues bs file_len payload_index off unmapped = []

-- The loop over the entries: after `ratio` payload entries comes one of a sector bitmap.
unfoldable pub check_entries : ℕ → ℕ → ℕ → List BatEntry → ℕ → ℕ → List BatIssue
unfolding state_issues
check_entries ratio bs file_len [] chunk_payload_count payload_index = []
check_entries ratio bs file_len (e ∷ es) chunk_payload_count payload_index =
    let after_bitmap = check_entries ratio bs file_len es 0 payload_index in
    let rest = check_entries ratio bs file_len es (chunk_payload_count + 1) (payload_index + 1) in
    if chunk_payload_count == ratio
    then after_bitmap
    else state_issues bs file_len payload_index (file_offset e) (from_raw (state e)) ++ rest
