-- ===== src/Merge.antt =====
-- crates/starweld-core/src/merge.rs: the blocks of a differencing disk are written into its parent.
-- Here is the loop over the blocks; Merge.Driver has what is before and behind it. Progress events
-- and the hints to the page cache are left out.
pub mod Sectors
pub mod Homes
pub mod Parent
pub mod Store
pub mod Place
pub mod Block
pub mod Loop
pub mod Driver
use starweld.Prelude.{
  ℕ, zero, suc, ◌+◌, ◌-◌, ◌*◌, ◌/◌, ◌≤◌, Bool, true, false, ◌&&◌, not, Option, none,
}
use starweld.Prelude.{some, List, [], ◌∷◌, length, ltb, leb, ◌==◌, if◌then◌else◌, wrap64}
use starweld.Prelude.Bytes.{Bytes, zeros, slice, splice}
use starweld.Externals.{Externals, Uuid, nil}
use starweld.Error.{Result, ok, err, panic, ◌>>=◌, ◌>>◌, must, guard, ok_or, missing_region}
use starweld.Error.{invalid_structure, parent_not_found, parent_guid_mismatch}
use starweld.Format.{mib, payload_block_fully_present}
use starweld.IoUtil.{File, set_len, read_exact_at, write_all_at, align_up}
use starweld.Header.{Header, HeaderPair, verify_file_type, write_new}
use starweld.Header
use starweld.Region.{RegionEntry, RegionTable}
use starweld.Region
use starweld.Metadata.{Metadata}
use starweld.Metadata
use starweld.ParentLocator.{ParentLocator, parent_linkage}
use starweld.Bat.{Bat, BatEntry, PayloadState, not_present, undefined, zero_block, unmapped}
use starweld.Bat.{fully_present, partially_present, other, from_raw, state, file_offset, new_entry}
use starweld.Bat.{payload_entry, set_payload_entry}
use starweld.Bat
use starweld.Disk.{VhdxDisk, BlockRead, full, partial, absent, bit_is_set, read_block, open_file}
use starweld.Disk
use starweld.Repair.{fsck}

-- The parent file with its table in memory, and the counters of the report.
pub record MergeState : Type 0 where
  pub parent_file : File
  pub parent_bat : Bat
  pub payload_cursor : ℕ
  pub blocks_copied : ℕ
  pub partial_sectors_copied : ℕ

abbrev pub if_fully_present : PayloadState → ℕ → Option ℕ
if_fully_present fully_present off = some off
if_fully_present partially_present off = none
if_fully_present not_present off = none
if_fully_present undefined off = none
if_fully_present zero_block off = none
if_fully_present unmapped off = none
if_fully_present (other s) off = none

abbrev pub entry_offset : Option BatEntry → Option ℕ
entry_offset none = none
entry_offset (some e) = if_fully_present (from_raw (state e)) (file_offset e)

-- The offset of a block that is fully present in the parent.
unfoldable pub parent_existing : Bat → ℕ → Option ℕ
parent_existing bat blk = entry_offset (payload_entry bat blk)

-- `Some((FullyPresent, off)) if off != 0`
unfoldable pub present_offset : Option ℕ → Option ℕ
present_offset none = none
present_offset (some off) = if off == 0 then none else some off

-- The place for a block in the parent: where it is, or a new one at the end of the file.
unfoldable pub place : ℕ → MergeState → Option ℕ → ℕ × MergeState
place bs st (some off) = (off, st)
place bs st none = (
  st.payload_cursor,
  record st {
    payload_cursor = wrap64 (st.payload_cursor + bs);
    parent_file = set_len st.parent_file (wrap64 (st.payload_cursor + bs));
  },
)

-- The end of both branches: the block is written and entered in the table.
unfoldable pub store : MergeState → ℕ → ℕ → Bytes → MergeState
store st blk off content = record st {
  parent_file = write_all_at st.parent_file off content;
  parent_bat = set_payload_entry st.parent_bat blk (new_entry payload_block_fully_present off);
  blocks_copied = st.blocks_copied + 1;
}

-- What the parent holds at the chosen place; a new place has zeros.
unfoldable pub parent_block : ℕ → File → ℕ → Option ℕ → Result Bytes
parent_block bs file off none = ok (zeros bs)
parent_block bs file off (some existing) =
    if existing == off then read_exact_at file off bs else ok (zeros bs)

-- The loop over the sectors of a block, at sector `s` with `rounds` to go: the block and the number
-- of the sectors copied.
unfoldable pub merge_sectors : ℕ → Bytes → Bytes → ℕ → ℕ → Bytes → ℕ → Result (Bytes × ℕ)
merge_sectors sector_size bitmap payload s zero block copied = ok (block, copied)
merge_sectors sector_size bitmap payload s (suc rounds) block copied =
    let lo = s * sector_size in
    let hi = lo + sector_size in
    let taken =
      must (leb hi (length block) && leb hi (length payload))
      >> merge_sectors sector_size bitmap payload (s + 1) rounds
          (splice block lo (slice payload lo sector_size)) (copied + 1) in
    let skipped = merge_sectors sector_size bitmap payload (s + 1) rounds block copied in
    if bit_is_set bitmap s then taken else skipped

-- One round of the merge, on what was read of the child.
unfoldable pub merge_block : ℕ → ℕ → MergeState → ℕ → BlockRead → Result MergeState
unfolding parent_existing present_offset
merge_block bs sector_size st blk absent = ok st
merge_block bs sector_size st blk (full content) =
    let existing = parent_existing st.parent_bat blk in
    let (off, st1) = place bs st (present_offset existing) in ok (store st1 blk off content)
merge_block bs sector_size st blk (partial payload bitmap) =
    let existing = parent_existing st.parent_bat blk in
    let (off, st1) = place bs st (present_offset existing) in
    do
      block ← parent_block bs st1.parent_file off existing
      (merged, copied) ←
          merge_sectors sector_size bitmap payload 0 (bs / sector_size) block
            st1.partial_sectors_copied
      ok (record (store st1 blk off merged) { partial_sectors_copied = copied })

-- The loop over `0..block_count`, at block `blk`.
unfoldable pub merge_blocks : ℕ → ℕ → VhdxDisk → File → ℕ → ℕ → MergeState → Result MergeState
merge_blocks bs sector_size child child_file blk zero st = ok st
merge_blocks bs sector_size child child_file blk (suc rounds) st = do
  read ← read_block child child_file blk
  st' ← merge_block bs sector_size st blk read
  merge_blocks bs sector_size child child_file (blk + 1) rounds st'

-- Before the first block: the cursor is the end of the file, rounded up to a MiB.
unfoldable pub start_merge : File → Bat → MergeState
start_merge file bat =
    let aligned = align_up (length file) mib in
    record {
      parent_file = if aligned == length file then file else set_len file aligned;
      parent_bat = bat;
      payload_cursor = aligned;
      blocks_copied = 0;
      partial_sectors_copied = 0;
    }
