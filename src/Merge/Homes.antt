-- ===== src/Merge/Homes.antt =====
-- Where the blocks of the parent are, and what they hold.
use starweld.Prelude.{ℕ, ◌%◌, ◌^◌, ◌<◌, ◌≡◌, ◌≢◌, refl, ap, ◌∙◌, Option, none, some}
use starweld.Prelude.{arith, ◌==◌, if◌then◌else◌}
use starweld.Prelude.Bytes.{Bytes, zeros, slice}
use starweld.Format.{mib, payload_block_fully_present}
use starweld.IoUtil.{File}
use starweld.Bat.{BatEntry, PayloadState, fully_present, new_entry, state, file_offset, from_raw}
use starweld.Bat.{not_present, undefined, zero_block, unmapped, partially_present, other}
use starweld.Bat.{payload_entry}
use starweld.Bat.Entry.{new_entry_fields}
use starweld.Merge.{MergeState, parent_existing, present_offset, entry_offset, if_fully_present}

-- Offset 0 stands for none.
abbrev pub nonzero : ℕ → Option ℕ
nonzero off = if off == 0 then none else some off

abbrev pub whole_at : PayloadState → ℕ → Option ℕ
whole_at fully_present off = nonzero off
whole_at partially_present off = none
whole_at not_present off = none
whole_at undefined off = none
whole_at zero_block off = none
whole_at unmapped off = none
whole_at (other s) off = none

abbrev pub located_at : PayloadState → ℕ → Option ℕ
located_at fully_present off = nonzero off
located_at partially_present off = nonzero off
located_at not_present off = none
located_at undefined off = none
located_at zero_block off = none
located_at unmapped off = none
located_at (other s) off = none

abbrev pub whole : Option BatEntry → Option ℕ
whole none = none
whole (some e) = whole_at (from_raw (state e)) (file_offset e)

abbrev pub located : Option BatEntry → Option ℕ
located none = none
located (some e) = located_at (from_raw (state e)) (file_offset e)

-- Where a block of the parent is, if it is fully present.
abbrev pub home : MergeState → ℕ → Option ℕ
home st k = whole (payload_entry st.parent_bat k)

-- Where the data of a block is, if the parent has it in whole or in part.
abbrev pub spot : MergeState → ℕ → Option ℕ
spot st k = located (payload_entry st.parent_bat k)

abbrev pub held_at : ℕ → File → Option ℕ → Bytes
held_at bs file none = zeros bs
held_at bs file (some off) = slice file off bs

-- The bytes of block `k` where it is fully present in the parent, and zeros otherwise: also where
-- it is present in part, since that is how the merge treats it.
abbrev pub held : ℕ → MergeState → ℕ → Bytes
held bs st k = held_at bs st.parent_file (home st k)

entry_aligned : (e : BatEntry) → file_offset e % mib ≡ 0
unfolding file_offset
entry_aligned e = omega arith

nonzero_inv : (a off : ℕ) → nonzero a ≡ some off → (a ≡ off) × (off ≢ 0)
nonzero_inv a off h = ground arith

whole_at_inv : (s : PayloadState) (a off : ℕ) → whole_at s a ≡ some off → (a ≡ off) × (off ≢ 0)
whole_at_inv fully_present a off h = nonzero_inv a off h
whole_at_inv partially_present a off h = cc
whole_at_inv not_present a off h = cc
whole_at_inv undefined a off h = cc
whole_at_inv zero_block a off h = cc
whole_at_inv unmapped a off h = cc
whole_at_inv (other s) a off h = cc

whole_aligned : (o : Option BatEntry) (off : ℕ) → whole o ≡ some off → (off % mib ≡ 0) × (off ≢ 0)
whole_aligned none off h = cc
whole_aligned (some e) off h =
    let (same, ne) = whole_at_inv (from_raw (state e)) (file_offset e) off h in
    (rw (← same) (entry_aligned e), ne)

pub home_aligned :
    (st : MergeState) (k off : ℕ) → home st k ≡ some off → (off % mib ≡ 0) × (off ≢ 0)
home_aligned st k off h = whole_aligned (payload_entry st.parent_bat k) off h

whole_at-located :
    (s : PayloadState) (a off : ℕ) → whole_at s a ≡ some off → located_at s a ≡ some off
whole_at-located fully_present a off h = h
whole_at-located partially_present a off h = cc
whole_at-located not_present a off h = cc
whole_at-located undefined a off h = cc
whole_at-located zero_block a off h = cc
whole_at-located unmapped a off h = cc
whole_at-located (other s) a off h = cc

whole-located : (o : Option BatEntry) (off : ℕ) → whole o ≡ some off → located o ≡ some off
whole-located none off h = h
whole-located (some e) off h = whole_at-located (from_raw (state e)) (file_offset e) off h

-- A block that is fully present is in the file.
pub home-spot : (st : MergeState) (k off : ℕ) → home st k ≡ some off → spot st k ≡ some off
home-spot st k off h = whole-located (payload_entry st.parent_bat k) off h

present_offset-whole_at :
    (s : PayloadState) (a : ℕ) → present_offset (if_fully_present s a) ≡ whole_at s a
unfolding present_offset
present_offset-whole_at fully_present a = refl
present_offset-whole_at partially_present a = refl
present_offset-whole_at not_present a = refl
present_offset-whole_at undefined a = refl
present_offset-whole_at zero_block a = refl
present_offset-whole_at unmapped a = refl
present_offset-whole_at (other s) a = refl

present_offset-whole : (o : Option BatEntry) → present_offset (entry_offset o) ≡ whole o
unfolding present_offset
present_offset-whole none = refl
present_offset-whole (some e) = present_offset-whole_at (from_raw (state e)) (file_offset e)

-- The place that the code looks for is the block's.
pub present_offset-home :
    (st : MergeState) (k : ℕ) → present_offset (parent_existing st.parent_bat k) ≡ home st k
unfolding parent_existing
present_offset-home st k = present_offset-whole (payload_entry st.parent_bat k)

abbrev pub full_entry : ℕ → BatEntry
full_entry off = new_entry payload_block_fully_present off

pub full_entry_home :
    (off : ℕ) → off % mib ≡ 0 → off < 2 ^ 64 → off ≢ 0 → whole (some (full_entry off)) ≡ some off
full_entry_home off aligned small ne =
    let (s, o, _) = new_entry_fields 6 off (omega arith) aligned small in
    let is_full : from_raw (state (full_entry off)) ≡ fully_present =
      ap from_raw s ∙ unfold from_raw in refl in
    rw (is_full, o) (ground arith)

pub full_entry_spot :
    (off : ℕ) → off % mib ≡ 0 → off < 2 ^ 64 → off ≢ 0 → located (some (full_entry off)) ≡ some off
full_entry_spot off aligned small ne =
    whole-located (some (full_entry off)) off (full_entry_home off aligned small ne)
