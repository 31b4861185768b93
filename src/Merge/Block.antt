-- ===== src/Merge/Block.antt =====
-- One round of the merge: what it does to the parent.
use starweld.Prelude.{ℕ, ◌+◌, ◌*◌, ◌/◌, ◌^◌, ◌≤◌, ◌<◌, ◌≡◌, ◌⊎◌, refl, ap, Bool, ◌∙◌, Bool-cases}
use starweld.Prelude.{
  Option, none, some, length, ltb, ◌==◌, ◌&&◌, if◌then◌else◌, true, false, inl, inr, arith,
  div-add-mod,
}
use starweld.Prelude.Bytes.{byte, length-zeros, length-slice, slice}
use starweld.Error.{Result, ok}
use starweld.Bat.{sector_bitmap_entry}
use starweld.Disk.{BlockRead, full, partial, absent, bit_is_set}
use starweld.Disk.Blocks.{HasSize}
use starweld.Merge.{MergeState, place, store, parent_existing, present_offset}
use starweld.Merge.{merge_block}
use starweld.Merge.Sectors.{merge_sectors-Merged}
use starweld.Merge.Homes.{home, held, held_at}
use starweld.Merge.Parent.{IsValid, Kept}
use starweld.Merge.Place.{place-Stored, parent_block-held}

-- Byte `j` of a block after the merge, when the parent had `base` there.
abbrev pub child_byte : ℕ → ℕ → BlockRead → ℕ → ℕ → ℕ
child_byte bs ss absent j base = base
child_byte bs ss (full content) j base = byte content j
child_byte bs ss (partial payload bitmap) j base =
    if ltb (j / ss) (bs / ss) && bit_is_set bitmap (j / ss) then byte payload j else base

-- Whether the child has the block, in whole or in part.
abbrev pub has_data : BlockRead → Bool
has_data absent = false
has_data (full content) = true
has_data (partial payload bitmap) = true

-- The state after block `blk` is merged.
pub record Merged (bs ss : ℕ) (st : MergeState) (blk : ℕ) (read : BlockRead) (r : Result MergeState)
    : Type 0 where
  pub st' : MergeState
  pub returns : r ≡ ok st'
  pub valid : IsValid bs st'
  pub count : st'.parent_bat.block_count ≡ st.parent_bat.block_count
  pub contents :
      (k j : ℕ)
      → k < st.parent_bat.block_count
      → byte (held bs st' k) j ≡ (
          if blk == k
          then child_byte bs ss read j (byte (held bs st k) j)
          else byte (held bs st k) j)
  pub filled : has_data read ≡ true → (off : ℕ) × (home st' blk ≡ some off)
  pub kept :
      (k : ℕ)
      → k < st.parent_bat.block_count
      → (blk == k && has_data read) ≡ false
      → Kept bs st k st'
  pub bitmaps :
      (k : ℕ)
      → k < st.parent_bat.block_count
      → sector_bitmap_entry st'.parent_bat k ≡ sector_bitmap_entry st.parent_bat k
  pub outside :
      (a n : ℕ)
      → a + n ≤ st.payload_cursor
      → ((off : ℕ) → has_data read ≡ true → home st blk ≡ some off → (a + n ≤ off) ⊎ (off + bs ≤ a))
      → slice st'.parent_file a n ≡ slice st.parent_file a n
  pub cursor_grows : st.payload_cursor ≤ st'.payload_cursor
  pub cursor_after : st'.payload_cursor ≤ st.payload_cursor + bs

length-held : (bs : ℕ) (st : MergeState) (k : ℕ) → length (held bs st k) ≡ bs
length-held bs st k = go (home st k)
  where
    go : (o : Option ℕ) → length (held_at bs st.parent_file o) ≡ bs
    go none = length-zeros bs
    go (some off) = length-slice st.parent_file off bs

recount :
    (bs : ℕ) (st : MergeState) (n : ℕ)
    → IsValid bs st
    → IsValid bs (record st { partial_sectors_copied = n })
recount bs st n v = record {
  table = v.table;
  block_pos = v.block_pos;
  block_aligned = v.block_aligned;
  cursor_pos = v.cursor_pos;
  cursor_aligned = v.cursor_aligned;
  cursor_small = v.cursor_small;
  whole = v.whole;
  placed = v.placed;
  apart = v.apart;
}

module _ (bs ss : ℕ) (pos : 0 < ss) (st : MergeState) (v : IsValid bs st) (blk : ℕ)
    (hb : blk < st.parent_bat.block_count) (room : st.payload_cursor + bs < 2 ^ 64) where
  sectors_fit : (0 + bs / ss) * ss ≤ bs
  sectors_fit = omega (arith, div-add-mod bs ss, drop_zero)
    where
      drop_zero : (0 + bs / ss) * ss ≡ ss * (bs / ss)
      drop_zero = grind arith

  pub merge_block-Merged :
      (read : BlockRead)
      → HasSize bs read
      → Merged bs ss st blk read (merge_block bs ss st blk read)
  unfolding merge_block
  merge_block-Merged absent h = record {
    st' = st;
    returns = refl;
    valid = v;
    count = refl;
    contents = λ k j hk. ground arith;
    filled = λ h'. cc;
    kept = λ k hk h'. record { same_entry = refl; same_bytes = λ off e. refl };
    bitmaps = λ k hk. refl;
    outside = λ a n h' clear. refl;
    cursor_grows = omega arith;
    cursor_after = omega arith;
  }
  merge_block-Merged (full content) h =
      let at = place bs st (present_offset (parent_existing st.parent_bat blk)) in
      let s = place-Stored bs st v blk hb room content h in
      record {
        st' = store at.1 blk at.0 content;
        returns = refl;
        valid = s.valid;
        count = s.count;
        contents = λ k j hk. ap (λ x. byte x j) (s.contents k hk) ∙ ground arith;
        filled = λ h'. s.filled;
        kept = λ k hk h'. s.others k hk (ground arith);
        bitmaps = s.bitmaps;
        outside = λ a n h' clear. s.outside a n h' (λ off e. clear off refl e);
        cursor_grows = s.cursor_grows;
        cursor_after = s.cursor_after;
      }
  merge_block-Merged (partial payload bitmap) h =
      let before = held bs st blk in
      let old = length-held bs st blk in
      let at = place bs st (present_offset (parent_existing st.parent_bat blk)) in
      let m =
        merge_sectors-Merged ss pos bitmap payload 0 (bs / ss) before at.1.partial_sectors_copied
          (omega (arith, old, sectors_fit)) (omega (arith, h, sectors_fit)) in
      let s = place-Stored bs st v blk hb room m.out (m.size ∙ old) in
      record {
        st' = record (store at.1 blk at.0 m.out) { partial_sectors_copied = m.count };
        returns = rw (parent_block-held bs st v blk hb room, m.returns) refl;
        valid = recount bs (store at.1 blk at.0 m.out) m.count s.valid;
        count = s.count;
        contents = λ k j hk. ap (λ x. byte x j) (s.contents k hk) ∙ elim (Bool-cases (blk == k)) [
          | inl here ↦
              let same : blk ≡ k = ground arith in rw here (m.bytes j ∙ rw same (ground arith))
          | inr there ↦ rw there refl
        ];
        filled = λ h'. s.filled;
        kept = λ k hk h'.
            let was = s.others k hk (ground arith) in
            record { same_entry = was.same_entry; same_bytes = was.same_bytes };
        bitmaps = s.bitmaps;
        outside = λ a n h' clear. s.outside a n h' (λ off e. clear off refl e);
        cursor_grows = s.cursor_grows;
        cursor_after = s.cursor_after;
      }
