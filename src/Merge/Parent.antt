-- ===== src/Merge/Parent.antt =====
-- The parent under a merge: what holds of it between the rounds, and what a round keeps.
use starweld.Prelude.{ℕ, ◌+◌, ◌%◌, ◌^◌, ◌≤◌, ◌<◌, ◌≡◌, ◌≢◌, ◌⊎◌}
use starweld.Prelude.{some, length, ◌==◌, if◌then◌else◌}
use starweld.Prelude.{false}
use starweld.Prelude.Bytes.{Bytes, slice}
use starweld.Format.{mib}
use starweld.Bat.{payload_entry, sector_bitmap_entry}
use starweld.Bat.Access
use starweld.Merge.{MergeState}
use starweld.Merge.Homes.{home, spot, held}

-- The blocks that the parent has in whole or in part lie in the file, apart from each other, and
-- the file ends at the cursor.
pub record IsValid (bs : ℕ) (st : MergeState) : Type 0 where
  pub table : Access.IsValid st.parent_bat
  pub block_pos : 0 < bs
  pub block_aligned : bs % mib ≡ 0
  pub cursor_pos : 0 < st.payload_cursor
  pub cursor_aligned : st.payload_cursor % mib ≡ 0
  pub cursor_small : st.payload_cursor < 2 ^ 64
  pub whole : length st.parent_file ≡ st.payload_cursor
  pub placed :
      (k off : ℕ)
      → k < st.parent_bat.block_count
      → spot st k ≡ some off
      → off + bs ≤ st.payload_cursor
  pub apart :
      (k j off off' : ℕ)
      → k < st.parent_bat.block_count
      → j < st.parent_bat.block_count
      → k ≢ j
      → spot st k ≡ some off
      → spot st j ≡ some off'
      → (off + bs ≤ off') ⊎ (off' + bs ≤ off)

-- Block `k` is as it was: its entry, and its bytes if the parent has it in whole or in part.
pub record Kept (bs : ℕ) (st : MergeState) (k : ℕ) (st' : MergeState) : Type 0 where
  pub same_entry : payload_entry st'.parent_bat k ≡ payload_entry st.parent_bat k
  pub same_bytes :
      (off : ℕ) → spot st k ≡ some off → slice st'.parent_file off bs ≡ slice st.parent_file off bs

-- The parent with the content of block `blk` written, and all else as before.
pub record Stored (bs : ℕ) (st : MergeState) (blk : ℕ) (content : Bytes) (st' : MergeState)
    : Type 0 where
  pub valid : IsValid bs st'
  pub count : st'.parent_bat.block_count ≡ st.parent_bat.block_count
  pub contents :
      (k : ℕ)
      → k < st.parent_bat.block_count
      → held bs st' k ≡ (if blk == k then content else held bs st k)
  pub filled : (off : ℕ) × (home st' blk ≡ some off)
  pub others : (k : ℕ) → k < st.parent_bat.block_count → (blk == k) ≡ false → Kept bs st k st'
  pub bitmaps :
      (k : ℕ)
      → k < st.parent_bat.block_count
      → sector_bitmap_entry st'.parent_bat k ≡ sector_bitmap_entry st.parent_bat k
  pub outside :
      (a n : ℕ)
      → a + n ≤ st.payload_cursor
      → ((off : ℕ) → home st blk ≡ some off → (a + n ≤ off) ⊎ (off + bs ≤ a))
      → slice st'.parent_file a n ≡ slice st.parent_file a n
  pub cursor_grows : st.payload_cursor ≤ st'.payload_cursor
  pub cursor_after : st'.payload_cursor ≤ st.payload_cursor + bs
