-- ===== src/Merge/Loop.antt =====
-- The merge, block by block: what the parent holds afterwards.
use starweld.Prelude.{ℕ, ◌+◌, ◌≤◌, ◌<◌, ◌≡◌, ◌⊎◌, Bool}
use starweld.Prelude.{some, leb, ltb, ◌&&◌, if◌then◌else◌, true, false}
use starweld.Prelude.Bytes.{byte, slice}
use starweld.Error.{Result, ok}
use starweld.Bat.{sector_bitmap_entry}
use starweld.Disk.{BlockRead}
use starweld.Merge.{MergeState}
use starweld.Merge.Homes.{home, held}
use starweld.Merge.Parent.{IsValid, Kept}
use starweld.Merge.Block.{child_byte, has_data}

-- Whether block `k` is one of the `n` from `b` on and the child has it.
abbrev pub merged : ℕ → ℕ → (ℕ → BlockRead) → ℕ → Bool
merged b n g k = (leb b k && ltb k (b + n)) && has_data (g k)

-- Before the first block, and after `n` of them from `b` on, read from the child as `g` says.
pub record MergedRange (bs ss : ℕ) (st : MergeState) (b n : ℕ) (g : ℕ → BlockRead)
    (r : Result MergeState) : Type 0 where
  pub st' : MergeState
  pub returns : r ≡ ok st'
  pub valid : IsValid bs st'
  pub count : st'.parent_bat.block_count ≡ st.parent_bat.block_count
  pub contents :
      (k j : ℕ)
      → k < st.parent_bat.block_count
      → byte (held bs st' k) j ≡ (
          if leb b k && ltb k (b + n)
          then child_byte bs ss (g k) j (byte (held bs st k) j)
          else byte (held bs st k) j)
  pub filled :
      (k : ℕ)
      → k < st.parent_bat.block_count
      → merged b n g k ≡ true
      → (off : ℕ) × (home st' k ≡ some off)
  pub kept : (k : ℕ) → k < st.parent_bat.block_count → merged b n g k ≡ false → Kept bs st k st'
  pub bitmaps :
      (k : ℕ)
      → k < st.parent_bat.block_count
      → sector_bitmap_entry st'.parent_bat k ≡ sector_bitmap_entry st.parent_bat k
  pub outside :
      (a m : ℕ)
      → a + m ≤ st.payload_cursor
      → ((k off : ℕ)
          → k < st.parent_bat.block_count
          → merged b n g k ≡ true
          → home st k ≡ some off
          → (a + m ≤ off) ⊎ (off + bs ≤ a))
      → slice st'.parent_file a m ≡ slice st.parent_file a m
