-- ===== src/Bat/Access.antt =====
-- Reading and overwriting entries of the table.
use starweld.Prelude.{ℕ, ◌<◌, ◌≡◌, sym, arith}
use starweld.Prelude.{some, ltb, ◌==◌, if◌then◌else◌, Bool-cases, inl, inr, lt→ltb, ==→≡}
use starweld.Prelude.{length, set, length-set, get_elem?-set_self, get_elem?-set_ne}
use starweld.Bat.{
  Bat, BatEntry, payload_index, sector_bitmap_index, payload_entry, set_payload_entry,
}
use starweld.Bat.{sector_bitmap_entry}
use starweld.Bat.Index.{max_block, payload_index_inj}

-- A table whose numbers are in range and which has a payload entry for each of its blocks.
pub record IsValid (b : Bat) : Type 0 where
  pub chunk_pos : 0 < b.chunk_ratio
  pub chunk_small : b.chunk_ratio < max_block
  pub blocks_small : b.block_count < max_block
  pub covers : (vb : ℕ) → vb < b.block_count → payload_index vb b.chunk_ratio < length b.entries

pub set_payload_entry-eq :
    (b : Bat) (vb : ℕ) (e : BatEntry)
    → payload_index vb b.chunk_ratio < length b.entries
    → set_payload_entry b vb e
      ≡ record b { entries = set b.entries (payload_index vb b.chunk_ratio) e }
unfolding set_payload_entry
set_payload_entry-eq b vb e h = rw (lt→ltb _ _ h)

-- In a table with numbers in range and an entry for each block, setting the payload entry of a
-- block changes what payload_entry gives for that block, for no other block, and no sector-bitmap
-- entry.
pub payload_entry-set :
    (b : Bat) (vb vb' : ℕ) (e : BatEntry)
    → IsValid b
    → vb < b.block_count
    → vb' < b.block_count
    → (payload_entry (set_payload_entry b vb e) vb'
        ≡ (if vb == vb' then some e else payload_entry b vb'))
      × (sector_bitmap_entry (set_payload_entry b vb e) vb' ≡ sector_bitmap_entry b vb')
unfolding payload_entry sector_bitmap_entry
payload_entry-set b vb vb' e v h h' =
    let inj =
      payload_index_inj b.chunk_ratio v.chunk_pos v.chunk_small vb vb' (omega arith)
        (omega arith) in
    let here = v.covers vb h in
    rw (set_payload_entry-eq b vb e here) (
      elim (Bool-cases (vb == vb')) [
        | inl same ↦ rw (same, sym (==→≡ _ _ same)) (get_elem?-set_self b.entries _ e here)
        | inr differs ↦ rw differs (
            get_elem?-set_ne b.entries (payload_index vb b.chunk_ratio)
              (payload_index vb' b.chunk_ratio) e (λ p. ground (arith, inj.0 p)))
      ],
      get_elem?-set_ne b.entries (payload_index vb b.chunk_ratio)
          (sector_bitmap_index vb' b.chunk_ratio) e inj.1,
    )

pub set_payload_entry-IsValid :
    (b : Bat) (vb : ℕ) (e : BatEntry) → IsValid b → IsValid (set_payload_entry b vb e)
unfolding set_payload_entry
set_payload_entry-IsValid b vb e v =
    elim (Bool-cases (ltb (payload_index vb b.chunk_ratio) (length b.entries))) [
      | inl t ↦ rw t (record {
        chunk_pos = v.chunk_pos;
        chunk_small = v.chunk_small;
        blocks_small = v.blocks_small;
        covers =
            λ k hk. rw (length-set b.entries (payload_index vb b.chunk_ratio) e) (v.covers k hk);
      })
      | inr f ↦ rw f v
    ]
