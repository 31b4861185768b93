-- ===== src/ZstWriter/Table.antt =====
-- The table that is built before the blocks are streamed.
use starweld.Prelude.{
  ℕ, zero, suc, ◌+◌, ◌*◌, ◌/◌, ◌%◌, ◌^◌, ◌≤◌, ◌<◌, ◌≡◌, refl, ap, ◌∙◌, arith, Bool, true, false,
}
use starweld.Prelude.{
  Option, some, List, [], ◌∷◌, length, length-replicate, replicate, ◌==◌, if◌then◌else◌, wrap64,
  ==_refl,
}
use starweld.Error.{ok}
use starweld.Format.{mib, payload_block_zero, payload_block_fully_present}
use starweld.Bat.{
  Bat, BatEntry, empty_entry, new_entry, state, file_offset, payload_entry, set_payload_entry,
  from_raw, fully_present, zero_block, total_bat_entries,
}
use starweld.Bat.Entry.{new_entry_fields}
use starweld.Bat.Index.{max_block, total_plain, total_bat_entries_covers}
use starweld.Bat.Access.{
  IsValid, payload_entry-set, set_payload_entry-eq, set_payload_entry-IsValid,
}
use starweld.ZstWriter.{place_blocks, take, build_bat_for_layout}

abbrev pub IsZeroEntry : Option BatEntry → Type 0
IsZeroEntry o = (e : BatEntry) × (o ≡ some e) × (from_raw (state e) ≡ zero_block)

abbrev pub IsBlockAt : Option BatEntry → ℕ → Type 0
IsBlockAt o off =
    (e : BatEntry) × (o ≡ some e) × (from_raw (state e) ≡ fully_present) × (file_offset e ≡ off)

-- From block `blk` on, a block whose bit is set is a zero block, and the others stand one behind the
-- other, the first at place `seq`.
abbrev pub Placed : Bat → ℕ → ℕ → ℕ → ℕ → List Bool → Type 0
Placed bat start bs seq blk [] = Unit
Placed bat start bs seq blk (true ∷ bits) =
    IsZeroEntry (payload_entry bat blk) × Placed bat start bs seq (blk + 1) bits
Placed bat start bs seq blk (false ∷ bits) =
    IsBlockAt (payload_entry bat blk) (start + seq * bs)
    × Placed bat start bs (seq + 1) (blk + 1) bits

abbrev pub non_zero : List Bool → ℕ
non_zero [] = 0
non_zero (true ∷ bits) = non_zero bits
non_zero (false ∷ bits) = suc (non_zero bits)

record Built (bat : Bat) (start bs seq blk : ℕ) (bits : List Bool) (r : Bat × ℕ) : Type 0 where
  placed : Placed r.0 start bs seq blk bits
  before : (k : ℕ) → k < blk → payload_entry r.0 k ≡ payload_entry bat k
  counted : r.1 ≡ seq + non_zero bits

module _ (start bs : ℕ) (start_aligned : start % mib ≡ 0) (bs_aligned : bs % mib ≡ 0) where
  block_place :
      (seq : ℕ)
      → start + seq * bs < 2 ^ 64
      → (wrap64 (start + wrap64 (seq * bs)) ≡ start + seq * bs) × ((start + seq * bs) % mib ≡ 0)
  block_place seq h =
      let parts : bs ≡ bs / mib * mib = omega arith in
      let product : seq * bs ≡ seq * (bs / mib) * mib =
        ap (λ (t : ℕ). seq * t) parts ∙ grind arith in
      (omega arith, omega (arith, product))

  -- What one entry that is set contributes.
  set_step :
      (bat : Bat) (blk : ℕ) (e : BatEntry) (after : Bat)
      → IsValid bat
      → blk < bat.block_count
      → ((k : ℕ)
          → k < blk + 1
          → payload_entry after k ≡ payload_entry (set_payload_entry bat blk e) k)
      → (payload_entry after blk ≡ some e)
        × ((k : ℕ) → k < blk → payload_entry after k ≡ payload_entry bat k)
  set_step bat blk e after v h same = (
    same blk (omega arith)
        ∙ (payload_entry-set bat blk blk e v h h).0
        ∙ ap (λ b. if b then some e else payload_entry bat blk) (==_refl blk),
    λ k hk.
        let other : (blk == k) ≡ false = ground (arith, hk) in
        same k (omega arith)
        ∙ (payload_entry-set bat blk k e v h (omega arith)).0
        ∙ ap (λ b. if b then some e else payload_entry bat k) other,
  )

  more :
      (seq n : ℕ)
      → start + (seq + suc n) * bs < 2 ^ 64
      → (start + seq * bs < 2 ^ 64) × (start + (seq + 1 + n) * bs < 2 ^ 64)
  more seq n h =
      let split : (seq + suc n) * bs ≡ seq * bs + suc n * bs = grind arith in
      let next : (seq + suc n) * bs ≡ (seq + 1 + n) * bs = ap (λ (t : ℕ). t * bs) (omega arith) in
      (omega (arith, h, split), omega (arith, h, next))

  count_same :
      (bat : Bat) (blk : ℕ) (e : BatEntry)
      → IsValid bat
      → blk < bat.block_count
      → (set_payload_entry bat blk e).block_count ≡ bat.block_count
  count_same bat blk e v h =
      ap (λ t. t.block_count) (set_payload_entry-eq bat blk e (v.covers blk h))

  place_blocks-Built :
      (bits : List Bool) (bat : Bat) (seq blk : ℕ)
      → IsValid bat
      → blk + length bits ≤ bat.block_count
      → start + (seq + length bits) * bs < 2 ^ 64
      → Built bat start bs seq blk bits (place_blocks start bs bat seq blk bits)
  unfolding place_blocks
  place_blocks-Built [] bat seq blk v hb hs = record {
    placed = tt;
    before = λ k h. refl;
    counted = omega arith;
  }
  place_blocks-Built (true ∷ bits) bat seq blk v hb hs =
      let e = new_entry payload_block_zero 0 in
      let count = count_same bat blk e v (omega arith) in
      let fewer : (seq + length bits) * bs ≤ (seq + suc (length bits)) * bs = grind arith in
      let rest =
        place_blocks-Built bits (set_payload_entry bat blk e) seq (blk + 1)
          (set_payload_entry-IsValid bat blk e v) (omega (arith, count, hb))
          (omega (arith, hs, fewer)) in
      let (here, before) = set_step bat blk e _ v (omega arith) rest.before in
      record {
        placed = ((e, here, (unfold from_raw state new_entry in refl)), rest.placed);
        before = before;
        counted = rest.counted;
      }
  place_blocks-Built (false ∷ bits) bat seq blk v hb hs =
      let (place, aligned) = block_place seq (more seq (length bits) hs).0 in
      let e = new_entry payload_block_fully_present (start + seq * bs) in
      let count = count_same bat blk e v (omega arith) in
      let (is_state, is_off, _) =
        new_entry_fields 6 (start + seq * bs) (omega arith) aligned (more seq (length bits) hs).0 in
      let rest =
        place_blocks-Built bits (set_payload_entry bat blk e) (seq + 1) (blk + 1)
          (set_payload_entry-IsValid bat blk e v) (omega (arith, count, hb))
          (more seq (length bits) hs).1 in
      let (here, before) = set_step bat blk e _ v (omega arith) rest.before in
      rw place (record {
        placed =
            ((e, here, (ap from_raw is_state ∙ (unfold from_raw in refl)), is_off), rest.placed);
        before = before;
        counted = omega (arith, rest.counted);
      })

take_all : (bits : List Bool) → take (length bits) bits ≡ bits
unfolding take
take_all [] = refl
take_all (b ∷ bits) = ap (λ t. b ∷ t) (take_all bits)

module _ (cr : ℕ) (pos : 0 < cr) (small : cr < max_block) where
  pub total-ok :
      (bc : ℕ) (has_parent : Bool)
      → bc < max_block
      → (n : ℕ) × (total_bat_entries bc cr has_parent ≡ ok n)
  total-ok zero has_parent h = (0, unfold total_bat_entries in refl)
  total-ok (suc bc) has_parent h = (_, total_plain cr pos small (suc bc) has_parent (omega arith) h)

  -- With one bit for each block, a positive chunk ratio below 2^62, offsets and block sizes that
  -- are multiples of 1 MiB and blocks that end within 64 bits, build_bat_for_layout succeeds with
  -- the number of non-zero blocks and a table in which a block whose bit is set is a zero block
  -- and the others are fully present, one behind the other from the start of the payload on.
  pub build_bat_for_layout-Placed :
      (start bs : ℕ) (has_parent : Bool) (bits : List Bool)
      → start % mib ≡ 0
      → bs % mib ≡ 0
      → length bits < max_block
      → start + length bits * bs < 2 ^ 64
      → (bat : Bat) × (build_bat_for_layout (length bits) cr has_parent start bs bits
          ≡ ok (bat, non_zero bits))
        × Placed bat start bs 0 0 bits
  unfolding build_bat_for_layout
  build_bat_for_layout-Placed start bs has_parent bits sa ba few room =
      let (n, total) = total-ok (length bits) has_parent few in
      let empty : Bat = record {
        entries = replicate n empty_entry;
        chunk_ratio = cr;
        block_count = length bits;
      } in
      let valid : IsValid empty = record {
        chunk_pos = pos;
        chunk_small = small;
        blocks_small = few;
        covers = λ vb h. omega (
          arith,
          length-replicate n empty_entry,
          (total_bat_entries_covers cr pos small (length bits) n vb has_parent few total h).0,
        );
      } in
      let b = place_blocks-Built start bs sa ba bits empty 0 0 valid (omega arith) (omega arith) in
      let built = place_blocks start bs empty 0 0 bits in
      let counted : built.1 ≡ non_zero bits = omega (arith, b.counted) in
      (built.0, rw (total, take_all bits) (ap (λ (c : ℕ). ok (built.0, c)) counted), b.placed)
