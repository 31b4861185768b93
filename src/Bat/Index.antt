-- ===== src/Bat/Index.antt =====
-- Where the entries of a block stand in the table.
use starweld.Prelude.{ℕ, ◌+◌, ◌-◌, ◌*◌, ◌/◌, ◌%◌, ◌^◌, ◌≤◌, ◌<◌, ◌≡◌, ◌≢◌, arith}
use starweld.Prelude.{sym, ap, ◌∙◌, Bool, true, false, if◌then◌else◌, div-add-mod, mod-lt}
use starweld.Prelude.{mod-eq_of_lt}
use native.Mathlib.Nat.{mul-add-div_right, div-eq_of_lt, div-le_self}
use starweld.Error.{ok}
use starweld.Bat.{payload_index, sector_bitmap_index, total_bat_entries}

-- Blocks and chunk ratios below this bound keep all index sums within 64 bits.
abbrev pub max_block : ℕ
max_block = 2 ^ 62

module _ (cr : ℕ) (pos : 0 < cr) (small : cr < max_block) where
  parts : (vb : ℕ) → (cr * (vb / cr) + vb % cr ≡ vb) × (vb / cr ≤ vb) × (vb % cr < cr)
  parts vb = (div-add-mod vb cr, div-le_self vb cr, mod-lt vb pos)

  pub payload_index_plain :
      (vb : ℕ) → vb < max_block → payload_index vb cr ≡ vb / cr * (cr + 1) + vb % cr
  unfolding payload_index
  payload_index_plain vb h = mod-eq_of_lt (omega (arith, parts vb))

  pub sector_bitmap_index_plain :
      (vb : ℕ) → vb < max_block → sector_bitmap_index vb cr ≡ vb / cr * (cr + 1) + cr
  unfolding sector_bitmap_index
  sector_bitmap_index_plain vb h = mod-eq_of_lt (omega (arith, parts vb))

  chunk_of : (c o : ℕ) → o < cr + 1 → (c * (cr + 1) + o) / (cr + 1) ≡ c
  chunk_of c o h =
      let rest : o / (cr + 1) ≡ 0 = div-eq_of_lt h in
      mul-add-div_right (omega arith) c o ∙ omega (arith, rest)

  -- Two places of the table are equal only if chunk and offset are.
  place_inj :
      (c c' o o' : ℕ)
      → o < cr + 1
      → o' < cr + 1
      → c * (cr + 1) + o ≡ c' * (cr + 1) + o'
      → (c ≡ c') × (o ≡ o')
  place_inj c c' o o' h h' e =
      let chunks : c ≡ c' =
        sym (chunk_of c o h) ∙ ap (λ (t : ℕ). t / (cr + 1)) e ∙ chunk_of c' o' h' in
      (chunks, omega (arith, e, ap (λ (t : ℕ). t * (cr + 1)) chunks))

  -- No two blocks share a payload entry, and no payload entry is a sector-bitmap entry.
  pub payload_index_inj :
      (vb vb' : ℕ)
      → vb < max_block
      → vb' < max_block
      → (payload_index vb cr ≡ payload_index vb' cr → vb ≡ vb')
        × (payload_index vb cr ≢ sector_bitmap_index vb' cr)
  payload_index_inj vb vb' h h' = (
    λ e. same (
        place_inj (vb / cr) (vb' / cr) (vb % cr) (vb' % cr) (omega (arith, parts vb))
          (omega (arith, parts vb'))
          (sym (payload_index_plain vb h) ∙ e ∙ payload_index_plain vb' h')),
    λ e. ⊥_of (
        place_inj (vb / cr) (vb' / cr) (vb % cr) cr (omega (arith, parts vb)) (omega arith)
          (sym (payload_index_plain vb h) ∙ e ∙ sector_bitmap_index_plain vb' h')),
  )
    where
      same : (vb / cr ≡ vb' / cr) × (vb % cr ≡ vb' % cr) → vb ≡ vb'
      same (ec, eo) =
          omega (arith, div-add-mod vb cr, div-add-mod vb' cr, ap (λ (t : ℕ). cr * t) ec)

      ⊥_of : (vb / cr ≡ vb' / cr) × (vb % cr ≡ cr) → ⊥
      ⊥_of (ec, eo) = absurd (omega (arith, mod-lt vb pos))

  -- The last block bounds the place of every block.
  block_before_last :
      (vb bc : ℕ)
      → vb < bc
      → vb / cr * (cr + 1) + vb % cr ≤ (bc - 1) / cr * (cr + 1) + (bc - 1) % cr
  block_before_last vb bc h = grind (arith, parts vb, parts (bc - 1))

  pub total_plain :
      (bc : ℕ) (has_parent : Bool)
      → 0 < bc
      → bc < max_block
      → total_bat_entries bc cr has_parent
        ≡ ok ((bc - 1) / cr * (cr + 1) + (if has_parent then cr else (bc - 1) % cr) + 1)
  unfolding total_bat_entries
  total_plain bc true h hb = ground (arith, parts (bc - 1), in_range)
    where
      in_range : (bc - 1) / cr * (cr + 1) + cr + 1 < 2 ^ 64
      in_range = omega (arith, parts (bc - 1))
  total_plain bc false h hb = ground (arith, parts (bc - 1))

  -- For a positive chunk ratio and a block count, both below 2^62, a table with as many entries
  -- as total_bat_entries gives contains the payload entry of every block, with a parent also
  -- every sector-bitmap entry, and without one it ends with the last block's payload entry.
  pub total_bat_entries_covers :
      (bc n vb : ℕ) (has_parent : Bool)
      → bc < max_block
      → total_bat_entries bc cr has_parent ≡ ok n
      → vb < bc
      → (payload_index vb cr < n)
        × (has_parent ≡ true → sector_bitmap_index vb cr < n)
        × (has_parent ≡ false → n ≡ payload_index (bc - 1) cr + 1)
  total_bat_entries_covers bc n vb has_parent hb e h = ground (
    arith,
    total_plain bc has_parent (omega arith) hb,
    block_before_last vb bc h,
    chunk_before_last,
    parts vb,
    parts (bc - 1),
    payload_index_plain vb (omega arith),
    sector_bitmap_index_plain vb (omega arith),
    payload_index_plain (bc - 1) (omega arith),
  )
    where
      chunk_before_last : vb / cr * (cr + 1) ≤ (bc - 1) / cr * (cr + 1)
      chunk_before_last = grind (arith, parts vb, parts (bc - 1))
