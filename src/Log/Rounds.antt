-- ===== src/Log/Rounds.antt =====
-- The fuel of the loops of the log.
use starweld.Prelude.{ℕ, zero, suc, ◌+◌, ◌*◌, ◌%◌, ◌≤◌, ◌<◌, ◌≡◌, refl, sym, ◌∙◌, true, ◌||◌, not}
use starweld.Prelude.{
  length, ltb, lt→ltb, ◌==◌, if◌then◌else◌, arith, Bool-cases, inl, inr, List, [],
}
use starweld.Prelude.Bytes.{Bytes, slice, bytes_eq}
use starweld.Prelude.Le.{get_le}
use starweld.Externals.{Externals, Uuid}
use starweld.Error.{Result, ok, ◌>>=◌}
use starweld.Format.{log_sector_size, log_entry_signature}
use starweld.Log.Entry.{LogEntry, skip_sectors, first_data_sector, parse_entry}
use starweld.Log.Scan.{collect, linear, prepend_parsed}

skip_sectors-Reaches :
    (fuel end off : ℕ)
    → end ≤ off + fuel * 4096
    → off % 4096 ≡ 0
    → (end ≤ skip_sectors fuel end off) × (skip_sectors fuel end off % 4096 ≡ 0)
unfolding skip_sectors
skip_sectors-Reaches zero end off h a = (omega arith, a)
skip_sectors-Reaches (suc fuel) end off h a =
    let rest = skip_sectors-Reaches fuel end (off + 4096) in ground (arith, rest)

-- The data sectors begin behind the descriptors, at a multiple of a sector.
pub first_data_sector_lem :
    (descriptor_count : ℕ)
    → (64 + descriptor_count * 32 ≤ first_data_sector descriptor_count)
      × (first_data_sector descriptor_count % log_sector_size ≡ 0)
unfolding first_data_sector
first_data_sector_lem n = skip_sectors-Reaches n (64 + n * 32) 4096 (omega arith) refl

module _ ⦃ext : Externals⦄ (buf : Bytes) (log_guid : Uuid) where
  -- One round of the first pass, `rest` being the others.
  abbrev round : (ℕ → Result (List (ℕ × LogEntry))) → ℕ → Result (List (ℕ × LogEntry))
  round rest cursor =
      let n = get_le 4 buf (cursor + 8) in
      if ltb (length buf) (cursor + log_sector_size)
      then ok []
      else if not (bytes_eq (slice buf cursor 4) log_entry_signature)
      then rest (cursor + log_sector_size)
      else if n == 0 || not (n % log_sector_size == 0)
      then rest (cursor + log_sector_size)
      else linear buf cursor n >>= λ bytes.
          rest (cursor + n) >>= λ es. ok (prepend_parsed cursor (parse_entry bytes log_guid) es)

  collect-round :
      (fuel cursor : ℕ)
      → collect (suc fuel) buf log_guid cursor ≡ round (collect fuel buf log_guid) cursor
  unfolding collect
  collect-round fuel cursor = refl

  round_same :
      (f g : ℕ → Result (List (ℕ × LogEntry))) (cursor : ℕ)
      → ((c : ℕ) → cursor < c → f c ≡ g c)
      → round f cursor ≡ round g cursor
  round_same f g cursor h =
      let n = get_le 4 buf (cursor + 8) in
      let skipped : f (cursor + log_sector_size) ≡ g (cursor + log_sector_size) =
        h _ (omega arith) in
      rw skipped (elim (Bool-cases (n == 0 || not (n % log_sector_size == 0))) [
        | inl odd ↦ rw odd refl
        | inr even ↦
            let taken : f (cursor + n) ≡ g (cursor + n) = h _ (ground arith) in rw taken refl
      ])

  -- More rounds than the rest of the log has bytes change nothing.
  pub collect_enough :
      (fuel cursor : ℕ)
      → length buf ≤ cursor + fuel
      → collect (suc fuel) buf log_guid cursor ≡ collect fuel buf log_guid cursor
  collect_enough zero cursor h =
      let past : ltb (length buf) (cursor + log_sector_size) ≡ true = lt→ltb _ _ (omega arith) in
      unfold collect in rw past refl
  collect_enough (suc fuel) cursor h =
      collect-round (suc fuel) cursor
      ∙ round_same _ _ cursor (λ c later. collect_enough fuel c (omega arith))
      ∙ sym (collect-round fuel cursor)
