-- ===== src/ZstWriter/TableSize.antt =====
-- How long the table is that is built before the blocks are streamed.
use starweld.Prelude.{
  ℕ, ◌+◌, ◌≡◌, refl, sym, ap, ◌∙◌, arith, Bool, true, false, List, [], ◌∷◌, length,
}
use starweld.Prelude.{length-replicate, replicate, length-set}
use starweld.Error.{ok, >>=-eq-ok}
use starweld.Format.{payload_block_zero, payload_block_fully_present}
use starweld.Bat.{
  Bat, BatEntry, empty_entry, new_entry, set_payload_entry, payload_index, total_bat_entries,
}
use starweld.ZstWriter.{place_blocks, take, build_bat_for_layout}

length-set_payload_entry :
    (bat : Bat) (blk : ℕ) (e : BatEntry)
    → length (set_payload_entry bat blk e).entries ≡ length bat.entries
unfolding set_payload_entry
length-set_payload_entry bat blk e =
    ground (arith, length-set bat.entries (payload_index blk bat.chunk_ratio) e)

length-place_blocks :
    (start bs : ℕ) (bat : Bat) (seq blk : ℕ) (bits : List Bool)
    → length (place_blocks start bs bat seq blk bits).0.entries ≡ length bat.entries
unfolding place_blocks
length-place_blocks start bs bat seq blk [] = refl
length-place_blocks start bs bat seq blk (true ∷ bits) =
    length-place_blocks start bs (set_payload_entry bat blk (new_entry payload_block_zero 0)) seq
      (blk + 1) bits
    ∙ length-set_payload_entry bat blk _
length-place_blocks start bs bat seq blk (false ∷ bits) =
    length-place_blocks start bs
      (set_payload_entry bat blk (new_entry payload_block_fully_present _)) (seq + 1) (blk + 1) bits
    ∙ length-set_payload_entry bat blk _

-- The table has the entries that were counted for it.
pub length-build_bat_for_layout :
    (bc cr : ℕ) (has_parent : Bool) (start bs m k : ℕ) (bits : List Bool) (bat : Bat)
    → total_bat_entries bc cr has_parent ≡ ok m
    → build_bat_for_layout bc cr has_parent start bs bits ≡ ok (bat, k)
    → length bat.entries ≡ m
unfolding build_bat_for_layout
length-build_bat_for_layout bc cr has_parent start bs m k bits bat total e =
    let (n, e1, e2) = >>=-eq-ok (total_bat_entries bc cr has_parent) _ e in
    let empty : Bat = record {
      entries = replicate n empty_entry;
      chunk_ratio = cr;
      block_count = bc;
    } in
    let built = place_blocks start bs empty 0 0 (take bc bits) in
    let same : built ≡ (bat, k) = cc in
    let counted : n ≡ m = cc in
    ap (λ (b : Bat × ℕ). length b.0.entries) (sym same)
    ∙ length-place_blocks start bs empty 0 0 (take bc bits)
    ∙ length-replicate n empty_entry
    ∙ counted
