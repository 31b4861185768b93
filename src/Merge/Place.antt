-- ===== src/Merge/Place.antt =====
-- Where a block is written: at its place if the parent has it whole, or at the end of the file.
use starweld.Prelude.{ℕ, ◌+◌, ◌^◌, ◌≤◌, ◌<◌, ◌≡◌, refl, sym, ap, ◌∙◌, inl, inr, Option}
use starweld.Prelude.{none, some, length, ◌==◌, Bool-cases, wrap64, arith}
use starweld.Prelude.{mod-eq_of_lt, Option-cases, false, ==_refl}
use starweld.Prelude.Bytes.{Bytes, slice, slice_ext}
use starweld.Error.{ok}
use starweld.IoUtil.{File, set_len}
use starweld.IoUtil.Files.{length-set_len, byte-set_len, read_exact_at-ok}
use starweld.Merge.{MergeState, parent_existing, present_offset, place, store, parent_block}
use starweld.Merge.Homes.{home, held, held_at, home_aligned, home-spot, present_offset-home}
use starweld.Merge.Parent.{IsValid, Stored}
use starweld.Merge.Store.{Stored-store}

slice-set_len : (f : File) (n a m : ℕ) → a + m ≤ n → slice (set_len f n) a m ≡ slice f a m
slice-set_len f n a m h = slice_ext _ _ a a m (λ k lt. byte-set_len f n (a + k) ∙ ground arith)

module _ (bs : ℕ) (st : MergeState) (v : IsValid bs st) (blk : ℕ)
    (hb : blk < st.parent_bat.block_count) (room : st.payload_cursor + bs < 2 ^ 64) where
  plain : wrap64 (st.payload_cursor + bs) ≡ st.payload_cursor + bs
  plain = mod-eq_of_lt room

  abbrev placed : ℕ × MergeState
  placed = place bs st (present_offset (parent_existing st.parent_bat blk))

  pub place-Stored :
      (x : Bytes) → length x ≡ bs → Stored bs st blk x (store placed.1 blk placed.0 x)
  place-Stored x size = elim (Option-cases (home st blk)) [
    | inl missing ↦ rw (present_offset-home st blk ∙ missing) (
        unfold place in
        rw plain (
          Stored-store bs st v blk st.payload_cursor (st.payload_cursor + bs)
            (set_len st.parent_file (st.payload_cursor + bs)) hb v.cursor_aligned
            (omega (arith, v.cursor_pos)) (omega arith)
            (omega (arith, v.cursor_aligned, v.block_aligned)) room
            (length-set_len st.parent_file (st.payload_cursor + bs)) (omega arith) (omega arith)
            (λ a n h. slice-set_len st.parent_file (st.payload_cursor + bs) a n (omega arith))
            (λ k o hk differ e. inr (v.placed k o hk e)) (inr (omega arith)) x size))
    | inr (off, e) ↦
        let (aligned, ne) = home_aligned st blk off e in
        let there = home-spot st blk off e in
        let inside = v.placed blk off hb there in
        rw (present_offset-home st blk ∙ e) (
          unfold place in
          Stored-store bs st v blk off st.payload_cursor st.parent_file hb aligned ne inside
            v.cursor_aligned v.cursor_small v.whole (omega arith) (omega arith) (λ a n h. refl)
            (λ k o hk differ e'. v.apart blk k off o hb hk differ there e') (inl e) x size)
  ]

  at_place :
      (o : Option ℕ)
      → ((a : ℕ) → present_offset o ≡ some a → a + bs ≤ length st.parent_file)
      → parent_block bs
          (place bs st (present_offset o)).1.parent_file
          (place bs st (present_offset o)).0
          o
        ≡ ok (held_at bs st.parent_file (present_offset o))
  unfolding present_offset place parent_block
  at_place none h = refl
  at_place (some a) h = elim (Bool-cases (a == 0)) [
    | inl nowhere ↦
        let other : (a == st.payload_cursor) ≡ false = ground (arith, v.cursor_pos) in
        rw nowhere (rw other refl)
    | inr somewhere ↦
        rw somewhere
          (rw (==_refl a) (read_exact_at-ok st.parent_file a bs (h a (rw somewhere refl))))
  ]

  -- What a new place is filled with, and what an old one holds.
  pub parent_block-held :
      parent_block bs placed.1.parent_file placed.0 (parent_existing st.parent_bat blk)
      ≡ ok (held bs st blk)
  parent_block-held =
      at_place (parent_existing st.parent_bat blk) (λ a e. omega (
        arith,
        v.placed blk a hb (home-spot st blk a (sym (present_offset-home st blk) ∙ e)),
        v.whole,
      ))
      ∙ ap (λ o. ok (held_at bs st.parent_file o)) (present_offset-home st blk)
