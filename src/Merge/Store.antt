-- ===== src/Merge/Store.antt =====
-- What writing one block does to the parent under a merge.
use starweld.Prelude.{ℕ, ◌+◌, ◌%◌, ◌^◌, ◌≤◌, ◌<◌, ◌≡◌, ◌≢◌, refl, sym, ap, ◌∙◌, ◌⊎◌, inl, inr}
use starweld.Prelude.{Option, none, some, length, ◌==◌, if◌then◌else◌, Bool-cases, arith}
use starweld.Prelude.{true, false, ==_refl}
use starweld.Prelude.Bytes.{Bytes, slice}
use starweld.Format.{mib}
use starweld.IoUtil.{File, write_all_at}
use starweld.IoUtil.Files.{length-write_all_at, slice-write_self, slice-write_out}
use starweld.Bat.{payload_entry, sector_bitmap_entry}
use starweld.Bat.Access.{payload_entry-set, set_payload_entry-eq, set_payload_entry-IsValid}
use starweld.Merge.{MergeState, store}
use starweld.Merge.Homes.{home, spot, whole, located, held, held_at, home-spot, full_entry}
use starweld.Merge.Homes.{full_entry_home, full_entry_spot}
use starweld.Merge.Parent.{IsValid, Kept, Stored}

swap {ℓ κ} : {A : Type ℓ} {B : Type κ} → A ⊎ B → B ⊎ A
swap (inl a) = inr a
swap (inr b) = inl b

-- The state after the block is placed, and the place: the file `f` has grown to the cursor `c`.
module _ (bs : ℕ) (st : MergeState) (v : IsValid bs st) (blk off c : ℕ) (f : File)
    (hb : blk < st.parent_bat.block_count) (aligned : off % mib ≡ 0) (ne : off ≢ 0)
    (inside : off + bs ≤ c) (c_aligned : c % mib ≡ 0) (c_small : c < 2 ^ 64) (long : length f ≡ c)
    (grows : st.payload_cursor ≤ c) (near : c ≤ st.payload_cursor + bs)
    (same : (a n : ℕ) → a + n ≤ st.payload_cursor → slice f a n ≡ slice st.parent_file a n)
    (alone : (k o : ℕ)
      → k < st.parent_bat.block_count
      → blk ≢ k
      → spot st k ≡ some o
      → (off + bs ≤ o) ⊎ (o + bs ≤ off))
    (settled : (home st blk ≡ some off) ⊎ (st.payload_cursor ≤ off)) (x : Bytes)
    (size : length x ≡ bs) where
  abbrev placed_state : MergeState
  placed_state = record st { payload_cursor = c; parent_file = f }

  abbrev stored : MergeState
  stored = store placed_state blk off x

  count_after : stored.parent_bat.block_count ≡ st.parent_bat.block_count
  unfolding store
  count_after =
      ap (λ t. t.block_count)
        (set_payload_entry-eq st.parent_bat blk (full_entry off) (v.table.covers blk hb))

  entry_after :
      (k : ℕ)
      → k < st.parent_bat.block_count
      → payload_entry stored.parent_bat k
        ≡ (if blk == k then some (full_entry off) else payload_entry st.parent_bat k)
  unfolding store
  entry_after k h = (payload_entry-set st.parent_bat blk k (full_entry off) v.table hb h).0

  spot_after :
      (k : ℕ)
      → k < st.parent_bat.block_count
      → spot stored k ≡ (if blk == k then some off else spot st k)
  spot_after k h = ap located (entry_after k h) ∙ elim (Bool-cases (blk == k)) [
    | inl here ↦ rw here (full_entry_spot off aligned (omega arith) ne)
    | inr there ↦ rw there refl
  ]

  home_after :
      (k : ℕ)
      → k < st.parent_bat.block_count
      → home stored k ≡ (if blk == k then some off else home st k)
  home_after k h = ap whole (entry_after k h) ∙ elim (Bool-cases (blk == k)) [
    | inl here ↦ rw here (full_entry_home off aligned (omega arith) ne)
    | inr there ↦ rw there refl
  ]

  cursor_after : stored.payload_cursor ≡ c
  unfolding store
  cursor_after = refl

  length_after : length stored.parent_file ≡ c
  unfolding store
  length_after =
      length-write_all_at f off x (omega (arith, size, v.block_pos)) ∙ omega (arith, size)

  -- The others are where they were.
  spot_other :
      (k o : ℕ)
      → k < st.parent_bat.block_count
      → spot stored k ≡ some o
      → (blk == k) ≡ false
      → spot st k ≡ some o
  spot_other k o h e there =
      sym (spot_after k h ∙ ap (λ t. if t then some off else spot st k) there) ∙ e

  spot_self :
      (k o : ℕ)
      → k < st.parent_bat.block_count
      → spot stored k ≡ some o
      → (blk == k) ≡ true
      → off ≡ o
  spot_self k o h e here =
      let moved : spot stored k ≡ some off =
        spot_after k h ∙ ap (λ t. if t then some off else spot st k) here in
      cc

  apart_after :
      (k j o o' : ℕ)
      → k < st.parent_bat.block_count
      → j < st.parent_bat.block_count
      → k ≢ j
      → spot stored k ≡ some o
      → spot stored j ≡ some o'
      → (o + bs ≤ o') ⊎ (o' + bs ≤ o)
  apart_after k j o o' hk hj differ ek ej = elim (Bool-cases (blk == k)) [
    | inl k_here ↦ elim (Bool-cases (blk == j)) [
      | inl j_here ↦ absurd (differ (ground arith))
      | inr j_there ↦
          rw (← spot_self k o hk ek k_here)
            (alone j o' hj (ground arith) (spot_other j o' hj ej j_there))
    ]
    | inr k_there ↦ elim (Bool-cases (blk == j)) [
      | inl j_here ↦
          rw (← spot_self j o' hj ej j_here)
            (swap (alone k o hk (ground arith) (spot_other k o hk ek k_there)))
      | inr j_there ↦
          v.apart k j o o' hk hj differ (spot_other k o hk ek k_there)
            (spot_other j o' hj ej j_there)
    ]
  ]

  spot_kept :
      (k o : ℕ)
      → k < st.parent_bat.block_count
      → (blk == k) ≡ false
      → spot st k ≡ some o
      → slice stored.parent_file o bs ≡ slice st.parent_file o bs
  unfolding store
  spot_kept k o h there e =
      slice-write_out f off x o bs (elim (alone k o h (ground arith) e) [
        | inl before ↦ inr (omega (arith, size))
        | inr after ↦ inl after
      ])
      ∙ same o bs (v.placed k o h e)

  home_kept :
      (k : ℕ) (o : Option ℕ)
      → k < st.parent_bat.block_count
      → (blk == k) ≡ false
      → home st k ≡ o
      → held_at bs stored.parent_file o ≡ held_at bs st.parent_file o
  home_kept k none h there e = refl
  home_kept k (some o) h there e = spot_kept k o h there (home-spot st k o e)

  contents_after :
      (k : ℕ)
      → k < st.parent_bat.block_count
      → held bs stored k ≡ (if blk == k then x else held bs st k)
  contents_after k h =
      ap (held_at bs stored.parent_file) (home_after k h) ∙ elim (Bool-cases (blk == k)) [
        | inl here ↦ rw here (
            unfold store in
            (ap (slice (write_all_at f off x) off) (sym size) ∙ slice-write_self f off x))
        | inr there ↦ rw there (home_kept k (home st k) h there refl)
      ]

  others_after : (k : ℕ) → k < st.parent_bat.block_count → (blk == k) ≡ false → Kept bs st k stored
  others_after k h there = record {
    same_entry = entry_after k h ∙ rw there refl;
    same_bytes = λ o e. spot_kept k o h there e;
  }

  bitmaps_after :
      (k : ℕ)
      → k < st.parent_bat.block_count
      → sector_bitmap_entry stored.parent_bat k ≡ sector_bitmap_entry st.parent_bat k
  unfolding store
  bitmaps_after k h = (payload_entry-set st.parent_bat blk k (full_entry off) v.table hb h).1

  outside_after :
      (a n : ℕ)
      → a + n ≤ st.payload_cursor
      → ((o : ℕ) → home st blk ≡ some o → (a + n ≤ o) ⊎ (o + bs ≤ a))
      → slice stored.parent_file a n ≡ slice st.parent_file a n
  unfolding store
  outside_after a n h clear =
      slice-write_out f off x a n (elim settled [
        | inl e ↦ elim (clear off e) [
          | inl before ↦ inl before
          | inr after ↦ inr (omega (arith, size))
        ]
        | inr fresh ↦ inl (omega arith)
      ])
      ∙ same a n h

  pub Stored-store : Stored bs st blk x stored
  Stored-store = record {
    valid = record {
      table = unfold store in set_payload_entry-IsValid st.parent_bat blk (full_entry off) v.table;
      block_pos = v.block_pos;
      block_aligned = v.block_aligned;
      cursor_pos = rw cursor_after (omega (arith, v.cursor_pos));
      cursor_aligned = rw cursor_after c_aligned;
      cursor_small = rw cursor_after c_small;
      whole = length_after ∙ sym cursor_after;
      placed = λ k o h e. rw cursor_after (elim (Bool-cases (blk == k)) [
        | inl here ↦ omega (arith, spot_self k o (omega (arith, count_after)) e here)
        | inr there ↦ omega (
          arith,
          v.placed k o (omega (arith, count_after))
              (spot_other k o (omega (arith, count_after)) e there),
        )
      ]);
      apart = λ k j o o' hk hj differ ek ej.
          apart_after k j o o' (omega (arith, hk, count_after)) (omega (arith, hj, count_after))
            differ ek ej;
    };
    count = count_after;
    contents = contents_after;
    filled = (off, home_after blk hb ∙ rw (==_refl blk) refl);
    others = others_after;
    bitmaps = bitmaps_after;
    outside = outside_after;
    cursor_grows = rw cursor_after grows;
    cursor_after = rw cursor_after near;
  }
