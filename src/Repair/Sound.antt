-- ===== src/Repair/Sound.antt =====
-- What the check of the block allocation table finds.
use native.Mathlib.Nat.{mul-add-div_right, div-eq_of_lt, mod-eq-sub-mod, mod-eq_of_lt}
use native.Mathlib.Nat.{mul-add-mod_self_right, zero-add}
use starweld.Prelude.{ℕ, zero, suc, ◌+◌, ◌*◌, ◌/◌, ◌%◌, ◌≤◌, ◌<◌, ◌≡◌, ◌≢◌, refl, sym, ap, ◌∙◌}
use starweld.Prelude.{◌↔◌, List, [], ◌∷◌, ◌++◌, some, length, get_elem?, arith, Bool-cases}
use starweld.Prelude.{inl, inr, ◌==◌, wrap64, mod-lt, div-add-mod}
use starweld.Bat.{Bat, BatEntry, PayloadState, not_present, undefined, zero_block, unmapped}
use starweld.Bat.{fully_present, partially_present, other, from_raw, state, file_offset}
use starweld.Bat.{payload_entry, payload_index}
use starweld.Bat.Index.{max_block, payload_index_plain}
use starweld.Repair.Report.{state_issues, check_entries}

-- A block with data lies inside the file, behind its start; a state is a known one.
abbrev pub InFile : ℕ → ℕ → ℕ → PayloadState → Type 0
InFile bs file_len off fully_present = (off ≢ 0) × (wrap64 (off + bs) ≤ file_len)
InFile bs file_len off partially_present = (off ≢ 0) × (wrap64 (off + bs) ≤ file_len)
InFile bs file_len off (other s) = ⊥
InFile bs file_len off not_present = Unit {0}
InFile bs file_len off undefined = Unit {0}
InFile bs file_len off zero_block = Unit {0}
InFile bs file_len off unmapped = Unit {0}

abbrev pub EntryInFile : ℕ → ℕ → BatEntry → Type 0
EntryInFile bs file_len e = InFile bs file_len (file_offset e) (from_raw (state e))

state_issues_iff :
    (bs file_len b off : ℕ) (s : PayloadState)
    → (state_issues bs file_len b off s ≡ []) ↔ InFile bs file_len off s
unfolding state_issues
state_issues_iff bs file_len b off fully_present = (λ h. ground arith, λ h. ground arith)
state_issues_iff bs file_len b off partially_present = (λ h. ground arith, λ h. ground arith)
state_issues_iff bs file_len b off (other s) = (λ h. cc, λ h. absurd h)
state_issues_iff bs file_len b off not_present = (λ h. tt, λ h. refl)
state_issues_iff bs file_len b off undefined = (λ h. tt, λ h. refl)
state_issues_iff bs file_len b off zero_block = (λ h. tt, λ h. refl)
state_issues_iff bs file_len b off unmapped = (λ h. tt, λ h. refl)

append-nil_iff {ℓ} : {A : Type ℓ} (xs ys : List A) → (xs ++ ys ≡ []) ↔ ((xs ≡ []) × (ys ≡ []))
append-nil_iff [] ys = (λ h. (refl, h), λ h. h.1)
append-nil_iff (x ∷ xs) ys = (λ h. cc, λ h. cc)

module _ (ratio bs file_len : ℕ) where
  -- The entries from offset `c` of a chunk on: those that are not a sector bitmap's are in the file.
  abbrev AllInFile : List BatEntry → ℕ → Type 0
  AllInFile es c =
      (k : ℕ) (e : BatEntry)
      → get_elem? es k ≡ some e
      → (c + k) % (ratio + 1) ≢ ratio
      → EntryInFile bs file_len e

  wraps : (k : ℕ) → (ratio + suc k) % (ratio + 1) ≡ (0 + k) % (ratio + 1)
  wraps k = mod-eq-sub-mod (omega arith) ∙ ap (λ (n : ℕ). n % (ratio + 1)) (omega arith)

  stays : (c : ℕ) → c ≤ ratio → (c + 0) % (ratio + 1) ≡ c
  stays c h = mod-eq_of_lt (let lt : c + 0 < ratio + 1 = omega arith in lt) ∙ omega arith

  shifted : (c k : ℕ) → (c + suc k) % (ratio + 1) ≡ (c + 1 + k) % (ratio + 1)
  shifted c k = ap (λ (n : ℕ). n % (ratio + 1)) (omega arith)

  cons-AllInFile :
      (c : ℕ) (e : BatEntry) (es : List BatEntry)
      → EntryInFile bs file_len e
      → AllInFile es (c + 1)
      → AllInFile (e ∷ es) c
  cons-AllInFile c e es he h zero x found free = let same : e ≡ x = cc in rw (← same) he
  cons-AllInFile c e es he h (suc k) x found free = h k x found (λ q. free (shifted c k ∙ q))

  uncons-AllInFile :
      (c : ℕ) (e : BatEntry) (es : List BatEntry)
      → c < ratio
      → AllInFile (e ∷ es) c
      → EntryInFile bs file_len e × AllInFile es (c + 1)
  uncons-AllInFile c e es lt h = (
    h 0 e refl (λ q. omega (arith, stays c (omega arith))),
    λ k x found free. h (suc k) x found (λ q. free (sym (shifted c k) ∙ q)),
  )

  skip-AllInFile : (e : BatEntry) (es : List BatEntry) → AllInFile es 0 → AllInFile (e ∷ es) ratio
  skip-AllInFile e es h zero x found free = absurd (free (stays ratio (omega arith)))
  skip-AllInFile e es h (suc k) x found free = h k x found (λ q. free (wraps k ∙ q))

  unskip-AllInFile : (e : BatEntry) (es : List BatEntry) → AllInFile (e ∷ es) ratio → AllInFile es 0
  unskip-AllInFile e es h k x found free = h (suc k) x found (λ q. free (sym (wraps k) ∙ q))

  check_entries_iff :
      (es : List BatEntry) (c b : ℕ)
      → c ≤ ratio
      → (check_entries ratio bs file_len es c b ≡ []) ↔ AllInFile es c
  unfolding check_entries
  check_entries_iff [] c b h = (λ _ k e found free. cc, λ _. refl)
  check_entries_iff (e ∷ es) c b h = elim (Bool-cases (c == ratio)) [
    | inl at_bitmap ↦
        let here : c ≡ ratio = ground arith in
        let rest = check_entries_iff es 0 b (omega arith) in
        rw at_bitmap
          (rw here (λ q. skip-AllInFile e es (rest.0 q), λ q. rest.1 (unskip-AllInFile e es q)))
    | inr payload ↦
        let lt : c < ratio = ground arith in
        let rest = check_entries_iff es (c + 1) (b + 1) (omega arith) in
        let one = state_issues_iff bs file_len b (file_offset e) (from_raw (state e)) in
        let both =
          append-nil_iff (state_issues bs file_len b (file_offset e) (from_raw (state e)))
            (check_entries ratio bs file_len es (c + 1) (b + 1)) in
        rw payload (
          λ q. cons-AllInFile c e es (one.0 (both.0 q).0) (rest.0 (both.0 q).1),
          λ q. let parts = uncons-AllInFile c e es lt q in both.1 (one.1 parts.0, rest.1 parts.1),
        )
  ]

get_elem?-lt {ℓ} :
    {A : Type ℓ} (xs : List A) (k : ℕ) {x : A} → get_elem? xs k ≡ some x → k < length xs
get_elem?-lt [] k h = cc
get_elem?-lt (y ∷ xs) zero h = omega arith
get_elem?-lt (y ∷ xs) (suc k) h = omega (arith, get_elem?-lt xs k h)

module _ (ratio : ℕ) (pos : 0 < ratio) (small : ratio < max_block) where
  -- Where a block's entry stands in its chunk.
  offset_of : (b : ℕ) → b < max_block → payload_index b ratio % (ratio + 1) ≡ b % ratio
  offset_of b h =
      let lt : b % ratio < ratio + 1 = omega (arith, mod-lt b pos) in
      ap (λ (n : ℕ). n % (ratio + 1)) (payload_index_plain ratio pos small b h)
      ∙ mul-add-mod_self_right (b / ratio) (ratio + 1) (b % ratio)
      ∙ mod-eq_of_lt lt

  -- The block of an entry.
  block_of : ℕ → ℕ
  block_of k = k / (ratio + 1) * ratio + k % (ratio + 1)

  block_of_lem :
      (k : ℕ)
      → k < max_block
      → k % (ratio + 1) ≢ ratio
      → (block_of k < max_block) × (payload_index (block_of k) ratio ≡ k)
  unfolding block_of
  block_of_lem k h free =
      let q = k / (ratio + 1) in
      let o = k % (ratio + 1) in
      let lt : o < ratio + 1 = mod-lt k (omega arith) in
      let inner : o < ratio = omega arith in
      let parts = div-add-mod k (ratio + 1) in
      let no_rest : o / ratio ≡ 0 = div-eq_of_lt inner in
      let chunk : (q * ratio + o) / ratio ≡ q = mul-add-div_right pos q o ∙ omega arith in
      let offset : (q * ratio + o) % ratio ≡ o =
        mul-add-mod_self_right q ratio o ∙ mod-eq_of_lt inner in
      let within : q * ratio + o < max_block = omega arith in
      (
        within,
        payload_index_plain ratio pos small (q * ratio + o) within
            ∙ rw chunk (rw offset (omega arith)),
      )

-- In a table of at most max_block entries with a positive chunk ratio below max_block, the check
-- reports nothing exactly when the entry that payload_entry gives for each block below max_block
-- has a known state and, if it has data, an offset that is not zero and an end (computed in 64
-- bits) within the file.
pub check_entries-InFile :
    (bat : Bat) (bs file_len : ℕ)
    → 0 < bat.chunk_ratio
    → bat.chunk_ratio < max_block
    → length bat.entries ≤ max_block
    → (check_entries bat.chunk_ratio bs file_len bat.entries 0 0 ≡ []) ↔ (
        (b : ℕ) (e : BatEntry)
        → b < max_block
        → payload_entry bat b ≡ some e
        → EntryInFile bs file_len e)
unfolding payload_entry
check_entries-InFile bat bs file_len pos small long =
    let r = bat.chunk_ratio in
    let loop = check_entries_iff r bs file_len bat.entries 0 0 (omega arith) in
    (
      λ clean b e h found. loop.0 clean (payload_index b r) e found λ q. omega (
        arith,
        offset_of r pos small b h,
        mod-lt b pos,
        ap (λ (n : ℕ). n % (r + 1)) (zero-add (payload_index b r)),
      ),
      λ sound. loop.1 λ k e found free.
          let plain =
            block_of_lem r pos small k (omega (arith, get_elem?-lt bat.entries k found))
              (λ q. free (ap (λ (n : ℕ). n % (r + 1)) (zero-add k) ∙ q)) in
          sound (block_of r pos small k) e plain.0 (ap (get_elem? bat.entries) plain.1 ∙ found),
    )
