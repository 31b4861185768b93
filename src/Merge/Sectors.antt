-- ===== src/Merge/Sectors.antt =====
-- The loop over the sectors of a block that the child has in part.
use native.Mathlib.Nat.{mul-add-div_right, div-eq_of_lt}
use starweld.Prelude.{ℕ, zero, suc, ◌+◌, ◌-◌, ◌*◌, ◌/◌, ◌%◌, ◌≤◌, ◌<◌, ◌≡◌, refl, sym, ap, ◌∙◌}
use starweld.Prelude.{
  ◌&&◌, length, ltb, leb, ◌==◌, if◌then◌else◌, arith, Bool-cases, inl, inr, le→leb,
}
use starweld.Prelude.{div-add-mod, mod-lt, true, false}
use starweld.Prelude.Bytes.{Bytes, byte, slice, splice, length-splice, length-slice, byte-splice}
use starweld.Prelude.Bytes.{byte-slice}
use starweld.Error.{Result, ok}
use starweld.Prelude.Products.{sector_le}
use starweld.Disk.{bit_is_set}
use starweld.Merge.{merge_sectors}

module _ (ss : ℕ) (pos : 0 < ss) where
  in_sector : (s j : ℕ) → j / ss ≡ s → (s * ss ≤ j) × (j < s * ss + ss)
  in_sector s j e =
      let parts : ss * s + j % ss ≡ j = rw (← e) (div-add-mod j ss) in omega (arith, mod-lt j pos)

  of_sector : (s j : ℕ) → s * ss ≤ j → j < s * ss + ss → j / ss ≡ s
  of_sector s j lo hi =
      let no_rest : (j - s * ss) / ss ≡ 0 =
        div-eq_of_lt (let lt : j - s * ss < ss = omega arith in lt) in
      let here : s * ss + (j - s * ss) ≡ j = omega arith in
      ap (λ (n : ℕ). n / ss) (sym here) ∙ mul-add-div_right pos s (j - s * ss) ∙ omega arith

  -- Sector `s` of the block is overwritten by that of the payload.
  byte-sector :
      (block payload : Bytes) (s j : ℕ)
      → s * ss + ss ≤ length block
      → byte (splice block (s * ss) (slice payload (s * ss) ss)) j
        ≡ (if j / ss == s then byte payload j else byte block j)
  byte-sector block payload s j h =
      let lo = s * ss in
      byte-splice block lo (slice payload lo ss) j (omega (arith, length-slice payload lo ss))
      ∙ ground (
        arith,
        length-slice payload lo ss,
        byte-slice payload lo ss (j - lo),
        in_sector s j,
        of_sector s j,
      )

  pub record Merged (bitmap payload : Bytes) (s n : ℕ) (block : Bytes) (r : Result (Bytes × ℕ))
      : Type 0 where
    pub out : Bytes
    pub count : ℕ
    pub returns : r ≡ ok (out, count)
    pub size : length out ≡ length block
    pub bytes :
        (j : ℕ)
        → byte out j ≡ (
            if leb s (j / ss) && ltb (j / ss) (s + n) && bit_is_set bitmap (j / ss)
            then byte payload j
            else byte block j)

  sector_fits : (s n : ℕ) → s * ss + ss ≤ (s + suc n) * ss
  sector_fits s n = sector_le ss s (s + suc n) (omega arith)

  step :
      (bitmap : Bytes) (s n j taken kept next : ℕ)
      → next ≡ (if j / ss == s then taken else kept)
      → bit_is_set bitmap s ≡ true
      → (if leb (s + 1) (j / ss) && ltb (j / ss) (s + 1 + n) && bit_is_set bitmap (j / ss)
          then taken
          else next)
        ≡ (if leb s (j / ss) && ltb (j / ss) (s + suc n) && bit_is_set bitmap (j / ss)
            then taken
            else kept)
  step bitmap s n j taken kept next e bit = elim (Bool-cases (j / ss == s)) [
    | inl here ↦ let same : j / ss ≡ s = ground arith in rw e (rw same (rw bit (ground arith)))
    | inr there ↦ rw e (rw there (ground arith))
  ]

  skip :
      (bitmap : Bytes) (s n j taken kept : ℕ)
      → bit_is_set bitmap s ≡ false
      → (if leb (s + 1) (j / ss) && ltb (j / ss) (s + 1 + n) && bit_is_set bitmap (j / ss)
          then taken
          else kept)
        ≡ (if leb s (j / ss) && ltb (j / ss) (s + suc n) && bit_is_set bitmap (j / ss)
            then taken
            else kept)
  skip bitmap s n j taken kept bit = elim (Bool-cases (j / ss == s)) [
    | inl here ↦ let same : j / ss ≡ s = ground arith in rw same (rw bit (ground arith))
    | inr there ↦ ground arith
  ]

  pub merge_sectors-Merged :
      (bitmap payload : Bytes) (s n : ℕ) (block : Bytes) (copied : ℕ)
      → (s + n) * ss ≤ length block
      → (s + n) * ss ≤ length payload
      → Merged bitmap payload s n block (merge_sectors ss bitmap payload s n block copied)
  unfolding merge_sectors
  merge_sectors-Merged bitmap payload s zero block copied hb hp = record {
    out = block;
    count = copied;
    returns = refl;
    size = refl;
    bytes = λ j. ground arith;
  }
  merge_sectors-Merged bitmap payload s (suc n) block copied hb hp =
      let shift : (s + suc n) * ss ≡ (s + 1 + n) * ss = ap (λ (m : ℕ). m * ss) (omega arith) in
      let first : s * ss + ss ≤ (s + suc n) * ss = sector_fits s n in
      elim (Bool-cases (bit_is_set bitmap s)) [
        | inl taken ↦
            let next = splice block (s * ss) (slice payload (s * ss) ss) in
            let size = length-splice block (s * ss) (slice payload (s * ss) ss) in
            let rest =
              merge_sectors-Merged bitmap payload (s + 1) n next (copied + 1)
                (omega (arith, shift, size)) (omega (arith, shift)) in
            record {
              out = rest.out;
              count = rest.count;
              returns =
                  rw
                    (
                      taken,
                      le→leb (s * ss + ss) (length block) (omega arith),
                      le→leb (s * ss + ss) (length payload) (omega arith),
                    )
                    rest.returns;
              size = rest.size ∙ size;
              bytes = λ j.
                  rest.bytes j
                  ∙ step bitmap s n j _ _ _ (byte-sector block payload s j (omega arith)) taken;
            }
        | inr clear ↦
            let rest =
              merge_sectors-Merged bitmap payload (s + 1) n block copied (omega (arith, shift))
                (omega (arith, shift)) in
            record {
              out = rest.out;
              count = rest.count;
              returns = rw clear rest.returns;
              size = rest.size;
              bytes = λ j. rest.bytes j ∙ skip bitmap s n j _ _ clear;
            }
      ]
