-- ===== src/Header/Replace.antt =====
-- What `write_new` does to the headers of a file.
use starweld.Prelude.{ℕ, ◌+◌, ◌^◌, ◌≤◌, ◌<◌, ◌≡◌, ◌≢◌, refl, sym, ap, ◌∙◌, true}
use starweld.Prelude.{arith, length, ◌==◌, if◌then◌else◌, inl, inr, ◌⊎◌, wrap64}
use starweld.Prelude.{mod-eq_of_lt}
use starweld.Prelude.Bytes.{slice}
use starweld.Externals.{Externals}
use starweld.Error.{Result, ok}
use starweld.Format.{header_1_offset, header_2_offset, header_size}
use starweld.IoUtil.{File, write_all_at}
use starweld.IoUtil.Files.{length-write_all_at, slice-write_self, slice-write_out}
use starweld.Header.{
  Header, HeaderPair, is_valid, pick, target_idx, active, parse, encode, read, write_new,
}
use starweld.Header.RoundTrip.{Fits, pristine, length-encode, parse-encode_header}
use starweld.Header.Pair.{slot, slot_wins, slot_other, first, second, pair_of, read-ok, read_inv}

module _ ⦃ext : Externals⦄ where
  module _ (file : File) (new : Header) (long : header_2_offset + header_size ≤ length file) where
    written_first :
        (first (write_all_at file header_1_offset (encode new)) ≡ parse (encode new))
        × (second (write_all_at file header_1_offset (encode new)) ≡ second file)
    written_first = (
      ap parse (
          ap (slice (write_all_at file header_1_offset (encode new)) header_1_offset)
            (sym (length-encode new))
          ∙ slice-write_self file header_1_offset (encode new)),
      ap parse (
          slice-write_out file header_1_offset (encode new) header_2_offset header_size
            (inr (omega (arith, length-encode new)))),
    )

    written_second :
        (first (write_all_at file header_2_offset (encode new)) ≡ first file)
        × (second (write_all_at file header_2_offset (encode new)) ≡ parse (encode new))
    written_second = (
      ap parse (
          slice-write_out file header_2_offset (encode new) header_1_offset header_size
            (inl (omega arith))),
      ap parse (
          ap (slice (write_all_at file header_2_offset (encode new)) header_2_offset)
            (sym (length-encode new))
          ∙ slice-write_self file header_2_offset (encode new)),
    )

    still_long :
        (off : ℕ) → header_2_offset + header_size ≤ length (write_all_at file off (encode new))
    still_long off = omega (arith, length-write_all_at file off (encode new), length-encode new)

  -- The header that `write_new` encodes.
  abbrev pub successor : Header → (Header → Header) → Header
  successor current mutate = record (mutate current) {
    sequence_number = wrap64 (current.sequence_number + 1);
  }

  -- What is known after `write_new`: the new header is in force, and the former one is still on
  -- disk, valid, if the two sequence numbers differed.
  pub record Replaces (file : File) (p : HeaderPair) (new : Header) (r : Result (File × ℕ))
      : Type 0 where
    pub file' : File
    pub returns : r ≡ ok (file', new.sequence_number)
    pub p' : HeaderPair
    pub reads : read file' ≡ ok p'
    pub in_force :
        active p' ≡ record new { signature_ok = true; checksum_ok = true; checksum = pristine new }
    pub survives :
        p.header_0.sequence_number ≢ p.header_1.sequence_number
        → (p'.header_0 ≡ active p) ⊎ (p'.header_1 ≡ active p)
    pub outside :
        (a n : ℕ)
        → (a + n ≤ header_1_offset) ⊎ (header_2_offset + header_size ≤ a)
        → slice file' a n ≡ slice file a n

  module _ (file : File) (p : HeaderPair) (new disk : Header) (e : read file ≡ ok p)
      (on_disk : parse (encode new) ≡ disk) where
    place : (k : ℕ) → slot p.header_0 p.header_1 ≡ k → target_idx (read file) ≡ k
    unfolding target_idx
    place k h = rw e h

    former :
        p.header_0.sequence_number ≢ p.header_1.sequence_number
        → (slot p.header_0 p.header_1 ≡ 0 → active p ≡ second file)
          × (slot p.header_0 p.header_1 ≡ 1 → active p ≡ first file)
    unfolding active
    former d =
        let (_, picked, whole) = read_inv file p e in
        let other =
          slot_other p.header_0 p.header_1 p.active_index
            (ap (λ q. pick q.header_0 q.header_1) whole ∙ picked) d in
        (
          λ h. choose 1 (omega (arith, h, other)) ∙ ap (λ q. q.header_1) whole,
          λ h. choose 0 (omega (arith, h, other)) ∙ ap (λ q. q.header_0) whole,
        )
      where
        choose :
            (k : ℕ) → p.active_index ≡ k → active p ≡ (if k == 0 then p.header_0 else p.header_1)
        choose k h = ap (λ (t : ℕ). if t == 0 then p.header_0 else p.header_1) h

    first-Replaces :
        pick disk p.header_1 ≡ ok 0
        → slot p.header_0 p.header_1 ≡ 0
        → disk ≡ record new { signature_ok = true; checksum_ok = true; checksum = pristine new }
        → Replaces file p new
            (ok (write_all_at file header_1_offset (encode new), new.sequence_number))
    unfolding active
    first-Replaces wins h is_new =
        let (long, picked, whole) = read_inv file p e in
        let w = written_first file new long in
        record {
          file' = write_all_at file header_1_offset (encode new);
          returns = refl;
          p' = pair_of (write_all_at file header_1_offset (encode new)) 0;
          reads =
              read-ok _ 0 (still_long file new long header_1_offset)
                (rw (w.0, w.1, on_disk, ← ap (λ q. q.header_1) whole) wins);
          in_force = w.0 ∙ on_disk ∙ is_new;
          survives = λ d. inr (w.1 ∙ sym ((former d).0 h));
          outside = λ a n. elim [
            | inl lo ↦ slice-write_out file header_1_offset (encode new) a n (inl lo)
            | inr hi ↦
                slice-write_out file header_1_offset (encode new) a n
                  (inr (omega (arith, length-encode new)))
          ];
        }

    second-Replaces :
        pick p.header_0 disk ≡ ok 1
        → slot p.header_0 p.header_1 ≡ 1
        → disk ≡ record new { signature_ok = true; checksum_ok = true; checksum = pristine new }
        → Replaces file p new
            (ok (write_all_at file header_2_offset (encode new), new.sequence_number))
    unfolding active
    second-Replaces wins h is_new =
        let (long, picked, whole) = read_inv file p e in
        let w = written_second file new long in
        record {
          file' = write_all_at file header_2_offset (encode new);
          returns = refl;
          p' = pair_of (write_all_at file header_2_offset (encode new)) 1;
          reads =
              read-ok _ 1 (still_long file new long header_2_offset)
                (rw (w.0, w.1, on_disk, ← ap (λ q. q.header_0) whole) wins);
          in_force = w.1 ∙ on_disk ∙ is_new;
          survives = λ d. inl (w.0 ∙ sym ((former d).1 h));
          outside = λ a n. elim [
            | inl lo ↦ slice-write_out file header_2_offset (encode new) a n (inl (omega arith))
            | inr hi ↦
                slice-write_out file header_2_offset (encode new) a n
                  (inr (omega (arith, length-encode new)))
          ];
        }

  -- On a file whose headers can be read, when the sequence number does not wrap and the mutated
  -- header is of version 1 and log version 0 and fits its fields, write_new succeeds with the
  -- next sequence number, the file it leaves reads back with the new header in force, nothing
  -- outside the two header slots changes, and the header formerly in force is still in the other
  -- slot if the two sequence numbers differed.
  pub write_new-Replaces :
      (file : File) (p : HeaderPair) (mutate : Header → Header)
      → read file ≡ ok p
      → (active p).sequence_number + 1 < 2 ^ 64
      → Fits (successor (active p) mutate)
      → (mutate (active p)).version ≡ 1
      → (mutate (active p)).log_version ≡ 0
      → Replaces file p (successor (active p) mutate) (write_new file (active p) mutate)
  unfolding write_new active
  write_new-Replaces file p mutate e small fits v1 v0 = elim wins [
    | inl (h, w) ↦
        rw (place file p new disk e (parse-encode_header new fits) 0 h)
          (first-Replaces file p new disk e (parse-encode_header new fits) w h refl)
    | inr (h, w) ↦
        rw (place file p new disk e (parse-encode_header new fits) 1 h)
          (second-Replaces file p new disk e (parse-encode_header new fits) w h refl)
  ]
    where
      new : Header
      new = successor (active p) mutate

      disk : Header
      disk = record new { signature_ok = true; checksum_ok = true; checksum = pristine new }

      valid : is_valid disk ≡ true
      valid = unfold is_valid in rw (v1, v0)

      wins :
          (slot p.header_0 p.header_1 ≡ 0) × (pick disk p.header_1 ≡ ok 0)
          ⊎ (slot p.header_0 p.header_1 ≡ 1) × (pick p.header_0 disk ≡ ok 1)
      wins =
          let (_, picked, whole) = read_inv file p e in
          slot_wins p.header_0 p.header_1 disk p.active_index
            (ap (λ q. pick q.header_0 q.header_1) whole ∙ picked) valid (mod-eq_of_lt small)
