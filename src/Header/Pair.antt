-- ===== src/Header/Pair.antt =====
-- Which header is in force.
use starweld.Prelude.{ℕ, ◌+◌, ◌≤◌, ◌≡◌, ◌≢◌, true}
use starweld.Prelude.{arith, length, leb, ◌==◌, if◌then◌else◌, ◌⊎◌}
use starweld.Prelude.Bytes.{slice}
use starweld.Externals.{Externals}
use starweld.Error.{ok, >>=-eq-ok}
use starweld.Format.{header_1_offset, header_2_offset, header_size}
use starweld.IoUtil.{File, read_exact_at}
use starweld.IoUtil.Files.{read_exact_at-ok, read_exact_at_inv}
use starweld.Header.{Header, HeaderPair, is_valid, pick, parse, read}

-- If pick chooses a header, that header is valid and no valid header has a higher sequence
-- number.
pub pick_lem :
    (h0 h1 : Header) (i : ℕ)
    → pick h0 h1 ≡ ok i
    → let chosen = if i == 0 then h0 else h1 in
      (is_valid chosen ≡ true)
      × (is_valid h0 ≡ true → h0.sequence_number ≤ chosen.sequence_number)
      × (is_valid h1 ≡ true → h1.sequence_number ≤ chosen.sequence_number)
unfolding pick
pick_lem h0 h1 i e = ground arith

-- The slot that `write_new` chooses from the two headers.
abbrev pub slot : Header → Header → ℕ
slot h0 h1 =
    if is_valid h0
    then (if is_valid h1 then (if leb h0.sequence_number h1.sequence_number then 0 else 1) else 1)
    else 0

-- A valid header that follows the chosen one is chosen when it stands in that slot; and unless both
-- headers are valid with the same number, the slot is not that of the header in force.
pub slot_wins :
    (h0 h1 new : Header) (i : ℕ)
    → pick h0 h1 ≡ ok i
    → is_valid new ≡ true
    → new.sequence_number ≡ (if i == 0 then h0 else h1).sequence_number + 1
    → (slot h0 h1 ≡ 0) × (pick new h1 ≡ ok 0) ⊎ (slot h0 h1 ≡ 1) × (pick h0 new ≡ ok 1)
unfolding pick
slot_wins h0 h1 new i e v s = ground arith

pub slot_other :
    (h0 h1 : Header) (i : ℕ)
    → pick h0 h1 ≡ ok i
    → h0.sequence_number ≢ h1.sequence_number
    → i + slot h0 h1 ≡ 1
unfolding pick
slot_other h0 h1 i e d = ground arith

abbrev pub first : ⦃ext : Externals⦄ → File → Header
first file = parse (slice file header_1_offset header_size)

abbrev pub second : ⦃ext : Externals⦄ → File → Header
second file = parse (slice file header_2_offset header_size)

module _ ⦃ext : Externals⦄ where
  abbrev pub pair_of : File → ℕ → HeaderPair
  pair_of file i = record {
    header_0 = first file;
    header_1 = second file;
    raw_0 = slice file header_1_offset header_size;
    raw_1 = slice file header_2_offset header_size;
    active_index = i;
  }

  -- Reading succeeds exactly when both slots are there and `pick` finds a header.
  pub read-ok :
      (file : File) (i : ℕ)
      → header_2_offset + header_size ≤ length file
      → pick (first file) (second file) ≡ ok i
      → read file ≡ ok (pair_of file i)
  unfolding read
  read-ok file i long e = rw (
    read_exact_at-ok file header_1_offset header_size (omega arith),
    read_exact_at-ok file header_2_offset header_size long,
    e,
  )

  pub read_inv :
      (file : File) (p : HeaderPair)
      → read file ≡ ok p
      → (header_2_offset + header_size ≤ length file)
        × (pick (first file) (second file) ≡ ok p.active_index)
        × (p ≡ pair_of file p.active_index)
  unfolding read
  read_inv file p e =
      let (raw0, e0, rest0) = >>=-eq-ok (read_exact_at file header_1_offset header_size) _ e in
      let (raw1, e1, rest1) = >>=-eq-ok (read_exact_at file header_2_offset header_size) _ rest0 in
      let (i, ei, rest2) = >>=-eq-ok (pick (parse raw0) (parse raw1)) _ rest1 in
      let inv0 = read_exact_at_inv file header_1_offset header_size e0 in
      let inv1 = read_exact_at_inv file header_2_offset header_size e1 in
      (
        inv1.1 (omega arith),
        ground (arith, ei, rest2, inv0.0, inv1.0),
        ground (arith, rest2, inv0.0, inv1.0),
      )
