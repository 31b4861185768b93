-- ===== src/Region/RoundTrip.antt =====
-- `encode`, and `parse` of what it wrote.
use Prim.Native.Nat.{bit_and}
use starweld.Prelude.{ℕ, ◌+◌, ◌*◌, ◌^◌, ◌≤◌, ◌<◌, ◌≡◌, refl, sym, ap, ap₂, ◌∙◌}
use starweld.Prelude.{true, not, arith, List, [], ◌∷◌, All, length, ◌==◌, inl, inr}
use starweld.Prelude.{if◌then◌else◌, ==_refl, replicate, le→leb}
use starweld.Prelude.Bytes.{Bytes, zeros, byte, slice, splice, bytes_eq_refl, length-zeros}
use starweld.Prelude.Bytes.{
  length-splice, slice_ext, byte-splice_lt, byte-splice_ge, slice-splice_within,
}
use starweld.Prelude.Le.{
  get_le, put_le, length-put_le, get_le-put_le, get_le-agree, length-le_bytes,
}
use starweld.Prelude.Le.{get_le-put_le_out, slice-put_le_out}
use starweld.Externals.{Externals, IsUuid}
use starweld.Error.{ok}
use starweld.Format.{
  region_signature, region_table_size, region_table_header_size, region_flag_required,
}
use starweld.Format.{region_table_entry_size, region_table_max_entries}
use starweld.Guid.{
  read_guid, write_guid, read_guid_at, write_guid_at, crc32c, crc32c_with_zeroed_field,
}
use starweld.Guid.Fields.{layout, length-write_guid, read_guid-write_guid}
use starweld.Guid.Checksum.{crc32c-lt, crc32c_with_zeroed_field-whole}
use starweld.Region.{
  RegionEntry, RegionTable, parse_entry, parse_entries, parse, put_entry, put_entries,
}
use starweld.Region.{encode_fields, encode}

pub record Fits (e : RegionEntry) : Type 0 where
  pub guid_fits : IsUuid e.guid
  pub file_offset_fits : e.file_offset < 2 ^ 64
  pub length_fits : e.length_bytes < 2 ^ 32

module _ ⦃ext : Externals⦄ where
  module _ (buf : Bytes) (off : ℕ) (e : RegionEntry) where
    pub length-put_entry : length (put_entry buf off e) ≡ length buf
    unfolding put_entry put_le write_guid_at
    length-put_entry = simp length-splice

    pub byte-put_entry : (k : ℕ) → k < off → byte (put_entry buf off e) k ≡ byte buf k
    unfolding put_entry put_le write_guid_at
    byte-put_entry k h =
        byte-splice_lt _ (off + 28) _ k (omega arith)
        ∙ byte-splice_lt _ (off + 24) _ k (omega arith)
        ∙ byte-splice_lt _ (off + 16) _ k (omega arith)
        ∙ byte-splice_lt buf off _ k h

    abbrev flags_of : ℕ
    flags_of = if e.required then region_flag_required else 0

    flags_read : not (bit_and flags_of region_flag_required == 0) ≡ e.required
    flags_read = ground arith

    -- One entry written at `off` and read there.
    parse_entry-put_entry :
        Fits e → off + 32 ≤ length buf → parse_entry (put_entry buf off e) off ≡ e
    unfolding parse_entry put_entry read_guid_at write_guid_at
    parse_entry-put_entry f h =
        let named : Bytes = splice buf off (write_guid e.guid) in
        let placed : Bytes = put_le 8 named (off + 16) e.file_offset in
        let sized : Bytes = put_le 4 placed (off + 24) e.length_bytes in
        let l0 : length named ≡ length buf = length-splice buf off (write_guid e.guid) in
        let l1 : length placed ≡ length named = length-put_le 8 named (off + 16) e.file_offset in
        let l2 : length sized ≡ length placed = length-put_le 4 placed (off + 24) e.length_bytes in
        let whole : Bytes = put_le 4 sized (off + 28) flags_of in
        let g : read_guid (slice whole off 16) ≡ e.guid =
          ap read_guid (
            slice-put_le_out sized 4 (off + 28) flags_of off 16 (inl (omega arith))
            ∙ slice-put_le_out placed 4 (off + 24) e.length_bytes off 16 (inl (omega arith))
            ∙ slice-put_le_out named 8 (off + 16) e.file_offset off 16 (inl (omega arith))
            ∙ ap (slice named off) (sym (length-write_guid e.guid))
            ∙ slice-splice_within buf off (write_guid e.guid)
                (omega (arith, length-write_guid e.guid)))
          ∙ read_guid-write_guid e.guid f.guid_fits in
        let o : get_le 8 whole (off + 16) ≡ e.file_offset =
          get_le-put_le_out 8 sized 4 (off + 28) flags_of (off + 16) (inl (omega arith))
          ∙ get_le-put_le_out 8 placed 4 (off + 24) e.length_bytes (off + 16) (inl (omega arith))
          ∙ get_le-put_le 8 named (off + 16) e.file_offset f.file_offset_fits (omega arith) in
        let n : get_le 4 whole (off + 24) ≡ e.length_bytes =
          get_le-put_le_out 4 sized 4 (off + 28) flags_of (off + 24) (inl (omega arith))
          ∙ get_le-put_le 4 placed (off + 24) e.length_bytes f.length_fits (omega arith) in
        let r : get_le 4 whole (off + 28) ≡ flags_of =
          get_le-put_le 4 sized (off + 28) flags_of (ground arith) (omega arith) in
        λ i. record {
          guid = g i;
          file_offset = o i;
          length_bytes = n i;
          required = (ap (λ (t : ℕ). not (bit_and t region_flag_required == 0)) r ∙ flags_read) i;
        }

  abbrev place : ℕ → ℕ
  place i = region_table_header_size + i * region_table_entry_size

  length-put_entries :
      (buf : Bytes) (i : ℕ) (es : List RegionEntry) → length (put_entries buf i es) ≡ length buf
  unfolding put_entries
  length-put_entries buf i [] = refl
  length-put_entries buf i (e ∷ es) =
      length-put_entries (put_entry buf (place i) e) (i + 1) es ∙ length-put_entry buf (place i) e

  byte-put_entries :
      (buf : Bytes) (i : ℕ) (es : List RegionEntry) (k : ℕ)
      → k < place i
      → byte (put_entries buf i es) k ≡ byte buf k
  unfolding put_entries
  byte-put_entries buf i [] k h = refl
  byte-put_entries buf i (e ∷ es) k h =
      byte-put_entries (put_entry buf (place i) e) (i + 1) es k (omega arith)
      ∙ byte-put_entry buf (place i) e k h

  -- An entry is read from its 32 bytes alone.
  parse_entry-agree :
      (a b : Bytes) (off : ℕ)
      → ((k : ℕ) → off ≤ k → k < off + 32 → byte a k ≡ byte b k)
      → parse_entry a off ≡ parse_entry b off
  unfolding parse_entry read_guid_at
  parse_entry-agree a b off h =
      let same = λ (j n : ℕ) (in_entry : j + n ≤ 32).
        slice_ext a b (off + j) (off + j) n (λ k hk. h (off + j + k) (omega arith) (omega arith)) in
      λ i. record {
        guid =
            ap read_guid
              (slice_ext a b off off 16 (λ k hk. h (off + k) (omega arith) (omega arith))) i;
        file_offset = get_le-agree 8 a b _ _ (same 16 8 (omega arith)) i;
        length_bytes = get_le-agree 4 a b _ _ (same 24 4 (omega arith)) i;
        required = not (
            bit_and (get_le-agree 4 a b _ _ (same 28 4 (omega arith)) i) region_flag_required == 0);
      }

  abbrev Stands : Bytes → ℕ → List RegionEntry → Type 0
  Stands buf i [] = Unit
  Stands buf i (e ∷ es) = (parse_entry buf (place i) ≡ e) × Stands buf (i + 1) es

  put_entries-Stands :
      (buf : Bytes) (i : ℕ) (es : List RegionEntry)
      → All Fits es
      → place (i + length es) ≤ length buf
      → Stands (put_entries buf i es) i es
  unfolding put_entries
  put_entries-Stands buf i [] f h = tt
  put_entries-Stands buf i (e ∷ es) (fe, fs) h = (
    parse_entry-agree _ _ (place i)
          (λ k lo hi. byte-put_entries (put_entry buf (place i) e) (i + 1) es k (omega arith))
        ∙ parse_entry-put_entry buf (place i) e fe (omega arith),
    put_entries-Stands (put_entry buf (place i) e) (i + 1) es fs
        (omega (arith, length-put_entry buf (place i) e)),
  )

  parse_entries-Stands :
      (a b : Bytes) (i : ℕ) (es : List RegionEntry)
      → ((k : ℕ) → place i ≤ k → byte b k ≡ byte a k)
      → Stands a i es
      → parse_entries b i (length es) ≡ es
  unfolding parse_entries
  parse_entries-Stands a b i [] h s = refl
  parse_entries-Stands a b i (e ∷ es) h (se, s) =
      ap₂ ◌∷◌ (parse_entry-agree b a (place i) (λ k lo hi. h k lo) ∙ se)
        (parse_entries-Stands a b (i + 1) es (λ k lo. h k (omega arith)) s)

  module _ (table : RegionTable) (fits : All Fits table.entries)
      (few : length table.entries ≤ region_table_max_entries) where
    abbrev signed : Bytes
    signed = put_le 4 (splice (zeros region_table_size) 0 region_signature) 8 (length table.entries)

    length-signed : length signed ≡ region_table_size
    unfolding put_le
    length-signed = simp layout

    length-fields : length (encode_fields table) ≡ region_table_size
    unfolding encode_fields
    length-fields = length-put_entries signed 0 table.entries ∙ length-signed

    -- The first 16 bytes are those written before the entries.
    head : (a n : ℕ) → a + n ≤ 16 → slice (encode_fields table) a n ≡ slice signed a n
    unfolding encode_fields
    head a n h =
        slice_ext _ _ a a n (λ k hk. byte-put_entries signed 0 table.entries (a + k) (omega arith))

    abbrev whole : Bytes
    whole = put_le 4 (encode_fields table) 4 (crc32c (encode_fields table))

    encode-ok : encode table ≡ ok whole
    unfolding encode
    encode-ok = rw (le→leb (place (length table.entries)) region_table_size (omega arith))

    signature_read : slice whole 0 4 ≡ region_signature
    signature_read =
        slice-put_le_out _ 4 4 _ 0 4 (inl (omega arith)) ∙ head 0 4 (omega arith) ∙ written
      where
        written : slice signed 0 4 ≡ region_signature
        written = unfold put_le in simp layout

    count_read : get_le 4 whole 8 ≡ length table.entries
    count_read =
        get_le-put_le_out 4 (encode_fields table) 4 4 _ 8 (inr (omega arith))
        ∙ get_le-agree 4 _ _ 8 8 (head 8 4 (omega arith))
        ∙ get_le-put_le 4 _ 8 (length table.entries) (omega arith) (
            omega (
              arith,
              length-splice (zeros region_table_size) 0 region_signature,
              length-zeros region_table_size,
            ))

    checksum_read : get_le 4 whole 4 ≡ crc32c (encode_fields table)
    checksum_read =
        get_le-put_le 4 (encode_fields table) 4 _ (crc32c-lt _) (omega (arith, length-fields))

    checksum_clear : slice (encode_fields table) 4 4 ≡ zeros 4
    checksum_clear = head 4 4 (omega arith) ∙ blank
      where
        blank : slice signed 4 4 ≡ zeros 4
        blank = unfold put_le zeros slice byte replicate in simp layout

    checksum_calc : crc32c_with_zeroed_field whole 4 ≡ crc32c (encode_fields table)
    unfolding put_le
    checksum_calc =
        crc32c_with_zeroed_field-whole (encode_fields table) 4 _ region_table_size
          (length-le_bytes 4 _) (omega arith) (omega (arith, length-fields)) checksum_clear
          (sym length-fields)

    entries_read : parse_entries whole 0 (length table.entries) ≡ table.entries
    entries_read =
        parse_entries-Stands (encode_fields table) whole 0 table.entries
          (λ k lo.
            unfold put_le in
            byte-splice_ge _ 4 _ k
              (omega (arith, length-le_bytes 4 (crc32c (encode_fields table)))))
          (unfold encode_fields in
            put_entries-Stands signed 0 table.entries fits (omega (arith, length-signed)))

    -- For a table of at most 2047 entries that fit their fields, encode succeeds with a buffer of
    -- the table's size, and parsing it gives the entries back with the checksum found right.
    pub parse-encode_regions :
        (buf : Bytes) × (encode table ≡ ok buf)
        × (length buf ≡ region_table_size)
        × (parse buf ≡ record { checksum_ok = true; entries = table.entries })
    unfolding parse
    parse-encode_regions = (
      whole,
      encode-ok,
      length-put_le 4 _ 4 _ ∙ length-fields,
      rw
          (
            length-put_le 4 (encode_fields table) 4 (crc32c (encode_fields table)),
            length-fields,
            signature_read,
            bytes_eq_refl region_signature,
            count_read,
            checksum_read,
            checksum_calc,
            ==_refl (crc32c (encode_fields table)),
            entries_read,
          )
          (ground arith),
    )
