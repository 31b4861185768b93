-- ===== src/ZstWriter/Headed.antt =====
-- The first three blocks of the stream, and the metadata of a disk without a parent.
use starweld.Prelude.{◌+◌, ◌%◌, ◌^◌, ◌≤◌, ◌≡◌, refl, sym, ap, ◌∙◌, arith}
use starweld.Prelude.{[], none, length}
use starweld.Prelude.Bytes.{
  Bytes, byte, zeros, slice, length-zeros, splice, length-splice, slice_of, byte-slice,
  byte-splice_in, bytes_eq,
}
use starweld.Prelude.Le.{put_le, length-put_le}
use starweld.Externals.{Externals}
use starweld.Error.{ok}
use starweld.Format.{
  metadata_signature, mib, file_type_identifier_size, file_type_signature, header_1_offset,
  header_2_offset, file_type_identifier_offset,
}
use starweld.Format.{region_table_1_offset}
use starweld.IoUtil.Files.{read_exact_at-ok}
use starweld.Guid.{write_guid_at}
use starweld.Header.{Header, verify_file_type}
use starweld.Header
use starweld.Header.RoundTrip.{length-encode}
use starweld.Metadata
use starweld.Writer.{WriterParams, new_metadata, new_header}
use starweld.ZstWriter.{Layout, Sink, write_block}
use starweld.ZstWriter.Begin.{write_block-Grown, put_items-Size, room}
use starweld.ZstWriter.Pieces.{Piece, Grown-size, new_piece, old_piece}

module _ ⦃ext : Externals⦄ where
  items_small :
      (params : WriterParams)
      → params.parent_locator ≡ none
      → (length (Metadata.encode_items (new_metadata params)) ≡ 5)
        × (room (Metadata.encode_items (new_metadata params)) ≡ 75)
  unfolding Metadata.encode_items Metadata.encode_extras new_metadata put_le write_guid_at
  items_small params h = rw h (refl, simp (length-splice, length-zeros))

  pub encode_metadata-Size :
      (params : WriterParams)
      → params.parent_locator ≡ none
      → (buf : Bytes) × (Metadata.encode (new_metadata params) mib ≡ ok buf) × (length buf ≡ mib)
  unfolding Metadata.encode
  encode_metadata-Size params h =
      let items = Metadata.encode_items (new_metadata params) in
      let small = items_small params h in
      let head = put_le 2 (splice (zeros mib) 0 metadata_signature) 10 (length items % 2 ^ 16) in
      let size : length head ≡ mib =
        length-put_le 2 _ 10 _
        ∙ length-splice (zeros mib) 0 metadata_signature
        ∙ length-zeros mib in
      let (out, e, len) =
        put_items-Size items head 0 65536 (omega (arith, size, small.0))
          (omega (arith, size, small.1)) in
      (out, e, len ∙ size)

module _ ⦃ext : Externals⦄ (params : WriterParams) (layout : Layout) where
  -- The blocks up to the region tables.
  abbrev pub identifier : Bytes
  identifier = splice (zeros file_type_identifier_size) 0 file_type_signature

  abbrev pub h1 : Header
  h1 = new_header params layout.log_offset

  abbrev pub h2 : Header
  h2 = record h1 { sequence_number = 2 }

  abbrev pub headed : Sink
  headed =
      write_block (write_block (write_block ([], 0) identifier) (Header.encode h1))
        (Header.encode h2)

  pub length-identifier : length identifier ≡ file_type_identifier_size
  length-identifier =
      length-splice (zeros file_type_identifier_size) 0 file_type_signature
      ∙ length-zeros file_type_identifier_size

  -- A file that begins with the identifier is taken for a VHDX file.
  pub recognise :
      (out : Bytes)
      → file_type_identifier_size ≤ length out
      → slice out file_type_identifier_offset file_type_identifier_size ≡ identifier
      → verify_file_type out ≡ ok tt
  unfolding verify_file_type
  recognise out long e =
      let sig : slice out file_type_identifier_offset 8 ≡ file_type_signature =
        slice_of out file_type_signature 0 (λ k lt.
          sym (byte-slice out 0 file_type_identifier_size k (omega arith))
          ∙ ap (λ x. byte x k) e
          ∙ ap (byte identifier) (let e0 : k ≡ 0 + k = omega arith in e0)
          ∙ byte-splice_in (zeros file_type_identifier_size) 0 file_type_signature k lt
              (omega (arith, length-zeros file_type_identifier_size))) in
      rw (read_exact_at-ok out file_type_identifier_offset 8 (omega arith), sig)
        (unfold bytes_eq in refl)

  -- What is known of the first three.
  pub record Headed : Type 0 where
    pub step : headed.1 ≡ length headed.0
    pub size : length headed.0 ≡ region_table_1_offset
    pub named : Piece headed.0 file_type_identifier_offset identifier
    pub first : Piece headed.0 header_1_offset (Header.encode h1)
    pub second : Piece headed.0 header_2_offset (Header.encode h2)

  pub headed-Headed : Headed
  headed-Headed =
      let s0 : Sink = ([], 0) in
      let size0 = length-identifier in
      let size1 = length-encode h1 in
      let size2 = length-encode h2 in
      let s1 = write_block s0 identifier in
      let g1 = write_block-Grown s0 identifier refl (omega (arith, size0)) in
      let l1 = Grown-size s0 identifier s1 g1 in
      let s2 = write_block s1 (Header.encode h1) in
      let g2 = write_block-Grown s1 (Header.encode h1) g1.step (omega (arith, l1, size0, size1)) in
      let l2 = Grown-size s1 (Header.encode h1) s2 g2 in
      let g3 =
        write_block-Grown s2 (Header.encode h2) g2.step
          (omega (arith, l1, l2, size0, size1, size2)) in
      record {
        step = g3.step;
        size =
            omega (arith, Grown-size s2 (Header.encode h2) headed g3, l1, l2, size0, size1, size2);
        named = old_piece s2 (Header.encode h2) headed identifier file_type_identifier_offset g3 (
            old_piece s1 (Header.encode h1) s2 identifier file_type_identifier_offset g2
              (new_piece s0 identifier s1 file_type_identifier_offset g1 refl));
        first =
            old_piece s2 (Header.encode h2) headed (Header.encode h1) header_1_offset g3
              (new_piece s1 (Header.encode h1) s2 header_1_offset g2 (omega (arith, l1, size0)));
        second =
            new_piece s2 (Header.encode h2) headed header_2_offset g3
              (omega (arith, l1, l2, size0, size1));
      }
