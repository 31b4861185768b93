-- ===== src/ZstWriter/Front.antt =====
-- What `begin` has streamed: the identifier, the headers, the region tables, an empty log and the
-- metadata, each at its offset.
use starweld.Prelude.{ℕ, ◌+◌, ◌-◌, ◌^◌, ◌<◌, ◌≡◌, refl, sym, ap, ◌∙◌, arith, some}
use starweld.Prelude.{none, length, All}
use starweld.Prelude.Bytes.{Bytes, zeros, slice, length-zeros, splice}
use starweld.Externals.{Externals}
use starweld.Error.{Result, ok}
use starweld.Format.{
  mib, file_type_identifier_size, file_type_signature, header_1_offset, header_2_offset,
  file_type_identifier_offset,
}
use starweld.Format.{header_size, region_table_1_offset, region_table_2_offset, region_table_size}
use starweld.Header.{Header, verify_file_type}
use starweld.Header
use starweld.Header.RoundTrip.{length-encode}
use starweld.Region.{RegionTable, RegionTablePair}
use starweld.Region
use starweld.Region.RoundTrip.{Fits, parse-encode_regions}
use starweld.Region.Pair.{checked, read_copies}
use starweld.Metadata
use starweld.Bat.{Bat}
use starweld.Writer.{WriterParams, new_metadata, new_header}
use starweld.ZstWriter.{
  Layout, ZstStreamWriter, write_block, write_zeros, pad_to, new_region, begin,
}
use starweld.ZstWriter.Begin.{write_block-Grown, write_zeros-Grown, pad_to-Grown}
use starweld.ZstWriter.Pieces.{Piece, take_piece, Grown-size, new_piece, old_piece}
use starweld.ZstWriter.Stream.{InStep}
use starweld.ZstWriter.Headed.{
  headed, headed-Headed, identifier, length-identifier, recognise, h1, h2,
}
use starweld.ZstWriter.Headed.{encode_metadata-Size}

-- The outcome: the writer and what it has put out.
pub record Begun ⦃ext : Externals⦄ (params : WriterParams) (bat : Bat) (layout : Layout)
    (r : Result ZstStreamWriter) : Type 0 where
  pub w : ZstStreamWriter
  pub returns : r ≡ ok w
  pub in_step : InStep w
  pub layout_kept : w.layout ≡ layout
  pub bat_kept : w.bat ≡ bat
  pub announced : w.expected_payload_blocks ≡ layout.non_zero_blocks
  pub none_written : w.written_payload_blocks ≡ 0
  pub size : length w.out ≡ layout.metadata_offset + layout.metadata_length
  pub identifier :
      slice w.out file_type_identifier_offset file_type_identifier_size
      ≡ splice (zeros file_type_identifier_size) 0 file_type_signature
  pub recognised : verify_file_type w.out ≡ ok tt
  pub header_1 :
      slice w.out header_1_offset header_size ≡ Header.encode (new_header params layout.log_offset)
  pub header_2 :
      slice w.out header_2_offset header_size
      ≡ Header.encode (record (new_header params layout.log_offset) { sequence_number = 2 })
  pub regions :
      (buf : Bytes) × (Region.encode (new_region layout) ≡ ok buf)
      × (slice w.out region_table_1_offset region_table_size ≡ buf)
      × (slice w.out region_table_2_offset region_table_size ≡ buf)
  pub regions_read :
      (pair : RegionTablePair) × (Region.read w.out ≡ ok pair)
      × (Region.active pair ≡ ok (checked (new_region layout)))
  pub log : slice w.out layout.log_offset layout.log_size ≡ zeros layout.log_size
  pub metadata :
      (buf : Bytes) × (Metadata.encode (new_metadata params) layout.metadata_length ≡ ok buf)
      × (slice w.out layout.metadata_offset layout.metadata_length ≡ buf)

module _ ⦃ext : Externals⦄ (params : WriterParams) (bat : Bat) (layout : Layout)
    (hlog : layout.log_offset ≡ mib) (hmeta : layout.metadata_offset ≡ mib + layout.log_size)
    (hlen : layout.metadata_length ≡ mib) (small : mib + layout.log_size + mib < 2 ^ 64)
    (fits : All Fits (new_region layout).entries) (plain : params.parent_locator ≡ none) where
  -- For a layout with the log at 1 MiB, the metadata of 1 MiB behind the log and an end below
  -- 2^64, region entries that fit their fields and no parent, begin succeeds with a writer whose
  -- cursor counts the bytes that are out, up to the end of the metadata, that has written none of
  -- the announced blocks, and whose stream holds the identifier, both headers, the second with
  -- sequence number 2, the encoded region table twice, a log of zeros and the encoded metadata,
  -- each at its offset; the stream is recognised as a VHDX file and its region table is read from
  -- it with the entries of the layout.
  pub begin-Begun : Begun params bat layout (begin params bat layout)
  unfolding begin
  begin-Begun =
      let h = headed-Headed params layout in
      let (raw, e, rsize, parsed) =
        parse-encode_regions (new_region layout) fits (unfold new_region in omega arith) in
      let (md, em, msize) = encode_metadata-Size params plain in
      let described : Metadata.encode (new_metadata params) layout.metadata_length ≡ ok md =
        ap (Metadata.encode (new_metadata params)) hlen ∙ em in
      let s4 = write_block (headed params layout) raw in
      let g4 = write_block-Grown (headed params layout) raw h.step (omega (arith, h.size, rsize)) in
      let l4 = Grown-size (headed params layout) raw s4 g4 in
      let s5 = write_block s4 raw in
      let g5 = write_block-Grown s4 raw g4.step (omega (arith, h.size, rsize, l4)) in
      let l5 = Grown-size s4 raw s5 g5 in
      let s6 = pad_to s5 layout.log_offset in
      let gap = zeros (layout.log_offset - length s5.0) in
      let g6 =
        pad_to-Grown s5 layout.log_offset g5.step (omega (arith, h.size, rsize, l4, l5))
          (omega arith) in
      let l6 : length s6.0 ≡ mib = omega (
        arith,
        Grown-size s5 gap s6 g6,
        length-zeros (layout.log_offset - length s5.0),
        h.size,
        rsize,
        l4,
        l5,
      ) in
      let s7 = write_zeros s6 layout.log_size in
      let blank = zeros layout.log_size in
      let g7 = write_zeros-Grown s6 layout.log_size g6.step (omega (arith, l6)) in
      let l7 : length s7.0 ≡ mib + layout.log_size =
        omega (arith, Grown-size s6 blank s7 g7, length-zeros layout.log_size, l6) in
      let s8 = write_block s7 md in
      let g8 = write_block-Grown s7 md g7.step (omega (arith, l7, msize)) in
      let from7 : (x : Bytes) (off : ℕ) → Piece s7.0 off x → Piece s8.0 off x =
        λ x off p. old_piece s7 md s8 x off g8 p in
      let from5 : (x : Bytes) (off : ℕ) → Piece s5.0 off x → Piece s8.0 off x =
        λ x off p. from7 x off (old_piece s6 blank s7 x off g7 (old_piece s5 gap s6 x off g6 p)) in
      let from4 : (x : Bytes) (off : ℕ) → Piece s4.0 off x → Piece s8.0 off x =
        λ x off p. from5 x off (old_piece s4 raw s5 x off g5 p) in
      let from3 : (x : Bytes) (off : ℕ) → Piece (headed params layout).0 off x → Piece s8.0 off x =
        λ x off p. from4 x off (old_piece (headed params layout) raw s4 x off g4 p) in
      let l8 : length s8.0 ≡ layout.metadata_offset + layout.metadata_length =
        omega (arith, Grown-size s7 md s8 g8, l7, msize) in
      let named_out =
        take_piece s8.0 (identifier params layout) file_type_identifier_offset
          file_type_identifier_size
          (from3 (identifier params layout) file_type_identifier_offset h.named)
          (length-identifier params layout) in
      let copy_1 =
        take_piece s8.0 raw region_table_1_offset region_table_size
          (from4 raw _
            (new_piece (headed params layout) raw s4 region_table_1_offset g4 (sym h.size)))
          rsize in
      let copy_2 =
        take_piece s8.0 raw region_table_2_offset region_table_size
          (from5 raw _
            (new_piece s4 raw s5 region_table_2_offset g5 (omega (arith, l4, h.size, rsize))))
          rsize in
      record {
        w = record {
          out = s8.0;
          cursor = s8.1;
          layout = layout;
          bat = bat;
          expected_payload_blocks = layout.non_zero_blocks;
          written_payload_blocks = 0;
        };
        returns = rw (e, described) refl;
        in_step = g8.step;
        layout_kept = refl;
        bat_kept = refl;
        announced = refl;
        none_written = refl;
        size = omega (arith, l8);
        identifier = named_out;
        recognised = recognise params layout s8.0 (omega arith) named_out;
        header_1 =
            take_piece s8.0 _ header_1_offset header_size (from3 _ _ h.first)
              (length-encode (h1 params layout));
        header_2 =
            take_piece s8.0 _ header_2_offset header_size (from3 _ _ h.second)
              (length-encode (h2 params layout));
        regions = (raw, e, copy_1, copy_2);
        regions_read = (
          record {
            table_0 = some (checked (new_region layout));
            table_1 = some (checked (new_region layout));
            active_index = 0;
          },
          read_copies (new_region layout) s8.0 (omega arith) (ap Region.parse copy_1 ∙ parsed)
              (ap Region.parse copy_2 ∙ parsed),
          unfold Region.active in refl,
        );
        log =
            take_piece s8.0 blank layout.log_offset layout.log_size
              (from7 blank _ (new_piece s6 blank s7 layout.log_offset g7 (omega (arith, l6))))
              (length-zeros layout.log_size);
        metadata = (
          md,
          described,
          take_piece s8.0 md layout.metadata_offset layout.metadata_length
              (new_piece s7 md s8 layout.metadata_offset g8 (omega (arith, l7)))
              (omega (arith, msize)),
        );
      }
