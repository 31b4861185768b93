-- ===== src/Flatten/Archive/Whole.antt =====
-- The whole archive: what a reader of its bytes finds.
use native.Mathlib.Nat.{mul-div_cancel, mul_assoc}
use starweld.Prelude.Products.{mul_mono}
use mathlib.Core.Path.{subst}
use starweld.Prelude.{
  ℕ, ◌+◌, ◌-◌, ◌*◌, ◌/◌, ◌%◌, ◌^◌, ◌≤◌, ◌<◌, ◌≡◌, refl, sym, ap, ap₂, ◌∙◌, arith,
}
use starweld.Prelude.{Bool, false, List, [], ◌∷◌, ◌++◌, length, All, ◌==◌}
use starweld.Prelude.Bytes.{Bytes, slice}
use starweld.Prelude.Le.{IsByte}
use starweld.Externals.{Externals, Uuid}
use starweld.Error.{ok}
use starweld.Format.{mib}
use starweld.IoUtil.{File, align_up}
use starweld.Disk.{VhdxDisk, block_size, block_count, virtual_disk_size}
use starweld.Bat.{Bat, encode, total_bat_entries}
use starweld.Bat.Codec.{length-encode}
use starweld.Bat.Index.{max_block}
use starweld.Region.RoundTrip.{Fits}
use starweld.Writer.{WriterParams}
use starweld.ZstWriter.{ZstStreamWriter, Layout, compute, build_bat_for_layout, new_region, begin}
use starweld.ZstWriter.Table.{Placed, non_zero, build_bat_for_layout-Placed}
use starweld.ZstWriter.TableSize.{length-build_bat_for_layout}
use starweld.ZstWriter.Places.{Tiles, compute-Tiles}
use starweld.ZstWriter.Front.{Begun, begin-Begun}
use starweld.ZstWriter.Stream.{InStep}
use starweld.TarHeader.{write_ustar_header, write_ustar_eof, name_len}
use starweld.TarHeader.Fields.{IsUstar, write_ustar_header_lem}
use starweld.Flatten.{ChainLink, analyze_chain_zero_blocks}
use starweld.Flatten.Driver.{check_links}
use starweld.Flatten.Merge.{IsReadable}
use starweld.Flatten.Scan.{SaysZero, analyze_chain_zero_blocks_lem}
use starweld.Flatten.Archive.{archive_stream, count_ones, stream_payload}
use starweld.Flatten.Archive.Spec.{zero_and_not, archive_params, IsArchived}
use starweld.Flatten.Archive.Payload.{BlockIn, stream_payload_lem}

module _ ⦃ext : Externals⦄ (leaf : VhdxDisk) (leaf_file : File) (rest : List ChainLink)
    (name : Bytes) (mtime : ℕ) (data_write_guid file_write_guid : Uuid) (n count entries : ℕ) where
  abbrev links : List ChainLink
  links = (leaf, leaf_file) ∷ rest

  abbrev ss : ℕ
  ss = leaf.metadata.logical_sector_size

  abbrev ratio : ℕ
  ratio = 2 ^ 23 * ss / block_size leaf

  abbrev params : WriterParams
  params = archive_params leaf data_write_guid file_write_guid

  -- The layout of the archive, when `nz` blocks are not zero.
  abbrev layout : ℕ → Layout
  layout nz = compute params nz entries

  module _ (pos : 0 < ss) (whole : block_size leaf ≡ n * ss) (block_pos : 0 < block_size leaf)
      (aligned : block_size leaf % mib ≡ 0) (blocks : block_count leaf ≡ ok count)
      (few : count < max_block) (same : check_links (virtual_disk_size leaf) ss rest ≡ ok tt)
      (r : All (IsReadable ss) links) (ratio_pos : 0 < ratio) (ratio_small : ratio < max_block)
      (total : total_bat_entries count ratio false ≡ ok entries)
      (room : 4 * mib + count * block_size leaf + entries * 8 < 2 ^ 62) (hn : All IsByte name)
      (hl : length name ≤ name_len) (ht : mtime < 8 ^ 11) where
    per_block : block_size leaf / ss ≡ n
    per_block = ap (λ (t : ℕ). t / ss) whole ∙ mul-div_cancel n pos

    -- The steps one behind the other.
    ran :
        (bits : List Bool) (bat : Bat) (k written : ℕ) (header inner : Bytes) (w : ZstStreamWriter)
        → analyze_chain_zero_blocks links count (block_size leaf) ss (block_size leaf / ss)
          ≡ ok bits
        → build_bat_for_layout count ratio false
            (compute params (count - count_ones bits) entries).payload_start
            (block_size leaf)
            bits
          ≡ ok (bat, k)
        → write_ustar_header [] name
            (compute params (count - count_ones bits) entries).total_size
            mtime
          ≡ ok header
        → begin params bat (compute params (count - count_ones bits) entries) ≡ ok w
        → stream_payload links (block_size leaf) ss (block_size leaf / ss) bits w
          ≡ ok (inner, written)
        → archive_stream links name mtime data_write_guid file_write_guid
          ≡ ok (
            write_ustar_eof (header ++ inner),
            compute params (count - count_ones bits) entries,
            record {
              blocks_total = count;
              blocks_written = written;
              blocks_zero = count_ones bits;
            },
          )
    unfolding archive_stream
    ran bits bat k written header inner w scanned built described begun streamed =
        let sectors : (ss == 0) ≡ false = ground (arith, pos) in
        let block : (block_size leaf == 0) ≡ false = ground (arith, block_pos) in
        rw (blocks, same, sectors, scanned, block, total, built, described, begun, streamed) refl

    per_count : count * n * ss ≡ count * block_size leaf
    per_count = mul_assoc count n ss ∙ ap (λ (t : ℕ). count * t) (sym whole)

    module _ (nz : ℕ) (some_blocks : nz ≤ count) where
      nz_room : nz * block_size leaf ≤ count * block_size leaf
      nz_room = mul_mono (block_size leaf) nz count some_blocks

      tiles : Tiles params nz entries (layout nz)
      tiles = compute-Tiles params nz entries aligned (omega (arith, nz_room))

      log_at :
          ((layout nz).log_offset ≡ mib)
          × ((layout nz).log_size ≡ mib)
          × ((layout nz).metadata_length ≡ mib)
      unfolding compute align_up
      log_at = (refl, refl, refl)

      ends : ((layout nz).total_size < 2 ^ 64) × ((layout nz).non_zero_blocks ≡ nz)
      unfolding compute align_up
      ends = (omega arith, refl)

      payload_at : (layout nz).payload_start ≡ 3 * mib
      payload_at = omega (arith, tiles.payload_follows, tiles.metadata_follows, log_at)

      region-Fits : All Fits (new_region (layout nz)).entries
      unfolding new_region
      region-Fits = (
        record {
          guid_fits = omega arith;
          file_offset_fits = omega (arith, tiles.metadata_follows, log_at);
          length_fits = omega arith;
        },
        (
          record {
            guid_fits = omega arith;
            file_offset_fits = omega (arith, tiles.bat_follows, payload_at, nz_room);
            length_fits = omega arith;
          },
          tt,
        ),
      )

      fronted : (bat : Bat) → Begun params bat (layout nz) (begin params bat (layout nz))
      fronted bat =
          begin-Begun params bat (layout nz) log_at.0
            (omega (arith, tiles.metadata_follows, log_at)) log_at.2 (omega (arith, log_at))
            region-Fits refl

    placed_for :
        (bits : List Bool) (nz : ℕ)
        → length bits ≡ count
        → nz ≤ count
        → (bat : Bat) × (build_bat_for_layout count ratio false
              (layout nz).payload_start
              (block_size leaf)
              bits
            ≡ ok (bat, non_zero bits))
          × Placed bat (layout nz).payload_start (n * ss) 0 0 bits
          × (length bat.entries ≡ entries)
    placed_for bits nz len some_blocks =
        let start = (layout nz).payload_start in
        let many : length bits * block_size leaf ≡ count * block_size leaf =
          ap (λ (t : ℕ). t * block_size leaf) len in
        let at = payload_at nz some_blocks in
        let (bat, e, placed) =
          build_bat_for_layout-Placed ratio ratio_pos ratio_small start (block_size leaf) false bits
            (omega (arith, at)) aligned (omega (arith, len)) (omega (arith, at, many)) in
        let built =
          subst
            (λ c.
              build_bat_for_layout c ratio false start (block_size leaf) bits
              ≡ ok (bat, non_zero bits))
            len e in
        (
          bat,
          built,
          subst (λ b. Placed bat start b 0 0 bits) whole placed,
          length-build_bat_for_layout count ratio false start (block_size leaf) entries
              (non_zero bits) bits bat total built,
        )

    sized_scan :
        (bits : List Bool)
        → analyze_chain_zero_blocks links count (n * ss) ss n ≡ ok bits
        → analyze_chain_zero_blocks links count (block_size leaf) ss (block_size leaf / ss)
          ≡ ok bits
    sized_scan bits e = rw (per_block, whole) e

    sized_stream :
        (bits : List Bool) (w : ZstStreamWriter) (inner : Bytes) (k : ℕ)
        → stream_payload links (n * ss) ss n bits w ≡ ok (inner, k)
        → stream_payload links (block_size leaf) ss (block_size leaf / ss) bits w ≡ ok (inner, k)
    sized_stream bits w inner k e = rw (per_block, whole) e

    -- With the bits of the scan, the table built from them and the front of the stream.
    module _ (bits : List Bool)
        (scanned : analyze_chain_zero_blocks links count (n * ss) ss n ≡ ok bits)
        (len : length bits ≡ count) (says : SaysZero ss n links 0 bits) where
      abbrev l : Layout
      l = layout (count - count_ones bits)

      few_blocks : count - count_ones bits ≤ count
      few_blocks = omega arith

      not_zero : non_zero bits ≡ count - count_ones bits
      not_zero = omega (arith, zero_and_not bits, len)

      module _ (bat : Bat) (placed : Placed bat l.payload_start (n * ss) 0 0 bits)
          (long : length bat.entries ≡ entries) (w : ZstStreamWriter) (step : InStep w)
          (layout_kept : w.layout ≡ l) (bat_kept : w.bat ≡ bat)
          (announced : w.expected_payload_blocks ≡ l.non_zero_blocks)
          (none_written : w.written_payload_blocks ≡ 0)
          (front_size : length w.out ≡ l.metadata_offset + l.metadata_length) where
        offset : w.layout.bat_offset ≡ l.bat_offset
        offset = ap (λ x. x.bat_offset) layout_kept

        region : w.layout.bat_length ≡ l.bat_length
        region = ap (λ x. x.bat_length) layout_kept

        start : length w.out ≡ l.payload_start
        start =
            omega (arith, front_size, (tiles (count - count_ones bits) few_blocks).payload_follows)

        blocks_end : length w.out + non_zero bits * (n * ss) ≡ w.layout.bat_offset
        blocks_end =
            let product : non_zero bits * (n * ss) ≡ (count - count_ones bits) * block_size leaf =
              ap (λ (x : ℕ). non_zero bits * x) (sym whole)
              ∙ ap (λ (x : ℕ). x * block_size leaf) not_zero in
            omega (
              arith,
              start,
              product,
              offset,
              (tiles (count - count_ones bits) few_blocks).bat_follows,
            )

        table_fits : length (encode w.bat) ≤ w.layout.bat_length
        table_fits = omega (
          arith,
          ap (λ (x : Bat). length (encode x)) bat_kept,
          length-encode bat,
          long,
          region,
          (tiles (count - count_ones bits) few_blocks).bat_fits,
        )

        streamed_inner :
            (inner : Bytes) × (stream_payload links (n * ss) ss n bits w
              ≡ ok (inner, non_zero bits))
            × (length inner ≡ w.layout.bat_offset + w.layout.bat_length)
            × (slice inner 0 (length w.out) ≡ w.out)
            × (slice inner w.layout.bat_offset (length (encode w.bat)) ≡ encode w.bat)
            × ((k : ℕ) → k < length bits → BlockIn links n ss w.bat inner k)
        streamed_inner =
            let spread : length bits * n * ss ≡ count * n * ss = ap (λ (x : ℕ). x * n * ss) len in
            let last = ends (count - count_ones bits) few_blocks in
            stream_payload_lem links n ss pos r w bits (omega (arith, spread, per_count)) says
              (rw (bat_kept, start) placed) step
              (omega (arith, none_written, announced, last, not_zero)) blocks_end table_fits
              (omega
                (arith, offset, region, (tiles (count - count_ones bits) few_blocks).total, last))

      archived :
          (bat : Bat)
          → build_bat_for_layout count ratio false l.payload_start (block_size leaf) bits
            ≡ ok (bat, non_zero bits)
          → Placed bat l.payload_start (n * ss) 0 0 bits
          → length bat.entries ≡ entries
          → Begun params bat l (begin params bat l)
          → IsUstar [] name l.total_size mtime (write_ustar_header [] name l.total_size mtime)
          → IsArchived links params n ss count name mtime
              (archive_stream links name mtime data_write_guid file_write_guid)
      archived bat built placed long f u =
          let (inner, streamed, size, kept, table, held) =
            streamed_inner bat placed long f.w f.in_step f.layout_kept f.bat_kept f.announced
              f.none_written f.size in
          let bat_offset : f.w.layout.bat_offset ≡ l.bat_offset =
            ap (λ x. x.bat_offset) f.layout_kept in
          let bat_length : f.w.layout.bat_length ≡ l.bat_length =
            ap (λ x. x.bat_length) f.layout_kept in
          let raw : encode f.w.bat ≡ encode bat = ap encode f.bat_kept in
          let all : length inner ≡ l.bat_offset + l.bat_length =
            omega (arith, size, bat_offset, bat_length) in
          let total_size = all ∙ sym (tiles (count - count_ones bits) few_blocks).total in
          record {
            stream = write_ustar_eof (u.block ++ inner);
            layout = l;
            report = record {
              blocks_total = count;
              blocks_written = non_zero bits;
              blocks_zero = count_ones bits;
            };
            returns =
                ran bits bat (non_zero bits) (non_zero bits) u.block inner f.w
                  (sized_scan bits scanned) built u.returns f.returns
                  (sized_stream bits f.w inner (non_zero bits) streamed);
            header = u.block;
            inner = inner;
            parts = unfold write_ustar_eof in refl;
            described = ap (λ (x : ℕ). write_ustar_header [] name x mtime) total_size ∙ u.returns;
            bat = bat;
            size = all;
            front = f;
            front_kept = ap (slice inner 0) (sym f.size) ∙ kept;
            table =
                ap₂ (slice inner) (sym bat_offset) (ap (λ (x : Bytes). length x) (sym raw))
                ∙ table
                ∙ raw;
            blocks = λ k hk.
                subst (λ b. BlockIn links n ss b inner k) f.bat_kept (held k (omega (arith, len)));
            counted = omega (arith, zero_and_not bits, len);
          }

    -- For a leaf whose blocks are whole sectors and whole MiB, a readable chain of the same
    -- virtual size and sector size, a chunk ratio that is positive and below 2^62, as many
    -- blocks, below 2^62, and table entries as the code counts for it, sizes whose sum is below
    -- 2^62, a name of at most 100 bytes and a time below 8^11, archive_stream succeeds with a tar
    -- header that gives the size of the disk, the disk and the end marker, and the disk begins
    -- with what begin has streamed, holds the encoded table at its offset and each block of the
    -- chain either as a zero block of the table with only zero sectors or as its merged sectors
    -- at the offset that the table gives, and the counters add up to the number of blocks.
    pub archive_stream-IsArchived :
        IsArchived links params n ss count name mtime
          (archive_stream links name mtime data_write_guid file_write_guid)
    archive_stream-IsArchived =
        let (bits, scanned, len, says) =
          analyze_chain_zero_blocks_lem links n ss pos r count (omega (arith, per_count)) in
        let m = count - count_ones bits in
        let fewer : m ≤ count = omega arith in
        let (bat, built, placed, long) = placed_for bits m len fewer in
        archived bits scanned len says bat built placed long (fronted m fewer bat)
          ((write_ustar_header_lem [] name (layout m).total_size mtime hn (ends m fewer).0 ht).0 hl)
