-- ===== src/Flatten/Archive.antt =====
-- `flatten_to_zst` of crates/starweld-core/src/flatten.rs, from the opened links of the chain to the
-- archive, and `inner_archive_name`. A name is its UTF-8 bytes. The encoder is an argument: what it
-- has put out once it is finished, for the bytes it was given. The events, the hints to the page
-- cache, `fsck` and the discovery of the chain are left out; the time and the fresh GUIDs are
-- arguments.
pub mod Payload
pub mod Names
pub mod Spec
pub mod Whole
use starweld.Prelude.{
  ℕ, zero, suc, ◌+◌, ◌-◌, ◌*◌, ◌/◌, ◌^◌, min, Bool, true, false, ◌&&◌, not, Option,
}
use starweld.Prelude.{none, some, List, [], ◌∷◌, ◌++◌, length, ltb, leb, ◌==◌, if◌then◌else◌}
use starweld.Prelude.Text.{codes}
use starweld.Prelude.Bytes.{Bytes, slice, bytes_eq}
use starweld.Externals.{Externals, Uuid}
use starweld.Error.{Result, ok, err, panic, ◌>>=◌, ◌>>◌, guard, must, unsupported}
use starweld.Format.{mib}
use starweld.Disk.{VhdxDisk, block_size, block_count, virtual_disk_size}
use starweld.Bat.{total_bat_entries}
use starweld.Writer.{WriterParams}
use starweld.ZstWriter.{ZstStreamWriter, Layout, compute, build_bat_for_layout, begin}
use starweld.ZstWriter.{write_payload_block, finish}
use starweld.TarHeader.{write_ustar_header, write_ustar_eof, tar_header_size, tar_eof_size}
use starweld.Flatten.{ChainLink, merge_block, analyze_chain_zero_blocks}
use starweld.Flatten.Driver.{FlattenOptions, FlattenReport, is_fixed, check_links}

-- The second pass, with the bits of the blocks from `blk` on.
unfoldable pub stream_blocks :
    List ChainLink → ℕ → ℕ → ℕ → ℕ → List Bool → ZstStreamWriter → ℕ → Result (ZstStreamWriter × ℕ)
stream_blocks links leaf_block_size sector_size sectors_per_block blk [] w written = ok (w, written)
stream_blocks links leaf_block_size sector_size sectors_per_block blk (true ∷ is_zero) w written =
    stream_blocks links leaf_block_size sector_size sectors_per_block (blk + 1) is_zero w written
stream_blocks links leaf_block_size sector_size sectors_per_block blk (false ∷ is_zero) w written =
    do
      composite ← merge_block links blk leaf_block_size sector_size sectors_per_block
      w' ← write_payload_block w composite
      stream_blocks links leaf_block_size sector_size sectors_per_block (blk + 1) is_zero w'
          (written + 1)

-- The second pass and the end of the stream.
unfoldable pub stream_payload :
    List ChainLink → ℕ → ℕ → ℕ → List Bool → ZstStreamWriter → Result (Bytes × ℕ)
unfolding stream_blocks
stream_payload links leaf_block_size sector_size sectors_per_block is_zero w = do
  (w', written) ← stream_blocks links leaf_block_size sector_size sectors_per_block 0 is_zero w 0
  out ← finish w'
  ok (out, written)

unfoldable pub count_ones : List Bool → ℕ
count_ones [] = 0
count_ones (true ∷ bits) = suc (count_ones bits)
count_ones (false ∷ bits) = count_ones bits

unfoldable pub to_ascii_lowercase : Bytes → Bytes
to_ascii_lowercase [] = []
to_ascii_lowercase (b ∷ s) = (if leb b'A' b && leb b b'Z' then b + 32 else b) ∷ to_ascii_lowercase s

unfoldable pub ends_with : Bytes → Bytes → Bool
ends_with s suffix =
    leb (length suffix) (length s)
    && bytes_eq (slice s (length s - length suffix) (length suffix)) suffix

-- `name.truncate(name.len() - n)`
unfoldable pub truncated : Bytes → ℕ → Bytes
truncated name n = slice name 0 (length name - n)

-- The name without the endings of an archive.
unfoldable pub stripped : Bytes → Bytes
stripped name =
    let lower = to_ascii_lowercase name in
    let cut = truncated name 4 in
    if ends_with lower (codes ".tar.zst")
    then truncated name 8
    else if ends_with lower (codes ".zst")
    then (if ends_with (to_ascii_lowercase cut) (codes ".tar") then truncated cut 4 else cut)
    else if ends_with lower (codes ".tar")
    then truncated name 4
    else name

unfoldable pub with_extension : Bytes → Bytes
with_extension name =
    let base = if length name == 0 then codes "disk" else name in
    if ends_with (to_ascii_lowercase name) (codes ".vhdx") then name else base ++ codes ".vhdx"

abbrev pub or_disk : Option Bytes → Bytes
or_disk none = codes "disk.vhdx"
or_disk (some name) = name

-- From `file_name` and `to_str` of the output's path.
unfoldable pub inner_archive_name : Option Bytes → Bytes
inner_archive_name file_name = with_extension (stripped (or_disk file_name))

pub record ArchiveReport : Type 0 where
  pub counters : FlattenReport
  pub bytes_uncompressed : ℕ
  pub bytes_compressed : ℕ

module _ ⦃ext : Externals⦄ where
  -- The bytes that the encoder is given, the layout of the disk in them and the counters.
  unfoldable pub archive_stream :
      List ChainLink → Bytes → ℕ → Uuid → Uuid → Result (Bytes × Layout × FlattenReport)
  unfolding stream_payload
  archive_stream [] inner_name mtime data_write_guid file_write_guid = panic
  archive_stream ((leaf, leaf_file) ∷ rest) inner_name mtime data_write_guid file_write_guid = do
    count ← block_count leaf
    let links = (leaf, leaf_file) ∷ rest
    let sector_size = leaf.metadata.logical_sector_size
    let leaf_block_size = block_size leaf
    check_links (virtual_disk_size leaf) sector_size rest
    must (not (sector_size == 0))
    let sectors_per_block = leaf_block_size / sector_size
    is_zero ← analyze_chain_zero_blocks links count leaf_block_size sector_size sectors_per_block
    let zero_blocks = count_ones is_zero
    let params : WriterParams = record {
      virtual_disk_size = virtual_disk_size leaf;
      block_size = leaf_block_size;
      logical_sector_size = sector_size;
      physical_sector_size = leaf.metadata.physical_sector_size;
      fixed = false;
      parent_locator = none;
      log_size = mib;
      data_write_guid = data_write_guid;
      file_write_guid = file_write_guid;
      page_83_data = leaf.metadata.page_83_data;
    }
    must (not (leaf_block_size == 0))
    let chunk_ratio = 2 ^ 23 * sector_size / leaf_block_size
    total_entries ← total_bat_entries count chunk_ratio false
    let layout = compute params (count - zero_blocks) total_entries
    (bat, built_non_zero) ←
        build_bat_for_layout count chunk_ratio false layout.payload_start leaf_block_size is_zero
    header ← write_ustar_header [] inner_name layout.total_size mtime
    w ← begin params bat layout
    (inner, written) ← stream_payload links leaf_block_size sector_size sectors_per_block is_zero w
    ok (
      write_ustar_eof (header ++ inner),
      layout,
      record { blocks_total = count; blocks_written = written; blocks_zero = zero_blocks },
    )

  unfoldable pub flatten_to_zst :
      (Bytes → Result Bytes)
      → FlattenOptions
      → Bool
      → List ChainLink
      → Option Bytes
      → ℕ
      → Uuid
      → Uuid
      → Result (Bytes × ArchiveReport)
  unfolding archive_stream
  flatten_to_zst encoder opts compress_ntfs links file_name mtime data_write_guid file_write_guid =
      do
        guard (not compress_ntfs) (unsupported "--compress-ntfs is incompatible with --zstd")
        guard (not (is_fixed opts.subformat)) (unsupported "--ty fixed is incompatible with --zstd")
        (stream, layout, report) ←
            archive_stream links (inner_archive_name file_name) mtime data_write_guid
              file_write_guid
        compressed ← encoder stream
        ok (
          compressed,
          record {
            counters = report;
            bytes_uncompressed =
                min (layout.total_size + (tar_header_size + tar_eof_size)) (2 ^ 64 - 1);
            bytes_compressed = length compressed;
          },
        )
