-- ===== src/Flatten/Archive/Spec.antt =====
-- What an archive promises: one file, a disk that has the merged blocks of the chain.
use starweld.Prelude.{ℕ, ◌+◌, ◌<◌, ◌≡◌, refl, arith}
use starweld.Prelude.{Bool, true, false, none, List, [], ◌∷◌, ◌++◌, length}
use starweld.Prelude.Bytes.{Bytes, zeros, slice}
use starweld.Externals.{Externals, Uuid}
use starweld.Error.{Result, ok}
use starweld.Format.{mib}
use starweld.Disk.{VhdxDisk, block_size, virtual_disk_size}
use starweld.Bat.{Bat, encode}
use starweld.Writer.{WriterParams}
use starweld.ZstWriter.{Layout, begin}
use starweld.ZstWriter.Table.{non_zero}
use starweld.ZstWriter.Front.{Begun}
use starweld.TarHeader.{write_ustar_header, tar_eof_size}
use starweld.Flatten.{ChainLink}
use starweld.Flatten.Driver.{FlattenReport}
use starweld.Flatten.Archive.{count_ones}
use starweld.Flatten.Archive.Payload.{BlockIn}

pub zero_and_not : (bits : List Bool) → count_ones bits + non_zero bits ≡ length bits
unfolding count_ones
zero_and_not [] = refl
zero_and_not (true ∷ bits) = omega (arith, zero_and_not bits)
zero_and_not (false ∷ bits) = omega (arith, zero_and_not bits)

-- How the new disk is written.
abbrev pub archive_params : VhdxDisk → Uuid → Uuid → WriterParams
archive_params leaf data_write_guid file_write_guid = record {
  virtual_disk_size = virtual_disk_size leaf;
  block_size = block_size leaf;
  logical_sector_size = leaf.metadata.logical_sector_size;
  physical_sector_size = leaf.metadata.physical_sector_size;
  fixed = false;
  parent_locator = none;
  log_size = mib;
  data_write_guid = data_write_guid;
  file_write_guid = file_write_guid;
  page_83_data = leaf.metadata.page_83_data;
}

-- A one-file archive with a disk that has the merged blocks.
pub record IsArchived ⦃ext : Externals⦄ (links : List ChainLink) (params : WriterParams)
    (n ss count : ℕ) (name : Bytes) (mtime : ℕ) (r : Result (Bytes × Layout × FlattenReport))
    : Type 0 where
  pub stream : Bytes
  pub layout : Layout
  pub report : FlattenReport
  pub returns : r ≡ ok (stream, layout, report)
  pub header : Bytes
  pub inner : Bytes
  pub parts : stream ≡ (header ++ inner) ++ zeros tar_eof_size
  pub described : write_ustar_header [] name (length inner) mtime ≡ ok header
  pub bat : Bat
  pub size : length inner ≡ layout.bat_offset + layout.bat_length
  pub front : Begun params bat layout (begin params bat layout)
  pub front_kept : slice inner 0 (layout.metadata_offset + layout.metadata_length) ≡ front.w.out
  pub table : slice inner layout.bat_offset (length (encode bat)) ≡ encode bat
  pub blocks : (k : ℕ) → k < count → BlockIn links n ss bat inner k
  pub counted : report.blocks_written + report.blocks_zero ≡ count
