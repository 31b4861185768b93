-- ===== src/Tests/Whole.antt =====
-- A disk of two blocks of a MiB, the first absent, is put into an archive.
use starweld.Prelude.{ℕ, zero, suc, ◌*◌, ◌≡◌, refl, arith, [], ◌∷◌, length, All}
use starweld.Prelude.Text.{codes}
use starweld.Prelude.Bytes.{Bytes, zeros, slice, length-zeros}
use starweld.Prelude.Le.{IsByte}
use starweld.Format.{mib}
use starweld.IoUtil.{File}
use starweld.IoUtil.Files.{read_exact_at-ok}
use starweld.Metadata
use starweld.Bat.{payload_index, payload_entry, state, file_offset, from_raw, total_bat_entries}
use starweld.Disk.{VhdxDisk, full, absent, read_block, read_present, block_size, block_count}
use starweld.Flatten.Driver.{check_links}
use starweld.Flatten.Link.{Readable}
use starweld.Flatten.Archive.{archive_stream}
use starweld.Flatten.Archive.Spec.{IsArchived, archive_params}
use starweld.Flatten.Archive.Whole.{archive_stream-IsArchived}
use starweld.Tests.Chains.{small_disk}
use starweld.Tests.Crates.{crates}

abbrev sector_size : ℕ
sector_size = 131072

abbrev disk : VhdxDisk
disk =
    let plain = small_disk (2 * mib) mib (record { raw = 0 } ∷ record { raw = 6 } ∷ []) in
    record plain { metadata = record plain.metadata { logical_sector_size = sector_size } }

-- Opaque, so that nothing computes its bytes.
disk_file : File
disk_file = zeros mib

length-disk_file : length disk_file ≡ mib
unfolding disk_file
length-disk_file = length-zeros mib

disk-Readable : Readable sector_size 8 2 disk disk_file
unfolding block_size Metadata.block_size block_count Metadata.block_count Metadata.div_ceil
    read_block read_present payload_entry payload_index state file_offset from_raw
disk-Readable = record {
  size = refl;
  size_pos = omega arith;
  counted = refl;
  small = omega arith;
  reads = elim [
    | zero ↦ λ h. (absent, refl)
    | suc zero ↦ λ h. (
      full (slice disk_file 0 mib),
      rw (read_exact_at-ok disk_file 0 mib (omega (arith, length-disk_file))) refl,
    )
    | suc (suc b) ↦ λ h. absurd (omega arith)
  ];
}

abbrev name : Bytes
name = codes "flat.vhdx"

name-IsByte : All IsByte name
name-IsByte = omega arith

archive_stream-IsArchived_example :
    IsArchived ⦃ext = crates⦄
      ((disk, disk_file) ∷ [])
      (archive_params disk 1 2)
      8
      sector_size
      2
      name
      1700000000
      (archive_stream ⦃ext = crates⦄ ((disk, disk_file) ∷ []) name 1700000000 1 2)
archive_stream-IsArchived_example =
    archive_stream-IsArchived disk disk_file [] name 1700000000 1 2 8 2 2 (omega arith)
      (unfold block_size Metadata.block_size in refl)
      (unfold block_size Metadata.block_size in omega arith)
      (unfold block_size Metadata.block_size in refl)
      (unfold block_count Metadata.block_count Metadata.div_ceil in refl) (omega arith)
      (unfold check_links in refl) ((8, 2, disk-Readable), tt)
      (unfold block_size Metadata.block_size in omega arith)
      (unfold block_size Metadata.block_size in omega arith)
      (unfold block_size Metadata.block_size total_bat_entries in refl)
      (unfold block_size Metadata.block_size in omega arith) name-IsByte (omega arith) (omega arith)
