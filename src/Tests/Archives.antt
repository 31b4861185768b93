-- ===== src/Tests/Archives.antt =====
-- Headers of archives.
use starweld.Prelude.{◌^◌, ◌≤◌, ◌<◌, ◌≡◌, refl, [], ◌∷◌, ◌++◌, length, replicate, arith}
use starweld.Prelude.Text.{codes}
use starweld.Prelude.Bytes.{Bytes, slice, byte}
use starweld.Error.{err, unsupported}
use starweld.TarHeader.{name_len, write_ustar_header, write_octal_field}
use starweld.TarHeader.{format_octal, octal_len}
use starweld.Prelude.{some, inl}
use starweld.Prelude.Bytes.{bytes_eq}
use starweld.Flatten.Archive.{
  inner_archive_name, with_extension, stripped, ends_with, to_ascii_lowercase, truncated,
}
use starweld.Flatten.Archive.Names.{inner_archive_name_lem}
use starweld.TarHeader.Fields.{IsUstar, write_ustar_header_lem}

abbrev flat_name : Bytes
flat_name = codes "flat.vhdx"

-- A disk of 16 GiB, whose size is a binary number in the header.
write_ustar_header_lem_example :
    (length flat_name ≤ name_len
      → IsUstar [] flat_name
          (2 ^ 34)
          1700000000
          (write_ustar_header [] flat_name (2 ^ 34) 1700000000))
    × (name_len < length flat_name
        → write_ustar_header [] flat_name (2 ^ 34) 1700000000
          ≡ err (unsupported "tar entry filename too long is not supported"))
write_ustar_header_lem_example =
    write_ustar_header_lem [] flat_name (2 ^ 34) 1700000000 (omega arith) (omega arith)
      (omega arith)

mode_field : write_octal_field 7 0x1A4 ≡ codes "0000644" ++ 0 ∷ []
unfolding write_octal_field format_octal octal_len replicate slice byte
mode_field = refl

-- The names of the source's tests.
abbrev named : Bytes → Bytes
named name = inner_archive_name (some name)

names :
    (named (codes "flat.vhdx.tar.zst") ≡ codes "flat.vhdx")
    × (named (codes "flat.vhdx.zst") ≡ codes "flat.vhdx")
    × (named (codes "flat.tar.zst") ≡ codes "flat.vhdx")
    × (named (codes "backup.tar.zst") ≡ codes "backup.vhdx")
    × (named (codes "DISK.VHDX.TAR.ZST") ≡ codes "DISK.VHDX")
    × (named (codes ".zst") ≡ codes "disk.vhdx")
unfolding inner_archive_name with_extension stripped ends_with to_ascii_lowercase truncated bytes_eq
    slice byte
names = (refl, refl, refl, refl, refl, refl)

inner_archive_name_lem_example :
    inner_archive_name (some (codes "Disk0" ++ (codes ".VHDX" ++ codes ".Tar.Zst")))
    ≡ codes "Disk0" ++ codes ".VHDX"
inner_archive_name_lem_example =
    inner_archive_name_lem (codes "Disk0") (codes ".VHDX") (unfold to_ascii_lowercase in refl)
      (codes ".Tar.Zst") (inl (unfold to_ascii_lowercase in refl))
