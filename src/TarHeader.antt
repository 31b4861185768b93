-- ===== src/TarHeader.antt =====
-- crates/starweld-core/src/tar_header.rs: the header of a tar archive with one file, over a sink
-- that is the list of its bytes.
pub mod Octal
pub mod Size
pub mod Fields
use starweld.Prelude.{ℕ, zero, suc, ◌+◌, ◌-◌, ◌*◌, ◌/◌, ◌%◌, ◌^◌, min, max, [], ◌∷◌, ◌++◌, length}
use starweld.Prelude.{replicate, ltb, leb, ◌==◌, if◌then◌else◌}
use starweld.Prelude.Bytes.{Bytes, zeros, slice, splice, byte_total}
use starweld.Prelude.Le.{le_bytes}
use starweld.Error.{Result, ok, panic, ◌>>=◌, ◌>>◌, must, guard, unsupported}

abbrev pub tar_block_size : ℕ
tar_block_size = 512

abbrev pub tar_header_size : ℕ
tar_header_size = tar_block_size

abbrev pub tar_eof_size : ℕ
tar_eof_size = 2 * tar_block_size

abbrev pub name_len : ℕ
name_len = 100

-- `0o77_777_777_777`
abbrev pub max_octal_size : ℕ
max_octal_size = 8 ^ 11 - 1

-- The lowest `w` octal digits of `v`, highest first.
unfoldable pub octal_digits : ℕ → ℕ → Bytes
octal_digits zero v = []
octal_digits (suc w) v = octal_digits w (v / 8) ++ (b'0' + v % 8) ∷ []

-- The number of octal digits of a number; the 64 bits of a `u64` have 22 at most.
unfoldable pub octal_len : ℕ → ℕ → ℕ
octal_len zero v = 1
octal_len (suc fuel) v = let rest = octal_len fuel (v / 8) + 1 in if ltb v 8 then 1 else rest

-- `format!("{:0width$o}", value)`
unfoldable pub format_octal : ℕ → ℕ → Bytes
unfolding octal_digits
format_octal width value = octal_digits (max width (octal_len 21 value)) value

-- The low-order digits in a buffer of `width + 1` bytes, with zeros before them and a NUL behind.
unfoldable pub fill_field : ℕ → Bytes → Bytes
fill_field width bytes =
    let n = min (length bytes) width in
    let off = width - n in replicate off b'0' ++ (slice bytes (length bytes - n) n ++ 0 ∷ [])

-- What `write_octal_field` leaves in its buffer.
unfoldable pub write_octal_field : ℕ → ℕ → Bytes
unfolding fill_field
write_octal_field width value = fill_field width (format_octal width value)

-- `to_be_bytes`
unfoldable pub be_bytes : ℕ → ℕ → Bytes
be_bytes zero v = []
be_bytes (suc w) v = be_bytes w (v / 256) ++ (v % 256) ∷ []

-- What `write_size_field` leaves in its 12 bytes; a copy of another length is a panic.
unfoldable pub write_size_field : ℕ → Result Bytes
write_size_field size =
    let bytes = format_octal 11 size in
    if leb size max_octal_size
    then must (length bytes == 11) >> ok (bytes ++ 0 ∷ [])
    else ok (0x80 ∷ (zeros 3 ++ be_bytes 8 size))

-- `b"ustar\0"`, `b"00"` and `b"root"`.
abbrev pub magic : Bytes
magic = b'u' ∷ b's' ∷ b't' ∷ b'a' ∷ b'r' ∷ 0 ∷ []

abbrev pub version : Bytes
version = b'0' ∷ b'0' ∷ []

abbrev pub root : Bytes
root = b'r' ∷ b'o' ∷ b'o' ∷ b't' ∷ []

-- The fields in the order of their writes, the checksum as eight spaces.
unfoldable pub header_fields : Bytes → Bytes → ℕ → Bytes
header_fields name size_field mtime =
    let named = splice (zeros tar_header_size) 0 name in
    let mode = splice named 100 (write_octal_field 7 0x1A4) in
    let uid = splice mode 108 (write_octal_field 7 0) in
    let gid = splice uid 116 (write_octal_field 7 0) in
    let sized = splice gid 124 size_field in
    let timed = splice sized 136 (write_octal_field 11 mtime) in
    let seeded = splice timed 148 (replicate 8 b' ') in
    let typed = splice seeded 156 (b'0' ∷ []) in
    let versioned = splice (splice typed 257 magic) 263 version in
    let owned = splice (splice versioned 265 root) 297 root in
    splice (splice owned 329 (write_octal_field 7 0)) 337 (write_octal_field 7 0)

unfoldable pub write_ustar_header : Bytes → Bytes → ℕ → ℕ → Result Bytes
write_ustar_header out name size mtime = do
  guard (leb (length name) name_len) (unsupported "tar entry filename too long is not supported")
  size_field ← write_size_field size
  let h = header_fields name size_field mtime
  let chk_bytes = format_octal 6 (byte_total h % 2 ^ 32)
  must (length chk_bytes == 6)
  ok (out ++ splice (splice h 148 chk_bytes) 154 (0 ∷ b' ' ∷ []))

unfoldable pub write_ustar_eof : Bytes → Bytes
write_ustar_eof out = out ++ zeros tar_eof_size

unfoldable pub padding_to_block : ℕ → ℕ
padding_to_block size = let r = size % tar_block_size in if r == 0 then 0 else tar_block_size - r
