-- ===== src/IoUtil.antt =====
-- crates/starweld-core/src/io_util.rs over a file that is the list of its bytes. A write or an
-- extension always succeeds: a full disk and failing hardware are not modelled.
pub mod Align
pub mod Files
pub mod Zero
use starweld.Prelude.{ℕ, zero, suc, ◌+◌, ◌-◌, ◌%◌, min, List, [], ◌∷◌, ◌++◌, Bool, ◌&&◌, true}
use starweld.Prelude.{wrap64, length, ltb, leb, ◌==◌, if◌then◌else◌}
use starweld.Prelude.Bytes.{Bytes, zeros, slice, splice}
use starweld.Error.{Error, io, Result, ok, err}

abbrev pub File : Type 0
File = Bytes

-- `File::set_len`: the kept bytes, and zeros behind them.
unfoldable pub set_len : File → ℕ → File
set_len file n = slice file 0 n

-- `read_exact` fails at the end of the file, but an empty read never does.
unfoldable pub read_exact_at : File → ℕ → ℕ → Result Bytes
read_exact_at file offset n =
    if n == 0
    then ok []
    else if leb (offset + n) (length file)
    then ok (slice file offset n)
    else err io

-- A write past the end extends the file, with zeros in the gap; an empty one does nothing.
unfoldable pub write_all_at : File → ℕ → Bytes → File
unfolding set_len
write_all_at file offset [] = file
write_all_at file offset (b ∷ x) =
    let end = offset + length (b ∷ x) in
    splice (if ltb (length file) end then set_len file end else file) offset (b ∷ x)

-- The part of `buf` that was read; the loop ends only at the end of the file.
unfoldable pub read_at : File → ℕ → ℕ → Bytes
read_at file offset n = slice file offset (min n (length file - offset))

-- `align` is positive at every call.
unfoldable pub align_up : ℕ → ℕ → ℕ
align_up n align = let r = n % align in if r == 0 then n else wrap64 (n + (align - r))

unfoldable pub is_all_zero : Bytes → Bool
is_all_zero [] = true
is_all_zero (b ∷ buf) = (b == 0) && is_all_zero buf

-- The loop of `zero_range`, on fuel: each round writes a byte at least, so `remaining` rounds do.
unfoldable pub zero_range_loop : ℕ → File → ℕ → ℕ → File
zero_range_loop zero file cursor remaining = file
zero_range_loop (suc fuel) file cursor remaining =
    let n = min remaining 65536 in
    let rest =
      zero_range_loop fuel (write_all_at file cursor (zeros n)) (cursor + n) (remaining - n) in
    if remaining == 0 then file else rest

unfoldable pub zero_range : File → ℕ → ℕ → File
unfolding zero_range_loop
zero_range file offset n = zero_range_loop n file offset n
