-- ===== src/Flatten/Spec.antt =====
-- What the merged disk holds, said sector by sector: each sector comes from the first disk of the
-- chain that holds it, and is zero if none does.
use starweld.Prelude.{ℕ, ◌*◌, ◌/◌, ◌%◌, Option, none, some, List, [], ◌∷◌, if◌then◌else◌}
use starweld.Prelude.Bytes.{Bytes, zeros, slice}
use starweld.Error.{Result, ok, err, panic}
use starweld.IoUtil.{File}
use starweld.Disk.{VhdxDisk, BlockRead, full, partial, absent, block_size, read_block, bit_is_set}
use starweld.Flatten.{ChainLink}

-- The sector at byte `off` of a block that was read.
abbrev pub sector_in : ℕ → Result BlockRead → ℕ → Option Bytes
sector_in ss (ok (full content)) off = some (slice content off ss)
sector_in ss (ok (partial payload bitmap)) off =
    if bit_is_set bitmap (off / ss) then some (slice payload off ss) else none
sector_in ss (ok absent) off = none
sector_in ss (err e) off = none
sector_in ss panic off = none

-- Sector `x` of one disk, counted from the start of the virtual disk.
abbrev pub held : ℕ → VhdxDisk → File → ℕ → Option Bytes
held ss disk file x =
    sector_in ss (read_block disk file (x * ss / block_size disk)) (x * ss % block_size disk)

abbrev pub or_else : Option Bytes → Option Bytes → Option Bytes
or_else (some d) o = some d
or_else none o = o

abbrev pub first_held : ℕ → List ChainLink → ℕ → Option Bytes
first_held ss [] x = none
first_held ss ((disk, file) ∷ links) x = or_else (held ss disk file x) (first_held ss links x)

abbrev pub merged : ℕ → List ChainLink → ℕ → Bytes
merged ss links x = elim (first_held ss links x) [ some d ↦ d | none ↦ zeros ss ]
