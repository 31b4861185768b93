-- ===== src/Bat/Entry.antt =====
-- The packing of state and offset into a BAT word.
use Prim.Native.Nat.{bit_and}
use starweld.Prelude.{ℕ, ◌+◌, ◌*◌, ◌/◌, ◌%◌, ◌^◌, ◌<◌, ◌≡◌, ◌∙◌, arith}
use starweld.Prelude.Bits.{bit_and-mask, bit_or-fields}
use starweld.Format.{mib}
use starweld.Bat.{new_entry, state, file_offset, from_raw, raw_of}

pub raw-new_entry : (s off : ℕ) → (new_entry s off).raw ≡ s % 8 + off / 2 ^ 20 * 2 ^ 20
unfolding new_entry
raw-new_entry s off =
    bit_or-fields 20 (bit_and s 7) (off / 2 ^ 20) (omega (arith, bit_and-mask 3 s))
    ∙ omega (arith, bit_and-mask 3 s)

-- For a state of three bits and an offset that is a multiple of 1 MiB below 2^64, the packed
-- entry gives state and offset back and is a 64-bit word.
pub new_entry_fields :
    (s off : ℕ)
    → s < 8
    → off % mib ≡ 0
    → off < 2 ^ 64
    → (state (new_entry s off) ≡ s)
      × (file_offset (new_entry s off) ≡ off)
      × ((new_entry s off).raw < 2 ^ 64)
unfolding state file_offset
new_entry_fields s off hs ho hw = (
  bit_and-mask 3 _ ∙ omega (arith, raw-new_entry s off),
  omega (arith, raw-new_entry s off),
  omega (arith, raw-new_entry s off),
)

-- Every raw state is some `PayloadState`, and none is lost.
pub raw_of-from_raw : (s : ℕ) → raw_of (from_raw s) ≡ s
unfolding raw_of from_raw
raw_of-from_raw s = ground arith
