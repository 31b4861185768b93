-- ===== src/Bat.antt =====
-- The block allocation table, crates/starweld-core/src/bat.rs.
pub mod Entry
pub mod Index
pub mod Access
pub mod Codec
use Prim.Native.Nat.{bit_and, bit_or}
use starweld.Prelude.{ℕ, zero, suc, ◌+◌, ◌-◌, ◌*◌, ◌/◌, ◌%◌, ◌^◌, min, Bool, Option, List, [], ◌∷◌}
use starweld.Prelude.{length, get_elem?, set, ltb, ◌==◌, if◌then◌else◌, wrap64}
use starweld.Prelude.Bytes.{Bytes, zeros}
use starweld.Prelude.Le.{get_le, put_le}
use starweld.Error.{Result, ok, panic, ◌>>=◌}
use starweld.Format.{payload_block_not_present, payload_block_undefined, payload_block_zero}
use starweld.Format.{payload_block_unmapped, payload_block_fully_present}
use starweld.Format.{payload_block_partially_present, sb_block_not_present, sb_block_present}

-- A word of 64 bits: the state in bits 0 to 2, the file offset in MiB from bit 20 on.
pub record BatEntry : Type 0 where
  pub raw : ℕ

abbrev pub empty_entry : BatEntry
empty_entry = record { raw = 0 }

-- `BatEntry::new`. The shift back cannot leave the 64 bits of `file_offset`.
unfoldable pub new_entry : ℕ → ℕ → BatEntry
new_entry state file_offset =
    let mb = file_offset / 2 ^ 20 in record { raw = bit_or (bit_and state 0x7) (mb * 2 ^ 20) }

unfoldable pub state : BatEntry → ℕ
state e = bit_and e.raw 0x7

unfoldable pub file_offset : BatEntry → ℕ
file_offset e = e.raw / 2 ^ 20 * 2 ^ 20

pub record Bat : Type 0 where
  pub entries : List BatEntry
  pub chunk_ratio : ℕ
  pub block_count : ℕ

-- A chunk is `chunk_ratio` payload entries and one sector-bitmap entry. `chunk_ratio` is positive
-- where these are called: `total_bat_entries` has panicked before if it is not.
unfoldable pub payload_index : ℕ → ℕ → ℕ
payload_index virt_block chunk_ratio =
    let chunk = virt_block / chunk_ratio in
    let offset = virt_block % chunk_ratio in wrap64 (chunk * (chunk_ratio + 1) + offset)

unfoldable pub sector_bitmap_index : ℕ → ℕ → ℕ
sector_bitmap_index virt_block chunk_ratio =
    let chunk = virt_block / chunk_ratio in wrap64 (chunk * (chunk_ratio + 1) + chunk_ratio)

unfoldable pub total_bat_entries : ℕ → ℕ → Bool → Result ℕ
total_bat_entries block_count chunk_ratio has_parent =
    let last_block = block_count - 1 in
    let last_chunk = last_block / chunk_ratio in
    let in_chunk = last_block % chunk_ratio in
    if block_count == 0
    then ok 0
    else if chunk_ratio == 0
    then panic
    else if has_parent
    then ok (wrap64 ((last_chunk + 1) * (chunk_ratio + 1)))
    else ok (wrap64 (last_chunk * (chunk_ratio + 1) + in_chunk + 1))

-- The loop of `Bat::parse`, at entry `i` with `count` to go.
unfoldable pub parse_entries : Bytes → ℕ → ℕ → List BatEntry
parse_entries buf i zero = []
parse_entries buf i (suc count) =
    record { raw = get_le 8 buf (i * 8) } ∷ parse_entries buf (i + 1) count

unfoldable pub parse : Bytes → ℕ → ℕ → Bool → Result Bat
unfolding parse_entries
parse buf block_count chunk_ratio has_parent = do
  total_entries ← total_bat_entries block_count chunk_ratio has_parent
  let max_from_buf = length buf / 8
  let limit = min total_entries max_from_buf
  ok (record {
    entries = parse_entries buf 0 limit;
    chunk_ratio = chunk_ratio;
    block_count = block_count;
  })

unfoldable pub payload_entry : Bat → ℕ → Option BatEntry
payload_entry bat virt_block = get_elem? bat.entries (payload_index virt_block bat.chunk_ratio)

unfoldable pub set_payload_entry : Bat → ℕ → BatEntry → Bat
set_payload_entry bat virt_block e =
    let idx = payload_index virt_block bat.chunk_ratio in
    if ltb idx (length bat.entries) then record bat { entries = set bat.entries idx e } else bat

unfoldable pub sector_bitmap_entry : Bat → ℕ → Option BatEntry
sector_bitmap_entry bat virt_block =
    get_elem? bat.entries (sector_bitmap_index virt_block bat.chunk_ratio)

unfoldable pub set_sector_bitmap_entry : Bat → ℕ → BatEntry → Bat
set_sector_bitmap_entry bat virt_block e =
    let idx = sector_bitmap_index virt_block bat.chunk_ratio in
    if ltb idx (length bat.entries) then record bat { entries = set bat.entries idx e } else bat

-- The loop of `Bat::encode`, at entry `i`.
unfoldable pub encode_entries : Bytes → ℕ → List BatEntry → Bytes
encode_entries buf i [] = buf
encode_entries buf i (e ∷ es) = encode_entries (put_le 8 buf (i * 8) e.raw) (i + 1) es

unfoldable pub encode : Bat → Bytes
unfolding encode_entries
encode bat = encode_entries (zeros (length bat.entries * 8)) 0 bat.entries

pub data PayloadState : Type 0 where
  not_present undefined zero_block unmapped fully_present partially_present : PayloadState
  other : ℕ → PayloadState

unfoldable pub from_raw : ℕ → PayloadState
from_raw s =
    if s == payload_block_not_present
    then not_present
    else if s == payload_block_undefined
    then undefined
    else if s == payload_block_zero
    then zero_block
    else if s == payload_block_unmapped
    then unmapped
    else if s == payload_block_fully_present
    then fully_present
    else if s == payload_block_partially_present
    then partially_present
    else other s

unfoldable pub raw_of : PayloadState → ℕ
raw_of not_present = payload_block_not_present
raw_of undefined = payload_block_undefined
raw_of zero_block = payload_block_zero
raw_of unmapped = payload_block_unmapped
raw_of fully_present = payload_block_fully_present
raw_of partially_present = payload_block_partially_present
raw_of (other o) = o

pub data SectorBitmapState : Type 0 where
  not_present present : SectorBitmapState
  other : ℕ → SectorBitmapState

unfoldable pub bitmap_from_raw : ℕ → SectorBitmapState
bitmap_from_raw s =
    if s == sb_block_not_present
    then SectorBitmapState.not_present
    else if s == sb_block_present
    then SectorBitmapState.present
    else SectorBitmapState.other s
