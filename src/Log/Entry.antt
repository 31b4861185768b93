-- ===== src/Log/Entry.antt =====
-- The entries of the log and `parse_entry`.
use starweld.Prelude.{ℕ, zero, suc, ◌+◌, ◌*◌, ◌%◌, ◌^◌, ◌||◌, not, Option, none, some}
use starweld.Prelude.{List, [], ◌∷◌, length, ltb, leb, ◌==◌, if◌then◌else◌}
use starweld.Prelude.Bytes.{Bytes, slice, bytes_eq}
use starweld.Prelude.Le.{get_le}
use starweld.Prelude.Options.{◌>>=◌, ◌>>◌, check}
use starweld.Externals.{Externals, Uuid}
use starweld.Guid.{read_guid_at}
use starweld.Format.{log_entry_signature, zero_descriptor_signature, data_descriptor_signature}
use starweld.Format.{data_sector_signature, log_sector_size}

-- `Descriptor::Zero` and `Descriptor::Data`; `data_index` counts the data sectors of the entry.
pub data Descriptor : Type 0 where
  zero_desc : (zero_length file_offset sequence_number : ℕ) → Descriptor
  data_desc :
      (trailing_bytes leading_bytes : Bytes) (file_offset sequence_number data_index : ℕ)
      → Descriptor

pub record LogEntry : Type 0 where
  pub sequence_number : ℕ
  pub flushed_file_offset : ℕ
  pub last_file_offset : ℕ
  pub descriptors : List Descriptor
  pub data_sectors : List Bytes
  pub byte_len : ℕ

-- One descriptor, and the number of data descriptors so far.
unfoldable pub parse_descriptor : Bytes → ℕ → ℕ → ℕ → Option (Descriptor × ℕ)
parse_descriptor buf sequence_number desc_off data_sector_count =
    let sig = slice buf desc_off 4 in
    let file_offset = get_le 8 buf (desc_off + 16) in
    let seq_echo = get_le 8 buf (desc_off + 24) in
    if bytes_eq sig zero_descriptor_signature
    then (if seq_echo == sequence_number
        then some
            (zero_desc (get_le 8 buf (desc_off + 8)) file_offset sequence_number, data_sector_count)
        else none)
    else if bytes_eq sig data_descriptor_signature
    then (if seq_echo == sequence_number
        then some (
          data_desc (slice buf (desc_off + 4) 4) (slice buf (desc_off + 8) 8) file_offset
              sequence_number data_sector_count,
          data_sector_count + 1,
        )
        else none)
    else none

-- The loop over `0..descriptor_count`, which returns the number of data descriptors too.
unfoldable pub parse_descriptors : Bytes → ℕ → ℕ → ℕ → ℕ → Option (List Descriptor × ℕ)
parse_descriptors buf sequence_number desc_off data_sector_count zero = some ([], data_sector_count)
parse_descriptors buf sequence_number desc_off data_sector_count (suc rounds) = do
  check (leb (desc_off + 32) (length buf))
  (d, n) ← parse_descriptor buf sequence_number desc_off data_sector_count
  (ds, total) ← parse_descriptors buf sequence_number (desc_off + 32) n rounds
  some (d ∷ ds, total)

-- The loop that skips the sectors of the descriptors, on fuel: a round passes 128 descriptors.
unfoldable pub skip_sectors : ℕ → ℕ → ℕ → ℕ
skip_sectors zero end sec_off = sec_off
skip_sectors (suc fuel) end sec_off =
    let rest = skip_sectors fuel end (sec_off + log_sector_size) in
    if ltb sec_off end then rest else sec_off

unfoldable pub first_data_sector : ℕ → ℕ
unfolding skip_sectors
first_data_sector descriptor_count =
    skip_sectors descriptor_count (64 + descriptor_count * 32) log_sector_size

-- The loop over `0..data_sector_count`.
unfoldable pub parse_sectors : Bytes → ℕ → ℕ → ℕ → Option (List Bytes)
parse_sectors buf sequence_number sec_off zero = some []
parse_sectors buf sequence_number sec_off (suc rounds) = do
  check (leb (sec_off + log_sector_size) (length buf))
  let sec = slice buf sec_off log_sector_size
  check (bytes_eq (slice sec 0 4) data_sector_signature)
  check (get_le 4 sec 4 * 2 ^ 32 + get_le 4 sec 4092 == sequence_number)
  secs ← parse_sectors buf sequence_number (sec_off + log_sector_size) rounds
  some (sec ∷ secs)

-- The checksum is computed and not compared.
unfoldable pub parse_entry : ⦃ext : Externals⦄ → Bytes → Uuid → Option LogEntry
unfolding parse_descriptors first_data_sector parse_sectors
parse_entry buf expected_log_guid = do
  check (leb 64 (length buf))
  check (bytes_eq (slice buf 0 4) log_entry_signature)
  let entry_length = get_le 4 buf 8
  check (not (entry_length == 0 || not (entry_length % log_sector_size == 0)))
  check (entry_length == length buf)
  let sequence_number = get_le 8 buf 16
  let descriptor_count = get_le 4 buf 24
  check (read_guid_at buf 32 == expected_log_guid)
  (descriptors, data_sector_count) ← parse_descriptors buf sequence_number 64 0 descriptor_count
  data_sectors ←
      parse_sectors buf sequence_number (first_data_sector descriptor_count) data_sector_count
  some (record {
    sequence_number = sequence_number;
    flushed_file_offset = get_le 8 buf 48;
    last_file_offset = get_le 8 buf 56;
    descriptors = descriptors;
    data_sectors = data_sectors;
    byte_len = entry_length;
  })
