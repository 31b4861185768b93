-- ===== src/Format.antt =====
-- The on-disk constants of crates/starweld-core/src/format.rs. A `uuid!` literal is its hexadecimal
-- digits read as a 128-bit number; a byte string is the list of its bytes.
use starweld.Prelude.{ℕ, zero, suc, ◌*◌, [], ◌∷◌}
use starweld.Prelude.Bytes.{Bytes}
use starweld.Externals.{Uuid, Text}
use starweld.Prelude.Text.{codes}
use starweld.Error.{Result, ok, panic}

abbrev pub kib : ℕ
kib = 1024

abbrev pub mib : ℕ
mib = 1024 * kib

abbrev pub file_type_identifier_offset : ℕ
file_type_identifier_offset = 0

abbrev pub file_type_identifier_size : ℕ
file_type_identifier_size = 64 * kib

abbrev pub header_1_offset : ℕ
header_1_offset = 64 * kib

abbrev pub header_2_offset : ℕ
header_2_offset = 128 * kib

abbrev pub header_size : ℕ
header_size = 64 * kib

abbrev pub region_table_1_offset : ℕ
region_table_1_offset = 192 * kib

abbrev pub region_table_2_offset : ℕ
region_table_2_offset = 256 * kib

abbrev pub region_table_size : ℕ
region_table_size = 64 * kib

-- b"vhdxfile"
abbrev pub file_type_signature : Bytes
file_type_signature = b'v' ∷ b'h' ∷ b'd' ∷ b'x' ∷ b'f' ∷ b'i' ∷ b'l' ∷ b'e' ∷ []

abbrev pub header_signature : Bytes
header_signature = b'h' ∷ b'e' ∷ b'a' ∷ b'd' ∷ []

abbrev pub region_signature : Bytes
region_signature = b'r' ∷ b'e' ∷ b'g' ∷ b'i' ∷ []

abbrev pub metadata_signature : Bytes
metadata_signature = b'm' ∷ b'e' ∷ b't' ∷ b'a' ∷ b'd' ∷ b'a' ∷ b't' ∷ b'a' ∷ []

abbrev pub log_entry_signature : Bytes
log_entry_signature = b'l' ∷ b'o' ∷ b'g' ∷ b'e' ∷ []

abbrev pub zero_descriptor_signature : Bytes
zero_descriptor_signature = b'z' ∷ b'e' ∷ b'r' ∷ b'o' ∷ []

abbrev pub data_descriptor_signature : Bytes
data_descriptor_signature = b'd' ∷ b'e' ∷ b's' ∷ b'c' ∷ []

abbrev pub data_sector_signature : Bytes
data_sector_signature = b'd' ∷ b'a' ∷ b't' ∷ b'a' ∷ []

abbrev pub log_sector_size : ℕ
log_sector_size = 4 * kib

abbrev pub region_table_header_size : ℕ
region_table_header_size = 16

abbrev pub region_table_entry_size : ℕ
region_table_entry_size = 32

abbrev pub region_table_max_entries : ℕ
region_table_max_entries = 2047

abbrev pub header_fixed_size : ℕ
header_fixed_size = 4096

abbrev pub payload_block_not_present : ℕ
payload_block_not_present = 0

abbrev pub payload_block_undefined : ℕ
payload_block_undefined = 1

abbrev pub payload_block_zero : ℕ
payload_block_zero = 2

abbrev pub payload_block_unmapped : ℕ
payload_block_unmapped = 3

abbrev pub payload_block_fully_present : ℕ
payload_block_fully_present = 6

abbrev pub payload_block_partially_present : ℕ
payload_block_partially_present = 7

abbrev pub sb_block_not_present : ℕ
sb_block_not_present = 0

abbrev pub sb_block_present : ℕ
sb_block_present = 6

abbrev pub region_guid_bat : Uuid
region_guid_bat = 0x2DC27766F62342009D64115E9BFD4A08

abbrev pub region_guid_metadata : Uuid
region_guid_metadata = 0x8B7CA20647904B9AB8FE575F050F886E

abbrev pub header_offset : ℕ → Result ℕ
header_offset zero = ok header_1_offset
header_offset (suc zero) = ok header_2_offset
header_offset (suc (suc i)) = panic

abbrev pub region_table_offset : ℕ → Result ℕ
region_table_offset zero = ok region_table_1_offset
region_table_offset (suc zero) = ok region_table_2_offset
region_table_offset (suc (suc i)) = panic

abbrev pub region_flag_required : ℕ
region_flag_required = 0x0000_0001

abbrev pub metadata_header_size : ℕ
metadata_header_size = 32

abbrev pub metadata_entry_size : ℕ
metadata_entry_size = 32

abbrev pub metadata_guid_file_parameters : Uuid
metadata_guid_file_parameters = 0xCAA16737FA364D43B3B633F0AA44E76B

abbrev pub metadata_guid_virtual_disk_size : Uuid
metadata_guid_virtual_disk_size = 0x2FA54224CD1B4876B2115DBED83BF4B8

abbrev pub metadata_guid_page_83_data : Uuid
metadata_guid_page_83_data = 0xBECA12ABB2E6452393EFC309E000C746

abbrev pub metadata_guid_logical_sector_size : Uuid
metadata_guid_logical_sector_size = 0x8141BF1DA96F4709BA47F233A8FAAB5F

abbrev pub metadata_guid_physical_sector_size : Uuid
metadata_guid_physical_sector_size = 0xCDA348C7445D44719CC9E9885251C556

abbrev pub metadata_guid_parent_locator : Uuid
metadata_guid_parent_locator = 0xA8D35F2DB30B454DABF7D3D84834AB0C

abbrev pub parent_locator_type_vhdx : Uuid
parent_locator_type_vhdx = 0xB04AEFB7D19E4A81B78925B8E9445913

abbrev pub key_parent_linkage : Text
key_parent_linkage = codes "parent_linkage"

abbrev pub key_parent_linkage2 : Text
key_parent_linkage2 = codes "parent_linkage2"

abbrev pub key_relative_path : Text
key_relative_path = codes "relative_path"

abbrev pub key_volume_path : Text
key_volume_path = codes "volume_path"

abbrev pub key_absolute_win32_path : Text
key_absolute_win32_path = codes "absolute_win32_path"

abbrev pub file_parameters_flag_leave_blocks_allocated : ℕ
file_parameters_flag_leave_blocks_allocated = 0x0000_0001

abbrev pub file_parameters_flag_has_parent : ℕ
file_parameters_flag_has_parent = 0x0000_0002

abbrev pub metadata_flag_is_user : ℕ
metadata_flag_is_user = 0x0000_0001

abbrev pub metadata_flag_is_virtual_disk : ℕ
metadata_flag_is_virtual_disk = 0x0000_0002

abbrev pub metadata_flag_is_required : ℕ
metadata_flag_is_required = 0x0000_0004
