-- ===== src/Tests/Chains.antt =====
-- A chain of two small disks: a leaf with blocks of two sectors and a parent with one block of four.
use starweld.Prelude.{
  ℕ, zero, suc, ◌+◌, ◌*◌, ◌≡◌, ◌<◌, refl, true, false, none, arith, List, [], ◌∷◌, Bool, length,
  All,
}
use starweld.Prelude.Bytes.{Bytes, byte, slice}
use starweld.Externals.{nil}
use starweld.Error.{ok}
use starweld.IoUtil.{File, read_exact_at}
use starweld.Header.{blank}
use starweld.Region.{RegionEntry}
use starweld.Metadata
use starweld.Bat.{BatEntry, payload_index, payload_entry, state, file_offset, from_raw}
use starweld.Disk.{VhdxDisk, block_size, block_count, read_block, read_present, full, absent}
use starweld.Flatten.{ChainLink, merge_block, analyze_chain_zero_blocks}
use starweld.Flatten.Spec.{merged}
use starweld.Flatten.Link.{Readable}
use starweld.Flatten.Merge.{IsReadable, merge_block-merged}
use starweld.Flatten.Scan.{SaysZero, analyze_chain_zero_blocks_lem}

abbrev nowhere : RegionEntry
nowhere = record { guid = nil; file_offset = 0; length_bytes = 0; required = true }

-- A disk of `size` bytes with blocks of `bs` bytes and these words in its table.
abbrev pub small_disk : ℕ → ℕ → List BatEntry → VhdxDisk
small_disk size bs entries = record {
  read_only = true;
  header_pair = record {
    header_0 = blank;
    header_1 = blank;
    raw_0 = [];
    raw_1 = [];
    active_index = 0;
  };
  region_pair = record { table_0 = none; table_1 = none; active_index = 0 };
  region = record { checksum_ok = true; entries = [] };
  bat_region = nowhere;
  metadata_region = nowhere;
  metadata = record {
    file_parameters = record {
      block_size = bs;
      leave_blocks_allocated = false;
      has_parent = false;
    };
    virtual_disk_size = size;
    logical_sector_size = 2;
    physical_sector_size = 2;
    page_83_data = nil;
    parent_locator = none;
    extras = [];
  };
  bat = record { entries = entries; chunk_ratio = 8; block_count = length entries };
  file_len = 8;
}

-- Block 0 of the leaf is not present, block 1 begins at offset 0 of its file.
abbrev pub leaf : VhdxDisk
leaf = small_disk 8 4 (record { raw = 0 } ∷ record { raw = 6 } ∷ [])

abbrev parent : VhdxDisk
parent = small_disk 8 8 (record { raw = 6 } ∷ [])

abbrev pub leaf_file : File
leaf_file = 51 ∷ 52 ∷ 53 ∷ 54 ∷ []

abbrev parent_file : File
parent_file = 1 ∷ 2 ∷ 0 ∷ 0 ∷ 5 ∷ 6 ∷ 7 ∷ 8 ∷ []

pub leaf-Readable : Readable 2 2 2 leaf leaf_file
unfolding block_size Metadata.block_size block_count Metadata.block_count Metadata.div_ceil
    read_block read_present payload_entry payload_index state file_offset from_raw read_exact_at
    slice byte
leaf-Readable = record {
  size = refl;
  size_pos = omega arith;
  counted = refl;
  small = omega arith;
  reads = elim [
    | zero ↦ λ h. (absent, refl)
    | suc zero ↦ λ h. (full leaf_file, refl)
    | suc (suc b) ↦ λ h. absurd (omega arith)
  ];
}

parent-Readable : Readable 2 4 1 parent parent_file
unfolding block_size Metadata.block_size block_count Metadata.block_count Metadata.div_ceil
    read_block read_present payload_entry payload_index state file_offset from_raw read_exact_at
    slice byte
parent-Readable = record {
  size = refl;
  size_pos = omega arith;
  counted = refl;
  small = omega arith;
  reads = elim [ zero ↦ λ h. (full parent_file, refl) | suc b ↦ λ h. absurd (omega arith) ];
}

abbrev chain : List ChainLink
chain = (leaf, leaf_file) ∷ (parent, parent_file) ∷ []

chain-IsReadable : All (IsReadable 2) chain
chain-IsReadable = ((2, 2, leaf-Readable), ((4, 1, parent-Readable), tt))

merge_block-merged_example :
    (composite : Bytes) × (merge_block chain 0 4 2 2 ≡ ok composite)
    × (length composite ≡ 4)
    × ((t : ℕ) → t < 2 → slice composite (t * 2) 2 ≡ merged 2 chain (0 + t))
merge_block-merged_example =
    merge_block-merged chain 0 2 2 (omega arith) (omega arith) chain-IsReadable

analyze_chain_zero_blocks_lem_example :
    (bits : List Bool) × (analyze_chain_zero_blocks chain 2 4 2 2 ≡ ok bits)
    × (length bits ≡ 2)
    × SaysZero 2 2 chain 0 bits
analyze_chain_zero_blocks_lem_example =
    analyze_chain_zero_blocks_lem chain 2 2 (omega arith) chain-IsReadable 2 (omega arith)
