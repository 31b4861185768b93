-- ===== src/Tests/Merges.antt =====
-- A child of two blocks of a MiB, the first partly present and the second absent, is merged into a
-- parent that has a part of the second.
use starweld.Prelude.{ℕ, zero, suc, ◌+◌, ◌*◌, [], ◌∷◌}
use starweld.Prelude.Bytes.{zeros, slice, splice}
use starweld.Format.{mib}
use starweld.IoUtil.{File, read_at}
use starweld.Metadata
use starweld.Disk.{VhdxDisk, BlockRead, partial, absent, block_count}
use starweld.Merge.{MergeState}
use starweld.Tests.Chains.{small_disk}

abbrev sector_size : ℕ
sector_size = 131072

-- The bitmap of the chunk is at the start of the file, block 0 behind the first MiB.
abbrev child : VhdxDisk
child =
    let disk =
      small_disk (2 * mib) mib
        (record { raw = 7 + mib } ∷ record { raw = 0 } ∷ record { raw = 6 } ∷ []) in
    record disk {
      metadata = record disk.metadata { logical_sector_size = sector_size };
      bat = record disk.bat { chunk_ratio = 2; block_count = 2 };
    }

-- Opaque, as are the bytes of the parent.
child_file : File
child_file = zeros (2 * mib)

abbrev reads : ℕ → BlockRead
reads zero = partial (slice child_file mib mib) (splice (zeros 1) 0 (read_at child_file 0 1))
reads (suc k) = absent

parent_bytes : File
parent_bytes = zeros (2 * mib)

abbrev parent : MergeState
parent = record {
  parent_file = parent_bytes;
  parent_bat = record {
    entries = record { raw = 0 } ∷ record { raw = 7 + mib } ∷ [];
    chunk_ratio = 2;
    block_count = 2;
  };
  payload_cursor = 2 * mib;
  blocks_copied = 0;
  partial_sectors_copied = 0;
}
