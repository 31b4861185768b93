-- ===== src/Tests/Copies.antt =====
-- Disks of two blocks of 1 MiB that are compacted and flattened.
use starweld.Prelude.{
  ℕ, zero, suc, some, ◌+◌, ◌*◌, ◌≡◌, ◌<◌, refl, ap, true, arith, List, [], ◌∷◌, All,
}
use starweld.Prelude.Bytes.{Bytes, zeros, slice, length-zeros}
use starweld.Error.{Result, ok, ◌>>=◌}
use starweld.Format.{mib}
use starweld.IoUtil.{File, read_exact_at, is_all_zero}
use starweld.IoUtil.Files.{read_exact_at-ok}
use starweld.Metadata
use starweld.Bat.{payload_index, payload_entry, state, file_offset, from_raw}
use starweld.Disk.{
  VhdxDisk, BlockRead, block_size, block_count, read_block, read_present, full, absent,
}
use starweld.Writer.{VhdxWriter}
use starweld.Writer.Blocks.{IsValid, block_content}
use starweld.Writer.Sequence.{Written}
use starweld.Compact.{CompactReport, copy_blocks, is_all_zero_aligned}
use starweld.Compact.Copy.{read_bytes, copy_blocks-Written}
use starweld.Compact.ZeroTest.{is_all_zero_aligned_lem}
use starweld.Flatten.{ChainLink}
use starweld.Flatten.Spec.{merged}
use starweld.Flatten.Link.{Readable}
use starweld.Flatten.Merge.{IsReadable}
use starweld.Flatten.Driver.{FlattenOptions, FlattenReport, FlattenSubformat, flatten_blocks}
use starweld.Flatten.Output.{flatten_blocks-merged}
use starweld.Tests.Chains.{small_disk}
use starweld.Tests.Writing.{writer, writer-IsValid}

is_all_zero_aligned_lem_example :
    is_all_zero_aligned (0 ∷ 0 ∷ 3 ∷ []) 2 ≡ is_all_zero (0 ∷ 0 ∷ 3 ∷ [])
is_all_zero_aligned_lem_example = is_all_zero_aligned_lem (0 ∷ 0 ∷ 3 ∷ []) 2 (omega arith)

-- Block 0 is not present and block 1 is a zero block.
abbrev leaf : VhdxDisk
leaf = small_disk (2 * mib) mib (record { raw = 0 } ∷ record { raw = 2 } ∷ [])

-- One block of 2 MiB, which is the whole file.
abbrev parent : VhdxDisk
parent = small_disk (2 * mib) (2 * mib) (record { raw = 6 } ∷ [])

leaf_reads : (b : ℕ) → b < 2 → (r : BlockRead) × (read_block leaf [] b ≡ ok r)
unfolding block_size Metadata.block_size block_count Metadata.block_count Metadata.div_ceil
    read_block read_present payload_entry payload_index state from_raw
leaf_reads zero h = (absent, refl)
leaf_reads (suc zero) h = (full (zeros mib), refl)
leaf_reads (suc (suc b)) h = absurd (omega arith)

abbrev image : File
image = zeros (2 * mib)

read_image : read_exact_at image 0 (2 * mib) ≡ ok (slice image 0 (2 * mib))
read_image = read_exact_at-ok image 0 (2 * mib) (omega (arith, length-zeros (2 * mib)))

parent_reads : (b : ℕ) → b < 1 → (r : BlockRead) × (read_block parent image b ≡ ok r)
unfolding block_size Metadata.block_size block_count Metadata.block_count Metadata.div_ceil
    read_block read_present payload_entry payload_index state file_offset from_raw
parent_reads zero h =
    (full (slice image 0 (2 * mib)), ap (λ (r : Result Bytes). r >>= λ x. ok (full x)) read_image)
parent_reads (suc b) h = absurd (omega arith)

leaf-Readable : Readable 512 2048 2 leaf []
unfolding block_size Metadata.block_size block_count Metadata.block_count Metadata.div_ceil
leaf-Readable = record {
  size = refl;
  size_pos = omega arith;
  counted = refl;
  small = omega arith;
  reads = leaf_reads;
}

parent-Readable : Readable 512 4096 1 parent image
unfolding block_size Metadata.block_size block_count Metadata.block_count Metadata.div_ceil
parent-Readable = record {
  size = refl;
  size_pos = omega arith;
  counted = refl;
  small = omega arith;
  reads = parent_reads;
}

abbrev chain : List ChainLink
chain = (leaf, []) ∷ (parent, image) ∷ []

chain-IsReadable : All (IsReadable 512) chain
chain-IsReadable = ((2048, 2, leaf-Readable), ((4096, 1, parent-Readable), tt))

abbrev no_report : FlattenReport
no_report = record { blocks_total = 2; blocks_written = 0; blocks_zero = 0 }

abbrev options : FlattenOptions
options = record { subformat = FlattenSubformat.dynamic; elide_zero_blocks = true }

flatten_blocks-merged_example :
    (w' : VhdxWriter) × (report' : FlattenReport) × (flatten_blocks options chain mib 512 2048 0 2
        writer no_report
      ≡ ok (w', report'))
    × IsValid w'
    × (report'.blocks_written + report'.blocks_zero ≡ 2)
    × ((b : ℕ)
        → b < 2
        → (x : Bytes) × (block_content w' b ≡ some x)
          × ((t : ℕ) → t < 2048 → slice x (t * 512) 512 ≡ merged 512 chain (b * 2048 + t)))
flatten_blocks-merged_example =
    flatten_blocks-merged options chain 2048 512 2 (omega arith) (omega arith) chain-IsReadable
      writer no_report writer-IsValid (omega arith) (omega arith) refl

copy_blocks-Written_example :
    (w' : VhdxWriter) × (report' : CompactReport) × (copy_blocks 4096 leaf [] 0 2 writer
        (record { blocks_total = 2; blocks_written = 0; blocks_zero = 0 })
      ≡ ok (w', report'))
    × Written writer 0 2 (λ b. read_bytes (block_size leaf) (read_block leaf [] b)) w'
    × (report'.blocks_written + report'.blocks_zero ≡ 2)
copy_blocks-Written_example =
    copy_blocks-Written 4096 leaf [] 2 leaf_reads 2 0 writer
      (record { blocks_total = 2; blocks_written = 0; blocks_zero = 0 }) writer-IsValid
      (omega arith) (omega arith) (omega arith) (unfold block_size Metadata.block_size in refl)
