-- ===== src/Compact/Copy.antt =====
-- The copy of the blocks.
use starweld.Prelude.{
  ℕ, zero, suc, [], ◌^◌, ◌+◌, ◌≤◌, ◌<◌, ◌≡◌, refl, sym, ap, ap₂, ◌∙◌, arith, true, inl, inr,
}
use starweld.Prelude.{length, ltb, ◌&&◌, Bool-cases}
use starweld.Prelude.Bytes.{Bytes, zeros}
use starweld.Error.{Result, ok, err, panic, ◌>>=◌}
use starweld.IoUtil.{File}
use starweld.IoUtil.Zero.{all_zero}
use starweld.Disk.{VhdxDisk, BlockRead, full, partial, absent, block_size, read_block}
use starweld.Disk.Blocks.{HasSize, read_block-HasSize}
use starweld.Writer.{VhdxWriter, zero_source, buf, write_block}
use starweld.Writer.Blocks.{IsValid, Updates, write_block-Updates}
use starweld.Writer.Sequence.{Written, nothing-Written, Room, Room-one, Room-next, Written-then}
use starweld.Compact.{CompactReport, is_all_zero_aligned, copy_buf, copy_read, copy_blocks}
use starweld.Compact.ZeroTest.{is_all_zero_aligned_lem}

-- The bytes of a block as they are copied.
abbrev pub read_bytes : ℕ → Result BlockRead → Bytes
read_bytes bs (ok (full content)) = content
read_bytes bs (ok (partial payload bitmap)) = payload
read_bytes bs (ok absent) = zeros bs
read_bytes bs (err e) = []
read_bytes bs panic = []

-- One block is written, and counted.
record Copied (w : VhdxWriter) (b : ℕ) (x : Bytes) (report : CompactReport)
    (r : Result (VhdxWriter × CompactReport)) : Type 0 where
  step : Result VhdxWriter
  updates : Updates w b x step
  report' : CompactReport
  returns : r ≡ ok (updates.w', report')
  total_same : report'.blocks_total ≡ report.blocks_total
  counted :
      report'.blocks_written + report'.blocks_zero ≡ report.blocks_written + report.blocks_zero + 1

module _ (w : VhdxWriter) (b : ℕ) (v : IsValid w) (hb : b < w.bat.block_count)
    (room : w.payload_cursor + w.params.block_size < 2 ^ 64) (sparse_size : ℕ)
    (report : CompactReport) where
  copy_zero : Copied w b (zeros w.params.block_size) report (
      write_block w b zero_source >>= λ w'.
      ok (w', record report { blocks_zero = report.blocks_zero + 1 }))
  copy_zero =
      let u = write_block-Updates w b zero_source v hb tt in
      record {
        step = write_block w b zero_source;
        updates = u;
        report' = record report { blocks_zero = report.blocks_zero + 1 };
        returns = simp u.returns;
        total_same = refl;
        counted = omega arith;
      }

  copy_buf-Copied :
      (x : Bytes)
      → length x ≡ w.params.block_size
      → Copied w b x report (copy_buf sparse_size w b x report)
  unfolding copy_buf
  copy_buf-Copied x len =
      elim (Bool-cases (ltb 0 sparse_size && is_all_zero_aligned x sparse_size)) [
        | inl z ↦ rw (z, zeros_of z) copy_zero
        | inr nz ↦
            let u = write_block-Updates w b (buf x) v hb (len, room) in
            rw nz (record {
              step = write_block w b (buf x);
              updates = u;
              report' = record report { blocks_written = report.blocks_written + 1 };
              returns = simp u.returns;
              total_same = refl;
              counted = omega arith;
            })
      ]
    where
      zeros_of :
          (ltb 0 sparse_size && is_all_zero_aligned x sparse_size) ≡ true
          → x ≡ zeros w.params.block_size
      zeros_of z =
          all_zero x (sym (is_all_zero_aligned_lem x sparse_size (ground arith)) ∙ ground arith)
          ∙ ap zeros len

  copy_read-Copied :
      (read : BlockRead)
      → HasSize w.params.block_size read
      → Copied w b
          (read_bytes w.params.block_size (ok read))
          report
          (copy_read sparse_size w b read report)
  unfolding copy_read
  copy_read-Copied absent size = copy_zero
  copy_read-Copied (full content) size = copy_buf-Copied content size
  copy_read-Copied (partial payload bitmap) size = copy_buf-Copied payload size

-- The loop on a disk whose blocks can all be read.
module _ (sparse_size : ℕ) (disk : VhdxDisk) (file : File) (count : ℕ)
    (reads : (b : ℕ) → b < count → (r : BlockRead) × (read_block disk file b ≡ ok r)) where
  abbrev bytes_of : ℕ → Bytes
  bytes_of b = read_bytes (block_size disk) (read_block disk file b)

  joined :
      (n blk : ℕ) (w : VhdxWriter) (report : CompactReport) (read : BlockRead) {w' w'' : VhdxWriter}
      {report' report'' : CompactReport}
      → read_block disk file blk ≡ ok read
      → copy_read sparse_size w blk read report ≡ ok (w', report')
      → copy_blocks sparse_size disk file (blk + 1) n w' report' ≡ ok (w'', report'')
      → copy_blocks sparse_size disk file blk (suc n) w report ≡ ok (w'', report'')
  unfolding copy_blocks
  joined n blk w report read e c h = rw (e, c) h

  -- On a disk whose blocks can be read and a valid dynamic disk of the same block size with room
  -- for them, the copy loop succeeds for every sparse size, each copied block of the new disk
  -- holds the bytes that were read (the payload of a partial block, zeros for an absent one) and
  -- the others what they held, and the counters grow by the number of blocks.
  pub copy_blocks-Written :
      (n blk : ℕ) (w : VhdxWriter) (report : CompactReport)
      → IsValid w
      → blk + n ≤ count
      → count ≤ w.bat.block_count
      → Room w n
      → block_size disk ≡ w.params.block_size
      → (w' : VhdxWriter) × (report' : CompactReport) × (copy_blocks sparse_size disk file blk n w
            report
          ≡ ok (w', report'))
        × Written w blk n bytes_of w'
        × (report'.blocks_written + report'.blocks_zero
            ≡ report.blocks_written + report.blocks_zero + n)
  unfolding copy_blocks
  copy_blocks-Written zero blk w report v hn hc room size =
      (w, report, refl, nothing-Written w blk bytes_of v, omega arith)
  copy_blocks-Written (suc n) blk w report v hn hc room size =
      let (read, e) = reads blk (omega arith) in
      let c =
        copy_read-Copied w blk v (omega arith) (Room-one w n room) sparse_size report read
          (rw size at (read_block-HasSize disk file blk read e)) in
      let u = c.updates in
      let (w'', report'', e', written, counted) =
        copy_blocks-Written n (blk + 1) u.w' c.report' u.valid (omega arith)
          (omega (arith, u.count)) (Room-next u n room)
          (size ∙ sym (ap (λ p. p.block_size) u.params_same)) in
      let copied : bytes_of blk ≡ read_bytes w.params.block_size (ok read) =
        ap₂ read_bytes size e in
      (
        w'',
        report'',
        joined n blk w report read e c.returns e',
        Written-then u n bytes_of w'' copied written,
        omega (arith, counted, c.counted),
      )
