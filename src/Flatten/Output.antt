-- ===== src/Flatten/Output.antt =====
-- The flattened disk against the chain.
use starweld.Prelude.Products.{sector_le, mul_mono}
use starweld.Prelude.{
  ℕ, zero, suc, [], ◌^◌, ◌+◌, ◌*◌, ◌≤◌, ◌<◌, ◌≡◌, refl, sym, ap, ◌∙◌, arith, true, not, ◌&&◌, inl,
  inr,
}
use starweld.Prelude.{some, List, All, length, leb, ltb, Bool-cases}
use starweld.Prelude.Bytes.{Bytes, slice, zeros}
use starweld.Error.{Result, ok, err, panic}
use starweld.IoUtil.{is_all_zero}
use starweld.IoUtil.Zero.{all_zero}
use starweld.Writer.{VhdxWriter, zero_source, buf, write_block}
use starweld.Writer.Blocks.{IsValid, Updates, block_content, write_block-Updates}
use starweld.Writer.Sequence.{Written, nothing-Written, Room, Room-one, Room-next, Written-then}
use starweld.Flatten.{ChainLink, merge_block}
use starweld.Flatten.Spec.{merged}
use starweld.Flatten.Merge.{IsReadable, merge_block-merged}
use starweld.Flatten.Driver.{FlattenOptions, FlattenReport, flatten_block, flatten_blocks, is_fixed}

abbrev or_nothing : Result Bytes → Bytes
or_nothing (ok x) = x
or_nothing (err e) = []
or_nothing panic = []

-- One merged block is written, and counted.
record Flattened (w : VhdxWriter) (b : ℕ) (x : Bytes) (report : FlattenReport)
    (r : Result (VhdxWriter × FlattenReport)) : Type 0 where
  step : Result VhdxWriter
  updates : Updates w b x step
  report' : FlattenReport
  returns : r ≡ ok (updates.w', report')
  counted :
      report'.blocks_written + report'.blocks_zero ≡ report.blocks_written + report.blocks_zero + 1

flatten_block-Flattened :
    (opts : FlattenOptions) (w : VhdxWriter) (b : ℕ) (x : Bytes) (report : FlattenReport)
    → IsValid w
    → b < w.bat.block_count
    → w.payload_cursor + w.params.block_size < 2 ^ 64
    → length x ≡ w.params.block_size
    → Flattened w b x report (flatten_block opts w b x report)
unfolding flatten_block
flatten_block-Flattened opts w b x report v hb room len =
    elim (Bool-cases (opts.elide_zero_blocks && not (is_fixed opts.subformat) && is_all_zero x)) [
      | inl z ↦
          let u = write_block-Updates w b zero_source v hb tt in
          let zeros_x : x ≡ zeros w.params.block_size = all_zero x (ground arith) ∙ ap zeros len in
          rw (z, zeros_x)
            (record {
              step = write_block w b zero_source;
              updates = u;
              report' = record report { blocks_zero = report.blocks_zero + 1 };
              returns = simp u.returns;
              counted = omega arith;
            })
      | inr nz ↦
          let u = write_block-Updates w b (buf x) v hb (len, room) in
          rw nz (record {
            step = write_block w b (buf x);
            updates = u;
            report' = record report { blocks_written = report.blocks_written + 1 };
            returns = simp u.returns;
            counted = omega arith;
          })
    ]

module _ (opts : FlattenOptions) (links : List ChainLink) (n ss count : ℕ) (pos : 0 < ss)
    (small : count * n * ss < 2 ^ 64) (readable : All (IsReadable ss) links) where
  abbrev merged_block : ℕ → Bytes
  merged_block b = or_nothing (merge_block links b (n * ss) ss n)

  joined :
      (m blk : ℕ) (w : VhdxWriter) (report : FlattenReport) (x : Bytes) {w' w'' : VhdxWriter}
      {report' report'' : FlattenReport}
      → merge_block links blk (n * ss) ss n ≡ ok x
      → flatten_block opts w blk x report ≡ ok (w', report')
      → flatten_blocks opts links (n * ss) ss n (blk + 1) m w' report' ≡ ok (w'', report'')
      → flatten_blocks opts links (n * ss) ss n blk (suc m) w report ≡ ok (w'', report'')
  unfolding flatten_blocks
  joined m blk w report x e c h = rw (e, c) h

  block_fits : (blk : ℕ) → blk < count → (blk * n + n) * ss < 2 ^ 64
  block_fits blk h =
      omega (arith, small, mul_mono ss (blk * n + n) (count * n) (sector_le n blk count h))

  flatten_blocks-Written :
      (m blk : ℕ) (w : VhdxWriter) (report : FlattenReport)
      → IsValid w
      → blk + m ≤ count
      → count ≤ w.bat.block_count
      → Room w m
      → w.params.block_size ≡ n * ss
      → (w' : VhdxWriter) × (report' : FlattenReport) × (flatten_blocks opts links
            (n * ss)
            ss
            n
            blk
            m
            w
            report
          ≡ ok (w', report'))
        × Written w blk m merged_block w'
        × (report'.blocks_written + report'.blocks_zero
            ≡ report.blocks_written + report.blocks_zero + m)
  unfolding flatten_blocks
  flatten_blocks-Written zero blk w report v hm hc room size =
      (w, report, refl, nothing-Written w blk merged_block v, omega arith)
  flatten_blocks-Written (suc m) blk w report v hm hc room size =
      let (x, e, len, sectors) =
        merge_block-merged links blk n ss pos (block_fits blk (omega arith)) readable in
      let c =
        flatten_block-Flattened opts w blk x report v (omega arith) (Room-one w m room)
          (len ∙ sym size) in
      let u = c.updates in
      let (w'', report'', e', written, counted) =
        flatten_blocks-Written m (blk + 1) u.w' c.report' u.valid (omega arith)
          (omega (arith, hc, u.count)) (Room-next u m room)
          (ap (λ p. p.block_size) u.params_same ∙ size) in
      (
        w'',
        report'',
        joined m blk w report x e c.returns e',
        Written-then u m merged_block w'' (ap or_nothing e) written,
        omega (arith, counted, c.counted),
      )

  -- On a readable chain, for a positive sector size and blocks whose bytes end within 64 bits,
  -- and a valid dynamic disk of that block size with a place for each block and room for them,
  -- the flatten loop succeeds, the disk stays valid, the counters grow by the number of blocks,
  -- and each sector of each block of the disk is that of the first link that holds it, or zero,
  -- whether zero blocks are elided or not.
  pub flatten_blocks-merged :
      (w : VhdxWriter) (report : FlattenReport)
      → IsValid w
      → count ≤ w.bat.block_count
      → Room w count
      → w.params.block_size ≡ n * ss
      → (w' : VhdxWriter) × (report' : FlattenReport) × (flatten_blocks opts links
            (n * ss)
            ss
            n
            0
            count
            w
            report
          ≡ ok (w', report'))
        × IsValid w'
        × (report'.blocks_written + report'.blocks_zero
            ≡ report.blocks_written + report.blocks_zero + count)
        × ((b : ℕ)
            → b < count
            → (x : Bytes) × (block_content w' b ≡ some x)
              × ((t : ℕ) → t < n → slice x (t * ss) ss ≡ merged ss links (b * n + t)))
  flatten_blocks-merged w report v hc room size =
      let (w', report', e, written, counted) =
        flatten_blocks-Written count 0 w report v (omega arith) hc room size in
      (
        w',
        report',
        e,
        written.valid,
        counted,
        λ b h.
            let (x, e, len, sectors) =
              merge_block-merged links b n ss pos (block_fits b h) readable in
            let inside : leb 0 b && ltb b (0 + count) ≡ true = ground arith in
            (
              x,
              written.contents b (omega (arith, h, hc))
                  ∙ rw inside (ap (λ r. some (or_nothing r)) e),
              sectors,
            ),
      )
