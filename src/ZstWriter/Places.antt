-- ===== src/ZstWriter/Places.antt =====
-- `Layout::compute`: where the regions lie.
use starweld.Prelude.{ℕ, ◌+◌, ◌*◌, ◌/◌, ◌%◌, ◌^◌, ◌≤◌, ◌<◌, max, ◌≡◌, ap, ◌∙◌, arith, wrap64, refl}
use starweld.Format.{mib, region_table_2_offset, region_table_size}
use starweld.IoUtil.{align_up}
use starweld.IoUtil.Align.{align_up_lem}
use starweld.Writer.{WriterParams}
use starweld.ZstWriter.{Layout, compute}

-- The log begins behind both region tables at 1 MiB, no gap is left between the regions, the log
-- and the table are large enough, and every offset and length is a multiple of 1 MiB.
pub record Tiles (params : WriterParams) (non_zero_blocks bat_entries : ℕ) (l : Layout)
    : Type 0 where
  pub log_offset : l.log_offset ≡ mib
  pub log_behind_tables : region_table_2_offset + region_table_size ≤ l.log_offset
  pub log_fits : params.log_size ≤ l.log_size
  pub metadata_follows : l.metadata_offset ≡ l.log_offset + l.log_size
  pub metadata_length : l.metadata_length ≡ mib
  pub payload_follows : l.payload_start ≡ l.metadata_offset + l.metadata_length
  pub bat_follows : l.bat_offset ≡ l.payload_start + non_zero_blocks * params.block_size
  pub bat_fits : bat_entries * 8 ≤ l.bat_length
  pub total : l.total_size ≡ l.bat_offset + l.bat_length
  pub sizes_kept : (l.block_size ≡ params.block_size) × (l.non_zero_blocks ≡ non_zero_blocks)
  pub log_aligned : (l.log_offset % mib ≡ 0) × (l.log_size % mib ≡ 0)
  pub metadata_aligned : (l.metadata_offset % mib ≡ 0) × (l.metadata_length % mib ≡ 0)
  pub payload_aligned : l.payload_start % mib ≡ 0
  pub bat_aligned : (l.bat_offset % mib ≡ 0) × (l.bat_length % mib ≡ 0)
  pub total_aligned : l.total_size % mib ≡ 0

-- For blocks of whole MiB and sizes whose sum is below 2^63, the computed layout has the log at 1
-- MiB, behind both region tables, and behind it, without a gap, 1 MiB of metadata, the announced
-- blocks and the table; the log and the table are large enough, the total size is the end of the
-- table, the block size and the number of blocks are as given, and every offset and length is a
-- multiple of 1 MiB.
pub compute-Tiles :
    (params : WriterParams) (non_zero_blocks bat_entries : ℕ)
    → params.block_size % mib ≡ 0
    → params.log_size + non_zero_blocks * params.block_size + bat_entries * 8 < 2 ^ 63
    → Tiles params non_zero_blocks bat_entries (compute params non_zero_blocks bat_entries)
unfolding compute
compute-Tiles params n entries ba small =
    let bs = params.block_size in
    let log = align_up_lem params.log_size mib (omega arith) (omega arith) in
    let log_size = align_up params.log_size mib in
    let parts : bs ≡ bs / mib * mib = omega (arith, ba) in
    let product : n * bs ≡ n * (bs / mib) * mib = ap (λ (t : ℕ). n * t) parts ∙ grind arith in
    let end = mib + log_size + mib + n * bs in
    let bat = align_up_lem end mib (omega arith) (omega (arith, log.1)) in
    let table = align_up_lem (max (entries * 8) mib) mib (omega arith) (omega arith) in
    let e1 : wrap64 (mib + log_size) ≡ mib + log_size = omega (arith, log.1) in
    let e2 : wrap64 (mib + log_size + mib) ≡ mib + log_size + mib = omega (arith, log.1) in
    let e3 : wrap64 (n * bs) ≡ n * bs = omega arith in
    let e4 : wrap64 end ≡ end = omega (arith, log.1) in
    let e5 : align_up end mib ≡ end = omega (arith, bat, product, log.2) in
    let e6 : wrap64 (entries * 8) ≡ entries * 8 = omega arith in
    rw (e1, e2, e3, e4, e5, e6)
      (record {
        log_offset = refl;
        log_behind_tables = omega arith;
        log_fits = log.0;
        metadata_follows = omega arith;
        metadata_length = refl;
        payload_follows = omega arith;
        bat_follows = omega arith;
        bat_fits = omega (arith, table.0);
        total = omega (arith, log.1, table.1);
        sizes_kept = (refl, refl);
        log_aligned = (omega arith, log.2);
        metadata_aligned = (omega (arith, log.2), omega arith);
        payload_aligned = omega (arith, log.2);
        bat_aligned = (omega (arith, log.2, product), table.2);
        total_aligned = omega (arith, log.1, log.2, product, table.1, table.2);
      })
