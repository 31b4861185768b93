-- ===== src/Flatten/Link.antt =====
-- One disk of the chain fills the sectors that it holds, whatever its block size.
use native.Mathlib.Nat.{mul-div_cancel}
use starweld.Prelude.Products.{sector_le, mul_sum, mul_mono}
use starweld.Prelude.{
  ℕ, zero, suc, ◌+◌, ◌-◌, ◌*◌, ◌/◌, ◌%◌, ◌^◌, ◌≤◌, ◌<◌, min, max, ◌≡◌, refl, sym, ap, ◌∙◌, arith,
  true, false, not, inl, inr,
}
use starweld.Prelude.{
  Option, none, some, get_or, ==→≡, ◌==◌, if◌then◌else◌, Bool-cases, leb, wrap64,
}
use starweld.Prelude.Bytes.{Bytes, slice}
use starweld.Error.{◌>>=◌, Result, ok}
use starweld.IoUtil.{File}
use starweld.Disk.{
  VhdxDisk, BlockRead, full, partial, absent, block_size, block_count, read_block, bit_is_set,
}
use starweld.Disk.Blocks.{HasSize, read_block-HasSize, read_block_out}
use starweld.Flatten.{range_filled, Fill, fill_read, fill_blocks, fill_from_link}
use starweld.Flatten.Spec.{or_else, sector_in, held}
use starweld.Flatten.Cells.{
  cell, update, update-none, update_filled, Shape, Filled, Filled-ext, Filled-then, stay,
}
use starweld.Flatten.Overlap.{
  lo, hi, max_mul, min_mul, leb_mul, in_block, units_sub, block_start, block_end, byte_div,
  byte_mod, div_mono,
}
use starweld.Flatten.Sectors.{within, only, fill_sectors-Filled, range_filled_lem}

-- A disk with blocks of `q` sectors, all of which can be read.
pub record Readable (ss q count : ℕ) (disk : VhdxDisk) (file : File) : Type 0 where
  pub size : block_size disk ≡ q * ss
  pub size_pos : 0 < q
  pub counted : block_count disk ≡ ok count
  pub small : count * q * ss < 2 ^ 64
  pub reads : (b : ℕ) → b < count → (r : BlockRead) × (read_block disk file b ≡ ok r)

module _ (n ss p : ℕ) (pos : 0 < ss) (range_small : (p + n) * ss < 2 ^ 64) where
  fill_read-Filled :
      (k m : ℕ) (r : BlockRead) (lo count : ℕ) (st : Fill)
      → HasSize (m * ss) r
      → (k + m) * ss < 2 ^ 64
      → Shape n ss st
      → lo + count ≤ n
      → k ≤ p + lo
      → p + lo + count ≤ k + m
      → Filled n ss st
          (λ t. only (within lo count t) (sector_in ss (ok r) ((p + t - k) * ss)))
          (fill_read r (p * ss) (k * ss) ss lo count st)
  unfolding fill_read
  fill_read-Filled k m (full content) lo count st len small sh hn hk hm =
      fill_sectors-Filled n ss p k m content (λ i. true) pos len range_small small lo count st sh hn
        hk hm
  fill_read-Filled k m (partial payload bitmap) lo count st len small sh hn hk hm =
      Filled-ext n ss
        (fill_sectors-Filled n ss p k m payload (bit_is_set bitmap) pos len range_small small lo
          count st sh hn hk hm)
        (λ t h.
          ap
            (λ (i : ℕ). update (cell n ss st t) (
              only (within lo count t)
                (if bit_is_set bitmap i then some (slice payload ((p + t - k) * ss) ss) else none)))
            (sym (mul-div_cancel (p + t - k) pos)))
  fill_read-Filled k m absent lo count st len small sh hn hk hm =
      Filled-ext n ss (stay n ss st sh) (λ t h. ap (update (cell n ss st t)) (ground arith))

  module _ (q count : ℕ) (disk : VhdxDisk) (file : File)
      (ready : Readable ss q count disk file) where
    abbrev block_of : ℕ → ℕ
    block_of t = (p + t) / q

    abbrev here : ℕ → Option Bytes
    here t = held ss disk file (p + t)

    here_in : (t : ℕ) → here t ≡ sector_in ss (read_block disk file (block_of t)) ((p + t) % q * ss)
    here_in t = rw (ready.size, byte_div ss q (p + t) pos, byte_mod ss q (p + t) pos)

    here_out : (t : ℕ) → count ≤ block_of t → here t ≡ none
    here_out t h =
        let (e, failed) = read_block_out disk file (block_of t) count ready.counted h in
        here_in t ∙ rw failed

    or_else-none : (x : Option Bytes) → or_else x none ≡ x
    or_else-none none = refl
    or_else-none (some d) = refl

    join :
        (x : Option Bytes) (blk cnt d : ℕ)
        → or_else (only (d == blk) x) (only (within (blk + 1) cnt d) x)
          ≡ only (within blk (suc cnt) d) x
    join x blk cnt d = elim (Bool-cases (d == blk)) [
      | inl e ↦ rw (e, (inside e).0, (inside e).1) (or_else-none x)
      | inr e ↦ rw e (ap (λ b. only b x) (ground arith))
    ]
      where
        inside :
            (d == blk) ≡ true → (within (blk + 1) cnt d ≡ false) × (within blk (suc cnt) d ≡ true)
        inside e = ground arith

    outside : (blk cnt t : ℕ) → count ≤ blk → only (within blk cnt (block_of t)) (here t) ≡ none
    outside blk cnt t h = elim (Bool-cases (within blk cnt (block_of t))) [
      | inl e ↦ rw e (here_out t (ground arith))
      | inr e ↦ rw e
    ]

    nonzero : not (ss == 0) ≡ true
    nonzero = ground arith

    -- The sectors that one block provides.
    seen :
        (blk : ℕ) (r : BlockRead) (t : ℕ)
        → read_block disk file blk ≡ ok r
        → t < n
        → let l = lo n ss p pos range_small q blk ready.size_pos in
          let h = hi n ss p pos range_small q blk ready.size_pos in
          only (within l (h - l) t) (sector_in ss (ok r) ((p + t - blk * q) * ss))
          ≡ only (block_of t == blk) (here t)
    seen blk r t read h =
        let (same, offset) = in_block n ss p pos range_small q blk ready.size_pos t h in
        rw (← same) (elim (Bool-cases (block_of t == blk)) [
          | inl e ↦ rw (e, here_in t, offset e, ==→≡ _ _ e, read)
          | inr e ↦ rw e
        ])

    -- A block that provides nothing that is missing.
    not_missed :
        (blk : ℕ) (st : Fill) (t : ℕ)
        → (block_of t == blk ≡ true → get_or st.sector_filled t true ≡ true)
        → cell n ss st t ≡ update (cell n ss st t) (only (block_of t == blk) (here t))
    not_missed blk st t h = elim (Bool-cases (block_of t == blk)) [
      | inl e ↦ sym (update_filled (cell n ss st t) _ (h e))
      | inr e ↦ rw e (sym (update-none (cell n ss st t)))
    ]

    after :
        (blk cnt : ℕ) (st mid : Fill) (r : Result Fill)
        → ((t : ℕ)
            → t < n
            → cell n ss mid t ≡ update (cell n ss st t) (only (block_of t == blk) (here t)))
        → Filled n ss mid (λ t. only (within (blk + 1) cnt (block_of t)) (here t)) r
        → Filled n ss st (λ t. only (within blk (suc cnt) (block_of t)) (here t)) r
    after blk cnt st mid r first rest =
        Filled-ext n ss (Filled-then n ss _ first rest)
          (λ t h. ap (update (cell n ss st t)) (join (here t) blk cnt (block_of t)))

    -- A block that overlaps the range is read unless the overlap is filled.
    overlapped :
        (blk cnt : ℕ) (st : Fill) (next : Fill → Result Fill)
        → Shape n ss st
        → blk < count
        → (blk * q + q) * ss < 2 ^ 64
        → max p (blk * q) < min (p + n) (blk * q + q)
        → ((st : Fill)
            → Shape n ss st
            → Filled n ss st (λ t. only (within (blk + 1) cnt (block_of t)) (here t)) (next st))
        → let l = lo n ss p pos range_small q blk ready.size_pos in
          let c = hi n ss p pos range_small q blk ready.size_pos - l in
          Filled n ss st
            (λ t. only (within blk (suc cnt) (block_of t)) (here t))
            (range_filled st.sector_filled l c >>= λ done.
              if done
              then next st
              else read_block disk file blk >>= λ read.
                  fill_read read (p * ss) (blk * q * ss) ss l c st >>= next)
    overlapped blk cnt st next sh before small overlap rest =
        let l = lo n ss p pos range_small q blk ready.size_pos in
        let c = hi n ss p pos range_small q blk ready.size_pos - l in
        let (done, e, filled) =
          range_filled_lem st.sector_filled l c (omega (arith, sh.filled_len)) in
        let (r, read) = ready.reads blk before in
        let f =
          fill_read-Filled (blk * q) q r l c st
            (rw ready.size at (read_block-HasSize disk file blk r read)) small sh (omega arith)
            (omega arith) (omega arith) in
        rw e (elim (Bool-cases done) [
          | inl full_already ↦ rw full_already (
              after blk cnt st st _
                (λ t h. not_missed blk st t (λ at_blk.
                  filled full_already t
                    (sym (in_block n ss p pos range_small q blk ready.size_pos t h).0 ∙ at_blk)))
                (rest st sh))
          | inr wanting ↦
              rw (wanting, read, f.returns)
                (after blk cnt st f.st' _
                  (λ t h. f.cells t h ∙ ap (update (cell n ss st t)) (seen blk r t read h))
                  (rest f.st' f.shape))
        ])

    fill_blocks-Filled :
        (blk cnt : ℕ) (st : Fill)
        → Shape n ss st
        → Filled n ss st
            (λ t. only (within blk cnt (block_of t)) (here t))
            (fill_blocks disk file (p * ss) ((p + n) * ss) ss count blk cnt st)
    unfolding fill_blocks
    fill_blocks-Filled blk zero st sh =
        Filled-ext n ss (stay n ss st sh) (λ t h. ap (update (cell n ss st t)) (ground arith))
    fill_blocks-Filled blk (suc cnt) st sh =
        let rest : (st : Fill)
            → Shape n ss st
            → Filled n ss st (λ t. only (within (blk + 1) cnt (block_of t)) (here t))
                (fill_blocks disk file (p * ss) ((p + n) * ss) ss count (blk + 1) cnt st) =
          λ st sh. fill_blocks-Filled (blk + 1) cnt st sh in
        elim (Bool-cases (leb count blk)) [
          | inl past ↦ rw past (
              Filled-ext n ss (stay n ss st sh) (λ t h.
                ap (update (cell n ss st t)) (sym (outside blk (suc cnt) t (ground arith)))))
          | inr before ↦
              let small : (blk * q + q) * ss < 2 ^ 64 = omega (
                arith,
                ready.small,
                sector_le q blk count (ground arith),
                mul_mono ss (blk * q + q) (count * q) (sector_le q blk count (ground arith)),
              ) in
              rw
                (
                  before,
                  block_start n ss p pos range_small q blk ready.size_pos (block_size disk)
                      ready.size small,
                  block_end n ss p pos range_small q blk ready.size_pos (block_size disk) ready.size
                      small,
                  max_mul n ss p pos range_small q blk ready.size_pos p (blk * q),
                  min_mul n ss p pos range_small q blk ready.size_pos (p + n) (blk * q + q),
                  units_sub n ss p pos range_small q blk ready.size_pos (max p (blk * q)) p,
                  units_sub n ss p pos range_small q blk ready.size_pos (min (p + n) (blk * q + q))
                      p,
                  leb_mul n ss p pos range_small q blk ready.size_pos (min (p + n) (blk * q + q))
                      (max p (blk * q)),
                )
                (elim (Bool-cases (leb (min (p + n) (blk * q + q)) (max p (blk * q)))) [
                  | inl apart ↦ rw apart (
                      after blk cnt st st _
                        (λ t h. not_missed blk st t (λ e. ground (
                          arith,
                          (in_block n ss p pos range_small q blk ready.size_pos t h).0,
                          e,
                          apart,
                        )))
                        (rest st sh))
                  | inr overlap ↦
                      rw (overlap, nonzero)
                        (overlapped blk cnt st
                          (fill_blocks disk file (p * ss) ((p + n) * ss) ss count (blk + 1) cnt) sh
                          (ground arith) small (ground arith) rest)
                ])
        ]

    range_end : wrap64 (p * ss + n * ss) ≡ (p + n) * ss
    range_end = omega (arith, range_small, mul_sum ss p n)

    blocks_pos : 0 < q * ss
    blocks_pos = grind (arith, ready.size_pos, pos, mul_mono ss 1 q)

    -- Every sector of the range is in one of the blocks that are visited.
    visited :
        (t : ℕ)
        → t < n
        → let first = p * ss / block_size disk in
          let last = ((p + n) * ss - 1) / block_size disk in
          within first (last + 1 - first) (block_of t) ≡ true
    visited t h =
        let inside : (p + t) * ss ≤ (p + n) * ss - 1 =
          omega (arith, sector_le ss (p + t) (p + n) (omega arith), pos) in
        let last : (p + t) / q ≤ ((p + n) * ss - 1) / (q * ss) =
          rw (byte_div ss q (p + t) pos) at
            (div_mono ((p + t) * ss) ((p + n) * ss - 1) (q * ss) blocks_pos inside) in
        rw (ready.size, byte_div ss q p pos)
          (ground (arith, div_mono p (p + t) q ready.size_pos (omega arith), last))

    pub fill_from_link-Filled :
        (st : Fill) → Shape n ss st → Filled n ss st here (fill_from_link disk file (p * ss) ss st)
    unfolding fill_from_link
    fill_from_link-Filled st sh =
        rw (sh.composite_len, range_end, ready.counted)
          (elim (Bool-cases (count == 0)) [
            | inl empty ↦ rw empty (
                Filled-ext n ss (stay n ss st sh)
                  (λ t h. ap (update (cell n ss st t)) (sym (here_out t (ground arith)))))
            | inr some_blocks ↦ rw some_blocks (
                Filled-ext n ss (fill_blocks-Filled (p * ss / block_size disk) _ st sh)
                  (λ t h. ap (λ b. update (cell n ss st t) (only b (here t))) (visited t h)))
          ])
