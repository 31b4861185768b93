-- ===== src/Flatten/Archive/Payload.antt =====
-- The second pass: what the stream holds for each block, and what its table says.
use starweld.Prelude.{
  ℕ, suc, ◌+◌, ◌*◌, ◌^◌, ◌≤◌, ◌<◌, ◌≡◌, ◌⊎◌, inl, inr, refl, sym, ap, ◌∙◌, arith,
}
use starweld.Prelude.{
  Bool, true, false, List, [], ◌∷◌, some, length, get_elem?, All, ◌==◌, ==→≡, Bool-cases,
}
use starweld.Prelude.Bytes.{Bytes, zeros, slice, slice_ext, byte-slice, byte}
use starweld.Prelude.Products.{sector_le, mul_mono}
use starweld.Error.{Result, ok, err, panic, ◌>>=◌, >>=_assoc, >>=_congr}
use starweld.Bat.{Bat, payload_entry, encode}
use starweld.ZstWriter.{ZstStreamWriter, write_payload_block, finish}
use starweld.ZstWriter.Table.{IsZeroEntry, IsBlockAt, Placed, non_zero}
use starweld.ZstWriter.Stream.{InStep, write_payload_blocks, finish_lem}
use starweld.Flatten.{ChainLink}
use starweld.Flatten.Spec.{merged}
use starweld.Flatten.Merge.{IsReadable, merge_block-merged}
use starweld.Flatten.Scan.{SaysZero}
use starweld.Flatten.Archive.{stream_blocks, stream_payload}

-- Block `k` of the chain in a stream: a zero block in the table, or the merged sectors at the
-- offset that the table gives.
abbrev pub BlockIn : List ChainLink → ℕ → ℕ → Bat → Bytes → ℕ → Type 0
BlockIn links n ss bat out k =
    (IsZeroEntry (payload_entry bat k) × ((t : ℕ) → t < n → merged ss links (k * n + t) ≡ zeros ss))
    ⊎ ((off : ℕ) × IsBlockAt (payload_entry bat k) off
        × ((t : ℕ) → t < n → slice out (off + t * ss) ss ≡ merged ss links (k * n + t)))

slice_within :
    (out x : Bytes) (off bs a m : ℕ)
    → slice out off bs ≡ x
    → length x ≡ bs
    → a + m ≤ bs
    → slice out (off + a) m ≡ slice x a m
slice_within out x off bs a m same len h = slice_ext out x (off + a) a m λ k hk.
    ap (byte out) (assoc k)
    ∙ sym (byte-slice out off bs (a + k) (omega arith))
    ∙ ap (λ y. byte y (a + k)) same
  where
    assoc : (k : ℕ) → off + a + k ≡ off + (a + k)
    assoc k = omega arith

-- The blocks that a pass has written, beside its result.
abbrev counting : Result ZstStreamWriter → ℕ → Result (ZstStreamWriter × ℕ)
counting r m = r >>= λ w. ok (w, m)

abbrev closing : ZstStreamWriter × ℕ → Result (Bytes × ℕ)
closing s = finish s.0 >>= λ o. ok (o, s.1)

finished :
    (r : Result ZstStreamWriter) (m : ℕ) {out : Bytes}
    → (r >>= finish) ≡ ok out
    → (counting r m >>= closing) ≡ ok (out, m)
finished panic m e = cc
finished (err x) m e = cc
finished (ok w) m e = rw e refl

module _ (links : List ChainLink) (n ss : ℕ) (pos : 0 < ss) (r : All (IsReadable ss) links) where
  -- The blocks that the pass writes for the bits of the blocks from `blk` on.
  record Collected (blk : ℕ) (bits : List Bool) : Type 0 where
    xs : List Bytes
    sizes : All (λ x. length x ≡ n * ss) xs
    count : length xs ≡ non_zero bits
    streams :
        (w : ZstStreamWriter) (written : ℕ)
        → stream_blocks links (n * ss) ss n blk bits w written
          ≡ (write_payload_blocks w xs >>= λ w'. ok (w', written + length xs))
    holds :
        (bat : Bat) (out : Bytes) (start seq : ℕ)
        → ((j : ℕ) (x : Bytes)
            → get_elem? xs j ≡ some x
            → slice out (start + (seq + j) * (n * ss)) (n * ss) ≡ x)
        → Placed bat start (n * ss) seq blk bits
        → SaysZero ss n links blk bits
        → (k : ℕ) → blk ≤ k
        → k < blk + length bits
        → BlockIn links n ss bat out k

  moved :
      (out : Bytes) (start a b : ℕ)
      → a ≡ b
      → slice out (start + a * (n * ss)) (n * ss) ≡ slice out (start + b * (n * ss)) (n * ss)
  moved out start a b h = ap (λ (t : ℕ). slice out (start + t * (n * ss)) (n * ss)) h

  collected :
      (bits : List Bool) (blk : ℕ) → (blk + length bits) * n * ss < 2 ^ 64 → Collected blk bits
  unfolding stream_blocks
  collected [] blk h = record {
    xs = [];
    sizes = tt;
    count = refl;
    streams = λ w written. ap (λ (t : ℕ). ok (w, t)) (omega arith);
    holds = λ bat out start seq at placed says k lo hi. absurd (omega arith);
  }
  collected (true ∷ bits) blk h =
      let sum : (blk + suc (length bits)) * n * ss ≡ (blk + 1 + length bits) * n * ss =
        ap (λ (t : ℕ). t * n * ss) (omega arith) in
      let rest = collected bits (blk + 1) (omega (arith, h, sum)) in
      record {
        xs = rest.xs;
        sizes = rest.sizes;
        count = rest.count;
        streams = rest.streams;
        holds = λ bat out start seq at placed says k lo hi. elim (Bool-cases (blk == k)) [
          | inl here ↦
              let same : blk ≡ k = ==→≡ blk k here in rw (← same) (inl (placed.0, says.0.0 refl))
          | inr later ↦
              rest.holds bat out start seq at placed.1 says.1 k (ground arith) (omega arith)
        ];
      }
  collected (false ∷ bits) blk h =
      let sum : (blk + suc (length bits)) * n * ss ≡ (blk + 1 + length bits) * n * ss =
        ap (λ (t : ℕ). t * n * ss) (omega arith) in
      let one : (blk * n + n) * ss ≤ (blk + suc (length bits)) * n * ss =
        mul_mono ss (blk * n + n) ((blk + suc (length bits)) * n)
          (sector_le n blk (blk + suc (length bits)) (omega arith)) in
      let (x, e, len, same) = merge_block-merged links blk n ss pos (omega (arith, h, one)) r in
      let rest = collected bits (blk + 1) (omega (arith, h, sum)) in
      record {
        xs = x ∷ rest.xs;
        sizes = (len, rest.sizes);
        count = ap suc rest.count;
        streams = λ w written. rw e (
            >>=_congr (write_payload_block w x) _ _ (λ w'.
              rest.streams w' (written + 1)
              ∙ >>=_congr (write_payload_blocks w' rest.xs) _ _
                  (λ w''. ap (λ (t : ℕ). ok (w'', t)) (omega arith)))
            ∙ sym (>>=_assoc (write_payload_block w x) _ _));
        holds = λ bat out start seq at placed says k lo hi. elim (Bool-cases (blk == k)) [
          | inl here ↦
              let is : blk ≡ k = ==→≡ blk k here in
              rw (← is) (
                inr (
                  start + seq * (n * ss),
                  placed.0,
                  λ t ht.
                      slice_within out x (start + seq * (n * ss)) (n * ss) (t * ss) ss
                        (moved out start seq (seq + 0) (omega arith) ∙ at 0 x refl) len
                        (sector_le ss t n ht)
                      ∙ same t ht,
                ))
          | inr later ↦
              rest.holds bat out start (seq + 1)
                (λ j y ej.
                  moved out start (seq + 1 + j) (seq + suc j) (omega arith) ∙ at (suc j) y ej)
                placed.1 says.1 k (ground arith) (omega arith)
        ];
      }

  -- On a readable chain, for a positive sector size and blocks whose bytes end within 64 bits,
  -- with the bits of the scan and the table built from them, and a stream whose cursor counts the
  -- bytes that are out and whose announced blocks end where the table begins, with a table that
  -- fits its region below 2^64, the second pass and the end of the stream succeed with as many
  -- blocks as are not zero, keep what was out, put the encoded table at its offset, and in the
  -- stream each block is a zero block of the table with only zero sectors, or its merged sectors
  -- stand at the offset that the table gives.
  pub stream_payload_lem :
      (w : ZstStreamWriter) (bits : List Bool)
      → length bits * n * ss < 2 ^ 64
      → SaysZero ss n links 0 bits
      → Placed w.bat (length w.out) (n * ss) 0 0 bits
      → InStep w
      → w.written_payload_blocks + non_zero bits ≡ w.expected_payload_blocks
      → length w.out + non_zero bits * (n * ss) ≡ w.layout.bat_offset
      → length (encode w.bat) ≤ w.layout.bat_length
      → w.layout.bat_offset + w.layout.bat_length < 2 ^ 64
      → (out : Bytes) × (stream_payload links (n * ss) ss n bits w ≡ ok (out, non_zero bits))
        × (length out ≡ w.layout.bat_offset + w.layout.bat_length)
        × (slice out 0 (length w.out) ≡ w.out)
        × (slice out w.layout.bat_offset (length (encode w.bat)) ≡ encode w.bat)
        × ((k : ℕ) → k < length bits → BlockIn links n ss w.bat out k)
  unfolding stream_payload
  stream_payload_lem w bits small says placed step enough ends fits room =
      let none_before : (0 + length bits) * n * ss ≡ length bits * n * ss =
        ap (λ (t : ℕ). t * n * ss) (omega arith) in
      let c = collected bits 0 (omega (arith, none_before)) in
      let size = ap (λ (t : ℕ). t * (n * ss)) c.count in
      let (out, e, len, front, at, table) =
        finish_lem w (n * ss) c.xs c.sizes step (omega (arith, c.count)) (omega (arith, size, ends))
          fits room in
      (
        out,
        rw (c.streams w 0) (
            finished (write_payload_blocks w c.xs) (0 + length c.xs) e
            ∙ ap (λ (t : ℕ). ok (out, t)) (omega (arith, c.count))),
        len,
        front,
        table,
        λ k hk.
            c.holds w.bat out (length w.out) 0
              (λ j x ej. moved out (length w.out) (0 + j) j (omega arith) ∙ at j x ej) placed says k
              (omega arith) (omega arith),
      )
