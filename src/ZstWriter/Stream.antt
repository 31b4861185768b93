-- ===== src/ZstWriter/Stream.antt =====
-- What has been streamed when the writer finishes.
use starweld.Prelude.{
  ℕ, zero, suc, ◌+◌, ◌*◌, ◌^◌, ◌≤◌, ◌<◌, ◌≡◌, refl, sym, ap, ap₂, ◌∙◌, arith, true,
}
use starweld.Prelude.{
  List, [], ◌∷◌, ◌++◌, some, length, get_elem?, length-append, All, ◌==◌, lt→ltb, le→leb, wrap64,
}
use starweld.Prelude.Bytes.{
  Bytes, zeros, slice, length-zeros, slice-splice_within, splice, length-splice, slice_whole,
  slice-append_left, slice-append_right, slice-append_at,
}
use starweld.Prelude.Products.{sector_le}
use starweld.Error.{Result, ok, ◌>>=◌}
use starweld.Bat.{encode}
use starweld.Writer.{pad_bat}
use starweld.ZstWriter.{ZstStreamWriter, write_block, pad_to, write_payload_block, finish}

end_of : (a : Bytes) → length a ≡ length a + 0
end_of a = omega arith

in_range : (xs : List Bytes) (j : ℕ) (x : Bytes) → get_elem? xs j ≡ some x → j < length xs
in_range [] j x h = cc
in_range (y ∷ xs) zero x h = omega arith
in_range (y ∷ xs) (suc j) x h = let rest = in_range xs j x h in omega (arith, rest)

-- The caller's loop: one call for each block.
abbrev pub write_payload_blocks : ZstStreamWriter → List Bytes → Result ZstStreamWriter
write_payload_blocks w [] = ok w
write_payload_blocks w (x ∷ xs) = write_payload_block w x >>= λ w'. write_payload_blocks w' xs

-- The cursor counts the bytes that are out.
abbrev pub InStep : ZstStreamWriter → Type 0
InStep w = w.cursor ≡ length w.out

record Streamed (w : ZstStreamWriter) (bs : ℕ) (xs : List Bytes) (r : Result ZstStreamWriter)
    : Type 0 where
  w' : ZstStreamWriter
  returns : r ≡ ok w'
  in_step : InStep w'
  size : length w'.out ≡ length w.out + length xs * bs
  layout_same : w'.layout ≡ w.layout
  bat_same : w'.bat ≡ w.bat
  expected_same : w'.expected_payload_blocks ≡ w.expected_payload_blocks
  counted : w'.written_payload_blocks ≡ w.written_payload_blocks + length xs
  before : (a n : ℕ) → a + n ≤ length w.out → slice w'.out a n ≡ slice w.out a n
  blocks :
      (j : ℕ) (x : Bytes) → get_elem? xs j ≡ some x → slice w'.out (length w.out + j * bs) bs ≡ x

write_payload_blocks-Streamed :
    (bs : ℕ) (xs : List Bytes) (w : ZstStreamWriter)
    → All (λ x. length x ≡ bs) xs
    → InStep w
    → w.written_payload_blocks + length xs ≤ w.expected_payload_blocks
    → length w.out + length xs * bs < 2 ^ 64
    → Streamed w bs xs (write_payload_blocks w xs)
unfolding write_payload_block write_block
write_payload_blocks-Streamed bs [] w sizes step enough small = record {
  w' = w;
  returns = refl;
  in_step = step;
  size = omega arith;
  layout_same = refl;
  bat_same = refl;
  expected_same = refl;
  counted = omega arith;
  before = λ a n h. refl;
  blocks = λ j x h. cc;
}
write_payload_blocks-Streamed bs (x ∷ xs) w (len, sizes) step enough small =
    let out = w.out ++ x in
    let grown : length out ≡ length w.out + bs =
      length-append w.out x ∙ ap (λ (t : ℕ). length w.out + t) len in
    let many : suc (length xs) * bs ≡ bs + length xs * bs = grind arith in
    let rest =
      write_payload_blocks-Streamed bs xs
        (record w {
          out = out;
          cursor = wrap64 (w.cursor + length x);
          written_payload_blocks = w.written_payload_blocks + 1;
        })
        sizes (omega (arith, step, grown, len, small, many)) (omega (arith, enough))
        (omega (arith, grown, small, many)) in
    let first : slice rest.w'.out (length w.out) bs ≡ x =
      rest.before (length w.out) bs (omega (arith, grown))
      ∙ ap (slice out (length w.out)) (sym len)
      ∙ slice-append_right w.out x in
    record {
      w' = rest.w';
      returns =
          rw (lt→ltb w.written_payload_blocks w.expected_payload_blocks (omega (arith, enough)))
            rest.returns;
      in_step = rest.in_step;
      size = omega (arith, rest.size, grown, many);
      layout_same = rest.layout_same;
      bat_same = rest.bat_same;
      expected_same = rest.expected_same;
      counted = omega (arith, rest.counted);
      before = λ a n h. rest.before a n (omega (arith, grown, h)) ∙ slice-append_left w.out x a n h;
      blocks = elim [
        | zero ↦ λ y h.
            let same : x ≡ y = cc in
            let at : length w.out + 0 * bs ≡ length w.out = omega arith in
            ap (λ (t : ℕ). slice rest.w'.out t bs) at ∙ first ∙ same
        | suc j ↦ λ y h.
            let next : suc j * bs ≡ bs + j * bs = grind arith in
            let at : length w.out + suc j * bs ≡ length out + j * bs = omega (arith, grown, next) in
            ap (λ (t : ℕ). slice rest.w'.out t bs) at ∙ rest.blocks j y h
      ];
    }

-- The table as it is written, padded to its region.
abbrev table_of : ZstStreamWriter → Bytes
table_of w = splice (zeros w.layout.bat_length) 0 (encode w.bat)

finish_at :
    (w : ZstStreamWriter)
    → InStep w
    → w.written_payload_blocks ≡ w.expected_payload_blocks
    → length w.out ≡ w.layout.bat_offset
    → length (encode w.bat) ≤ w.layout.bat_length
    → finish w ≡ ok (w.out ++ table_of w)
unfolding finish pad_bat pad_to write_block
finish_at w step all at fits =
    let done : (w.written_payload_blocks == w.expected_payload_blocks) ≡ true =
      ground (arith, all) in
    let there : (w.cursor == w.layout.bat_offset) ≡ true = ground (arith, step, at) in
    simp (done, there, le→leb (length (encode w.bat)) w.layout.bat_length fits)

-- When the stream's cursor counts the bytes that are out, as many blocks of the right size are
-- written as were announced, they end where the table begins, and the table fits its region below
-- 2^64, then writing them and finishing succeeds with a stream that ends with the table's region,
-- begins with the bytes that were out, holds the blocks one behind the other in their order, and
-- has the encoded table at its offset.
pub finish_lem :
    (w : ZstStreamWriter) (bs : ℕ) (xs : List Bytes)
    → All (λ x. length x ≡ bs) xs
    → InStep w
    → w.written_payload_blocks + length xs ≡ w.expected_payload_blocks
    → length w.out + length xs * bs ≡ w.layout.bat_offset
    → length (encode w.bat) ≤ w.layout.bat_length
    → w.layout.bat_offset + w.layout.bat_length < 2 ^ 64
    → (out : Bytes) × ((write_payload_blocks w xs >>= finish) ≡ ok out)
      × (length out ≡ w.layout.bat_offset + w.layout.bat_length)
      × (slice out 0 (length w.out) ≡ w.out)
      × ((j : ℕ) (x : Bytes) → get_elem? xs j ≡ some x → slice out (length w.out + j * bs) bs ≡ x)
      × (slice out w.layout.bat_offset (length (encode w.bat)) ≡ encode w.bat)
finish_lem w bs xs sizes step enough ends fits small =
    let f = write_payload_blocks-Streamed bs xs w sizes step (omega arith) (omega arith) in
    let layout : f.w'.layout ≡ w.layout = f.layout_same in
    let offset : f.w'.layout.bat_offset ≡ w.layout.bat_offset = ap (λ l. l.bat_offset) layout in
    let region : f.w'.layout.bat_length ≡ w.layout.bat_length = ap (λ l. l.bat_length) layout in
    let raw : encode f.w'.bat ≡ encode w.bat = ap encode f.bat_same in
    let place : length f.w'.out ≡ w.layout.bat_offset = omega (arith, f.size, ends) in
    let table : length (table_of f.w') ≡ w.layout.bat_length =
      length-splice (zeros f.w'.layout.bat_length) 0 (encode f.w'.bat) ∙ length-zeros _ ∙ region in
    let room : length (encode f.w'.bat) ≤ f.w'.layout.bat_length =
      omega (arith, fits, region, ap (λ (t : Bytes). length t) raw) in
    (
      f.w'.out ++ table_of f.w',
      joined f.returns (
          finish_at f.w' f.in_step (omega (arith, f.counted, f.expected_same, enough))
            (omega (arith, place, offset)) room),
      length-append f.w'.out (table_of f.w') ∙ omega (arith, place, table),
      slice-append_left f.w'.out (table_of f.w') 0 (length w.out) (omega (arith, f.size))
          ∙ f.before 0 (length w.out) (omega arith)
          ∙ slice_whole w.out,
      λ j x h.
          slice-append_left f.w'.out (table_of f.w') (length w.out + j * bs) bs
            (omega (arith, f.size, sector_le bs j (length xs) (in_range xs j x h)))
          ∙ f.blocks j x h,
      ap₂ (slice (f.w'.out ++ table_of f.w')) (sym place ∙ end_of f.w'.out)
            (ap (λ (t : Bytes). length t) (sym raw))
          ∙ slice-append_at f.w'.out (table_of f.w') 0 (length (encode f.w'.bat))
          ∙ slice-splice_within (zeros f.w'.layout.bat_length) 0 (encode f.w'.bat)
              (omega (arith, room, length-zeros f.w'.layout.bat_length))
          ∙ raw,
    )
  where
    joined :
        {w' : ZstStreamWriter} {out : Bytes}
        → write_payload_blocks w xs ≡ ok w'
        → finish w' ≡ ok out
        → (write_payload_blocks w xs >>= finish) ≡ ok out
    joined e h = rw e h
