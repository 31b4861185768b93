-- ===== src/Writer/Chunks.antt =====
-- A block written in chunks, against a block written at once.
use starweld.Prelude.{
  ℕ, zero, suc, ◌+◌, ◌-◌, ◌≤◌, ◌<◌, min, ◌≡◌, refl, ap, ◌∙◌, arith, false, ◌&&◌, inl, inr,
}
use starweld.Prelude.{length, ltb, leb, ◌==◌, ◌||◌, if◌then◌else◌, Bool-cases, lt→ltb}
use starweld.Prelude.Bytes.{Bytes, byte, slice, bytes_ext, length-slice, byte-slice, slice_whole}
use starweld.IoUtil.{File, write_all_at}
use starweld.IoUtil.Files.{byte-write_in, byte-write_out, length-write_all_at}
use starweld.Writer.{VhdxWriter, write_chunks, write_payload_buf}

byte-write :
    (f : File) (off : ℕ) (x : Bytes) (i : ℕ)
    → byte (write_all_at f off x) i
      ≡ (if leb off i && ltb i (off + length x) then byte x (i - off) else byte f i)
byte-write f off x i = elim (Bool-cases (leb off i && ltb i (off + length x))) [
  | inl e ↦ rw e (
      ap (byte (write_all_at f off x)) (ground arith)
      ∙ byte-write_in f off x (i - off) (ground arith))
  | inr e ↦ rw e (byte-write_out f off x i (ground arith))
]

-- A write of one piece and then of the one behind it.
write_twice :
    (f : File) (cursor i m n : ℕ) (x : Bytes)
    → 0 < m
    → 0 < n
    → write_all_at (write_all_at f cursor (slice x i m)) (cursor + m) (slice x (i + m) n)
      ≡ write_all_at f cursor (slice x i (m + n))
write_twice f cursor i m n x hm hn =
    let l1 = length-slice x i m in
    let l2 = length-slice x (i + m) n in
    let l3 = length-slice x i (m + n) in
    let once = write_all_at f cursor (slice x i m) in
    bytes_ext _ _
      (omega (
        arith,
        l1,
        l2,
        l3,
        length-write_all_at once (cursor + m) (slice x (i + m) n) (omega arith),
        length-write_all_at f cursor (slice x i m) (omega arith),
        length-write_all_at f cursor (slice x i (m + n)) (omega arith),
      ))
      (λ k hk.
        rw
          (
            byte-write once (cursor + m) (slice x (i + m) n) k,
            byte-write f cursor (slice x i m) k,
            byte-write f cursor (slice x i (m + n)) k,
            l1,
            l2,
            l3,
          )
          (pieces k))
  where
    pieces :
        (k : ℕ)
        → (if leb (cursor + m) k && ltb k (cursor + m + n)
            then byte (slice x (i + m) n) (k - (cursor + m))
            else if leb cursor k && ltb k (cursor + m)
            then byte (slice x i m) (k - cursor)
            else byte f k)
          ≡ (if leb cursor k && ltb k (cursor + (m + n))
              then byte (slice x i (m + n)) (k - cursor)
              else byte f k)
    pieces k = ground (
      arith,
      byte-slice x (i + m) n (k - (cursor + m)),
      byte-slice x i m (k - cursor),
      byte-slice x i (m + n) (k - cursor),
    )

write_chunks_end :
    (fuel : ℕ) (f : File) (cursor i chunk_size : ℕ) (x : Bytes)
    → length x ≤ i
    → write_chunks fuel f cursor x i chunk_size ≡ f
unfolding write_chunks
write_chunks_end zero f cursor i c x h = refl
write_chunks_end (suc fuel) f cursor i c x h =
    let past : ltb i (length x) ≡ false = ground arith in rw past

write_chunks_lem :
    (fuel : ℕ) (f : File) (cursor i chunk_size : ℕ) (x : Bytes)
    → 0 < chunk_size
    → i < length x
    → length x ≤ i + fuel
    → write_chunks fuel f cursor x i chunk_size ≡ write_all_at f cursor (slice x i (length x - i))
unfolding write_chunks
write_chunks_lem zero f cursor i c x hc hi hf = absurd (omega arith)
write_chunks_lem (suc fuel) f cursor i c x hc hi hf = elim (Bool-cases (ltb (i + c) (length x))) [
  | inl more ↦
      let e1 : min (i + c) (length x) ≡ i + c = ground arith in
      let e2 : i + c - i ≡ c = omega arith in
      let e3 : c + (length x - (i + c)) ≡ length x - i = ground arith in
      rw (lt→ltb i (length x) hi, e1, e2)
        (write_chunks_lem fuel (write_all_at f cursor (slice x i c)) (cursor + c) (i + c) c x hc
            (ground arith) (ground arith)
          ∙ write_twice f cursor i c (length x - (i + c)) x hc (ground arith)
          ∙ ap (λ (t : ℕ). write_all_at f cursor (slice x i t)) e3)
  | inr last ↦
      let e1 : min (i + c) (length x) ≡ length x = ground arith in
      rw (lt→ltb i (length x) hi, e1) (write_chunks_end fuel _ _ (length x) c x (omega arith))
]

-- Whatever the chunk size, write_payload_buf leaves the file that a single write of the buffer
-- leaves, and changes nothing else of the writer.
pub write_payload_buf_lem :
    (w : VhdxWriter) (offset : ℕ) (content : Bytes)
    → write_payload_buf w offset content ≡ record w { file = write_all_at w.file offset content }
unfolding write_payload_buf
write_payload_buf_lem w offset x =
    elim (Bool-cases (w.chunked_write_size == 0 || leb (length x) w.chunked_write_size)) [
      | inl whole ↦ rw whole
      | inr pieces ↦ rw pieces (
          ap (λ f. record w { file = f })
            (write_chunks_lem (length x) w.file offset 0 w.chunked_write_size x (ground arith)
                (ground arith) (omega arith)
              ∙ ap (λ (t : ℕ). write_all_at w.file offset (slice x 0 t)) to_end
              ∙ ap (write_all_at w.file offset) (slice_whole x)))
    ]
  where
    to_end : length x - 0 ≡ length x
    to_end = omega arith
