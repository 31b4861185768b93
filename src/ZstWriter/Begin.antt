-- ===== src/ZstWriter/Begin.antt =====
-- The steps of `begin`: what a sink has taken, and the size of the metadata.
use starweld.Prelude.{
  ℕ, zero, suc, ◌+◌, ◌-◌, ◌*◌, ◌/◌, ◌%◌, ◌^◌, ◌≤◌, ◌<◌, ◌≡◌, refl, sym, ap, ◌∙◌, arith, min,
}
use starweld.Prelude.{
  List, [], ◌∷◌, ◌++◌, length, length-append, ◌==◌, ltb, le→leb, wrap64, replicate,
}
use starweld.Prelude.{Bool-cases, inl, inr}
use starweld.Prelude.{append_assoc}
use starweld.Prelude.Bytes.{Bytes, zeros, length-zeros, splice, length-splice}
use starweld.Prelude.Le.{put_le, length-put_le}
use starweld.Externals.{Externals}
use starweld.Error.{ok}
use starweld.Guid.{write_guid_at}
use starweld.Metadata.{Item, put_items}
use starweld.ZstWriter.{Sink, write_block, write_zeros, zero_loop, pad_to}

-- A sink whose cursor counts its bytes has taken a piece.
pub record Grown (s : Sink) (piece : Bytes) (s' : Sink) : Type 0 where
  pub out : s'.0 ≡ s.0 ++ piece
  pub step : s'.1 ≡ length s'.0

append_nil : (a : Bytes) → a ++ [] ≡ a
append_nil [] = refl
append_nil (x ∷ a) = ap (λ s. x ∷ s) (append_nil a)

zeros_eq : (a b : ℕ) → a ≡ b → zeros a ≡ zeros b
zeros_eq a b h = ap zeros h

zeros_none : (n : ℕ) → n ≡ 0 → zeros n ≡ []
unfolding zeros replicate
zeros_none n h = ap zeros h

zeros_sum : (a b : ℕ) → zeros a ++ zeros b ≡ zeros (a + b)
unfolding zeros replicate
zeros_sum zero b = zeros_eq b (0 + b) (omega arith)
zeros_sum (suc a) b =
    ap (λ s. 0 ∷ s) (zeros_sum a b) ∙ zeros_eq (suc (a + b)) (suc a + b) (omega arith)

zero_loop_lem :
    (fuel : ℕ) (out : Bytes) (len : ℕ) → len ≤ fuel → zero_loop fuel out len ≡ out ++ zeros len
unfolding zero_loop
zero_loop_lem zero out len h = rw (zeros_none len (omega arith)) (sym (append_nil out))
zero_loop_lem (suc fuel) out len h = elim (Bool-cases (ltb 0 len)) [
  | inl more ↦
      let n = min len 65536 in
      rw more (
        zero_loop_lem fuel (out ++ zeros n) (len - n) (ground arith)
        ∙ append_assoc out (zeros n) (zeros (len - n))
        ∙ ap (λ s. out ++ s) (zeros_sum n (len - n) ∙ ap zeros (omega arith)))
  | inr done ↦ rw (done, zeros_none len (ground arith)) (sym (append_nil out))
]

pub write_block-Grown :
    (s : Sink) (x : Bytes)
    → s.1 ≡ length s.0
    → length s.0 + length x < 2 ^ 64
    → Grown s x (write_block s x)
unfolding write_block
write_block-Grown s x step small = record {
  out = refl;
  step = omega (arith, step, length-append s.0 x);
}

pub write_zeros-Grown :
    (s : Sink) (len : ℕ)
    → s.1 ≡ length s.0
    → length s.0 + len < 2 ^ 64
    → Grown s (zeros len) (write_zeros s len)
unfolding write_zeros
write_zeros-Grown s len step small = elim (Bool-cases (len == 0)) [
  | inl nothing ↦
      rw (nothing, zeros_none len (ground arith))
        (record { out = sym (append_nil s.0); step = step })
  | inr something ↦
      let all = zero_loop_lem len s.0 len (omega arith) in
      rw something (record {
        out = all;
        step = omega (
          arith,
          step,
          ap (λ (x : Bytes). length x) all,
          length-append s.0 (zeros len),
          length-zeros len,
        );
      })
]

pub pad_to-Grown :
    (s : Sink) (target : ℕ)
    → s.1 ≡ length s.0
    → length s.0 ≤ target
    → target < 2 ^ 64
    → Grown s (zeros (target - length s.0)) (pad_to s target)
unfolding pad_to
pad_to-Grown s target step before small = elim (Bool-cases (s.1 == target)) [
  | inl there ↦
      rw (there, zeros_none (target - length s.0) (ground (arith, step)))
        (record { out = sym (append_nil s.0); step = step })
  | inr far ↦
      let gap : wrap64 (target + (2 ^ 64 - s.1)) ≡ target - length s.0 = omega (arith, step) in
      rw (far, gap) (write_zeros-Grown s (target - length s.0) step (omega arith))
]

module _ ⦃ext : Externals⦄ where
  -- The most that the items take, each rounded up to a multiple of 8.
  abbrev pub room : List Item → ℕ
  room [] = 0
  room ((guid, content, flags) ∷ items) = length content + 7 + room items

  pub put_items-Size :
      (items : List Item) (buf : Bytes) (i data_off : ℕ)
      → 32 + (i + length items) * 32 ≤ length buf
      → data_off + room items ≤ length buf
      → (out : Bytes) × (put_items buf i data_off items ≡ ok out) × (length out ≡ length buf)
  unfolding put_items
  put_items-Size [] buf i data_off table enough = (buf, refl, refl)
  put_items-Size ((guid, content, flags) ∷ items) buf i data_off table enough =
      let entry = 32 + i * 32 in
      let named = write_guid_at buf entry guid in
      let placed = put_le 4 named (entry + 16) (data_off % 2 ^ 32) in
      let sized = put_le 4 placed (entry + 20) (length content % 2 ^ 32) in
      let next = splice (put_le 4 sized (entry + 24) flags) data_off content in
      let size : length next ≡ length buf =
        length-splice _ data_off content
        ∙ length-put_le 4 _ (entry + 24) flags
        ∙ length-put_le 4 _ (entry + 20) _
        ∙ length-put_le 4 _ (entry + 16) _
        ∙ (unfold write_guid_at in length-splice buf entry _) in
      let (out, e, len) =
        put_items-Size items next (i + 1) ((data_off + length content + 7) / 8 * 8)
          (omega (arith, size)) (omega (arith, size)) in
      (
        out,
        rw
            (
              le→leb (entry + 28) (length buf) (omega arith),
              le→leb (data_off + length content) (length buf) (omega arith),
            )
            e,
        len ∙ size,
      )
