-- ===== src/Writer/Sequence.antt =====
-- Blocks written one after the other.
use starweld.Prelude.{ℕ, suc, ◌+◌, ◌*◌, ◌^◌, ◌<◌, ◌≡◌, refl, sym, ap, ◌∙◌, arith, inl, inr}
use starweld.Prelude.{some, ltb, leb, ◌==◌, ◌&&◌, if◌then◌else◌, Bool-cases, ==→≡}
use starweld.Prelude.Bytes.{Bytes}
use starweld.Error.{Result}
use starweld.Writer.{VhdxWriter}
use starweld.Writer.Blocks.{IsValid, Updates, block_content}

-- The blocks of the range hold what `g` says, and the others what they held.
pub record Written (w : VhdxWriter) (b n : ℕ) (g : ℕ → Bytes) (w' : VhdxWriter) : Type 0 where
  pub valid : IsValid w'
  pub count : w'.bat.block_count ≡ w.bat.block_count
  pub params_same : w'.params ≡ w.params
  pub contents :
      (k : ℕ)
      → k < w.bat.block_count
      → block_content w' k ≡ (if leb b k && ltb k (b + n) then some (g k) else block_content w k)

pub nothing-Written : (w : VhdxWriter) (b : ℕ) (g : ℕ → Bytes) → IsValid w → Written w b 0 g w
nothing-Written w b g v = record {
  valid = v;
  count = refl;
  params_same = refl;
  contents = λ k h. ground arith;
}

-- The space that `n` more blocks may take.
abbrev pub Room : VhdxWriter → ℕ → Type 0
Room w n = w.payload_cursor + n * w.params.block_size < 2 ^ 64

pub Room-one :
    (w : VhdxWriter) (n : ℕ) → Room w (suc n) → w.payload_cursor + w.params.block_size < 2 ^ 64
Room-one w n h = grind (arith, h)

module _ {w : VhdxWriter} {b : ℕ} {x : Bytes} {r : Result VhdxWriter} (u : Updates w b x r) where
  pub Room-next : (n : ℕ) → Room w (suc n) → Room u.w' n
  Room-next n h =
      let size : u.w'.params.block_size ≡ w.params.block_size =
        ap (λ p. p.block_size) u.params_same in
      let rest : n * u.w'.params.block_size ≡ n * w.params.block_size =
        ap (λ (t : ℕ). n * t) size in
      let all : suc n * w.params.block_size ≡ n * w.params.block_size + w.params.block_size =
        grind arith in
      omega (arith, h, u.cursor_after, rest, all)

  pub Written-then :
      (n : ℕ) (g : ℕ → Bytes) (w'' : VhdxWriter)
      → g b ≡ x
      → Written u.w' (b + 1) n g w''
      → Written w b (suc n) g w''
  Written-then n g w'' e f = record {
    valid = f.valid;
    count = f.count ∙ u.count;
    params_same = f.params_same ∙ u.params_same;
    contents = λ k h. f.contents k (omega (arith, h, u.count)) ∙ rw (u.contents k h) (cases k);
  }
    where
      cases :
          (k : ℕ)
          → (if leb (b + 1) k && ltb k (b + 1 + n)
              then some (g k)
              else if b == k
              then some x
              else block_content w k)
            ≡ (if leb b k && ltb k (b + suc n) then some (g k) else block_content w k)
      cases k = elim (Bool-cases (b == k)) [
        | inl here ↦
            let same : g k ≡ x = ap g (sym (==→≡ _ _ here)) ∙ e in ground (arith, same, here)
        | inr there ↦ ground (arith, there)
      ]
