-- ===== src/ZstWriter/Pieces.antt =====
-- The pieces of the stream, while more is put out.
use starweld.Prelude.{ℕ, ◌+◌, ◌≤◌, ◌≡◌, sym, ap, ◌∙◌, arith}
use starweld.Prelude.{◌++◌, length, length-append}
use starweld.Prelude.Bytes.{Bytes, slice, slice-append_left, slice-append_right}
use starweld.ZstWriter.{Sink}
use starweld.ZstWriter.Begin.{Grown}

-- A piece of a stream stays where it is when more is put out.
pub record Piece (out : Bytes) (off : ℕ) (x : Bytes) : Type 0 where
  pub within : off + length x ≤ length out
  pub here : slice out off (length x) ≡ x

last_piece : (a x : Bytes) (off : ℕ) → off ≡ length a → Piece (a ++ x) off x
last_piece a x off h = record {
  within = omega (arith, length-append a x);
  here = ap (λ (t : ℕ). slice (a ++ x) t (length x)) h ∙ slice-append_right a x;
}

keep_piece : (a y x : Bytes) (off : ℕ) → Piece a off x → Piece (a ++ y) off x
keep_piece a y x off p = record {
  within = omega (arith, p.within, length-append a y);
  here = slice-append_left a y off (length x) p.within ∙ p.here;
}

pub take_piece : (out x : Bytes) (off n : ℕ) → Piece out off x → length x ≡ n → slice out off n ≡ x
take_piece out x off n p h = ap (λ (t : ℕ). slice out off t) (sym h) ∙ p.here

pub Grown-size :
    (s : Sink) (x : Bytes) (s' : Sink) → Grown s x s' → length s'.0 ≡ length s.0 + length x
Grown-size s x s' g = ap (λ (y : Bytes). length y) g.out ∙ length-append s.0 x

pub new_piece :
    (s : Sink) (x : Bytes) (s' : Sink) (off : ℕ)
    → Grown s x s'
    → off ≡ length s.0
    → Piece s'.0 off x
new_piece s x s' off g h = rw g.out (last_piece s.0 x off h)

pub old_piece :
    (s : Sink) (y : Bytes) (s' : Sink) (x : Bytes) (off : ℕ)
    → Grown s y s'
    → Piece s.0 off x
    → Piece s'.0 off x
old_piece s y s' x off g p = rw g.out (keep_piece s.0 y x off p)
