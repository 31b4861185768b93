-- ===== src/Prelude/Text.antt =====
-- Texts as lists of Unicode scalar values, and their UTF-16 code units: `str::encode_utf16` and
-- `String::from_utf16` of the standard library.
use Prim.Native.Nat.{ℕ, ◌+◌, ◌-◌, ◌*◌, ◌/◌, ◌%◌, ◌≤◌, ◌<◌}
use Prim.Native.Char.{code}
use Prim.Native.String.{String}
use mathlib.Core.Path.{◌≡◌, refl, ap, ◌∙◌}
use mathlib.Core.Bool.{Bool, true, ◌&&◌}
use mathlib.Core.Option
use mathlib.Core.Option.{Option, none, some}
use mathlib.Core.List.{List, [], ◌∷◌}
use mathlib.Core.Logic.{◌⊎◌, inl, inr}
use native.Mathlib.Omega.{arith}
use starweld.Prelude.Tests.{ltb, leb, if◌then◌else◌, Bool-cases}
use starweld.Prelude.Lists.{All}

abbrev pub codes : String → List ℕ
codes String.[] = []
codes (String.◌∷◌ c s) = code c ∷ codes s

abbrev pub IsScalar : ℕ → Type 0
IsScalar c = (c < 0xD800) ⊎ (0xE000 ≤ c) × (c < 0x110000)

unfoldable pub encode_utf16 : List ℕ → List ℕ
encode_utf16 [] = []
encode_utf16 (c ∷ s) =
    let rest = encode_utf16 s in
    if ltb c 0x10000
    then c ∷ rest
    else (0xD800 + (c - 0x10000) / 1024) ∷ (0xDC00 + (c - 0x10000) % 1024) ∷ rest

abbrev is_high : ℕ → Bool
is_high u = leb 0xD800 u && ltb u 0xDC00

abbrev is_low : ℕ → Bool
is_low u = leb 0xDC00 u && ltb u 0xE000

-- A lone surrogate is an error.
unfoldable pub from_utf16 : List ℕ → Option (List ℕ)
from_utf16 [] = some []
from_utf16 (u ∷ []) = if is_high u then none else if is_low u then none else some (u ∷ [])
from_utf16 (u ∷ v ∷ s) =
    let alone = Option.map (λ t. u ∷ t) (from_utf16 (v ∷ s)) in
    let paired =
      Option.map (λ t. (0x10000 + (u - 0xD800) * 1024 + (v - 0xDC00)) ∷ t) (from_utf16 s) in
    if is_high u then (if is_low v then paired else none) else if is_low u then none else alone

from_utf16_alone :
    (u : ℕ) (s : List ℕ)
    → (u < 0xD800) ⊎ (0xE000 ≤ u)
    → from_utf16 (u ∷ s) ≡ Option.map (λ t. u ∷ t) (from_utf16 s)
unfolding from_utf16
from_utf16_alone u [] h = ground arith
from_utf16_alone u (v ∷ s) h = ground arith

from_utf16_surrogates :
    (u v : ℕ) (s : List ℕ)
    → is_high u ≡ true
    → is_low v ≡ true
    → from_utf16 (u ∷ v ∷ s)
      ≡ Option.map (λ t. (0x10000 + (u - 0xD800) * 1024 + (v - 0xDC00)) ∷ t) (from_utf16 s)
unfolding from_utf16
from_utf16_surrogates u v s h l = rw (h, l)

from_utf16_pair :
    (c : ℕ) (s : List ℕ)
    → 0x10000 ≤ c
    → c < 0x110000
    → from_utf16 ((0xD800 + (c - 0x10000) / 1024) ∷ (0xDC00 + (c - 0x10000) % 1024) ∷ s)
      ≡ Option.map (λ t. c ∷ t) (from_utf16 s)
from_utf16_pair c s lo hi =
    from_utf16_surrogates (0xD800 + (c - 0x10000) / 1024) (0xDC00 + (c - 0x10000) % 1024) s
      (ground arith) (ground arith)
    ∙ ap (λ (x : ℕ). Option.map (λ t. x ∷ t) (from_utf16 s)) (omega arith)

-- A text survives its UTF-16 form.
pub from_utf16-encode_utf16 : (s : List ℕ) → All IsScalar s → from_utf16 (encode_utf16 s) ≡ some s
unfolding encode_utf16
from_utf16-encode_utf16 [] h = unfold from_utf16 in refl
from_utf16-encode_utf16 (c ∷ s) (hc, hs) = elim (Bool-cases (ltb c 0x10000)) [
  | inl bmp ↦
      rw (bmp, from_utf16_alone c (encode_utf16 s) (ground arith), from_utf16-encode_utf16 s hs)
  | inr wide ↦ rw (
    wide,
    from_utf16_pair c (encode_utf16 s) (ground arith) (ground arith),
    from_utf16-encode_utf16 s hs,
  )
]
