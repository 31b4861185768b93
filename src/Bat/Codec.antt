-- ===== src/Bat/Codec.antt =====
-- The table on disk.
use starweld.Prelude.{ℕ, ◌+◌, ◌*◌, ◌/◌, ◌^◌, ◌≤◌, ◌<◌, min, ◌≡◌, refl, ap, ap₂, ◌∙◌, arith}
use starweld.Prelude.{List, [], ◌∷◌, length, All, Bool}
use starweld.Prelude.Bytes.{Bytes, byte, length-zeros, byte-splice_lt}
use starweld.Prelude.Bytes.{slice_ext}
use starweld.Prelude.Le.{get_le, put_le, get_le-put_le, get_le-agree, length-put_le}
use starweld.Error.{ok}
use starweld.Bat.{BatEntry, Bat, parse_entries, parse, encode_entries, encode, total_bat_entries}

abbrev pub IsWord : BatEntry → Type 0
IsWord e = e.raw < 2 ^ 64

-- The entries stand in the buffer from place `i` on.
abbrev Holds : Bytes → ℕ → List BatEntry → Type 0
Holds buf i [] = Unit
Holds buf i (e ∷ es) = (get_le 8 buf (i * 8) ≡ e.raw) × Holds buf (i + 1) es

parse_entries-Holds :
    (buf : Bytes) (i : ℕ) (es : List BatEntry)
    → Holds buf i es
    → parse_entries buf i (length es) ≡ es
unfolding parse_entries
parse_entries-Holds buf i [] h = refl
parse_entries-Holds buf i (e ∷ es) (h, hs) =
    ap₂ ◌∷◌ (ground (arith, h)) (parse_entries-Holds buf (i + 1) es hs)

length-encode_entries :
    (buf : Bytes) (i : ℕ) (es : List BatEntry) → length (encode_entries buf i es) ≡ length buf
unfolding encode_entries
length-encode_entries buf i [] = refl
length-encode_entries buf i (e ∷ es) =
    length-encode_entries (put_le 8 buf (i * 8) e.raw) (i + 1) es
    ∙ length-put_le 8 buf (i * 8) e.raw

byte-encode_entries :
    (buf : Bytes) (i : ℕ) (es : List BatEntry) (k : ℕ)
    → k < i * 8
    → byte (encode_entries buf i es) k ≡ byte buf k
unfolding encode_entries put_le
byte-encode_entries buf i [] k h = refl
byte-encode_entries buf i (e ∷ es) k h =
    byte-encode_entries (put_le 8 buf (i * 8) e.raw) (i + 1) es k (omega arith)
    ∙ byte-splice_lt buf (i * 8) _ k h

encode_entries-Holds :
    (buf : Bytes) (i : ℕ) (es : List BatEntry)
    → All IsWord es
    → (i + length es) * 8 ≤ length buf
    → Holds (encode_entries buf i es) i es
unfolding encode_entries
encode_entries-Holds buf i [] w h = tt
encode_entries-Holds buf i (e ∷ es) (we, w) h = (
  get_le-agree 8 _ _ (i * 8) (i * 8) (
        slice_ext _ _ (i * 8) (i * 8) 8 (λ k hk.
          byte-encode_entries (put_le 8 buf (i * 8) e.raw) (i + 1) es (i * 8 + k) (omega arith)))
      ∙ get_le-put_le 8 buf (i * 8) e.raw we (omega arith),
  encode_entries-Holds (put_le 8 buf (i * 8) e.raw) (i + 1) es w
      (omega (arith, length-put_le 8 buf (i * 8) e.raw)),
)

Holds-agree :
    (a b : Bytes) (i : ℕ) (es : List BatEntry)
    → ((k : ℕ) → k < (i + length es) * 8 → byte b k ≡ byte a k)
    → Holds a i es
    → Holds b i es
Holds-agree a b i [] h hs = tt
Holds-agree a b i (e ∷ es) h (he, hs) = (
  get_le-agree 8 _ _ (i * 8) (i * 8)
        (slice_ext b a (i * 8) (i * 8) 8 (λ k hk. h (i * 8 + k) (omega arith)))
      ∙ he,
  Holds-agree a b (i + 1) es (λ k hk. h k (omega arith)) hs,
)

pub length-encode : (b : Bat) → length (encode b) ≡ length b.entries * 8
unfolding encode
length-encode b = length-encode_entries _ 0 b.entries ∙ length-zeros _

-- For a table of 64-bit words as long as total_bat_entries says, parsing any buffer that begins
-- with its encoding gives the table back.
pub parse-encode_bat :
    (b : Bat) (has_parent : Bool) (buf : Bytes)
    → All IsWord b.entries
    → total_bat_entries b.block_count b.chunk_ratio has_parent ≡ ok (length b.entries)
    → length (encode b) ≤ length buf
    → ((k : ℕ) → k < length (encode b) → byte buf k ≡ byte (encode b) k)
    → parse buf b.block_count b.chunk_ratio has_parent ≡ ok b
unfolding parse
parse-encode_bat b has_parent buf w t fits agree =
    rw (t, all_fit) (ap ok (λ i. record b { entries = entries i }))
  where
    all_fit : min (length b.entries) (length buf / 8) ≡ length b.entries
    all_fit = omega (arith, length-encode b)

    held : Holds buf 0 b.entries
    held =
        Holds-agree (encode b) buf 0 b.entries (λ k hk. agree k (omega (arith, length-encode b)))
          (unfold encode in
            encode_entries-Holds _ 0 b.entries w
              (omega (arith, length-zeros (length b.entries * 8))))

    entries : parse_entries buf 0 (length b.entries) ≡ b.entries
    entries = parse_entries-Holds buf 0 b.entries held
