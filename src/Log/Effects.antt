-- ===== src/Log/Effects.antt =====
-- What replaying a sequence of writes does to the file.
use starweld.Prelude.{ℕ, zero, suc, ◌+◌, ◌-◌, max, ◌≡◌, refl, sym, ap, ◌∙◌, ◌⊎◌, inl, inr}
use starweld.Prelude.{◌&&◌, List, [], ◌∷◌, ◌++◌, length, get_or, All, arith}
use starweld.Prelude.{Bool-cases, ltb, leb, if◌then◌else◌}
use starweld.Prelude.Bytes.{Bytes, byte}
use starweld.Error.{Result, ok}
use starweld.IoUtil.{File, write_all_at, zero_range}
use starweld.IoUtil.Files.{byte-write_in, byte-write_out, length-write_all_at}
use starweld.IoUtil.Zero.{byte-zero_range, length-zero_range}
use starweld.Log.Entry.{LogEntry, Descriptor, zero_desc, data_desc}
use starweld.Log.Replay.{apply_descriptor, restored_sector}
use starweld.Log.Writes.{covers, logged, ends, Write, overlay, top, apply_writes}
use starweld.Log.Writes.{CanWrite, All-get_or, length-restored_sector, byte-restored_sector}

-- The outcome of writes whose last ends at `end`, with byte `i` as `at i` says.
pub record Outcome (f : File) (end : ℕ) (at : ℕ → ℕ) (r : Result File) : Type 0 where
  pub file' : File
  pub returns : r ≡ ok file'
  pub bytes : (i : ℕ) → byte file' i ≡ at i
  pub size : length file' ≡ max (length f) end

byte-write_all_at :
    (f : File) (off : ℕ) (x : Bytes) (i : ℕ)
    → byte (write_all_at f off x) i
      ≡ (if leb off i && ltb i (off + length x) then byte x (i - off) else byte f i)
byte-write_all_at f off x i = elim (Bool-cases (leb off i && ltb i (off + length x))) [
  | inl e ↦ rw e (
      ap (byte (write_all_at f off x)) (ground arith)
      ∙ byte-write_in f off x (i - off) (ground arith))
  | inr e ↦ rw e (byte-write_out f off x i (ground arith))
]

size_of_zeros :
    (f : File) (n off s : ℕ)
    → length (zero_range f off n) ≡ max (length f) (ends (zero_desc n off s))
size_of_zeros f zero off s = length-zero_range f off 0 ∙ omega arith
size_of_zeros f (suc n) off s = length-zero_range f off (suc n) ∙ ground arith

apply_descriptor-Outcome :
    (e : LogEntry) (d : Descriptor) (f : File)
    → CanWrite (e, d)
    → Outcome f
        (ends d)
        (λ i. if covers d i then logged e d i else byte f i)
        (apply_descriptor e f d)
unfolding apply_descriptor
apply_descriptor-Outcome e (zero_desc n off s) f h = record {
  file' = zero_range f off n;
  returns = refl;
  bytes = λ i. byte-zero_range f off n i;
  size = size_of_zeros f n off s;
}
apply_descriptor-Outcome e (data_desc t l off s k) f h =
    let raw = get_or e.data_sectors k [] in
    let found = All-get_or e.data_sectors k h.1 h.0.0 in
    let x = restored_sector l t raw in
    let size = length-restored_sector l t raw h.0.2 h.0.1 in
    record {
      file' = write_all_at f off x;
      returns = rw found.0 (ground arith);
      bytes = λ i. ground (
        arith,
        size,
        byte-write_all_at f off x i,
        byte-restored_sector l t raw h.0.2 h.0.1 (i - off),
      );
      size = length-write_all_at f off x (omega arith) ∙ omega arith;
    }

pub apply_writes-Outcome :
    (ws : List Write) (f : File)
    → All CanWrite ws
    → Outcome f (top ws) (λ i. overlay ws i (byte f i)) (apply_writes f ws)
unfolding apply_writes overlay top
apply_writes-Outcome [] f h = record {
  file' = f;
  returns = refl;
  bytes = λ i. refl;
  size = omega arith;
}
apply_writes-Outcome ((e, d) ∷ ws) f h =
    let first = apply_descriptor-Outcome e d f h.0 in
    let rest = apply_writes-Outcome ws first.file' h.1 in
    record {
      file' = rest.file';
      returns = rw first.returns rest.returns;
      bytes = λ i. rest.bytes i ∙ ap (overlay ws i) (first.bytes i);
      size = omega (arith, first.size, rest.size);
    }

overlay_cases :
    (ws : List Write) (i : ℕ)
    → ((b : ℕ) → overlay ws i b ≡ b) ⊎ ((b c : ℕ) → overlay ws i b ≡ overlay ws i c)
unfolding overlay
overlay_cases [] i = inl (λ b. refl)
overlay_cases ((e, d) ∷ ws) i = elim (Bool-cases (covers d i)) [
  | inl hit ↦ inr (λ b c. rw hit)
  | inr miss ↦ rw miss (overlay_cases ws i)
]

-- Writing twice is writing once.
overlay_twice : (ws : List Write) (i b : ℕ) → overlay ws i (overlay ws i b) ≡ overlay ws i b
overlay_twice ws i b = elim (overlay_cases ws i) [
  | inl keeps ↦ keeps (overlay ws i b)
  | inr decides ↦ decides (overlay ws i b) b
]

overlay-append :
    (ws vs : List Write) (i b : ℕ) → overlay (ws ++ vs) i b ≡ overlay vs i (overlay ws i b)
unfolding overlay
overlay-append [] vs i b = refl
overlay-append ((e, d) ∷ ws) vs i b =
    overlay-append ws vs i (if covers d i then logged e d i else b)

-- What a first part of the writes has done is done again by all of them.
pub overlay_again :
    (ws vs : List Write) (i b : ℕ) → overlay (ws ++ vs) i (overlay ws i b) ≡ overlay (ws ++ vs) i b
overlay_again ws vs i b =
    overlay-append ws vs i (overlay ws i b)
    ∙ ap (overlay vs i) (overlay_twice ws i b)
    ∙ sym (overlay-append ws vs i b)

pub top-append : (ws vs : List Write) → top (ws ++ vs) ≡ max (top ws) (top vs)
unfolding top
top-append [] vs = omega arith
top-append ((e, d) ∷ ws) vs = omega (arith, top-append ws vs)

pub All-prefix : (ws vs : List Write) → All CanWrite (ws ++ vs) → All CanWrite ws
All-prefix [] vs h = tt
All-prefix (w ∷ ws) vs h = (h.0, All-prefix ws vs h.1)
