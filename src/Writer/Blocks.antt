-- ===== src/Writer/Blocks.antt =====
-- A dynamic disk that is being written, seen as an array of blocks.
use starweld.Prelude.{ℕ, ◌+◌, ◌%◌, ◌^◌, ◌≤◌, ◌<◌, ◌≡◌, refl, ap, ◌∙◌, arith, false, inl, inr}
use starweld.Prelude.{Option, none, some, length, ◌==◌, if◌then◌else◌, Bool-cases, wrap64}
use starweld.Prelude.Bytes.{Bytes, zeros, slice}
use starweld.Error.{Result, ok}
use starweld.Format.{mib, payload_block_zero, payload_block_fully_present}
use starweld.IoUtil.{File, write_all_at}
use starweld.IoUtil.Files.{slice-write_self, slice-write_out}
use starweld.Bat.{
  BatEntry, new_entry, state, file_offset, payload_entry, set_payload_entry, from_raw, PayloadState,
  fully_present, zero_block, partially_present, not_present, unmapped, undefined, other,
}
use starweld.Bat.Entry.{new_entry_fields}
use starweld.Bat.Access
use starweld.Bat.Access.{payload_entry-set, set_payload_entry-eq, set_payload_entry-IsValid}
use starweld.Writer.{VhdxWriter, BlockSource, zero_source, buf, write_block}
use starweld.Writer.Chunks.{write_payload_buf_lem}

abbrev state_content : ℕ → File → ℕ → PayloadState → Option Bytes
state_content bs file off fully_present = some (slice file off bs)
state_content bs file off zero_block = some (zeros bs)
state_content bs file off partially_present = none
state_content bs file off not_present = none
state_content bs file off unmapped = none
state_content bs file off undefined = none
state_content bs file off (other s) = none

abbrev entry_content : ℕ → File → Option BatEntry → Option Bytes
entry_content bs file none = none
entry_content bs file (some e) = state_content bs file (file_offset e) (from_raw (state e))

-- What the disk holds for block `k`: nothing while the block has not been written.
abbrev pub block_content : VhdxWriter → ℕ → Option Bytes
block_content w k = entry_content w.params.block_size w.file (payload_entry w.bat k)

abbrev pub source_content : ℕ → BlockSource → Bytes
source_content bs zero_source = zeros bs
source_content bs (buf content) = content

-- The blocks written so far end before the cursor.
abbrev Below : ℕ → ℕ → Option BatEntry → Type 0
Below bs cursor none = Unit
Below bs cursor (some e) = from_raw (state e) ≡ fully_present → file_offset e + bs ≤ cursor

pub record IsValid (w : VhdxWriter) : Type 0 where
  pub dynamic : w.params.fixed ≡ false
  pub table : Access.IsValid w.bat
  pub block_aligned : w.params.block_size % mib ≡ 0
  pub cursor_aligned : w.payload_cursor % mib ≡ 0
  pub cursor_small : w.payload_cursor < 2 ^ 64
  pub below :
      (k : ℕ)
      → k < w.bat.block_count
      → Below w.params.block_size w.payload_cursor (payload_entry w.bat k)

-- The disk with block `b` written: every other block, and the file up to the cursor, is as before.
pub record Updates (w : VhdxWriter) (b : ℕ) (content : Bytes) (r : Result VhdxWriter) : Type 0 where
  pub w' : VhdxWriter
  pub returns : r ≡ ok w'
  pub valid : IsValid w'
  pub count : w'.bat.block_count ≡ w.bat.block_count
  pub contents :
      (k : ℕ)
      → k < w.bat.block_count
      → block_content w' k ≡ (if b == k then some content else block_content w k)
  pub params_same : w'.params ≡ w.params
  pub cursor_after : w'.payload_cursor ≤ w.payload_cursor + w.params.block_size
  pub cursor_before : w.payload_cursor ≤ w'.payload_cursor
  pub kept : (a n : ℕ) → a + n ≤ w.payload_cursor → slice w'.file a n ≡ slice w.file a n

keep :
    (bs cursor : ℕ) (file : File) (x : Bytes) (o : Option BatEntry)
    → Below bs cursor o
    → entry_content bs (write_all_at file cursor x) o ≡ entry_content bs file o
keep bs cursor file x none h = refl
keep bs cursor file x (some e) h = go (from_raw (state e)) h
  where
    go :
        (s : PayloadState)
        → (s ≡ fully_present → file_offset e + bs ≤ cursor)
        → state_content bs (write_all_at file cursor x) (file_offset e) s
          ≡ state_content bs file (file_offset e) s
    go fully_present h = ap some (slice-write_out file cursor x (file_offset e) bs (inl (h refl)))
    go zero_block h = refl
    go partially_present h = refl
    go not_present h = refl
    go unmapped h = refl
    go undefined h = refl
    go (other s) h = refl

Below-le : (bs c c' : ℕ) (o : Option BatEntry) → c ≤ c' → Below bs c o → Below bs c' o
Below-le bs c c' none h b = tt
Below-le bs c c' (some e) h b = λ f. omega (arith, b f)

module _ (w : VhdxWriter) (b : ℕ) (v : IsValid w) (hb : b < w.bat.block_count) where
  set_keeps : (e : BatEntry) → (set_payload_entry w.bat b e).block_count ≡ w.bat.block_count
  set_keeps e = ap (λ t. t.block_count) (set_payload_entry-eq w.bat b e (v.table.covers b hb))

  looked :
      (e : BatEntry) (k : ℕ)
      → k < w.bat.block_count
      → payload_entry (set_payload_entry w.bat b e) k
        ≡ (if b == k then some e else payload_entry w.bat k)
  looked e k h = (payload_entry-set w.bat b k e v.table hb h).0

  in_count :
      (e : BatEntry) (k : ℕ) → k < (set_payload_entry w.bat b e).block_count → k < w.bat.block_count
  in_count e k h = omega (arith, h, set_keeps e)

  abbrev zero_entry : BatEntry
  zero_entry = new_entry payload_block_zero 0

  is_zero : from_raw (state zero_entry) ≡ zero_block
  unfolding from_raw state new_entry
  is_zero = refl

  write_zero-Updates : Updates w b (zeros w.params.block_size) (write_block w b zero_source)
  unfolding write_block
  write_zero-Updates = record {
    w' = record w { bat = set_payload_entry w.bat b zero_entry };
    returns = refl;
    valid = record {
      dynamic = v.dynamic;
      table = set_payload_entry-IsValid w.bat b zero_entry v.table;
      block_aligned = v.block_aligned;
      cursor_aligned = v.cursor_aligned;
      cursor_small = v.cursor_small;
      below = λ k h.
          rw (looked zero_entry k (in_count zero_entry k h)) (elim (Bool-cases (b == k)) [
            | inl e ↦ rw e (λ f. cc (f, is_zero))
            | inr e ↦ rw e (v.below k (in_count zero_entry k h))
          ]);
    };
    count = set_keeps zero_entry;
    contents = λ k h.
        rw (looked zero_entry k h)
          (elim (Bool-cases (b == k)) [ inl e ↦ rw (e, is_zero) refl | inr e ↦ rw e refl ]);
    params_same = refl;
    cursor_after = omega arith;
    cursor_before = omega arith;
    kept = λ a n h. refl;
  }

  abbrev buf_entry : BatEntry
  buf_entry = new_entry payload_block_fully_present w.payload_cursor

  is_full :
      (from_raw (state buf_entry) ≡ fully_present) × (file_offset buf_entry ≡ w.payload_cursor)
  is_full =
      let (s, off, _) =
        new_entry_fields 6 w.payload_cursor (omega arith) v.cursor_aligned v.cursor_small in
      (ap from_raw s ∙ unfold from_raw in refl, off)

  write_buf-Updates :
      (x : Bytes)
      → length x ≡ w.params.block_size
      → w.payload_cursor + w.params.block_size < 2 ^ 64
      → Updates w b x (write_block w b (buf x))
  unfolding write_block
  write_buf-Updates x len small = record {
    w' = record w {
      file = write_all_at w.file w.payload_cursor x;
      bat = set_payload_entry w.bat b buf_entry;
      payload_cursor = wrap64 (w.payload_cursor + w.params.block_size);
    };
    returns = simp (v.dynamic, write_payload_buf_lem w w.payload_cursor x);
    valid = record {
      dynamic = v.dynamic;
      table = set_payload_entry-IsValid w.bat b buf_entry v.table;
      block_aligned = v.block_aligned;
      cursor_aligned = omega (arith, v.cursor_aligned, v.block_aligned);
      cursor_small = omega arith;
      below = λ k h. rw (looked buf_entry k (in_count buf_entry k h)) (elim (Bool-cases (b == k)) [
        | inl e ↦ rw e (λ f. omega (arith, is_full.1, small))
        | inr e ↦ rw e (
            Below-le w.params.block_size w.payload_cursor _ (payload_entry w.bat k)
              (omega (arith, small)) (v.below k (in_count buf_entry k h)))
      ]);
    };
    count = set_keeps buf_entry;
    contents = λ k h. rw (looked buf_entry k h) (elim (Bool-cases (b == k)) [
      | inl e ↦
          rw (e, is_full.0, is_full.1, ← len) (ap some (slice-write_self w.file w.payload_cursor x))
      | inr e ↦
          rw e (
            keep w.params.block_size w.payload_cursor w.file x (payload_entry w.bat k)
              (v.below k h))
    ]);
    params_same = refl;
    cursor_after = omega (arith, small);
    cursor_before = omega (arith, small);
    kept = λ a n h. slice-write_out w.file w.payload_cursor x a n (inl h);
  }

abbrev pub Fits : ℕ → ℕ → BlockSource → Type 0
Fits bs cursor zero_source = Unit
Fits bs cursor (buf x) = (length x ≡ bs) × (cursor + bs < 2 ^ 64)

-- On a valid dynamic disk, writing a block within the table, whose buffer has the size of a block
-- and ends within 64 bits, succeeds, keeps the disk valid, gives that block the written content
-- (zeros for a zero source) and every other block the content it had, and leaves the file up to
-- the cursor as it was.
pub write_block-Updates :
    (w : VhdxWriter) (b : ℕ) (source : BlockSource)
    → IsValid w
    → b < w.bat.block_count
    → Fits w.params.block_size w.payload_cursor source
    → Updates w b (source_content w.params.block_size source) (write_block w b source)
write_block-Updates w b zero_source v hb fits = write_zero-Updates w b v hb
write_block-Updates w b (buf x) v hb (len, small) = write_buf-Updates w b v hb x len small
