-- ===== src/Log/Sorting.antt =====
-- Sorting the entries by their sequence numbers, and the run that is taken from them.
use mathlib.Core.List.{Perm}
use mathlib.Core.List.Perm
use starweld.Prelude.{ℕ, zero, suc, ◌+◌, ◌≤◌, ◌<◌, ◌≡◌, refl, List, [], ◌∷◌, length, arith}
use starweld.Prelude.{Bool-cases, inl, inr, leb, le→leb}
use starweld.Error.{Result, ok}
use starweld.Log.Entry.{LogEntry}
use starweld.Log.Scan.{insert, sort, seq_at, longest_run, entries_at, best_entries}
use starweld.Log.Runs.{IsRun, Known-longest_run}

insert-perm : (x : ℕ × LogEntry) (xs : List (ℕ × LogEntry)) → Perm (insert x xs) (x ∷ xs)
unfolding insert
insert-perm x [] = Perm.refl (x ∷ [])
insert-perm x (y ∷ ys) = elim (Bool-cases (leb x.1.sequence_number y.1.sequence_number)) [
  | inl e ↦ rw e (Perm.refl (x ∷ y ∷ ys))
  | inr e ↦ rw e (Perm.trans (Perm.cons y (insert-perm x ys)) (Perm.swap x y ys))
]

sort-perm : (xs : List (ℕ × LogEntry)) → Perm (sort xs) xs
unfolding sort
sort-perm [] = Perm.refl []
sort-perm (x ∷ xs) = Perm.trans (insert-perm x (sort xs)) (Perm.cons x (sort-perm xs))

length-insert :
    (x : ℕ × LogEntry) (xs : List (ℕ × LogEntry)) → length (insert x xs) ≡ suc (length xs)
unfolding insert
length-insert x [] = refl
length-insert x (y ∷ ys) = ground (arith, length-insert x ys)

abbrev Ascending : List (ℕ × LogEntry) → Type 0
Ascending [] = Unit {0}
Ascending (x ∷ []) = Unit {0}
Ascending (x ∷ y ∷ ys) = (x.1.sequence_number ≤ y.1.sequence_number) × Ascending (y ∷ ys)

insert-Ascending :
    (x : ℕ × LogEntry) (xs : List (ℕ × LogEntry)) → Ascending xs → Ascending (insert x xs)
unfolding insert
insert-Ascending x [] h = tt
insert-Ascending x (y ∷ []) h = ground arith
insert-Ascending x (y ∷ z ∷ zs) h = ground (arith, insert-Ascending x (z ∷ zs) h.1)

sort-Ascending : (xs : List (ℕ × LogEntry)) → Ascending (sort xs)
unfolding sort
sort-Ascending [] = tt
sort-Ascending (x ∷ xs) = insert-Ascending x (sort xs) (sort-Ascending xs)

seq_at-Ascending :
    (xs : List (ℕ × LogEntry)) (i : ℕ)
    → Ascending xs
    → suc i < length xs
    → seq_at xs i ≤ seq_at xs (suc i)
unfolding seq_at
seq_at-Ascending [] i h lt = elim lt [ ]
seq_at-Ascending (x ∷ []) i h lt = absurd (omega arith)
seq_at-Ascending (x ∷ y ∷ ys) zero h lt = h.0
seq_at-Ascending (x ∷ y ∷ ys) (suc i) h lt = seq_at-Ascending (y ∷ ys) i h.1 (omega arith)

-- The outcome of the choice: the first of the longest runs of the sorted entries. The length
-- decides: a longer run of lower numbers goes before a shorter one of higher numbers.
pub record Longest (xs : List (ℕ × LogEntry)) (r : Result (List LogEntry)) : Type 0 where
  pub sorted : List (ℕ × LogEntry)
  pub start : ℕ
  pub len : ℕ
  pub same : Perm sorted xs
  pub ascending : (i : ℕ) → suc i < length sorted → seq_at sorted i ≤ seq_at sorted (suc i)
  pub returns : r ≡ ok (entries_at sorted start len)
  pub nonempty : 0 < len
  pub is_run : IsRun sorted start len
  pub longest : (s n : ℕ) → IsRun sorted s n → n ≤ len
  pub earliest : (s : ℕ) → IsRun sorted s len → start ≤ s

-- From at least one entry, the choice succeeds with a non-empty run of the entries sorted by
-- sequence number, in which each number follows the one before, no other run of them is longer,
-- and none as long begins before it. The length decides, so that a longer run of older entries is
-- taken instead of a shorter run of the newest.
pub best_entries-Longest : (xs : List (ℕ × LogEntry)) → 0 < length xs → Longest xs (best_entries xs)
unfolding best_entries
best_entries-Longest [] h = elim h [ ]
best_entries-Longest (x ∷ xs) h =
    let ys = sort (x ∷ xs) in
    let run = longest_run ys in
    let k = Known-longest_run ys (unfold sort in omega (arith, length-insert x (sort xs))) in
    record {
      sorted = ys;
      start = run.best_start;
      len = run.best_len;
      same = sort-perm (x ∷ xs);
      ascending = λ i lt. seq_at-Ascending ys i (sort-Ascending (x ∷ xs)) lt;
      returns = rw (le→leb (run.best_start + run.best_len) (length ys) k.best.within);
      nonempty = k.some_best;
      is_run = k.best;
      longest = λ s n r. k.longest s n r r.within;
      earliest = λ s r. k.earliest s r r.within;
    }
