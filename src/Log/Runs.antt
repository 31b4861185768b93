-- ===== src/Log/Runs.antt =====
-- The run of consecutive sequence numbers that `scan_log` selects.
use starweld.Prelude.{ℕ, zero, suc, ◌+◌, ◌-◌, ◌≤◌, ◌<◌, ◌≡◌, ap, ◌∙◌, List}
use starweld.Prelude.{length, arith, Bool-cases, inl, inr, ltb, ◌==◌, wrap64}
use starweld.Log.Entry.{LogEntry}
use starweld.Log.Scan.{seq_at, Run, extend_run, run_loop, first_run, longest_run}

-- `len` entries from `start` on, each with the sequence number after that of the one before.
pub record IsRun (xs : List (ℕ × LogEntry)) (start len : ℕ) : Type 0 where
  pub within : start + len ≤ length xs
  pub consecutive :
      (k : ℕ) → suc k < len → seq_at xs (start + suc k) ≡ wrap64 (seq_at xs (start + k) + 1)

module _ (xs : List (ℕ × LogEntry)) where
  -- What is known before round `i`: the run that ends there, and the best so far.
  pub record Known (i : ℕ) (run : Run) : Type 0 where
    pub current : IsRun xs run.cur_start (i - run.cur_start)
    pub started : run.cur_start < i
    pub maximal : (s n : ℕ) → IsRun xs s n → s + n ≡ i → run.cur_start ≤ s
    pub best : IsRun xs run.best_start run.best_len
    pub some_best : 0 < run.best_len
    pub longest : (s n : ℕ) → IsRun xs s n → s + n ≤ i → n ≤ run.best_len
    pub ordered : run.best_start ≤ run.cur_start
    pub earliest : (s : ℕ) → IsRun xs s run.best_len → s + run.best_len ≤ i → run.best_start ≤ s

  IsRun-shorter : (s n : ℕ) → IsRun xs s (suc n) → IsRun xs s n
  IsRun-shorter s n r = record {
    within = omega (arith, r.within);
    consecutive = λ k h. r.consecutive k (omega arith);
  }

  IsRun-one : (s : ℕ) → s < length xs → IsRun xs s 1
  IsRun-one s h = record { within = omega arith; consecutive = λ k lt. absurd (omega arith) }

  IsRun-longer :
      (s i : ℕ)
      → s < i
      → i < length xs
      → IsRun xs s (i - s)
      → seq_at xs i ≡ wrap64 (seq_at xs (i - 1) + 1)
      → IsRun xs s (i - s + 1)
  IsRun-longer s i lt in_range r e = record {
    within = omega arith;
    consecutive = λ k h. elim (Bool-cases (ltb (suc k) (i - s))) [
      | inl old ↦ r.consecutive k (ground arith)
      | inr new ↦
          ap (seq_at xs) (ground arith) ∙ e ∙ ap (λ j. wrap64 (seq_at xs j + 1)) (ground arith)
    ];
  }

  -- A run of two entries at least that ends with entry `i`.
  follows :
      (s n i : ℕ)
      → IsRun xs s (suc (suc n))
      → s + suc (suc n) ≡ suc i
      → seq_at xs i ≡ wrap64 (seq_at xs (i - 1) + 1)
  follows s n i r e =
      ap (seq_at xs) (omega arith)
      ∙ r.consecutive n (omega arith)
      ∙ ap (λ j. wrap64 (seq_at xs j + 1)) (omega arith)

  module _ (i : ℕ) (run : Run) (k : Known i run) (in_range : i < length xs) where
    abbrev longer : Run
    longer = record run { best_len = i - run.cur_start + 1; best_start = run.cur_start }

    module _ (e : seq_at xs i ≡ wrap64 (seq_at xs (i - 1) + 1)) where
      still_maximal : (s n : ℕ) → IsRun xs s n → s + n ≡ suc i → run.cur_start ≤ s
      still_maximal s zero r h = omega (arith, k.started)
      still_maximal s (suc n) r h = k.maximal s n (IsRun-shorter s n r) (omega arith)

      still_longest :
          (b : ℕ)
          → run.best_len ≤ b
          → i - run.cur_start + 1 ≤ b
          → (s n : ℕ) → IsRun xs s n
          → s + n ≤ suc i
          → n ≤ b
      still_longest b hb hc s n r h = elim (Bool-cases (s + n == suc i)) [
        | inl last ↦ omega (arith, still_maximal s n r (ground arith))
        | inr old ↦ omega (arith, k.longest s n r (ground arith))
      ]

      grown : IsRun xs run.cur_start (suc i - run.cur_start)
      grown =
          let len : i - run.cur_start + 1 ≡ suc i - run.cur_start = omega (arith, k.started) in
          rw (← len) (IsRun-longer run.cur_start i k.started in_range k.current e)

      Known-longer : run.best_len < i - run.cur_start + 1 → Known (suc i) longer
      Known-longer lt = record {
        current = grown;
        started = omega (arith, k.started);
        maximal = still_maximal;
        best = IsRun-longer run.cur_start i k.started in_range k.current e;
        some_best = omega arith;
        longest = still_longest (i - run.cur_start + 1) (omega arith) (omega arith);
        ordered = omega arith;
        earliest = λ s r h. elim (Bool-cases (s + (i - run.cur_start + 1) == suc i)) [
          | inl last ↦ still_maximal s (i - run.cur_start + 1) r (ground arith)
          | inr old ↦ absurd (omega (arith, k.longest s (i - run.cur_start + 1) r (ground arith)))
        ];
      }

      Known-same : i - run.cur_start + 1 ≤ run.best_len → Known (suc i) run
      Known-same le = record {
        current = grown;
        started = omega (arith, k.started);
        maximal = still_maximal;
        best = k.best;
        some_best = k.some_best;
        longest = still_longest run.best_len (omega arith) le;
        ordered = k.ordered;
        earliest = λ s r h. elim (Bool-cases (s + run.best_len == suc i)) [
          | inl last ↦
              let at : s + run.best_len ≡ suc i = ground arith in
              omega (arith, still_maximal s run.best_len r at, k.ordered)
          | inr old ↦ k.earliest s r (ground arith)
        ];
      }

    module _ (ne : seq_at xs i ≡ wrap64 (seq_at xs (i - 1) + 1) → ⊥) where
      only_short : (s n : ℕ) → IsRun xs s n → s + n ≡ suc i → n ≤ 1
      only_short s zero r h = omega arith
      only_short s (suc zero) r h = omega arith
      only_short s (suc (suc n)) r h = absurd (ne (follows s n i r h))

      Known-reset : Known (suc i) (record run { cur_start = i })
      Known-reset = record {
        current = rw (let one : suc i - i ≡ 1 = omega arith in one) (IsRun-one i in_range);
        started = omega arith;
        maximal = λ s n r h. omega (arith, only_short s n r h);
        best = k.best;
        some_best = k.some_best;
        longest = λ s n r h. elim (Bool-cases (s + n == suc i)) [
          | inl last ↦ omega (arith, only_short s n r (ground arith), k.some_best)
          | inr old ↦ k.longest s n r (ground arith)
        ];
        ordered = omega (arith, k.ordered, k.started);
        earliest = λ s r h. elim (Bool-cases (s + run.best_len == suc i)) [
          | inl last ↦
              let at : s + run.best_len ≡ suc i = ground arith in
              omega (arith, only_short s run.best_len r at, k.some_best, k.ordered, k.started)
          | inr old ↦ k.earliest s r (ground arith)
        ];
      }

    Known-extend_run : Known (suc i) (extend_run xs i run)
    unfolding extend_run
    Known-extend_run = elim (Bool-cases (seq_at xs i == wrap64 (seq_at xs (i - 1) + 1))) [
      | inl e ↦ elim (Bool-cases (ltb run.best_len (i - run.cur_start + 1))) [
        | inl more ↦ rw (e, more) (Known-longer (ground arith) (ground arith))
        | inr less ↦ rw (e, less) (Known-same (ground arith) (ground arith))
      ]
      | inr e ↦ rw e (Known-reset (λ q. ground arith))
    ]

  Known-run_loop :
      (rounds i : ℕ) (run : Run)
      → Known i run
      → i + rounds ≡ length xs
      → Known (length xs) (run_loop xs rounds i run)
  unfolding run_loop
  Known-run_loop zero i run k h = let e : i ≡ length xs = omega arith in rw (← e) k
  Known-run_loop (suc rounds) i run k h =
      Known-run_loop rounds (i + 1) (extend_run xs i run)
        (let e : suc i ≡ i + 1 = omega arith in rw (← e) (Known-extend_run i run k (omega arith)))
        (omega arith)

  Known-first : 0 < length xs → Known 1 first_run
  Known-first h = record {
    current = IsRun-one 0 h;
    started = omega arith;
    maximal = λ s n r e. omega arith;
    best = IsRun-one 0 h;
    some_best = omega arith;
    longest = λ s n r e. omega arith;
    ordered = omega arith;
    earliest = λ s r e. omega arith;
  }

  pub Known-longest_run : 0 < length xs → Known (length xs) (longest_run xs)
  unfolding longest_run
  Known-longest_run h = Known-run_loop (length xs - 1) 1 first_run (Known-first h) (omega arith)
