-- ===== src/Repack/Optimal.antt =====
-- The dynamic program of `choose_levels` finds the best division into runs.
use mathlib.Core.List.{append_assoc, append-nil}
use v_llm_moet.Prelude.{
  ℕ, zero, suc, ◌+◌, ◌-◌, ◌≤◌, ◌<◌, false, ◌==◌, List, [], ◌∷◌, ◌++◌, length, min, some, ◌≡◌, refl,
  sym, ap, ◌∙◌, arith,
}
use v_llm_moet.Prelude.Int.{ℤ}
use v_llm_moet.Repack.Codes.{grid}
use v_llm_moet.Repack.Occurring.{occurring-code_value}
use v_llm_moet.Repack.Levels.{
  Hist, occurring, argmin, value_at, run_error, rep, cost, errors, split, backtrack, choose_levels,
}

pred_suc : (n : ℕ) → suc n - 1 ≡ n
pred_suc n = omega arith

argmin_le : (n : ℕ) (f : ℕ → ℕ) → argmin n f ≤ n
unfolding argmin
argmin_le zero f = omega arith
argmin_le (suc n) f = ground (arith, argmin_le n f)

argmin_least : (n : ℕ) (f : ℕ → ℕ) (i : ℕ) → i ≤ n → f (argmin n f) ≤ f i
unfolding argmin
argmin_least zero f i le = ground arith
argmin_least (suc n) f i le = ground (arith, argmin_least n f i)

-- A division of the points up to `j` into `n + 1` runs, each with one of its points for a level: the
-- levels and the weighted squared error.
pub data Runs (items : List (ℤ × ℕ)) : ℕ → ℕ → List ℤ → ℕ → Type 0 where
  one_run : (j r : ℕ) → r ≤ j → Runs items 0 j (value_at items r ∷ []) (run_error items r 0 (suc j))
  more_runs :
      (n i j r : ℕ) (levels : List ℤ) (total : ℕ)
      → Runs items n i levels total
      → i < r
      → r ≤ j
      → Runs items
          (suc n)
          j
          (levels ++ value_at items r ∷ [])
          (total + run_error items r (suc i) (j - i))

module _ (items : List (ℤ × ℕ)) where
  cost_least : (i j r : ℕ) → i ≤ r → r ≤ j → cost items i j ≤ run_error items r i (j - i + 1)
  unfolding cost rep
  cost_least i j r lo hi =
      let same : i + (r - i) ≡ r = omega arith in
      ground (
        arith,
        argmin_least (j - i) (λ s. run_error items (i + s) i (j - i + 1)) (r - i) (omega arith),
        ap (λ s. run_error items s i (j - i + 1)) same,
      )

  rep_bounds : (i j : ℕ) → i ≤ j → (i ≤ rep items i j) × (rep items i j ≤ j)
  unfolding rep
  rep_bounds i j le = omega (arith, argmin_le (j - i) (λ s. run_error items (i + s) i (j - i + 1)))

  errors_step :
      (n i j : ℕ) → n ≤ i → i < j → errors items (suc n) j ≤ errors items n i + cost items (suc i) j
  unfolding errors
  errors_step n i j lo hi =
      let cand = λ (s : ℕ). errors items n (n + s) + cost items (suc (n + s)) j in
      let same : n + (i - n) ≡ i = omega arith in
      ground (
        arith,
        argmin_least (j - suc n) cand (i - n) (omega arith),
        ap (λ s. errors items n s + cost items (suc s) j) same,
      )

  last_run : (i j r : ℕ) → i < r → r ≤ j → cost items (suc i) j ≤ run_error items r (suc i) (j - i)
  last_run i j r lo hi =
      let size : j - suc i + 1 ≡ j - i = omega arith in
      ground (arith, cost_least (suc i) j r lo hi, ap (run_error items r (suc i)) size)

  -- No division has less than the table's error,
  errors_least :
      (n j : ℕ) (levels : List ℤ) (total : ℕ)
      → Runs items n j levels total
      → (n ≤ j) × (errors items n j ≤ total)
  unfolding errors
  errors_least _ _ levels total (one_run j r le) = ground (arith, cost_least 0 j r (omega arith) le)
  errors_least _ _ levels total (more_runs n i j r before sum runs lo hi) =
      let fits = errors_least n i before sum runs in
      omega (arith, errors_step n i j fits.0 (omega arith), last_run i j r lo hi)

  errors_first : (j : ℕ) → errors items 0 j ≡ run_error items (rep items 0 j) 0 (suc j)
  unfolding errors cost
  errors_first j =
      let size : j - 0 + 1 ≡ suc j = omega arith in ap (run_error items (rep items 0 j) 0) size

  split_bounds : (n j : ℕ) → suc n ≤ j → (suc n ≤ split items n j) × (split items n j ≤ j)
  unfolding split
  split_bounds n j le =
      omega
        (arith, argmin_le (j - suc n) (λ i. errors items n (n + i) + cost items (suc (n + i)) j))

  errors_at_cut :
      (n j : ℕ)
      → suc n ≤ j
      → errors items (suc n) j
        ≡ errors items n (split items n j - 1) + cost items (split items n j) j
  unfolding errors split
  errors_at_cut n j le =
      ap (λ i. errors items n i + cost items (split items n j) j)
        (sym (
          pred_suc
            (n + argmin (j - suc n) (λ i. errors items n (n + i) + cost items (suc (n + i)) j))))

  last_cost :
      (i j : ℕ)
      → 0 < i
      → i ≤ j
      → cost items i j ≡ run_error items (rep items i j) (suc (i - 1)) (j - (i - 1))
  unfolding cost
  last_cost i j some_before le =
      let start : suc (i - 1) ≡ i = omega arith in
      let size : j - (i - 1) ≡ j - i + 1 = omega arith in rw (start, size) refl

  -- and the backtracking is a division that has it.
  backtrack-Runs :
      (n j : ℕ)
      → n ≤ j
      → (levels : List ℤ) × Runs items n j levels (errors items n j)
        × ((more : List ℤ) → backtrack items n j more ≡ levels ++ more)
  unfolding backtrack
  backtrack-Runs zero j le = (
    value_at items (rep items 0 j) ∷ [],
    rw (errors_first j) (one_run j (rep items 0 j) (rep_bounds 0 j (omega arith)).1),
    λ more. refl,
  )
  backtrack-Runs (suc n) j le =
      let start = split_bounds n j le in
      let here = rep_bounds (split items n j) j (start.1) in
      let before = backtrack-Runs n (split items n j - 1) (omega arith) in
      (
        before.0 ++ value_at items (rep items (split items n j) j) ∷ [],
        rw (errors_at_cut n j le, last_cost (split items n j) j (omega arith) (start.1))
            (more_runs n (split items n j - 1) j (rep items (split items n j) j) (before.0)
              (errors items n (split items n j - 1)) (before.1) (omega arith) (here.1)),
        λ more.
            before.2 (value_at items (rep items (split items n j) j) ∷ more)
            ∙ sym (
                append_assoc (before.0) (value_at items (rep items (split items n j) j) ∷ []) more),
      )

-- Where a code occurs and at least one level is asked for, `choose_levels` divides the values that
-- occur into as many runs (or one for each value, if these are fewer), and no such division has a
-- smaller weighted squared error.
pub choose_levels-Runs :
    (hist : Hist) (k c : ℕ)
    → c < 16
    → 0 < hist c
    → 0 < k
    → let items = occurring hist grid in
      let n = min k (length items) - 1 in
      let j = length items - 1 in
      (levels : List ℤ) × (err : ℕ) × (choose_levels hist k ≡ some (levels, err))
      × Runs items n j levels err
      × ((levels' : List ℤ) (total : ℕ) → Runs items n j levels' total → err ≤ total)
unfolding choose_levels
choose_levels-Runs hist k c code occurs some_levels =
    let items = occurring hist grid in
    let found = occurring-code_value hist c code occurs in
    let n = min k (length items) - 1 in
    let j = length items - 1 in
    let best = backtrack-Runs items n j (omega arith) in
    let some_runs : (min k (length items) == 0) ≡ false = ground (arith, found.1) in
    (
      backtrack items n j [],
      errors items n j,
      rw some_runs refl,
      rw (best.2 [], append-nil (best.0)) (best.1),
      λ levels' total runs. (errors_least items n j levels' total runs).1,
    )
