-- ===== src/Repack/Levels.antt =====
-- `choose_levels`: the levels of a histogram of codes, by a dynamic program over runs of values.
use v_llm_moet.Prelude.{
  ℕ, zero, suc, ◌+◌, ◌-◌, ◌*◌, ltb, ◌==◌, if◌then◌else◌, List, [], ◌∷◌, length, get_or, Option,
  none, some, min,
}
use v_llm_moet.Prelude.Int.{ℤ, pos}
use v_llm_moet.Repack.Codes.{code_value, grid, dist, square_err}

-- The number of occurrences of each code
abbrev pub Hist : Type 0
Hist = ℕ → ℕ

-- The weight of a value: the counts of the first `n` codes that have it (+0 and -0 share one).
unfoldable pub weight_of : ℕ → Hist → ℤ → ℕ
weight_of zero hist v = 0
weight_of (suc n) hist v = weight_of n hist v + (if dist (code_value n) v == 0 then hist n else 0)

-- `items`: the values of the grid that occur, in ascending order, with their weights
unfoldable pub occurring : Hist → List ℤ → List (ℤ × ℕ)
occurring hist [] = []
occurring hist (v ∷ vs) =
    let rest = occurring hist vs in
    if ltb 0 (weight_of 16 hist v) then (v, weight_of 16 hist v) ∷ rest else rest

-- `argmin` of `n + 1` candidates: the first of the least
unfoldable pub argmin : ℕ → (ℕ → ℕ) → ℕ
argmin zero f = 0
argmin (suc n) f = let best = argmin n f in if ltb (f (suc n)) (f best) then suc n else best

module _ (items : List (ℤ × ℕ)) where
  abbrev pub value_at : ℕ → ℤ
  value_at i = (get_or items i (pos 0, 0)).0

  abbrev pub weight_at : ℕ → ℕ
  weight_at i = (get_or items i (pos 0, 0)).1

  -- errs: the weighted squared error of the `n` points from `i` on, for the representative `r`
  unfoldable pub run_error : ℕ → ℕ → ℕ → ℕ
  run_error r i zero = 0
  run_error r i (suc n) =
      run_error r i n + weight_at (i + n) * square_err (value_at (i + n)) (value_at r)

  -- rep[i][j]
  unfoldable pub rep : ℕ → ℕ → ℕ
  rep i j = i + argmin (j - i) (λ s. run_error (i + s) i (j - i + 1))

  -- cost[i][j]
  unfoldable pub cost : ℕ → ℕ → ℕ
  cost i j = run_error (rep i j) i (j - i + 1)

  -- D[n + 1][j]: the least error of the points up to `j` in `n + 1` runs, where `n ≤ j`. The
  -- candidate `i` puts the points after `n + i` in the last run.
  unfoldable pub errors : ℕ → ℕ → ℕ
  errors zero j = cost 0 j
  errors (suc n) j =
      let cand = λ (i : ℕ). errors n (n + i) + cost (suc (n + i)) j in
      cand (argmin (j - suc n) cand)

  -- P[n + 2][j]: where the last run of the best choice starts
  unfoldable pub split : ℕ → ℕ → ℕ
  split n j = suc (n + argmin (j - suc n) (λ i. errors n (n + i) + cost (suc (n + i)) j))

  -- The backtracking over `n + 1` runs that end at `j`. It meets the runs from the last one on, so
  -- that the sorted list grows in front.
  unfoldable pub backtrack : ℕ → ℕ → List ℤ → List ℤ
  backtrack zero j levels = value_at (rep 0 j) ∷ levels
  backtrack (suc n) j levels = backtrack n (split n j - 1) (value_at (rep (split n j) j) ∷ levels)

-- The levels and their error, in quarters. There is none (an IndexError) where no value occurs or
-- `k` is 0.
unfoldable pub choose_levels : Hist → ℕ → Option (List ℤ × ℕ)
choose_levels hist k =
    let items = occurring hist grid in
    let n = min k (length items) in
    if n == 0
    then none
    else some
        (backtrack items (n - 1) (length items - 1) [], errors items (n - 1) (length items - 1))
