-- ===== src/Placement/Log.antt =====
-- The tier's miss and use logs, and how `PlacementManager.plan`
-- (tools/dsv41_5090/cpu_tier/placement_manager.py) reads the miss log: numpy's selections on its
-- columns, and the admission window.
use v_llm_moet.Prelude.{
  ℕ, max, Bool, true, ◌&&◌, List, [], ◌∷◌, map, ltb, ◌==◌, if◌then◌else◌, contains,
}
use v_llm_moet.Prelude.Int.{ℤ, pos, ◌-ℤ◌, ltb_ℤ}

-- A row of the tier's miss log; its fourth column is not read.
pub record Miss : Type 0 where
  pub step : ℕ
  pub layer : ℕ
  pub expert : ℕ

-- A row of the use log.
pub record Use : Type 0 where
  pub step : ℕ
  pub layer : ℕ
  pub ids : List ℤ

-- `np.unique` of a column: its distinct values in ascending order.
unfoldable pub insert_unique : ℕ → List ℕ → List ℕ
insert_unique x [] = x ∷ []
insert_unique x (y ∷ ys) =
    let rest = insert_unique x ys in
    if ltb x y then x ∷ y ∷ ys else if x == y then y ∷ ys else y ∷ rest

unfoldable pub unique : List ℕ → List ℕ
unfolding insert_unique
unique [] = []
unique (x ∷ xs) = insert_unique x (unique xs)

-- `misses[layers == layer]`
unfoldable pub rows_of : ℕ → List Miss → List Miss
rows_of layer [] = []
rows_of layer (row ∷ rows) =
    let rest = rows_of layer rows in if row.layer == layer then row ∷ rest else rest

-- `rows[rows[:, 2] == e, 0].max()`
unfoldable pub miss_step : List Miss → ℕ → ℕ
miss_step [] e = 0
miss_step (row ∷ rows) e =
    let rest = miss_step rows e in if row.expert == e then max row.step rest else rest

abbrev pub experts_of : List Miss → List ℕ
experts_of rows = map (λ row. row.expert) rows

unfoldable pub all_below : ℕ → List ℕ → Bool
all_below n [] = true
all_below n (x ∷ xs) = ltb x n && all_below n xs

-- The experts whose previous miss is at most `window` steps old, in order.
unfoldable pub admitted : (ℕ → ℤ) → ℕ → (ℕ → ℕ) → List ℕ → List ℕ
unfolding ◌-ℤ◌
admitted last window step_of [] = []
admitted last window step_of (e ∷ es) =
    let rest = admitted last window step_of es in
    if ltb_ℤ (pos window) (pos (step_of e) -ℤ last e) then rest else e ∷ rest

-- `lm[ex] = steps`
unfoldable pub mark : (ℕ → ℤ) → (ℕ → ℕ) → List ℕ → ℕ → ℤ
unfolding contains
mark last step_of es e = if contains es e then pos (step_of e) else last e
