-- ===== src/Repack/Sets.antt =====
-- The candidate sets of levels, the nearest level with odd ties, and the choice of a set for a group.
use v_llm_moet.Prelude.{
  ℕ, zero, suc, ◌+◌, ◌*◌, Bool, true, false, not, ◌||◌, ltb, leb, ◌==◌, if◌then◌else◌, List, [],
  ◌∷◌, ◌++◌, map, Option, none, some, min,
}
use v_llm_moet.Prelude.Int.{ℤ, pos}
use v_llm_moet.Repack.Codes.{
  CodeMap, code_value, grid, dist, square_err, magnitude, is_negative, signed, code_for_level,
}
use v_llm_moet.Repack.Levels.{Hist}

abbrev pub Levels : Type 0
Levels = List ℤ

-- `combinations(xs, k)`
unfoldable pub combinations {ℓ} : {A : Type ℓ} → List A → ℕ → List (List A)
combinations xs zero = [] ∷ []
combinations [] (suc k) = []
combinations (x ∷ xs) (suc k) = map (λ ys. x ∷ ys) (combinations xs k) ++ combinations xs (suc k)

-- {-b, -a, a, b}
unfoldable pub mirrored : List ℕ → Levels
mirrored [] = []
mirrored (a ∷ []) = []
mirrored (a ∷ (b ∷ more)) = signed true b ∷ signed true a ∷ pos a ∷ pos b ∷ []

-- `_candidate_level_sets`; the symmetric sets are defined for four levels only, else the assertion
-- fails.
unfoldable pub candidate_level_sets : ℕ → Bool → Option (List Levels)
candidate_level_sets k true =
    if k == 4 then some (map mirrored (combinations (1 ∷ 2 ∷ 3 ∷ 4 ∷ 6 ∷ 8 ∷ 12 ∷ []) 2)) else none
candidate_level_sets k false = some (combinations grid k)

-- `d.min()`
unfoldable pub least_dist : ℤ → ℤ → Levels → ℕ
least_dist x level [] = dist level x
least_dist x level (next ∷ levels) = min (dist level x) (least_dist x next levels)

unfoldable pub filter {ℓ} : {A : Type ℓ} → (A → Bool) → List A → List A
filter p [] = []
filter p (x ∷ xs) = if p x then x ∷ filter p xs else filter p xs

-- `L == 0.0 or (L < 0.0) == neg`
unfoldable pub matches_sign : Bool → ℤ → Bool
matches_sign neg level =
    magnitude level == 0 || (if neg then is_negative level else not (is_negative level))

-- `min(cand, key=abs)` of `level ∷ levels`: the first of the least
unfoldable pub least_magnitude : ℤ → Levels → ℤ
least_magnitude level [] = level
least_magnitude level (next ∷ levels) =
    let stay = least_magnitude level levels in
    let move = least_magnitude next levels in
    if ltb (magnitude next) (magnitude level) then move else stay

-- The candidates that are left: of several, those of the code's sign, if there are any.
unfoldable pub of_sign : Bool → Levels → Levels
of_sign neg [] = []
of_sign neg (one ∷ []) = one ∷ []
of_sign neg (one ∷ (two ∷ more)) = elim (filter (matches_sign neg) (one ∷ two ∷ more)) [
  | [] ↦ one ∷ two ∷ more
  | level ∷ levels ↦ level ∷ levels
]

-- `_nearest_level` of the levels `level ∷ levels`, which are never empty. Neither are the candidates.
unfoldable pub nearest_level : ℤ → Levels → ℕ → ℤ
nearest_level level levels c =
    let x = code_value c in
    let least = least_dist x level levels in
    let cand = filter (λ l. dist l x == least) (level ∷ levels) in
    elim (of_sign (leb 8 c) cand) [ [] ↦ level | first ∷ rest ↦ least_magnitude first rest ]

-- A row of err16 and a row of cmap16, for a set of levels
pub record Table : Type 0 where
  pub err : ℕ → ℕ
  pub cmap : CodeMap

unfoldable pub table_of : Levels → Option Table
table_of [] = none
table_of (level ∷ levels) = some record {
  err = λ c. square_err (code_value c) (nearest_level level levels c);
  cmap = λ c. code_for_level (nearest_level level levels c) c;
}

-- A row for each set (an empty set raises).
unfoldable pub tables_of : List Levels → Option (List Table)
tables_of [] = some []
tables_of (levels ∷ sets) = elim (table_of levels) [
  | none ↦ none
  | some row ↦ elim (tables_of sets) [ none ↦ none | some rows ↦ some (row ∷ rows) ]
]

-- `_subset_tables`
unfoldable pub subset_tables : ℕ → Bool → Option (List Table)
subset_tables k symmetric = elim (candidate_level_sets k symmetric) [
  | none ↦ none
  | some sets ↦ tables_of sets
]

-- `hist @ err16.T` for one set
unfoldable pub set_cost : ℕ → Hist → (ℕ → ℕ) → ℕ
set_cost zero hist err = 0
set_cost (suc n) hist err = set_cost n hist err + hist n * err n

-- The first set of least cost, of `row ∷ rows`
unfoldable pub best_table : Hist → Table → List Table → Table
best_table hist row [] = row
best_table hist row (next ∷ rows) =
    let stay = best_table hist row rows in
    let move = best_table hist next rows in
    if ltb (set_cost 16 hist (next.err)) (set_cost 16 hist (row.err)) then move else stay

-- `_select_cmaps` for one group: the code map and its cost (no sets: argmin raises)
unfoldable pub select_cmap : Hist → List Table → Option (CodeMap × ℕ)
select_cmap hist [] = none
select_cmap hist (row ∷ rows) =
    let best = best_table hist row rows in some (best.cmap, set_cost 16 hist (best.err))
