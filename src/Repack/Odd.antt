-- ===== src/Repack/Odd.antt =====
-- With symmetric sets of levels the code map of a group is odd, and its set has the least cost.
use mathlib.Core.Path.{subst}
use v_llm_moet.Prelude.{
  ℕ, ◌+◌, ◌%◌, ◌≤◌, ◌<◌, Bool, true, false, ◌&&◌, ltb, ◌==◌, List, [], ◌∷◌, All, Option, none, some,
  Option-cases, ◌≡◌, refl, sym, arith, ==_iff, first_below, Bool-cases, inl, inr,
}
use v_llm_moet.Repack.Codes.{CodeMap, code_value, mag_code, code_for_level}
use v_llm_moet.Repack.Levels.{Hist}
use v_llm_moet.Repack.Sets.{
  Table, combinations, mirrored, candidate_level_sets, least_dist, filter, matches_sign,
  least_magnitude, of_sign, nearest_level, table_of, tables_of, subset_tables, set_cost, best_table,
  select_cmap,
}
use v_llm_moet.Repack.Occurring.{all_below, all_below-at}

-- The sign bit of a code only moves to the code that it is mapped to.
abbrev pub IsOdd : CodeMap → Type 0
IsOdd cmap = (c : ℕ) → c < 8 → cmap (c + 8) ≡ (cmap c + 8) % 16

unfoldable is_odd : CodeMap → Bool
is_odd cmap = all_below 8 (λ c. cmap (c + 8) == (cmap c + 8) % 16)

unfoldable all_odd : List Table → Bool
all_odd [] = true
all_odd (row ∷ rows) = is_odd (row.cmap) && all_odd rows

unfoldable odd_tables : Option (List Table) → Bool
odd_tables none = false
odd_tables (some []) = false
odd_tables (some (row ∷ rows)) = all_odd (row ∷ rows)

symmetric_tables : odd_tables (subset_tables 4 true) ≡ true
unfolding odd_tables all_odd is_odd all_below code_value mag_code code_for_level first_below
    combinations mirrored candidate_level_sets least_dist filter matches_sign least_magnitude
    of_sign nearest_level table_of tables_of subset_tables
symmetric_tables = refl

abbrev pub Costs : Hist → ℕ → Table → Type 0
Costs hist n row = n ≤ set_cost 16 hist (row.err)

abbrev beats : Hist → Table → Table → Bool
beats hist next row = ltb (set_cost 16 hist (next.err)) (set_cost 16 hist (row.err))

best_table_move :
    (hist : Hist) (row next : Table) (rows : List Table)
    → beats hist next row ≡ true
    → best_table hist row (next ∷ rows) ≡ best_table hist next rows
unfolding best_table
best_table_move hist row next rows less = rw less refl

best_table_stay :
    (hist : Hist) (row next : Table) (rows : List Table)
    → beats hist next row ≡ false
    → best_table hist row (next ∷ rows) ≡ best_table hist row rows
unfolding best_table
best_table_stay hist row next rows more = rw more refl

best_table-least :
    (hist : Hist) (row : Table) (rows : List Table)
    → All (Costs hist (set_cost 16 hist ((best_table hist row rows).err))) (row ∷ rows)
unfolding best_table
best_table-least hist row [] = (omega arith, tt)
best_table-least hist row (next ∷ rows) =
    let goal = λ (b : Table). All (Costs hist (set_cost 16 hist (b.err))) (row ∷ next ∷ rows) in
    let stay = best_table-least hist row rows in
    let move = best_table-least hist next rows in
    elim (Bool-cases (beats hist next row)) [
      | inl less ↦
          subst goal (sym (best_table_move hist row next rows less))
            (ground (arith, move.0, less), move)
      | inr more ↦
          subst goal (sym (best_table_stay hist row next rows more))
            (stay.0, (ground (arith, stay.0, more), stay.1))
    ]

best_table-is_odd :
    (hist : Hist) (row : Table) (rows : List Table)
    → all_odd (row ∷ rows) ≡ true
    → is_odd ((best_table hist row rows).cmap) ≡ true
unfolding best_table all_odd
best_table-is_odd hist row [] h = ground arith
best_table-is_odd hist row (next ∷ rows) h =
    let stay = best_table-is_odd hist row rows in
    let move = best_table-is_odd hist next rows in
    elim (Bool-cases (ltb (set_cost 16 hist (next.err)) (set_cost 16 hist (row.err)))) [
      | inl less ↦ rw less (move (ground (arith, h)))
      | inr more ↦ rw more (stay (ground (arith, h)))
    ]

is_odd-IsOdd : (cmap : CodeMap) → is_odd cmap ≡ true → IsOdd cmap
unfolding is_odd
is_odd-IsOdd cmap odd c lt = (==_iff _ _).0 (all_below-at 8 _ c odd lt)

-- Of odd tables a group gets an odd map, of least cost.
odd_tables-select :
    (hist : Hist) (tables : List Table)
    → odd_tables (some tables) ≡ true
    → (cmap : CodeMap) × (sse : ℕ) × (select_cmap hist tables ≡ some (cmap, sse))
      × IsOdd cmap
      × All (Costs hist sse) tables
unfolding select_cmap odd_tables
odd_tables-select hist [] odd = absurd cc
odd_tables-select hist (row ∷ rows) odd =
    let best = best_table hist row rows in
    (
      best.cmap,
      set_cost 16 hist (best.err),
      refl,
      is_odd-IsOdd (best.cmap) (best_table-is_odd hist row rows odd),
      best_table-least hist row rows,
    )

-- The symmetric sets of four levels give tables, and for any histogram the code map that is selected
-- from them is odd (the code of -v maps to the code of minus the level of v, and likewise for the two
-- zeros), and none of the sets has a smaller cost.
pub select_cmap-IsOdd :
    (hist : Hist)
    → (tables : List Table) × (cmap : CodeMap) × (sse : ℕ) × (subset_tables 4 true ≡ some tables)
      × (select_cmap hist tables ≡ some (cmap, sse))
      × IsOdd cmap
      × All (Costs hist sse) tables
select_cmap-IsOdd hist = elim (Option-cases (subset_tables 4 true)) [
  | inl absent ↦ absurd (let odd = rw absent at symmetric_tables in unfold odd_tables in cc)
  | inr (tables, present) ↦
      let best = odd_tables-select hist tables (rw present at symmetric_tables) in
      (tables, best.0, best.1, present, best.2, best.3, best.4)
]
