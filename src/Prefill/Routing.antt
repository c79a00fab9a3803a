-- ===== src/Prefill/Routing.antt =====
-- The routing of a call: `_expand_routing`, `_remap_slices`, `_scratch_ids` and `_missing_experts`. A
-- call's ids are rows of experts; a padded pair has none (-1 in the source, as in the tables).
use v_llm_moet.Prelude.{
  ℕ, suc, ◌+◌, ◌*◌, ◌%◌, Bool, true, ◌&&◌, ◌||◌, ltb, leb, ◌==◌, if◌then◌else◌, List, [], ◌∷◌, ◌++◌,
  map, length, replicate, Option, none, some,
}

abbrev pub Ids : Type 0
Ids = List (List (Option ℕ))

-- A table of slots by expert
abbrev pub SlotTable : Type 0
SlotTable = ℕ → Option ℕ

-- Each entry of a row with its column, from the column `c` on
unfoldable pub map_cols {ℓ κ} : {A : Type ℓ} {B : Type κ} → (ℕ → A → B) → ℕ → List A → List B
map_cols f c [] = []
map_cols f c (a ∷ row) = f c a ∷ map_cols f (suc c) row

unfoldable pub map_rows {ℓ κ} :
    {A : Type ℓ} {B : Type κ} → (ℕ → A → B) → List (List A) → List (List B)
map_rows f [] = []
map_rows f (row ∷ rows) = map_cols f 0 row ∷ map_rows f rows

-- `_expand_routing` of a row: each id `v` times
unfoldable pub expand_row : ℕ → List (Option ℕ) → List (Option ℕ)
expand_row v [] = []
expand_row v (id ∷ row) = replicate v id ++ expand_row v row

unfoldable pub expand_routing : ℕ → Ids → Ids
expand_routing v rows = map (expand_row v) rows

-- TOPK_MAX
abbrev pub topk_max : ℕ
topk_max = 8

unfoldable pub rows_fit : ℕ → Ids → Bool
rows_fit n [] = true
rows_fit n (row ∷ rows) = leb (length row) n && rows_fit n rows

-- The columns have an entry each in `S.vidx`, of TOPK_MAX * V entries; with one slice it is not read.
unfoldable pub has_vidx : ℕ → Ids → Bool
has_vidx v rows = (v == 1) || rows_fit (topk_max * v) rows

-- A pair through a table: `slot * V + column % V`, and none for a padded pair or an expert without a
-- slot. With one slice the slot itself.
unfoldable pub through : ℕ → SlotTable → ℕ → Option ℕ → Option ℕ
through v table c none = none
through v table c (some e) = elim (table e) [
  | none ↦ none
  | some slot ↦ if v == 1 then some slot else some (slot * v + c % v)
]

-- `_remap_slices` and the ids of the stock run in `on_apply`, of rows that have their entries in `S.vidx`
unfoldable pub remap_slices : ℕ → SlotTable → Ids → Ids
remap_slices v table rows = map_rows (through v table) rows

-- `torch.unique` keeps its list sorted.
unfoldable pub unique_insert : ℕ → List ℕ → List ℕ
unique_insert x [] = x ∷ []
unique_insert x (y ∷ ys) =
    let after = y ∷ unique_insert x ys in
    if ltb x y then x ∷ y ∷ ys else (if x == y then y ∷ ys else after)

unfoldable pub missing_in_row : SlotTable → List (Option ℕ) → List ℕ → List ℕ
missing_in_row table [] found = found
missing_in_row table (none ∷ row) found = missing_in_row table row found
missing_in_row table (some e ∷ row) found =
    let rest = missing_in_row table row found in
    elim (table e) [ none ↦ unique_insert e rest | some slot ↦ rest ]

-- `_missing_experts`: the experts of the valid pairs that have no slot, each once, in ascending order
unfoldable pub missing_experts : SlotTable → Ids → List ℕ
missing_experts table [] = []
missing_experts table (row ∷ rows) = missing_in_row table row (missing_experts table rows)
