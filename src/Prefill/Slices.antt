-- ===== src/Prefill/Slices.antt =====
-- What a call of the router's own ids must compute: all slices of each pair's expert.
use v_llm_moet.Prelude.{
  ℕ, zero, suc, ◌+◌, ◌*◌, ◌%◌, ◌<◌, ltb, Bool-cases, List, [], ◌∷◌, ◌++◌, map, replicate, Option,
  none, some, ◌≡◌, inl, inr, refl, ap, ◌∙◌, arith,
}
use v_llm_moet.Prefill.Routing.{Ids, map_cols, map_rows, expand_row, expand_routing}
use v_llm_moet.Prefill.Rounds.{PrefillConfig, Record}
use v_llm_moet.Prefill.Calls.{call_ids}
use v_llm_moet.Prefill.Sums.{wanted}

-- The slices from `w` on of a pair, each in an entry of its own
unfoldable pub wanted_slices : Option ℕ → ℕ → ℕ → List (List Record)
wanted_slices id w zero = []
wanted_slices none w (suc n) = [] ∷ wanted_slices none (suc w) n
wanted_slices (some e) w (suc n) = ((e, w) ∷ []) ∷ wanted_slices (some e) (suc w) n

unfoldable pub wanted_row : ℕ → List (Option ℕ) → List (List Record)
wanted_row v [] = []
wanted_row v (id ∷ row) = wanted_slices id 0 v ++ wanted_row v row

column_slice : (k v w : ℕ) → w < v → (k * v + w) % v ≡ w
column_slice k v w lt = grind arith

-- One expanded pair, from the column of its slice `w` on
expanded_pair :
    (v k w n c : ℕ) (id : Option ℕ) (rest : List (Option ℕ))
    → c ≡ k * v + w
    → w + n ≡ v
    → map_cols (wanted v) c (replicate n id ++ rest)
      ≡ wanted_slices id w n ++ map_cols (wanted v) (suc k * v) rest
unfolding map_cols wanted wanted_slices
expanded_pair v k w zero c id rest column size =
    ap (λ col. map_cols (wanted v) col rest) (let last : w ≡ v = omega arith in grind arith)
expanded_pair v k w (suc n) c none rest column size =
    ap (λ more. [] ∷ more)
      (expanded_pair v k (suc w) n (suc c) none rest (omega arith) (omega arith))
expanded_pair v k w (suc n) c (some e) rest column size =
    let slice : c % v ≡ w = ap (λ col. col % v) column ∙ column_slice k v w (omega arith) in
    rw slice (
      ap (λ more. ((e, w) ∷ []) ∷ more)
        (expanded_pair v k (suc w) n (suc c) (some e) rest (omega arith) (omega arith)))

expanded_row :
    (v k : ℕ) (row : List (Option ℕ))
    → map_cols (wanted v) (k * v) (expand_row v row) ≡ wanted_row v row
unfolding map_cols expand_row wanted_row
expanded_row v k [] = refl
expanded_row v k (id ∷ row) =
    expanded_pair v k 0 v (k * v) id (expand_row v row) (omega arith) (omega arith)
    ∙ ap (λ rest. wanted_slices id 0 v ++ rest) (expanded_row v (suc k) row)

expanded_rows :
    (v : ℕ) (ids : Ids) → map_rows (wanted v) (expand_routing v ids) ≡ map (wanted_row v) ids
unfolding map_rows expand_routing
expanded_rows v [] = refl
expanded_rows v (row ∷ ids) =
    let start : 0 ≡ 0 * v = omega arith in
    let first = ap (λ c. map_cols (wanted v) c (expand_row v row)) start ∙ expanded_row v 0 row in
    rw (first, expanded_rows v ids) refl

single_row : (c : ℕ) (row : List (Option ℕ)) → map_cols (wanted 1) c row ≡ wanted_row 1 row
unfolding map_cols wanted wanted_row wanted_slices
single_row c [] = refl
single_row c (none ∷ row) = ap (λ rest. [] ∷ rest) (single_row (suc c) row)
single_row c (some e ∷ row) =
    let slice : c % 1 ≡ 0 = omega arith in
    rw slice (ap (λ rest. ((e, 0) ∷ []) ∷ rest) (single_row (suc c) row))

single_rows : (ids : Ids) → map_rows (wanted 1) ids ≡ map (wanted_row 1) ids
unfolding map_rows
single_rows [] = refl
single_rows (row ∷ ids) = rw (single_row 0 row, single_rows ids) refl

pub call_ids-wanted :
    (c : PrefillConfig) (ids : Ids)
    → 0 < c.v
    → map_rows (wanted (c.v)) (call_ids c ids) ≡ map (wanted_row (c.v)) ids
unfolding call_ids
call_ids-wanted c ids some_slices = elim (Bool-cases (ltb 1 (c.v))) [
  | inl many ↦ rw many (expanded_rows (c.v) ids)
  | inr one ↦ let single : c.v ≡ 1 = ground (arith, one) in rw (one, single) (single_rows ids)
]
