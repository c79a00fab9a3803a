-- ===== src/Prefill/Widths.antt =====
-- Which calls the vidx table has entries for.
use v_llm_moet.Prelude.{
  ℕ, ◌+◌, ◌*◌, ◌≤◌, ◌<◌, ◌≡◌, refl, true, ◌||◌, ltb, leb, ◌==◌, List, [], ◌∷◌, length,
  length-append, length-replicate, replicate, Option, arith, Bool-cases, inl, inr,
}
use v_llm_moet.Prefill.Routing.{Ids, topk_max, rows_fit, has_vidx, expand_row, expand_routing}
use v_llm_moet.Prefill.Rounds.{PrefillConfig}
use v_llm_moet.Prefill.Calls.{call_ids}

length-expand_row : (v : ℕ) (row : List (Option ℕ)) → length (expand_row v row) ≡ length row * v
unfolding expand_row
length-expand_row v [] = omega arith
length-expand_row v (id ∷ row) = grind (
  arith,
  length-append (replicate v id) (expand_row v row),
  length-replicate v id,
  length-expand_row v row,
)

mul_mono : (a b v : ℕ) → a ≤ b → a * v ≤ b * v
mul_mono a b v le = grind arith

-- A row has room when it is expanded exactly if it had before.
leb-expand_row :
    (v : ℕ) (row : List (Option ℕ))
    → 0 < v
    → leb (length (expand_row v row)) (topk_max * v) ≡ leb (length row) topk_max
leb-expand_row v row some_slices = elim (Bool-cases (leb (length row) topk_max)) [
  | inl fits ↦ ground (
    arith,
    fits,
    length-expand_row v row,
    mul_mono (length row) topk_max v (ground (arith, fits)),
  )
  | inr wide ↦ ground (
    arith,
    wide,
    length-expand_row v row,
    mul_mono (topk_max + 1) (length row) v (ground (arith, wide)),
  )
]

rows_fit-expand_routing :
    (v : ℕ) (ids : Ids)
    → 0 < v
    → rows_fit (topk_max * v) (expand_routing v ids) ≡ rows_fit topk_max ids
unfolding rows_fit expand_routing
rows_fit-expand_routing v [] some_slices = refl
rows_fit-expand_routing v (row ∷ ids) some_slices =
    rw (leb-expand_row v row some_slices, rows_fit-expand_routing v ids some_slices) refl

-- The rows of a call have their entries if there is one slice, or if no token has more than TOPK_MAX
-- experts.
pub has_vidx-call_ids :
    (c : PrefillConfig) (ids : Ids)
    → 0 < c.v
    → has_vidx (c.v) (call_ids c ids) ≡ ((c.v == 1) || rows_fit topk_max ids)
unfolding has_vidx call_ids
has_vidx-call_ids c ids some_slices = elim (Bool-cases (c.v == 1)) [
  | inl one ↦ rw one refl
  | inr several ↦
      let many : ltb 1 (c.v) ≡ true = ground (arith, several) in
      rw (several, many) (rows_fit-expand_routing (c.v) ids some_slices)
]
