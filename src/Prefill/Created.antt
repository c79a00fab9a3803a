-- ===== src/Prefill/Created.antt =====
-- What a call starts from: its scratch sets, and what its rounds must add up to.
use v_llm_moet.Prelude.{
  ℕ, ◌-◌, ◌≤◌, ◌<◌, leb, Bool-cases, List, length, update, ok, ◌≡◌, ◌⊎◌, inl, inr, refl, arith,
  le→leb,
}
use v_llm_moet.Prefill.Routing.{Ids, SlotTable, map_rows, missing_experts}
use v_llm_moet.Prefill.Rounds.{PrefillConfig, Pool, Sets, rounds_of}
use v_llm_moet.Prefill.Calls.{per_round, fresh_scratch, create_sets}
use v_llm_moet.Prefill.Missing.{
  Ascending-count, missing_experts-Ascending, missing_experts-All, missing_experts-none, IsKnown,
  concat, concat-rounds_of,
}
use v_llm_moet.Prefill.Stages.{sum_parts}
use v_llm_moet.Prefill.Sums.{HoldsResident, stock_part, wanted, sum_parts-wanted, map_rows-All}

abbrev pub missing_rounds : PrefillConfig → List ℕ → List (List ℕ)
missing_rounds c missing = rounds_of (length missing) (per_round c) missing

module _ (c : PrefillConfig) (some_slots : 0 < per_round c) where
  pub create_sets-returns :
      (n : ℕ) (s : Sets)
      → 0 < n
      → (s' : Sets) × (create_sets c n s ≡ ok s') × (n ≤ s'.n_sets) × ((s.n_sets < n) ⊎ (s' ≡ s))
  unfolding create_sets
  create_sets-returns n s some_sets = elim (Bool-cases (leb n (s.n_sets))) [
    | inl there ↦ (s, rw there refl, ground (arith, there), inr refl)
    | inr more ↦ (
      record {
        n_sets = n;
        at = update (s.at) (n - 1) fresh_scratch;
        calls = s.calls;
        prefetched = s.prefetched;
      },
      rw (more, le→leb 1 (per_round c) some_slots) refl,
      omega arith,
      inl (ground (arith, more)),
    )
  ]

  module _ (some_slices : 0 < c.v) (table : SlotTable) (resident : Pool)
      (holds : HoldsResident (c.v) table resident) where
    pub wanted_output :
        (ids : Ids)
        → map_rows
            (sum_parts
              (c.v)
              (missing_rounds c (missing_experts table ids))
              (stock_part (c.v) table resident))
            ids
          ≡ map_rows (wanted (c.v)) ids
    wanted_output ids =
        let missing = missing_experts table ids in
        let all : concat (missing_rounds c missing) ≡ missing =
          concat-rounds_of (length missing) (per_round c) missing some_slots (omega arith) in
        map_rows-All (IsKnown table missing) _ _
          (λ col id known.
            sum_parts-wanted (c.v) table resident (missing_rounds c missing) col id some_slices
              holds (λ e. rw all (Ascending-count missing e (missing_experts-Ascending table ids)))
              (λ e slot at. rw all (missing_experts-none table ids e slot at)) (rw all known))
          ids (missing_experts-All table ids)
