-- ===== src/Prefill/Wanted.antt =====
-- A call computes each of its pairs once.
use v_llm_moet.Prelude.{
  ℕ, ◌<◌, Bool, true, false, ◌||◌, if◌then◌else◌, raise, ◌==◌, Bool-cases, [], ok, ◌≡◌, inl, inr,
  refl, ap, ◌∙◌, map,
}
use v_llm_moet.Prefill.Routing.{Ids, SlotTable, through, remap_slices, has_vidx, topk_max, rows_fit}
use v_llm_moet.Prefill.Rounds.{PrefillConfig, size_mismatch, Pool}
use v_llm_moet.Prefill.Calls.{Engine, per_round, on_apply, on_apply_end, call_ids, moe_call}
use v_llm_moet.Prefill.Stages.{Works, add_run-map}
use v_llm_moet.Prefill.Widths.{has_vidx-call_ids}
use v_llm_moet.Prefill.Slices.{wanted_row, call_ids-wanted}
use v_llm_moet.Prefill.Sums.{HoldsResident}
use v_llm_moet.Prefill.Exact.{on_apply-CallApplied, on_apply_end-wanted}

-- The call returns when its rows have their entries in the vidx table.
moe_call-returns :
    (c : PrefillConfig) (capturing : Bool) (table : SlotTable) (resident : Pool) (layer : ℕ)
    (ids : Ids) (e : Engine)
    → Works c
    → 0 < c.v
    → 0 < per_round c
    → has_vidx (c.v) (call_ids c ids) ≡ true
    → HoldsResident (c.v) table resident
    → (e' : Engine) × (moe_call c capturing table resident layer ids e
        ≡ ok (map (wanted_row (c.v)) ids, e'))
unfolding moe_call remap_slices
moe_call-returns c capturing table resident layer ids e works some_slices some_slots fits holds =
    let ids' = call_ids c ids in
    let before =
      on_apply-CallApplied c works some_slices some_slots table resident holds layer capturing ids'
        e fits in
    let after =
      on_apply_end-wanted c works some_slices some_slots table resident holds layer ids' (before.0)
        (before.1) fits (before.3) in
    let stock = add_run-map resident (through (c.v) table) (λ column id. []) ids' in
    (
      after.0,
      rw (before.2) (
          ap (λ out. on_apply_end c table (before.0) out (before.1)) stock
          ∙ after.1
          ∙ ap (λ out. ok (out, after.0)) (call_ids-wanted c ids some_slices)),
    )

-- Where a scratch set has room for an expert, the fetches of the store work, and the layer's pool holds
-- the slices of the experts in its table, a call returns if there is one slice or no token has more than
-- TOPK_MAX experts, whether its missing experts are streamed through one set or through two with the
-- rounds staged ahead, and each pair of the router's ids has had each slice of its expert added, once,
-- and a padded pair none; otherwise it raises.
pub moe_call-wanted :
    (c : PrefillConfig) (capturing : Bool) (table : SlotTable) (resident : Pool) (layer : ℕ)
    (ids : Ids) (e : Engine)
    → Works c
    → 0 < c.v
    → 0 < per_round c
    → HoldsResident (c.v) table resident
    → (e' : Engine) × (moe_call c capturing table resident layer ids e ≡ (
        if (c.v == 1) || rows_fit topk_max ids
        then ok (map (wanted_row (c.v)) ids, e')
        else raise size_mismatch))
unfolding moe_call on_apply
moe_call-wanted c capturing table resident layer ids e works some_slices some_slots holds =
    elim (Bool-cases ((c.v == 1) || rows_fit topk_max ids)) [
      | inl fits ↦
          let returns =
            moe_call-returns c capturing table resident layer ids e works some_slices some_slots
              (has_vidx-call_ids c ids some_slices ∙ fits) holds in
          (returns.0, rw fits (returns.1))
      | inr wide ↦
          let raises : has_vidx (c.v) (call_ids c ids) ≡ false =
            has_vidx-call_ids c ids some_slices ∙ wide in
          (e, rw (wide, raises) refl)
    ]
