-- ===== src/Prefill/Exact.antt =====
-- A call computes its missing experts, whichever way they are streamed.
use v_llm_moet.Prelude.{
  ℕ, ◌<◌, Bool, true, false, not, ◌&&◌, ltb, ◌==◌, Bool-cases, List, [], ◌∷◌, length, take, none,
  some, ok, ◌≡◌, ◌⊎◌, inl, inr, refl, ap, ◌∙◌, arith,
}
use v_llm_moet.Prefill.Routing.{Ids, SlotTable, map_rows, missing_experts, remap_slices, has_vidx}
use v_llm_moet.Prefill.Rounds.{PrefillConfig, Pool, Sets, Output, count_prefetch, rounds_of}
use v_llm_moet.Prefill.Calls.{
  Engine, Context, per_round, create_sets, with_sets, prefetch_missing, prefetch_round0,
  add_missing, on_apply, count_call, stream_missing, is_overlapped, known_missing, on_apply_end,
}
use v_llm_moet.Prefill.Stages.{Works, stage_round-Stages, sum_parts}
use v_llm_moet.Prefill.Loop.{Ready, same-IsStaged, run_rounds-sum}
use v_llm_moet.Prefill.Sums.{HoldsResident, stock_part, wanted}
use v_llm_moet.Prefill.Created.{missing_rounds, create_sets-returns, wanted_output}

module _ (c : PrefillConfig) (works : Works c) (some_slices : 0 < c.v)
    (some_slots : 0 < per_round c) where
  module _ (table : SlotTable) (resident : Pool) (holds : HoldsResident (c.v) table resident)
      (layer : ℕ) where
    abbrev stock_output : Ids → Output
    stock_output ids = map_rows (stock_part (c.v) table resident) ids

    stream_missing-returns :
        (overlapped : Bool) (ids : Ids) (s : Sets) (e : Engine)
        → has_vidx (c.v) ids ≡ true
        → Ready c overlapped 0 (missing_rounds c (missing_experts table ids)) s
        → (e' : Engine) × (stream_missing c overlapped layer ids
              (missing_experts table ids)
              s
              (stock_output ids)
              e
            ≡ ok (map_rows (wanted (c.v)) ids, e'))
    unfolding stream_missing
    stream_missing-returns overlapped ids s e fits ready =
        let missing = missing_experts table ids in
        let run =
          run_rounds-sum c works some_slices layer overlapped ids 0 (missing_rounds c missing) s
            (stock_part (c.v) table resident) fits ready in
        (
          count_call overlapped (length (missing_rounds c missing)) (length missing) (run.0) e,
          rw (run.1, wanted_output c some_slots some_slices table resident holds ids) refl,
        )

    -- What on_apply leaves: the ids of the call, and, if it knows the missing experts, their first round
    -- is staged.
    pub record CallApplied (ids : Ids) (ctx : Context) (e : Engine) : Type 0 where
      prefill : ctx.prefill ≡ some (layer, ids)
      missing :
          (ctx.prefill_missing ≡ none)
          ⊎ ((ctx.prefill_missing ≡ some (missing_experts table ids))
              × (0 < e.sets.n_sets)
              × Ready c true 0 (missing_rounds c (missing_experts table ids)) (e.sets))

    prefetch_missing-CallApplied :
        (ids : Ids) (missing : List ℕ) (e : Engine)
        → missing_experts table ids ≡ missing
        → 0 < e.sets.n_sets
        → (ctx : Context) × (e' : Engine) × (prefetch_missing c layer ids missing e ≡ ok (ctx, e'))
          × CallApplied ids ctx e'
    unfolding prefetch_missing rounds_of with_sets count_prefetch
    prefetch_missing-CallApplied ids [] e found created = (
      record { prefill = some (layer, ids); prefill_missing = some [] },
      e,
      refl,
      record { prefill = refl; missing = inr (rw found refl, created, rw found tt) },
    )
    prefetch_missing-CallApplied ids (first ∷ more) e found created =
        let two = create_sets-returns c some_slots 2 (e.sets) (omega arith) in
        let rnd = take (per_round c) (first ∷ more) in
        let staged = stage_round-Stages c 0 layer rnd (two.0) works in
        (
          record { prefill = some (layer, ids); prefill_missing = some (first ∷ more) },
          with_sets (count_prefetch (staged.after)) e,
          rw (two.1, staged.returns) refl,
          record {
            prefill = refl;
            missing = inr (
              rw found refl,
              omega (arith, two.2, staged.kept_sets),
              rw found (same-IsStaged (c.v) 0 rnd (staged.after) _ refl (staged.stages)),
            );
          },
        )

    pub on_apply-CallApplied :
        (capturing : Bool) (ids : Ids) (e : Engine)
        → has_vidx (c.v) ids ≡ true
        → (ctx : Context) × (e' : Engine) × (on_apply c capturing table layer ids e
            ≡ ok (remap_slices (c.v) table ids, ctx, e'))
          × CallApplied ids ctx e'
    unfolding on_apply prefetch_round0
    on_apply-CallApplied capturing ids e fits =
        elim (Bool-cases (c.overlap && ltb 0 (c.slots) && ltb 0 (e.sets.n_sets) && not capturing)) [
          | inl ahead ↦
              let before =
                prefetch_missing-CallApplied ids (missing_experts table ids) e refl
                  (ground (arith, ahead)) in
              (before.0, before.1, rw (fits, ahead, before.2) refl, before.3)
          | inr later ↦ (
            record { prefill = some (layer, ids); prefill_missing = none },
            e,
            rw (fits, later) refl,
            record { prefill = refl; missing = inl refl },
          )
        ]

    Ready-if :
        (overlapped : Bool) (rounds : List (List ℕ)) (s : Sets)
        → Ready c true 0 rounds s
        → Ready c overlapped 0 rounds s
    Ready-if true rounds s ready = ready
    Ready-if false rounds s ready = tt

    -- The missing experts are streamed, if there are any.
    add_missing-wanted :
        (overlapped : Bool) (ids : Ids) (missing : List ℕ) (s : Sets) (e : Engine)
        → has_vidx (c.v) ids ≡ true
        → missing_experts table ids ≡ missing
        → Ready c overlapped 0 (missing_rounds c missing) s
        → (e' : Engine) × (add_missing c overlapped layer ids missing s (stock_output ids) e
            ≡ ok (map_rows (wanted (c.v)) ids, e'))
    unfolding add_missing sum_parts rounds_of
    add_missing-wanted overlapped ids [] s e fits none_missing ready = (
      count_call false 0 0 s e,
      ap (λ out. ok (out, count_call false 0 0 s e))
          (rw none_missing at (wanted_output c some_slots some_slices table resident holds ids)),
    )
    add_missing-wanted overlapped ids (first ∷ more) s e fits found ready =
        rw (← found) (stream_missing-returns overlapped ids s e fits (rw found ready))

    pub on_apply_end-wanted :
        (ids : Ids) (ctx : Context) (e : Engine)
        → has_vidx (c.v) ids ≡ true
        → CallApplied ids ctx e
        → (e' : Engine) × (on_apply_end c table ctx (stock_output ids) e
            ≡ ok (map_rows (wanted (c.v)) ids, e'))
    unfolding on_apply_end is_overlapped known_missing
    on_apply_end-wanted ids ctx e fits applied =
        let slots : (c.slots == 0) ≡ false = ground arith in
        let one = create_sets-returns c some_slots 1 (e.sets) (omega arith) in
        elim (applied.missing) [
          | inl unknown ↦
              let added =
                add_missing-wanted false ids (missing_experts table ids) (one.0) e fits refl tt in
              (
                added.0,
                rw (applied.prefill, slots, one.1, is_overlapped, known_missing, unknown) (added.1),
              )
          | inr (known, created, ready) ↦
              let same : one.0 ≡ e.sets = elim (one.3) [
                | inl fewer ↦ absurd (omega arith)
                | inr same_sets ↦ same_sets
              ] in
              let kept : create_sets c 1 (e.sets) ≡ ok (e.sets) = one.1 ∙ ap ok same in
              let overlapped = ltb 1 (e.sets.n_sets) in
              let added =
                add_missing-wanted (ltb 1 (e.sets.n_sets)) ids (missing_experts table ids) (e.sets)
                  e fits refl
                  (Ready-if overlapped (missing_rounds c (missing_experts table ids)) (e.sets)
                    ready) in
              (
                added.0,
                rw (applied.prefill, slots, kept, is_overlapped, known_missing, known) (added.1),
              )
        ]
