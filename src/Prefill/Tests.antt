-- ===== src/Prefill/Tests.antt =====
-- Runs of the prefill path.
use v_llm_moet.Prelude.{
  ℕ, ◌+◌, ◌*◌, ◌/◌, ◌%◌, ◌≡◌, refl, arith, List, [], ◌∷◌, map, replicate, none, some, true, false,
  ok, raise, ◌<◌, if◌then◌else◌, ◌==◌, ◌||◌,
}
use v_llm_moet.Prefill.Routing.{
  Ids, SlotTable, map_cols, map_rows, expand_row, expand_routing, through, remap_slices, has_vidx,
  topk_max, rows_fit, unique_insert, missing_in_row, missing_experts,
}
use v_llm_moet.Prefill.Rounds.{
  PrefillConfig, Pool, size_mismatch, StoreCall, Record, put_set, count_prefetch, slices_of,
  record_ptrs, release_last, round_calls, repack, stage_round, write_slots, same_list, read,
  add_read, add_row, add_run, rounds_of, set_of_round, stage_next, run_round, run_rounds, fetch,
  release,
}
use v_llm_moet.Prefill.Calls.{
  Engine, fresh_scratch, create_sets, with_sets, prefetch_missing, prefetch_round0, on_apply,
  count_call, stream_missing, is_overlapped, known_missing, add_missing, on_apply_end, call_ids,
  moe_call, release_set, release_prefill_pins,
}
use v_llm_moet.Prefill.Pins.{fetched, released}
use v_llm_moet.Prefill.Released.{
  EngineEvent, engine_call, before_step, run_event, run_events, fresh_engine, run_events-Released,
}
use v_llm_moet.Prefill.Slices.{wanted_row, wanted_slices}
use v_llm_moet.Prefill.Wanted.{moe_call-wanted}

-- Two slices, two experts in a round, and a store with a tail
abbrev sample_config : PrefillConfig
sample_config = record {
  v = 2;
  slots = 5;
  overlap = true;
  tail = true;
  fetch_works = λ i rnd. true;
}

-- Experts 3 and 8 have the slots 0 and 1.
abbrev sample_table : SlotTable
sample_table e = if e == 3 then some 0 else (if e == 8 then some 1 else none)

abbrev sample_pool : Pool
sample_pool row = if row / 2 == 0 then some (3, row % 2) else some (8, row % 2)

abbrev sample_ids : Ids
sample_ids = (some 3 ∷ some 5 ∷ []) ∷ (some 7 ∷ none ∷ []) ∷ (some 9 ∷ some 5 ∷ []) ∷ []

-- The engine with `n` sets
abbrev engine_of : ℕ → Engine
engine_of n = record {
  sets = record { n_sets = n; at = λ i. fresh_scratch; calls = []; prefetched = 0 };
  n_calls = 0;
  n_rounds = 0;
  n_streamed = 0;
  n_overlapped = 0;
}

missing_run : missing_experts sample_table sample_ids ≡ 5 ∷ 7 ∷ 9 ∷ []
unfolding unique_insert missing_in_row missing_experts
missing_run = refl

-- The first call streams through one set, and a later one through two: the same output, and the
-- same fetches from other sets.
output_of : ℕ → List (List (List Record))
unfolding moe_call
output_of n =
    elim (moe_call sample_config false sample_table sample_pool 0 sample_ids (engine_of n)) [
      | raise e ↦ []
      | ok (out, e) ↦ out
    ]

calls_of : ℕ → List StoreCall
unfolding moe_call
calls_of n =
    elim (moe_call sample_config false sample_table sample_pool 0 sample_ids (engine_of n)) [
      | raise e ↦ []
      | ok (out, e) ↦ e.sets.calls
    ]

call_runs :
    (output_of 1 ≡ map (wanted_row 2) sample_ids)
    × (calls_of 0 ≡ fetch 0 0 (5 ∷ 7 ∷ []) ∷ release 0 (5 ∷ 7 ∷ []) ∷ fetch 0 0 (9 ∷ []) ∷ [])
    × (calls_of 1 ≡ fetch 0 0 (5 ∷ 7 ∷ []) ∷ fetch 1 0 (9 ∷ []) ∷ [])
unfolding output_of calls_of moe_call map_cols map_rows expand_row expand_routing through
    remap_slices unique_insert missing_in_row missing_experts put_set count_prefetch slices_of
    record_ptrs release_last round_calls repack stage_round write_slots same_list read add_read
    add_row add_run rounds_of set_of_round stage_next run_round run_rounds create_sets with_sets
    prefetch_missing prefetch_round0 on_apply count_call stream_missing is_overlapped known_missing
    add_missing on_apply_end call_ids has_vidx rows_fit wanted_row wanted_slices
call_runs = (refl, refl, refl)

sample_pool-HoldsResident :
    (e slot w : ℕ) → sample_table e ≡ some slot → w < 2 → sample_pool (slot * 2 + w) ≡ some (e, w)
sample_pool-HoldsResident e slot w at lt = ground (arith, at)

-- A row of nine ids, which has no entries in `S.vidx` for its last slices
wide_row :
    moe_call sample_config false sample_table sample_pool 0
      (replicate 9 (some 3) ∷ [])
      (engine_of 1)
    ≡ raise size_mismatch
unfolding moe_call on_apply call_ids has_vidx rows_fit expand_routing expand_row
wide_row = refl

moe_call-wanted_example :
    (e' : Engine) × (moe_call sample_config false sample_table sample_pool 0 sample_ids
        (engine_of 1)
      ≡ (if (sample_config.v == 1) || rows_fit topk_max sample_ids
          then ok (map (wanted_row 2) sample_ids, e')
          else raise size_mismatch))
moe_call-wanted_example =
    moe_call-wanted sample_config false sample_table sample_pool 0 sample_ids (engine_of 1)
      (λ i rnd. refl) (omega arith) (omega arith) sample_pool-HoldsResident

-- Two calls, the hook before a step, and a third call
abbrev sample_events : List EngineEvent
sample_events =
    engine_call false sample_table sample_pool 0 sample_ids
    ∷ engine_call false sample_table sample_pool 1 sample_ids
    ∷ before_step
    ∷ engine_call false sample_table sample_pool 0 sample_ids
    ∷ []

sample_events_run : (e : Engine) × (run_events sample_config sample_events fresh_engine ≡ ok e)
unfolding run_events run_event moe_call map_cols map_rows expand_row expand_routing through
    remap_slices unique_insert missing_in_row missing_experts put_set count_prefetch slices_of
    record_ptrs release_last round_calls repack stage_round write_slots same_list read add_read
    add_row add_run rounds_of set_of_round stage_next run_round run_rounds create_sets with_sets
    prefetch_missing prefetch_round0 on_apply count_call stream_missing is_overlapped known_missing
    add_missing on_apply_end call_ids has_vidx rows_fit release_set release_prefill_pins
sample_events_run = (_, refl)

run_events-Released_example :
    fetched 0 9 ((release_prefill_pins (sample_events_run.0.sets)).calls)
    ≡ released 0 9 ((release_prefill_pins (sample_events_run.0.sets)).calls)
run_events-Released_example =
    run_events-Released sample_config sample_events (sample_events_run.0) 0 9 (sample_events_run.1)
