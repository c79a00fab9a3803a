-- ===== src/Prefill/Calls.antt =====
-- The calls: `on_apply` beyond the tokens of the compact path, `on_apply_end`, and the release of the
-- pins before a step.
use v_llm_moet.Prelude.{
  ℕ, ◌+◌, ◌-◌, ◌/◌, Bool, false, not, ◌&&◌, ltb, leb, ◌==◌, if◌then◌else◌, List, [], ◌∷◌, length,
  take, Option, none, some, update, Result, ok, guard, ◌>>=◌, ◌>>◌,
}
use v_llm_moet.Prefill.Routing.{
  Ids, SlotTable, expand_routing, remap_slices, missing_experts, map_rows, has_vidx,
}
use v_llm_moet.Prefill.Rounds.{
  PrefillError, no_scratch, size_mismatch, PrefillConfig, Pool, Scratch, Sets, Output, stage_round,
  count_prefetch, add_run, rounds_of, run_rounds, put_set, release_last,
}

-- The engine's state: the sets and the counters of the first set and of overlap_stats[0]
pub record Engine : Type 0 where
  pub sets : Sets
  pub n_calls : ℕ
  pub n_rounds : ℕ
  pub n_streamed : ℕ
  pub n_overlapped : ℕ

-- S.ctx between the two calls: the layer and ids, and the missing experts, if they are known
pub record Context : Type 0 where
  pub prefill : Option (ℕ × Ids)
  pub prefill_missing : Option (List ℕ)

abbrev pub per_round : PrefillConfig → ℕ
per_round c = c.slots / c.v

abbrev pub fresh_scratch : Scratch
fresh_scratch = record { staged = []; table = λ e. none; pool = λ slot. none; tail_last = none }

-- `_Scratch(...)` where `n` sets are wanted and fewer are created
unfoldable pub create_sets : PrefillConfig → ℕ → Sets → Result PrefillError Sets
create_sets c n s =
    if leb n (s.n_sets)
    then ok s
    else guard (leb 1 (per_round c)) no_scratch
      >> ok record {
        n_sets = n;
        at = update (s.at) (n - 1) fresh_scratch;
        calls = s.calls;
        prefetched = s.prefetched;
      }

unfoldable pub with_sets : Sets → Engine → Engine
with_sets s e = record {
  sets = s;
  n_calls = e.n_calls;
  n_rounds = e.n_rounds;
  n_streamed = e.n_streamed;
  n_overlapped = e.n_overlapped;
}

-- `_prefill_prefetch_round0`, for the missing experts of the call: round 0 into the first set
unfoldable pub prefetch_missing :
    PrefillConfig → ℕ → Ids → List ℕ → Engine → Result PrefillError (Context × Engine)
prefetch_missing c layer ids [] e =
    ok (record { prefill = some (layer, ids); prefill_missing = some [] }, e)
prefetch_missing c layer ids (first ∷ more) e = do
  two ← create_sets c 2 (e.sets)
  staged ← stage_round c 0 layer (take (per_round c) (first ∷ more)) two
  ok (
    record { prefill = some (layer, ids); prefill_missing = some (first ∷ more) },
    with_sets (count_prefetch staged) e,
  )

unfoldable pub prefetch_round0 :
    PrefillConfig → SlotTable → ℕ → Ids → Engine → Result PrefillError (Context × Engine)
prefetch_round0 c table layer ids e = prefetch_missing c layer ids (missing_experts table ids) e

-- `on_apply`, of a call whose ids are expanded already: the ids of the stock run. A row that is longer
-- than `S.vidx` raises in `_remap_slices`.
unfoldable pub on_apply :
    PrefillConfig
    → Bool
    → SlotTable
    → ℕ
    → Ids
    → Engine
    → Result PrefillError (Ids × Context × Engine)
on_apply c capturing table layer ids e =
    let remapped = remap_slices (c.v) table ids in
    let plain : Context = record { prefill = some (layer, ids); prefill_missing = none } in
    guard (has_vidx (c.v) ids) size_mismatch
    >> (if c.overlap && ltb 0 (c.slots) && ltb 0 (e.sets.n_sets) && not capturing
        then (do (ctx, e') ← prefetch_round0 c table layer ids e; ok (remapped, ctx, e'))
        else ok (remapped, plain, e))

-- The counters of a call, with its rounds and experts
unfoldable pub count_call : Bool → ℕ → ℕ → Sets → Engine → Engine
count_call overlapped rounds streamed s e = record {
  sets = s;
  n_calls = e.n_calls + 1;
  n_rounds = e.n_rounds + rounds;
  n_streamed = e.n_streamed + streamed;
  n_overlapped = e.n_overlapped + (if overlapped then 1 else 0);
}

-- The streamed rounds of a call
unfoldable pub stream_missing :
    PrefillConfig
    → Bool
    → ℕ
    → Ids
    → List ℕ
    → Sets
    → Output
    → Engine
    → Result PrefillError (Output × Engine)
stream_missing c overlapped layer ids missing s out e = do
  let rounds = rounds_of (length missing) (per_round c) missing
  (s', out') ← run_rounds c overlapped layer ids 0 rounds (s, out)
  ok (out', count_call overlapped (length rounds) (length missing) s' e)

-- Whether on_apply has staged round 0: its list is there, and the second set is
unfoldable pub is_overlapped : Context → Sets → Bool
is_overlapped ctx s = elim (ctx.prefill_missing) [ none ↦ false | some known ↦ ltb 1 (s.n_sets) ]

unfoldable pub known_missing : Context → SlotTable → Ids → List ℕ
known_missing ctx table ids = elim (ctx.prefill_missing) [
  | none ↦ missing_experts table ids
  | some known ↦ known
]

-- `on_apply_end` from the missing experts on
unfoldable pub add_missing :
    PrefillConfig
    → Bool
    → ℕ
    → Ids
    → List ℕ
    → Sets
    → Output
    → Engine
    → Result PrefillError (Output × Engine)
add_missing c overlapped layer ids [] s out e = ok (out, count_call false 0 0 s e)
add_missing c overlapped layer ids (first ∷ more) s out e =
    stream_missing c overlapped layer ids (first ∷ more) s out e

-- `on_apply_end`: the output with the missing experts added
unfoldable pub on_apply_end :
    PrefillConfig → SlotTable → Context → Output → Engine → Result PrefillError (Output × Engine)
on_apply_end c table ctx out e = elim (ctx.prefill) [
  | none ↦ ok (out, e)
  | some (layer, ids) ↦ if c.slots == 0 then ok (out, e) else (do
    s ← create_sets c 1 (e.sets)
    add_missing c (is_overlapped ctx s) layer ids (known_missing ctx table ids) s out e)
]

-- The ids that the layer's run gets: expanded to the slices, if there are several
unfoldable pub call_ids : PrefillConfig → Ids → Ids
call_ids c ids = if ltb 1 (c.v) then expand_routing (c.v) ids else ids

abbrev pub empty_output : Ids → Output
empty_output ids = map_rows (λ column id. []) ids

-- A call: `on_apply`, the stock run on the layer's pool, and `on_apply_end`
unfoldable pub moe_call :
    PrefillConfig
    → Bool
    → SlotTable
    → Pool
    → ℕ
    → Ids
    → Engine
    → Result PrefillError (Output × Engine)
moe_call c capturing table resident layer ids e = do
  let ids' = call_ids c ids
  (remapped, ctx, e1) ← on_apply c capturing table layer ids' e
  on_apply_end c table ctx (add_run resident remapped (empty_output ids')) e1

-- `_release_prefill_pins` of one set
unfoldable pub release_set : ℕ → Sets → Sets
release_set i s =
    put_set i
      record {
        staged = (s.at i).staged;
        table = (s.at i).table;
        pool = (s.at i).pool;
        tail_last = none;
      }
      (release_last ((s.at i).tail_last)) s

-- `_release_prefill_pins`, of the sets that are created
unfoldable pub release_prefill_pins : Sets → Sets
release_prefill_pins s =
    let first = release_set 0 s in
    if ltb 1 (s.n_sets) then release_set 1 first else (if ltb 0 (s.n_sets) then first else s)
