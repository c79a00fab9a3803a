-- ===== src/Prefill/Released.antt =====
-- The pins over any calls and steps: before a step each fetch has been released.
use mathlib.Core.Path.{subst}
use v_llm_moet.Prelude.{
  ℕ, ◌≤◌, ◌<◌, Bool, not, ◌&&◌, ltb, ◌==◌, Bool-cases, Option-cases, List, [], ◌∷◌, Option, none,
  some, Result, ok, guard, ◌>>=◌, >>=-eq-ok, ◌≡◌, inl, inr, refl, ap, arith,
}
use v_llm_moet.Prefill.Routing.{Ids, SlotTable, missing_experts, has_vidx}
use v_llm_moet.Prefill.Rounds.{
  PrefillError, PrefillConfig, Pool, Sets, put_set, release_last, Output, set_of_round,
  size_mismatch,
}
use v_llm_moet.Prefill.Calls.{
  Engine, Context, fresh_scratch, create_sets, with_sets, prefetch_missing, prefetch_round0,
  on_apply, is_overlapped, known_missing, on_apply_end, call_ids, moe_call, release_set,
  release_prefill_pins,
}
use v_llm_moet.Prefill.Pins.{fetched, released, held, Balanced, put_set-Balanced, Moves}
use v_llm_moet.Prefill.Steps.{
  returned, create_sets-Balanced, prefetch_missing-Balanced, add_missing-Balanced,
}

on_apply-Balanced :
    (c : PrefillConfig) (capturing : Bool) (table : SlotTable) (layer : ℕ) (ids ids' : Ids)
    (e : Engine) (ctx : Context) (e' : Engine)
    → Balanced (e.sets)
    → on_apply c capturing table layer ids e ≡ ok (ids', ctx, e')
    → Balanced (e'.sets)
unfolding on_apply prefetch_round0
on_apply-Balanced c capturing table layer ids ids' e ctx e' sound h =
    let fitted = >>=-eq-ok (guard (has_vidx (c.v) ids) size_mismatch) _ h in
    elim (Bool-cases (c.overlap && ltb 0 (c.slots) && ltb 0 (e.sets.n_sets) && not capturing)) [
      | inl ahead ↦
          let run =
            >>=-eq-ok (prefetch_missing c layer ids (missing_experts table ids) e) _
              (rw ahead at (fitted.2)) in
          subst (λ p. Balanced (p.2.sets)) (returned _ _ (ids', ctx, e') refl (run.2))
            (prefetch_missing-Balanced c layer ids (missing_experts table ids) e (run.0.0) (run.0.1)
              sound (run.1))
      | inr later ↦
          subst (λ p. Balanced (p.2.sets))
            (returned _ _ (ids', ctx, e') refl (rw later at (fitted.2))) sound
    ]

-- The sets that the rounds use are created.
reachable :
    (ctx : Context) (s : Sets)
    → 1 ≤ s.n_sets
    → (q : ℕ) → set_of_round (is_overlapped ctx s) q < s.n_sets
unfolding set_of_round is_overlapped
reachable ctx s some_sets q = ground (arith)

on_apply_end-Balanced :
    (c : PrefillConfig) (table : SlotTable) (ctx : Context) (out : Output) (e : Engine)
    (out' : Output) (e' : Engine)
    → Balanced (e.sets)
    → on_apply_end c table ctx out e ≡ ok (out', e')
    → Balanced (e'.sets)
unfolding on_apply_end is_overlapped known_missing
on_apply_end-Balanced c table ctx out e out' e' sound h = elim (Option-cases (ctx.prefill)) [
  | inl absent ↦
      subst (λ p. Balanced (p.1.sets)) (returned _ _ (out', e') refl (rw absent at h)) sound
  | inr (call, present) ↦ elim (Bool-cases (c.slots == 0)) [
    | inl off ↦
        subst (λ p. Balanced (p.1.sets)) (returned _ _ (out', e') refl (rw (present, off) at h))
          sound
    | inr on ↦
        let one = >>=-eq-ok (create_sets c 1 (e.sets)) _ (rw (present, on) at h) in
        let created = create_sets-Balanced c 0 (e.sets) (one.0) sound (one.1) (omega arith) in
        add_missing-Balanced c (is_overlapped ctx (one.0)) (call.0) (call.1)
          (known_missing ctx table (call.1)) (one.0) out e out' e'
          (reachable ctx (one.0) (created.1)) (created.0) (one.2)
  ]
]

moe_call-Balanced :
    (c : PrefillConfig) (capturing : Bool) (table : SlotTable) (resident : Pool) (layer : ℕ)
    (ids : Ids) (e : Engine) (out : Output) (e' : Engine)
    → Balanced (e.sets)
    → moe_call c capturing table resident layer ids e ≡ ok (out, e')
    → Balanced (e'.sets)
unfolding moe_call
moe_call-Balanced c capturing table resident layer ids e out e' sound h =
    let applied = >>=-eq-ok (on_apply c capturing table layer (call_ids c ids) e) _ h in
    let between =
      on_apply-Balanced c capturing table layer (call_ids c ids) (applied.0.0) e (applied.0.1)
        (applied.0.2) sound (applied.1) in
    on_apply_end-Balanced c table (applied.0.1) _ (applied.0.2) out e' between (applied.2)

release_last-Moves : (last : Option (ℕ × List ℕ)) → Moves last (release_last last) none
unfolding release_last fetched released held
release_last-Moves none layer e = refl
release_last-Moves (some (layer', experts)) layer e = omega arith

release_set-Balanced :
    (i : ℕ) (s : Sets) → i < 2 → i < s.n_sets → Balanced s → Balanced (release_set i s)
unfolding release_set
release_set-Balanced i s two created sound =
    put_set-Balanced i _ (release_last ((s.at i).tail_last)) s two created
      (release_last-Moves ((s.at i).tail_last)) sound

-- The sets are sound and pin nothing.
abbrev Unpinned : Sets → Type 0
Unpinned s = Balanced s × ((layer e : ℕ) → fetched layer e (s.calls) ≡ released layer e (s.calls))

holds_none-Unpinned :
    (s : Sets) → Balanced s → (s.at 0).tail_last ≡ none → (s.at 1).tail_last ≡ none → Unpinned s
unfolding held
holds_none-Unpinned s sound first second = (
  sound,
  λ layer e.
      omega (arith, sound.balance layer e, ap (held layer e) first, ap (held layer e) second),
)

two_sets-Unpinned :
    (s : Sets) → 1 < s.n_sets → Balanced s → Unpinned (release_set 1 (release_set 0 s))
unfolding release_set put_set
two_sets-Unpinned s two sound =
    let first = release_set-Balanced 0 s (omega arith) (omega arith) sound in
    holds_none-Unpinned _ (release_set-Balanced 1 (release_set 0 s) (omega arith) two first) refl
      refl

one_set-Unpinned :
    (s : Sets) → 0 < s.n_sets → s.n_sets < 2 → Balanced s → Unpinned (release_set 0 s)
unfolding release_set put_set
one_set-Unpinned s some_set one sound =
    holds_none-Unpinned _ (release_set-Balanced 0 s (omega arith) some_set sound) refl
      (sound.second one)

release_prefill_pins-Unpinned : (s : Sets) → Balanced s → Unpinned (release_prefill_pins s)
unfolding release_prefill_pins
release_prefill_pins-Unpinned s sound = elim (Bool-cases (ltb 1 (s.n_sets))) [
  | inl two ↦ rw two (two_sets-Unpinned s (ground (arith, two)) sound)
  | inr fewer ↦ elim (Bool-cases (ltb 0 (s.n_sets))) [
    | inl one ↦
        rw (fewer, one) (one_set-Unpinned s (ground (arith, one)) (ground (arith, fewer)) sound)
    | inr no_set ↦
        rw (fewer, no_set)
          (holds_none-Unpinned s sound (sound.first (ground (arith, no_set)))
            (sound.second (ground (arith, fewer))))
  ]
]

-- What happens to the engine: a call, or the hook before a step
pub data EngineEvent : Type 0 where
  engine_call : Bool → SlotTable → Pool → ℕ → Ids → EngineEvent
  before_step : EngineEvent

unfoldable pub run_event : PrefillConfig → EngineEvent → Engine → Result PrefillError Engine
run_event c (engine_call capturing table resident layer ids) e =
    moe_call c capturing table resident layer ids e >>= λ done. ok (done.1)
run_event c before_step e = ok (with_sets (release_prefill_pins (e.sets)) e)

unfoldable pub run_events : PrefillConfig → List EngineEvent → Engine → Result PrefillError Engine
run_events c [] e = ok e
run_events c (event ∷ events) e = run_event c event e >>= run_events c events

run_event-Balanced :
    (c : PrefillConfig) (event : EngineEvent) (e e' : Engine)
    → Balanced (e.sets)
    → run_event c event e ≡ ok e'
    → Balanced (e'.sets)
unfolding run_event with_sets
run_event-Balanced c (engine_call capturing table resident layer ids) e e' sound h =
    let run = >>=-eq-ok (moe_call c capturing table resident layer ids e) _ h in
    subst (λ t. Balanced (t.sets)) (returned _ _ e' refl (run.2))
      (moe_call-Balanced c capturing table resident layer ids e (run.0.0) (run.0.1) sound (run.1))
run_event-Balanced c before_step e e' sound h =
    subst (λ t. Balanced (t.sets)) (returned _ _ e' refl h)
      ((release_prefill_pins-Unpinned (e.sets) sound).0)

run_events-Balanced :
    (c : PrefillConfig) (events : List EngineEvent) (e e' : Engine)
    → Balanced (e.sets)
    → run_events c events e ≡ ok e'
    → Balanced (e'.sets)
unfolding run_events
run_events-Balanced c [] e e' sound h =
    subst (λ t. Balanced (t.sets)) (returned _ _ e' refl h) sound
run_events-Balanced c (event ∷ events) e e' sound h =
    let first = >>=-eq-ok (run_event c event e) _ h in
    run_events-Balanced c events (first.0) e'
      (run_event-Balanced c event e (first.0) sound (first.1)) (first.2)

-- The engine before its first call
abbrev pub fresh_engine : Engine
fresh_engine = record {
  sets = record { n_sets = 0; at = λ i. fresh_scratch; calls = []; prefetched = 0 };
  n_calls = 0;
  n_rounds = 0;
  n_streamed = 0;
  n_overlapped = 0;
}

fresh_engine-Balanced : Balanced (fresh_engine.sets)
unfolding fetched released held
fresh_engine-Balanced = record { balance = λ layer e. refl; first = λ h. refl; second = λ h. refl }

-- Whatever calls and steps an engine has had without an exception, once the hook before the next step
-- has run, the store has been called to release each expert of each layer as often as to fetch it for
-- a round.
pub run_events-Released :
    (c : PrefillConfig) (events : List EngineEvent) (e : Engine) (layer expert : ℕ)
    → run_events c events fresh_engine ≡ ok e
    → fetched layer expert ((release_prefill_pins (e.sets)).calls)
      ≡ released layer expert ((release_prefill_pins (e.sets)).calls)
run_events-Released c events e layer expert h =
    let sound = run_events-Balanced c events fresh_engine e fresh_engine-Balanced h in
    (release_prefill_pins-Unpinned (e.sets) sound).1 layer expert
