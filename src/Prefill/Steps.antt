-- ===== src/Prefill/Steps.antt =====
-- The pins over any calls and steps: what is fetched is released.
use mathlib.Core.Path.{subst}
use v_llm_moet.Prelude.{
  ℕ, zero, suc, ◌-◌, ◌≤◌, ◌<◌, Bool, leb, Bool-cases, List, [], ◌∷◌, length, take, update, Result,
  ok, guard, >>=-eq-ok, ◌≡◌, inl, inr, refl, ap, arith,
}
use v_llm_moet.Prefill.Routing.{Ids}
use v_llm_moet.Prefill.Rounds.{
  PrefillError, PrefillConfig, Sets, count_prefetch, stage_round, Output, rounds_of, set_of_round,
  run_rounds,
}
use v_llm_moet.Prefill.Calls.{
  Engine, Context, per_round, fresh_scratch, create_sets, with_sets, prefetch_missing, count_call,
  stream_missing, add_missing,
}
use v_llm_moet.Prefill.Pins.{held, Balanced, ok-inj}
use v_llm_moet.Prefill.PinLoop.{stage_round-Keeps, run_rounds-Keeps}

-- A run returns one value.
pub returned :
    {A : Type 0} (run : Result PrefillError A) (a b : A) → run ≡ ok a → run ≡ ok b → a ≡ b
returned run a b h h' = cc

first_set-Balanced :
    (s : Sets)
    → s.n_sets ≡ 0
    → Balanced s
    → Balanced record {
      n_sets = 1;
      at = update (s.at) 0 fresh_scratch;
      calls = s.calls;
      prefetched = s.prefetched;
    }
unfolding held
first_set-Balanced s none_created sound = record {
  balance =
      λ layer e. omega (arith, sound.balance layer e, ap (held layer e) (sound.first none_created));
  first = λ h. refl;
  second = λ h. sound.second (omega arith);
}

second_set-Balanced :
    (s : Sets)
    → s.n_sets < 2
    → Balanced s
    → Balanced record {
      n_sets = 2;
      at = update (s.at) 1 fresh_scratch;
      calls = s.calls;
      prefetched = s.prefetched;
    }
unfolding held
second_set-Balanced s few sound = record {
  balance = λ layer e. omega (arith, sound.balance layer e, ap (held layer e) (sound.second few));
  first = λ h. absurd (omega arith);
  second = λ h. refl;
}

pub create_sets-Balanced :
    (c : PrefillConfig) (n : ℕ) (s s' : Sets)
    → Balanced s
    → create_sets c (suc n) s ≡ ok s'
    → n < 2
    → Balanced s' × (suc n ≤ s'.n_sets)
unfolding create_sets
create_sets-Balanced c n s s' sound h small = elim (Bool-cases (leb (suc n) (s.n_sets))) [
  | inl there ↦
      let same = ok-inj s s' (rw there at h) in
      subst (λ t. Balanced t × (suc n ≤ t.n_sets)) same (sound, ground (arith, there))
  | inr more ↦
      let step = >>=-eq-ok (guard (leb 1 (per_round c)) _) _ (rw more at h) in
      subst (λ t. Balanced t × (suc n ≤ t.n_sets)) (ok-inj _ s' (step.2))
        (created n small (ground (arith, more)), omega arith)
]
  where
    created :
        (m : ℕ)
        → m < 2
        → s.n_sets < suc m
        → Balanced record {
          n_sets = suc m;
          at = update (s.at) (suc m - 1) fresh_scratch;
          calls = s.calls;
          prefetched = s.prefetched;
        }
    created zero lt few = first_set-Balanced s (omega arith) sound
    created (suc zero) lt few = second_set-Balanced s few sound
    created (suc (suc m)) lt few = absurd (omega arith)

count_prefetch-Balanced : (s : Sets) → Balanced s → Balanced (count_prefetch s)
unfolding count_prefetch
count_prefetch-Balanced s sound = record {
  balance = sound.balance;
  first = sound.first;
  second = sound.second;
}

pub prefetch_missing-Balanced :
    (c : PrefillConfig) (layer : ℕ) (ids : Ids) (missing : List ℕ) (e : Engine) (ctx : Context)
    (e' : Engine)
    → Balanced (e.sets)
    → prefetch_missing c layer ids missing e ≡ ok (ctx, e')
    → Balanced (e'.sets)
unfolding prefetch_missing with_sets
prefetch_missing-Balanced c layer ids [] e ctx e' sound h =
    subst (λ p. Balanced (p.1.sets)) (returned _ _ (ctx, e') refl h) sound
prefetch_missing-Balanced c layer ids (first ∷ more) e ctx e' sound h =
    let two = >>=-eq-ok (create_sets c 2 (e.sets)) _ h in
    let created = create_sets-Balanced c 1 (e.sets) (two.0) sound (two.1) (omega arith) in
    let staged =
      >>=-eq-ok (stage_round c 0 layer (take (per_round c) (first ∷ more)) (two.0)) _ (two.2) in
    let kept =
      stage_round-Keeps c 0 layer _ (two.0) (staged.0) (omega arith) (omega (arith, created.1))
        (created.0) (staged.1) in
    subst (λ p. Balanced (p.1.sets)) (returned _ _ (ctx, e') refl (staged.2))
      (count_prefetch-Balanced (staged.0) (kept.balanced))

stream_missing-Balanced :
    (c : PrefillConfig) (overlapped : Bool) (layer : ℕ) (ids : Ids) (missing : List ℕ) (s : Sets)
    (out : Output) (e : Engine) (out' : Output) (e' : Engine)
    → ((q : ℕ) → set_of_round overlapped q < s.n_sets)
    → Balanced s
    → stream_missing c overlapped layer ids missing s out e ≡ ok (out', e')
    → Balanced (e'.sets)
unfolding stream_missing count_call
stream_missing-Balanced c overlapped layer ids missing s out e out' e' reach sound h =
    let run =
      >>=-eq-ok
        (run_rounds c overlapped layer ids 0 (rounds_of (length missing) (per_round c) missing)
          (s, out))
        _ h in
    let kept =
      run_rounds-Keeps c overlapped layer ids 0 _ s out (run.0.0) (run.0.1) reach sound (run.1) in
    subst (λ p. Balanced (p.1.sets)) (returned _ _ (out', e') refl (run.2)) (kept.balanced)

pub add_missing-Balanced :
    (c : PrefillConfig) (overlapped : Bool) (layer : ℕ) (ids : Ids) (missing : List ℕ) (s : Sets)
    (out : Output) (e : Engine) (out' : Output) (e' : Engine)
    → ((q : ℕ) → set_of_round overlapped q < s.n_sets)
    → Balanced s
    → add_missing c overlapped layer ids missing s out e ≡ ok (out', e')
    → Balanced (e'.sets)
unfolding add_missing count_call
add_missing-Balanced c overlapped layer ids [] s out e out' e' reach sound h =
    subst (λ p. Balanced (p.1.sets)) (returned _ _ (out', e') refl h) sound
add_missing-Balanced c overlapped layer ids (first ∷ more) s out e out' e' reach sound h =
    stream_missing-Balanced c overlapped layer ids (first ∷ more) s out e out' e' reach sound h
