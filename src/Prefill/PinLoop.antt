-- ===== src/Prefill/PinLoop.antt =====
-- The rounds of a call keep the pins balanced.
use mathlib.Core.Path.{subst}
use v_llm_moet.Prelude.{
  ℕ, suc, ◌<◌, Bool, true, false, if◌then◌else◌, List, [], ◌∷◌, Result, ok, guard, ◌>>=◌, ◌>>◌,
  >>=-eq-ok, ◌≡◌, refl, ◌∙◌, arith,
}
use v_llm_moet.Prefill.Routing.{Ids, has_vidx}
use v_llm_moet.Prefill.Rounds.{
  PrefillError, PrefillConfig, Sets, put_set, count_prefetch, round_calls, stage_round, Output,
  set_of_round, stage_next, run_round, run_rounds, same_list, not_staged, size_mismatch,
}
use v_llm_moet.Prefill.Pins.{
  fetched, released, Balanced, put_set-Balanced, round_calls-Moves, ok-inj,
}

-- A step that keeps the sets balanced
pub record Keeps (s s' : Sets) : Type 0 where
  pub balanced : Balanced s'
  pub sets : s'.n_sets ≡ s.n_sets

pub stage_round-Keeps :
    (c : PrefillConfig) (i layer : ℕ) (rnd : List ℕ) (s s' : Sets)
    → i < 2
    → i < s.n_sets
    → Balanced s
    → stage_round c i layer rnd s ≡ ok s'
    → Keeps s s'
unfolding stage_round
stage_round-Keeps c i layer rnd s s' two created sound h =
    let step = >>=-eq-ok (round_calls c i layer rnd (s.at i)) _ h in
    let moves = round_calls-Moves c i layer rnd (s.at i) (step.0.0) (step.0.1) (step.1) in
    subst (Keeps s) (ok-inj _ _ (step.2)) record {
      balanced = put_set-Balanced i _ (step.0.0) s two created moves sound;
      sets = unfold put_set in refl;
    }

set_of_round_lt : (overlapped : Bool) (r : ℕ) → set_of_round overlapped r < 2
unfolding set_of_round
set_of_round_lt true r = omega arith
set_of_round_lt false r = omega arith

stage_next-Keeps :
    (c : PrefillConfig) (overlapped : Bool) (layer r : ℕ) (rounds : List (List ℕ)) (s s' : Sets)
    → ((q : ℕ) → set_of_round overlapped q < s.n_sets)
    → Balanced s
    → stage_next c overlapped layer r rounds s ≡ ok s'
    → Keeps s s'
unfolding stage_next count_prefetch
stage_next-Keeps c overlapped layer r [] s s' reach sound h =
    subst (Keeps s) (ok-inj s s' h) record { balanced = sound; sets = refl }
stage_next-Keeps c false layer r (next ∷ rounds) s s' reach sound h =
    subst (Keeps s) (ok-inj s s' h) record { balanced = sound; sets = refl }
stage_next-Keeps c true layer r (next ∷ rounds) s s' reach sound h =
    let step = >>=-eq-ok (stage_round c (set_of_round true (suc r)) layer next s) _ h in
    let staged =
      stage_round-Keeps c (set_of_round true (suc r)) layer next s (step.0)
        (set_of_round_lt true (suc r)) (reach (suc r)) sound (step.1) in
    subst (Keeps s) (ok-inj _ s' (step.2)) record {
      balanced = record {
        balance = staged.balanced.balance;
        first = staged.balanced.first;
        second = staged.balanced.second;
      };
      sets = staged.sets;
    }

run_round-Keeps :
    (c : PrefillConfig) (i : ℕ) (rnd : List ℕ) (ids : Ids) (s : Sets) (out : Output)
    → i < 2
    → i < s.n_sets
    → Balanced s
    → Keeps s ((run_round c i rnd ids (s, out)).0)
unfolding run_round
run_round-Keeps c i rnd ids s out two created sound = record {
  balanced =
      put_set-Balanced i _ [] s two created (λ layer e. unfold fetched released in refl) sound;
  sets = unfold put_set in refl;
}

Keeps-trans : (s t u : Sets) → Keeps s t → Keeps t u → Keeps s u
Keeps-trans s t u first rest = record { balanced = rest.balanced; sets = rest.sets ∙ first.sets }

stage_here-Keeps :
    (c : PrefillConfig) (overlapped : Bool) (i layer : ℕ) (rnd : List ℕ) (s s' : Sets)
    → i < 2
    → i < s.n_sets
    → Balanced s
    → (if overlapped then ok s else stage_round c i layer rnd s) ≡ ok s'
    → Keeps s s'
stage_here-Keeps c true i layer rnd s s' two created sound h =
    subst (Keeps s) (ok-inj s s' h) record { balanced = sound; sets = refl }
stage_here-Keeps c false i layer rnd s s' two created sound h =
    stage_round-Keeps c i layer rnd s s' two created sound h

abbrev ok_run : Sets × Output → Result PrefillError (Sets × Output)
ok_run = ok

run-inj : (s s' : Sets) (out out' : Output) → ok (s, out) ≡ ok_run (s', out') → s ≡ s'
run-inj s s' out out' h = cc

-- The loop of rounds
pub run_rounds-Keeps :
    (c : PrefillConfig) (overlapped : Bool) (layer : ℕ) (ids : Ids) (r : ℕ) (rounds : List (List ℕ))
    (s : Sets) (out : Output) (s' : Sets) (out' : Output)
    → ((q : ℕ) → set_of_round overlapped q < s.n_sets)
    → Balanced s
    → run_rounds c overlapped layer ids r rounds (s, out) ≡ ok (s', out')
    → Keeps s s'
unfolding run_rounds
run_rounds-Keeps c overlapped layer ids r [] s out s' out' reach sound h =
    subst (Keeps s) (run-inj s s' out out' h) record { balanced = sound; sets = refl }
run_rounds-Keeps c overlapped layer ids r (rnd ∷ rounds) s out s' out' reach sound h =
    let i = set_of_round overlapped r in
    let here = >>=-eq-ok (if overlapped then ok s else stage_round c i layer rnd s) _ h in
    let checked =
      >>=-eq-ok
        (guard (same_list (((here.0).at (set_of_round overlapped r)).staged) rnd) not_staged)
        (λ done. stage_next c overlapped layer r rounds (here.0) >>= λ s2.
          guard (has_vidx (c.v) ids) size_mismatch
          >> run_rounds c overlapped layer ids (suc r) rounds (run_round c i rnd ids (s2, out)))
        (here.2) in
    let ahead =
      >>=-eq-ok (stage_next c overlapped layer r rounds (here.0))
        (λ s2.
          guard (has_vidx (c.v) ids) size_mismatch
          >> run_rounds c overlapped layer ids (suc r) rounds (run_round c i rnd ids (s2, out)))
        (checked.2) in
    let fitted =
      >>=-eq-ok (guard (has_vidx (c.v) ids) size_mismatch)
        (λ done.
          run_rounds c overlapped layer ids (suc r) rounds (run_round c i rnd ids (ahead.0, out)))
        (ahead.2) in
    let first =
      stage_here-Keeps c overlapped i layer rnd s (here.0) (set_of_round_lt overlapped r) (reach r)
        sound (here.1) in
    let second =
      stage_next-Keeps c overlapped layer r rounds (here.0) (ahead.0)
        (λ q. rw (first.sets) (reach q)) (first.balanced) (ahead.1) in
    let to_run = Keeps-trans s (here.0) (ahead.0) first second in
    let run =
      run_round-Keeps c i rnd ids (ahead.0) out (set_of_round_lt overlapped r)
        (rw (to_run.sets) (reach r)) (to_run.balanced) in
    let all = Keeps-trans s (ahead.0) _ to_run run in
    Keeps-trans s _ s' all (
      run_rounds-Keeps c overlapped layer ids (suc r) rounds
        ((run_round c i rnd ids (ahead.0, out)).0) ((run_round c i rnd ids (ahead.0, out)).1) s'
        out' (λ q. rw (all.sets) (reach q)) (all.balanced) (fitted.2))
