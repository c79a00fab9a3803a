-- ===== src/Prefill/Pins.antt =====
-- The pins of the prefill path: each fetch is released, by the next round of its set or before a step.
use v_llm_moet.Prelude.{
  ℕ, zero, suc, ◌+◌, ◌<◌, ◌==◌, if◌then◌else◌, Bool-cases, List, [], ◌∷◌, ◌++◌, count, Option, none,
  some, Result, ok, guard, >>=-eq-ok, ◌≡◌, inl, inr, refl, arith,
}
use v_llm_moet.Prefill.Rounds.{
  PrefillError, PrefillConfig, Scratch, Sets, StoreCall, fetch, release, put_set, release_last,
  round_calls,
}

-- The pins of an expert in a layer that some experts of a layer make
abbrev pub pins_in : ℕ → ℕ → ℕ → List ℕ → ℕ
pins_in layer e layer' experts = if layer' == layer then count e experts else 0

-- The pins that the calls make, and those that they give back
unfoldable pub fetched : ℕ → ℕ → List StoreCall → ℕ
fetched layer e [] = 0
fetched layer e (fetch i layer' experts ∷ calls) =
    pins_in layer e layer' experts + fetched layer e calls
fetched layer e (release layer' experts ∷ calls) = fetched layer e calls

unfoldable pub released : ℕ → ℕ → List StoreCall → ℕ
released layer e [] = 0
released layer e (fetch i layer' experts ∷ calls) = released layer e calls
released layer e (release layer' experts ∷ calls) =
    pins_in layer e layer' experts + released layer e calls

-- The pins of a set's last round
unfoldable pub held : ℕ → ℕ → Option (ℕ × List ℕ) → ℕ
held layer e none = 0
held layer e (some (layer', experts)) = pins_in layer e layer' experts

fetched-append :
    (layer e : ℕ) (calls more : List StoreCall)
    → fetched layer e (calls ++ more) ≡ fetched layer e calls + fetched layer e more
unfolding fetched
fetched-append layer e [] more = omega arith
fetched-append layer e (fetch i layer' experts ∷ calls) more =
    omega (arith, fetched-append layer e calls more)
fetched-append layer e (release layer' experts ∷ calls) more = fetched-append layer e calls more

released-append :
    (layer e : ℕ) (calls more : List StoreCall)
    → released layer e (calls ++ more) ≡ released layer e calls + released layer e more
unfolding released
released-append layer e [] more = omega arith
released-append layer e (fetch i layer' experts ∷ calls) more = released-append layer e calls more
released-append layer e (release layer' experts ∷ calls) more =
    omega (arith, released-append layer e calls more)

-- What is pinned is what the two sets hold, and a set that is not created holds nothing.
pub record Balanced (s : Sets) : Type 0 where
  pub balance :
      (layer e : ℕ)
      → fetched layer e (s.calls)
        ≡ released layer e (s.calls)
          + held layer e ((s.at 0).tail_last)
          + held layer e ((s.at 1).tail_last)
  pub first : s.n_sets ≡ 0 → (s.at 0).tail_last ≡ none
  pub second : s.n_sets < 2 → (s.at 1).tail_last ≡ none

-- What a step of a set does to the pins: its calls release what it held and fetch what it holds then.
abbrev pub Moves : Option (ℕ × List ℕ) → List StoreCall → Option (ℕ × List ℕ) → Type 0
Moves before calls after =
    (layer e : ℕ)
    → fetched layer e calls + held layer e before ≡ released layer e calls + held layer e after

pub put_set-Balanced :
    (i : ℕ) (sc : Scratch) (calls : List StoreCall) (s : Sets)
    → i < 2
    → i < s.n_sets
    → Moves ((s.at i).tail_last) calls (sc.tail_last)
    → Balanced s
    → Balanced (put_set i sc calls s)
unfolding put_set
put_set-Balanced zero sc calls s two created moves sound = record {
  balance = λ layer e. omega (
    arith,
    sound.balance layer e,
    moves layer e,
    fetched-append layer e (s.calls) calls,
    released-append layer e (s.calls) calls,
  );
  first = λ none_created. absurd (omega arith);
  second = λ one. sound.second one;
}
put_set-Balanced (suc zero) sc calls s two created moves sound = record {
  balance = λ layer e. omega (
    arith,
    sound.balance layer e,
    moves layer e,
    fetched-append layer e (s.calls) calls,
    released-append layer e (s.calls) calls,
  );
  first = λ none_created. absurd (omega arith);
  second = λ one. absurd (omega arith);
}
put_set-Balanced (suc (suc i)) sc calls s two created moves sound = absurd (omega arith)

abbrev pub ok_sets : Sets → Result PrefillError Sets
ok_sets = ok

pub ok-inj : (s s' : Sets) → ok s ≡ ok_sets s' → s ≡ s'
ok-inj s s' h = cc

pair-inj :
    (run : Result PrefillError (List StoreCall × Option (ℕ × List ℕ)))
    (calls calls' : List StoreCall) (last last' : Option (ℕ × List ℕ))
    → run ≡ ok (calls, last)
    → run ≡ ok (calls', last')
    → (calls ≡ calls') × (last ≡ last')
pair-inj run calls calls' last last' h h' = (cc, cc)

-- A round's calls in a store with a tail
pub tail-Moves :
    (i layer : ℕ) (rnd : List ℕ) (before : Option (ℕ × List ℕ))
    → Moves before (release_last before ++ fetch i layer rnd ∷ []) (some (layer, rnd))
unfolding release_last fetched released held
tail-Moves i layer rnd none layer' e = omega arith
tail-Moves i layer rnd (some (old, experts)) layer' e = omega arith

pub round_calls-Moves :
    (c : PrefillConfig) (i layer : ℕ) (rnd : List ℕ) (sc : Scratch) (calls : List StoreCall)
    (last : Option (ℕ × List ℕ))
    → round_calls c i layer rnd sc ≡ ok (calls, last)
    → Moves (sc.tail_last) calls last
unfolding round_calls
round_calls-Moves c i layer rnd sc calls last h = elim (Bool-cases (c.tail)) [
  | inl tail ↦
      let step = >>=-eq-ok (guard (c.fetch_works i rnd) _) _ (rw tail at h) in
      let same =
        pair-inj (ok (release_last (sc.tail_last) ++ fetch i layer rnd ∷ [], some (layer, rnd))) _
          calls _ last refl (step.2) in
      rw (← same.0, ← same.1) (tail-Moves i layer rnd (sc.tail_last))
  | inr no_tail ↦
      let same = pair-inj (ok ([], sc.tail_last)) _ calls _ last refl (rw no_tail at h) in
      rw (← same.0, ← same.1) (λ layer' e. unfold fetched released in refl)
]
