-- ===== src/Placement/Manager/Balance.antt =====
-- The pins of the store tail across the whole of `plan`
-- (tools/dsv41_5090/cpu_tier/placement_manager.py).
use v_llm_moet.Prelude.{
  ℕ, ◌≡◌, Bool, true, false, List, [], ◌∷◌, arith, ltb, ok, guard, >>=-eq-ok, distinct_from,
}
use v_llm_moet.Placement.Store.{Pin, RecordStore}
use v_llm_moet.Placement.Log.{Miss, rows_of, miss_step, experts_of}
use v_llm_moet.Placement.Manager.{
  Promotion, PlacementManager, Work, promote_all, note_misses, admit, start_work, finish_work,
  plan_layer, plan_layers, plan,
}
use v_llm_moet.Placement.Manager.Pins.{IsBalanced, promote_all-IsBalanced}

module _ (store : RecordStore) where
  abbrev Manager : Type 0
  Manager = PlacementManager store

  -- From `m` to `m'` every new pin is in `acquired_last`, and the rest of the pins is as it was.
  pub record IsPinned (m m' : Manager) : Type 0 where
    pub balanced :
        (q : Pin) → IsBalanced store q m.records m.acquired_last m'.records m'.acquired_last
    pub same_prev : m'.acquired_prev ≡ m.acquired_prev
    pub same_release : m'.has_release ≡ m.has_release

  IsPinned-trans : {a b c : Manager} → IsPinned a b → IsPinned b c → IsPinned a c
  IsPinned-trans x y = record {
    balanced = λ q. omega (arith, x.balanced q, y.balanced q);
    same_prev = cc (x.same_prev, y.same_prev);
    same_release = cc (x.same_release, y.same_release);
  }

  admit-same :
      (m : Manager) (layer : ℕ) (step_of : ℕ → ℕ) (es kept : List ℕ) (m' : Manager)
      → admit store m layer step_of es ≡ ok (kept, m')
      → (m'.records ≡ m.records)
        × (m'.acquired_last ≡ m.acquired_last)
        × (m'.acquired_prev ≡ m.acquired_prev)
        × (m'.has_release ≡ m.has_release)
  unfolding admit note_misses
  admit-same m layer step_of es kept m' h = ground arith

  loop-IsBalanced :
      (q : Pin) (release : Bool) (n layer : ℕ) (protect : List ℕ) (step_of : ℕ → ℕ) (cap : ℕ)
      (es : List ℕ) (w w' : Work store)
      → release ≡ true
      → promote_all store release n layer protect step_of cap w es ≡ ok w'
      → IsBalanced store q w.work_records w.work_acquired w'.work_records w'.work_acquired
  loop-IsBalanced q true n layer protect step_of cap es w w' on h =
      promote_all-IsBalanced store q n layer protect step_of cap es w h
  loop-IsBalanced q false n layer protect step_of cap es w w' on h = cc

  module _ (m : Manager) (misses : List Miss) (layer : ℕ) (tail : m.has_release ≡ true) where
    plan_layer-IsPinned :
        (r : Manager × List Promotion) → plan_layer store m misses layer ≡ ok r → IsPinned m r.0
    unfolding plan_layer start_work finish_work
    plan_layer-IsPinned r h =
        let rows = rows_of layer misses in
        let experts = distinct_from [] (experts_of rows) in
        let (_, _, h1) = >>=-eq-ok (guard (ltb layer m.n_layers) _) _ h in
        let ((kept, m'), e1, h2) = >>=-eq-ok (admit store m layer (miss_step rows) experts) _ h1 in
        let (w, e2, h3) =
          >>=-eq-ok
            (promote_all store m.has_release m.n_slices layer experts (miss_step rows)
              m.max_per_layer (start_work store m' layer) kept)
            _ h2 in
        let (records, last, prev, release) =
          admit-same m layer (miss_step rows) experts kept m' e1 in
        let bal = λ (q : Pin).
          loop-IsBalanced q m.has_release m.n_slices layer experts (miss_step rows) m.max_per_layer
            kept (start_work store m' layer) w tail e2 in
        record {
          balanced = λ q. ground (arith, bal q);
          same_prev = ground arith;
          same_release = ground arith;
        }

  plan_layers-IsPinned :
      (ls : List ℕ) (m : Manager) (misses : List Miss) (r : Manager × List (ℕ × List Promotion))
      → m.has_release ≡ true
      → plan_layers store m misses ls ≡ ok r
      → IsPinned m r.0
  unfolding plan_layers
  plan_layers-IsPinned [] m misses r tail h = record {
    balanced = λ q. ground arith;
    same_prev = ground arith;
    same_release = ground arith;
  }
  plan_layers-IsPinned (l ∷ ls) m misses r tail h =
      let ((m', out), e1, h1) = >>=-eq-ok (plan_layer store m misses l) _ h in
      let ((m'', rest), e2, h2) = >>=-eq-ok (plan_layers store m' misses ls) _ h1 in
      let first : IsPinned m m' = plan_layer-IsPinned m misses l tail (m', out) e1 in
      let later : IsPinned m' m'' =
        plan_layers-IsPinned ls m' misses (m'', rest) (cc (first.same_release)) e2 in
      let same : m'' ≡ r.0 = ground arith in rw (← same) (IsPinned-trans first later)

  -- If the pins held are those that the two lists remember, they still are after `plan`.
  pub plan-IsPinned :
      (m : Manager) (misses : List Miss) (r : Manager × List (ℕ × List Promotion))
      → m.has_release ≡ true
      → plan store m misses ≡ ok r
      → IsPinned m r.0
  unfolding plan
  plan-IsPinned m misses r = plan_layers-IsPinned _ m misses r
