-- ===== src/Placement/Launch/Steps.antt =====
-- The runner's loop around the captured steps, for any number of steps
-- (tools/dsv41_5090/cpu_tier/placement_manager.py).
use v_llm_moet.Prelude.{ℕ, ◌<◌, ◌≡◌, refl, ◌∙◌, List, [], ◌∷◌, ◌++◌, arith, All, All-map, ok}
use v_llm_moet.Placement.Store.{RecordStore}
use v_llm_moet.Placement.Log.{Miss}
use v_llm_moet.Placement.Manager.{PlacementManager}
use v_llm_moet.Placement.Manager.Round.{IsLogged}
use v_llm_moet.Placement.Manager.Plan.{IsSound, plan-PlanDone}
use v_llm_moet.Placement.Launch.{
  Launcher, main_step, rotate_pins, before_launch, schedule, after_launch, run_steps,
}
use v_llm_moet.Placement.Launch.Release.{
  IsExact, before_launch-IsExact, schedule-manager, after_launch-IsExact,
}

-- A row of the miss log names one of the layers, and one of the experts, of the model.
pub record IsRow (n_layers n_experts : ℕ) (row : Miss) : Type 0 where
  pub layer_range : row.layer < n_layers
  pub expert_range : row.expert < n_experts

module _ (store : RecordStore) (n_layers n_experts : ℕ) where
  -- Between two steps: sound tables of the model's sizes, and every pin accounted for.
  pub record IsReady (m : PlacementManager store) : Type 0 where
    pub sound : IsSound store m
    pub exact : IsExact store m
    pub same_layers : m.n_layers ≡ n_layers
    pub same_experts : (k : ℕ) → (m.pools k).n_experts ≡ n_experts

  rotate-IsReady :
      (l : Launcher store) → IsReady l.manager → IsReady (before_launch store l).manager
  unfolding before_launch rotate_pins
  rotate-IsReady l h = record {
    sound = record { mirrors = λ k. rw h.exact.tail (h.sound.mirrors k) };
    exact = before_launch-IsExact store l h.exact;
    same_layers = ground (arith, h.same_layers);
    same_experts = λ k. ground (arith, h.same_experts k);
  }

  rows-IsLogged :
      (m : PlacementManager store) (misses : List Miss)
      → IsReady m
      → All (IsRow n_layers n_experts) misses
      → All (IsLogged m.n_layers m.pools) misses
  rows-IsLogged m misses h = All-map _ _ misses (λ row r. record {
    layer_range = omega (arith, h.same_layers, r.layer_range);
    expert_range = omega (arith, h.same_experts row.layer, r.expert_range);
  })

  after_launch-IsReady :
      (l : Launcher store) (misses : List Miss)
      → IsReady l.manager
      → All (IsRow n_layers n_experts) misses
      → (r : Launcher store × ℕ) × (after_launch store l misses ≡ ok r) × IsReady r.0.manager
  unfolding after_launch
  after_launch-IsReady l misses h rows =
      let (m, plans, planned, done) =
        plan-PlanDone store l.manager misses h.sound (rows-IsLogged l.manager misses h rows) in
      let r = schedule store l m plans in
      let runs : after_launch store l misses ≡ ok r = rw planned in
      let here : r.0.manager ≡ m = schedule-manager store l m plans in
      (
        r,
        runs,
        record {
          sound = record { mirrors = λ k. rw here (done.tracks k).mirror };
          exact = after_launch-IsExact store l misses r h.exact runs;
          same_layers = rw here (done.layers ∙ h.same_layers);
          same_experts = λ k. rw here ((done.tracks k).same_experts ∙ h.same_experts k);
        },
      )

  -- From a ready manager the loop runs through any number of steps whose miss logs name layers and
  -- experts of the model, with no exception; at its end the tables of every layer mirror one
  -- another, and the pins that the store holds are exactly those of the manager's two lists.
  pub run_steps-IsReady :
      (logs : List (List Miss)) (l : Launcher store)
      → IsReady l.manager
      → All (All (IsRow n_layers n_experts)) logs
      → (l' : Launcher store) × (run_steps store logs l ≡ ok l') × IsReady l'.manager
  unfolding run_steps
  run_steps-IsReady [] l h rows = (l, refl, h)
  run_steps-IsReady (misses ∷ logs) l h rows =
      let ready = before_launch store l in
      let launched : Launcher store = record ready { issued = ready.issued ++ main_step ∷ [] } in
      let (r, runs, next) = after_launch-IsReady launched misses (rotate-IsReady l h) rows.0 in
      let (l', on, done) = run_steps-IsReady logs r.0 next rows.1 in (l', rw (runs, on), done)
