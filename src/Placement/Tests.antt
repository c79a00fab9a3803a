-- ===== src/Placement/Tests.antt =====
-- The placement on small inputs: a store that counts pins and lacks one record, and two layers.
use v_llm_moet.Prelude.{
  ℕ, ◌+◌, ◌-◌, ◌^◌, ◌≡◌, ◌↔◌, ◌⊎◌, ◌<◌, refl, min, Bool, true, false, none, some, List, [], ◌∷◌,
  arith, ◌==◌, if◌then◌else◌, All, ok, contains,
}
use v_llm_moet.Prelude.Int.{pos, negsuc, ltb_ℤ, ◌+ℤ◌, ◌*ℤ◌}
use v_llm_moet.Placement.Pool.{
  ResidentPool, new_pool, set_slot, key_uses, packed_key, int64, slot_key, pick_victim,
}
use v_llm_moet.Placement.Pool.Mirror.{IsMirror, new_pool-IsMirror, set_slot-IsMirror}
use v_llm_moet.Placement.Pool.Victim.{IsChoice, pick_victim-IsChoice, packed_key_lexicographic}
use v_llm_moet.Placement.Store.{Pin, pin_eq, RecordStore}
use v_llm_moet.Placement.Log.{Miss}
use v_llm_moet.Placement.Manager.{Promotion, PlacementManager, plan}
use v_llm_moet.Placement.Manager.Pins.{count_pin}
use v_llm_moet.Placement.Manager.Round.{IsLogged}
use v_llm_moet.Placement.Manager.Plan.{IsSound, PlanDone, plan-PlanDone}
use v_llm_moet.Placement.Launch.{Launcher, before_launch, after_launch, run_steps}
use v_llm_moet.Placement.Launch.Steps.{IsReady, run_steps-IsReady}
use v_llm_moet.Placement.Launch.Release.{before_launch_twice_unpinned, after_launch-IsExact}
use v_llm_moet.Placement.Initial.{Filled, fresh_pool, fill_initial, IsFilled, fill_initial-IsFilled}

-- The store lacks the record of expert 6.
abbrev pointer : Pin → ℕ
pointer k = if k.expert == 6 then 0 else k.expert + 100

abbrev add_pin : (Pin → ℕ) → Pin → Pin → ℕ
add_pin s k q = if pointer k == 0 then s q else s q + (if pin_eq k q then 1 else 0)

pins_after_read :
    (s : Pin → ℕ) (k q : Pin)
    → add_pin s k q ≡ (if pointer k == 0 then s q else s q + (if pin_eq k q then 1 else 0))
pins_after_read s k q = refl

pins_after_release :
    (s : Pin → ℕ) (k q : Pin)
    → s q - (if pin_eq k q then 1 else 0) ≡ s q - (if pin_eq k q then 1 else 0)
pins_after_release s k q = refl

abbrev counting : RecordStore
counting = record {
  State = Pin → ℕ;
  record_ptr = λ s k. (pointer k, add_pin s k);
  record_release = λ s k q. s q - (if pin_eq k q then 1 else 0);
  pins = λ s q. s q;
  pins-record_ptr = pins_after_read;
  pins-record_release = pins_after_release;
}

-- Eight experts, two slots; the second pool holds expert 3 in slot 0 and expert 4 in slot 1.
abbrev empty_pool : ResidentPool
empty_pool = new_pool 8 2 2 none

abbrev full_pool : ResidentPool
full_pool = set_slot (set_slot empty_pool 0 (some 3) 1) 1 (some 4) 2

full_pool-IsMirror : IsMirror full_pool
unfolding new_pool set_slot
full_pool-IsMirror =
    set_slot-IsMirror (set_slot empty_pool 0 (some 3) 1) 1
      (set_slot-IsMirror empty_pool 0 (new_pool-IsMirror 8 2 2 none) 3 1 (omega arith) (omega arith)
        refl)
      4 2 (omega arith) (omega arith) refl

abbrev manager : PlacementManager counting
manager = record {
  pools = λ l. if l == 0 then empty_pool else full_pool;
  n_layers = 2;
  n_slices = 2;
  max_per_layer = 4;
  window = 0;
  last_miss = λ l e. negsuc 999999999;
  has_release = true;
  acquired_last = [];
  acquired_prev = [];
  stats = record {
    promotions = 0;
    skipped_no_victim = 0;
    skipped_already = 0;
    skipped_window = 0;
    skipped_no_record = 0;
  };
  records = λ q. 0;
}

abbrev miss : ℕ → ℕ → ℕ → Miss
miss step layer expert = record { step = step; layer = layer; expert = expert }

-- Expert 6 has no record, and expert 3 is resident in layer 1.
abbrev misses : List Miss
misses = miss 5 1 7 ∷ miss 5 0 1 ∷ miss 5 1 3 ∷ miss 5 0 6 ∷ miss 5 0 2 ∷ []

manager-IsSound : IsSound counting manager
manager-IsSound = record { mirrors = λ k. mirror_at (k == 0) }
  where
    mirror_at : (b : Bool) → IsMirror (if b then empty_pool else full_pool)
    mirror_at true = new_pool-IsMirror 8 2 2 none
    mirror_at false = full_pool-IsMirror

misses-IsLogged : All (IsLogged manager.n_layers manager.pools) misses
unfolding new_pool set_slot
misses-IsLogged = omega arith

plan-PlanDone_example :
    (m' : PlacementManager counting) × (plans : List (ℕ × List Promotion)) × (plan counting manager
        misses
      ≡ ok (m', plans))
    × PlanDone counting manager misses m' plans
plan-PlanDone_example = plan-PlanDone counting manager misses manager-IsSound misses-IsLogged

pick_victim-IsChoice_example :
    IsChoice full_pool (3 ∷ []) (5, 1) (pick_victim full_pool (3 ∷ []) (5, 1))
pick_victim-IsChoice_example = pick_victim-IsChoice full_pool (3 ∷ []) (5, 1)

victim_is_slot_one : pick_victim full_pool (3 ∷ []) (5, 1) ≡ some 1
unfolding new_pool set_slot pick_victim
victim_is_slot_one = refl

packed_key_lexicographic_example : (ltb_ℤ (slot_key full_pool 1) (packed_key (pos 2) 9) ≡ true) ↔ (
    (2 < 2) ⊎ ◌≡◌ {A = ℕ} 2 2 × (min (full_pool.use_count 1) (key_uses - 1) < min 9 (key_uses - 1)))
unfolding new_pool set_slot
packed_key_lexicographic_example = packed_key_lexicographic full_pool 1 2 2 9 refl (omega arith)

-- The key wraps around at the step 2^43.
int64_wraps : int64 (packed_key (pos (2 ^ 43)) 0) ≡ negsuc (2 ^ 63 - 1)
unfolding int64 packed_key ◌+ℤ◌ ◌*ℤ◌
int64_wraps = refl

launcher : Launcher counting
launcher = record {
  manager = manager;
  unmap_events = [];
  map_events_last = [];
  map_events_prev = [];
  last_promoted = [];
  promote_sync = false;
  next_event = 0;
  issued = [];
}

launcher-IsReady : IsReady counting 2 8 launcher.manager
unfolding launcher new_pool set_slot count_pin
launcher-IsReady = record {
  sound = manager-IsSound;
  exact = record { tail = refl; exact = λ q. refl };
  same_layers = refl;
  same_experts = λ k. same_at (k == 0);
}
  where
    same_at : (b : Bool) → (if b then empty_pool else full_pool).n_experts ≡ 8
    same_at true = refl
    same_at false = refl

-- Three steps; the last two have no miss, so the pins of the first are released.
run_steps-IsReady_example :
    (l : Launcher counting) × (run_steps counting (misses ∷ [] ∷ [] ∷ []) launcher ≡ ok l)
    × IsReady counting 2 8 l.manager
unfolding launcher
run_steps-IsReady_example =
    run_steps-IsReady counting 2 8 (misses ∷ [] ∷ [] ∷ []) launcher launcher-IsReady (omega arith)

-- The launcher after a step whose misses promote experts: their records are pinned.
promoted : (r : Launcher counting × ℕ) × (after_launch counting launcher misses ≡ ok r)
unfolding launcher after_launch new_pool set_slot
promoted = (_, refl)

abbrev promoted_record : Pin
promoted_record = record { layer = 0; expert = 1; slice = 0 }

promoted_pinned : count_pin promoted_record promoted.0.0.manager.acquired_last ≡ 1
unfolding promoted launcher after_launch new_pool set_slot count_pin
promoted_pinned = refl

before_launch_twice_unpinned_example :
    (counting.pins (before_launch counting promoted.0.0).manager.records promoted_record
      ≡ count_pin promoted_record promoted.0.0.manager.acquired_last)
    × (counting.pins
          (before_launch counting (before_launch counting promoted.0.0)).manager.records
          promoted_record
        ≡ 0)
unfolding launcher
before_launch_twice_unpinned_example =
    before_launch_twice_unpinned counting promoted.0.0 promoted_record
      (after_launch-IsExact counting launcher misses promoted.0 launcher-IsReady.exact promoted.1)

fill_initial-IsFilled_example :
    (f' : Filled) × (fill_initial (5 ∷ 2 ∷ 7 ∷ []) (fresh_pool 8 4 1 none) ≡ ok f')
    × IsFilled 0 (5 ∷ 2 ∷ 7 ∷ []) (fresh_pool 8 4 1 none) f'
unfolding contains
fill_initial-IsFilled_example =
    fill_initial-IsFilled 8 4 1 none (5 ∷ 2 ∷ 7 ∷ []) (refl, (refl, (refl, tt))) (omega arith)
      (omega arith)
