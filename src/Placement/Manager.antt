-- ===== src/Placement/Manager.antt =====
-- `PlacementManager` (tools/dsv41_5090/cpu_tier/placement_manager.py): the host side of
-- promote-on-miss, `plan`, with the admission window and the pins of the store tail.
pub mod Pins
pub mod Balance
pub mod Layer
pub mod Round
pub mod Plan
pub mod Rule
use v_llm_moet.Prelude.{
  ℕ, zero, suc, ◌+◌, ◌-◌, Bool, true, not, ◌&&◌, Option, none, some, List, [], ◌∷◌, ◌++◌, map, ltb,
  leb, ◌==◌, if◌then◌else◌, length, update, distinct_from, Result, ok, ◌>>=◌, ◌>>◌, guard,
}
use v_llm_moet.Prelude.Int.{ℤ}
use v_llm_moet.Placement.Pool.{ResidentPool, mapped, set_slot, note_use, pick_victim}
use v_llm_moet.Placement.Log.{
  Miss, Use, unique, rows_of, miss_step, experts_of, all_below, admitted, mark,
}
use v_llm_moet.Placement.Store.{Pin, RecordStore}

pub data Error : Type 0 where
  index_error : Error

pub record Promotion : Type 0 where
  pub expert : ℕ
  pub slot : ℕ
  pub victim : Option ℕ
  pub miss_step : ℕ
  pub ptrs : List ℕ

pub record Stats : Type 0 where
  pub promotions : ℕ
  pub skipped_no_victim : ℕ
  pub skipped_already : ℕ
  pub skipped_window : ℕ
  pub skipped_no_record : ℕ

-- `len(out) >= max_per_layer`
abbrev pub is_full : ℕ → List Promotion → Bool
is_full cap out = leb cap (length out)

unfoldable pub all_nonzero : List ℕ → Bool
all_nonzero [] = true
all_nonzero (p ∷ ps) = not (p == 0) && all_nonzero ps

-- `if out: plans[layer] = out`; the layers come in ascending order, each once.
unfoldable pub add_plan : ℕ → List Promotion → List (ℕ × List Promotion) → List (ℕ × List Promotion)
add_plan l [] rest = rest
add_plan l (p ∷ ps) rest = (l, p ∷ ps) ∷ rest

module _ (store : RecordStore) where
  open store use {State, record_ptr, record_release}

  pub record PlacementManager : Type 0 where
    pub pools : ℕ → ResidentPool
    pub n_layers : ℕ
    pub n_slices : ℕ
    pub max_per_layer : ℕ
    pub window : ℕ
    pub last_miss : ℕ → ℕ → ℤ
    pub has_release : Bool
    pub acquired_last : List Pin
    pub acquired_prev : List Pin
    pub stats : Stats
    pub records : State

  -- What the loop of `plan` over one layer's experts changes.
  pub record Work : Type 0 where
    pub pool : ResidentPool
    pub work_stats : Stats
    pub work_acquired : List Pin
    pub work_records : State
    pub out : List Promotion

  abbrev pub slice_pin : ℕ → ℕ → ℕ → Pin
  slice_pin layer e v = record { layer = layer; expert = e; slice = v }

  -- The pointers of slices v .. v + n - 1, in order.
  unfoldable pub read_ptrs : ℕ → ℕ → ℕ → ℕ → State → List ℕ × State
  read_ptrs layer e v zero s = ([], s)
  read_ptrs layer e v (suc n) s =
      let (p, s') = record_ptr s (slice_pin layer e v) in
      let (ps, s'') = read_ptrs layer e (v + 1) n s' in (p ∷ ps, s'')

  -- `for v, p in enumerate(ptrs): if p: self._release(layer, e, v)`, from slice v on.
  unfoldable pub release_taken : ℕ → ℕ → ℕ → List ℕ → State → State
  release_taken layer e v [] s = s
  release_taken layer e v (p ∷ ps) s =
      release_taken layer e (v + 1) ps
        (if p == 0 then s else record_release s (slice_pin layer e v))

  unfoldable pub slice_pins : ℕ → ℕ → ℕ → List ℕ → List Pin
  slice_pins layer e v [] = []
  slice_pins layer e v (p ∷ ps) = slice_pin layer e v ∷ slice_pins layer e (v + 1) ps

  -- `_acquire`: the pointers, the pins to remember, and the store after it.
  unfoldable pub acquire : Bool → ℕ → ℕ → ℕ → State → List ℕ × List Pin × State
  unfolding read_ptrs release_taken slice_pins all_nonzero
  acquire has_release n_slices layer e s =
      let (ptrs, s') = read_ptrs layer e 0 n_slices s in
      if all_nonzero ptrs
      then (ptrs, (if has_release then slice_pins layer e 0 ptrs else []), s')
      else ([], [], (if has_release then release_taken layer e 0 ptrs s' else s'))

  module _ (has_release : Bool) (n_slices layer : ℕ) (protect : List ℕ) (step_of : ℕ → ℕ) where
    -- The last part of the loop body: slot `s` was chosen for `e`, and `_acquire` has answered.
    unfoldable pub fill_with : Work → ℕ → ℕ → List ℕ × List Pin × State → Work
    unfolding set_slot
    fill_with w e s ([], pins, records) = record w {
      work_stats = record w.work_stats { skipped_no_record = w.work_stats.skipped_no_record + 1 };
      work_acquired = w.work_acquired ++ pins;
      work_records = records;
    }
    fill_with w e s (p ∷ ps, pins, records) = record w {
      pool = set_slot w.pool s (some e) (step_of e);
      work_stats = record w.work_stats { promotions = w.work_stats.promotions + 1 };
      work_acquired = w.work_acquired ++ pins;
      work_records = records;
      out =
          w.out
          ++ record {
            expert = e;
            slot = s;
            victim = w.pool.expert_of_slot s;
            miss_step = step_of e;
            ptrs = p ∷ ps;
          }
            ∷ [];
    }

    -- The loop body for an expert that has no slot.
    unfoldable pub promote : Work → ℕ → Option ℕ → Work
    unfolding fill_with acquire
    promote w e none = record w {
      work_stats = record w.work_stats { skipped_no_victim = w.work_stats.skipped_no_victim + 1 };
    }
    promote w e (some s) = fill_with w e s (acquire has_release n_slices layer e w.work_records)

    -- The loop body: an expert that already has a slot is skipped.
    unfoldable pub visit : Work → ℕ → Option ℕ → Work
    unfolding promote pick_victim
    visit w e (some s) = record w {
      work_stats = record w.work_stats { skipped_already = w.work_stats.skipped_already + 1 };
    }
    visit w e none = promote w e (pick_victim w.pool protect (step_of e, 1))

    -- `for e in experts`, which stops at the cap; an expert out of range raises at `mapped`.
    unfoldable pub promote_all : ℕ → Work → List ℕ → Result Error Work
    unfolding visit mapped
    promote_all cap w [] = ok w
    promote_all cap w (e ∷ es) =
        let next =
          guard (ltb e w.pool.n_experts) index_error
          >> promote_all cap (visit w e (mapped w.pool e)) es in
        if is_full cap w.out then ok w else next

  abbrev pub Manager : Type 0
  Manager = PlacementManager

  -- `lm[ex] = steps`, and the count of the experts that the window turns away.
  unfoldable pub note_misses : Manager → ℕ → (ℕ → ℕ) → List ℕ → List ℕ → Manager
  unfolding mark
  note_misses m layer step_of experts kept = record m {
    last_miss = λ l. if l == layer then mark (m.last_miss layer) step_of experts else m.last_miss l;
    stats = record m.stats {
      skipped_window = m.stats.skipped_window + (length experts - length kept);
    };
  }

  -- The admission window: the experts that go on, and the state with the misses noted.
  unfoldable pub admit : Manager → ℕ → (ℕ → ℕ) → List ℕ → Result Error (List ℕ × Manager)
  unfolding admitted all_below note_misses
  admit m layer step_of experts =
      let kept = admitted (m.last_miss layer) m.window step_of experts in
      if ltb 0 m.window
      then guard (all_below (m.pools layer).n_experts experts) index_error
        >> ok (kept, note_misses m layer step_of experts kept)
      else ok (experts, m)

  unfoldable pub start_work : Manager → ℕ → Work
  start_work m layer = record {
    pool = m.pools layer;
    work_stats = m.stats;
    work_acquired = m.acquired_last;
    work_records = m.records;
    out = [];
  }

  unfoldable pub finish_work : Manager → ℕ → Work → Manager
  finish_work m layer w = record m {
    pools = update m.pools layer w.pool;
    stats = w.work_stats;
    acquired_last = w.work_acquired;
    records = w.work_records;
  }

  -- One round of `plan`'s loop over the layers: the layer's promotions.
  unfoldable pub plan_layer : Manager → List Miss → ℕ → Result Error (Manager × List Promotion)
  unfolding admit promote_all start_work finish_work rows_of miss_step distinct_from
  plan_layer m misses layer = do
    let rows = rows_of layer misses
    let experts = distinct_from [] (experts_of rows)
    guard (ltb layer m.n_layers) index_error
    (kept, m') ← admit m layer (miss_step rows) experts
    w ←
        promote_all m.has_release m.n_slices layer experts (miss_step rows) m.max_per_layer
          (start_work m' layer) kept
    ok (finish_work m' layer w, w.out)

  -- The layers in ascending order; only those with a promotion enter the plan.
  unfoldable pub plan_layers :
      Manager → List Miss → List ℕ → Result Error (Manager × List (ℕ × List Promotion))
  unfolding plan_layer add_plan
  plan_layers m misses [] = ok (m, [])
  plan_layers m misses (l ∷ ls) = do
    (m', out) ← plan_layer m misses l
    (m'', rest) ← plan_layers m' misses ls
    ok (m'', add_plan l out rest)

  unfoldable pub plan : Manager → List Miss → Result Error (Manager × List (ℕ × List Promotion))
  unfolding plan_layers unique
  plan m misses = plan_layers m misses (unique (map (λ row. row.layer) misses))

  -- `note_uses` over the use log.
  unfoldable pub note_uses : Manager → List Use → Result Error Manager
  unfolding note_use
  note_uses m [] = ok m
  note_uses m (u ∷ us) = do
    guard (ltb u.layer m.n_layers) index_error
    note_uses
        (record m { pools = update m.pools u.layer (note_use (m.pools u.layer) u.ids u.step) }) us
