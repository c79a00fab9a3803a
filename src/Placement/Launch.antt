-- ===== src/Placement/Launch.antt =====
-- `before_launch` and `after_launch` of `PlacementManager`
-- (tools/dsv41_5090/cpu_tier/placement_manager.py): what they issue on the two CUDA streams around
-- a captured step, and the events and pins that they carry from one step to the next.
pub mod Release
pub mod Steps
use v_llm_moet.Prelude.{
  ℕ, ◌+◌, Bool, true, false, Option, none, some, List, [], ◌∷◌, ◌++◌, map, if◌then◌else◌, length,
  Result, ok, ◌>>=◌,
}
use v_llm_moet.Placement.Store.{Pin, RecordStore}
use v_llm_moet.Placement.Log.{Miss}
use v_llm_moet.Placement.Manager.{Error, Promotion, PlacementManager, plan}

-- A command issued by the host. Events are numbered in the order of their creation.
pub data Op : Type 0 where
  main_step : Op
  main_wait main_record copy_wait copy_record host_sync : ℕ → Op
  copy_unmap copy_promote : ℕ → List Promotion → Op

abbrev pub Plans : Type 0
Plans = List (ℕ × List Promotion)

-- Phase 1: the layers whose promotions have a victim.
unfoldable pub has_victim : List Promotion → Bool
has_victim [] = false
has_victim (x ∷ xs) = elim x.victim [ none ↦ has_victim xs | some v ↦ true ]

unfoldable pub unmap_ops : Plans → List Op
unfolding has_victim
unmap_ops [] = []
unmap_ops ((l, out) ∷ rest) =
    let more = unmap_ops rest in if has_victim out then copy_unmap l out ∷ more else more

-- Phase 2: each layer's records into their slots, then its table entries.
unfoldable pub promote_ops : Plans → List Op
promote_ops [] = []
promote_ops ((l, out) ∷ rest) = copy_promote l out ∷ promote_ops rest

unfoldable pub scheduled : Plans → ℕ
scheduled [] = 0
scheduled ((l, out) ∷ rest) = length out + scheduled rest

-- What `after_launch` issues for plans that are not empty: `d`, `u` and `m` are its events.
unfoldable pub launch_ops : ℕ → ℕ → ℕ → Plans → List Op
unfolding unmap_ops promote_ops
launch_ops d u m plans =
    main_record d
    ∷ copy_wait d
    ∷ (unmap_ops plans ++ (copy_record u ∷ (promote_ops plans ++ copy_record m ∷ [])))

module _ (store : RecordStore) where
  open store use {State, record_release}

  -- The fields of `PlacementManager` that hold events. `issued` is what the host has issued so
  -- far, the latest last, and `next_event` the number of the next event.
  pub record Launcher : Type 0 where
    pub manager : PlacementManager store
    pub unmap_events : List ℕ
    pub map_events_last : List ℕ
    pub map_events_prev : List ℕ
    pub last_promoted : Plans
    pub promote_sync : Bool
    pub next_event : ℕ
    pub issued : List Op

  unfoldable pub release_all : List Pin → State → State
  release_all [] s = s
  release_all (k ∷ ks) s = release_all ks (record_release s k)

  -- The store tail's part of `before_launch`: the records pinned two calls ago are dropped, once
  -- their copies are known to be complete.
  unfoldable pub rotate_pins : PlacementManager store → PlacementManager store
  unfolding release_all
  rotate_pins m =
      if m.has_release
      then record m {
        records = release_all m.acquired_prev m.records;
        acquired_prev = m.acquired_last;
        acquired_last = [];
      }
      else m

  abbrev sync_ops : PlacementManager store → List ℕ → List Op
  sync_ops m events =
      if m.has_release then elim m.acquired_prev [ [] ↦ [] | k ∷ ks ↦ map host_sync events ] else []

  unfoldable pub before_launch : Launcher → Launcher
  unfolding rotate_pins
  before_launch l = record l {
    manager = rotate_pins l.manager;
    unmap_events = [];
    map_events_prev = l.map_events_last;
    map_events_last = [];
    issued =
        l.issued
        ++ (map main_wait (l.map_events_prev ++ l.unmap_events)
            ++ sync_ops l.manager l.map_events_prev);
  }

  -- `after_launch` with the plans made; no plan issues nothing.
  unfoldable pub schedule : Launcher → PlacementManager store → Plans → Launcher × ℕ
  unfolding launch_ops scheduled
  schedule l m [] = (record l { manager = m; last_promoted = [] }, 0)
  schedule l m (p ∷ ps) =
      let d = l.next_event in
      let u = l.next_event + 1 in
      let e = l.next_event + 2 in
      (
        record l {
          manager = m;
          last_promoted = p ∷ ps;
          unmap_events = l.unmap_events ++ (if l.promote_sync then u ∷ e ∷ [] else u ∷ []);
          map_events_last = l.map_events_last ++ e ∷ [];
          next_event = l.next_event + 3;
          issued = l.issued ++ launch_ops d u e (p ∷ ps);
        },
        scheduled (p ∷ ps),
      )

  unfoldable pub after_launch : Launcher → List Miss → Result Error (Launcher × ℕ)
  unfolding schedule plan
  after_launch l misses = do (m, plans) ← plan store l.manager misses; ok (schedule l m plans)

  -- The runner's loop: `before_launch`, the captured step, `after_launch` with the step's misses.
  unfoldable pub run_steps : List (List Miss) → Launcher → Result Error Launcher
  unfolding before_launch after_launch
  run_steps [] l = ok l
  run_steps (misses ∷ rest) l = do
    let ready = before_launch l
    (l', n) ← after_launch (record ready { issued = ready.issued ++ main_step ∷ [] }) misses
    run_steps rest l'
