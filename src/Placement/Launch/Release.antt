-- ===== src/Placement/Launch/Release.antt =====
-- When `before_launch` releases the pins of the store tail
-- (tools/dsv41_5090/cpu_tier/placement_manager.py).
use v_llm_moet.Prelude.{ℕ, ◌+◌, ◌-◌, ◌≡◌, refl, true, List, [], ◌∷◌, arith, ok, >>=-eq-ok}
use v_llm_moet.Placement.Store.{Pin, RecordStore}
use v_llm_moet.Placement.Log.{Miss}
use v_llm_moet.Placement.Manager.{PlacementManager, plan}
use v_llm_moet.Placement.Manager.Pins.{count_pin}
use v_llm_moet.Placement.Manager.Balance.{IsPinned, plan-IsPinned}
use v_llm_moet.Placement.Launch.{
  Plans, Launcher, release_all, rotate_pins, before_launch, schedule, after_launch,
}

module _ (store : RecordStore) where
  open store use {State, pins, record_release, pins-record_release}

  pins-release_all :
      (q : Pin) (ks : List Pin) (s : State)
      → pins (release_all store ks s) q ≡ pins s q - count_pin q ks
  unfolding release_all count_pin
  pins-release_all q [] s = omega arith
  pins-release_all q (k ∷ ks) s =
      omega (arith, pins-release_all q ks (record_release s k), pins-record_release s k q)

  -- The pins that are held are exactly those of the two lists.
  pub record IsExact (m : PlacementManager store) : Type 0 where
    pub tail : m.has_release ≡ true
    pub exact :
        (q : Pin) → pins m.records q ≡ count_pin q m.acquired_last + count_pin q m.acquired_prev

  -- `before_launch` keeps the account: what it drops is what it forgets.
  pub before_launch-IsExact :
      (l : Launcher store) → IsExact l.manager → IsExact (before_launch store l).manager
  unfolding before_launch rotate_pins count_pin
  before_launch-IsExact l h = record {
    tail = ground (arith, h.tail);
    exact = λ q.
        ground
          (arith, h.tail, h.exact q, pins-release_all q l.manager.acquired_prev l.manager.records);
  }

  pub schedule-manager :
      (l : Launcher store) (m : PlacementManager store) (plans : Plans)
      → (schedule store l m plans).0.manager ≡ m
  unfolding schedule
  schedule-manager l m [] = refl
  schedule-manager l m (p ∷ ps) = refl

  -- What `after_launch` pins is what it remembers.
  pub after_launch-IsExact :
      (l : Launcher store) (misses : List Miss) (r : Launcher store × ℕ)
      → IsExact l.manager
      → after_launch store l misses ≡ ok r
      → IsExact r.0.manager
  unfolding after_launch
  after_launch-IsExact l misses r h e =
      let ((m, plans), planned, same) = >>=-eq-ok (plan store l.manager misses) _ e in
      let step : IsPinned store l.manager m =
        plan-IsPinned store l.manager misses (m, plans) h.tail planned in
      let here : r.0.manager ≡ m = ground (arith, schedule-manager l m plans) in
      rw here (record {
        tail = cc (step.same_release, h.tail);
        exact = λ q. ground (arith, step.balanced q, step.same_prev, h.exact q);
      })

  -- If the pins held are exactly those of the two lists, then after a call of `before_launch` a pin is
  -- held as often as the last `after_launch` took it, and after a second call with no promotion between
  -- them nothing is pinned.
  pub before_launch_twice_unpinned :
      (l : Launcher store) (q : Pin)
      → IsExact l.manager
      → (pins (before_launch store l).manager.records q ≡ count_pin q l.manager.acquired_last)
        × (pins (before_launch store (before_launch store l)).manager.records q ≡ 0)
  unfolding before_launch rotate_pins count_pin
  before_launch_twice_unpinned l q h =
      let m = l.manager in
      let first = pins-release_all q m.acquired_prev m.records in
      let second =
        pins-release_all q m.acquired_last (release_all store m.acquired_prev m.records) in
      (ground (arith, h.tail, h.exact q, first), ground (arith, h.tail, h.exact q, first, second))
