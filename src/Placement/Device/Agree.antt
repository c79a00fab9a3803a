-- ===== src/Placement/Device/Agree.antt =====
-- The device table that `after_launch` (tools/dsv41_5090/cpu_tier/placement_manager.py) writes is
-- the host mirror that `plan` has updated.
use v_llm_moet.Prelude.{
  ℕ, ◌≡◌, refl, Bool, true, false, Option, none, some, List, [], ◌∷◌, ◌++◌, map, arith, ◌==◌,
  if◌then◌else◌, update, contains,
}
use v_llm_moet.Placement.Manager.{Promotion}
use v_llm_moet.Placement.Device.{unmap, unmap_victims, map_experts, launch_table}

abbrev pub promoted : List Promotion → List ℕ
promoted = map (λ x. x.expert)

abbrev is_victim : Promotion → ℕ → Bool
is_victim x f = elim x.victim [ none ↦ false | some v ↦ v == f ]

module _ (f : ℕ) where
  unmap_victims-append :
      (xs : List Promotion) (x : Promotion) (table : ℕ → Option ℕ)
      → unmap_victims (xs ++ x ∷ []) table f
        ≡ (if is_victim x f then none else unmap_victims xs table f)
  unfolding unmap_victims unmap
  unmap_victims-append [] x table = ground arith
  unmap_victims-append (y ∷ ys) x table = unmap_victims-append ys x (unmap y.victim table)

  map_experts-append :
      (xs : List Promotion) (x : Promotion) (table : ℕ → Option ℕ)
      → map_experts (xs ++ x ∷ []) table f
        ≡ (if x.expert == f then some x.slot else map_experts xs table f)
  unfolding map_experts
  map_experts-append [] x table = refl
  map_experts-append (y ∷ ys) x table =
      map_experts-append ys x (update table y.expert (some y.slot))

  -- Only the entry at `f` matters to the result at `f`.
  map_experts_congr :
      (xs : List Promotion) (s t : ℕ → Option ℕ)
      → s f ≡ t f
      → map_experts xs s f ≡ map_experts xs t f
  unfolding map_experts
  map_experts_congr [] s t h = h
  map_experts_congr (x ∷ xs) s t h =
      map_experts_congr xs (update s x.expert (some x.slot)) (update t x.expert (some x.slot))
        (ground arith)

  map_experts_other :
      (xs : List Promotion) (t : ℕ → Option ℕ)
      → contains (promoted xs) f ≡ false
      → map_experts xs t f ≡ t f
  unfolding map_experts contains
  map_experts_other [] t h = refl
  map_experts_other (x ∷ xs) t h =
      ground (arith, map_experts_other xs (update t x.expert (some x.slot)))

  -- One more promotion, whose victim is none of the experts that were promoted before it.
  pub launch_table-append :
      (xs : List Promotion) (x : Promotion) (table : ℕ → Option ℕ)
      → (is_victim x f ≡ true → contains (promoted xs) f ≡ false)
      → launch_table (xs ++ x ∷ []) table f ≡ (
          if x.expert == f
          then some x.slot
          else if is_victim x f
          then none
          else launch_table xs table f)
  unfolding launch_table
  launch_table-append xs x table fresh =
      let after = unmap_victims (xs ++ x ∷ []) table in
      ground (
        arith,
        map_experts-append xs x after,
        unmap_victims-append xs x table,
        map_experts_congr xs after (unmap_victims xs table),
        map_experts_other xs after,
        fresh,
      )
