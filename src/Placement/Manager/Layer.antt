-- ===== src/Placement/Manager/Layer.antt =====
-- One layer of `plan` (tools/dsv41_5090/cpu_tier/placement_manager.py): the device table follows
-- the host mirror, and who may lose a slot.
use v_llm_moet.Prelude.{
  ℕ, ◌<◌, ◌≡◌, refl, true, false, none, some, List, [], ◌∷◌, ◌++◌, arith, ◌==◌, if◌then◌else◌,
  contains, All, All-append, All-map,
}
use v_llm_moet.Placement.Pool.{ResidentPool, set_slot, is_held}
use v_llm_moet.Placement.Pool.Mirror.{IsMirror, set_slot-IsMirror, slot_of_expert-set_slot}
use v_llm_moet.Placement.Manager.{Promotion}
use v_llm_moet.Placement.Manager.Rule.{Rule, IsSafe, new_promotion}
use v_llm_moet.Placement.Device.{unmap_victims, map_experts, launch_table}
use v_llm_moet.Placement.Device.Agree.{promoted, launch_table-append}

-- A promoted expert is one of the missed ones, and holds its slot.
pub record IsPlaced (protect : List ℕ) (p : ResidentPool) (x : Promotion) : Type 0 where
  pub missed : contains protect x.expert ≡ true
  pub mapped : p.slot_of_expert x.expert ≡ some x.slot

contains_of_placed :
    (protect : List ℕ) (p : ResidentPool) (out : List Promotion) (f : ℕ)
    → All (IsPlaced protect p) out
    → contains (promoted out) f ≡ true
    → contains protect f ≡ true
unfolding contains
contains_of_placed protect p [] f h c = cc
contains_of_placed protect p (x ∷ xs) f h c =
    ground (arith, contains_of_placed protect p xs f h.1, h.0.missed)

-- From the pool at the start of the layer's round to the pool and the promotions so far.
pub record Tracks (protect : List ℕ) (start p : ResidentPool) (out : List Promotion) : Type 0 where
  pub mirror : IsMirror p
  pub same_slots : p.n_slots ≡ start.n_slots
  pub same_experts : p.n_experts ≡ start.n_experts
  pub same_evictable : (f : ℕ) → p.evictable f ≡ start.evictable f
  pub agree : (f : ℕ) → launch_table out start.slot_of_expert f ≡ p.slot_of_expert f
  pub placed : All (IsPlaced protect p) out
  pub protected_stay :
      (f s : ℕ)
      → contains protect f ≡ true
      → start.slot_of_expert f ≡ some s
      → p.slot_of_expert f ≡ some s
  pub unrecorded_stay :
      (f s : ℕ)
      → start.evictable f ≡ false
      → start.slot_of_expert f ≡ some s
      → p.slot_of_expert f ≡ some s

pub Tracks-start :
    (protect : List ℕ) (start : ResidentPool) → IsMirror start → Tracks protect start start []
unfolding launch_table unmap_victims map_experts contains
Tracks-start protect start v = record {
  mirror = v;
  same_slots = refl;
  same_experts = refl;
  same_evictable = λ f. refl;
  agree = λ f. refl;
  placed = tt;
  protected_stay = λ f s h e. e;
  unrecorded_stay = λ f s h e. e;
}

module _ (protect : List ℕ) (step_of : ℕ → ℕ) (start p : ResidentPool) (out : List Promotion)
    (e s : ℕ) (ptrs : List ℕ) (t : Tracks protect start p out) (in_range : e < p.n_experts)
    (protected : contains protect e ≡ true) (absent : p.slot_of_expert e ≡ none)
    (safe : IsSafe p protect s) where
  abbrev after : ResidentPool
  after = set_slot p s (some e) (step_of e)

  entry_after :
      (f : ℕ)
      → after.slot_of_expert f
        ≡ (if f == e then some s else if is_held p s f then none else p.slot_of_expert f)
  entry_after f = slot_of_expert-set_slot p s e f (step_of e) t.mirror absent

  -- An expert that keeps its slot: it is not `e`, and does not hold `s`.
  stays :
      (f r : ℕ)
      → p.slot_of_expert f ≡ some r
      → is_held p s f ≡ false
      → after.slot_of_expert f ≡ some r
  stays f r here apart = ground (arith, entry_after f)

  not_held_of_protected : (f : ℕ) → contains protect f ≡ true → is_held p s f ≡ false
  unfolding is_held
  not_held_of_protected f h = ground (arith, safe.old_unprotected f)

  not_held_of_unrecorded : (f : ℕ) → start.evictable f ≡ false → is_held p s f ≡ false
  unfolding is_held
  not_held_of_unrecorded f h = ground (arith, safe.old_evictable f, t.same_evictable f)

  agree_after :
      (f : ℕ)
      → launch_table (out ++ new_promotion step_of p e s ptrs ∷ []) start.slot_of_expert f
        ≡ after.slot_of_expert f
  unfolding is_held
  agree_after f = ground (
    arith,
    entry_after f,
    launch_table-append f out (new_promotion step_of p e s ptrs) start.slot_of_expert,
    t.agree f,
    contains_of_placed protect p out f t.placed,
    safe.old_unprotected f,
  )

  IsPlaced-after : All (IsPlaced protect after) (out ++ new_promotion step_of p e s ptrs ∷ [])
  IsPlaced-after =
      All-append (IsPlaced protect after) out _
        (record { missed = protected; mapped = ground (arith, entry_after e) }, tt)
        (All-map (IsPlaced protect p) (IsPlaced protect after) out
          (λ x h. record {
            missed = h.missed;
            mapped = stays x.expert x.slot h.mapped (not_held_of_protected x.expert h.missed);
          })
          t.placed)

  pub Tracks-fill : Tracks protect start after (out ++ new_promotion step_of p e s ptrs ∷ [])
  unfolding set_slot
  Tracks-fill = record {
    mirror = set_slot-IsMirror p s t.mirror e (step_of e) safe.in_range in_range absent;
    same_slots = t.same_slots;
    same_experts = t.same_experts;
    same_evictable = t.same_evictable;
    agree = agree_after;
    placed = IsPlaced-after;
    protected_stay =
        λ f r h here. stays f r (t.protected_stay f r h here) (not_held_of_protected f h);
    unrecorded_stay =
        λ f r h here. stays f r (t.unrecorded_stay f r h here) (not_held_of_unrecorded f h);
  }

pub Tracks-rule :
    (protect : List ℕ) (step_of : ℕ → ℕ) (start : ResidentPool)
    → Rule protect step_of (Tracks protect start)
Tracks-rule protect step_of start = record { filled = Tracks-fill protect step_of start }
