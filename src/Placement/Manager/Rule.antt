-- ===== src/Placement/Manager/Rule.antt =====
-- A loop rule for `plan` (tools/dsv41_5090/cpu_tier/placement_manager.py), and what one round of
-- its loop over a layer's experts keeps.
use v_llm_moet.Prelude.{
  ℕ, ◌<◌, ◌≡◌, refl, inl, inr, Bool, true, false, Option, none, some, List, [], ◌∷◌, ◌++◌, arith,
  lt→ltb, contains, ok, Bool-cases, All,
}
use v_llm_moet.Placement.Pool.{ResidentPool, mapped, is_empty, may_evict, pick_victim, set_slot}
use v_llm_moet.Placement.Pool.Victim.{pick_victim-IsChoice, IsChoice}
use v_llm_moet.Placement.Store.{Pin, RecordStore}
use v_llm_moet.Placement.Manager.{Promotion, Work, fill_with, promote, visit, promote_all, is_full}

-- What a victim for `e` is: a slot in range, and if an expert holds it, one that has a record and
-- is not protected.
pub record IsSafe (p : ResidentPool) (protect : List ℕ) (s : ℕ) : Type 0 where
  pub in_range : s < p.n_slots
  pub old_evictable : (f : ℕ) → p.expert_of_slot s ≡ some f → p.evictable f ≡ true
  pub old_unprotected : (f : ℕ) → p.expert_of_slot s ≡ some f → contains protect f ≡ false

IsSafe-of_choice :
    (p : ResidentPool) (protect : List ℕ) (cand : ℕ × ℕ) (o : Option ℕ) (s : ℕ)
    → IsChoice p protect cand o
    → o ≡ some s
    → IsSafe p protect s
unfolding is_empty may_evict
IsSafe-of_choice p protect cand none s c e = cc
IsSafe-of_choice p protect cand (some r) s (inl c) e = record {
  in_range = ground (arith, c.in_range);
  old_evictable = λ f h. ground (arith, c.empty);
  old_unprotected = λ f h. ground (arith, c.empty);
}
IsSafe-of_choice p protect cand (some r) s (inr c) e = record {
  in_range = ground (arith, c.in_range);
  old_evictable = λ f h. ground (arith, c.allowed);
  old_unprotected = λ f h. ground (arith, c.allowed);
}

pub pick_victim-IsSafe :
    (p : ResidentPool) (protect : List ℕ) (cand : ℕ × ℕ) (s : ℕ)
    → pick_victim p protect cand ≡ some s
    → IsSafe p protect s
pick_victim-IsSafe p protect cand s =
    IsSafe-of_choice p protect cand (pick_victim p protect cand) s
      (pick_victim-IsChoice p protect cand)

abbrev pub new_promotion : (ℕ → ℕ) → ResidentPool → ℕ → ℕ → List ℕ → Promotion
new_promotion step_of p e s ptrs = record {
  expert = e;
  slot = s;
  victim = p.expert_of_slot s;
  miss_step = step_of e;
  ptrs = ptrs;
}

-- What to show of an invariant on the pool and the promotions so far: a fill keeps it.
pub record Rule {ℓ} (protect : List ℕ) (step_of : ℕ → ℕ)
    (P : ResidentPool → List Promotion → Type ℓ) : Type ℓ where
  pub filled :
      (p : ResidentPool) (out : List Promotion) (e s : ℕ) (ptrs : List ℕ)
      → P p out
      → e < p.n_experts
      → contains protect e ≡ true
      → p.slot_of_expert e ≡ none
      → IsSafe p protect s
      → P (set_slot p s (some e) (step_of e)) (out ++ new_promotion step_of p e s ptrs ∷ [])

-- The experts that a loop visits are in range, and protected.
pub record IsDue (n_experts : ℕ) (protect : List ℕ) (e : ℕ) : Type 0 where
  pub in_range : e < n_experts
  pub protected : contains protect e ≡ true

module _ {ℓ} (store : RecordStore) (has_release : Bool) (n_slices layer : ℕ) {protect : List ℕ}
    {step_of : ℕ → ℕ} {P : ResidentPool → List Promotion → Type ℓ}
    (rule : Rule protect step_of P) where
  abbrev Holds : ℕ → Work store → Type ℓ
  Holds n w = (w.pool.n_experts ≡ n) × P w.pool w.out

  module _ (n : ℕ) (w : Work store) (e : ℕ) (h : Holds n w) (due : IsDue n protect e)
      (absent : w.pool.slot_of_expert e ≡ none) where
    fill_with-Holds :
        (s : ℕ) (taken : List ℕ × List Pin × store.State)
        → IsSafe w.pool protect s
        → Holds n (fill_with store has_release n_slices layer protect step_of w e s taken)
    unfolding fill_with set_slot
    fill_with-Holds s ([], pins, records) safe = h
    fill_with-Holds s (p ∷ ps, pins, records) safe = (
      h.0,
      rule.filled w.pool w.out e s (p ∷ ps) h.1 (omega (arith, due.in_range)) due.protected absent
          safe,
    )

    promote-Holds :
        (o : Option ℕ)
        → pick_victim w.pool protect (step_of e, 1) ≡ o
        → Holds n (promote store has_release n_slices layer protect step_of w e o)
    unfolding promote
    promote-Holds none chosen = h
    promote-Holds (some s) chosen =
        fill_with-Holds s _ (pick_victim-IsSafe w.pool protect (step_of e, 1) s chosen)

  visit-Holds :
      (n : ℕ) (w : Work store) (e : ℕ) (o : Option ℕ)
      → Holds n w
      → IsDue n protect e
      → w.pool.slot_of_expert e ≡ o
      → Holds n (visit store has_release n_slices layer protect step_of w e o)
  unfolding visit
  visit-Holds n w e (some s) h due found = h
  visit-Holds n w e none h due found = promote-Holds n w e h due found _ refl

  -- With every expert in range the loop ends without an exception, and keeps the invariant.
  pub promote_all-Holds :
      (n cap : ℕ) (es : List ℕ) (w : Work store)
      → Holds n w
      → All (IsDue n protect) es
      → (w' : Work store) × (promote_all store has_release n_slices layer protect step_of cap w es
          ≡ ok w')
        × Holds n w'
  unfolding promote_all mapped
  promote_all-Holds n cap [] w h due = (w, refl, h)
  promote_all-Holds n cap (e ∷ es) w h due = elim (Bool-cases (is_full cap w.out)) [
    | inl full ↦ (w, rw full, h)
    | inr room ↦
        rw (room, lt→ltb e w.pool.n_experts (omega (arith, due.0.in_range)))
          (promote_all-Holds n cap es _ (visit-Holds n w e _ h due.0 refl) due.1)
  ]
