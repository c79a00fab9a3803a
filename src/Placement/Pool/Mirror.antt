-- ===== src/Placement/Pool/Mirror.antt =====
-- The two tables of a `ResidentPool` (tools/dsv41_5090/cpu_tier/placement_manager.py) mirror one
-- another, and `set_slot` and `note_use` keep that.
use v_llm_moet.Prelude.{ℕ, ◌<◌, ◌≡◌, Bool, Option, none, some, List, arith, ◌==◌, if◌then◌else◌}
use v_llm_moet.Prelude.Int.{ℤ}
use v_llm_moet.Placement.Pool.{ResidentPool, new_pool, forget, set_slot, note_use, is_held}

-- Slot `s` holds expert `e` exactly when `e`'s entry is `s`, and every entry is in range.
pub record IsMirror (p : ResidentPool) : Type 0 where
  pub held : (s e : ℕ) → p.expert_of_slot s ≡ some e → p.slot_of_expert e ≡ some s
  pub entered : (e s : ℕ) → p.slot_of_expert e ≡ some s → p.expert_of_slot s ≡ some e
  pub slot_range : (e s : ℕ) → p.slot_of_expert e ≡ some s → s < p.n_slots
  pub expert_range : (s e : ℕ) → p.expert_of_slot s ≡ some e → e < p.n_experts

pub new_pool-IsMirror :
    (n_experts n_slots n_slices : ℕ) (record_ok : Option (ℕ → Bool))
    → IsMirror (new_pool n_experts n_slots n_slices record_ok)
unfolding new_pool
new_pool-IsMirror n_experts n_slots n_slices record_ok = record {
  held = λ s e h. cc;
  entered = λ e s h. cc;
  slot_range = λ e s h. cc;
  expert_range = λ s e h. cc;
}

module _ (p : ResidentPool) (s : ℕ) (v : IsMirror p) where
  pub set_slot-none-IsMirror : (step : ℕ) → IsMirror (set_slot p s none step)
  unfolding set_slot forget
  set_slot-none-IsMirror step = record {
    held = λ r e h. ground (arith, v.held r e, v.held s e);
    entered = λ e r h. ground (arith, v.entered e r, v.held s e);
    slot_range = λ e r h. ground (arith, v.slot_range e r);
    expert_range = λ r e h. ground (arith, v.expert_range r e);
  }

  -- Filling a slot with an expert that has none keeps the mirror.
  pub set_slot-IsMirror :
      (e step : ℕ)
      → s < p.n_slots
      → e < p.n_experts
      → p.slot_of_expert e ≡ none
      → IsMirror (set_slot p s (some e) step)
  unfolding set_slot forget
  set_slot-IsMirror e step in_slots in_experts absent = record {
    held = λ r f h. ground (arith, v.held r f, v.held s f);
    entered = λ f r h. ground (arith, v.entered f r, v.held s f);
    slot_range = λ f r h. ground (arith, v.slot_range f r);
    expert_range = λ r f h. ground (arith, v.expert_range r f);
  }

  pub note_use-IsMirror : (ids : List ℤ) (step : ℕ) → IsMirror (note_use p ids step)
  unfolding note_use
  note_use-IsMirror ids step = record {
    held = v.held;
    entered = v.entered;
    slot_range = v.slot_range;
    expert_range = v.expert_range;
  }

-- What a fill changes: the new expert gets the slot, the slot's old expert loses it, and every
-- other expert keeps its own.
pub slot_of_expert-set_slot :
    (p : ResidentPool) (s e f step : ℕ)
    → IsMirror p
    → p.slot_of_expert e ≡ none
    → (set_slot p s (some e) step).slot_of_expert f
      ≡ (if f == e then some s else if is_held p s f then none else p.slot_of_expert f)
unfolding set_slot forget is_held
slot_of_expert-set_slot p s e f step v absent = ground (arith, v.held s f)
