-- ===== src/Placement/Pool.antt =====
-- `ResidentPool`: one layer's resident slots, the host mirror of the device slot table and the LRU
-- bookkeeping (tools/dsv41_5090/cpu_tier/placement_manager.py). The tensors are the GPU's.
pub mod Mirror
pub mod Victim
use v_llm_moet.Prelude.{
  ℕ, zero, suc, ◌+◌, ◌-◌, ◌*◌, ◌%◌, ◌^◌, min, Bool, true, false, not, ◌&&◌, Option, none, some,
  List, [], ◌∷◌, ltb, ◌==◌, if◌then◌else◌, update, first_below, contains, count,
}
use v_llm_moet.Prelude.Int.{ℤ, pos, negsuc, ◌+ℤ◌, ◌*ℤ◌, ltb_ℤ, max_ℤ}

-- The LRU key = last_used * 2^20 + min(use_count, 2^20 - 1).
abbrev pub key_uses : ℕ
key_uses = 2 ^ 20

-- An array is a function on the indices below its length: `n_slots` (R) for the arrays by slot,
-- `n_experts` (E) for those by expert. `none` is -1 in the two tables.
pub record ResidentPool : Type 0 where
  pub n_experts : ℕ
  pub n_slots : ℕ
  pub n_slices : ℕ
  pub expert_of_slot : ℕ → Option ℕ
  pub slot_of_expert : ℕ → Option ℕ
  pub last_used : ℕ → ℤ
  pub use_count : ℕ → ℕ
  pub evictable : ℕ → Bool

-- The constructor; `record_ok` is the optional predicate of the caller.
unfoldable pub new_pool : ℕ → ℕ → ℕ → Option (ℕ → Bool) → ResidentPool
new_pool n_experts n_slots n_slices record_ok = record {
  n_experts = n_experts;
  n_slots = n_slots;
  n_slices = n_slices;
  expert_of_slot = λ s. none;
  slot_of_expert = λ e. none;
  last_used = λ s. negsuc 0;
  use_count = λ s. 0;
  evictable = elim record_ok [ none ↦ λ e. true | some held ↦ held ];
}

unfoldable pub mapped : ResidentPool → ℕ → Option ℕ
mapped p e = p.slot_of_expert e

-- The first statements of `set_slot`: the slot's old expert loses its entry.
unfoldable pub forget : (ℕ → Option ℕ) → Option ℕ → ℕ → Option ℕ
forget slot_of_expert none = slot_of_expert
forget slot_of_expert (some old) = update slot_of_expert old none

-- Slot `s` holds `e` from `step` on; `none` empties it.
unfoldable pub set_slot : ResidentPool → ℕ → Option ℕ → ℕ → ResidentPool
unfolding forget
set_slot p s none step = record p {
  slot_of_expert = forget p.slot_of_expert (p.expert_of_slot s);
  expert_of_slot = update p.expert_of_slot s none;
}
set_slot p s (some e) step = record p {
  slot_of_expert = update (forget p.slot_of_expert (p.expert_of_slot s)) e (some s);
  expert_of_slot = update p.expert_of_slot s (some e);
  last_used = update p.last_used s (pos step);
  use_count = update p.use_count s (if ltb 0 step then 1 else 0);
}

-- The slots of the routed experts: ids outside 0..E-1 (padding) and experts without a slot drop out.
unfoldable pub used_slots : ResidentPool → List ℤ → List ℕ
used_slots p [] = []
used_slots p (negsuc n ∷ ids) = used_slots p ids
used_slots p (pos e ∷ ids) =
    let rest = used_slots p ids in
    if ltb e p.n_experts
    then elim (p.slot_of_expert e) [ some s ↦ s ∷ rest | none ↦ rest ]
    else rest

-- `last_used[s] = maximum(last_used[s], step)`, and `add.at(use_count, s, 1)` counts repetitions.
unfoldable pub note_use : ResidentPool → List ℤ → ℕ → ResidentPool
unfolding used_slots contains count
note_use p ids step =
    let used = used_slots p ids in
    record p {
      last_used = λ s. if contains used s then max_ℤ (p.last_used s) (pos step) else p.last_used s;
      use_count = λ s. p.use_count s + count s used;
    }

-- The packed key of a (step, count) pair.
unfoldable pub packed_key : ℤ → ℕ → ℤ
unfolding ◌+ℤ◌ ◌*ℤ◌
packed_key step uses = step *ℤ pos key_uses +ℤ pos (min uses (key_uses - 1))

-- An integer in 64 bits, which wraps around
unfoldable pub int64 : ℤ → ℤ
int64 (pos n) =
    let low = n % 2 ^ 64 in if ltb low (2 ^ 63) then pos low else negsuc (2 ^ 64 - 1 - low)
int64 (negsuc n) =
    let low = n % 2 ^ 64 in if ltb low (2 ^ 63) then negsuc low else pos (2 ^ 64 - 1 - low)

-- A slot's key, in the pool's arrays of 64-bit integers; the candidate's is a Python integer.
unfoldable pub slot_key : ResidentPool → ℕ → ℤ
unfolding packed_key int64
slot_key p s = int64 (packed_key (p.last_used s) (p.use_count s))

unfoldable pub is_empty : ResidentPool → ℕ → Bool
is_empty p s = elim (p.expert_of_slot s) [ none ↦ true | some e ↦ false ]

-- The slot holds the expert.
unfoldable pub is_held : ResidentPool → ℕ → ℕ → Bool
is_held p s e = elim (p.expert_of_slot s) [ none ↦ false | some f ↦ f == e ]

-- `ok[s]`: the slot's expert has a record in the tier's store and is not protected.
unfoldable pub may_evict : ResidentPool → List ℕ → ℕ → Bool
unfolding contains
may_evict p protect s = elim (p.expert_of_slot s) [
  | none ↦ false
  | some e ↦ p.evictable e && not (contains protect e)
]

-- `argmin` over the slots below `n` that pass `ok`, the first of equal keys; `none` if none does.
unfoldable pub argmin_below : ℕ → (ℕ → Bool) → (ℕ → ℤ) → Option ℕ
argmin_below zero ok key = none
argmin_below (suc n) ok key = elim (argmin_below n ok key) [
  | none ↦ if ok n then some n else none
  | some s ↦ if ok n && ltb_ℤ (key n) (key s) then some n else some s
]

-- An empty slot, else the least recently used evictable one if it is older than the candidate.
unfoldable pub pick_victim : ResidentPool → List ℕ → ℕ × ℕ → Option ℕ
unfolding first_below is_empty may_evict argmin_below slot_key packed_key
pick_victim p protect (step, uses) = elim (first_below p.n_slots (is_empty p)) [
  | some s ↦ some s
  | none ↦ elim (argmin_below p.n_slots (may_evict p protect) (slot_key p)) [
    | none ↦ none
    | some s ↦ if ltb_ℤ (slot_key p s) (packed_key (pos step) uses) then some s else none
  ]
]
