-- ===== src/Placement/Pool/Victim.antt =====
-- What `pick_victim` (tools/dsv41_5090/cpu_tier/placement_manager.py) promises, on every branch.
use v_llm_moet.Prelude.{
  ℕ, zero, suc, ◌+◌, ◌-◌, ◌*◌, ◌^◌, ◌<◌, ◌≡◌, ◌↔◌, ◌⊎◌, inl, inr, min, Bool, true, false, Option,
  none, some, List, arith, first_below, first_below-eq-some, first_below-eq-none, first_below_least,
  Option-cases, refl, if◌then◌else◌,
}
use v_llm_moet.Prelude.Int.{ℤ, pos, ltb_ℤ, ◌≤ℤ◌, ◌+ℤ◌, ◌*ℤ◌, ltb_ℤ-eq-false}
use v_llm_moet.Placement.Pool.{
  ResidentPool, key_uses, packed_key, int64, slot_key, is_empty, may_evict, argmin_below,
  pick_victim,
}

module _ (ok : ℕ → Bool) (key : ℕ → ℤ) where
  argmin_below-eq-none : (n s : ℕ) → argmin_below n ok key ≡ none → s < n → ok s ≡ false
  unfolding argmin_below
  argmin_below-eq-none zero s h lt = absurd (omega arith)
  argmin_below-eq-none (suc n) s h lt = ground (arith, argmin_below-eq-none n s)

  argmin_below-eq-some : (n s : ℕ) → argmin_below n ok key ≡ some s → (s < n) × (ok s ≡ true)
  unfolding argmin_below
  argmin_below-eq-some zero s h = cc
  argmin_below-eq-some (suc n) s h = ground (arith, argmin_below-eq-some n s)

  argmin_below_least :
      (n s r : ℕ) → argmin_below n ok key ≡ some s → r < n → ok r ≡ true → key s ≤ℤ key r
  unfolding argmin_below
  argmin_below_least zero s r h lt passes = absurd (omega arith)
  argmin_below_least (suc n) s r h lt passes = elim (Option-cases (argmin_below n ok key)) [
    | inl e ↦ ground (arith, argmin_below-eq-none n r e)
    | inr (t, e) ↦ ground (arith, argmin_below_least n t r e)
  ]

-- Every slot holds an expert.
pub record IsFull (p : ResidentPool) : Type 0 where
  pub occupied : (s : ℕ) → s < p.n_slots → is_empty p s ≡ false

-- The slot is the first empty one.
pub record IsFirstEmpty (p : ResidentPool) (s : ℕ) : Type 0 where
  pub in_range : s < p.n_slots
  pub empty : is_empty p s ≡ true
  pub first : (r : ℕ) → r < s → is_empty p r ≡ false

-- The slot may be evicted, is the least recently used of those, and is older than the candidate.
pub record IsOldest (p : ResidentPool) (protect : List ℕ) (cand : ℕ × ℕ) (s : ℕ) : Type 0 where
  pub in_range : s < p.n_slots
  pub full : IsFull p
  pub allowed : may_evict p protect s ≡ true
  pub older : ltb_ℤ (slot_key p s) (packed_key (pos cand.0) cand.1) ≡ true
  pub least : (r : ℕ) → r < p.n_slots → may_evict p protect r ≡ true → slot_key p s ≤ℤ slot_key p r

-- Every slot is occupied, by an expert that may not be evicted or is not older than the candidate.
pub record HasNoVictim (p : ResidentPool) (protect : List ℕ) (cand : ℕ × ℕ) : Type 0 where
  pub full : IsFull p
  pub newer :
      (r : ℕ)
      → r < p.n_slots
      → may_evict p protect r ≡ true
      → packed_key (pos cand.0) cand.1 ≤ℤ slot_key p r

abbrev pub IsChoice : ResidentPool → List ℕ → ℕ × ℕ → Option ℕ → Type 0
IsChoice p protect cand (some s) = IsFirstEmpty p s ⊎ IsOldest p protect cand s
IsChoice p protect cand none = HasNoVictim p protect cand

module _ (p : ResidentPool) (protect : List ℕ) (cand : ℕ × ℕ) where
  IsFull-of_none : first_below p.n_slots (is_empty p) ≡ none → IsFull p
  IsFull-of_none e = record { occupied = λ s lt. first_below-eq-none p.n_slots (is_empty p) s e lt }

  abbrev is_older : ℕ → Bool
  is_older s = ltb_ℤ (slot_key p s) (packed_key (pos cand.0) cand.1)

  choose_tested :
      (s : ℕ) (b : Bool)
      → is_older s ≡ b
      → IsFull p
      → argmin_below p.n_slots (may_evict p protect) (slot_key p) ≡ some s
      → IsChoice p protect cand (if b then some s else none)
  choose_tested s true older full e =
      let (lt, allowed) = argmin_below-eq-some _ _ p.n_slots s e in
      inr (record {
        in_range = lt;
        full = full;
        allowed = allowed;
        older = older;
        least = λ r. argmin_below_least _ _ p.n_slots s r e;
      })
  choose_tested s false newer full e = record {
    full = full;
    newer = λ r lt allowed. omega (
      arith,
      ltb_ℤ-eq-false (slot_key p s) (packed_key (pos cand.0) cand.1) newer,
      argmin_below_least _ _ p.n_slots s r e lt allowed,
    );
  }

  choose_oldest :
      (o : Option ℕ)
      → argmin_below p.n_slots (may_evict p protect) (slot_key p) ≡ o
      → IsFull p
      → IsChoice p protect cand
          (elim o [ none ↦ none | some s ↦ if is_older s then some s else none ])
  choose_oldest none e full = record {
    full = full;
    newer = λ r lt allowed. cc (argmin_below-eq-none _ _ p.n_slots r e lt);
  }
  choose_oldest (some s) e full = choose_tested s (is_older s) refl full e

  choose_from :
      (o : Option ℕ)
      → first_below p.n_slots (is_empty p) ≡ o
      → IsChoice p protect cand (elim o [
        | some s ↦ some s
        | none ↦ elim (argmin_below p.n_slots (may_evict p protect) (slot_key p)) [
          | none ↦ none
          | some s ↦ if is_older s then some s else none
        ]
      ])
  choose_from (some s) e =
      let (lt, empty) = first_below-eq-some p.n_slots _ s e in
      inl
        (record { in_range = lt; empty = empty; first = λ r. first_below_least p.n_slots _ s r e })
  choose_from none e = choose_oldest _ refl (IsFull-of_none e)

-- `pick_victim` returns the first empty slot; with every slot occupied, the evictable and
-- unprotected slot with the least key, if that key is below the candidate's; and nothing only
-- when every slot is occupied and no evictable, unprotected slot has a key below the candidate's.
pub pick_victim-IsChoice :
    (p : ResidentPool) (protect : List ℕ) (cand : ℕ × ℕ)
    → IsChoice p protect cand (pick_victim p protect cand)
unfolding pick_victim
pick_victim-IsChoice p protect cand = choose_from p protect cand _ refl

fits_int64 : (n : ℕ) → n < 2 ^ 63 → int64 (pos n) ≡ pos n
unfolding int64
fits_int64 n small = ground (arith, small)

packed_key-pos : (a u : ℕ) → packed_key (pos a) u ≡ pos (a * key_uses + min u (key_uses - 1))
unfolding packed_key ◌+ℤ◌ ◌*ℤ◌
packed_key-pos a u = ground arith

-- The 64-bit key of a slot that was last used at a step below 2^43 is below a candidate's exactly if
-- the slot's step is below the candidate's, or they are equal and the slot's use count is below the
-- candidate's, both capped at 2^20 - 1.
pub packed_key_lexicographic :
    (p : ResidentPool) (s a b w : ℕ)
    → p.last_used s ≡ pos a
    → a < 2 ^ 43
    → (ltb_ℤ (slot_key p s) (packed_key (pos b) w) ≡ true)
      ↔ ((a < b) ⊎ (a ≡ b) × (min (p.use_count s) (key_uses - 1) < min w (key_uses - 1)))
unfolding slot_key
packed_key_lexicographic p s a b w used small =
    let small_key : a * key_uses + min (p.use_count s) (key_uses - 1) < 2 ^ 63 = omega arith in
    rw (used, packed_key-pos a (p.use_count s), fits_int64 _ small_key, packed_key-pos b w)
      (ground arith)
