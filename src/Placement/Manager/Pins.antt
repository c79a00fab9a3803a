-- ===== src/Placement/Manager/Pins.antt =====
-- The pins of the store tail in `plan` (tools/dsv41_5090/cpu_tier/placement_manager.py): every pin
-- that `_acquire` takes is remembered in `acquired_last`, or dropped before it returns.
use v_llm_moet.Prelude.{
  ℕ, zero, suc, ◌+◌, ◌-◌, ◌≡◌, refl, inl, inr, true, Option, none, some, List, [], ◌∷◌, ◌++◌, arith,
  ltb, ◌==◌, if◌then◌else◌, ok, Bool-cases,
}
use v_llm_moet.Placement.Store.{Pin, pin_eq, RecordStore}
use v_llm_moet.Placement.Pool.{mapped}
use v_llm_moet.Placement.Manager.{
  Work, is_full, all_nonzero, slice_pin, read_ptrs, release_taken, slice_pins, acquire, fill_with,
  promote, visit, promote_all,
}

-- How often a pin stands in a list.
unfoldable pub count_pin : Pin → List Pin → ℕ
count_pin q [] = 0
count_pin q (k ∷ ks) = (if pin_eq k q then 1 else 0) + count_pin q ks

pub count_pin-append :
    (q : Pin) (xs ys : List Pin) → count_pin q (xs ++ ys) ≡ count_pin q xs + count_pin q ys
unfolding count_pin
count_pin-append q [] ys = omega arith
count_pin-append q (x ∷ xs) ys = omega (arith, count_pin-append q xs ys)

module _ (store : RecordStore) (q : Pin) where
  open store use {State, record_ptr, record_release, pins, pins-record_ptr, pins-record_release}

  module _ (layer e : ℕ) where
    -- The pins that the nonzero pointers of slices v, v + 1, ... stand for.
    taken : ℕ → List ℕ → ℕ
    taken v [] = 0
    taken v (p ∷ ps) =
        (if p == 0 then 0 else if pin_eq (slice_pin store layer e v) q then 1 else 0)
        + taken (v + 1) ps

    pins-read_ptrs :
        (n v : ℕ) (s : State)
        → pins (read_ptrs store layer e v n s).1 q
          ≡ pins s q + taken v (read_ptrs store layer e v n s).0
    unfolding read_ptrs taken
    pins-read_ptrs zero v s = omega arith
    pins-read_ptrs (suc n) v s =
        let k = slice_pin store layer e v in
        ground (arith, pins-read_ptrs n (v + 1) (record_ptr s k).1, pins-record_ptr s k q)

    pins-release_taken :
        (ps : List ℕ) (v : ℕ) (s : State)
        → pins (release_taken store layer e v ps s) q ≡ pins s q - taken v ps
    unfolding release_taken taken
    pins-release_taken [] v s = omega arith
    pins-release_taken (p ∷ ps) v s =
        let k = slice_pin store layer e v in
        ground (
          arith,
          pins-release_taken ps (v + 1) (if p == 0 then s else record_release s k),
          pins-record_release s k q,
        )

    taken_all :
        (ps : List ℕ) (v : ℕ)
        → all_nonzero ps ≡ true
        → taken v ps ≡ count_pin q (slice_pins store layer e v ps)
    unfolding all_nonzero taken slice_pins count_pin
    taken_all [] v h = refl
    taken_all (p ∷ ps) v h = ground (arith, taken_all ps (v + 1))

    -- What `_acquire` adds to the pins is what it returns to be remembered.
    pins-acquire :
        (n : ℕ) (s : State)
        → pins (acquire store true n layer e s).2 q
          ≡ pins s q + count_pin q (acquire store true n layer e s).1
    unfolding acquire count_pin
    pins-acquire n s =
        let (ptrs, s') = read_ptrs store layer e 0 n s in
        ground (arith, pins-read_ptrs n 0 s, pins-release_taken ptrs 0 s', taken_all ptrs 0)

  -- From one point to a later one: the pins grow by what is remembered.
  abbrev pub IsBalanced : State → List Pin → State → List Pin → Type 0
  IsBalanced s ks s' ks' = pins s' q + count_pin q ks ≡ pins s q + count_pin q ks'

  module _ (n layer : ℕ) (protect : List ℕ) (step_of : ℕ → ℕ) where
    abbrev WorkBalanced : Work store → Work store → Type 0
    WorkBalanced w w' = IsBalanced w.work_records w.work_acquired w'.work_records w'.work_acquired

    fill_with-IsBalanced :
        (w : Work store) (e s : ℕ) (got : List ℕ × List Pin × State)
        → pins got.2 q ≡ pins w.work_records q + count_pin q got.1
        → WorkBalanced w (fill_with store true n layer protect step_of w e s got)
    unfolding fill_with
    fill_with-IsBalanced w e s ([], ks, records) h =
        omega (arith, count_pin-append q w.work_acquired ks)
    fill_with-IsBalanced w e s (p ∷ ps, ks, records) h =
        omega (arith, count_pin-append q w.work_acquired ks)

    promote-IsBalanced :
        (w : Work store) (e : ℕ) (o : Option ℕ)
        → WorkBalanced w (promote store true n layer protect step_of w e o)
    unfolding promote
    promote-IsBalanced w e none = refl
    promote-IsBalanced w e (some s) =
        fill_with-IsBalanced w e s _ (pins-acquire layer e n w.work_records)

    visit-IsBalanced :
        (w : Work store) (e : ℕ) (o : Option ℕ)
        → WorkBalanced w (visit store true n layer protect step_of w e o)
    unfolding visit
    visit-IsBalanced w e (some s) = refl
    visit-IsBalanced w e none = promote-IsBalanced w e _

    pub promote_all-IsBalanced :
        (cap : ℕ) (es : List ℕ) (w : Work store) {w' : Work store}
        → promote_all store true n layer protect step_of cap w es ≡ ok w'
        → WorkBalanced w w'
    unfolding promote_all
    promote_all-IsBalanced cap [] w h = ground arith
    promote_all-IsBalanced cap (e ∷ es) w {w'} h = elim (Bool-cases (is_full cap w.out)) [
      | inl full ↦ ground arith
      | inr room ↦ elim (Bool-cases (ltb e w.pool.n_experts)) [
        | inl below ↦ omega (
          arith,
          visit-IsBalanced w e (mapped w.pool e),
          promote_all-IsBalanced cap es
              (visit store true n layer protect step_of w e (mapped w.pool e))
              (rw (room, below) at h),
        )
        | inr above ↦ ground arith
      ]
    ]
