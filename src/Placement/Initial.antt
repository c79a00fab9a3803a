-- ===== src/Placement/Initial.antt =====
-- `fill_initial` of `PlacementManager` (tools/dsv41_5090/cpu_tier/placement_manager.py): the static
-- residents, in slot order, in an empty pool and its device table.
use v_llm_moet.Prelude.{
  ℕ, zero, suc, ◌+◌, ◌≤◌, ◌<◌, ◌≡◌, refl, true, false, Bool, Option, none, some, List, [], ◌∷◌,
  arith, leb, ltb, length, get_elem?, ◌==◌, if◌then◌else◌, update, contains, All, Result, ok, ◌>>◌,
  guard, lt→ltb, le→leb,
}
use v_llm_moet.Placement.Pool.{ResidentPool, new_pool, forget, set_slot}
use v_llm_moet.Placement.Pool.Mirror.{IsMirror, new_pool-IsMirror, set_slot-IsMirror}

pub data Error : Type 0 where
  assertion_error index_error : Error

-- A pool and its device table.
pub record Filled : Type 0 where
  pub pool : ResidentPool
  pub table : ℕ → Option ℕ

-- `for s, e in enumerate(residents)`, from slot `s` on.
unfoldable pub fill_from : ℕ → List ℕ → Filled → Result Error Filled
unfolding set_slot
fill_from s [] f = ok f
fill_from s (e ∷ es) f =
    guard (ltb e f.pool.n_experts) index_error
    >> fill_from (s + 1) es
        (record { pool = set_slot f.pool s (some e) 0; table = update f.table e (some s) })

unfoldable pub fill_initial : List ℕ → Filled → Result Error Filled
unfolding fill_from
fill_initial residents f =
    guard (leb (length residents) f.pool.n_slots) assertion_error >> fill_from 0 residents f

-- No expert twice.
abbrev pub IsDistinct : List ℕ → Type 0
IsDistinct [] = Unit
IsDistinct (e ∷ es) = (contains es e ≡ false) × IsDistinct es

-- A pool before its slots from `s` on are filled: the table is the mirror, those slots are empty,
-- and the experts to come have none.
record IsReady (s : ℕ) (es : List ℕ) (f : Filled) : Type 0 where
  mirror : IsMirror f.pool
  same : (e : ℕ) → f.table e ≡ f.pool.slot_of_expert e
  empty : (r : ℕ) → s ≤ r → f.pool.expert_of_slot r ≡ none
  absent : (e : ℕ) → contains es e ≡ true → f.pool.slot_of_expert e ≡ none
  room : s + length es ≤ f.pool.n_slots

module _ (s e : ℕ) (es : List ℕ) (f : Filled) (ready : IsReady s (e ∷ es) f)
    (in_range : e < f.pool.n_experts) (fresh : contains es e ≡ false) where
  abbrev next : Filled
  next = record { pool = set_slot f.pool s (some e) 0; table = update f.table e (some s) }

  entry_next :
      (g : ℕ) → next.pool.slot_of_expert g ≡ (if g == e then some s else f.pool.slot_of_expert g)
  unfolding set_slot forget
  entry_next g = ground (arith, ready.empty s)

  IsReady-next : IsReady (s + 1) es next
  unfolding set_slot contains
  IsReady-next = record {
    mirror =
        set_slot-IsMirror f.pool s ready.mirror e 0 (omega (arith, ready.room)) in_range
          (ready.absent e (ground arith));
    same = λ g. ground (arith, entry_next g, ready.same g);
    empty = λ r le. ground (arith, ready.empty r);
    absent = λ g c. ground (arith, entry_next g, ready.absent g);
    room = omega (arith, ready.room);
  }

-- What filling the slots from `s` on leaves.
pub record IsFilled (s : ℕ) (es : List ℕ) (f f' : Filled) : Type 0 where
  pub mirror : IsMirror f'.pool
  pub same : (e : ℕ) → f'.table e ≡ f'.pool.slot_of_expert e
  pub placed : (i e : ℕ) → get_elem? es i ≡ some e → f'.pool.slot_of_expert e ≡ some (s + i)
  pub others : (e : ℕ) → contains es e ≡ false → f'.pool.slot_of_expert e ≡ f.pool.slot_of_expert e

contains_of_get_elem? : (es : List ℕ) (i e : ℕ) → get_elem? es i ≡ some e → contains es e ≡ true
unfolding contains
contains_of_get_elem? [] i e h = cc
contains_of_get_elem? (x ∷ es) zero e h = ground arith
contains_of_get_elem? (x ∷ es) (suc i) e h = ground (arith, contains_of_get_elem? es i e h)

IsFilled-cons :
    (s e : ℕ) (es : List ℕ) (f f' : Filled)
    → IsReady s (e ∷ es) f
    → e < f.pool.n_experts
    → contains es e ≡ false
    → IsFilled
        (s + 1)
        es
        (record { pool = set_slot f.pool s (some e) 0; table = update f.table e (some s) })
        f'
    → IsFilled s (e ∷ es) f f'
unfolding contains
IsFilled-cons s e es f f' ready in_range fresh done = record {
  mirror = done.mirror;
  same = done.same;
  placed = elim [
    | zero ↦ λ g h. ground (arith, done.others e fresh, entry_next s e es f ready in_range fresh e)
    | suc i ↦ λ g h. ground (arith, done.placed i g)
  ];
  others = λ g c. ground (arith, done.others g, entry_next s e es f ready in_range fresh g);
}

fill_from-IsFilled :
    (es : List ℕ) (s : ℕ) (f : Filled)
    → IsReady s es f
    → IsDistinct es
    → All (λ e. e < f.pool.n_experts) es
    → (f' : Filled) × (fill_from s es f ≡ ok f') × IsFilled s es f f'
unfolding fill_from
fill_from-IsFilled [] s f ready distinct below = (
  f,
  refl,
  record { mirror = ready.mirror; same = ready.same; placed = λ i e h. cc; others = λ e h. refl },
)
fill_from-IsFilled (e ∷ es) s f ready distinct below =
    let step = next s e es f ready below.0 distinct.0 in
    let (f', runs, done) =
      fill_from-IsFilled es (s + 1) step (IsReady-next s e es f ready below.0 distinct.0) distinct.1
        below.1 in
    (
      f',
      rw (lt→ltb e f.pool.n_experts below.0, runs),
      IsFilled-cons s e es f f' ready below.0 distinct.0 done,
    )

-- A pool as the constructor leaves it, with its device table.
abbrev pub fresh_pool : ℕ → ℕ → ℕ → Option (ℕ → Bool) → Filled
fresh_pool n_experts n_slots n_slices record_ok = record {
  pool = new_pool n_experts n_slots n_slices record_ok;
  table = λ e. none;
}

-- With distinct residents in range that fit the slots, `fill_initial` on a new pool returns, the
-- i-th resident holds slot i, every other expert has none, the two tables mirror one another, and
-- the device table is the host's.
pub fill_initial-IsFilled :
    (n_experts n_slots n_slices : ℕ) (record_ok : Option (ℕ → Bool)) (residents : List ℕ)
    → IsDistinct residents
    → All (λ e. e < n_experts) residents
    → length residents ≤ n_slots
    → (f' : Filled) × (fill_initial residents (fresh_pool n_experts n_slots n_slices record_ok)
        ≡ ok f')
      × IsFilled 0 residents (fresh_pool n_experts n_slots n_slices record_ok) f'
unfolding fill_initial new_pool
fill_initial-IsFilled n_experts n_slots n_slices record_ok residents distinct below fits =
    let f = fresh_pool n_experts n_slots n_slices record_ok in
    let (f', runs, done) =
      fill_from-IsFilled residents 0 f
        (record {
          mirror = new_pool-IsMirror n_experts n_slots n_slices record_ok;
          same = λ e. refl;
          empty = λ r le. refl;
          absent = λ e c. refl;
          room = omega arith;
        })
        distinct below in
    (f', rw (le→leb _ _ fits, runs), done)
