-- ===== src/Prefill/Reads.antt =====
-- What the extra run of a round reads: the records of the round's experts.
use v_llm_moet.Prelude.{
  ℕ, zero, suc, ◌+◌, ◌-◌, ◌*◌, ◌%◌, ◌≤◌, ◌<◌, true, false, ◌==◌, if◌then◌else◌, Bool-cases, List,
  [], ◌∷◌, ◌++◌, length, length-append, get_elem?, contains, Option, none, some, update, ◌≡◌, ◌⊎◌,
  inl, inr, refl, ap, ◌∙◌, arith,
}
use v_llm_moet.Prefill.Routing.{SlotTable, through}
use v_llm_moet.Prefill.Rounds.{Record, Pool, slices_of, record_ptrs, repack, write_slots, read}

get_elem?-append-left :
    (xs ys : List Record) (i : ℕ) → i < length xs → get_elem? (xs ++ ys) i ≡ get_elem? xs i
get_elem?-append-left [] ys i lt = absurd (omega arith)
get_elem?-append-left (x ∷ xs) ys zero lt = refl
get_elem?-append-left (x ∷ xs) ys (suc i) lt = get_elem?-append-left xs ys i (omega arith)

get_elem?-append-right :
    (xs ys : List Record) (m i : ℕ) → m ≡ length xs + i → get_elem? (xs ++ ys) m ≡ get_elem? ys i
get_elem?-append-right [] ys m i e = ap (get_elem? ys) (omega arith)
get_elem?-append-right (x ∷ xs) ys zero i e = absurd (omega arith)
get_elem?-append-right (x ∷ xs) ys (suc m) i e = get_elem?-append-right xs ys m i (omega arith)

length-slices_of : (e v : ℕ) → length (slices_of e v) ≡ v
unfolding slices_of
length-slices_of e zero = refl
length-slices_of e (suc v) =
    omega (arith, length-append (slices_of e v) ((e, v) ∷ []), length-slices_of e v)

lt-or-eq : (w v : ℕ) → w < suc v → (w < v) ⊎ (w ≡ v)
lt-or-eq w v lt = omega arith

get_elem?-slices_of : (e v w : ℕ) → w < v → get_elem? (slices_of e v) w ≡ some (e, w)
unfolding slices_of
get_elem?-slices_of e zero w lt = absurd (omega arith)
get_elem?-slices_of e (suc v) w lt = elim (lt-or-eq w v lt) [
  | inl before ↦
      get_elem?-append-left (slices_of e v) ((e, v) ∷ []) w (rw (length-slices_of e v) before)
      ∙ get_elem?-slices_of e v w before
  | inr last ↦ rw last (
      get_elem?-append-right (slices_of e v) ((e, v) ∷ []) v 0
        (omega (arith, length-slices_of e v)))
]

-- The slices of the round's expert j lie at j * v and on.
get_elem?-record_ptrs :
    (v : ℕ) (rnd : List ℕ) (j e w : ℕ)
    → get_elem? rnd j ≡ some e
    → w < v
    → get_elem? (record_ptrs v rnd) (j * v + w) ≡ some (e, w)
unfolding record_ptrs
get_elem?-record_ptrs v [] j e w there lt = absurd cc
get_elem?-record_ptrs v (x ∷ rnd) zero e w there lt =
    let first : 0 * v + w ≡ w = omega arith in
    let same : x ≡ e = cc in
    rw (first, same)
      (get_elem?-append-left (slices_of e v) (record_ptrs v rnd) w (rw (length-slices_of e v) lt)
        ∙ get_elem?-slices_of e v w lt)
get_elem?-record_ptrs v (x ∷ rnd) (suc j) e w there lt =
    get_elem?-append-right (slices_of x v) (record_ptrs v rnd) (suc j * v + w) (j * v + w)
      (rw (length-slices_of x v) (grind arith))
    ∙ get_elem?-record_ptrs v rnd j e w there lt

update_cases :
    (table : SlotTable) (x k e j : ℕ)
    → update table x (some k) e ≡ some j
    → (table e ≡ some j) ⊎ ((x ≡ e) × (k ≡ j))
update_cases table x k e j h = ground (arith, h)

-- The table of a round has the places of its experts.
write_slots-some :
    (k : ℕ) (rnd : List ℕ) (table : SlotTable) (e j : ℕ)
    → write_slots k rnd table e ≡ some j
    → (table e ≡ some j) ⊎ ((k ≤ j) × (get_elem? rnd (j - k) ≡ some e))
unfolding write_slots
write_slots-some k [] table e j h = inl h
write_slots-some k (x ∷ rnd) table e j h =
    elim (write_slots-some (suc k) rnd (update table x (some k)) e j h) [
      | inl written ↦ elim (update_cases table x k e j written) [
        | inl before ↦ inl before
        | inr here ↦
            let place : j - k ≡ 0 = omega (arith, here.1) in
            inr (omega (arith, here.1), rw (place, here.0) refl)
      ]
      | inr later ↦
          let place : j - k ≡ suc (j - suc k) = omega (arith, later.0) in
          inr (omega (arith, later.0), rw place (later.1))
    ]

write_slots-other :
    (k : ℕ) (rnd : List ℕ) (table : SlotTable) (e : ℕ)
    → contains rnd e ≡ false
    → write_slots k rnd table e ≡ table e
unfolding write_slots contains
write_slots-other k [] table e h = refl
write_slots-other k (x ∷ rnd) table e h =
    ground (arith, h, write_slots-other (suc k) rnd (update table x (some k)) e)

write_slots-contains :
    (k : ℕ) (rnd : List ℕ) (table : SlotTable) (e : ℕ)
    → contains rnd e ≡ true
    → (j : ℕ) × (write_slots k rnd table e ≡ some j)
unfolding write_slots contains
write_slots-contains k [] table e h = absurd cc
write_slots-contains k (x ∷ rnd) table e h = elim (Bool-cases (contains rnd e)) [
  | inl later ↦ write_slots-contains (suc k) rnd (update table x (some k)) e later
  | inr only ↦
      (k, write_slots-other (suc k) rnd (update table x (some k)) e only ∙ ground (arith, h, only))
]

pub through-some :
    (v : ℕ) (table : SlotTable) (c e slot : ℕ)
    → 0 < v
    → table e ≡ some slot
    → through v table c (some e) ≡ some (slot * v + c % v)
unfolding through
through-some v table c e slot some_slices at = elim (Bool-cases (v == 1)) [
  | inl one ↦
      let single : v ≡ 1 = ground (arith, one) in
      rw (through, at, one) (ap some (rw single (omega arith)))
  | inr many ↦ rw (through, at, many) refl
]

pub through-none :
    (v : ℕ) (table : SlotTable) (c e : ℕ) → table e ≡ none → through v table c (some e) ≡ none
unfolding through
through-none v table c e at = rw (through, at) refl

-- The place of an expert in its round
place_of :
    (rnd : List ℕ) (e j : ℕ) → write_slots 0 rnd (λ e'. none) e ≡ some j → get_elem? rnd j ≡ some e
place_of rnd e j at = elim (write_slots-some 0 rnd (λ e'. none) e j at) [
  | inl before ↦ absurd cc
  | inr found ↦ let same : j - 0 ≡ j = omega arith in rw same at (found.1)
]

-- What a run adds for a pair
abbrev pub part_of : ℕ → List ℕ → ℕ → Option ℕ → Option Record
part_of v rnd c none = none
part_of v rnd c (some e) = if contains rnd e then some (e, c % v) else none

-- An extra run reads the record of each pair whose expert is in the round, and nothing else.
pub round_reads :
    (v : ℕ) (rnd : List ℕ) (pool : Pool) (c : ℕ) (id : Option ℕ)
    → 0 < v
    → read (repack (record_ptrs v rnd) pool) (through v (write_slots 0 rnd (λ e. none)) c id)
      ≡ part_of v rnd c id
unfolding read repack
round_reads v rnd pool c none some_slices = unfold through in refl
round_reads v rnd pool c (some e) some_slices = elim (Bool-cases (contains rnd e)) [
  | inl present ↦
      let slot = write_slots-contains 0 rnd (λ e'. none) e present in
      rw
        (through-some v (write_slots 0 rnd (λ e'. none)) c e (slot.0) some_slices (slot.1), present)
        (rw
          (
            repack,
            get_elem?-record_ptrs v rnd (slot.0) e (c % v) (place_of rnd e (slot.0) (slot.1))
                (omega arith),
          )
          refl)
  | inr absent ↦
      rw
        (
          absent,
          through-none v (write_slots 0 rnd (λ e'. none)) c e
              (write_slots-other 0 rnd (λ e'. none) e absent),
        )
        refl
]
