-- ===== src/Prefill/Missing.antt =====
-- The missing experts of a call, each once, and their division into rounds.
use v_llm_moet.Prelude.{
  ℕ, zero, suc, ◌≤◌, ◌<◌, true, false, ◌||◌, ◌==◌, List, [], ◌∷◌, ◌++◌, length, take, drop,
  take-append-drop, length-drop, contains, count, All, All-map, Option, none, some, Option-cases,
  ◌≡◌, ◌⊎◌, inl, inr, refl, ap, ◌∙◌, arith,
}
use v_llm_moet.Prefill.Routing.{Ids, SlotTable, unique_insert, missing_in_row, missing_experts}
use v_llm_moet.Prefill.Rounds.{rounds_of}

abbrev pub Ascending : List ℕ → Type 0
Ascending = elim [ [] ↦ Unit | x ∷ (xs → rest) ↦ All (λ y. x < y) xs × rest ]

module _ (x y : ℕ) (ys : List ℕ) where
  compared : ((x < y) ⊎ (x ≡ y)) ⊎ (y < x)
  compared = omega arith

  insert_before : x < y → unique_insert x (y ∷ ys) ≡ x ∷ y ∷ ys
  unfolding unique_insert
  insert_before lt = ground arith

  insert_same : x ≡ y → unique_insert x (y ∷ ys) ≡ y ∷ ys
  unfolding unique_insert
  insert_same same = ground arith

  insert_after : y < x → unique_insert x (y ∷ ys) ≡ y ∷ unique_insert x ys
  unfolding unique_insert
  insert_after gt = ground arith

unique_insert-All :
    (b x : ℕ) (ys : List ℕ) → b < x → All (λ y. b < y) ys → All (λ y. b < y) (unique_insert x ys)
unique_insert-All b x [] lt above = unfold unique_insert in (lt, tt)
unique_insert-All b x (y ∷ ys) lt above = elim (compared x y ys) [
  | inl (inl before) ↦ rw (insert_before x y ys before) (lt, above)
  | inl (inr same) ↦ rw (insert_same x y ys same) above
  | inr after ↦ rw (insert_after x y ys after) (above.0, unique_insert-All b x ys lt (above.1))
]

unique_insert-Ascending : (x : ℕ) (ys : List ℕ) → Ascending ys → Ascending (unique_insert x ys)
unique_insert-Ascending x [] asc = unfold unique_insert in (tt, tt)
unique_insert-Ascending x (y ∷ ys) asc = elim (compared x y ys) [
  | inl (inl before) ↦
      rw (insert_before x y ys before)
        ((before, All-map (λ z. y < z) (λ z. x < z) ys (λ z lt. omega arith) (asc.0)), asc)
  | inl (inr same) ↦ rw (insert_same x y ys same) asc
  | inr after ↦
      rw (insert_after x y ys after)
        (unique_insert-All y x ys after (asc.0), unique_insert-Ascending x ys (asc.1))
]

contains-unique_insert :
    (x : ℕ) (ys : List ℕ) (e : ℕ) → contains (unique_insert x ys) e ≡ (x == e || contains ys e)
unfolding unique_insert contains
contains-unique_insert x [] e = refl
contains-unique_insert x (y ∷ ys) e = ground (arith, contains-unique_insert x ys e)

count_above : (x : ℕ) (ys : List ℕ) → All (λ y. x < y) ys → count x ys ≡ 0
unfolding count
count_above x [] above = refl
count_above x (y ∷ ys) above = ground (arith, above.0, count_above x ys (above.1))

pub Ascending-count : (ys : List ℕ) (e : ℕ) → Ascending ys → count e ys ≤ 1
unfolding count
Ascending-count [] e asc = omega arith
Ascending-count (y ∷ ys) e asc =
    ground (arith, Ascending-count ys e (asc.1), count_above y ys (asc.0))

missing_in_row-Ascending :
    (table : SlotTable) (row : List (Option ℕ)) (found : List ℕ)
    → Ascending found
    → Ascending (missing_in_row table row found)
unfolding missing_in_row
missing_in_row-Ascending table [] found asc = asc
missing_in_row-Ascending table (none ∷ row) found asc = missing_in_row-Ascending table row found asc
missing_in_row-Ascending table (some e ∷ row) found asc = elim (Option-cases (table e)) [
  | inl absent ↦
      rw (missing_in_row, absent)
        (unique_insert-Ascending e (missing_in_row table row found)
          (missing_in_row-Ascending table row found asc))
  | inr (slot, present) ↦
      rw (missing_in_row, present) (missing_in_row-Ascending table row found asc)
]

pub missing_experts-Ascending :
    (table : SlotTable) (ids : Ids) → Ascending (missing_experts table ids)
unfolding missing_experts
missing_experts-Ascending table [] = tt
missing_experts-Ascending table (row ∷ rows) =
    missing_in_row-Ascending table row (missing_experts table rows)
      (missing_experts-Ascending table rows)

-- A pair's expert is among the missing ones if it has no slot.
abbrev pub IsKnown : SlotTable → List ℕ → Option ℕ → Type 0
IsKnown table missing none = Unit
IsKnown table missing (some e) = table e ≡ none → contains missing e ≡ true

IsKnown-more :
    (table : SlotTable) (few more : List ℕ)
    → ((e : ℕ) → contains few e ≡ true → contains more e ≡ true)
    → (id : Option ℕ) → IsKnown table few id
    → IsKnown table more id
IsKnown-more table few more keep none known = tt
IsKnown-more table few more keep (some e) known = λ absent. keep e (known absent)

module _ (table : SlotTable) where
  -- A pair adds its expert, if this has no slot.
  missing_pair :
      (x : ℕ) (row : List (Option ℕ)) (found : List ℕ) (e : ℕ)
      → contains (missing_in_row table (some x ∷ row) found) e ≡ (
          elim (table x) [ none ↦ x == e | some slot ↦ false ]
          || contains (missing_in_row table row found) e)
  unfolding missing_in_row unique_insert
  missing_pair x row found e = elim (Option-cases (table x)) [
    | inl absent ↦
        rw (missing_in_row, absent) (contains-unique_insert x (missing_in_row table row found) e)
    | inr (slot, present) ↦ rw (missing_in_row, present) refl
  ]

  missing_in_row-keeps :
      (row : List (Option ℕ)) (found : List ℕ) (e : ℕ)
      → contains found e ≡ true
      → contains (missing_in_row table row found) e ≡ true
  unfolding missing_in_row
  missing_in_row-keeps [] found e h = h
  missing_in_row-keeps (none ∷ row) found e h = missing_in_row-keeps row found e h
  missing_in_row-keeps (some x ∷ row) found e h =
      missing_pair x row found e ∙ ground (arith, missing_in_row-keeps row found e h)

  missing_in_row-none :
      (row : List (Option ℕ)) (found : List ℕ) (e slot : ℕ)
      → table e ≡ some slot
      → contains found e ≡ false
      → contains (missing_in_row table row found) e ≡ false
  unfolding missing_in_row
  missing_in_row-none [] found e slot at h = h
  missing_in_row-none (none ∷ row) found e slot at h = missing_in_row-none row found e slot at h
  missing_in_row-none (some x ∷ row) found e slot at h =
      missing_pair x row found e
      ∙ ground (arith, at, missing_in_row-none row found e slot at h, ap table)

  missing_in_row-All :
      (row : List (Option ℕ)) (found : List ℕ)
      → All (IsKnown table (missing_in_row table row found)) row
  unfolding missing_in_row
  missing_in_row-All [] found = tt
  missing_in_row-All (none ∷ row) found = (tt, missing_in_row-All row found)
  missing_in_row-All (some x ∷ row) found = (
    λ absent. missing_pair x row found x ∙ ground (arith, absent),
    All-map (IsKnown table (missing_in_row table row found))
        (IsKnown table (missing_in_row table (some x ∷ row) found)) row
        (IsKnown-more table (missing_in_row table row found)
          (missing_in_row table (some x ∷ row) found)
          (λ e h. missing_pair x row found e ∙ ground (arith, h)))
        (missing_in_row-All row found),
  )

  -- Every pair's expert without a slot is missing,
  pub missing_experts-All : (ids : Ids) → All (All (IsKnown table (missing_experts table ids))) ids
  unfolding missing_experts
  missing_experts-All [] = tt
  missing_experts-All (row ∷ rows) = (
    missing_in_row-All row (missing_experts table rows),
    All-map (All (IsKnown table (missing_experts table rows))) _ rows
        (λ r known.
          All-map (IsKnown table (missing_experts table rows)) _ r
            (IsKnown-more table (missing_experts table rows) _
              (missing_in_row-keeps row (missing_experts table rows)))
            known)
        (missing_experts-All rows),
  )

  -- and none that has one.
  pub missing_experts-none :
      (ids : Ids) (e slot : ℕ)
      → table e ≡ some slot
      → contains (missing_experts table ids) e ≡ false
  unfolding missing_experts contains
  missing_experts-none [] e slot at = refl
  missing_experts-none (row ∷ rows) e slot at =
      missing_in_row-none row (missing_experts table rows) e slot at
        (missing_experts-none rows e slot at)

-- The rounds are the missing experts in their order.
unfoldable pub concat : List (List ℕ) → List ℕ
concat [] = []
concat (rnd ∷ rounds) = rnd ++ concat rounds

pub concat-rounds_of :
    (fuel n : ℕ) (missing : List ℕ)
    → 0 < n
    → length missing ≤ fuel
    → concat (rounds_of fuel n missing) ≡ missing
unfolding rounds_of concat
concat-rounds_of zero n [] some_slots enough = refl
concat-rounds_of zero n (e ∷ es) some_slots enough = absurd (omega arith)
concat-rounds_of (suc fuel) n [] some_slots enough = refl
concat-rounds_of (suc fuel) n (e ∷ es) some_slots enough =
    ap (λ rest. take n (e ∷ es) ++ rest)
      (concat-rounds_of fuel n (drop n (e ∷ es)) some_slots (omega (arith, length-drop n (e ∷ es))))
    ∙ take-append-drop n (e ∷ es)
