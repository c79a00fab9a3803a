-- ===== src/Prefill/Sums.antt =====
-- The parts of all runs of a call, summed: each pair's record once.
use v_llm_moet.Prelude.{
  ℕ, suc, ◌+◌, ◌*◌, ◌%◌, ◌≤◌, ◌<◌, Bool, true, false, if◌then◌else◌, Bool-cases, List, [], ◌∷◌,
  ◌++◌, contains, contains-append, count, All, Option, none, some, Option-cases, ◌≡◌, inl, inr,
  refl, ◌∙◌, arith,
}
use v_llm_moet.Prefill.Routing.{Ids, SlotTable, map_cols, map_rows, through}
use v_llm_moet.Prefill.Rounds.{Record, Pool, read, add_read}
use v_llm_moet.Prefill.Reads.{part_of, through-some, through-none}
use v_llm_moet.Prefill.Missing.{IsKnown, concat}
use v_llm_moet.Prefill.Stages.{sum_parts}

count-append : (e : ℕ) (xs ys : List ℕ) → count e (xs ++ ys) ≡ count e xs + count e ys
unfolding count
count-append e [] ys = omega arith
count-append e (x ∷ xs) ys = omega (arith, count-append e xs ys)

contains-count : (e : ℕ) (xs : List ℕ) → contains xs e ≡ true → 0 < count e xs
unfolding contains count
contains-count e [] h = absurd cc
contains-count e (x ∷ xs) h = ground (arith, h, contains-count e xs)

-- A pair's records after the rounds, if its expert is in at most one of them
unfoldable pub with_record : ℕ → ℕ → ℕ → Bool → List Record → List Record
with_record v c e here records = if here then records ++ (e, c % v) ∷ [] else records

one_more :
    (v c e : ℕ) (rnd later : List ℕ) (records : List Record)
    → count e (rnd ++ later) ≤ 1
    → with_record v c e (contains later e) (add_read records (part_of v rnd c (some e)))
      ≡ with_record v c e (contains (rnd ++ later) e) records
unfolding with_record add_read
one_more v c e rnd later records once =
    rw (contains-append rnd later e) (elim (Bool-cases (contains rnd e)) [
      | inl here ↦ elim (Bool-cases (contains later e)) [
        | inl again ↦ absurd (
            omega (
              arith,
              count-append e rnd later,
              contains-count e rnd here,
              contains-count e later again,
            ))
        | inr once' ↦ rw (here, once') refl
      ]
      | inr elsewhere ↦ rw elsewhere refl
    ])

sum_parts-some :
    (v : ℕ) (rounds : List (List ℕ)) (acc : ℕ → Option ℕ → List Record) (c e : ℕ)
    → count e (concat rounds) ≤ 1
    → sum_parts v rounds acc c (some e)
      ≡ with_record v c e (contains (concat rounds) e) (acc c (some e))
unfolding sum_parts concat
sum_parts-some v [] acc c e once = unfold contains with_record in refl
sum_parts-some v (rnd ∷ rounds) acc c e once =
    let rest =
      sum_parts-some v rounds (λ col id. add_read (acc col id) (part_of v rnd col id)) c e
        (omega (arith, count-append e rnd (concat rounds))) in
    rest ∙ one_more v c e rnd (concat rounds) (acc c (some e)) once

sum_parts-none :
    (v : ℕ) (rounds : List (List ℕ)) (acc : ℕ → Option ℕ → List Record) (c : ℕ)
    → sum_parts v rounds acc c none ≡ acc c none
unfolding sum_parts add_read
sum_parts-none v [] acc c = refl
sum_parts-none v (rnd ∷ rounds) acc c = sum_parts-none v rounds _ c

-- The layer's pool holds the slices of the experts that have slots.
abbrev pub HoldsResident : ℕ → SlotTable → Pool → Type 0
HoldsResident v table resident =
    (e slot w : ℕ) → table e ≡ some slot → w < v → resident (slot * v + w) ≡ some (e, w)

-- What the stock run gives a pair
abbrev pub stock_part : ℕ → SlotTable → Pool → ℕ → Option ℕ → List Record
stock_part v table resident c id = add_read [] (read resident (through v table c id))

-- What a pair must have had added in the end: the record of its expert and of its column's slice
unfoldable pub wanted : ℕ → ℕ → Option ℕ → List Record
wanted v c none = []
wanted v c (some e) = (e, c % v) ∷ []

pub sum_parts-wanted :
    (v : ℕ) (table : SlotTable) (resident : Pool) (rounds : List (List ℕ)) (c : ℕ) (id : Option ℕ)
    → 0 < v
    → HoldsResident v table resident
    → ((e : ℕ) → count e (concat rounds) ≤ 1)
    → ((e slot : ℕ) → table e ≡ some slot → contains (concat rounds) e ≡ false)
    → IsKnown table (concat rounds) id
    → sum_parts v rounds (stock_part v table resident) c id ≡ wanted v c id
unfolding wanted with_record read add_read
sum_parts-wanted v table resident rounds c none some_slices holds once absent known =
    sum_parts-none v rounds (stock_part v table resident) c ∙ unfold through in refl
sum_parts-wanted v table resident rounds c (some e) some_slices holds once absent known =
    sum_parts-some v rounds (stock_part v table resident) c e (once e)
    ∙ elim (Option-cases (table e)) [
      | inl no_slot ↦ rw (known no_slot, through-none v table c e no_slot) refl
      | inr (slot, at) ↦
          rw (absent e slot at, through-some v table c e slot some_slices at)
            (rw (holds e slot (c % v) at (omega arith)) refl)
    ]

module _ {ℓ} {B : Type ℓ} (Holds : Option ℕ → Type 0) (f g : ℕ → Option ℕ → B)
    (same : (c : ℕ) (id : Option ℕ) → Holds id → f c id ≡ g c id) where
  map_cols-All :
      (c : ℕ) (row : List (Option ℕ)) → All Holds row → map_cols f c row ≡ map_cols g c row
  unfolding map_cols
  map_cols-All c [] all = refl
  map_cols-All c (id ∷ row) all = rw (same c id (all.0), map_cols-All (suc c) row (all.1)) refl

  pub map_rows-All : (ids : Ids) → All (All Holds) ids → map_rows f ids ≡ map_rows g ids
  unfolding map_rows
  map_rows-All [] all = refl
  map_rows-All (row ∷ ids) all = rw (map_cols-All 0 row (all.0), map_rows-All ids (all.1)) refl
