-- ===== src/Repack/Ties.antt =====
-- The lists of levels that `_nearest_level` filters and searches.
use v_llm_moet.Prelude.{
  ◌≤◌, Bool, true, ltb, leb, Bool-cases, [], ◌∷◌, ◌≡◌, refl, ap, ◌∙◌, ◌⊎◌, inl, inr, arith,
}
use v_llm_moet.Prelude.Int.{ℤ}
use v_llm_moet.Repack.Codes.{dist, magnitude}
use v_llm_moet.Repack.Sets.{Levels, least_dist, filter, least_magnitude}
use v_llm_moet.Repack.Occurring.{has_value, dist-eq-zero, dist_self}

pub has_value_head :
    (v x : ℤ) (xs : Levels) → has_value v (x ∷ xs) ≡ true → (v ≡ x) ⊎ (has_value v xs ≡ true)
unfolding has_value
has_value_head v x xs h = ground (arith, h, dist-eq-zero v x)

pub has_value_self : (x : ℤ) (xs : Levels) → has_value x (x ∷ xs) ≡ true
unfolding has_value
has_value_self x xs = ground (arith, dist_self x)

pub has_value_tail : (v x : ℤ) (xs : Levels) → has_value v xs ≡ true → has_value v (x ∷ xs) ≡ true
unfolding has_value
has_value_tail v x xs h = ground arith

pub filter-has_value :
    (p : ℤ → Bool) (v : ℤ) (xs : Levels)
    → p v ≡ true
    → has_value v xs ≡ true
    → has_value v (filter p xs) ≡ true
unfolding filter
filter-has_value p v [] passes h = h
filter-has_value p v (x ∷ xs) passes h = ground (
  arith,
  has_value_head v x xs h,
  filter-has_value p v xs passes,
  has_value_self x (filter p xs),
  has_value_tail v x (filter p xs),
)

pub has_value-filter :
    (p : ℤ → Bool) (v : ℤ) (xs : Levels)
    → has_value v (filter p xs) ≡ true
    → (p v ≡ true) × (has_value v xs ≡ true)
unfolding filter
has_value-filter p v [] h = absurd (unfold has_value in cc)
has_value-filter p v (x ∷ xs) h = elim (Bool-cases (p x)) [
  | inl passes ↦ elim (has_value_head v x (filter p xs) (rw passes at h)) [
    | inl here ↦ (ap p here ∙ passes, rw here (has_value_self x xs))
    | inr there ↦
        let rest = has_value-filter p v xs there in (rest.0, has_value_tail v x xs (rest.1))
  ]
  | inr fails ↦
      let rest = has_value-filter p v xs (rw fails at h) in (rest.0, has_value_tail v x xs (rest.1))
]

pub least_magnitude-has_value :
    (level : ℤ) (levels : Levels) → has_value (least_magnitude level levels) (level ∷ levels) ≡ true
unfolding least_magnitude has_value
least_magnitude-has_value level [] = ground (arith, dist_self level)
least_magnitude-has_value level (next ∷ levels) =
    ground (arith, least_magnitude-has_value level levels, least_magnitude-has_value next levels)

least_magnitude-first :
    (level : ℤ) (levels : Levels) → magnitude (least_magnitude level levels) ≤ magnitude level
unfolding least_magnitude
least_magnitude-first level [] = omega arith
least_magnitude-first level (next ∷ levels) =
    ground (arith, least_magnitude-first level levels, least_magnitude-first next levels)

pub least_magnitude-least :
    (level : ℤ) (levels : Levels) (v : ℤ)
    → has_value v (level ∷ levels) ≡ true
    → magnitude (least_magnitude level levels) ≤ magnitude v
unfolding least_magnitude
least_magnitude-least level [] v h = elim (has_value_head v level [] h) [
  | inl here ↦ rw here (omega arith)
  | inr there ↦ absurd (unfold has_value in cc)
]
least_magnitude-least level (next ∷ levels) v h =
    let own = least_magnitude-first level levels in
    let of_next = least_magnitude-first next levels in
    elim (Bool-cases (ltb (magnitude next) (magnitude level))) [
      | inl smaller ↦ rw smaller (elim (has_value_head v level (next ∷ levels) h) [
        | inl here ↦ rw here (ground (arith, of_next, smaller))
        | inr there ↦ least_magnitude-least next levels v there
      ])
      | inr larger ↦ rw larger (elim (has_value_head v level (next ∷ levels) h) [
        | inl here ↦ rw here own
        | inr there ↦ elim (has_value_head v next levels there) [
          | inl second ↦ rw second (ground (arith, own, larger))
          | inr rest ↦ least_magnitude-least level levels v (has_value_tail v level levels rest)
        ]
      ])
    ]

pub least_dist-least :
    (x level : ℤ) (levels : Levels) (v : ℤ)
    → has_value v (level ∷ levels) ≡ true
    → least_dist x level levels ≤ dist v x
unfolding least_dist has_value
least_dist-least x level [] v h = ground (arith, h, dist-eq-zero v level)
least_dist-least x level (next ∷ levels) v h =
    ground (arith, h, dist-eq-zero v level, least_dist-least x next levels v)

pub least_dist-hit :
    (x level : ℤ) (levels : Levels)
    → (v : ℤ) × (has_value v (level ∷ levels) ≡ true) × (dist v x ≡ least_dist x level levels)
unfolding least_dist
least_dist-hit x level [] = (level, has_value_self level [], refl)
least_dist-hit x level (next ∷ levels) =
    let rest = least_dist-hit x next levels in
    elim (Bool-cases (leb (dist level x) (least_dist x next levels))) [
      | inl first ↦ (level, has_value_self level (next ∷ levels), ground arith)
      | inr later ↦
          (rest.0, has_value_tail (rest.0) level (next ∷ levels) (rest.1), ground (arith, rest.2))
    ]
