-- ===== src/Repack/Occurring.antt =====
-- Values in lists of levels, and the values that a histogram makes occur.
use v_llm_moet.Prelude.{
  ℕ, zero, suc, ◌≤◌, ◌<◌, Bool, true, false, ◌&&◌, ◌||◌, ltb, ◌==◌, List, [], ◌∷◌, length,
  Bool-cases, inl, inr, ==_iff, lt→ltb, ◌≡◌, refl, arith,
}
use v_llm_moet.Prelude.Int.{ℤ, eq_of_parts}
use v_llm_moet.Repack.Codes.{code_value, grid, dist, first_nearest}
use v_llm_moet.Repack.Levels.{Hist, weight_of, occurring, value_at}

pub dist-eq-zero : (a b : ℤ) → dist a b ≡ 0 → a ≡ b
dist-eq-zero a b h = eq_of_parts a b (omega arith)

pub dist_self : (a : ℤ) → dist a a ≡ 0
dist_self a = omega arith

unfoldable pub has_value : ℤ → List ℤ → Bool
has_value x [] = false
has_value x (v ∷ vs) = dist x v == 0 || has_value x vs

-- A test on the numbers below a bound
unfoldable pub all_below : ℕ → (ℕ → Bool) → Bool
all_below zero p = true
all_below (suc n) p = all_below n p && p n

pub all_below-at : (n : ℕ) (p : ℕ → Bool) (c : ℕ) → all_below n p ≡ true → c < n → p c ≡ true
unfolding all_below
all_below-at zero p c h lt = absurd (omega arith)
all_below-at (suc n) p c h lt = ground (arith, all_below-at n p c)

first_nearest_le :
    (x level : ℤ) (levels : List ℤ) → dist (first_nearest x level levels) x ≤ dist level x
unfolding first_nearest
first_nearest_le x level [] = omega arith
first_nearest_le x level (next ∷ levels) =
    ground (arith, first_nearest_le x level levels, first_nearest_le x next levels)

-- The nearest level of a level is itself.
pub first_nearest-has_value :
    (x level : ℤ) (levels : List ℤ)
    → has_value x (level ∷ levels) ≡ true
    → first_nearest x level levels ≡ x
unfolding has_value first_nearest
first_nearest-has_value x level [] h = ground (arith, dist-eq-zero x level)
first_nearest-has_value x level (next ∷ levels) h = ground (
  arith,
  first_nearest-has_value x level levels,
  first_nearest-has_value x next levels,
  dist-eq-zero x level,
  dist-eq-zero x next,
)

weight_of_le : (n : ℕ) (hist : Hist) (c : ℕ) → c < n → hist c ≤ weight_of n hist (code_value c)
unfolding weight_of
weight_of_le zero hist c lt = absurd (omega arith)
weight_of_le (suc n) hist c lt = ground (arith, weight_of_le n hist c, dist_self (code_value c))

-- Each value of the list that occurs is a value of its items.
occurring-has_value :
    (hist : Hist) (x : ℤ) (vs : List ℤ)
    → 0 < weight_of 16 hist x
    → has_value x vs ≡ true
    → (i : ℕ) × (i < length (occurring hist vs)) × (value_at (occurring hist vs) i ≡ x)
unfolding occurring has_value
occurring-has_value hist x [] some_weight h = absurd cc
occurring-has_value hist x (v ∷ vs) some_weight h = elim (Bool-cases (dist x v == 0)) [
  | inl here ↦
      let same = dist-eq-zero x v ((==_iff (dist x v) 0).0 here) in
      rw (← same, lt→ltb 0 (weight_of 16 hist x) some_weight) (0, omega arith, refl)
  | inr there ↦
      let rest = occurring-has_value hist x vs some_weight (ground (arith, h)) in
      elim (Bool-cases (ltb 0 (weight_of 16 hist v))) [
        | inl kept ↦ rw kept (suc (rest.0), omega (arith, rest.1), rest.2)
        | inr dropped ↦ rw dropped rest
      ]
]

code_value-has_value : (c : ℕ) → c < 16 → has_value (code_value c) grid ≡ true
unfolding all_below has_value code_value
code_value-has_value c lt = all_below-at 16 (λ c'. has_value (code_value c') grid) c refl lt

pub occurring-code_value :
    (hist : Hist) (c : ℕ)
    → c < 16
    → 0 < hist c
    → (i : ℕ) × (i < length (occurring hist grid))
      × (value_at (occurring hist grid) i ≡ code_value c)
occurring-code_value hist c lt occurs =
    occurring-has_value hist (code_value c) grid
      (let bound = weight_of_le 16 hist c lt in omega arith) (code_value-has_value c lt)
