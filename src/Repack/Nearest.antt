-- ===== src/Repack/Nearest.antt =====
-- `_nearest_level` chooses a nearest level, of the code's sign and of small magnitude among the ties.
use v_llm_moet.Prelude.{
  ℕ, ◌≤◌, Bool, true, leb, ◌==◌, [], ◌∷◌, ◌≡◌, refl, sym, ap, ◌∙◌, ◌⊎◌, inl, inr, arith, ==_iff,
}
use v_llm_moet.Prelude.Int.{ℤ}
use v_llm_moet.Repack.Codes.{code_value, dist, magnitude}
use v_llm_moet.Repack.Sets.{
  Levels, least_dist, filter, matches_sign, least_magnitude, of_sign, nearest_level,
}
use v_llm_moet.Repack.Occurring.{has_value, dist-eq-zero}
use v_llm_moet.Repack.Ties.{
  filter-has_value, has_value-filter, least_magnitude-has_value, least_magnitude-least,
  least_dist-least, least_dist-hit,
}

List-cases : (xs : Levels) → (xs ≡ []) ⊎ ((y : ℤ) × (ys : Levels) × (xs ≡ y ∷ ys))
List-cases [] = inl refl
List-cases (y ∷ ys) = inr (y, ys, refl)

has_value_one : (v x : ℤ) → has_value v (x ∷ []) ≡ true → v ≡ x
unfolding has_value
has_value_one v x h = ground (arith, h, dist-eq-zero v x)

-- What `min(cand, key=abs)` gets, of candidates that are not none: they are candidates, and if one
-- candidate has the code's sign, they are those that have it.
record Picked (neg : Bool) (cand : Levels) : Type 0 where
  first : ℤ
  rest : Levels
  picked : of_sign neg cand ≡ first ∷ rest
  candidates : (l : ℤ) → has_value l (first ∷ rest) ≡ true → has_value l cand ≡ true
  all_of_sign :
      (l : ℤ)
      → has_value l cand ≡ true
      → matches_sign neg l ≡ true
      → (has_value l (first ∷ rest) ≡ true)
        × ((m : ℤ) → has_value m (first ∷ rest) ≡ true → matches_sign neg m ≡ true)

of_sign-Picked : (neg : Bool) (cand : Levels) (v : ℤ) → has_value v cand ≡ true → Picked neg cand
unfolding of_sign
of_sign-Picked neg [] v h = absurd (unfold has_value in cc)
of_sign-Picked neg (one ∷ []) v h = record {
  first = one;
  rest = [];
  picked = refl;
  candidates = λ l in_list. in_list;
  all_of_sign = λ l in_list matches. (
    in_list,
    λ m same.
        ap (matches_sign neg) (has_value_one m one same ∙ sym (has_value_one l one in_list))
        ∙ matches,
  );
}
of_sign-Picked neg (one ∷ (two ∷ more)) v h =
    let cand = one ∷ two ∷ more in
    elim (List-cases (filter (matches_sign neg) (one ∷ two ∷ more))) [
      | inl no_match ↦ record {
        first = one;
        rest = two ∷ more;
        picked = rw (of_sign, no_match) refl;
        candidates = λ l in_list. in_list;
        all_of_sign = λ l in_list matches.
            let impossible : has_value l [] ≡ true =
              rw no_match at (filter-has_value (matches_sign neg) l cand matches in_list) in
            absurd (unfold has_value in cc);
      }
      | inr (y, ys, some_match) ↦ record {
        first = y;
        rest = ys;
        picked = rw (of_sign, some_match) refl;
        candidates =
            λ l in_list. (has_value-filter (matches_sign neg) l cand (rw some_match in_list)).1;
        all_of_sign = λ l in_list matches. (
          rw some_match at (filter-has_value (matches_sign neg) l cand matches in_list),
          λ m same. (has_value-filter (matches_sign neg) m cand (rw some_match same)).0,
        );
      }
    ]

abbrev candidates_of : ℤ → Levels → ℕ → Levels
candidates_of level levels c =
    filter (λ l. dist l (code_value c) == least_dist (code_value c) level levels) (level ∷ levels)

nearest_level-eq :
    (level : ℤ) (levels : Levels) (c : ℕ) (first : ℤ) (rest : Levels)
    → of_sign (leb 8 c) (candidates_of level levels c) ≡ first ∷ rest
    → nearest_level level levels c ≡ least_magnitude first rest
unfolding nearest_level
nearest_level-eq level levels c first rest picked = rw (nearest_level, picked) refl

-- A candidate is a level at the least distance.
candidate-IsLeast :
    (level : ℤ) (levels : Levels) (c : ℕ) (v : ℤ)
    → has_value v (candidates_of level levels c) ≡ true
    → (has_value v (level ∷ levels) ≡ true)
      × (dist v (code_value c) ≡ least_dist (code_value c) level levels)
candidate-IsLeast level levels c v h =
    let both = has_value-filter _ v (level ∷ levels) h in (both.1, (==_iff _ _).0 (both.0))

is_candidate :
    (level : ℤ) (levels : Levels) (c : ℕ) (v : ℤ)
    → has_value v (level ∷ levels) ≡ true
    → dist v (code_value c) ≡ least_dist (code_value c) level levels
    → has_value v (candidates_of level levels c) ≡ true
is_candidate level levels c v h near = filter-has_value _ v (level ∷ levels) ((==_iff _ _).1 near) h

-- The nearest level of a code is one of the levels, none is nearer, and if an equally near level has
-- the sign of the code (or is 0), it has that sign too and no larger magnitude.
pub nearest_level-least :
    (level : ℤ) (levels : Levels) (c : ℕ) (l : ℤ)
    → has_value l (level ∷ levels) ≡ true
    → let x = code_value c in
      let r = nearest_level level levels c in
      (has_value r (level ∷ levels) ≡ true)
      × (dist r x ≤ dist l x)
      × (dist l x ≡ dist r x
          → matches_sign (leb 8 c) l ≡ true
          → (matches_sign (leb 8 c) r ≡ true) × (magnitude r ≤ magnitude l))
nearest_level-least level levels c l in_levels =
    let x = code_value c in
    let cand = candidates_of level levels c in
    let hit = least_dist-hit x level levels in
    let p =
      of_sign-Picked (leb 8 c) cand (hit.0) (is_candidate level levels c (hit.0) (hit.1) (hit.2)) in
    let r = least_magnitude (p.first) (p.rest) in
    let in_picked = least_magnitude-has_value (p.first) (p.rest) in
    let least = candidate-IsLeast level levels c r (p.candidates r in_picked) in
    rw (nearest_level-eq level levels c (p.first) (p.rest) (p.picked)) (
      least.0,
      omega (arith, least.1, least_dist-least x level levels l in_levels),
      λ near matches.
          let also = is_candidate level levels c l in_levels (near ∙ least.1) in
          let signed = p.all_of_sign l also matches in
          (signed.1 r in_picked, least_magnitude-least (p.first) (p.rest) l (signed.0)),
    )
