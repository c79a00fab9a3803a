-- ===== src/Repack/Identity.antt =====
-- With as many levels as values the levels of `choose_levels` map each code that occurs to itself.
use mathlib.Core.Path.{fun_ext}
use v_llm_moet.Prelude.{
  ℕ, zero, suc, ◌+◌, ◌-◌, ◌/◌, ◌%◌, ◌≤◌, ◌<◌, true, false, ◌&&◌, ltb, leb, ◌==◌, List, [], ◌∷◌,
  length, min, some, ◌≡◌, refl, ap, ◌∙◌, arith, first_below, Bool-cases, ◌⊎◌, inl, inr,
}
use v_llm_moet.Prelude.Int.{ℤ}
use v_llm_moet.Repack.Codes.{code_value, grid, mag_code, code_for_level, build_lut}
use v_llm_moet.Repack.Levels.{
  Hist, occurring, argmin, value_at, rep, split, errors, backtrack, choose_levels,
}
use v_llm_moet.Repack.Files.{Bytes, hist_of, apply_lut}
use v_llm_moet.Repack.Occurring.{
  has_value, all_below, all_below-at, first_nearest-has_value, occurring-code_value, dist_self,
}

occurring-length : (hist : Hist) (vs : List ℤ) → length (occurring hist vs) ≤ length vs
unfolding occurring
occurring-length hist [] = omega arith
occurring-length hist (v ∷ vs) = ground (arith, occurring-length hist vs)

module _ (items : List (ℤ × ℕ)) where
  rep_self : (j : ℕ) → rep items j j ≡ j
  unfolding rep argmin
  rep_self j = let none_left : j - j ≡ 0 = omega arith in rw none_left (omega arith)

  split_full : (n : ℕ) → split items n (suc n) ≡ suc n
  unfolding split argmin
  split_full n = let none_left : suc n - suc n ≡ 0 = omega arith in rw none_left (omega arith)

-- One run for each value: each value is a level.
backtrack-has_value :
    (items : List (ℤ × ℕ)) (n i : ℕ) (more : List ℤ) (x : ℤ)
    → ((i ≤ n) × (value_at items i ≡ x)) ⊎ (has_value x more ≡ true)
    → has_value x (backtrack items n n more) ≡ true
unfolding backtrack has_value
backtrack-has_value items zero i more x h = ground (arith, rep_self items 0, dist_self x)
backtrack-has_value items (suc n) i more x h =
    let last : split items n (suc n) - 1 ≡ n = omega (arith, split_full items n) in
    rw (last, split_full items n, rep_self items (suc n))
      (backtrack-has_value items n i (value_at items (suc n) ∷ more) x
        (ground (arith, dist_self x)))

code_for_level-code_value : (c : ℕ) → c < 16 → code_for_level (code_value c) c ≡ c
unfolding code_for_level code_value mag_code all_below first_below
code_for_level-code_value c lt =
    let same = all_below-at 16 (λ c'. code_for_level (code_value c') c' == c') c refl lt in
    ground arith

build_lut-identity :
    (level : ℤ) (more : List ℤ) (c : ℕ)
    → c < 16
    → has_value (code_value c) (level ∷ more) ≡ true
    → build_lut level more c ≡ c
unfolding build_lut
build_lut-identity level more c code here =
    rw (first_nearest-has_value (code_value c) level more here) (code_for_level-code_value c code)

-- The map of levels keeps the codes whose values they have.
levels-identity :
    (hist : Hist) (c : ℕ) (levels : List ℤ)
    → c < 16
    → 0 < hist c
    → ((c' : ℕ) → c' < 16 → 0 < hist c' → has_value (code_value c') levels ≡ true)
    → (level : ℤ) × (more : List ℤ) × (levels ≡ level ∷ more)
      × ((c' : ℕ) → c' < 16 → 0 < hist c' → build_lut level more c' ≡ c')
levels-identity hist c [] code occurs have =
    absurd (let impossible = have c code occurs in unfold has_value in cc)
levels-identity hist c (level ∷ more) code occurs have = (
  level,
  more,
  refl,
  λ c' code' occurs'. build_lut-identity level more c' code' (have c' code' occurs'),
)

choose_levels_full :
    (hist : Hist) (k : ℕ)
    → 15 ≤ k
    → 0 < length (occurring hist grid)
    → let n = length (occurring hist grid) - 1 in
      choose_levels hist k
      ≡ some (backtrack (occurring hist grid) n n [], errors (occurring hist grid) n n)
unfolding choose_levels
choose_levels_full hist k many some_values =
    let all_values : min k (length (occurring hist grid)) ≡ length (occurring hist grid) =
      omega (arith, occurring-length hist grid) in
    let nonzero : (length (occurring hist grid) == 0) ≡ false = ground arith in
    rw (all_values, nonzero) refl

-- With a level for each value, the map of the levels keeps the codes that occur.
pub choose_levels-identity :
    (hist : Hist) (k c : ℕ)
    → 15 ≤ k
    → c < 16
    → 0 < hist c
    → (level : ℤ) × (more : List ℤ) × (err : ℕ) × (choose_levels hist k ≡ some (level ∷ more, err))
      × ((c' : ℕ) → c' < 16 → 0 < hist c' → build_lut level more c' ≡ c')
choose_levels-identity hist k c many code occurs =
    let items = occurring hist grid in
    let found = occurring-code_value hist c code occurs in
    let n = length items - 1 in
    let kept = levels-identity hist c (backtrack items n n []) code occurs (λ c' code' occurs'.
      let at = occurring-code_value hist c' code' occurs' in
      backtrack-has_value items n (at.0) [] (code_value c') (inl (omega (arith, at.1), at.2))) in
    (
      kept.0,
      kept.1,
      errors items n n,
      choose_levels_full hist k many (omega (arith, found.1))
          ∙ ap (λ levels. some (levels, errors items n n)) (kept.2),
      kept.3,
    )

pub hist_of-low :
    (bytes : Bytes) (at n j : ℕ) → j < n → 0 < hist_of bytes at n (bytes (at + j) % 16)
unfolding hist_of
hist_of-low bytes at zero j lt = absurd (omega arith)
hist_of-low bytes at (suc n) j lt = ground (arith, hist_of-low bytes at n j)

pub hist_of-high :
    (bytes : Bytes) (at n j : ℕ) → j < n → 0 < hist_of bytes at n (bytes (at + j) / 16)
unfolding hist_of
hist_of-high bytes at zero j lt = absurd (omega arith)
hist_of-high bytes at (suc n) j lt = ground (arith, hist_of-high bytes at n j)

-- A table that keeps the bytes of a segment keeps the file.
pub apply_lut-identity :
    (lut : ℕ → ℕ) (at n : ℕ) (bytes : Bytes)
    → ((j : ℕ) → j < n → lut (bytes (at + j)) ≡ bytes (at + j))
    → apply_lut lut at n bytes ≡ bytes
unfolding apply_lut
apply_lut-identity lut at n bytes same = fun_ext λ i.
    elim (Bool-cases (leb at i && ltb i (at + n))) [
      | inl inside ↦
          let split_at : i ≡ at + (i - at) = ground arith in
          rw inside (rw split_at (same (i - at) (ground arith)))
      | inr outside ↦ rw outside refl
    ]
