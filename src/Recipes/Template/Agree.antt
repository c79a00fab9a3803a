-- ===== src/Recipes/Template/Agree.antt =====
-- The launcher's pattern and the runner's agree on a text with no bare {model}.
use mathlib.Core.Path.{subst}
use v_llm_moet.Prelude.{
  ℕ, zero, suc, ◌-◌, Bool, true, false, not, ◌&&◌, ◌||◌, ◌≡◌, refl, Option, none, some, [], ◌∷◌,
  arith, Text, text, is_blank, after_prefix, starts_with, span, Bool-cases, Option-cases, inl, inr,
}
use v_llm_moet.Recipes.Template.{
  Placeholder, planes_cache, own_model, named_model, named, placeholder, joined_to, replaced,
  substitute_from, is_name_char,
}

-- Some placeholder of the text is a bare {model}.
unfoldable pub has_bare : Text → Bool
unfolding starts_with
has_bare [] = false
has_bare (c ∷ s) = starts_with (text "{model}") (c ∷ s) || has_bare s

named-own_model : (t : Text × Text) (n : ℕ) → named t ≡ some (own_model, n) → ⊥
unfolding named
named-own_model (name, rest) n h =
    elim (Bool-cases (not (is_blank name) && starts_with (text "}") rest)) [
      | inl closed ↦ let made = rw (named, closed) at h in cc
      | inr open_ ↦ let made = rw (named, open_) at h in cc
    ]

-- Without a bare {model}, the two patterns match alike.
placeholder-eq :
    (s : Text) → starts_with (text "{model}") s ≡ false → placeholder true s ≡ placeholder false s
unfolding placeholder
placeholder-eq s h = elim (Bool-cases (starts_with (text "{planes_cache}") s)) [
  | inl planes ↦ rw (placeholder, planes) refl
  | inr other ↦ elim (Option-cases (after_prefix (text "{model:") s)) [
    | inl bare ↦ ground (arith, h)
    | inr (t, after) ↦ ground arith
  ]
]

placeholder-own_model : (s : Text) (n : ℕ) → placeholder false s ≡ some (own_model, n) → ⊥
unfolding placeholder
placeholder-own_model s n h = elim (Bool-cases (starts_with (text "{planes_cache}") s)) [
  | inl planes ↦ let made = rw (placeholder, planes) at h in cc
  | inr other ↦ elim (Option-cases (after_prefix (text "{model:") s)) [
    | inl bare ↦ let made = rw (placeholder, other, bare) at h in cc
    | inr (t, after) ↦ named-own_model (span is_name_char t) n (ground (arith, h, other, after))
  ]
]

module _ (value value' : Placeholder → Option Text)
    (planes_agree : (v : Text) → value planes_cache ≡ some v → value' planes_cache ≡ some v)
    (models_agree : (m v : Text)
      → value (named_model m) ≡ some v
      → value' (named_model m) ≡ some v) where
  agree :
      (s : Text) (p : Placeholder) (n : ℕ) (v : Text)
      → placeholder false s ≡ some (p, n)
      → value p ≡ some v
      → value' p ≡ some v
  agree s planes_cache n v h e = planes_agree v e
  agree s (named_model m) n v h e = models_agree m v e
  agree s own_model n v h e = elim (placeholder-own_model s n h) [ ]

  -- Two texts joined are there exactly when both are.
  joined_to-agree :
      (first first' rest rest' : Option Text) (t : Text)
      → ((v : Text) → first ≡ some v → first' ≡ some v)
      → ((v : Text) → rest ≡ some v → rest' ≡ some v)
      → joined_to first rest ≡ some t
      → joined_to first' rest' ≡ some t
  unfolding joined_to
  joined_to-agree none first' rest rest' t f r h = cc
  joined_to-agree (some v) first' none rest' t f r h = cc
  joined_to-agree (some v) first' (some w) rest' t f r h = rw (joined_to, f v refl, r w refl) h

  replaced-agree :
      (c : ℕ) (later later' : ℕ → Option Text) (o : Option (Placeholder × ℕ)) (t : Text)
      → ((p : Placeholder) (n : ℕ) (v : Text)
          → o ≡ some (p, n)
          → value p ≡ some v
          → value' p ≡ some v)
      → ((n : ℕ) (v : Text) → later n ≡ some v → later' n ≡ some v)
      → replaced value c later o ≡ some t
      → replaced value' c later' o ≡ some t
  unfolding replaced
  replaced-agree c later later' none t f r h =
      joined_to-agree (some (c ∷ [])) (some (c ∷ [])) (later 0) (later' 0) t (λ v e. e) (r 0) h
  replaced-agree c later later' (some (p, n)) t f r h =
      joined_to-agree (value p) (value' p) (later (n - 1)) (later' (n - 1)) t (λ v. f p n v refl)
        (r (n - 1)) h

  pub substitute_from-agree :
      (n : ℕ) (s t : Text)
      → has_bare s ≡ false
      → substitute_from true value n s ≡ some t
      → substitute_from false value' n s ≡ some t
  unfolding substitute_from has_bare
  substitute_from-agree n [] t bare h = h
  substitute_from-agree (suc n) (c ∷ s) t bare h =
      substitute_from-agree n s t (ground (arith, bare)) h
  substitute_from-agree zero (c ∷ s) t bare h =
      replaced-agree c (λ n. substitute_from true value n s) (λ n. substitute_from false value' n s)
        (placeholder false (c ∷ s)) t (λ p n v. agree (c ∷ s) p n v)
        (λ n v. substitute_from-agree n s v (ground (arith, bare)))
        (subst (λ o. replaced value c (λ n. substitute_from true value n s) o ≡ some t)
          (placeholder-eq (c ∷ s) (ground (arith, bare))) h)
