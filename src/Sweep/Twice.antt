-- ===== src/Sweep/Twice.antt =====
-- What `apply_serve_json` sets, and that it sets it again.
use mathlib.Core.Path.{subst}
use v_llm_moet.Prelude.{
  ℕ, Bool, true, false, not, ◌&&◌, ◌≡◌, refl, sym, ap, ◌∙◌, Option, none, some, List, [], ◌∷◌, ◌++◌,
  ◌==◌, Result, ok, raise, arith, Text, text_eq, text_eq_refl, Dict, insert, lookup, lookup-insert,
  if◌then◌else◌, is_blank, span, Bool-cases, inl, inr, >>=-eq-ok,
}
use v_llm_moet.Sweep.{
  Json, Error, value_error, after_space, partition, set_parts, set_json, apply_serve_json,
}

-- The characters before the stop are read again.
span-append :
    (p : ℕ → Bool) (s u : Text) (c : ℕ)
    → p c ≡ false
    → span p ((span p s).0 ++ c ∷ u) ≡ ((span p s).0, c ∷ u)
unfolding span
span-append p [] u c h = rw h refl
span-append p (d ∷ s) u c h = elim (Bool-cases (p d)) [
  | inl goes_on ↦ rw goes_on (rw (span-append p s u c h, goes_on) refl)
  | inr stops ↦ rw stops (rw h refl)
]

insert_twice :
    {V : Type 0} (k : Text) (v w : V) (d : Dict V) → insert k w (insert k v d) ≡ insert k w d
unfolding insert
insert_twice k v w [] = rw (text_eq_refl k) refl
insert_twice k v w ((j, x) ∷ d) = elim (Bool-cases (text_eq j k)) [
  | inl same ↦ rw same (rw same refl)
  | inr differs ↦ rw differs (rw (differs, insert_twice k v w d) refl)
]

module _ (json : Json) where
  open json use {Value, loads, dumps, str, loads-dumps, dumps_filled}

  partition-joined : (a u : Text) → partition ((partition a).0 ++ 32 ∷ u) ≡ ((partition a).0, u)
  unfolding partition after_space
  partition-joined a u = rw (span-append (λ c. not (c == 32)) a u 32 refl) refl

  -- What setting the parts of an argument gives, if they are a flag and an object.
  set_parts_done :
      (arg key : Text) (v : Value) (a flag rest : Text) (d : Dict Value)
      → text_eq flag arg ≡ true
      → is_blank rest ≡ false
      → loads rest ≡ some d
      → set_parts json arg key v a (flag, rest) ≡ ok (flag ++ 32 ∷ dumps (insert key v d))
  unfolding set_parts
  set_parts_done arg key v a flag rest d same filled read = rw (set_parts, same, filled, read) refl

  -- An argument that has been set is set again like the object it holds.
  set_json_done :
      (arg key : Text) (w : Value) (a : Text) (d : Dict Value)
      → text_eq (partition a).0 arg ≡ true
      → set_json json arg key w ((partition a).0 ++ 32 ∷ dumps d)
        ≡ ok ((partition a).0 ++ 32 ∷ dumps (insert key w d))
  unfolding set_json
  set_json_done arg key w a d same =
      let b = (partition a).0 ++ 32 ∷ dumps d in
      ap (set_parts json arg key w b) (partition-joined a (dumps d))
      ∙ set_parts_done arg key w b (partition a).0 (dumps d) d same (dumps_filled d) (loads-dumps d)

  set_read_twice :
      (arg key : Text) (v w : Value) (a b : Text) (o : Option (Dict Value))
      → loads (partition a).1 ≡ o
      → text_eq (partition a).0 arg ≡ true
      → is_blank (partition a).1 ≡ false
      → set_json json arg key v a ≡ ok b
      → set_json json arg key w b ≡ set_json json arg key w a
  unfolding set_json set_parts
  set_read_twice arg key v w a b none read same filled h =
      let failed : ◌≡◌ {A = Result Error Text} (raise value_error) (ok b) =
        rw (set_json, set_parts, same, filled, read) at h in
      cc
  set_read_twice arg key v w a b (some d) read same filled h =
      let set_once =
        set_parts_done arg key v a (partition a).0 (partition a).1 d same filled read in
      let set_last =
        set_parts_done arg key w a (partition a).0 (partition a).1 d same filled read in
      let made : ◌≡◌ {A = Result Error Text} (ok ((partition a).0 ++ 32 ∷ dumps (insert key v d)))
          (ok b) =
        sym set_once ∙ h in
      let equal : (partition a).0 ++ 32 ∷ dumps (insert key v d) ≡ b = cc in
      ap (set_json json arg key w) (sym equal)
      ∙ set_json_done arg key w a (insert key v d) same
      ∙ ap (λ e. ok ((partition a).0 ++ 32 ∷ dumps e)) (insert_twice key v w d)
      ∙ sym set_last

  -- The argument is the flag's, with a value.
  abbrev pub is_flagged : Text → Text → Bool
  is_flagged arg a = text_eq (partition a).0 arg && not (is_blank (partition a).1)

  set_json-kept :
      (arg key : Text) (v : Value) (a b : Text)
      → is_flagged arg a ≡ false
      → set_json json arg key v a ≡ ok b
      → a ≡ b
  unfolding set_json set_parts
  set_json-kept arg key v a b other h =
      let same : ◌≡◌ {A = Result Error Text} (ok a) (ok b) = rw (set_json, set_parts, other) at h in
      cc

  set_json_twice :
      (arg key : Text) (v w : Value) (a b : Text)
      → set_json json arg key v a ≡ ok b
      → set_json json arg key w b ≡ set_json json arg key w a
  unfolding set_json set_parts
  set_json_twice arg key v w a b h =
      elim (Bool-cases (text_eq (partition a).0 arg && not (is_blank (partition a).1))) [
        | inr other ↦ ap (set_json json arg key w) (sym (set_json-kept arg key v a b other h))
        | inl matches ↦
            set_read_twice arg key v w a b (loads (partition a).1) refl (ground (arith, matches))
              (ground (arith, matches)) h
      ]

  -- An object with the key set, and else as another object
  abbrev pub IsWith : Text → Value → Dict Value → Dict Value → Type 0
  IsWith key v d d' = (j : Text) → lookup j d' ≡ (if text_eq key j then some v else lookup j d)

  -- An argument with its flag kept, and its object with the key set
  abbrev pub HasSet : Text → Text → Value → Text → Text → Type 0
  HasSet arg key v a b =
      (d : Dict Value) × (d' : Dict Value) × (loads (partition a).1 ≡ some d)
      × ((partition b).0 ≡ (partition a).0)
      × (loads (partition b).1 ≡ some d')
      × IsWith key v d d'

  -- Each argument of the flag has its object's key set, and each other argument is kept.
  pub data AllSet (arg key : Text) (v : Value) : List Text → List Text → Type 0 where
    done : AllSet arg key v [] []
    set :
        {a b : Text} {as' bs : List Text}
        → is_flagged arg a ≡ true
        → HasSet arg key v a b
        → AllSet arg key v as' bs
        → AllSet arg key v (a ∷ as') (b ∷ bs)
    kept :
        {a : Text} {as' bs : List Text}
        → is_flagged arg a ≡ false
        → AllSet arg key v as' bs
        → AllSet arg key v (a ∷ as') (a ∷ bs)

  set_json-HasSet :
      (arg key : Text) (v : Value) (a b : Text) (o : Option (Dict Value))
      → loads (partition a).1 ≡ o
      → is_flagged arg a ≡ true
      → set_json json arg key v a ≡ ok b
      → HasSet arg key v a b
  unfolding set_json set_parts
  set_json-HasSet arg key v a b none read matches h =
      let failed : ◌≡◌ {A = Result Error Text} (raise value_error) (ok b) =
        rw (set_json, set_parts, matches, read) at h in
      cc
  set_json-HasSet arg key v a b (some d) read matches h =
      let made : ◌≡◌ {A = Result Error Text} (ok ((partition a).0 ++ 32 ∷ dumps (insert key v d)))
          (ok b) =
        rw (set_json, set_parts, matches, read) at h in
      let equal : (partition a).0 ++ 32 ∷ dumps (insert key v d) ≡ b = cc in
      let parts = ap partition (sym equal) ∙ partition-joined a (dumps (insert key v d)) in
      (
        d,
        insert key v d,
        read,
        ap (λ p. p.0) parts,
        ap (λ p. loads p.1) parts ∙ loads-dumps (insert key v d),
        λ j. lookup-insert key j v d,
      )

  apply_serve_json-AllSet :
      (args out : List Text) (arg key : Text) (v : Value)
      → apply_serve_json json args arg key v ≡ ok out
      → AllSet arg key v args out
  unfolding apply_serve_json
  apply_serve_json-AllSet [] out arg key v h =
      let same : [] ≡ out = cc in subst (AllSet arg key v []) same done
  apply_serve_json-AllSet (a ∷ args) out arg key v h =
      let (b, first, rest) = >>=-eq-ok (set_json json arg key v a) _ h in
      let (bs, later, ended) = >>=-eq-ok (apply_serve_json json args arg key v) _ rest in
      let same : (b ∷ bs) ≡ out = cc in
      let more = apply_serve_json-AllSet args bs arg key v later in
      subst (AllSet arg key v (a ∷ args)) same (elim (Bool-cases (is_flagged arg a)) [
        | inl matches ↦
            set matches (set_json-HasSet arg key v a b (loads (partition a).1) refl matches first)
              more
        | inr other ↦
            let equal : a ≡ b = set_json-kept arg key v a b other first in
            subst (λ t. AllSet arg key v (a ∷ args) (t ∷ bs)) equal (kept other more)
      ])

  apply_serve_json-again :
      (args out : List Text) (arg key : Text) (v w : Value)
      → apply_serve_json json args arg key v ≡ ok out
      → apply_serve_json json out arg key w ≡ apply_serve_json json args arg key w
  unfolding apply_serve_json
  apply_serve_json-again [] out arg key v w h =
      let same : [] ≡ out = cc in ap (λ o. apply_serve_json json o arg key w) (sym same)
  apply_serve_json-again (a ∷ args) out arg key v w h =
      let (b, first, rest) = >>=-eq-ok (set_json json arg key v a) _ h in
      let (bs, later, ended) = >>=-eq-ok (apply_serve_json json args arg key v) _ rest in
      let same : (b ∷ bs) ≡ out = cc in
      ap (λ o. apply_serve_json json o arg key w) (sym same)
      ∙ rw (set_json_twice arg key v w a b first, apply_serve_json-again args bs arg key v w later)
          refl

  -- When apply_serve_json does not raise, each argument of the flag with a value has kept its flag and
  -- has an object in which the key has the value and every other key what it had, each other argument is
  -- kept, and setting the key to another value then is the same as setting it to that at once.
  pub apply_serve_json_twice :
      (args out : List Text) (arg key : Text) (v : Value)
      → apply_serve_json json args arg key v ≡ ok out
      → AllSet arg key v args out
        × ((w : Value) → apply_serve_json json out arg key w ≡ apply_serve_json json args arg key w)
  apply_serve_json_twice args out arg key v h = (
    apply_serve_json-AllSet args out arg key v h,
    λ w. apply_serve_json-again args out arg key v w h,
  )
