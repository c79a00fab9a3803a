-- ===== src/Recipes/Serve/Report.antt =====
-- The report of the launcher's loop over a recipe's knobs.
use mathlib.Core.Path.{subst}
use v_llm_moet.Prelude.{
  Bool, true, false, ◌||◌, ◌≡◌, refl, ◌∙◌, Option, none, some, [], ◌∷◌, arith, Text, text_eq,
  text_eq_iff, text_eq_refl, Dict, IsDict, lookup, lookup-insert, Bool-cases, inl, inr,
  contains_text, contains_text-append,
}
use v_llm_moet.Recipes.Serve.{
  planes_variable, resolve, Applied, apply_found, apply_one, apply_all, apply_recipe_env,
}
use v_llm_moet.Recipes.Serve.Knobs.{
  Extends, recipe_value, recipe_value-environ, lookup-apply_found, apply_recipe_env-Extends,
}

-- The entry of a list of the report: a new one, or the one that was there.
abbrev or_before : Option Text → Option Text → Option Text
or_before new before = elim new [ none ↦ before | some v ↦ some v ]

-- A knob that the container sets is overridden, with the container's value; one that it does not set is
-- applied with what it resolves to, or dropped.
abbrev pub overridden_value : Option Text → Option Text → Option Text
overridden_value own knob = elim knob [ none ↦ none | some v ↦ own ]

abbrev pub applied_value : Option Text → Option Text → Option Text
applied_value own given = elim own [ none ↦ given | some v ↦ none ]

abbrev pub is_dropped : Option Text → Option Text → Option Text → Bool
is_dropped own knob given = elim knob [
  | none ↦ false
  | some v ↦ elim own [ some w ↦ false | none ↦ elim given [ none ↦ true | some w ↦ false ] ]
]

-- What the report says of a variable, by the container's value, the knob and what it resolves to.
pub record Reports (own knob given : Option Text) (j : Text) (s : Applied) : Type 0 where
  pub overridden : lookup j s.overridden ≡ overridden_value own knob
  pub applied : lookup j s.applied ≡ applied_value own given
  pub dropped : contains_text s.dropped j ≡ is_dropped own knob given

abbrev unreported : Dict Text → Applied
unreported environ = record { environ = environ; applied = []; overridden = []; dropped = [] }

-- What the report says of a variable after the knobs, where `s` is what it said before.
record Says (models_dir : Text) (knob : Option Text) (j : Text) (s after : Applied) : Type 0 where
  overridden :
      lookup j after.overridden
      ≡ or_before (overridden_value (lookup j s.environ) knob) (lookup j s.overridden)
  applied :
      lookup j after.applied
      ≡ or_before
          (applied_value (lookup j s.environ) (recipe_value models_dir s.environ knob))
          (lookup j s.applied)
  dropped : contains_text after.dropped j ≡ (
      contains_text s.dropped j
      || is_dropped (lookup j s.environ) knob (recipe_value models_dir s.environ knob))

-- One turn, for the knob itself and for any other variable.
turn_own :
    (k : Text) (found rv : Option Text) (s : Applied)
    → (lookup k (apply_found k found rv s).overridden ≡ or_before found (lookup k s.overridden))
      × (lookup k (apply_found k found rv s).applied
          ≡ or_before (applied_value found rv) (lookup k s.applied))
      × (contains_text (apply_found k found rv s).dropped k
          ≡ (contains_text s.dropped k || is_dropped found (some []) rv))
unfolding apply_found contains_text
turn_own k (some w) rv s =
    (ground (arith, lookup-insert k k w s.overridden, text_eq_refl k), refl, ground arith)
turn_own k none none s =
    (refl, refl, ground (arith, contains_text-append s.dropped (k ∷ []) k, text_eq_refl k))
turn_own k none (some v) s =
    (refl, ground (arith, lookup-insert k k v s.applied, text_eq_refl k), ground arith)

turn_other :
    (k j : Text) (found rv : Option Text) (s : Applied)
    → text_eq k j ≡ false
    → lookup k s.environ ≡ found
    → (lookup j (apply_found k found rv s).overridden ≡ lookup j s.overridden)
      × (lookup j (apply_found k found rv s).applied ≡ lookup j s.applied)
      × (contains_text (apply_found k found rv s).dropped j ≡ contains_text s.dropped j)
      × (lookup j (apply_found k found rv s).environ ≡ lookup j s.environ)
unfolding apply_found contains_text
turn_other k j (some w) rv s differs at =
    (ground (arith, lookup-insert k j w s.overridden, differs), refl, refl, refl)
turn_other k j none none s differs at =
    (refl, refl, ground (arith, contains_text-append s.dropped (k ∷ []) j, differs), refl)
turn_other k j none (some v) s differs at = (
  refl,
  ground (arith, lookup-insert k j v s.applied, differs),
  refl,
  ground (arith, lookup-insert k j v s.environ, differs),
)

-- The knobs after one that they do not repeat say nothing of it.
apply_all-keeps :
    (models_dir : Text) (knobs : Dict Text) (j : Text) (s : Applied)
    → lookup j knobs ≡ none
    → (lookup j (apply_all models_dir knobs s).overridden ≡ lookup j s.overridden)
      × (lookup j (apply_all models_dir knobs s).applied ≡ lookup j s.applied)
      × (contains_text (apply_all models_dir knobs s).dropped j ≡ contains_text s.dropped j)
unfolding apply_all apply_one lookup
apply_all-keeps models_dir [] j s gone = (refl, refl, refl)
apply_all-keeps models_dir ((k, v) ∷ knobs) j s gone =
    let found = lookup k s.environ in
    let rv = resolve models_dir s.environ v in
    let differs : text_eq k j ≡ false = ground (arith, gone) in
    let rest : lookup j knobs ≡ none = ground (arith, gone) in
    let (over, app, drop, env) = turn_other k j found rv s differs refl in
    let (over', app', drop') = apply_all-keeps models_dir knobs j (apply_found k found rv s) rest in
    (over' ∙ over, app' ∙ app, drop' ∙ drop)

apply_all-Says :
    (models_dir : Text) (knobs : Dict Text) (j : Text) (s : Applied)
    → IsDict knobs
    → lookup planes_variable knobs ≡ none
    → Says models_dir (lookup j knobs) j s (apply_all models_dir knobs s)
unfolding apply_all apply_one lookup
apply_all-Says models_dir [] j s once fixed = record {
  overridden = refl;
  applied = ground arith;
  dropped = ground arith;
}
apply_all-Says models_dir ((k, v) ∷ knobs) j s once fixed =
    let found = lookup k s.environ in
    let rv = resolve models_dir s.environ v in
    let after = apply_found k found rv s in
    let planes = lookup-apply_found k planes_variable found rv s refl in
    let kept : lookup planes_variable after.environ ≡ lookup planes_variable s.environ =
      ground (arith, planes, fixed) in
    let known : lookup planes_variable knobs ≡ none = ground (arith, fixed) in
    elim (Bool-cases (text_eq k j)) [
      | inl same ↦
          let equal = (text_eq_iff k j).0 same in
          let (over, app, drop) = turn_own k found rv s in
          let (over', app', drop') = apply_all-keeps models_dir knobs k after once.0 in
          let says : Says models_dir (some v) k s (apply_all models_dir knobs after) = record {
            overridden = over' ∙ over;
            applied = app' ∙ app;
            dropped = drop' ∙ drop;
          } in
          rw same (
            subst (λ i. Says models_dir (some v) i s (apply_all models_dir knobs after)) equal says)
      | inr differs ↦
          let (over, app, drop, env) = turn_other k j found rv s differs refl in
          let rest = apply_all-Says models_dir knobs j after once.1 known in
          let given =
            recipe_value-environ models_dir after.environ s.environ (lookup j knobs) kept in
          rw differs (record {
            overridden = rest.overridden ∙ rw (over, env) refl;
            applied = rest.applied ∙ rw (app, env, given) refl;
            dropped = rest.dropped ∙ rw (drop, env, given) refl;
          })
    ]

-- For a recipe that sets no knob twice, and not PLANES_CACHE, the report of the loop over the knobs:
-- the environment is the container's own with what is reported as applied beside it; what is reported
-- as overridden are the knobs that the container sets, with its values; as applied those that it does
-- not set and that resolve there, with what they resolve to; and as dropped those that it does not set
-- and that do not resolve.
pub apply_recipe_env-Reported :
    (models_dir : Text) (knobs environ : Dict Text)
    → IsDict knobs
    → lookup planes_variable knobs ≡ none
    → Extends environ (apply_recipe_env models_dir knobs environ)
      × ((j : Text)
          → Reports
              (lookup j environ)
              (lookup j knobs)
              (recipe_value models_dir environ (lookup j knobs))
              j
              (apply_recipe_env models_dir knobs environ))
unfolding apply_recipe_env contains_text
apply_recipe_env-Reported models_dir knobs environ once fixed = (
  apply_recipe_env-Extends models_dir knobs environ,
  λ j.
      let says = apply_all-Says models_dir knobs j (unreported environ) once fixed in
      record {
        overridden = says.overridden ∙ ground arith;
        applied = says.applied ∙ ground arith;
        dropped = says.dropped;
      },
)
