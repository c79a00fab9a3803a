-- ===== src/Recipes/Serve/Knobs.antt =====
-- The launcher's loop over a recipe's knobs: what the server's environment holds.
use v_llm_moet.Prelude.{
  false, ◌≡◌, refl, sym, ap, Option, none, some, [], ◌∷◌, if◌then◌else◌, arith, Text, text_eq,
  text_eq_iff, Dict, IsDict, lookup, lookup-insert, Bool-cases, inl, inr,
}
use v_llm_moet.Recipes.Template.{Placeholder, planes_cache, own_model, named_model, substitute}
use v_llm_moet.Recipes.Serve.{
  planes_variable, container_value, resolve, Applied, apply_found, apply_one, apply_all,
  apply_recipe_env,
}

-- The environment is the container's own, and what is applied beside it.
abbrev pub Extends : Dict Text → Applied → Type 0
Extends own s =
    (k : Text)
    → lookup k s.environ
      ≡ (elim (lookup k own) as (λ o. Option Text) [ some v ↦ some v | none ↦ lookup k s.applied ])

apply_found-Extends :
    (k : Text) (found rv : Option Text) (own : Dict Text) (s : Applied)
    → lookup k s.environ ≡ found
    → Extends own s
    → Extends own (apply_found k found rv s)
unfolding apply_found
apply_found-Extends k (some w) rv own s e h = h
apply_found-Extends k none none own s e h = h
apply_found-Extends k none (some v) own s e h = λ j.
    ground
      (arith, h j, e, lookup-insert k j v s.environ, lookup-insert k j v s.applied, text_eq_iff k j)

apply_all-Extends :
    (models_dir : Text) (knobs own : Dict Text) (s : Applied)
    → Extends own s
    → Extends own (apply_all models_dir knobs s)
unfolding apply_all apply_one
apply_all-Extends models_dir [] own s h = h
apply_all-Extends models_dir ((k, v) ∷ knobs) own s h =
    apply_all-Extends models_dir knobs own (apply_one models_dir k v s)
      (apply_found-Extends k (lookup k s.environ) (resolve models_dir s.environ v) own s refl h)

-- Only PLANES_CACHE of an environment matters to a text's resolution.
resolve-environ :
    (models_dir s : Text) (env env' : Dict Text)
    → lookup planes_variable env ≡ lookup planes_variable env'
    → resolve models_dir env s ≡ resolve models_dir env' s
unfolding resolve container_value
resolve-environ models_dir s env env' h =
    let same : (p : Placeholder)
        → container_value models_dir env p ≡ container_value models_dir env' p =
      elim [
        | planes_cache ↦ rw (container_value, h) refl
        | own_model ↦ refl
        | named_model m ↦ refl
      ] in
    ap (λ f. substitute false f s) (λ i p. same p i)

pub lookup-apply_found :
    (k j : Text) (found rv : Option Text) (s : Applied)
    → lookup k s.environ ≡ found
    → lookup j (apply_found k found rv s).environ ≡ (
        if text_eq k j
        then elim found as (λ o. Option Text) [ none ↦ rv | some own ↦ some own ]
        else lookup j s.environ)
unfolding apply_found
lookup-apply_found k j (some w) rv s h = ground (arith, h, text_eq_iff k j)
lookup-apply_found k j none none s h = ground (arith, h, text_eq_iff k j)
lookup-apply_found k j none (some v) s h = lookup-insert k j v s.environ

-- What the recipe gives a variable, in an environment.
abbrev pub recipe_value : Text → Dict Text → Option Text → Option Text
recipe_value models_dir env o = elim o [ none ↦ none | some v ↦ resolve models_dir env v ]

-- The container's own value, or else the recipe's.
abbrev pub or_recipe : Option Text → Option Text → Option Text
or_recipe own given = elim own [ some v ↦ some v | none ↦ given ]

pub recipe_value-environ :
    (models_dir : Text) (env env' : Dict Text) (o : Option Text)
    → lookup planes_variable env ≡ lookup planes_variable env'
    → recipe_value models_dir env o ≡ recipe_value models_dir env' o
recipe_value-environ models_dir env env' none h = refl
recipe_value-environ models_dir env env' (some v) h = resolve-environ models_dir v env env' h

lookup-apply_all :
    (models_dir : Text) (knobs : Dict Text) (j : Text) (s : Applied)
    → IsDict knobs
    → lookup planes_variable knobs ≡ none
    → lookup j (apply_all models_dir knobs s).environ
      ≡ or_recipe (lookup j s.environ) (recipe_value models_dir s.environ (lookup j knobs))
unfolding apply_all apply_one lookup
lookup-apply_all models_dir [] j s once fixed = ground arith
lookup-apply_all models_dir ((k, v) ∷ knobs) j s once fixed =
    let found = lookup k s.environ in
    let rv = resolve models_dir s.environ v in
    let after = apply_found k found rv s in
    let planes = lookup-apply_found k planes_variable found rv s refl in
    let kept : lookup planes_variable after.environ ≡ lookup planes_variable s.environ =
      ground (arith, planes, fixed) in
    let known : lookup planes_variable knobs ≡ none = ground (arith, fixed) in
    rw (lookup-apply_all models_dir knobs j after once.1 known) (
      rw (recipe_value-environ models_dir after.environ s.environ (lookup j knobs) kept) (
        rw (lookup-apply_found k j found rv s refl) (elim (Bool-cases (text_eq k j)) [
          | inr other ↦ rw other refl
          | inl same ↦
              let equal = (text_eq_iff k j).0 same in
              let gone : lookup j knobs ≡ none = rw (sym equal) once.0 in
              let own : lookup k s.environ ≡ lookup j s.environ =
                ap (λ t. lookup t s.environ) equal in
              rw (same, gone) (ground (arith, own))
        ])))

-- The server's environment: what the container sets wins, and otherwise a knob of the recipe has the
-- value that it resolves to there, or none if that is missing.
pub lookup-apply_recipe_env :
    (models_dir : Text) (knobs environ : Dict Text) (j : Text)
    → IsDict knobs
    → lookup planes_variable knobs ≡ none
    → lookup j (apply_recipe_env models_dir knobs environ).environ
      ≡ or_recipe (lookup j environ) (recipe_value models_dir environ (lookup j knobs))
unfolding apply_recipe_env
lookup-apply_recipe_env models_dir knobs environ j once fixed =
    lookup-apply_all models_dir knobs j
      record { environ = environ; applied = []; overridden = []; dropped = [] } once fixed

-- The server's environment is the container's, and beside it what the report says is applied.
pub apply_recipe_env-Extends :
    (models_dir : Text) (knobs environ : Dict Text)
    → Extends environ (apply_recipe_env models_dir knobs environ)
unfolding apply_recipe_env lookup
apply_recipe_env-Extends models_dir knobs environ =
    apply_all-Extends models_dir knobs environ
      record { environ = environ; applied = []; overridden = []; dropped = [] } (λ j. ground arith)
