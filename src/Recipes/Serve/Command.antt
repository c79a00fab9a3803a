-- ===== src/Recipes/Serve/Command.antt =====
-- The launcher's arguments of vllm serve against the runner's.
use mathlib.Core.Path.{subst}
use v_llm_moet.Prelude.{
  Bool, false, not, ◌||◌, ◌≡◌, refl, sym, ap, Option, none, some, List, [], ◌∷◌, ◌++◌, ◌==◌, Result,
  ok, raise, ◌>>=◌, arith, Text, text, Dict, lookup, is_blank, contains_text, take, text_eq, span,
  Option-cases, inl, inr, >>=-eq-ok,
}
use v_llm_moet.Recipes.{Recipe}
use v_llm_moet.Recipes.Template.{substitute}
use v_llm_moet.Recipes.Template.Agree.{has_bare, substitute_from-agree}
use v_llm_moet.Recipes.Bench.{
  Error, key_error, Box, box_value, resolve_str, split_parts, split_arg, serve_args_of, key,
  path_join, venv_serve_cmd,
}
use v_llm_moet.Recipes.Serve.{
  planes_variable, container_value, resolve, flag_and_rest, partition_arg, serve_args, command,
}

abbrev pub any_bare : List Text → Bool
any_bare [] = false
any_bare (a ∷ as') = has_bare a || any_bare as'

append-contains_text :
    (xs ys : List Text) (x : Text)
    → contains_text (xs ++ ys) x ≡ false
    → (contains_text xs x ≡ false) × (contains_text ys x ≡ false)
unfolding contains_text
append-contains_text [] ys x h = (refl, h)
append-contains_text (y ∷ xs) ys x h =
    let (front, back) = append-contains_text xs ys x (ground (arith, h)) in
    (ground (arith, h, front), back)

parts-eq :
    (flag tail : Text)
    → contains_text (split_parts flag tail) [] ≡ false
    → flag_and_rest flag tail ≡ split_parts flag tail
unfolding flag_and_rest split_parts contains_text is_blank text_eq
parts-eq flag [] h = refl
parts-eq flag (c ∷ []) h = ground (arith, h)
parts-eq flag (c ∷ d ∷ rest) h = refl

-- An argument with no empty part splits alike.
partition_arg-split_arg :
    (a : Text) → contains_text (split_arg a) [] ≡ false → partition_arg a ≡ split_arg a
unfolding partition_arg split_arg
partition_arg-split_arg a h =
    parts-eq (span (λ c. not (c == 32)) a).0 (span (λ c. not (c == 32)) a).1 h

key-eq-ok : {V : Type 0} {v : V} (k : Text) (d : Dict V) → key k d ≡ ok v → lookup k d ≡ some v
key-eq-ok {V} {v} k d h = elim (Option-cases (lookup k d)) [
  | inl gone ↦
      let made : ◌≡◌ {A = Result Error V} (raise key_error) (ok v) = ground (arith, h, gone) in cc
  | inr (w, there) ↦
      let made : ◌≡◌ {A = Result Error V} (ok w) (ok v) = ground (arith, h, there) in cc
]

module _ (r : Recipe) (b : Box) (models_dir : Text) (env : Dict Text)
    (models_agree : (m path : Text) → lookup m b.models ≡ some path → path ≡ path_join models_dir m)
    (planes_agree : (path : Text)
      → lookup r.model b.planes ≡ some path
      → (lookup planes_variable env ≡ some path) × (is_blank path ≡ false)) where
  resolve-agree :
      (a v : Text)
      → has_bare a ≡ false
      → resolve_str r b a ≡ some v
      → resolve models_dir env a ≡ some v
  unfolding resolve resolve_str substitute box_value container_value
  resolve-agree a v bare h =
      substitute_from-agree (box_value r b) (container_value models_dir env)
        (λ path e.
          let (set, filled) = planes_agree path e in rw (container_value, set, filled) refl)
        (λ m path e. ap some (sym (models_agree m path e))) 0 a v bare h

  resolved-agree :
      (o : Option Text) (a : Text) (args out : List Text)
      → resolve_str r b a ≡ o
      → has_bare a ≡ false
      → contains_text out [] ≡ false
      → ((out' : List Text)
          → contains_text out' [] ≡ false
          → serve_args_of r b args ≡ ok out'
          → serve_args models_dir env args ≡ out')
      → (elim o as (λ o. Result Error (List Text)) [
        | none ↦ raise key_error
        | some v ↦ do rest ← serve_args_of r b args; ok (split_arg v ++ rest)
      ])
        ≡ ok out
      → serve_args models_dir env (a ∷ args) ≡ out
  unfolding serve_args
  resolved-agree none a args out e bare filled later h = cc
  resolved-agree (some v) a args out e bare filled later h =
      let (rest, ran, ended) = >>=-eq-ok (serve_args_of r b args) _ h in
      let same : (split_arg v ++ rest) ≡ out = cc in
      let (front, back) = append-contains_text (split_arg v) rest [] (rw same filled) in
      rw (serve_args, resolve-agree a v bare e)
        (rw (partition_arg-split_arg v front, later rest back ran) same)

  serve_args-agree :
      (args out : List Text)
      → any_bare args ≡ false
      → contains_text out [] ≡ false
      → serve_args_of r b args ≡ ok out
      → serve_args models_dir env args ≡ out
  unfolding serve_args_of serve_args
  serve_args-agree [] out plain filled h = cc
  serve_args-agree (a ∷ args) out plain filled h =
      resolved-agree (resolve_str r b a) a args out refl (ground (arith, plain)) filled
        (λ out' filled' h'. serve_args-agree args out' (ground (arith, plain)) filled' h') h

  -- The runner's command in a virtual environment, whose arguments have no bare {model} and no empty
  -- part, is the launcher's from `serve` on, where the box has its models in the launcher's
  -- directory, its planes cache is the mounted one and the ports are the same.
  pub command-venv_serve_cmd :
      (port program : Text) (rest extra : List Text)
      → any_bare r.serve_args ≡ false
      → contains_text rest [] ≡ false
      → lookup (text "PORT") env ≡ some port
      → venv_serve_cmd r b port ≡ ok (program ∷ rest)
      → command models_dir env r extra ≡ text "vllm" ∷ (rest ++ extra)
  unfolding command venv_serve_cmd contains_text
  command-venv_serve_cmd port program rest extra plain filled same_port h =
      let (weights, found, run) = >>=-eq-ok (key r.model b.models) _ h in
      let (args, ran, ended) = >>=-eq-ok (serve_args_of r b r.serve_args) _ run in
      let tail =
        text "serve"
        ∷ weights
        ∷ text "--served-model-name"
        ∷ r.served_name
        ∷ text "--port"
        ∷ port
        ∷ args in
      let same : tail ≡ rest = cc in
      let (front, filled_args) =
        append-contains_text (take 6 tail) args []
          (subst (λ ts. contains_text ts [] ≡ false) (sym same) filled) in
      rw
        (
          command,
          same_port,
          serve_args-agree r.serve_args args plain filled_args ran,
          sym (models_agree r.model weights (key-eq-ok r.model b.models found)),
          sym same,
        )
        refl
