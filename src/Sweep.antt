-- ===== src/Sweep.antt =====
-- The knobs of a sweep: `apply_serve_json` of bench/runner/sweep.py and the recipe of one combination
-- in its main.
pub mod Twice
mod Tests
use v_llm_moet.Prelude.{
  ℕ, Bool, true, false, not, ◌&&◌, ◌≡◌, Option, none, some, List, [], ◌∷◌, ◌++◌, ◌==◌,
  if◌then◌else◌, Result, ok, raise, ◌>>=◌, Text, text, text_eq, Dict, insert, is_blank, span,
}

-- The json module on objects, and `str` of a value. A printed object is read back as it was, and is
-- not blank.
pub record Json : Type 1 where
  pub Value : Type 0
  pub loads : Text → Option (Dict Value)
  pub dumps : Dict Value → Text
  pub str : Value → Text
  pub loads-dumps : (d : Dict Value) → loads (dumps d) ≡ some d
  pub dumps_filled : (d : Dict Value) → is_blank (dumps d) ≡ false

pub data Error : Type 0 where
  value_error : Error

-- An axis that needs a restart; one of another kind changes nothing.
pub data Axis : Type 0 where
  env : Text → Axis
  serve_json : Text → Text → Axis
  unknown : Axis

-- The part behind the first space.
unfoldable pub after_space : Text → Text
after_space [] = []
after_space (space ∷ rest) = rest

-- `a.partition(" ")`, without the separator.
unfoldable pub partition : Text → Text × Text
unfolding span after_space
partition a = let (flag, tail) = span (λ c. not (c == 32)) a in (flag, after_space tail)

module _ (json : Json) where
  open json use {Value, loads, dumps, str}

  -- An argument with its flag and its value.
  unfoldable pub set_parts : Text → Text → Value → Text → Text × Text → Result Error Text
  unfolding insert is_blank
  set_parts arg key value a (flag, rest) =
      if text_eq flag arg && not (is_blank rest)
      then elim (loads rest) [
        | none ↦ raise value_error
        | some d ↦ ok (flag ++ 32 ∷ dumps (insert key value d))
      ]
      else ok a

  unfoldable pub set_json : Text → Text → Value → Text → Result Error Text
  unfolding partition set_parts
  set_json arg key value a = set_parts arg key value a (partition a)

  -- `apply_serve_json`
  unfoldable pub apply_serve_json : List Text → Text → Text → Value → Result Error (List Text)
  unfolding set_json
  apply_serve_json [] arg key value = ok []
  apply_serve_json (a ∷ as') arg key value = do
    b ← set_json arg key value a
    rest ← apply_serve_json as' arg key value
    ok (b ∷ rest)

  -- A recipe's env and serve_args with one axis set.
  unfoldable pub set_axis :
      Axis → Value → Dict Text × List Text → Result Error (Dict Text × List Text)
  unfolding apply_serve_json insert
  set_axis (env name) value (knobs, args) = ok (insert name (str value) knobs, args)
  set_axis (serve_json arg key) value (knobs, args) = do
    args' ← apply_serve_json args arg key value
    ok (knobs, args')
  set_axis unknown value (knobs, args) = ok (knobs, args)

  -- The combination's copy of a recipe.
  unfoldable pub set_axes :
      List (Axis × Value) → Dict Text × List Text → Result Error (Dict Text × List Text)
  unfolding set_axis
  set_axes [] rc = ok rc
  set_axes ((axis, value) ∷ combo) rc = set_axis axis value rc >>= λ rc'. set_axes combo rc'
