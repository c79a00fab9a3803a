-- ===== src/Recipes/Template.antt =====
-- Placeholders in a recipe's texts: `_PLACEHOLDER` and its substitution, in bench/runner/common.py
-- (where a bare {model} stands for the recipe's own model) and in docker/serve_recipe.py.
pub mod Agree
use v_llm_moet.Prelude.{
  ℕ, zero, suc, ◌+◌, ◌-◌, Bool, not, ◌&&◌, ◌||◌, Option, none, some, [], ◌∷◌, ◌++◌, leb, ◌==◌,
  if◌then◌else◌, length, Text, text, after_prefix, starts_with, is_blank, span,
}

pub data Placeholder : Type 0 where
  planes_cache own_model : Placeholder
  named_model : Text → Placeholder

-- `[\w.\-]`, for names of ASCII characters.
unfoldable pub is_name_char : ℕ → Bool
is_name_char c =
    (leb b'a' c && leb c b'z')
    || (leb b'A' c && leb c b'Z')
    || (leb b'0' c && leb c b'9')
    || c == b'_'
    || c == b'.'
    || c == b'-'

-- `{model:` has been read: a name and the closing brace, with the length of the whole placeholder.
unfoldable pub named : Text × Text → Option (Placeholder × ℕ)
unfolding is_blank starts_with
named (name, rest) =
    if not (is_blank name) && starts_with (text "}") rest
    then some (named_model name, 8 + length name)
    else none

-- The placeholder that a text begins with.
unfoldable pub placeholder : Bool → Text → Option (Placeholder × ℕ)
unfolding after_prefix starts_with span is_name_char named
placeholder bare s =
    if starts_with (text "{planes_cache}") s
    then some (planes_cache, 14)
    else elim (after_prefix (text "{model:") s) [
      | some t ↦ named (span is_name_char t)
      | none ↦ if bare && starts_with (text "{model}") s then some (own_model, 7) else none
    ]

-- `v + rest`, unless one of them is missing.
unfoldable pub joined_to : Option Text → Option Text → Option Text
joined_to none rest = none
joined_to (some v) none = none
joined_to (some v) (some rest) = some (v ++ rest)

-- What stands for a character: itself, or the value of the placeholder that it begins. `later` is
-- what the rest becomes after some more characters.
unfoldable pub replaced :
    (Placeholder → Option Text) → ℕ → (ℕ → Option Text) → Option (Placeholder × ℕ) → Option Text
unfolding joined_to
replaced value c later none = joined_to (some (c ∷ [])) (later 0)
replaced value c later (some (p, n)) = joined_to (value p) (later (n - 1))

-- `_PLACEHOLDER.sub`: `skip` characters belong to a placeholder that has been replaced. A missing
-- resource makes the whole text missing.
unfoldable pub substitute_from : Bool → (Placeholder → Option Text) → ℕ → Text → Option Text
unfolding placeholder replaced
substitute_from bare value skip [] = some []
substitute_from bare value (suc skip) (c ∷ s) = substitute_from bare value skip s
substitute_from bare value zero (c ∷ s) =
    replaced value c (λ n. substitute_from bare value n s) (placeholder bare (c ∷ s))

unfoldable pub substitute : Bool → (Placeholder → Option Text) → Text → Option Text
unfolding substitute_from
substitute bare value s = substitute_from bare value 0 s
