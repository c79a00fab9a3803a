-- ===== src/Release/Suite.antt =====
-- The probes of a run: `merge_suite` of bench/runner/common.py.
use v_llm_moet.Prelude.{
  Bool, true, false, ◌≡◌, ◌⊎◌, Option, none, some, List, [], ◌∷◌, if◌then◌else◌, not, Result, ok,
  raise, guard, ◌>>=◌, ◌>>◌, Text, text, text_eq, Dict, lookup, insert, merge, has_key, is_blank,
}
use v_llm_moet.Release.{Value, Keys, flag, word, other, Error, key_error, value_error, type_error}

module _ {Doc : Type 0} where
  module _ (keys : Keys Doc) where
    open keys use {is_true, is_hashable, same_key}

    -- The test of a value in an `or`
    unfoldable pub is_truthy : Value Doc → Bool
    unfolding is_blank
    is_truthy (flag b) = b
    is_truthy (word t) = not (is_blank t)
    is_truthy (other d) = is_true d

    unfoldable pub kind_of : Dict (Value Doc) → Result Error (Value Doc)
    unfolding lookup
    kind_of p = elim (lookup (text "kind") p) [ some kind ↦ ok kind | none ↦ raise key_error ]

    -- `p.get("id") or p["kind"]`
    unfoldable pub probe_key : Dict (Value Doc) → Result Error (Value Doc)
    unfolding kind_of is_truthy
    probe_key p = elim (lookup (text "id") p) [
      | none ↦ kind_of p
      | some id ↦ if is_truthy id then ok id else kind_of p
    ]

    abbrev is_key : Value Doc → Bool
    is_key (flag b) = true
    is_key (word t) = true
    is_key (other d) = is_hashable d

    unfoldable pub find_override :
        List (Value Doc × Dict (Value Doc)) → Value Doc → Dict (Value Doc)
    find_override [] key = []
    find_override ((k, d) ∷ params) key =
        let rest = find_override params key in if same_key k key then d else rest

    -- `params.get(key, {})`, which raises for a list or an object
    unfoldable pub override_of :
        List (Value Doc × Dict (Value Doc)) → Value Doc → Result Error (Dict (Value Doc))
    unfolding find_override
    override_of params key = guard (is_key key) type_error >> ok (find_override params key)

  -- `p.setdefault("enabled", True)`
  unfoldable pub with_enabled : Dict (Value Doc) → Dict (Value Doc)
  unfolding insert lookup
  with_enabled p = if has_key (text "enabled") p then p else insert (text "enabled") (flag true) p

  abbrev pub is_flag : Option (Value Doc) → Bool
  is_flag none = false
  is_flag (some (flag b)) = true
  is_flag (some (word t)) = false
  is_flag (some (other d)) = false

  module _ (keys : Keys Doc) where
    -- A probe with its override; the message of the error names the probe's key.
    unfoldable pub merge_probe :
        List (Value Doc × Dict (Value Doc)) → Dict (Value Doc) → Result Error (Dict (Value Doc))
    unfolding probe_key override_of with_enabled lookup merge
    merge_probe params p = do
      key ← probe_key keys p
      override ← override_of keys params key
      let merged = with_enabled (merge p override)
      if is_flag (lookup (text "enabled") merged)
          then ok merged
          else (probe_key keys merged >>= λ name. raise value_error)

    unfoldable pub merge_probes :
        List (Value Doc × Dict (Value Doc))
        → List (Dict (Value Doc))
        → Result Error (List (Dict (Value Doc)))
    unfolding merge_probe
    merge_probes params [] = ok []
    merge_probes params (p ∷ ps) = do
      p' ← merge_probe params p
      rest ← merge_probes params ps
      ok (p' ∷ rest)

    -- `merge_suite`: only some suites take the recipe's parameters.
    unfoldable pub merge_suite :
        Bool
        → List (Dict (Value Doc))
        → List (Value Doc × Dict (Value Doc))
        → Result Error (List (Dict (Value Doc)))
    unfolding merge_probes
    merge_suite allow_recipe_overrides probes suite_params =
        merge_probes (if allow_recipe_overrides then suite_params else []) probes

  -- The value of a setting: the override's, the suite's, or true for `enabled`.
  abbrev pub setting : Text → Dict (Value Doc) → Dict (Value Doc) → Option (Value Doc)
  setting j override p = elim (lookup j override) [
    | some v ↦ some v
    | none ↦ elim (lookup j p) [
      | some v ↦ some v
      | none ↦ if text_eq (text "enabled") j then some (flag true) else none
    ]
  ]

  -- A probe's key: its id if that is true, and else its kind.
  abbrev has_id : Keys Doc → Dict (Value Doc) → Bool
  has_id keys p = elim (lookup (text "id") p) [ none ↦ false | some id ↦ is_truthy keys id ]

  abbrev pub HasKey : Keys Doc → Dict (Value Doc) → Value Doc → Type 0
  HasKey keys p key =
      ((lookup (text "id") p ≡ some key) × (is_truthy keys key ≡ true))
      ⊎ ((has_id keys p ≡ false) × (lookup (text "kind") p ≡ some key))
