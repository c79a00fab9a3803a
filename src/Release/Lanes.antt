-- ===== src/Release/Lanes.antt =====
-- The release gate of bench/runner/lint.py: `release_gate_suite`, `release_gate_entries` and the gate
-- of a fresh release in `main`.
pub mod Certified
use v_llm_moet.Prelude.{
  ℕ, Bool, true, false, not, ◌&&◌, ◌||◌, ◌≡◌, refl, sym, ap, Option, none, some, List, [], ◌∷◌,
  ◌++◌, if◌then◌else◌, Result, ok, raise, ◌>>=◌, arith, Text, text, text_eq, text_eq_iff, Dict,
  lookup, is_blank, Bool-cases, Option-cases, ◌⊎◌, inl, inr, >>=-eq-ok,
}
use v_llm_moet.Release.{Documents, Error, key_error, value_error}
use v_llm_moet.Release.Bindings.{Pinned, Inputs, result_bindings, self_binding_errors}
use v_llm_moet.Release.Gate.{GateError, GateResult, strict_gate_errors, expected_inputs, is_passed}
use v_llm_moet.Release.Gate.Passed.{strict_gate_errors-bound}

-- An entry of matrix.yaml.
pub record Entry : Type 0 where
  pub recipe : Text
  pub suite : Option Text
  pub quality : Bool
  pub blocking : Bool

abbrev pub quality_suite : Text
quality_suite = text "quality"

abbrev pub standard_suite : Text
standard_suite = text "standard"

-- `s.endswith(suffix)`
unfoldable pub ends_with : Text → Text → Bool
unfolding text_eq
ends_with suffix [] = text_eq suffix []
ends_with suffix (c ∷ s) = text_eq suffix (c ∷ s) || ends_with suffix s

abbrev pub is_text : Option Text → Text → Bool
is_text o t = elim o [ none ↦ false | some s ↦ text_eq t s ]

-- `release_gate_suite`; a blank override counts as none.
unfoldable pub release_gate_suite : Option Text → Text → Option Text → Text
unfolding ends_with is_blank
release_gate_suite quality_release release override =
    let inferred =
      if is_text quality_release release || ends_with (text "-quality") release
      then quality_suite
      else standard_suite in
    elim override [ none ↦ inferred | some s ↦ if is_blank s then inferred else s ]

abbrev pub or_default : Text → Option Text → Text
or_default d = elim [ none ↦ d | some s ↦ s ]

-- The suite of an entry, by its `quality` if it names none.
unfoldable pub entry_suite : Entry → Text
entry_suite e = or_default (if e.quality then quality_suite else standard_suite) e.suite

unfoldable pub is_gated : Text → Entry → Bool
unfolding entry_suite text_eq
is_gated gate_suite e =
    if text_eq gate_suite quality_suite
    then e.quality && text_eq (entry_suite e) quality_suite
    else e.blocking && text_eq (entry_suite e) standard_suite

-- `release_gate_entries`
unfoldable pub release_gate_entries : List Entry → Text → List Entry
unfolding is_gated
release_gate_entries [] gate_suite = []
release_gate_entries (e ∷ es) gate_suite =
    let rest = release_gate_entries es gate_suite in
    if is_gated gate_suite e then e ∷ rest else rest

module _ (docs : Documents) where
  open docs use {Doc}

  -- What the gate loads: a recipe with the models that it needs, the effective suite of a recipe, a box
  -- and the runtime manifest of a release on a box, which is empty if there is none.
  pub record Bench : Type 0 where
    pub load_recipe : Text → Result Error (Doc × List Text)
    pub effective_suite : Text → Text → Result Error Doc
    pub box_of : Text → Result Error Doc
    pub registry : Dict Pinned
    pub runtime_manifest : Text → Text → Dict (Option Doc)

  unfoldable pub expected_of : Bench → Text → Text → Text → Text → Result Error (Inputs docs)
  unfolding result_bindings
  expected_of bench release suite recipe box_id = do
    loaded ← bench.load_recipe recipe
    probes ← bench.effective_suite suite recipe
    box ← bench.box_of box_id
    result_bindings docs loaded.0 loaded.1 probes bench.registry release box_id box

  abbrev pub is_empty {ℓ} : {A : Type ℓ} → List A → Bool
  is_empty [] = true
  is_empty (a ∷ as') = false

  -- A result is valid if nothing raises and the gate has no errors.
  unfoldable pub is_valid : Bench → Text → Text → Text → Text × GateResult docs → Bool
  unfolding expected_of strict_gate_errors expected_inputs
  is_valid bench release suite recipe (box_id, r) =
      elim (expected_of bench release suite recipe box_id) [
        | raise e ↦ false
        | ok i ↦
            let runtime = bench.runtime_manifest release box_id in
            is_empty (strict_gate_errors docs r suite (expected_inputs docs i runtime) runtime)
      ]

  unfoldable pub any_valid : Bench → Text → Text → Text → List (Text × GateResult docs) → Bool
  unfolding is_valid
  any_valid bench release suite recipe [] = false
  any_valid bench release suite recipe (r ∷ rs) =
      is_valid bench release suite recipe r || any_valid bench release suite recipe rs

  -- The recipes whose entries need a result: `results` has those of each recipe, with their boxes.
  unfoldable pub ungated :
      Bench → Text → Text → (Text → List (Text × GateResult docs)) → List Entry → List Text
  unfolding any_valid
  ungated bench release gate_suite results [] = []
  ungated bench release gate_suite results (e ∷ es) =
      let rest = ungated bench release gate_suite results es in
      if any_valid bench release (or_default gate_suite e.suite) e.recipe (results e.recipe)
      then rest
      else e.recipe ∷ rest

  -- What a fresh release must certify: None if it has no entries at all.
  unfoldable pub gate_release :
      Bench → List Entry → Text → Text → (Text → List (Text × GateResult docs)) → Option (List Text)
  unfolding release_gate_entries ungated
  gate_release bench entries release gate_suite results =
      let gated = release_gate_entries entries gate_suite in
      if is_empty gated then none else some (ungated bench release gate_suite results gated)
