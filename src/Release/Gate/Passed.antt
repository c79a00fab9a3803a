-- ===== src/Release/Gate/Passed.antt =====
-- What passes the gate.
use mathlib.Core.Path.{subst}
use v_llm_moet.Prelude.{
  Bool, true, false, ◌≡◌, refl, sym, ap, Option, none, some, List, [], ◌∷◌, ◌++◌, append-[], ◌==◌,
  ok, arith, Text, text_eq, text_eq_iff, Dict, >>=-eq-ok,
}
use v_llm_moet.Release.{Documents}
use v_llm_moet.Release.Bindings.{
  Pinned, Inputs, bound_models, bound_inputs, result_bindings, same_text, same_doc, error_unless,
  same_inputs,
}
use v_llm_moet.Release.Gate.{
  GateResult, is_passed, result_errors, strict_gate_errors, expected_inputs,
}

module _ (docs : Documents) where
  open docs use {Doc, eq, sha, of_text, eq_refl}

  error_unless-[] :
      {E : Type 0} (test : Bool) (e : E) (es : List E)
      → error_unless docs test e ++ es ≡ []
      → (test ≡ true) × (es ≡ [])
  unfolding error_unless
  error_unless-[] true e es h = (refl, h)
  error_unless-[] false e es h = cc

  same_text-eq : (s t : Option Text) → same_text docs s t ≡ true → s ≡ t
  same_text-eq none none h = refl
  same_text-eq none (some t) h = cc
  same_text-eq (some s) none h = cc
  same_text-eq (some s) (some t) h = ap some ((text_eq_iff s t).0 h)

  -- What equal inputs share.
  same_inputs-parts :
      (i j : Inputs docs)
      → same_inputs docs i j ≡ true
      → (i.canonicalization ≡ j.canonicalization)
        × (i.recipe_sha256 ≡ j.recipe_sha256)
        × (i.suite_sha256 ≡ j.suite_sha256)
        × (same_doc docs i.recipe_snapshot j.recipe_snapshot ≡ true)
        × (same_doc docs i.suite_snapshot j.suite_snapshot ≡ true)
        × (i.release ≡ j.release)
        × (i.box ≡ j.box)
  unfolding same_inputs
  same_inputs-parts i j h = (
    same_text-eq i.canonicalization j.canonicalization (ground (arith, h)),
    same_text-eq i.recipe_sha256 j.recipe_sha256 (ground (arith, h)),
    same_text-eq i.suite_sha256 j.suite_sha256 (ground (arith, h)),
    ground (arith, h),
    ground (arith, h),
    same_text-eq i.release j.release (ground (arith, h)),
    same_text-eq i.box j.box (ground (arith, h)),
  )

  -- The inputs record the hashes of a recipe and a suite's document, have snapshots that are equal to
  -- these, and name a release and a box.
  pub record BoundTo (recipe suite : Doc) (release box_id : Text) (r : Inputs docs) : Type 0 where
    pub recipe_hash : r.recipe_sha256 ≡ some (sha recipe)
    pub suite_hash : r.suite_sha256 ≡ some (sha suite)
    pub same_recipe : same_doc docs r.recipe_snapshot (some recipe) ≡ true
    pub same_suite : same_doc docs r.suite_snapshot (some suite) ≡ true
    pub of_release : r.release ≡ some release
    pub of_box : r.box ≡ some box_id

  same_inputs-bound :
      (recipe suite : Doc) (release box_id : Text) (box : Doc) (models : Dict Pinned)
      (manifests : Option Doc) (r : Inputs docs)
      → same_inputs docs r (record (bound_inputs docs recipe suite release box_id box models) {
        model_manifests = manifests;
      })
        ≡ true
      → BoundTo recipe suite release box_id r
  unfolding bound_inputs
  same_inputs-bound recipe suite release box_id box models manifests r h =
      let bound = bound_inputs docs recipe suite release box_id box models in
      let (named, recipe_sha, suite_sha, same_recipe, same_suite, same_release, same_box) =
        same_inputs-parts r (record bound { model_manifests = manifests }) h in
      record {
        recipe_hash = recipe_sha;
        suite_hash = suite_sha;
        same_recipe = same_recipe;
        same_suite = same_suite;
        of_release = same_release;
        of_box = same_box;
      }

  passed_result :
      (r : GateResult docs) (suite : Text) (expected : Inputs docs)
      → result_errors docs r suite expected ≡ []
      → (is_passed docs r.status ≡ true) × (same_inputs docs r.inputs expected ≡ true)
  unfolding result_errors
  passed_result r suite expected h =
      let (schema, rest) = error_unless-[] (r.schema == 2) _ _ h in
      let (complete, rest) = error_unless-[] r.complete _ _ rest in
      let (live, rest) = error_unless-[] r.live _ _ rest in
      let (is_ok, rest) = error_unless-[] (is_passed docs r.status) _ _ rest in
      let (suites, rest) = error_unless-[] (text_eq r.suite suite) _ _ rest in
      let (same, rest) = error_unless-[] (same_inputs docs r.inputs expected) _ _ rest in
      (is_ok, same)

  expected_inputs-manifests :
      (i : Inputs docs) (runtime : Dict (Option Doc))
      → (manifests : Option Doc) × (expected_inputs docs i runtime
          ≡ record i { model_manifests = manifests })
  unfolding expected_inputs
  expected_inputs-manifests i [] = (i.model_manifests, refl)
  expected_inputs-manifests i (entry ∷ entries) = (_, refl)

  -- A result that passes lint's gate for a release and a box has passed all its probes and is bound to
  -- the recipe and the suite as they are now, and to that release and that box.
  pub strict_gate_errors-bound :
      (recipe : Doc) (names : List Text) (suite : Doc) (registry : Dict Pinned)
      (release box_id : Text) (box : Doc) (i : Inputs docs) (r : GateResult docs)
      (suite_name : Text) (runtime : Dict (Option Doc))
      → result_bindings docs recipe names suite registry release box_id box ≡ ok i
      → strict_gate_errors docs r suite_name (expected_inputs docs i runtime) runtime ≡ []
      → (is_passed docs r.status ≡ true) × BoundTo recipe suite release box_id r.inputs
  unfolding result_bindings strict_gate_errors
  strict_gate_errors-bound recipe names suite registry release box_id box i r suite_name runtime h
        clean =
      let (models, bound, ended) = >>=-eq-ok (bound_models docs registry names []) _ h in
      let built : bound_inputs docs recipe suite release box_id box models ≡ i = cc in
      let expected = expected_inputs docs i runtime in
      let (no_errors, rest) = append-[] (result_errors docs r suite_name expected) _ clean in
      let (is_ok, same) = passed_result r suite_name expected no_errors in
      let (manifests, shape) = expected_inputs-manifests i runtime in
      let fits =
        subst (λ j. same_inputs docs r.inputs (record j { model_manifests = manifests }) ≡ true)
          (sym built) (subst (λ j. same_inputs docs r.inputs j ≡ true) shape same) in
      (is_ok, same_inputs-bound recipe suite release box_id box models manifests r.inputs fits)
