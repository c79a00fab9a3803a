-- ===== src/Release/Gate/Run.antt =====
-- A run passes the gate.
use mathlib.Core.Path.{subst}
use v_llm_moet.Prelude.{
  Bool, true, false, ◌≡◌, refl, ap, ◌∙◌, Option, none, some, List, [], ◌∷◌, ◌++◌, if◌then◌else◌,
  Result, ok, arith, Text, text, text_eq, text_eq_iff, text_eq_refl, Dict, IsDict, lookup, insert,
  insert-IsDict, Option-cases, inl, inr, >>=-eq-ok,
}
use v_llm_moet.Release.{Documents, Error}
use v_llm_moet.Release.Bindings.{
  Pinned, Inputs, bound_models, bound_inputs, result_bindings, same_text, same_doc, error_unless,
  has_models, same_inputs,
}
use v_llm_moet.Release.Gate.{
  not_passed, Fingerprint, GateResult, run_result, reread_if, reread_result, is_passed, is_filled,
  has_identity, result_errors, required_keys, keys_missing, actual_runtime, get_doc, runtime_errors,
  missing_errors, manifest_errors, strict_gate_errors, expected_inputs,
}

module _ (docs : Documents) where
  open docs use {Doc, eq, sha, of_text, eq_refl, reread, eq_reread}

  same_text_refl : (s : Option Text) → same_text docs s s ≡ true
  same_text_refl none = refl
  same_text_refl (some s) = text_eq_refl s

  same_doc_refl : (d : Option Doc) → same_doc docs d d ≡ true
  same_doc_refl none = refl
  same_doc_refl (some d) = eq_refl d

  -- A dictionary's entries are in one that has them.
  has_models-lookup :
      (d e : Dict Pinned)
      → IsDict d
      → ((k : Text) (p : Pinned) → lookup k d ≡ some p → lookup k e ≡ some p)
      → has_models docs d e ≡ true
  unfolding has_models lookup
  has_models-lookup [] e once sub = refl
  has_models-lookup ((k, p) ∷ d) e once sub =
      let here = sub k p (ground (arith, text_eq_refl k)) in
      let later =
        has_models-lookup d e once.1
          (λ j q found. sub j q (ground (arith, found, once.0, text_eq_iff k j))) in
      rw (here, text_eq_refl p.hf_repo, text_eq_refl p.revision, later) refl

  bound_models-IsDict :
      (registry : Dict Pinned) (names : List Text) (models end : Dict Pinned)
      → IsDict models
      → bound_models docs registry names models ≡ ok end
      → IsDict end
  unfolding bound_models
  bound_models-IsDict registry [] models end once h =
      let same : models ≡ end = cc in subst IsDict same once
  bound_models-IsDict registry (name ∷ names) models end once h =
      elim (Option-cases (lookup name registry)) [
        | inl gone ↦
            let made : ◌≡◌ {A = Result Error (Dict Pinned)} _ (ok end) =
              rw (bound_models, gone) at h in
            cc
        | inr (spec, found) ↦
            bound_models-IsDict registry names (insert name spec models) end
              (insert-IsDict name spec models once) (rw (bound_models, found) at h)
      ]

  same_doc-reread : (d : Option Doc) → same_doc docs (reread_if docs d) d ≡ true
  same_doc-reread none = refl
  same_doc-reread (some d) = eq_reread d

  -- The inputs of a result that was read again are equal to those that were written, but for the
  -- models' manifests, which are taken from it.
  same_inputs-reread :
      (i : Inputs docs) (r : GateResult docs)
      → IsDict i.models
      → r.inputs ≡ i
      → same_inputs docs
          (reread_result docs r).inputs
          (record i { model_manifests = (reread_result docs r).inputs.model_manifests })
        ≡ true
  unfolding same_inputs reread_result
  same_inputs-reread i r once same =
      rw
        (
          same,
          same_text_refl i.canonicalization,
          same_text_refl i.recipe_sha256,
          same_text_refl i.suite_sha256,
          same_doc-reread i.recipe_snapshot,
          same_doc-reread i.suite_snapshot,
          has_models-lookup i.models i.models once (λ k p found. found),
          same_text_refl i.release,
          same_text_refl i.box,
          same_text_refl i.box_sha256,
          same_doc_refl (reread_if docs i.model_manifests),
        )
        refl

  -- The runtime manifest that records what a result has, for some keys.
  abbrev pub recorded : List Text → Dict (Option Doc) → Dict (Option Doc)
  recorded [] actual = []
  recorded (k ∷ ks) actual = (k, get_doc docs k actual) ∷ recorded ks actual

  runtime_errors-recorded :
      (ks : List Text) (actual : Dict (Option Doc))
      → runtime_errors docs actual (recorded ks actual) ≡ []
  unfolding runtime_errors error_unless
  runtime_errors-recorded [] actual = refl
  runtime_errors-recorded (k ∷ ks) actual =
      rw (same_doc_refl (get_doc docs k actual), runtime_errors-recorded ks actual) refl

  -- What a published run has: clean trees, a patch and the identity of its runtime.
  abbrev pub IsClean : Fingerprint docs → Type 0
  IsClean f =
      (f.moet_dirty ≡ false)
      × (f.vllm_dirty ≡ false)
      × (is_filled docs f.patch_sha256 ≡ true)
      × (has_identity docs f ≡ true)

  -- The manifest that is recorded from a run itself has all keys and no other values.
  manifest_errors-recorded :
      (r : GateResult docs) (docker : Bool)
      → r.fingerprint.is_docker ≡ docker
      → manifest_errors docs r (recorded (required_keys docs docker) (actual_runtime docs r)) ≡ []
  unfolding manifest_errors required_keys keys_missing missing_errors lookup text_eq
  manifest_errors-recorded r true h =
      rw (h, runtime_errors-recorded (required_keys docs true) (actual_runtime docs r)) refl
  manifest_errors-recorded r false h =
      rw (h, runtime_errors-recorded (required_keys docs false) (actual_runtime docs r)) refl

  unless_alone :
      {E : Type 0} (test : Bool) (e : E)
      → error_unless docs test e ++ [] ≡ (if test then [] else e ∷ [])
  unfolding error_unless
  unless_alone true e = refl
  unless_alone false e = refl

  result_errors-clean :
      (suite : Text) (inputs : Inputs docs) (f : Fingerprint docs) (failures : Option (List Text))
      → IsClean f
      → IsDict inputs.models
      → (let r = reread_result docs (run_result docs suite inputs f failures) in
          result_errors docs r suite (record inputs { model_manifests = r.inputs.model_manifests })
          ≡ (if is_passed docs r.status then [] else not_passed ∷ []))
  unfolding result_errors run_result reread_result error_unless
  result_errors-clean suite inputs f failures (tree, vllm, patch, identity) once =
      rw
        (
          text_eq_refl suite,
          same_inputs-reread inputs (run_result docs suite inputs f failures) once refl,
          tree,
          vllm,
          patch,
          identity,
        )
        (unless_alone (is_passed docs (run_result docs suite inputs f failures).status) not_passed)

  actual_runtime-manifests :
      (r : GateResult docs)
      → get_doc docs (text "model_manifests") (actual_runtime docs r) ≡ r.inputs.model_manifests
  unfolding actual_runtime lookup text_eq
  actual_runtime-manifests r = refl

  append_if :
      {E : Type 0} (test : Bool) (e : E)
      → (if test then [] else e ∷ []) ++ [] ≡ (if test then [] else e ∷ [])
  append_if true e = refl
  append_if false e = refl

  expected_inputs-recorded :
      (i : Inputs docs) (docker : Bool) (actual : Dict (Option Doc))
      → expected_inputs docs i (recorded (required_keys docs docker) actual)
        ≡ record i { model_manifests = get_doc docs (text "model_manifests") actual }
  unfolding expected_inputs required_keys lookup text_eq
  expected_inputs-recorded i true actual = refl
  expected_inputs-recorded i false actual = refl

  -- What run_recipe writes of a run on clean trees, when it is read again, passes lint's gate for its
  -- release, box and suite against the manifest that is recorded from it, unless the server did not
  -- start or a probe failed: then its status is the one error.
  pub run_result-strict_gate_errors :
      (recipe : Doc) (names : List Text) (suite : Doc) (registry : Dict Pinned)
      (release box_id : Text) (box : Doc) (i : Inputs docs) (suite_name : Text)
      (manifests : Option Doc) (f : Fingerprint docs) (failures : Option (List Text))
      → result_bindings docs recipe names suite registry release box_id box ≡ ok i
      → IsClean f
      → (let written =
            run_result docs suite_name (record i { model_manifests = manifests }) f failures in
          let r = reread_result docs written in
          let runtime = recorded (required_keys docs f.is_docker) (actual_runtime docs r) in
          strict_gate_errors docs r suite_name (expected_inputs docs i runtime) runtime
          ≡ (if is_passed docs r.status then [] else not_passed ∷ []))
  unfolding strict_gate_errors result_bindings bound_inputs run_result reread_result
  run_result-strict_gate_errors recipe names suite registry release box_id box i suite_name
        manifests f failures h clean =
      let (models, bound, ended) = >>=-eq-ok (bound_models docs registry names []) _ h in
      let built : bound_inputs docs recipe suite release box_id box models ≡ i = cc in
      let once =
        subst (λ j. IsDict j.models) built
          (bound_models-IsDict registry names [] models tt bound) in
      let inputs = record i { model_manifests = manifests } in
      let r = reread_result docs (run_result docs suite_name inputs f failures) in
      let runtime = recorded (required_keys docs f.is_docker) (actual_runtime docs r) in
      let same : expected_inputs docs i runtime
          ≡ record i { model_manifests = r.inputs.model_manifests } =
        expected_inputs-recorded i f.is_docker (actual_runtime docs r)
        ∙ ap (λ m. record i { model_manifests = m }) (actual_runtime-manifests r) in
      rw
        (
          same,
          result_errors-clean suite_name inputs f failures clean once,
          manifest_errors-recorded r f.is_docker refl,
        )
        (append_if (is_passed docs r.status) not_passed)
