-- ===== src/Release/Gate.antt =====
-- The gate: `strict_gate_errors`, the result that run_recipe leaves, and lint's choice of entries.
pub mod Passed
pub mod Run
use v_llm_moet.Prelude.{
  ℕ, Bool, true, false, not, ◌&&◌, ◌||◌, Option, none, some, List, [], ◌∷◌, ◌++◌, ◌==◌,
  if◌then◌else◌, Text, text, text_eq, Dict, lookup, has_key, is_blank,
}
use v_llm_moet.Release.{Documents}
use v_llm_moet.Release.Bindings.{Inputs, same_text, same_doc, same_inputs, error_unless}

pub data Status : Type 0 where
  passed partial failed : Status

pub data GateError : Type 0 where
  schema_differs incomplete not_live not_passed suite_differs bindings_drift : GateError
  dirty_tree dirty_vllm no_patch no_identity no_manifest : GateError
  missing_keys : List Text → GateError
  runtime_differs : Text → GateError

module _ (docs : Documents) where
  open docs use {Doc, eq, of_text, reread}

  -- The `env_fingerprint` of a result, with its vLLM tree.
  pub record Fingerprint : Type 0 where
    pub is_docker : Bool
    pub docker_image_id : Option Text
    pub vllm_sha : Option Text
    pub vllm_dirty : Bool
    pub moet_dirty : Bool
    pub moet_sha : Option Text
    pub patch_sha256 : Option Text
    pub cubins : Option Doc

  pub record GateResult : Type 0 where
    pub schema : ℕ
    pub complete : Bool
    pub live : Bool
    pub status : Status
    pub suite : Text
    pub inputs : Inputs docs
    pub fingerprint : Fingerprint

  -- The result that run_recipe writes: of a server that did not start, or with the probes that failed.
  unfoldable pub run_result : Text → Inputs docs → Fingerprint → Option (List Text) → GateResult
  run_result suite inputs fingerprint failures = record {
    schema = 2;
    complete = true;
    live = true;
    status = elim failures [ none ↦ failed | some [] ↦ passed | some (p ∷ ps) ↦ partial ];
    suite = suite;
    inputs = inputs;
    fingerprint = fingerprint;
  }

  abbrev pub reread_if : Option Doc → Option Doc
  reread_if = elim [ none ↦ none | some d ↦ some (reread d) ]

  -- A result as lint reads it from the file to which run_recipe writes it
  unfoldable pub reread_result : GateResult → GateResult
  reread_result r = record r {
    inputs = record r.inputs {
      recipe_snapshot = reread_if r.inputs.recipe_snapshot;
      suite_snapshot = reread_if r.inputs.suite_snapshot;
      model_manifests = reread_if r.inputs.model_manifests;
    };
    fingerprint = record r.fingerprint { cubins = reread_if r.fingerprint.cubins };
  }

  abbrev pub is_passed : Status → Bool
  is_passed passed = true
  is_passed partial = false
  is_passed failed = false

  abbrev pub is_filled : Option Text → Bool
  is_filled = elim [ none ↦ false | some t ↦ not (is_blank t) ]

  unfoldable pub has_identity : Fingerprint → Bool
  unfolding is_blank
  has_identity f = if f.is_docker then is_filled f.docker_image_id else is_filled f.vllm_sha

  -- The tests before the runtime manifest.
  unfoldable pub result_errors : GateResult → Text → Inputs docs → List GateError
  unfolding same_inputs has_identity error_unless text_eq is_blank
  result_errors r expected_suite expected =
      error_unless docs (r.schema == 2) schema_differs
      ++ (error_unless docs r.complete incomplete
          ++ (error_unless docs r.live not_live
              ++ (error_unless docs (is_passed r.status) not_passed
                  ++ (error_unless docs (text_eq r.suite expected_suite) suite_differs
                      ++ (error_unless docs (same_inputs docs r.inputs expected) bindings_drift
                          ++ (error_unless docs (not r.fingerprint.moet_dirty) dirty_tree
                              ++ (error_unless docs (not r.fingerprint.vllm_dirty) dirty_vllm
                                  ++ (error_unless docs (is_filled r.fingerprint.patch_sha256)
                                        no_patch
                                      ++ error_unless docs (has_identity r.fingerprint)
                                          no_identity))))))))

  -- The keys that a runtime manifest must have, sorted.
  unfoldable pub required_keys : Bool → List Text
  required_keys true =
      text "cubins"
      ∷ text "image_id"
      ∷ text "model_manifests"
      ∷ text "moet_sha"
      ∷ text "patch_sha256"
      ∷ []
  required_keys false =
      text "cubins"
      ∷ text "model_manifests"
      ∷ text "moet_sha"
      ∷ text "patch_sha256"
      ∷ text "vllm_sha"
      ∷ []

  unfoldable pub keys_missing : List Text → Dict (Option Doc) → List Text
  unfolding lookup
  keys_missing [] d = []
  keys_missing (k ∷ ks) d = let rest = keys_missing ks d in if has_key k d then rest else k ∷ rest

  abbrev pub text_doc : Option Text → Option Doc
  text_doc = elim [ none ↦ none | some t ↦ some (of_text t) ]

  -- `actual_runtime`
  unfoldable pub actual_runtime : GateResult → Dict (Option Doc)
  actual_runtime r =
      (text "patch_sha256", text_doc r.fingerprint.patch_sha256)
      ∷ (text "cubins", r.fingerprint.cubins)
      ∷ (text "moet_sha", text_doc r.fingerprint.moet_sha)
      ∷ (text "vllm_sha", text_doc r.fingerprint.vllm_sha)
      ∷ (text "image_id", text_doc r.fingerprint.docker_image_id)
      ∷ (text "model_manifests", r.inputs.model_manifests)
      ∷ []

  -- `actual_runtime.get(key)`
  abbrev pub get_doc : Text → Dict (Option Doc) → Option Doc
  get_doc k d = elim (lookup k d) [ none ↦ none | some v ↦ v ]

  unfoldable pub runtime_errors : Dict (Option Doc) → Dict (Option Doc) → List GateError
  unfolding lookup error_unless
  runtime_errors actual [] = []
  runtime_errors actual ((k, expected) ∷ rest) =
      error_unless docs (same_doc docs (get_doc k actual) expected) (runtime_differs k)
      ++ runtime_errors actual rest

  unfoldable pub missing_errors : List Text → List GateError
  missing_errors [] = []
  missing_errors (k ∷ ks) = missing_keys (k ∷ ks) ∷ []

  -- The tests of the runtime manifest, which must be there.
  unfoldable pub manifest_errors : GateResult → Dict (Option Doc) → List GateError
  unfolding required_keys keys_missing missing_errors actual_runtime runtime_errors
  manifest_errors r [] = no_manifest ∷ []
  manifest_errors r (entry ∷ entries) =
      missing_errors (keys_missing (required_keys r.fingerprint.is_docker) (entry ∷ entries))
      ++ runtime_errors (actual_runtime r) (entry ∷ entries)

  -- `strict_gate_errors`; a manifest that is missing is an empty one.
  unfoldable pub strict_gate_errors :
      GateResult → Text → Inputs docs → Dict (Option Doc) → List GateError
  unfolding result_errors manifest_errors
  strict_gate_errors r expected_suite expected runtime =
      result_errors r expected_suite expected ++ manifest_errors r runtime

  -- lint takes the models' manifests from the runtime manifest, if there is one.
  unfoldable pub expected_inputs : Inputs docs → Dict (Option Doc) → Inputs docs
  unfolding lookup
  expected_inputs i [] = i
  expected_inputs i (entry ∷ entries) = record i {
    model_manifests = get_doc (text "model_manifests") (entry ∷ entries);
  }
