-- ===== src/Release/Tests.antt =====
-- One release with one recipe on one box.
use mathlib.Core.List.{Memᴰ}
use v_llm_moet.Prelude.{
  true, false, not, ◌≡◌, refl, Option, none, some, List, [], ◌∷◌, ◌++◌, raise, if◌then◌else◌, ok,
  Text, text, text_eq, text_eq_refl, Dict, lookup, is_blank,
}
use v_llm_moet.Release.{Documents, Value, Keys, flag, word, other, type_error}
use v_llm_moet.Release.Suite.{merge_probe}
use v_llm_moet.Release.Bindings.{Pinned, Inputs, result_bindings}
use v_llm_moet.Release.Gate.{
  Fingerprint, GateResult, run_result, reread_result, is_passed, not_passed, has_identity,
  required_keys, actual_runtime, strict_gate_errors, expected_inputs,
}
use v_llm_moet.Release.Gate.Run.{recorded, run_result-strict_gate_errors}
use v_llm_moet.Release.Lanes.{Entry, Bench, release_gate_suite, ends_with, is_gated, gate_release}
use v_llm_moet.Release.Lanes.Certified.{Certifies, gate_release-Certifies}

-- Documents that are texts, each its own hash.
abbrev plain_docs : Documents
plain_docs = record {
  Doc = Text;
  eq = text_eq;
  sha = λ d. d;
  of_text = λ t. t;
  eq_refl = text_eq_refl;
  reread = λ d. d;
  eq_reread = text_eq_refl;
}

abbrev pinned_models : Dict Pinned
pinned_models = (text "m", record { hf_repo = text "org/m"; revision = text "r1" }) ∷ []

bindings_run :
    (i : Inputs plain_docs) × (result_bindings plain_docs
        (text "recipe")
        (text "m" ∷ [])
        (text "suite")
        pinned_models
        (text "v1")
        (text "b")
        (text "box")
      ≡ ok i)
unfolding result_bindings lookup text_eq
bindings_run = (_, refl)

abbrev clean_fingerprint : Fingerprint plain_docs
clean_fingerprint = record {
  is_docker = true;
  docker_image_id = some (text "sha256:1");
  vllm_sha = none;
  vllm_dirty = false;
  moet_dirty = false;
  moet_sha = some (text "c1");
  patch_sha256 = some (text "p1");
  cubins = none;
}

abbrev bound : Inputs plain_docs
bound = record bindings_run.0 { model_manifests = some (text "m1") }

-- The result of a run in which these probes failed.
abbrev result_of : List Text → GateResult plain_docs
result_of failures = run_result plain_docs (text "standard") bound clean_fingerprint (some failures)

abbrev manifest : Dict (Option Text)
manifest =
    recorded plain_docs (required_keys plain_docs true) (actual_runtime plain_docs (result_of []))

run_result-strict_gate_errors_example :
    strict_gate_errors plain_docs
      (reread_result plain_docs (result_of (text "decode" ∷ [])))
      (text "standard")
      (expected_inputs plain_docs bindings_run.0 manifest)
      manifest
    ≡ (if is_passed plain_docs (reread_result plain_docs (result_of (text "decode" ∷ []))).status
        then []
        else not_passed ∷ [])
unfolding is_blank has_identity run_result reread_result actual_runtime
run_result-strict_gate_errors_example =
    run_result-strict_gate_errors plain_docs (text "recipe") (text "m" ∷ []) (text "suite")
      pinned_models (text "v1") (text "b") (text "box") bindings_run.0 (text "standard")
      (some (text "m1")) clean_fingerprint (some (text "decode" ∷ [])) bindings_run.1
      (refl, refl, refl, refl)

abbrev entry : Entry
entry = record { recipe = text "m/two"; suite = none; quality = false; blocking = true }

abbrev bench : Bench plain_docs
bench = record {
  load_recipe = λ rid. ok (text "recipe", text "m" ∷ []);
  effective_suite = λ suite rid. ok (text "suite");
  box_of = λ box_id. ok (text "box");
  registry = pinned_models;
  runtime_manifest = λ release box_id. manifest;
}

abbrev results : Text → List (Text × GateResult plain_docs)
results rid = (text "b", result_of []) ∷ []

gate_release_test :
    gate_release plain_docs bench (entry ∷ []) (text "v1") (text "standard") results ≡ some []
unfolding gate_release text_eq lookup bindings_run run_result
gate_release_test = refl

failed_probe_test :
    gate_release plain_docs bench
      (entry ∷ [])
      (text "v1")
      (text "standard")
      (λ rid. (text "b", result_of (text "decode" ∷ [])) ∷ [])
    ≡ some (text "m/two" ∷ [])
unfolding gate_release text_eq lookup bindings_run run_result
failed_probe_test = refl

gate_release-Certifies_example :
    (r : Text × GateResult plain_docs) × Memᴰ r (results (text "m/two"))
    × Certifies plain_docs bench (text "v1") (text "standard") (text "m/two") r
unfolding is_gated text_eq
gate_release-Certifies_example =
    gate_release-Certifies plain_docs bench (text "v1") (entry ∷ []) (text "standard") results entry
      gate_release_test (Memᴰ.head refl) refl

gate_suite_test : release_gate_suite none (text "v1-quality") none ≡ text "quality"
unfolding release_gate_suite ends_with text_eq
gate_suite_test = refl

-- Texts are the other values too: each but the empty one is true.
abbrev plain_key : Value Text → Text
plain_key (flag b) = if b then text "1" else text "0"
plain_key (word t) = text "w" ++ t
plain_key (other d) = d

abbrev plain_keys : Keys Text
plain_keys = record {
  is_true = λ d. not (is_blank d);
  is_hashable = λ d. not (text_eq d (text "[1]"));
  same_key = λ j k. text_eq (plain_key j) (plain_key k);
}

-- A probe whose id is a number; the recipe has overrides for the number and for the kind.
abbrev probe : Dict (Value Text)
probe =
    (text "id", other (text "7"))
    ∷ (text "kind", word (text "decode"))
    ∷ (text "runs", other (text "5"))
    ∷ []

abbrev override : Dict (Value Text)
override = (text "runs", other (text "9")) ∷ []

abbrev params : List (Value Text × Dict (Value Text))
params = (word (text "decode"), []) ∷ (other (text "7"), override) ∷ []

unhashable_id :
    merge_probe plain_keys params ((text "id", other (text "[1]")) ∷ probe) ≡ raise type_error
unfolding merge_probe lookup text_eq
unhashable_id = refl
