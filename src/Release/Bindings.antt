-- ===== src/Release/Bindings.antt =====
-- What a result is bound to: `result_bindings` and `self_binding_errors`.
use v_llm_moet.Prelude.{
  Bool, true, false, ◌&&◌, Option, none, some, List, [], ◌∷◌, ◌++◌, if◌then◌else◌, Result, ok,
  raise, ◌>>=◌, Text, text, text_eq, Dict, lookup, insert,
}
use v_llm_moet.Release.{Documents, Error, key_error}

-- A model of models.yaml, which pins a revision.
pub record Pinned : Type 0 where
  pub hf_repo : Text
  pub revision : Text

pub data BindingError : Type 0 where
  unknown_canonicalization recipe_mismatch suite_mismatch : BindingError

abbrev pub canonicalization_name : Text
canonicalization_name = text "json-sorted-v1"

module _ (docs : Documents) where
  open docs use {Doc, eq, sha, of_text, eq_refl}

  -- The `inputs` of a result.
  pub record Inputs : Type 0 where
    pub canonicalization : Option Text
    pub recipe_sha256 : Option Text
    pub suite_sha256 : Option Text
    pub recipe_snapshot : Option Doc
    pub suite_snapshot : Option Doc
    pub models : Dict Pinned
    pub release : Option Text
    pub box : Option Text
    pub box_sha256 : Option Text
    pub model_manifests : Option Doc

  -- The models that a recipe needs, as models.yaml pins them.
  unfoldable pub bound_models : Dict Pinned → List Text → Dict Pinned → Result Error (Dict Pinned)
  unfolding lookup insert
  bound_models registry [] models = ok models
  bound_models registry (name ∷ names) models = elim (lookup name registry) [
    | none ↦ raise key_error
    | some spec ↦ bound_models registry names (insert name spec models)
  ]

  -- The inputs of a release's result on a box.
  unfoldable pub bound_inputs : Doc → Doc → Text → Text → Doc → Dict Pinned → Inputs
  bound_inputs recipe suite release box_id box models = record {
    canonicalization = some canonicalization_name;
    recipe_sha256 = some (sha recipe);
    suite_sha256 = some (sha suite);
    recipe_snapshot = some recipe;
    suite_snapshot = some suite;
    models = models;
    release = some release;
    box = some box_id;
    box_sha256 = some (sha box);
    model_manifests = none;
  }

  -- `result_bindings`, with a release and a box: `names` are the models that the recipe needs, and
  -- `suite` the effective suite's document.
  unfoldable pub result_bindings :
      Doc → List Text → Doc → Dict Pinned → Text → Text → Doc → Result Error Inputs
  unfolding bound_models bound_inputs
  result_bindings recipe names suite registry release box_id box = do
    models ← bound_models registry names []
    ok (bound_inputs recipe suite release box_id box models)

  -- `a == b`, for values that may be None.
  abbrev pub same_text : Option Text → Option Text → Bool
  same_text none none = true
  same_text none (some t) = false
  same_text (some s) none = false
  same_text (some s) (some t) = text_eq s t

  abbrev pub same_doc : Option Doc → Option Doc → Bool
  same_doc none none = true
  same_doc none (some e) = false
  same_doc (some d) none = false
  same_doc (some d) (some e) = eq d e

  -- A snapshot is there and has the recorded hash.
  unfoldable pub has_hash : Option Doc → Option Text → Bool
  has_hash none hash = false
  has_hash (some d) hash = same_text (some (sha d)) hash

  unfoldable pub error_unless {ℓ} : {E : Type ℓ} → Bool → E → List E
  error_unless test e = if test then [] else e ∷ []

  -- `self_binding_errors`
  unfoldable pub self_binding_errors : Inputs → List BindingError
  unfolding has_hash error_unless
  self_binding_errors i =
      error_unless (same_text i.canonicalization (some canonicalization_name))
        unknown_canonicalization
      ++ (error_unless (has_hash i.recipe_snapshot i.recipe_sha256) recipe_mismatch
          ++ error_unless (has_hash i.suite_snapshot i.suite_sha256) suite_mismatch)

  abbrev pub same_pinned : Pinned → Option Pinned → Bool
  same_pinned p none = false
  same_pinned p (some q) = text_eq p.hf_repo q.hf_repo && text_eq p.revision q.revision

  -- Each entry of the first is one of the second.
  unfoldable pub has_models : Dict Pinned → Dict Pinned → Bool
  unfolding lookup
  has_models [] e = true
  has_models ((k, p) ∷ d) e = same_pinned p (lookup k e) && has_models d e

  -- `==` on `inputs`, where the order of a dictionary does not matter.
  unfoldable pub same_inputs : Inputs → Inputs → Bool
  unfolding has_models
  same_inputs i j =
      same_text i.canonicalization j.canonicalization
      && same_text i.recipe_sha256 j.recipe_sha256
      && same_text i.suite_sha256 j.suite_sha256
      && same_doc i.recipe_snapshot j.recipe_snapshot
      && same_doc i.suite_snapshot j.suite_snapshot
      && (has_models i.models j.models && has_models j.models i.models)
      && same_text i.release j.release
      && same_text i.box j.box
      && same_text i.box_sha256 j.box_sha256
      && same_doc i.model_manifests j.model_manifests
