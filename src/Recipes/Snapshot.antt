-- ===== src/Recipes/Snapshot.antt =====
-- Pinned model snapshots: `_model_manifest` and `model_snapshot_error` of bench/runner/common.py, and
-- `ensure_model` of docker/serve_recipe.py, which has its own copy of the first.
pub mod Accepted
use v_llm_moet.Prelude.{
  ℕ, Bool, true, false, not, ◌&&◌, ◌||◌, ◌≡◌, refl, Option, none, some, List, [], ◌∷◌, ◌++◌, ◌==◌,
  if◌then◌else◌, Result, ok, raise, ◌>>=◌, ◌>>◌, guard, Text, text, text_eq, text_eq_refl, Dict,
  lookup, has_key, is_blank, arith, Bool-cases, ◌⊎◌, inl, inr, >>=-eq-ok,
}

pub data Die : Type 0 where
  unregistered unpinned download_failed no_config bad_index incomplete no_weights no_manifest : Die

-- models.yaml's entry of a model; `revision` can be missing.
pub record ModelSpec : Type 0 where
  pub hf_repo : Text
  pub revision : Option Text

-- The marker file of a snapshot.
pub record Marker : Type 0 where
  pub schema : ℕ
  pub repo : Text
  pub marked_revision : Text
  pub manifest_sha256 : Text

-- A model's directory: the marker, if it can be read, and the other files with their contents. No
-- shard is the marker itself.
pub record ModelDir : Type 0 where
  pub marker : Option Marker
  pub files : Dict Text

-- SHA-256 as a text, what a shard adds to the manifest, the sorted shards that an index names (if
-- it can be read), and the sorted weight files of a directory without an index.
pub record Hashing : Type 0 where
  pub sha : Text → Text
  pub shard_line : Text → Text → Text
  pub index_shards : Text → Option (List Text)
  pub weight_files : Dict Text → List Text

abbrev pub config_json : Text
config_json = text "config.json"

abbrev pub index_json : Text
index_json = text "model.safetensors.index.json"

module _ (hashing : Hashing) where
  open hashing use {sha, shard_line, index_shards, weight_files}

  -- What the shards add, if every one is there.
  unfoldable pub shard_lines : Dict Text → List Text → Option Text
  shard_lines files [] = some []
  shard_lines files (s ∷ ss) = elim (lookup s files) [
    | none ↦ none
    | some content ↦ elim (shard_lines files ss) [
      | none ↦ none
      | some rest ↦ some (shard_line s content ++ rest)
    ]
  ]

  unfoldable pub with_shards : Dict Text → Text → Option (List Text) → Option Text
  unfolding shard_lines
  with_shards files head none = none
  with_shards files head (some shards) = elim (shard_lines files shards) [
    | none ↦ none
    | some rest ↦ some (sha (head ++ rest))
  ]

  abbrev pub nonempty : List Text → Option (List Text)
  nonempty = elim [ [] ↦ none | s ∷ ss ↦ some (s ∷ ss) ]

  unfoldable pub manifest_head : Text → Text
  manifest_head config = text "vllm-moet-model-manifest-v1" ++ 0 ∷ sha config

  -- `_model_manifest`
  unfoldable pub model_manifest : Dict Text → Option Text
  unfolding manifest_head with_shards
  model_manifest files = elim (lookup config_json files) [
    | none ↦ none
    | some config ↦ elim (lookup index_json files) [
      | some index ↦ with_shards files (manifest_head config ++ sha index) (index_shards index)
      | none ↦ with_shards files (manifest_head config) (nonempty (weight_files files))
    ]
  ]

  -- The marker names the repository and the revision of models.yaml.
  unfoldable pub names_spec : Text → Text → Marker → Bool
  names_spec repo revision m =
      m.schema == 2 && text_eq m.repo repo && text_eq m.marked_revision revision

  abbrev pub is_some_text : Option Text → Text → Bool
  is_some_text o t = elim o [ none ↦ false | some s ↦ text_eq t s ]

  -- `model_snapshot_error` is None.
  unfoldable pub has_snapshot : Text → Text → ModelDir → Bool
  unfolding names_spec model_manifest
  has_snapshot repo revision dir = elim dir.marker [
    | none ↦ false
    | some m ↦
        names_spec repo revision m && is_some_text (model_manifest dir.files) m.manifest_sha256
  ]

  unfoldable pub all_there : Dict Text → List Text → Bool
  all_there files [] = true
  all_there files (s ∷ ss) = has_key s files && all_there files ss

  -- The shards of a downloaded index are all there, or there are weight files.
  unfoldable pub check_download : Dict Text → Result Die (Unit {0})
  unfolding all_there
  check_download files = elim (lookup index_json files) [
    | some index ↦ elim (index_shards index) [
      | none ↦ raise bad_index
      | some shards ↦ guard (all_there files shards) incomplete
    ]
    | none ↦ elim (weight_files files) [ [] ↦ raise no_weights | w ∷ ws ↦ ok tt ]
  ]

  -- The directory with the marker of what was downloaded.
  unfoldable pub marked : Text → Text → ModelDir → Option Text → Result Die ModelDir
  marked repo revision dir none = raise no_manifest
  marked repo revision dir (some manifest) = ok record dir {
    marker =
        some record {
          schema = 2;
          repo = repo;
          marked_revision = revision;
          manifest_sha256 = manifest;
        };
  }

  -- `ensure_model` for a registered and pinned model: `download` is what snapshot_download leaves.
  unfoldable pub ensure_pinned :
      Bool → Bool → (ModelDir → Result Die ModelDir) → Text → Text → ModelDir → Result Die ModelDir
  unfolding has_snapshot check_download marked model_manifest
  ensure_pinned force do_print download repo revision dir =
      if has_snapshot repo revision dir && not force
      then ok dir
      else if do_print
      then ok dir
      else do
        dir' ← download dir
        guard (has_key config_json dir'.files) no_config
        check_download dir'.files
        marked repo revision dir' (model_manifest dir'.files)

  -- `ensure_model`, with the models.yaml registry.
  unfoldable pub ensure_model :
      Bool
      → Bool
      → (ModelDir → Result Die ModelDir)
      → Dict ModelSpec
      → Text
      → ModelDir
      → Result Die ModelDir
  unfolding ensure_pinned is_blank
  ensure_model force do_print download registry name dir = elim (lookup name registry) [
    | none ↦ raise unregistered
    | some spec ↦ elim spec.revision [
      | none ↦ raise unpinned
      | some revision ↦
          if is_blank revision
          then raise unpinned
          else ensure_pinned force do_print download spec.hf_repo revision dir
    ]
  ]
