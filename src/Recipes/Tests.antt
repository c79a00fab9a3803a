-- ===== src/Recipes/Tests.antt =====
-- A recipe on a box and in a container.
use mathlib.Core.Path.{subst}
use mathlib.Core.List.{Memᴰ}
use v_llm_moet.Prelude.{
  true, false, ◌≡◌, refl, sym, Option, none, some, List, [], ◌∷◌, ◌++◌, if◌then◌else◌, ok, Text,
  text, text_eq, text_eq_iff, Dict, IsDict, lookup, is_blank, contains_text, span, Bool-cases, inl,
  inr,
}
use v_llm_moet.Recipes.{Recipe}
use v_llm_moet.Recipes.Template.Agree.{has_bare}
use v_llm_moet.Recipes.Snapshot.{
  ModelSpec, ModelDir, Hashing, config_json, has_snapshot, ensure_model, ensure_pinned,
}
use v_llm_moet.Recipes.Snapshot.Accepted.{ensure_model-has_snapshot}
use v_llm_moet.Recipes.Bench.{Box, path_join, build_env, declared_env, venv_serve_cmd}
use v_llm_moet.Recipes.Bench.Docker.{docker_serve_cmd}
use v_llm_moet.Recipes.Bench.Declared.{declared_env-build_env}
use v_llm_moet.Recipes.Bench.Compat.{Site, compat, compat-docker_serve_cmd}
use v_llm_moet.Recipes.Registry.{
  Entry, is_commit, registry_of, lint_model_registry, lint_model_registry-ensure_model,
}
use v_llm_moet.Recipes.Serve.{
  Setting, Launch, planes_variable, or_empty, dir_of, apply_recipe_env, command, main,
}
use v_llm_moet.Recipes.Serve.Knobs.{Extends, or_recipe, recipe_value, lookup-apply_recipe_env}
use v_llm_moet.Recipes.Serve.Report.{Reports, apply_recipe_env-Reported}
use v_llm_moet.Recipes.Serve.Models.{Accepts, main-Accepts}
use v_llm_moet.Recipes.Serve.Command.{command-venv_serve_cmd}

-- A hashing that keeps the text, and takes each file but the configuration for weights.
abbrev weights_of : Dict Text → List Text
weights_of [] = []
weights_of ((k, v) ∷ files) =
    let rest = weights_of files in if text_eq k config_json then rest else k ∷ rest

abbrev plain_hashing : Hashing
plain_hashing = record {
  sha = λ s. s;
  shard_line = λ name content. name ++ content;
  index_shards = λ index. none;
  weight_files = weights_of;
}

abbrev downloaded : ModelDir
downloaded = record {
  marker = none;
  files = (config_json, text "{}") ∷ (text "a.bin", text "w") ∷ [];
}

abbrev registry : Dict ModelSpec
registry = (text "m", record { hf_repo = text "org/m"; revision = some (text "r1") }) ∷ []

abbrev recipe : Recipe
recipe = record {
  id = text "m/two";
  model = text "m";
  served_name = text "moet";
  env = (text "PLANES", text "{planes_cache}/p") ∷ (text "LOG", text "debug") ∷ [];
  serve_args = text "--enforce-eager" ∷ text "--draft {model:m}" ∷ [];
  gpus = some 1;
  vram_gb = none;
  host_ram_gb = none;
  extra_models = [];
  is_baseline = false;
}

abbrev box : Box
box = record {
  box_id = text "b";
  env = (text "LOG", text "info") ∷ (text "NCCL", text "1") ∷ [];
  models = (text "m", text "/models/m") ∷ [];
  planes = (text "m", text "/planes") ∷ [];
  is_docker = false;
  venv = text "/venv";
  docker_image = some (text "recipes:1");
  shm_size = none;
  gpu_count = 2;
  gpu_vram_gb = 96;
  ram_gb = 256;
}

abbrev environ : Dict Text
environ =
    (text "PORT", text "8001")
    ∷ (text "PLANES_CACHE", text "/planes")
    ∷ (text "LOG", text "quiet")
    ∷ []

abbrev setting : Setting
setting = record {
  hashing = plain_hashing;
  download = λ name dir. ok downloaded;
  registry = registry;
  recipes = (text "m/two", recipe) ∷ [];
  models_dir = text "/models";
  inventory = some (95 ∷ []);
  do_print = false;
  extra = [];
}

main_runs : (l : Launch) × (main setting (text "m/two") environ [] ≡ ok l)
unfolding main lookup text_eq
main_runs = (_, refl)

download_runs :
    (dir : ModelDir) × (ensure_model plain_hashing false false
        (λ dir. ok downloaded)
        registry
        (text "m")
        (or_empty none)
      ≡ ok dir)
unfolding ensure_model lookup text_eq
download_runs = (_, refl)

recipe_env-IsDict : IsDict recipe.env
unfolding lookup text_eq
recipe_env-IsDict = (refl, (refl, tt))

box_env-IsDict : IsDict box.env
unfolding lookup text_eq
box_env-IsDict = (refl, (refl, tt))

ensure_model-has_snapshot_example :
    (spec : ModelSpec) × (revision : Text) × (lookup (text "m") registry ≡ some spec)
    × (spec.revision ≡ some revision)
    × (has_snapshot plain_hashing spec.hf_repo revision download_runs.0 ≡ true)
ensure_model-has_snapshot_example =
    ensure_model-has_snapshot plain_hashing false (λ dir. ok downloaded) registry (text "m")
      (or_empty none) download_runs.0 download_runs.1

-- The recipe's LOG beats the box's.
declared_env-build_env_example :
    lookup (text "LOG") (build_env environ recipe box (text "0" ∷ []))
    ≡ (elim (lookup (text "LOG") (declared_env recipe box)) as (λ o. Option Text) [
      | none ↦ lookup (text "LOG") environ
      | some value ↦ value
    ])
unfolding contains_text text_eq
declared_env-build_env_example =
    declared_env-build_env environ recipe box (text "0" ∷ []) (text "LOG") box_env-IsDict refl refl

build_env_test :
    lookup (text "LOG") (build_env environ recipe box (text "0" ∷ [])) ≡ some (text "debug")
unfolding build_env lookup text_eq
build_env_test = refl

lookup-apply_recipe_env_example :
    lookup (text "LOG") (apply_recipe_env (text "/models") recipe.env environ).environ
    ≡ or_recipe
        (lookup (text "LOG") environ)
        (recipe_value (text "/models") environ (lookup (text "LOG") recipe.env))
unfolding lookup text_eq
lookup-apply_recipe_env_example =
    lookup-apply_recipe_env (text "/models") recipe.env environ (text "LOG") recipe_env-IsDict refl

apply_recipe_env_test :
    lookup (text "PLANES") (apply_recipe_env (text "/models") recipe.env environ).environ
    ≡ some (text "/planes/p")
unfolding apply_recipe_env lookup text_eq is_blank
apply_recipe_env_test = refl

apply_recipe_env-Reported_example :
    Extends environ (apply_recipe_env (text "/models") recipe.env environ)
    × ((j : Text)
        → Reports
            (lookup j environ)
            (lookup j recipe.env)
            (recipe_value (text "/models") environ (lookup j recipe.env))
            j
            (apply_recipe_env (text "/models") recipe.env environ))
unfolding lookup text_eq
apply_recipe_env-Reported_example =
    apply_recipe_env-Reported (text "/models") recipe.env environ recipe_env-IsDict refl

main-Accepts_example : Accepts setting (text "m") main_runs.0.dirs
unfolding lookup text_eq contains_text
main-Accepts_example =
    main-Accepts setting environ refl (text "m/two") [] main_runs.0 recipe (text "m") refl
      main_runs.1 refl

box_models : (m path : Text) → lookup m box.models ≡ some path → path ≡ path_join (text "/models") m
unfolding lookup path_join
box_models m path h = elim (Bool-cases (text_eq (text "m") m)) [
  | inl same ↦
      let equal = (text_eq_iff (text "m") m).0 same in
      let found : ◌≡◌ {A = Option Text} (some (text "/models/m")) (some path) =
        rw (lookup, same) at h in
      let path_eq : text "/models/m" ≡ path = cc in rw (sym path_eq, sym equal) refl
  | inr other ↦ let gone : ◌≡◌ {A = Option Text} none (some path) = rw (lookup, other) at h in cc
]

box_planes :
    (path : Text)
    → lookup recipe.model box.planes ≡ some path
    → (lookup planes_variable environ ≡ some path) × (is_blank path ≡ false)
unfolding lookup text_eq is_blank
box_planes path h =
    let path_eq : text "/planes" ≡ path = cc in
    subst (λ p. (lookup planes_variable environ ≡ some p) × (is_blank p ≡ false)) path_eq
      (refl, refl)

serve_cmd_test :
    venv_serve_cmd recipe box (text "8001")
    ≡ ok (
        text "/venv/bin/vllm"
        ∷ text "serve"
        ∷ text "/models/m"
        ∷ text "--served-model-name"
        ∷ text "moet"
        ∷ text "--port"
        ∷ text "8001"
        ∷ text "--enforce-eager"
        ∷ text "--draft"
        ∷ text "/models/m"
        ∷ [])
unfolding venv_serve_cmd lookup text_eq span is_blank
serve_cmd_test = refl

command-venv_serve_cmd_example :
    command (text "/models") environ recipe (text "-q" ∷ [])
    ≡ text "vllm"
      ∷ text "serve"
      ∷ text "/models/m"
      ∷ text "--served-model-name"
      ∷ text "moet"
      ∷ text "--port"
      ∷ text "8001"
      ∷ text "--enforce-eager"
      ∷ text "--draft"
      ∷ text "/models/m"
      ∷ text "-q"
      ∷ []
unfolding contains_text text_eq lookup has_bare
command-venv_serve_cmd_example =
    command-venv_serve_cmd recipe box (text "/models") environ box_models box_planes (text "8001")
      (text "/venv/bin/vllm")
      (text "serve"
        ∷ text "/models/m"
        ∷ text "--served-model-name"
        ∷ text "moet"
        ∷ text "--port"
        ∷ text "8001"
        ∷ text "--enforce-eager"
        ∷ text "--draft"
        ∷ text "/models/m"
        ∷ [])
      (text "-q" ∷ []) refl refl refl serve_cmd_test

abbrev site : Site
site = record {
  hashing = plain_hashing;
  dirs = (text "/models/m", dir_of (text "m") main_runs.0.dirs) ∷ [];
  registry = registry;
}

compat_test : compat site recipe box ≡ ok none
unfolding compat lookup text_eq main_runs
compat_test = refl

compat-docker_serve_cmd_example :
    (command : List Text) × (docker_serve_cmd
        (λ path. true)
        recipe
        box
        (text "8001")
        (text "0" ∷ text "1" ∷ [])
        (text "/r.yaml")
        (text "/models.yaml")
        []
      ≡ ok command)
unfolding is_blank
compat-docker_serve_cmd_example =
    compat-docker_serve_cmd site recipe box (text "recipes:1") (λ path. true) (text "8001")
      (text "0" ∷ text "1" ∷ []) [] (text "/r.yaml") (text "/models.yaml") refl refl compat_test

abbrev models_yaml : Dict Entry
models_yaml =
    (
      text "m",
      record {
        hf_repo = some (text "org/m");
        revision = some (text "0123456789ABCDEF0123456789abcdef01234567");
      },
    )
    ∷ []

lint_model_registry_test : lint_model_registry models_yaml (recipe ∷ []) ≡ []
unfolding lint_model_registry lookup text_eq is_blank
lint_model_registry_test = refl

lint_model_registry-ensure_model_example :
    (repo revision : Text) × (is_commit (some revision) ≡ true)
    × (is_blank repo ≡ false)
    × (ensure_model plain_hashing false false
          (λ dir. ok downloaded)
          (registry_of models_yaml)
          (text "m")
          (or_empty none)
        ≡ ensure_pinned plain_hashing false false
            (λ dir. ok downloaded)
            repo
            revision
            (or_empty none))
unfolding contains_text text_eq
lint_model_registry-ensure_model_example =
    lint_model_registry-ensure_model plain_hashing false false (λ dir. ok downloaded) models_yaml
      (recipe ∷ []) recipe (text "m") (or_empty none) lint_model_registry_test (Memᴰ.head refl) refl
