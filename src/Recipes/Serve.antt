-- ===== src/Recipes/Serve.antt =====
-- The container's launcher, docker/serve_recipe.py: `check_gpus`, `resolve` and `main`.
pub mod Knobs
pub mod Report
pub mod Models
pub mod Command
use v_llm_moet.Prelude.{
  ℕ, Bool, true, false, not, ◌&&◌, Option, none, some, List, [], ◌∷◌, ◌++◌, ltb, ◌==◌, ◌+◌,
  if◌then◌else◌, length, take, Result, ok, raise, ◌>>=◌, ◌>>◌, guard, Text, text, text_eq, Dict,
  lookup, insert, is_blank, span,
}
use v_llm_moet.Recipes.{Recipe}
use v_llm_moet.Recipes.Template.{Placeholder, planes_cache, own_model, named_model, substitute}
use v_llm_moet.Recipes.Snapshot.{Die, ModelSpec, ModelDir, Hashing, ensure_model}
use v_llm_moet.Recipes.Bench.{path_join}

abbrev pub planes_variable : Text
planes_variable = text "PLANES_CACHE"

-- `sub`: the value of a placeholder in an environment. The pattern has no bare {model}.
unfoldable pub container_value : Text → Dict Text → Placeholder → Option Text
unfolding lookup is_blank path_join
container_value models_dir env planes_cache = elim (lookup planes_variable env) [
  | none ↦ none
  | some v ↦ if is_blank v then none else some v
]
container_value models_dir env own_model = none
container_value models_dir env (named_model m) = some (path_join models_dir m)

unfoldable pub resolve : Text → Dict Text → Text → Option Text
unfolding substitute container_value
resolve models_dir env s = substitute false (container_value models_dir env) s

-- The state of the loop over the recipe's knobs: os.environ and what is reported of the knobs.
pub record Applied : Type 0 where
  pub environ : Dict Text
  pub applied : Dict Text
  pub overridden : Dict Text
  pub dropped : List Text

-- What becomes of a knob, from the container's own value and from what the recipe's resolves to.
unfoldable pub apply_found : Text → Option Text → Option Text → Applied → Applied
unfolding insert
apply_found k (some own) rv s = record s { overridden = insert k own s.overridden }
apply_found k none none s = record s { dropped = s.dropped ++ k ∷ [] }
apply_found k none (some rv) s = record s {
  environ = insert k rv s.environ;
  applied = insert k rv s.applied;
}

-- One turn of the loop.
unfoldable pub apply_one : Text → Text → Text → Applied → Applied
unfolding apply_found resolve lookup
apply_one models_dir k v s = apply_found k (lookup k s.environ) (resolve models_dir s.environ v) s

unfoldable pub apply_all : Text → Dict Text → Applied → Applied
unfolding apply_one
apply_all models_dir [] s = s
apply_all models_dir ((k, v) ∷ knobs) s = apply_all models_dir knobs (apply_one models_dir k v s)

unfoldable pub apply_recipe_env : Text → Dict Text → Dict Text → Applied
unfolding apply_all
apply_recipe_env models_dir knobs environ =
    apply_all models_dir knobs
      record { environ = environ; applied = []; overridden = []; dropped = [] }

-- `[flag, rest] if rest else [flag]`, where `tail` starts at the space.
unfoldable pub flag_and_rest : Text → Text → List Text
unfolding is_blank
flag_and_rest flag [] = flag ∷ []
flag_and_rest flag (space ∷ rest) = if is_blank rest then flag ∷ [] else flag ∷ rest ∷ []

-- `a.partition(" ")` and its parts
unfoldable pub partition_arg : Text → List Text
unfolding span flag_and_rest
partition_arg a = let (flag, tail) = span (λ c. not (c == 32)) a in flag_and_rest flag tail

unfoldable pub serve_args : Text → Dict Text → List Text → List Text
unfolding resolve partition_arg
serve_args models_dir env [] = []
serve_args models_dir env (a ∷ as') = elim (resolve models_dir env a) [
  | none ↦ serve_args models_dir env as'
  | some v ↦ partition_arg v ++ serve_args models_dir env as'
]

abbrev pub or_default : Text → Option Text → Text
or_default d = elim [ none ↦ d | some v ↦ v ]

unfoldable pub command : Text → Dict Text → Recipe → List Text → List Text
unfolding serve_args lookup path_join
command models_dir env r extra =
    text "vllm"
    ∷ text "serve"
    ∷ path_join models_dir r.model
    ∷ text "--served-model-name"
    ∷ r.served_name
    ∷ text "--port"
    ∷ or_default (text "8000") (lookup (text "PORT") env)
    ∷ (serve_args models_dir env r.serve_args ++ extra)

pub data Refusal : Type 0 where
  unknown_recipe baseline too_few_gpus small_gpus : Refusal
  model_refused : Die → Refusal

abbrev pub is_set_to : Text → Text → Dict Text → Bool
is_set_to value k env = elim (lookup k env) [ none ↦ false | some v ↦ text_eq v value ]

unfoldable pub any_small : ℕ → List ℕ → Bool
any_small need_vram [] = false
any_small need_vram (v ∷ vs) = if ltb (v + 1) need_vram then true else any_small need_vram vs

abbrev pub or_number : ℕ → Option ℕ → ℕ
or_number d = elim [ none ↦ d | some n ↦ n ]

-- `check_gpus`: the inventory is the GPUs' memory in GiB, if nvidia-smi gave one.
unfoldable pub check_gpus : Dict Text → Option (List ℕ) → Recipe → Result Refusal (Unit {0})
unfolding any_small lookup
check_gpus env inventory r =
    if is_set_to (text "1") (text "SKIP_GPU_CHECK") env then ok tt else elim inventory [
      | none ↦ ok tt
      | some gpus ↦
          let need_n = or_number 1 r.gpus in
          let need_vram = or_number 0 r.vram_gb in
          if ltb (length gpus) need_n
          then raise too_few_gpus
          else guard (not (any_small need_vram (take need_n gpus))) small_gpus
    ]

-- What main is given: the arguments, the environment, the GPUs, and what a download leaves of a
-- model's directory.
pub record Setting : Type 0 where
  pub hashing : Hashing
  pub download : Text → ModelDir → Result Die ModelDir
  pub registry : Dict ModelSpec
  pub recipes : Dict Recipe
  pub models_dir : Text
  pub inventory : Option (List ℕ)
  pub do_print : Bool
  pub extra : List Text

-- The models' directories: one that is not there holds nothing.
abbrev pub or_empty : Option ModelDir → ModelDir
or_empty = elim [ none ↦ record { marker = none; files = [] } | some dir ↦ dir ]

abbrev pub dir_of : Text → Dict ModelDir → ModelDir
dir_of name dirs = or_empty (lookup name dirs)

unfoldable pub lift_die : Result Die ModelDir → Result Refusal ModelDir
lift_die (raise e) = raise (model_refused e)
lift_die (ok dir) = ok dir

abbrev pub is_filled : Option Text → Bool
is_filled = elim [ none ↦ false | some v ↦ not (is_blank v) ]

unfoldable pub ensure_in :
    Setting → Dict Text → Text → Dict ModelDir → Result Refusal (Dict ModelDir)
unfolding lift_die ensure_model insert lookup
ensure_in c env name dirs = do
  dir ← lift_die (
      ensure_model c.hashing (is_filled (lookup (text "FORCE_DOWNLOAD") env)) c.do_print
        (c.download name) c.registry name (dir_of name dirs))
  ok (insert name dir dirs)

-- The recipe's model and its extra models, in order.
unfoldable pub ensure_all :
    Setting → Dict Text → List Text → Dict ModelDir → Result Refusal (Dict ModelDir)
unfolding ensure_in
ensure_all c env [] dirs = ok dirs
ensure_all c env (m ∷ ms) dirs = do dirs' ← ensure_in c env m dirs; ensure_all c env ms dirs'

-- What main execs (or prints), with the directories.
pub record Launch : Type 0 where
  pub knobs : Applied
  pub argv : List Text
  pub dirs : Dict ModelDir

unfoldable pub launch_of : Setting → Recipe → Dict Text → Dict ModelDir → Launch
unfolding apply_recipe_env command
launch_of c r environ dirs =
    let knobs = apply_recipe_env c.models_dir r.env environ in
    record { knobs = knobs; argv = command c.models_dir knobs.environ r c.extra; dirs = dirs }

unfoldable pub launch : Setting → Recipe → Dict Text → Dict ModelDir → Result Refusal Launch
unfolding check_gpus ensure_all launch_of
launch c r environ dirs =
    let allowed = is_set_to (text "1") (text "ALLOW_BASELINE_RECIPE") environ in
    guard (not (r.is_baseline && not c.do_print && not allowed)) baseline
    >> check_gpus environ c.inventory r
    >> (ensure_all c environ (r.model ∷ r.extra_models) dirs >>= λ dirs'.
        ok (launch_of c r environ dirs'))

-- `main`, for a recipe that is named.
unfoldable pub main : Setting → Text → Dict Text → Dict ModelDir → Result Refusal Launch
unfolding launch lookup
main c id environ dirs = elim (lookup id c.recipes) [
  | none ↦ raise unknown_recipe
  | some r ↦ launch c r environ dirs
]
