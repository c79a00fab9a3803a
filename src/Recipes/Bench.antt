-- ===== src/Recipes/Bench.antt =====
-- The bench runner's environment and command for a recipe on a box (bench/runner/common.py).
pub mod Declared
pub mod Docker
pub mod Compat
use v_llm_moet.Prelude.{
  ℕ, Bool, true, false, not, ◌&&◌, ◌||◌, Option, none, some, List, [], ◌∷◌, ◌++◌, ltb, ◌==◌,
  if◌then◌else◌, Result, ok, raise, ◌>>=◌, Text, text, text_eq, Dict, lookup, insert, merge,
  without, has_key, is_blank, contains_text, starts_with, span,
}
use v_llm_moet.Recipes.{Recipe}
use v_llm_moet.Recipes.Template.{Placeholder, planes_cache, own_model, named_model, substitute}

pub data Error : Type 0 where
  key_error no_docker_image : Error

-- What the runner reads of a box; `planes` is its planes_cache.
pub record Box : Type 0 where
  pub box_id : Text
  pub env : Dict Text
  pub models : Dict Text
  pub planes : Dict Text
  pub is_docker : Bool
  pub venv : Text
  pub docker_image : Option Text
  pub shm_size : Option Text
  pub gpu_count : ℕ
  pub gpu_vram_gb : ℕ
  pub ram_gb : ℕ

-- `_resolve_str`'s value of a placeholder.
unfoldable pub box_value : Recipe → Box → Placeholder → Option Text
unfolding lookup
box_value r b planes_cache = lookup r.model b.planes
box_value r b own_model = lookup r.model b.models
box_value r b (named_model m) = lookup m b.models

unfoldable pub resolve_str : Recipe → Box → Text → Option Text
unfolding substitute box_value
resolve_str r b s = substitute true (box_value r b) s

abbrev pub path_prepend : Text
path_prepend = text "PATH_PREPEND"

abbrev pub ld_prepend : Text
ld_prepend = text "LD_LIBRARY_PATH_PREPEND"

-- The knobs of the box and the recipe, without the two that are prepended.
unfoldable pub knobs : Recipe → Box → Dict Text
unfolding without merge
knobs r b = without ld_prepend (without path_prepend (merge b.env r.env))

-- `env[k] = v`, or `env.pop(k, None)` for a resource that is missing.
unfoldable pub apply_knob : Text → Option Text → Dict Text → Dict Text
unfolding insert without
apply_knob k none env = without k env
apply_knob k (some v) env = insert k v env

unfoldable pub apply_knobs : (Text → Option Text) → Dict Text → Dict Text → Dict Text
unfolding apply_knob
apply_knobs resolve [] env = env
apply_knobs resolve ((k, v) ∷ knobs) env = apply_knobs resolve knobs (apply_knob k (resolve v) env)

-- `env[k] = p + ":" + env.get(k, "")`, if there is something to prepend.
unfoldable pub prepend : Text → Option Text → Dict Text → Dict Text
unfolding insert lookup is_blank
prepend k none env = env
prepend k (some p) env =
    if is_blank p
    then env
    else insert k (p ++ text ":" ++ elim (lookup k env) [ none ↦ [] | some v ↦ v ]) env

-- `sep.join(ts)`
unfoldable pub join_with : Text → List Text → Text
join_with sep [] = []
join_with sep (t ∷ []) = t
join_with sep (t ∷ u ∷ ts) = t ++ (sep ++ join_with sep (u ∷ ts))

-- `build_env`; the GPUs are given as texts.
unfoldable pub build_env : Dict Text → Recipe → Box → List Text → Dict Text
unfolding knobs apply_knobs prepend join_with resolve_str
build_env inherited r b gpus =
    let merged = merge b.env r.env in
    let applied = apply_knobs (resolve_str r b) (knobs r b) inherited in
    let with_path = prepend (text "PATH") (lookup path_prepend merged) applied in
    let with_ld = prepend (text "LD_LIBRARY_PATH") (lookup ld_prepend merged) with_path in
    insert (text "CUDA_VISIBLE_DEVICES") (join_with (text ",") gpus) with_ld

-- What a knob is declared to be: in docker mode its text, otherwise what it resolves to, if it does.
unfoldable pub declared_value : Recipe → Box → Text → Option Text
unfolding resolve_str
declared_value r b v = if b.is_docker then some v else resolve_str r b v

unfoldable pub declare : (Text → Option Text) → Dict Text → Dict (Option Text)
declare value [] = []
declare value ((k, v) ∷ knobs) =
    let rest = declare value knobs in
    if text_eq k path_prepend || text_eq k ld_prepend then rest else (k, value v) ∷ rest

-- `declared_env`
unfoldable pub declared_env : Recipe → Box → Dict (Option Text)
unfolding declare declared_value merge
declared_env r b = declare (declared_value r b) (merge b.env r.env)

-- `tail` starts at the space.
unfoldable pub split_parts : Text → Text → List Text
split_parts flag [] = flag ∷ []
split_parts flag (space ∷ value) = flag ∷ value ∷ []

-- `arg.split(" ", 1)`
unfoldable pub split_arg : Text → List Text
unfolding span split_parts
split_arg a = let (flag, tail) = span (λ c. not (c == 32)) a in split_parts flag tail

-- The resolved arguments; a missing resource raises.
unfoldable pub serve_args_of : Recipe → Box → List Text → Result Error (List Text)
unfolding resolve_str split_arg
serve_args_of r b [] = ok []
serve_args_of r b (a ∷ as') = elim (resolve_str r b a) [
  | none ↦ raise key_error
  | some v ↦ do rest ← serve_args_of r b as'; ok (split_arg v ++ rest)
]

abbrev pub key : {V : Type 0} → Text → Dict V → Result Error V
key k d = elim (lookup k d) [ none ↦ raise key_error | some v ↦ ok v ]

-- Whether `c ∷ a` ends in a slash.
unfoldable pub ends_in_slash : ℕ → Text → Bool
ends_in_slash c [] = c == b'/'
ends_in_slash c (d ∷ a) = ends_in_slash d a

-- `os.path.join(a, b)`, for `b` with no leading slash.
unfoldable pub path_join : Text → Text → Text
unfolding ends_in_slash
path_join [] b = b
path_join (c ∷ a) b = (c ∷ a) ++ (if ends_in_slash c a then b else text "/" ++ b)

-- `build_serve_cmd` in a virtual environment.
unfoldable pub venv_serve_cmd : Recipe → Box → Text → Result Error (List Text)
unfolding serve_args_of path_join lookup
venv_serve_cmd r b port = do
  weights ← key r.model b.models
  args ← serve_args_of r b r.serve_args
  ok (
      path_join (path_join b.venv (text "bin")) (text "vllm")
      ∷ text "serve"
      ∷ weights
      ∷ text "--served-model-name"
      ∷ r.served_name
      ∷ text "--port"
      ∷ port
      ∷ args)
