-- ===== src/Recipes/Bench/Docker.antt =====
-- The runner's command on a box with docker: `_docker_serve_cmd`.
use v_llm_moet.Prelude.{
  Bool, not, ◌&&◌, Option, none, some, List, [], ◌∷◌, ◌++◌, if◌then◌else◌, Result, ok, raise, ◌>>=◌,
  Text, text, Dict, lookup, is_blank, contains_text,
}
use v_llm_moet.Recipes.{Recipe}
use v_llm_moet.Recipes.Bench.{Error, no_docker_image, Box, path_prepend, ld_prepend, join_with, key}

-- `_VENV_ONLY_ENV`
abbrev pub venv_only_env : List Text
venv_only_env =
    path_prepend
    ∷ ld_prepend
    ∷ text "CUDA_HOME"
    ∷ text "FLASHINFER_CUDA_ARCH_LIST"
    ∷ text "VLLM_MOE_W2_CUBIT_DIR"
    ∷ []

-- The `-e` options of a container: the box's environment without the knobs of a virtual environment.
unfoldable pub env_options : Dict Text → List Text
unfolding contains_text
env_options [] = []
env_options ((k, v) ∷ env) =
    let rest = env_options env in
    if contains_text venv_only_env k then rest else text "-e" ∷ (k ++ text "=" ++ v) ∷ rest

-- The mounts of the models.
unfoldable pub model_mounts : Box → List Text → Result Error (List Text)
unfolding lookup
model_mounts b [] = ok []
model_mounts b (m ∷ ms) = do
  path ← key m b.models
  rest ← model_mounts b ms
  ok (text "-v" ∷ (path ++ text ":/models/" ++ m ++ text ":ro") ∷ rest)

unfoldable pub planes_options : (Text → Bool) → Option Text → List Text
unfolding is_blank
planes_options is_dir none = []
planes_options is_dir (some p) =
    if not (is_blank p) && is_dir p
    then text "-v" ∷ (p ++ text ":/planes") ∷ text "-e" ∷ text "PLANES_CACHE=/planes" ∷ []
    else []

unfoldable pub bind_options : List Text → List Text
bind_options [] = []
bind_options (bind ∷ bs) = text "-v" ∷ bind ∷ bind_options bs

-- `if not image: raise`
unfoldable pub image_of : Option Text → Result Error Text
unfolding is_blank
image_of none = raise no_docker_image
image_of (some image) = if is_blank image then raise no_docker_image else ok image

-- `_docker_serve_cmd`: `recipe_file` and `models_file` are the paths that are mounted.
unfoldable pub docker_serve_cmd :
    (Text → Bool)
    → Recipe
    → Box
    → Text
    → List Text
    → Text
    → Text
    → List Text
    → Result Error (List Text)
unfolding image_of model_mounts planes_options bind_options env_options join_with
docker_serve_cmd is_dir r b port gpus recipe_file models_file binds = do
  image ← image_of b.docker_image
  mounts ← model_mounts b (r.model ∷ r.extra_models)
  ok (
      text "docker"
      ∷ text "run"
      ∷ text "--rm"
      ∷ text "--name"
      ∷ (text "vllm-moet-bench-" ++ port)
      ∷ text "--gpus"
      ∷ (text "\"device=" ++ join_with (text ",") gpus ++ text "\"")
      ∷ text "--network"
      ∷ text "host"
      ∷ text "--ipc"
      ∷ text "host"
      ∷ text "--shm-size"
      ∷ elim b.shm_size [ none ↦ text "64g" | some size ↦ size ]
      ∷ text "-e"
      ∷ (text "PORT=" ++ port)
      ∷ text "-v"
      ∷ (recipe_file ++ text ":/opt/vllm-moet/recipes/" ++ r.id ++ text ".yaml:ro")
      ∷ text "-v"
      ∷ (models_file ++ text ":/opt/vllm-moet/models.yaml:ro")
      ∷ (mounts
          ++ (planes_options is_dir (lookup r.model b.planes)
              ++ (bind_options binds ++ (env_options b.env ++ image ∷ r.id ∷ [])))))
