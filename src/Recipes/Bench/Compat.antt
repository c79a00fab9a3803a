-- ===== src/Recipes/Bench/Compat.antt =====
-- Whether a box can run a recipe: `model_snapshot_error` and `compat` of bench/runner/common.py.
use mathlib.Core.Path.{subst}
use v_llm_moet.Prelude.{
  ℕ, Bool, true, false, not, ◌&&◌, ◌==◌, text_eq, ◌≡◌, refl, Option, none, some, List, [], ◌∷◌,
  ◌++◌, ltb, if◌then◌else◌, Result, ok, raise, ◌>>=◌, arith, Text, text, Dict, lookup, Option-cases,
  inl, inr, >>=-eq-ok, is_blank,
}
use v_llm_moet.Recipes.{Recipe}
use v_llm_moet.Recipes.Snapshot.{ModelSpec, ModelDir, Marker, Hashing, has_snapshot}
use v_llm_moet.Recipes.Bench.{Error, key_error, Box, key}
use v_llm_moet.Recipes.Bench.Docker.{image_of, model_mounts, docker_serve_cmd}

-- The reasons to skip.
pub data Skip : Type 0 where
  few_gpus little_vram little_ram : Skip
  not_on_box path_missing snapshot_differs : Text → Skip

-- The paths that exist, with what they hold, and the models.yaml registry.
pub record Site : Type 0 where
  pub hashing : Hashing
  pub dirs : Dict ModelDir
  pub registry : Dict ModelSpec

unfoldable pub pinned : Option Text → Result Error Text
pinned none = raise key_error
pinned (some revision) = ok revision

-- The marker is of this schema and of the repository: only then the revision is read.
unfoldable pub names_repo : Text → Option Marker → Bool
unfolding text_eq
names_repo repo o = elim o [ none ↦ false | some m ↦ m.schema == 2 && text_eq m.repo repo ]

-- `model_snapshot_error` of a path that exists is not None.
unfoldable pub snapshot_error : Site → Text → ModelDir → Result Error Bool
unfolding lookup has_snapshot pinned names_repo
snapshot_error site m dir = do
  spec ← key m site.registry
  if names_repo spec.hf_repo dir.marker
      then (do
        revision ← pinned spec.revision
        ok (not (has_snapshot site.hashing spec.hf_repo revision dir)))
      else ok true

-- A model's turn of the loop.
unfoldable pub model_skip : Site → Box → Text → Result Error (Option Skip)
unfolding snapshot_error
model_skip site b m = elim (lookup m b.models) [
  | none ↦ ok (some (not_on_box m))
  | some path ↦ elim (lookup path site.dirs) [
    | none ↦ ok (some (path_missing path))
    | some dir ↦ do
      differs ← snapshot_error site m dir
      ok (if differs then some (snapshot_differs m) else none)
  ]
]

abbrev pub or_next : Result Error (Option Skip) → Option Skip → Result Error (Option Skip)
or_next next = elim [ some reason ↦ ok (some reason) | none ↦ next ]

unfoldable pub models_skip : Site → Box → List Text → Result Error (Option Skip)
unfolding model_skip
models_skip site b [] = ok none
models_skip site b (m ∷ ms) = model_skip site b m >>= or_next (models_skip site b ms)

abbrev pub or_number : ℕ → Option ℕ → ℕ
or_number d = elim [ none ↦ d | some n ↦ n ]

-- `compat`
unfoldable pub compat : Site → Recipe → Box → Result Error (Option Skip)
unfolding models_skip
compat site r b =
    if ltb b.gpu_count (or_number 1 r.gpus)
    then ok (some few_gpus)
    else if ltb b.gpu_vram_gb (or_number 0 r.vram_gb)
    then ok (some little_vram)
    else if ltb b.ram_gb (or_number 0 r.host_ram_gb)
    then ok (some little_ram)
    else models_skip site b (r.model ∷ r.extra_models)

model_skip-mounted :
    (site : Site) (b : Box) (m : Text)
    → model_skip site b m ≡ ok none
    → (path : Text) × (lookup m b.models ≡ some path)
unfolding model_skip
model_skip-mounted site b m h = elim (Option-cases (lookup m b.models)) [
  | inl gone ↦ let made = rw (model_skip, gone) at h in cc
  | inr there ↦ there
]

model_mounts-∷ :
    (b : Box) (m path : Text) (ms mounts : List Text)
    → lookup m b.models ≡ some path
    → model_mounts b ms ≡ ok mounts
    → model_mounts b (m ∷ ms)
      ≡ ok (text "-v" ∷ (path ++ text ":/models/" ++ m ++ text ":ro") ∷ mounts)
unfolding model_mounts
model_mounts-∷ b m path ms mounts h h' = ground (arith, h, h')

models_skip-model_mounts :
    (site : Site) (b : Box) (ms : List Text)
    → models_skip site b ms ≡ ok none
    → (mounts : List Text) × (model_mounts b ms ≡ ok mounts)
unfolding models_skip model_mounts
models_skip-model_mounts site b [] h = ([], refl)
models_skip-model_mounts site b (m ∷ ms) h =
    let (skip, first, rest) = >>=-eq-ok (model_skip site b m) _ h in
    elim (Option-cases skip) [
      | inr (reason, some_reason) ↦ let made = rw some_reason at rest in cc
      | inl no_reason ↦
          let (path, there) =
            model_skip-mounted site b m (subst (λ o. model_skip site b m ≡ ok o) no_reason first) in
          let (mounts, mounted) = models_skip-model_mounts site b ms (rw no_reason at rest) in
          (
            text "-v" ∷ (path ++ text ":/models/" ++ m ++ text ":ro") ∷ mounts,
            model_mounts-∷ b m path ms mounts there mounted,
          )
    ]

compat-models_skip :
    (site : Site) (r : Recipe) (b : Box)
    → compat site r b ≡ ok none
    → models_skip site b (r.model ∷ r.extra_models) ≡ ok none
unfolding compat
compat-models_skip site r b h = ground (arith, h)

both_return :
    {A B C : Type 0} {a : A} {b : B} (run : Result Error A) (run' : Result Error B) (f : A → B → C)
    → run ≡ ok a
    → run' ≡ ok b
    → (c : C) × ((run >>= λ a'. run' >>= λ b'. ok (f a' b')) ≡ ok c)
both_return {a = a} {b = b} (raise e) run' f h h' = cc
both_return {a = a} {b = b} (ok a') (raise e) f h h' = cc
both_return {a = a} {b = b} (ok a') (ok b') f h h' = (f a' b', refl)

-- On a box with a docker image, a recipe that compat does not skip gets a command.
pub compat-docker_serve_cmd :
    (site : Site) (r : Recipe) (b : Box) (image : Text) (is_dir : Text → Bool) (port : Text)
    (gpus binds : List Text) (recipe_file models_file : Text)
    → b.docker_image ≡ some image
    → is_blank image ≡ false
    → compat site r b ≡ ok none
    → (command : List Text) × (docker_serve_cmd is_dir r b port gpus recipe_file models_file binds
        ≡ ok command)
unfolding docker_serve_cmd image_of
compat-docker_serve_cmd site r b image is_dir port gpus binds recipe_file models_file named filled
      h =
    let (mounts, mounted) =
      models_skip-model_mounts site b (r.model ∷ r.extra_models) (compat-models_skip site r b h) in
    let there : image_of b.docker_image ≡ ok image = rw (named, image_of, filled) refl in
    both_return (image_of b.docker_image) (model_mounts b (r.model ∷ r.extra_models)) _ there
      mounted
