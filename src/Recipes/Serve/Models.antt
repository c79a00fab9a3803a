-- ===== src/Recipes/Serve/Models.antt =====
-- The models of a recipe that the launcher starts.
use mathlib.Core.Path.{subst}
use v_llm_moet.Prelude.{
  true, false, not, ◌&&◌, ◌≡◌, sym, ap, some, List, [], ◌∷◌, Result, ok, raise, ◌>>◌, guard, arith,
  Text, text, text_eq, text_eq_iff, text_eq_refl, Dict, lookup, insert, lookup-insert, Bool-cases,
  ◌⊎◌, inl, inr, >>=-eq-ok, contains_text,
}
use v_llm_moet.Recipes.{Recipe}
use v_llm_moet.Recipes.Snapshot.{Die, ModelSpec, ModelDir, has_snapshot, ensure_model}
use v_llm_moet.Recipes.Snapshot.Accepted.{ensure_model-has_snapshot}
use v_llm_moet.Recipes.Serve.{
  Setting, baseline, is_set_to, is_filled, or_empty, dir_of, lift_die, ensure_in, ensure_all,
  Launch, launch_of, check_gpus, launch, main,
}

-- A directory is a snapshot of what models.yaml says of a model.
abbrev pub AcceptsDir : Setting → Text → ModelDir → Type 0
AcceptsDir c name dir =
    (spec : ModelSpec) × (revision : Text) × (lookup name c.registry ≡ some spec)
    × (spec.revision ≡ some revision)
    × (has_snapshot c.hashing spec.hf_repo revision dir ≡ true)

abbrev pub Accepts : Setting → Text → Dict ModelDir → Type 0
Accepts c name dirs = AcceptsDir c name (dir_of name dirs)

lift_die-eq-ok : (run : Result Die ModelDir) (dir : ModelDir) → lift_die run ≡ ok dir → run ≡ ok dir
unfolding lift_die
lift_die-eq-ok (raise e) dir h = cc
lift_die-eq-ok (ok d) dir h = let same : d ≡ dir = cc in ap ok same

insert-Accepts :
    (c : Setting) (name : Text) (dir : ModelDir) (dirs : Dict ModelDir)
    → AcceptsDir c name dir
    → Accepts c name (insert name dir dirs)
insert-Accepts c name dir dirs h =
    let found : lookup name (insert name dir dirs) ≡ some dir =
      ground (arith, lookup-insert name name dir dirs, text_eq_refl name) in
    subst (λ o. AcceptsDir c name (or_empty o)) (sym found) h

insert-Accepts_other :
    (c : Setting) (name other : Text) (dir : ModelDir) (dirs : Dict ModelDir)
    → AcceptsDir c name dir
    → Accepts c other dirs
    → Accepts c other (insert name dir dirs)
insert-Accepts_other c name other dir dirs h h' = elim (Bool-cases (text_eq name other)) [
  | inl same ↦
      subst (λ t. Accepts c t (insert name dir dirs)) ((text_eq_iff name other).0 same)
        (insert-Accepts c name dir dirs h)
  | inr differs ↦
      let found : lookup other (insert name dir dirs) ≡ lookup other dirs =
        ground (arith, lookup-insert name other dir dirs, differs) in
      subst (λ o. AcceptsDir c other (or_empty o)) (sym found) h'
]

module _ (c : Setting) (env : Dict Text) (to_run : c.do_print ≡ false) where
  -- What one call leaves: the model's snapshot, and the others'.
  ensure_in-Accepts :
      (name : Text) (dirs dirs' : Dict ModelDir)
      → ensure_in c env name dirs ≡ ok dirs'
      → Accepts c name dirs' × ((other : Text) → Accepts c other dirs → Accepts c other dirs')
  unfolding ensure_in
  ensure_in-Accepts name dirs dirs' h =
      let force = is_filled (lookup (text "FORCE_DOWNLOAD") env) in
      let old = dir_of name dirs in
      let (dir, ran, ended) = >>=-eq-ok (lift_die _) _ h in
      let made =
        subst (λ p. ensure_model c.hashing force p (c.download name) c.registry name old ≡ ok dir)
          to_run (lift_die-eq-ok _ dir ran) in
      let there =
        ensure_model-has_snapshot c.hashing force (c.download name) c.registry name old dir made in
      let result : insert name dir dirs ≡ dirs' = cc in
      subst (λ d. Accepts c name d × ((other : Text) → Accepts c other dirs → Accepts c other d))
        result
        (
          insert-Accepts c name dir dirs there,
          λ other h'. insert-Accepts_other c name other dir dirs there h',
        )

  ensure_all-Accepts :
      (ms : List Text) (dirs dirs' : Dict ModelDir) (m : Text)
      → ensure_all c env ms dirs ≡ ok dirs'
      → (Accepts c m dirs ⊎ (contains_text ms m ≡ true))
      → Accepts c m dirs'
  unfolding ensure_all contains_text
  ensure_all-Accepts [] dirs dirs' m h (inl there) =
      let same : dirs ≡ dirs' = cc in subst (Accepts c m) same there
  ensure_all-Accepts [] dirs dirs' m h (inr named) = cc
  ensure_all-Accepts (n ∷ ms) dirs dirs' m h needed =
      let (between, first, rest) = >>=-eq-ok (ensure_in c env n dirs) _ h in
      let (here, kept) = ensure_in-Accepts n dirs between first in
      ensure_all-Accepts ms between dirs' m rest (elim needed [
        | inl there ↦ inl (kept m there)
        | inr named ↦ elim (Bool-cases (text_eq n m)) [
          | inl same ↦ inl (subst (λ t. Accepts c t between) ((text_eq_iff n m).0 same) here)
          | inr differs ↦ inr (ground arith)
        ]
      ])

  launch-Accepts :
      (r : Recipe) (dirs : Dict ModelDir) (l : Launch) (m : Text)
      → launch c r env dirs ≡ ok l
      → contains_text (r.model ∷ r.extra_models) m ≡ true
      → Accepts c m l.dirs
  unfolding launch launch_of
  launch-Accepts r dirs l m h named =
      let allowed = is_set_to (text "1") (text "ALLOW_BASELINE_RECIPE") env in
      let test = not (r.is_baseline && not c.do_print && not allowed) in
      let checks = guard test baseline >> check_gpus env c.inventory r in
      let (done, passed, ensured) = >>=-eq-ok checks _ h in
      let (dirs', all, ended) =
        >>=-eq-ok (ensure_all c env (r.model ∷ r.extra_models) dirs) _ ensured in
      let same : launch_of c r env dirs' ≡ l = cc in
      subst (λ l. Accepts c m l.dirs) same
        (ensure_all-Accepts (r.model ∷ r.extra_models) dirs dirs' m all (inr named))

  -- When main goes on to exec, each model that the recipe needs has a snapshot of the pinned revision
  -- in models.yaml.
  pub main-Accepts :
      (id : Text) (dirs : Dict ModelDir) (l : Launch) (r : Recipe) (m : Text)
      → lookup id c.recipes ≡ some r
      → main c id env dirs ≡ ok l
      → contains_text (r.model ∷ r.extra_models) m ≡ true
      → Accepts c m l.dirs
  unfolding main
  main-Accepts id dirs l r m known h named =
      let run = rw (main, known) at h in launch-Accepts r dirs l m run named
