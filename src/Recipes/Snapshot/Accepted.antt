-- ===== src/Recipes/Snapshot/Accepted.antt =====
-- The snapshots that the launcher makes are those that the bench runner accepts.
use mathlib.Core.Path.{subst}
use v_llm_moet.Prelude.{
  Bool, true, false, not, ◌&&◌, ◌≡◌, refl, Option, none, some, Result, ok, raise, guard, Text,
  text_eq_refl, Dict, lookup, has_key, if◌then◌else◌, is_blank, arith, Bool-cases, inl, inr,
  >>=-eq-ok,
}
use v_llm_moet.Recipes.Snapshot.{
  Die, unregistered, unpinned, no_config, ModelSpec, ModelDir, Hashing, config_json, names_spec,
  model_manifest, has_snapshot, check_download, marked, ensure_pinned, ensure_model,
}

module _ (hashing : Hashing) where
  marked-has_snapshot :
      (repo revision : Text) (dir dir' : ModelDir) (o : Option Text)
      → model_manifest hashing dir.files ≡ o
      → marked hashing repo revision dir o ≡ ok dir'
      → has_snapshot hashing repo revision dir' ≡ true
  unfolding marked has_snapshot names_spec
  marked-has_snapshot repo revision dir dir' none e h = cc
  marked-has_snapshot repo revision dir dir' (some m) e h =
      let made : ModelDir = record dir {
        marker =
            some
              record { schema = 2; repo = repo; marked_revision = revision; manifest_sha256 = m };
      } in
      let same : made ≡ dir' = cc in
      let fine : has_snapshot hashing repo revision made ≡ true =
        rw (e, text_eq_refl repo, text_eq_refl revision, text_eq_refl m) refl in
      subst (λ d. has_snapshot hashing repo revision d ≡ true) same fine

  ensure_pinned-has_snapshot :
      (force : Bool) (download : ModelDir → Result Die ModelDir) (repo revision : Text)
      (dir dir' : ModelDir)
      → ensure_pinned hashing force false download repo revision dir ≡ ok dir'
      → has_snapshot hashing repo revision dir' ≡ true
  unfolding ensure_pinned
  ensure_pinned-has_snapshot force download repo revision dir dir' h =
      elim (Bool-cases (has_snapshot hashing repo revision dir && not force)) [
        | inl present ↦
            let kept : ◌≡◌ {A = Result Die ModelDir} (ok dir) (ok dir') = rw present at h in
            let same : dir ≡ dir' = cc in
            subst (λ d. has_snapshot hashing repo revision d ≡ true) same (ground arith)
        | inr absent ↦
            let run = rw absent at h in
            let got = >>=-eq-ok (download dir) _ run in
            let configured =
              >>=-eq-ok (guard (has_key config_json got.0.files) no_config) _ got.2 in
            let checked = >>=-eq-ok (check_download hashing got.0.files) _ configured.2 in
            marked-has_snapshot repo revision got.0 dir' _ refl checked.2
      ]

  spec-has_snapshot :
      (force : Bool) (download : ModelDir → Result Die ModelDir) (spec : ModelSpec)
      (o : Option Text) (dir dir' : ModelDir)
      → (elim o as (λ r. Result Die ModelDir) [
        | none ↦ raise unpinned
        | some revision ↦
            if is_blank revision
            then raise unpinned
            else ensure_pinned hashing force false download spec.hf_repo revision dir
      ])
        ≡ ok dir'
      → (revision : Text) × (o ≡ some revision)
        × (has_snapshot hashing spec.hf_repo revision dir' ≡ true)
  spec-has_snapshot force download spec none dir dir' h = cc
  spec-has_snapshot force download spec (some revision) dir dir' h =
      elim (Bool-cases (is_blank revision)) [
        | inl empty ↦ let failed = rw empty at h in cc
        | inr filled ↦ (
          revision,
          refl,
          ensure_pinned-has_snapshot force download spec.hf_repo revision dir dir' (rw filled at h),
        )
      ]

  registered-has_snapshot :
      (force : Bool) (download : ModelDir → Result Die ModelDir) (o : Option ModelSpec)
      (dir dir' : ModelDir)
      → (elim o as (λ r. Result Die ModelDir) [
        | none ↦ raise unregistered
        | some spec ↦ elim spec.revision as (λ r. Result Die ModelDir) [
          | none ↦ raise unpinned
          | some revision ↦
              if is_blank revision
              then raise unpinned
              else ensure_pinned hashing force false download spec.hf_repo revision dir
        ]
      ])
        ≡ ok dir'
      → (spec : ModelSpec) × (revision : Text) × (o ≡ some spec)
        × (spec.revision ≡ some revision)
        × (has_snapshot hashing spec.hf_repo revision dir' ≡ true)
  registered-has_snapshot force download none dir dir' h = cc
  registered-has_snapshot force download (some spec) dir dir' h =
      let pinned = spec-has_snapshot force download spec spec.revision dir dir' h in
      (spec, pinned.0, refl, pinned.1, pinned.2)

  -- Whatever the download leaves, a model that the launcher returns, when it does not only print, has
  -- a snapshot that the runner accepts for the entry of models.yaml.
  pub ensure_model-has_snapshot :
      (force : Bool) (download : ModelDir → Result Die ModelDir) (registry : Dict ModelSpec)
      (name : Text) (dir dir' : ModelDir)
      → ensure_model hashing force false download registry name dir ≡ ok dir'
      → (spec : ModelSpec) × (revision : Text) × (lookup name registry ≡ some spec)
        × (spec.revision ≡ some revision)
        × (has_snapshot hashing spec.hf_repo revision dir' ≡ true)
  unfolding ensure_model
  ensure_model-has_snapshot force download registry name dir dir' h =
      registered-has_snapshot force download (lookup name registry) dir dir' h
