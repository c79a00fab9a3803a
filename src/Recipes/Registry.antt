-- ===== src/Recipes/Registry.antt =====
-- The registry of models: `lint_model_registry` of bench/runner/lint.py, and what it means to the
-- launcher.
use mathlib.Core.List.{Memᴰ}
use mathlib.Core.List.Memᴰ
use mathlib.Core.Path.{subst}
use v_llm_moet.Prelude.{
  ◌+◌, Bool, true, false, not, ◌&&◌, ◌≡◌, refl, ap, ◌∙◌, Option, none, some, List, [], ◌∷◌, ◌++◌,
  append-[], leb, if◌then◌else◌, Result, arith, Text, text_eq, text_eq_iff, Dict, lookup, has_key,
  is_blank, contains_text, contains_text-append, Bool-cases, Option-cases, inl, inr,
}
use v_llm_moet.PatchFiles.{is_sha, sorted_set}
use v_llm_moet.PatchFiles.Sets.{contains-sorted_set}
use v_llm_moet.Recipes.{Recipe}
use v_llm_moet.Recipes.Snapshot.{Die, ModelSpec, ModelDir, Hashing, ensure_pinned, ensure_model}

-- An entry of models.yaml as it is read.
pub record Entry : Type 0 where
  pub hf_repo : Option Text
  pub revision : Option Text

pub data RegistryError : Type 0 where
  missing_repo not_a_commit not_registered : Text → RegistryError

-- `str.lower`, for ASCII.
unfoldable pub lower : Text → Text
lower [] = []
lower (c ∷ s) = (if leb b'A' c && leb c b'Z' then c + 32 else c) ∷ lower s

abbrev pub is_filled : Option Text → Bool
is_filled = elim [ none ↦ false | some t ↦ not (is_blank t) ]

-- A full commit.
unfoldable pub is_commit : Option Text → Bool
unfolding lower is_sha
is_commit none = false
is_commit (some revision) = is_sha (lower revision)

-- The errors of one entry.
unfoldable pub entry_errors : Text → Entry → List RegistryError
unfolding is_commit is_blank
entry_errors name e =
    (if is_filled e.hf_repo then [] else missing_repo name ∷ [])
    ++ (if is_commit e.revision then [] else not_a_commit name ∷ [])

unfoldable pub entries_errors : Dict Entry → List RegistryError
unfolding entry_errors
entries_errors [] = []
entries_errors ((name, e) ∷ d) = entry_errors name e ++ entries_errors d

-- The models that the recipes need.
unfoldable pub referenced : List Recipe → List Text
referenced [] = []
referenced (r ∷ rs) = (r.model ∷ r.extra_models) ++ referenced rs

unfoldable pub unregistered_errors : Dict Entry → List Text → List RegistryError
unfolding lookup
unregistered_errors d [] = []
unregistered_errors d (name ∷ names) =
    let rest = unregistered_errors d names in
    if has_key name d then rest else not_registered name ∷ rest

-- The errors of `lint_model_registry`; the models that no recipe uses are only warnings.
unfoldable pub lint_model_registry : Dict Entry → List Recipe → List RegistryError
unfolding entries_errors referenced unregistered_errors sorted_set
lint_model_registry d recipes =
    entries_errors d ++ unregistered_errors d (sorted_set (referenced recipes))

referenced-needed :
    (rs : List Recipe) (r : Recipe) (m : Text)
    → Memᴰ r rs
    → contains_text (r.model ∷ r.extra_models) m ≡ true
    → contains_text (referenced rs) m ≡ true
unfolding referenced
referenced-needed [] r m place h = elim (Memᴰ.not-nil place) [ ]
referenced-needed (q ∷ rs) r m place h =
    rw (contains_text-append (q.model ∷ q.extra_models) (referenced rs) m)
      (elim (Memᴰ.cases_cons place) [
        | inl same ↦
            let here = subst (λ x. contains_text (x.model ∷ x.extra_models) m ≡ true) same h in
            rw here refl
        | inr later ↦ ground (arith, referenced-needed rs r m later h)
      ])

unregistered_errors-has_key :
    (d : Dict Entry) (names : List Text) (m : Text)
    → unregistered_errors d names ≡ []
    → contains_text names m ≡ true
    → has_key m d ≡ true
unfolding unregistered_errors contains_text
unregistered_errors-has_key d [] m h there = cc
unregistered_errors-has_key d (n ∷ names) m h there = elim (Bool-cases (has_key n d)) [
  | inl known ↦ elim (Bool-cases (text_eq n m)) [
    | inl same ↦ subst (λ t. has_key t d ≡ true) ((text_eq_iff n m).0 same) known
    | inr differs ↦
        unregistered_errors-has_key d names m (rw (unregistered_errors, known) at h)
          (ground (arith, there, differs))
  ]
  | inr unknown ↦ let named = rw (unregistered_errors, unknown) at h in cc
]

lookup-entry :
    (d : Dict Entry) (m : Text) (e : Entry)
    → entries_errors d ≡ []
    → lookup m d ≡ some e
    → (is_filled e.hf_repo ≡ true) × (is_commit e.revision ≡ true)
unfolding entries_errors entry_errors lookup
lookup-entry [] m e h found = cc
lookup-entry ((k, f) ∷ d) m e h found =
    let (here, rest) = append-[] (entry_errors k f) (entries_errors d) h in
    elim (Bool-cases (text_eq k m)) [
      | inl same ↦
          let made = rw (lookup, same) at found in
          let equal : f ≡ e = cc in
          subst (λ x. (is_filled x.hf_repo ≡ true) × (is_commit x.revision ≡ true)) equal
            (ground (arith, here), ground (arith, here))
      | inr differs ↦ lookup-entry d m e rest (rw (lookup, differs) at found)
    ]

-- models.yaml as the launcher reads it.
abbrev pub spec_of : Entry → ModelSpec
spec_of e = record {
  hf_repo = elim e.hf_repo [ none ↦ [] | some repo ↦ repo ];
  revision = e.revision;
}

abbrev pub registry_of : Dict Entry → Dict ModelSpec
registry_of [] = []
registry_of ((name, e) ∷ d) = (name, spec_of e) ∷ registry_of d

lookup-registry_of :
    (d : Dict Entry) (m : Text) (e : Entry)
    → lookup m d ≡ some e
    → lookup m (registry_of d) ≡ some (spec_of e)
unfolding lookup
lookup-registry_of [] m e h = cc
lookup-registry_of ((k, f) ∷ d) m e h = elim (Bool-cases (text_eq k m)) [
  | inl same ↦
      let made = rw (lookup, same) at h in
      let equal : f ≡ e = cc in rw same (ap (λ x. some (spec_of x)) equal)
  | inr differs ↦ rw differs (lookup-registry_of d m e (rw (lookup, differs) at h))
]

filled_repo :
    (repo : Option Text)
    → is_filled repo ≡ true
    → is_blank (elim repo [ none ↦ [] | some name ↦ name ]) ≡ false
filled_repo none h = cc
filled_repo (some name) h = ground (arith, h)

pinned_commit :
    (revision : Option Text)
    → is_commit revision ≡ true
    → (commit : Text) × (is_commit (some commit) ≡ true) × (revision ≡ some commit)
unfolding is_commit
pinned_commit none h = cc
pinned_commit (some commit) h = (commit, h, refl)

commit_filled : (commit : Text) → is_commit (some commit) ≡ true → is_blank commit ≡ false
unfolding is_commit is_sha lower is_blank
commit_filled [] h = cc
commit_filled (c ∷ commit) h = refl

ensure_model-pinned :
    (hashing : Hashing) (force do_print : Bool) (download : ModelDir → Result Die ModelDir)
    (registry : Dict ModelSpec) (m : Text) (dir : ModelDir) (spec : ModelSpec) (revision : Text)
    → lookup m registry ≡ some spec
    → spec.revision ≡ some revision
    → is_blank revision ≡ false
    → ensure_model hashing force do_print download registry m dir
      ≡ ensure_pinned hashing force do_print download spec.hf_repo revision dir
unfolding ensure_model
ensure_model-pinned hashing force do_print download registry m dir spec revision known pinned
      filled =
    rw (ensure_model, known, pinned, filled) refl

-- If lint has no errors for the registry, the launcher finds each model that a recipe needs registered
-- and pinned to a full commit: it goes on to the snapshot of that revision.
pub lint_model_registry-ensure_model :
    (hashing : Hashing) (force do_print : Bool) (download : ModelDir → Result Die ModelDir)
    (d : Dict Entry) (recipes : List Recipe) (r : Recipe) (m : Text) (dir : ModelDir)
    → lint_model_registry d recipes ≡ []
    → Memᴰ r recipes
    → contains_text (r.model ∷ r.extra_models) m ≡ true
    → (repo revision : Text) × (is_commit (some revision) ≡ true)
      × (is_blank repo ≡ false)
      × (ensure_model hashing force do_print download (registry_of d) m dir
          ≡ ensure_pinned hashing force do_print download repo revision dir)
unfolding lint_model_registry
lint_model_registry-ensure_model hashing force do_print download d recipes r m dir h place needed =
    let (entries, registered) = append-[] (entries_errors d) _ h in
    let there = referenced-needed recipes r m place needed in
    let listed = contains-sorted_set (referenced recipes) m ∙ there in
    let known =
      unregistered_errors-has_key d (sorted_set (referenced recipes)) m registered listed in
    elim (Option-cases (lookup m d)) [
      | inl gone ↦ let none_there : false ≡ true = ground (arith, known, gone) in cc
      | inr (e, found) ↦
          let (filled, commit) = lookup-entry d m e entries found in
          let (revision, is_full, pinned) = pinned_commit e.revision commit in
          (
            (spec_of e).hf_repo,
            revision,
            is_full,
            filled_repo e.hf_repo filled,
            ensure_model-pinned hashing force do_print download (registry_of d) m dir (spec_of e)
                revision (lookup-registry_of d m e found) pinned (commit_filled revision is_full),
          )
    ]
