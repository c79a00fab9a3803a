-- ===== src/Release/Lanes/Certified.antt =====
-- A release that passes the gate has results for what it must certify.
use mathlib.Core.Path.{subst}
use mathlib.Core.List.{Memᴰ}
use mathlib.Core.List.Memᴰ
use v_llm_moet.Prelude.{
  Bool, true, false, ◌≡◌, refl, Option, none, some, List, [], ◌∷◌, Result, ok, raise, arith, Text,
  Bool-cases, inl, inr, >>=-eq-ok,
}
use v_llm_moet.Release.{Documents, Error}
use v_llm_moet.Release.Bindings.{Inputs}
use v_llm_moet.Release.Gate.{GateResult, strict_gate_errors, expected_inputs, is_passed}
use v_llm_moet.Release.Gate.Passed.{BoundTo, strict_gate_errors-bound}
use v_llm_moet.Release.Lanes.{
  Entry, Bench, or_default, expected_of, is_empty, is_valid, any_valid, ungated, is_gated,
  release_gate_entries, gate_release,
}

mem-release_gate_entries :
    (entries : List Entry) (gate_suite : Text) (e : Entry)
    → Memᴰ e entries
    → is_gated gate_suite e ≡ true
    → Memᴰ e (release_gate_entries entries gate_suite)
unfolding release_gate_entries
mem-release_gate_entries [] gate_suite e place gated = elim (Memᴰ.not-nil place) [ ]
mem-release_gate_entries (f ∷ es) gate_suite e place gated = elim (Memᴰ.cases_cons place) [
  | inl same ↦
      let chosen : is_gated gate_suite f ≡ true =
        subst (λ x. is_gated gate_suite x ≡ true) same gated in
      rw chosen (Memᴰ.head same)
  | inr later ↦
      let rest = mem-release_gate_entries es gate_suite e later gated in
      elim (Bool-cases (is_gated gate_suite f)) [
        | inl chosen ↦ rw chosen (Memᴰ.tail rest)
        | inr skipped ↦ rw skipped rest
      ]
]

module _ (docs : Documents) where
  open docs use {Doc}

  is_empty-[] : {A : Type 0} (as' : List A) → is_empty docs as' ≡ true → as' ≡ []
  is_empty-[] [] h = refl
  is_empty-[] (a ∷ as') h = cc

  module _ (bench : Bench docs) (release : Text) where
    -- A result that certifies a recipe for the release on a box: it has passed, and is bound to the
    -- recipe and to its effective suite as they load now.
    abbrev pub Certifies : Text → Text → Text × GateResult docs → Type 0
    Certifies suite recipe (box_id, r) =
        (loaded : Doc × List Text) × (probes : Doc) × (bench.load_recipe recipe ≡ ok loaded)
        × (bench.effective_suite suite recipe ≡ ok probes)
        × (is_passed docs r.status ≡ true)
        × BoundTo docs loaded.0 probes release box_id r.inputs

    expected-Certifies :
        (suite recipe box_id : Text) (r : GateResult docs) (o : Result Error (Inputs docs))
        → expected_of docs bench release suite recipe box_id ≡ o
        → (elim o as (λ o. Bool) [
          | raise e ↦ false
          | ok i ↦
              let runtime = bench.runtime_manifest release box_id in
              is_empty docs
                (strict_gate_errors docs r suite (expected_inputs docs i runtime) runtime)
        ])
          ≡ true
        → Certifies suite recipe (box_id, r)
    unfolding expected_of
    expected-Certifies suite recipe box_id r (raise e) loads h = cc
    expected-Certifies suite recipe box_id r (ok i) loads h =
        let (loaded, from_recipe, rest) = >>=-eq-ok (bench.load_recipe recipe) _ loads in
        let (probes, from_suite, rest) = >>=-eq-ok (bench.effective_suite suite recipe) _ rest in
        let (box, from_box, bound) = >>=-eq-ok (bench.box_of box_id) _ rest in
        let (is_ok, bound_to) =
          strict_gate_errors-bound docs loaded.0 loaded.1 probes bench.registry release box_id box i
            r suite (bench.runtime_manifest release box_id) bound (is_empty-[] _ h) in
        (loaded, probes, from_recipe, from_suite, is_ok, bound_to)

    is_valid-Certifies :
        (suite recipe : Text) (r : Text × GateResult docs)
        → is_valid docs bench release suite recipe r ≡ true
        → Certifies suite recipe r
    unfolding is_valid
    is_valid-Certifies suite recipe (box_id, r) h =
        expected-Certifies suite recipe box_id r
          (expected_of docs bench release suite recipe box_id) refl h

    any_valid-Certifies :
        (suite recipe : Text) (rs : List (Text × GateResult docs))
        → any_valid docs bench release suite recipe rs ≡ true
        → (r : Text × GateResult docs) × Memᴰ r rs × Certifies suite recipe r
    unfolding any_valid
    any_valid-Certifies suite recipe [] h = cc
    any_valid-Certifies suite recipe (r ∷ rs) h =
        elim (Bool-cases (is_valid docs bench release suite recipe r)) [
          | inl valid ↦ (r, Memᴰ.head refl, is_valid-Certifies suite recipe r valid)
          | inr invalid ↦
              let (found, place, certified) =
                any_valid-Certifies suite recipe rs (ground (arith, h, invalid)) in
              (found, Memᴰ.tail place, certified)
        ]

    ungated-Certifies :
        (gate_suite : Text) (results : Text → List (Text × GateResult docs)) (es : List Entry)
        (e : Entry)
        → ungated docs bench release gate_suite results es ≡ []
        → Memᴰ e es
        → (r : Text × GateResult docs) × Memᴰ r (results e.recipe)
          × Certifies (or_default gate_suite e.suite) e.recipe r
    unfolding ungated
    ungated-Certifies gate_suite results [] e h place = elim (Memᴰ.not-nil place) [ ]
    ungated-Certifies gate_suite results (f ∷ es) e h place =
        let suite = or_default gate_suite f.suite in
        elim (Bool-cases (any_valid docs bench release suite f.recipe (results f.recipe))) [
          | inl valid ↦ elim (Memᴰ.cases_cons place) [
            | inl same ↦ rw same (any_valid-Certifies suite f.recipe (results f.recipe) valid)
            | inr later ↦ ungated-Certifies gate_suite results es e (ground (arith, h, valid)) later
          ]
          | inr invalid ↦
              let named : ◌≡◌ {A = List Text}
                  (f.recipe ∷ ungated docs bench release gate_suite results es) [] =
                ground (arith, h, invalid) in
              cc
        ]

    -- A fresh release that passes lint's gate has, for each entry of its lane, a result of the entry's
    -- recipe that has passed, records the hashes of the recipe and of its effective suite as they load
    -- now, has snapshots equal to these, and is bound to the release and to the box that it stands
    -- under.
    pub gate_release-Certifies :
        (entries : List Entry) (gate_suite : Text) (results : Text → List (Text × GateResult docs))
        (e : Entry)
        → gate_release docs bench entries release gate_suite results ≡ some []
        → Memᴰ e entries
        → is_gated gate_suite e ≡ true
        → (r : Text × GateResult docs) × Memᴰ r (results e.recipe)
          × Certifies (or_default gate_suite e.suite) e.recipe r
    unfolding gate_release
    gate_release-Certifies entries gate_suite results e h place gated =
        let chosen = release_gate_entries entries gate_suite in
        elim (Bool-cases (is_empty docs chosen)) [
          | inl empty ↦
              let no_gate : ◌≡◌ {A = Option (List Text)} none (some []) =
                ground (arith, h, empty) in
              cc
          | inr filled ↦
              let all : ungated docs bench release gate_suite results chosen ≡ [] =
                ground (arith, h, filled) in
              ungated-Certifies gate_suite results chosen e all
                (mem-release_gate_entries entries gate_suite e place gated)
        ]
