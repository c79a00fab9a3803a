-- ===== src/Recipes/Bench/Declared.antt =====
-- The environment that is recorded is the environment that the server gets.
use v_llm_moet.Prelude.{
  false, ◌++◌, ◌≡◌, refl, Option, none, some, List, [], ◌∷◌, if◌then◌else◌, arith, Text, text,
  text_eq, text_eq_iff, Dict, IsDict, lookup, insert, merge, without, lookup-insert, lookup-without,
  Bool-cases, inl, inr, is_blank, contains_text, insert-IsDict,
}
use v_llm_moet.Recipes.{Recipe}
use v_llm_moet.Recipes.Bench.{
  Box, resolve_str, path_prepend, ld_prepend, knobs, apply_knob, apply_knobs, prepend, build_env,
  declared_value, declare, declared_env, join_with,
}

lookup-apply_knob :
    (k j : Text) (o : Option Text) (env : Dict Text)
    → lookup j (apply_knob k o env) ≡ (if text_eq k j then o else lookup j env)
unfolding apply_knob
lookup-apply_knob k j none env = lookup-without k j env
lookup-apply_knob k j (some v) env = lookup-insert k j v env

-- A knob's value after the loop is what it resolves to; the other variables are as they were.
lookup-apply_knobs :
    (resolve : Text → Option Text) (d env : Dict Text) (j : Text)
    → IsDict d
    → lookup j (apply_knobs resolve d env)
      ≡ (elim (lookup j d) as (λ o. Option Text) [ none ↦ lookup j env | some v ↦ resolve v ])
unfolding apply_knobs lookup
lookup-apply_knobs resolve [] env j h = refl
lookup-apply_knobs resolve ((k, v) ∷ d) env j h = ground (
  arith,
  lookup-apply_knobs resolve d (apply_knob k (resolve v) env) j,
  lookup-apply_knob k j (resolve v) env,
  text_eq_iff k j,
)

lookup-prepend :
    (k j : Text) (o : Option Text) (env : Dict Text)
    → text_eq k j ≡ false
    → lookup j (prepend k o env) ≡ lookup j env
unfolding prepend
lookup-prepend k j none env h = refl
lookup-prepend k j (some p) env h = elim (Bool-cases (is_blank p)) [
  | inl blank ↦ rw blank refl
  | inr filled ↦ rw filled (
      rw (lookup-insert k j (p ++ text ":" ++ elim (lookup k env) [ none ↦ [] | some v ↦ v ]) env)
        (rw h refl))
]

lookup-declare :
    (value : Text → Option Text) (d : Dict Text) (j : Text)
    → text_eq path_prepend j ≡ false
    → text_eq ld_prepend j ≡ false
    → lookup j (declare value d)
      ≡ (elim (lookup j d) as (λ o. Option (Option Text)) [ none ↦ none | some v ↦ some (value v) ])
unfolding declare lookup
lookup-declare value [] j p l = refl
lookup-declare value ((k, v) ∷ d) j p l = ground (
  arith,
  lookup-declare value d j p l,
  text_eq_iff k j,
  text_eq_iff k path_prepend,
  text_eq_iff k ld_prepend,
  text_eq_iff path_prepend j,
  text_eq_iff ld_prepend j,
)

merge-IsDict : {V : Type 0} → (d e : Dict V) → IsDict d → IsDict (merge d e)
unfolding merge
merge-IsDict d [] h = h
merge-IsDict d ((k, v) ∷ e) h = merge-IsDict (insert k v d) e (insert-IsDict k v d h)

without-IsDict : {V : Type 0} → (k : Text) (d : Dict V) → IsDict d → IsDict (without k d)
unfolding without
without-IsDict k [] h = h
without-IsDict k ((j, v) ∷ d) h = elim (Bool-cases (text_eq j k)) [
  | inl same ↦ rw same (without-IsDict k d h.1)
  | inr other ↦ rw other (ground (arith, lookup-without k j d, h.0), without-IsDict k d h.1)
]

-- A variable that build_env sets on its own, or reads as something to prepend.
abbrev pub own_variables : List Text
own_variables =
    path_prepend
    ∷ ld_prepend
    ∷ text "PATH"
    ∷ text "LD_LIBRARY_PATH"
    ∷ text "CUDA_VISIBLE_DEVICES"
    ∷ []

-- The five variables are not `j`.
apart_from_own :
    (j : Text)
    → contains_text own_variables j ≡ false
    → (text_eq path_prepend j ≡ false)
      × (text_eq ld_prepend j ≡ false)
      × (text_eq (text "PATH") j ≡ false)
      × (text_eq (text "LD_LIBRARY_PATH") j ≡ false)
      × (text_eq (text "CUDA_VISIBLE_DEVICES") j ≡ false)
unfolding contains_text
apart_from_own j h = ground arith

-- Declaring and then dropping what has no value is one test of the knob.
dropped-declared :
    (value value' : Text → Option Text) (o : Option Text) (otherwise : Option Text)
    → ((v : Text) → value v ≡ value' v)
    → (elim o as (λ o. Option Text) [ none ↦ otherwise | some v ↦ value v ])
      ≡ (elim (elim o as (λ o. Option (Option Text)) [ none ↦ none | some v ↦ some (value' v) ])
          as (λ o. Option Text) [ none ↦ otherwise | some value ↦ value ])
dropped-declared value value' none otherwise h = refl
dropped-declared value value' (some v) otherwise h = h v

module _ (inherited : Dict Text) (r : Recipe) (b : Box) (gpus : List Text) (j : Text)
    (is_dict : IsDict b.env) (is_other : contains_text own_variables j ≡ false) where
  -- The server's value of a variable: the resolved value of the recipe's or the box's knob, or the
  -- inherited one.
  lookup-build_env :
      lookup j (build_env inherited r b gpus)
      ≡ (elim (lookup j (merge b.env r.env)) as (λ o. Option Text) [
        | none ↦ lookup j inherited
        | some v ↦ resolve_str r b v
      ])
  unfolding build_env knobs contains_text
  lookup-build_env =
      let (p, l, path, ld, cuda) = apart_from_own j is_other in
      rw (lookup-insert (text "CUDA_VISIBLE_DEVICES") j (join_with (text ",") gpus) _) (
        rw cuda (
          rw (lookup-prepend (text "LD_LIBRARY_PATH") j _ _ ld) (
            rw (lookup-prepend (text "PATH") j _ _ path) (
              rw
                (lookup-apply_knobs (resolve_str r b) (knobs r b) inherited j (
                  without-IsDict ld_prepend _
                    (without-IsDict path_prepend _ (merge-IsDict b.env r.env is_dict))))
                (rw (lookup-without ld_prepend j (without path_prepend (merge b.env r.env)))
                  (rw l (rw (lookup-without path_prepend j (merge b.env r.env)) (rw p refl))))))))

  -- A box without docker declares what its server gets: each declared knob has its declared value,
  -- no value if it is dropped, and a variable that is not declared is inherited.
  pub declared_env-build_env :
      b.is_docker ≡ false
      → lookup j (build_env inherited r b gpus)
        ≡ (elim (lookup j (declared_env r b)) as (λ o. Option Text) [
          | none ↦ lookup j inherited
          | some value ↦ value
        ])
  unfolding declared_env declared_value
  declared_env-build_env no_docker =
      let (p, l, _, _, _) = apart_from_own j is_other in
      rw lookup-build_env (
        rw (lookup-declare (declared_value r b) (merge b.env r.env) j p l) (
          dropped-declared (resolve_str r b) (declared_value r b) (lookup j (merge b.env r.env))
            (lookup j inherited) (λ v. rw no_docker refl)))
