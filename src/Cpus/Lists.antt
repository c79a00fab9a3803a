-- ===== src/Cpus/Lists.antt =====
-- The round trip of the lists of CPUs.
use mathlib.Core.List.{append_assoc}
use v_llm_moet.Prelude.{
  ℕ, zero, suc, ◌+◌, ◌-◌, ◌≤◌, ◌≡◌, refl, ap, ◌∙◌, inl, inr, List, [], ◌∷◌, ◌++◌, ltb, ◌==◌, arith,
  Result, ok, raise, Bool-cases, ltb→lt, ==_iff,
}
use v_llm_moet.Cpus.{
  count_from, range, part_cpus, parts_cpus, parse_cpu_list, Error, value_error, run_part,
  ranges_after, ranges,
}

abbrev ok_cpus : List ℕ → Result Error (List ℕ)
ok_cpus = ok

count_from-suc : (lo n : ℕ) → count_from lo (suc n) ≡ count_from lo n ++ (lo + n) ∷ []
unfolding count_from
count_from-suc lo zero = ap (λ k. k ∷ []) (omega arith)
count_from-suc lo (suc n) =
    ap (λ ks. lo ∷ ks)
      (count_from-suc (lo + 1) n ∙ ap (λ k. count_from (lo + 1) n ++ k ∷ []) (omega arith))

-- A run prints as one part, which reads back as the run.
run_cpus : (a n b : ℕ) → b ≡ a + n → part_cpus (run_part a b) ≡ count_from a (suc n)
unfolding part_cpus run_part range
run_cpus a n b e = elim (Bool-cases (ltb a b)) [
  | inl t ↦
      let lt = ltb→lt a b t in
      let d : b + 1 - a ≡ suc n = omega arith in rw t (ap (λ k. count_from a k) d)
  | inr f ↦
      let le : b ≤ a = ground arith in
      let d : a + 1 - a ≡ suc n = omega arith in rw f (ap (λ k. count_from a k) d)
]

-- Reading what is printed for the run a..b and the CPUs after it.
ranges_after_cpus :
    (a n b : ℕ) (cs : List ℕ)
    → b ≡ a + n
    → parts_cpus (ranges_after a b cs) ≡ count_from a (suc n) ++ cs
unfolding ranges_after parts_cpus
ranges_after_cpus a n b [] e = ap (λ ks. ks ++ []) (run_cpus a n b e)
ranges_after_cpus a n b (c ∷ cs) e = elim (Bool-cases (c == b + 1)) [
  | inl t ↦
      let next = (==_iff c (b + 1)).0 t in
      let last : a + suc n ≡ c = omega arith in
      rw (parts_cpus, ranges_after, t)
        (ranges_after_cpus a (suc n) c cs (omega arith)
          ∙ ap (λ ks. ks ++ cs) (count_from-suc a (suc n))
          ∙ append_assoc (count_from a (suc n)) ((a + suc n) ∷ []) cs
          ∙ ap (λ k. count_from a (suc n) ++ k ∷ cs) last)
  | inr f ↦
      rw (parts_cpus, ranges_after, f)
        (ap (λ ks. ks ++ parts_cpus (ranges_after c c cs)) (run_cpus a n b e)
          ∙ ap (λ ks. count_from a (suc n) ++ ks) (ranges_after_cpus c 0 c cs (omega arith)))
]

-- Some parts are parsed without an error.
parse_cpu_list-ranges_after :
    (a b : ℕ) (cs : List ℕ)
    → parse_cpu_list (ranges_after a b cs) ≡ ok_cpus (parts_cpus (ranges_after a b cs))
unfolding ranges_after parse_cpu_list
parse_cpu_list-ranges_after a b [] = refl
parse_cpu_list-ranges_after a b (c ∷ cs) = elim (Bool-cases (c == b + 1)) [
  | inl next ↦ rw (ranges_after, next) (parse_cpu_list-ranges_after a c cs)
  | inr apart ↦ rw (ranges_after, apart) refl
]

-- The printed list of CPUs reads back as the list if there is a CPU, and as an error if there is none.
pub parse_cpu_list-ranges :
    (cpus : List ℕ)
    → parse_cpu_list (ranges cpus) ≡ (elim cpus as (λ l. Result Error (List ℕ)) [
      | [] ↦ raise value_error
      | c ∷ cs ↦ ok (c ∷ cs)
    ])
unfolding ranges parse_cpu_list
parse_cpu_list-ranges [] = refl
parse_cpu_list-ranges (c ∷ cs) =
    parse_cpu_list-ranges_after c c cs ∙ ap ok (ranges_after_cpus c 0 c cs (omega arith))
