-- ===== src/Cpus/Virtual.antt =====
-- The virtual ranks of a process take the CPUs of the ranks that they stand for.
use mathlib.Core.List.{append-nil}
use v_llm_moet.Prelude.{
  ℕ, zero, suc, ◌+◌, ◌*◌, ◌<◌, ◌≡◌, refl, ap, ◌∙◌, Bool, true, false, none, some, List, map,
  if◌then◌else◌, arith, get_elem?, ok,
}
use v_llm_moet.Cpus.{
  count_from, CpuEnv, Layout, default_layout, six_threads, twelve_threads, cpu_layout, cpu_layout_v,
  ccd_pool, value_or, or_else, default_or_set, pick_or, listed_pools, layout_of,
}

-- The environment with 6 or 12 pool threads and no other variable set.
unfoldable pub plain_env : Bool → CpuEnv
plain_env twelve = record {
  cpus = none;
  pool_threads = some (if twelve then 12 else 6);
  dispatcher_cpu = none;
  main_cpu = none;
  other_cpus = none;
  vrank_cpus = none;
  vrank_dispatchers = none;
}

get_elem?-count_from {ℓ} :
    {A : Type ℓ} (f : ℕ → A) (lo n v : ℕ)
    → v < n
    → get_elem? (map f (count_from lo n)) v ≡ some (f (lo + v))
unfolding count_from
get_elem?-count_from f lo zero v h = absurd (omega arith)
get_elem?-count_from f lo (suc n) zero h =
    let e : lo ≡ lo + 0 = omega arith in ap (λ k. some (f k)) e
get_elem?-count_from f lo (suc n) (suc v) h =
    let e : lo + 1 + v ≡ lo + suc v = omega arith in
    get_elem?-count_from f (lo + 1) n v (omega arith) ∙ ap (λ k. some (f k)) e

-- The pool of a virtual rank is that of the rank that it stands for.
ccd_pool-eq :
    (twelve : Bool) (g : ℕ)
    → ccd_pool (if twelve then 12 else 6) g ≡ (default_layout g (if twelve then 12 else 6)).pool
unfolding ccd_pool default_layout six_threads twelve_threads
ccd_pool-eq true g = refl
ccd_pool-eq false g = append-nil _

dispatcher-eq :
    (twelve : Bool) (g : ℕ) → 8 * g + 1 ≡ (default_layout g (if twelve then 12 else 6)).dispatcher
unfolding default_layout six_threads twelve_threads
dispatcher-eq true g = refl
dispatcher-eq false g = refl

-- With 6 or 12 pool threads and nothing else in the environment, virtual rank `v` of rank `r` has
-- the pool and the dispatcher that rank `r * v_ranks + v` has without virtual ranks.
pub cpu_layout_v_as_ranks :
    (twelve : Bool) (r v_ranks v : ℕ)
    → v < v_ranks
    → (layout : Layout (List (List ℕ)) (List ℕ)) × (rank : Layout (List ℕ) ℕ) × (cpu_layout_v
          (plain_env twelve)
          r
          v_ranks
        ≡ ok layout)
      × (cpu_layout (plain_env twelve) (r * v_ranks + v) ≡ ok rank)
      × (get_elem? layout.pool v ≡ some rank.pool)
      × (get_elem? layout.dispatcher v ≡ some rank.dispatcher)
unfolding plain_env cpu_layout_v cpu_layout value_or or_else default_or_set pick_or listed_pools
    layout_of
cpu_layout_v_as_ranks true r v_ranks v h = (
  _,
  _,
  refl,
  refl,
  get_elem?-count_from (ccd_pool 12) (r * v_ranks) v_ranks v h
      ∙ ap (λ p. some p) (ccd_pool-eq true (r * v_ranks + v)),
  get_elem?-count_from (λ g. 8 * g + 1) (r * v_ranks) v_ranks v h
      ∙ ap (λ p. some p) (dispatcher-eq true (r * v_ranks + v)),
)
cpu_layout_v_as_ranks false r v_ranks v h = (
  _,
  _,
  refl,
  refl,
  get_elem?-count_from (ccd_pool 6) (r * v_ranks) v_ranks v h
      ∙ ap (λ p. some p) (ccd_pool-eq false (r * v_ranks + v)),
  get_elem?-count_from (λ g. 8 * g + 1) (r * v_ranks) v_ranks v h
      ∙ ap (λ p. some p) (dispatcher-eq false (r * v_ranks + v)),
)
