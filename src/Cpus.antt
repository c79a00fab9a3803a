-- ===== src/Cpus.antt =====
-- The CPUs of the CPU tier (tools/dsv41_5090/cpu_tier/vllm_moet_cpu_tier.py): the lists of CPUs in
-- the environment and the log, and the layouts of a rank and of its virtual ranks.
pub mod Lists
pub mod Layouts
pub mod Virtual
pub mod Overrides
mod Tests
use v_llm_moet.Prelude.{
  ℕ, zero, suc, ◌+◌, ◌-◌, ◌*◌, ◌%◌, Bool, true, false, ◌&&◌, ◌||◌, Option, none, some, List, [],
  ◌∷◌, ◌++◌, map, ltb, leb, ◌==◌, if◌then◌else◌, length, take, drop, Result, ok, raise, ◌>>=◌, ◌>>◌,
  guard,
}

-- `range(lo, lo + n)`
unfoldable pub count_from : ℕ → ℕ → List ℕ
count_from lo zero = []
count_from lo (suc n) = lo ∷ count_from (lo + 1) n

-- Python's `range(lo, hi)`
unfoldable pub range : ℕ → ℕ → List ℕ
unfolding count_from
range lo hi = count_from lo (hi - lo)

pub data Error : Type 0 where
  index_error runtime_error value_error : Error

-- A part of a list of CPUs, "a-b" or "a".
pub record Part : Type 0 where
  pub from : ℕ
  pub upto : Option ℕ

unfoldable pub part_cpus : Part → List ℕ
unfolding range
part_cpus p = elim p.upto [ none ↦ range p.from (p.from + 1) | some b ↦ range p.from (b + 1) ]

-- The loop of `_parse_cpu_list`
unfoldable pub parts_cpus : List Part → List ℕ
unfolding part_cpus
parts_cpus [] = []
parts_cpus (p ∷ ps) = part_cpus p ++ parts_cpus ps

-- `_parse_cpu_list`, on the parts between the commas. The empty text, which has no parts here, is split
-- into one empty part, and `int("")` raises.
unfoldable pub parse_cpu_list : List Part → Result Error (List ℕ)
unfolding parts_cpus
parse_cpu_list [] = raise value_error
parse_cpu_list (p ∷ ps) = ok (parts_cpus (p ∷ ps))

unfoldable pub run_part : ℕ → ℕ → Part
run_part a b = record { from = a; upto = if ltb a b then some b else none }

-- `_ranges` from the run a..b on.
unfoldable pub ranges_after : ℕ → ℕ → List ℕ → List Part
unfolding run_part
ranges_after a b [] = run_part a b ∷ []
ranges_after a b (c ∷ cs) = elim (c == b + 1) [
  | true ↦ ranges_after a c cs
  | false ↦ run_part a b ∷ ranges_after c c cs
]

-- `_ranges`; the empty text has no parts.
unfoldable pub ranges : List ℕ → List Part
unfolding ranges_after
ranges [] = []
ranges (c ∷ cs) = ranges_after c c cs

-- The variables VLLM_MOET_CPU_TIER_CPUS, .._POOL_THREADS, .._DISPATCHER_CPU, .._MAIN_CPU and
-- .._OTHER_CPUS, and those of the virtual ranks; `none` is an unset or empty one.
pub record CpuEnv : Type 0 where
  pub cpus : Option (List Part)
  pub pool_threads : Option ℕ
  pub dispatcher_cpu : Option ℕ
  pub main_cpu : Option ℕ
  pub other_cpus : Option (List ℕ)
  pub vrank_cpus : Option (List (List Part))
  pub vrank_dispatchers : Option (List ℕ)

pub record Layout (Pool Dispatcher : Type 0) : Type 0 where
  pub pool : Pool
  pub dispatcher : Dispatcher
  pub main : Option ℕ
  pub other : Option (List ℕ)

unfoldable pub value_or {ℓ} : {A : Type ℓ} → A → Option A → A
value_or fallback none = fallback
value_or fallback (some v) = v

unfoldable pub or_else {ℓ} : {A : Type ℓ} → Option A → Option A → Option A
or_else none fallback = fallback
or_else (some v) fallback = some v

-- A rank's default CPUs with 14, 12, 8, 7 and 6 pool threads.
unfoldable pub fourteen_threads : ℕ → Layout (List ℕ) ℕ
unfolding range
fourteen_threads r = record {
  pool = range (8 * r + 1) (8 * r + 8) ++ range (8 * r + 33) (8 * r + 40);
  dispatcher = 8 * r + 32;
  main = some (8 * r);
  other = some ((8 * r + 32) ∷ []);
}

unfoldable pub twelve_threads : ℕ → Layout (List ℕ) ℕ
unfolding range
twelve_threads r = record {
  pool = range (8 * r + 2) (8 * r + 8) ++ range (8 * r + 34) (8 * r + 40);
  dispatcher = 8 * r + 1;
  main = some (8 * r);
  other = some ((8 * r + 32) ∷ (8 * r + 33) ∷ []);
}

unfoldable pub eight_threads : ℕ → Layout (List ℕ) ℕ
unfolding range
eight_threads r = record {
  pool = range (8 * r) (8 * r + 8);
  dispatcher = 8 * r + 33;
  main = some (8 * r + 32);
  other = some ((8 * r + 34) ∷ (8 * r + 35) ∷ []);
}

unfoldable pub seven_threads : ℕ → Layout (List ℕ) ℕ
unfolding range
seven_threads r = record {
  pool = range (8 * r + 1) (8 * r + 8);
  dispatcher = 8 * r + 32;
  main = some (8 * r);
  other = some ((8 * r + 33) ∷ []);
}

unfoldable pub six_threads : ℕ → Layout (List ℕ) ℕ
unfolding range
six_threads r = record {
  pool = range (8 * r + 2) (8 * r + 8);
  dispatcher = 8 * r + 1;
  main = some (8 * r);
  other = some ((8 * r + 32) ∷ (8 * r + 33) ∷ []);
}

unfoldable pub default_layout : ℕ → ℕ → Layout (List ℕ) ℕ
unfolding fourteen_threads twelve_threads eight_threads seven_threads six_threads
default_layout r nthreads =
    if leb 14 nthreads
    then fourteen_threads r
    else if leb 12 nthreads
    then twelve_threads r
    else if leb 8 nthreads
    then eight_threads r
    else if nthreads == 7
    then seven_threads r
    else six_threads r

-- The dispatcher beside a pool that the environment lists: `pool[0] + 32` raises on an empty pool,
-- whether the variable is set or not.
unfoldable pub listed_layout : CpuEnv → List ℕ → Result Error (Layout (List ℕ) ℕ)
unfolding value_or
listed_layout env [] = raise index_error
listed_layout env (c ∷ cs) = ok record {
  pool = c ∷ cs;
  dispatcher = value_or (c + 32) env.dispatcher_cpu;
  main = env.main_cpu;
  other = env.other_cpus;
}

unfoldable pub default_or_set : CpuEnv → Layout (List ℕ) ℕ → Layout (List ℕ) ℕ
unfolding value_or or_else
default_or_set env d = record {
  pool = d.pool;
  dispatcher = value_or d.dispatcher env.dispatcher_cpu;
  main = or_else env.main_cpu d.main;
  other = or_else env.other_cpus d.other;
}

-- `_cpu_layout` of rank `r`; an empty list of CPUs is as none.
unfoldable pub cpu_layout : CpuEnv → ℕ → Result Error (Layout (List ℕ) ℕ)
unfolding listed_layout default_layout parts_cpus value_or default_or_set
cpu_layout env r =
    let d = default_or_set env (default_layout r (value_or 6 env.pool_threads)) in
    elim env.cpus [
      | none ↦ ok d
      | some [] ↦ ok d
      | some (p ∷ ps) ↦ listed_layout env (parts_cpus (p ∷ ps))
    ]

-- The pool of the CCD `g` with 6 or 12 threads.
unfoldable pub ccd_pool : ℕ → ℕ → List ℕ
unfolding range
ccd_pool nthreads g =
    range (8 * g + 2) (8 * g + 8)
    ++ (if nthreads == 12 then range (8 * g + 34) (8 * g + 40) else [])

-- An override lists this process's entries, or those of every rank, of which rank r takes r*V on.
unfoldable pub pick {ℓ} : {A : Type ℓ} → ℕ → ℕ → List A → Result Error (List A)
pick v_ranks g0 parts =
    if length parts == v_ranks
    then ok parts
    else if ltb v_ranks (length parts)
        && (length parts % v_ranks == 0)
        && leb (g0 + v_ranks) (length parts)
    then ok (take v_ranks (drop g0 parts))
    else raise runtime_error

unfoldable pub pick_or {ℓ} : {A : Type ℓ} → ℕ → ℕ → List A → Option (List A) → Result Error (List A)
unfolding pick
pick_or v_ranks g0 defaults none = ok defaults
pick_or v_ranks g0 defaults (some parts) = pick v_ranks g0 parts

unfoldable pub parse_all : List (List Part) → Result Error (List (List ℕ))
unfolding parse_cpu_list
parse_all [] = ok []
parse_all (spec ∷ specs) = do cpus ← parse_cpu_list spec; rest ← parse_all specs; ok (cpus ∷ rest)

-- The pools of the environment, each split at its commas; an empty variable is as none.
unfoldable pub listed_pools : Option (List (List Part)) → Result Error (Option (List (List ℕ)))
unfolding parse_all
listed_pools none = ok none
listed_pools (some specs) = do pools ← parse_all specs; ok (some pools)

-- A default of the process's threads, which a list of pools in the environment takes away.
unfoldable pub unless_listed {ℓ} : {A : Type ℓ} → Option (List (List Part)) → A → Option A
unless_listed none cpus = some cpus
unless_listed (some specs) cpus = none

unfoldable pub layout_of : CpuEnv → ℕ → List (List ℕ) → List ℕ → Layout (List (List ℕ)) (List ℕ)
unfolding or_else unless_listed
layout_of env g0 pools dispatchers = record {
  pool = pools;
  dispatcher = dispatchers;
  main = or_else env.main_cpu (unless_listed env.vrank_cpus (8 * g0));
  other =
      or_else env.other_cpus (unless_listed env.vrank_cpus ((8 * g0 + 32) ∷ (8 * g0 + 33) ∷ []));
}

-- `_cpu_layout_v` of rank `r` with `v_ranks` virtual ranks
unfoldable pub cpu_layout_v : CpuEnv → ℕ → ℕ → Result Error (Layout (List (List ℕ)) (List ℕ))
unfolding ccd_pool pick_or listed_pools layout_of value_or count_from
cpu_layout_v env r v_ranks = do
  let nthreads = value_or 6 env.pool_threads
  let g0 = r * v_ranks
  let ccds = count_from g0 v_ranks
  guard (nthreads == 6 || nthreads == 12) runtime_error
  listed ← listed_pools env.vrank_cpus
  pools ← pick_or v_ranks g0 (map (ccd_pool nthreads) ccds) listed
  dispatchers ← pick_or v_ranks g0 (map (λ g. 8 * g + 1) ccds) env.vrank_dispatchers
  ok (layout_of env g0 pools dispatchers)
