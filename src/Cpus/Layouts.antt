-- ===== src/Cpus/Layouts.antt =====
-- The layouts of the ranks and of the virtual ranks on the CCDs of eight cores, with the siblings
-- of the cores 32 CPUs on.
use v_llm_moet.Prelude.{
  ℕ, zero, suc, ◌+◌, ◌-◌, ◌*◌, ◌≤◌, ◌<◌, ◌⊎◌, inl, inr, Bool, true, false, Option, none, some, List,
  leb, ◌==◌, if◌then◌else◌, arith, All, All-append,
}
use v_llm_moet.Cpus.{
  count_from, range, Layout, default_layout, fourteen_threads, twelve_threads, eight_threads,
  seven_threads, six_threads,
}

-- A CPU of the CCD `g`: one of its eight cores or one of their siblings.
abbrev pub IsOnCcd : ℕ → ℕ → Type 0
IsOnCcd g c = ((8 * g ≤ c) × (c < 8 * g + 8)) ⊎ ((8 * g + 32 ≤ c) × (c < 8 * g + 40))

abbrev pub IsOnCcdIf : ℕ → Option ℕ → Type 0
IsOnCcdIf g = elim [ none ↦ Unit | some c ↦ IsOnCcd g c ]

abbrev pub AreOnCcdIf : ℕ → Option (List ℕ) → Type 0
AreOnCcdIf g = elim [ none ↦ Unit | some cs ↦ All (IsOnCcd g) cs ]

-- Every CPU of the layout is one of the CCD `g`.
pub record IsOwn (g : ℕ) (l : Layout (List ℕ) ℕ) : Type 0 where
  pub pool_own : All (IsOnCcd g) l.pool
  pub dispatcher_own : IsOnCcd g l.dispatcher
  pub main_own : IsOnCcdIf g l.main
  pub other_own : AreOnCcdIf g l.other

count_from-All :
    (P : ℕ → Type 0) (lo n : ℕ) → ((k : ℕ) → lo ≤ k → k < lo + n → P k) → All P (count_from lo n)
unfolding count_from
count_from-All P lo zero h = tt
count_from-All P lo (suc n) h = (
  h lo (omega arith) (omega arith),
  count_from-All P (lo + 1) n (λ k a b. h k (omega arith) (omega arith)),
)

range-All :
    (P : ℕ → Type 0) (lo hi : ℕ) → lo ≤ hi → ((k : ℕ) → lo ≤ k → k < hi → P k) → All P (range lo hi)
unfolding range
range-All P lo hi le h = count_from-All P lo (hi - lo) (λ k a b. h k a (omega arith))

cores_own : (g lo hi : ℕ) → 8 * g ≤ lo → lo ≤ hi → hi ≤ 8 * g + 8 → All (IsOnCcd g) (range lo hi)
cores_own g lo hi a b c = range-All _ lo hi b (λ k l m. inl (omega arith, omega arith))

siblings_own :
    (g lo hi : ℕ) → 8 * g + 32 ≤ lo → lo ≤ hi → hi ≤ 8 * g + 40 → All (IsOnCcd g) (range lo hi)
siblings_own g lo hi a b c = range-All _ lo hi b (λ k l m. inr (omega arith, omega arith))

core_own : (g c : ℕ) → 8 * g ≤ c → c < 8 * g + 8 → IsOnCcd g c
core_own g c a b = inl (a, b)

sibling_own : (g c : ℕ) → 8 * g + 32 ≤ c → c < 8 * g + 40 → IsOnCcd g c
sibling_own g c a b = inr (a, b)

if-IsOwn :
    (g : ℕ) (test : Bool) (l m : Layout (List ℕ) ℕ)
    → IsOwn g l
    → IsOwn g m
    → IsOwn g (if test then l else m)
if-IsOwn g true l m hl hm = hl
if-IsOwn g false l m hl hm = hm

fourteen_threads-IsOwn : (r : ℕ) → IsOwn r (fourteen_threads r)
unfolding fourteen_threads
fourteen_threads-IsOwn r = record {
  pool_own =
      All-append _ (range (8 * r + 1) (8 * r + 8)) (range (8 * r + 33) (8 * r + 40))
        (siblings_own r (8 * r + 33) (8 * r + 40) (omega arith) (omega arith) (omega arith))
        (cores_own r (8 * r + 1) (8 * r + 8) (omega arith) (omega arith) (omega arith));
  dispatcher_own = sibling_own r (8 * r + 32) (omega arith) (omega arith);
  main_own = core_own r (8 * r) (omega arith) (omega arith);
  other_own = (sibling_own r (8 * r + 32) (omega arith) (omega arith), tt);
}

twelve_threads-IsOwn : (r : ℕ) → IsOwn r (twelve_threads r)
unfolding twelve_threads
twelve_threads-IsOwn r = record {
  pool_own =
      All-append _ (range (8 * r + 2) (8 * r + 8)) (range (8 * r + 34) (8 * r + 40))
        (siblings_own r (8 * r + 34) (8 * r + 40) (omega arith) (omega arith) (omega arith))
        (cores_own r (8 * r + 2) (8 * r + 8) (omega arith) (omega arith) (omega arith));
  dispatcher_own = core_own r (8 * r + 1) (omega arith) (omega arith);
  main_own = core_own r (8 * r) (omega arith) (omega arith);
  other_own = (
    sibling_own r (8 * r + 32) (omega arith) (omega arith),
    (sibling_own r (8 * r + 33) (omega arith) (omega arith), tt),
  );
}

eight_threads-IsOwn : (r : ℕ) → IsOwn r (eight_threads r)
unfolding eight_threads
eight_threads-IsOwn r = record {
  pool_own = cores_own r (8 * r) (8 * r + 8) (omega arith) (omega arith) (omega arith);
  dispatcher_own = sibling_own r (8 * r + 33) (omega arith) (omega arith);
  main_own = sibling_own r (8 * r + 32) (omega arith) (omega arith);
  other_own = (
    sibling_own r (8 * r + 34) (omega arith) (omega arith),
    (sibling_own r (8 * r + 35) (omega arith) (omega arith), tt),
  );
}

seven_threads-IsOwn : (r : ℕ) → IsOwn r (seven_threads r)
unfolding seven_threads
seven_threads-IsOwn r = record {
  pool_own = cores_own r (8 * r + 1) (8 * r + 8) (omega arith) (omega arith) (omega arith);
  dispatcher_own = sibling_own r (8 * r + 32) (omega arith) (omega arith);
  main_own = core_own r (8 * r) (omega arith) (omega arith);
  other_own = (sibling_own r (8 * r + 33) (omega arith) (omega arith), tt);
}

six_threads-IsOwn : (r : ℕ) → IsOwn r (six_threads r)
unfolding six_threads
six_threads-IsOwn r = record {
  pool_own = cores_own r (8 * r + 2) (8 * r + 8) (omega arith) (omega arith) (omega arith);
  dispatcher_own = core_own r (8 * r + 1) (omega arith) (omega arith);
  main_own = core_own r (8 * r) (omega arith) (omega arith);
  other_own = (
    sibling_own r (8 * r + 32) (omega arith) (omega arith),
    (sibling_own r (8 * r + 33) (omega arith) (omega arith), tt),
  );
}

-- Every CPU of a rank's default layout, whatever the number of pool threads, is one of its CCD.
pub default_layout-IsOwn : (r nthreads : ℕ) → IsOwn r (default_layout r nthreads)
unfolding default_layout
default_layout-IsOwn r n = if-IsOwn r (leb 14 n) (fourteen_threads r) _ (fourteen_threads-IsOwn r) (
    if-IsOwn r (leb 12 n) (twelve_threads r) _ (twelve_threads-IsOwn r) (
      if-IsOwn r (leb 8 n) (eight_threads r) _ (eight_threads-IsOwn r) (
        if-IsOwn r (n == 7) (seven_threads r) (six_threads r) (seven_threads-IsOwn r)
          (six_threads-IsOwn r))))
