-- ===== src/Cpus/Tests.antt =====
-- The CPUs on small inputs.
use v_llm_moet.Prelude.{
  ℕ, ◌+◌, ◌*◌, ◌<◌, ◌≡◌, refl, true, some, List, [], ◌∷◌, arith, get_elem?, ok,
}
use v_llm_moet.Cpus.Overrides.{pick_entries}
use v_llm_moet.Cpus.{pick, parse_cpu_list, ranges, Layout, default_layout, cpu_layout, cpu_layout_v}
use v_llm_moet.Cpus.Lists.{parse_cpu_list-ranges}
use v_llm_moet.Cpus.Layouts.{IsOwn, default_layout-IsOwn}
use v_llm_moet.Cpus.Virtual.{plain_env, cpu_layout_v_as_ranks}

ranges_of_the_doc :
    ranges (2 ∷ 3 ∷ 4 ∷ 34 ∷ 35 ∷ [])
    ≡ record { from = 2; upto = some 4 } ∷ record { from = 34; upto = some 35 } ∷ []
unfolding ranges
ranges_of_the_doc = refl

parse_cpu_list-ranges_example :
    parse_cpu_list (ranges (2 ∷ 3 ∷ 4 ∷ 34 ∷ 35 ∷ [])) ≡ ok (2 ∷ 3 ∷ 4 ∷ 34 ∷ 35 ∷ [])
parse_cpu_list-ranges_example = parse_cpu_list-ranges (2 ∷ 3 ∷ 4 ∷ 34 ∷ 35 ∷ [])

default_layout-IsOwn_example : IsOwn 3 (default_layout 3 14)
default_layout-IsOwn_example = default_layout-IsOwn 3 14

cpu_layout_v_as_ranks_example :
    (layout : Layout (List (List ℕ)) (List ℕ)) × (rank : Layout (List ℕ) ℕ) × (cpu_layout_v
        (plain_env true)
        1
        2
      ≡ ok layout)
    × (cpu_layout (plain_env true) (1 * 2 + 1) ≡ ok rank)
    × (get_elem? layout.pool 1 ≡ some rank.pool)
    × (get_elem? layout.dispatcher 1 ≡ some rank.dispatcher)
cpu_layout_v_as_ranks_example = cpu_layout_v_as_ranks true 1 2 1 (omega arith)

-- Four dispatchers for two processes of two virtual ranks: the second one takes 17 and 25.
abbrev dispatchers : List ℕ
dispatchers = 1 ∷ 9 ∷ 17 ∷ 25 ∷ []

second_process : pick 2 2 dispatchers ≡ ok (17 ∷ 25 ∷ [])
unfolding pick
second_process = refl

pick_entries_example :
    (own : List ℕ) × (pick 2 (1 * 2) dispatchers ≡ ok own)
    × ((v : ℕ) → v < 2 → get_elem? own v ≡ get_elem? dispatchers (1 * 2 + v))
pick_entries_example = pick_entries 2 1 2 dispatchers refl (omega arith) (omega arith)
