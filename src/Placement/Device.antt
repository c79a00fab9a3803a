-- ===== src/Placement/Device.antt =====
-- The device slot table of a layer under one `after_launch`
-- (tools/dsv41_5090/cpu_tier/placement_manager.py): phase 1 unmaps every victim, phase 2 maps every
-- promoted expert.
pub mod Agree
use v_llm_moet.Prelude.{ℕ, Option, none, some, List, [], ◌∷◌, update}
use v_llm_moet.Placement.Manager.{Promotion}

-- `P.slot_table[v] = -1` for the victims that are experts.
unfoldable pub unmap : Option ℕ → (ℕ → Option ℕ) → ℕ → Option ℕ
unmap none table = table
unmap (some v) table = update table v none

unfoldable pub unmap_victims : List Promotion → (ℕ → Option ℕ) → ℕ → Option ℕ
unfolding unmap
unmap_victims [] table = table
unmap_victims (x ∷ xs) table = unmap_victims xs (unmap x.victim table)

-- `P.slot_table[e] = s`
unfoldable pub map_experts : List Promotion → (ℕ → Option ℕ) → ℕ → Option ℕ
map_experts [] table = table
map_experts (x ∷ xs) table = map_experts xs (update table x.expert (some x.slot))

-- The table after both phases.
unfoldable pub launch_table : List Promotion → (ℕ → Option ℕ) → ℕ → Option ℕ
unfolding unmap_victims map_experts
launch_table out table = map_experts out (unmap_victims out table)
