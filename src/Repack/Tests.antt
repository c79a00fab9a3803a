-- ===== src/Repack/Tests.antt =====
-- Runs of the repacking.
use v_llm_moet.Prelude.{
  ℕ, ◌-◌, ◌*◌, ◌%◌, ◌≤◌, ◌≡◌, refl, arith, List, [], ◌∷◌, length, min, All, some, ok, raise, true,
  leb, get_or,
}
use v_llm_moet.Prelude.Int.{ℤ, pos, negsuc}
use v_llm_moet.Repack.Codes.{CodeMap, code_value, grid, dist, magnitude, first_nearest}
use v_llm_moet.Repack.Levels.{
  Hist, weight_of, occurring, argmin, run_error, rep, cost, errors, split, backtrack, choose_levels,
}
use v_llm_moet.Repack.Sets.{
  Table, least_dist, filter, matches_sign, least_magnitude, of_sign, nearest_level, subset_tables,
  select_cmap,
}
use v_llm_moet.Repack.Files.{
  tensor, expert, row, Tensor, FileStats, Bytes, remap_groups, not_divided, split_expert,
}
use v_llm_moet.Repack.Process.{
  by_groups, process_tensor, process_tensors, process_items, add_to_group, group_experts, all_int8,
  all_whole, tables_for, process_file,
}
use v_llm_moet.Repack.Occurring.{has_value}
use v_llm_moet.Repack.Optimal.{Runs, choose_levels-Runs}
use v_llm_moet.Repack.Nearest.{nearest_level-least}
use v_llm_moet.Repack.Odd.{IsOdd, Costs, select_cmap-IsOdd}
use v_llm_moet.Repack.Gate.{process_file-identity}

-- codes 1, 2, 5 and 15, of the values 1/2, 1, 3 and -6
abbrev four_codes : Hist
four_codes c = get_or (0 ∷ 5 ∷ 1 ∷ 0 ∷ 0 ∷ 2 ∷ 0 ∷ 0 ∷ 0 ∷ 0 ∷ 0 ∷ 0 ∷ 0 ∷ 0 ∷ 0 ∷ 1 ∷ []) c 0

levels_run :
    (choose_levels four_codes 3 ≡ some (negsuc 11 ∷ pos 1 ∷ pos 6 ∷ [], 1))
    × (choose_levels four_codes 2 ≡ some (negsuc 11 ∷ pos 2 ∷ [], 37))
unfolding code_value first_nearest weight_of occurring argmin run_error rep cost errors split
    backtrack choose_levels
levels_run = (refl, refl)

choose_levels-Runs_example :
    (levels : List ℤ) × (err : ℕ) × (choose_levels four_codes 2 ≡ some (levels, err))
    × Runs
        (occurring four_codes grid)
        (min 2 (length (occurring four_codes grid)) - 1)
        (length (occurring four_codes grid) - 1)
        levels
        err
    × ((levels' : List ℤ) (total : ℕ)
        → Runs
            (occurring four_codes grid)
            (min 2 (length (occurring four_codes grid)) - 1)
            (length (occurring four_codes grid) - 1)
            levels'
            total
        → err ≤ total)
choose_levels-Runs_example =
    choose_levels-Runs four_codes 2 5 (omega arith) (omega arith) (omega arith)

-- 0 and -0 go to different levels of {-1, 1}.
zero_runs :
    (nearest_level (negsuc 1) (pos 2 ∷ []) 0 ≡ pos 2)
    × (nearest_level (negsuc 1) (pos 2 ∷ []) 8 ≡ negsuc 1)
    × (nearest_level (pos 2) (pos 6 ∷ []) 4 ≡ pos 2)
unfolding code_value least_dist filter matches_sign least_magnitude of_sign nearest_level
zero_runs = (refl, refl, refl)

two_has_value : has_value (pos 2) (negsuc 1 ∷ pos 2 ∷ []) ≡ true
unfolding has_value
two_has_value = refl

nearest_level-least_example :
    (has_value (nearest_level (negsuc 1) (pos 2 ∷ []) 0) (negsuc 1 ∷ pos 2 ∷ []) ≡ true)
    × (dist (nearest_level (negsuc 1) (pos 2 ∷ []) 0) (code_value 0) ≤ dist (pos 2) (code_value 0))
    × (dist (pos 2) (code_value 0) ≡ dist (nearest_level (negsuc 1) (pos 2 ∷ []) 0) (code_value 0)
        → matches_sign (leb 8 0) (pos 2) ≡ true
        → (matches_sign (leb 8 0) (nearest_level (negsuc 1) (pos 2 ∷ []) 0) ≡ true)
          × (magnitude (nearest_level (negsuc 1) (pos 2 ∷ []) 0) ≤ magnitude (pos 2)))
nearest_level-least_example = nearest_level-least (negsuc 1) (pos 2 ∷ []) 0 (pos 2) two_has_value

select_cmap-IsOdd_example :
    (tables : List Table) × (cmap : CodeMap) × (sse : ℕ) × (subset_tables 4 true ≡ some tables)
    × (select_cmap four_codes tables ≡ some (cmap, sse))
    × IsOdd cmap
    × All (Costs four_codes sse) tables
select_cmap-IsOdd_example = select_cmap-IsOdd four_codes

abbrev six_bytes : Tensor
six_bytes = record { layer = 3; expert_id = 7; is_int8 = true; start = 2; stop = 8; cols = 3 }

abbrev sample : Bytes
sample i = (37 * i) % 256

-- Rows of four bytes do not divide it, and its expert has only one tensor.
file_runs :
    (process_file 10 15 row
        (record { layer = 3; expert_id = 7; is_int8 = true; start = 2; stop = 8; cols = 4 } ∷ [])
        sample
      ≡ raise not_divided)
    × (process_file 10 15 expert (six_bytes ∷ []) sample ≡ raise split_expert)
unfolding process_file tables_for all_int8 process_items process_tensors process_tensor by_groups
    remap_groups group_experts add_to_group all_whole
file_runs = (refl, refl)

process_file-identity_example :
    (s : FileStats) × (process_file 10 16 tensor (six_bytes ∷ six_bytes ∷ []) sample ≡ ok s)
    × ((i : ℕ) → s.bytes i ≡ sample i)
unfolding all_int8
process_file-identity_example =
    process_file-identity 10 16 tensor (six_bytes ∷ six_bytes ∷ []) sample (omega arith)
      (λ i. omega arith) refl (omega arith, (omega arith, tt))
