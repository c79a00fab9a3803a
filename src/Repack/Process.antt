-- ===== src/Repack/Process.antt =====
-- `process_file`, from the parsed header on.
use v_llm_moet.Prelude.{
  ℕ, ◌+◌, ◌-◌, ◌*◌, Bool, true, false, ◌&&◌, leb, ◌==◌, if◌then◌else◌, List, [], ◌∷◌, ◌++◌, length,
  Result, raise, ok, guard, ◌>>=◌, ◌>>◌,
}
use v_llm_moet.Prelude.Int.{pos}
use v_llm_moet.Repack.Codes.{code_value, square_err, byte_lut, build_lut}
use v_llm_moet.Repack.Levels.{Hist, choose_levels}
use v_llm_moet.Repack.Sets.{Levels, Table, subset_tables, select_cmap}
use v_llm_moet.Repack.Files.{
  Granularity, tensor, tensor_sym, expert, row, block32, RepackError, not_int8, split_expert,
  no_level, not_symmetric, Bytes, Tensor, FileStats, hist_of, apply_lut, need, sum_codes,
  levels_from_cmap, remap_groups,
}

abbrev pub size_of : Tensor → ℕ
size_of t = t.stop - t.start

-- tot_w and tot_ssq, for the histogram of a tensor or an expert
unfoldable pub weigh : Hist → FileStats → FileStats
weigh hist s = record {
  bytes = s.bytes;
  n_expert = s.n_expert;
  tot_w = s.tot_w + sum_codes 16 hist;
  tot_sse = s.tot_sse;
  tot_ssq = s.tot_ssq + sum_codes 16 (λ c. hist c * square_err (code_value c) (pos 0));
  codebooks = s.codebooks;
}

-- New bytes, their error, and the codebook, if one is counted
unfoldable pub remapped : Bytes → ℕ → List Levels → FileStats → FileStats
remapped bytes' sse books s = record {
  bytes = bytes';
  n_expert = s.n_expert;
  tot_w = s.tot_w;
  tot_sse = s.tot_sse + sse;
  tot_ssq = s.tot_ssq;
  codebooks = s.codebooks ++ books;
}

unfoldable pub count_tensors : ℕ → FileStats → FileStats
count_tensors n s = record {
  bytes = s.bytes;
  n_expert = s.n_expert + n;
  tot_w = s.tot_w;
  tot_sse = s.tot_sse;
  tot_ssq = s.tot_ssq;
  codebooks = s.codebooks;
}

module _ (base : ℕ) where
  abbrev pub at_of : Tensor → ℕ
  at_of t = base + t.start

  -- `seg[:] = lut[seg]` for each tensor of a group
  unfoldable pub apply_luts : (ℕ → ℕ) → List Tensor → Bytes → Bytes
  apply_luts lut [] bytes = bytes
  apply_luts lut (t ∷ ts) bytes = apply_luts lut ts (apply_lut lut (at_of t) (size_of t) bytes)

  -- The histogram of a group's tensors
  unfoldable pub hist_all : List Tensor → Bytes → Hist
  hist_all [] bytes c = 0
  hist_all (t ∷ ts) bytes c = hist_of bytes (at_of t) (size_of t) c + hist_all ts bytes c

module _ (base k : ℕ) (tables : List Table) where
  -- The branch of granularity `tensor`
  unfoldable pub by_levels : Tensor → Hist → FileStats → Result RepackError FileStats
  by_levels t hist s = do
    (levels, sse) ← need no_level (choose_levels hist k)
    elim levels [
      | [] ↦ raise no_level
      | level ∷ more ↦ ok (
          remapped
            (apply_lut (byte_lut (build_lut level more)) (at_of base t) (size_of t) (s.bytes)) sse
            ((level ∷ more) ∷ []) s)
    ]

  -- One code map for the tensors of a group, fewer than 15 levels given
  unfoldable pub by_table : List Tensor → Hist → FileStats → Result RepackError FileStats
  by_table ts hist s = if leb 15 k then ok s else (do
    (cmap, sse) ← need no_level (select_cmap hist tables)
    ok (remapped (apply_luts base (byte_lut cmap) ts (s.bytes)) sse (levels_from_cmap cmap ∷ []) s))

  -- The branches of granularity `row` and `block32`
  unfoldable pub by_groups : Tensor → ℕ → FileStats → Result RepackError FileStats
  by_groups t bpg s = do
    (bytes', sse) ← remap_groups (at_of base t) (size_of t) bpg k tables (s.bytes)
    ok (remapped bytes' sse [] s)

  -- A tensor in the loop of `process_file`, for the granularities other than `expert`
  unfoldable pub process_tensor : Granularity → Tensor → FileStats → Result RepackError FileStats
  process_tensor g t s =
      let hist = hist_of (s.bytes) (at_of base t) (size_of t) in
      let weighed = weigh hist s in
      (elim g [
        | tensor ↦ by_levels t hist weighed
        | tensor_sym ↦ by_table (t ∷ []) hist weighed
        | expert ↦ ok weighed
        | row ↦ by_groups t (t.cols) weighed
        | block32 ↦ by_groups t 16 weighed
      ])
      >>= λ done. ok (count_tensors 1 done)

  unfoldable pub process_tensors :
      Granularity → List Tensor → FileStats → Result RepackError FileStats
  process_tensors g [] s = ok s
  process_tensors g (t ∷ ts) s = process_tensor g t s >>= process_tensors g ts

  unfoldable pub process_experts : List (List Tensor) → FileStats → Result RepackError FileStats
  process_experts [] s = ok s
  process_experts (ts ∷ groups) s = do
    let hist = hist_all base ts (s.bytes)
    done ← by_table ts hist (weigh hist s)
    process_experts groups (count_tensors (length ts) done)

-- `groups.setdefault((layer, expert), []).append(meta)`
unfoldable pub add_to_group : Tensor → List (List Tensor) → List (List Tensor)
add_to_group t [] = (t ∷ []) ∷ []
add_to_group t ([] ∷ groups) = [] ∷ add_to_group t groups
add_to_group t ((first ∷ more) ∷ groups) =
    let rest = (first ∷ more) ∷ add_to_group t groups in
    if first.layer == t.layer && first.expert_id == t.expert_id
    then (first ∷ more ++ t ∷ []) ∷ groups
    else rest

unfoldable pub group_experts : List Tensor → List (List Tensor) → List (List Tensor)
group_experts [] groups = groups
group_experts (t ∷ ts) groups = group_experts ts (add_to_group t groups)

unfoldable pub all_int8 : List Tensor → Bool
all_int8 [] = true
all_int8 (t ∷ ts) = t.is_int8 && all_int8 ts

-- `assert len(metas) == 3` for each group
unfoldable pub all_whole : List (List Tensor) → Bool
all_whole [] = true
all_whole (ts ∷ groups) = length ts == 3 && all_whole groups

-- err16 and cmap16, which granularity `tensor` and 15 levels or more do without
unfoldable pub tables_for : Granularity → ℕ → Result RepackError (List Table)
tables_for tensor k = ok []
tables_for tensor_sym k = if leb 15 k then ok [] else need not_symmetric (subset_tables k true)
tables_for _ k = if leb 15 k then ok [] else need no_level (subset_tables k false)

-- The two loops of `process_file`
unfoldable pub process_items :
    ℕ → ℕ → List Table → Granularity → List Tensor → FileStats → Result RepackError FileStats
process_items base k tables expert items s = do
  let groups = group_experts items []
  guard (all_whole groups) split_expert
  process_experts base k tables groups s
process_items base k tables g items s = process_tensors base k tables g items s

unfoldable pub process_file :
    ℕ → ℕ → Granularity → List Tensor → Bytes → Result RepackError FileStats
process_file base k g items file = do
  tables ← tables_for g k
  guard (all_int8 items) not_int8
  process_items base k tables g items
      record { bytes = file; n_expert = 0; tot_w = 0; tot_sse = 0; tot_ssq = 0; codebooks = [] }
