-- ===== src/Repack/Gate.antt =====
-- The gate of the repacking: with 15 levels or more no file changes, whatever the granularity.
use v_llm_moet.Prelude.{
  ℕ, zero, suc, ◌+◌, ◌*◌, ◌/◌, ◌%◌, ◌≤◌, ◌<◌, true, List, [], ◌∷◌, length, All, Result, ok, ◌>>=◌,
  ◌≡◌, refl, ap, ◌∙◌, arith, le→leb, lt→ltb,
}
use v_llm_moet.Repack.Codes.{byte_lut, build_lut}
use v_llm_moet.Repack.Levels.{Hist}
use v_llm_moet.Repack.Sets.{Table}
use v_llm_moet.Repack.Files.{
  Granularity, tensor, tensor_sym, expert, row, block32, RepackError, Bytes, Tensor, FileStats,
  hist_of, apply_lut, need, group_cmap, remap_loop, remap_groups,
}
use v_llm_moet.Repack.Process.{
  at_of, size_of, weigh, remapped, count_tensors, by_levels, by_table, by_groups, process_tensor,
  process_tensors, process_experts, group_experts, all_int8, all_whole, tables_for, process_items,
  process_file,
}
use v_llm_moet.Repack.Identity.{
  choose_levels-identity, hist_of-low, hist_of-high, apply_lut-identity,
}

byte_lut-identity :
    (cmap : ℕ → ℕ) (b : ℕ) → cmap (b % 16) ≡ b % 16 → cmap (b / 16) ≡ b / 16 → byte_lut cmap b ≡ b
unfolding byte_lut
byte_lut-identity cmap b low high = omega arith

-- The step returns, and the bytes are the file's.
abbrev pub Keeps : Bytes → Result RepackError FileStats → Type 0
Keeps file run = (s : FileStats) × (run ≡ ok s) × (s.bytes ≡ file)

Keeps->>= :
    (file : Bytes) (run : Result RepackError FileStats)
    (next : FileStats → Result RepackError FileStats)
    → Keeps file run
    → ((s : FileStats) → s.bytes ≡ file → Keeps file (next s))
    → Keeps file (run >>= next)
Keeps->>= file run next before after =
    let rest = after (before.0) (before.2) in (rest.0, rw (before.1) (rest.1), rest.2)

-- What a tensor must satisfy: it has bytes for its own codebook, and rows or blocks divide it.
abbrev pub Fits : Granularity → Tensor → Type 0
Fits tensor t = t.start < t.stop
Fits tensor_sym t = Unit
Fits expert t = Unit
Fits row t = (0 < t.cols) × (size_of t % t.cols ≡ 0)
Fits block32 t = size_of t % 16 ≡ 0

-- What the tensors of a file must satisfy: an expert has its three tensors in it.
abbrev pub FitsAll : Granularity → List Tensor → Type 0
FitsAll expert items = all_whole (group_experts items []) ≡ true
FitsAll g items = All (Fits g) items

module _ (base k : ℕ) (many : 15 ≤ k) (tables : List Table) (file : Bytes)
    (bytes : (i : ℕ) → file i < 256) where
  by_levels-Keeps :
      (t : Tensor) (s : FileStats)
      → t.start < t.stop
      → s.bytes ≡ file
      → Keeps file (by_levels base k tables t (hist_of (s.bytes) (at_of base t) (size_of t)) s)
  unfolding by_levels remapped need
  by_levels-Keeps t s some_bytes same =
      let at = at_of base t in
      let n = size_of t in
      let hist = hist_of (s.bytes) at n in
      let some_size : 0 < size_of t = omega arith in
      let small : (j : ℕ) → s.bytes j < 256 = λ j. rw same (bytes j) in
      let found =
        choose_levels-identity hist k (s.bytes (at + 0) % 16) many (omega arith)
          (hist_of-low (s.bytes) at n 0 some_size) in
      let kept =
        apply_lut-identity (byte_lut (build_lut (found.0) (found.1))) at n (s.bytes) (λ j lt.
          byte_lut-identity (build_lut (found.0) (found.1)) (s.bytes (at + j))
            (found.4 (s.bytes (at + j) % 16) (omega arith) (hist_of-low (s.bytes) at n j lt))
            (found.4 (s.bytes (at + j) / 16) (let bound = small (at + j) in omega arith)
              (hist_of-high (s.bytes) at n j lt))) in
      (
        remapped (apply_lut (byte_lut (build_lut (found.0) (found.1))) at n (s.bytes)) (found.2)
            ((found.0 ∷ found.1) ∷ []) s,
        rw (found.3) refl,
        kept ∙ same,
      )

  by_table-Keeps :
      (ts : List Tensor) (hist : Hist) (s : FileStats)
      → s.bytes ≡ file
      → Keeps file (by_table base k tables ts hist s)
  unfolding by_table
  by_table-Keeps ts hist s same = (s, rw (le→leb 15 k many) refl, same)

  remap_loop-identity :
      (n at bpg : ℕ) → (sse : ℕ) × (remap_loop n at bpg k tables file ≡ ok (file, sse))
  unfolding remap_loop group_cmap
  remap_loop-identity zero at bpg = (0, refl)
  remap_loop-identity (suc n) at bpg =
      let before = remap_loop-identity n at bpg in
      let kept =
        apply_lut-identity (byte_lut (λ c. c)) (at + n * bpg) bpg file
          (λ j lt. byte_lut-identity (λ c. c) (file (at + n * bpg + j)) refl refl) in
      (before.0 + 0, rw (before.1, le→leb 15 k many, kept) refl)

  by_groups-Keeps :
      (t : Tensor) (bpg : ℕ) (s : FileStats)
      → 0 < bpg
      → size_of t % bpg ≡ 0
      → s.bytes ≡ file
      → Keeps file (by_groups base k tables t bpg s)
  unfolding by_groups remap_groups remapped
  by_groups-Keeps t bpg s some_bytes divides same =
      let loop = remap_loop-identity (size_of t / bpg) (at_of base t) bpg in
      (remapped file (loop.0) [] s, rw (lt→ltb 0 bpg some_bytes, divides, same, loop.1) refl, refl)

  process_tensor-Keeps :
      (g : Granularity) (t : Tensor) (s : FileStats)
      → Fits g t
      → s.bytes ≡ file
      → Keeps file (process_tensor base k tables g t s)
  unfolding process_tensor weigh count_tensors
  process_tensor-Keeps tensor t s fits same =
      Keeps->>= file _ _ (by_levels-Keeps t (weigh _ s) fits same) (λ done kept. (_, refl, kept))
  process_tensor-Keeps tensor_sym t s fits same =
      Keeps->>= file _ _ (by_table-Keeps (t ∷ []) _ (weigh _ s) same) (λ done kept. (_, refl, kept))
  process_tensor-Keeps expert t s fits same = (_, refl, same)
  process_tensor-Keeps row t s fits same =
      Keeps->>= file _ _ (by_groups-Keeps t (t.cols) (weigh _ s) (fits.0) (fits.1) same)
        (λ done kept. (_, refl, kept))
  process_tensor-Keeps block32 t s fits same =
      Keeps->>= file _ _ (by_groups-Keeps t 16 (weigh _ s) (omega arith) fits same)
        (λ done kept. (_, refl, kept))

  process_tensors-Keeps :
      (g : Granularity) (ts : List Tensor) (s : FileStats)
      → All (Fits g) ts
      → s.bytes ≡ file
      → Keeps file (process_tensors base k tables g ts s)
  unfolding process_tensors
  process_tensors-Keeps g [] s fits same = (s, refl, same)
  process_tensors-Keeps g (t ∷ ts) s fits same =
      Keeps->>= file _ _ (process_tensor-Keeps g t s (fits.0) same)
        (λ done kept. process_tensors-Keeps g ts done (fits.1) kept)

  process_experts-Keeps :
      (groups : List (List Tensor)) (s : FileStats)
      → s.bytes ≡ file
      → Keeps file (process_experts base k tables groups s)
  unfolding process_experts weigh count_tensors
  process_experts-Keeps [] s same = (s, refl, same)
  process_experts-Keeps (ts ∷ groups) s same =
      Keeps->>= file _ _ (by_table-Keeps ts _ (weigh _ s) same)
        (λ done kept. process_experts-Keeps groups (count_tensors (length ts) done) kept)

  process_items-Keeps :
      (g : Granularity) (items : List Tensor) (s : FileStats)
      → FitsAll g items
      → s.bytes ≡ file
      → Keeps file (process_items base k tables g items s)
  unfolding process_items
  process_items-Keeps expert items s fits same =
      rw fits (process_experts-Keeps (group_experts items []) s same)
  process_items-Keeps tensor items s fits same = process_tensors-Keeps tensor items s fits same
  process_items-Keeps tensor_sym items s fits same =
      process_tensors-Keeps tensor_sym items s fits same
  process_items-Keeps row items s fits same = process_tensors-Keeps row items s fits same
  process_items-Keeps block32 items s fits same = process_tensors-Keeps block32 items s fits same

abbrev start : Bytes → FileStats
start file = record {
  bytes = file;
  n_expert = 0;
  tot_w = 0;
  tot_sse = 0;
  tot_ssq = 0;
  codebooks = [];
}

tables_for-none : (g : Granularity) (k : ℕ) → 15 ≤ k → tables_for g k ≡ ok []
unfolding tables_for
tables_for-none tensor k many = refl
tables_for-none _ k many = rw (le→leb 15 k many) refl

-- With 15 levels or more, at every granularity, `process_file` returns and leaves the bytes of the
-- file as they are, if the tensors are of I8 and fit: they are not empty for codebooks of a tensor,
-- rows or blocks divide them, and an expert's three tensors are in the file.
pub process_file-identity :
    (base k : ℕ) (g : Granularity) (items : List Tensor) (file : Bytes)
    → 15 ≤ k
    → ((i : ℕ) → file i < 256)
    → all_int8 items ≡ true
    → FitsAll g items
    → (s : FileStats) × (process_file base k g items file ≡ ok s) × ((i : ℕ) → s.bytes i ≡ file i)
unfolding process_file
process_file-identity base k g items file many bytes int8 fits =
    let run = process_items-Keeps base k many [] file bytes g items (start file) fits refl in
    (run.0, rw (tables_for-none g k many, int8) (run.1), λ i. ap (λ out. out i) (run.2))
