-- ===== src/Repack/Files.antt =====
-- `_remap_groups` and `process_file`: the repacking of the expert tensors of a file. The file's bytes
-- are a function of the index, and its header is parsed already.
use v_llm_moet.Prelude.{
  ℕ, zero, suc, ◌+◌, ◌*◌, ◌/◌, ◌%◌, Bool, false, ◌&&◌, ◌||◌, ltb, leb, ◌==◌, if◌then◌else◌, List,
  Option, none, some, Result, raise, ok, guard, ◌>>=◌, ◌>>◌,
}
use v_llm_moet.Prelude.Int.{ℤ}
use v_llm_moet.Repack.Codes.{CodeMap, code_value, grid, dist, byte_lut}
use v_llm_moet.Repack.Levels.{Hist}
use v_llm_moet.Repack.Sets.{Levels, Table, select_cmap, filter}

pub data Granularity : Type 0 where
  tensor : Granularity
  tensor_sym : Granularity
  expert : Granularity
  row : Granularity
  block32 : Granularity

-- What makes the code raise: a type other than I8, an expert without its three tensors, no level to
-- choose (an empty tensor), symmetric sets of other than four levels, and rows that do not divide a
-- tensor.
pub data RepackError : Type 0 where
  not_int8 : RepackError
  split_expert : RepackError
  no_level : RepackError
  not_symmetric : RepackError
  not_divided : RepackError

abbrev pub Bytes : Type 0
Bytes = ℕ → ℕ

-- An entry of the header whose name EXPERT_RE matches: the two numbers of the name, whether the type
-- is I8, the offsets, and shape[1].
pub record Tensor : Type 0 where
  pub layer : ℕ
  pub expert_id : ℕ
  pub is_int8 : Bool
  pub start : ℕ
  pub stop : ℕ
  pub cols : ℕ

-- The file and the totals so far
pub record FileStats : Type 0 where
  pub bytes : Bytes
  pub n_expert : ℕ
  pub tot_w : ℕ
  pub tot_sse : ℕ
  pub tot_ssq : ℕ
  pub codebooks : List Levels

-- The counts of the codes in the `n` bytes from `at` on: `bincount` and its two sums
unfoldable pub hist_of : Bytes → ℕ → ℕ → Hist
hist_of bytes at zero c = 0
hist_of bytes at (suc n) c =
    hist_of bytes at n c
    + (if bytes (at + n) % 16 == c then 1 else 0)
    + (if bytes (at + n) / 16 == c then 1 else 0)

-- `seg[:] = lut[seg]` for the segment of `n` bytes from `at` on
unfoldable pub apply_lut : (ℕ → ℕ) → ℕ → ℕ → Bytes → Bytes
apply_lut lut at n bytes i = if leb at i && ltb i (at + n) then lut (bytes i) else bytes i

unfoldable pub need {ℓ} : {A : Type ℓ} → RepackError → Option A → Result RepackError A
need e none = raise e
need e (some a) = ok a

-- The sum of `f` over the 16 codes
unfoldable pub sum_codes : ℕ → (ℕ → ℕ) → ℕ
sum_codes zero f = 0
sum_codes (suc n) f = sum_codes n f + f n

-- `_levels_from_cmap`
unfoldable pub is_mapped : ℕ → CodeMap → ℤ → Bool
is_mapped zero cmap v = false
is_mapped (suc n) cmap v = is_mapped n cmap v || dist (code_value (cmap n)) v == 0

unfoldable pub levels_from_cmap : CodeMap → Levels
levels_from_cmap cmap = filter (is_mapped 16 cmap) grid

-- The code map of a group in `_remap_groups`: the identity from 15 levels on
unfoldable pub group_cmap : ℕ → List Table → Hist → Result RepackError (CodeMap × ℕ)
group_cmap k tables hist =
    if leb 15 k then ok (λ c. c, 0) else need no_level (select_cmap hist tables)

-- The loop of `_remap_groups` over `n` groups of `bpg` bytes, from `at` on
unfoldable pub remap_loop : ℕ → ℕ → ℕ → ℕ → List Table → Bytes → Result RepackError (Bytes × ℕ)
remap_loop zero at bpg k tables bytes = ok (bytes, 0)
remap_loop (suc n) at bpg k tables bytes = do
  (before, sse) ← remap_loop n at bpg k tables bytes
  (cmap, err) ← group_cmap k tables (hist_of before (at + n * bpg) bpg)
  ok (apply_lut (byte_lut cmap) (at + n * bpg) bpg before, sse + err)

-- `_remap_groups`; `reshape(-1, bpg)` raises where the rows do not divide the segment.
unfoldable pub remap_groups : ℕ → ℕ → ℕ → ℕ → List Table → Bytes → Result RepackError (Bytes × ℕ)
remap_groups at n bpg k tables bytes =
    guard (ltb 0 bpg && n % bpg == 0) not_divided >> remap_loop (n / bpg) at bpg k tables bytes
