-- ===== src/Prefill/Stages.antt =====
-- The loop of rounds: every round is staged where it runs, so that its run reads its records.
use mathlib.Core.Path.{fun_ext}
use v_llm_moet.Prelude.{
  ℕ, suc, ◌<◌, true, Bool-cases, List, [], ◌∷◌, ◌++◌, Option, none, some, update_self, update_ne,
  ok, ◌≡◌, ◌≢◌, inl, inr, refl, ap, ◌∙◌, arith,
}
use v_llm_moet.Prefill.Routing.{Ids, map_cols, map_rows, through}
use v_llm_moet.Prefill.Rounds.{
  PrefillConfig, Record, Pool, Scratch, Sets, StoreCall, fetch, release_last, put_set, record_ptrs,
  round_calls, repack, stage_round, write_slots, same_list, read, Output, add_read, add_row,
  add_run, run_round,
}
use v_llm_moet.Prefill.Reads.{part_of, round_reads}

module _ (pool : Pool) (slot : ℕ → Option ℕ → Option ℕ) (acc : ℕ → Option ℕ → List Record) where
  add_row-map :
      (c : ℕ) (row : List (Option ℕ))
      → add_row pool (map_cols slot c row) (map_cols acc c row)
        ≡ map_cols (λ c' id. add_read (acc c' id) (read pool (slot c' id))) c row
  unfolding add_row map_cols
  add_row-map c [] = refl
  add_row-map c (id ∷ row) =
      ap (λ rest. add_read (acc c id) (read pool (slot c id)) ∷ rest) (add_row-map (suc c) row)

  -- A run adds to each pair what it reads for it.
  pub add_run-map :
      (ids : Ids)
      → add_run pool (map_rows slot ids) (map_rows acc ids)
        ≡ map_rows (λ c id. add_read (acc c id) (read pool (slot c id))) ids
  unfolding add_run map_rows
  add_run-map [] = refl
  add_run-map (row ∷ ids) = rw (add_row-map 0 row, add_run-map ids) refl

pub same_list_self : (xs : List ℕ) → same_list xs xs ≡ true
unfolding same_list
same_list_self [] = refl
same_list_self (x ∷ xs) = ground (arith, same_list_self xs)

-- The set `i` has the round's experts, and its pool their records.
pub record IsStaged (v i : ℕ) (rnd : List ℕ) (s : Sets) : Type 0 where
  pub staged : (s.at i).staged ≡ rnd
  pub pool_before : Pool
  pub pool : (s.at i).pool ≡ repack (record_ptrs v rnd) pool_before

abbrev pub Works : PrefillConfig → Type 0
Works c = (i : ℕ) (rnd : List ℕ) → c.fetch_works i rnd ≡ true

-- Staging a round returns, and leaves the other sets.
pub record Stages (c : PrefillConfig) (i : ℕ) (layer : ℕ) (rnd : List ℕ) (s : Sets) : Type 0 where
  pub after : Sets
  pub returns : stage_round c i layer rnd s ≡ ok after
  pub stages : IsStaged (c.v) i rnd after
  pub others : (j : ℕ) → j ≢ i → after.at j ≡ s.at j
  pub kept_sets : after.n_sets ≡ s.n_sets

round_calls_return :
    (c : PrefillConfig) (i layer : ℕ) (rnd : List ℕ) (sc : Scratch)
    → Works c
    → (calls : List StoreCall) × (last : Option (ℕ × List ℕ)) × (round_calls c i layer rnd sc
        ≡ ok (calls, last))
unfolding round_calls
round_calls_return c i layer rnd sc works = elim (Bool-cases (c.tail)) [
  | inl tail ↦ (
    release_last (sc.tail_last) ++ fetch i layer rnd ∷ [],
    some (layer, rnd),
    rw (tail, works i rnd) refl,
  )
  | inr no_tail ↦ ([], sc.tail_last, rw no_tail refl)
]

-- The set `i` with a round staged
abbrev staged_scratch : ℕ → ℕ → List ℕ → Option (ℕ × List ℕ) → Sets → Scratch
staged_scratch v i rnd last s = record {
  staged = rnd;
  table = (s.at i).table;
  pool = repack (record_ptrs v rnd) ((s.at i).pool);
  tail_last = last;
}

pub put_at :
    (i : ℕ) (sc : Scratch) (calls : List StoreCall) (s : Sets) → (put_set i sc calls s).at i ≡ sc
unfolding put_set
put_at i sc calls s = update_self (s.at) i sc

pub put_other :
    (i : ℕ) (sc : Scratch) (calls : List StoreCall) (s : Sets) (j : ℕ)
    → j ≢ i
    → (put_set i sc calls s).at j ≡ s.at j
unfolding put_set
put_other i sc calls s j ne = update_ne (s.at) i sc j ne

put_n_sets :
    (i : ℕ) (sc : Scratch) (calls : List StoreCall) (s : Sets)
    → (put_set i sc calls s).n_sets ≡ s.n_sets
unfolding put_set
put_n_sets i sc calls s = refl

pub stage_round-Stages :
    (c : PrefillConfig) (i layer : ℕ) (rnd : List ℕ) (s : Sets) → Works c → Stages c i layer rnd s
unfolding stage_round
stage_round-Stages c i layer rnd s works =
    let called = round_calls_return c i layer rnd (s.at i) works in
    let sc = staged_scratch (c.v) i rnd (called.1) s in
    let here = put_at i sc (called.0) s in
    record {
      after = put_set i sc (called.0) s;
      returns = rw (called.2) refl;
      stages = record {
        staged = ap (λ set. set.staged) here;
        pool_before = (s.at i).pool;
        pool = ap (λ set. set.pool) here;
      };
      others = put_other i sc (called.0) s;
      kept_sets = put_n_sets i sc (called.0) s;
    }

-- The output of the rounds, by pair
unfoldable pub sum_parts :
    ℕ → List (List ℕ) → (ℕ → Option ℕ → List Record) → ℕ → Option ℕ → List Record
sum_parts v [] acc = acc
sum_parts v (rnd ∷ rounds) acc =
    sum_parts v rounds (λ c id. add_read (acc c id) (part_of v rnd c id))

-- The run of a staged round adds its parts.
pub run_round-eq :
    (c : PrefillConfig) (i : ℕ) (rnd : List ℕ) (ids : Ids) (s : Sets)
    (acc : ℕ → Option ℕ → List Record)
    → 0 < c.v
    → IsStaged (c.v) i rnd s
    → (run_round c i rnd ids (s, map_rows acc ids)).1
      ≡ map_rows (λ col id. add_read (acc col id) (part_of (c.v) rnd col id)) ids
unfolding run_round
run_round-eq c i rnd ids s acc some_slices staged = rw (staged.pool) (
    add_run-map _ (through (c.v) (write_slots 0 rnd (λ e. none))) acc ids
    ∙ ap (λ parts. map_rows (λ col id. add_read (acc col id) (parts col id)) ids)
        (fun_ext
          λ col. fun_ext λ id. round_reads (c.v) rnd (staged.pool_before) col id some_slices))

pub run_round-others :
    (c : PrefillConfig) (i : ℕ) (rnd : List ℕ) (ids : Ids) (s : Sets) (out : Output) (j : ℕ)
    → j ≢ i
    → ((run_round c i rnd ids (s, out)).0).at j ≡ s.at j
unfolding run_round
run_round-others c i rnd ids s out j ne = put_other i _ [] s j ne
