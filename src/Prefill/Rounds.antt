-- ===== src/Prefill/Rounds.antt =====
-- The rounds: `_prefill_round_ptrs`, `_stage_and_repack`, `_stage_round_async`, `_scratch_ids` and
-- `_run_rounds`. A record is an expert and a slice; a run is what it reads from the pool for each pair.
-- The work on the two streams is in the order in which the host issues it.
use v_llm_moet.Prelude.{
  ℕ, zero, suc, ◌+◌, ◌%◌, Bool, true, false, ◌&&◌, ◌==◌, if◌then◌else◌, List, [], ◌∷◌, ◌++◌, take,
  drop, get_elem?, Option, none, some, update, Result, ok, guard, ◌>>=◌, ◌>>◌,
}
use v_llm_moet.Prefill.Routing.{Ids, SlotTable, map_rows, through, has_vidx}

-- The assertion of `_run_rounds`, a failed fetch, a scratch pool of less than one expert, and rows of
-- another size than `S.vidx` has entries for
pub data PrefillError : Type 0 where
  not_staged : PrefillError
  fetch_failed : PrefillError
  no_scratch : PrefillError
  size_mismatch : PrefillError

-- The settings: the slices of an expert, SCRATCH_SLOTS, PREFILL_OVERLAP, and whether the store has a
-- tail. The fetches of the C++ tier are a parameter: whether the one of a set and a round works.
pub record PrefillConfig : Type 0 where
  pub v : ℕ
  pub slots : ℕ
  pub overlap : Bool
  pub tail : Bool
  pub fetch_works : ℕ → List ℕ → Bool

-- An expert's slice
abbrev pub Record : Type 0
Record = ℕ × ℕ

-- What a pool holds, by slot
abbrev pub Pool : Type 0
Pool = ℕ → Option Record

-- _Scratch: the experts that are staged, the table, the pool, and the pinned experts
pub record Scratch : Type 0 where
  pub staged : List ℕ
  pub table : SlotTable
  pub pool : Pool
  pub tail_last : Option (ℕ × List ℕ)

-- What the tiers are called for
pub data StoreCall : Type 0 where
  fetch : ℕ → ℕ → List ℕ → StoreCall
  release : ℕ → List ℕ → StoreCall

-- The scratch sets (`n_sets` of them are created), the calls to the store, and overlap_stats[1]
pub record Sets : Type 0 where
  pub n_sets : ℕ
  pub at : ℕ → Scratch
  pub calls : List StoreCall
  pub prefetched : ℕ

unfoldable pub put_set : ℕ → Scratch → List StoreCall → Sets → Sets
put_set i sc calls' s = record {
  n_sets = s.n_sets;
  at = update (s.at) i sc;
  calls = s.calls ++ calls';
  prefetched = s.prefetched;
}

unfoldable pub count_prefetch : Sets → Sets
count_prefetch s = record {
  n_sets = s.n_sets;
  at = s.at;
  calls = s.calls;
  prefetched = s.prefetched + 1;
}

-- `[record_ptr(li, e, v) for e in experts for v in range(V)]`
unfoldable pub slices_of : ℕ → ℕ → List Record
slices_of e zero = []
slices_of e (suc v) = slices_of e v ++ (e, v) ∷ []

unfoldable pub record_ptrs : ℕ → List ℕ → List Record
record_ptrs v [] = []
record_ptrs v (e ∷ es) = slices_of e v ++ record_ptrs v es

-- The releases of a set's last round
unfoldable pub release_last : Option (ℕ × List ℕ) → List StoreCall
release_last none = []
release_last (some (layer, experts)) = release layer experts ∷ []

-- `_prefill_round_ptrs`: the calls to the store, and the set's new pins
unfoldable pub round_calls :
    PrefillConfig
    → ℕ
    → ℕ
    → List ℕ
    → Scratch
    → Result PrefillError (List StoreCall × Option (ℕ × List ℕ))
round_calls c i layer rnd sc =
    if c.tail
    then guard (c.fetch_works i rnd) fetch_failed
      >> ok (release_last (sc.tail_last) ++ fetch i layer rnd ∷ [], some (layer, rnd))
    else ok ([], sc.tail_last)

-- `_stage_and_repack`: record i into slot i
unfoldable pub repack : List Record → Pool → Pool
repack ptrs pool slot = elim (get_elem? ptrs slot) [ none ↦ pool slot | some r ↦ some r ]

-- A round staged into the set `i`, on either stream
unfoldable pub stage_round : PrefillConfig → ℕ → ℕ → List ℕ → Sets → Result PrefillError Sets
stage_round c i layer rnd s = do
  (calls', last) ← round_calls c i layer rnd (s.at i)
  let sc : Scratch = record {
    staged = rnd;
    table = (s.at i).table;
    pool = repack (record_ptrs (c.v) rnd) ((s.at i).pool);
    tail_last = last;
  }
  ok (put_set i sc calls' s)

-- `table.fill_(-1)` and `table[rnd] = arange(len(rnd))`
unfoldable pub write_slots : ℕ → List ℕ → SlotTable → SlotTable
write_slots j [] table = table
write_slots j (e ∷ rnd) table = write_slots (suc j) rnd (update table e (some j))

unfoldable pub same_list : List ℕ → List ℕ → Bool
same_list [] [] = true
same_list [] (y ∷ ys) = false
same_list (x ∷ xs) [] = false
same_list (x ∷ xs) (y ∷ ys) = x == y && same_list xs ys

-- What a run reads for a pair
unfoldable pub read : Pool → Option ℕ → Option Record
read pool none = none
read pool (some slot) = pool slot

-- The records that a call's output has had added, by pair
abbrev pub Output : Type 0
Output = List (List (List Record))

unfoldable pub add_read : List Record → Option Record → List Record
add_read records none = records
add_read records (some r) = records ++ r ∷ []

-- A run into a buffer, and `output.add_`
unfoldable pub add_row : Pool → List (Option ℕ) → List (List Record) → List (List Record)
add_row pool (slot ∷ slots) (records ∷ out) =
    add_read records (read pool slot) ∷ add_row pool slots out
add_row pool slots out = []

unfoldable pub add_run : Pool → Ids → Output → Output
add_run pool (slots ∷ rows) (out ∷ outs) = add_row pool slots out ∷ add_run pool rows outs
add_run pool rows outs = []

-- `[missing[r0:r0 + n] for r0 in range(0, len(missing), n)]`; the fuel is at least the number of missing experts
unfoldable pub rounds_of : ℕ → ℕ → List ℕ → List (List ℕ)
rounds_of zero n missing = []
rounds_of (suc fuel) n [] = []
rounds_of (suc fuel) n (e ∷ es) = take n (e ∷ es) ∷ rounds_of fuel n (drop n (e ∷ es))

-- `sc_of_round`
unfoldable pub set_of_round : Bool → ℕ → ℕ
set_of_round overlapped r = if overlapped then r % 2 else 0

-- The next round, staged ahead
unfoldable pub stage_next :
    PrefillConfig → Bool → ℕ → ℕ → List (List ℕ) → Sets → Result PrefillError Sets
stage_next c overlapped layer r [] s = ok s
stage_next c overlapped layer r (next ∷ rounds) s =
    if overlapped
    then (do
      s' ← stage_round c (set_of_round overlapped (suc r)) layer next s
      ok (count_prefetch s'))
    else ok s

-- The extra run of a round on its set: the table, the ids, the run, and the sum
unfoldable pub run_round : PrefillConfig → ℕ → List ℕ → Ids → Sets × Output → Sets × Output
run_round c i rnd ids (s, out) =
    let table' = write_slots 0 rnd (λ e. none) in
    let sc : Scratch = record {
      staged = (s.at i).staged;
      table = table';
      pool = (s.at i).pool;
      tail_last = (s.at i).tail_last;
    } in
    (put_set i sc [] s, add_run (sc.pool) (map_rows (through (c.v) table') ids) out)

-- The loop of `_run_rounds` from the round `r` on. With overlap each round is staged by now.
unfoldable pub run_rounds :
    PrefillConfig
    → Bool
    → ℕ
    → Ids
    → ℕ
    → List (List ℕ)
    → Sets × Output
    → Result PrefillError (Sets × Output)
run_rounds c overlapped layer ids r [] (s, out) = ok (s, out)
run_rounds c overlapped layer ids r (rnd ∷ rounds) (s, out) = do
  let i = set_of_round overlapped r
  s1 ← if overlapped then ok s else stage_round c i layer rnd s
  guard (same_list ((s1.at i).staged) rnd) not_staged
  s2 ← stage_next c overlapped layer r rounds s1
  guard (has_vidx (c.v) ids) size_mismatch
  run_rounds c overlapped layer ids (suc r) rounds (run_round c i rnd ids (s2, out))
