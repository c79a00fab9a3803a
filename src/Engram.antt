-- ===== src/Engram.antt =====
-- The prefill lookahead of Engram v2: Lookahead.on_schedule of
-- tools/dsv41_5090/engram_v2/engram_v2.py.
pub mod Ahead
pub mod Queued
mod Tests
use v_llm_moet.Prelude.{
  ℕ, ◌+◌, ◌*◌, Bool, true, false, Option, none, some, List, [], ◌∷◌, ◌++◌, ltb, leb, if◌then◌else◌,
  length, min, max, Text, Dict, lookup, insert, without,
}

-- An entry of `reqs`.
pub record Request : Type 0 where
  pub prompt : List ℕ
  pub queued_to : ℕ

-- Positions of a prompt whose rows the helper thread is to read.
pub record Job : Type 0 where
  pub prompt : List ℕ
  pub start : ℕ
  pub end : ℕ

-- What on_schedule does outside its own state: a job for the helper thread, or prefetch_clear.
pub data Action : Type 0 where
  queue : Job → Action
  prefetch_clear : Action

pub record NewRequest : Type 0 where
  pub req_id : Text
  pub prompt_token_ids : Option (List ℕ)
  pub num_computed_tokens : ℕ

-- What is read of a scheduler output.
pub record Schedule : Type 0 where
  pub scheduled_new_reqs : List NewRequest
  pub num_scheduled_tokens : Dict ℕ
  pub scheduled_cached_reqs : List (Text × ℕ)
  pub finished_req_ids : List Text

pub record State : Type 0 where
  pub reqs : Dict Request
  pub actions : List Action

-- The chunk's tokens, and the chunks ahead.
pub record Config : Type 0 where
  pub chunk : ℕ
  pub ahead : ℕ

-- A request with a prompt of more than a chunk is followed.
unfoldable pub add_new : Config → NewRequest → State → State
unfolding insert
add_new c r s = elim r.prompt_token_ids [
  | none ↦ s
  | some ids ↦
      if leb (length ids) c.chunk
      then s
      else record s { reqs = insert r.req_id record { prompt = ids; queued_to = 0 } s.reqs }
]

unfoldable pub add_all : Config → List NewRequest → State → State
unfolding add_new
add_all c [] s = s
add_all c (r ∷ rs) s = add_all c rs (add_new c r s)

-- `computed`, from the new and then the cached requests
unfoldable pub computed_new : List NewRequest → Dict ℕ → Dict ℕ
unfolding insert
computed_new [] d = d
computed_new (r ∷ rs) d = computed_new rs (insert r.req_id r.num_computed_tokens d)

unfoldable pub computed_cached : List (Text × ℕ) → Dict ℕ → Dict ℕ
unfolding insert
computed_cached [] d = d
computed_cached ((rid, n) ∷ rs) d = computed_cached rs (insert rid n d)

-- The part of a prompt to queue, from `pos` on: the job's start and end.
unfoldable pub window : Config → Request → ℕ → ℕ × ℕ
window c r pos = (max pos r.queued_to, min (length r.prompt) (pos + c.ahead * c.chunk))

-- A request whose next position is `pos`, within its prompt.
unfoldable pub look_ahead : Config → Request → ℕ → Request × List Job
unfolding window
look_ahead c r pos =
    let (start, end) = window c r pos in
    if ltb start end
    then (record r { queued_to = end }, record { prompt = r.prompt; start = start; end = end } ∷ [])
    else (r, [])

abbrev pub or_zero : Option ℕ → ℕ
or_zero = elim [ none ↦ 0 | some n ↦ n ]

unfoldable pub queue_all : List Job → List Action
queue_all [] = []
queue_all (j ∷ js) = queue j ∷ queue_all js

-- A scheduled request that is followed: through, or looked ahead.
unfoldable pub advance : Config → Text → Request → ℕ → State → State
unfolding look_ahead without insert queue_all
advance c rid r pos s =
    if leb (length r.prompt) pos
    then record { reqs = without rid s.reqs; actions = s.actions ++ prefetch_clear ∷ [] }
    else let (r', jobs) = look_ahead c r pos in
      record { reqs = insert rid r' s.reqs; actions = s.actions ++ queue_all jobs }

unfoldable pub advance_all : Config → Dict ℕ → Dict ℕ → State → State
unfolding advance lookup
advance_all c computed [] s = s
advance_all c computed ((rid, n) ∷ sched) s = elim (lookup rid s.reqs) [
  | none ↦ advance_all c computed sched s
  | some r ↦ advance_all c computed sched (advance c rid r (or_zero (lookup rid computed) + n) s)
]

unfoldable pub finish : Text → State → State
unfolding lookup without
finish rid s = elim (lookup rid s.reqs) [
  | none ↦ s
  | some r ↦ record { reqs = without rid s.reqs; actions = s.actions ++ prefetch_clear ∷ [] }
]

unfoldable pub finish_all : List Text → State → State
unfolding finish
finish_all [] s = s
finish_all (rid ∷ rids) s = finish_all rids (finish rid s)

-- `on_schedule`
unfoldable pub on_schedule : Config → Schedule → State → State
unfolding add_all computed_new computed_cached advance_all finish_all
on_schedule c so s =
    let computed =
      computed_cached so.scheduled_cached_reqs (computed_new so.scheduled_new_reqs []) in
    let followed = add_all c so.scheduled_new_reqs s in
    finish_all so.finished_req_ids (advance_all c computed so.num_scheduled_tokens followed)
