-- ===== src/Engram/Queued.antt =====
-- What on_schedule leaves in its table and in the queue.
use mathlib.Core.Path.{subst}
use v_llm_moet.Prelude.{
  ℕ, ◌+◌, ◌*◌, ◌≤◌, ◌<◌, ◌≡◌, some, List, [], ◌∷◌, ◌++◌, ltb, leb, arith, length, Text, text_eq,
  Dict, lookup, insert, without, Bool-cases, Option-cases, inl, inr,
}
use v_llm_moet.Engram.{
  Request, Job, Action, queue, prefetch_clear, NewRequest, Schedule, State, Config, add_new,
  add_all, computed_new, computed_cached, window, look_ahead, or_zero, queue_all, advance,
  advance_all, finish, finish_all, on_schedule,
}
use v_llm_moet.Engram.Ahead.{window-bounds}

-- A followed request has a prompt of more than a chunk, and is queued within it.
abbrev pub IsFollowed : Config → Request → Type 0
IsFollowed c r = (c.chunk < length r.prompt) × (r.queued_to ≤ length r.prompt)

-- A job is a nonempty part of its prompt, of at most the chunks ahead.
abbrev pub IsJob : Config → Job → Type 0
IsJob c j = (j.start < j.end) × (j.end ≤ length j.prompt) × (j.end ≤ j.start + c.ahead * c.chunk)

abbrev pub AllFollowed : Config → Dict Request → Type 0
AllFollowed c [] = Unit
AllFollowed c ((rid, r) ∷ d) = IsFollowed c r × AllFollowed c d

abbrev pub AllJobs : Config → List Action → Type 0
AllJobs c [] = Unit
AllJobs c (queue j ∷ as') = IsJob c j × AllJobs c as'
AllJobs c (prefetch_clear ∷ as') = AllJobs c as'

abbrev pub IsState : Config → State → Type 0
IsState c s = AllFollowed c s.reqs × AllJobs c s.actions

module _ (c : Config) where
  lookup-IsFollowed :
      (rid : Text) (d : Dict Request) (r : Request)
      → AllFollowed c d
      → lookup rid d ≡ some r
      → IsFollowed c r
  unfolding lookup
  lookup-IsFollowed rid [] r h found = cc
  lookup-IsFollowed rid ((k, r') ∷ d) r (first, rest) found = elim (Bool-cases (text_eq k rid)) [
    | inl same ↦
        let made = rw (lookup, same) at found in
        let equal : r' ≡ r = cc in subst (IsFollowed c) equal first
    | inr differs ↦ lookup-IsFollowed rid d r rest (rw (lookup, differs) at found)
  ]

  insert-AllFollowed :
      (rid : Text) (r : Request) (d : Dict Request)
      → IsFollowed c r
      → AllFollowed c d
      → AllFollowed c (insert rid r d)
  unfolding insert
  insert-AllFollowed rid r [] new h = (new, tt)
  insert-AllFollowed rid r ((k, r') ∷ d) new (first, rest) = elim (Bool-cases (text_eq k rid)) [
    | inl same ↦ rw same (new, rest)
    | inr differs ↦ rw differs (first, insert-AllFollowed rid r d new rest)
  ]

  without-AllFollowed :
      (rid : Text) (d : Dict Request) → AllFollowed c d → AllFollowed c (without rid d)
  unfolding without
  without-AllFollowed rid [] h = tt
  without-AllFollowed rid ((k, r') ∷ d) (first, rest) = elim (Bool-cases (text_eq k rid)) [
    | inl same ↦ rw same (without-AllFollowed rid d rest)
    | inr differs ↦ rw differs (first, without-AllFollowed rid d rest)
  ]

  append-AllJobs : (as' bs : List Action) → AllJobs c as' → AllJobs c bs → AllJobs c (as' ++ bs)
  append-AllJobs [] bs h h' = h'
  append-AllJobs (queue j ∷ as') bs (first, rest) h' = (first, append-AllJobs as' bs rest h')
  append-AllJobs (prefetch_clear ∷ as') bs h h' = append-AllJobs as' bs h h'

  add_new-IsState : (r : NewRequest) (s : State) → IsState c s → IsState c (add_new c r s)
  unfolding add_new
  add_new-IsState r s (followed, jobs) = elim (Option-cases r.prompt_token_ids) [
    | inl no_prompt ↦ rw (add_new, no_prompt) (followed, jobs)
    | inr (ids, there) ↦
        rw (add_new, there)
          (elim (Bool-cases (leb (length ids) c.chunk)) [
            | inl short ↦ rw short (followed, jobs)
            | inr long ↦ rw long (
              insert-AllFollowed r.req_id record { prompt = ids; queued_to = 0 } s.reqs
                  (ground (arith, long), ground arith) followed,
              jobs,
            )
          ])
  ]

  add_all-IsState : (rs : List NewRequest) (s : State) → IsState c s → IsState c (add_all c rs s)
  unfolding add_all
  add_all-IsState [] s h = h
  add_all-IsState (r ∷ rs) s h = add_all-IsState rs (add_new c r s) (add_new-IsState r s h)

  look_ahead-IsFollowed :
      (r : Request) (pos : ℕ)
      → IsFollowed c r
      → IsFollowed c (look_ahead c r pos).0 × AllJobs c (queue_all (look_ahead c r pos).1)
  unfolding look_ahead queue_all
  look_ahead-IsFollowed r pos (long, within) =
      let (from, after, inside, near) = window-bounds c r pos in
      elim (Bool-cases (ltb (window c r pos).0 (window c r pos).1)) [
        | inl some_left ↦
            rw (look_ahead, some_left)
              (
                (long, inside),
                ((ground (arith, some_left), inside, ground (arith, after, near)), tt),
              )
        | inr none_left ↦ rw (look_ahead, none_left) ((long, within), tt)
      ]

  advance-IsState :
      (rid : Text) (r : Request) (pos : ℕ) (s : State)
      → IsFollowed c r
      → IsState c s
      → IsState c (advance c rid r pos s)
  unfolding advance
  advance-IsState rid r pos s is_followed (followed, jobs) =
      elim (Bool-cases (leb (length r.prompt) pos)) [
        | inl through ↦
            rw (advance, through)
              (
                without-AllFollowed rid s.reqs followed,
                append-AllJobs s.actions (prefetch_clear ∷ []) jobs tt,
              )
        | inr more ↦
            let (next, new_jobs) = look_ahead-IsFollowed r pos is_followed in
            rw (advance, more)
              (
                insert-AllFollowed rid (look_ahead c r pos).0 s.reqs next followed,
                append-AllJobs s.actions (queue_all (look_ahead c r pos).1) jobs new_jobs,
              )
      ]

  advance_all-IsState :
      (computed sched : Dict ℕ) (s : State)
      → IsState c s
      → IsState c (advance_all c computed sched s)
  unfolding advance_all
  advance_all-IsState computed [] s h = h
  advance_all-IsState computed ((rid, n) ∷ sched) s h = elim (Option-cases (lookup rid s.reqs)) [
    | inl unknown ↦ rw (advance_all, unknown) (advance_all-IsState computed sched s h)
    | inr (r, known) ↦
        let pos = or_zero (lookup rid computed) + n in
        let is_followed = lookup-IsFollowed rid s.reqs r h.0 known in
        rw (advance_all, known)
          (advance_all-IsState computed sched (advance c rid r pos s)
            (advance-IsState rid r pos s is_followed h))
  ]

  finish-IsState : (rid : Text) (s : State) → IsState c s → IsState c (finish rid s)
  unfolding finish
  finish-IsState rid s (followed, jobs) = elim (Option-cases (lookup rid s.reqs)) [
    | inl unknown ↦ rw (finish, unknown) (followed, jobs)
    | inr (r, known) ↦
        rw (finish, known)
          (
            without-AllFollowed rid s.reqs followed,
            append-AllJobs s.actions (prefetch_clear ∷ []) jobs tt,
          )
  ]

  finish_all-IsState : (rids : List Text) (s : State) → IsState c s → IsState c (finish_all rids s)
  unfolding finish_all
  finish_all-IsState [] s h = h
  finish_all-IsState (rid ∷ rids) s h =
      finish_all-IsState rids (finish rid s) (finish-IsState rid s h)

  -- on_schedule keeps: each followed request has a prompt of more than a chunk and is queued within
  -- it, and each job that has been queued is a nonempty part of its prompt, of at most the chunks
  -- ahead.
  pub on_schedule-IsState :
      (so : Schedule) (s : State) → IsState c s → IsState c (on_schedule c so s)
  unfolding on_schedule
  on_schedule-IsState so s h =
      let computed =
        computed_cached so.scheduled_cached_reqs (computed_new so.scheduled_new_reqs []) in
      let followed = add_all c so.scheduled_new_reqs s in
      finish_all-IsState so.finished_req_ids
        (advance_all c computed so.num_scheduled_tokens followed)
        (advance_all-IsState computed so.num_scheduled_tokens followed
          (add_all-IsState so.scheduled_new_reqs s h))
