-- ===== src/Pipe/Progress.antt =====
-- A `PipeStep` whose threads take the CPU in turn comes to its end: no deadlock, and no infinite
-- exchange of turns.
mod Weight
use mathlib.Core.Path.{subst}
use v_llm_moet.Prelude.{
  ℕ, zero, suc, ◌+◌, ◌*◌, ◌<◌, ◌≤◌, ◌≡◌, refl, sym, ap, ◌⊎◌, inl, inr, Bool, true, false, Option,
  none, some, List, [], ◌∷◌, if◌then◌else◌, arith, length,
}
use v_llm_moet.Pipe.{
  settle, Turn, first, second, other, Kind, comm, replay, Globals, Call, issue, set_context,
  set_pin, phase_begin, phase_end, replay_begin, replay_end, yield_point, raise, Control, waiting,
  running, finished, PipeGroup, PipeStep, put, set_group, set_wake, resume, save, take_turn, leave,
  yield_to, hand_over, order_violated, open_phase, end_phase, close_phase, close_replay,
  yield_inside, issue_kernel, call, work, advance, step, run_schedule, new_group, start,
}
use v_llm_moet.Pipe.Turns.{
  InTurn, IsAway, running_turn, awake_turn, over, IsOver, step-InTurn, run_schedule-InTurn,
  settle-After,
}
use v_llm_moet.Pipe.Progress.Weight.{
  size, group_size, weight, IsSmall, leave-weight, running_size, yield_to-weight, hand_over-weight,
  if-weight, close_phase-weight, close_replay-weight, yield_inside-weight, open_phase-weight,
  call-weight, last_step-weight, popped, popped-weight, work-weight, take_turn-weight,
  settle_if-weight, advance-weight, CanMove, settle_moved-weight, moved-weight, settle_stuck,
  advance_stuck,
}

-- The first thread's turn, then the second one's.
abbrev round : Bool → PipeStep → PipeStep
round b s = let s' = settle (step b s first) s in settle (step b s' second) s'

unfoldable pub rounds : ℕ → List Turn
rounds zero = []
rounds (suc n) = first ∷ second ∷ rounds n

turn-InTurn :
    (streamed : Bool) (s : PipeStep) (g : Turn) → InTurn s → InTurn (settle (step streamed s g) s)
turn-InTurn b s g h = settle-After _ s (step-InTurn b s g h) h

first_moves-weight :
    (streamed : Bool) (s : PipeStep) → CanMove s first → weight (round streamed s) < weight s
unfolding step
first_moves-weight b s h =
    let s' = settle (step b s first) s in
    let one = moved-weight b s first _ refl h in
    let two = advance-weight b s' second _ refl in omega arith

second_moves-weight :
    (streamed : Bool) (s : PipeStep)
    → IsAway (s.group first)
    → CanMove s second
    → weight (round streamed s) < weight s
unfolding step
second_moves-weight b s a h =
    let same = advance_stuck b s first _ refl a in
    subst (λ t. weight (settle (step b t second) t) < weight s) (sym same)
      (moved-weight b s second _ refl h)

finished_size : (c : Control) (n : ℕ) → c ≡ finished → size c n ≡ 0
unfolding size
finished_size c n f = ap (λ d. size d n) f

no_size : (c : Control) (n : ℕ) → size c n ≤ 0 → c ≡ finished
unfolding size
no_size finished n h = refl
no_size running n h = absurd (omega arith)
no_size waiting n h = absurd (omega arith)

round-weight :
    (streamed : Bool) (n : ℕ) (s : PipeStep)
    → InTurn s
    → weight s ≤ suc n
    → weight (round streamed s) ≤ n
unfolding other step
round-weight b n s (running_turn first h) low =
    let less = first_moves-weight b s (inl h.0) in omega arith
round-weight b n s (running_turn second (r, w, o, a)) low =
    let less = second_moves-weight b s a (inl r) in omega arith
round-weight b n s (awake_turn first (c, w, a)) low =
    let less = first_moves-weight b s (inr (c, w)) in omega arith
round-weight b n s (awake_turn second (c, w, a)) low =
    let less = second_moves-weight b s a (inr (c, w)) in omega arith
round-weight b n s (over h) low =
    let one = advance-weight b s first _ refl in
    let two = advance-weight b (settle (step b s first) s) second _ refl in
    let left = finished_size _ (length (s.group first).todo) h.0 in
    let right = finished_size _ (length (s.group second).todo) h.1 in omega arith

-- A state without a step left is over.
IsOver-of_weight : (s : PipeStep) → weight s ≤ 0 → IsOver s
IsOver-of_weight s low = (
  no_size _ (length (s.group first).todo) (omega arith),
  no_size _ (length (s.group second).todo) (omega arith),
)

rounds-IsOver :
    (streamed : Bool) (n : ℕ) (s : PipeStep)
    → InTurn s
    → weight s ≤ n
    → IsOver (run_schedule streamed (rounds n) s)
unfolding run_schedule rounds
rounds-IsOver b zero s h low = IsOver-of_weight s low
rounds-IsOver b (suc n) s h low =
    let s' = settle (step b s first) s in
    rounds-IsOver b n (round b s) (turn-InTurn b s' second (turn-InTurn b s first h))
      (round-weight b n s h low)

-- With the threads taking the CPU in turn, a step of `n` and `m` calls is over after 2 (n + m) + 4
-- rounds: both threads have finished, each having returned or raised.
pub run_schedule-IsOver :
    (streamed : Bool) (programs : Turn → List Call) (contexts : Turn → ℕ) (ambient : Globals)
    → IsOver (
        run_schedule streamed
          (rounds (2 * (length (programs first) + length (programs second)) + 4))
          (start programs contexts ambient))
unfolding run_schedule start new_group put size
run_schedule-IsOver b programs contexts ambient =
    rounds-IsOver b _ (start programs contexts ambient)
      (run_schedule-InTurn b [] programs contexts ambient) (omega arith)
