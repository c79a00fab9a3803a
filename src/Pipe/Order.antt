-- ===== src/Pipe/Order.antt =====
-- The order in which the two groups of a `PipeStep` issue their kernels, with the replay on the
-- compute stream (VLLM_MOET_PREFILL_PIPE_REPLAY=serial).
pub mod Pace
use mathlib.Core.Path.{subst}
use v_llm_moet.Prelude.{
  ℕ, ◌+◌, ◌<◌, ◌≤◌, ◌≡◌, refl, sym, ◌⊎◌, inl, inr, Bool, true, false, Option, none, some, List, [],
  ◌∷◌, if◌then◌else◌, arith, All, All-map,
}
use v_llm_moet.Pipe.{
  Turn, first, second, other, Kind, comm, replay, Globals, Call, issue, set_context, set_pin,
  phase_begin, phase_end, replay_begin, replay_end, yield_point, raise, Control, waiting, running,
  finished, PipeGroup, Issued, PipeStep, put, set_group, set_wake, resume, save, take_turn, leave,
  yield_to, hand_over, order_violated, open_phase, end_phase, close_phase, close_replay,
  issue_kernel, call, work, advance, step, run_schedule, new_group, start,
}
use v_llm_moet.Pipe.Turns.{
  join-After, InTurn, IsRunning, IsRunning-of_control, After, moves, stays, if-After,
  run_schedule_keeps, step-InTurn, run_schedule-InTurn,
}
use v_llm_moet.Pipe.Order.Pace.{
  IsBehind, IsOrdered, HasTurn, IsPaced, leave-IsPaced, ahead, close_first-IsPaced,
  close_second-IsPaced, reject_second-IsPaced, if-IsPaced, close_phase-IsPaced,
  close_replay-IsPaced, open_phase-IsPaced, issue_kernel-IsPaced, call-IsPaced, work-IsPaced,
  take_turn-IsPaced,
}

-- Only a kernel that is issued changes the log.
yield_to_log : (s : PipeStep) (g : Turn) (c : Control) → (yield_to s g c).log ≡ s.log
unfolding yield_to set_group set_wake resume
yield_to_log s g finished = refl
yield_to_log s g waiting = refl
yield_to_log s g running = refl

if_log :
    (b : Bool) (s t : PipeStep) (older : List Issued)
    → s.log ≡ older
    → t.log ≡ older
    → (if b then s else t).log ≡ older
if_log true s t older hs ht = hs
if_log false s t older hs ht = ht

close_phase_log :
    (s : PipeStep) (g : Turn) (phase : Option Kind) → (close_phase s g phase).log ≡ s.log
unfolding close_phase leave hand_over save set_group set_wake end_phase
close_phase_log s g none = refl
close_phase_log s g (some k) = if_log _ _ _ _ refl (yield_to_log (save (end_phase s g) g) g _)

close_replay_log :
    (s : PipeStep) (g : Turn) (phase : Option Kind) → (close_replay s g phase).log ≡ s.log
unfolding close_replay
close_replay_log s g none = refl
close_replay_log s g (some comm) = refl
close_replay_log s g (some replay) = close_phase_log s g (some replay)

open_phase_log :
    (s : PipeStep) (g : Turn) (kind : Kind) (phase : Option Kind)
    → (open_phase s g kind phase).log ≡ s.log
unfolding open_phase leave set_group set_wake
open_phase_log s g kind none = refl
open_phase_log s g kind (some k) = refl

issue_kernel-IsOrdered :
    (s : PipeStep) (g : Turn) (k : ℕ)
    → IsRunning s g
    → IsPaced s
    → IsOrdered s.log
    → IsOrdered (issue_kernel s g k).log
unfolding issue_kernel IsOrdered
issue_kernel-IsOrdered s first k (r, w, o, a) (inl f) h = absurd (ground arith)
issue_kernel-IsOrdered s first k r (inr (l, p, q)) h = (λ e. l, h)
issue_kernel-IsOrdered s second k r p h = (λ e. absurd (ground arith), h)

-- Equal logs are ordered alike.
IsOrdered-of_eq : {newer older : List Issued} → newer ≡ older → IsOrdered older → IsOrdered newer
IsOrdered-of_eq e h = subst IsOrdered (sym e) h

call-IsOrdered :
    (s : PipeStep) (g : Turn) (c : Call)
    → IsRunning s g
    → IsPaced s
    → IsOrdered s.log
    → IsOrdered (call false s g c).log
unfolding call leave set_group set_wake
call-IsOrdered s g (issue k) r p h = issue_kernel-IsOrdered s g k r p h
call-IsOrdered s g (set_context k) r p h = h
call-IsOrdered s g (set_pin k) r p h = h
call-IsOrdered s g phase_begin r p h = IsOrdered-of_eq (open_phase_log s g comm _) h
call-IsOrdered s g phase_end r p h = IsOrdered-of_eq (close_phase_log s g _) h
call-IsOrdered s g replay_begin r p h = h
call-IsOrdered s g replay_end r p h = IsOrdered-of_eq (close_replay_log s g _) h
call-IsOrdered s g yield_point r p h = h
call-IsOrdered s g raise r p h = h

work-IsOrdered :
    (s : PipeStep) (g : Turn) (todo : List Call)
    → IsRunning s g
    → IsPaced s
    → IsOrdered s.log
    → IsOrdered (work false s g todo).log
unfolding work leave set_group set_wake put other
work-IsOrdered s g [] r p h = h
work-IsOrdered s first (c ∷ cs) r p h = call-IsOrdered _ first c r p h
work-IsOrdered s second (c ∷ cs) r p h = call-IsOrdered _ second c r p h

abbrev IsInOrder : PipeStep → Type 0
IsInOrder s = InTurn s × (IsPaced s × IsOrdered s.log)

advance-IsInOrder :
    (s : PipeStep) (g : Turn) (c : Control)
    → IsInOrder s
    → (s.group g).control ≡ c
    → After (λ t. IsPaced t × IsOrdered t.log) (advance false s g c)
unfolding advance take_turn resume set_group
advance-IsInOrder s g finished h e = stays
advance-IsInOrder s g waiting (t, (p, o)) e = if-After _ _ (λ w. (take_turn-IsPaced s g w e p, o))
advance-IsInOrder s g running (t, (p, o)) e =
    let r = IsRunning-of_control g t e in moves (work-IsPaced s g _ r p, work-IsOrdered s g _ r p o)

-- With the replay on the compute stream, whatever the programs and the schedule are, no kernel of
-- the first group is issued after a kernel of the second group of the same phase or a later one.
pub run_schedule-IsOrdered :
    (gs : List Turn) (programs : Turn → List Call) (contexts : Turn → ℕ) (ambient : Globals)
    → IsOrdered (run_schedule false gs (start programs contexts ambient)).log
unfolding start new_group put step run_schedule IsOrdered
run_schedule-IsOrdered gs programs contexts ambient =
    let kept =
      run_schedule_keeps false IsInOrder
        (λ s g h. join-After (step-InTurn false s g h.0) (advance-IsInOrder s g _ h refl)) gs in
    let begun = run_schedule-InTurn false [] programs contexts ambient in
    (kept (start programs contexts ambient)
      (begun, (inr (tt, omega arith, λ t. absurd (ground arith)), tt))).1.1
