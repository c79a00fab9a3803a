-- ===== src/Pipe/Isolation.antt =====
-- What a group of a `PipeStep` issues does not depend on the other group.
pub mod Alone
mod Frame
mod Own
use mathlib.Core.Path.{subst}
use v_llm_moet.Prelude.{
  ℕ, zero, suc, ◌+◌, ◌≡◌, refl, sym, ap, ◌∙◌, ◌⊎◌, inl, inr, Bool, true, false, Option, none, some,
  List, [], ◌∷◌, if◌then◌else◌, arith, Bool-cases,
}
use v_llm_moet.Pipe.{
  settle, Turn, first, second, other, Kind, comm, replay, Stream, compute, side, Globals, Call,
  issue, set_context, set_pin, phase_begin, phase_end, replay_begin, replay_end, yield_point, raise,
  Control, waiting, running, finished, PipeGroup, Issued, PipeStep, put, set_group, set_wake,
  resume, save, take_turn, leave, yield_to, hand_over, order_violated, open_phase, end_phase,
  close_phase, close_replay, yield_inside, issue_kernel, call, work, advance, step, run_schedule,
  new_group, start,
}
use v_llm_moet.Pipe.Turns.{
  join-After, InTurn, IsAway, IsRunning, IsAwake, IsOver, IsRunning-of_control, IsAwake-of_wake,
  After, moves, stays, if-After, run_schedule_keeps, step-InTurn, run_schedule-InTurn,
}
use v_llm_moet.Pipe.Isolation.Alone.{
  IsFaithful, alone, issued_then, Faithful, carry, failing, complete, paused, active,
}
use v_llm_moet.Pipe.Isolation.Frame.{
  IsFramed, framed, leave-IsFramed, hand_over-IsFramed, if-IsFramed, same-IsFramed,
  close_phase-IsFramed, close_replay-IsFramed, yield_inside-IsFramed, open_phase-IsFramed,
  call-IsFramed, work-IsFramed, take_turn-IsFramed,
}
use v_llm_moet.Pipe.Isolation.Own.{
  IsGoing, raised-Faithful, returned-Faithful, hand_over-Faithful, if-Faithful, still-Faithful,
  close_phase-Faithful, close_replay-Faithful, yield_inside-Faithful, open_comm-Faithful,
  yield_point-Faithful, issue_kernel-Faithful, open_replay-Faithful, replay_begin-Faithful,
  call-Faithful,
}

-- A group that runs, before it takes its next call.
going :
    (b : Bool) (g : Turn) (total : List Issued) (x : PipeGroup) (gl : Globals) (log : List Issued)
    → x.control ≡ running
    → IsFaithful b g total x gl log
    → issued_then g log (alone b g x.todo x.phases_done x.phase gl) ≡ total
going b g total x gl log r (failing c f) = absurd (ground arith)
going b g total x gl log r (complete c h) = absurd (ground arith)
going b g total x gl log r (paused c h) = absurd (ground arith)
going b g total x gl log r (active c h) = h

woken :
    (b : Bool) (g : Turn) (total : List Issued) (x : PipeGroup) (gl : Globals) (log : List Issued)
    → x.control ≡ waiting
    → IsFaithful b g total x gl log
    → issued_then g log (alone b g x.todo x.phases_done x.phase x.saved) ≡ total
woken b g total x gl log r (failing c f) = absurd (ground arith)
woken b g total x gl log r (complete c h) = absurd (ground arith)
woken b g total x gl log r (paused c h) = h
woken b g total x gl log r (active c h) = absurd (ground arith)

work-Faithful :
    (b : Bool) (total : List Issued) (s : PipeStep) (g : Turn) (todo : List Call)
    → IsRunning s g
    → IsGoing b g total s todo (s.group g).phase
    → Faithful b g total (work b s g todo)
unfolding work set_group put other
work-Faithful b total s g [] r h = returned-Faithful b total s g (s.group g).phase h
work-Faithful b total s first (c ∷ cs) r h =
    call-Faithful b total (set_group s first (record (s.group first) { todo = cs })) first c r h
work-Faithful b total s second (c ∷ cs) r h =
    call-Faithful b total (set_group s second (record (s.group second) { todo = cs })) second c r h

take_turn-Faithful :
    (b : Bool) (total : List Issued) (s : PipeStep) (g : Turn)
    → (s.group g).control ≡ waiting
    → Faithful b g total s
    → Faithful b g total (take_turn s g)
unfolding take_turn resume set_group put
take_turn-Faithful b total s first c h = active refl (woken b first total _ _ _ c h)
take_turn-Faithful b total s second c h = active refl (woken b second total _ _ _ c h)

-- Both groups, each with its own total.
abbrev IsIsolated : Bool → (Turn → List Issued) → PipeStep → Type 0
IsIsolated b totals s = (h : Turn) → Faithful b h (totals h) s

-- The group that moves and the other one make up both.
both :
    (b : Bool) (totals : Turn → List Issued) (g : Turn) (s : PipeStep)
    → Faithful b g (totals g) s
    → Faithful b (other g) (totals (other g)) s
    → IsIsolated b totals s
unfolding other
both b totals first s own away first = own
both b totals first s own away second = away
both b totals second s own away first = away
both b totals second s own away second = own

advance-IsIsolated :
    (b : Bool) (totals : Turn → List Issued) (s : PipeStep) (g : Turn) (c : Control)
    → InTurn s
    → IsIsolated b totals s
    → (s.group g).control ≡ c
    → After (IsIsolated b totals) (advance b s g c)
unfolding advance
advance-IsIsolated b totals s g finished t h e = stays
advance-IsIsolated b totals s g waiting t h e = if-After _ _ (λ w.
    both b totals g (take_turn s g) (take_turn-Faithful b (totals g) s g e (h g)) (
      framed b (other g) _ s (take_turn s g) (IsAwake-of_wake g t e w).2 (take_turn-IsFramed s g)
        (h (other g))))
advance-IsIsolated b totals s g running t h e =
    let r = IsRunning-of_control g t e in
    let todo = (s.group g).todo in
    moves (
      both b totals g (work b s g todo)
        (work-Faithful b (totals g) s g todo r (going b g _ _ _ _ e (h g)))
        (framed b (other g) _ s (work b s g todo) r.3 (work-IsFramed b s g todo) (h (other g))))

pub own_kernels : Bool → Turn → List Call → ℕ → List Issued
own_kernels b g program context =
    alone b g program 0 none (record { stream = compute; context = context; pin = none })

abbrev totals_of : Bool → (Turn → List Call) → (Turn → ℕ) → Turn → List Issued
totals_of b programs contexts h = own_kernels b h (programs h) (contexts h)

returned_kernels :
    (b : Bool) (g : Turn) (total : List Issued) (x : PipeGroup) (gl : Globals) (log : List Issued)
    → x.control ≡ finished
    → x.failed ≡ false
    → IsFaithful b g total x gl log
    → issued_then g log [] ≡ total
returned_kernels b g total x gl log e f (failing c f') = absurd (ground arith)
returned_kernels b g total x gl log e f (complete c h) = h
returned_kernels b g total x gl log e f (paused c h) = absurd (ground arith)
returned_kernels b g total x gl log e f (active c h) = absurd (ground arith)

start-IsIsolated :
    (b : Bool) (programs : Turn → List Call) (contexts : Turn → ℕ) (ambient : Globals)
    → IsIsolated b
        (λ h. own_kernels b h (programs h) (contexts h))
        (start programs contexts ambient)
unfolding start new_group put own_kernels issued_then
start-IsIsolated b programs contexts ambient first = paused refl refl
start-IsIsolated b programs contexts ambient second = paused refl refl

-- A group that has returned, under any schedule, has issued the kernels of its program alone: in
-- the same order, each under the same globals and phase count and on its own row buffers.
pub run_schedule_alone :
    (b : Bool) (gs : List Turn) (programs : Turn → List Call) (contexts : Turn → ℕ)
    (ambient : Globals) (g : Turn)
    → ((run_schedule b gs (start programs contexts ambient)).group g).control ≡ finished
    → ((run_schedule b gs (start programs contexts ambient)).group g).failed ≡ false
    → issued_then g (run_schedule b gs (start programs contexts ambient)).log []
      ≡ own_kernels b g (programs g) (contexts g)
unfolding run_schedule step start new_group put
run_schedule_alone b gs programs contexts ambient g done fine =
    let totals = totals_of b programs contexts in
    let kept =
      run_schedule_keeps b (λ s. InTurn s × IsIsolated b totals s)
        (λ s h (t, i).
          join-After (step-InTurn b s h t) (advance-IsIsolated b totals s h _ t i refl))
        gs in
    let end = kept (start programs contexts ambient) (
      run_schedule-InTurn b [] programs contexts ambient,
      start-IsIsolated b programs contexts ambient,
    ) in
    returned_kernels b g _ _ _ _ done fine (end.1 g)
