-- ===== src/Pipe/Isolation/Frame.antt =====
-- What the work of one group of a `PipeStep` leaves of the other one.
use mathlib.Core.Path.{subst}
use v_llm_moet.Prelude.{
  ◌≡◌, refl, sym, Bool, true, false, Option, none, some, List, [], ◌∷◌, if◌then◌else◌,
}
use v_llm_moet.Pipe.{
  Turn, first, second, other, Kind, comm, replay, Call, issue, set_context, set_pin, phase_begin,
  phase_end, replay_begin, replay_end, yield_point, raise, Control, waiting, running, finished,
  Issued, PipeStep, put, set_group, set_wake, resume, save, take_turn, leave, yield_to, hand_over,
  order_violated, open_phase, end_phase, close_phase, close_replay, yield_inside, issue_kernel,
  call, work,
}
use v_llm_moet.Pipe.Turns.{IsAway}
use v_llm_moet.Pipe.Isolation.Alone.{IsFaithful, issued_then, Faithful, carry}

-- In `t` group `g` is as in `s`, but for its wake-up.
abbrev pub IsFramed : Turn → PipeStep → PipeStep → Type 0
IsFramed g s t =
    (w : Bool) × (t.group g ≡ record (s.group g) { wake = w })
    × ((rest : List Issued) → issued_then g t.log rest ≡ issued_then g s.log rest)

pub framed :
    (b : Bool) (g : Turn) (total : List Issued) (s t : PipeStep)
    → IsAway (s.group g)
    → IsFramed g s t
    → Faithful b g total s
    → Faithful b g total t
framed b g total s t a (w, e, l) h =
    subst (λ x. IsFaithful b g total x t.globals t.log) (sym e)
      (carry b g total (s.group g) s.globals t.globals s.log t.log w a l h)

pub leave-IsFramed :
    (s : PipeStep) (g : Turn) (error : Bool) → IsFramed (other g) s (leave s g error)
unfolding leave set_group set_wake put other
leave-IsFramed s first e = (true, refl, λ rest. refl)
leave-IsFramed s second e = (true, refl, λ rest. refl)

pub hand_over-IsFramed :
    (s : PipeStep) (g : Turn) (c : Control) → IsFramed (other g) s (yield_to (save s g) g c)
unfolding yield_to save resume set_group set_wake put other
hand_over-IsFramed s first finished = (_, refl, λ rest. refl)
hand_over-IsFramed s second finished = (_, refl, λ rest. refl)
hand_over-IsFramed s first waiting = (true, refl, λ rest. refl)
hand_over-IsFramed s second waiting = (true, refl, λ rest. refl)
hand_over-IsFramed s first running = (true, refl, λ rest. refl)
hand_over-IsFramed s second running = (true, refl, λ rest. refl)

pub if-IsFramed :
    (b : Bool) (g : Turn) (s t u : PipeStep)
    → IsFramed g s t
    → IsFramed g s u
    → IsFramed g s (if b then t else u)
if-IsFramed true g s t u ht hu = ht
if-IsFramed false g s t u ht hu = hu

pub same-IsFramed : (s : PipeStep) (g : Turn) → IsFramed g s s
same-IsFramed s g = (_, refl, λ rest. refl)

pub close_phase-IsFramed :
    (s : PipeStep) (g : Turn) (phase : Option Kind) → IsFramed (other g) s (close_phase s g phase)
unfolding close_phase end_phase hand_over set_group put other
close_phase-IsFramed s g none = same-IsFramed s _
close_phase-IsFramed s first (some k) =
    let e = end_phase s first in
    if-IsFramed (order_violated e first) second s (leave e first true) (hand_over e first)
      (leave-IsFramed e first true) (hand_over-IsFramed e first _)
close_phase-IsFramed s second (some k) =
    let e = end_phase s second in
    if-IsFramed (order_violated e second) first s (leave e second true) (hand_over e second)
      (leave-IsFramed e second true) (hand_over-IsFramed e second _)

pub close_replay-IsFramed :
    (s : PipeStep) (g : Turn) (phase : Option Kind) → IsFramed (other g) s (close_replay s g phase)
unfolding close_replay
close_replay-IsFramed s g none = same-IsFramed s _
close_replay-IsFramed s g (some comm) = same-IsFramed s _
close_replay-IsFramed s g (some replay) = close_phase-IsFramed s g (some replay)

pub yield_inside-IsFramed :
    (s : PipeStep) (g : Turn) (phase : Option Kind) → IsFramed (other g) s (yield_inside s g phase)
unfolding yield_inside hand_over
yield_inside-IsFramed s g none = hand_over-IsFramed s g _
yield_inside-IsFramed s g (some comm) = same-IsFramed s _
yield_inside-IsFramed s g (some replay) = hand_over-IsFramed s g _

pub open_phase-IsFramed :
    (s : PipeStep) (g : Turn) (kind : Kind) (phase : Option Kind)
    → IsFramed (other g) s (open_phase s g kind phase)
unfolding open_phase set_group put other
open_phase-IsFramed s g kind (some k) = leave-IsFramed s g true
open_phase-IsFramed s first kind none = (_, refl, λ rest. refl)
open_phase-IsFramed s second kind none = (_, refl, λ rest. refl)

pub call-IsFramed :
    (b : Bool) (s : PipeStep) (g : Turn) (c : Call) → IsFramed (other g) s (call b s g c)
unfolding call issue_kernel other issued_then
call-IsFramed b s first (issue k) = (_, refl, λ rest. refl)
call-IsFramed b s second (issue k) = (_, refl, λ rest. refl)
call-IsFramed b s g (set_context k) = (_, refl, λ rest. refl)
call-IsFramed b s g (set_pin k) = (_, refl, λ rest. refl)
call-IsFramed b s g phase_begin = open_phase-IsFramed s g comm _
call-IsFramed b s g phase_end = close_phase-IsFramed s g _
call-IsFramed b s g replay_begin =
    if-IsFramed b _ s (open_phase s g replay (s.group g).phase) s (open_phase-IsFramed s g replay _)
      (same-IsFramed s _)
call-IsFramed b s g replay_end = close_replay-IsFramed s g _
call-IsFramed b s g yield_point =
    if-IsFramed b _ s (yield_inside s g (s.group g).phase) s (yield_inside-IsFramed s g _)
      (same-IsFramed s _)
call-IsFramed b s g raise = leave-IsFramed s g true

pub work-IsFramed :
    (b : Bool) (s : PipeStep) (g : Turn) (todo : List Call) → IsFramed (other g) s (work b s g todo)
unfolding work set_group put other
work-IsFramed b s g [] = leave-IsFramed s g false
work-IsFramed b s first (c ∷ cs) =
    call-IsFramed b (set_group s first (record (s.group first) { todo = cs })) first c
work-IsFramed b s second (c ∷ cs) =
    call-IsFramed b (set_group s second (record (s.group second) { todo = cs })) second c

pub take_turn-IsFramed : (s : PipeStep) (g : Turn) → IsFramed (other g) s (take_turn s g)
unfolding take_turn resume set_group put other
take_turn-IsFramed s first = (_, refl, λ rest. refl)
take_turn-IsFramed s second = (_, refl, λ rest. refl)
