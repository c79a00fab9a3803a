-- ===== src/Pipe/Progress/Weight.antt =====
-- The steps that the threads of a `PipeStep` can still make.
use v_llm_moet.Prelude.{
  ℕ, ◌+◌, ◌*◌, ◌<◌, ◌≤◌, ◌≡◌, refl, ap, ◌⊎◌, inl, inr, Bool, true, false, Option, none, some, List,
  [], ◌∷◌, if◌then◌else◌, arith, length,
}
use v_llm_moet.Pipe.{
  settle, Turn, first, second, other, Kind, comm, replay, Call, issue, set_context, set_pin,
  phase_begin, phase_end, replay_begin, replay_end, yield_point, raise, Control, waiting, running,
  finished, PipeGroup, PipeStep, put, set_group, set_wake, resume, save, take_turn, leave, yield_to,
  hand_over, order_violated, open_phase, end_phase, close_phase, close_replay, yield_inside,
  issue_kernel, call, work, advance,
}
use v_llm_moet.Pipe.Turns.{IsAway}

-- How many steps a thread can still make, by where it is and the calls that it has left.
unfoldable pub size : Control → ℕ → ℕ
size finished calls = 0
size running calls = 2 * calls + 1
size waiting calls = 2 * calls + 2

abbrev pub group_size : PipeGroup → ℕ
group_size x = size x.control (length x.todo)

abbrev pub weight : PipeStep → ℕ
weight s = group_size (s.group first) + group_size (s.group second)

-- A call makes no more than one step, the next turn, of its own.
abbrev pub IsSmall : PipeStep → PipeStep → Type 0
IsSmall s t = weight t ≤ weight s + 1

pub leave-weight : (s : PipeStep) (g : Turn) (error : Bool) → weight (leave s g error) ≤ weight s
unfolding leave set_group set_wake put other size
leave-weight s first e = ground arith
leave-weight s second e = ground arith

-- What a thread that runs costs.
pub running_size : (c : Control) (n : ℕ) → c ≡ running → size c n ≡ 2 * n + 1
unfolding size
running_size c n r = ap (λ d. size d n) r

pub yield_to-weight :
    (s : PipeStep) (g : Turn) (c : Control)
    → (s.group g).control ≡ running
    → weight (yield_to s g c) ≤ weight s + 1
unfolding yield_to set_group set_wake resume put other size
yield_to-weight s first finished r = omega arith
yield_to-weight s second finished r = omega arith
yield_to-weight s first waiting r =
    let e = running_size _ (length (s.group first).todo) r in omega arith
yield_to-weight s second waiting r =
    let e = running_size _ (length (s.group second).todo) r in omega arith
yield_to-weight s first running r =
    let e = running_size _ (length (s.group first).todo) r in omega arith
yield_to-weight s second running r =
    let e = running_size _ (length (s.group second).todo) r in omega arith

pub hand_over-weight :
    (s : PipeStep) (g : Turn)
    → (s.group g).control ≡ running
    → weight (hand_over s g) ≤ weight s + 1
unfolding hand_over save set_group put other
hand_over-weight s first r = yield_to-weight (save s first) first _ r
hand_over-weight s second r = yield_to-weight (save s second) second _ r

pub if-weight :
    (b : Bool) (s t : PipeStep) (n : ℕ)
    → weight s ≤ n
    → weight t ≤ n
    → weight (if b then s else t) ≤ n
if-weight true s t n hs ht = hs
if-weight false s t n hs ht = ht

pub close_phase-weight :
    (s : PipeStep) (g : Turn) (phase : Option Kind)
    → (s.group g).control ≡ running
    → weight (close_phase s g phase) ≤ weight s + 1
unfolding close_phase end_phase set_group put
close_phase-weight s g none r = omega arith
close_phase-weight s first (some k) r =
    let low = leave-weight (end_phase s first) first true in
    if-weight (order_violated (end_phase s first) first) (leave (end_phase s first) first true)
      (hand_over (end_phase s first) first) _ (omega arith)
      (hand_over-weight (end_phase s first) first r)
close_phase-weight s second (some k) r =
    let low = leave-weight (end_phase s second) second true in
    if-weight (order_violated (end_phase s second) second) (leave (end_phase s second) second true)
      (hand_over (end_phase s second) second) _ (omega arith)
      (hand_over-weight (end_phase s second) second r)

pub close_replay-weight :
    (s : PipeStep) (g : Turn) (phase : Option Kind)
    → (s.group g).control ≡ running
    → weight (close_replay s g phase) ≤ weight s + 1
unfolding close_replay
close_replay-weight s g none r = omega arith
close_replay-weight s g (some comm) r = omega arith
close_replay-weight s g (some replay) r = close_phase-weight s g (some replay) r

pub yield_inside-weight :
    (s : PipeStep) (g : Turn) (phase : Option Kind)
    → (s.group g).control ≡ running
    → weight (yield_inside s g phase) ≤ weight s + 1
unfolding yield_inside
yield_inside-weight s g none r = hand_over-weight s g r
yield_inside-weight s g (some comm) r = omega arith
yield_inside-weight s g (some replay) r = hand_over-weight s g r

pub open_phase-weight :
    (s : PipeStep) (g : Turn) (kind : Kind) (phase : Option Kind)
    → weight (open_phase s g kind phase) ≤ weight s + 1
unfolding open_phase set_group put
open_phase-weight s g kind (some k) = let low = leave-weight s g true in omega arith
open_phase-weight s first kind none = omega arith
open_phase-weight s second kind none = omega arith

pub call-weight :
    (streamed : Bool) (s : PipeStep) (g : Turn) (c : Call)
    → (s.group g).control ≡ running
    → weight (call streamed s g c) ≤ weight s + 1
unfolding call issue_kernel
call-weight b s g (issue k) r = omega arith
call-weight b s g (set_context k) r = omega arith
call-weight b s g (set_pin k) r = omega arith
call-weight b s g phase_begin r = open_phase-weight s g comm _
call-weight b s g phase_end r = close_phase-weight s g _ r
call-weight b s g replay_begin r =
    if-weight b (open_phase s g replay (s.group g).phase) s _ (open_phase-weight s g replay _)
      (omega arith)
call-weight b s g replay_end r = close_replay-weight s g _ r
call-weight b s g yield_point r =
    if-weight b (yield_inside s g (s.group g).phase) s _ (yield_inside-weight s g _ r) (omega arith)
call-weight b s g raise r = let low = leave-weight s g true in omega arith

pub last_step-weight :
    (s : PipeStep) (g : Turn) → (s.group g).control ≡ running → weight (leave s g false) < weight s
unfolding leave set_group set_wake put other size
last_step-weight s first r = let e = running_size _ (length (s.group first).todo) r in omega arith
last_step-weight s second r = let e = running_size _ (length (s.group second).todo) r in omega arith

-- The program without its next call.
abbrev pub popped : PipeStep → Turn → List Call → PipeStep
popped s g cs = set_group s g (record (s.group g) { todo = cs })

pub popped-weight :
    (s : PipeStep) (g : Turn) (c : Call) (cs : List Call)
    → (s.group g).control ≡ running
    → (s.group g).todo ≡ c ∷ cs
    → weight (popped s g cs) + 2 ≤ weight s
unfolding set_group put
popped-weight s first c cs r e =
    let l = ap length e in
    let before = running_size _ (length (s.group first).todo) r in
    let after = running_size _ (length cs) r in omega arith
popped-weight s second c cs r e =
    let l = ap length e in
    let before = running_size _ (length (s.group second).todo) r in
    let after = running_size _ (length cs) r in omega arith

-- A thread that runs gets nearer to its end.
pub work-weight :
    (streamed : Bool) (s : PipeStep) (g : Turn) (todo : List Call)
    → (s.group g).control ≡ running
    → (s.group g).todo ≡ todo
    → weight (work streamed s g todo) < weight s
unfolding work set_group put
work-weight b s g [] r e = last_step-weight s g r
work-weight b s first (c ∷ cs) r e =
    let fewer = popped-weight s first c cs r e in
    let next = call-weight b (popped s first cs) first c r in omega arith
work-weight b s second (c ∷ cs) r e =
    let fewer = popped-weight s second c cs r e in
    let next = call-weight b (popped s second cs) second c r in omega arith

pub take_turn-weight :
    (s : PipeStep) (g : Turn) → (s.group g).control ≡ waiting → weight (take_turn s g) < weight s
unfolding take_turn set_group resume put size
take_turn-weight s first c = let e = ap (λ d. size d (length (s.group first).todo)) c in omega arith
take_turn-weight s second c =
    let e = ap (λ d. size d (length (s.group second).todo)) c in omega arith

pub settle_if-weight :
    (w : Bool) (s t : PipeStep)
    → weight t < weight s
    → weight (settle (if w then some t else none) s) ≤ weight s
unfolding settle
settle_if-weight true s t h = omega arith
settle_if-weight false s t h = omega arith

pub advance-weight :
    (streamed : Bool) (s : PipeStep) (g : Turn) (c : Control)
    → (s.group g).control ≡ c
    → weight (settle (advance streamed s g c) s) ≤ weight s
unfolding settle advance
advance-weight b s g finished e = omega arith
advance-weight b s g waiting e =
    settle_if-weight (s.group g).wake s (take_turn s g) (take_turn-weight s g e)
advance-weight b s g running e = let h = work-weight b s g _ e refl in omega arith

-- A thread that can move makes a step.
abbrev pub CanMove : PipeStep → Turn → Type 0
CanMove s g =
    ((s.group g).control ≡ running) ⊎ (((s.group g).control ≡ waiting) × ((s.group g).wake ≡ true))

pub settle_moved-weight :
    (w : Bool) (s t : PipeStep)
    → w ≡ true
    → weight t < weight s
    → weight (settle (if w then some t else none) s) < weight s
unfolding settle
settle_moved-weight true s t e h = h
settle_moved-weight false s t e h = absurd (ground arith)

pub moved-weight :
    (streamed : Bool) (s : PipeStep) (g : Turn) (c : Control)
    → (s.group g).control ≡ c
    → CanMove s g
    → weight (settle (advance streamed s g c) s) < weight s
unfolding settle advance
moved-weight b s g finished e (inl r) = absurd (ground arith)
moved-weight b s g finished e (inr (r, w)) = absurd (ground arith)
moved-weight b s g waiting e (inl r) = absurd (ground arith)
moved-weight b s g waiting e (inr (r, w)) =
    settle_moved-weight (s.group g).wake s (take_turn s g) w (take_turn-weight s g e)
moved-weight b s g running e h = work-weight b s g _ e refl

-- A thread that is parked or has finished lets its turn pass.
pub settle_stuck :
    (w : Bool) (s t : PipeStep) → w ≡ false → settle (if w then some t else none) s ≡ s
unfolding settle
settle_stuck false s t e = refl
settle_stuck true s t e = absurd (ground arith)

pub advance_stuck :
    (streamed : Bool) (s : PipeStep) (g : Turn) (c : Control)
    → (s.group g).control ≡ c
    → IsAway (s.group g)
    → settle (advance streamed s g c) s ≡ s
unfolding settle advance
advance_stuck b s g finished e h = refl
advance_stuck b s g waiting e (inl (c, w)) = settle_stuck (s.group g).wake s (take_turn s g) w
advance_stuck b s g waiting e (inr f) = absurd (ground arith)
advance_stuck b s g running e (inl (c, w)) = absurd (ground arith)
advance_stuck b s g running e (inr f) = absurd (ground arith)
