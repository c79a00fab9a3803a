-- ===== src/Pipe/Turns.antt =====
-- The turns of the two threads of a `PipeStep`.
use v_llm_moet.Prelude.{
  ℕ, ◌≡◌, refl, ◌⊎◌, inl, inr, Bool, true, false, Option, none, some, List, [], ◌∷◌, if◌then◌else◌,
  arith,
}
use v_llm_moet.Pipe.{
  settle, Turn, first, second, other, Kind, comm, replay, Globals, Call, issue, set_context,
  set_pin, phase_begin, phase_end, replay_begin, replay_end, yield_point, raise, Control, waiting,
  running, finished, PipeGroup, PipeStep, put, set_group, set_wake, resume, save, take_turn, leave,
  yield_to, hand_over, open_phase, end_phase, close_phase, close_replay, yield_inside, issue_kernel,
  call, work, advance, step, run_schedule, new_group, start,
}

-- The thread is in `_wait_turn`, and nobody has woken it.
abbrev pub IsParked : PipeGroup → Type 0
IsParked x = (x.control ≡ waiting) × (x.wake ≡ false)

abbrev pub IsAway : PipeGroup → Type 0
IsAway x = IsParked x ⊎ (x.control ≡ finished)

-- Thread `g` runs with its own row storage, and the other one is parked or has finished.
abbrev pub IsRunning : PipeStep → Turn → Type 0
IsRunning s g =
    ((s.group g).control ≡ running)
    × ((s.group g).wake ≡ false)
    × (s.row_group ≡ g)
    × IsAway (s.group (other g))

-- Thread `g` has been woken, and the other one is parked or has finished.
abbrev pub IsAwake : PipeStep → Turn → Type 0
IsAwake s g =
    ((s.group g).control ≡ waiting) × ((s.group g).wake ≡ true) × IsAway (s.group (other g))

abbrev pub IsOver : PipeStep → Type 0
IsOver s = ((s.group first).control ≡ finished) × ((s.group second).control ≡ finished)

pub data InTurn : PipeStep → Type 0 where
  running_turn : {s : PipeStep} → (g : Turn) → IsRunning s g → InTurn s
  awake_turn : {s : PipeStep} → (g : Turn) → IsAwake s g → InTurn s
  over : {s : PipeStep} → IsOver s → InTurn s

leave-InTurn : (s : PipeStep) (g : Turn) (error : Bool) → IsRunning s g → InTurn (leave s g error)
unfolding leave set_group set_wake put other
leave-InTurn s first e (r, w, o, inl (c, p)) = awake_turn second (c, refl, inr refl)
leave-InTurn s first e (r, w, o, inr f) = over (refl, f)
leave-InTurn s second e (r, w, o, inl (c, p)) = awake_turn first (c, refl, inr refl)
leave-InTurn s second e (r, w, o, inr f) = over (f, refl)

yield_to-InTurn :
    (s : PipeStep) (g : Turn) (c : Control)
    → IsRunning s g
    → (s.group (other g)).control ≡ c
    → InTurn (yield_to s g c)
unfolding yield_to set_group set_wake resume put other
yield_to-InTurn s first finished (r, w, o, a) e = running_turn first (r, w, refl, a)
yield_to-InTurn s second finished (r, w, o, a) e = running_turn second (r, w, refl, a)
yield_to-InTurn s first waiting (r, w, o, a) e = awake_turn second (e, refl, inl (refl, w))
yield_to-InTurn s second waiting (r, w, o, a) e = awake_turn first (e, refl, inl (refl, w))
yield_to-InTurn s first running (r, w, o, inl (c, p)) e = ground arith
yield_to-InTurn s first running (r, w, o, inr f) e = ground arith
yield_to-InTurn s second running (r, w, o, inl (c, p)) e = ground arith
yield_to-InTurn s second running (r, w, o, inr f) e = ground arith

hand_over-InTurn : (s : PipeStep) (g : Turn) → IsRunning s g → InTurn (hand_over s g)
unfolding hand_over save set_group put other
hand_over-InTurn s first h = yield_to-InTurn (save s first) first _ h refl
hand_over-InTurn s second h = yield_to-InTurn (save s second) second _ h refl

if-InTurn : (b : Bool) {s t : PipeStep} → InTurn s → InTurn t → InTurn (if b then s else t)
if-InTurn true hs ht = hs
if-InTurn false hs ht = ht

end_phase-IsRunning : (s : PipeStep) (g : Turn) → IsRunning s g → IsRunning (end_phase s g) g
unfolding end_phase set_group put other
end_phase-IsRunning s first h = h
end_phase-IsRunning s second h = h

open_phase-InTurn :
    (s : PipeStep) (g : Turn) (kind : Kind) (phase : Option Kind)
    → IsRunning s g
    → InTurn (open_phase s g kind phase)
unfolding open_phase set_group put other
open_phase-InTurn s g kind (some k) h = leave-InTurn s g true h
open_phase-InTurn s first kind none h = running_turn first h
open_phase-InTurn s second kind none h = running_turn second h

close_phase-InTurn :
    (s : PipeStep) (g : Turn) (phase : Option Kind) → IsRunning s g → InTurn (close_phase s g phase)
unfolding close_phase
close_phase-InTurn s g none h = running_turn g h
close_phase-InTurn s g (some k) h =
    let ended = end_phase-IsRunning s g h in
    if-InTurn _ (leave-InTurn (end_phase s g) g true ended)
      (hand_over-InTurn (end_phase s g) g ended)

close_replay-InTurn :
    (s : PipeStep) (g : Turn) (phase : Option Kind)
    → IsRunning s g
    → InTurn (close_replay s g phase)
unfolding close_replay
close_replay-InTurn s g none h = running_turn g h
close_replay-InTurn s g (some comm) h = running_turn g h
close_replay-InTurn s g (some replay) h = close_phase-InTurn s g (some replay) h

yield_inside-InTurn :
    (s : PipeStep) (g : Turn) (phase : Option Kind)
    → IsRunning s g
    → InTurn (yield_inside s g phase)
unfolding yield_inside
yield_inside-InTurn s g none h = hand_over-InTurn s g h
yield_inside-InTurn s g (some comm) h = running_turn g h
yield_inside-InTurn s g (some replay) h = hand_over-InTurn s g h

call-InTurn :
    (streamed : Bool) (s : PipeStep) (g : Turn) (c : Call)
    → IsRunning s g
    → InTurn (call streamed s g c)
unfolding call issue_kernel
call-InTurn b s g (issue k) h = running_turn g h
call-InTurn b s g (set_context k) h = running_turn g h
call-InTurn b s g (set_pin k) h = running_turn g h
call-InTurn b s g phase_begin h = open_phase-InTurn s g comm _ h
call-InTurn b s g phase_end h = close_phase-InTurn s g _ h
call-InTurn b s g replay_begin h = if-InTurn b (open_phase-InTurn s g replay _ h) (running_turn g h)
call-InTurn b s g replay_end h = close_replay-InTurn s g _ h
call-InTurn b s g yield_point h = if-InTurn b (yield_inside-InTurn s g _ h) (running_turn g h)
call-InTurn b s g raise h = leave-InTurn s g true h

work-InTurn :
    (streamed : Bool) (s : PipeStep) (g : Turn) (todo : List Call)
    → IsRunning s g
    → InTurn (work streamed s g todo)
unfolding work set_group put other
work-InTurn b s g [] h = leave-InTurn s g false h
work-InTurn b s first (c ∷ cs) h = call-InTurn b _ first c h
work-InTurn b s second (c ∷ cs) h = call-InTurn b _ second c h

take_turn-InTurn : (s : PipeStep) (g : Turn) → IsAwake s g → InTurn (take_turn s g)
unfolding take_turn set_group resume put other
take_turn-InTurn s first (c, w, a) = running_turn first (refl, refl, refl, a)
take_turn-InTurn s second (c, w, a) = running_turn second (refl, refl, refl, a)

pub IsRunning-of_control :
    {s : PipeStep} (g : Turn) → InTurn s → (s.group g).control ≡ running → IsRunning s g
unfolding other
IsRunning-of_control first (running_turn first h) e = h
IsRunning-of_control second (running_turn second h) e = h
IsRunning-of_control first (running_turn second (r, w, o, inl (c, p))) e = absurd (ground arith)
IsRunning-of_control first (running_turn second (r, w, o, inr f)) e = absurd (ground arith)
IsRunning-of_control second (running_turn first (r, w, o, inl (c, p))) e = absurd (ground arith)
IsRunning-of_control second (running_turn first (r, w, o, inr f)) e = absurd (ground arith)
IsRunning-of_control first (awake_turn first (c, w, a)) e = absurd (ground arith)
IsRunning-of_control second (awake_turn second (c, w, a)) e = absurd (ground arith)
IsRunning-of_control first (awake_turn second (c, w, inl (d, p))) e = absurd (ground arith)
IsRunning-of_control first (awake_turn second (c, w, inr f)) e = absurd (ground arith)
IsRunning-of_control second (awake_turn first (c, w, inl (d, p))) e = absurd (ground arith)
IsRunning-of_control second (awake_turn first (c, w, inr f)) e = absurd (ground arith)
IsRunning-of_control first (over (f, f')) e = absurd (ground arith)
IsRunning-of_control second (over (f, f')) e = absurd (ground arith)

pub IsAwake-of_wake :
    {s : PipeStep} (g : Turn)
    → InTurn s
    → (s.group g).control ≡ waiting
    → (s.group g).wake ≡ true
    → IsAwake s g
unfolding other
IsAwake-of_wake first (awake_turn first h) e v = h
IsAwake-of_wake second (awake_turn second h) e v = h
IsAwake-of_wake first (awake_turn second (c, w, inl (d, p))) e v = absurd (ground arith)
IsAwake-of_wake first (awake_turn second (c, w, inr f)) e v = absurd (ground arith)
IsAwake-of_wake second (awake_turn first (c, w, inl (d, p))) e v = absurd (ground arith)
IsAwake-of_wake second (awake_turn first (c, w, inr f)) e v = absurd (ground arith)
IsAwake-of_wake first (running_turn first (r, w, o, a)) e v = absurd (ground arith)
IsAwake-of_wake second (running_turn second (r, w, o, a)) e v = absurd (ground arith)
IsAwake-of_wake first (running_turn second (r, w, o, inl (d, p))) e v = absurd (ground arith)
IsAwake-of_wake first (running_turn second (r, w, o, inr f)) e v = absurd (ground arith)
IsAwake-of_wake second (running_turn first (r, w, o, inl (d, p))) e v = absurd (ground arith)
IsAwake-of_wake second (running_turn first (r, w, o, inr f)) e v = absurd (ground arith)
IsAwake-of_wake first (over (f, f')) e v = absurd (ground arith)
IsAwake-of_wake second (over (f, f')) e v = absurd (ground arith)

-- A predicate holds after a step, if there is one.
pub data After (P : PipeStep → Type 0) : Option PipeStep → Type 0 where
  stays : After P none
  moves : {s : PipeStep} → P s → After P (some s)

pub if-After :
    {P : PipeStep → Type 0} (b : Bool) (s : PipeStep)
    → (b ≡ true → P s)
    → After P (if b then some s else none)
if-After true s h = moves (h refl)
if-After false s h = stays

pub join-After :
    {P Q : PipeStep → Type 0} {o : Option PipeStep}
    → After P o
    → After Q o
    → After (λ s. P s × Q s) o
join-After stays q = stays
join-After (moves p) (moves q) = moves (p, q)

-- Whatever thread `g` does next, the turns stay in order.
advance-InTurn :
    (streamed : Bool) (s : PipeStep) (g : Turn) (c : Control)
    → InTurn s
    → (s.group g).control ≡ c
    → After InTurn (advance streamed s g c)
unfolding advance
advance-InTurn b s g finished h e = stays
advance-InTurn b s g waiting h e =
    if-After _ _ (λ w. take_turn-InTurn s g (IsAwake-of_wake g h e w))
advance-InTurn b s g running h e = moves (work-InTurn b s g _ (IsRunning-of_control g h e))

pub step-InTurn :
    (streamed : Bool) (s : PipeStep) (g : Turn) → InTurn s → After InTurn (step streamed s g)
unfolding step
step-InTurn b s g h = advance-InTurn b s g _ h refl

pub settle-After :
    {P : PipeStep → Type 0} (o : Option PipeStep) (s : PipeStep) → After P o → P s → P (settle o s)
unfolding settle
settle-After none s a h = h
settle-After (some t) s (moves h') h = h'

module _ (streamed : Bool) (P : PipeStep → Type 0)
    (keeps : (s : PipeStep) (g : Turn) → P s → After P (step streamed s g)) where
  -- What every step keeps holds after every schedule.
  pub run_schedule_keeps : (gs : List Turn) (s : PipeStep) → P s → P (run_schedule streamed gs s)
  unfolding run_schedule
  run_schedule_keeps [] s h = h
  run_schedule_keeps (g ∷ gs) s h = run_schedule_keeps gs _ (settle-After _ s (keeps s g h) h)

-- In every state that a schedule reaches at most one thread runs, with the row buffers on its own
-- storage; the other one is parked or has finished, so that no wake-up is lost and none is doubled.
pub run_schedule-InTurn :
    (streamed : Bool) (gs : List Turn) (programs : Turn → List Call) (contexts : Turn → ℕ)
    (ambient : Globals)
    → InTurn (run_schedule streamed gs (start programs contexts ambient))
unfolding start new_group put other
run_schedule-InTurn b gs programs contexts ambient =
    run_schedule_keeps b InTurn (step-InTurn b) gs (start programs contexts ambient)
      (awake_turn first (refl, refl, inl (refl, refl)))
