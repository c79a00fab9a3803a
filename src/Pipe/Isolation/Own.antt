-- ===== src/Pipe/Isolation/Own.antt =====
-- The work of the group of a `PipeStep` that runs, against its program alone.
use mathlib.Core.Path.{subst}
use v_llm_moet.Prelude.{
  ℕ, ◌≡◌, refl, sym, Bool, true, false, Option, none, some, List, [], ◌∷◌, if◌then◌else◌,
}
use v_llm_moet.Pipe.{
  Turn, first, second, other, Kind, comm, replay, Call, issue, set_context, set_pin, phase_begin,
  phase_end, replay_begin, replay_end, yield_point, raise, Control, waiting, running, finished,
  Issued, PipeStep, put, set_group, set_wake, resume, save, leave, yield_to, hand_over,
  order_violated, open_phase, end_phase, close_phase, close_replay, yield_inside, issue_kernel,
  call,
}
use v_llm_moet.Pipe.Turns.{IsRunning}
use v_llm_moet.Pipe.Isolation.Alone.{
  alone, issued_then, Faithful, failing, complete, paused, active,
}

-- The group that runs: what it has issued and what `cs` would still issue make up `total`.
abbrev pub IsGoing : Bool → Turn → List Issued → PipeStep → List Call → Option Kind → Type 0
IsGoing b g total s cs phase =
    issued_then g s.log (alone b g cs (s.group g).phases_done phase s.globals) ≡ total

module _ (b : Bool) (total : List Issued) where
  pub raised-Faithful : (s : PipeStep) (g : Turn) → Faithful b g total (leave s g true)
  unfolding leave set_group set_wake put other
  raised-Faithful s first = failing refl refl
  raised-Faithful s second = failing refl refl

  pub returned-Faithful :
      (s : PipeStep) (g : Turn) (phase : Option Kind)
      → IsGoing b g total s [] phase
      → Faithful b g total (leave s g false)
  unfolding leave set_group set_wake put other alone
  returned-Faithful s first phase h = complete refl h
  returned-Faithful s second phase h = complete refl h

  pub hand_over-Faithful :
      (s : PipeStep) (g : Turn) (c : Control)
      → (s.group g).control ≡ running
      → IsGoing b g total s (s.group g).todo (s.group g).phase
      → Faithful b g total (yield_to (save s g) g c)
  unfolding yield_to save resume set_group set_wake put other
  hand_over-Faithful s first finished r h = active r h
  hand_over-Faithful s second finished r h = active r h
  hand_over-Faithful s first waiting r h = paused refl h
  hand_over-Faithful s second waiting r h = paused refl h
  hand_over-Faithful s first running r h = paused refl h
  hand_over-Faithful s second running r h = paused refl h

  pub if-Faithful :
      (test : Bool) (g : Turn) (s t : PipeStep)
      → Faithful b g total s
      → Faithful b g total t
      → Faithful b g total (if test then s else t)
  if-Faithful true g s t hs ht = hs
  if-Faithful false g s t hs ht = ht

  -- A call that leaves the group running.
  pub still-Faithful :
      (s : PipeStep) (g : Turn) (phase : Option Kind)
      → (s.group g).control ≡ running
      → (s.group g).phase ≡ phase
      → IsGoing b g total s (s.group g).todo phase
      → Faithful b g total s
  still-Faithful s g phase r e h = active r (subst (IsGoing b g total s (s.group g).todo) (sym e) h)

  pub close_phase-Faithful :
      (s : PipeStep) (g : Turn) (phase : Option Kind)
      → (s.group g).control ≡ running
      → (s.group g).phase ≡ phase
      → IsGoing b g total s (phase_end ∷ (s.group g).todo) phase
      → Faithful b g total (close_phase s g phase)
  unfolding close_phase end_phase hand_over set_group put alone
  close_phase-Faithful s g none r e h = still-Faithful s g none r e h
  close_phase-Faithful s first (some k) r e h =
      let t = end_phase s first in
      if-Faithful (order_violated t first) first (leave t first true) (hand_over t first)
        (raised-Faithful t first) (hand_over-Faithful t first _ r h)
  close_phase-Faithful s second (some k) r e h =
      let t = end_phase s second in
      if-Faithful (order_violated t second) second (leave t second true) (hand_over t second)
        (raised-Faithful t second) (hand_over-Faithful t second _ r h)

  pub close_replay-Faithful :
      (s : PipeStep) (g : Turn) (phase : Option Kind)
      → (s.group g).control ≡ running
      → (s.group g).phase ≡ phase
      → IsGoing b g total s (replay_end ∷ (s.group g).todo) phase
      → Faithful b g total (close_replay s g phase)
  unfolding close_replay alone
  close_replay-Faithful s g none r e h = still-Faithful s g none r e h
  close_replay-Faithful s g (some comm) r e h = still-Faithful s g (some comm) r e h
  close_replay-Faithful s g (some replay) r e h = close_phase-Faithful s g (some replay) r e h

  -- A hand-over inside a phase, or outside of one.
  pub yield_inside-Faithful :
      (s : PipeStep) (g : Turn) (phase : Option Kind)
      → (s.group g).control ≡ running
      → IsGoing b g total s (s.group g).todo (s.group g).phase
      → Faithful b g total (yield_inside s g phase)
  unfolding yield_inside hand_over
  yield_inside-Faithful s g none r h = hand_over-Faithful s g _ r h
  yield_inside-Faithful s g (some comm) r h = active r h
  yield_inside-Faithful s g (some replay) r h = hand_over-Faithful s g _ r h

  pub open_comm-Faithful :
      (s : PipeStep) (g : Turn) (phase : Option Kind)
      → (s.group g).control ≡ running
      → IsGoing b g total s (phase_begin ∷ (s.group g).todo) phase
      → Faithful b g total (open_phase s g comm phase)
  unfolding open_phase set_group put alone
  open_comm-Faithful s g (some k) r h = raised-Faithful s g
  open_comm-Faithful s first none r h = active r h
  open_comm-Faithful s second none r h = active r h

  pub yield_point-Faithful :
      (test : Bool) (s : PipeStep) (g : Turn)
      → (s.group g).control ≡ running
      → IsGoing b g total s (yield_point ∷ (s.group g).todo) (s.group g).phase
      → Faithful b g total (if test then yield_inside s g (s.group g).phase else s)
  unfolding alone
  yield_point-Faithful true s g r h = yield_inside-Faithful s g _ r h
  yield_point-Faithful false s g r h = active r h

  pub issue_kernel-Faithful :
      (s : PipeStep) (g : Turn) (k : ℕ)
      → IsRunning s g
      → IsGoing b g total s (issue k ∷ (s.group g).todo) (s.group g).phase
      → Faithful b g total (issue_kernel s g k)
  unfolding issue_kernel alone issued_then
  issue_kernel-Faithful s first k (r, w, o, a) h =
      let x = s.group first in
      active r (
        subst
          (λ row.
            issued_then first s.log (
              record {
                by = first;
                at_phase = x.phases_done;
                under = s.globals;
                rows = row;
                kernel = k;
              }
              ∷ alone b first x.todo x.phases_done x.phase s.globals)
            ≡ total)
          (sym o) h)
  issue_kernel-Faithful s second k (r, w, o, a) h =
      let x = s.group second in
      active r (
        subst
          (λ row.
            issued_then second s.log (
              record {
                by = second;
                at_phase = x.phases_done;
                under = s.globals;
                rows = row;
                kernel = k;
              }
              ∷ alone b second x.todo x.phases_done x.phase s.globals)
            ≡ total)
          (sym o) h)

pub open_replay-Faithful :
    (total : List Issued) (s : PipeStep) (g : Turn) (phase : Option Kind)
    → (s.group g).control ≡ running
    → IsGoing true g total s (replay_begin ∷ (s.group g).todo) phase
    → Faithful true g total (open_phase s g replay phase)
unfolding open_phase set_group put alone
open_replay-Faithful total s g (some k) r h = raised-Faithful true total s g
open_replay-Faithful total s first none r h = active r h
open_replay-Faithful total s second none r h = active r h

pub replay_begin-Faithful :
    (b : Bool) (total : List Issued) (s : PipeStep) (g : Turn)
    → (s.group g).control ≡ running
    → IsGoing b g total s (replay_begin ∷ (s.group g).todo) (s.group g).phase
    → Faithful b g total (if b then open_phase s g replay (s.group g).phase else s)
unfolding alone
replay_begin-Faithful true total s g r h = open_replay-Faithful total s g _ r h
replay_begin-Faithful false total s g r h = active r h

pub call-Faithful :
    (b : Bool) (total : List Issued) (s : PipeStep) (g : Turn) (c : Call)
    → IsRunning s g
    → IsGoing b g total s (c ∷ (s.group g).todo) (s.group g).phase
    → Faithful b g total (call b s g c)
unfolding call alone
call-Faithful b total s g (issue k) r h = issue_kernel-Faithful b total s g k r h
call-Faithful b total s g (set_context k) r h = active r.0 h
call-Faithful b total s g (set_pin k) r h = active r.0 h
call-Faithful b total s g phase_begin r h = open_comm-Faithful b total s g _ r.0 h
call-Faithful b total s g phase_end r h = close_phase-Faithful b total s g _ r.0 refl h
call-Faithful b total s g replay_begin r h = replay_begin-Faithful b total s g r.0 h
call-Faithful b total s g replay_end r h = close_replay-Faithful b total s g _ r.0 refl h
call-Faithful b total s g yield_point r h = yield_point-Faithful b total b s g r.0 h
call-Faithful b total s g raise r h = raised-Faithful b total s g
