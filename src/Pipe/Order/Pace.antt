-- ===== src/Pipe/Order/Pace.antt =====
-- How far the first group of a `PipeStep` is ahead of the second one.
use v_llm_moet.Prelude.{
  ℕ, ◌+◌, ◌<◌, ◌≤◌, ◌≡◌, refl, ◌⊎◌, inl, inr, Bool, true, false, Option, none, some, List, [], ◌∷◌,
  if◌then◌else◌, arith, All, All-map,
}
use v_llm_moet.Pipe.{
  Turn, first, second, other, Kind, comm, replay, Call, issue, set_context, set_pin, phase_begin,
  phase_end, replay_begin, replay_end, yield_point, raise, Control, waiting, running, finished,
  PipeGroup, Issued, PipeStep, put, set_group, set_wake, resume, save, take_turn, leave, yield_to,
  hand_over, order_violated, open_phase, end_phase, close_phase, close_replay, issue_kernel, call,
  work,
}
use v_llm_moet.Pipe.Turns.{IsRunning}

-- Kernel `x` of the first group comes only after kernels of the second group of earlier phases.
abbrev pub IsBehind : ℕ → Issued → Type 0
IsBehind phase y = y.by ≡ second → y.at_phase < phase

-- No kernel of the first group follows a kernel of the second group of its own phase or of a later
-- one. The log has the latest kernel first.
unfoldable pub IsOrdered : List Issued → Type 0
IsOrdered [] = Unit {0}
IsOrdered (x ∷ older) = (x.by ≡ first → All (IsBehind x.at_phase) older) × IsOrdered older

abbrev pub HasTurn : PipeGroup → Type 0
HasTurn x = (x.control ≡ running) ⊎ (x.wake ≡ true)

-- As long as the first group has not finished, it is ahead of what the second one has issued, and
-- has ended one phase more whenever the second one has the turn.
abbrev pub IsPaced : PipeStep → Type 0
IsPaced s =
    ((s.group first).control ≡ finished)
    ⊎ (All (IsBehind (s.group first).phases_done) s.log
        × ((s.group second).phases_done ≤ (s.group first).phases_done)
        × (HasTurn (s.group second) → (s.group second).phases_done < (s.group first).phases_done))

pub leave-IsPaced :
    (s : PipeStep) (g : Turn) (error : Bool) → IsRunning s g → IsPaced s → IsPaced (leave s g error)
unfolding leave set_group set_wake put other
leave-IsPaced s first e r h = inl refl
leave-IsPaced s second e (r, w, o, a) (inl f) = inl f
leave-IsPaced s second e (r, w, o, a) (inr (l, p, q)) = inr (l, p, λ t. q (inl r))

pub ahead :
    (phase : ℕ) (older : List Issued)
    → All (IsBehind phase) older
    → All (IsBehind (phase + 1)) older
ahead phase older = All-map _ _ older (λ y h e. ground arith)

-- The first group ends a phase, and the second one gets the turn if it has not finished.
pub close_first-IsPaced :
    (s : PipeStep) (c : Control)
    → (s.group first).control ≡ running
    → IsPaced s
    → IsPaced (yield_to (save (end_phase s first) first) first c)
unfolding yield_to save end_phase set_group set_wake resume put other
close_first-IsPaced s c r (inl f) = absurd (ground arith)
close_first-IsPaced s finished r (inr (l, p, q)) = inr (ahead _ _ l, omega arith, λ t. omega arith)
close_first-IsPaced s waiting r (inr (l, p, q)) = inr (ahead _ _ l, omega arith, λ t. omega arith)
close_first-IsPaced s running r (inr (l, p, q)) = inr (ahead _ _ l, omega arith, λ t. omega arith)

pub close_second-IsPaced :
    (s : PipeStep) (c : Control)
    → IsRunning s second
    → (s.group first).control ≡ c
    → IsPaced s
    → IsPaced (yield_to (save (end_phase s second) second) second c)
unfolding yield_to save end_phase set_group set_wake resume put other
close_second-IsPaced s finished r e h = inl e
close_second-IsPaced s waiting (r, w, o, a) e (inl f) = inl f
close_second-IsPaced s running (r, w, o, a) e (inl f) = inl f
close_second-IsPaced s waiting (r, w, o, a) e (inr (l, p, q)) =
    let h = q (inl r) in inr (l, omega arith, λ t. absurd (ground arith))
close_second-IsPaced s running (r, w, o, a) e (inr (l, p, q)) =
    let h = q (inl r) in inr (l, omega arith, λ t. absurd (ground arith))

pub reject_second-IsPaced :
    (s : PipeStep)
    → IsRunning s second
    → IsPaced s
    → IsPaced (leave (end_phase s second) second true)
unfolding leave end_phase set_group set_wake put other
reject_second-IsPaced s r (inl f) = inl f
reject_second-IsPaced s (r, w, o, a) (inr (l, p, q)) =
    let h = q (inl r) in inr (l, omega arith, λ t. absurd (ground arith))

pub if-IsPaced : (b : Bool) (s t : PipeStep) → IsPaced s → IsPaced t → IsPaced (if b then s else t)
if-IsPaced true s t hs ht = hs
if-IsPaced false s t hs ht = ht

pub close_phase-IsPaced :
    (s : PipeStep) (g : Turn) (phase : Option Kind)
    → IsRunning s g
    → IsPaced s
    → IsPaced (close_phase s g phase)
unfolding close_phase hand_over order_violated other
close_phase-IsPaced s g none r h = h
close_phase-IsPaced s first (some k) r h = close_first-IsPaced s _ r.0 h
close_phase-IsPaced s second (some k) r h =
    if-IsPaced _ _ _ (reject_second-IsPaced s r h) (close_second-IsPaced s _ r refl h)

pub close_replay-IsPaced :
    (s : PipeStep) (g : Turn) (phase : Option Kind)
    → IsRunning s g
    → IsPaced s
    → IsPaced (close_replay s g phase)
unfolding close_replay
close_replay-IsPaced s g none r h = h
close_replay-IsPaced s g (some comm) r h = h
close_replay-IsPaced s g (some replay) r h = close_phase-IsPaced s g (some replay) r h

pub open_phase-IsPaced :
    (s : PipeStep) (g : Turn) (kind : Kind) (phase : Option Kind)
    → IsRunning s g
    → IsPaced s
    → IsPaced (open_phase s g kind phase)
unfolding open_phase set_group put
open_phase-IsPaced s g kind (some k) r h = leave-IsPaced s g true r h
open_phase-IsPaced s first kind none r h = h
open_phase-IsPaced s second kind none r h = h

pub issue_kernel-IsPaced :
    (s : PipeStep) (g : Turn) (k : ℕ) → IsRunning s g → IsPaced s → IsPaced (issue_kernel s g k)
unfolding issue_kernel
issue_kernel-IsPaced s g k r (inl f) = inl f
issue_kernel-IsPaced s first k r (inr (l, p, q)) = inr ((λ e. absurd (ground arith), l), p, q)
issue_kernel-IsPaced s second k (r, w, o, a) (inr (l, p, q)) = inr ((λ e. q (inl r), l), p, q)

pub call-IsPaced :
    (s : PipeStep) (g : Turn) (c : Call) → IsRunning s g → IsPaced s → IsPaced (call false s g c)
unfolding call
call-IsPaced s g (issue k) r h = issue_kernel-IsPaced s g k r h
call-IsPaced s g (set_context k) r h = h
call-IsPaced s g (set_pin k) r h = h
call-IsPaced s g phase_begin r h = open_phase-IsPaced s g comm _ r h
call-IsPaced s g phase_end r h = close_phase-IsPaced s g _ r h
call-IsPaced s g replay_begin r h = h
call-IsPaced s g replay_end r h = close_replay-IsPaced s g _ r h
call-IsPaced s g yield_point r h = h
call-IsPaced s g raise r h = leave-IsPaced s g true r h

pub work-IsPaced :
    (s : PipeStep) (g : Turn) (todo : List Call)
    → IsRunning s g
    → IsPaced s
    → IsPaced (work false s g todo)
unfolding work set_group put other
work-IsPaced s g [] r h = leave-IsPaced s g false r h
work-IsPaced s first (c ∷ cs) r h = call-IsPaced _ first c r h
work-IsPaced s second (c ∷ cs) r h = call-IsPaced _ second c r h

pub take_turn-IsPaced :
    (s : PipeStep) (g : Turn)
    → (s.group g).wake ≡ true
    → (s.group g).control ≡ waiting
    → IsPaced s
    → IsPaced (take_turn s g)
unfolding take_turn set_group resume put
take_turn-IsPaced s first w c (inl f) = absurd (ground arith)
take_turn-IsPaced s second w c (inl f) = inl f
take_turn-IsPaced s first w c (inr h) = inr h
take_turn-IsPaced s second w c (inr (l, p, q)) = inr (l, p, λ t. q (inr w))
