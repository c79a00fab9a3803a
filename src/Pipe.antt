-- ===== src/Pipe.antt =====
-- `PipeStep` (tools/dsv41_sm120/sp_pipeline/moet_prefill_pipe.py): the two threads of a pipelined
-- prefill step, which take turns at the ends of their phases. A thread's program is the list of
-- the calls that the model's forward makes into the module, and of the kernels it issues.
mod Tests
pub mod Turns
pub mod Isolation
pub mod Order
pub mod Progress
use v_llm_moet.Prelude.{
  ℕ, ◌+◌, Bool, true, false, Option, none, some, List, [], ◌∷◌, ltb, if◌then◌else◌,
}

-- The two row groups: `first` is group 0, the earlier rows.
pub data Turn : Type 0 where
  first second : Turn

-- `(g.idx + 1) % len(self.groups)`
unfoldable pub other : Turn → Turn
other first = second
other second = first

pub data Kind : Type 0 where
  comm replay : Kind

pub data Stream : Type 0 where
  compute : Stream
  side : Kind → Stream

-- The globals that belong to the thread that runs: the current stream, the forward context and the
-- split-k pin.
pub record Globals : Type 0 where
  pub stream : Stream
  pub context : ℕ
  pub pin : Option ℕ

pub data Call : Type 0 where
  issue : ℕ → Call
  set_context : ℕ → Call
  set_pin : Option ℕ → Call
  phase_begin phase_end replay_begin replay_end yield_point raise : Call

-- Where a thread is: in `_wait_turn`, in its program, or past the `finally` of `_thread_main`.
pub data Control : Type 0 where
  waiting running finished : Control

pub record PipeGroup : Type 0 where
  pub todo : List Call
  pub phases_done : ℕ
  pub phase : Option Kind
  pub saved : Globals
  pub wake : Bool
  pub control : Control
  pub failed : Bool

-- A kernel with what it was issued under: the group, its phase count, the globals, and the group
-- whose storage the row buffers hold.
pub record Issued : Type 0 where
  pub by : Turn
  pub at_phase : ℕ
  pub under : Globals
  pub rows : Turn
  pub kernel : ℕ

-- `row_group` is the row switch's `current`, and `log` has the latest kernel first.
pub record PipeStep : Type 0 where
  pub group : Turn → PipeGroup
  pub globals : Globals
  pub row_group : Turn
  pub log : List Issued

unfoldable pub put : Turn → PipeGroup → (Turn → PipeGroup) → Turn → PipeGroup
put first x groups first = x
put first x groups second = groups second
put second x groups first = groups first
put second x groups second = x

unfoldable pub set_group : PipeStep → Turn → PipeGroup → PipeStep
unfolding put
set_group s g x = record s { group = put g x s.group }

-- `self.wake[g].set()`
unfoldable pub set_wake : PipeStep → Turn → PipeStep
unfolding set_group
set_wake s g = set_group s g (record (s.group g) { wake = true })

-- `_resume`
unfoldable pub resume : PipeStep → Turn → PipeStep
resume s g = record s { globals = (s.group g).saved; row_group = g }

-- `_save`
unfoldable pub save : PipeStep → Turn → PipeStep
unfolding set_group
save s g = set_group s g (record (s.group g) { saved = s.globals })

-- `_wait_turn` returns: the event is cleared, and the thread runs.
unfoldable pub take_turn : PipeStep → Turn → PipeStep
unfolding set_group resume
take_turn s g = resume (set_group s g (record (s.group g) { wake = false; control = running })) g

-- The `finally` of `_thread_main`, with the error recorded or not.
unfoldable pub leave : PipeStep → Turn → Bool → PipeStep
unfolding set_group set_wake other
leave s g error =
    set_wake (set_group s g (record (s.group g) { control = finished; failed = error })) (other g)

-- `yield_`, up to the wait: with the other thread finished it goes on at once.
unfoldable pub yield_to : PipeStep → Turn → Control → PipeStep
unfolding set_group set_wake resume other
yield_to s g finished = resume s g
yield_to s g waiting = set_wake (set_group s g (record (s.group g) { control = waiting })) (other g)
yield_to s g running = set_wake (set_group s g (record (s.group g) { control = waiting })) (other g)

unfoldable pub hand_over : PipeStep → Turn → PipeStep
unfolding save yield_to other
hand_over s g = yield_to (save s g) g (s.group (other g)).control

-- `check_order` finds an earlier group that has ended fewer phases.
unfoldable pub order_violated : PipeStep → Turn → Bool
order_violated s first = false
order_violated s second = ltb (s.group first).phases_done (s.group second).phases_done

-- `_phase_begin`
unfoldable pub open_phase : PipeStep → Turn → Kind → Option Kind → PipeStep
unfolding set_group leave
open_phase s g kind (some k) = leave s g true
open_phase s g kind none = record (set_group s g (record (s.group g) { phase = some kind })) {
  globals = record s.globals { stream = side kind };
}

-- `phase_end` up to the check.
unfoldable pub end_phase : PipeStep → Turn → PipeStep
unfolding set_group
end_phase s g =
    record (set_group s g
      (record (s.group g) { phase = none; phases_done = (s.group g).phases_done + 1 })) {
        globals = record s.globals { stream = compute };
      }

-- `phase_end`, by the phase that is open.
unfoldable pub close_phase : PipeStep → Turn → Option Kind → PipeStep
unfolding end_phase order_violated leave hand_over
close_phase s g none = s
close_phase s g (some k) =
    let ended = end_phase s g in
    if order_violated ended g then leave ended g true else hand_over ended g

-- `replay_end`: only a replay phase is ended.
unfoldable pub close_replay : PipeStep → Turn → Option Kind → PipeStep
unfolding close_phase
close_replay s g none = s
close_replay s g (some comm) = s
close_replay s g (some replay) = close_phase s g (some replay)

-- `yield_point` with the replay on its own stream: not inside a comm phase.
unfoldable pub yield_inside : PipeStep → Turn → Option Kind → PipeStep
unfolding hand_over
yield_inside s g none = hand_over s g
yield_inside s g (some comm) = s
yield_inside s g (some replay) = hand_over s g

unfoldable pub issue_kernel : PipeStep → Turn → ℕ → PipeStep
issue_kernel s g k = record s {
  log =
      record {
        by = g;
        at_phase = (s.group g).phases_done;
        under = s.globals;
        rows = s.row_group;
        kernel = k;
      }
      ∷ s.log;
}

-- One call of group `g`; `streamed` is VLLM_MOET_PREFILL_PIPE_REPLAY=stream.
unfoldable pub call : Bool → PipeStep → Turn → Call → PipeStep
unfolding issue_kernel open_phase close_phase close_replay yield_inside leave
call streamed s g (issue k) = issue_kernel s g k
call streamed s g (set_context c) = record s { globals = record s.globals { context = c } }
call streamed s g (set_pin p) = record s { globals = record s.globals { pin = p } }
call streamed s g phase_begin = open_phase s g comm (s.group g).phase
call streamed s g phase_end = close_phase s g (s.group g).phase
call streamed s g replay_begin = if streamed then open_phase s g replay (s.group g).phase else s
call streamed s g replay_end = close_replay s g (s.group g).phase
call streamed s g yield_point = if streamed then yield_inside s g (s.group g).phase else s
call streamed s g raise = leave s g true

-- A thread that runs makes its next call, or returns from its program.
unfoldable pub work : Bool → PipeStep → Turn → List Call → PipeStep
unfolding set_group call leave
work streamed s g [] = leave s g false
work streamed s g (c ∷ cs) = call streamed (set_group s g (record (s.group g) { todo = cs })) g c

-- What thread `g` does next, if it can do anything.
unfoldable pub advance : Bool → PipeStep → Turn → Control → Option PipeStep
unfolding take_turn work
advance streamed s g waiting = if (s.group g).wake then some (take_turn s g) else none
advance streamed s g running = some (work streamed s g (s.group g).todo)
advance streamed s g finished = none

unfoldable pub step : Bool → PipeStep → Turn → Option PipeStep
unfolding advance
step streamed s g = advance streamed s g (s.group g).control

unfoldable pub settle : Option PipeStep → PipeStep → PipeStep
settle none s = s
settle (some s') s = s'

-- The threads in the order of a schedule; a thread that cannot move lets its turn pass.
unfoldable pub run_schedule : Bool → List Turn → PipeStep → PipeStep
unfolding step settle
run_schedule streamed [] s = s
run_schedule streamed (g ∷ gs) s = run_schedule streamed gs (settle (step streamed s g) s)

-- `PipeStep.__init__` and the first `wake` of `run`: `contexts` are the groups' forward contexts,
-- `ambient` the runner's globals.
unfoldable pub new_group : List Call → ℕ → Bool → PipeGroup
new_group program context awake = record {
  todo = program;
  phases_done = 0;
  phase = none;
  saved = record { stream = compute; context = context; pin = none };
  wake = awake;
  control = waiting;
  failed = false;
}

unfoldable pub start : (Turn → List Call) → (Turn → ℕ) → Globals → PipeStep
unfolding new_group put
start programs contexts ambient = record {
  group =
      put first (new_group (programs first) (contexts first) true)
        (λ g. new_group (programs second) (contexts second) false);
  globals = ambient;
  row_group = first;
  log = [];
}
