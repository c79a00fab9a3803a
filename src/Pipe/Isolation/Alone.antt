-- ===== src/Pipe/Isolation/Alone.antt =====
-- The kernels of one group of a `PipeStep`: in the log, and from its program alone.
use v_llm_moet.Prelude.{
  ℕ, ◌+◌, ◌≡◌, ◌∙◌, inl, inr, Bool, true, false, Option, none, some, List, [], ◌∷◌, arith,
}
use v_llm_moet.Pipe.{
  Turn, first, second, Kind, comm, replay, compute, side, Globals, Call, issue, set_context,
  set_pin, phase_begin, phase_end, replay_begin, replay_end, yield_point, raise, waiting, running,
  finished, PipeGroup, Issued, PipeStep,
}
use v_llm_moet.Pipe.Turns.{IsAway}

-- The kernels that group `g` issues from a program, a phase count, an open phase and globals, with
-- the CPU and the row buffers to itself, in order.
unfoldable pub alone : Bool → Turn → List Call → ℕ → Option Kind → Globals → List Issued
alone b g [] n phase gl = []
alone b g (issue k ∷ cs) n phase gl =
    record { by = g; at_phase = n; under = gl; rows = g; kernel = k } ∷ alone b g cs n phase gl
alone b g (set_context c ∷ cs) n phase gl = alone b g cs n phase (record gl { context = c })
alone b g (set_pin p ∷ cs) n phase gl = alone b g cs n phase (record gl { pin = p })
alone b g (phase_begin ∷ cs) n (some k) gl = []
alone b g (phase_begin ∷ cs) n none gl =
    alone b g cs n (some comm) (record gl { stream = side comm })
alone b g (phase_end ∷ cs) n none gl = alone b g cs n none gl
alone b g (phase_end ∷ cs) n (some k) gl =
    alone b g cs (n + 1) none (record gl { stream = compute })
alone false g (replay_begin ∷ cs) n phase gl = alone false g cs n phase gl
alone true g (replay_begin ∷ cs) n (some k) gl = []
alone true g (replay_begin ∷ cs) n none gl =
    alone true g cs n (some replay) (record gl { stream = side replay })
alone b g (replay_end ∷ cs) n none gl = alone b g cs n none gl
alone b g (replay_end ∷ cs) n (some comm) gl = alone b g cs n (some comm) gl
alone b g (replay_end ∷ cs) n (some replay) gl =
    alone b g cs (n + 1) none (record gl { stream = compute })
alone b g (yield_point ∷ cs) n phase gl = alone b g cs n phase gl
alone b g (raise ∷ cs) n phase gl = []

-- The kernels of group `g` in a log, the earliest first, and then `rest`.
unfoldable pub issued_then : Turn → List Issued → List Issued → List Issued
issued_then g [] rest = rest
issued_then first (x ∷ older) rest =
    issued_then first older (elim x.by [ first ↦ x ∷ rest | second ↦ rest ])
issued_then second (x ∷ older) rest =
    issued_then second older (elim x.by [ first ↦ rest | second ↦ x ∷ rest ])

-- What group `g`, in state `x`, has issued into the log and what it would still issue on its own
-- make up `total`, unless it has raised.
pub data IsFaithful (b : Bool) (g : Turn) (total : List Issued) (x : PipeGroup) (gl : Globals)
    (log : List Issued) : Type 0 where
  failing : x.control ≡ finished → x.failed ≡ true → IsFaithful b g total x gl log
  complete : x.control ≡ finished → issued_then g log [] ≡ total → IsFaithful b g total x gl log
  paused :
      x.control ≡ waiting
      → issued_then g log (alone b g x.todo x.phases_done x.phase x.saved) ≡ total
      → IsFaithful b g total x gl log
  active :
      x.control ≡ running
      → issued_then g log (alone b g x.todo x.phases_done x.phase gl) ≡ total
      → IsFaithful b g total x gl log

abbrev pub Faithful : Bool → Turn → List Issued → PipeStep → Type 0
Faithful b g total s = IsFaithful b g total (s.group g) s.globals s.log

-- A group that is away sees nothing of the other one's work but a wake-up.
pub carry :
    (b : Bool) (g : Turn) (total : List Issued) (x : PipeGroup) (gl gl' : Globals)
    (log log' : List Issued) (w : Bool)
    → IsAway x
    → ((rest : List Issued) → issued_then g log' rest ≡ issued_then g log rest)
    → IsFaithful b g total x gl log
    → IsFaithful b g total (record x { wake = w }) gl' log'
carry b g total x gl gl' log log' w a e (failing c f) = failing c f
carry b g total x gl gl' log log' w a e (complete c h) = complete c (e _ ∙ h)
carry b g total x gl gl' log log' w a e (paused c h) = paused c (e _ ∙ h)
carry b g total x gl gl' log log' w (inl (c', p)) e (active c h) = absurd (ground arith)
carry b g total x gl gl' log log' w (inr f) e (active c h) = absurd (ground arith)
