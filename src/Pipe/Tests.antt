-- ===== src/Pipe/Tests.antt =====
-- Runs of a `PipeStep` on small programs.
use v_llm_moet.Prelude.{
  ℕ, ◌+◌, ◌*◌, ◌≡◌, refl, true, false, none, some, List, [], ◌∷◌, ◌++◌, map, length,
}
use v_llm_moet.Pipe.{
  finished, Turn, first, second, compute, Globals, Call, issue, set_pin, phase_begin, phase_end,
  raise, run_schedule, start,
}
use v_llm_moet.Pipe.Turns.{InTurn, IsOver, run_schedule-InTurn}
use v_llm_moet.Pipe.Isolation.{own_kernels, run_schedule_alone}
use v_llm_moet.Pipe.Isolation.Alone.{issued_then}
use v_llm_moet.Pipe.Order.{run_schedule-IsOrdered}
use v_llm_moet.Pipe.Order.Pace.{IsOrdered}
use v_llm_moet.Pipe.Progress.{rounds, run_schedule-IsOver}

-- A layer: attention, then the boundary chain on the comm stream.
abbrev layer : ℕ → List Call
layer k = issue k ∷ set_pin (some k) ∷ phase_begin ∷ issue (k + 10) ∷ phase_end ∷ set_pin none ∷ []

abbrev programs : Turn → List Call
programs = elim [ first ↦ layer 1 ++ layer 2 | second ↦ layer 1 ++ raise ∷ [] ]

abbrev contexts : Turn → ℕ
contexts = elim [ first ↦ 100 | second ↦ 200 ]

abbrev ambient : Globals
ambient = record { stream = compute; context = 7; pin = none }

abbrev turns : List Turn
turns = first ∷ second ∷ first ∷ first ∷ second ∷ []

kernels_in_order :
    map {B = Turn × ℕ}
      (λ x. (x.by, x.kernel))
      (run_schedule false (rounds 44) (start programs contexts ambient)).log
    ≡ (first, 12) ∷ (first, 2) ∷ (second, 11) ∷ (second, 1) ∷ (first, 11) ∷ (first, 1) ∷ []
unfolding run_schedule start rounds
kernels_in_order = refl

run_schedule-InTurn_example : InTurn (run_schedule true turns (start programs contexts ambient))
run_schedule-InTurn_example = run_schedule-InTurn true turns programs contexts ambient

run_schedule-IsOrdered_example :
    IsOrdered (run_schedule false (rounds 44) (start programs contexts ambient)).log
run_schedule-IsOrdered_example = run_schedule-IsOrdered (rounds 44) programs contexts ambient

run_schedule-IsOver_example : IsOver (
    run_schedule true
      (rounds (2 * (length (programs first) + length (programs second)) + 4))
      (start programs contexts ambient))
run_schedule-IsOver_example = run_schedule-IsOver true programs contexts ambient

first_returns :
    (((run_schedule false (rounds 44) (start programs contexts ambient)).group first).control
      ≡ finished)
    × (((run_schedule false (rounds 44) (start programs contexts ambient)).group first).failed
        ≡ false)
unfolding run_schedule start rounds
first_returns = (refl, refl)

run_schedule_alone_example :
    issued_then first (run_schedule false (rounds 44) (start programs contexts ambient)).log []
    ≡ own_kernels false first (programs first) 100
run_schedule_alone_example =
    run_schedule_alone false (rounds 44) programs contexts ambient first first_returns.0
      first_returns.1
