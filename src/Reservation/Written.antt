-- ===== src/Reservation/Written.antt =====
-- Whatever the processes do, one result is written, and it stays.
use v_llm_moet.Prelude.{
  ℕ, Bool, true, false, ◌≡◌, refl, some, List, [], ◌∷◌, arith, Bool-cases, inl, inr,
}
use v_llm_moet.Reservation.{
  Phase, linked, finished, State, update, open_lock, save, act, Event, move, die, step, run, start,
}

-- The process has put its result at the path.
unfoldable pub has_written : Phase → Bool
has_written linked = true
has_written finished = true
has_written _ = false

-- A process that has written has the result.
abbrev pub IsWritten : State → Type 0
IsWritten s = (p : ℕ) → has_written (s.phase p) ≡ true → s.result ≡ some p

act-IsWritten :
    (ph : Phase) (s : State) (p : ℕ) → s.phase p ≡ ph → IsWritten s → IsWritten (act false ph s p)
unfolding act update has_written open_lock save
act-IsWritten _ s p e h = λ q. ground (arith, h q, h p, e)

act_keeps_result :
    (ph : Phase) (s : State) (p w : ℕ) → s.result ≡ some w → (act false ph s p).result ≡ some w
unfolding act open_lock save
act_keeps_result _ s p w h = ground (arith, h)

step-IsWritten : (e : Event) (s : State) → IsWritten s → IsWritten (step false e s)
unfolding step
step-IsWritten (move p) s h = elim (Bool-cases (s.alive p)) [
  | inl lives ↦ rw (step, lives) (act-IsWritten (s.phase p) s p refl h)
  | inr dead ↦ rw (step, dead) h
]
step-IsWritten (die p) s h = h

run-IsWritten : (es : List Event) (s : State) → IsWritten s → IsWritten (run false es s)
unfolding run
run-IsWritten [] s h = h
run-IsWritten (e ∷ es) s h = run-IsWritten es (step false e s) (step-IsWritten e s h)

run_keeps_result :
    (es : List Event) (s : State) (w : ℕ) → s.result ≡ some w → (run false es s).result ≡ some w
unfolding run step
run_keeps_result [] s w h = h
run_keeps_result (move p ∷ es) s w h =
    run_keeps_result es (step false (move p) s) w (elim (Bool-cases (s.alive p)) [
      | inl lives ↦ rw (step, lives) (act_keeps_result (s.phase p) s p w h)
      | inr dead ↦ rw (step, dead) h
    ])
run_keeps_result (die p ∷ es) s w h = run_keeps_result es (step false (die p) s) w h

-- Without consent to overwrite, a process that has written its result is the only one that ever does,
-- whatever happens before and after: the result at the path is its own for good.
pub run_written :
    (es later : List Event) (p : ℕ)
    → has_written ((run false es start).phase p) ≡ true
    → (run false later (run false es start)).result ≡ some p
unfolding start has_written
run_written es later p h =
    run_keeps_result later (run false es start) p (run-IsWritten es start (λ q none_yet. cc) p h)
