-- ===== src/Reservation/Tests.antt =====
-- Two processes and one result.
use v_llm_moet.Prelude.{ℕ, zero, suc, true, false, ◌&&◌, ◌≡◌, refl, some, List, [], ◌∷◌, ◌++◌}
use v_llm_moet.Reservation.{
  Event, move, die, run, start, update, open_lock, is_live, write_pid, is_own, save,
}
use v_llm_moet.Reservation.Written.{has_written, run_written}
use v_llm_moet.Reservation.Exclusive.{lock_of, is_early, is_patient_run, is_reserved, run_exclusive}

abbrev moves : ℕ → ℕ → List Event
moves p zero = []
moves p (suc n) = move p ∷ moves p n

-- The first process reserves and saves; the second one comes between the two.
abbrev first_saves : List Event
first_saves = moves 0 6 ++ (moves 1 4 ++ moves 0 3)

run_written_example : (run false (moves 1 5) (run false first_saves start)).result ≡ some 0
unfolding run start update open_lock is_live write_pid is_own save has_written
run_written_example = run_written first_saves (moves 1 5) 0 refl

-- The second process finds the lock of the first one and gives up.
abbrev second_gives_up : List Event
second_gives_up = moves 0 6 ++ moves 1 4

run_exclusive_example :
    (◌≡◌ {A = ℕ} 0 0) × ((run false second_gives_up start).lock ≡ lock_of 0 (some 0))
unfolding run start update open_lock is_live write_pid is_own save is_patient_run is_reserved
    is_early
run_exclusive_example = run_exclusive false second_gives_up 0 0 refl refl refl refl refl

-- The second process looks before the first one has written its pid: both reserve.
abbrev early_look : List Event
early_look = moves 0 4 ++ (moves 1 8 ++ moves 0 1)

early_look_test :
    (is_reserved ((run false early_look start).phase 0)
      && is_reserved ((run false early_look start).phase 1))
    ≡ true
unfolding run start update open_lock is_live write_pid is_own save is_reserved
early_look_test = refl

-- The reservation of a process that has ended is taken over.
after_death_test : (run false (moves 0 6 ++ die 0 ∷ moves 1 8) start).lock ≡ lock_of 1 (some 1)
unfolding run start update open_lock is_live write_pid is_own save
after_death_test = refl
