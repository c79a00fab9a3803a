-- ===== src/Reservation.antt =====
-- Reservations of results: `reserve_result` and `write_result` of bench/runner/common.py, as the steps
-- of processes that want to write one result.
pub mod Written
pub mod Exclusive
mod Tests
use v_llm_moet.Prelude.{
  ℕ, Bool, true, false, not, ◌&&◌, Option, none, some, List, [], ◌∷◌, ◌==◌, if◌then◌else◌,
}

-- Where a process stands. In `reserve_result`: not started, past the check for a result, holding the
-- guard, having found a lock, having found it stale, having removed it, having made its own, and
-- having let the guard go. Then it is reserved. In `write_result`: past the check for a result, past
-- the check of the lock, having linked the result, and done. Any exception ends in `refused`.
pub data Phase : Type 0 where
  idle waiting entered found stale removed opened unwritten : Phase
  reserved saving checked linked finished refused : Phase

-- The lock file: the process that made it, and the pid that is in it, if it has been written.
pub record Lock : Type 0 where
  pub maker : ℕ
  pub pid : Option ℕ

-- `result` is the process whose result stands at the path.
pub record State : Type 0 where
  pub result : Option ℕ
  pub lock : Option Lock
  pub guard : Option ℕ
  pub alive : ℕ → Bool
  pub phase : ℕ → Phase

unfoldable pub update {ℓ} : {A : Type ℓ} → (ℕ → A) → ℕ → A → ℕ → A
update f p a q = if p == q then a else f q

abbrev pub at : State → ℕ → Phase → State
at s p ph = record s { phase = update s.phase p ph }

-- An exception under the guard, which `finally` lets go.
abbrev pub refuse : State → ℕ → State
refuse s p = record s { guard = none; phase = update s.phase p refused }

-- `os.open(lock, os.O_CREAT | os.O_EXCL)`, or what happens if the lock is there.
unfoldable pub open_lock : State → ℕ → State → State
unfolding update
open_lock s p otherwise = elim s.lock [
  | none ↦ record s {
    lock = some record { maker = p; pid = none };
    phase = update s.phase p opened;
  }
  | some lock ↦ otherwise
]

-- The lock that is found belongs to a process that lives.
unfoldable pub is_live : State → Bool
is_live s = elim s.lock [
  | none ↦ false
  | some lock ↦ elim lock.pid [ none ↦ false | some owner ↦ s.alive owner ]
]

-- The pid goes to the file that the process has opened, which may not stand at the path any more.
unfoldable pub write_pid : ℕ → Option Lock → Option Lock
write_pid p none = none
write_pid p (some lock) =
    if lock.maker == p then some record { maker = lock.maker; pid = some p } else some lock

unfoldable pub is_own : ℕ → Option Lock → Bool
is_own p none = false
is_own p (some lock) = elim lock.pid [ none ↦ false | some owner ↦ owner == p ]

abbrev pub is_there {ℓ} : {A : Type ℓ} → Option A → Bool
is_there = elim [ none ↦ false | some a ↦ true ]

-- `os.replace` or `os.link`
unfoldable pub save : Bool → State → ℕ → State
unfolding update
save overwrite s p =
    if not overwrite && is_there s.result
    then at s p refused
    else record s { result = some p; phase = update s.phase p linked }

-- The next step of a process, from where it stands. One that waits for the guard stays.
unfoldable pub act : Bool → Phase → State → ℕ → State
unfolding update open_lock is_live write_pid is_own save
act overwrite idle s p = at s p (if is_there s.result then refused else waiting)
act overwrite waiting s p = elim s.guard [
  | none ↦ record s { guard = some p; phase = update s.phase p entered }
  | some q ↦ s
]
act overwrite entered s p = open_lock s p (at s p found)
act overwrite found s p = if is_live s then refuse s p else at s p stale
act overwrite stale s p =
    if is_there s.lock
    then record s { lock = none; phase = update s.phase p removed }
    else refuse s p
act overwrite removed s p = open_lock s p (refuse s p)
act overwrite opened s p = record s { guard = none; phase = update s.phase p unwritten }
act overwrite unwritten s p = record s {
  lock = write_pid p s.lock;
  phase = update s.phase p reserved;
}
act overwrite reserved s p = at s p (if is_there s.result && not overwrite then refused else saving)
act overwrite saving s p = at s p (if is_own p s.lock then checked else refused)
act overwrite checked s p = save overwrite s p
act overwrite linked s p = record s { lock = none; phase = update s.phase p finished }
act overwrite finished s p = s
act overwrite refused s p = s

-- What happens: a process makes a step, or ends for good, so that the kernel lets its guard go.
pub data Event : Type 0 where
  move die : ℕ → Event

abbrev pub let_go : ℕ → Option ℕ → Option ℕ
let_go p guard = elim guard [ none ↦ none | some q ↦ if q == p then none else some q ]

unfoldable pub step : Bool → Event → State → State
unfolding act update
step overwrite (move p) s = if s.alive p then act overwrite (s.phase p) s p else s
step overwrite (die p) s = record s { alive = update s.alive p false; guard = let_go p s.guard }

unfoldable pub run : Bool → List Event → State → State
unfolding step
run overwrite [] s = s
run overwrite (e ∷ es) s = run overwrite es (step overwrite e s)

-- Nobody has started.
unfoldable pub start : State
start = record { result = none; lock = none; guard = none; alive = λ p. true; phase = λ p. idle }
