-- ===== src/Reservation/Exclusive.antt =====
-- A reservation is exclusive, as long as nobody looks at a lock before its maker has written its pid.
use mathlib.Core.Path.{subst}
use v_llm_moet.Prelude.{
  ℕ, Bool, true, false, not, ◌&&◌, ◌≡◌, refl, sym, Option, none, some, List, [], ◌∷◌, ◌==◌, arith,
  Bool-cases, inl, inr,
}
use v_llm_moet.Reservation.{
  Phase, idle, waiting, entered, found, stale, removed, opened, unwritten, reserved, saving,
  checked, linked, finished, refused, Lock, State, update, open_lock, is_live, write_pid, is_own,
  save, act, Event, move, die, step, run, start,
}

-- The lock has been made by `p`, with this text.
abbrev pub lock_of : ℕ → Option ℕ → Option Lock
lock_of p pid = some record { maker = p; pid = pid }

-- The guard's holder is not the one who finds a lock that is not written yet.
unfoldable pub is_early : Phase → Option Lock → Bool
is_early found (some lock) = elim lock.pid [ none ↦ true | some owner ↦ false ]
is_early _ _ = false

-- What a living process can rely on, where it stands.
abbrev pub Holds : ℕ → Phase → State → Type 0
Holds p idle s = Unit
Holds p waiting s = Unit
Holds p entered s = s.guard ≡ some p
Holds p found s = s.guard ≡ some p
Holds p stale s = (s.guard ≡ some p) × (is_live s ≡ false) × (is_early found s.lock ≡ false)
Holds p removed s = (s.guard ≡ some p) × (s.lock ≡ none)
Holds p opened s = (s.guard ≡ some p) × (s.lock ≡ lock_of p none)
Holds p unwritten s = s.lock ≡ lock_of p none
Holds p reserved s = s.lock ≡ lock_of p (some p)
Holds p saving s = s.lock ≡ lock_of p (some p)
Holds p checked s = s.lock ≡ lock_of p (some p)
Holds p linked s = s.lock ≡ lock_of p (some p)
Holds p finished s = Unit
Holds p refused s = Unit

-- No process looks at a lock before its maker has written its pid.
unfoldable pub is_patient : Event → State → Bool
unfolding is_early
is_patient (move p) s = not (s.alive p && is_early (s.phase p) s.lock)
is_patient (die p) s = true

abbrev pub Inv : State → Type 0
Inv s = (p : ℕ) → s.alive p ≡ true → Holds p (s.phase p) s

-- A step keeps what the process that makes it relies on.
act-Holds :
    (overwrite : Bool) (ph : Phase) (s : State) (p : ℕ)
    → s.phase p ≡ ph
    → s.alive p ≡ true
    → is_early ph s.lock ≡ false
    → Holds p ph s
    → Holds p ((act overwrite ph s p).phase p) (act overwrite ph s p)
unfolding act update open_lock is_live write_pid is_own save is_early
act-Holds overwrite _ s p e lives patient h = ground (arith, e, h)

-- A step keeps what any other living process relies on.
act-Holds_other :
    (overwrite : Bool) (ph qh : Phase) (s : State) (p q : ℕ)
    → p == q ≡ false
    → s.alive p ≡ true
    → s.alive q ≡ true
    → Holds p ph s
    → Holds q qh s
    → Holds q qh (act overwrite ph s p)
unfolding act update open_lock is_live write_pid is_own save is_early
act-Holds_other overwrite idle _ s p q other p_lives q_lives h h' = ground (arith, h, h')
act-Holds_other overwrite waiting _ s p q other p_lives q_lives h h' = ground (arith, h, h')
act-Holds_other overwrite entered _ s p q other p_lives q_lives h h' = ground (arith, h, h')
act-Holds_other overwrite found _ s p q other p_lives q_lives h h' = ground (arith, h, h')
act-Holds_other overwrite stale _ s p q other p_lives q_lives h h' = ground (arith, h, h')
act-Holds_other overwrite removed _ s p q other p_lives q_lives h h' = ground (arith, h, h')
act-Holds_other overwrite opened _ s p q other p_lives q_lives h h' = ground (arith, h, h')
act-Holds_other overwrite unwritten _ s p q other p_lives q_lives h h' = ground (arith, h, h')
act-Holds_other overwrite reserved _ s p q other p_lives q_lives h h' = ground (arith, h, h')
act-Holds_other overwrite saving _ s p q other p_lives q_lives h h' = ground (arith, h, h')
act-Holds_other overwrite checked _ s p q other p_lives q_lives h h' = ground (arith, h, h')
act-Holds_other overwrite linked _ s p q other p_lives q_lives h h' = ground (arith, h, h')
act-Holds_other overwrite finished _ s p q other p_lives q_lives h h' = ground (arith, h, h')
act-Holds_other overwrite refused _ s p q other p_lives q_lives h h' = ground (arith, h, h')

act_keeps_others :
    (overwrite : Bool) (ph : Phase) (s : State) (p q : ℕ)
    → p == q ≡ false
    → (act overwrite ph s p).phase q ≡ s.phase q
unfolding act update open_lock save
act_keeps_others overwrite _ s p q other = ground (arith, other)

act_keeps_alive :
    (overwrite : Bool) (ph : Phase) (s : State) (p : ℕ) → (act overwrite ph s p).alive ≡ s.alive
unfolding act open_lock save
act_keeps_alive overwrite _ s p = ground arith

act-Inv :
    (overwrite : Bool) (s : State) (p : ℕ)
    → s.alive p ≡ true
    → is_early (s.phase p) s.lock ≡ false
    → Inv s
    → Inv (act overwrite (s.phase p) s p)
act-Inv overwrite s p lives patient h q q_lives' =
    let after = act overwrite (s.phase p) s p in
    let q_lives : s.alive q ≡ true =
      subst (λ f. f q ≡ true) (act_keeps_alive overwrite (s.phase p) s p) q_lives' in
    elim (Bool-cases (p == q)) [
      | inl same ↦
          let equal : p ≡ q = ground (arith, same) in
          subst (λ r. Holds r (after.phase r) after) equal
            (act-Holds overwrite (s.phase p) s p refl lives patient (h p lives))
      | inr other ↦
          subst (λ ph. Holds q ph after) (sym (act_keeps_others overwrite (s.phase p) s p q other))
            (act-Holds_other overwrite (s.phase p) (s.phase q) s p q other lives q_lives (h p lives)
              (h q q_lives))
    ]

die-Holds :
    (overwrite : Bool) (s : State) (p q : ℕ) (qh : Phase)
    → p == q ≡ false
    → Holds q qh s
    → Holds q qh (step overwrite (die p) s)
unfolding step update is_live is_early
die-Holds overwrite s p q _ other h = ground (arith, other, h)

step-Inv :
    (overwrite : Bool) (e : Event) (s : State)
    → is_patient e s ≡ true
    → Inv s
    → Inv (step overwrite e s)
unfolding is_patient update step
step-Inv overwrite (move p) s patient h = elim (Bool-cases (s.alive p)) [
  | inl lives ↦ rw (step, lives) (act-Inv overwrite s p lives (ground (arith, patient, lives)) h)
  | inr dead ↦ rw (step, dead) h
]
step-Inv overwrite (die p) s patient h = λ q q_lives.
    die-Holds overwrite s p q (s.phase q) (ground (arith, q_lives)) (h q (ground (arith, q_lives)))

-- No process looks at an unwritten lock, all along.
unfoldable pub is_patient_run : Bool → List Event → State → Bool
unfolding is_patient step
is_patient_run overwrite [] s = true
is_patient_run overwrite (e ∷ es) s =
    is_patient e s && is_patient_run overwrite es (step overwrite e s)

run-Inv :
    (overwrite : Bool) (es : List Event) (s : State)
    → is_patient_run overwrite es s ≡ true
    → Inv s
    → Inv (run overwrite es s)
unfolding run is_patient_run
run-Inv overwrite [] s patient h = h
run-Inv overwrite (e ∷ es) s patient h =
    run-Inv overwrite es (step overwrite e s) (ground (arith, patient))
      (step-Inv overwrite e s (ground (arith, patient)) h)

start-Inv : Inv start
unfolding start
start-Inv p lives = tt

-- reserve_result has returned, and write_result has neither finished nor failed.
unfoldable pub is_reserved : Phase → Bool
is_reserved reserved = true
is_reserved saving = true
is_reserved checked = true
is_reserved linked = true
is_reserved _ = false

reserved-lock :
    (p : ℕ) (ph : Phase) (s : State)
    → is_reserved ph ≡ true
    → Holds p ph s
    → s.lock ≡ lock_of p (some p)
unfolding is_reserved
reserved-lock p _ s r h = ground (arith, r, h)

-- If no process looks at a lock that has not been written yet, no two living processes have a
-- reservation at one time, and the lock names the one that has it.
pub run_exclusive :
    (overwrite : Bool) (es : List Event) (p q : ℕ)
    → is_patient_run overwrite es start ≡ true
    → (run overwrite es start).alive p ≡ true
    → (run overwrite es start).alive q ≡ true
    → is_reserved ((run overwrite es start).phase p) ≡ true
    → is_reserved ((run overwrite es start).phase q) ≡ true
    → (p ≡ q) × ((run overwrite es start).lock ≡ lock_of p (some p))
run_exclusive overwrite es p q patient p_lives q_lives p_reserved q_reserved =
    let end = run overwrite es start in
    let inv = run-Inv overwrite es start patient start-Inv in
    let p_lock = reserved-lock p (end.phase p) end p_reserved (inv p p_lives) in
    let q_lock = reserved-lock q (end.phase q) end q_reserved (inv q q_lives) in
    (ground (arith, p_lock, q_lock), p_lock)
