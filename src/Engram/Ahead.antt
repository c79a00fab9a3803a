-- ===== src/Engram/Ahead.antt =====
-- What the lookahead queues.
use mathlib.Core.Path.{subst}
use v_llm_moet.Prelude.{
  ℕ, ◌+◌, ◌*◌, ◌≤◌, ◌<◌, ◌≡◌, refl, List, [], ◌∷◌, ◌++◌, ltb, arith, length, Bool-cases, inl, inr,
  ◌⊎◌,
}
use v_llm_moet.Engram.{Request, Job, Config, window, look_ahead}

-- The jobs of a prompt follow one another, from a position on.
abbrev pub Follow : ℕ → List ℕ → List Job → Type 0
Follow from prompt [] = Unit
Follow from prompt (j ∷ js) =
    (j.prompt ≡ prompt)
    × (from ≤ j.start)
    × (j.start < j.end)
    × (j.end ≤ length prompt)
    × Follow j.end prompt js

-- The steps of one request, at the positions after their chunks.
unfoldable pub look_all : Config → Request → List ℕ → Request × List Job
unfolding look_ahead
look_all c r [] = (r, [])
look_all c r (pos ∷ ps) =
    let (r', jobs) = look_ahead c r pos in
    let (end, later) = look_all c r' ps in (end, jobs ++ later)

-- A position is in one of the jobs.
abbrev pub IsQueued : ℕ → List Job → Type 0
IsQueued p [] = ⊥
IsQueued p (j ∷ js) = ((j.start ≤ p) × (p < j.end)) ⊎ IsQueued p js

-- The positions do not go back.
abbrev pub NotBefore : ℕ → List ℕ → Type 0
NotBefore pos [] = Unit
NotBefore pos (q ∷ qs) = (pos ≤ q) × NotBefore pos qs

abbrev pub Ascending : List ℕ → Type 0
Ascending [] = Unit
Ascending (pos ∷ ps) = NotBefore pos ps × Ascending ps

-- Each position of the prompt in the chunks ahead of a step is in a job, if it was not queued before
-- the first step.
abbrev pub IsCovered : Config → Request → List Job → List ℕ → Type 0
IsCovered c r jobs [] = Unit
IsCovered c r jobs (pos ∷ ps) =
    ((p : ℕ)
      → pos ≤ p
      → p < length r.prompt
      → p < pos + c.ahead * c.chunk
      → r.queued_to ≤ p
      → IsQueued p jobs)
    × IsCovered c r jobs ps

pub window-bounds :
    (c : Config) (r : Request) (pos : ℕ)
    → (r.queued_to ≤ (window c r pos).0)
      × (pos ≤ (window c r pos).0)
      × ((window c r pos).1 ≤ length r.prompt)
      × ((window c r pos).1 ≤ pos + c.ahead * c.chunk)
unfolding window
window-bounds c r pos = (ground arith, ground arith, ground arith, ground arith)

look_ahead-Follow :
    (c : Config) (r : Request) (pos : ℕ) (later : List Job)
    → Follow (look_ahead c r pos).0.queued_to r.prompt later
    → Follow r.queued_to r.prompt ((look_ahead c r pos).1 ++ later)
unfolding look_ahead
look_ahead-Follow c r pos later h =
    let (from, after, inside, near) = window-bounds c r pos in
    elim (Bool-cases (ltb (window c r pos).0 (window c r pos).1)) [
      | inl some_left ↦
          let rest = rw (look_ahead, some_left) at h in
          rw (look_ahead, some_left) (refl, from, ground (arith, some_left), inside, rest)
      | inr none_left ↦ rw (look_ahead, none_left) (rw (look_ahead, none_left) at h)
    ]

look_ahead_keeps :
    (c : Config) (r : Request) (pos : ℕ)
    → ((look_ahead c r pos).0.prompt ≡ r.prompt) × (r.queued_to ≤ (look_ahead c r pos).0.queued_to)
unfolding look_ahead window
look_ahead_keeps c r pos = (ground arith, ground arith)

IsQueued-later : (p : ℕ) (jobs later : List Job) → IsQueued p later → IsQueued p (jobs ++ later)
IsQueued-later p [] later h = h
IsQueued-later p (j ∷ jobs) later h = inr (IsQueued-later p jobs later h)

-- From a step's position on, what is below the new mark was below the old one or is in the step's job.
look_ahead_queues :
    (c : Config) (r : Request) (pos p : ℕ) (later : List Job)
    → pos ≤ p
    → p < (look_ahead c r pos).0.queued_to
    → (p < r.queued_to) ⊎ IsQueued p ((look_ahead c r pos).1 ++ later)
unfolding look_ahead window
look_ahead_queues c r pos p later after marked =
    elim (Bool-cases (ltb (window c r pos).0 (window c r pos).1)) [
      | inl some_left ↦
          let below = rw (look_ahead, some_left) at marked in
          elim (Bool-cases (ltb p r.queued_to)) [
            | inl before ↦ inl (ground (arith, before))
            | inr fresh ↦
                inr (rw (look_ahead, some_left) (inl (ground (arith, fresh, after), below)))
          ]
      | inr none_left ↦ inl (rw (look_ahead, none_left) at marked)
    ]

look_ahead_covers :
    (c : Config) (r : Request) (pos p : ℕ)
    → pos ≤ p
    → p < length r.prompt
    → p < pos + c.ahead * c.chunk
    → p < (look_ahead c r pos).0.queued_to
unfolding look_ahead window
look_ahead_covers c r pos p after inside near = ground (arith, after, inside, near)

-- A position in the chunks ahead of one of the steps.
abbrev IsAhead : Config → ℕ → List ℕ → Type 0
IsAhead c p [] = ⊥
IsAhead c p (pos ∷ ps) = ((pos ≤ p) × (p < pos + c.ahead * c.chunk)) ⊎ IsAhead c p ps

ahead-NotBefore :
    (c : Config) (pos p : ℕ) (ps : List ℕ) → NotBefore pos ps → IsAhead c p ps → pos ≤ p
ahead-NotBefore c pos p [] none_left at = elim at [ ]
ahead-NotBefore c pos p (q ∷ ps) (le, les) (inl (after, near)) = omega arith
ahead-NotBefore c pos p (q ∷ ps) (le, les) (inr later) = ahead-NotBefore c pos p ps les later

look_all_queues :
    (c : Config) (r : Request) (ps : List ℕ) (p : ℕ)
    → Ascending ps
    → p < length r.prompt
    → IsAhead c p ps
    → (p < r.queued_to) ⊎ IsQueued p (look_all c r ps).1
unfolding look_all
look_all_queues c r [] p up inside at = elim at [ ]
look_all_queues c r (pos ∷ ps) p (les, up) inside (inl (after, near)) =
    look_ahead_queues c r pos p (look_all c (look_ahead c r pos).0 ps).1 after
      (look_ahead_covers c r pos p after inside near)
look_all_queues c r (pos ∷ ps) p (les, up) inside (inr later) =
    let r' = (look_ahead c r pos).0 in
    let jobs = (look_ahead c r pos).1 in
    let (same, more) = look_ahead_keeps c r pos in
    elim (look_all_queues c r' ps p up (rw same inside) later) [
      | inl below ↦
          look_ahead_queues c r pos p (look_all c r' ps).1 (ahead-NotBefore c pos p ps les later)
            below
      | inr queued ↦ inr (IsQueued-later p jobs (look_all c r' ps).1 queued)
    ]

look_all-IsCovered :
    (c : Config) (r : Request) (jobs : List Job) (ps : List ℕ)
    → ((p : ℕ) → p < length r.prompt → IsAhead c p ps → (p < r.queued_to) ⊎ IsQueued p jobs)
    → IsCovered c r jobs ps
look_all-IsCovered c r jobs [] h = tt
look_all-IsCovered c r jobs (pos ∷ ps) h = (
  λ p after inside near fresh. elim (h p inside (inl (after, near))) [
    | inl below ↦ absurd (omega arith)
    | inr queued ↦ queued
  ],
  look_all-IsCovered c r jobs ps (λ p inside ahead. h p inside (inr ahead)),
)

look_all-jobs :
    (c : Config) (r : Request) (ps : List ℕ) → Follow r.queued_to r.prompt (look_all c r ps).1
unfolding look_all
look_all-jobs c r [] = tt
look_all-jobs c r (pos ∷ ps) =
    let r' = (look_ahead c r pos).0 in
    let (same, more) = look_ahead_keeps c r pos in
    look_ahead-Follow c r pos (look_all c r' ps).1 (
      subst (λ prompt. Follow r'.queued_to prompt (look_all c r' ps).1) same
        (look_all-jobs c r' ps))

-- Over the steps of a request at positions that do not go back, its jobs follow one another in its
-- prompt from what was queued before, so that no position is queued twice, and each position of the
-- prompt in the chunks ahead of a step is in a job, if it was not queued before.
pub look_all-Follow :
    (c : Config) (r : Request) (ps : List ℕ)
    → Ascending ps
    → Follow r.queued_to r.prompt (look_all c r ps).1 × IsCovered c r (look_all c r ps).1 ps
look_all-Follow c r ps up = (
  look_all-jobs c r ps,
  look_all-IsCovered c r (look_all c r ps).1 ps (λ p. look_all_queues c r ps p up),
)
