-- ===== src/Prefill/Loop.antt =====
-- The loop of `_run_rounds` returns, and its output has the parts of all rounds.
use v_llm_moet.Prelude.{
  ℕ, suc, ◌%◌, ◌<◌, Bool, true, false, if◌then◌else◌, List, [], ◌∷◌, Option, ok, ◌≡◌, refl, ap, ◌∙◌,
  arith,
}
use v_llm_moet.Prefill.Routing.{Ids, map_rows, has_vidx}
use v_llm_moet.Prefill.Rounds.{
  PrefillConfig, Record, Sets, count_prefetch, stage_round, same_list, Output, add_read,
  set_of_round, stage_next, run_round, run_rounds,
}
use v_llm_moet.Prefill.Reads.{part_of}
use v_llm_moet.Prefill.Stages.{
  IsStaged, Works, stage_round-Stages, same_list_self, sum_parts, run_round-eq, run_round-others,
}

pub same-IsStaged :
    (v i : ℕ) (rnd : List ℕ) (s s' : Sets)
    → s'.at i ≡ s.at i
    → IsStaged v i rnd s
    → IsStaged v i rnd s'
same-IsStaged v i rnd s s' same staged = record {
  staged = ap (λ set. set.staged) same ∙ staged.staged;
  pool_before = staged.pool_before;
  pool = ap (λ set. set.pool) same ∙ staged.pool;
}

-- With overlap the next round is staged in its set.
abbrev pub Ready : PrefillConfig → Bool → ℕ → List (List ℕ) → Sets → Type 0
Ready c false r rounds s = Unit
Ready c true r [] s = Unit
Ready c true r (rnd ∷ rounds) s = IsStaged (c.v) (r % 2) rnd s

module _ (c : PrefillConfig) (works : Works c) (some_slices : 0 < c.v) (layer : ℕ) where
  stage_here :
      (overlapped : Bool) (r : ℕ) (rnd : List ℕ) (rounds : List (List ℕ)) (s : Sets)
      → Ready c overlapped r (rnd ∷ rounds) s
      → (s' : Sets) × ((if overlapped
            then ok s
            else stage_round c (set_of_round overlapped r) layer rnd s)
          ≡ ok s')
        × IsStaged (c.v) (set_of_round overlapped r) rnd s'
  unfolding set_of_round
  stage_here true r rnd rounds s ready = (s, refl, ready)
  stage_here false r rnd rounds s ready =
      let staged = stage_round-Stages c 0 layer rnd s works in
      (staged.after, staged.returns, staged.stages)

  stage_ahead :
      (overlapped : Bool) (r : ℕ) (rounds : List (List ℕ)) (s : Sets)
      → (s' : Sets) × (stage_next c overlapped layer r rounds s ≡ ok s')
        × (s'.at (set_of_round overlapped r) ≡ s.at (set_of_round overlapped r))
        × Ready c overlapped (suc r) rounds s'
  unfolding stage_next set_of_round count_prefetch
  stage_ahead false r [] s = (s, refl, refl, tt)
  stage_ahead true r [] s = (s, refl, refl, tt)
  stage_ahead false r (next ∷ rounds) s = (s, refl, refl, tt)
  stage_ahead true r (next ∷ rounds) s =
      let staged = stage_round-Stages c (suc r % 2) layer next s works in
      (
        count_prefetch (staged.after),
        rw (staged.returns) refl,
        staged.others (r % 2) (omega arith),
        same-IsStaged (c.v) (suc r % 2) next (staged.after) _ refl (staged.stages),
      )

  run_ahead :
      (overlapped : Bool) (r : ℕ) (rnd : List ℕ) (rounds : List (List ℕ)) (ids : Ids) (s : Sets)
      (out : Output)
      → Ready c overlapped (suc r) rounds s
      → Ready c overlapped
          (suc r)
          rounds
          ((run_round c (set_of_round overlapped r) rnd ids (s, out)).0)
  unfolding set_of_round
  run_ahead false r rnd rounds ids s out ready = tt
  run_ahead true r rnd [] ids s out ready = tt
  run_ahead true r rnd (next ∷ rounds) ids s out ready =
      same-IsStaged (c.v) (suc r % 2) next s _
        (run_round-others c (r % 2) rnd ids s out (suc r % 2) (omega arith)) ready

  pub run_rounds-sum :
      (overlapped : Bool) (ids : Ids) (r : ℕ) (rounds : List (List ℕ)) (s : Sets)
      (acc : ℕ → Option ℕ → List Record)
      → has_vidx (c.v) ids ≡ true
      → Ready c overlapped r rounds s
      → (s' : Sets) × (run_rounds c overlapped layer ids r rounds (s, map_rows acc ids)
          ≡ ok (s', map_rows (sum_parts (c.v) rounds acc) ids))
  unfolding run_rounds sum_parts
  run_rounds-sum overlapped ids r [] s acc fits ready = (s, refl)
  run_rounds-sum overlapped ids r (rnd ∷ rounds) s acc fits ready =
      let i = set_of_round overlapped r in
      let here = stage_here overlapped r rnd rounds s ready in
      let ahead = stage_ahead overlapped r rounds (here.0) in
      let staged = same-IsStaged (c.v) i rnd (here.0) (ahead.0) (ahead.2) (here.2) in
      let checked : same_list (((here.0).at (set_of_round overlapped r)).staged) rnd ≡ true =
        rw (here.2.staged) (same_list_self rnd) in
      let run = run_round-eq c i rnd ids (ahead.0) acc some_slices staged in
      let after = (run_round c i rnd ids (ahead.0, map_rows acc ids)).0 in
      let rest =
        run_rounds-sum overlapped ids (suc r) rounds after
          (λ col id. add_read (acc col id) (part_of (c.v) rnd col id)) fits
          (run_ahead overlapped r rnd rounds ids (ahead.0) (map_rows acc ids) (ahead.3)) in
      (
        rest.0,
        rw (here.1, checked, ahead.1, fits)
            (ap (λ out'. run_rounds c overlapped layer ids (suc r) rounds (after, out')) run
              ∙ rest.1),
      )
