-- ===== src/PatchFiles/Forward.antt =====
-- A regeneration passes its own check, and the recorded commit only moves forward.
use mathlib.Core.Path.{subst}
use v_llm_moet.Prelude.{
  ℕ, ◌≡◌, refl, sym, ap, ◌∙◌, Bool, true, false, Option, some, List, [], ◌∷◌, Text, text, text_eq,
  text_eq_iff, All, Bool-cases, inl, inr, Result, ok, ◌>>=◌, ◌>>◌, guard, >>=-eq-ok, contains_text,
}
use v_llm_moet.PatchFiles.{
  Clone, Tree, Exit, branch_lags, unknown_source, rolls_back, empty_diff, patch_files, is_comment,
  is_sha, listed_files, read_source, normalized, check_files, verify_source, check_source, check,
}
use v_llm_moet.PatchFiles.Check.{IsInStep, check_files_code}
use v_llm_moet.PatchFiles.Written.{
  same_lines_refl, patch_files-AreNames, listed_names-joined, read_lines-sha,
}
use v_llm_moet.PatchFiles.Update.{has_pushed, moves_forward, any_line_holds, regenerated, update}

-- The branch's tip is a full commit that the clone knows.
pub record IsClone (git : Clone) : Type 0 where
  pub tip_is_sha : is_sha git.tip ≡ true
  pub tip_known : git.known git.tip ≡ true

-- No name that the regenerated list would hold reads as a comment.
abbrev pub HasNoComments : Clone → Type 0
HasNoComments git = All (λ f. is_comment f ≡ false) (patch_files (git.diff git.tip))

regenerated_source :
    (git : Clone) → IsClone git → read_source (regenerated git).source ≡ ok (some git.tip)
unfolding read_source regenerated
regenerated_source git h = read_lines-sha git.tip h.tip_is_sha

regenerated-IsInStep : (git : Clone) → HasNoComments git → IsInStep (regenerated git)
unfolding regenerated listed_files
regenerated-IsInStep git h f =
    let files = patch_files (git.diff git.tip) in
    ap (λ fs. contains_text fs f)
      (sym (listed_names-joined files (patch_files-AreNames (git.diff git.tip)) h))

regenerated_code : (git : Clone) → HasNoComments git → (check_files (regenerated git)).code ≡ 0
regenerated_code git h = (check_files_code (regenerated git)).1 (regenerated-IsInStep git h)

regenerated_verified :
    (git : Clone) → IsClone git → verify_source (some git) (regenerated git) (some git.tip) ≡ 0
unfolding verify_source regenerated
regenerated_verified git h = rw (h.tip_known, same_lines_refl (normalized (git.diff git.tip))) refl

regenerated_passes :
    (git : Clone) → IsClone git → HasNoComments git → check (some git) (regenerated git) ≡ ok 0
unfolding check check_source
regenerated_passes git h k =
    rw (regenerated_source git h, regenerated_verified git h, regenerated_code git k) refl

-- `update` on a clone that has what was pushed, with a recorded source that the tip contains, and
-- with a diff: it writes the regenerated files, and they pass the check.
pub update_regenerates :
    (git : Clone) (t : Tree) (old : Option Text)
    → IsClone git
    → HasNoComments git
    → has_pushed git ≡ true
    → read_source t.source ≡ ok old
    → moves_forward git old ≡ ok tt
    → any_line_holds (text "diff --git") (git.diff git.tip) ≡ true
    → update (some git) t ≡ ok (regenerated git, 0)
unfolding update
update_regenerates git t old h k pushed read forward some_diff =
    rw (pushed, read, forward, some_diff, regenerated_passes git h k) refl

-- The runs of `update` on the states that the clone goes through.
unfoldable pub run_updates : List Clone → Tree → Result Exit Tree
run_updates [] t = ok t
run_updates (git ∷ gits) t = do (t', code) ← update (some git) t; run_updates gits t'

guard-eq-ok : (b : Bool) (e : Exit) → guard b e ≡ ok tt → b ≡ true
guard-eq-ok true e h = refl
guard-eq-ok false e h = cc

module _ (graph : Text → Text → Bool) (graph_refl : (a : Text) → graph a a ≡ true)
    (graph_trans : (a b c : Text) → graph a b ≡ true → graph b c ≡ true → graph a c ≡ true) where
  -- One graph of commits, of which the clones see the branch at different tips.
  abbrev pub IsOnGraph : Clone → Type 0
  IsOnGraph git = IsClone git × (git.ancestor ≡ graph)

  moved :
      (git : Clone) (old : Text)
      → IsOnGraph git
      → moves_forward git (some old) ≡ ok tt
      → graph old git.tip ≡ true
  unfolding moves_forward
  moved git old (c, g) h = elim (Bool-cases (text_eq old git.tip)) [
    | inl same ↦
        subst (λ tip. graph old tip ≡ true) ((text_eq_iff old git.tip).0 same) (graph_refl old)
    | inr other ↦
        let h' : (guard (git.known old) unknown_source
              >> guard (git.ancestor old git.tip) rolls_back)
            ≡ ok tt =
          rw other at h in
        let later = >>=-eq-ok (guard (git.known old) unknown_source) _ h' in
        sym (ap (λ (f : Text → Text → Bool). f old git.tip) g) ∙ guard-eq-ok _ rolls_back later.2
  ]

  update_moves :
      (git : Clone) (t t' : Tree) (code : ℕ) (old : Text)
      → IsOnGraph git
      → update (some git) t ≡ ok (t', code)
      → read_source t.source ≡ ok (some old)
      → (read_source t'.source ≡ ok (some git.tip)) × (graph old git.tip ≡ true)
  unfolding update
  update_moves git t t' code old g e read =
      let pushed = >>=-eq-ok (guard (has_pushed git) branch_lags) _ e in
      let recorded = >>=-eq-ok (read_source t.source) _ pushed.2 in
      let forward = >>=-eq-ok (moves_forward git recorded.0) _ recorded.2 in
      let full =
        >>=-eq-ok (guard (any_line_holds (text "diff --git") (git.diff git.tip)) empty_diff) _
          forward.2 in
      let checked = >>=-eq-ok (check (some git) (regenerated git)) _ full.2 in
      let same : recorded.0 ≡ some old = cc in
      let tree : regenerated git ≡ t' = cc in
      (
        subst (λ u. read_source u.source ≡ ok (some git.tip)) tree (regenerated_source git g.0),
        moved git old g (subst (λ o. moves_forward git o ≡ ok tt) same forward.1),
      )

  -- However often the patch is regenerated, the commit that was recorded at first is an ancestor of
  -- the one recorded at the end.
  pub run_updates_forward :
      (gits : List Clone) (t t' : Tree) (old : Text)
      → All IsOnGraph gits
      → run_updates gits t ≡ ok t'
      → read_source t.source ≡ ok (some old)
      → (new : Text) × (read_source t'.source ≡ ok (some new)) × (graph old new ≡ true)
  unfolding run_updates
  run_updates_forward [] t t' old g e read =
      let same : t ≡ t' = cc in
      (old, subst (λ u. read_source u.source ≡ ok (some old)) same read, graph_refl old)
  run_updates_forward (git ∷ gits) t t' old (g, gs) e read =
      let one = >>=-eq-ok (update (some git) t) _ e in
      let (moved_source, above) = update_moves git t one.0.0 one.0.1 old g one.1 read in
      let rest = run_updates_forward gits one.0.0 t' git.tip gs one.2 moved_source in
      (rest.0, rest.1, graph_trans old git.tip rest.0 above rest.2)
