-- ===== src/PatchFiles/Update.antt =====
-- `update` of tools/check_patch_files.py: the refusals, and the three files that it writes.
use v_llm_moet.Prelude.{
  ℕ, Bool, true, false, ◌||◌, Option, none, some, List, [], ◌∷◌, ◌++◌, if◌then◌else◌, Result, ok,
  raise, ◌>>=◌, ◌>>◌, guard, Text, text, text_eq, starts_with, is_blank,
}
use v_llm_moet.PatchFiles.{
  Lines, Tree, Clone, Exit, no_clone, branch_lags, unknown_source, rolls_back, empty_diff,
  patch_files, read_source, check,
}

-- `FILES_HEADER` and `SOURCE_HEADER`
abbrev pub files_header : Lines
files_header =
    text "# Files touched by patch/vllm-moet-v0.24.0.patch (sorted; generated by"
    ∷ text "# tools/check_patch_files.py --update, verified by CI bench-lint)."
    ∷ text "# A file DISAPPEARING from this list means a line of work exists in the"
    ∷ text "# patch but not in the vllm fork branch the patch is generated from —"
    ∷ text "# merge it into the branch first; do not ship the regeneration."
    ∷ []

abbrev pub source_header : Lines
source_header =
    text "# The vllm fork-branch commit patch/vllm-moet-v0.24.0.patch was generated"
    ∷ text "# from (branch moet-v0.24.0, diffed against the v0.24.0 tag). Written by"
    ∷ text "# tools/check_patch_files.py --update, byte-verified wherever a fork"
    ∷ text "# clone is available (dev boxes; CI has none). Regenerations only move"
    ∷ text "# this FORWARD along the branch - see AGENTS.md. Never edit by hand."
    ∷ []

-- `p in s`, for a text in a line.
unfoldable pub holds : Text → Text → Bool
unfolding starts_with
holds p [] = is_blank p
holds p (c ∷ s) = starts_with p (c ∷ s) || holds p s

unfoldable pub any_line_holds : Text → Lines → Bool
unfolding holds
any_line_holds p [] = false
any_line_holds p (l ∷ ls) = holds p l || any_line_holds p ls

-- The lines of `"\n".join(files) + "\n"`.
unfoldable pub joined : List Text → Lines
joined [] = text "" ∷ []
joined (f ∷ fs) = f ∷ fs

-- The pushed branch is an ancestor of the local one, if there is a pushed branch.
unfoldable pub has_pushed : Clone → Bool
has_pushed git = elim git.remote_tip [ none ↦ true | some remote ↦ git.ancestor remote git.tip ]

-- The recorded source, if it is another commit, is known and an ancestor of the tip.
unfoldable pub moves_forward : Clone → Option Text → Result Exit (Unit {0})
moves_forward git none = ok tt
moves_forward git (some old) =
    if text_eq old git.tip
    then ok tt
    else guard (git.known old) unknown_source >> guard (git.ancestor old git.tip) rolls_back

unfoldable pub regenerated : Clone → Tree
unfolding patch_files joined
regenerated git =
    let diff = git.diff git.tip in
    record {
      patch = diff;
      listed = some (files_header ++ joined (patch_files diff));
      source = some (source_header ++ git.tip ∷ []);
    }

unfoldable pub update : Option Clone → Tree → Result Exit (Tree × ℕ)
unfolding has_pushed moves_forward any_line_holds regenerated check read_source
update none t = raise no_clone
update (some git) t = do
  guard (has_pushed git) branch_lags
  old ← read_source t.source
  moves_forward git old
  guard (any_line_holds (text "diff --git") (git.diff git.tip)) empty_diff
  code ← check (some git) (regenerated git)
  ok (regenerated git, code)

-- `main`: with `--update` or without.
unfoldable pub run_main : Bool → Option Clone → Tree → Result Exit (Tree × ℕ)
unfolding update check
run_main false clone t = do code ← check clone t; ok (t, code)
run_main true clone t = update clone t
