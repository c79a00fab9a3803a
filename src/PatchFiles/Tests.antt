-- ===== src/PatchFiles/Tests.antt =====
-- The patch guard on a small tree.
use v_llm_moet.Prelude.{
  ◌≡◌, ◌↔◌, refl, Bool, true, none, some, [], ◌∷◌, ◌++◌, ok, Text, text, text_eq, ◌||◌,
  text_eq_refl, is_space, is_blank, text_eq_iff, arith, raise,
}
use v_llm_moet.PatchFiles.{
  Lines, Tree, Clone, rolls_back, patch_files, check_files, read_source, is_index_line, is_sha,
}
use v_llm_moet.PatchFiles.Check.{IsInStep, check_files_code}
use v_llm_moet.PatchFiles.Update.{
  update, regenerated, any_line_holds, has_pushed, moves_forward, source_header,
}
use v_llm_moet.PatchFiles.Forward.{IsClone, update_regenerates, run_updates, run_updates_forward}

abbrev first_sha : Text
first_sha = text "0000000000000000000000000000000000000001"

abbrev second_sha : Text
second_sha = text "0000000000000000000000000000000000000002"

abbrev diff_lines : Lines
diff_lines =
    text "diff --git a/vllm/b.py b/vllm/b.py"
    ∷ text "index 1f0a..2b3c 100644"
    ∷ text "+x = 1"
    ∷ text "diff --git a/vllm/a.py b/vllm/a.py"
    ∷ []

-- The first commit is an ancestor of every commit, any other one of itself.
unfoldable line_graph : Text → Text → Bool
line_graph a b = text_eq a b || text_eq a first_sha

abbrev clone : Clone
clone = record {
  tip = second_sha;
  remote_tip = none;
  known = λ c. true;
  ancestor = line_graph;
  diff = λ c. diff_lines;
}

abbrev tree : Tree
tree = record { patch = []; listed = none; source = some (source_header ++ first_sha ∷ []) }

files_in_order : patch_files diff_lines ≡ text "vllm/a.py" ∷ text "vllm/b.py" ∷ []
unfolding patch_files is_space text_eq
files_in_order = refl

index_line_is_normalized : is_index_line (text "index 1f0a..2b3c 100644") ≡ true
unfolding is_index_line is_blank
index_line_is_normalized = refl

-- A branch whose tip does not contain the recorded commit is refused.
rollback_is_refused :
    update (some (record clone { ancestor = λ a b. text_eq a b })) tree ≡ raise rolls_back
unfolding update text_eq
rollback_is_refused = refl

-- A touched file whose name starts with "#" reads as a comment: the regeneration fails its check.
abbrev hash_clone : Clone
hash_clone = record clone { diff = λ c. text "diff --git a/#notes b/#notes" ∷ [] }

comment_name_fails : update (some hash_clone) tree ≡ ok (regenerated hash_clone, 1)
unfolding update regenerated text_eq line_graph
comment_name_fails = refl

check_files_code_example : ((check_files tree).code ≡ 0) ↔ IsInStep tree
check_files_code_example = check_files_code tree

clone-IsClone : IsClone clone
unfolding is_sha
clone-IsClone = record { tip_is_sha = refl; tip_known = refl }

recorded_first : read_source tree.source ≡ ok (some first_sha)
unfolding read_source
recorded_first = refl

update_regenerates_example : update (some clone) tree ≡ ok (regenerated clone, 0)
unfolding patch_files has_pushed moves_forward line_graph any_line_holds is_space text_eq
update_regenerates_example =
    update_regenerates clone tree (some first_sha) clone-IsClone (refl, (refl, tt)) refl
      recorded_first refl refl

line_graph_refl : (a : Text) → line_graph a a ≡ true
unfolding line_graph
line_graph_refl a = ground (arith, text_eq_refl a)

line_graph_trans :
    (a b c : Text) → line_graph a b ≡ true → line_graph b c ≡ true → line_graph a c ≡ true
unfolding line_graph
line_graph_trans a b c h k = ground (
  arith,
  text_eq_iff a b,
  text_eq_iff b c,
  text_eq_iff a first_sha,
  text_eq_iff b first_sha,
  text_eq_iff a c,
  text_eq_refl a,
)

one_update : run_updates (clone ∷ []) tree ≡ ok (regenerated clone)
unfolding run_updates update regenerated text_eq line_graph
one_update = refl

run_updates_forward_example :
    (new : Text) × (read_source (regenerated clone).source ≡ ok (some new))
    × (line_graph first_sha new ≡ true)
run_updates_forward_example =
    run_updates_forward line_graph line_graph_refl line_graph_trans (clone ∷ []) tree
      (regenerated clone) first_sha ((clone-IsClone, refl), tt) one_update recorded_first
