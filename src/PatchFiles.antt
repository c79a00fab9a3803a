-- ===== src/PatchFiles.antt =====
-- The guard of the generated patch (tools/check_patch_files.py): the two fingerprints, their check
-- and the regeneration. Files are the lists of their lines; the fork clone is a parameter.
pub mod Sets
mod Tests
mod Written
pub mod Update
pub mod Check
pub mod Forward
use v_llm_moet.Prelude.{
  ℕ, zero, suc, Bool, true, false, not, ◌&&◌, ◌||◌, Option, none, some, List, [], ◌∷◌, ◌++◌, map,
  ltb, leb, ◌==◌, if◌then◌else◌, Result, ok, raise, ◌>>=◌, ◌>>◌, guard, Text, text, text_eq,
  after_prefix, starts_with, contains_text, is_space, is_blank, strip, length, span,
}

abbrev pub Lines : Type 0
Lines = List Text

-- The three files under patch/; the patch is always there.
pub record Tree : Type 0 where
  pub patch : Lines
  pub listed : Option Lines
  pub source : Option Lines

pub data Exit : Type 0 where
  no_clone branch_lags unknown_source rolls_back empty_diff malformed_source : Exit

-- What the code asks of a fork clone: the commit of the branch, that of the remote branch if there
-- is one, which commits are known, which are ancestors of which, and the diff of a commit against
-- the base tag.
pub record Clone : Type 0 where
  pub tip : Text
  pub remote_tip : Option Text
  pub known : Text → Bool
  pub ancestor : Text → Text → Bool
  pub diff : Text → Lines

-- `find_fork`: the first candidate that is a directory with the branch; the variable, if it is set
-- and not empty, is the only candidate.
unfoldable pub first_clone : (Text → Bool) → (Text → Bool) → List Text → Option Text
first_clone is_dir has_branch [] = none
first_clone is_dir has_branch (c ∷ cs) =
    if not (is_blank c) && is_dir c && has_branch c
    then some c
    else first_clone is_dir has_branch cs

unfoldable pub find_fork : (Text → Bool) → (Text → Bool) → Option Text → Option Text
unfolding first_clone is_blank
find_fork is_dir has_branch env =
    let defaults = text "/workspace/vllm-v0.24.0" ∷ [] in
    first_clone is_dir has_branch
      (elim env [ none ↦ defaults | some c ↦ if is_blank c then defaults else c ∷ [] ])

abbrev pub is_word : ℕ → Bool
is_word c = not (is_space c)

-- `\S+`
unfoldable pub take_word : Text → Option (Text × Text)
unfolding span
take_word s =
    let (front, rest) = span is_word s in elim front [ [] ↦ none | c ∷ cs ↦ some (c ∷ cs, rest) ]

-- The second group of `^diff --git a/(\S+) b/(\S+)`: what the last word of the line is, once the
-- first word has been read.
unfoldable pub second_name : Option (Text × Text) → Option Text
unfolding after_prefix take_word
second_name none = none
second_name (some (old, rest)) = elim (after_prefix (text " b/") rest) [
  | none ↦ none
  | some s ↦ elim (take_word s) [ none ↦ none | some (new, rest') ↦ some new ]
]

unfoldable pub touched_file : Text → Option Text
unfolding after_prefix take_word second_name
touched_file line = elim (after_prefix (text "diff --git a/") line) [
  | none ↦ none
  | some s ↦ second_name (take_word s)
]

-- The order of texts by code points.
unfoldable pub before : Text → Text → Bool
before [] [] = false
before [] (b ∷ t) = true
before (a ∷ s) [] = false
before (a ∷ s) (b ∷ t) = ltb a b || (a == b && before s t)

-- `sorted` of a set: each text once.
unfoldable pub insert_sorted : Text → List Text → List Text
unfolding before
insert_sorted x [] = x ∷ []
insert_sorted x (y ∷ ys) =
    if text_eq x y then y ∷ ys else if before x y then x ∷ (y ∷ ys) else y ∷ insert_sorted x ys

unfoldable pub sorted_set : List Text → List Text
unfolding insert_sorted
sorted_set [] = []
sorted_set (x ∷ xs) = insert_sorted x (sorted_set xs)

unfoldable pub touched : Lines → List Text
unfolding touched_file
touched [] = []
touched (l ∷ ls) = elim (touched_file l) [ none ↦ touched ls | some f ↦ f ∷ touched ls ]

unfoldable pub patch_files : Lines → List Text
unfolding touched sorted_set
patch_files patch = sorted_set (touched patch)

abbrev pub is_comment : Text → Bool
is_comment l = starts_with (text "#") l

-- `listed_files`, before it is sorted: the check only makes a set of it.
unfoldable pub listed_names : Lines → List Text
unfolding starts_with is_blank strip
listed_names [] = []
listed_names (l ∷ ls) =
    let rest = listed_names ls in
    if not (is_blank (strip l)) && not (is_comment l) then strip l ∷ rest else rest

unfoldable pub listed_files : Option Lines → List Text
unfolding listed_names
listed_files none = []
listed_files (some ls) = listed_names ls

-- A lower-case hexadecimal digit.
unfoldable pub is_hex : ℕ → Bool
is_hex c = (leb b'0' c && leb c b'9') || (leb b'a' c && leb c b'f')

unfoldable pub all_hex : Text → Bool
unfolding is_hex
all_hex [] = true
all_hex (c ∷ s) = is_hex c && all_hex s

-- `_SHA_RE`
unfoldable pub is_sha : Text → Bool
unfolding all_hex
is_sha s = all_hex s && length s == 40

unfoldable pub sha_line : Text → Result Exit (Option Text)
unfolding is_sha
sha_line l = if is_sha l then ok (some l) else raise malformed_source

-- `read_source`, on the lines of the file: the first line that is neither blank nor a comment.
unfoldable pub read_lines : Lines → Result Exit (Option Text)
unfolding sha_line strip is_blank starts_with
read_lines [] = ok none
read_lines (l ∷ ls) =
    let rest = read_lines ls in
    if not (is_blank (strip l)) && not (is_comment (strip l)) then sha_line (strip l) else rest

unfoldable pub read_source : Option Lines → Result Exit (Option Text)
unfolding read_lines
read_source none = ok none
read_source (some ls) = read_lines ls

abbrev pub is_digit : ℕ → Bool
is_digit c = leb b'0' c && leb c b'9'

-- The rest of an index line, `( \d+)?$`.
unfoldable pub is_mode : Text → Bool
unfolding span
is_mode [] = true
is_mode (c ∷ s) =
    let (digits, rest) = span is_digit s in c == 32 && not (is_blank digits) && is_blank rest

-- `[0-9a-f]+` and what follows it.
unfoldable pub after_hex : Text → Option Text
unfolding span is_hex
after_hex s = let (front, rest) = span is_hex s in if is_blank front then none else some rest

-- `_INDEX_RE`
unfoldable pub is_index_line : Text → Bool
unfolding after_prefix after_hex is_mode
is_index_line l = elim (after_prefix (text "index ") l) [
  | none ↦ false
  | some s ↦ elim (after_hex s) [
    | none ↦ false
    | some s' ↦ elim (after_prefix (text "..") s') [
      | none ↦ false
      | some s'' ↦ elim (after_hex s'') [ none ↦ false | some rest ↦ is_mode rest ]
    ]
  ]
]

unfoldable pub normalized : Lines → Lines
unfolding is_index_line
normalized ls = map (λ l. if is_index_line l then text "index" else l) ls

unfoldable pub same_lines : Lines → Lines → Bool
same_lines [] [] = true
same_lines [] (b ∷ bs) = false
same_lines (a ∷ as') [] = false
same_lines (a ∷ as') (b ∷ bs) = text_eq a b && same_lines as' bs

-- `sorted(set(xs) - set(ys))`
unfoldable pub difference : List Text → List Text → List Text
unfolding contains_text insert_sorted
difference [] ys = []
difference (x ∷ xs) ys =
    let rest = difference xs ys in if contains_text ys x then rest else insert_sorted x rest

-- What `check_files` reports, and its exit code.
pub record Report : Type 0 where
  pub missing : List Text
  pub extra : List Text
  pub code : ℕ

abbrev pub is_none_left : List Text → Bool
is_none_left = elim [ [] ↦ true | f ∷ fs ↦ false ]

unfoldable pub check_files : Tree → Report
unfolding patch_files listed_files difference
check_files t =
    let actual = patch_files t.patch in
    let expected = listed_files t.listed in
    let missing = difference expected actual in
    let extra = difference actual expected in
    record {
      missing = missing;
      extra = extra;
      code = if is_none_left missing && is_none_left extra then 0 else 1;
    }

-- `check_source` once the recorded commit has been read.
unfoldable pub verify_source : Option Clone → Tree → Option Text → ℕ
unfolding normalized same_lines
verify_source clone t none = 1
verify_source none t (some sha) = 0
verify_source (some git) t (some sha) =
    if not (git.known sha)
    then 1
    else if same_lines (normalized (git.diff sha)) (normalized t.patch)
    then 0
    else 1

unfoldable pub check_source : Option Clone → Tree → Result Exit ℕ
unfolding read_source verify_source
check_source clone t = do sha ← read_source t.source; ok (verify_source clone t sha)

-- `a | b`, for the codes 0 and 1.
abbrev pub or_code : ℕ → ℕ → ℕ
or_code a b = if a == 0 then b else 1

unfoldable pub check : Option Clone → Tree → Result Exit ℕ
unfolding check_files check_source
check clone t = do code ← check_source clone t; ok (or_code (check_files t).code code)
