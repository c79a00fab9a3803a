-- ===== src/PatchFiles/Written.antt =====
-- What `update` writes reads back: the list of the touched files, and the recorded commit.
use mathlib.Core.Path.{subst}
use v_llm_moet.Prelude.{
  span, ℕ, ◌≡◌, refl, ap, ◌∙◌, true, false, Option, none, some, List, [], ◌∷◌, ◌++◌, arith, Text,
  text, text_eq, text_eq_refl, after_prefix, starts_with, is_space, is_blank, lstrip, rstrip, strip,
  All, Bool-cases, inl, inr, ok,
}
use v_llm_moet.PatchFiles.{
  Lines, before, is_word, take_word, second_name, touched_file, insert_sorted, sorted_set, touched,
  patch_files, is_comment, listed_names, is_hex, all_hex, is_sha, sha_line, read_lines, same_lines,
}
use v_llm_moet.PatchFiles.Update.{files_header, source_header, joined}

abbrev pub AllWords : Text → Type 0
AllWords = All (λ c. is_space c ≡ false)

-- A name: not empty, and without white space.
abbrev pub IsName : Text → Type 0
IsName f = (is_blank f ≡ false) × AllWords f

span-AllWords : (s : Text) → AllWords (span is_word s).0
unfolding span
span-AllWords [] = tt
span-AllWords (c ∷ s) = elim (Bool-cases (is_space c)) [
  | inl h ↦ rw h tt
  | inr h ↦ rw h (h, span-AllWords s)
]

front-IsName :
    (front rest f rest' : Text)
    → (elim front as (λ w. Option (Text × Text)) [ [] ↦ none | c ∷ cs ↦ some (c ∷ cs, rest) ])
      ≡ some (f, rest')
    → AllWords front
    → IsName f
unfolding is_blank
front-IsName [] rest f rest' h a = cc
front-IsName (c ∷ cs) rest f rest' h a = let e : c ∷ cs ≡ f = cc in subst IsName e (refl, a)

take_word-IsName : (s f rest : Text) → take_word s ≡ some (f, rest) → IsName f
unfolding take_word
take_word-IsName s f rest h =
    front-IsName (span is_word s).0 (span is_word s).1 f rest h (span-AllWords s)

taken-IsName :
    (w : Option (Text × Text)) (f : Text)
    → ((g rest : Text) → w ≡ some (g, rest) → IsName g)
    → (elim w as (λ w'. Option Text) [ none ↦ none | some (new, rest) ↦ some new ]) ≡ some f
    → IsName f
taken-IsName none f k h = cc
taken-IsName (some (new, rest)) f k h = let e : new ≡ f = cc in subst IsName e (k new rest refl)

prefixed-IsName :
    (o : Option Text) (f : Text)
    → (elim o as (λ w. Option Text) [
      | none ↦ none
      | some s ↦ elim (take_word s) as (λ w. Option Text) [
        | none ↦ none
        | some (new, rest) ↦ some new
      ]
    ])
      ≡ some f
    → IsName f
prefixed-IsName none f h = cc
prefixed-IsName (some s) f h = taken-IsName (take_word s) f (take_word-IsName s) h

second_name-IsName : (o : Option (Text × Text)) (f : Text) → second_name o ≡ some f → IsName f
unfolding second_name
second_name-IsName none f h = cc
second_name-IsName (some (old, rest)) f h = prefixed-IsName (after_prefix (text " b/") rest) f h

started-IsName :
    (o : Option Text) (f : Text)
    → (elim o as (λ w. Option Text) [ none ↦ none | some s ↦ second_name (take_word s) ]) ≡ some f
    → IsName f
started-IsName none f h = cc
started-IsName (some s) f h = second_name-IsName (take_word s) f h

touched_file-IsName : (l f : Text) → touched_file l ≡ some f → IsName f
unfolding touched_file
touched_file-IsName l f h = started-IsName (after_prefix (text "diff --git a/") l) f h

rstrip_words : (s : Text) → AllWords s → rstrip s ≡ s
unfolding rstrip
rstrip_words [] h = refl
rstrip_words (c ∷ s) h = rw h.0 (ap (λ w. c ∷ w) (rstrip_words s h.1))

lstrip_words : (s : Text) → AllWords s → lstrip s ≡ s
unfolding lstrip
lstrip_words [] h = refl
lstrip_words (c ∷ s) h = rw h.0 refl

strip_name : (f : Text) → IsName f → strip f ≡ f
unfolding strip
strip_name f h = ap lstrip (rstrip_words f h.1) ∙ lstrip_words f h.1

pub same_lines_refl : (ls : Lines) → same_lines ls ls ≡ true
unfolding same_lines
same_lines_refl [] = refl
same_lines_refl (l ∷ ls) = ground (arith, same_lines_refl ls, text_eq_refl l)

insert_sorted-All :
    (P : Text → Type 0) (x : Text) (ys : List Text) → P x → All P ys → All P (insert_sorted x ys)
unfolding insert_sorted
insert_sorted-All P x [] p h = (p, tt)
insert_sorted-All P x (y ∷ ys) p h = elim (Bool-cases (text_eq x y)) [
  | inl same ↦ rw same h
  | inr other ↦ elim (Bool-cases (before x y)) [
    | inl less ↦ rw (other, less) (p, h)
    | inr more ↦ rw (other, more) (h.0, insert_sorted-All P x ys p h.1)
  ]
]

sorted_set-All : (P : Text → Type 0) (xs : List Text) → All P xs → All P (sorted_set xs)
unfolding sorted_set
sorted_set-All P [] h = tt
sorted_set-All P (x ∷ xs) h = insert_sorted-All P x (sorted_set xs) h.0 (sorted_set-All P xs h.1)

touched_line-All :
    (P : Text → Type 0) (o : Option Text) (fs : List Text)
    → ((f : Text) → o ≡ some f → P f)
    → All P fs
    → All P (elim o as (λ w. List Text) [ none ↦ fs | some f ↦ f ∷ fs ])
touched_line-All P none fs k h = h
touched_line-All P (some f) fs k h = (k f refl, h)

touched-AreNames : (ls : Lines) → All IsName (touched ls)
unfolding touched
touched-AreNames [] = tt
touched-AreNames (l ∷ ls) =
    touched_line-All IsName (touched_file l) (touched ls) (touched_file-IsName l)
      (touched-AreNames ls)

pub patch_files-AreNames : (ls : Lines) → All IsName (patch_files ls)
unfolding patch_files
patch_files-AreNames ls = sorted_set-All IsName (touched ls) (touched-AreNames ls)

listed_names_lem :
    (fs : List Text) → All IsName fs → All (λ f. is_comment f ≡ false) fs → listed_names fs ≡ fs
unfolding listed_names
listed_names_lem [] h k = refl
listed_names_lem (f ∷ fs) (n, h) (c, k) =
    rw (strip_name f n, n.0, c) (ap (λ gs. f ∷ gs) (listed_names_lem fs h k))

pub listed_names-joined :
    (fs : List Text)
    → All IsName fs
    → All (λ f. is_comment f ≡ false) fs
    → listed_names (files_header ++ joined fs) ≡ fs
unfolding listed_names joined
listed_names-joined [] h k = refl
listed_names-joined (f ∷ fs) h k = listed_names_lem (f ∷ fs) h k

is_hex-not_space : (c : ℕ) → is_hex c ≡ true → is_space c ≡ false
unfolding is_hex is_space
is_hex-not_space c h = ground arith

all_hex-AllWords : (s : Text) → all_hex s ≡ true → AllWords s
unfolding all_hex
all_hex-AllWords [] h = tt
all_hex-AllWords (c ∷ s) h = (is_hex-not_space c (ground arith), all_hex-AllWords s (ground arith))

sha-is_comment : (c : ℕ) (s : Text) → is_hex c ≡ true → is_comment (c ∷ s) ≡ false
unfolding is_hex starts_with
sha-is_comment c s h = ground arith

pub read_lines-sha :
    (sha : Text) → is_sha sha ≡ true → read_lines (source_header ++ sha ∷ []) ≡ ok (some sha)
unfolding read_lines sha_line is_sha all_hex
read_lines-sha [] h = cc
read_lines-sha (c ∷ s) h =
    let words = all_hex-AllWords (c ∷ s) (ground arith) in
    rw (strip_name (c ∷ s) (refl, words), sha-is_comment c s (ground arith), h) refl
