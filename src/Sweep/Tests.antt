-- ===== src/Sweep/Tests.antt =====
-- A knob of one argument, with a plain code for objects of numbers.
use v_llm_moet.Prelude.{
  ℕ, zero, suc, false, ◌≡◌, refl, sym, ap, ◌∙◌, Option, none, some, List, [], ◌∷◌, ◌++◌, ok, Text,
  text, text_eq, Dict, insert, is_blank, span,
}
use v_llm_moet.Sweep.{Json, apply_serve_json, set_axes, env, serve_json}
use v_llm_moet.Sweep.Twice.{AllSet, apply_serve_json_twice}

abbrev plain_key : Text → Text → Text
plain_key [] rest = 0 ∷ rest
plain_key (c ∷ k) rest = suc c ∷ plain_key k rest

abbrev plain_entries : Dict ℕ → Text
plain_entries [] = []
plain_entries ((k, v) ∷ d) = plain_key k (v ∷ plain_entries d)

abbrev add_entry : Text → ℕ → Option (Dict ℕ) → Option (Dict ℕ)
add_entry k v none = none
add_entry k v (some d) = some ((k, v) ∷ d)

-- `key` is what has been read of a key.
abbrev read_entries : Text → Text → Option (Dict ℕ)
read_entries key [] = some []
read_entries key (suc c ∷ s) = read_entries (key ++ c ∷ []) s
read_entries key (zero ∷ []) = none
read_entries key (zero ∷ v ∷ s) = add_entry key v (read_entries [] s)

append_one : (k l : Text) (c : ℕ) → (k ++ c ∷ []) ++ l ≡ k ++ c ∷ l
append_one [] l c = refl
append_one (d ∷ k) l c = ap (λ t. d ∷ t) (append_one k l c)

append_none : (k : Text) → k ++ [] ≡ k
append_none [] = refl
append_none (c ∷ k) = ap (λ t. c ∷ t) (append_none k)

read_key :
    (key k : Text) (v : ℕ) (s : Text)
    → read_entries key (plain_key k (v ∷ s)) ≡ add_entry (key ++ k) v (read_entries [] s)
read_key key [] v s = ap (λ t. add_entry t v (read_entries [] s)) (sym (append_none key))
read_key key (c ∷ k) v s =
    read_key (key ++ c ∷ []) k v s
    ∙ ap (λ t. add_entry t v (read_entries [] s)) (append_one key k c)

read_plain : (d : Dict ℕ) → read_entries [] (plain_entries d) ≡ some d
read_plain [] = refl
read_plain ((k, v) ∷ d) = read_key [] k v (plain_entries d) ∙ ap (add_entry k v) (read_plain d)

abbrev read_object : Text → Option (Dict ℕ)
read_object [] = none
read_object (c ∷ s) = read_entries [] s

plain_filled : (d : Dict ℕ) → is_blank (b'{' ∷ plain_entries d) ≡ false
unfolding is_blank
plain_filled d = refl

abbrev plain_json : Json
plain_json = record {
  Value = ℕ;
  loads = read_object;
  dumps = λ d. b'{' ∷ plain_entries d;
  str = λ n. n ∷ [];
  loads-dumps = read_plain;
  dumps_filled = plain_filled;
}

abbrev plain_arg : Dict ℕ → Text
plain_arg d = text "--config " ++ b'{' ∷ plain_entries d

abbrev args : List Text
args = plain_arg ((text "n", 2) ∷ (text "k", 5) ∷ []) ∷ text "--enforce-eager" ∷ []

abbrev args_with : ℕ → List Text
args_with n = plain_arg ((text "n", n) ∷ (text "k", 5) ∷ []) ∷ text "--enforce-eager" ∷ []

apply_serve_json_test :
    apply_serve_json plain_json args (text "--config") (text "n") 3 ≡ ok (args_with 3)
unfolding apply_serve_json span text_eq is_blank insert
apply_serve_json_test = refl

apply_serve_json_twice_example :
    AllSet plain_json (text "--config") (text "n") 3 args (args_with 3)
    × ((w : ℕ)
        → apply_serve_json plain_json (args_with 3) (text "--config") (text "n") w
          ≡ apply_serve_json plain_json args (text "--config") (text "n") w)
apply_serve_json_twice_example =
    apply_serve_json_twice plain_json args (args_with 3) (text "--config") (text "n") 3
      apply_serve_json_test

set_axes_test :
    set_axes plain_json
      ((env (text "LOG"), 7) ∷ (serve_json (text "--config") (text "n"), 3) ∷ [])
      ([], args)
    ≡ ok ((text "LOG", 7 ∷ []) ∷ [], args_with 3)
unfolding set_axes span text_eq is_blank insert
set_axes_test = refl
