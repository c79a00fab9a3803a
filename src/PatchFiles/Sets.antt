-- ===== src/PatchFiles/Sets.antt =====
-- Sets of texts as sorted lists, and the two differences of `check_files`.
use v_llm_moet.Prelude.{
  ◌≡◌, refl, true, false, ◌||◌, List, [], ◌∷◌, arith, Text, text_eq, text_eq_iff, text_eq_refl,
  contains_text,
}
use v_llm_moet.PatchFiles.{insert_sorted, sorted_set, difference, is_none_left}

pub contains-insert_sorted :
    (x y : Text) (ys : List Text)
    → contains_text (insert_sorted x ys) y ≡ (text_eq x y || contains_text ys y)
unfolding contains_text insert_sorted
contains-insert_sorted x y [] = refl
contains-insert_sorted x y (z ∷ ys) =
    ground (arith, contains-insert_sorted x y ys, text_eq_iff x z, text_eq_iff z y, text_eq_iff x y)

pub contains-sorted_set :
    (xs : List Text) (y : Text) → contains_text (sorted_set xs) y ≡ contains_text xs y
unfolding contains_text sorted_set
contains-sorted_set [] y = refl
contains-sorted_set (x ∷ xs) y =
    ground (arith, contains-sorted_set xs y, contains-insert_sorted x y (sorted_set xs))

-- The difference is empty exactly when every text of the first list is in the second one.
pub difference_none :
    (xs ys : List Text)
    → ((x : Text) → contains_text xs x ≡ true → contains_text ys x ≡ true)
    → is_none_left (difference xs ys) ≡ true
unfolding difference contains_text
difference_none [] ys h = refl
difference_none (x ∷ xs) ys h =
    ground (arith, h x, text_eq_refl x, difference_none xs ys (λ y m. h y (ground arith)))

insert_sorted_left : (x : Text) (ys : List Text) → is_none_left (insert_sorted x ys) ≡ false
unfolding insert_sorted
insert_sorted_left x [] = refl
insert_sorted_left x (y ∷ ys) = ground arith

pub difference_some :
    (xs ys : List Text) (x : Text)
    → is_none_left (difference xs ys) ≡ true
    → contains_text xs x ≡ true
    → contains_text ys x ≡ true
unfolding difference contains_text
difference_some [] ys x e m = cc
difference_some (z ∷ xs) ys x e m =
    ground
      (arith, difference_some xs ys x, insert_sorted_left z (difference xs ys), text_eq_iff z x)
