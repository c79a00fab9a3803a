-- ===== src/PatchFiles/Check.antt =====
-- `check_files` passes exactly when the patch and the list name the same files.
use v_llm_moet.Prelude.{◌≡◌, refl, ◌↔◌, Bool, true, false, List, arith, Text, contains_text}
use v_llm_moet.PatchFiles.{Tree, patch_files, listed_files, check_files}
use v_llm_moet.PatchFiles.Sets.{difference_none, difference_some}

-- The two sides name the same files.
abbrev pub IsInStep : Tree → Type 0
IsInStep t =
    (f : Text) → contains_text (patch_files t.patch) f ≡ contains_text (listed_files t.listed) f

equal_tests : (a b : Bool) → (a ≡ true → b ≡ true) → (b ≡ true → a ≡ true) → a ≡ b
equal_tests true b f g = ground (arith, f refl)
equal_tests false true f g = ground (arith, g refl)
equal_tests false false f g = refl

-- `check_files` returns 0 exactly when every file that the patch touches is listed, and every listed
-- file is touched by the patch.
pub check_files_code : (t : Tree) → ((check_files t).code ≡ 0) ↔ IsInStep t
unfolding check_files
check_files_code t = (λ h. passes h, λ h. in_step h)
  where
    actual : List Text
    actual = patch_files t.patch

    expected : List Text
    expected = listed_files t.listed

    passes : (check_files t).code ≡ 0 → IsInStep t
    passes h f =
        equal_tests (contains_text actual f) (contains_text expected f)
          (difference_some actual expected f (ground arith))
          (difference_some expected actual f (ground arith))

    in_step : IsInStep t → (check_files t).code ≡ 0
    in_step h = ground (
      arith,
      difference_none actual expected (λ x m. ground (arith, h x)),
      difference_none expected actual (λ x m. ground (arith, h x)),
    )
