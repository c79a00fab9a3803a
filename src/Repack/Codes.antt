-- ===== src/Repack/Codes.antt =====
-- The codes of e2m1, the nearest level of a code, and the maps of codes and bytes.
use v_llm_moet.Prelude.{
  ℕ, zero, suc, ◌+◌, ◌-◌, ◌*◌, ◌/◌, ◌%◌, Bool, true, false, ltb, leb, ◌==◌, if◌then◌else◌, List, [],
  ◌∷◌, get_or, none, some, first_below,
}
use v_llm_moet.Prelude.Int.{ℤ, pos, negsuc, pos_part, neg_part}

-- E2M1_MAG, in halves
abbrev pub e2m1_mag : List ℕ
e2m1_mag = 0 ∷ 1 ∷ 2 ∷ 3 ∷ 4 ∷ 6 ∷ 8 ∷ 12 ∷ []

-- The integer of a sign and a magnitude; -0 is 0.
abbrev pub signed : Bool → ℕ → ℤ
signed false a = pos a
signed true zero = pos 0
signed true (suc a) = negsuc a

-- CODE_VALUES
unfoldable pub code_value : ℕ → ℤ
code_value c = signed (leb 8 c) (get_or e2m1_mag (c % 8) 0)

-- GRID: the values in ascending order
abbrev pub grid : List ℤ
grid =
    negsuc 11
    ∷ negsuc 7
    ∷ negsuc 5
    ∷ negsuc 3
    ∷ negsuc 2
    ∷ negsuc 1
    ∷ negsuc 0
    ∷ pos 0
    ∷ pos 1
    ∷ pos 2
    ∷ pos 3
    ∷ pos 4
    ∷ pos 6
    ∷ pos 8
    ∷ pos 12
    ∷ []

abbrev pub magnitude : ℤ → ℕ
magnitude a = pos_part a + neg_part a

abbrev pub is_negative : ℤ → Bool
is_negative a = ltb 0 (neg_part a)

-- abs(a - b)
abbrev pub dist : ℤ → ℤ → ℕ
dist a b =
    let left = pos_part a + neg_part b in
    let right = pos_part b + neg_part a in left - right + (right - left)

-- (a - b) ** 2
abbrev pub square_err : ℤ → ℤ → ℕ
square_err a b = dist a b * dist a b

-- `lv[argmin(abs(lv - x))]` of `level ∷ levels`: the first of the nearest
unfoldable pub first_nearest : ℤ → ℤ → List ℤ → ℤ
first_nearest x level [] = level
first_nearest x level (next ∷ levels) =
    let stay = first_nearest x level levels in
    let move = first_nearest x next levels in
    if ltb (dist next x) (dist level x) then move else stay

-- The code of a magnitude of the table (a level of another magnitude raises; none is ever chosen).
unfoldable pub mag_code : ℕ → ℕ
mag_code a = elim (first_below 8 (λ c. get_or e2m1_mag c 0 == a)) [ some c ↦ c | none ↦ 0 ]

-- `_e2m1_code_for_level`; zero keeps the sign of the original code.
unfoldable pub code_for_level : ℤ → ℕ → ℕ
code_for_level level orig_code =
    if magnitude level == 0
    then (if leb 8 orig_code then 8 else 0)
    else mag_code (magnitude level) + (if is_negative level then 8 else 0)

-- A map of the 16 codes, as `cmap`
abbrev pub CodeMap : Type 0
CodeMap = ℕ → ℕ

-- The byte LUT of a code map: both nibbles at once
unfoldable pub byte_lut : CodeMap → ℕ → ℕ
byte_lut cmap b = cmap (b % 16) + 16 * cmap (b / 16)

-- The code map of `build_lut`, for the levels `level ∷ levels`
unfoldable pub build_lut : ℤ → List ℤ → CodeMap
build_lut level levels c = code_for_level (first_nearest (code_value c) level levels) c
