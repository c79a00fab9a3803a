-- ===== src/Prelude/Arrays.antt =====
-- Fixed arrays as functions of the index, scans over their first `n` indices, and membership in
-- lists of numbers.
use Prim.Native.Nat.{ℕ, zero, suc, ◌+◌, ◌<◌}
use mathlib.Core.Path.{◌≡◌, refl}
use mathlib.Core.Logic.{◌≢◌}
use mathlib.Core.Bool.{Bool, true, false, ◌||◌}
use mathlib.Core.Option.{Option, none, some}
use mathlib.Core.List.{List, [], ◌∷◌, ◌++◌}
use native.Mathlib.Omega.{arith}
use v_llm_moet.Prelude.Tests.{◌==◌, if◌then◌else◌}

-- `a[i] = v`
abbrev pub update {ℓ} : {A : Type ℓ} → (ℕ → A) → ℕ → A → ℕ → A
update f i v j = if i == j then v else f j

-- The least index below `n` that passes the test.
unfoldable pub first_below : ℕ → (ℕ → Bool) → Option ℕ
first_below zero p = none
first_below (suc n) p = elim (first_below n p) [
  | some s ↦ some s
  | none ↦ if p n then some n else none
]

pub first_below-eq-some :
    (n : ℕ) (p : ℕ → Bool) (s : ℕ) → first_below n p ≡ some s → (s < n) × (p s ≡ true)
unfolding first_below
first_below-eq-some zero p s h = cc
first_below-eq-some (suc n) p s h = ground (arith, first_below-eq-some n p s)

pub first_below-eq-none :
    (n : ℕ) (p : ℕ → Bool) (s : ℕ) → first_below n p ≡ none → s < n → p s ≡ false
unfolding first_below
first_below-eq-none zero p s h lt = absurd (omega arith)
first_below-eq-none (suc n) p s h lt = ground (arith, first_below-eq-none n p s)

pub first_below_least :
    (n : ℕ) (p : ℕ → Bool) (s r : ℕ) → first_below n p ≡ some s → r < s → p r ≡ false
unfolding first_below
first_below_least zero p s r h lt = cc
first_below_least (suc n) p s r h lt =
    ground (arith, first_below_least n p s r, first_below-eq-none n p r)

-- `x in xs`
unfoldable pub contains : List ℕ → ℕ → Bool
contains [] x = false
contains (y ∷ ys) x = y == x || contains ys x

-- `xs.count(x)`
unfoldable pub count : ℕ → List ℕ → ℕ
count x [] = 0
count x (y ∷ ys) = (if y == x then 1 else 0) + count x ys

-- The distinct elements in the order of their first occurrence.
unfoldable pub distinct_from : List ℕ → List ℕ → List ℕ
distinct_from seen [] = []
distinct_from seen (x ∷ xs) =
    let more = x ∷ distinct_from (x ∷ seen) xs in
    let rest = distinct_from seen xs in if contains seen x then rest else more

pub contains-append :
    (xs ys : List ℕ) (x : ℕ) → contains (xs ++ ys) x ≡ (contains xs x || contains ys x)
unfolding contains
contains-append [] ys x = refl
contains-append (z ∷ xs) ys x = ground (arith, contains-append xs ys x)

-- A predicate on every element of a list, as a product.
module _ {ℓ κ} {A : Type ℓ} where
  abbrev pub All : (A → Type κ) → List A → Type κ
  All Holds = elim [ [] ↦ Unit | item ∷ (items → rest) ↦ Holds item × rest ]

  pub All-append :
      (Holds : A → Type κ) (front back : List A)
      → All Holds back
      → All Holds front
      → All Holds (front ++ back)
  All-append Holds [] back last first = last
  All-append Holds (item ∷ front) back last first =
      (first.0, All-append Holds front back last first.1)

pub All-map {ℓ κ μ} :
    {A : Type ℓ} (P : A → Type κ) (Q : A → Type μ) (items : List A)
    → ((x : A) → P x → Q x)
    → All P items
    → All Q items
All-map P Q [] weaken given = tt
All-map P Q (x ∷ items) weaken given = (weaken x given.0, All-map P Q items weaken given.1)

module _ {ℓ} {A : Type ℓ} (f : ℕ → A) (i : ℕ) (v : A) where
  pub update_self : update f i v i ≡ v
  update_self = ground arith

  pub update_ne : (j : ℕ) → j ≢ i → update f i v j ≡ f j
  update_ne j h = ground arith
