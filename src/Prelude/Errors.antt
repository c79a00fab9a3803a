-- ===== src/Prelude/Errors.antt =====
-- A computation that may raise, over the exceptions `E` of the part that it models.
use mathlib.Core.Bool.{Bool, true, false}
use mathlib.Core.Path.{◌≡◌, refl}

pub data Result {ℓ κ} (E : Type ℓ) (A : Type κ) : Type (ℓ ⊔ κ) where
  raise : E → Result E A
  ok : A → Result E A

module _ {ℓ} {E : Type ℓ} where
  -- `if not test: raise e`
  abbrev pub guard : Bool → E → Result E (Unit {0})
  guard test e = elim test [ false ↦ raise e | true ↦ ok tt ]

  infixl 5 ◌>>=◌ ◌>>◌
  abbrev pub ◌>>=◌ {κ μ} : {A : Type κ} {B : Type μ} → Result E A → (A → Result E B) → Result E B
  run >>= next = elim run [ raise e ↦ raise e | ok value ↦ next value ]

  abbrev pub ◌>>◌ {κ} : {B : Type κ} → Result E (Unit {0}) → Result E B → Result E B
  check >> next = check >>= λ done. next

  -- A chain that returns has returned at its first step.
  pub >>=-eq-ok {κ μ} :
      {A : Type κ} {B : Type μ} (run : Result E A) (next : A → Result E B) {end : B}
      → (run >>= next) ≡ ok end
      → (value : A) × (run ≡ ok value) × (next value ≡ ok end)
  >>=-eq-ok (raise e) next returns = cc
  >>=-eq-ok (ok value) next returns = (value, refl, returns)
