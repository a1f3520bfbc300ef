-- ===== src/Prelude/Results.antt =====
-- Go's `(value, error)` returns: a value or an error, and a plain `error` return as a check.
use mathlib.Core.Path.{◌≡◌, refl}
use mathlib.Core.Logic.{◌↔◌}
use mathlib.Core.Bool.{Bool, true, false}

pub data Result {ℓ κ} (E : Type κ) (A : Type ℓ) : Type (ℓ ⊔ κ) where
  ok : A → Result E A
  err : E → Result E A

-- A function that returns only `error`: `ok tt` is nil.
abbrev pub Check {κ} : Type κ → Type κ
Check E = Result E (Unit {0})

module _ {κ} {E : Type κ} where
  infixl 5 ◌>>◌ ◌>>=◌
  -- `if err := …; err != nil { return err }`
  abbrev pub ◌>>◌ {μ} : {B : Type μ} → Check E → Result E B → Result E B
  err e >> k = err e
  ok tt >> k = k

  abbrev pub ◌>>=◌ {ℓ μ} : {A : Type ℓ} {B : Type μ} → Result E A → (A → Result E B) → Result E B
  err e >>= k = err e
  ok a >>= k = k a

-- `if bad { return e }`
abbrev pub refuse_if {κ} : {E : Type κ} → Bool → E → Check E
refuse_if true e = err e
refuse_if false e = ok tt

-- A sequence of checks passes exactly when both do.
pub >>-eq-ok {κ} : {E : Type κ} (m k : Check E) → ((m >> k) ≡ ok tt) ↔ ((m ≡ ok tt) × (k ≡ ok tt))
>>-eq-ok (ok tt) k = (λ h. (refl, h), λ p. p.1)
>>-eq-ok (err e) k = (λ h. cc, λ p. cc (p.0))

pub refuse_if-eq-ok {κ} : {E : Type κ} (b : Bool) (e : E) → (refuse_if b e ≡ ok tt) ↔ (b ≡ false)
refuse_if-eq-ok true e = (λ h. cc, λ h. cc)
refuse_if-eq-ok false e = (λ h. refl, λ h. refl)
