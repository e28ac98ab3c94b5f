-- ===== src/Prelude/Result.antt =====
-- Go's pair of a value and an error: `err` where the error is not nil.
use mathlib.Core.Path.{◌≡◌, refl}
use mathlib.Core.Logic.{◌≢◌}

pub data Result {ℓ} (E : Type 0) (A : Type ℓ) : Type ℓ where
  ok : A → Result E A
  err : E → Result E A

module _ {ℓ κ} {E : Type 0} {A : Type ℓ} {B : Type κ} where
  infixl 5 ◌>>=◌
  -- `if err != nil { return err }`, and on with the value
  abbrev pub ◌>>=◌ : Result E A → (A → Result E B) → Result E B
  err failed >>= next = err failed
  ok value >>= next = next value

  -- Where a chain of calls has succeeded, so has its first call.
  pub >>=-eq-ok :
      (first : Result E A) (next : A → Result E B) {out : B}
      → (first >>= next) ≡ ok out
      → (value : A) × (first ≡ ok value) × (next value ≡ ok out)
  >>=-eq-ok (err failed) next h = cc
  >>=-eq-ok (ok value) next h = (value, refl, h)

pub ok-ne-err {ℓ} : {E : Type 0} {A : Type ℓ} {value : A} {failed : E} → ok value ≢ err failed
ok-ne-err h = cc

pub ok-inj {ℓ} : {E : Type 0} {A : Type ℓ} {a b : A} → ◌≡◌ {A = Result E A} (ok a) (ok b) → a ≡ b
ok-inj h = cc
