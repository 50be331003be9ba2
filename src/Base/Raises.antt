-- ===== src/Base/Raises.antt =====
-- Exceptions as values: `ok` for a return, `err` for a raise.
use mathlib.Core.Path.{◌≡◌, refl}
use mathlib.Core.Logic.{◌⊎◌, inl, inr}
use mathlib.Core.Bool.{Bool, true, false}

pub data Result {ℓ κ} (E : Type ℓ) (A : Type κ) : Type (ℓ ⊔ κ) where
  ok : A → Result E A
  err : E → Result E A

pub ok_inj {ℓ κ} : {E : Type ℓ} {A : Type κ} {a b : A} → ◌≡◌ {A = Result E A} (ok a) (ok b) → a ≡ b
ok_inj e = cc

pub Result-cases {ℓ κ} :
    {E : Type ℓ} {A : Type κ} (r : Result E A) → ((e : E) × (r ≡ err e)) ⊎ ((a : A) × (r ≡ ok a))
Result-cases (ok a) = inr (a, refl)
Result-cases (err e) = inl (e, refl)

-- `if test: raise error`
module _ {ℓ} {E : Type ℓ} where
  abbrev pub raise_if : Bool → E → Result E (Unit {0})
  raise_if true error = err error
  raise_if false error = ok tt

  pub raise_if-eq-ok : (b : Bool) (error : E) {u : Unit {0}} → raise_if b error ≡ ok u → b ≡ false
  raise_if-eq-ok true error h = cc
  raise_if-eq-ok false error h = refl

module _ {ℓ κ μ} {E : Type ℓ} {A : Type κ} {B : Type μ} where
  infixl 5 ◌>>=◌
  -- A raise ends the chain.
  abbrev pub ◌>>=◌ : Result E A → (A → Result E B) → Result E B
  err error >>= next = err error
  ok value >>= next = next value

  -- Inversion of a successful bind, for proofs where the parts stay shut.
  pub >>=-eq-ok :
      (m : Result E A) (next : A → Result E B) {b : B}
      → (m >>= next) ≡ ok b
      → (a : A) × (m ≡ ok a) × (next a ≡ ok b)
  >>=-eq-ok (ok a) next h = (a, refl, h)
  >>=-eq-ok (err e) next h = cc

  -- What every value of the rest has, the chain has. It names the value of the first part.
  pub >>=-ensures {ν} :
      (P : B → Type ν) (m : Result E A) (next : A → Result E B)
      → ((a : A) → m ≡ ok a → (b : B) → next a ≡ ok b → P b)
      → (b : B) → (m >>= next) ≡ ok b
      → P b
  >>=-ensures P (ok a) next h b e = h a refl b e
  >>=-ensures P (err x) next h b e = cc

infixl 5 ◌>>◌
abbrev pub ◌>>◌ {ℓ κ} : {E : Type ℓ} {B : Type κ} → Result E (Unit {0}) → Result E B → Result E B
first >> second = first >>= λ _. second
