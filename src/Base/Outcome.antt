-- ===== src/Base/Outcome.antt =====
-- What a call that may raise gives: its value, or the exception.
use mathlib.Core.Path.{◌≡◌, refl}
use mathlib.Core.Logic.{◌⊎◌, inl, inr}
use mathlib.Core.Bool.{Bool, true, false}

pub data Result {ℓ} (E A : Type ℓ) : Type ℓ where
  ok : A → Result E A
  err : E → Result E A

infixl 5 ◌>>=◌ ◌>>◌
abbrev pub ◌>>=◌ {ℓ} : {E A B : Type ℓ} → Result E A → (A → Result E B) → Result E B
ok a >>= f = f a
err e >>= f = err e

abbrev pub ◌>>◌ {ℓ} : {E A B : Type ℓ} → Result E A → Result E B → Result E B
m >> k = m >>= λ _. k

-- `if b: raise e`
abbrev pub raise_if : {E : Type 0} → Bool → E → Result E (Unit {0})
raise_if true e = err e
raise_if false e = ok tt

-- `except` that turns one exception into another.
abbrev pub map_err {ℓ} : {E F A : Type ℓ} → (E → F) → Result E A → Result F A
map_err f (ok a) = ok a
map_err f (err e) = err (f e)

-- A chain that returned has returned at its first step.
pub >>=-eq-ok {ℓ} :
    {E A B : Type ℓ} (call : Result E A) (rest : A → Result E B) {y : B}
    → (call >>= rest) ≡ ok y
    → (x : A) × (call ≡ ok x) × (rest x ≡ ok y)
>>=-eq-ok (ok x) rest returned = (x, refl, returned)
>>=-eq-ok (err e) rest returned = cc

pub Result-cases {ℓ} :
    {E A : Type ℓ} (m : Result E A) → ((a : A) × (m ≡ ok a)) ⊎ ((e : E) × (m ≡ err e))
Result-cases (ok a) = inl (a, refl)
Result-cases (err e) = inr (e, refl)

pub map_err-eq-ok {ℓ} :
    {E F A : Type ℓ} (f : E → F) (m : Result E A) {a : A} → map_err f m ≡ ok a → m ≡ ok a
map_err-eq-ok f (ok b) h = cc
map_err-eq-ok f (err e) h = cc

pub raise_if-eq-ok :
    {E A : Type 0} (b : Bool) (e : E) (rest : Result E A) {x : A}
    → (raise_if b e >> rest) ≡ ok x
    → (b ≡ false) × (rest ≡ ok x)
raise_if-eq-ok true e rest h = cc
raise_if-eq-ok false e rest h = (refl, h)
