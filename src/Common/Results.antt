-- ===== src/Common/Results.antt =====
-- Results of code that can throw. The text is the exception's message.
use mathlib.Core.Path.{◌≡◌, refl}
use mathlib.Core.Logic.{◌⊎◌, inl, inr}
use modglue.Common.Tests.{Bytes}

pub data Result {ℓ} (A : Type ℓ) : Type ℓ where
  ok : A → Result A
  throw : Bytes → Result A

-- The rest of the code runs unless an exception has been thrown.
infixl 5 ◌>>=◌
abbrev pub ◌>>=◌ {κ ℓ} : {B : Type κ} {A : Type ℓ} → Result A → (A → Result B) → Result B
throw message >>= rest = throw message
ok a >>= rest = rest a

-- A run that has thrown nothing has a first result, from which the rest gave the last one.
pub >>=-eq-ok {κ ℓ} :
    {B : Type κ} {A : Type ℓ} (m : Result A) (rest : A → Result B) {last : B}
    → (m >>= rest) ≡ ok last
    → (first : A) × (m ≡ ok first) × (rest first ≡ ok last)
>>=-eq-ok (throw message) rest h = cc
>>=-eq-ok (ok first) rest h = (first, refl, h)

pub Result-cases {ℓ} :
    {A : Type ℓ} (r : Result A) → ((a : A) × (r ≡ ok a)) ⊎ ((e : Bytes) × (r ≡ throw e))
Result-cases (ok a) = inl (a, refl)
Result-cases (throw e) = inr (e, refl)
