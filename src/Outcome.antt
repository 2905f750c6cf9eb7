-- ===== src/Outcome.antt =====
-- The exceptions of common/error.h, as values: a function that may throw returns an `Outcome`.
use private_data_objects.Prelude.{◌≡◌, ◌⊎◌, inl, inr, refl, Bool, true, false}

-- The class of the exception; `standard_exception` is one of the C++ library. `undefined` is no exception: it stands where the C++ has undefined
-- behaviour, such as an access behind the end of a vector.
pub data Error : Type 0 where
  runtime_error value_error crypto_error standard_exception undefined : Error

pub data Outcome {ℓ} (A : Type ℓ) : Type ℓ where
  ok : A → Outcome A
  err : Error → Outcome A

infixl 5 ◌>>=◌ ◌>>◌
abbrev pub ◌>>=◌ {ℓ κ} : {A : Type ℓ} {B : Type κ} → Outcome A → (A → Outcome B) → Outcome B
ok v >>= next = next v
err code >>= next = err code

abbrev pub ◌>>◌ {ℓ} : {B : Type ℓ} → Outcome (Unit {0}) → Outcome B → Outcome B
m >> k = m >>= λ _. k

-- `pdo::error::ThrowIf<E>(condition, …)`
abbrev pub throw_if : Bool → Error → Outcome (Unit {0})
throw_if true e = err e
throw_if false e = ok tt

pub Outcome-cases {ℓ} :
    {A : Type ℓ} (x : Outcome A) → ((v : A) × (x ≡ ok v)) ⊎ ((code : Error) × (x ≡ err code))
Outcome-cases (ok v) = inl (v, refl)
Outcome-cases (err code) = inr (code, refl)

-- A sequence that ends without an exception has a first part that does.
pub >>=-eq-ok {ℓ κ} :
    {A : Type ℓ} {B : Type κ} (x : Outcome A) (next : A → Outcome B) {w : B}
    → (x >>= next) ≡ ok w
    → (v : A) × (x ≡ ok v) × (next v ≡ ok w)
>>=-eq-ok (ok v) next e = (v, refl, e)
>>=-eq-ok (err code) next e = cc

pub throw_if_passed : (b : Bool) (e : Error) {u : Unit {0}} → throw_if b e ≡ ok u → b ≡ false
throw_if_passed true e h = cc
throw_if_passed false e h = refl

pub ok_injective {ℓ} : {A : Type ℓ} {a b : A} → ok a ≡ ok b → a ≡ b
ok_injective h = cc
