-- ===== src/E2e/Results.antt =====
-- The exceptions of the handshake and of the envelope as values.
use remote_agent.Common.{◌≡◌, refl, ◌⊎◌, inl, inr, Option, none, some}

pub data E2eError : Type 0 where
  bad_base64 bad_mac not_started bad_key bad_range : E2eError
  not_established bad_json not_enc decrypt_failed : E2eError

pub data Result {ℓ} (A : Type ℓ) : Type ℓ where
  ok : A → Result A
  err : E2eError → Result A

-- What follows a call runs only where it throws nothing.
module _ {ℓ κ} {A : Type ℓ} {B : Type κ} where
  infixl 5 ◌>>=◌
  abbrev pub ◌>>=◌ : (call : Result A) (next : A → Result B) → Result B
  ok value >>= next = next value
  err why >>= next = err why

  pub >>=-eq-ok :
      (call : Result A) (next : A → Result B) {b : B}
      → (call >>= next) ≡ ok b
      → (value : A) × (call ≡ ok value) × (next value ≡ ok b)
  >>=-eq-ok (ok value) next h = (value, refl, h)
  >>=-eq-ok (err why) next h = cc

-- A call that throws where it has no value.
abbrev pub or_throw {ℓ} : {A : Type ℓ} → E2eError → Option A → Result A
or_throw e none = err e
or_throw e (some a) = ok a

pub or_throw-eq-ok {ℓ} :
    {A : Type ℓ} (e : E2eError) (o : Option A) {a : A} → or_throw e o ≡ ok a → o ≡ some a
or_throw-eq-ok e none h = cc
or_throw-eq-ok e (some a) h = cc

pub Result-cases {ℓ} :
    {A : Type ℓ} (r : Result A) → ((a : A) × (r ≡ ok a)) ⊎ ((e : E2eError) × (r ≡ err e))
Result-cases (ok a) = inl (a, refl)
Result-cases (err e) = inr (e, refl)
