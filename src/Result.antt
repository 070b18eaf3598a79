-- ===== src/Result.antt =====
-- The outcome of code that may raise: a value, or the error that was raised.
use k_aikei.Prelude.{Bool, true, false, ◌≡◌, refl}

pub data Result {ℓ κ} (E : Type ℓ) (A : Type κ) : Type (ℓ ⊔ κ) where
  ok : A → Result E A
  err : E → Result E A

-- `if c: raise e`
abbrev pub raise_if {ℓ} : {E : Type ℓ} → Bool → E → Result E (Unit {0})
raise_if false _ = ok tt
raise_if true raised = err raised

-- What follows a call is run on its value, and is skipped if the call raised.
module _ {ℓ κ μ} {E : Type ℓ} {A : Type κ} {B : Type μ} where
  infixl 5 ◌>>=◌ ◌>>◌
  abbrev pub ◌>>=◌ : Result E A → (A → Result E B) → Result E B
  err raised >>= next = err raised
  ok value >>= next = next value

  abbrev pub ◌>>◌ : Result E A → Result E B → Result E B
  call >> next = call >>= λ _. next

  -- A chain of calls that returned has a first call that returned.
  pub bind_ok :
      (call : Result E A) (next : A → Result E B) {out : B}
      → (call >>= next) ≡ ok out
      → (value : A) × (call ≡ ok value) × (next value ≡ ok out)
  bind_ok (err raised) next h = cc
  bind_ok (ok value) next h = (value, refl, h)
