-- ===== src/Mfa/Verified.antt =====
-- What a check of a code has done (backend/app/services/mfa.py).
use k_aikei.Prelude.{ℕ, ◌<◌, ◌≡◌, refl, true, false, Bool, Option, none, some, List, [], ◌∷◌, arith}
use k_aikei.Prelude.Digits.{Text}
use k_aikei.Mfa.{
  MfaUser, newer, consume, verify_with, check_and_consume_step, find_matching_step,
  verify_and_consume_totp,
}

-- later than the step before, if there is one
abbrev pub IsNewer : Option ℕ → ℕ → Type 0
IsNewer none step = Unit
IsNewer (some last) step = last < step

newer_lem : (o last : Option ℕ) {step : ℕ} → newer o last ≡ some step → IsNewer last step
newer_lem none last h = cc
newer_lem (some s) none h = tt
newer_lem (some s) (some last) h = ground (arith, h)

newer_same : (o last : Option ℕ) {step : ℕ} → newer o last ≡ some step → o ≡ some step
newer_same none last h = cc
newer_same (some s) none h = h
newer_same (some s) (some last) h = ground (arith, h)

abbrev pub at_step : ℕ → MfaUser → MfaUser
at_step step u = record u { mfa_last_used_step = some step }

module _ (hmac_sha1 : Text → ℕ → List ℕ) (key_of : Text → Option Text) where
  -- A code is refused and nothing changes, or it is taken at a step that is later than the last.
  pub data Verified (u : MfaUser) (code : Text) (timestamp : ℕ) : Bool × MfaUser → Type 0 where
    refused : Verified u code timestamp (false, u)
    taken :
        (secret : Text) (step : ℕ)
        → u.mfa_secret ≡ some secret
        → check_and_consume_step hmac_sha1 key_of secret code timestamp u.mfa_last_used_step
          ≡ some step
        → IsNewer u.mfa_last_used_step step
        → Verified u code timestamp (true, at_step step u)

  checked-IsNewer :
      (secret code : Text) (timestamp : ℕ) (last : Option ℕ) {step : ℕ}
      → check_and_consume_step hmac_sha1 key_of secret code timestamp last ≡ some step
      → IsNewer last step
  unfolding check_and_consume_step
  checked-IsNewer secret code timestamp last h = newer_lem _ last h

  pub checked-matches :
      (secret code : Text) (timestamp : ℕ) (last : Option ℕ) {step : ℕ}
      → check_and_consume_step hmac_sha1 key_of secret code timestamp last ≡ some step
      → find_matching_step hmac_sha1 key_of secret code timestamp ≡ some step
  unfolding check_and_consume_step
  checked-matches secret code timestamp last h = newer_same _ last h

  consume-Verified :
      (u : MfaUser) (code : Text) (timestamp : ℕ) (secret : Text) (o : Option ℕ)
      → u.mfa_secret ≡ some secret
      → check_and_consume_step hmac_sha1 key_of secret code timestamp u.mfa_last_used_step ≡ o
      → Verified u code timestamp (consume o u)
  consume-Verified u code timestamp secret none s run = refused
  consume-Verified u code timestamp secret (some step) s run =
      taken secret step s run (checked-IsNewer secret code timestamp u.mfa_last_used_step run)

  verify_with-Verified :
      (u : MfaUser) (code : Text) (timestamp : ℕ) (o : Option Text)
      → u.mfa_secret ≡ o
      → Verified u code timestamp (verify_with hmac_sha1 key_of o u code timestamp)
  verify_with-Verified u code timestamp none s = refused
  verify_with-Verified u code timestamp (some []) s = refused
  verify_with-Verified u code timestamp (some (c ∷ secret)) s =
      consume-Verified u code timestamp (c ∷ secret) _ s refl

  pub verify-Verified :
      (u : MfaUser) (code : Text) (timestamp : ℕ)
      → Verified u code timestamp (verify_and_consume_totp hmac_sha1 key_of u code timestamp)
  unfolding verify_and_consume_totp
  verify-Verified u code timestamp = verify_with-Verified u code timestamp u.mfa_secret refl
