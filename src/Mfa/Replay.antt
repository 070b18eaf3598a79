-- ===== src/Mfa/Replay.antt =====
-- The history of a user's codes (backend/app/services/mfa.py).
use k_aikei.Prelude.{
  ℕ, ◌≤◌, ◌<◌, ◌≡◌, ◌≢◌, refl, true, false, Bool, not, ◌||◌, Option, none, some, List, [], ◌∷◌, All,
  Bool-cases, inl, inr, if◌then◌else◌, arith,
}
use k_aikei.Prelude.Digits.{Text}
use k_aikei.Prelude.Totals.{AllDistinct}
use k_aikei.Result.{Result, ok, err}
use k_aikei.Mfa.{
  MfaUser, MfaError, find_matching_step, verify_and_consume_totp, setup_mfa, enable_mfa,
  disable_mfa, enable_if, disable_if, reverify, secret_if, with_secret, has_secret,
  consume_backup_code, use_entry, regenerate_backup_codes, renew_if,
}
use k_aikei.Mfa.Verified.{IsNewer, Verified, refused, taken, verify-Verified, checked-matches}

module _ (hmac_sha1 : Text → ℕ → List ℕ) (key_of : Text → Option Text) where
  -- The step that a code has for a secret, and the steps of the codes that were accepted, the last
  -- first. An accepted code without a step counts as one of step 0.
  abbrev pub step_of : Option Text → Text → ℕ → Option ℕ
  step_of none code timestamp = none
  step_of (some secret) code timestamp = find_matching_step hmac_sha1 key_of secret code timestamp

  abbrev pub with_step : Option ℕ → List ℕ → List ℕ
  with_step none log = 0 ∷ log
  with_step (some step) log = step ∷ log

  abbrev pub logged : MfaUser → Text → ℕ → Bool → List ℕ → List ℕ
  logged u code timestamp false log = log
  logged u code timestamp true log = with_step (step_of u.mfa_secret code timestamp) log

  -- A new secret starts an empty list, and so does its removal.
  abbrev pub after_setup : Result MfaError Text × MfaUser → List ℕ → List ℕ
  after_setup (ok secret, u) log = []
  after_setup (err e, u) log = log

  abbrev pub after_disable : Bool × MfaUser → List ℕ → List ℕ
  after_disable (true, u) log = []
  after_disable (false, u) log = log

  abbrev pub renewed : Option (List Text) → Bool
  renewed none = false
  renewed (some codes) = true

  -- A history of one user: the operations of the service in any order, and the steps of the codes
  -- that were accepted for the secret that the user has. A step is the one that the code of a request
  -- has for the secret of the user before the request.
  pub data Used : MfaUser → List ℕ → Type 0 where
    starts : (u : MfaUser) → u.mfa_last_used_step ≡ none → Used u []
    logs_in :
        {u : MfaUser} {log : List ℕ} (code : Text) (timestamp : ℕ)
        → Used u log
        → Used (verify_and_consume_totp hmac_sha1 key_of u code timestamp).1 (
            logged u code timestamp
              (verify_and_consume_totp hmac_sha1 key_of u code timestamp).0
              log)
    enables :
        {u : MfaUser} {log : List ℕ} (code : Text) (timestamp : ℕ)
        → Used u log
        → Used
            (enable_mfa hmac_sha1 key_of u code timestamp).1
            (logged u code timestamp (enable_mfa hmac_sha1 key_of u code timestamp).0 log)
    sets_up :
        {u : MfaUser} {log : List ℕ} (code : Option Text) (timestamp : ℕ) (secret : Text)
        → Used u log
        → Used
            (setup_mfa hmac_sha1 key_of u code timestamp secret).1
            (after_setup (setup_mfa hmac_sha1 key_of u code timestamp secret) log)
    disables :
        {u : MfaUser} {log : List ℕ} (code : Text) (timestamp : ℕ)
        → Used u log
        → Used
            (disable_mfa hmac_sha1 key_of u code timestamp).1
            (after_disable (disable_mfa hmac_sha1 key_of u code timestamp) log)
    renews :
        {u : MfaUser} {log : List ℕ} (sha256 : Text → Text) (code : Text) (timestamp : ℕ)
        (codes : List Text)
        → Used u log
        → Used (regenerate_backup_codes sha256 hmac_sha1 key_of u code timestamp codes).1 (
            logged u code timestamp
              (renewed (regenerate_backup_codes sha256 hmac_sha1 key_of u code timestamp codes).0)
              log)
    recovers :
        {u : MfaUser} {log : List ℕ} (sha256 : Text → Text) (code : Text)
        → Used u log
        → Used (consume_backup_code sha256 u code).1 log

  -- All steps are different, and none is later than the last that the user's row holds.
  abbrev Upto : Option ℕ → List ℕ → Type 0
  Upto none log = log ≡ []
  Upto (some last) log = All (λ s. s ≤ last) log × AllDistinct log

  All-weaker : (a b : ℕ) (log : List ℕ) → a < b → All (λ s. s ≤ a) log → All (λ s. s ≤ b) log
  All-weaker a b [] lt h = tt
  All-weaker a b (s ∷ log) lt (here, h) = (omega (arith, here), All-weaker a b log lt h)

  All-differs : (a b : ℕ) (log : List ℕ) → a < b → All (λ s. s ≤ a) log → All (λ s. s ≢ b) log
  All-differs a b [] lt h = tt
  All-differs a b (s ∷ log) lt (here, h) =
      ((λ e. omega (arith, here, e, lt)), All-differs a b log lt h)

  Upto-later :
      (last : Option ℕ) (log : List ℕ) (step : ℕ)
      → IsNewer last step
      → Upto last log
      → Upto (some step) (step ∷ log)
  Upto-later none log step new h = rw h ((omega arith, tt), (tt, tt))
  Upto-later (some last) log step new (most, apart) = (
    (omega arith, All-weaker last step log new most),
    (All-differs last step log new most, apart),
  )

  Verified-Upto :
      (u : MfaUser) (code : Text) (timestamp : ℕ) (log : List ℕ) {r : Bool × MfaUser}
      → Verified hmac_sha1 key_of u code timestamp r
      → Upto u.mfa_last_used_step log
      → Upto r.1.mfa_last_used_step (logged u code timestamp r.0 log)
  Verified-Upto u code timestamp log refused h = h
  Verified-Upto u code timestamp log (taken secret step s run new) h =
      rw (s, checked-matches hmac_sha1 key_of secret code timestamp u.mfa_last_used_step run)
        (Upto-later u.mfa_last_used_step log step new h)

  enable-Upto :
      (before : MfaUser) (code : Text) (timestamp : ℕ) (log : List ℕ) (r : Bool × MfaUser)
      → Upto r.1.mfa_last_used_step (logged before code timestamp r.0 log)
      → Upto (enable_if r).1.mfa_last_used_step (logged before code timestamp (enable_if r).0 log)
  enable-Upto before code timestamp log (true, u) h = h
  enable-Upto before code timestamp log (false, u) h = h

  disable-Upto :
      {u : MfaUser} {code : Text} {timestamp : ℕ} (log : List ℕ) (r : Bool × MfaUser)
      → Verified hmac_sha1 key_of u code timestamp r
      → Upto u.mfa_last_used_step log
      → Upto (disable_if r).1.mfa_last_used_step (after_disable (disable_if r) log)
  disable-Upto log _ refused h = h
  disable-Upto log _ (taken secret step s run new) h = refl

  secret-Upto :
      {u : MfaUser} {code : Text} {timestamp : ℕ} (log : List ℕ) (secret : Text)
      (r : Bool × MfaUser)
      → Verified hmac_sha1 key_of u code timestamp r
      → Upto u.mfa_last_used_step log
      → Upto (secret_if secret r).1.mfa_last_used_step (after_setup (secret_if secret r) log)
  secret-Upto log secret _ refused h = h
  secret-Upto log secret _ (taken old step s run new) h = refl

  renew-Upto :
      (sha256 : Text → Text) (codes : List Text) (before : MfaUser) (code : Text) (timestamp : ℕ)
      (log : List ℕ) (r : Bool × MfaUser)
      → Upto r.1.mfa_last_used_step (logged before code timestamp r.0 log)
      → Upto
          (renew_if sha256 codes r).1.mfa_last_used_step
          (logged before code timestamp (renewed (renew_if sha256 codes r).0) log)
  renew-Upto sha256 codes before code timestamp log (true, u) h = h
  renew-Upto sha256 codes before code timestamp log (false, u) h = h

  use_entry-Upto :
      (o : Option ℕ) (u : MfaUser) (log : List ℕ)
      → Upto u.mfa_last_used_step log
      → Upto (use_entry o u).1.mfa_last_used_step log
  use_entry-Upto none u log h = h
  use_entry-Upto (some i) u log h = h

  -- `reverify` without a code is a code that is refused.
  reverify-Upto :
      (u : MfaUser) (code : Option Text) (timestamp : ℕ) (log : List ℕ) (secret : Text)
      → Upto u.mfa_last_used_step log
      → let r = secret_if secret (reverify hmac_sha1 key_of u code timestamp) in
        Upto r.1.mfa_last_used_step (after_setup r log)
  reverify-Upto u none timestamp log secret h = h
  reverify-Upto u (some code) timestamp log secret h =
      secret-Upto log secret _ (verify-Verified hmac_sha1 key_of u code timestamp) h

  setup-Upto :
      (on : Bool) (u : MfaUser) (code : Option Text) (timestamp : ℕ) (log : List ℕ) (secret : Text)
      → Upto u.mfa_last_used_step log
      → let r =
          if on
          then secret_if secret (reverify hmac_sha1 key_of u code timestamp)
          else (ok secret, with_secret secret u) in
        Upto r.1.mfa_last_used_step (after_setup r log)
  setup-Upto true u code timestamp log secret h = reverify-Upto u code timestamp log secret h
  setup-Upto false u code timestamp log secret h = refl

  Used-Upto : {u : MfaUser} {log : List ℕ} → Used u log → Upto u.mfa_last_used_step log
  unfolding enable_mfa setup_mfa disable_mfa regenerate_backup_codes consume_backup_code
  Used-Upto (starts u empty) = rw empty refl
  Used-Upto (logs_in {u} {log} code timestamp before) =
      Verified-Upto u code timestamp log (verify-Verified hmac_sha1 key_of u code timestamp)
        (Used-Upto before)
  Used-Upto (enables {u} {log} code timestamp before) =
      elim (Bool-cases (has_secret u.mfa_secret)) [
        | inl there ↦ rw there (
            enable-Upto u code timestamp log
              (verify_and_consume_totp hmac_sha1 key_of u code timestamp)
              (Verified-Upto u code timestamp log
                (verify-Verified hmac_sha1 key_of u code timestamp) (Used-Upto before)))
        | inr missing ↦ rw missing (Used-Upto before)
      ]
  Used-Upto (sets_up {u} {log} code timestamp secret before) =
      setup-Upto u.mfa_enabled u code timestamp log secret (Used-Upto before)
  Used-Upto (disables {u} {log} code timestamp before) =
      elim (Bool-cases (not u.mfa_enabled || not (has_secret u.mfa_secret))) [
        | inl shut ↦ rw shut (Used-Upto before)
        | inr passed ↦ rw passed (
            disable-Upto log (verify_and_consume_totp hmac_sha1 key_of u code timestamp)
              (verify-Verified hmac_sha1 key_of u code timestamp) (Used-Upto before))
      ]
  Used-Upto (renews {u} {log} sha256 code timestamp codes before) =
      elim (Bool-cases (not u.mfa_enabled || not (has_secret u.mfa_secret))) [
        | inl shut ↦ rw shut (Used-Upto before)
        | inr passed ↦ rw passed (
            renew-Upto sha256 codes u code timestamp log
              (verify_and_consume_totp hmac_sha1 key_of u code timestamp)
              (Verified-Upto u code timestamp log
                (verify-Verified hmac_sha1 key_of u code timestamp) (Used-Upto before)))
      ]
  Used-Upto (recovers {u} {log} sha256 code before) = use_entry-Upto _ u log (Used-Upto before)

  Upto-AllDistinct : (last : Option ℕ) (log : List ℕ) → Upto last log → AllDistinct log
  Upto-AllDistinct none log h = rw h tt
  Upto-AllDistinct (some last) log (most, apart) = apart

  -- Whatever the order of logins, of the set-up of new secrets, of enabling and disabling the
  -- second factor, and of new and used backup codes, from a user whose last step is not set: the
  -- steps that the accepted codes have for the secret that the user now has, since it was set up, are
  -- all different, so that no code is accepted twice for one step.
  pub no_code_twice : {u : MfaUser} {log : List ℕ} → Used u log → AllDistinct log
  no_code_twice {u} {log} used = Upto-AllDistinct u.mfa_last_used_step log (Used-Upto used)
