-- ===== src/Mfa/Protection.antt =====
-- Who can change the second factor of a user (backend/app/services/mfa.py).
use k_aikei.Prelude.{
  ℕ, ◌≡◌, ◌⊎◌, inl, inr, refl, ap, ◌∙◌, Bool, true, false, not, ◌||◌, Option, none, some, List, [],
  ◌∷◌, All, if◌then◌else◌,
}
use k_aikei.Prelude.Digits.{Text}
use k_aikei.Mfa.{
  MfaUser, verify_and_consume_totp, setup_mfa, enable_mfa, disable_mfa, enable_if, disable_if,
  secret_if, has_secret, consume_backup_code, use_entry, regenerate_backup_codes, renew_if,
  check_and_consume_step,
}
use k_aikei.Mfa.Verified.{Verified, refused, taken, verify-Verified}

-- the requests to the service
pub data Request : Type 0 where
  log_in : Text → Request
  recover : Text → Request
  set_up : Option Text → Text → Request
  enable : Text → Request
  disable : Text → Request
  renew : Text → List Text → Request

-- the code that a request presents for the secret of the user
abbrev pub code_of : Request → Option Text
code_of (log_in code) = some code
code_of (recover code) = none
code_of (set_up code secret) = code
code_of (enable code) = some code
code_of (disable code) = some code
code_of (renew code codes) = some code

module _ (hmac_sha1 : Text → ℕ → List ℕ) (key_of : Text → Option Text) (sha256 : Text → Text) where
  -- the user after a request
  unfoldable pub served : ℕ → Request → MfaUser → MfaUser
  served now (log_in code) u = (verify_and_consume_totp hmac_sha1 key_of u code now).1
  served now (recover code) u = (consume_backup_code sha256 u code).1
  served now (set_up code secret) u = (setup_mfa hmac_sha1 key_of u code now secret).1
  served now (enable code) u = (enable_mfa hmac_sha1 key_of u code now).1
  served now (disable code) u = (disable_mfa hmac_sha1 key_of u code now).1
  served now (renew code codes) u =
      (regenerate_backup_codes sha256 hmac_sha1 key_of u code now codes).1

  -- the user after requests at their times
  unfoldable pub serve_all : List (ℕ × Request) → MfaUser → MfaUser
  serve_all [] u = u
  serve_all ((now, r) ∷ rs) u = serve_all rs (served now r u)

  -- The secret of the user accepts the code, at a step that is later than the last used.
  pub data Accepted (u : MfaUser) (now : ℕ) : Option Text → Type 0 where
    accepted :
        (secret code : Text) (step : ℕ)
        → u.mfa_secret ≡ some secret
        → check_and_consume_step hmac_sha1 key_of secret code now u.mfa_last_used_step ≡ some step
        → Accepted u now (some code)

  -- the same switch, secret and last step
  abbrev pub Keeps : MfaUser → MfaUser → Type 0
  Keeps u u' =
      (u'.mfa_enabled ≡ u.mfa_enabled)
      × (u'.mfa_secret ≡ u.mfa_secret)
      × (u'.mfa_last_used_step ≡ u.mfa_last_used_step)

  verified-Keeps :
      (u : MfaUser) (now : ℕ) (code : Text) (after : Bool × MfaUser → MfaUser) {r : Bool × MfaUser}
      → Verified hmac_sha1 key_of u code now r
      → after (false, u) ≡ u
      → Accepted u now (some code) ⊎ (after r ≡ u)
  verified-Keeps u now code after refused same = inr same
  verified-Keeps u now code after (taken secret step s run new) same =
      inl (accepted secret code step s run)

  if_on {ℓ} : {A : Type ℓ} (b : Bool) (x y : A) → b ≡ true → (if b then x else y) ≡ x
  if_on true x y on = refl
  if_on false x y on = cc

  -- Of a request that first asks whether the user has the second factor, and leaves it if not.
  guarded-Keeps :
      (shut : Bool) (u : MfaUser) (now : ℕ) (code : Text) (after : Bool × MfaUser → MfaUser)
      → after (false, u) ≡ u
      → Accepted u now (some code)
        ⊎ ((if shut then u else after (verify_and_consume_totp hmac_sha1 key_of u code now)) ≡ u)
  guarded-Keeps true u now code after same = inr refl
  guarded-Keeps false u now code after same =
      verified-Keeps u now code after (verify-Verified hmac_sha1 key_of u code now) same

  setup-Keeps :
      (u : MfaUser) (now : ℕ) (code : Option Text) (secret : Text)
      → u.mfa_enabled ≡ true
      → Accepted u now code ⊎ ((setup_mfa hmac_sha1 key_of u code now secret).1 ≡ u)
  unfolding setup_mfa
  setup-Keeps u now none secret on = inr (rw (if_on u.mfa_enabled _ _ on) refl)
  setup-Keeps u now (some code) secret on = rw (if_on u.mfa_enabled _ _ on) (
      verified-Keeps u now code (λ r. (secret_if secret r).1)
        (verify-Verified hmac_sha1 key_of u code now) refl)

  use_entry-Keeps : (o : Option ℕ) (u : MfaUser) → Keeps u (use_entry o u).1
  use_entry-Keeps none u = (refl, refl, refl)
  use_entry-Keeps (some i) u = (refl, refl, refl)

  same-Keeps :
      (u u' : MfaUser) {now : ℕ} {code : Option Text}
      → Accepted u now code ⊎ (u' ≡ u)
      → Accepted u now code ⊎ Keeps u u'
  same-Keeps u u' (inl a) = inl a
  same-Keeps u u' (inr e) =
      inr (ap (λ v. v.mfa_enabled) e, ap (λ v. v.mfa_secret) e, ap (λ v. v.mfa_last_used_step) e)

  first_of_if {ℓ κ} :
      {A : Type ℓ} {B : Type κ} (b : Bool) (x y : A × B)
      → (if b then x else y).1 ≡ (if b then x.1 else y.1)
  first_of_if true x y = refl
  first_of_if false x y = refl

  served-Keeps :
      (now : ℕ) (r : Request) (u : MfaUser)
      → u.mfa_enabled ≡ true
      → Accepted u now (code_of r) ⊎ Keeps u (served now r u)
  unfolding served consume_backup_code enable_mfa disable_mfa regenerate_backup_codes
  served-Keeps now (log_in code) u on =
      same-Keeps u _
        (verified-Keeps u now code (λ r. r.1) (verify-Verified hmac_sha1 key_of u code now) refl)
  served-Keeps now (recover code) u on = inr (use_entry-Keeps _ u)
  served-Keeps now (set_up code secret) u on = same-Keeps u _ (setup-Keeps u now code secret on)
  served-Keeps now (enable code) u on = same-Keeps u (served now (enable code) u) (
      rw (first_of_if (not (has_secret u.mfa_secret)) _ _)
        (guarded-Keeps _ u now code (λ r. (enable_if r).1) refl))
  served-Keeps now (disable code) u on = same-Keeps u (served now (disable code) u) (
      rw (first_of_if (not u.mfa_enabled || not (has_secret u.mfa_secret)) _ _)
        (guarded-Keeps _ u now code (λ r. (disable_if r).1) refl))
  served-Keeps now (renew code codes) u on = same-Keeps u (served now (renew code codes) u) (
      rw (first_of_if (not u.mfa_enabled || not (has_secret u.mfa_secret)) _ _)
        (guarded-Keeps _ u now code (λ r. (renew_if sha256 codes r).1) refl))

  Keeps-Accepted :
      (u u' : MfaUser) {now : ℕ} (code : Option Text)
      → Keeps u u'
      → Accepted u' now code
      → Accepted u now code
  Keeps-Accepted u u' _ (on, key, last) (accepted secret code step s run) =
      accepted secret code step (rw key at s) (rw last at run)

  Keeps-trans : (u v w : MfaUser) → Keeps u v → Keeps v w → Keeps u w
  Keeps-trans u v w (a, b, c) (a', b', c') = (a' ∙ a, b' ∙ b, c' ∙ c)

  serve_all-Keeps :
      (rs : List (ℕ × Request)) (u v : MfaUser)
      → u.mfa_enabled ≡ true
      → All (λ e. ¬ Accepted u e.0 (code_of e.1)) rs
      → Keeps u v
      → Keeps u (serve_all rs v)
  unfolding serve_all
  serve_all-Keeps [] u v on none_accepted same = same
  serve_all-Keeps ((now, r) ∷ rs) u v on (refused_here, refused_later) same =
      elim (served-Keeps now r v (same.0 ∙ on)) [
        | inl a ↦ absurd (refused_here (Keeps-Accepted u v _ same a))
        | inr next ↦
            serve_all-Keeps rs u (served now r v) on refused_later
              (Keeps-trans u v (served now r v) same next)
      ]

  -- Whoever sends requests for a user with the second factor enabled, logins, backup codes, the set-up
  -- of a new secret, enabling, disabling and new backup codes, in any order and at any times: if none
  -- of them presents a code that the user's secret accepts at a step later than the last used, the
  -- second factor stays enabled, with the same secret and the same last step.
  pub second_factor_kept :
      (u : MfaUser) (rs : List (ℕ × Request))
      → u.mfa_enabled ≡ true
      → All (λ e. ¬ Accepted u e.0 (code_of e.1)) rs
      → Keeps u (serve_all rs u)
  second_factor_kept u rs on none_accepted =
      serve_all-Keeps rs u u on none_accepted (refl, refl, refl)
