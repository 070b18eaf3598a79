-- ===== src/Login/Session.antt =====
-- The answers to a login (backend/app/api/v1/endpoints/auth.py).
use mathlib.Core.Path.{subst}
use k_aikei.Prelude.{
  ap, sym, ℕ, ◌+◌, ◌≡◌, ◌≢◌, refl, map, Bool, true, false, not, ◌&&◌, ◌==◌, Option, none, some,
  List, [], ◌∷◌, ◌++◌, if◌then◌else◌, arith,
}
use k_aikei.Prelude.Digits.{Text, text_eq}
use k_aikei.Prelude.Totals.{AllDistinct}
use k_aikei.Result.{Result, ok, err}
use k_aikei.RefreshTokens.{new_token, issue_new_family, get_db}
use k_aikei.Mfa.{
  MfaUser, has_secret, check_and_consume_step, consume_backup_code, hash_backup_code, use_entry,
}
use k_aikei.Mfa.Verified.{Verified, refused, taken, verify-Verified, IsNewer, at_step}
use k_aikei.Mfa.Backup.{one_if, fresh_with, Answered, consume-Answered}
use k_aikei.Login.Rows.{Replaced, find_by_email-Replaced}
use k_aikei.Login.{
  LoginUser, LoginRequest, LoginStore, LoginError, invalid_credentials, inactive_user,
  LoginResponse, LoginDraw, find_by_email, put_user, rehashed, or_backup, check_code, code_result,
  with_code, second_factor, conclude, log_in_user, login,
}

left_over : (found : Bool) (n : ℕ) → found ≡ not (n == 0) → found ≡ true → n ≢ 0
left_over found n h t e = ground (arith, h, t, e)

use_entry_keeps :
    (o : Option ℕ) (m : MfaUser)
    → (use_entry o m).1 ≡ record m { mfa_backup_codes = (use_entry o m).1.mfa_backup_codes }
use_entry_keeps none m = refl
use_entry_keeps (some i) m = refl

module _ (hmac_sha1 : Text → ℕ → List ℕ) (key_of : Text → Option Text) (sha256 : Text → Text) where
  -- The second factor that was passed, and the user's columns after it. A backup code leaves one unused
  -- entry with its hash less, and the other columns as they were.
  pub data Passed (seconds : ℕ) (code : Option Text) (m : MfaUser) : MfaUser → Type 0 where
    not_asked : m.mfa_enabled && has_secret m.mfa_secret ≡ false → Passed seconds code m m
    by_code :
        (c secret : Text) (step : ℕ)
        → code ≡ some c
        → m.mfa_secret ≡ some secret
        → check_and_consume_step hmac_sha1 key_of secret c seconds m.mfa_last_used_step ≡ some step
        → IsNewer m.mfa_last_used_step step
        → Passed seconds code m (at_step step m)
    by_backup_code :
        (c : Text) {m' : MfaUser}
        → code ≡ some c
        → fresh_with (hash_backup_code sha256 c) m.mfa_backup_codes ≢ 0
        → ((h : Text)
            → one_if (text_eq (hash_backup_code sha256 c) h) + fresh_with h m'.mfa_backup_codes
              ≡ fresh_with h m.mfa_backup_codes)
        → m' ≡ record m { mfa_backup_codes = m'.mfa_backup_codes }
        → Passed seconds code m m'

  abbrev Factor : ℕ → Option Text → MfaUser → Result LoginError (Unit {0}) × MfaUser → Type 0
  Factor seconds code m (err e, m') = Unit {0}
  Factor seconds code m (ok _, m') = Passed seconds code m m'

  consume_keeps :
      (c : Text) (m : MfaUser)
      → (consume_backup_code sha256 m c).1
        ≡ record m { mfa_backup_codes = (consume_backup_code sha256 m c).1.mfa_backup_codes }
  unfolding consume_backup_code
  consume_keeps c m = use_entry_keeps _ m

  backup-Factor :
      (seconds : ℕ) (c : Text) (m : MfaUser) (r : Bool × MfaUser)
      → r.1 ≡ record m { mfa_backup_codes = r.1.mfa_backup_codes }
      → Answered sha256 (hash_backup_code sha256 c) m r
      → Factor seconds (some c) m (code_result r)
  backup-Factor seconds c m (false, m') kept answered = tt
  backup-Factor seconds c m (true, m') kept answered =
      by_backup_code c refl (left_over true _ answered.0 refl) answered.1 kept

  code-Factor :
      (seconds : ℕ) (c : Text) (m : MfaUser) {r : Bool × MfaUser}
      → Verified hmac_sha1 key_of m c seconds r
      → Factor seconds (some c) m (code_result (or_backup hmac_sha1 key_of sha256 c r))
  code-Factor seconds c m refused =
      backup-Factor seconds c m _ (consume_keeps c m) (consume-Answered sha256 m c)
  code-Factor seconds c m (taken secret step s run new) = by_code c secret step refl s run new

  second-Factor-Factor :
      (seconds : ℕ) (code : Option Text) (m : MfaUser) (asked : Bool)
      → (m.mfa_enabled && has_secret m.mfa_secret) ≡ asked
      → Factor seconds code m
          (if asked then with_code hmac_sha1 key_of sha256 seconds code m else (ok tt, m))
  unfolding check_code
  second-Factor-Factor seconds none m true a = tt
  second-Factor-Factor seconds (some []) m true a = tt
  second-Factor-Factor seconds (some (c ∷ code)) m true a =
      code-Factor seconds (c ∷ code) m (verify-Verified hmac_sha1 key_of m (c ∷ code) seconds)
  second-Factor-Factor seconds none m false a = not_asked a
  second-Factor-Factor seconds (some c) m false a = not_asked a

  module _ (verify_password : Text → Text → Bool) (needs_rehash : Text → Bool)
      (hash_password : Text → Text) where
    -- The row of a user with the columns of the second factor and, if the hash is renewed, a new hash.
    abbrev pub updated : Bool → Text → LoginUser → MfaUser → LoginUser
    updated renew password u m = record u {
      password_hash = if renew then hash_password password else u.password_hash;
      mfa = m;
    }

    -- Of the answer to a login, and the store after it.
    abbrev pub LoggedIn :
        LoginDraw → LoginRequest → LoginStore → LoginResponse × LoginStore → Type 0
    LoggedIn draw request store (err e, store') = store' ≡ store
    LoggedIn draw request store (ok token, store') =
        (u : LoginUser) × (m : MfaUser) × Replaced request.email u
          (updated (needs_rehash u.password_hash) request.password u m) store.users store'.users
        × (verify_password request.password u.password_hash ≡ true)
        × (u.is_active ≡ true)
        × Passed draw.seconds request.mfa_code u.mfa m
        × (token ≡ new_token draw.token_id draw.family_id u.user_id (draw.now + draw.lifetime))
        × (store'.tokens ≡ store.tokens ++ (token ∷ []))

    -- The row that is written back, given whether the hash is renewed.
    written :
        (password : Text) (u : LoginUser) (m : MfaUser) (renew : Bool)
        → record (if renew then record u { password_hash = hash_password password } else u) {
          mfa = m;
        }
          ≡ updated renew password u m
    written password u m true = refl
    written password u m false = refl

    conclude-LoggedIn :
        (draw : LoginDraw) (request : LoginRequest) (u : LoginUser) (store : LoginStore)
        (f : Result LoginError (Unit {0}) × MfaUser)
        → AllDistinct (map (λ v. v.user_id) store.users)
        → find_by_email request.email store.users ≡ some u
        → verify_password request.password u.password_hash ≡ true
        → u.is_active ≡ true
        → Factor draw.seconds request.mfa_code u.mfa f
        → LoggedIn draw request store (
            get_db store
              (conclude draw (rehashed needs_rehash hash_password request.password u) store f))
    unfolding get_db issue_new_family
    conclude-LoggedIn draw request u store (err e, m) keys found password active passed = refl
    conclude-LoggedIn draw request u store (ok _, m) keys found password active passed =
        let row = written request.password u m (needs_rehash u.password_hash) in
        let u' = updated (needs_rehash u.password_hash) request.password u m in
        (
          u,
          m,
          subst (λ v. Replaced request.email u u' store.users (put_user v store.users)) (sym row)
              (find_by_email-Replaced request.email store.users u u' refl keys found),
          password,
          active,
          passed,
          ap
              (λ (v : LoginUser).
                new_token draw.token_id draw.family_id v.user_id (draw.now + draw.lifetime))
              row,
          refl,
        )

    -- the answers that come before the second factor
    checked-LoggedIn :
        (draw : LoginDraw) (request : LoginRequest) (u : LoginUser) (store : LoginStore)
        (right active : Bool)
        → AllDistinct (map (λ v. v.user_id) store.users)
        → find_by_email request.email store.users ≡ some u
        → verify_password request.password u.password_hash ≡ right
        → u.is_active ≡ active
        → LoggedIn draw request store (
            get_db store (
              if not right
              then (err invalid_credentials, store)
              else if not active
              then (err inactive_user, store)
              else conclude draw
                  (rehashed needs_rehash hash_password request.password u)
                  store
                  (second_factor hmac_sha1 key_of sha256 draw.seconds request.mfa_code u.mfa)))
    unfolding get_db second_factor
    checked-LoggedIn draw request u store false active keys found r a = refl
    checked-LoggedIn draw request u store true false keys found r a = refl
    checked-LoggedIn draw request u store true true keys found r a =
        conclude-LoggedIn draw request u store _ keys found r a
          (second-Factor-Factor draw.seconds request.mfa_code u.mfa _ refl)

    found-LoggedIn :
        (draw : LoginDraw) (request : LoginRequest) (o : Option LoginUser) (store : LoginStore)
        → AllDistinct (map (λ v. v.user_id) store.users)
        → find_by_email request.email store.users ≡ o
        → LoggedIn draw request store (
            get_db store (
              log_in_user hmac_sha1 key_of sha256 verify_password needs_rehash hash_password draw
                request o store))
    unfolding log_in_user get_db
    found-LoggedIn draw request none store keys found = refl
    found-LoggedIn draw request (some u) store keys found =
        checked-LoggedIn draw request u store _ _ keys found refl refl

    -- If no two rows of users have the same key: a login that returns a token was of a user whose row
    -- has the address of the request, is not deleted and is active, and whose password is right. If
    -- the second factor is enabled and a secret is stored, the request had a code that the secret accepts
    -- at a step later than the last, and this step is kept, or a backup code of which an unused entry
    -- was left, and there is one unused entry with its hash less, and as many with any other hash. The
    -- hash of the password is renewed if it is of an old scheme. The token starts a family of this
    -- user and is added to the table of tokens, and no other row of users and no other column of this
    -- one is changed. A login that fails changes nothing.
    pub login-LoggedIn :
        (draw : LoginDraw) (request : LoginRequest) (store : LoginStore)
        → AllDistinct (map (λ u. u.user_id) store.users)
        → LoggedIn draw request store (
            login hmac_sha1 key_of sha256 verify_password needs_rehash hash_password draw request
              store)
    unfolding login
    login-LoggedIn draw request store keys = found-LoggedIn draw request _ store keys refl
