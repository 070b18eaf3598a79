-- ===== src/Login.antt =====
-- backend/app/api/v1/endpoints/auth.py: the handler login, which calls the second factor and the refresh
-- tokens, and runs in the session of get_db. The check of a password, its hash and whether the hash is
-- of an old scheme are of a library, and are arguments. Of the response the new refresh token is kept.
pub mod Rows
pub mod Session
mod Tests
use k_aikei.Prelude.{
  ℕ, ◌+◌, Bool, true, false, not, ◌&&◌, Option, none, some, List, [], ◌∷◌, ◌==◌, if◌then◌else◌,
}
use k_aikei.Prelude.Digits.{Text, text_eq}
use k_aikei.Result.{Result, ok, err}
use k_aikei.RefreshTokens.{RefreshToken, Tokens, issue_new_family, get_db}
use k_aikei.Mfa.{MfaUser, has_secret, verify_and_consume_totp, consume_backup_code}

-- The columns of a user that a login reads or writes.
pub record LoginUser : Type 0 where
  pub user_id : ℕ
  pub email : Text
  pub password_hash : Text
  pub is_active : Bool
  pub is_deleted : Bool
  pub mfa : MfaUser

pub record LoginRequest : Type 0 where
  pub email : Text
  pub password : Text
  pub mfa_code : Option Text

pub record LoginStore : Type 0 where
  pub users : List LoginUser
  pub tokens : Tokens

-- The answers that are errors.
pub data LoginError : Type 0 where
  invalid_credentials inactive_user mfa_required invalid_mfa_code : LoginError

-- the query for the user
unfoldable pub find_by_email : Text → List LoginUser → Option LoginUser
find_by_email email [] = none
find_by_email email (u ∷ us) =
    if text_eq u.email email && not u.is_deleted then some u else find_by_email email us

-- the changed row of the user
unfoldable pub put_user : LoginUser → List LoginUser → List LoginUser
put_user u [] = []
put_user u (v ∷ vs) = if v.user_id == u.user_id then u ∷ vs else v ∷ put_user u vs

abbrev pub LoginResponse : Type 0
LoginResponse = Result LoginError RefreshToken

-- What a login draws and reads: the clock in seconds and in microseconds, and two identifiers.
pub record LoginDraw : Type 0 where
  pub seconds : ℕ
  pub now : ℕ
  pub lifetime : ℕ
  pub token_id : ℕ
  pub family_id : ℕ

abbrev pub rehashed : (Text → Bool) → (Text → Text) → Text → LoginUser → LoginUser
rehashed needs_rehash hash_password password u =
    if needs_rehash u.password_hash then record u { password_hash = hash_password password } else u

abbrev pub code_result : Bool × MfaUser → Result LoginError (Unit {0}) × MfaUser
code_result (true, m) = (ok tt, m)
code_result (false, m) = (err invalid_mfa_code, m)

-- the tokens, or the error, with the row of the user as it is by then
abbrev pub conclude :
    LoginDraw
    → LoginUser
    → LoginStore
    → Result LoginError (Unit {0}) × MfaUser
    → LoginResponse × LoginStore
conclude draw u store (err e, m) =
    (err e, record store { users = put_user (record u { mfa = m }) store.users })
conclude draw u store (ok _, m) =
    let (token, tokens') =
      issue_new_family draw.now draw.lifetime draw.token_id draw.family_id u.user_id store.tokens in
    (ok token, record { users = put_user (record u { mfa = m }) store.users; tokens = tokens' })

module _ (hmac_sha1 : Text → ℕ → List ℕ) (key_of : Text → Option Text) (sha256 : Text → Text) where
  -- `if not totp_ok and not await consume_backup_code`
  abbrev pub or_backup : Text → Bool × MfaUser → Bool × MfaUser
  or_backup code (true, m) = (true, m)
  or_backup code (false, m) = consume_backup_code sha256 m code

  unfoldable pub check_code : ℕ → Text → MfaUser → Bool × MfaUser
  check_code seconds code m =
      or_backup code (verify_and_consume_totp hmac_sha1 key_of m code seconds)

  -- `if not payload.mfa_code`, true of the empty text as well
  abbrev pub with_code : ℕ → Option Text → MfaUser → Result LoginError (Unit {0}) × MfaUser
  with_code seconds none m = (err mfa_required, m)
  with_code seconds (some []) m = (err mfa_required, m)
  with_code seconds (some (c ∷ code)) m = code_result (check_code seconds (c ∷ code) m)

  unfoldable pub second_factor : ℕ → Option Text → MfaUser → Result LoginError (Unit {0}) × MfaUser
  second_factor seconds code m =
      if m.mfa_enabled && has_secret m.mfa_secret then with_code seconds code m else (ok tt, m)

  module _ (verify_password : Text → Text → Bool) (needs_rehash : Text → Bool)
      (hash_password : Text → Text) where
    unfoldable pub log_in_user :
        LoginDraw → LoginRequest → Option LoginUser → LoginStore → LoginResponse × LoginStore
    log_in_user draw request none store = (err invalid_credentials, store)
    log_in_user draw request (some u) store =
        if not (verify_password request.password u.password_hash)
        then (err invalid_credentials, store)
        else if not u.is_active
        then (err inactive_user, store)
        else conclude draw (rehashed needs_rehash hash_password request.password u) store
            (second_factor draw.seconds request.mfa_code u.mfa)

    unfoldable pub login : LoginDraw → LoginRequest → LoginStore → LoginResponse × LoginStore
    login draw request store =
        get_db store (log_in_user draw request (find_by_email request.email store.users) store)
