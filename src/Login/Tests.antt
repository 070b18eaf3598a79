-- ===== src/Login/Tests.antt =====
-- Tests and witnesses for the handler login of backend/app/api/v1/endpoints/auth.py.
use k_aikei.Prelude.{ℕ, ◌%◌, ◌≡◌, refl, Bool, true, false, Option, none, some, List, [], ◌∷◌}
use k_aikei.Prelude.Digits.{Text, digits_of, digits_on, zero_padded, text_eq}
use k_aikei.Result.{ok, err}
use k_aikei.RefreshTokens.{new_token, issue_new_family, get_db}
use k_aikei.Mfa.{
  byte_at, truncated, hotp, cleaned, lstrip, rstrip, find_step, find_matching_step,
  check_and_consume_step, verify_and_consume_totp,
}
use k_aikei.Login.{
  LoginUser, LoginRequest, LoginStore, LoginDraw, mfa_required, login, log_in_user, find_by_email,
  put_user, second_factor, check_code,
}
use k_aikei.Login.Session.{LoggedIn, login-LoggedIn}

abbrev digest : Text → ℕ → List ℕ
digest key counter = 0 ∷ 0 ∷ 0 ∷ counter % 256 ∷ []

abbrev own_key : Text → Option Text
own_key secret = some secret

abbrev plain_hash : Text → Text
plain_hash code = code

abbrev never : Text → Bool
never hash = false

abbrev alice : LoginUser
alice = record {
  user_id = 9;
  email = 97 ∷ 64 ∷ 98 ∷ [];
  password_hash = 112 ∷ [];
  is_active = true;
  is_deleted = false;
  mfa = record {
    mfa_enabled = true;
    mfa_secret = some (65 ∷ []);
    mfa_last_used_step = some 99;
    mfa_backup_codes = [];
  };
}

abbrev store : LoginStore
store = record { users = alice ∷ []; tokens = [] }

abbrev draw : LoginDraw
draw = record { seconds = 3000; now = 3000000000; lifetime = 500; token_id = 1; family_id = 50 }

abbrev with_mfa_code : Option Text → LoginRequest
with_mfa_code code = record { email = 97 ∷ 64 ∷ 98 ∷ []; password = 112 ∷ []; mfa_code = code }

asks_for_code :
    login digest own_key plain_hash text_eq never plain_hash draw (with_mfa_code none) store
    ≡ (err mfa_required, store)
unfolding login log_in_user get_db find_by_email second_factor
asks_for_code = refl

takes_code :
    (login digest own_key plain_hash text_eq never plain_hash draw
      (with_mfa_code (some (48 ∷ 48 ∷ 48 ∷ 49 ∷ 48 ∷ 48 ∷ [])))
      store).0
    ≡ ok (new_token 1 50 9 3000000500)
unfolding login log_in_user get_db find_by_email second_factor check_code verify_and_consume_totp
    check_and_consume_step find_matching_step cleaned rstrip lstrip find_step hotp zero_padded
    digits_of digits_on truncated byte_at issue_new_family put_user
takes_code = refl

login-LoggedIn_example :
    LoggedIn digest own_key plain_hash text_eq never plain_hash draw
      (with_mfa_code (some (48 ∷ 48 ∷ 48 ∷ 49 ∷ 48 ∷ 48 ∷ [])))
      store
      (login digest own_key plain_hash text_eq never plain_hash draw
        (with_mfa_code (some (48 ∷ 48 ∷ 48 ∷ 49 ∷ 48 ∷ 48 ∷ [])))
        store)
login-LoggedIn_example =
    login-LoggedIn digest own_key plain_hash text_eq never plain_hash draw
      (with_mfa_code (some (48 ∷ 48 ∷ 48 ∷ 49 ∷ 48 ∷ 48 ∷ []))) store (tt, tt)
