-- ===== src/Mfa/Tests.antt =====
-- Tests and witnesses for backend/app/services/mfa.py.
use k_aikei.Prelude.{
  ℕ, ◌+◌, ◌%◌, ◌/◌, ◌≡◌, refl, ◌==◌, not, true, false, some, none, Option, List, [], ◌∷◌,
}
use k_aikei.Prelude.Digits.{Text, digits_of, digits_on, zero_padded}
use k_aikei.Prelude.Totals.{AllDistinct}
use k_aikei.Mfa.{
  MfaUser, truncated, hotp, cleaned, lstrip, rstrip, byte_at, find_matching_step, find_step,
  check_and_consume_step, verify_and_consume_totp, enable_mfa, consume_backup_code,
  match_backup_code, match_hash, set_used, hash_backup_code, normalize_backup_code,
  build_backup_code_entries, count_unused_backup_codes,
}
use k_aikei.Mfa.Replay.{starts, logs_in, enables, no_code_twice}
use k_aikei.Mfa.Backup.{attempts, accepted_with, fresh_with, backup_codes_lem}
use k_aikei.Mfa.Protection.{
  log_in, disable, recover, serve_all, Keeps, Accepted, accepted, second_factor_kept,
}

-- the digest of the example of RFC 4226
abbrev rfc_digest : List ℕ
rfc_digest =
    31 ∷ 134 ∷ 152 ∷ 105 ∷ 14 ∷ 2 ∷ 202 ∷ 22 ∷ 97 ∷ 133 ∷ 80 ∷ 239 ∷ 127 ∷ 25 ∷ 218 ∷ 142 ∷ 148 ∷ 91
    ∷ 85 ∷ 90 ∷ []

rfc_truncated : truncated rfc_digest % 1000000 ≡ 872921
unfolding truncated byte_at
rfc_truncated = refl

-- A digest that holds the counter, and a secret that is its own key.
abbrev digest : Text → ℕ → List ℕ
digest key counter = 0 ∷ 0 ∷ 0 ∷ counter % 256 ∷ []

abbrev own_key : Text → Option Text
own_key secret = some secret

abbrev code_100 : Text
code_100 = 48 ∷ 48 ∷ 48 ∷ 49 ∷ 48 ∷ 48 ∷ []

abbrev code_101 : Text
code_101 = 48 ∷ 48 ∷ 48 ∷ 49 ∷ 48 ∷ 49 ∷ []

abbrev waiting : MfaUser
waiting = record {
  mfa_enabled = false;
  mfa_secret = some (65 ∷ []);
  mfa_last_used_step = none;
  mfa_backup_codes = [];
}

code_spaced : cleaned (32 ∷ 48 ∷ 32 ∷ 49 ∷ 10 ∷ []) ≡ 48 ∷ 49 ∷ []
unfolding cleaned lstrip rstrip
code_spaced = refl

enabled_once : (enable_mfa digest own_key waiting code_100 3000).0 ≡ true
unfolding enable_mfa verify_and_consume_totp check_and_consume_step find_matching_step cleaned
    rstrip lstrip find_step hotp zero_padded digits_of digits_on truncated byte_at
enabled_once = refl

no_code_twice_example : AllDistinct (101 ∷ 100 ∷ [])
unfolding verify_and_consume_totp enable_mfa check_and_consume_step find_matching_step cleaned
    rstrip lstrip find_step hotp zero_padded digits_of digits_on truncated byte_at
no_code_twice_example =
    no_code_twice digest own_key
      (logs_in code_101 3030 (enables code_100 3000 (starts waiting refl)))

-- A hash that is the normalized code, and a user with two entries of one code and one of another.
abbrev plain_hash : Text → Text
plain_hash code = code

abbrev ready : MfaUser
ready = record waiting {
  mfa_enabled = true;
  mfa_last_used_step = some 100;
  mfa_backup_codes = build_backup_code_entries plain_hash ((65 ∷ 49 ∷ []) ∷ (66 ∷ 49 ∷ []) ∷ []);
}

unused_after_one :
    count_unused_backup_codes
      (consume_backup_code plain_hash ready (97 ∷ 45 ∷ 49 ∷ [])).1.mfa_backup_codes
    ≡ 1
unfolding count_unused_backup_codes consume_backup_code match_backup_code match_hash
    build_backup_code_entries hash_backup_code normalize_backup_code rstrip lstrip set_used
unused_after_one = refl

abbrev tried : List Text
tried = (97 ∷ 45 ∷ 49 ∷ []) ∷ (65 ∷ 49 ∷ []) ∷ []

backup_codes_lem_example :
    ((h : Text)
      → accepted_with plain_hash h tried ready
          + fresh_with h (attempts plain_hash tried ready).mfa_backup_codes
        ≡ fresh_with h ready.mfa_backup_codes)
    × ((code : Text)
        → (consume_backup_code plain_hash (attempts plain_hash tried ready) code).0
          ≡ not (
              fresh_with
                (hash_backup_code plain_hash code)
                (attempts plain_hash tried ready).mfa_backup_codes
              == 0))
backup_codes_lem_example = backup_codes_lem plain_hash tried ready

-- A code whose step is used is not accepted, and a backup code is no code of the secret.
not-Accepted :
    (u : MfaUser) (now : ℕ) (secret code : Text)
    → u.mfa_secret ≡ some secret
    → check_and_consume_step digest own_key secret code now u.mfa_last_used_step ≡ none
    → ¬ Accepted digest own_key plain_hash u now (some code)
not-Accepted u now secret code s run (accepted secret' _ step s' run') = cc

no_code : (u : MfaUser) (now : ℕ) → ¬ Accepted digest own_key plain_hash u now none
no_code u now a = elim a [ ]

code_100_refused :
    (now : ℕ)
    → now / 30 ≡ 100
    → check_and_consume_step digest own_key (65 ∷ []) code_100 now (some 100) ≡ none
unfolding check_and_consume_step find_matching_step cleaned rstrip lstrip find_step hotp zero_padded
    digits_of digits_on truncated byte_at
code_100_refused now at_100 = rw at_100 refl

second_factor_kept_example : Keeps digest own_key plain_hash ready (
    serve_all digest own_key plain_hash
      ((3000, disable code_100) ∷ (3001, recover (65 ∷ 49 ∷ [])) ∷ (3005, log_in code_100) ∷ [])
      ready)
second_factor_kept_example =
    second_factor_kept digest own_key plain_hash ready
      ((3000, disable code_100) ∷ (3001, recover (65 ∷ 49 ∷ [])) ∷ (3005, log_in code_100) ∷ [])
      refl
      (
        not-Accepted ready 3000 (65 ∷ []) code_100 refl (code_100_refused 3000 refl),
        (
          no_code ready 3001,
          (not-Accepted ready 3005 (65 ∷ []) code_100 refl (code_100_refused 3005 refl), tt),
        ),
      )
