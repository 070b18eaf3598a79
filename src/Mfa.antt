-- ===== src/Mfa.antt =====
-- backend/app/services/mfa.py: the second factor. Texts are lists of code points, and codes are ASCII
-- texts. `hmac_sha1` and `sha256` are the digests of the standard library as lists of bytes, and
-- `key_of` is the decoding of a secret, which can fail. Times are past the first period of thirty
-- seconds, so the steps that are tried are not negative. What `secrets` draws is an argument.
pub mod Verified
pub mod Replay
pub mod Backup
pub mod Protection
mod Tests
use k_aikei.Prelude.{
  ℕ, zero, suc, ◌+◌, ◌-◌, ◌*◌, ◌/◌, ◌%◌, ◌^◌, Bool, true, false, not, ◌&&◌, ◌||◌, Option, none,
  some, String, List, [], ◌∷◌, ◌++◌, map, any, keep_if, length, leb, ltb, ◌==◌, if◌then◌else◌,
}
use k_aikei.Prelude.Digits.{Text, is_number, is_digit, text_eq, digits_of, zero_padded}
use k_aikei.Result.{Result, ok, err}

-- an entry of `mfa_backup_codes`
pub record BackupCode : Type 0 where
  pub hash : Text
  pub used : Bool

-- The columns of a user that the second factor reads and writes; no list of backup codes and an empty
-- one are the same.
pub record MfaUser : Type 0 where
  pub mfa_enabled : Bool
  pub mfa_secret : Option Text
  pub mfa_last_used_step : Option ℕ
  pub mfa_backup_codes : List BackupCode

-- DEFAULT_PERIOD_SECONDS and DEFAULT_DIGITS
abbrev pub default_period_seconds : ℕ
default_period_seconds = 30

abbrev pub default_digits : ℕ
default_digits = 6

-- `digest[i]`, where a digest has twenty bytes
unfoldable pub byte_at : ℕ → List ℕ → ℕ
byte_at i [] = 0
byte_at zero (b ∷ bs) = b
byte_at (suc i) (b ∷ bs) = byte_at i bs

-- `int.from_bytes(digest[offset : offset + 4], "big") & 0x7FFFFFFF`, at the offset that the last byte
-- gives
unfoldable pub truncated : List ℕ → ℕ
truncated digest =
    let offset = byte_at 19 digest % 16 in
    (byte_at offset digest * 2 ^ 24
      + byte_at (offset + 1) digest * 2 ^ 16
      + byte_at (offset + 2) digest * 2 ^ 8
      + byte_at (offset + 3) digest)
    % 2 ^ 31

-- `_hotp`, six digits
unfoldable pub hotp : (Text → ℕ → List ℕ) → Text → ℕ → Text
hotp hmac_sha1 key counter =
    zero_padded default_digits (digits_of (truncated (hmac_sha1 key counter) % 10 ^ default_digits))

-- `code.strip().replace(" ", "")`
abbrev pub is_white : ℕ → Bool
is_white c = c == 32 || leb 9 c && leb c 13 || leb 28 c && leb c 31

unfoldable pub lstrip : Text → Text
lstrip [] = []
lstrip (c ∷ cs) = if is_white c then lstrip cs else c ∷ cs

unfoldable pub rstrip : Text → Text
rstrip [] = []
rstrip (c ∷ cs) = if all_white (c ∷ cs) then [] else c ∷ rstrip cs
  where
    all_white : Text → Bool
    all_white [] = true
    all_white (d ∷ ds) = is_white d && all_white ds

unfoldable pub cleaned : Text → Text
cleaned code = keep_if (λ c. not (c == 32)) (rstrip (lstrip code))

abbrev pub newer : Option ℕ → Option ℕ → Option ℕ
newer none last = none
newer (some step) none = some step
newer (some step) (some last) = if leb step last then none else some step

-- `if step is None: return False`, and the step kept
abbrev pub consume : Option ℕ → MfaUser → Bool × MfaUser
consume none u = (false, u)
consume (some step) u = (true, record u { mfa_last_used_step = some step })

-- MfaReauthRequired is the only error.
pub data MfaError : Type 0 where
  reauth_required : MfaError

abbrev pub with_secret : Text → MfaUser → MfaUser
with_secret secret u = record {
  mfa_enabled = false;
  mfa_secret = some secret;
  mfa_last_used_step = none;
  mfa_backup_codes = [];
}

-- the raise of `setup_mfa`, or the new secret
abbrev pub secret_if : Text → Bool × MfaUser → Result MfaError Text × MfaUser
secret_if secret (true, u) = (ok secret, with_secret secret u)
secret_if secret (false, u) = (err reauth_required, u)

abbrev pub enable_if : Bool × MfaUser → Bool × MfaUser
enable_if (true, u) = (true, record u { mfa_enabled = true })
enable_if (false, u) = (false, u)

abbrev pub has_secret : Option Text → Bool
has_secret none = false
has_secret (some []) = false
has_secret (some (c ∷ secret)) = true

abbrev pub cleared : MfaUser
cleared = record {
  mfa_enabled = false;
  mfa_secret = none;
  mfa_last_used_step = none;
  mfa_backup_codes = [];
}

abbrev pub disable_if : Bool × MfaUser → Bool × MfaUser
disable_if (true, u) = (true, cleared)
disable_if (false, u) = (false, u)

module _ (hmac_sha1 : Text → ℕ → List ℕ) (key_of : Text → Option Text) where
  -- the loop over the offsets -1, 0 and 1
  unfoldable pub find_step : Text → Text → List ℕ → Option ℕ
  find_step key code [] = none
  find_step key code (step ∷ steps) =
      if text_eq (hotp hmac_sha1 key step) code then some step else find_step key code steps

  abbrev pub steps_around : ℕ → List ℕ
  steps_around counter = (counter - 1) ∷ counter ∷ (counter + 1) ∷ []

  abbrev pub step_with_key : Option Text → Text → ℕ → Option ℕ
  step_with_key none code counter = none
  step_with_key (some key) code counter = find_step key code (steps_around counter)

  unfoldable pub find_matching_step : Text → Text → ℕ → Option ℕ
  find_matching_step secret code timestamp =
      let code' = cleaned code in
      if not (is_number code') || not (length code' == default_digits)
      then none
      else step_with_key (key_of secret) code' (timestamp / default_period_seconds)

  unfoldable pub check_and_consume_step : Text → Text → ℕ → Option ℕ → Option ℕ
  check_and_consume_step secret code timestamp last =
      newer (find_matching_step secret code timestamp) last

  -- `if not user.mfa_secret`
  abbrev pub verify_with : Option Text → MfaUser → Text → ℕ → Bool × MfaUser
  verify_with none u code timestamp = (false, u)
  verify_with (some []) u code timestamp = (false, u)
  verify_with (some (c ∷ secret)) u code timestamp =
      consume (check_and_consume_step (c ∷ secret) code timestamp u.mfa_last_used_step) u

  unfoldable pub verify_and_consume_totp : MfaUser → Text → ℕ → Bool × MfaUser
  verify_and_consume_totp u code timestamp = verify_with u.mfa_secret u code timestamp

  -- `verify_and_consume_totp` for a code that may be missing
  abbrev pub reverify : MfaUser → Option Text → ℕ → Bool × MfaUser
  reverify u none timestamp = (false, u)
  reverify u (some code) timestamp = verify_and_consume_totp u code timestamp

  -- `setup_mfa`, with the secret that is drawn; the user after a raise is the user that it leaves
  unfoldable pub setup_mfa : MfaUser → Option Text → ℕ → Text → Result MfaError Text × MfaUser
  setup_mfa u code timestamp secret =
      if u.mfa_enabled
      then secret_if secret (reverify u code timestamp)
      else (ok secret, with_secret secret u)

  unfoldable pub enable_mfa : MfaUser → Text → ℕ → Bool × MfaUser
  enable_mfa u code timestamp =
      if not (has_secret u.mfa_secret)
      then (false, u)
      else enable_if (verify_and_consume_totp u code timestamp)

  unfoldable pub disable_mfa : MfaUser → Text → ℕ → Bool × MfaUser
  disable_mfa u code timestamp =
      if not u.mfa_enabled || not (has_secret u.mfa_secret)
      then (false, u)
      else disable_if (verify_and_consume_totp u code timestamp)

-- `str.upper` and `str.isalnum` of ASCII
abbrev pub upper : ℕ → ℕ
upper c = if leb 97 c && leb c 122 then c - 32 else c

abbrev pub is_alnum : ℕ → Bool
is_alnum c = is_digit c || leb 65 c && leb c 90 || leb 97 c && leb c 122

unfoldable pub normalize_backup_code : Text → Text
normalize_backup_code code = keep_if is_alnum (map upper (rstrip (lstrip code)))

abbrev pub if_fresh : BackupCode → ℕ
if_fresh e = if e.used then 0 else 1

unfoldable pub count_unused_backup_codes : List BackupCode → ℕ
count_unused_backup_codes [] = 0
count_unused_backup_codes (e ∷ es) = if_fresh e + count_unused_backup_codes es

abbrev pub one_later : Option ℕ → Option ℕ
one_later none = none
one_later (some i) = some (suc i)

-- the loop of `match_backup_code`, for a hash
unfoldable pub match_hash : List BackupCode → Text → Option ℕ
match_hash [] target = none
match_hash (e ∷ es) target =
    let rest = one_later (match_hash es target) in
    if e.used then rest else if text_eq e.hash target then some 0 else rest

-- `updated[idx]["used"] = True`
unfoldable pub set_used : ℕ → List BackupCode → List BackupCode
set_used i [] = []
set_used zero (e ∷ es) = record e { used = true } ∷ es
set_used (suc i) (e ∷ es) = e ∷ set_used i es

abbrev pub use_entry : Option ℕ → MfaUser → Bool × MfaUser
use_entry none u = (false, u)
use_entry (some i) u = (true, record u { mfa_backup_codes = set_used i u.mfa_backup_codes })

module _ (sha256 : Text → Text) where
  unfoldable pub hash_backup_code : Text → Text
  hash_backup_code code = sha256 (normalize_backup_code code)

  unfoldable pub build_backup_code_entries : List Text → List BackupCode
  build_backup_code_entries codes =
      map (λ c. record { hash = hash_backup_code c; used = false }) codes

  unfoldable pub match_backup_code : List BackupCode → Text → Option ℕ
  match_backup_code es code = match_hash es (hash_backup_code code)

  unfoldable pub consume_backup_code : MfaUser → Text → Bool × MfaUser
  consume_backup_code u code = use_entry (match_backup_code u.mfa_backup_codes code) u

  abbrev pub renew_if : List Text → Bool × MfaUser → Option (List Text) × MfaUser
  renew_if codes (true, u) =
      (some codes, record u { mfa_backup_codes = build_backup_code_entries codes })
  renew_if codes (false, u) = (none, u)

  -- `regenerate_backup_codes`, with the codes that are drawn
  unfoldable pub regenerate_backup_codes :
      (Text → ℕ → List ℕ)
      → (Text → Option Text)
      → MfaUser
      → Text
      → ℕ
      → List Text
      → Option (List Text) × MfaUser
  regenerate_backup_codes hmac_sha1 key_of u code timestamp codes =
      if not u.mfa_enabled || not (has_secret u.mfa_secret)
      then (none, u)
      else renew_if codes (verify_and_consume_totp hmac_sha1 key_of u code timestamp)
