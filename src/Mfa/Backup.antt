-- ===== src/Mfa/Backup.antt =====
-- The attempts with backup codes (backend/app/services/mfa.py).
use k_aikei.Prelude.{
  ℕ, ◌+◌, ◌≡◌, refl, Bool, true, false, not, ◌&&◌, Option, none, some, List, [], ◌∷◌, ◌==◌,
  if◌then◌else◌, arith,
}
use k_aikei.Prelude.Digits.{Text, text_eq, text_eq_lem, text_eq_refl}
use k_aikei.Mfa.{
  BackupCode, MfaUser, match_hash, match_backup_code, set_used, use_entry, one_later,
  consume_backup_code, hash_backup_code,
}

abbrev pub one_if : Bool → ℕ
one_if b = if b then 1 else 0

-- The number of entries with the hash that are not used.
unfoldable pub fresh_with : Text → List BackupCode → ℕ
fresh_with h [] = 0
fresh_with h (e ∷ es) = one_if (not e.used && text_eq e.hash h) + fresh_with h es

-- What a search finds: entries are passed over because they are used or have another hash.
data Found (target : Text) : List BackupCode → Option ℕ → Type 0 where
  nowhere : Found target [] none
  passes :
      (e : BackupCode) {es : List BackupCode} (o : Option ℕ)
      → not e.used && text_eq e.hash target ≡ false
      → Found target es o
      → Found target (e ∷ es) (one_later o)
  here :
      (e : BackupCode) {es : List BackupCode}
      → e.used ≡ false
      → text_eq e.hash target ≡ true
      → Found target (e ∷ es) (some 0)

passed-Found :
    (target : Text) (e : BackupCode) (es : List BackupCode) (o : Option ℕ) (used same : Bool)
    → e.used ≡ used
    → text_eq e.hash target ≡ same
    → Found target es o
    → Found target (e ∷ es) (if used then one_later o else if same then some 0 else one_later o)
passed-Found target e es o true same u t found = passes e o (rw u refl) found
passed-Found target e es o false true u t found = here e u t
passed-Found target e es o false false u t found = passes e o (rw (u, t) refl) found

match_hash-Found : (es : List BackupCode) (target : Text) → Found target es (match_hash es target)
unfolding match_hash
match_hash-Found [] target = nowhere
match_hash-Found (e ∷ es) target =
    passed-Found target e es (match_hash es target) e.used (text_eq e.hash target) refl refl
      (match_hash-Found es target)

-- One entry with the hash goes from unused to used.
abbrev Spends : Text → List BackupCode → Option ℕ → Type 0
Spends target es none = fresh_with target es ≡ 0
Spends target es (some i) =
    (h : Text) → one_if (text_eq target h) + fresh_with h (set_used i es) ≡ fresh_with h es

one_more : (a b c d : ℕ) → a + c ≡ d → a + (b + c) ≡ b + d
one_more a b c d h = omega (arith, h)

passes-Spends :
    (target : Text) (e : BackupCode) (es : List BackupCode) (o : Option ℕ)
    → not e.used && text_eq e.hash target ≡ false
    → Spends target es o
    → Spends target (e ∷ es) (one_later o)
unfolding fresh_with set_used
passes-Spends target e es none passed h = rw (passed, h) refl
passes-Spends target e es (some i) passed h = λ x. one_more _ _ _ _ (h x)

Found-Spends :
    (target : Text) {es : List BackupCode} (o : Option ℕ) → Found target es o → Spends target es o
unfolding fresh_with set_used
Found-Spends target _ nowhere = refl
Found-Spends target _ (passes e o passed found) =
    passes-Spends target e _ o passed (Found-Spends target o found)
Found-Spends target _ (here e fresh same) =
    λ x. rw (fresh, text_eq_lem e.hash target same) (omega arith)

at_least_one : (n m : ℕ) → 1 + n ≡ m → true ≡ not (m == 0)
at_least_one n m h = ground (arith, h)

add_up : (a b c d e : ℕ) → b + c ≡ d → a + d ≡ e → a + b + c ≡ e
add_up a b c d e h k = omega (arith, h, k)

-- The number of attempts that are accepted, of those whose code has the hash, and the user after all.
module _ (sha256 : Text → Text) where
  unfoldable pub attempts : List Text → MfaUser → MfaUser
  attempts [] u = u
  attempts (code ∷ codes) u = attempts codes (consume_backup_code sha256 u code).1

  unfoldable pub accepted_with : Text → List Text → MfaUser → ℕ
  accepted_with h [] u = 0
  accepted_with h (code ∷ codes) u =
      one_if ((consume_backup_code sha256 u code).0 && text_eq (hash_backup_code sha256 code) h)
      + accepted_with h codes (consume_backup_code sha256 u code).1

  -- Of the answer to an attempt at a user's entries.
  abbrev pub Answered : Text → MfaUser → Bool × MfaUser → Type 0
  Answered target u (ok, u') =
      (ok ≡ not (fresh_with target u.mfa_backup_codes == 0))
      × ((h : Text)
          → one_if (ok && text_eq target h) + fresh_with h u'.mfa_backup_codes
            ≡ fresh_with h u.mfa_backup_codes)

  use_entry-Answered :
      (target : Text) (o : Option ℕ) (u : MfaUser)
      → Spends target u.mfa_backup_codes o
      → Answered target u (use_entry o u)
  use_entry-Answered target none u h = (rw h refl, λ x. omega arith)
  use_entry-Answered target (some i) u h =
      (at_least_one _ _ (rw (text_eq_refl target) at (h target)), h)

  pub consume-Answered :
      (u : MfaUser) (code : Text)
      → Answered (hash_backup_code sha256 code) u (consume_backup_code sha256 u code)
  unfolding consume_backup_code match_backup_code
  consume-Answered u code =
      use_entry-Answered _ _ u (Found-Spends _ _ (match_hash-Found u.mfa_backup_codes _))

  -- Whatever codes are tried and in whatever order: the attempts that were accepted with a hash and
  -- the unused entries that are left with it add up to the unused entries that there were at first.
  -- A further attempt is then accepted exactly if an unused entry with the hash of its code is left.
  pub backup_codes_lem :
      (codes : List Text) (u : MfaUser)
      → ((h : Text)
          → accepted_with h codes u + fresh_with h (attempts codes u).mfa_backup_codes
            ≡ fresh_with h u.mfa_backup_codes)
        × ((code : Text)
            → (consume_backup_code sha256 (attempts codes u) code).0
              ≡ not (
                  fresh_with (hash_backup_code sha256 code) (attempts codes u).mfa_backup_codes
                  == 0))
  unfolding attempts accepted_with
  backup_codes_lem [] u = (λ h. omega arith, λ code. (consume-Answered u code).0)
  backup_codes_lem (code ∷ codes) u =
      let (balance, rest) = backup_codes_lem codes (consume_backup_code sha256 u code).1 in
      (λ h. add_up _ _ _ _ _ (balance h) ((consume-Answered u code).1 h), rest)
