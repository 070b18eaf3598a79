-- ===== src/RefreshTokens/Reuse.antt =====
-- What happens when a token is presented again (backend/app/services/refresh_tokens.py), in the
-- service and in the request.
use mathlib.Core.List.{Mem, mem-cons}
use mathlib.Core.Logic.Or
use k_aikei.Prelude.{
  ℕ, ◌+◌, ◌≤◌, ◌<◌, ◌≡◌, refl, true, false, not, ◌&&◌, ◌==◌, Option, none, some, List, [], ◌∷◌, ltb,
  leb, arith, Bool-cases, inl, inr, ◌⊎◌, ap,
}
use k_aikei.Result.{ok, err}
use k_aikei.RefreshTokens.{
  RefreshToken, RefreshTokenError, Tokens, is_set, find_token, new_token, revoke_family, present,
  present_unrevoked, present_used, rotate, successor_within_grace, usable, answer, get_db,
  refresh_token, may_continue, Account, Outcome, reuse_grace_period,
}
use k_aikei.RefreshTokens.Liveness.{live_count, revoke_family_ends}

find_revoked :
    (family now id : ℕ) (ts : Tokens) {t : RefreshToken}
    → find_token id (revoke_family family now ts) ≡ some t
    → t.family_id ≡ family
    → is_set t.revoked_at ≡ true
unfolding find_token revoke_family
find_revoked family now id [] h same = cc
find_revoked family now id (u ∷ ts) {t} h same =
    ground (arith, find_revoked family now id ts {t = t})

-- The errors of `rotate`, with the table as it was.
abbrev pub IsRefused : Outcome → Tokens → Type 0
IsRefused o ts = (e : RefreshTokenError) × (o ≡ (err e, ts))

revoked-IsRefused :
    (now lifetime next id : ℕ) (ts : Tokens) {t : RefreshToken}
    → find_token id ts ≡ some t
    → is_set t.revoked_at ≡ true
    → IsRefused (rotate now lifetime next id ts) ts
unfolding rotate present
revoked-IsRefused now lifetime next id ts found gone = rw (found, gone) (_, refl)

no_grace :
    (now used : ℕ) (next : Option ℕ) (ts : Tokens)
    → used + reuse_grace_period < now
    → successor_within_grace now used next ts ≡ none
unfolding successor_within_grace
no_grace now used none ts late = refl
no_grace now used (some next) ts late = ground arith

-- A token that is used and not revoked, presented after the grace period.
module _ (now lifetime next id used : ℕ) (ts : Tokens) {row : RefreshToken}
    (found : find_token id ts ≡ some row) (valid : row.revoked_at ≡ none)
    (was_used : row.used_at ≡ some used) (late : used + reuse_grace_period < now) where
  reuse_lem : rotate now lifetime next id ts ≡ (
    err (record { reason = "refresh token reuse detected"; reuse_detected = true }),
    revoke_family row.family_id now ts,
  )
  unfolding rotate present present_unrevoked present_used
  reuse_lem = rw (found, valid, was_used, no_grace now used row.replaced_by_id ts late) refl

  -- A token that is in the table, not revoked, and used longer ago than the grace period is reported as
  -- reuse when it is presented, and leaves its family with no token that can be exchanged: every token
  -- of the family that is presented to the service afterwards, at any time, is refused.
  pub reuse_revokes_family :
      (rotate now lifetime next id ts ≡ (
        err (record { reason = "refresh token reuse detected"; reuse_detected = true }),
        revoke_family row.family_id now ts,
      ))
      × (live_count row.family_id (rotate now lifetime next id ts).1 ≡ 0)
      × ((again drawn other : ℕ) (t : RefreshToken)
          → find_token other (rotate now lifetime next id ts).1 ≡ some t
          → t.family_id ≡ row.family_id
          → IsRefused
              (rotate again lifetime drawn other (rotate now lifetime next id ts).1)
              (rotate now lifetime next id ts).1)
  reuse_revokes_family = (
    reuse_lem,
    rw reuse_lem (revoke_family_ends row.family_id now ts),
    rw reuse_lem (λ again drawn other t there same.
        revoked-IsRefused again lifetime drawn other (revoke_family row.family_id now ts) there
          (find_revoked row.family_id now other ts there same)),
  )

  -- In a request, with a token that is in the table, not revoked, and used longer ago than the grace
  -- period, the revocation that the service makes is rolled back: the response is 401 and the table is
  -- as it was before, with as many tokens of the family that can be exchanged, while the service by
  -- itself leaves none.
  pub reuse_is_rolled_back :
      (accounts : List Account)
      → (refresh_token now lifetime next id accounts ts ≡ (err 401, ts))
        × (live_count row.family_id (refresh_token now lifetime next id accounts ts).1
            ≡ live_count row.family_id ts)
        × (live_count row.family_id (rotate now lifetime next id ts).1 ≡ 0)
  unfolding refresh_token answer get_db
  reuse_is_rolled_back accounts =
      (rw reuse_lem refl, rw reuse_lem refl, rw reuse_lem (revoke_family_ends row.family_id now ts))

usable_lem :
    (o : Option RefreshToken) {t : RefreshToken}
    → usable o ≡ some t
    → (is_set t.used_at ≡ false) × (is_set t.revoked_at ≡ false)
usable_lem none h = cc
usable_lem (some s) {t} h = (ground arith, ground arith)

-- why a presented token was accepted
abbrev pub IsAccepted : ℕ → RefreshToken → Type 0
IsAccepted now row =
    (row.revoked_at ≡ none)
    × (((row.used_at ≡ none) × (now < row.expires_at))
        ⊎ ((used : ℕ) × (row.used_at ≡ some used) × (now ≤ used + reuse_grace_period)))

answer_ok :
    (now : ℕ) (accounts : List Account) (o : Outcome) (before : Tokens) {t : RefreshToken}
    {after : Tokens}
    → get_db before (answer now accounts o) ≡ (ok t, after)
    → (o.0 ≡ ok t) × (may_continue t.user_id accounts ≡ true)
unfolding get_db answer
answer_ok now accounts (err e, ts) before h = cc
answer_ok now accounts (ok s, ts) before {t} h =
    elim (Bool-cases (may_continue s.user_id accounts)) [
      | inl may ↦
          let same : s ≡ t = ground (arith, rw may at h) in (ap (λ x. ok x) same, rw (← same) may)
      | inr no_more ↦ cc (rw no_more at h)
    ]

grace_end :
    (now used : ℕ) (next : Option ℕ) (ts : Tokens) {t : RefreshToken}
    → successor_within_grace now used next ts ≡ some t
    → (now ≤ used + reuse_grace_period) × (is_set t.used_at ≡ false) × (is_set t.revoked_at ≡ false)
unfolding successor_within_grace
grace_end now used none ts h = cc
grace_end now used (some next) ts h = elim (Bool-cases (ltb (used + reuse_grace_period) now)) [
  | inl late ↦ cc (rw late at h)
  | inr soon ↦
      let (unused, valid) = usable_lem (find_token next ts) (rw soon at h) in
      (ground arith, unused, valid)
]

-- what a successful rotation says of the row that was presented and of the token that is returned
abbrev pub Exchanged : ℕ → RefreshToken → RefreshToken → Type 0
Exchanged now row t =
    IsAccepted now row × (is_set t.used_at ≡ false) × (is_set t.revoked_at ≡ false)

present_used_ok :
    (now : ℕ) (row : RefreshToken) (o : Option RefreshToken) (ts : Tokens) {t : RefreshToken}
    → (present_used now row o ts).0 ≡ ok t
    → o ≡ some t
unfolding present_used
present_used_ok now row none ts h = cc
present_used_ok now row (some s) ts h = ground arith

unrevoked_ok :
    (now lifetime next : ℕ) (row : RefreshToken) (o : Option ℕ) (ts : Tokens) {t : RefreshToken}
    → row.used_at ≡ o
    → row.revoked_at ≡ none
    → (present_unrevoked now lifetime next row o ts).0 ≡ ok t
    → Exchanged now row t
unfolding present_unrevoked
unrevoked_ok now lifetime next row (some used) ts u r h =
    let run =
      present_used_ok now row (successor_within_grace now used row.replaced_by_id ts) ts h in
    let (soon, unused, valid) = grace_end now used row.replaced_by_id ts run in
    ((r, inr (used, u, soon)), unused, valid)
unrevoked_ok now lifetime next row none ts {t} u r h = elim (Bool-cases (leb row.expires_at now)) [
  | inl late ↦ cc (rw late at h)
  | inr early ↦
      let same : new_token next row.family_id row.user_id (now + lifetime) ≡ t =
        ground (arith, rw early at h) in
      ((r, inl (u, ground arith)), rw (← same) refl, rw (← same) refl)
]

rotate_ok :
    (now lifetime next id : ℕ) (ts : Tokens) {t : RefreshToken}
    → (rotate now lifetime next id ts).0 ≡ ok t
    → (row : RefreshToken) × (find_token id ts ≡ some row) × Exchanged now row t
unfolding rotate present
rotate_ok now lifetime next id ts {t} h = go (find_token id ts) refl h
  where
    go :
        (o : Option RefreshToken)
        → find_token id ts ≡ o
        → (present now lifetime next o ts).0 ≡ ok t
        → (row : RefreshToken) × (find_token id ts ≡ some row) × Exchanged now row t
    go none run h = cc
    go (some row) run h = elim (Bool-cases (is_set row.revoked_at)) [
      | inl gone ↦ cc (rw gone at h)
      | inr there ↦ (
        row,
        run,
        unrevoked_ok now lifetime next row row.used_at ts refl (ground arith) (rw there at h),
      )
    ]

-- an account that is not deleted and is active
abbrev pub IsActive : ℕ → List Account → Type 0
IsActive id accounts =
    (a : Account) × Mem a accounts
    × (a.user_id ≡ id)
    × (a.is_deleted ≡ false)
    × (a.is_active ≡ true)

later-IsActive :
    (id : ℕ) (a : Account) {rest : List Account} → IsActive id rest → IsActive id (a ∷ rest)
later-IsActive id a (b, there, same, undeleted, active) =
    (b, mem-cons.1 (Or.inr there), same, undeleted, active)

may_continue-IsActive :
    (id : ℕ) (accounts : List Account) → may_continue id accounts ≡ true → IsActive id accounts
unfolding may_continue
may_continue-IsActive id [] h = cc
may_continue-IsActive id (a ∷ rest) h = elim (Bool-cases (a.user_id == id && not a.is_deleted)) [
  | inl found ↦ (a, mem-cons.1 (Or.inl refl), ground arith, ground arith, rw found at h)
  | inr passed ↦ later-IsActive id a (may_continue-IsActive id rest (rw passed at h))
]

-- A request that returns a token was given one that is in the table and not revoked, and that was
-- either unused and unexpired, or used no longer ago than the grace period. The token that is
-- returned is neither used nor revoked, and the table of users has an account of its user that is not
-- deleted and is active.
pub request_accepted :
    (now lifetime next id : ℕ) (accounts : List Account) (ts : Tokens) {t : RefreshToken}
    {after : Tokens}
    → refresh_token now lifetime next id accounts ts ≡ (ok t, after)
    → ((row : RefreshToken) × (find_token id ts ≡ some row) × Exchanged now row t)
      × IsActive t.user_id accounts
unfolding refresh_token
request_accepted now lifetime next id accounts ts h =
    let (run, may) = answer_ok now accounts (rotate now lifetime next id ts) ts h in
    (rotate_ok now lifetime next id ts run, may_continue-IsActive _ accounts may)
