-- ===== src/RefreshTokens/Liveness.antt =====
-- How many tokens of a family can still be exchanged (backend/app/services/refresh_tokens.py).
use k_aikei.Prelude.{
  ℕ, ◌+◌, ◌≤◌, ◌<◌, ◌≡◌, refl, Bool, true, false, not, ◌&&◌, Option, none, some, List, [], ◌∷◌,
  ◌++◌, leb, ◌==◌, if◌then◌else◌, arith, Bool-cases, ==_cases, inl, inr, any, ap, ◌∙◌,
}
use k_aikei.Result.{ok, err}
use k_aikei.RefreshTokens.{
  RefreshToken, Tokens, is_set, find_token, new_token, issue_new_family, revoke, revoke_family,
  mark, mark_used, present, present_unrevoked, present_used, rotate, successor_within_grace, answer,
  get_db, refresh_token, may_continue, Account, Outcome,
}

abbrev pub live : ℕ → RefreshToken → Bool
live family t = t.family_id == family && not (is_set t.used_at) && not (is_set t.revoked_at)

abbrev pub live_count : ℕ → Tokens → ℕ
live_count family [] = 0
live_count family (t ∷ ts) = (if live family t then 1 else 0) + live_count family ts

live_count-append :
    (family : ℕ) (ts us : Tokens)
    → live_count family (ts ++ us) ≡ live_count family ts + live_count family us
live_count-append family [] us = omega arith
live_count-append family (t ∷ ts) us = omega (arith, live_count-append family ts us)

revoke_keeps :
    (family g now : ℕ) (t : RefreshToken)
    → (if live g (revoke family now t) then 1 else 0) ≤ (if live g t then 1 else 0)
revoke_keeps family g now t = ground arith

pub live_count-revoke_family :
    (family g now : ℕ) (ts : Tokens) → live_count g (revoke_family family now ts) ≤ live_count g ts
unfolding revoke_family
live_count-revoke_family family g now [] = omega arith
live_count-revoke_family family g now (t ∷ ts) =
    omega (arith, live_count-revoke_family family g now ts, revoke_keeps family g now t)

revoke_ends : (family now : ℕ) (t : RefreshToken) → live family (revoke family now t) ≡ false
revoke_ends family now t = ground arith

pub revoke_family_ends :
    (family now : ℕ) (ts : Tokens) → live_count family (revoke_family family now ts) ≡ 0
unfolding revoke_family
revoke_family_ends family now [] = refl
revoke_family_ends family now (t ∷ ts) =
    ground (arith, revoke_ends family now t, revoke_family_ends family now ts)

mark_keeps :
    (id now next g : ℕ) (t : RefreshToken)
    → (if live g (mark id now next t) then 1 else 0) ≤ (if live g t then 1 else 0)
mark_keeps id now next g t = ground arith

live_count-mark_used :
    (id now next g : ℕ) (ts : Tokens) → live_count g (mark_used id now next ts) ≤ live_count g ts
unfolding mark_used
live_count-mark_used id now next g [] = omega arith
live_count-mark_used id now next g (t ∷ ts) =
    omega (arith, live_count-mark_used id now next g ts, mark_keeps id now next g t)

-- Using up a live token leaves one less.
mark_used_takes :
    (id now next : ℕ) (ts : Tokens) {row : RefreshToken}
    → find_token id ts ≡ some row
    → live row.family_id row ≡ true
    → live_count row.family_id (mark_used id now next ts) < live_count row.family_id ts
unfolding find_token mark_used
mark_used_takes id now next [] h alive = cc
mark_used_takes id now next (t ∷ ts) {row} h alive = ground (
  arith,
  live_count-mark_used id now next row.family_id ts,
  mark_used_takes id now next ts {row = row},
  mark_keeps id now next row.family_id t,
)

-- What a rotation may have done to the table: at most one live token in each family stays so.
abbrev pub NoMoreThan : Tokens → Tokens → Type 0
NoMoreThan after before = (g : ℕ) → live_count g after ≤ live_count g before

present_used_lem :
    (now : ℕ) (row : RefreshToken) (o : Option RefreshToken) (ts : Tokens)
    → NoMoreThan (present_used now row o ts).1 ts
unfolding present_used
present_used_lem now row none ts g = live_count-revoke_family row.family_id g now ts
present_used_lem now row (some s) ts g = omega arith

exchange_lem :
    (now lifetime next : ℕ) (ts : Tokens) {row : RefreshToken}
    → find_token row.token_id ts ≡ some row
    → live row.family_id row ≡ true
    → let s = new_token next row.family_id row.user_id (now + lifetime) in
      NoMoreThan (mark_used row.token_id now next ts ++ s ∷ []) ts
exchange_lem now lifetime next ts {row} found alive g =
    let s = new_token next row.family_id row.user_id (now + lifetime) in
    rw (live_count-append g (mark_used row.token_id now next ts) (s ∷ []))
      (elim (==_cases row.family_id g) [
        | inl same ↦
            ground (arith, mark_used_takes row.token_id now next ts {row = row} found alive)
        | inr differ ↦ ground (arith, live_count-mark_used row.token_id now next g ts)
      ])

found_id :
    (id : ℕ) (ts : Tokens) {row : RefreshToken} → find_token id ts ≡ some row → row.token_id ≡ id
unfolding find_token
found_id id [] h = cc
found_id id (t ∷ ts) {row} h = ground (arith, found_id id ts {row = row})

present_unrevoked_lem :
    (now lifetime next : ℕ) (ts : Tokens) (row : RefreshToken) (o : Option ℕ)
    → row.used_at ≡ o
    → is_set row.revoked_at ≡ false
    → find_token row.token_id ts ≡ some row
    → NoMoreThan (present_unrevoked now lifetime next row o ts).1 ts
unfolding present_unrevoked
present_unrevoked_lem now lifetime next ts row (some used) u r found g =
    present_used_lem now row (successor_within_grace now used row.replaced_by_id ts) ts g
present_unrevoked_lem now lifetime next ts row none u r found g =
    elim (Bool-cases (leb row.expires_at now)) [
      | inl late ↦ rw late (omega arith)
      | inr early ↦ rw early (exchange_lem now lifetime next ts found (ground (arith, u)) g)
    ]

pub rotate_lem :
    (now lifetime next id : ℕ) (ts : Tokens) → NoMoreThan (rotate now lifetime next id ts).1 ts
unfolding rotate present
rotate_lem now lifetime next id ts g = go (find_token id ts) refl
  where
    go :
        (o : Option RefreshToken)
        → find_token id ts ≡ o
        → live_count g (present now lifetime next o ts).1 ≤ live_count g ts
    go none run = omega arith
    go (some row) run = elim (Bool-cases (is_set row.revoked_at)) [
      | inl gone ↦ rw gone (omega arith)
      | inr there ↦ rw there (
          present_unrevoked_lem now lifetime next ts row row.used_at refl there
            (ap (λ i. find_token i ts) (found_id id ts run) ∙ run) g)
    ]

answer_lem :
    (now : ℕ) (accounts : List Account) (o : Outcome) (before : Tokens)
    → NoMoreThan o.1 before
    → NoMoreThan (get_db before (answer now accounts o)).1 before
unfolding answer get_db
answer_lem now accounts (err e, ts) before h g = omega arith
answer_lem now accounts (ok t, ts) before h g =
    elim (Bool-cases (may_continue t.user_id accounts)) [
      | inl may ↦ rw may (h g)
      | inr not_now ↦ rw not_now (omega arith)
    ]

-- A change of the table: a login, an exchange by the service or by a request, or a revocation. The
-- family of a login is drawn, and is none that the table has.
pub data Step : Tokens → Tokens → Type 0 where
  logs_in :
      (now lifetime id family user : ℕ) (ts : Tokens)
      → any (λ t. t.family_id == family) ts ≡ false
      → Step ts (issue_new_family now lifetime id family user ts).1
  rotates : (now lifetime next id : ℕ) (ts : Tokens) → Step ts (rotate now lifetime next id ts).1
  requests :
      (now lifetime next id : ℕ) (accounts : List Account) (ts : Tokens)
      → Step ts (refresh_token now lifetime next id accounts ts).1
  revokes : (family now : ℕ) (ts : Tokens) → Step ts (revoke_family family now ts)

pub data Reachable : Tokens → Type 0 where
  empty : Reachable []
  after : {ts us : Tokens} → Reachable ts → Step ts us → Reachable us

none_of_family :
    (family : ℕ) (ts : Tokens)
    → any (λ t. t.family_id == family) ts ≡ false
    → live_count family ts ≡ 0
none_of_family family [] h = refl
none_of_family family (t ∷ ts) h = ground (arith, none_of_family family ts)

step_lem :
    {ts us : Tokens} → Step ts us → ((g : ℕ) → live_count g ts ≤ 1) → (g : ℕ) → live_count g us ≤ 1
unfolding issue_new_family refresh_token
step_lem (logs_in now lifetime id family user ts new) h g =
    let s = new_token id family user (now + lifetime) in
    rw (live_count-append g ts (s ∷ [])) (elim (==_cases family g) [
      | inl same ↦ ground (arith, none_of_family family ts new)
      | inr differ ↦ ground (arith, h g)
    ])
step_lem (rotates now lifetime next id ts) h g =
    omega (arith, rotate_lem now lifetime next id ts g, h g)
step_lem (requests now lifetime next id accounts ts) h g = omega (
  arith,
  answer_lem now accounts (rotate now lifetime next id ts) ts (rotate_lem now lifetime next id ts)
      g,
  h g,
)
step_lem (revokes family now ts) h g = omega (arith, live_count-revoke_family family g now ts, h g)

-- Whatever logins, exchanges, requests and revocations have happened, each family has at most one
-- token that can still be exchanged, one that is neither used nor revoked.
pub one_live_token : {ts : Tokens} → Reachable ts → (g : ℕ) → live_count g ts ≤ 1
one_live_token empty g = omega arith
one_live_token (after before step) g = step_lem step (one_live_token before) g
