-- ===== src/RefreshTokens.antt =====
-- backend/app/services/refresh_tokens.py, and in backend/app/api/v1/endpoints/auth.py the request
-- that uses it, within the database session of backend/app/core/database.py. Times are in
-- microseconds, identifiers are numbers, and the table of issued tokens is a list. A call reads the
-- clock once. The identifiers that `uuid.uuid4` draws are arguments.
pub mod Liveness
pub mod Reuse
mod Tests
use k_aikei.Prelude.{
  ℕ, ◌+◌, Bool, true, false, not, ◌&&◌, ◌||◌, Option, none, some, String, List, [], ◌∷◌, ◌++◌, map,
  leb, ltb, ◌==◌, if◌then◌else◌,
}
use k_aikei.Result.{Result, ok, err}

pub record RefreshToken : Type 0 where
  pub token_id : ℕ
  pub family_id : ℕ
  pub user_id : ℕ
  pub expires_at : ℕ
  pub used_at : Option ℕ
  pub replaced_by_id : Option ℕ
  pub revoked_at : Option ℕ

pub record RefreshTokenError : Type 0 where
  pub reason : String
  pub reuse_detected : Bool

abbrev pub Tokens : Type 0
Tokens = List RefreshToken

-- `x is not None`
abbrev pub is_set : Option ℕ → Bool
is_set none = false
is_set (some n) = true

-- REUSE_GRACE_PERIOD, three seconds
abbrev pub reuse_grace_period : ℕ
reuse_grace_period = 3000000

-- `select(RefreshToken).where(RefreshToken.token_id == id)`
unfoldable pub find_token : ℕ → Tokens → Option RefreshToken
find_token id [] = none
find_token id (t ∷ ts) = if t.token_id == id then some t else find_token id ts

-- the row that is new in the table: not used, replaced or revoked
abbrev pub new_token : ℕ → ℕ → ℕ → ℕ → RefreshToken
new_token id family user expires = record {
  token_id = id;
  family_id = family;
  user_id = user;
  expires_at = expires;
  used_at = none;
  replaced_by_id = none;
  revoked_at = none;
}

-- `issue_new_family`, given the identifiers that are drawn; a token lives for `lifetime`
unfoldable pub issue_new_family : ℕ → ℕ → ℕ → ℕ → ℕ → Tokens → RefreshToken × Tokens
issue_new_family now lifetime id family user tokens =
    let token = new_token id family user (now + lifetime) in (token, tokens ++ token ∷ [])

abbrev pub revoke : ℕ → ℕ → RefreshToken → RefreshToken
revoke family now t =
    if t.family_id == family && not (is_set t.revoked_at)
    then record t { revoked_at = some now }
    else t

-- `revoke_family`
unfoldable pub revoke_family : ℕ → ℕ → Tokens → Tokens
revoke_family family now [] = []
revoke_family family now (t ∷ ts) = revoke family now t ∷ revoke_family family now ts

-- `successor is None or successor.revoked_at is not None or successor.used_at is not None`
abbrev pub usable : Option RefreshToken → Option RefreshToken
usable none = none
usable (some t) = if is_set t.revoked_at || is_set t.used_at then none else some t

-- `_successor_within_grace` of a row that was used at `used` and has the given `replaced_by_id`
unfoldable pub successor_within_grace : ℕ → ℕ → Option ℕ → Tokens → Option RefreshToken
successor_within_grace now used none tokens = none
successor_within_grace now used (some next) tokens =
    if ltb (used + reuse_grace_period) now then none else usable (find_token next tokens)

-- `row.used_at = now` and `row.replaced_by_id = next`
abbrev pub mark : ℕ → ℕ → ℕ → RefreshToken → RefreshToken
mark id now next t =
    if t.token_id == id then record t { used_at = some now; replaced_by_id = some next } else t

unfoldable pub mark_used : ℕ → ℕ → ℕ → Tokens → Tokens
mark_used id now next [] = []
mark_used id now next (t ∷ ts) = mark id now next t ∷ mark_used id now next ts

-- What a call returns or raises, and the table when it does.
abbrev pub Outcome : Type 0
Outcome = Result RefreshTokenError RefreshToken × Tokens

abbrev pub refuse : String → Tokens → Outcome
refuse reason tokens = (err (record { reason = reason; reuse_detected = false }), tokens)

-- a token that was used before is presented
unfoldable pub present_used : ℕ → RefreshToken → Option RefreshToken → Tokens → Outcome
present_used now row (some successor) tokens = (ok successor, tokens)
present_used now row none tokens = (
  err (record { reason = "refresh token reuse detected"; reuse_detected = true }),
  revoke_family row.family_id now tokens,
)

unfoldable pub present_unrevoked : ℕ → ℕ → ℕ → RefreshToken → Option ℕ → Tokens → Outcome
present_unrevoked now lifetime next row (some used) tokens =
    present_used now row (successor_within_grace now used row.replaced_by_id tokens) tokens
present_unrevoked now lifetime next row none tokens =
    if leb row.expires_at now
    then refuse "refresh token has expired" tokens
    else (let successor = new_token next row.family_id row.user_id (now + lifetime) in
        (ok successor, mark_used row.token_id now next tokens ++ successor ∷ []))

unfoldable pub present : ℕ → ℕ → ℕ → Option RefreshToken → Tokens → Outcome
present now lifetime next none tokens = refuse "unknown refresh token" tokens
present now lifetime next (some row) tokens =
    if is_set row.revoked_at
    then refuse "refresh token has been revoked" tokens
    else present_unrevoked now lifetime next row row.used_at tokens

-- `rotate`, given the identifier `next` that is drawn for the successor
unfoldable pub rotate : ℕ → ℕ → ℕ → ℕ → Tokens → Outcome
rotate now lifetime next id tokens = present now lifetime next (find_token id tokens) tokens

-- The columns of a user that the request reads.
pub record Account : Type 0 where
  pub user_id : ℕ
  pub is_active : Bool
  pub is_deleted : Bool

-- `select(User).where(User.user_id == id, User.is_deleted == False)` and the test of `is_active`
unfoldable pub may_continue : ℕ → List Account → Bool
may_continue id [] = false
may_continue id (a ∷ rest) =
    if a.user_id == id && not a.is_deleted then a.is_active else may_continue id rest

-- The error of a request: the status of the response.
abbrev pub Response : Type 0
Response = Result ℕ RefreshToken

-- what `refresh_token` does with the outcome of `rotate`; every failure is answered by 401
unfoldable pub answer : ℕ → List Account → Outcome → Response × Tokens
answer now accounts (err e, tokens) = (err 401, tokens)
answer now accounts (ok successor, tokens) =
    if may_continue successor.user_id accounts
    then (ok successor, tokens)
    else (err 401, revoke_family successor.family_id now tokens)

-- `get_db`: the changes of a request that raises are rolled back
unfoldable pub get_db {ℓ κ μ} :
    {S : Type ℓ} {E : Type κ} {A : Type μ} → S → Result E A × S → Result E A × S
get_db before (ok token, after) = (ok token, after)
get_db before (err status, after) = (err status, before)

-- `refresh_token`, the request, for a refresh token that names the token `id`
unfoldable pub refresh_token : ℕ → ℕ → ℕ → ℕ → List Account → Tokens → Response × Tokens
refresh_token now lifetime next id accounts tokens =
    get_db tokens (answer now accounts (rotate now lifetime next id tokens))
