-- ===== src/RefreshTokens/Tests.antt =====
-- Tests and witnesses for backend/app/services/refresh_tokens.py.
use k_aikei.Prelude.{ℕ, ◌+◌, ◌≤◌, ◌≡◌, refl, true, false, some, none, List, [], ◌∷◌, arith}
use k_aikei.Result.{ok, err}
use k_aikei.RefreshTokens.{
  RefreshToken, Tokens, Account, find_token, new_token, issue_new_family, revoke_family, mark_used,
  present, present_unrevoked, present_used, rotate, successor_within_grace, answer, get_db,
  refresh_token, may_continue,
}
use k_aikei.RefreshTokens.Liveness.{
  live_count, Reachable, empty, after, logs_in, rotates, one_live_token,
}
use k_aikei.RefreshTokens.Reuse.{
  reuse_revokes_family, reuse_is_rolled_back, request_accepted, Exchanged, IsRefused, IsActive,
}

abbrev week : ℕ
week = 604800000000

abbrev first : RefreshToken
first = record {
  token_id = 1;
  family_id = 50;
  user_id = 9;
  expires_at = week;
  used_at = some 1000;
  replaced_by_id = some 2;
  revoked_at = none;
}

abbrev second : RefreshToken
second = new_token 2 50 9 (1000 + week)

abbrev table : Tokens
table = first ∷ second ∷ []

abbrev users : List Account
users = record { user_id = 9; is_active = true; is_deleted = false } ∷ []

after_login : rotate 1000 week 2 1 (new_token 1 50 9 week ∷ []) ≡ (ok second, table)
unfolding rotate find_token present present_unrevoked mark_used
after_login = refl

same_successor : refresh_token 2000 week 3 1 users table ≡ (ok second, table)
unfolding refresh_token get_db answer rotate find_token present present_unrevoked present_used
    successor_within_grace may_continue
same_successor = refl

second_is_live : live_count 50 table ≡ 1
second_is_live = refl

second_is_found : find_token 2 table ≡ some second
unfolding find_token
second_is_found = refl

first_is_found : find_token 1 table ≡ some first
unfolding find_token
first_is_found = refl

login_reachable : Reachable (new_token 1 50 9 week ∷ [])
unfolding issue_new_family
login_reachable = after empty (logs_in 0 week 1 50 9 [] refl)

one_live_token_example : live_count 50 (rotate 1000 week 2 1 (new_token 1 50 9 week ∷ [])).1 ≤ 1
one_live_token_example =
    one_live_token (after login_reachable (rotates 1000 week 2 1 (new_token 1 50 9 week ∷ []))) 50

reuse_revokes_family_example :
    (rotate 5000000 week 3 1 table ≡ (
      err (record { reason = "refresh token reuse detected"; reuse_detected = true }),
      revoke_family 50 5000000 table,
    ))
    × (live_count 50 (rotate 5000000 week 3 1 table).1 ≡ 0)
    × ((again drawn other : ℕ) (t : RefreshToken)
        → find_token other (rotate 5000000 week 3 1 table).1 ≡ some t
        → t.family_id ≡ 50
        → IsRefused
            (rotate again week drawn other (rotate 5000000 week 3 1 table).1)
            (rotate 5000000 week 3 1 table).1)
reuse_revokes_family_example =
    reuse_revokes_family 5000000 week 3 1 1000 table first_is_found refl refl (omega arith)

reuse_is_rolled_back_example :
    (refresh_token 5000000 week 3 1 users table ≡ (err 401, table))
    × (live_count 50 (refresh_token 5000000 week 3 1 users table).1 ≡ live_count 50 table)
    × (live_count 50 (rotate 5000000 week 3 1 table).1 ≡ 0)
reuse_is_rolled_back_example =
    reuse_is_rolled_back 5000000 week 3 1 1000 table first_is_found refl refl (omega arith) users

request_accepted_example :
    ((row : RefreshToken) × (find_token 1 table ≡ some row) × Exchanged 2000 row second)
    × IsActive 9 users
request_accepted_example = request_accepted 2000 week 3 1 users table same_successor
