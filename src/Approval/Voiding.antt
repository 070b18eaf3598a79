-- ===== src/Approval/Voiding.antt =====
-- backend/app/api/v1/endpoints/journals.py: the handler void_journal, which stands beside the approval
-- workflow and sets `is_voided`. The check of the permission is that of require_permission, and the
-- companies of the caller's tenant are a list. The key of a journal is unique, so that the condition on
-- the company in the query is a test of the row that has the key.
pub mod Final
use k_aikei.Prelude.{
  ℕ, String, Bool, true, false, not, ◌||◌, Option, none, some, List, [], ◌∷◌, ◌==◌, any,
  if◌then◌else◌,
}
use k_aikei.Result.{Result, ok, err}
use k_aikei.Rbac.{has_permission, journal_void}
use k_aikei.Approval.Store.{JournalHeader, Db, find_journal, put_journal}
use k_aikei.Approval.{Request, handle, after}

pub record Caller : Type 0 where
  pub role : String
  pub companies : List ℕ

-- The answers that are errors: 403, 404 and 409.
pub data VoidError : Type 0 where
  forbidden journal_missing already_voided : VoidError

abbrev pub VoidOutcome : Type 0
VoidOutcome = Result VoidError (JournalHeader × Db)

-- `scope_to_tenant` of the query
abbrev pub scoped : Caller → Option JournalHeader → Option JournalHeader
scoped caller none = none
scoped caller (some j) =
    if any (λ company. company == j.company_id) caller.companies then some j else none

abbrev pub void_found : Db → ℕ → Option JournalHeader → VoidOutcome
void_found db id none = err journal_missing
void_found db id (some j) =
    if j.is_voided
    then err already_voided
    else (let voided = record j { is_voided = true } in
        ok (voided, record db { journals = put_journal id voided db.journals }))

unfoldable pub void_journal : Caller → Db → ℕ → VoidOutcome
void_journal caller db id =
    if not (has_permission caller.role journal_void)
    then err forbidden
    else void_found db id (scoped caller (find_journal id db.journals))

abbrev pub after_void : Db → VoidOutcome → Db
after_void db (ok (j, db')) = db'
after_void db (err e) = db

-- The requests that change an existing journal, each of which may fail.
pub data JournalRequest : Type 0 where
  workflow : Request → JournalRequest
  void : Caller → ℕ → JournalRequest

unfoldable pub run_requests : Db → List JournalRequest → Db
run_requests db [] = db
run_requests db (workflow r ∷ rs) = run_requests (after db (handle db r)) rs
run_requests db (void caller id ∷ rs) = run_requests (after_void db (void_journal caller db id)) rs
