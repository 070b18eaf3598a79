-- ===== src/Approval.antt =====
-- backend/app/services/approval_service.py: a journal is submitted by its creator, approved or
-- rejected by another user, and posted. Every check stands before the first write, so a call that
-- raises has written nothing and returns no store. The store, the roles of a workflow and the
-- proofs are in the modules below.
mod Store
mod Roles
pub mod Steps
pub mod Segregation
pub mod History
pub mod Workflow
pub mod Rejection
pub mod Voiding
mod Tests
unfoldable pub use Store.*
unfoldable pub use Roles.{required_roles}
use text.Mathlib.Text.{◌==◌ as str_eq}
use k_aikei.Prelude.{
  ℕ, String, Bool, true, false, not, ◌||◌, Option, none, some, List, [], ◌∷◌, ◌==◌, any,
}
use k_aikei.Result.{Result, ok, err, ◌>>=◌, ◌>>◌, raise_if}
use k_aikei.Rbac.{has_permission, journal_approve, journal_post}

-- The errors by their codes; a ValueError by what it says.
pub data ApprovalError : Type 0 where
  journal_not_found user_not_found : ApprovalError
  wrong_status : JournalStatus → ApprovalError
  auth_001 sod_001 rbac_001 wf_001 : ApprovalError

abbrev pub or_raise : {A : Type 0} → Option A → ApprovalError → Result ApprovalError A
or_raise none e = err e
or_raise (some a) e = ok a

abbrev pub Outcome : Type 0
Outcome = Result ApprovalError (JournalHeader × Db)

-- VALID_TRANSITIONS, which the handlers do not consult
unfoldable pub valid_transitions : JournalStatus → List JournalStatus
valid_transitions draft = submitted ∷ rejected ∷ []
valid_transitions submitted = approved ∷ rejected ∷ draft ∷ []
valid_transitions approved = posted ∷ draft ∷ []
valid_transitions posted = []
valid_transitions rejected = draft ∷ []

unfoldable pub is_valid_transition : JournalStatus → JournalStatus → Bool
unfolding valid_transitions status_eq
is_valid_transition from to = any (status_eq to) (valid_transitions from)

-- the changed row is written back and the action is logged
unfoldable pub save : Db → JournalHeader → ApprovalLog → JournalHeader × Db
save db j row = (
  j,
  record db {
    journals = put_journal row.journal_header_id j db.journals;
    log = log_action row db.log;
  },
)

-- the status is the same with a workflow and without one
abbrev pub submit_status : Option ApprovalWorkflow → JournalStatus
submit_status none = submitted
submit_status (some w) = submitted

unfoldable pub submit_for_approval : Db → ℕ → ℕ → Outcome
unfolding save status_eq
submit_for_approval db id submitter = do
  j ← or_raise (find_journal id db.journals) journal_not_found
  raise_if (not (status_eq j.approval_status draft)) (wrong_status j.approval_status)
  raise_if (not (j.created_by == submitter)) auth_001
  let workflow = applicable_workflow j.company_id (journal_total id db.lines) db.workflows
  ok (
      save db (record j { approval_status = submit_status workflow })
        (record {
          journal_header_id = id;
          action = ApprovalAction.submit;
          from_status = draft;
          to_status = submitted;
          actor_id = submitter;
          comment = none;
        }))

-- a workflow that applies restricts the roles that may approve
unfoldable pub workflow_allows : Option ApprovalWorkflow → String → Bool
workflow_allows none role = true
workflow_allows (some w) role = any (λ r. str_eq r role) (required_roles w.required_approver_roles)

unfoldable pub approve_journal : Db → ℕ → ℕ → Option String → Outcome
unfolding save status_eq
approve_journal db id approver comment = do
  j ← or_raise (find_journal id db.journals) journal_not_found
  raise_if (not (status_eq j.approval_status submitted)) (wrong_status j.approval_status)
  raise_if (j.created_by == approver) sod_001
  u ← or_raise (find_user approver db.users) user_not_found
  raise_if (not (has_permission u.role journal_approve)) rbac_001
  let workflow = applicable_workflow j.company_id (journal_total id db.lines) db.workflows
  raise_if (not (workflow_allows workflow u.role)) wf_001
  ok (
      save db (record j { approval_status = approved; approved_by = some approver })
        (record {
          journal_header_id = id;
          action = ApprovalAction.approve;
          from_status = submitted;
          to_status = approved;
          actor_id = approver;
          comment = comment;
        }))

unfoldable pub reject_journal : Db → ℕ → ℕ → Option String → Outcome
unfolding save status_eq
reject_journal db id rejecter comment = do
  j ← or_raise (find_journal id db.journals) journal_not_found
  raise_if (not (status_eq j.approval_status submitted || status_eq j.approval_status approved))
      (wrong_status j.approval_status)
  raise_if (j.created_by == rejecter) sod_001
  ok (
      save db (record j { approval_status = rejected; approved_by = none })
        (record {
          journal_header_id = id;
          action = ApprovalAction.reject;
          from_status = j.approval_status;
          to_status = rejected;
          actor_id = rejecter;
          comment = comment;
        }))

unfoldable pub post_journal : Db → ℕ → ℕ → Outcome
unfolding save status_eq
post_journal db id actor = do
  j ← or_raise (find_journal id db.journals) journal_not_found
  raise_if (not (status_eq j.approval_status approved)) (wrong_status j.approval_status)
  u ← or_raise (find_user actor db.users) user_not_found
  raise_if (not (has_permission u.role journal_post)) rbac_001
  ok (
      save db (record j { approval_status = posted })
        (record {
          journal_header_id = id;
          action = ApprovalAction.post;
          from_status = approved;
          to_status = posted;
          actor_id = actor;
          comment = none;
        }))

-- One request, and a sequence of requests, each of which may fail.
pub data Request : Type 0 where
  submit post : ℕ → ℕ → Request
  approve reject : ℕ → ℕ → Option String → Request

unfoldable pub handle : Db → Request → Outcome
handle db (submit id who) = submit_for_approval db id who
handle db (approve id who comment) = approve_journal db id who comment
handle db (reject id who comment) = reject_journal db id who comment
handle db (post id who) = post_journal db id who

abbrev pub after : Db → Outcome → Db
after db (ok (j, db')) = db'
after db (err e) = db

unfoldable pub run : Db → List Request → Db
run db [] = db
run db (r ∷ rs) = run (after db (handle db r)) rs
