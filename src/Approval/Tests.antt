-- ===== src/Approval/Tests.antt =====
-- Tests and witnesses for backend/app/services/approval_service.py.
use k_aikei.Prelude.{
  ◌↔◌, ℕ, List, ◌≡◌, refl, ◌⊎◌, true, false, none, some, [], ◌∷◌, ◌++◌, Option, All,
}
use k_aikei.Prelude.Int.{pos, ◌+ℤ◌}
use k_aikei.Rbac.{has_permission, parse_role, grants}
use k_aikei.Result.{ok}
use k_aikei.Approval.{
  JournalStatus, draft, submitted, approved, posted, rejected, JournalHeader, User, Db, ApprovalLog,
  ApprovalWorkflow, debit, credit, find_journal, find_user, journal_total, applicable_workflow,
  workflow_allows, required_roles, approve_journal, reject_journal, submit, approve, reject, post,
  Request, put_journal, highest, sum_amounts, handle, run, after, is_valid_transition,
  submit_for_approval, post_journal,
}
use k_aikei.Approval.Segregation.{IsSegregated, run-IsSegregated}
use k_aikei.Approval.History.{logged_transition}
use k_aikei.Approval.Rejection.{MayReject, reject_journal_lem}
use k_aikei.Approval.Voiding.{Caller, JournalRequest, workflow, void, run_requests}
use k_aikei.Approval.Voiding.Final.{posted_is_final}
use k_aikei.Approval.Workflow.{
  Governs, applicable_workflow_is_strictest, approve_journal_lem, MayApprove,
}

abbrev header : JournalStatus → Option ℕ → JournalHeader
header s a = record {
  journal_header_id = 1;
  company_id = 1;
  approval_status = s;
  is_voided = false;
  is_deleted = false;
  created_by = 10;
  approved_by = a;
}

abbrev admin_only : ApprovalWorkflow
admin_only = record {
  company_id = 1;
  threshold_amount = pos 500;
  required_approver_roles = "admin, cfo";
  is_active = true;
  is_deleted = false;
}

abbrev store : JournalStatus → Option ℕ → Db
store s a = record {
  journals = header s a ∷ [];
  lines =
      record { journal_header_id = 1; debit_credit = debit; amount = pos 700; is_deleted = false }
      ∷ record {
        journal_header_id = 1;
        debit_credit = credit;
        amount = pos 700;
        is_deleted = false;
      }
      ∷ [];
  users = record { user_id = 11; role = "admin" } ∷ record { user_id = 12; role = "approver" } ∷ [];
  workflows = admin_only ∷ [];
  log = [];
}

roles_stripped : required_roles " approver, admin" ≡ "approver" ∷ "admin" ∷ []
unfolding required_roles
roles_stripped = refl

-- the approver's role is not one that the workflow for 500 and more allows
approver_refused :
    (run (store draft none) (submit 1 10 ∷ approve 1 12 none ∷ [])).journals
    ≡ header submitted none ∷ []
unfolding run handle submit_for_approval approve_journal find_journal put_journal find_user
    applicable_workflow highest journal_total sum_amounts workflow_allows required_roles
    has_permission parse_role grants ◌+ℤ◌
approver_refused = refl

abbrev path : List Request
path = submit 1 10 ∷ approve 1 10 none ∷ approve 1 11 none ∷ post 1 10 ∷ post 1 12 ∷ []

posted_at_end : (run (store draft none) path).journals ≡ header posted (some 11) ∷ []
unfolding run handle submit_for_approval approve_journal post_journal find_journal put_journal
    find_user applicable_workflow highest journal_total sum_amounts workflow_allows required_roles
    has_permission parse_role grants ◌+ℤ◌
posted_at_end = refl

run-IsSegregated_example : All IsSegregated (run (store draft none) path).journals
run-IsSegregated_example = run-IsSegregated path (store draft none) (tt, tt)

abbrev accountant_user : Caller
accountant_user = record { role = "accountant"; companies = 1 ∷ [] }

abbrev later_requests : List JournalRequest
later_requests = workflow (reject 1 11 none) ∷ void accountant_user 1 ∷ workflow (post 1 12) ∷ []

posted_is_final_example :
    find_journal 1 (run_requests (store posted (some 11)) later_requests).journals
    ≡ some (record (header posted (some 11)) { is_voided = true })
unfolding find_journal has_permission parse_role grants
posted_is_final_example = posted_is_final later_requests (store posted (some 11)) 1 refl refl

reject_journal_lem_example :
    ((db' : Db) × (reject_journal (store approved (some 11)) 1 12 none
        ≡ ok (header rejected none, db')))
    ↔ ((old : JournalHeader) × MayReject (store approved (some 11)) 1 12 old
        × (header rejected none ≡ record old { approval_status = rejected; approved_by = none }))
reject_journal_lem_example =
    reject_journal_lem (store approved (some 11)) 1 12 none (header rejected none)

applicable_workflow_is_strictest_example :
    Governs 1 (pos 700) (admin_only ∷ []) (applicable_workflow 1 (pos 700) (admin_only ∷ []))
applicable_workflow_is_strictest_example =
    applicable_workflow_is_strictest 1 (pos 700) (admin_only ∷ [])

approved_store : Db
approved_store = after (store submitted none) (approve_journal (store submitted none) 1 11 none)

succeeds_here :
    approve_journal (store submitted none) 1 11 none
    ≡ ok (header approved (some 11), approved_store)
unfolding approve_journal find_journal put_journal find_user applicable_workflow highest
    journal_total sum_amounts workflow_allows required_roles has_permission parse_role grants ◌+ℤ◌
    approved_store
succeeds_here = refl

logged_transition_example :
    (old : JournalHeader) × (row : ApprovalLog) × (find_journal 1 (store submitted none).journals
      ≡ some old)
    × (approved_store.log ≡ (store submitted none).log ++ row ∷ [])
    × (row.journal_header_id ≡ 1)
    × (row.from_status ≡ old.approval_status)
    × (row.to_status ≡ approved)
    × ((is_valid_transition row.from_status row.to_status ≡ true)
        ⊎ ((row.from_status ≡ approved) × (row.to_status ≡ rejected)))
unfolding handle
logged_transition_example =
    logged_transition (store submitted none) (approve 1 11 none) succeeds_here

approve_journal_lem_example :
    ((db' : Db) × (approve_journal (store submitted none) 1 11 none
        ≡ ok (header approved (some 11), db')))
    ↔ ((old : JournalHeader) × (u : User) × MayApprove (store submitted none) 1 11 old u
        × (header approved (some 11)
            ≡ record old { approval_status = approved; approved_by = some 11 }))
approve_journal_lem_example =
    approve_journal_lem (store submitted none) 1 11 none (header approved (some 11))
