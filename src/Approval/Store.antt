-- ===== src/Approval/Store.antt =====
-- The rows that the approval workflow reads and writes (backend/app/models/models.py) and its
-- queries (backend/app/services/approval_service.py). A UUID is the number that it stands for,
-- amounts count ten-thousandths of a yen (`Numeric(15, 4)`), and a table is the list of its rows.
use k_aikei.Prelude.{
  ℕ, String, Bool, true, false, not, ◌&&◌, Option, none, some, List, [], ◌∷◌, ◌++◌, ◌==◌, keep_if,
  if◌then◌else◌,
}
use k_aikei.Prelude.Int.{ℤ, pos, ◌+ℤ◌, ltb_ℤ, leb_ℤ}

pub data JournalStatus : Type 0 where
  draft submitted approved posted rejected : JournalStatus

unfoldable pub status_eq : JournalStatus → JournalStatus → Bool
status_eq draft draft = true
status_eq submitted submitted = true
status_eq approved approved = true
status_eq posted posted = true
status_eq rejected rejected = true
status_eq _ _ = false

-- the columns of `JournalHeader` that the workflow and the voiding use
pub record JournalHeader : Type 0 where
  pub journal_header_id : ℕ
  pub company_id : ℕ
  pub approval_status : JournalStatus
  pub is_voided : Bool
  pub is_deleted : Bool
  pub created_by : ℕ
  pub approved_by : Option ℕ

pub data DebitCredit : Type 0 where
  debit credit : DebitCredit

abbrev pub is_debit : DebitCredit → Bool
is_debit debit = true
is_debit credit = false

pub record JournalLine : Type 0 where
  pub journal_header_id : ℕ
  pub debit_credit : DebitCredit
  pub amount : ℤ
  pub is_deleted : Bool

pub record User : Type 0 where
  pub user_id : ℕ
  pub role : String

pub record ApprovalWorkflow : Type 0 where
  pub company_id : ℕ
  pub threshold_amount : ℤ
  pub required_approver_roles : String
  pub is_active : Bool
  pub is_deleted : Bool

pub data ApprovalAction : Type 0 where
  submit approve reject post : ApprovalAction

pub record ApprovalLog : Type 0 where
  pub journal_header_id : ℕ
  pub action : ApprovalAction
  pub from_status : JournalStatus
  pub to_status : JournalStatus
  pub actor_id : ℕ
  pub comment : Option String

pub record Db : Type 0 where
  pub journals : List JournalHeader
  pub lines : List JournalLine
  pub users : List User
  pub workflows : List ApprovalWorkflow
  pub log : List ApprovalLog

abbrev pub selects : ℕ → JournalHeader → Bool
selects id j = j.journal_header_id == id && not j.is_deleted

-- `_get_journal`: the row with this key, unless it is deleted
unfoldable pub find_journal : ℕ → List JournalHeader → Option JournalHeader
find_journal id [] = none
find_journal id (j ∷ js) = if selects id j then some j else find_journal id js

-- what `flush` writes back of the row that `_get_journal` returned
unfoldable pub put_journal : ℕ → JournalHeader → List JournalHeader → List JournalHeader
put_journal id row [] = []
put_journal id row (j ∷ js) = if selects id j then row ∷ js else j ∷ put_journal id row js

-- `_get_user`
unfoldable pub find_user : ℕ → List User → Option User
find_user id [] = none
find_user id (u ∷ us) = if u.user_id == id then some u else find_user id us

unfoldable pub sum_amounts : List JournalLine → ℤ
sum_amounts [] = pos 0
sum_amounts (l ∷ ls) = l.amount +ℤ sum_amounts ls

-- `_get_journal_total`: the sum of the debit lines
unfoldable pub journal_total : ℕ → List JournalLine → ℤ
journal_total id ls =
    sum_amounts
      (keep_if (λ l. l.journal_header_id == id && not l.is_deleted && is_debit l.debit_credit) ls)

abbrev pub is_applicable : ℕ → ℤ → ApprovalWorkflow → Bool
is_applicable company amount w =
    w.company_id == company && w.is_active && not w.is_deleted && leb_ℤ w.threshold_amount amount

-- `order_by(threshold_amount.desc()).limit(1)`: the row of the highest threshold. The order
-- among equal thresholds is the database's; here it is that of the rows.
abbrev pub higher : ApprovalWorkflow → Option ApprovalWorkflow → Option ApprovalWorkflow
higher w none = some w
higher w (some v) = if ltb_ℤ w.threshold_amount v.threshold_amount then some v else some w

unfoldable pub highest : List ApprovalWorkflow → Option ApprovalWorkflow
highest [] = none
highest (w ∷ ws) = higher w (highest ws)

-- `_get_applicable_workflow`
unfoldable pub applicable_workflow : ℕ → ℤ → List ApprovalWorkflow → Option ApprovalWorkflow
applicable_workflow company amount ws = highest (keep_if (is_applicable company amount) ws)

-- `_log_action`: a row is added to the log
abbrev pub log_action : ApprovalLog → List ApprovalLog → List ApprovalLog
log_action row log = log ++ row ∷ []
