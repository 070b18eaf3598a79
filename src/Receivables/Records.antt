-- ===== src/Receivables/Records.antt =====
-- backend/app/services/receivable_matching.py: the records.
use k_aikei.Prelude.{ℕ, Bool, String, List, Option, none, some}
use k_aikei.Prelude.Int.{ℤ}
use k_aikei.Result.{Result, ok, err}

-- STATUS_SETTLED, STATUS_PARTIAL, STATUS_ADVANCE and STATUS_UNMATCHED
pub data DepositStatus : Type 0 where
  settled partly advance unmatched : DepositStatus

-- APPLY_EXACT, APPLY_AGGREGATE, APPLY_FEE_ADJUSTED and APPLY_PARTIAL
pub data ApplyType : Type 0 where
  exact aggregate fee_adjusted partial : ApplyType

pub record OpenInvoice : Type 0 where
  pub invoice_id : ℕ
  pub customer_name : String
  pub amount : ℤ
  pub due_date : ℕ

pub record Deposit : Type 0 where
  pub deposit_id : ℕ
  pub transaction_date : ℕ
  pub amount : ℤ
  pub remitter_name : String

pub record Allocation : Type 0 where
  pub invoice_id : ℕ
  pub applied_amount : ℤ
  pub fee_absorbed : ℤ
  pub apply_type : ApplyType

pub record DepositResult : Type 0 where
  pub deposit_id : ℕ
  pub amount : ℤ
  pub status : DepositStatus
  pub allocations : List Allocation
  pub applied_amount : ℤ
  pub advance_amount : ℤ

pub record InvoiceBalance : Type 0 where
  pub invoice_id : ℕ
  pub amount : ℤ
  pub applied_amount : ℤ
  pub outstanding : ℤ
  pub settled_in_full : Bool

pub record ReceivableMatchResult : Type 0 where
  pub deposits : List DepositResult
  pub invoices : List InvoiceBalance
  pub total_applied : ℤ
  pub total_advance : ℤ
  pub total_unmatched : ℤ
  pub total_outstanding : ℤ
  pub settled_invoice_ids : List ℕ
  pub unmatched_deposit_ids : List ℕ

-- an invoice with its entries in the dicts `outstanding` and `applied`
pub record Row : Type 0 where
  pub invoice : OpenInvoice
  pub outstanding : ℤ
  pub applied : ℤ

abbrev pub or_missing : {A : Type 0} → Option A → Result String A
or_missing none = err "key error"
or_missing (some a) = ok a
