-- ===== src/PaymentMatching/Records.antt =====
-- The records of backend/app/services/payment_matching.py. Amounts count ten-thousandths of a yen,
-- a date is its day number, and the ids, which are only compared, are numbers.
use text.Mathlib.Text.{◌==◌ as str_eq}
use k_aikei.Prelude.{ℕ, String, Bool, ◌&&◌, List, ◌==◌}
use k_aikei.Prelude.Int.{ℤ, eqb_ℤ}

pub data MatchType : Type 0 where
  exact aggregate fee_adjusted : MatchType

pub record ExpectedPayment : Type 0 where
  pub payment_id : ℕ
  pub payee_name : String
  pub amount : ℤ
  pub payment_date : ℕ

pub record BankWithdrawal : Type 0 where
  pub line_id : ℕ
  pub transaction_date : ℕ
  pub amount : ℤ
  pub description : String

pub record PaymentMatch : Type 0 where
  pub line_id : ℕ
  pub payment_ids : List ℕ
  pub withdrawal_amount : ℤ
  pub matched_amount : ℤ
  pub difference : ℤ
  pub match_type : MatchType

pub record PaymentMatchResult : Type 0 where
  pub matches : List PaymentMatch
  pub unmatched_line_ids : List ℕ
  pub unmatched_payment_ids : List ℕ
  pub matched_count : ℕ
  pub matched_amount_total : ℤ
  pub unmatched_withdrawal_total : ℤ
  pub unmatched_payment_total : ℤ
  pub fully_reconciled : Bool

-- the equality of the dataclass, which `list.remove` uses
unfoldable pub withdrawal_eq : BankWithdrawal → BankWithdrawal → Bool
withdrawal_eq a b =
    a.line_id == b.line_id
    && a.transaction_date == b.transaction_date
    && eqb_ℤ a.amount b.amount
    && str_eq a.description b.description

pub data MatchError : Type 0 where
  -- the ValueErrors of `match`
  negative_date_tolerance negative_fee_tolerance : MatchError
  withdrawal_not_positive payment_not_positive : MatchError
  duplicate_payment_id duplicate_line_id : MatchError
  -- `dict.__getitem__`, `del` and `list.remove` on what is not there
  key_error not_in_list : MatchError
