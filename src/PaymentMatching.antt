-- ===== src/PaymentMatching.antt =====
-- backend/app/services/payment_matching.py: bank withdrawals are matched with expected payments,
-- in three stages. `remaining_payments`, a dict from the id of each payment to the payment, is the
-- list of its values in insertion order; the local state of `match` is the record Progress.
mod Records
pub mod Removal
pub mod Balance
pub mod Stages
pub mod Reconciliation
mod Tests
unfoldable pub use Records.*
use k_aikei.Prelude.{
  ℕ, ◌-◌, Bool, true, false, not, ◌&&◌, Option, none, some, List, [], ◌∷◌, ◌++◌, map, any, keep_if,
  length, ltb, ◌==◌, if◌then◌else◌,
}
use k_aikei.Prelude.Int.{ℤ, pos, ◌+ℤ◌, ◌-ℤ◌, ltb_ℤ, leb_ℤ, eqb_ℤ}
use k_aikei.Prelude.Totals.{sum_of, contains, has_duplicates}
use k_aikei.Result.{Result, ok, err, ◌>>=◌, ◌>>◌, raise_if}
use k_aikei.SubsetSum.{find_subset}

-- MAX_SUBSET_STATES
abbrev pub max_subset_states : ℕ
max_subset_states = 200000

-- DEFAULT_DATE_TOLERANCE_DAYS
abbrev pub default_date_tolerance_days : ℤ
default_date_tolerance_days = pos 3

abbrev days_apart : ℕ → ℕ → ℕ
days_apart a b = if ltb a b then b - a else a - b

abbrev pub abs : ℤ → ℤ
abs a = if ltb_ℤ a (pos 0) then pos 0 -ℤ a else a

-- `_within_date`
unfoldable pub within_date : BankWithdrawal → ExpectedPayment → ℤ → Bool
within_date w p tolerance = leb_ℤ (pos (days_apart w.transaction_date p.payment_date)) tolerance

pub record Progress : Type 0 where
  pub remaining_payments : List ExpectedPayment
  pub remaining_withdrawals : List BankWithdrawal
  pub matches : List PaymentMatch

abbrev pub payment_id_of : ExpectedPayment → ℕ
payment_id_of p = p.payment_id

abbrev pub amount_due : ExpectedPayment → ℤ
amount_due p = p.amount

-- `_find_subset` over the candidates
unfoldable pub find_payments : ℤ → List ExpectedPayment → Option (List ℕ)
find_payments target = find_subset payment_id_of amount_due target (some max_subset_states)

unfoldable pub candidates : ℤ → BankWithdrawal → Progress → List ExpectedPayment
candidates tolerance w s = keep_if (λ p. within_date w p tolerance) s.remaining_payments

-- `remaining_payments[pid]`
unfoldable pub find_payment : ℕ → List ExpectedPayment → Option ExpectedPayment
find_payment pid [] = none
find_payment pid (p ∷ ps) = if p.payment_id == pid then some p else find_payment pid ps

-- `del remaining_payments[pid]`
unfoldable pub remove_payment : ℕ → List ExpectedPayment → List ExpectedPayment
remove_payment pid [] = []
remove_payment pid (p ∷ ps) = if p.payment_id == pid then ps else p ∷ remove_payment pid ps

abbrev pub or_raise : {A : Type 0} → Option A → MatchError → Result MatchError A
or_raise none e = err e
or_raise (some a) e = ok a

-- `sum((remaining_payments[pid].amount for pid in ids), _ZERO)`
unfoldable pub sum_found : List ℕ → List ExpectedPayment → Result MatchError ℤ
sum_found [] ps = ok (pos 0)
sum_found (i ∷ ids) ps = do
  p ← or_raise (find_payment i ps) key_error
  rest ← sum_found ids ps
  ok (p.amount +ℤ rest)

-- `for pid in ids: del remaining_payments[pid]`
unfoldable pub delete_all : List ℕ → List ExpectedPayment → Result MatchError (List ExpectedPayment)
delete_all [] ps = ok ps
delete_all (i ∷ ids) ps = do
  p ← or_raise (find_payment i ps) key_error
  delete_all ids (remove_payment i ps)

unfoldable pub commit : BankWithdrawal → List ℕ → MatchType → Progress → Result MatchError Progress
commit w ids match_type s = do
  matched_amount ← sum_found ids s.remaining_payments
  rest ← delete_all ids s.remaining_payments
  ok (record s {
    matches =
        s.matches
        ++ record {
          line_id = w.line_id;
          payment_ids = ids;
          withdrawal_amount = w.amount;
          matched_amount = matched_amount;
          difference = w.amount -ℤ matched_amount;
          match_type = match_type;
        }
          ∷ [];
    remaining_payments = rest;
  })

-- `remaining_withdrawals.remove(withdrawal)`
unfoldable pub remove_withdrawal : BankWithdrawal → List BankWithdrawal → List BankWithdrawal
remove_withdrawal w [] = []
remove_withdrawal w (v ∷ vs) = if withdrawal_eq v w then vs else v ∷ remove_withdrawal w vs

unfoldable pub take_withdrawal : BankWithdrawal → Progress → Result MatchError Progress
take_withdrawal w s = do
  raise_if (not (any (λ v. withdrawal_eq v w) s.remaining_withdrawals)) not_in_list
  ok (record s { remaining_withdrawals = remove_withdrawal w s.remaining_withdrawals })

unfoldable pub settle : BankWithdrawal → List ℕ → MatchType → Progress → Result MatchError Progress
settle w ids match_type s = do s' ← commit w ids match_type s; take_withdrawal w s'

-- `if len(found) != 1: continue`
unfoldable pub settle_single :
    BankWithdrawal → List ExpectedPayment → MatchType → Progress → Result MatchError Progress
settle_single w (p ∷ []) match_type s = settle w (p.payment_id ∷ []) match_type s
settle_single w _ match_type s = ok s

-- `if subset is None: continue`
unfoldable pub settle_subset :
    BankWithdrawal → Option (List ℕ) → Progress → Result MatchError Progress
settle_subset w none s = ok s
settle_subset w (some ids) s = settle w ids aggregate s

-- one round of each of the three loops
unfoldable pub exact_step : ℤ → BankWithdrawal → Progress → Result MatchError Progress
exact_step tolerance w s =
    settle_single w (keep_if (λ p. eqb_ℤ p.amount w.amount) (candidates tolerance w s)) exact s

unfoldable pub aggregate_step : ℤ → BankWithdrawal → Progress → Result MatchError Progress
aggregate_step tolerance w s = settle_subset w (find_payments w.amount (candidates tolerance w s)) s

unfoldable pub fee_step : ℤ → ℤ → BankWithdrawal → Progress → Result MatchError Progress
fee_step tolerance fee w s =
    settle_single w
      (keep_if (λ p. leb_ℤ (abs (w.amount -ℤ p.amount)) fee) (candidates tolerance w s))
      fee_adjusted s

-- `for withdrawal in list(remaining_withdrawals)`
unfoldable pub each_withdrawal :
    (BankWithdrawal → Progress → Result MatchError Progress)
    → List BankWithdrawal
    → Progress
    → Result MatchError Progress
each_withdrawal step [] s = ok s
each_withdrawal step (w ∷ ws) s = do s' ← step w s; each_withdrawal step ws s'

-- `if fee_tolerance > _ZERO:` and the third loop
unfoldable pub fee_stage : ℤ → ℤ → Progress → Result MatchError Progress
fee_stage tolerance fee s =
    if ltb_ℤ (pos 0) fee
    then each_withdrawal (fee_step tolerance fee) s.remaining_withdrawals s
    else ok s

-- the three stages in a row
unfoldable pub reconcile : ℤ → ℤ → Progress → Result MatchError Progress
reconcile tolerance fee s = do
  s₁ ← each_withdrawal (exact_step tolerance) s.remaining_withdrawals s
  s₂ ← each_withdrawal (aggregate_step tolerance) s₁.remaining_withdrawals s₁
  fee_stage tolerance fee s₂

abbrev is_empty : {A : Type 0} → List A → Bool
is_empty [] = true
is_empty (x ∷ xs) = false

unfoldable pub result_of : List ExpectedPayment → Progress → PaymentMatchResult
result_of payments s = record {
  matches = s.matches;
  unmatched_line_ids = map (λ w. w.line_id) s.remaining_withdrawals;
  unmatched_payment_ids =
      map payment_id_of
        (keep_if (λ p. contains p.payment_id (map payment_id_of s.remaining_payments)) payments);
  matched_count = length s.matches;
  matched_amount_total = sum_of (λ m. m.withdrawal_amount) s.matches;
  unmatched_withdrawal_total = sum_of (λ w. w.amount) s.remaining_withdrawals;
  unmatched_payment_total = sum_of amount_due s.remaining_payments;
  fully_reconciled = is_empty s.remaining_withdrawals && is_empty s.remaining_payments;
}

-- the checks at the start of `match`, in their order
unfoldable pub validate :
    List BankWithdrawal → List ExpectedPayment → ℤ → ℤ → Result MatchError (Unit {0})
validate withdrawals payments tolerance fee = do
  raise_if (ltb_ℤ tolerance (pos 0)) negative_date_tolerance
  raise_if (ltb_ℤ fee (pos 0)) negative_fee_tolerance
  raise_if (any (λ w. leb_ℤ w.amount (pos 0)) withdrawals) withdrawal_not_positive
  raise_if (any (λ p. leb_ℤ p.amount (pos 0)) payments) payment_not_positive
  raise_if (has_duplicates (map payment_id_of payments)) duplicate_payment_id
  raise_if (has_duplicates (map (λ w. w.line_id) withdrawals)) duplicate_line_id

abbrev pub start : List BankWithdrawal → List ExpectedPayment → Progress
start withdrawals payments = record {
  remaining_payments = payments;
  remaining_withdrawals = withdrawals;
  matches = [];
}

-- `PaymentMatchingService.match`
unfoldable pub match_payments :
    List BankWithdrawal → List ExpectedPayment → ℤ → ℤ → Result MatchError PaymentMatchResult
match_payments withdrawals payments tolerance fee = do
  validate withdrawals payments tolerance fee
  s ← reconcile tolerance fee (start withdrawals payments)
  ok (result_of payments s)
