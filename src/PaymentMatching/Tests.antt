-- ===== src/PaymentMatching/Tests.antt =====
-- Tests and witnesses for backend/app/services/payment_matching.py.
use k_aikei.Prelude.{
  ℕ, ◌+◌, ◌≤◌, ◌≡◌, refl, [], ◌∷◌, true, none, some, List, All, map, length, done, skip, keep,
  arith,
}
use k_aikei.Prelude.Totals.{sum_of, count}
use k_aikei.Prelude.Int.{pos, ◌+ℤ◌, ◌-ℤ◌}
use k_aikei.Result.{ok, err}
use k_aikei.SubsetSum.{find_subset, reach, extend, get_total, has_total}
use k_aikei.SubsetSum.Sound.{Selection, find_subset_sound}
use k_aikei.SubsetSum.Complete.{find_subset_complete}
use k_aikei.PaymentMatching.Removal.{line_of, amount_drawn}
use k_aikei.PaymentMatching.Balance.{Justified, paid_amount, match_line, matched_ids}
use k_aikei.PaymentMatching.Reconciliation.{
  match_returns, match_conserves, match-Justified, match_uses_once,
}
use k_aikei.PaymentMatching.{
  PaymentMatchResult, duplicate_payment_id, payment_id_of, amount_due, max_subset_states,
  ExpectedPayment, BankWithdrawal, match_payments, exact, aggregate, fee_adjusted, validate,
  reconcile, result_of, fee_stage, each_withdrawal, fee_step, aggregate_step, exact_step,
  settle_subset, settle_single, settle, take_withdrawal, remove_withdrawal, commit, delete_all,
  sum_found, remove_payment, find_payment, candidates, find_payments, within_date, withdrawal_eq,
}

abbrev pay : ℕ → ℕ → ExpectedPayment
pay i a = record { payment_id = i; payee_name = ""; amount = pos a; payment_date = 10 }

abbrev draw : ℕ → ℕ → BankWithdrawal
draw i a = record { line_id = i; transaction_date = 11; amount = pos a; description = "" }

abbrev draws : List BankWithdrawal
draws = draw 1 500 ∷ draw 2 349 ∷ draw 3 303 ∷ []

abbrev pays : List ExpectedPayment
pays = pay 7 100 ∷ pay 8 249 ∷ pay 9 500 ∷ pay 10 300 ∷ []

abbrev outcome : PaymentMatchResult
outcome = record {
  matches =
      record {
        line_id = 1;
        payment_ids = 9 ∷ [];
        withdrawal_amount = pos 500;
        matched_amount = pos 500;
        difference = pos 0;
        match_type = exact;
      }
      ∷ record {
        line_id = 2;
        payment_ids = 7 ∷ 8 ∷ [];
        withdrawal_amount = pos 349;
        matched_amount = pos 349;
        difference = pos 0;
        match_type = aggregate;
      }
      ∷ record {
        line_id = 3;
        payment_ids = 10 ∷ [];
        withdrawal_amount = pos 303;
        matched_amount = pos 300;
        difference = pos 3;
        match_type = fee_adjusted;
      }
      ∷ [];
  unmatched_line_ids = [];
  unmatched_payment_ids = [];
  matched_count = 3;
  matched_amount_total = pos 1152;
  unmatched_withdrawal_total = pos 0;
  unmatched_payment_total = pos 0;
  fully_reconciled = true;
}

three_stages : match_payments draws pays (pos 3) (pos 5) ≡ ok outcome
unfolding match_payments validate reconcile result_of fee_stage each_withdrawal fee_step
    aggregate_step exact_step settle_subset settle_single settle take_withdrawal remove_withdrawal
    commit delete_all sum_found remove_payment find_payment candidates find_payments within_date
    withdrawal_eq find_subset reach extend get_total has_total ◌+ℤ◌ ◌-ℤ◌
three_stages = refl

duplicate_refused :
    match_payments (draw 1 500 ∷ []) (pay 7 100 ∷ pay 7 400 ∷ []) (pos 3) (pos 0)
    ≡ err duplicate_payment_id
unfolding match_payments validate
duplicate_refused = refl

match_returns_example :
    (r : PaymentMatchResult) × (match_payments draws pays (pos 3) (pos 5) ≡ ok r)
unfolding validate
match_returns_example = match_returns draws pays (pos 3) (pos 5) refl

match_conserves_example :
    (sum_of amount_drawn draws ≡ outcome.matched_amount_total +ℤ outcome.unmatched_withdrawal_total)
    × (sum_of amount_due pays
        ≡ sum_of paid_amount outcome.matches +ℤ outcome.unmatched_payment_total)
match_conserves_example = match_conserves draws pays (pos 3) (pos 5) three_stages

match-Justified_example : All (Justified pays (pos 5)) outcome.matches
match-Justified_example = match-Justified draws pays (pos 3) (pos 5) three_stages

match_uses_once_example :
    ((i : ℕ)
      → (count i (matched_ids outcome.matches) + count i outcome.unmatched_payment_ids
          ≡ count i (map payment_id_of pays))
        × (count i (map payment_id_of pays) ≤ 1))
    × ((i : ℕ)
        → (count i (map match_line outcome.matches) + count i outcome.unmatched_line_ids
            ≡ count i (map line_of draws))
          × (count i (map line_of draws) ≤ 1))
match_uses_once_example = match_uses_once draws pays (pos 3) (pos 5) three_stages

find_subset_sound_example :
    Selection payment_id_of amount_due pays (pos 349) (7 ∷ 8 ∷ [])
    × (2 ≤ length {A = ℕ} (7 ∷ 8 ∷ []))
unfolding find_subset reach extend get_total has_total ◌+ℤ◌
find_subset_sound_example =
    find_subset_sound payment_id_of amount_due (pos 349) (some max_subset_states) pays refl

find_subset_complete_example :
    (ids : List ℕ) × (find_subset payment_id_of amount_due (pos 349) none pays ≡ some ids)
unfolding ◌+ℤ◌
find_subset_complete_example =
    find_subset_complete payment_id_of amount_due (pos 349) pays (pay 7 100 ∷ pay 8 249 ∷ [])
      (omega arith) (omega arith) (ground arith) (omega arith) (keep (keep (skip (skip done)))) refl
