-- ===== src/Receivables/Tests.antt =====
-- Tests and witnesses for backend/app/services/receivable_matching.py.
use k_aikei.Prelude.{ℕ, ◌≡◌, refl, String, List, [], ◌∷◌, All, map}
use k_aikei.Prelude.Int.{ℤ, pos, ◌+ℤ◌, ◌-ℤ◌, ◌≤ℤ◌}
use k_aikei.Prelude.Totals.{sum_of}
use k_aikei.Prelude.Sorting.{sort_by, insert_sorted}
use k_aikei.Result.{Result, ok, err}
use k_aikei.SubsetSum.{find_subset, reach, extend, get_total, has_total}
use k_aikei.Receivables.{
  Deposit, OpenInvoice, DepositStatus, settled, partly, advance, unmatched, ReceivableMatchResult,
  match_receivables, check_receivables, match_deposits, match_deposit, candidates, allocate,
  allocate_subset, allocate_near, aggregate_allocations, partial_allocations, apply_allocations,
  apply_one, find_row, deposit_result, receivable_result,
}
use k_aikei.Receivables.Conservation.{
  receivables_conserve, deposited, invoiced, result_cleared, IsAccounted,
}

abbrev owed : ℕ → ℕ → ℕ → OpenInvoice
owed id amount day = record {
  invoice_id = id;
  customer_name = "";
  amount = pos amount;
  due_date = day;
}

abbrev paid : ℕ → ℕ → Deposit
paid id amount = record {
  deposit_id = id;
  transaction_date = 50;
  amount = pos amount;
  remitter_name = "";
}

abbrev alike : String → String → ℕ
alike a b = 900

abbrev invoices : List OpenInvoice
invoices = owed 1 500 30 ∷ owed 2 300 20 ∷ owed 3 200 10 ∷ owed 4 1000 40 ∷ []

abbrev deposits : List Deposit
deposits = paid 1 500 ∷ paid 2 998 ∷ paid 3 400 ∷ paid 4 700 ∷ paid 5 1 ∷ []

abbrev outcomes : Result String ReceivableMatchResult → List (DepositStatus × ℤ)
outcomes (ok r) = map (λ d. (d.status, d.advance_amount)) r.deposits
outcomes (err e) = []

-- exact, a fee of two, a part of what two invoices owe, more than they owe, and nothing to pay
statuses :
    outcomes (match_receivables alike deposits invoices (pos 2) (pos 600))
    ≡ (settled, pos 0)
      ∷ (settled, pos 0)
      ∷ (partly, pos 0)
      ∷ (advance, pos 600)
      ∷ (unmatched, pos 0)
      ∷ []
unfolding match_receivables check_receivables match_deposits match_deposit candidates allocate
    allocate_subset allocate_near aggregate_allocations partial_allocations apply_allocations
    apply_one find_row deposit_result receivable_result sort_by insert_sorted find_subset reach
    extend get_total has_total ◌+ℤ◌ ◌-ℤ◌
statuses = refl

receivables_conserve_example :
    (r : ReceivableMatchResult) × (match_receivables alike deposits invoices (pos 2) (pos 600)
      ≡ ok r)
    × (sum_of deposited deposits ≡ r.total_applied +ℤ r.total_advance +ℤ r.total_unmatched)
    × (sum_of invoiced invoices ≡ sum_of result_cleared r.deposits +ℤ r.total_outstanding)
    × All IsAccounted r.deposits
    × All (λ b. pos 0 ≤ℤ b.outstanding) r.invoices
unfolding check_receivables
receivables_conserve_example = receivables_conserve alike deposits invoices (pos 2) (pos 600) refl
