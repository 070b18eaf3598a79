-- ===== src/Receivables.antt =====
-- backend/app/services/receivable_matching.py: deposits applied to open invoices. Amounts are
-- integers of one unit, dates are day numbers, identifiers are numbers. The dicts `outstanding` and
-- `applied` are columns of one list of rows, in the order of the invoices. How alike two names are is
-- a score in thousandths that another service gives: it is the argument `name_similarity`.
mod Records
pub mod Applied
pub mod Deposits
pub mod Conservation
mod Tests
unfoldable pub use Records.*
use k_aikei.Prelude.{
  ℕ, Bool, true, false, not, ◌&&◌, ◌||◌, Option, none, some, String, List, [], ◌∷◌, ◌++◌, map, any,
  keep_if, leb, ltb, ◌==◌, if◌then◌else◌,
}
use k_aikei.Prelude.Int.{ℤ, pos, pos_part, ◌+ℤ◌, ◌-ℤ◌, ltb_ℤ, leb_ℤ, eqb_ℤ}
use k_aikei.Prelude.Totals.{sum_of, has_duplicates}
use k_aikei.Prelude.Sorting.{sort_by}
use k_aikei.Result.{Result, ok, err, ◌>>=◌, ◌>>◌, raise_if}
use k_aikei.SubsetSum.{find_subset}

-- the row of an invoice, by its id
unfoldable pub find_row : ℕ → List Row → Option Row
find_row id [] = none
find_row id (r ∷ rows) = if r.invoice.invoice_id == id then some r else find_row id rows

abbrev pub row_id : Row → ℕ
row_id r = r.invoice.invoice_id

abbrev pub row_outstanding : Row → ℤ
row_outstanding r = r.outstanding

-- the tuple that `candidates.sort` compares
abbrev pub due_before : Row → Row → Bool
due_before a b =
    ltb a.invoice.due_date b.invoice.due_date
    || a.invoice.due_date == b.invoice.due_date && leb (row_id a) (row_id b)

abbrev pub is_candidate : (String → String → ℕ) → ℕ → Deposit → Row → Bool
is_candidate name_similarity threshold d r =
    ltb_ℤ (pos 0) r.outstanding
    && leb threshold (name_similarity d.remitter_name r.invoice.customer_name)

unfoldable pub candidates : (String → String → ℕ) → ℕ → Deposit → List Row → List Row
candidates name_similarity threshold d rows =
    sort_by due_before (keep_if (is_candidate name_similarity threshold d) rows)

abbrev pub is_exact : Deposit → Row → Bool
is_exact d r = eqb_ℤ r.outstanding d.amount

abbrev pub is_near : ℤ → Deposit → Row → Bool
is_near tolerance d r =
    ltb_ℤ (pos 0) tolerance
    && ltb_ℤ (pos 0) (r.outstanding -ℤ d.amount)
    && leb_ℤ (r.outstanding -ℤ d.amount) tolerance

abbrev pub allocation : Row → ℤ → ℤ → ApplyType → Allocation
allocation r amount fee apply_type = record {
  invoice_id = row_id r;
  applied_amount = amount;
  fee_absorbed = fee;
  apply_type = apply_type;
}

-- the loop over the ids of a subset; a missing id would be a KeyError
unfoldable pub aggregate_allocations : List ℕ → List Row → Result String (List Allocation)
aggregate_allocations [] rows = ok []
aggregate_allocations (id ∷ ids) rows = do
  r ← or_missing (find_row id rows)
  rest ← aggregate_allocations ids rows
  ok (allocation r r.outstanding (pos 0) aggregate ∷ rest)

abbrev pub min_ℤ : ℤ → ℤ → ℤ
min_ℤ a b = if leb_ℤ a b then a else b

-- the loop over the candidates while anything remains; what it leaves is the second component
unfoldable pub partial_allocations : List Row → ℤ → List Allocation × ℤ
partial_allocations [] remaining = ([], remaining)
partial_allocations (r ∷ rows) remaining =
    let amount = min_ℤ r.outstanding remaining in
    let rest = partial_allocations rows (remaining -ℤ amount) in
    if leb_ℤ remaining (pos 0)
    then ([], remaining)
    else (allocation r amount (pos 0) partial ∷ rest.0, rest.1)

abbrev pub Allocated : Type 0
Allocated = List Allocation × ℤ

-- `elif len(near) == 1`, and the loop where there is not one
unfoldable pub allocate_near : Deposit → List Row → List Row → Allocated
allocate_near d (r ∷ []) cs =
    (allocation r d.amount (r.outstanding -ℤ d.amount) fee_adjusted ∷ [], pos 0)
allocate_near d _ cs = partial_allocations cs d.amount

-- `elif subset is not None`
unfoldable pub allocate_subset :
    Deposit → Option (List ℕ) → List Row → List Row → List Row → Result String Allocated
allocate_subset d (some ids) near cs rows = do
  allocations ← aggregate_allocations ids rows
  ok (allocations, pos 0)
allocate_subset d none near cs rows = ok (allocate_near d near cs)

-- `if len(exact) >= 1`; the subset is looked for only where there is no exact one
unfoldable pub allocate :
    Deposit → List Row → List Row → List Row → List Row → Result String Allocated
allocate d (r ∷ _) near cs rows = ok (allocation r d.amount (pos 0) exact ∷ [], pos 0)
allocate d [] near cs rows =
    allocate_subset d (find_subset row_id row_outstanding d.amount none cs) near cs rows

-- `outstanding[id] -= ...` and `applied[id] += ...`
unfoldable pub apply_one : Allocation → List Row → List Row
apply_one a [] = []
apply_one a (r ∷ rows) =
    if row_id r == a.invoice_id
    then record r {
      outstanding = r.outstanding -ℤ (a.applied_amount +ℤ a.fee_absorbed);
      applied = r.applied +ℤ a.applied_amount;
    }
      ∷ rows
    else r ∷ apply_one a rows

unfoldable pub apply_allocations : List Allocation → List Row → List Row
apply_allocations [] rows = rows
apply_allocations (a ∷ rest) rows = apply_allocations rest (apply_one a rows)

abbrev pub is_open : Option Row → Bool
is_open none = false
is_open (some r) = ltb_ℤ (pos 0) r.outstanding

abbrev pub applied_of : Allocation → ℤ
applied_of a = a.applied_amount

-- The branches after the application: a deposit with no allocation is not an advance.
unfoldable pub deposit_result : Deposit → Allocated → List Row → DepositResult
deposit_result d ([], remaining) rows = record {
  deposit_id = d.deposit_id;
  amount = d.amount;
  status = unmatched;
  allocations = [];
  applied_amount = pos 0;
  advance_amount = pos 0;
}
deposit_result d (a ∷ rest, remaining) rows = record {
  deposit_id = d.deposit_id;
  amount = d.amount;
  status =
      if ltb_ℤ (pos 0) remaining
      then advance
      else if any (λ b. is_open (find_row b.invoice_id rows)) (a ∷ rest)
      then partly
      else settled;
  allocations = a ∷ rest;
  applied_amount = sum_of applied_of (a ∷ rest);
  advance_amount = remaining;
}

-- one round of the loop over the deposits
unfoldable pub match_deposit :
    (String → String → ℕ) → ℤ → ℕ → Deposit → List Row → Result String (DepositResult × List Row)
match_deposit name_similarity tolerance threshold d rows = do
  let cs = candidates name_similarity threshold d rows
  allocated ← allocate d (keep_if (is_exact d) cs) (keep_if (is_near tolerance d) cs) cs rows
  let rows' = apply_allocations allocated.0 rows
  ok (deposit_result d allocated rows', rows')

unfoldable pub match_deposits :
    (String → String → ℕ)
    → ℤ
    → ℕ
    → List Deposit
    → List Row
    → Result String (List DepositResult × List Row)
match_deposits name_similarity tolerance threshold [] rows = ok ([], rows)
match_deposits name_similarity tolerance threshold (d ∷ ds) rows = do
  first ← match_deposit name_similarity tolerance threshold d rows
  rest ← match_deposits name_similarity tolerance threshold ds first.1
  ok (first.0 ∷ rest.0, rest.1)

abbrev pub row_of : OpenInvoice → Row
row_of i = record { invoice = i; outstanding = i.amount; applied = pos 0 }

abbrev pub balance_of : Row → InvoiceBalance
balance_of r = record {
  invoice_id = row_id r;
  amount = r.invoice.amount;
  applied_amount = r.applied;
  outstanding = r.outstanding;
  settled_in_full = leb_ℤ r.outstanding (pos 0);
}

abbrev pub is_status_unmatched : DepositStatus → Bool
is_status_unmatched unmatched = true
is_status_unmatched _ = false

abbrev pub is_unmatched : DepositResult → Bool
is_unmatched d = is_status_unmatched d.status

abbrev pub unmatched_amount : DepositResult → ℤ
unmatched_amount d = if is_unmatched d then d.amount else pos 0

unfoldable pub receivable_result : List DepositResult → List Row → ReceivableMatchResult
receivable_result ds rows = record {
  deposits = ds;
  invoices = map balance_of rows;
  total_applied = sum_of (λ d. d.applied_amount) ds;
  total_advance = sum_of (λ d. d.advance_amount) ds;
  total_unmatched = sum_of unmatched_amount ds;
  total_outstanding = sum_of (λ b. b.outstanding) (map balance_of rows);
  settled_invoice_ids =
      map (λ b. b.invoice_id) (keep_if (λ b. b.settled_in_full) (map balance_of rows));
  unmatched_deposit_ids = map (λ d. d.deposit_id) (keep_if is_unmatched ds);
}

-- the checks, in their order; a threshold is in thousandths
unfoldable pub check_receivables :
    List Deposit → List OpenInvoice → ℤ → ℤ → Result String (Unit {0})
check_receivables deposits invoices tolerance threshold = do
  raise_if (ltb_ℤ tolerance (pos 0)) "fee_tolerance must not be negative"
  raise_if (ltb_ℤ threshold (pos 0) || ltb_ℤ (pos 1000) threshold)
      "name_threshold must be between 0 and 1"
  raise_if (any (λ d. leb_ℤ d.amount (pos 0)) deposits) "deposit amount must be positive"
  raise_if (any (λ i. leb_ℤ i.amount (pos 0)) invoices) "invoice amount must be positive"
  raise_if (has_duplicates (map (λ d. d.deposit_id) deposits)) "deposit_id must be unique"
  raise_if (has_duplicates (map (λ i. i.invoice_id) invoices)) "invoice_id must be unique"

-- `ReceivableMatchingService.match`
unfoldable pub match_receivables :
    (String → String → ℕ)
    → List Deposit
    → List OpenInvoice
    → ℤ
    → ℤ
    → Result String ReceivableMatchResult
match_receivables name_similarity deposits invoices tolerance threshold = do
  check_receivables deposits invoices tolerance threshold
  matched ←
      match_deposits name_similarity tolerance (pos_part threshold) deposits (map row_of invoices)
  ok (receivable_result matched.0 matched.1)
