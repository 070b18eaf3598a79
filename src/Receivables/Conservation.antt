-- ===== src/Receivables/Conservation.antt =====
-- What is true of the result of `match` (backend/app/services/receivable_matching.py).
use mathlib.Core.Path.{subst, ap₂}
use k_aikei.Prelude.{
  Bool, ℕ, ◌≡◌, refl, sym, ap, ◌∙◌, true, false, String, List, [], ◌∷◌, map, any, All,
  if◌then◌else◌, arith, ◌||◌,
}
use k_aikei.Prelude.Int.{ℤ, pos, pos_part, ◌+ℤ◌, ◌-ℤ◌, ◌≤ℤ◌, ◌<ℤ◌, ltb_ℤ, leb_ℤ, int_laws}
use k_aikei.Prelude.Totals.{sum_of, AllDistinct, has_duplicates, distinct_of_test}
use k_aikei.Result.{ok, raise_if, bind_ok}
use k_aikei.Receivables.{
  Row, Deposit, OpenInvoice, DepositResult, InvoiceBalance, ReceivableMatchResult, Allocated,
  row_id, row_outstanding, row_of, balance_of, apply_allocations, is_open, find_row,
  is_status_unmatched, advance, partly, settled, applied_of, deposit_result, unmatched_amount,
  match_deposit, match_deposits, receivable_result, check_receivables, match_receivables,
}
use k_aikei.Receivables.Applied.{cleared, NonNegative, apply_allocations-AppliedTo}
use k_aikei.Receivables.Deposits.{Allocates, allocated}

abbrev pub deposited : Deposit → ℤ
deposited d = d.amount

abbrev pub result_applied : DepositResult → ℤ
result_applied d = d.applied_amount

abbrev pub result_advance : DepositResult → ℤ
result_advance d = d.advance_amount

abbrev pub result_cleared : DepositResult → ℤ
result_cleared d = sum_of cleared d.allocations

abbrev pub invoiced : OpenInvoice → ℤ
invoiced i = i.amount

-- Where the amount of a deposit has gone.
abbrev pub IsAccounted : DepositResult → Type 0
IsAccounted d = d.amount ≡ d.applied_amount +ℤ d.advance_amount +ℤ unmatched_amount d

no_unmatched : (a b : ℤ) → a +ℤ b ≡ a +ℤ b +ℤ pos 0
no_unmatched a b = omega int_laws

only_unmatched : (a : ℤ) → a ≡ pos 0 +ℤ pos 0 +ℤ a
only_unmatched a = omega int_laws

allocated_status :
    (b c : Bool)
    → is_status_unmatched (if b then advance else if c then partly else settled) ≡ false
allocated_status true c = refl
allocated_status false true = refl
allocated_status false false = refl

not_unmatched :
    (r : DepositResult) → is_status_unmatched r.status ≡ false → unmatched_amount r ≡ pos 0
not_unmatched r h = rw h refl

deposit_result-IsAccounted :
    (d : Deposit) (out : Allocated) (before rows : List Row)
    → Allocates d.amount before out
    → IsAccounted (deposit_result d out rows)
unfolding deposit_result
deposit_result-IsAccounted d ([], remaining) before rows h = only_unmatched d.amount
deposit_result-IsAccounted d (a ∷ rest, remaining) before rows (fits, apart, sums, held) =
    sums
    ∙ no_unmatched (sum_of applied_of (a ∷ rest)) remaining
    ∙ ap (λ u. sum_of applied_of (a ∷ rest) +ℤ remaining +ℤ u)
        (sym (
          not_unmatched (deposit_result d (a ∷ rest, remaining) rows) (
            allocated_status (ltb_ℤ (pos 0) remaining)
              (any (λ b. is_open (find_row b.invoice_id rows)) (a ∷ rest)))))

deposit_result_parts :
    (d : Deposit) (out : Allocated) (rows : List Row)
    → ((deposit_result d out rows).amount ≡ d.amount)
      × (result_cleared (deposit_result d out rows) ≡ sum_of cleared out.0)
unfolding deposit_result
deposit_result_parts d ([], remaining) rows = (refl, refl)
deposit_result_parts d (a ∷ rest, remaining) rows = (refl, refl)

-- The state between two deposits, and what a deposit or several have done to it.
abbrev pub IsTable : List Row → Type 0
IsTable rows = AllDistinct (map row_id rows) × NonNegative rows

abbrev Moves : ℤ → List Row → List Row → Type 0
Moves paid rows rows' =
    IsTable rows' × (sum_of row_outstanding rows ≡ paid +ℤ sum_of row_outstanding rows')

give_back : (paid a b : ℤ) → b ≡ a -ℤ paid → a ≡ paid +ℤ b
give_back paid a b h = plus_back ∙ ap (λ x. paid +ℤ x) (sym h)
  where
    plus_back : a ≡ paid +ℤ (a -ℤ paid)
    plus_back = omega int_laws

module _ (name_similarity : String → String → ℕ) (tolerance : ℤ) (threshold : ℕ) where
  match_deposit_lem :
      (d : Deposit) (rows : List Row)
      → pos 0 <ℤ d.amount
      → IsTable rows
      → (out : DepositResult × List Row) × (match_deposit name_similarity tolerance threshold d rows
          ≡ ok out)
        × (out.0.amount ≡ d.amount)
        × IsAccounted out.0
        × Moves (result_cleared out.0) rows out.1
  unfolding match_deposit
  match_deposit_lem d rows positive (apart, held) =
      let (out, run, (fits, distinct, sums, rest_held)) =
        allocated name_similarity tolerance threshold d rows positive apart in
      let done = apply_allocations-AppliedTo out.0 rows fits distinct held in
      let rows' = apply_allocations out.0 rows in
      let (same, paid) = deposit_result_parts d out rows' in
      (
        (deposit_result d out rows', rows'),
        rw run refl,
        same,
        deposit_result-IsAccounted d out rows rows' (fits, distinct, sums, rest_held),
        (
          (subst AllDistinct (sym done.ids) apart, done.held),
          rw paid (
              give_back (sum_of cleared out.0) (sum_of row_outstanding rows)
                (sum_of row_outstanding rows') done.owed),
        ),
      )

  no_money : (a : ℤ) → a ≡ pos 0 +ℤ a
  no_money a = omega int_laws

  one_more : (a b c x y : ℤ) → x ≡ a +ℤ y → y ≡ b +ℤ c → x ≡ a +ℤ b +ℤ c
  one_more a b c x y h k = h ∙ ap (λ z. a +ℤ z) k ∙ regroup
    where
      regroup : a +ℤ (b +ℤ c) ≡ a +ℤ b +ℤ c
      regroup = omega int_laws

  pub match_deposits_lem :
      (ds : List Deposit) (rows : List Row)
      → All (λ d. pos 0 <ℤ d.amount) ds
      → IsTable rows
      → (out : List DepositResult × List Row) × (match_deposits name_similarity tolerance threshold
            ds rows
          ≡ ok out)
        × (map (λ r. r.amount) out.0 ≡ map deposited ds)
        × All IsAccounted out.0
        × Moves (sum_of result_cleared out.0) rows out.1
  unfolding match_deposits
  match_deposits_lem [] rows positive table =
      (([], rows), refl, refl, tt, (table, no_money (sum_of row_outstanding rows)))
  match_deposits_lem (d ∷ ds) rows (here, positive) table =
      let (first, run, same, fine, (table', moved)) = match_deposit_lem d rows here table in
      let (rest, runs, sames, fines, (table'', moved')) =
        match_deposits_lem ds first.1 positive table' in
      (
        (first.0 ∷ rest.0, rest.1),
        rw (run, runs) refl,
        ap₂ (λ x xs. x ∷ xs) same sames,
        (fine, fines),
        (
          table'',
          one_more (result_cleared first.0) (sum_of result_cleared rest.0)
              (sum_of row_outstanding rest.1) _ _ moved moved',
        ),
      )

four_sums : (a b c x y z : ℤ) → a +ℤ b +ℤ c +ℤ (x +ℤ y +ℤ z) ≡ a +ℤ x +ℤ (b +ℤ y) +ℤ (c +ℤ z)
four_sums a b c x y z = omega int_laws

accounted_sums :
    (rs : List DepositResult)
    → All IsAccounted rs
    → sum_of (λ r. r.amount) rs
      ≡ sum_of result_applied rs +ℤ sum_of result_advance rs +ℤ sum_of unmatched_amount rs
accounted_sums [] held = nothing
  where
    nothing : pos 0 ≡ pos 0 +ℤ pos 0 +ℤ pos 0
    nothing = omega int_laws
accounted_sums (r ∷ rs) (here, held) =
    ap₂ (λ x y. x +ℤ y) here (accounted_sums rs held)
    ∙ four_sums r.applied_amount r.advance_amount (unmatched_amount r) (sum_of result_applied rs)
        (sum_of result_advance rs) (sum_of unmatched_amount rs)

sum_of-map :
    {A B : Type 0} (f : A → B) (amount : B → ℤ) (xs : List A)
    → sum_of amount (map f xs) ≡ sum_of (λ x. amount (f x)) xs
sum_of-map f amount [] = refl
sum_of-map f amount (x ∷ xs) = ap (λ s. amount (f x) +ℤ s) (sum_of-map f amount xs)

same_amounts :
    (rs : List DepositResult) (ds : List Deposit)
    → map (λ r. r.amount) rs ≡ map deposited ds
    → sum_of (λ r. r.amount) rs ≡ sum_of deposited ds
same_amounts rs ds h =
    sym (sum_of-map (λ r. r.amount) (λ a. a) rs)
    ∙ ap (sum_of (λ a. a)) h
    ∙ sum_of-map deposited (λ a. a) ds

abbrev balance_outstanding : InvoiceBalance → ℤ
balance_outstanding b = b.outstanding

balances_held :
    (rows : List Row) → NonNegative rows → All (λ b. pos 0 ≤ℤ b.outstanding) (map balance_of rows)
balances_held [] held = tt
balances_held (r ∷ rows) (here, held) = (here, balances_held rows held)

row_ids : (is : List OpenInvoice) → map row_id (map row_of is) ≡ map (λ i. i.invoice_id) is
row_ids [] = refl
row_ids (i ∷ is) = ap (λ ids. i.invoice_id ∷ ids) (row_ids is)

rows_held :
    (is : List OpenInvoice)
    → any (λ i. leb_ℤ i.amount (pos 0)) is ≡ false
    → NonNegative (map row_of is)
rows_held [] h = tt
rows_held (i ∷ is) h = (ground (arith, h), rows_held is (ground (arith, h)))

deposits_positive :
    (ds : List Deposit)
    → any (λ d. leb_ℤ d.amount (pos 0)) ds ≡ false
    → All (λ d. pos 0 <ℤ d.amount) ds
deposits_positive [] h = tt
deposits_positive (d ∷ ds) h = (ground (arith, h), deposits_positive ds (ground (arith, h)))

passed : (b : Bool) (message : String) → raise_if b message ≡ ok tt → b ≡ false
passed true message h = cc
passed false message h = refl

-- What the checks establish.
checks_lem :
    (ds : List Deposit) (is : List OpenInvoice) (tolerance threshold : ℤ)
    → check_receivables ds is tolerance threshold ≡ ok tt
    → All (λ d. pos 0 <ℤ d.amount) ds × IsTable (map row_of is)
unfolding check_receivables
checks_lem ds is tolerance threshold h =
    let (_, _, h1) = bind_ok (raise_if (ltb_ℤ tolerance (pos 0)) _) _ h in
    let (_, _, h2) =
      bind_ok (raise_if (ltb_ℤ threshold (pos 0) || ltb_ℤ (pos 1000) threshold) _) _ h1 in
    let (_, p, h3) = bind_ok (raise_if (any (λ d. leb_ℤ d.amount (pos 0)) ds) _) _ h2 in
    let (_, q, h4) = bind_ok (raise_if (any (λ i. leb_ℤ i.amount (pos 0)) is) _) _ h3 in
    let (_, _, h5) = bind_ok (raise_if (has_duplicates (map (λ d. d.deposit_id) ds)) _) _ h4 in
    let apart = passed (has_duplicates (map (λ i. i.invoice_id) is)) _ h5 in
    (
      deposits_positive ds (passed _ _ p),
      (
        subst AllDistinct (sym (row_ids is)) (distinct_of_test (map (λ i. i.invoice_id) is) apart),
        rows_held is (passed _ _ q),
      ),
    )

-- When the checks pass a result is returned, in which no money is lost: the deposits are what was
-- applied to invoices, what is held in advance and what is unmatched, and so is each of them by
-- itself; the invoices are what was cleared, fees included, and what is outstanding. No invoice is
-- outstanding by less than nothing.
pub receivables_conserve :
    (name_similarity : String → String → ℕ) (deposits : List Deposit) (invoices : List OpenInvoice)
    (tolerance threshold : ℤ)
    → check_receivables deposits invoices tolerance threshold ≡ ok tt
    → (r : ReceivableMatchResult) × (match_receivables name_similarity deposits invoices tolerance
          threshold
        ≡ ok r)
      × (sum_of deposited deposits ≡ r.total_applied +ℤ r.total_advance +ℤ r.total_unmatched)
      × (sum_of invoiced invoices ≡ sum_of result_cleared r.deposits +ℤ r.total_outstanding)
      × All IsAccounted r.deposits
      × All (λ b. pos 0 ≤ℤ b.outstanding) r.invoices
unfolding match_receivables receivable_result
receivables_conserve name_similarity ds is tolerance threshold h =
    let (positive, table) = checks_lem ds is tolerance threshold h in
    let (out, run, sames, fines, ((_, held), moved)) =
      match_deposits_lem name_similarity tolerance (pos_part threshold) ds (map row_of is) positive
        table in
    (
      receivable_result out.0 out.1,
      rw (h, run) refl,
      sym (same_amounts out.0 ds sames) ∙ accounted_sums out.0 fines,
      sym (sum_of-map row_of row_outstanding is)
          ∙ moved
          ∙ ap (λ x. sum_of result_cleared out.0 +ℤ x)
              (sym (sum_of-map balance_of balance_outstanding out.1)),
      fines,
      balances_held out.1 held,
    )
