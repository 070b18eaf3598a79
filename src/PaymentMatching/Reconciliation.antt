-- ===== src/PaymentMatching/Reconciliation.antt =====
-- What `match` of backend/app/services/payment_matching.py promises.
use mathlib.Core.Path.{subst}
use k_aikei.Prelude.{
  ℕ, ◌+◌, ◌≤◌, ◌≡◌, ◌≢◌, refl, sym, ap, true, false, List, [], ◌∷◌, map, All, keep_if, Subseq,
  Subseq-refl, map-Subseq, All-Subseq, done, skip, keep, ◌==◌, arith,
}
use k_aikei.Prelude.Int.{ℤ, ◌+ℤ◌, int_laws}
use k_aikei.Prelude.Totals.{
  sum_of, count, contains, has_duplicates, AllDistinct, distinct_of_test, count_distinct,
}
use k_aikei.Result.{Result, ok, err, ◌>>=◌}
use k_aikei.PaymentMatching.{
  ExpectedPayment, BankWithdrawal, PaymentMatchResult, MatchError, Progress, payment_id_of,
  amount_due, validate, reconcile, result_of, start, is_empty, match_payments,
}
use k_aikei.PaymentMatching.Removal.{line_of, amount_drawn}
use k_aikei.PaymentMatching.Balance.{Balanced, Justified, paid_amount, match_line, matched_ids}
use k_aikei.PaymentMatching.Stages.{reconcile-Balanced}

not_contained : (a : ℕ) (xs : List ℕ) → All (λ y. y ≢ a) xs → contains a xs ≡ false
not_contained a [] h = refl
not_contained a (x ∷ xs) h = ground (arith, not_contained a xs h.1)

same_filter :
    (i : ℕ) (ids : List ℕ) (ps : List ExpectedPayment)
    → All (λ y. y ≢ i) (map payment_id_of ps)
    → keep_if (λ p. contains p.payment_id (i ∷ ids)) ps
      ≡ keep_if (λ p. contains p.payment_id ids) ps
same_filter i ids [] h = refl
same_filter i ids (p ∷ ps) h =
    let other : (i == p.payment_id) ≡ false = ground arith in
    rw (other, same_filter i ids ps h.1) refl

-- The payments whose ids are among those of a part of the list are that part.
keep_part :
    {rest ps : List ExpectedPayment}
    → Subseq rest ps
    → AllDistinct (map payment_id_of ps)
    → keep_if (λ p. contains p.payment_id (map payment_id_of rest)) ps ≡ rest
keep_part done d = refl
keep_part (skip {x = x} {ys = rest} s) d =
    rw
      (not_contained x.payment_id (map payment_id_of rest)
        (All-Subseq _ (map-Subseq payment_id_of s) d.0))
      (keep_part s d.1)
keep_part (keep {x = x} {ys = rest} {xs = ps} s) d =
    let here : (x.payment_id == x.payment_id) ≡ true = ground arith in
    rw (here, same_filter x.payment_id (map payment_id_of rest) ps d.0, keep_part s d.1) refl

module _ (withdrawals : List BankWithdrawal) (payments : List ExpectedPayment)
    (tolerance fee : ℤ) where
  accepted_distinct :
      validate withdrawals payments tolerance fee ≡ ok tt
      → (has_duplicates (map payment_id_of payments) ≡ false)
        × (has_duplicates (map line_of withdrawals) ≡ false)
  unfolding validate
  accepted_distinct h = ground arith

  start-Balanced :
      AllDistinct (map payment_id_of payments)
      → Balanced withdrawals payments fee (start withdrawals payments)
  start-Balanced d = record {
    drawn = omega int_laws;
    paid = omega int_laws;
    lines = λ i. omega arith;
    ids = λ i. omega arith;
    part = Subseq-refl payments;
    distinct = d;
    justified = tt;
  }

  record Matched (r : Result MatchError PaymentMatchResult) : Type 0 where
    state : Progress
    balanced : Balanced withdrawals payments fee state
    returned : r ≡ ok (result_of payments state)

  match_balanced :
      validate withdrawals payments tolerance fee ≡ ok tt
      → Matched (match_payments withdrawals payments tolerance fee)
  unfolding match_payments
  match_balanced h =
      let d = distinct_of_test (map payment_id_of payments) (accepted_distinct h).0 in
      let w = reconcile-Balanced tolerance (start withdrawals payments) (start-Balanced d) in
      record { state = w.state; balanced = w.balanced; returned = rw (h, w.returned) refl }

  accepted :
      {r : PaymentMatchResult}
      → match_payments withdrawals payments tolerance fee ≡ ok r
      → validate withdrawals payments tolerance fee ≡ ok tt
  unfolding match_payments
  accepted h = go (validate withdrawals payments tolerance fee) refl h
    where
      go :
          (v : Result MatchError (Unit {0})) {r : PaymentMatchResult}
          → validate withdrawals payments tolerance fee ≡ v
          → (v >>= λ _. reconcile tolerance fee (start withdrawals payments) >>= λ s.
              ok (result_of payments s))
            ≡ ok r
          → validate withdrawals payments tolerance fee ≡ ok tt
      go (ok tt) e h = e
      go (err x) e h = cc

  -- the state at the end, whose result is the one returned
  record Ended (r : PaymentMatchResult) : Type 0 where
    state : Progress
    balanced : Balanced withdrawals payments fee state
    result : r ≡ result_of payments state

  ended :
      {r : PaymentMatchResult} → match_payments withdrawals payments tolerance fee ≡ ok r → Ended r
  ended {r} h =
      let m = match_balanced (accepted h) in
      record { state = m.state; balanced = m.balanced; result = ground (arith, m.returned) }

-- A call whose arguments are accepted returns a result: it raises no KeyError, and the removal of a
-- withdrawal from the list does not fail.
pub match_returns :
    (withdrawals : List BankWithdrawal) (payments : List ExpectedPayment) (tolerance fee : ℤ)
    → validate withdrawals payments tolerance fee ≡ ok tt
    → (r : PaymentMatchResult) × (match_payments withdrawals payments tolerance fee ≡ ok r)
match_returns withdrawals payments tolerance fee h =
    let m = match_balanced withdrawals payments tolerance fee h in
    (result_of payments m.state, m.returned)

-- No money is lost: the withdrawals given are those matched and those reported unmatched, and the
-- payments given are those in the matches and those reported unmatched.
pub match_conserves :
    (withdrawals : List BankWithdrawal) (payments : List ExpectedPayment) (tolerance fee : ℤ)
    {r : PaymentMatchResult}
    → match_payments withdrawals payments tolerance fee ≡ ok r
    → (sum_of amount_drawn withdrawals ≡ r.matched_amount_total +ℤ r.unmatched_withdrawal_total)
      × (sum_of amount_due payments ≡ sum_of paid_amount r.matches +ℤ r.unmatched_payment_total)
unfolding result_of
match_conserves withdrawals payments tolerance fee h =
    let e = ended withdrawals payments tolerance fee h in
    rw e.result (e.balanced.drawn, e.balanced.paid)

-- Every match names payments of the list whose amounts add up to its matched amount, with the
-- difference to the withdrawal; exact and aggregate matches agree to the yen, and a match adjusted
-- by a fee differs by no more than the tolerance.
pub match-Justified :
    (withdrawals : List BankWithdrawal) (payments : List ExpectedPayment) (tolerance fee : ℤ)
    {r : PaymentMatchResult}
    → match_payments withdrawals payments tolerance fee ≡ ok r
    → All (Justified payments fee) r.matches
unfolding result_of
match-Justified withdrawals payments tolerance fee h =
    let e = ended withdrawals payments tolerance fee h in rw e.result (e.balanced.justified)

-- Every payment and every withdrawal of the list stands in exactly one place: in one match, or among
-- the unmatched ones. So no payment is used twice and no withdrawal is matched twice.
pub match_uses_once :
    (withdrawals : List BankWithdrawal) (payments : List ExpectedPayment) (tolerance fee : ℤ)
    {r : PaymentMatchResult}
    → match_payments withdrawals payments tolerance fee ≡ ok r
    → ((i : ℕ)
        → (count i (matched_ids r.matches) + count i r.unmatched_payment_ids
            ≡ count i (map payment_id_of payments))
          × (count i (map payment_id_of payments) ≤ 1))
      × ((i : ℕ)
          → (count i (map match_line r.matches) + count i r.unmatched_line_ids
              ≡ count i (map line_of withdrawals))
            × (count i (map line_of withdrawals) ≤ 1))
unfolding result_of
match_uses_once withdrawals payments tolerance fee h =
    let e = ended withdrawals payments tolerance fee h in
    let b = e.balanced in
    let lines =
      distinct_of_test (map line_of withdrawals)
        (accepted_distinct withdrawals payments tolerance fee
          (accepted withdrawals payments tolerance fee h)).1 in
    rw e.result (
      (λ i. (rw (keep_part b.part b.distinct) (sym (b.ids i)), count_distinct i _ b.distinct)),
      (λ i. (sym (b.lines i), count_distinct i _ lines)),
    )

empty_of_test : {A : Type 0} (xs : List A) → is_empty xs ≡ true → xs ≡ []
empty_of_test [] h = refl
empty_of_test (x ∷ xs) h = cc

nothing_left :
    (withdrawals : List BankWithdrawal) (payments : List ExpectedPayment) (fee : ℤ) (s : Progress)
    → Balanced withdrawals payments fee s
    → (result_of payments s).fully_reconciled ≡ true
    → let r = result_of payments s in
      ((i : ℕ) → count i (matched_ids r.matches) ≡ count i (map payment_id_of payments))
      × ((i : ℕ) → count i (map match_line r.matches) ≡ count i (map line_of withdrawals))
      × (r.unmatched_line_ids ≡ [])
      × (r.unmatched_payment_ids ≡ [])
      × (sum_of amount_drawn withdrawals ≡ r.matched_amount_total)
      × (sum_of amount_due payments ≡ sum_of paid_amount r.matches)
unfolding result_of
nothing_left withdrawals payments fee s b full =
    let ew : s.remaining_withdrawals ≡ [] = empty_of_test _ (ground arith) in
    let ep : s.remaining_payments ≡ [] = empty_of_test _ (ground arith) in
    (
      (λ i.
          omega (
            arith,
            b.ids i,
            ap (λ (ps : List ExpectedPayment). count i (map payment_id_of ps)) ep,
          )),
      (λ i.
          omega (arith, b.lines i, ap (λ (ws : List BankWithdrawal). count i (map line_of ws)) ew)),
      ap (map line_of) ew,
      rw (keep_part b.part b.distinct) (ap (map payment_id_of) ep),
      rw (b.drawn, ew) (omega int_laws),
      rw (b.paid, ep) (omega int_laws),
    )

-- When everything is reported as reconciled, every payment is in exactly one match and so is every
-- withdrawal, and nothing is reported unmatched.
fully_reconciled_complete :
    (withdrawals : List BankWithdrawal) (payments : List ExpectedPayment) (tolerance fee : ℤ)
    {r : PaymentMatchResult}
    → match_payments withdrawals payments tolerance fee ≡ ok r
    → r.fully_reconciled ≡ true
    → ((i : ℕ) → count i (matched_ids r.matches) ≡ count i (map payment_id_of payments))
      × ((i : ℕ) → count i (map match_line r.matches) ≡ count i (map line_of withdrawals))
      × (r.unmatched_line_ids ≡ [])
      × (r.unmatched_payment_ids ≡ [])
      × (sum_of amount_drawn withdrawals ≡ r.matched_amount_total)
      × (sum_of amount_due payments ≡ sum_of paid_amount r.matches)
fully_reconciled_complete withdrawals payments tolerance fee {r} h full =
    let e = ended withdrawals payments tolerance fee h in
    rw e.result (
      nothing_left withdrawals payments fee e.state e.balanced
        (subst (λ (q : PaymentMatchResult). q.fully_reconciled ≡ true) e.result full))
