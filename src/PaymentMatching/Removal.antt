-- ===== src/PaymentMatching/Removal.antt =====
-- The payments that are left when some are taken out by their ids, and the withdrawals when one is
-- taken out (backend/app/services/payment_matching.py, `commit` and the loops of `match`).
use text.Mathlib.TextPositions.{eq_refl}
use k_aikei.Prelude.{
  ℕ, ◌+◌, ◌≡◌, ◌≢◌, refl, sym, true, false, some, List, [], ◌∷◌, map, any, All, Subseq, Subseq-refl,
  Subseq-trans, map-Subseq, skip, keep, Bool-cases, inl, inr, ◌==◌, ==_iff, arith,
}
use k_aikei.Prelude.Int.{ℤ, ◌+ℤ◌, int_laws, eqb_ℤ_iff}
use k_aikei.Prelude.Totals.{sum_of, count, AllDistinct, AllDistinct-Subseq}
use k_aikei.Result.{ok}
use k_aikei.PaymentMatching.{
  ExpectedPayment, BankWithdrawal, withdrawal_eq, payment_id_of, amount_due, find_payment,
  remove_payment, sum_found, delete_all, remove_withdrawal,
}

-- `p` is the first of `chosen`, which stand in order in `ps`, and it has been taken out.
record Removed (p : ExpectedPayment) (chosen ps : List ExpectedPayment) : Type 0 where
  found : find_payment p.payment_id ps ≡ some p
  part : Subseq chosen (remove_payment p.payment_id ps)
  total : amount_due p +ℤ sum_of amount_due (remove_payment p.payment_id ps) ≡ sum_of amount_due ps
  counts :
      (i : ℕ)
      → count i (p.payment_id ∷ map payment_id_of (remove_payment p.payment_id ps))
        ≡ count i (map payment_id_of ps)
  smaller : Subseq (remove_payment p.payment_id ps) ps

-- an element of a part differs from the element before it in a list of distinct ids
differs :
    (q : ExpectedPayment) {p : ExpectedPayment} {chosen ps : List ExpectedPayment}
    → All (λ y. y ≢ q.payment_id) (map payment_id_of ps)
    → Subseq (p ∷ chosen) ps
    → q.payment_id ≢ p.payment_id
differs q h (skip s) e = differs q h.1 s e
differs q h (keep s) e = h.0 (sym e)

remove_first :
    {p : ExpectedPayment} {chosen ps : List ExpectedPayment}
    → AllDistinct (map payment_id_of ps)
    → Subseq (p ∷ chosen) ps
    → Removed p chosen ps
unfolding find_payment remove_payment
remove_first {p} {chosen} d (keep {ys = ys} {xs = qs} s) =
    let same : (p.payment_id == p.payment_id) ≡ true = (==_iff p.payment_id p.payment_id).1 refl in
    record {
      found = rw same;
      part = rw same s;
      total = rw same;
      counts = λ i. rw same;
      smaller = rw same (skip (Subseq-refl qs));
    }
remove_first {p} {chosen} d (skip {x = q} {xs = qs} s) =
    let other : (q.payment_id == p.payment_id) ≡ false = ground (arith, differs q d.0 s) in
    let r = remove_first d.1 s in
    record {
      found = rw other r.found;
      part = rw other (skip r.part);
      total = rw (other, ← r.total) (omega int_laws);
      counts = λ i. rw other (omega (arith, r.counts i));
      smaller = rw other (keep r.smaller);
    }

-- What is left of `ps` without `chosen`.
pub record Deleted (chosen ps : List ExpectedPayment) : Type 0 where
  pub rest : List ExpectedPayment
  pub summed : sum_found (map payment_id_of chosen) ps ≡ ok (sum_of amount_due chosen)
  pub deleted : delete_all (map payment_id_of chosen) ps ≡ ok rest
  pub total : sum_of amount_due chosen +ℤ sum_of amount_due rest ≡ sum_of amount_due ps
  pub counts :
      (i : ℕ)
      → count i (map payment_id_of chosen) + count i (map payment_id_of rest)
        ≡ count i (map payment_id_of ps)
  pub smaller : Subseq rest ps

sum_chosen :
    (chosen : List ExpectedPayment) {ps : List ExpectedPayment}
    → AllDistinct (map payment_id_of ps)
    → Subseq chosen ps
    → sum_found (map payment_id_of chosen) ps ≡ ok (sum_of amount_due chosen)
unfolding sum_found
sum_chosen [] d s = refl
sum_chosen (p ∷ chosen) d s =
    rw ((remove_first d s).found, sum_chosen chosen d (Subseq-trans s (skip (Subseq-refl chosen))))
      refl

-- Distinct payments that are there can be added up and deleted, and nothing else is touched.
pub delete_chosen :
    (chosen : List ExpectedPayment) {ps : List ExpectedPayment}
    → AllDistinct (map payment_id_of ps)
    → Subseq chosen ps
    → Deleted chosen ps
unfolding delete_all
delete_chosen [] {ps} d s = record {
  rest = ps;
  summed = sum_chosen [] d s;
  deleted = refl;
  total = omega int_laws;
  counts = λ i. omega arith;
  smaller = Subseq-refl ps;
}
delete_chosen (p ∷ chosen) {ps} d s =
    let r = remove_first d s in
    let d' = AllDistinct-Subseq (map-Subseq payment_id_of r.smaller) d in
    let more = delete_chosen chosen d' r.part in
    record {
      rest = more.rest;
      summed = sum_chosen (p ∷ chosen) d s;
      deleted = rw r.found more.deleted;
      total = rw (← r.total, ← more.total) (omega int_laws);
      counts = λ i. omega (arith, r.counts i, more.counts i);
      smaller = Subseq-trans r.smaller more.smaller;
    }

abbrev pub line_of : BankWithdrawal → ℕ
line_of w = w.line_id

abbrev pub amount_drawn : BankWithdrawal → ℤ
amount_drawn w = w.amount

eq_fields :
    (v w : BankWithdrawal)
    → withdrawal_eq v w ≡ true
    → (v.line_id ≡ w.line_id) × (v.amount ≡ w.amount)
unfolding withdrawal_eq
eq_fields v w h = (ground arith, (eqb_ℤ_iff v.amount w.amount).0 (ground arith))

eq_self : (w : BankWithdrawal) → withdrawal_eq w w ≡ true
unfolding withdrawal_eq
eq_self w = rw eq_refl (ground arith)

-- The withdrawals without `w`, where the loop goes on with `ws`.
pub record Drawn (w : BankWithdrawal) (ws vs : List BankWithdrawal) : Type 0 where
  pub present : any (λ v. withdrawal_eq v w) vs ≡ true
  pub part : Subseq ws (remove_withdrawal w vs)
  pub total :
      amount_drawn w +ℤ sum_of amount_drawn (remove_withdrawal w vs) ≡ sum_of amount_drawn vs
  pub counts :
      (i : ℕ)
      → count i (w.line_id ∷ map line_of (remove_withdrawal w vs)) ≡ count i (map line_of vs)

pub draw_first :
    (w : BankWithdrawal) {ws vs : List BankWithdrawal} → Subseq (w ∷ ws) vs → Drawn w ws vs
unfolding remove_withdrawal
draw_first w (keep s) = record {
  present = rw (eq_self w);
  part = rw (eq_self w) s;
  total = rw (eq_self w);
  counts = λ i. rw (eq_self w);
}
draw_first w (skip {x = v} {xs = vs} s) = elim (Bool-cases (withdrawal_eq v w)) [
  | inl same ↦
      let (line, amount) = eq_fields v w same in
      record {
        present = rw same;
        part = rw same (Subseq-trans s (skip (Subseq-refl _)));
        total = rw (same, amount) refl;
        counts = λ i. rw same (ground arith);
      }
  | inr other ↦
      let d = draw_first w s in
      record {
        present = rw (other, d.present);
        part = rw other (skip d.part);
        total = rw (other, ← d.total) (omega int_laws);
        counts = λ i. rw other (omega (arith, d.counts i));
      }
]
