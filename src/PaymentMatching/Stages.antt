-- ===== src/PaymentMatching/Stages.antt =====
-- Every round of the three loops of backend/app/services/payment_matching.py returns and keeps the
-- invariant, and so does `match` once its arguments are accepted.
use k_aikei.Prelude.{
  ℕ, ◌≤◌, ◌≡◌, refl, sym, Bool, Option, none, some, List, [], ◌∷◌, map, All, All-keep_if, keep_if,
  keep_if-Subseq, Subseq, Subseq-trans, Subseq-refl, Subseq-nil, skip, Bool-cases, inl, inr, length,
  arith,
}
use k_aikei.Prelude.Int.{ℤ, pos, ◌+ℤ◌, ◌-ℤ◌, ltb_ℤ, int_laws, eqb_ℤ, eqb_ℤ_iff, leb_ℤ}
use k_aikei.Prelude.Totals.{sum_of}
use k_aikei.Result.{Result, ok}
use k_aikei.SubsetSum.Sound.{Selection, find_subset_sound}
use k_aikei.PaymentMatching.{
  ExpectedPayment, BankWithdrawal, MatchType, exact, aggregate, fee_adjusted, MatchError, Progress,
  payment_id_of, amount_due, abs, candidates, within_date, find_payments, settle_single,
  settle_subset, exact_step, aggregate_step, fee_step, each_withdrawal, fee_stage, reconcile,
  max_subset_states,
}
use k_aikei.PaymentMatching.Balance.{Balanced, Agrees, made, Went, settle-Balanced}

filtered :
    (tolerance : ℤ) (w : BankWithdrawal) (s : Progress) (p : ExpectedPayment → Bool)
    → Subseq (keep_if p (candidates tolerance w s)) s.remaining_payments
unfolding candidates
filtered tolerance w s p =
    Subseq-trans (keep_if-Subseq (λ q. within_date w q tolerance) s.remaining_payments)
      (keep_if-Subseq p (keep_if (λ q. within_date w q tolerance) s.remaining_payments))

-- the payments that were found, behind the definition of the search
found_payments :
    (target : ℤ) (ps : List ExpectedPayment) {ids : List ℕ}
    → find_payments target ps ≡ some ids
    → Selection payment_id_of amount_due ps target ids × (2 ≤ length ids)
unfolding find_payments
found_payments target ps h =
    find_subset_sound payment_id_of amount_due target (some max_subset_states) ps h

module _ {withdrawals : List BankWithdrawal} {payments : List ExpectedPayment} {fee : ℤ} where
  -- a round that changes nothing
  passed :
      (w : BankWithdrawal) {ws : List BankWithdrawal} {s : Progress}
      → Balanced withdrawals payments fee s
      → Subseq (w ∷ ws) s.remaining_withdrawals
      → Went withdrawals payments fee ws (ok s)
  passed w {ws} {s} b left = record {
    state = s;
    returned = refl;
    balanced = b;
    left = Subseq-trans left (skip (Subseq-refl ws));
  }

  single-Balanced :
      (w : BankWithdrawal) {ws : List BankWithdrawal} (found : List ExpectedPayment) (t : MatchType)
      {s : Progress}
      → Balanced withdrawals payments fee s
      → Subseq (w ∷ ws) s.remaining_withdrawals
      → Subseq found s.remaining_payments
      → All (λ p. Agrees t fee (made w (p ∷ []) t)) found
      → Went withdrawals payments fee ws (settle_single w found t s)
  unfolding settle_single
  single-Balanced w (p ∷ []) t b left part agrees =
      settle-Balanced w (p ∷ []) t b left part agrees.0
  single-Balanced w [] t b left part agrees = passed w b left
  single-Balanced w (p ∷ q ∷ ps) t b left part agrees = passed w b left

  exact-Balanced :
      (tolerance : ℤ) (w : BankWithdrawal) (ws : List BankWithdrawal) (s : Progress)
      → Balanced withdrawals payments fee s
      → Subseq (w ∷ ws) s.remaining_withdrawals
      → Went withdrawals payments fee ws (exact_step tolerance w s)
  unfolding exact_step
  exact-Balanced tolerance w ws s b left =
      single-Balanced w _ exact b left (filtered tolerance w s (λ p. eqb_ℤ p.amount w.amount)) (
        All-keep_if _ (λ p. eqb_ℤ p.amount w.amount)
          (λ p h.
            let e : p.amount ≡ w.amount = (eqb_ℤ_iff p.amount w.amount).0 h in
            (rw e (omega int_laws), refl))
          (candidates tolerance w s))

  fee-Balanced :
      (tolerance : ℤ) (w : BankWithdrawal) (ws : List BankWithdrawal) (s : Progress)
      → Balanced withdrawals payments fee s
      → Subseq (w ∷ ws) s.remaining_withdrawals
      → Went withdrawals payments fee ws (fee_step tolerance fee w s)
  unfolding fee_step
  fee-Balanced tolerance w ws s b left =
      single-Balanced w _ fee_adjusted b left
        (filtered tolerance w s (λ p. leb_ℤ (abs (w.amount -ℤ p.amount)) fee))
        (All-keep_if _ (λ p. leb_ℤ (abs (w.amount -ℤ p.amount)) fee)
          (λ p h.
            let e : p.amount +ℤ pos 0 ≡ p.amount = omega int_laws in (rw e (ground arith), refl))
          (candidates tolerance w s))

  aggregate-Balanced :
      (tolerance : ℤ) (w : BankWithdrawal) (ws : List BankWithdrawal) (s : Progress)
      → Balanced withdrawals payments fee s
      → Subseq (w ∷ ws) s.remaining_withdrawals
      → Went withdrawals payments fee ws (aggregate_step tolerance w s)
  unfolding aggregate_step candidates settle_subset
  aggregate-Balanced tolerance w ws s b left =
      go (find_payments w.amount (candidates tolerance w s)) refl
    where
      go :
          (o : Option (List ℕ))
          → find_payments w.amount (candidates tolerance w s) ≡ o
          → Went withdrawals payments fee ws (settle_subset w o s)
      go none e = passed w b left
      go (some ids) e =
          let (sel, two) = found_payments w.amount (candidates tolerance w s) e in
          let sums : sum_of amount_due sel.chosen ≡ w.amount = sym sel.sums in
          let part =
            Subseq-trans (keep_if-Subseq (λ q. within_date w q tolerance) s.remaining_payments)
              sel.part in
          let counted : 2 ≤ length (map payment_id_of sel.chosen) = rw (← sel.keys) two in
          rw sel.keys (settle-Balanced w sel.chosen aggregate b left part (sums, counted))

  each-Balanced :
      (step : BankWithdrawal → Progress → Result MatchError Progress)
      → ((w : BankWithdrawal) (ws : List BankWithdrawal) (s : Progress)
          → Balanced withdrawals payments fee s
          → Subseq (w ∷ ws) s.remaining_withdrawals
          → Went withdrawals payments fee ws (step w s))
      → (ws : List BankWithdrawal) (s : Progress) → Balanced withdrawals payments fee s
      → Subseq ws s.remaining_withdrawals
      → Went withdrawals payments fee [] (each_withdrawal step ws s)
  unfolding each_withdrawal
  each-Balanced step round [] s b left = record {
    state = s;
    returned = refl;
    balanced = b;
    left = left;
  }
  each-Balanced step round (w ∷ ws) s b left =
      let r = round w ws s b left in
      rw r.returned (each-Balanced step round ws r.state r.balanced r.left)

  fee_stage-Balanced :
      (tolerance : ℤ) (s : Progress)
      → Balanced withdrawals payments fee s
      → Went withdrawals payments fee [] (fee_stage tolerance fee s)
  unfolding fee_stage
  fee_stage-Balanced tolerance s b = elim (Bool-cases (ltb_ℤ (pos 0) fee)) [
    | inl on ↦ rw on (
        each-Balanced (fee_step tolerance fee) (fee-Balanced tolerance) s.remaining_withdrawals s b
          (Subseq-refl s.remaining_withdrawals))
    | inr off ↦ rw off (record {
      state = s;
      returned = refl;
      balanced = b;
      left = Subseq-nil s.remaining_withdrawals;
    })
  ]

  pub reconcile-Balanced :
      (tolerance : ℤ) (s : Progress)
      → Balanced withdrawals payments fee s
      → Went withdrawals payments fee [] (reconcile tolerance fee s)
  unfolding reconcile
  reconcile-Balanced tolerance s b =
      let s₁ =
        each-Balanced (exact_step tolerance) (exact-Balanced tolerance) s.remaining_withdrawals s b
          (Subseq-refl s.remaining_withdrawals) in
      let s₂ =
        each-Balanced (aggregate_step tolerance) (aggregate-Balanced tolerance)
          s₁.state.remaining_withdrawals s₁.state s₁.balanced
          (Subseq-refl s₁.state.remaining_withdrawals) in
      rw (s₁.returned, s₂.returned) (fee_stage-Balanced tolerance s₂.state s₂.balanced)
