-- ===== src/PaymentMatching/Balance.antt =====
-- The invariant of the loops of backend/app/services/payment_matching.py: what has been matched and
-- what remains add up to what was given, and every match is justified.
use mathlib.Core.List.{map-append}
use k_aikei.Prelude.{
  ℕ, ◌+◌, ◌≤◌, ◌≡◌, refl, List, [], ◌∷◌, ◌++◌, map, length, All, All-append, Subseq, Subseq-trans,
  map-Subseq, arith,
}
use k_aikei.Prelude.Int.{ℤ, ◌+ℤ◌, ◌-ℤ◌, ◌≤ℤ◌, int_laws}
use k_aikei.Prelude.Totals.{
  sum_of, sum_of-append, count, count-append, AllDistinct, AllDistinct-Subseq,
}
use k_aikei.Result.{Result, ok}
use k_aikei.SubsetSum.Sound.{Selection}
use k_aikei.PaymentMatching.{
  ExpectedPayment, BankWithdrawal, PaymentMatch, MatchType, exact, aggregate, fee_adjusted,
  MatchError, Progress, payment_id_of, amount_due, abs, commit, take_withdrawal, remove_withdrawal,
  settle,
}
use k_aikei.PaymentMatching.Removal.{delete_chosen, line_of, amount_drawn, draw_first}

abbrev pub drawn_amount : PaymentMatch → ℤ
drawn_amount m = m.withdrawal_amount

abbrev pub paid_amount : PaymentMatch → ℤ
paid_amount m = m.matched_amount

abbrev pub match_line : PaymentMatch → ℕ
match_line m = m.line_id

-- the ids of the payments in all matches
abbrev pub matched_ids : List PaymentMatch → List ℕ
matched_ids [] = []
matched_ids (m ∷ ms) = m.payment_ids ++ matched_ids ms

-- What the kind of a match says of its amounts and of the number of its payments.
abbrev pub Agrees : MatchType → ℤ → PaymentMatch → Type 0
Agrees exact fee m = (m.matched_amount ≡ m.withdrawal_amount) × (length m.payment_ids ≡ 1)
Agrees aggregate fee m = (m.matched_amount ≡ m.withdrawal_amount) × (2 ≤ length m.payment_ids)
Agrees fee_adjusted fee m = (abs m.difference ≤ℤ fee) × (length m.payment_ids ≡ 1)

-- A match names payments of the list, and its matched amount is their sum.
pub record Justified (payments : List ExpectedPayment) (fee : ℤ) (m : PaymentMatch) : Type 0 where
  pub chosen : Selection payment_id_of amount_due payments m.matched_amount m.payment_ids
  pub difference : m.difference ≡ m.withdrawal_amount -ℤ m.matched_amount
  pub agrees : Agrees m.match_type fee m

pub record Balanced (withdrawals : List BankWithdrawal) (payments : List ExpectedPayment) (fee : ℤ)
    (s : Progress) : Type 0 where
  pub drawn :
      sum_of amount_drawn withdrawals
      ≡ sum_of drawn_amount s.matches +ℤ sum_of amount_drawn s.remaining_withdrawals
  pub paid :
      sum_of amount_due payments
      ≡ sum_of paid_amount s.matches +ℤ sum_of amount_due s.remaining_payments
  pub lines :
      (i : ℕ)
      → count i (map line_of withdrawals)
        ≡ count i (map match_line s.matches) + count i (map line_of s.remaining_withdrawals)
  pub ids :
      (i : ℕ)
      → count i (map payment_id_of payments)
        ≡ count i (matched_ids s.matches) + count i (map payment_id_of s.remaining_payments)
  pub part : Subseq s.remaining_payments payments
  pub distinct : AllDistinct (map payment_id_of payments)
  pub justified : All (Justified payments fee) s.matches

count-matched_ids :
    (i : ℕ) (ms ns : List PaymentMatch)
    → count i (matched_ids (ms ++ ns)) ≡ count i (matched_ids ms) + count i (matched_ids ns)
count-matched_ids i [] ns = omega arith
count-matched_ids i (m ∷ ms) ns = omega (
  arith,
  count-append i m.payment_ids (matched_ids (ms ++ ns)),
  count-append i m.payment_ids (matched_ids ms),
  count-matched_ids i ms ns,
)

-- the match that `commit` makes of a withdrawal and the payments chosen for it
abbrev pub made : BankWithdrawal → List ExpectedPayment → MatchType → PaymentMatch
made w chosen match_type = record {
  line_id = w.line_id;
  payment_ids = map payment_id_of chosen;
  withdrawal_amount = w.amount;
  matched_amount = sum_of amount_due chosen;
  difference = w.amount -ℤ sum_of amount_due chosen;
  match_type = match_type;
}

-- The outcome of a step of a loop that has `ws` still to visit.
pub record Went (withdrawals : List BankWithdrawal) (payments : List ExpectedPayment) (fee : ℤ)
    (ws : List BankWithdrawal) (r : Result MatchError Progress) : Type 0 where
  pub state : Progress
  pub returned : r ≡ ok state
  pub balanced : Balanced withdrawals payments fee state
  pub left : Subseq ws state.remaining_withdrawals

module _ {withdrawals : List BankWithdrawal} {payments : List ExpectedPayment} {fee : ℤ} where
  pub settle-Balanced :
      (w : BankWithdrawal) {ws : List BankWithdrawal} (chosen : List ExpectedPayment)
      (t : MatchType) {s : Progress}
      → Balanced withdrawals payments fee s
      → Subseq (w ∷ ws) s.remaining_withdrawals
      → Subseq chosen s.remaining_payments
      → Agrees t fee (made w chosen t)
      → Went withdrawals payments fee ws (settle w (map payment_id_of chosen) t s)
  unfolding settle commit take_withdrawal
  settle-Balanced w chosen t {s} b left part agrees =
      let d =
        delete_chosen chosen (AllDistinct-Subseq (map-Subseq payment_id_of b.part) b.distinct)
          part in
      let v = draw_first w left in
      record {
        state = record {
          remaining_payments = d.rest;
          remaining_withdrawals = remove_withdrawal w s.remaining_withdrawals;
          matches = s.matches ++ made w chosen t ∷ [];
        };
        returned = rw (d.summed, d.deleted, v.present) refl;
        balanced = record {
          drawn =
              rw (sum_of-append drawn_amount s.matches (made w chosen t ∷ []), b.drawn, ← v.total)
                (omega int_laws);
          paid =
              rw (sum_of-append paid_amount s.matches (made w chosen t ∷ []), b.paid, ← d.total)
                (omega int_laws);
          lines = λ i. rw map-append (
              omega (
                arith,
                b.lines i,
                v.counts i,
                count-append i (map match_line s.matches) (w.line_id ∷ []),
              ));
          ids = λ i. omega (
            arith,
            b.ids i,
            d.counts i,
            count-matched_ids i s.matches (made w chosen t ∷ []),
            count-append i (map payment_id_of chosen) [],
          );
          part = Subseq-trans b.part d.smaller;
          distinct = b.distinct;
          justified = All-append _ s.matches (made w chosen t ∷ []) b.justified (
            record {
              chosen = record {
                chosen = chosen;
                part = Subseq-trans b.part part;
                keys = refl;
                sums = refl;
              };
              difference = refl;
              agrees = agrees;
            },
            tt,
          );
        };
        left = v.part;
      }
