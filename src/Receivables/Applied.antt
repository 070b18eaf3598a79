-- ===== src/Receivables/Applied.antt =====
-- What the application of allocations does to the rows
-- (backend/app/services/receivable_matching.py).
use k_aikei.Prelude.{
  ℕ, ◌≡◌, ◌≢◌, refl, ap, ◌∙◌, false, some, List, [], ◌∷◌, map, All, ◌==◌, Bool-cases, inl, inr,
  arith,
}
use k_aikei.Prelude.Int.{ℤ, pos, ◌+ℤ◌, ◌-ℤ◌, ◌≤ℤ◌, int_laws}
use k_aikei.Prelude.Totals.{sum_of, AllDistinct}
use k_aikei.Receivables.{
  Row, Allocation, row_id, row_outstanding, find_row, apply_one, apply_allocations,
}

abbrev pub cleared : Allocation → ℤ
cleared a = a.applied_amount +ℤ a.fee_absorbed

abbrev pub allocated_id : Allocation → ℕ
allocated_id a = a.invoice_id

-- An allocation fits the rows: its invoice is there and owes at least what the allocation clears.
abbrev pub Fits : List Row → Allocation → Type 0
Fits rows a =
    (r : Row) × (find_row a.invoice_id rows ≡ some r)
    × (pos 0 ≤ℤ a.applied_amount)
    × (pos 0 ≤ℤ a.fee_absorbed)
    × (cleared a ≤ℤ r.outstanding)

-- No row owes less than nothing.
abbrev pub NonNegative : List Row → Type 0
NonNegative rows = All (λ r. pos 0 ≤ℤ r.outstanding) rows

take_cleared : (a b s : ℤ) → a -ℤ b +ℤ s ≡ a +ℤ s -ℤ b
take_cleared a b s = omega int_laws

under_row : (a b s : ℤ) → b +ℤ (s -ℤ a) ≡ b +ℤ s -ℤ a
under_row a b s = omega int_laws

-- The rows together owe less by what is cleared.
outstanding-apply_one :
    (a : Allocation) (rows : List Row) {r : Row}
    → find_row a.invoice_id rows ≡ some r
    → sum_of row_outstanding (apply_one a rows) ≡ sum_of row_outstanding rows -ℤ cleared a
unfolding find_row apply_one
outstanding-apply_one a [] h = cc
outstanding-apply_one a (q ∷ rows) h = elim (Bool-cases (row_id q == a.invoice_id)) [
  | inl here ↦ rw here (take_cleared q.outstanding (cleared a) (sum_of row_outstanding rows))
  | inr there ↦
      rw (there, outstanding-apply_one a rows (rw there at h))
        (under_row (cleared a) q.outstanding (sum_of row_outstanding rows))
]

rest_non_negative : (a b : ℤ) → b ≤ℤ a → pos 0 ≤ℤ (a -ℤ b)
rest_non_negative a b h = omega int_laws

NonNegative-apply_one :
    (a : Allocation) (rows : List Row)
    → Fits rows a
    → NonNegative rows
    → NonNegative (apply_one a rows)
unfolding find_row apply_one
NonNegative-apply_one a [] fits held = tt
NonNegative-apply_one a (q ∷ rows) (r, found, some_applied, some_fee, enough) (here, rest) =
    elim (Bool-cases (row_id q == a.invoice_id)) [
      | inl same ↦
          let it : q ≡ r = ground (arith, rw same at found) in
          let enough' : cleared a ≤ℤ q.outstanding = rw it enough in
          rw same (rest_non_negative q.outstanding (cleared a) enough', rest)
      | inr other ↦ rw other (
        here,
        NonNegative-apply_one a rows (r, rw other at found, some_applied, some_fee, enough) rest,
      )
    ]

-- The rows of other invoices stay.
find_row-apply_one :
    (a : Allocation) (rows : List Row) (id : ℕ)
    → id ≢ a.invoice_id
    → find_row id (apply_one a rows) ≡ find_row id rows
unfolding find_row apply_one
find_row-apply_one a [] id differs = refl
find_row-apply_one a (q ∷ rows) id differs = elim (Bool-cases (row_id q == a.invoice_id)) [
  | inl here ↦
      let away : (row_id q == id) ≡ false = ground (arith, here, differs) in rw (here, away) refl
  | inr there ↦ elim (Bool-cases (row_id q == id)) [
    | inl found ↦ rw (there, found) refl
    | inr missed ↦ rw (there, missed) (find_row-apply_one a rows id differs)
  ]
]

Fits-apply_one :
    (a : Allocation) (rows : List Row) (rest : List Allocation)
    → All (λ i. i ≢ a.invoice_id) (map allocated_id rest)
    → All (Fits rows) rest
    → All (Fits (apply_one a rows)) rest
Fits-apply_one a rows [] apart fits = tt
Fits-apply_one a rows (b ∷ rest) (differs, apart) ((r, found, applied, fee, enough), fits) = (
  (r, find_row-apply_one a rows b.invoice_id differs ∙ found, applied, fee, enough),
  Fits-apply_one a rows rest apart fits,
)

-- The ids of the rows and their invoices stay as they are.
pub ids-apply_one :
    (a : Allocation) (rows : List Row) → map row_id (apply_one a rows) ≡ map row_id rows
unfolding apply_one
ids-apply_one a [] = refl
ids-apply_one a (q ∷ rows) = elim (Bool-cases (row_id q == a.invoice_id)) [
  | inl here ↦ rw here refl
  | inr there ↦ rw there (ap (λ ids. row_id q ∷ ids) (ids-apply_one a rows))
]

-- What is true of the rows after allocations to different invoices, each of which fits.
pub record AppliedTo (allocations : List Allocation) (rows : List Row) : Type 0 where
  pub owed :
      sum_of row_outstanding (apply_allocations allocations rows)
      ≡ sum_of row_outstanding rows -ℤ sum_of cleared allocations
  pub held : NonNegative (apply_allocations allocations rows)
  pub ids : map row_id (apply_allocations allocations rows) ≡ map row_id rows

nothing_cleared : (s : ℤ) → s ≡ s -ℤ pos 0
nothing_cleared s = omega int_laws

cleared_after : (s a b : ℤ) → s -ℤ a -ℤ b ≡ s -ℤ (a +ℤ b)
cleared_after s a b = omega int_laws

pub apply_allocations-AppliedTo :
    (allocations : List Allocation) (rows : List Row)
    → All (Fits rows) allocations
    → AllDistinct (map allocated_id allocations)
    → NonNegative rows
    → AppliedTo allocations rows
unfolding apply_allocations
apply_allocations-AppliedTo [] rows fits apart held = record {
  owed = nothing_cleared (sum_of row_outstanding rows);
  held = held;
  ids = refl;
}
apply_allocations-AppliedTo (a ∷ rest) rows (fit, fits) (first_apart, apart) held =
    let next = apply_one a rows in
    let more =
      apply_allocations-AppliedTo rest next (Fits-apply_one a rows rest first_apart fits) apart
        (NonNegative-apply_one a rows fit held) in
    record {
      owed =
          more.owed
          ∙ ap (λ s. s -ℤ sum_of cleared rest) (outstanding-apply_one a rows fit.1)
          ∙ cleared_after (sum_of row_outstanding rows) (cleared a) (sum_of cleared rest);
      held = more.held;
      ids = more.ids ∙ ids-apply_one a rows;
    }
