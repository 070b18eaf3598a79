-- ===== src/Tax/Consumption.antt =====
-- backend/app/services/tax_calculator.py and backend/app/services/invoice_tax.py: consumption tax of
-- an amount, and of an invoice. Rates are in ten-thousandths (`Numeric(5, 4)`).
use native.Mathlib.Nat.{div-eq_of_lt-le}
use k_aikei.Prelude.{ℕ, suc, ◌+◌, ◌*◌, ◌/◌, ◌≤◌, ◌<◌, ◌≡◌, refl, Bool, true, false, arith}
use k_aikei.Prelude.Int.{ℤ, pos, negsuc, ◌+ℤ◌, ◌-ℤ◌, sub_ℕ, pos-+ℤ, +-cancel_pos}
use k_aikei.Tax.Units.{per_yen, yen}

abbrev pub whole : ℕ
whole = 10000

-- `quantize(1, ROUND_DOWN)` of `n / d` yen: towards zero
abbrev pub round_down : ℤ → ℕ → ℤ
round_down (pos n) d = pos (n / d)
round_down (negsuc n) d = sub_ℕ 0 (suc n / d)

-- a number of ten-thousandths times a number
abbrev pub times : ℤ → ℕ → ℤ
times (pos n) k = pos (n * k)
times (negsuc n) k = sub_ℕ 0 (suc n * k)

-- `TaxCalculator.calculate_tax`: the amount without tax, in ten-thousandths, and the tax in yen
unfoldable pub calculate_tax : ℤ → ℕ → Bool → ℤ × ℤ
calculate_tax amount rate true =
    let tax = round_down (times amount rate) (per_yen * (whole + rate)) in
    (amount -ℤ times tax per_yen, tax)
calculate_tax amount rate false = (amount, round_down (times amount rate) (per_yen * whole))

unfoldable pub calculate_inclusive_10 : ℤ → ℤ × ℤ
calculate_inclusive_10 amount = calculate_tax amount 1000 true

unfoldable pub calculate_exclusive_10 : ℤ → ℤ × ℤ
calculate_exclusive_10 amount = calculate_tax amount 1000 false

unfoldable pub calculate_inclusive_8 : ℤ → ℤ × ℤ
calculate_inclusive_8 amount = calculate_tax amount 800 true

unfoldable pub calculate_exclusive_8 : ℤ → ℤ × ℤ
calculate_exclusive_8 amount = calculate_tax amount 800 false

-- the quotient that takes the tax out of the sum
taken_out :
    (b rate t : ℕ)
    → t * (per_yen * whole) ≤ yen b * rate
    → yen b * rate < (t + 1) * (per_yen * whole)
    → (yen b + t * per_yen) * rate / (per_yen * (whole + rate)) ≡ t
taken_out b rate t low high = div-eq_of_lt-le (per_yen * (whole + rate)) (omega arith) (omega arith)

-- For every rate: the tax put on an amount in whole yen is the tax that is taken out of the sum of
-- both, and what is then left is the amount.
pub inclusive-exclusive :
    (b rate : ℕ)
    → let (net, tax) = calculate_tax (pos (yen b)) rate false in
      calculate_tax (net +ℤ times tax per_yen) rate true ≡ (pos (yen b), tax)
unfolding calculate_tax
inclusive-exclusive b rate =
    let t = yen b * rate / (per_yen * whole) in
    let same = taken_out b rate t (omega arith) (omega arith) in
    rw (pos-+ℤ (yen b) (t * per_yen), same, +-cancel_pos (yen b) (t * per_yen)) refl
