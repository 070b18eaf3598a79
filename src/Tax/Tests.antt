-- ===== src/Tax/Tests.antt =====
-- Tests and witnesses for the tax services.
use k_aikei.Prelude.{
  ℕ, ◌+◌, ◌≤◌, ◌<◌, ◌%◌, ◌*◌, ◌/◌, ◌≡◌, refl, true, false, List, [], ◌∷◌, length, arith, String,
}
use k_aikei.Prelude.Int.{pos, ◌+ℤ◌}
use k_aikei.Result.{Result, ok, err}
use k_aikei.Tax.Units.{yen, per_yen}
use k_aikei.Tax.IncomeTax.{
  tax_by_table, income_tax_brackets, tax_by_table-eq-progressive, progressive, compute_bounds,
  rounded_income,
}
use k_aikei.Tax.IncomeTax
use k_aikei.Tax.SalaryDeduction.{deduction_by_table, by_slices, compute_monotone}
use k_aikei.Tax.SalaryDeduction
use k_aikei.Tax.Residence.{
  compute_splits, collection, floor_to_unit, sum_of_months, ResidenceTaxResult,
}
use k_aikei.Tax.Residence
use k_aikei.Tax.Retirement.{
  deduction, years, withheld_le_pay, withheld, taxable_income, RetirementIncomeTaxResult,
}
use k_aikei.Tax.Retirement
use k_aikei.Tax.Consumption.{calculate_tax, times, inclusive-exclusive}
use k_aikei.Tax.InvoiceTax.{
  InvoiceTaxLine, InvoiceTaxComputationResult, compute_invoice_tax, group_lines, add_amount,
  sort_groups, insert_group, computed,
}

tax_of_six_million : IncomeTax.compute (pos (yen 6000000)) ≡ ok 772500
unfolding IncomeTax.compute tax_by_table rounded_income
tax_of_six_million = refl

tax_by_table-eq-progressive_example :
    tax_by_table income_tax_brackets 6000000 ≡ progressive 6000000 / 100
tax_by_table-eq-progressive_example = tax_by_table-eq-progressive 6000000

compute_bounds_example :
    (t : ℕ) × (u : ℕ) × (IncomeTax.compute (pos (yen 1000)) ≡ ok t)
    × (IncomeTax.compute (pos (yen 6000000)) ≡ ok u)
    × (t ≤ u)
    × (yen t * 100 ≤ yen 1000 * 45)
compute_bounds_example = compute_bounds (yen 1000) (yen 6000000) (omega arith)

deduction_of_five_million : SalaryDeduction.compute (pos (yen 5000000)) ≡ ok 1440000
unfolding SalaryDeduction.compute deduction_by_table
deduction_of_five_million = refl

compute_monotone_example :
    (d : ℕ) × (e : ℕ) × (SalaryDeduction.compute (pos (yen 1700000)) ≡ ok d)
    × (SalaryDeduction.compute (pos (yen 5000000)) ≡ ok e)
    × (d ≡ by_slices (yen 1700000) / 1000000)
    × (d ≤ e)
    × (550000 ≤ d)
    × (e ≤ 1950000)
    × (1700000 + e ≤ 5000000 + d)
compute_monotone_example = compute_monotone 1700000 5000000 (omega arith)

abbrev year_of_tax : ResidenceTaxResult
year_of_tax = record {
  annual_tax = yen 250000;
  first_month_amount = yen 21200;
  ordinary_month_amount = yen 20800;
  monthly_amounts =
      record { month = 6; amount = yen 21200 }
      ∷ record { month = 7; amount = yen 20800 }
      ∷ record { month = 8; amount = yen 20800 }
      ∷ record { month = 9; amount = yen 20800 }
      ∷ record { month = 10; amount = yen 20800 }
      ∷ record { month = 11; amount = yen 20800 }
      ∷ record { month = 12; amount = yen 20800 }
      ∷ record { month = 1; amount = yen 20800 }
      ∷ record { month = 2; amount = yen 20800 }
      ∷ record { month = 3; amount = yen 20800 }
      ∷ record { month = 4; amount = yen 20800 }
      ∷ record { month = 5; amount = yen 20800 }
      ∷ [];
  total = yen 250000;
}

residence_run : Residence.compute (pos (yen 250000)) ≡ ok year_of_tax
unfolding Residence.compute collection floor_to_unit
residence_run = refl

compute_splits_example :
    (sum_of_months year_of_tax.monthly_amounts ≡ yen 250000)
    × (length year_of_tax.monthly_amounts ≡ 12)
    × (year_of_tax.total ≡ yen 250000)
    × (year_of_tax.ordinary_month_amount % yen 100 ≡ 0)
    × (year_of_tax.ordinary_month_amount ≤ year_of_tax.first_month_amount)
    × (year_of_tax.first_month_amount < year_of_tax.ordinary_month_amount + yen 1200)
compute_splits_example = compute_splits (yen 250000) residence_run

abbrev leaving : RetirementIncomeTaxResult
leaving = record {
  years_of_service = 30;
  retirement_income_deduction = 15000000;
  taxable_base = yen 10000000;
  taxable_retirement_income = yen 10000000;
  income_tax_base = 572500;
  statement_submitted = true;
  withholding_tax = 584522;
}

leaving_run : Retirement.compute (pos (yen 25000000)) (pos 355) false false true ≡ ok leaving
unfolding Retirement.compute withheld deduction years taxable_income IncomeTax.compute tax_by_table
    rounded_income
leaving_run = refl

withheld_le_pay_example : yen leaving.withholding_tax ≤ yen 25000000
withheld_le_pay_example = withheld_le_pay (yen 25000000) (pos 355) false false true leaving_run

tax_of_999 : calculate_tax (pos (yen 999)) 1000 false ≡ (pos (yen 999), pos 99)
unfolding calculate_tax
tax_of_999 = refl

inclusive-exclusive_example :
    let (net, tax) = calculate_tax (pos (yen 999)) 1000 false in
    calculate_tax (net +ℤ times tax per_yen) 1000 true ≡ (pos (yen 999), tax)
inclusive-exclusive_example = inclusive-exclusive 999 1000

abbrev lines : List InvoiceTaxLine
lines = (pos (yen 105), 1000) ∷ (pos (yen 205), 800) ∷ (pos (yen 108), 1000) ∷ []

abbrev invoice : InvoiceTaxComputationResult
invoice = record {
  by_rate =
      record { tax_rate = 800; taxable_base = yen 205; tax = pos 16 }
      ∷ record { tax_rate = 1000; taxable_base = yen 213; tax = pos 21 }
      ∷ [];
  total_taxable = yen 418;
  total_tax = pos 37;
  total_amount = pos (yen 455);
}

invoice_run : compute_invoice_tax lines ≡ ok invoice
unfolding compute_invoice_tax group_lines add_amount sort_groups insert_group computed calculate_tax
    ◌+ℤ◌
invoice_run = refl

abbrev unsupported_rate : Result String InvoiceTaxComputationResult
unsupported_rate = err "unsupported tax_rate"

rate_refused : compute_invoice_tax ((pos 5, 500) ∷ []) ≡ unsupported_rate
unfolding compute_invoice_tax group_lines
rate_refused = refl
