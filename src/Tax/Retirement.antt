-- ===== src/Tax/Retirement.antt =====
-- backend/app/services/retirement_income_tax.py: the tax withheld from a retirement payment.
use k_aikei.Prelude.{
  ℕ, ◌+◌, ◌*◌, ◌-◌, ◌/◌, ◌≤◌, ◌≡◌, refl, max, Bool, true, false, ◌&&◌, ◌||◌, inl, inr, String, leb,
  ltb, if◌then◌else◌, arith, Bool-cases,
}
use k_aikei.Prelude.Int.{ℤ, pos, negsuc}
use k_aikei.Result.{Result, ok, err, ◌>>=◌, ◌>>◌, raise_if}
use k_aikei.Tax.Units.{per_yen, yen}
use k_aikei.Tax.IncomeTax

-- `taxable_base` is in ten-thousandths of a yen. `taxable_retirement_income`, which may be half of
-- that, is in twenty-thousandths. The other amounts are whole yen.
pub record RetirementIncomeTaxResult : Type 0 where
  pub years_of_service : ℕ
  pub retirement_income_deduction : ℕ
  pub taxable_base : ℕ
  pub taxable_retirement_income : ℕ
  pub income_tax_base : ℕ
  pub statement_submitted : Bool
  pub withholding_tax : ℕ

-- `-(-months // 12)`, at least 1
unfoldable pub years : ℕ → ℕ
years months = max ((months + 11) / 12) 1

unfoldable pub deduction : ℕ → ℕ
deduction y = if leb y 20 then max (400000 * y) 800000 else 8000000 + 700000 * (y - 20)

-- the half that is taxed, in twenty-thousandths of a yen, of a base in ten-thousandths
unfoldable pub taxable_income : ℕ → Bool → Bool → ℕ
taxable_income base officer short_term =
    if officer
    then base * 2
    else if short_term && ltb (yen 3000000) base
    then (yen 1500000 + (base - yen 3000000)) * 2
    else base

-- RECONSTRUCTION_MULTIPLIER, 1.021, and NO_STATEMENT_RATE, 0.2042, rounded down to yen
abbrev pub with_reconstruction : ℕ → ℕ
with_reconstruction tax = tax * 1021 / 1000

abbrev pub without_statement : ℕ → ℕ
without_statement pay = pay * 2042 / (10000 * per_yen)

-- what follows the checks
unfoldable pub withheld : ℕ → ℕ → Bool → Bool → Bool → Result String RetirementIncomeTaxResult
unfolding deduction taxable_income
withheld pay y officer short_term submitted =
    if submitted
    then (do
      let base = pay - yen (deduction y)
      let income = taxable_income base officer short_term
      tax ← IncomeTax.compute (pos (income / 2))
      ok (record {
        years_of_service = y;
        retirement_income_deduction = deduction y;
        taxable_base = base;
        taxable_retirement_income = income;
        income_tax_base = tax;
        statement_submitted = true;
        withholding_tax = with_reconstruction tax;
      }))
    else ok (record {
      years_of_service = y;
      retirement_income_deduction = deduction y;
      taxable_base = 0;
      taxable_retirement_income = 0;
      income_tax_base = 0;
      statement_submitted = false;
      withholding_tax = without_statement pay;
    })

-- `RetirementIncomeTaxService.compute`
unfoldable pub compute : ℤ → ℤ → Bool → Bool → Bool → Result String RetirementIncomeTaxResult
unfolding years
compute (negsuc n) months officer short_term submitted = err "severance_pay must be non-negative"
compute (pos pay) (negsuc n) officer short_term submitted =
    err "months_of_service must be non-negative"
compute (pos pay) (pos months) officer short_term submitted = do
  raise_if (officer && short_term) "cannot be both specified officer and short-term"
  raise_if ((officer || short_term) && ltb 5 (years months))
      "5-year rule flags require years_of_service <= 5"
  withheld pay (years months) officer short_term submitted

-- Longer service never has a smaller deduction, the formulas for up to 20 years and for more agree
-- at 20 years, and the deduction is at least 800,000 yen.
pub deduction_grows :
    (m n : ℕ)
    → m ≤ n
    → (deduction (years m) ≤ deduction (years n))
      × (800000 ≤ deduction (years m))
      × (deduction 20 ≡ 8000000)
      × (1 ≤ years m)
unfolding deduction years
deduction_grows m n h = (ground arith, ground arith, refl, omega arith)

taxable_income_le :
    (base : ℕ) (officer short_term : Bool) → taxable_income base officer short_term ≤ base * 2
unfolding taxable_income
taxable_income_le base officer short_term = ground arith

withheld_le :
    (pay y : ℕ) (officer short_term submitted : Bool) {r : RetirementIncomeTaxResult}
    → withheld pay y officer short_term submitted ≡ ok r
    → yen r.withholding_tax ≤ pay
unfolding withheld
withheld_le pay y officer short_term false {r} h =
    let e : without_statement pay ≡ r.withholding_tax = ground arith in omega (arith, e)
withheld_le pay y officer short_term true {r} h =
    let base = pay - yen (deduction y) in
    let income = taxable_income base officer short_term in
    let (t, u, run, same, le, bound) =
      IncomeTax.compute_bounds (income / 2) (income / 2) (omega arith) in
    let e : with_reconstruction t ≡ r.withholding_tax = ground (arith, run) in
    omega (arith, e, bound, taxable_income_le base officer short_term)

-- When a result is returned, no more is withheld than was paid.
pub withheld_le_pay :
    (pay : ℕ) (months : ℤ) (officer short_term submitted : Bool) {r : RetirementIncomeTaxResult}
    → compute (pos pay) months officer short_term submitted ≡ ok r
    → yen r.withholding_tax ≤ pay
unfolding compute
withheld_le_pay pay (negsuc n) officer short_term submitted h = cc
withheld_le_pay pay (pos n) officer short_term submitted h =
    elim (Bool-cases (officer && short_term)) [
      | inl both ↦ cc (rw both at h)
      | inr one ↦ elim (Bool-cases ((officer || short_term) && ltb 5 (years n))) [
        | inl long ↦ cc (rw (one, long) at h)
        | inr short ↦ withheld_le pay (years n) officer short_term submitted (rw (one, short) at h)
      ]
    ]
