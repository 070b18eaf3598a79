-- ===== src/Tax/Residence.antt =====
-- backend/app/services/residence_tax.py: the yearly residence tax in twelve monthly amounts.
use k_aikei.Prelude.{
  ℕ, ◌+◌, ◌*◌, ◌-◌, ◌/◌, ◌%◌, ◌≤◌, ◌<◌, ◌≡◌, refl, String, List, [], ◌∷◌, map, length, arith,
}
use k_aikei.Prelude.Int.{ℤ, pos, negsuc}
use k_aikei.Result.{Result, ok, err}
use k_aikei.Tax.Units.{yen}

-- SPECIAL_COLLECTION_MONTHS
abbrev pub special_collection_months : List ℕ
special_collection_months = 6 ∷ 7 ∷ 8 ∷ 9 ∷ 10 ∷ 11 ∷ 12 ∷ 1 ∷ 2 ∷ 3 ∷ 4 ∷ 5 ∷ []

pub record ResidenceTaxMonthlyAmount : Type 0 where
  pub month : ℕ
  pub amount : ℕ

-- The amounts are in ten-thousandths of a yen.
pub record ResidenceTaxResult : Type 0 where
  pub annual_tax : ℕ
  pub first_month_amount : ℕ
  pub ordinary_month_amount : ℕ
  pub monthly_amounts : List ResidenceTaxMonthlyAmount
  pub total : ℕ

-- `_floor_to_unit(annual_tax / 12)`: whole hundreds of yen of a twelfth
unfoldable pub floor_to_unit : ℕ → ℕ
floor_to_unit annual = annual / (12 * yen 100) * yen 100

abbrev pub ordinary_months : ℕ → List ℕ → List ResidenceTaxMonthlyAmount
ordinary_months amount months = map (λ m. record { month = m; amount = amount }) months

-- the loop over the months, of which the first takes what is left over
abbrev pub monthly : ℕ → ℕ → List ℕ → List ResidenceTaxMonthlyAmount
monthly first ordinary [] = []
monthly first ordinary (m ∷ months) =
    record { month = m; amount = first } ∷ ordinary_months ordinary months

unfoldable pub collection : ℕ → ResidenceTaxResult
collection annual =
    let ordinary = floor_to_unit annual in
    let first = annual - ordinary * 11 in
    record {
      annual_tax = annual;
      first_month_amount = first;
      ordinary_month_amount = ordinary;
      monthly_amounts = monthly first ordinary special_collection_months;
      total = first + ordinary * 11;
    }

-- `ResidenceTaxSpecialCollectionService.compute`
unfoldable pub compute : ℤ → Result String ResidenceTaxResult
compute (negsuc n) = err "annual_tax must be non-negative"
compute (pos n) = ok (collection n)

abbrev pub sum_of_months : List ResidenceTaxMonthlyAmount → ℕ
sum_of_months [] = 0
sum_of_months (m ∷ ms) = m.amount + sum_of_months ms

-- The twelve monthly amounts add up to the yearly tax, and so does the total that is reported. The
-- ordinary amount is in whole hundreds of yen, and the first month, which takes the rest, is larger
-- by less than 1,200 yen.
pub compute_splits :
    (n : ℕ) {r : ResidenceTaxResult}
    → compute (pos n) ≡ ok r
    → (sum_of_months r.monthly_amounts ≡ n)
      × (length r.monthly_amounts ≡ 12)
      × (r.total ≡ n)
      × (r.ordinary_month_amount % yen 100 ≡ 0)
      × (r.ordinary_month_amount ≤ r.first_month_amount)
      × (r.first_month_amount < r.ordinary_month_amount + yen 1200)
unfolding compute collection floor_to_unit
compute_splits n {r} h =
    let e : collection n ≡ r = ground arith in
    rw (← e) (omega arith, refl, omega arith, omega arith, omega arith, omega arith)
