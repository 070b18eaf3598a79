-- ===== src/Payroll/Bonus.antt =====
-- backend/app/services/social_insurance.py and backend/app/services/standard_bonus.py: the part of a
-- bonus that premiums are paid on. Amounts are in ten-thousandths of a yen.
use k_aikei.Prelude.{ℕ, ◌+◌, ◌*◌, ◌-◌, ◌/◌, ◌≤◌, ◌<◌, ◌≡◌, refl, min, String, List, [], ◌∷◌, arith}
use k_aikei.Prelude.Int.{ℤ, pos, negsuc}
use k_aikei.Result.{Result, ok, err, ◌>>=◌}
use k_aikei.Tax.Units.{yen}

-- HEALTH_STANDARD_BONUS_ANNUAL_CAP and PENSION_STANDARD_BONUS_PER_PAYMENT_CAP of social_insurance.py
abbrev pub health_standard_bonus_annual_cap : ℕ
health_standard_bonus_annual_cap = yen 5730000

abbrev pub pension_standard_bonus_per_payment_cap : ℕ
pension_standard_bonus_per_payment_cap = yen 1500000

-- whole thousands of yen: `bonus_amount // STANDARD_BONUS_UNIT * STANDARD_BONUS_UNIT`
unfoldable pub whole_thousands : ℕ → ℕ
whole_thousands n = n / yen 1000 * yen 1000

pub record StandardBonus : Type 0 where
  pub health : ℕ
  pub pension : ℕ

-- `max(min(base, remaining), 0)`, where a remainder that is negative is 0 here
unfoldable pub within_cap : ℕ → ℕ → ℕ → ℕ
within_cap cap before base = min base (cap - before)

abbrev bonus_of : ℕ → ℕ → StandardBonus
bonus_of bonus before = record {
  health = within_cap health_standard_bonus_annual_cap before (whole_thousands bonus);
  pension = min (whole_thousands bonus) pension_standard_bonus_per_payment_cap;
}

unfoldable pub standard_bonus_amounts : ℤ → ℤ → Result String StandardBonus
standard_bonus_amounts (negsuc n) before = err "bonus amounts must be non-negative"
standard_bonus_amounts (pos n) (negsuc m) = err "bonus amounts must be non-negative"
standard_bonus_amounts (pos bonus) (pos before) = ok (bonus_of bonus before)

pub record StandardBonusResult : Type 0 where
  pub bonus_amount : ℕ
  pub standard_bonus : ℕ
  pub health_standard_bonus : ℕ
  pub pension_standard_bonus : ℕ

-- HEALTH_STANDARD_BONUS_LIMIT and PENSION_STANDARD_BONUS_LIMIT of standard_bonus.py
abbrev pub health_standard_bonus_limit : ℕ
health_standard_bonus_limit = yen 5730000

abbrev pub pension_standard_bonus_limit : ℕ
pension_standard_bonus_limit = yen 1500000

abbrev result_for : ℕ → ℕ → ℕ → StandardBonusResult
result_for bonus before same_month = record {
  bonus_amount = bonus;
  standard_bonus = whole_thousands bonus;
  health_standard_bonus = within_cap health_standard_bonus_limit before (whole_thousands bonus);
  pension_standard_bonus =
      within_cap pension_standard_bonus_limit same_month (whole_thousands bonus);
}

abbrev refused : Result String StandardBonusResult
refused = err "bonus_amount and bonus caps must be non-negative"

-- `StandardBonusService.compute_standard_bonus`
unfoldable pub compute_standard_bonus : ℤ → ℤ → ℤ → Result String StandardBonusResult
compute_standard_bonus (negsuc n) before same_month = refused
compute_standard_bonus (pos n) (negsuc m) same_month = refused
compute_standard_bonus (pos n) (pos m) (negsuc k) = refused
compute_standard_bonus (pos bonus) (pos before) (pos same_month) =
    ok (result_for bonus before same_month)

-- The bonuses of a fiscal year, each given the health standards of those before it: the sum of the
-- health standards at the end.
unfoldable pub year_of_bonuses : List ℕ → ℕ → Result String ℕ
year_of_bonuses [] before = ok before
year_of_bonuses (bonus ∷ later) before = do
  b ← standard_bonus_amounts (pos bonus) (pos before)
  year_of_bonuses later (before + b.health)

abbrev pub sum_of_thousands : List ℕ → ℕ
sum_of_thousands [] = 0
sum_of_thousands (bonus ∷ later) = whole_thousands bonus + sum_of_thousands later

year_from :
    (bonuses : List ℕ) (before : ℕ)
    → before ≤ health_standard_bonus_annual_cap
    → year_of_bonuses bonuses before
      ≡ ok (min (before + sum_of_thousands bonuses) health_standard_bonus_annual_cap)
unfolding year_of_bonuses standard_bonus_amounts within_cap
year_from [] before h = ground arith
year_from (bonus ∷ later) before h =
    let b = min (whole_thousands bonus) (health_standard_bonus_annual_cap - before) in
    let rest = year_from later (before + b) (omega arith) in
    let same : min (before + b + sum_of_thousands later) health_standard_bonus_annual_cap
        ≡ min (before + sum_of_thousands (bonus ∷ later)) health_standard_bonus_annual_cap =
      omega arith in
    ground (arith, rest, same)

-- However a year's bonuses are split into payments, the health standards add up to the whole
-- thousands of all of them, or to the yearly cap of 5,730,000 yen where these are more.
pub year_of_bonuses_lem :
    (bonuses : List ℕ)
    → year_of_bonuses bonuses 0 ≡ ok (min (sum_of_thousands bonuses) (yen 5730000))
year_of_bonuses_lem bonuses = ground (arith, year_from bonuses 0)

-- For the first bonus of a month both services give the same standards. For a later one the pension
-- standard of standard_bonus.py counts what the month has used, and the other does not: where the
-- month's cap is used up, the one is zero and the other is not, unless the bonus is below 1,000 yen.
pub standard_bonus_services :
    (bonus before : ℕ)
    → (b : StandardBonus) × (r : StandardBonusResult) × (s : StandardBonusResult)
      × (standard_bonus_amounts (pos bonus) (pos before) ≡ ok b)
      × (compute_standard_bonus (pos bonus) (pos before) (pos 0) ≡ ok r)
      × (compute_standard_bonus (pos bonus) (pos before) (pos (yen 1500000)) ≡ ok s)
      × (b.health ≡ r.health_standard_bonus)
      × (b.health ≡ s.health_standard_bonus)
      × (b.pension ≡ r.pension_standard_bonus)
      × (s.pension_standard_bonus ≡ 0)
      × (yen 1000 ≤ bonus → 0 < b.pension)
unfolding standard_bonus_amounts compute_standard_bonus within_cap whole_thousands
standard_bonus_services bonus before = (
  bonus_of bonus before,
  result_for bonus before 0,
  result_for bonus before (yen 1500000),
  refl,
  refl,
  refl,
  refl,
  refl,
  omega arith,
  omega arith,
  λ h. omega arith,
)
