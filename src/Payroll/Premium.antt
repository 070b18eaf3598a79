-- ===== src/Payroll/Premium.antt =====
-- backend/app/services/social_insurance.py: premiums and how employee and employer share them.
-- Remuneration is in ten-thousandths of a yen and rates are in ten-thousandths, so a premium counts
-- hundred-millionths of a yen. The employee's share is in whole yen.
use k_aikei.Prelude.{ℕ, ◌+◌, ◌*◌, ◌-◌, ◌/◌, ◌≤◌, ◌<◌, ◌≡◌, refl, Bool, String, if◌then◌else◌, arith}
use k_aikei.Prelude.Int.{ℤ, pos, negsuc}
use k_aikei.Result.{Result, ok, err}

-- a yen, as a premium
abbrev pub premium_yen : ℕ → ℕ
premium_yen n = n * 100000000

-- PENSION_INSURANCE_RATE, DEFAULT_HEALTH_INSURANCE_RATE and DEFAULT_CARE_INSURANCE_RATE
abbrev pub pension_insurance_rate : ℕ
pension_insurance_rate = 1830

abbrev pub default_health_insurance_rate : ℕ
default_health_insurance_rate = 998

abbrev pub default_care_insurance_rate : ℕ
default_care_insurance_rate = 160

pub record SocialInsuranceBreakdown : Type 0 where
  pub total : ℕ
  pub employee : ℕ
  pub employer : ℕ

pub record SocialInsuranceResult : Type 0 where
  pub standard_monthly_remuneration : ℕ
  pub health_rate : ℕ
  pub care_rate : ℕ
  pub care_applicable : Bool
  pub health : SocialInsuranceBreakdown
  pub care : SocialInsuranceBreakdown
  pub pension : SocialInsuranceBreakdown
  pub total_employee : ℕ
  pub total_employer : ℕ
  pub total_premium : ℕ

-- `(total / 2).quantize(1, ROUND_HALF_DOWN)`: to the nearest yen, and a half goes down
unfoldable pub half_down : ℕ → ℕ
half_down total = (total + (premium_yen 1 - 1)) / premium_yen 2

unfoldable pub split_premium : ℕ → SocialInsuranceBreakdown
split_premium total = record {
  total = total;
  employee = half_down total;
  employer = total - premium_yen (half_down total);
}

-- what `compute` and `compute_bonus` do after their checks, on the base of health and care insurance
-- and the base of the pension
abbrev pub premiums : ℕ → ℕ → ℕ → ℕ → Bool → SocialInsuranceResult
premiums health_base pension_base health_rate care_rate applicable =
    let health = split_premium (health_base * health_rate) in
    let care = split_premium (if applicable then health_base * care_rate else 0) in
    let pension = split_premium (pension_base * pension_insurance_rate) in
    record {
      standard_monthly_remuneration = health_base;
      health_rate = health_rate;
      care_rate = care_rate;
      care_applicable = applicable;
      health = health;
      care = care;
      pension = pension;
      total_employee = health.employee + care.employee + pension.employee;
      total_employer = health.employer + care.employer + pension.employer;
      total_premium = health.total + care.total + pension.total;
    }

abbrev negative_base : Result String SocialInsuranceResult
negative_base = err "standard_monthly_remuneration and rates must be non-negative"

abbrev negative_bonus : Result String SocialInsuranceResult
negative_bonus = err "standard bonuses and rates must be non-negative"

-- `SocialInsurancePremiumService.compute`
unfoldable pub compute : ℤ → ℤ → ℤ → Bool → Result String SocialInsuranceResult
compute (pos base) (pos health_rate) (pos care_rate) applicable =
    ok (premiums base base health_rate care_rate applicable)
compute (negsuc n) health_rate care_rate applicable = negative_base
compute (pos base) (negsuc n) care_rate applicable = negative_base
compute (pos base) (pos health_rate) (negsuc n) applicable = negative_base

-- `SocialInsurancePremiumService.compute_bonus`
unfoldable pub compute_bonus : ℤ → ℤ → ℤ → ℤ → Bool → Result String SocialInsuranceResult
compute_bonus (pos health) (pos pension) (pos health_rate) (pos care_rate) applicable =
    ok (premiums health pension health_rate care_rate applicable)
compute_bonus (negsuc n) pension health_rate care_rate applicable = negative_bonus
compute_bonus (pos health) (negsuc n) health_rate care_rate applicable = negative_bonus
compute_bonus (pos health) (pos pension) (negsuc n) care_rate applicable = negative_bonus
compute_bonus (pos health) (pos pension) (pos health_rate) (negsuc n) applicable = negative_bonus

-- The shares add up to the premium, the employee pays the half or up to half a yen more or less, and
-- of a half yen nothing.
abbrev pub IsFairSplit : SocialInsuranceBreakdown → Type 0
IsFairSplit b =
    (premium_yen b.employee + b.employer ≡ b.total)
    × (premium_yen (b.employee * 2) < b.total + premium_yen 1)
    × (b.total ≤ premium_yen (b.employee * 2) + premium_yen 1)

split_premium-IsFairSplit : (total : ℕ) → IsFairSplit (split_premium total)
unfolding split_premium half_down
split_premium-IsFairSplit total = (omega arith, omega arith, omega arith)

-- What the totals of a result say.
abbrev pub IsBalanced : SocialInsuranceResult → Type 0
IsBalanced r =
    (premium_yen r.total_employee + r.total_employer ≡ r.total_premium)
    × (r.total_premium ≡ r.health.total + r.care.total + r.pension.total)
    × IsFairSplit r.health
    × IsFairSplit r.care
    × IsFairSplit r.pension

premiums-IsBalanced :
    (health_base pension_base health_rate care_rate : ℕ) (applicable : Bool)
    → IsBalanced (premiums health_base pension_base health_rate care_rate applicable)
premiums-IsBalanced hb pb hr cr applicable =
    let h = split_premium-IsFairSplit (hb * hr) in
    let c = split_premium-IsFairSplit (if applicable then hb * cr else 0) in
    let p = split_premium-IsFairSplit (pb * pension_insurance_rate) in
    (omega (arith, h.0, c.0, p.0), refl, h, c, p)

-- The premiums of a month or of a bonus that are returned are balanced: the employee's and the
-- employer's totals add up to the total premium, and so does each of the three insurances, of which
-- the employee pays the half in whole yen, with a half yen left to the employer.
pub premiums_balance :
    (base pension : ℤ) (health_rate care_rate : ℤ) (applicable : Bool) {r s : SocialInsuranceResult}
    → compute base health_rate care_rate applicable ≡ ok r
    → compute_bonus base pension health_rate care_rate applicable ≡ ok s
    → IsBalanced r × IsBalanced s
unfolding compute compute_bonus
premiums_balance (pos b) (pos p) (pos h) (pos c) applicable {r} {s} run bonus_run =
    let e : premiums b b h c applicable ≡ r = ground arith in
    let f : premiums b p h c applicable ≡ s = ground arith in
    (
      rw (← e) (premiums-IsBalanced b b h c applicable),
      rw (← f) (premiums-IsBalanced b p h c applicable),
    )
premiums_balance (negsuc b) p h c applicable run bonus_run = cc
premiums_balance (pos b) (negsuc p) h c applicable run bonus_run = cc
premiums_balance (pos b) (pos p) (negsuc h) c applicable run bonus_run = cc
premiums_balance (pos b) (pos p) (pos h) (negsuc c) applicable run bonus_run = cc
