-- ===== src/Payroll/Tests.antt =====
-- Tests and witnesses for the payroll services.
use k_aikei.Prelude.{some, length, ℕ, List, ◌≤◌, ◌<◌, ◌≡◌, refl, min, true, [], ◌∷◌, arith}
use k_aikei.Prelude.Int.{pos}
use k_aikei.Result.{ok}
use k_aikei.Tax.Units.{yen}
use k_aikei.Prelude.Totals.{sum_of}
use k_aikei.Payroll.Average.{
  RemunerationMonth, determine_remuneration_monthly, qualifying, average, paid_of, counted,
  Describes, determine_remuneration_monthly_lem,
}
use k_aikei.Payroll.Grades.{pension_grade_table, health_grade_table}
use k_aikei.Payroll.Remuneration.{
  lookup_pension_grade, lookup_health_grade, lookup_grade, lookup_rows, Graded, lookup_both_grades,
}
use k_aikei.Payroll.Premium.{
  SocialInsuranceResult, compute, compute_bonus, half_down, premiums, IsBalanced, premiums_balance,
}
use k_aikei.Payroll.Bonus.{
  StandardBonus, StandardBonusResult, standard_bonus_amounts, compute_standard_bonus,
  standard_bonus_services, year_of_bonuses, year_of_bonuses_lem, sum_of_thousands,
}

grade_of_300000 :
    lookup_pension_grade (pos (yen 300000))
    ≡ ok (record { grade = 19; standard_monthly_remuneration = 300000 })
unfolding lookup_pension_grade lookup_grade lookup_rows
grade_of_300000 = refl

lookup_both_grades_example :
    Graded lookup_pension_grade pension_grade_table (yen 300000) (yen 700000)
    × Graded lookup_health_grade health_grade_table (yen 300000) (yen 700000)
lookup_both_grades_example = lookup_both_grades (yen 300000) (yen 700000) (omega arith)

abbrev month_premiums : SocialInsuranceResult
month_premiums = premiums (yen 300000) (yen 300000) 998 160 true

abbrev bonus_premiums : SocialInsuranceResult
bonus_premiums = premiums (yen 300000) (yen 500000) 998 160 true

month_run : compute (pos (yen 300000)) (pos 998) (pos 160) true ≡ ok month_premiums
unfolding compute
month_run = refl

bonus_run :
    compute_bonus (pos (yen 300000)) (pos (yen 500000)) (pos 998) (pos 160) true ≡ ok bonus_premiums
unfolding compute_bonus
bonus_run = refl

half_yen_goes_down : half_down 50000000 ≡ 0
unfolding half_down
half_yen_goes_down = refl

premiums_balance_example : IsBalanced month_premiums × IsBalanced bonus_premiums
premiums_balance_example =
    premiums_balance (pos (yen 300000)) (pos (yen 500000)) (pos 998) (pos 160) true month_run
      bonus_run

year_of_bonuses_lem_example :
    year_of_bonuses (yen 3000000 ∷ yen 2000900 ∷ yen 1500000 ∷ []) 0
    ≡ ok (min (sum_of_thousands (yen 3000000 ∷ yen 2000900 ∷ yen 1500000 ∷ [])) (yen 5730000))
year_of_bonuses_lem_example = year_of_bonuses_lem (yen 3000000 ∷ yen 2000900 ∷ yen 1500000 ∷ [])

standard_bonus_services_example :
    (b : StandardBonus) × (r : StandardBonusResult) × (s : StandardBonusResult)
    × (standard_bonus_amounts (pos (yen 800000)) (pos (yen 5000000)) ≡ ok b)
    × (compute_standard_bonus (pos (yen 800000)) (pos (yen 5000000)) (pos 0) ≡ ok r)
    × (compute_standard_bonus (pos (yen 800000)) (pos (yen 5000000)) (pos (yen 1500000)) ≡ ok s)
    × (b.health ≡ r.health_standard_bonus)
    × (b.health ≡ s.health_standard_bonus)
    × (b.pension ≡ r.pension_standard_bonus)
    × (s.pension_standard_bonus ≡ 0)
    × (yen 1000 ≤ yen 800000 → 0 < b.pension)
standard_bonus_services_example = standard_bonus_services (yen 800000) (yen 5000000)

abbrev month : ℕ → ℕ → RemunerationMonth
month days paid = record { payment_basis_days = pos days; remuneration = pos (yen paid) }

abbrev quarter : List RemunerationMonth
quarter = month 30 300000 ∷ month 10 100000 ∷ month 31 300001 ∷ []

average_run : determine_remuneration_monthly quarter (pos 17) ≡ ok (some 300000)
unfolding determine_remuneration_monthly qualifying average
average_run = refl

determine_remuneration_monthly_lem_example :
    (total : ℕ) × (sum_of paid_of (counted 17 quarter) ≡ pos total)
    × Describes (some 300000) total (length (counted 17 quarter))
determine_remuneration_monthly_lem_example =
    determine_remuneration_monthly_lem quarter 17 average_run
