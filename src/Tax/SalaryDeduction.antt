-- ===== src/Tax/SalaryDeduction.antt =====
-- backend/app/services/salary_deduction.py: the deduction from salary income.
use k_aikei.Prelude.{ap, ℕ, ◌+◌, ◌*◌, ◌-◌, ◌/◌, ◌≤◌, ◌≡◌, refl, String, leb, if◌then◌else◌, arith}
use k_aikei.Prelude.Int.{ℤ, pos, negsuc}
use k_aikei.Result.{Result, ok, err}
use k_aikei.Tax.Units.{yen, slice, slice_mono}

-- Rates are in hundredths, so `gross * rate` counts millionths of a yen.
abbrev pub millionths : ℕ → ℕ
millionths n = n * 1000000

-- The branches before the rounding, in millionths of a yen.
unfoldable pub deduction_by_table : ℕ → ℕ
deduction_by_table n =
    if leb n (yen 1625000)
    then millionths 550000
    else if leb n (yen 1800000)
    then n * 40 - millionths 100000
    else if leb n (yen 3600000)
    then n * 30 + millionths 80000
    else if leb n (yen 6600000)
    then n * 20 + millionths 440000
    else if leb n (yen 8500000)
    then n * 10 + millionths 1100000
    else millionths 1950000

-- `SalaryIncomeDeductionService.compute`
unfoldable pub compute : ℤ → Result String ℕ
compute (negsuc n) = err "gross_salary must be non-negative"
compute (pos n) = ok (deduction_by_table n / 1000000)

-- The floor, and a falling rate on each part of the salary above it.
abbrev pub by_slices : ℕ → ℕ
by_slices n =
    millionths 550000
    + slice (yen 1625000) (yen 1800000) 40 n
    + slice (yen 1800000) (yen 3600000) 30 n
    + slice (yen 3600000) (yen 6600000) 20 n
    + slice (yen 6600000) (yen 8500000) 10 n

-- The branches meet at their thresholds.
deduction_by_table-eq-by_slices : (n : ℕ) → deduction_by_table n ≡ by_slices n
unfolding deduction_by_table slice
deduction_by_table-eq-by_slices n = ground arith

by_slices_mono : (n m : ℕ) → n ≤ m → by_slices n ≤ by_slices m
by_slices_mono n m h = omega (
  arith,
  slice_mono (yen 1625000) (yen 1800000) 40 n m h,
  slice_mono (yen 1800000) (yen 3600000) 30 n m h,
  slice_mono (yen 3600000) (yen 6600000) 20 n m h,
  slice_mono (yen 6600000) (yen 8500000) 10 n m h,
)

-- no yen of salary adds more than 40 hundredths of a yen to the deduction
by_slices_growth : (n m : ℕ) → n ≤ m → by_slices m ≤ by_slices n + (m - n) * 40
unfolding slice
by_slices_growth n m h = omega arith

by_slices_range : (n : ℕ) → (millionths 550000 ≤ by_slices n) × (by_slices n ≤ millionths 1950000)
unfolding slice
by_slices_range n = omega arith

-- The deduction of a salary in whole yen is the floor of 550,000 yen and 40, 30, 20 and 10 hundredths of
-- the parts of the salary between the thresholds, rounded down to whole yen. A larger salary has no
-- smaller deduction, the deduction lies between 550,000 and 1,950,000 yen, and the larger salary leaves
-- no less income after the deduction.
pub compute_monotone :
    (a b : ℕ)
    → a ≤ b
    → (d : ℕ) × (e : ℕ) × (compute (pos (yen a)) ≡ ok d)
      × (compute (pos (yen b)) ≡ ok e)
      × (d ≡ by_slices (yen a) / 1000000)
      × (d ≤ e)
      × (550000 ≤ d)
      × (e ≤ 1950000)
      × (a + e ≤ b + d)
unfolding compute
compute_monotone a b h =
    let s = deduction_by_table-eq-by_slices (yen a) in
    let t = deduction_by_table-eq-by_slices (yen b) in
    (
      deduction_by_table (yen a) / 1000000,
      deduction_by_table (yen b) / 1000000,
      refl,
      refl,
      ap (λ n. n / 1000000) s,
      rw (s, t) (omega (arith, by_slices_mono (yen a) (yen b) (omega arith))),
      rw s (omega (arith, by_slices_range (yen a))),
      rw t (omega (arith, by_slices_range (yen b))),
      rw (s, t) (omega (arith, by_slices_growth (yen a) (yen b) (omega arith))),
    )
