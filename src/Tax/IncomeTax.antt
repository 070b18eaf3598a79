-- ===== src/Tax/IncomeTax.antt =====
-- backend/app/services/income_tax.py, the rate table of income tax, and
-- backend/app/services/income_deduction.py, the deductions that follow from the income.
use k_aikei.Prelude.{
  ℕ, ◌+◌, ◌*◌, ◌-◌, ◌/◌, ◌≤◌, ◌<◌, ◌≡◌, refl, Bool, true, Option, none, some, String, List, [], ◌∷◌,
  leb, if◌then◌else◌, arith, Bool-cases, inl, inr,
}
use k_aikei.Prelude.Int.{ℤ, pos, negsuc}
use k_aikei.Result.{Result, ok, err}
use k_aikei.Tax.Units.{yen, slice, slice_mono}

-- upper bound, rate in hundredths, deduction
abbrev pub Bracket : Type 0
Bracket = ℕ × ℕ × ℕ

-- INCOME_TAX_BRACKETS
abbrev pub income_tax_brackets : List Bracket
income_tax_brackets =
    (1950000, 5, 0)
    ∷ (3300000, 10, 97500)
    ∷ (6950000, 20, 427500)
    ∷ (9000000, 23, 636000)
    ∷ (18000000, 33, 1536000)
    ∷ (40000000, 40, 2796000)
    ∷ []

-- INCOME_TAX_RATE_TOP and INCOME_TAX_DEDUCTION_TOP
abbrev pub income_tax_rate_top : ℕ
income_tax_rate_top = 45

abbrev pub income_tax_deduction_top : ℕ
income_tax_deduction_top = 4796000

-- `max(tax.quantize(1, ROUND_DOWN), 0)` of `income * rate - deduction`: a negative tax becomes 0
abbrev pub bracket_tax : ℕ → ℕ → ℕ → ℕ
bracket_tax income rate deduction = (income * rate - deduction * 100) / 100

-- the loop over the table, on an income in whole yen
unfoldable pub tax_by_table : List Bracket → ℕ → ℕ
tax_by_table [] income = bracket_tax income income_tax_rate_top income_tax_deduction_top
tax_by_table ((upper, rate, deduction) ∷ rest) income =
    if leb income upper then bracket_tax income rate deduction else tax_by_table rest income

-- `taxable_income // 1000 * 1000`, in yen
unfoldable pub rounded_income : ℕ → ℕ
rounded_income n = n / yen 1000 * 1000

-- `IncomeTaxService.compute`
unfoldable pub compute : ℤ → Result String ℕ
compute (negsuc n) = err "taxable_income must be non-negative"
compute (pos n) = ok (tax_by_table income_tax_brackets (rounded_income n))

-- The tax that the law describes, by slices, in hundredths of a yen.
abbrev pub progressive : ℕ → ℕ
progressive income =
    slice 0 1950000 5 income
    + slice 1950000 3300000 10 income
    + slice 3300000 6950000 20 income
    + slice 6950000 9000000 23 income
    + slice 9000000 18000000 33 income
    + slice 18000000 40000000 40 income
    + (income - 40000000) * 45

-- The slices above the income are empty and those below it are full.
module _ (i : ℕ) where
  slices_0 : 0 ≤ i → i ≤ 1950000 → progressive i ≡ i * 5 - 0 * 100
  unfolding slice
  slices_0 l h = omega arith

  slices_1 : 1950000 ≤ i → i ≤ 3300000 → progressive i ≡ i * 10 - 97500 * 100
  unfolding slice
  slices_1 l h = omega arith

  slices_2 : 3300000 ≤ i → i ≤ 6950000 → progressive i ≡ i * 20 - 427500 * 100
  unfolding slice
  slices_2 l h = omega arith

  slices_3 : 6950000 ≤ i → i ≤ 9000000 → progressive i ≡ i * 23 - 636000 * 100
  unfolding slice
  slices_3 l h = omega arith

  slices_4 : 9000000 ≤ i → i ≤ 18000000 → progressive i ≡ i * 33 - 1536000 * 100
  unfolding slice
  slices_4 l h = omega arith

  slices_5 : 18000000 ≤ i → i ≤ 40000000 → progressive i ≡ i * 40 - 2796000 * 100
  unfolding slice
  slices_5 l h = omega arith

  slices_top : 40000000 ≤ i → progressive i ≡ i * 45 - 4796000 * 100
  unfolding slice
  slices_top l = omega arith

-- The table gives the progressive tax: each rate on the part of the income in its bracket, and the
-- total rounded down to whole yen.
pub tax_by_table-eq-progressive :
    (income : ℕ) → tax_by_table income_tax_brackets income ≡ progressive income / 100
unfolding tax_by_table
tax_by_table-eq-progressive i = elim (Bool-cases (leb i 1950000)) [
  | inl d ↦ rw (d, slices_0 i (ground arith) (ground arith)) refl
  | inr u0 ↦ elim (Bool-cases (leb i 3300000)) [
    | inl d ↦ rw (u0, d, slices_1 i (ground arith) (ground arith)) refl
    | inr u1 ↦ elim (Bool-cases (leb i 6950000)) [
      | inl d ↦ rw (u0, u1, d, slices_2 i (ground arith) (ground arith)) refl
      | inr u2 ↦ elim (Bool-cases (leb i 9000000)) [
        | inl d ↦ rw (u0, u1, u2, d, slices_3 i (ground arith) (ground arith)) refl
        | inr u3 ↦ elim (Bool-cases (leb i 18000000)) [
          | inl d ↦ rw (u0, u1, u2, u3, d, slices_4 i (ground arith) (ground arith)) refl
          | inr u4 ↦ elim (Bool-cases (leb i 40000000)) [
            | inl d ↦ rw (u0, u1, u2, u3, u4, d, slices_5 i (ground arith) (ground arith)) refl
            | inr u5 ↦ rw (u0, u1, u2, u3, u4, u5, slices_top i (ground arith)) refl
          ]
        ]
      ]
    ]
  ]
]

progressive_mono : (i j : ℕ) → i ≤ j → progressive i ≤ progressive j
progressive_mono i j h = omega (
  arith,
  slice_mono 0 1950000 5 i j h,
  slice_mono 1950000 3300000 10 i j h,
  slice_mono 3300000 6950000 20 i j h,
  slice_mono 6950000 9000000 23 i j h,
  slice_mono 9000000 18000000 33 i j h,
  slice_mono 18000000 40000000 40 i j h,
)

progressive_le : (i : ℕ) → progressive i ≤ i * 45
unfolding slice
progressive_le i = omega arith

-- The tax of an income of zero or more is computed; it is at most 45 hundredths of it, and more
-- income is never taxed less.
pub compute_bounds :
    (n m : ℕ)
    → n ≤ m
    → (t : ℕ) × (u : ℕ) × (compute (pos n) ≡ ok t)
      × (compute (pos m) ≡ ok u)
      × (t ≤ u)
      × (yen t * 100 ≤ n * 45)
unfolding compute rounded_income
compute_bounds n m h =
    let r = rounded_income n in
    let s = rounded_income m in
    (
      tax_by_table income_tax_brackets r,
      tax_by_table income_tax_brackets s,
      refl,
      refl,
      omega (
        arith,
        tax_by_table-eq-progressive r,
        tax_by_table-eq-progressive s,
        progressive_mono r s (omega arith),
      ),
      omega (arith, tax_by_table-eq-progressive r, progressive_le r),
    )

-- BASIC_DEDUCTION_TIERS: the ceiling of the total income, and the deduction
abbrev pub basic_deduction_tiers : List (Option ℕ × ℕ)
basic_deduction_tiers =
    (some 24000000, 480000) ∷ (some 24500000, 320000) ∷ (some 25000000, 160000) ∷ (none, 0) ∷ []

abbrev pub under_ceiling : ℕ → Option ℕ → Bool
under_ceiling n none = true
under_ceiling n (some ceiling) = leb n (yen ceiling)

unfoldable pub first_tier : List (Option ℕ × ℕ) → ℕ → ℕ
first_tier [] n = 0
first_tier ((ceiling, amount) ∷ rest) n =
    if under_ceiling n ceiling then amount else first_tier rest n

unfoldable pub basic_deduction : ℤ → Result String ℕ
basic_deduction (negsuc n) = err "total_income must be non-negative"
basic_deduction (pos n) = ok (first_tier basic_deduction_tiers n)

-- GENERAL_DEPENDENT_DEDUCTION for each dependent
unfoldable pub dependent_deduction : ℤ → Result String ℕ
dependent_deduction (negsuc n) = err "dependents must be non-negative"
dependent_deduction (pos n) = ok (380000 * n)

-- More income never gives a larger basic deduction, and above 25,000,000 yen there is none.
pub basic_deduction_falls :
    (n m : ℕ)
    → n ≤ m
    → (d : ℕ) × (e : ℕ) × (basic_deduction (pos n) ≡ ok d)
      × (basic_deduction (pos m) ≡ ok e)
      × (e ≤ d)
      × (d ≤ 480000)
      × (yen 25000000 < m → e ≡ 0)
unfolding basic_deduction first_tier
basic_deduction_falls n m h = (
  first_tier basic_deduction_tiers n,
  first_tier basic_deduction_tiers m,
  refl,
  refl,
  ground arith,
  ground arith,
  λ above. ground arith,
)
