-- ===== src/Payroll/Remuneration.antt =====
-- backend/app/services/standard_remuneration.py: the average remuneration and its grade.
-- A remuneration is in ten-thousandths of a yen.
use k_aikei.Prelude.{
  ℕ, ◌≤◌, ◌<◌, ◌≡◌, refl, Bool, true, false, ◌&&◌, Option, none, some, String, List, [], ◌∷◌, any,
  All, leb, ltb, ◌==◌, if◌then◌else◌, arith, Bool-cases, inl, inr,
}
use k_aikei.Prelude.Int.{ℤ, pos, negsuc}
use k_aikei.Result.{Result, ok, err}
use k_aikei.Tax.Units.{yen}
use k_aikei.Payroll.Grades.{GradeRow, pension_grade_table, health_grade_table}

pub record GradeResult : Type 0 where
  pub grade : ℕ
  pub standard_monthly_remuneration : ℕ

abbrev pub grade_of : GradeRow → GradeResult
grade_of (g, standard, _, _) = record { grade = g; standard_monthly_remuneration = standard }

abbrev pub below : ℕ → Option ℕ → Bool
below n none = true
below n (some upper) = ltb n (yen upper)

-- the loop of `_lookup_grade`
unfoldable pub lookup_rows : List GradeRow → ℕ → Option GradeResult
lookup_rows [] n = none
lookup_rows (row ∷ rows) n =
    let rest = lookup_rows rows n in
    let (_, _, lower, upper) = row in
    if ltb n (yen lower) then rest else if below n upper then some (grade_of row) else rest

-- `grade_table[-1]`, which is looked at when no row has matched
abbrev pub last_row : List GradeRow → Result String GradeResult
last_row [] = err "tuple index out of range"
last_row (row ∷ []) = ok (grade_of row)
last_row (row ∷ next ∷ rows) = last_row (next ∷ rows)

abbrev pub found_or_last : List GradeRow → Option GradeResult → Result String GradeResult
found_or_last table (some found) = ok found
found_or_last table none = last_row table

-- `_lookup_grade`
unfoldable pub lookup_grade : ℤ → List GradeRow → Result String GradeResult
lookup_grade (negsuc n) table = err "remuneration must be non-negative"
lookup_grade (pos n) table = found_or_last table (lookup_rows table n)

unfoldable pub lookup_pension_grade : ℤ → Result String GradeResult
lookup_pension_grade remuneration = lookup_grade remuneration pension_grade_table

unfoldable pub lookup_health_grade : ℤ → Result String GradeResult
lookup_health_grade remuneration = lookup_grade remuneration health_grade_table

-- The row's bounds hold the remuneration.
abbrev pub covers : ℕ → GradeRow → Bool
covers n (_, _, lower, upper) = leb (yen lower) n && below n upper

-- The rows follow each other from `lower` on with no gap, the standards rise, and the last is open.
abbrev pub is_contiguous : ℕ → ℕ → List GradeRow → Bool
is_contiguous lower least [] = false
is_contiguous lower least ((_, s, l, none) ∷ []) = l == lower && leb least s
is_contiguous lower least ((_, s, l, none) ∷ next ∷ rows) = false
is_contiguous lower least ((_, s, l, some u) ∷ rows) =
    l == lower && leb least s && ltb l u && is_contiguous u s rows

-- The rows that come later start above: none of them covers a lower remuneration.
later_rows :
    (n lower least : ℕ) (rows : List GradeRow)
    → n < yen lower
    → is_contiguous lower least rows ≡ true
    → (g : GradeResult) → All (λ row. covers n row ≡ true → grade_of row ≡ g) rows
later_rows n lower least [] low h g = cc
later_rows n lower least ((_, s, l, none) ∷ []) low h g = ((λ c. ground arith), tt)
later_rows n lower least ((_, s, l, none) ∷ next ∷ rows) low h g = cc
later_rows n lower least ((_, s, l, some u) ∷ rows) low h g =
    ((λ c. ground arith), later_rows n u s rows (ground arith) (ground arith) g)

-- what a look-up promises: one grade is found, and it is that of every row that covers `n`
abbrev pub IsGradeOf : ℕ → List GradeRow → GradeResult → Type 0
IsGradeOf n table g =
    (any (covers n) table ≡ true) × All (λ row. covers n row ≡ true → grade_of row ≡ g) table

lookup_rows_lem :
    (n lower least : ℕ) (rows : List GradeRow)
    → yen lower ≤ n
    → is_contiguous lower least rows ≡ true
    → (g : GradeResult) × (lookup_rows rows n ≡ some g) × IsGradeOf n rows g
unfolding lookup_rows
lookup_rows_lem n lower least [] low h = cc
lookup_rows_lem n lower least ((i, s, l, none) ∷ []) low h = (
  record { grade = i; standard_monthly_remuneration = s },
  ground arith,
  (ground arith, ((λ c. refl), tt)),
)
lookup_rows_lem n lower least ((_, s, l, none) ∷ next ∷ rows) low h = cc
lookup_rows_lem n lower least ((i, s, l, some u) ∷ rows) low h = elim (Bool-cases (ltb n (yen u))) [
  | inl here ↦
      let g : GradeResult = record { grade = i; standard_monthly_remuneration = s } in
      (
        g,
        ground arith,
        (ground arith, ((λ c. refl), later_rows n u s rows (ground arith) (ground arith) g)),
      )
  | inr there ↦
      let (g, run, (some_row, all_rows)) =
        lookup_rows_lem n u s rows (ground arith) (ground arith) in
      (g, ground (arith, run), (ground (arith, some_row), ((λ c. ground arith), all_rows)))
]

standard_ge :
    (n lower least : ℕ) (rows : List GradeRow) {g : GradeResult}
    → is_contiguous lower least rows ≡ true
    → lookup_rows rows n ≡ some g
    → least ≤ g.standard_monthly_remuneration
unfolding lookup_rows
standard_ge n lower least [] h run = cc
standard_ge n lower least ((_, s, l, none) ∷ []) {g} h run = ground arith
standard_ge n lower least ((_, s, l, none) ∷ next ∷ rows) h run = cc
standard_ge n lower least ((i, s, l, some u) ∷ rows) {g} h run =
    ground (arith, standard_ge n u s rows {g = g})

lookup_rows_mono :
    (n m lower least : ℕ) (rows : List GradeRow) {g g' : GradeResult}
    → n ≤ m
    → yen lower ≤ n
    → is_contiguous lower least rows ≡ true
    → lookup_rows rows n ≡ some g
    → lookup_rows rows m ≡ some g'
    → g.standard_monthly_remuneration ≤ g'.standard_monthly_remuneration
unfolding lookup_rows
lookup_rows_mono n m lower least [] le low h run run' = cc
lookup_rows_mono n m lower least ((_, s, l, none) ∷ []) le low h run run' = ground arith
lookup_rows_mono n m lower least ((_, s, l, none) ∷ next ∷ rows) le low h run run' = cc
lookup_rows_mono n m lower least ((i, s, l, some u) ∷ rows) {g} {g'} le low h run run' =
    ground (arith, lookup_rows_mono n m u s rows {g = g} {g' = g'}, standard_ge m u s rows {g = g'})

lookup_grade_lem :
    (n : ℕ) (table : List GradeRow)
    → is_contiguous 0 0 table ≡ true
    → (g : GradeResult) × (lookup_grade (pos n) table ≡ ok g)
      × (lookup_rows table n ≡ some g)
      × IsGradeOf n table g
unfolding lookup_grade
lookup_grade_lem n table h =
    let (g, run, is) = lookup_rows_lem n 0 0 table (omega arith) h in (g, rw run refl, run, is)

lookup_grades :
    (n m : ℕ) (table : List GradeRow)
    → n ≤ m
    → is_contiguous 0 0 table ≡ true
    → (g : GradeResult) × (g' : GradeResult) × (lookup_grade (pos n) table ≡ ok g)
      × (lookup_grade (pos m) table ≡ ok g')
      × IsGradeOf n table g
      × (g.standard_monthly_remuneration ≤ g'.standard_monthly_remuneration)
lookup_grades n m table le h =
    let (g, run, rows, is) = lookup_grade_lem n table h in
    let (g', run', rows', is') = lookup_grade_lem m table h in
    (g, g', run, run', is, lookup_rows_mono n m 0 0 table le (omega arith) h rows rows')

abbrev pub Graded : (ℤ → Result String GradeResult) → List GradeRow → ℕ → ℕ → Type 0
Graded lookup table n m =
    (g : GradeResult) × (g' : GradeResult) × (lookup (pos n) ≡ ok g)
    × (lookup (pos m) ≡ ok g')
    × IsGradeOf n table g
    × (g.standard_monthly_remuneration ≤ g'.standard_monthly_remuneration)

-- Both tables, that of pensions and that of health, have a grade for every remuneration of zero or
-- more: some row's bounds hold the remuneration, every row whose bounds hold it has that grade, and a
-- larger remuneration has no smaller standard.
pub lookup_both_grades :
    (n m : ℕ)
    → n ≤ m
    → Graded lookup_pension_grade pension_grade_table n m
      × Graded lookup_health_grade health_grade_table n m
unfolding lookup_pension_grade lookup_health_grade
lookup_both_grades n m le =
    (lookup_grades n m pension_grade_table le refl, lookup_grades n m health_grade_table le refl)
