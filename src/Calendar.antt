-- ===== src/Calendar.antt =====
-- The dates of the standard library: `datetime` in one time zone and `calendar.monthrange`. A moment is a
-- date and the microseconds of its day; moments are compared by the microseconds that are past, and the
-- last year 9999, after which the library raises, is not reached.
pub mod Days
use k_aikei.Prelude.{
  ℕ, zero, suc, ◌+◌, ◌-◌, ◌*◌, ◌/◌, ◌%◌, ◌≡◌, ◌≤◌, ◌<◌, ◌⊎◌, inl, inr, refl, ap, sym, ◌∙◌, Bool,
  true, false, not, ◌&&◌, ◌||◌, ltb, leb, ◌==◌, if◌then◌else◌, Bool-cases, arith,
}

pub record DateTime : Type 0 where
  pub year : ℕ
  pub month : ℕ
  pub day : ℕ
  pub time : ℕ

-- microseconds
abbrev pub hour_length : ℕ
hour_length = 3600000000

abbrev pub day_length : ℕ
day_length = 86400000000

unfoldable pub is_leap : ℕ → Bool
is_leap y = y % 4 == 0 && (not (y % 100 == 0) || y % 400 == 0)

-- `monthrange(year, month)[1]`
unfoldable pub month_length : ℕ → ℕ → ℕ
month_length y m =
    if m == 2
    then (if is_leap y then 29 else 28)
    else if m == 4 || m == 6 || m == 9 || m == 11
    then 30
    else 31

-- the days of the first months of a year
unfoldable pub sum_months : ℕ → ℕ → ℕ
sum_months y zero = 0
sum_months y (suc m) = sum_months y m + month_length y (suc m)

unfoldable pub days_before_year : ℕ → ℕ
days_before_year zero = 0
days_before_year (suc zero) = 0
days_before_year (suc (suc y)) = days_before_year (suc y) + sum_months (suc y) 12

-- `toordinal` and `weekday`
unfoldable pub to_ordinal : DateTime → ℕ
to_ordinal d = days_before_year d.year + sum_months d.year (d.month - 1) + d.day

unfoldable pub weekday : DateTime → ℕ
weekday d = (to_ordinal d + 6) % 7

unfoldable pub stamp : DateTime → ℕ
stamp d = to_ordinal d * day_length + d.time

unfoldable pub next_day : DateTime → DateTime
next_day d =
    if ltb d.day (month_length d.year d.month)
    then record d { day = d.day + 1 }
    else if ltb d.month 12
    then record d { month = d.month + 1; day = 1 }
    else record d { year = d.year + 1; month = 1; day = 1 }

-- `+ timedelta(days=n)`
unfoldable pub add_days : ℕ → DateTime → DateTime
add_days zero d = d
add_days (suc n) d = next_day (add_days n d)

pub record IsDate (d : DateTime) : Type 0 where
  pub year_from : 1 ≤ d.year
  pub month_from : 1 ≤ d.month
  pub month_to : d.month ≤ 12
  pub day_from : 1 ≤ d.day
  pub day_to : d.day ≤ month_length d.year d.month
  pub time_to : d.time < day_length
