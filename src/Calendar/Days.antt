-- ===== src/Calendar/Days.antt =====
-- The order of days and months (`datetime` of the standard library).
use k_aikei.Prelude.{
  ℕ, zero, suc, ◌+◌, ◌-◌, ◌≡◌, ◌≤◌, ◌<◌, ◌⊎◌, inl, inr, refl, ap, ◌∙◌, Bool, true, false, ltb,
  if◌then◌else◌, arith,
}
use k_aikei.Calendar.{
  DateTime, IsDate, month_length, sum_months, days_before_year, to_ordinal, next_day, add_days,
}

pub month_length_range : (y m : ℕ) → (28 ≤ month_length y m) × (month_length y m ≤ 31)
unfolding month_length
month_length_range y m = (ground arith, ground arith)

suc-sub_one : (m : ℕ) → suc m - 1 ≡ m
suc-sub_one m = omega arith

add_one : (n : ℕ) → n + 1 ≡ suc n
add_one n = omega arith

-- The days before a month that has a month before it.
pub sum_months_suc : (y m : ℕ) → 1 ≤ m → sum_months y m ≡ sum_months y (m - 1) + month_length y m
unfolding sum_months
sum_months_suc y zero h = elim h [ ]
sum_months_suc y (suc m) h = rw (suc-sub_one m) refl

pub days_before_year_suc :
    (y : ℕ) → 1 ≤ y → days_before_year (y + 1) ≡ days_before_year y + sum_months y 12
unfolding days_before_year
days_before_year_suc zero h = elim h [ ]
days_before_year_suc (suc y) h = rw (add_one (suc y)) refl

last_day : (a b : ℕ) → ltb a b ≡ false → a ≤ b → a ≡ b
last_day a b w h = ground (arith, w, h)

before_next : (m : ℕ) → m + 1 - 1 ≡ m
before_next m = omega arith

-- `next_day` for the answers of its two tests
abbrev day_after : Bool → Bool → DateTime → DateTime
day_after within earlier d =
    if within
    then record d { day = d.day + 1 }
    else if earlier
    then record d { month = d.month + 1; day = 1 }
    else record d { year = d.year + 1; month = 1; day = 1 }

to_ordinal-day_after :
    (d : DateTime)
    → IsDate d
    → (within earlier : Bool) → ltb d.day (month_length d.year d.month) ≡ within
    → ltb d.month 12 ≡ earlier
    → to_ordinal (day_after within earlier d) ≡ to_ordinal d + 1
unfolding to_ordinal sum_months
to_ordinal-day_after d h true earlier w e = omega arith
to_ordinal-day_after d h false true w e = omega (
  arith,
  last_day d.day _ w h.day_to,
  sum_months_suc d.year d.month h.month_from,
  ap (sum_months d.year) (before_next d.month),
)
to_ordinal-day_after d h false false w e =
    let december = last_day d.month 12 e h.month_to in
    omega (
      arith,
      last_day d.day _ w h.day_to,
      sum_months_suc d.year 12 (omega arith),
      ap (λ m. sum_months d.year (m - 1)) december,
      ap (month_length d.year) december,
      days_before_year_suc d.year h.year_from,
    )

pub to_ordinal-next_day : (d : DateTime) → IsDate d → to_ordinal (next_day d) ≡ to_ordinal d + 1
unfolding next_day
to_ordinal-next_day d h = to_ordinal-day_after d h _ _ refl refl

day_after-IsDate :
    (d : DateTime)
    → IsDate d
    → (within earlier : Bool) → ltb d.day (month_length d.year d.month) ≡ within
    → ltb d.month 12 ≡ earlier
    → IsDate (day_after within earlier d)
day_after-IsDate d h true earlier w e = record {
  year_from = h.year_from;
  month_from = h.month_from;
  month_to = h.month_to;
  day_from = omega arith;
  day_to = ground arith;
  time_to = h.time_to;
}
day_after-IsDate d h false true w e = record {
  year_from = h.year_from;
  month_from = omega arith;
  month_to = ground arith;
  day_from = omega arith;
  day_to = omega (arith, (month_length_range d.year (d.month + 1)).0);
  time_to = h.time_to;
}
day_after-IsDate d h false false w e = record {
  year_from = omega arith;
  month_from = omega arith;
  month_to = omega arith;
  day_from = omega arith;
  day_to = omega (arith, (month_length_range (d.year + 1) 1).0);
  time_to = h.time_to;
}

pub next_day-IsDate : (d : DateTime) → IsDate d → IsDate (next_day d)
unfolding next_day
next_day-IsDate d h = day_after-IsDate d h _ _ refl refl

pub add_days-IsDate : (n : ℕ) (d : DateTime) → IsDate d → IsDate (add_days n d)
unfolding add_days
add_days-IsDate zero d h = h
add_days-IsDate (suc n) d h = next_day-IsDate (add_days n d) (add_days-IsDate n d h)

pub to_ordinal-add_days :
    (n : ℕ) (d : DateTime) → IsDate d → to_ordinal (add_days n d) ≡ to_ordinal d + n
unfolding add_days
to_ordinal-add_days zero d h = omega arith
to_ordinal-add_days (suc n) d h =
    omega
      (arith, to_ordinal-next_day (add_days n d) (add_days-IsDate n d h), to_ordinal-add_days n d h)

time-day_after : (d : DateTime) (within earlier : Bool) → (day_after within earlier d).time ≡ d.time
time-day_after d true earlier = refl
time-day_after d false true = refl
time-day_after d false false = refl

pub time-next_day : (d : DateTime) → (next_day d).time ≡ d.time
unfolding next_day
time-next_day d = time-day_after d _ _

pub time-add_days : (n : ℕ) (d : DateTime) → (add_days n d).time ≡ d.time
unfolding add_days
time-add_days zero d = refl
time-add_days (suc n) d = time-next_day (add_days n d) ∙ time-add_days n d

-- Months in their order.
abbrev pub IsEarlierMonth : ℕ → ℕ → ℕ → ℕ → Type 0
IsEarlierMonth y m y' m' = (y < y') ⊎ ((y ≡ y') × (m < m'))

grows_by :
    (f : ℕ → ℕ) (from : ℕ)
    → ((n : ℕ) → from ≤ n → f n ≤ f (n + 1))
    → (n k : ℕ) → from ≤ n
    → f n ≤ f (n + k)
grows_by f from step n zero h = omega (arith, ap f (plus_none n))
  where
    plus_none : (n : ℕ) → n + 0 ≡ n
    plus_none n = omega arith
grows_by f from step n (suc k) h =
    omega (arith, grows_by f from step n k h, step (n + k) (omega arith), ap f (plus_suc n k))
  where
    plus_suc : (n k : ℕ) → n + suc k ≡ n + k + 1
    plus_suc n k = omega arith

-- A function that never falls from one number to the next.
grows :
    (f : ℕ → ℕ) (from : ℕ)
    → ((n : ℕ) → from ≤ n → f n ≤ f (n + 1))
    → (n m : ℕ) → from ≤ n
    → n ≤ m
    → f n ≤ f m
grows f from step n m h le =
    omega (arith, grows_by f from step n (m - n) h, ap f (plus_difference n m le))
  where
    plus_difference : (n m : ℕ) → n ≤ m → n + (m - n) ≡ m
    plus_difference n m le = omega (arith, le)

sum_months_grows : (y m m' : ℕ) → m ≤ m' → sum_months y m ≤ sum_months y m'
sum_months_grows y m m' le = grows (sum_months y) 0 one_more m m' (omega arith) le
  where
    one_more : (n : ℕ) → 0 ≤ n → sum_months y n ≤ sum_months y (n + 1)
    one_more n h = omega (
      arith,
      sum_months_suc y (n + 1) (omega arith),
      ap (sum_months y) (before_next n),
      month_length_range y (n + 1),
    )

days_before_year_grows : (y y' : ℕ) → 1 ≤ y → y ≤ y' → days_before_year y ≤ days_before_year y'
days_before_year_grows y y' h le =
    grows days_before_year 1 (λ n from. omega (arith, days_before_year_suc n from)) y y' h le

-- Days of an earlier month come first.
pub earlier_month-to_ordinal :
    (d e : DateTime)
    → IsDate d
    → IsDate e
    → IsEarlierMonth d.year d.month e.year e.month
    → to_ordinal d < to_ordinal e
unfolding to_ordinal
earlier_month-to_ordinal d e hd he (inl year) = omega (
  arith,
  hd.day_to,
  he.day_from,
  sum_months_suc d.year d.month hd.month_from,
  sum_months_grows d.year d.month 12 hd.month_to,
  days_before_year_suc d.year hd.year_from,
  days_before_year_grows (d.year + 1) e.year (omega arith) (omega (arith, year)),
)
earlier_month-to_ordinal d e hd he (inr (year, month)) = omega (
  arith,
  hd.day_to,
  he.day_from,
  sum_months_suc d.year d.month hd.month_from,
  sum_months_grows d.year d.month (e.month - 1) (omega (arith, month)),
  ap days_before_year year,
  ap (λ y. sum_months y (e.month - 1)) year,
)
