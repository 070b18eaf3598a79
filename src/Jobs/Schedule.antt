-- ===== src/Jobs/Schedule.antt =====
-- The moments of a schedule, the daily one and the weekly one (backend/app/services/job_scheduler.py).
use k_aikei.Prelude.{
  ℕ, ◌+◌, ◌-◌, ◌*◌, ◌%◌, min, ◌≡◌, ◌≤◌, ◌<◌, refl, ap, sym, ◌∙◌, Bool, true, false, Option, some,
  if◌then◌else◌, arith,
}
use k_aikei.Calendar.{
  DateTime, IsDate, month_length, hour_length, stamp, weekday, to_ordinal, next_day, add_days,
}
use k_aikei.Calendar.Days.{
  to_ordinal-next_day, next_day-IsDate, add_days-IsDate, to_ordinal-add_days, time-next_day,
  time-add_days,
}
use k_aikei.Jobs.{Frequency, daily, weekly, monthly, at_hour, is_past, days_ahead, next_weekly}

-- The days of a schedule.
abbrev pub IsRunDay : Frequency → Option ℕ → DateTime → Type 0
IsRunDay daily run_day d = Unit
IsRunDay weekly (some run_day) d = weekday d ≡ run_day
IsRunDay monthly (some run_day) d = d.day ≡ min run_day (month_length d.year d.month)
IsRunDay _ _ d = ⊥

-- The moments of a schedule.
abbrev pub IsRun : Frequency → ℕ → Option ℕ → DateTime → Type 0
IsRun frequency run_hour run_day d =
    IsDate d × (d.time ≡ run_hour * hour_length) × IsRunDay frequency run_day d

-- `r` is the first moment with `P` after `after`.
abbrev pub IsFirst : (DateTime → Type 0) → DateTime → DateTime → Type 0
IsFirst P after r =
    P r
    × (stamp after < stamp r)
    × ((d : DateTime) → P d → stamp after < stamp d → stamp r ≤ stamp d)

at_hour-IsDate : (d : DateTime) (h : ℕ) → IsDate d → h ≤ 23 → IsDate (at_hour d h)
at_hour-IsDate d h date le = record {
  year_from = date.year_from;
  month_from = date.month_from;
  month_to = date.month_to;
  day_from = date.day_from;
  day_to = date.day_to;
  time_to = omega (arith, le);
}

-- The test of `is_past` as an order of days and times.
pub past : (c a : DateTime) → is_past c a ≡ true → stamp c ≤ stamp a
past c a h = ground (arith, h)

pub not_past : (c a : DateTime) → is_past c a ≡ false → stamp a < stamp c
not_past c a h = ground (arith, h)

to_ordinal-at_hour : (d : DateTime) (h : ℕ) → to_ordinal (at_hour d h) ≡ to_ordinal d
unfolding to_ordinal
to_ordinal-at_hour d h = refl

-- A candidate that is over, and the next at the same hour some days later.
pub later_stamp :
    (after c r : DateTime) (step : ℕ)
    → 1 ≤ step
    → IsDate after
    → to_ordinal after ≤ to_ordinal c
    → to_ordinal r ≡ to_ordinal c + step
    → stamp after < stamp r
unfolding stamp
later_stamp after c r step some_days date from e = omega (arith, some_days, date.time_to, from, e)

-- Of two moments at the same hour the one with the later day is later.
pub same_hour :
    (r d : DateTime) (h : ℕ)
    → r.time ≡ h * hour_length
    → d.time ≡ h * hour_length
    → to_ordinal r ≤ to_ordinal d
    → stamp r ≤ stamp d
unfolding stamp
same_hour r d h tr td le = omega (arith, tr, td, le)

-- A moment after one that is over is on a later day.
pub later_day :
    (after c d : DateTime) (h : ℕ)
    → c.time ≡ h * hour_length
    → d.time ≡ h * hour_length
    → stamp c ≤ stamp after
    → stamp after < stamp d
    → to_ordinal c < to_ordinal d
unfolding stamp
later_day after c d h tc td over later = omega (arith, tc, td, over, later)

-- A moment after another is not on an earlier day.
pub not_earlier_day :
    (after d : DateTime) → IsDate d → stamp after < stamp d → to_ordinal after ≤ to_ordinal d
unfolding stamp
not_earlier_day after d date later = omega (arith, date.time_to, later)

pub next_daily-IsFirst :
    (h : ℕ) (o : Option ℕ) (after : DateTime) (is_over : Bool)
    → h ≤ 23
    → IsDate after
    → is_past (at_hour after h) after ≡ is_over
    → let c = at_hour after h in IsFirst (IsRun daily h o) after (if is_over then next_day c else c)
next_daily-IsFirst h o after true le date p =
    let c = at_hour after h in
    let hc = at_hour-IsDate after h date le in
    let tomorrow = to_ordinal-next_day c hc in
    (
      (next_day-IsDate c hc, time-next_day c, tt),
      later_stamp after c _ 1 (omega arith) date (omega (arith, to_ordinal-at_hour after h))
          tomorrow,
      λ d run later.
          same_hour _ d h (time-next_day c) run.1
            (omega (arith, tomorrow, later_day after c d h refl run.1 (past c after p) later)),
    )
next_daily-IsFirst h o after false le date p =
    let c = at_hour after h in
    (
      (at_hour-IsDate after h date le, refl, tt),
      not_past c after p,
      λ d run later.
          same_hour c d h refl run.1
            (omega (arith, to_ordinal-at_hour after h, not_earlier_day after d run.0 later)),
    )

-- Days of the week, on ordinals: `oc` is the first day from `oa` on with the wanted weekday.
week_day :
    (oa oc wanted : ℕ)
    → wanted ≤ 6
    → oc ≡ oa + (wanted + 7 - (oa + 6) % 7) % 7
    → (oc + 6) % 7 ≡ wanted
week_day oa oc wanted le e = omega (arith, le, e)

week_least :
    (oa oc od wanted : ℕ)
    → wanted ≤ 6
    → oc ≡ oa + (wanted + 7 - (oa + 6) % 7) % 7
    → (od + 6) % 7 ≡ wanted
    → oa ≤ od
    → oc ≤ od
week_least oa oc od wanted le e day from = omega (arith, le, e, day, from)

week_next : (oc od : ℕ) → (oc + 6) % 7 ≡ (od + 6) % 7 → oc < od → oc + 7 ≤ od
week_next oc od same lt = omega (arith, same, lt)

week_same : (oc : ℕ) → (oc + 7 + 6) % 7 ≡ (oc + 6) % 7
week_same oc = omega arith

-- The candidate of a week, and the same day a week later.
week-IsFirst :
    (h run_day : ℕ) (after c : DateTime) (is_over : Bool)
    → run_day ≤ 6
    → IsDate after
    → IsDate c
    → c.time ≡ h * hour_length
    → to_ordinal c ≡ to_ordinal after + days_ahead run_day after
    → is_past c after ≡ is_over
    → IsFirst (IsRun weekly h (some run_day)) after (if is_over then add_days 7 c else c)
unfolding weekday
week-IsFirst h run_day after c true days date hc time on p =
    let wanted = week_day (to_ordinal after) (to_ordinal c) run_day days on in
    let next = to_ordinal-add_days 7 c hc in
    let next_time = time-add_days 7 c ∙ time in
    (
      (
        add_days-IsDate 7 c hc,
        next_time,
        ap (λ n. (n + 6) % 7) next ∙ week_same (to_ordinal c) ∙ wanted,
      ),
      later_stamp after c _ 7 (omega arith) date (omega (arith, on)) next,
      λ d (_, at, day) later. same_hour _ d h next_time at (
          omega (
            arith,
            next,
            week_next (to_ordinal c) (to_ordinal d) (wanted ∙ sym day)
                (later_day after c d h time at (past c after p) later),
          )),
    )
week-IsFirst h run_day after c false days date hc time on p = (
  (hc, time, week_day (to_ordinal after) (to_ordinal c) run_day days on),
  not_past c after p,
  λ d (dd, at, day) later. same_hour c d h time at (
      week_least (to_ordinal after) (to_ordinal c) (to_ordinal d) run_day days on day
        (not_earlier_day after d dd later)),
)

pub next_weekly-IsFirst :
    (h run_day : ℕ) (after : DateTime)
    → h ≤ 23
    → run_day ≤ 6
    → IsDate after
    → IsFirst (IsRun weekly h (some run_day)) after (next_weekly h run_day after)
next_weekly-IsFirst h run_day after le days date =
    let day = add_days (days_ahead run_day after) after in
    week-IsFirst h run_day after (at_hour day h) _ days date
      (at_hour-IsDate day h (add_days-IsDate _ after date) le) refl
      (to_ordinal-at_hour day h ∙ to_ordinal-add_days _ after date) refl
