-- ===== src/Jobs.antt =====
-- backend/app/services/job_scheduler.py: when a job runs next, and what becomes of an execution. Moments
-- are in UTC. Negative hours and days, which are refused like the others out of range, are left out.
pub mod Schedule
pub mod Monthly
pub mod NextRun
pub mod Executions
pub mod Lifecycle
pub mod Worker
pub mod Dispatch
mod Tests
use k_aikei.Prelude.{
  ℕ, zero, suc, ◌+◌, ◌-◌, ◌*◌, ◌%◌, min, Bool, true, false, not, ◌&&◌, ◌||◌, Option, none, some,
  ltb, leb, ◌==◌, if◌then◌else◌,
}
use k_aikei.Calendar.{DateTime, month_length, hour_length, stamp, weekday, next_day, add_days}
use k_aikei.Result.{Result, ok, err}

-- the texts that `frequency` is compared with, and all others
pub data Frequency : Type 0 where
  daily weekly monthly other : Frequency

-- The errors that are raised, and a loop that has run out of rounds.
pub data ScheduleError : Type 0 where
  invalid_run_hour invalid_run_day unsupported_frequency out_of_rounds : ScheduleError

-- `_build_datetime` on the day of a moment
abbrev pub at_hour : DateTime → ℕ → DateTime
at_hour d run_hour = record d { time = run_hour * hour_length }

abbrev pub build_datetime : ℕ → ℕ → ℕ → ℕ → DateTime
build_datetime y m d run_hour = record {
  year = y;
  month = m;
  day = d;
  time = run_hour * hour_length;
}

-- `candidate <= after`
abbrev pub is_past : DateTime → DateTime → Bool
is_past candidate after = leb (stamp candidate) (stamp after)

abbrev pub next_daily : ℕ → DateTime → DateTime
next_daily run_hour after =
    let candidate = at_hour after run_hour in
    if is_past candidate after then next_day candidate else candidate

-- `(run_day - after.weekday()) % 7`, of a difference that may be negative
abbrev pub days_ahead : ℕ → DateTime → ℕ
days_ahead run_day after = (run_day + 7 - weekday after) % 7

abbrev pub next_weekly : ℕ → ℕ → DateTime → DateTime
next_weekly run_hour run_day after =
    let candidate = at_hour (add_days (days_ahead run_day after) after) run_hour in
    if is_past candidate after then add_days 7 candidate else candidate

-- the rounds of `while True`; `_add_month` is in the last clause
unfoldable pub next_monthly : ℕ → ℕ → ℕ → DateTime → ℕ → ℕ → Result ScheduleError DateTime
next_monthly zero run_hour run_day after y m = err out_of_rounds
next_monthly (suc rounds) run_hour run_day after y m =
    let candidate = build_datetime y m (min run_day (month_length y m)) run_hour in
    let later =
      if m == 12
      then next_monthly rounds run_hour run_day after (y + 1) 1
      else next_monthly rounds run_hour run_day after y (m + 1) in
    if is_past candidate after then later else ok candidate

-- The rounds that are given: a run in the month after is always later than a moment in this one.
abbrev pub rounds : ℕ
rounds = 2

-- the part of `compute_next_run` for a valid hour
unfoldable pub next_run : Frequency → ℕ → Option ℕ → DateTime → Result ScheduleError DateTime
next_run daily run_hour run_day after = ok (next_daily run_hour after)
next_run weekly run_hour none after = err invalid_run_day
next_run weekly run_hour (some run_day) after =
    if leb run_day 6 then ok (next_weekly run_hour run_day after) else err invalid_run_day
next_run monthly run_hour none after = err invalid_run_day
next_run monthly run_hour (some run_day) after =
    if ltb run_day 1
    then err invalid_run_day
    else next_monthly rounds run_hour run_day after after.year after.month
next_run other run_hour run_day after = err unsupported_frequency

unfoldable pub compute_next_run :
    Frequency → ℕ → Option ℕ → DateTime → Result ScheduleError DateTime
compute_next_run frequency run_hour run_day after =
    if leb run_hour 23 then next_run frequency run_hour run_day after else err invalid_run_hour
