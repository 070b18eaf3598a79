-- ===== src/Jobs/NextRun.antt =====
-- When a job runs next, for every schedule (backend/app/services/job_scheduler.py).
use k_aikei.Prelude.{ℕ, ◌≢◌, ◌≤◌, inl, inr, refl, Option, none, some, ltb, leb, Bool-cases, arith}
use k_aikei.Calendar.{DateTime, IsDate}
use k_aikei.Jobs.{
  Frequency, daily, weekly, monthly, other, ScheduleError, out_of_rounds, next_run,
  compute_next_run,
}
use k_aikei.Jobs.Schedule.{IsRun, IsFirst, next_daily-IsFirst, next_weekly-IsFirst}
use k_aikei.Jobs.Monthly.{Returns, next_monthly-Returns}
use k_aikei.Result.{Result, ok, err}

-- A schedule that can be kept.
abbrev pub HasDay : Frequency → Option ℕ → Type 0
HasDay daily run_day = Unit
HasDay weekly (some run_day) = run_day ≤ 6
HasDay monthly (some run_day) = 1 ≤ run_day
HasDay _ _ = ⊥

abbrev pub IsSchedule : Frequency → ℕ → Option ℕ → Type 0
IsSchedule frequency run_hour run_day = (run_hour ≤ 23) × HasDay frequency run_day

-- The first run of the schedule after a moment, or an error because there is no such schedule.
abbrev pub Answers : Frequency → ℕ → Option ℕ → DateTime → Result ScheduleError DateTime → Type 0
Answers frequency run_hour run_day after (ok r) = IsFirst (IsRun frequency run_hour run_day) after r
Answers frequency run_hour run_day after (err e) =
    (¬ IsSchedule frequency run_hour run_day) × (e ≢ out_of_rounds)

monthly_answer :
    (h run_day : ℕ) (after : DateTime) (r : Result ScheduleError DateTime)
    → Returns (IsFirst (IsRun monthly h (some run_day)) after) r
    → Answers monthly h (some run_day) after r
monthly_answer h run_day after (ok r) first = first
monthly_answer h run_day after (err e) first = absurd first

next_run-Answers :
    (frequency : Frequency) (h : ℕ) (o : Option ℕ) (after : DateTime)
    → IsDate after
    → h ≤ 23
    → Answers frequency h o after (next_run frequency h o after)
unfolding next_run
next_run-Answers daily h o after date le = next_daily-IsFirst h o after _ le date refl
next_run-Answers weekly h none after date le = ((λ s. s.1), λ e. cc)
next_run-Answers weekly h (some run_day) after date le = elim (Bool-cases (leb run_day 6)) [
  | inl days ↦ rw days (next_weekly-IsFirst h run_day after le (ground (arith, days)) date)
  | inr days ↦ rw days ((λ s. ground (arith, days, s.1)), λ e. cc)
]
next_run-Answers monthly h none after date le = ((λ s. s.1), λ e. cc)
next_run-Answers monthly h (some run_day) after date le = elim (Bool-cases (ltb run_day 1)) [
  | inl days ↦ rw days ((λ s. ground (arith, days, s.1)), λ e. cc)
  | inr days ↦ rw days (
      monthly_answer h run_day after _
        (next_monthly-Returns h run_day after le (ground (arith, days)) date))
]
next_run-Answers other h o after date le = ((λ s. s.1), λ e. cc)

-- At every moment and for every schedule: if the hour and the day are those of a schedule, the result
-- is a moment of the schedule that is later than the given one, and no moment of the schedule is
-- between the two. An error is raised only if they are not, and the loop over the months always ends.
pub compute_next_run_lem :
    (frequency : Frequency) (run_hour : ℕ) (run_day : Option ℕ) (after : DateTime)
    → IsDate after
    → Answers frequency run_hour run_day after (compute_next_run frequency run_hour run_day after)
unfolding compute_next_run
compute_next_run_lem frequency run_hour run_day after date = elim (Bool-cases (leb run_hour 23)) [
  | inl hour ↦
      rw hour (next_run-Answers frequency run_hour run_day after date (ground (arith, hour)))
  | inr hour ↦ rw hour ((λ s. ground (arith, hour, s.0)), λ e. cc)
]
