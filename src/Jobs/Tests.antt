-- ===== src/Jobs/Tests.antt =====
-- Tests and witnesses for backend/app/services/job_scheduler.py and the jobs that it dispatches.
use k_aikei.Prelude.{
  ℕ, ◌+◌, ◌*◌, ◌≡◌, refl, Bool, true, false, Option, none, some, List, [], ◌∷◌, arith,
}
use k_aikei.Calendar.{
  DateTime, IsDate, is_leap, month_length, hour_length, sum_months, days_before_year, to_ordinal,
  stamp, next_day,
}
use k_aikei.Jobs.{Frequency, daily, monthly, compute_next_run, next_run, next_monthly}
use k_aikei.Jobs.NextRun.{Answers, compute_next_run_lem}
use k_aikei.Jobs.Executions.{new_execution, start_job_execution, started}
use k_aikei.Jobs.Lifecycle.{is_new, starts, IsSound, Lived-IsSound}
use k_aikei.Jobs.Worker.{Attempt, work, Ends, work-Ends}
use k_aikei.Jobs.Dispatch.{ScheduledJob, dispatch_due_jobs}
use k_aikei.Jobs.Dispatch.Once.{Dispatched, dispatch_due_jobs_lem}
use k_aikei.Result.{ok}

abbrev moment : ℕ → ℕ → ℕ → ℕ → DateTime
moment y m d hour = record { year = y; month = m; day = d; time = hour * hour_length }

abbrev january_31 : DateTime
january_31 = moment 2026 1 31 10

new_year : to_ordinal (moment 2 1 1 0) ≡ 366
unfolding to_ordinal days_before_year sum_months month_length is_leap
new_year = refl

leap_day : next_day (moment 2024 2 28 5) ≡ moment 2024 2 29 5
unfolding next_day month_length is_leap
leap_day = refl

january_31-IsDate : IsDate january_31
unfolding month_length
january_31-IsDate = record {
  year_from = omega arith;
  month_from = omega arith;
  month_to = omega arith;
  day_from = omega arith;
  day_to = omega arith;
  time_to = omega arith;
}

february : compute_next_run monthly 9 (some 31) january_31 ≡ ok (moment 2026 2 28 9)
unfolding compute_next_run next_run next_monthly stamp to_ordinal days_before_year sum_months
    month_length is_leap
february = refl

compute_next_run_lem_example :
    Answers monthly 9 (some 31) january_31 (compute_next_run monthly 9 (some 31) january_31)
compute_next_run_lem_example = compute_next_run_lem monthly 9 (some 31) january_31 january_31-IsDate

Lived-IsSound_example : IsSound (started january_31 (new_execution 1 7 january_31))
unfolding start_job_execution
Lived-IsSound_example = Lived-IsSound (
    starts january_31 (new_execution 1 7 january_31)
      (started january_31 (new_execution 1 7 january_31)) (is_new 1 7 january_31) refl)

abbrev try : Bool → Attempt
try success = record {
  start_at = january_31;
  end_at = january_31;
  success = success;
  message = none;
}

work-Ends_example :
    Ends
      (try false ∷ try false ∷ try false ∷ [])
      (work (try false ∷ try false ∷ try false ∷ []) (new_execution 1 7 january_31))
work-Ends_example =
    work-Ends (try false ∷ try false ∷ try false ∷ []) (new_execution 1 7 january_31) refl
      (omega arith) (omega arith)

abbrev job : ℕ → Frequency → Option ℕ → ScheduledJob
job id frequency run_day = record {
  scheduled_job_id = id;
  frequency = frequency;
  run_hour = 9;
  run_day = run_day;
  priority = 100 + id;
  is_active = true;
  last_run_at = none;
  next_run_at = some january_31;
}

abbrev table : List ScheduledJob
table = job 2 monthly (some 31) ∷ job 1 daily none ∷ []

dispatch_due_jobs_lem_example :
    Dispatched january_31 table [] (dispatch_due_jobs 1 january_31 table [])
dispatch_due_jobs_lem_example =
    dispatch_due_jobs_lem 1 january_31 table [] january_31-IsDate
      ((omega arith, omega arith), ((omega arith, tt), tt))
