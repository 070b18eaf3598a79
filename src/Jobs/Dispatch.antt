-- ===== src/Jobs/Dispatch.antt =====
-- backend/app/services/job_dispatch.py, with is_due and select_due_jobs of job_scheduler.py. A time of
-- `now` is an argument, and so are the numbers that new executions get.
pub mod Ripe
pub mod Created
pub mod Order
pub mod Once
use k_aikei.Prelude.{
  ℕ, suc, ◌+◌, Bool, true, false, not, ◌&&◌, Option, none, some, List, [], ◌∷◌, ◌++◌, map, keep_if,
  leb, ◌==◌, if◌then◌else◌,
}
use k_aikei.Prelude.Sorting.{sort_by}
use k_aikei.Calendar.{DateTime, stamp}
use k_aikei.Jobs.{Frequency, ScheduleError, compute_next_run}
use k_aikei.Jobs.Executions.{JobExecution, can_claim, running_count, new_execution}
use k_aikei.Result.{Result, ok, err, ◌>>=◌}

-- The columns of a scheduled job that are read or written.
pub record ScheduledJob : Type 0 where
  pub scheduled_job_id : ℕ
  pub frequency : Frequency
  pub run_hour : ℕ
  pub run_day : Option ℕ
  pub priority : ℕ
  pub is_active : Bool
  pub last_run_at : Option DateTime
  pub next_run_at : Option DateTime

abbrev pub is_due : Option DateTime → DateTime → Bool
is_due none now = false
is_due (some at) now = leb (stamp at) (stamp now)

abbrev pub is_selected : DateTime → ScheduledJob → Bool
is_selected now job = job.is_active && is_due job.next_run_at now

abbrev pub before : ScheduledJob → ScheduledJob → Bool
before a b = leb a.priority b.priority

unfoldable pub select_due_jobs : List ScheduledJob → DateTime → List ScheduledJob
select_due_jobs jobs now = sort_by before (keep_if (is_selected now) jobs)

-- the two assignments to `job`, in the table
abbrev pub rescheduled : ℕ → DateTime → DateTime → ScheduledJob → ScheduledJob
rescheduled id now at job =
    if job.scheduled_job_id == id
    then record job { last_run_at = some now; next_run_at = some at }
    else job

-- the tables, and the executions that were created
pub record JobTables : Type 0 where
  pub jobs : List ScheduledJob
  pub executions : List JobExecution
  pub created : List JobExecution

-- one claimed job
abbrev pub create : ℕ → DateTime → ScheduledJob → JobTables → DateTime → JobTables
create id now job t at =
    let execution = new_execution id job.scheduled_job_id now in
    record {
      jobs = map (rescheduled job.scheduled_job_id now at) t.jobs;
      executions = execution ∷ t.executions;
      created = t.created ++ (execution ∷ []);
    }

-- the loop over the due jobs
unfoldable pub dispatch_all :
    ℕ → DateTime → List ScheduledJob → JobTables → Result ScheduleError JobTables
dispatch_all id now [] t = ok t
dispatch_all id now (job ∷ due) t =
    if not (can_claim (running_count job.scheduled_job_id t.executions))
    then dispatch_all id now due t
    else compute_next_run job.frequency job.run_hour job.run_day now >>= λ at.
        dispatch_all (suc id) now due (create id now job t at)

unfoldable pub dispatch_due_jobs :
    ℕ → DateTime → List ScheduledJob → List JobExecution → Result ScheduleError JobTables
dispatch_due_jobs id now jobs executions =
    dispatch_all id now (select_due_jobs jobs now)
      record { jobs = jobs; executions = executions; created = [] }
