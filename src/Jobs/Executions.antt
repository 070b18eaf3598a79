-- ===== src/Jobs/Executions.antt =====
-- The life of a job execution: run_scheduled_job, start_job_execution and complete_job_execution of
-- backend/app/api/v1/endpoints/jobs.py, after the rows are found, with next_status and can_claim of
-- backend/app/services/job_scheduler.py.
use k_aikei.Prelude.{
  ℕ, ◌+◌, Bool, true, false, not, ◌&&◌, Option, none, some, String, List, [], ◌∷◌, leb, ◌==◌,
  if◌then◌else◌,
}
use k_aikei.Calendar.{DateTime}
use k_aikei.Result.{Result, ok, err}

pub data JobStatus : Type 0 where
  pending running succeeded failed_retry dead : JobStatus

pub record JobExecution : Type 0 where
  pub job_execution_id : ℕ
  pub scheduled_job_id : ℕ
  pub status : JobStatus
  pub attempt_count : ℕ
  pub max_attempts : ℕ
  pub scheduled_for : DateTime
  pub started_at : Option DateTime
  pub finished_at : Option DateTime
  pub error_message : Option String

abbrev pub is_terminal : JobStatus → Bool
is_terminal succeeded = true
is_terminal dead = true
is_terminal _ = false

-- The status of the answer 409.
pub data Conflict : Type 0 where
  already_running cannot_start terminal_status : Conflict

unfoldable pub next_status : JobStatus → Bool → ℕ → ℕ → Result Conflict JobStatus
next_status current success attempts max_attempts =
    if is_terminal current
    then err terminal_status
    else if success
    then ok succeeded
    else if leb max_attempts attempts
    then ok dead
    else ok failed_retry

abbrev pub can_start : JobStatus → Bool
can_start pending = true
can_start failed_retry = true
can_start _ = false

-- the assignments of `start_job_execution`
abbrev pub started : DateTime → JobExecution → JobExecution
started now e = record e {
  status = running;
  attempt_count = e.attempt_count + 1;
  started_at = some now;
}

unfoldable pub start_job_execution : DateTime → JobExecution → Result Conflict JobExecution
start_job_execution now e =
    if not (can_start e.status) then err cannot_start else ok (started now e)

-- the assignments of `complete_job_execution`
abbrev pub completion : DateTime → Bool → Option String → JobExecution → JobStatus → JobExecution
completion now success message e new_status = record e {
  status = new_status;
  error_message = if success then none else message;
  finished_at = if is_terminal new_status then some now else none;
}

abbrev pub complete_with :
    DateTime
    → Bool
    → Option String
    → JobExecution
    → Result Conflict JobStatus
    → Result Conflict JobExecution
complete_with now success message e (ok new_status) =
    ok (completion now success message e new_status)
complete_with now success message e (err c) = err c

unfoldable pub complete_job_execution :
    DateTime → Bool → Option String → JobExecution → Result Conflict JobExecution
complete_job_execution now success message e =
    complete_with now success message e
      (next_status e.status success e.attempt_count e.max_attempts)

-- the count of running executions of a job
abbrev pub is_running : JobStatus → Bool
is_running running = true
is_running _ = false

unfoldable pub running_count : ℕ → List JobExecution → ℕ
running_count job [] = 0
running_count job (e ∷ es) =
    (if e.scheduled_job_id == job && is_running e.status then 1 else 0) + running_count job es

abbrev pub can_claim : ℕ → Bool
can_claim count = count == 0

-- `JobExecution(...)` with the defaults of its columns
abbrev pub new_execution : ℕ → ℕ → DateTime → JobExecution
new_execution id job now = record {
  job_execution_id = id;
  scheduled_job_id = job;
  status = pending;
  attempt_count = 0;
  max_attempts = 3;
  scheduled_for = now;
  started_at = none;
  finished_at = none;
  error_message = none;
}

unfoldable pub run_scheduled_job :
    DateTime → ℕ → ℕ → List JobExecution → Result Conflict (List JobExecution)
run_scheduled_job now id job es =
    if not (can_claim (running_count job es))
    then err already_running
    else ok (new_execution id job now ∷ es)
