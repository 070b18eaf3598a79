-- ===== src/Jobs/Worker.antt =====
-- A worker that starts and completes an execution until its last status
-- (backend/app/api/v1/endpoints/jobs.py).
use k_aikei.Prelude.{
  ◌+◌, ◌≡◌, ◌≤◌, ◌<◌, ◌⊎◌, inl, inr, refl, Bool, true, false, Option, String, List, [], ◌∷◌, length,
  any, leb, if◌then◌else◌, arith,
}
use k_aikei.Calendar.{DateTime}
use k_aikei.Jobs.Executions.{
  JobStatus, pending, running, succeeded, failed_retry, dead, JobExecution, is_terminal, Conflict,
  next_status, can_start, started, completion, complete_with, start_job_execution,
  complete_job_execution,
}
use k_aikei.Result.{Result, ok, err, ◌>>=◌}

-- One attempt: its start and its end, whether it succeeds, and its message.
pub record Attempt : Type 0 where
  pub start_at : DateTime
  pub end_at : DateTime
  pub success : Bool
  pub message : Option String

unfoldable pub attempt : Attempt → JobExecution → Result Conflict JobExecution
attempt a e =
    start_job_execution a.start_at e >>= complete_job_execution a.end_at a.success a.message

-- Attempts are made as long as the status is not one of the two last.
unfoldable pub work : List Attempt → JobExecution → Result Conflict JobExecution
work [] e = ok e
work (a ∷ as') e = if is_terminal e.status then ok e else attempt a e >>= work as'

abbrev pub any_success : List Attempt → Bool
any_success as' = any (λ a. a.success) as'

-- The status after an attempt, and the execution.
abbrev status_after : Bool → Bool → JobStatus
status_after success last = if success then succeeded else if last then dead else failed_retry

abbrev after_attempt : Attempt → Bool → JobExecution → JobExecution
after_attempt a last e =
    completion a.end_at a.success a.message (started a.start_at e) (status_after a.success last)

answered :
    (now : DateTime) (message : Option String) (e : JobExecution) (success last : Bool)
    → complete_with now success message e
        (if success then ok succeeded else if last then ok dead else ok failed_retry)
      ≡ ok (completion now success message e (status_after success last))
answered now message e true last = refl
answered now message e false true = refl
answered now message e false false = refl

attempt_lem :
    (a : Attempt) (e : JobExecution)
    → can_start e.status ≡ true
    → attempt a e ≡ ok (after_attempt a (leb e.max_attempts (e.attempt_count + 1)) e)
unfolding attempt start_job_execution complete_job_execution next_status
attempt_lem a e may = rw may (answered a.end_at a.message (started a.start_at e) a.success _)

work-terminal :
    (as' : List Attempt) (e : JobExecution) → is_terminal e.status ≡ true → work as' e ≡ ok e
unfolding work
work-terminal [] e last = refl
work-terminal (a ∷ as') e last = rw last refl

-- Some attempt succeeded and the last status is `succeeded`, or all attempts that there are were used.
abbrev pub Ends : List Attempt → Result Conflict JobExecution → Type 0
Ends as' (err c) = ⊥
Ends as' (ok e) =
    (e.status ≡ succeeded) × (any_success as' ≡ true)
    ⊎ (e.status ≡ dead) × (e.attempt_count ≡ e.max_attempts)

Ends-more :
    (a : Attempt) (as' : List Attempt) (r : Result Conflict JobExecution)
    → Ends as' r
    → Ends (a ∷ as') r
Ends-more a as' (ok e) (inl (done, some_one)) = inl (done, ground (arith, some_one))
Ends-more a as' (ok e) (inr given_up) = inr given_up
Ends-more a as' (err c) h = absurd h

startable : (st : JobStatus) → can_start st ≡ true → is_terminal st ≡ false
startable pending h = refl
startable running h = refl
startable succeeded h = cc
startable failed_retry h = refl
startable dead h = cc

after-Ends :
    (a : Attempt) (as' : List Attempt) (e : JobExecution) (success last : Bool)
    → a.success ≡ success
    → leb e.max_attempts (e.attempt_count + 1) ≡ last
    → e.attempt_count < e.max_attempts
    → e.max_attempts ≤ e.attempt_count + length (a ∷ as')
    → ((e' : JobExecution)
        → can_start e'.status ≡ true
        → e'.attempt_count < e'.max_attempts
        → e'.max_attempts ≤ e'.attempt_count + length as'
        → Ends as' (work as' e'))
    → Ends (a ∷ as') (
        work as' (
          completion a.end_at a.success a.message
            (started a.start_at e)
            (status_after success last)))
after-Ends a as' e true last s l left enough rest =
    rw
      (work-terminal as' (completion a.end_at a.success a.message (started a.start_at e) succeeded)
        refl)
      (inl (refl, ground (arith, s)))
after-Ends a as' e false true s l left enough rest =
    rw
      (work-terminal as' (completion a.end_at a.success a.message (started a.start_at e) dead) refl)
      (inr (refl, ground (arith, l, left)))
after-Ends a as' e false false s l left enough rest =
    Ends-more a as' _ (rest _ refl (ground (arith, l, left)) (omega (arith, enough)))

-- A worker that tries an execution that can be started always comes to an end if it is given as many
-- attempts as are left, whatever their outcomes: the execution has succeeded in one of them, or it is
-- given up, and then only after all attempts that its row allows.
pub work-Ends :
    (as' : List Attempt) (e : JobExecution)
    → can_start e.status ≡ true
    → e.attempt_count < e.max_attempts
    → e.max_attempts ≤ e.attempt_count + length as'
    → Ends as' (work as' e)
unfolding work
work-Ends [] e may left enough = absurd (omega (arith, left, enough))
work-Ends (a ∷ as') e may left enough =
    rw (startable e.status may, attempt_lem a e may)
      (after-Ends a as' e a.success (leb e.max_attempts (e.attempt_count + 1)) refl refl left enough
        (work-Ends as'))
