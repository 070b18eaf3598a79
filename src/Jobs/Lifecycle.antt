-- ===== src/Jobs/Lifecycle.antt =====
-- The history of one execution (backend/app/api/v1/endpoints/jobs.py).
use k_aikei.Prelude.{
  ℕ, ◌≡◌, ◌≤◌, ◌<◌, inl, inr, refl, ◌∙◌, Bool, true, false, not, Option, none, some, String, leb,
  if◌then◌else◌, Bool-cases, arith,
}
use k_aikei.Calendar.{DateTime}
use k_aikei.Jobs.Executions.{
  JobStatus, pending, running, succeeded, failed_retry, dead, JobExecution, is_terminal, Conflict,
  terminal_status, next_status, can_start, start_job_execution, complete_job_execution,
  complete_with, completion, started, new_execution,
}
use k_aikei.Result.{Result, ok, err}
use mathlib.Core.Path.{subst}

-- An execution after requests to start and complete it, those that are refused left out.
pub data Lived : JobExecution → Type 0 where
  is_new : (id job : ℕ) (now : DateTime) → Lived (new_execution id job now)
  starts :
      (now : DateTime) (e e' : JobExecution)
      → Lived e
      → start_job_execution now e ≡ ok e'
      → Lived e'
  completes :
      (now : DateTime) (success : Bool) (message : Option String) (e e' : JobExecution)
      → Lived e
      → complete_job_execution now success message e ≡ ok e'
      → Lived e'

abbrev pub is_set : Option DateTime → Bool
is_set none = false
is_set (some at) = true

-- At most three attempts, fewer while another may start; an end is set exactly for a terminal status.
pub record IsSound (e : JobExecution) : Type 0 where
  pub three : e.max_attempts ≡ 3
  pub attempts : e.attempt_count ≤ 3
  pub one_left : can_start e.status ≡ true → e.attempt_count < 3
  pub ended : is_set e.finished_at ≡ is_terminal e.status

served :
    {A : Type 0} (refused : Bool) (c : Conflict) (x y : A)
    → (if refused then err c else ok x) ≡ ok y
    → (refused ≡ false) × (x ≡ y)
served true c x y h = cc
served false c x y h = (refl, cc)

pub start_lem :
    (now : DateTime) (e e' : JobExecution)
    → start_job_execution now e ≡ ok e'
    → (not (can_start e.status) ≡ false) × (started now e ≡ e')
unfolding start_job_execution
start_lem now e e' run = served _ _ _ _ run

start-IsSound :
    (now : DateTime) (e e' : JobExecution)
    → IsSound e
    → start_job_execution now e ≡ ok e'
    → IsSound e'
start-IsSound now e e' s run =
    let (may, same) = start_lem now e e' run in
    subst IsSound same record {
      three = s.three;
      attempts = omega (arith, s.one_left (not_not _ may));
      one_left = λ h. cc;
      ended = s.ended ∙ startable (e.status) may;
    }
  where
    not_not : (b : Bool) → not b ≡ false → b ≡ true
    not_not true h = refl
    not_not false h = cc

    startable : (st : JobStatus) → not (can_start st) ≡ false → is_terminal st ≡ false
    startable pending h = refl
    startable running h = refl
    startable succeeded h = cc
    startable failed_retry h = refl
    startable dead h = cc

-- The status after a completion: done, given up after all attempts, or to be tried again.
pub data Next (success : Bool) (e : JobExecution) : JobStatus → Type 0 where
  done : success ≡ true → Next success e succeeded
  gives_up : success ≡ false → e.max_attempts ≤ e.attempt_count → Next success e dead
  tries_again : success ≡ false → e.attempt_count < e.max_attempts → Next success e failed_retry

next_status-Next :
    (success : Bool) (e : JobExecution) (st : JobStatus)
    → next_status e.status success e.attempt_count e.max_attempts ≡ ok st
    → Next success e st
unfolding next_status
next_status-Next true e st run =
    subst (Next true e) (served (is_terminal e.status) _ _ _ run).1 (done refl)
next_status-Next false e st run = elim (Bool-cases (leb e.max_attempts e.attempt_count)) [
  | inl enough ↦
      subst (Next false e) (served (is_terminal e.status) _ _ _ (rw enough at run)).1
        (gives_up refl (ground (arith, enough)))
  | inr fewer ↦
      subst (Next false e) (served (is_terminal e.status) _ _ _ (rw fewer at run)).1
        (tries_again refl (ground (arith, fewer)))
]

completion-IsSound :
    (now : DateTime) (success : Bool) (message : Option String) (e : JobExecution) (st : JobStatus)
    → IsSound e
    → Next success e st
    → IsSound (completion now success message e st)
completion-IsSound now success message e _ s (done _) = record {
  three = s.three;
  attempts = s.attempts;
  one_left = λ h. cc;
  ended = refl;
}
completion-IsSound now success message e _ s (gives_up _ _) = record {
  three = s.three;
  attempts = s.attempts;
  one_left = λ h. cc;
  ended = refl;
}
completion-IsSound now success message e _ s (tries_again _ fewer) = record {
  three = s.three;
  attempts = s.attempts;
  one_left = λ h. omega (arith, s.three, fewer);
  ended = refl;
}

complete-IsSound :
    (now : DateTime) (success : Bool) (message : Option String) (e e' : JobExecution)
    → IsSound e
    → complete_job_execution now success message e ≡ ok e'
    → IsSound e'
unfolding complete_job_execution
complete-IsSound now success message e e' s run =
    from_answer (next_status e.status success e.attempt_count e.max_attempts) refl run
  where
    from_answer :
        (answer : Result Conflict JobStatus)
        → next_status e.status success e.attempt_count e.max_attempts ≡ answer
        → complete_with now success message e answer ≡ ok e'
        → IsSound e'
    from_answer (err c) asked run = cc
    from_answer (ok st) asked run =
        subst IsSound (served false terminal_status _ _ run).1
          (completion-IsSound now success message e st s (next_status-Next success e st asked))

-- In whatever order an execution is started and completion: it is attempted at most three times, it can
-- be started again only if it was attempted fewer times, and the time of its end is set exactly if its
-- status is one of the two last.
pub Lived-IsSound : {e : JobExecution} → Lived e → IsSound e
Lived-IsSound (is_new id job now) = record {
  three = refl;
  attempts = omega arith;
  one_left = λ h. omega arith;
  ended = refl;
}
Lived-IsSound (starts now e e' before run) = start-IsSound now e e' (Lived-IsSound before) run
Lived-IsSound (completes now success message e e' before run) =
    complete-IsSound now success message e e' (Lived-IsSound before) run
