-- ===== src/Jobs/Dispatch/Created.antt =====
-- The executions that the loop over the due jobs adds to the table
-- (backend/app/services/job_dispatch.py).
use k_aikei.Prelude.{ℕ, suc, ◌≡◌, refl, ap, ◌∙◌, List, [], ◌∷◌, ◌++◌, All, inl, inr, Bool-cases}
use k_aikei.Calendar.{DateTime}
use k_aikei.Jobs.{ScheduleError, compute_next_run}
use k_aikei.Jobs.Executions.{JobExecution, JobStatus, new_execution}
use k_aikei.Jobs.Dispatch.{ScheduledJob, JobTables, create, dispatch_all}
use k_aikei.Jobs.Dispatch.Ripe.{claimable}
use k_aikei.Result.{Result, ok, err, ◌>>=◌}

-- An execution that waits to be started, for the moment of the dispatch.
abbrev pub IsWaiting : DateTime → JobExecution → Type 0
IsWaiting now e = (e.status ≡ JobStatus.pending) × (e.scheduled_for ≡ now)

-- The table with executions added, the last first.
abbrev pub with_created : List JobExecution → List JobExecution → List JobExecution
with_created [] es = es
with_created (e ∷ created) es = with_created created (e ∷ es)

-- What the loop has added between two states of the tables.
abbrev Added : DateTime → JobTables → Result ScheduleError JobTables → Type 0
Added now t (err e) = Unit {0}
Added now t (ok t') =
    (new : List JobExecution) × (t'.created ≡ t.created ++ new)
    × (t'.executions ≡ with_created new t.executions)
    × All (IsWaiting now) new

nothing_more : (es : List JobExecution) → es ≡ es ++ []
nothing_more [] = refl
nothing_more (e ∷ es) = ap (λ l. e ∷ l) (nothing_more es)

one_more :
    (before : List JobExecution) (e : JobExecution) (new : List JobExecution)
    → (before ++ (e ∷ [])) ++ new ≡ before ++ (e ∷ new)
one_more [] e new = refl
one_more (x ∷ before) e new = ap (λ l. x ∷ l) (one_more before e new)

created-Added :
    (id : ℕ) (now at : DateTime) (d : ScheduledJob) (t : JobTables)
    (r : Result ScheduleError JobTables)
    → Added now (create id now d t at) r
    → Added now t r
created-Added id now at d t (err e) h = tt
created-Added id now at d t (ok t') (new, created, stored, waiting) = (
  new_execution id d.scheduled_job_id now ∷ new,
  created ∙ one_more t.created (new_execution id d.scheduled_job_id now) new,
  stored,
  ((refl, refl), waiting),
)

after_next_run :
    (now : DateTime) (t : JobTables) (at : Result ScheduleError DateTime)
    (rest : DateTime → Result ScheduleError JobTables)
    → ((next : DateTime) → Added now t (rest next))
    → Added now t (at >>= rest)
after_next_run now t (ok next) rest h = h next
after_next_run now t (err e) rest h = tt

dispatch_all-Added :
    (id : ℕ) (now : DateTime) (due : List ScheduledJob) (t : JobTables)
    → Added now t (dispatch_all id now due t)
unfolding dispatch_all
dispatch_all-Added id now [] t = ([], nothing_more t.created, refl, tt)
dispatch_all-Added id now (d ∷ due) t = elim (Bool-cases (claimable t.executions d)) [
  | inr busy ↦ rw busy (dispatch_all-Added id now due t)
  | inl free ↦ rw free (
      after_next_run now t (compute_next_run d.frequency d.run_hour d.run_day now) _ (λ at.
        created-Added id now at d t _ (dispatch_all-Added (suc id) now due (create id now d t at))))
]

-- From tables in which nothing was created yet.
abbrev pub Stored : DateTime → List JobExecution → Result ScheduleError JobTables → Type 0
Stored now es (err e) = Unit {0}
Stored now es (ok t) = (t.executions ≡ with_created t.created es) × All (IsWaiting now) t.created

Added-Stored :
    (now : DateTime) (jobs : List ScheduledJob) (es : List JobExecution)
    (r : Result ScheduleError JobTables)
    → Added now (record { jobs = jobs; executions = es; created = [] }) r
    → Stored now es r
Added-Stored now jobs es (err e) h = tt
Added-Stored now jobs es (ok t) (new, created, stored, waiting) = rw created (stored, waiting)

pub dispatch_all-Stored :
    (id : ℕ) (now : DateTime) (due jobs : List ScheduledJob) (es : List JobExecution)
    → Stored now es
        (dispatch_all id now due (record { jobs = jobs; executions = es; created = [] }))
dispatch_all-Stored id now due jobs es =
    Added-Stored now jobs es _ (dispatch_all-Added id now due _)
