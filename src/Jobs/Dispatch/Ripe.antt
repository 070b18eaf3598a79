-- ===== src/Jobs/Dispatch/Ripe.antt =====
-- The loop over the due jobs (backend/app/services/job_dispatch.py).
use k_aikei.Prelude.{
  ℕ, suc, ◌≡◌, ◌<◌, ◌⊎◌, refl, ap, sym, ◌∙◌, Bool, true, false, ◌&&◌, ◌||◌, some, List, [], ◌∷◌,
  ◌++◌, map, any, keep_if, All, inl, inr, ◌==◌, if◌then◌else◌, Bool-cases, arith,
}
use k_aikei.Calendar.{DateTime, IsDate, stamp}
use k_aikei.Jobs.{ScheduleError, compute_next_run}
use k_aikei.Jobs.NextRun.{IsSchedule, Answers, compute_next_run_lem}
use k_aikei.Jobs.Executions.{JobExecution, can_claim, running_count, new_execution}
use k_aikei.Jobs.Dispatch.{
  ScheduledJob, JobTables, is_due, is_selected, before, rescheduled, create, dispatch_all,
}
use k_aikei.Result.{Result, ok, err}

abbrev pub claimable : List JobExecution → ScheduledJob → Bool
claimable es job = can_claim (running_count job.scheduled_job_id es)

abbrev pub has_id : ℕ → ScheduledJob → Bool
has_id id job = job.scheduled_job_id == id

-- Due and free to run.
abbrev pub is_ripe : DateTime → List JobExecution → ScheduledJob → Bool
is_ripe now es job = is_selected now job && claimable es job

-- Every ripe row of the table has its number in a list.
abbrev pub Covered : DateTime → List JobExecution → List ScheduledJob → List ScheduledJob → Type 0
Covered now es due jobs =
    All (λ j. is_ripe now es j ≡ true → any (has_id j.scheduled_job_id) due ≡ true) jobs

running_count-new :
    (id job k : ℕ) (now : DateTime) (es : List JobExecution)
    → running_count k (new_execution id job now ∷ es) ≡ running_count k es
unfolding running_count
running_count-new id job k now es = ground arith

or_right : (a b : Bool) → a ≡ false → a || b ≡ true → b ≡ true
or_right a b off h = rw off at h

and_right : (a b : Bool) → a && b ≡ true → b ≡ true
and_right true b h = h
and_right false b h = cc

and_left : (a b : Bool) → a && b ≡ true → a ≡ true
and_left true b h = refl
and_left false b h = cc

same_id : (a b : ℕ) → a == b ≡ true → a ≡ b
same_id a b h = ground (arith, h)

other_id : (a b : ℕ) → a == b ≡ false → b == a ≡ false
other_id a b h = ground (arith, h)

-- A job that is passed over is not ripe.
passed-Covered :
    (now : DateTime) (es : List JobExecution) (d : ScheduledJob) (due jobs : List ScheduledJob)
    → claimable es d ≡ false
    → Covered now es (d ∷ due) jobs
    → Covered now es due jobs
passed-Covered now es d due [] busy h = tt
passed-Covered now es d due (j ∷ jobs) busy (here, rest) =
    (passed_over, passed-Covered now es d due jobs busy rest)
  where
    passed_over : is_ripe now es j ≡ true → any (has_id j.scheduled_job_id) due ≡ true
    passed_over ripe = elim (Bool-cases (d.scheduled_job_id == j.scheduled_job_id)) [
      | inl same ↦
          absurd (cc (and_right (is_selected now j) (claimable es j) ripe, busy, same_id _ _ same))
      | inr differ ↦ or_right _ _ differ (here ripe)
    ]

rescheduled-Covered :
    (id : ℕ) (now at : DateTime) (es : List JobExecution) (d j : ScheduledJob)
    (due : List ScheduledJob) (same : Bool)
    → stamp now < stamp at
    → (j.scheduled_job_id == d.scheduled_job_id) ≡ same
    → (is_ripe now es j ≡ true → any (has_id j.scheduled_job_id) (d ∷ due) ≡ true)
    → let j' = if same then record j { last_run_at = some now; next_run_at = some at } else j in
      is_ripe now (new_execution id d.scheduled_job_id now ∷ es) j' ≡ true
      → any (has_id j'.scheduled_job_id) due ≡ true
rescheduled-Covered id now at es d j due true later e here ripe =
    let due_again =
      and_right j.is_active (is_due (some at) now)
        (and_left (j.is_active && is_due (some at) now) _ ripe) in
    absurd (ground (arith, later, due_again))
rescheduled-Covered id now at es d j due false later e here ripe =
    or_right _ _ (other_id _ _ e)
      (here (rw (running_count-new id d.scheduled_job_id j.scheduled_job_id now es) at ripe))

created-Covered :
    (id : ℕ) (now at : DateTime) (es : List JobExecution) (d : ScheduledJob)
    (due jobs : List ScheduledJob)
    → stamp now < stamp at
    → Covered now es (d ∷ due) jobs
    → Covered now
        (new_execution id d.scheduled_job_id now ∷ es)
        due
        (map (rescheduled d.scheduled_job_id now at) jobs)
created-Covered id now at es d due [] later h = tt
created-Covered id now at es d due (j ∷ jobs) later (here, rest) = (
  rescheduled-Covered id now at es d j due _ later refl here,
  created-Covered id now at es d due jobs later rest,
)

-- What the loop leaves: no row is ripe, and what was created is one execution for every claimable job.
abbrev pub NoneRipe : DateTime → List JobExecution → List ScheduledJob → Type 0
NoneRipe now es jobs = All (λ j. is_ripe now es j ≡ false) jobs

Covered-none :
    (now : DateTime) (es : List JobExecution) (jobs : List ScheduledJob)
    → Covered now es [] jobs
    → NoneRipe now es jobs
Covered-none now es [] h = tt
Covered-none now es (j ∷ jobs) (here, rest) =
    (none_covers (Bool-cases (is_ripe now es j)), Covered-none now es jobs rest)
  where
    none_covers : (is_ripe now es j ≡ true) ⊎ (is_ripe now es j ≡ false) → is_ripe now es j ≡ false
    none_covers (inl ripe) = cc (here ripe)
    none_covers (inr over) = over

abbrev pub job_ids : List JobExecution → List ℕ
job_ids es = map (λ e. e.scheduled_job_id) es

abbrev pub claimed : List JobExecution → List ScheduledJob → List ℕ
claimed es due = map (λ j. j.scheduled_job_id) (keep_if (claimable es) due)

abbrev pub Left : DateTime → List ScheduledJob → JobTables → Result ScheduleError JobTables → Type 0
Left now due t (err e) = ⊥
Left now due t (ok t') =
    NoneRipe now t'.executions t'.jobs
    × (job_ids t'.created ≡ job_ids t.created ++ claimed t.executions due)

-- A valid schedule has a next run, and it is later.
next_run_later :
    (now : DateTime) (d : ScheduledJob)
    → IsDate now
    → IsSchedule d.frequency d.run_hour d.run_day
    → (at : DateTime) × (compute_next_run d.frequency d.run_hour d.run_day now ≡ ok at)
      × (stamp now < stamp at)
next_run_later now d date valid =
    found (compute_next_run d.frequency d.run_hour d.run_day now) refl
      (compute_next_run_lem d.frequency d.run_hour d.run_day now date)
  where
    found :
        (r : Result ScheduleError DateTime)
        → compute_next_run d.frequency d.run_hour d.run_day now ≡ r
        → Answers d.frequency d.run_hour d.run_day now r
        → (at : DateTime) × (compute_next_run d.frequency d.run_hour d.run_day now ≡ ok at)
          × (stamp now < stamp at)
    found (ok at) run first = (at, run, first.1)
    found (err e) run no_run = absurd (no_run.0 valid)

claimable-new :
    (id job : ℕ) (now : DateTime) (es : List JobExecution) (due : List ScheduledJob)
    → keep_if (claimable (new_execution id job now ∷ es)) due ≡ keep_if (claimable es) due
claimable-new id job now es [] = refl
claimable-new id job now es (d ∷ due) =
    rw (running_count-new id job d.scheduled_job_id now es, claimable-new id job now es due) refl

claimed-busy :
    (es : List JobExecution) (d : ScheduledJob) (due : List ScheduledJob)
    → claimable es d ≡ false
    → claimed es (d ∷ due) ≡ claimed es due
claimed-busy es d due busy = rw busy refl

claimed-free :
    (es : List JobExecution) (d : ScheduledJob) (due : List ScheduledJob)
    → claimable es d ≡ true
    → claimed es (d ∷ due) ≡ d.scheduled_job_id ∷ claimed es due
claimed-free es d due free = rw free refl

Left-passed :
    (now : DateTime) (d : ScheduledJob) (due : List ScheduledJob) (t : JobTables)
    (r : Result ScheduleError JobTables)
    → claimable t.executions d ≡ false
    → Left now due t r
    → Left now (d ∷ due) t r
Left-passed now d due t (err e) busy h = h
Left-passed now d due t (ok t') busy (none_ripe, ids) =
    (none_ripe, rw (claimed-busy t.executions d due busy) ids)

ids-created :
    (before : List JobExecution) (e : JobExecution) (ids : List ℕ)
    → job_ids (before ++ (e ∷ [])) ++ ids ≡ job_ids before ++ (e.scheduled_job_id ∷ ids)
ids-created [] e ids = refl
ids-created (x ∷ before) e ids = ap (λ l. x.scheduled_job_id ∷ l) (ids-created before e ids)

ids-nil : (ids : List ℕ) → ids ≡ ids ++ []
ids-nil [] = refl
ids-nil (x ∷ ids) = ap (λ l. x ∷ l) (ids-nil ids)

Left-created :
    (id : ℕ) (now at : DateTime) (d : ScheduledJob) (due : List ScheduledJob) (t : JobTables)
    (r : Result ScheduleError JobTables)
    → claimable t.executions d ≡ true
    → Left now due (create id now d t at) r
    → Left now (d ∷ due) t r
Left-created id now at d due t (err e) free h = h
Left-created id now at d due t (ok t') free (none_ripe, ids) =
    let execution = new_execution id d.scheduled_job_id now in
    (
      none_ripe,
      ids
          ∙ ap (λ js. job_ids (t.created ++ (execution ∷ [])) ++ map (λ j. j.scheduled_job_id) js)
              (claimable-new id d.scheduled_job_id now t.executions due)
          ∙ ids-created t.created execution (claimed t.executions due)
          ∙ ap (λ js. job_ids t.created ++ js) (sym (claimed-free t.executions d due free)),
    )

pub dispatch_all-Left :
    (id : ℕ) (now : DateTime) (due : List ScheduledJob) (t : JobTables)
    → IsDate now
    → All (λ d. IsSchedule d.frequency d.run_hour d.run_day) due
    → Covered now t.executions due t.jobs
    → Left now due t (dispatch_all id now due t)
unfolding dispatch_all
dispatch_all-Left id now [] t date valid covered =
    (Covered-none now t.executions t.jobs covered, ids-nil (job_ids t.created))
dispatch_all-Left id now (d ∷ due) t date (valid, more) covered =
    elim (Bool-cases (claimable t.executions d)) [
      | inl free ↦
          let (at, run, later) = next_run_later now d date valid in
          rw (free, run)
            (Left-created id now at d due t _ free (
              dispatch_all-Left (suc id) now due (create id now d t at) date more
                (created-Covered id now at t.executions d due t.jobs later covered)))
      | inr busy ↦ rw busy (
          Left-passed now d due t _ busy (
            dispatch_all-Left id now due t date more
              (passed-Covered now t.executions d due t.jobs busy covered)))
    ]
