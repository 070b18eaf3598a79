-- ===== src/Jobs/Dispatch/Once.antt =====
-- One dispatch and the next (backend/app/services/job_dispatch.py).
use k_aikei.Prelude.{
  ℕ, ◌≡◌, refl, ap, ◌∙◌, Bool, true, false, ◌&&◌, ◌||◌, List, [], ◌∷◌, any, map, cons_if, keep_if,
  All, inl, inr, ◌==◌, Bool-cases, arith, All-Subseq, keep_if-Subseq,
}
use k_aikei.Prelude.Sorting.{sort_by, insert_sorted, All-sort_by}
use k_aikei.Calendar.{DateTime, IsDate}
use k_aikei.Jobs.{ScheduleError}
use k_aikei.Jobs.NextRun.{IsSchedule}
use k_aikei.Jobs.Executions.{JobExecution}
use k_aikei.Jobs.Dispatch.{
  ScheduledJob, JobTables, is_selected, before, select_due_jobs, dispatch_all, dispatch_due_jobs,
}
use k_aikei.Result.{Result, ok, err}
use k_aikei.Jobs.Dispatch.Ripe.{
  claimable, has_id, Covered, NoneRipe, Left, job_ids, dispatch_all-Left,
}
use k_aikei.Jobs.Dispatch.Created.{Stored, IsWaiting, with_created, dispatch_all-Stored}
use k_aikei.Jobs.Dispatch.Order.{InOrder, number_of, is_wanted, chosen-InOrder, chosen-number_of}

-- Sorting and selection keep the rows that are due.
any-insert_sorted :
    (p : ScheduledJob → Bool) (x : ScheduledJob) (ys : List ScheduledJob)
    → any p (insert_sorted before x ys) ≡ p x || any p ys
unfolding insert_sorted
any-insert_sorted p x [] = refl
any-insert_sorted p x (y ∷ ys) = elim (Bool-cases (before x y)) [
  | inl first ↦ rw first refl
  | inr later ↦ rw (later, any-insert_sorted p x ys) (swap (p y) (p x) (any p ys))
]
  where
    swap : (a b c : Bool) → a || (b || c) ≡ b || (a || c)
    swap true true c = refl
    swap true false c = refl
    swap false true c = refl
    swap false false c = refl

any-sort_by :
    (p : ScheduledJob → Bool) (xs : List ScheduledJob) → any p (sort_by before xs) ≡ any p xs
unfolding sort_by
any-sort_by p [] = refl
any-sort_by p (x ∷ xs) =
    any-insert_sorted p x (sort_by before xs) ∙ ap (λ b. p x || b) (any-sort_by p xs)

any-more :
    (p : ScheduledJob → Bool) (keep : Bool) (x : ScheduledJob) (xs : List ScheduledJob)
    → any p xs ≡ true
    → any p (cons_if keep x xs) ≡ true
any-more p true x xs h = rw h (true_last (p x))
  where
    true_last : (b : Bool) → b || true ≡ true
    true_last true = refl
    true_last false = refl
any-more p false x xs h = h

==-refl : (n : ℕ) → n == n ≡ true
==-refl n = ground arith

-- Every selected row of a table is found among the selected ones.
selected-Covered :
    (now : DateTime) (es : List JobExecution) (jobs all : List ScheduledJob)
    → ((p : ScheduledJob → Bool) → any p (keep_if (is_selected now) jobs) ≡ true → any p all ≡ true)
    → Covered now es all jobs
selected-Covered now es [] all within = tt
selected-Covered now es (j ∷ jobs) all within = (
  (λ ripe. within (has_id j.scheduled_job_id) (found (is_selected now j) ripe)),
  selected-Covered now es jobs all (λ p h. within p (any-more p (is_selected now j) j _ h)),
)
  where
    found :
        (selected : Bool)
        → selected && claimable es j ≡ true
        → any (has_id j.scheduled_job_id) (cons_if selected j (keep_if (is_selected now) jobs))
          ≡ true
    found true ripe = rw (==-refl j.scheduled_job_id) refl
    found false ripe = cc

due-Covered :
    (now : DateTime) (es : List JobExecution) (jobs : List ScheduledJob)
    → Covered now es (select_due_jobs jobs now) jobs
unfolding select_due_jobs
due-Covered now es jobs =
    selected-Covered now es jobs _ (λ p h. any-sort_by p (keep_if (is_selected now) jobs) ∙ h)

-- Without a ripe row no selected row can be claimed, and the loop does nothing.
abbrev AllBusy : List JobExecution → List ScheduledJob → Type 0
AllBusy es due = All (λ j. claimable es j ≡ false) due

NoneRipe-AllBusy :
    (now : DateTime) (es : List JobExecution) (jobs : List ScheduledJob)
    → NoneRipe now es jobs
    → AllBusy es (keep_if (is_selected now) jobs)
NoneRipe-AllBusy now es [] h = tt
NoneRipe-AllBusy now es (j ∷ jobs) (here, rest) =
    selected_busy (is_selected now j) here (NoneRipe-AllBusy now es jobs rest)
  where
    selected_busy :
        (selected : Bool)
        → selected && claimable es j ≡ false
        → AllBusy es (keep_if (is_selected now) jobs)
        → AllBusy es (cons_if selected j (keep_if (is_selected now) jobs))
    selected_busy true busy h = (busy, h)
    selected_busy false busy h = h

busy-dispatch_all :
    (id : ℕ) (now : DateTime) (due : List ScheduledJob) (t : JobTables)
    → AllBusy t.executions due
    → dispatch_all id now due t ≡ ok t
unfolding dispatch_all
busy-dispatch_all id now [] t busy = refl
busy-dispatch_all id now (d ∷ due) t (busy, rest) = rw busy (busy-dispatch_all id now due t rest)

-- Of the outcome of a dispatch.
abbrev pub Dispatched :
    DateTime → List ScheduledJob → List JobExecution → Result ScheduleError JobTables → Type 0
Dispatched now jobs es (err e) = ⊥
Dispatched now jobs es (ok t) =
    (chosen : List ScheduledJob) × (job_ids t.created ≡ map (λ j. j.scheduled_job_id) chosen)
    × InOrder chosen
    × ((p : ScheduledJob → Bool)
        → number_of p chosen ≡ number_of (λ j. p j && is_wanted now es j) jobs)
    × (t.executions ≡ with_created t.created es)
    × All (IsWaiting now) t.created
    × ((id : ℕ)
        → dispatch_due_jobs id now t.jobs t.executions
          ≡ ok (record { jobs = t.jobs; executions = t.executions; created = [] }))

Left-Dispatched :
    (now : DateTime) (jobs : List ScheduledJob) (es : List JobExecution)
    (r : Result ScheduleError JobTables)
    → Left now (select_due_jobs jobs now) (record { jobs = jobs; executions = es; created = [] }) r
    → Stored now es r
    → Dispatched now jobs es r
unfolding dispatch_due_jobs select_due_jobs
Left-Dispatched now jobs es (err e) h s = h
Left-Dispatched now jobs es (ok t) (none_ripe, ids) (stored, waiting) = (
  keep_if (claimable es) (select_due_jobs jobs now),
  ids,
  chosen-InOrder now es jobs,
  chosen-number_of now es jobs,
  stored,
  waiting,
  λ id. busy-dispatch_all id now _ _ (
      All-sort_by before (λ j. claimable t.executions j ≡ false) _
        (NoneRipe-AllBusy now t.executions t.jobs none_ripe)),
)

selected-IsSchedule :
    (now : DateTime) (jobs : List ScheduledJob)
    → All (λ j. IsSchedule j.frequency j.run_hour j.run_day) jobs
    → All (λ j. IsSchedule j.frequency j.run_hour j.run_day) (select_due_jobs jobs now)
unfolding select_due_jobs
selected-IsSchedule now jobs valid =
    All-sort_by before _ _ (All-Subseq _ (keep_if-Subseq (is_selected now) jobs) valid)

-- At every moment, if all jobs in the table have schedules that can be kept: a dispatch raises no
-- error. It creates one execution for each job that is active, due by now and without a running
-- execution, and for no other, in the order of their priorities, a smaller number first. They are
-- pending, for this moment, and what the table of executions gains. A second dispatch at the same
-- moment creates none and changes nothing.
pub dispatch_due_jobs_lem :
    (id : ℕ) (now : DateTime) (jobs : List ScheduledJob) (es : List JobExecution)
    → IsDate now
    → All (λ j. IsSchedule j.frequency j.run_hour j.run_day) jobs
    → Dispatched now jobs es (dispatch_due_jobs id now jobs es)
unfolding dispatch_due_jobs
dispatch_due_jobs_lem id now jobs es date valid =
    Left-Dispatched now jobs es _
      (dispatch_all-Left id now (select_due_jobs jobs now) _ date
        (selected-IsSchedule now jobs valid) (due-Covered now es jobs))
      (dispatch_all-Stored id now (select_due_jobs jobs now) jobs es)
