-- ===== src/Jobs/Dispatch/Order.antt =====
-- The order in which due jobs are taken, and which they are (backend/app/services/job_dispatch.py and
-- select_due_jobs of job_scheduler.py).
use k_aikei.Prelude.{
  ℕ, ◌+◌, ◌≤◌, ◌≡◌, refl, ap, ◌∙◌, Bool, true, false, not, ◌&&◌, Option, none, some, List, [], ◌∷◌,
  any, cons_if, keep_if, All, inl, inr, ltb, ◌==◌, Bool-cases, if◌then◌else◌, arith, All-Subseq,
  keep_if-Subseq,
}
use k_aikei.Prelude.Sorting.{sort_by, insert_sorted, All-insert_sorted}
use k_aikei.Calendar.{DateTime, stamp}
use k_aikei.Jobs.Executions.{JobExecution, running_count, is_running}
use k_aikei.Jobs.Dispatch.{ScheduledJob, is_due, is_selected, before, select_due_jobs}
use k_aikei.Jobs.Dispatch.Ripe.{claimable}

-- The jobs that a dispatch has to take: active, due by now, and without a running execution.
abbrev pub time_reached : DateTime → Option DateTime → Bool
time_reached now none = false
time_reached now (some at) = not (ltb (stamp now) (stamp at))

abbrev pub runs : ScheduledJob → JobExecution → Bool
runs j e = e.scheduled_job_id == j.scheduled_job_id && is_running e.status

abbrev pub is_wanted : DateTime → List JobExecution → ScheduledJob → Bool
is_wanted now es j = j.is_active && (time_reached now j.next_run_at && not (any (runs j) es))

-- No job stands behind one with a larger number as its priority.
abbrev pub InOrder : List ScheduledJob → Type 0
InOrder [] = Unit {0}
InOrder (j ∷ js) = All (λ k. j.priority ≤ k.priority) js × InOrder js

abbrev pub number_of : (ScheduledJob → Bool) → List ScheduledJob → ℕ
number_of p [] = 0
number_of p (j ∷ js) = (if p j then 1 else 0) + number_of p js

time_reached-is_due : (now : DateTime) (o : Option DateTime) → is_due o now ≡ time_reached now o
time_reached-is_due now none = refl
time_reached-is_due now (some at) = ground arith

none_runs : (j : ScheduledJob) (es : List JobExecution) → claimable es j ≡ not (any (runs j) es)
unfolding running_count
none_runs j [] = refl
none_runs j (e ∷ es) = elim (Bool-cases (runs j e)) [
  | inl running ↦ rw running (ground arith)
  | inr free ↦ rw free (ground (arith, none_runs j es))
]

wanted_lem :
    (now : DateTime) (es : List JobExecution) (j : ScheduledJob) (a : Bool)
    → (a && claimable es j) && is_selected now j ≡ a && is_wanted now es j
wanted_lem now es j a =
    rw (time_reached-is_due now j.next_run_at, none_runs j es)
      (reordered a (not (any (runs j) es)) j.is_active (time_reached now j.next_run_at))
  where
    reordered : (a c s t : Bool) → (a && c) && (s && t) ≡ a && (s && (t && c))
    reordered false c s t = refl
    reordered true true true true = refl
    reordered true true true false = refl
    reordered true true false t = refl
    reordered true false true true = refl
    reordered true false true false = refl
    reordered true false false t = refl

-- Counting through selection and sorting.
number_of-same :
    (p q : ScheduledJob → Bool) (js : List ScheduledJob)
    → ((j : ScheduledJob) → p j ≡ q j)
    → number_of p js ≡ number_of q js
number_of-same p q [] same = refl
number_of-same p q (j ∷ js) same = rw (same j, number_of-same p q js same) refl

number_of-keep_if :
    (p q : ScheduledJob → Bool) (js : List ScheduledJob)
    → number_of p (keep_if q js) ≡ number_of (λ j. p j && q j) js
number_of-keep_if p q [] = refl
number_of-keep_if p q (j ∷ js) = ground (arith, number_of-keep_if p q js)

number_of-insert_sorted :
    (p : ScheduledJob → Bool) (j : ScheduledJob) (js : List ScheduledJob)
    → number_of p (insert_sorted before j js) ≡ number_of p (j ∷ js)
unfolding insert_sorted
number_of-insert_sorted p j [] = refl
number_of-insert_sorted p j (k ∷ js) = elim (Bool-cases (before j k)) [
  | inl first ↦ rw first refl
  | inr later ↦ rw (later, number_of-insert_sorted p j js) (omega arith)
]

number_of-sort_by :
    (p : ScheduledJob → Bool) (js : List ScheduledJob)
    → number_of p (sort_by before js) ≡ number_of p js
unfolding sort_by
number_of-sort_by p [] = refl
number_of-sort_by p (j ∷ js) =
    number_of-insert_sorted p j (sort_by before js)
    ∙ ap (λ n. (if p j then 1 else 0) + n) (number_of-sort_by p js)

pub chosen-number_of :
    (now : DateTime) (es : List JobExecution) (jobs : List ScheduledJob) (p : ScheduledJob → Bool)
    → number_of p (keep_if (claimable es) (select_due_jobs jobs now))
      ≡ number_of (λ j. p j && is_wanted now es j) jobs
unfolding select_due_jobs
chosen-number_of now es jobs p =
    number_of-keep_if p (claimable es) (sort_by before (keep_if (is_selected now) jobs))
    ∙ number_of-sort_by (λ j. p j && claimable es j) (keep_if (is_selected now) jobs)
    ∙ number_of-keep_if (λ j. p j && claimable es j) (is_selected now) jobs
    ∙ number_of-same _ _ jobs (λ j. wanted_lem now es j (p j))

-- Sorting orders, and selection keeps the order.
smaller :
    (a b : ScheduledJob) (js : List ScheduledJob)
    → a.priority ≤ b.priority
    → All (λ k. b.priority ≤ k.priority) js
    → All (λ k. a.priority ≤ k.priority) js
smaller a b [] le h = tt
smaller a b (k ∷ js) le (here, rest) = (omega (arith, here, le), smaller a b js le rest)

InOrder-insert_sorted :
    (j : ScheduledJob) (js : List ScheduledJob) → InOrder js → InOrder (insert_sorted before j js)
unfolding insert_sorted
InOrder-insert_sorted j [] ordered = (tt, tt)
InOrder-insert_sorted j (k ∷ js) (least, ordered) = elim (Bool-cases (before j k)) [
  | inl first ↦
      let le : j.priority ≤ k.priority = ground (arith, first) in
      rw first ((le, smaller j k js le least), (least, ordered))
  | inr later ↦ rw later (
    All-insert_sorted before (λ i. k.priority ≤ i.priority) j js (ground (arith, later)) least,
    InOrder-insert_sorted j js ordered,
  )
]

InOrder-sort_by : (js : List ScheduledJob) → InOrder (sort_by before js)
unfolding sort_by
InOrder-sort_by [] = tt
InOrder-sort_by (j ∷ js) = InOrder-insert_sorted j (sort_by before js) (InOrder-sort_by js)

InOrder-cons_if :
    (keep : Bool) (j : ScheduledJob) (js : List ScheduledJob)
    → All (λ k. j.priority ≤ k.priority) js
    → InOrder js
    → InOrder (cons_if keep j js)
InOrder-cons_if true j js least ordered = (least, ordered)
InOrder-cons_if false j js least ordered = ordered

InOrder-keep_if :
    (q : ScheduledJob → Bool) (js : List ScheduledJob) → InOrder js → InOrder (keep_if q js)
InOrder-keep_if q [] ordered = tt
InOrder-keep_if q (j ∷ js) (least, ordered) =
    InOrder-cons_if (q j) j (keep_if q js) (All-Subseq _ (keep_if-Subseq q js) least)
      (InOrder-keep_if q js ordered)

pub chosen-InOrder :
    (now : DateTime) (es : List JobExecution) (jobs : List ScheduledJob)
    → InOrder (keep_if (claimable es) (select_due_jobs jobs now))
unfolding select_due_jobs
chosen-InOrder now es jobs = InOrder-keep_if (claimable es) _ (InOrder-sort_by _)
