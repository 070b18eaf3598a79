-- ===== src/Jobs/Monthly.antt =====
-- The monthly schedule and its loop (backend/app/services/job_scheduler.py).
use k_aikei.Prelude.{
  ℕ, ◌+◌, min, ◌≡◌, ◌≤◌, ◌<◌, ◌⊎◌, inl, inr, refl, ap, sym, Bool, true, false, some, ltb, ◌==◌,
  if◌then◌else◌, Bool-cases, arith,
}
use k_aikei.Calendar.{DateTime, IsDate, month_length, stamp}
use k_aikei.Calendar.Days.{month_length_range, IsEarlierMonth, earlier_month-to_ordinal}
use k_aikei.Jobs.{monthly, ScheduleError, build_datetime, is_past, next_monthly, rounds}
use k_aikei.Jobs.Schedule.{IsRun, IsFirst, past, not_past}
use k_aikei.Result.{Result, ok, err}

-- Of two months one is earlier, or they are the same.
month_cases :
    (y m y' m' : ℕ) → IsEarlierMonth y m y' m' ⊎ (((y ≡ y') × (m ≡ m')) ⊎ IsEarlierMonth y' m' y m)
month_cases y m y' m' = elim (Bool-cases (ltb y y')) [
  | inl lt ↦ inl (inl (ground (arith, lt)))
  | inr ge ↦ elim (Bool-cases (ltb y' y)) [
    | inl gt ↦ inr (inr (inl (ground (arith, gt))))
    | inr le ↦ same_year (ground (arith, ge, le))
  ]
]
  where
    same_year :
        y ≡ y' → IsEarlierMonth y m y' m' ⊎ (((y ≡ y') × (m ≡ m')) ⊎ IsEarlierMonth y' m' y m)
    same_year e = elim (Bool-cases (ltb m m')) [
      | inl lt ↦ inl (inr (e, ground (arith, lt)))
      | inr ge ↦ elim (Bool-cases (ltb m' m)) [
        | inl gt ↦ inr (inr (inr (sym e, ground (arith, gt))))
        | inr le ↦ inr (inl (e, ground (arith, ge, le)))
      ]
    ]

-- the month after
abbrev year_next : Bool → ℕ → ℕ
year_next december y = if december then y + 1 else y

abbrev month_next : Bool → ℕ → ℕ
month_next december m = if december then 1 else m + 1

next_is_later :
    (december : Bool) (y m : ℕ)
    → (m == 12) ≡ december
    → IsEarlierMonth y m (year_next december y) (month_next december m)
next_is_later true y m h = inl (omega arith)
next_is_later false y m h = inr (refl, omega arith)

-- No month is between.
nothing_between :
    (december : Bool) (y m y' m' : ℕ)
    → (m == 12) ≡ december
    → 1 ≤ m'
    → m' ≤ 12
    → IsEarlierMonth y m y' m'
    → IsEarlierMonth y' m' (year_next december y) (month_next december m)
    → ⊥
nothing_between true y m y' m' h from to (inl a) (inl b) = omega (arith, a, b)
nothing_between true y m y' m' h from to (inl a) (inr (e, b)) = omega (arith, a, b, from)
nothing_between true y m y' m' h from to (inr (e, a)) (inl b) = ground (arith, a, h, to)
nothing_between true y m y' m' h from to (inr (e, a)) (inr (e', b)) = omega (arith, from, b)
nothing_between false y m y' m' h from to (inl a) (inl b) = omega (arith, a, b)
nothing_between false y m y' m' h from to (inl a) (inr (e, b)) = omega (arith, a, e)
nothing_between false y m y' m' h from to (inr (e, a)) (inl b) = omega (arith, e, b)
nothing_between false y m y' m' h from to (inr (e, a)) (inr (e', b)) = omega (arith, a, b)

-- The run of a month.
abbrev month_run : ℕ → ℕ → ℕ → ℕ → DateTime
month_run h run_day y m = build_datetime y m (min run_day (month_length y m)) h

month_run-IsDate :
    (h run_day y m : ℕ)
    → h ≤ 23
    → 1 ≤ run_day
    → 1 ≤ y
    → 1 ≤ m
    → m ≤ 12
    → IsDate (month_run h run_day y m)
month_run-IsDate h run_day y m le from yf mf mt = record {
  year_from = yf;
  month_from = mf;
  month_to = mt;
  day_from = ground (arith, month_length_range y m, from);
  day_to = omega arith;
  time_to = omega (arith, le);
}

-- A run in a month is its run.
same_run :
    (h run_day y m : ℕ) (d : DateTime)
    → IsRun monthly h (some run_day) d
    → (y ≡ d.year) × (m ≡ d.month)
    → month_run h run_day y m ≡ d
same_run h run_day y m d (date, at, day) (ey, em) = rw (ey, em) (cc (at, day))

-- Moments of an earlier month are earlier.
earlier_month :
    (d e : DateTime)
    → IsDate d
    → IsDate e
    → IsEarlierMonth d.year d.month e.year e.month
    → stamp d < stamp e
unfolding stamp
earlier_month d e hd he first = omega (arith, earlier_month-to_ordinal d e hd he first, hd.time_to)

-- The runs after a moment in a month are the month's run, if it is not over, and later ones.
this_month :
    (h run_day : ℕ) (after : DateTime)
    → IsDate after
    → let c = month_run h run_day after.year after.month in
      IsDate c → is_past c after ≡ false → IsFirst (IsRun monthly h (some run_day)) after c
this_month h run_day after date hc p =
    let c = month_run h run_day after.year after.month in
    (
      (hc, refl, refl),
      not_past c after p,
      λ d run later. elim (month_cases d.year d.month after.year after.month) [
        | inl before ↦ absurd (omega (arith, earlier_month d after run.0 date before, later))
        | inr (inl (ey, em)) ↦
            omega (arith, ap stamp (same_run h run_day _ _ d run (sym ey, sym em)))
        | inr (inr first) ↦ omega (arith, earlier_month c d hc run.0 first)
      ],
    )

following_month :
    (h run_day : ℕ) (after : DateTime) (december : Bool)
    → IsDate after
    → let r =
        month_run h run_day (year_next december after.year) (month_next december after.month) in
      IsDate r
      → (after.month == 12) ≡ december
      → is_past (month_run h run_day after.year after.month) after ≡ true
      → IsFirst (IsRun monthly h (some run_day)) after r
following_month h run_day after december date hr e p =
    let c = month_run h run_day after.year after.month in
    let r = month_run h run_day (year_next december after.year) (month_next december after.month) in
    (
      (hr, refl, refl),
      earlier_month after r date hr (next_is_later december after.year after.month e),
      λ d run later. elim (month_cases d.year d.month after.year after.month) [
        | inl before ↦ absurd (omega (arith, earlier_month d after run.0 date before, later))
        | inr (inl (ey, em)) ↦ absurd (
            omega (
              arith,
              ap stamp (same_run h run_day _ _ d run (sym ey, sym em)),
              past c after p,
              later,
            ))
        | inr (inr first) ↦ elim (month_cases d.year d.month r.year r.month) [
          | inl between ↦
              absurd
                (nothing_between december _ _ _ _ e run.0.month_from run.0.month_to first between)
          | inr (inl (ey, em)) ↦
              omega (arith, ap stamp (same_run h run_day _ _ d run (sym ey, sym em)))
          | inr (inr last) ↦ omega (arith, earlier_month r d hr run.0 last)
        ]
      ],
    )

-- A first moment is returned.
abbrev pub Returns : (DateTime → Type 0) → Result ScheduleError DateTime → Type 0
Returns P (ok r) = P r
Returns P (err e) = ⊥

next_month-IsDate :
    (h run_day : ℕ) (after : DateTime) (december : Bool)
    → h ≤ 23
    → 1 ≤ run_day
    → IsDate after
    → (after.month == 12) ≡ december
    → IsDate (month_run h run_day (year_next december after.year) (month_next december after.month))
next_month-IsDate h run_day after true le from date e =
    month_run-IsDate h run_day _ _ le from (omega arith) (omega arith) (omega arith)
next_month-IsDate h run_day after false le from date e =
    month_run-IsDate h run_day _ _ le from date.year_from (omega arith)
      (ground (arith, e, date.month_to))

-- The second round returns.
second_round :
    (h run_day y m : ℕ) (after : DateTime)
    → is_past (month_run h run_day y m) after ≡ false
    → next_monthly 1 h run_day after y m ≡ ok (month_run h run_day y m)
unfolding next_monthly
second_round h run_day y m after p = rw p refl

not_before : (c a : DateTime) → stamp a < stamp c → is_past c a ≡ false
not_before c a h = ground (arith, h)

two_rounds :
    (h run_day : ℕ) (after : DateTime) (over december : Bool)
    → h ≤ 23
    → 1 ≤ run_day
    → IsDate after
    → is_past (month_run h run_day after.year after.month) after ≡ over
    → (after.month == 12) ≡ december
    → Returns (IsFirst (IsRun monthly h (some run_day)) after) (
        if over
        then (if december
            then next_monthly 1 h run_day after (after.year + 1) 1
            else next_monthly 1 h run_day after after.year (after.month + 1))
        else ok (month_run h run_day after.year after.month))
two_rounds h run_day after false december le from date p e =
    this_month h run_day after date
      (month_run-IsDate h run_day _ _ le from date.year_from date.month_from date.month_to) p
two_rounds h run_day after true true le from date p e =
    let first =
      following_month h run_day after true date
        (next_month-IsDate h run_day after true le from date e) e p in
    rw (second_round h run_day _ _ after (not_before _ _ first.1)) first
two_rounds h run_day after true false le from date p e =
    let first =
      following_month h run_day after false date
        (next_month-IsDate h run_day after false le from date e) e p in
    rw (second_round h run_day _ _ after (not_before _ _ first.1)) first

pub next_monthly-Returns :
    (h run_day : ℕ) (after : DateTime)
    → h ≤ 23
    → 1 ≤ run_day
    → IsDate after
    → Returns
        (IsFirst (IsRun monthly h (some run_day)) after)
        (next_monthly rounds h run_day after after.year after.month)
unfolding next_monthly
next_monthly-Returns h run_day after le from date =
    two_rounds h run_day after _ _ le from date refl refl
