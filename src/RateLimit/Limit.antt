-- ===== src/RateLimit/Limit.antt =====
-- The bound on the requests that are passed on (backend/app/middleware/rate_limit.py).
use k_aikei.Prelude.{
  ℕ, ◌≤◌, ◌≡◌, ◌≢◌, refl, sym, Bool, true, false, List, [], ◌∷◌, ◌++◌, leb, ◌==◌, length, All,
  Bool-cases, ==_cases, inl, inr, arith,
}
use mathlib.Core.Path.{subst}
use k_aikei.RateLimit.{
  Limits, Requests, times_of, forget, put, recent, put_or_forget, cleanup, evict_stale, admit,
  dispatch,
}
use k_aikei.RateLimit.Window.{
  Log, passed, recent_count, Ascending, count-recent, count_le_length, count-append, Fits,
  All-later, recent-Fits, append-Fits,
}
use k_aikei.RateLimit.Bound.{
  Distinct, All-forget, All-drop_stale, Distinct-forget, Distinct-drop_stale, forgotten,
  times_of_absent, times_of-forget, drop_stale_keeps,
}

-- The log after a request from `key` at `now`.
abbrev pub logged : Bool → ℕ → ℕ → Log → Log
logged false key now log = log
logged true key now log = (key, now) ∷ log

-- A history of requests: the clock, which does not go back, the table, and what was passed on.
pub data Served (l : Limits) : ℕ → Requests → Log → Type 0 where
  begins : Served l 0 [] []
  serves :
      {now : ℕ} {r : Requests} {log : Log} (later key : ℕ)
      → Served l now r log
      → now ≤ later
      → Served l later (dispatch l later key r).1 (logged (dispatch l later key r).0 key later log)

module _ (l : Limits) where
  abbrev Covers : ℕ → Requests → Log → Type 0
  Covers now r log =
      (key later : ℕ)
      → now ≤ later
      → passed l.window later key log ≤ recent_count l.window later (times_of key r)

  abbrev Kept : ℕ → Requests → Log → Type 0
  Kept now r log = Covers now r log × All (λ e. Fits l now e.1) r × Distinct r

  times-Fits :
      (now key : ℕ) (r : Requests) → All (λ e. Fits l now e.1) r → Fits l now (times_of key r)
  unfolding times_of
  times-Fits now key [] h = (tt, tt, omega arith)
  times-Fits now key ((k, ts) ∷ rest) (here, h) = elim (Bool-cases (k == key)) [
    | inl same ↦ rw same here
    | inr other ↦ rw other (times-Fits now key rest h)
  ]

  Fits-later :
      (now later : ℕ) (r : Requests)
      → now ≤ later
      → All (λ e. Fits l now e.1) r
      → All (λ e. Fits l later e.1) r
  Fits-later now later [] le h = tt
  Fits-later now later ((k, ts) ∷ rest) le ((a, past, short), h) =
      ((a, All-later l now later ts le past, short), Fits-later now later rest le h)

  Ascending-of : (now : ℕ) (r : Requests) → All (λ e. Fits l now e.1) r → All (λ e. Ascending e.1) r
  Ascending-of now [] h = tt
  Ascending-of now (e ∷ rest) ((a, _, _), h) = (a, Ascending-of now rest h)

  evict-Kept :
      (now later : ℕ) (r : Requests) (log : Log)
      → now ≤ later
      → Kept now r log
      → Kept later (evict_stale l later r) log
  unfolding evict_stale
  evict-Kept now later r log le (covers, fits, d) =
      elim (Bool-cases (leb (length r) l.max_tracked_keys)) [
        | inl few ↦
            rw few
              ((λ key t h. covers key t (omega (arith, le, h))), Fits-later now later r le fits, d)
        | inr many ↦ rw many (
          λ key t h.
              rw (drop_stale_keeps l.window later t key r h d (Ascending-of now r fits))
                (covers key t (omega (arith, le, h))),
          All-drop_stale (λ e. Fits l later e.1) l.window later r (Fits-later now later r le fits),
          Distinct-drop_stale l.window later r d,
        )
      ]

  -- Giving an address new times keeps the table's form.
  put-Kept :
      (now key : ℕ) (ts : List ℕ) (r : Requests)
      → Fits l now ts
      → All (λ e. Fits l now e.1) r
      → Distinct r
      → All (λ e. Fits l now e.1) (put key ts r) × Distinct (put key ts r)
  put-Kept now key ts r fit fits d = (
    (fit, All-forget (λ e. Fits l now e.1) key r fits),
    (forgotten key r, Distinct-forget key r d),
  )

  times_of-put : (key : ℕ) (ts : List ℕ) (r : Requests) → times_of key (put key ts r) ≡ ts
  unfolding times_of
  times_of-put key ts r = let same : (key == key) ≡ true = ground arith in rw same refl

  times_of-put_other :
      (key other : ℕ) (ts : List ℕ) (r : Requests)
      → other ≢ key
      → times_of other (put key ts r) ≡ times_of other r
  unfolding times_of
  times_of-put_other key other ts r h =
      let away : (key == other) ≡ false = ground (arith, h) in
      rw away (times_of-forget key other r h)

  cleanup-Kept :
      (now key : ℕ) (r : Requests) (log : Log)
      → Kept now r log
      → Kept now (cleanup l.window now key r) log
  unfolding cleanup
  cleanup-Kept now key r log (covers, fits, d) = go (recent l.window now (times_of key r)) refl
    where
      counted :
          (later : ℕ)
          → now ≤ later
          → passed l.window later key log
            ≤ recent_count l.window later (recent l.window now (times_of key r))
      counted later h = rw (count-recent l.window now later (times_of key r) h) (covers key later h)

      go :
          (ts : List ℕ)
          → recent l.window now (times_of key r) ≡ ts
          → Kept now (put_or_forget key ts r) log
      go [] e = (
        λ k later h. elim (==_cases k key) [
          | inl same ↦
              rw (same, times_of_absent key (forget key r) (forgotten key r))
                (rw e at (counted later h))
          | inr other ↦ rw (times_of-forget key k r other) (covers k later h)
        ],
        All-forget (λ x. Fits l now x.1) key r fits,
        Distinct-forget key r d,
      )
      go (t ∷ ts) e =
          let fit = recent-Fits l now (times_of key r) (times-Fits now key r fits) in
          let (all_fit, all_differ) = put-Kept now key (t ∷ ts) r (rw e at fit) fits d in
          (
            λ k later h. elim (==_cases k key) [
              | inl same ↦ rw (same, times_of-put key (t ∷ ts) r) (rw e at (counted later h))
              | inr other ↦ rw (times_of-put_other key k (t ∷ ts) r other) (covers k later h)
            ],
            all_fit,
            all_differ,
          )

  admit-Kept :
      (now key : ℕ) (r : Requests) (log : Log)
      → Kept now r log
      → Kept now (admit l now key r).1 (logged (admit l now key r).0 key now log)
  unfolding admit
  admit-Kept now key r log (covers, fits, d) =
      elim (Bool-cases (leb l.max_requests (length (times_of key r)))) [
        | inl full ↦ rw full (covers, fits, d)
        | inr room ↦
            let times = times_of key r in
            let fit = append-Fits l now times (times-Fits now key r fits) (ground (arith, room)) in
            let (all_fit, all_differ) = put-Kept now key (times ++ now ∷ []) r fit fits d in
            rw room (
              λ k later h. elim (==_cases k key) [
                | inl same ↦ more k later h same
                | inr other ↦
                    let away : (key == k) ≡ false = ground (arith, other) in
                    rw (times_of-put_other key k (times ++ now ∷ []) r other, away)
                      (ground (arith, covers k later h))
              ],
              all_fit,
              all_differ,
            )
      ]
    where
      one_more : ℕ → ℕ → Type 0
      one_more later k =
          passed l.window later k ((key, now) ∷ log)
          ≤ recent_count l.window later (times_of k (put key (times_of key r ++ now ∷ []) r))

      own : (later : ℕ) → now ≤ later → one_more later key
      own later h =
          let here : (key == key) ≡ true = ground arith in
          rw
            (
              times_of-put key (times_of key r ++ now ∷ []) r,
              count-append l.window later now (times_of key r),
            )
            (ground (arith, here, covers key later h))

      more : (k later : ℕ) → now ≤ later → k ≡ key → one_more later k
      more k later h same = subst (λ x. one_more later x) (sym same) (own later h)

  Served-Kept : {now : ℕ} {r : Requests} {log : Log} → Served l now r log → Kept now r log
  unfolding dispatch
  Served-Kept begins = ((λ key later h. omega arith), tt, tt)
  Served-Kept (serves {now} {r} {log} later key history le) =
      let evicted = evict_stale l later r in
      admit-Kept later key (cleanup l.window later key evicted) log
        (cleanup-Kept later key evicted log (evict-Kept now later r log le (Served-Kept history)))

  -- Whatever requests have come, in the order of the clock, and whatever the table has dropped: in
  -- any window that ends now or later, no address has been passed more requests than the limit.
  pub Served-within_limit :
      {now : ℕ} {r : Requests} {log : Log}
      → Served l now r log
      → (key later : ℕ) → now ≤ later
      → passed l.window later key log ≤ l.max_requests
  Served-within_limit {now} {r} history key later le =
      let (covers, fits, _) = Served-Kept history in
      let (_, _, short) = times-Fits now key r fits in
      omega (arith, covers key later le, count_le_length l.window later (times_of key r), short)
