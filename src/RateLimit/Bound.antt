-- ===== src/RateLimit/Bound.antt =====
-- The table of an address's requests over time, and the bound on what is passed on
-- (backend/app/middleware/rate_limit.py).
use k_aikei.Prelude.{
  ℕ, ◌≤◌, ◌≡◌, ◌≢◌, refl, sym, true, false, List, [], ◌∷◌, ◌==◌, All, Bool-cases, inl, inr, arith,
}
use k_aikei.RateLimit.{Requests, times_of, forget, is_stale, drop_stale}
use k_aikei.RateLimit.Window.{recent_count, Ascending, stale_count}

-- No address has two entries.
abbrev pub Distinct : Requests → Type 0
Distinct [] = Unit
Distinct (e ∷ rest) = All (λ f. f.0 ≢ e.0) rest × Distinct rest

module _ (P : ℕ × List ℕ → Type 0) where
  pub All-forget : (key : ℕ) (r : Requests) → All P r → All P (forget key r)
  unfolding forget
  All-forget key [] h = tt
  All-forget key ((k, ts) ∷ rest) (here, h) = elim (Bool-cases (k == key)) [
    | inl same ↦ rw same (All-forget key rest h)
    | inr other ↦ rw other (here, All-forget key rest h)
  ]

  pub All-drop_stale : (window now : ℕ) (r : Requests) → All P r → All P (drop_stale window now r)
  unfolding drop_stale
  All-drop_stale window now [] h = tt
  All-drop_stale window now ((k, ts) ∷ rest) (here, h) =
      elim (Bool-cases (is_stale window now ts)) [
        | inl old ↦ rw old (All-drop_stale window now rest h)
        | inr kept ↦ rw kept (here, All-drop_stale window now rest h)
      ]

pub Distinct-forget : (key : ℕ) (r : Requests) → Distinct r → Distinct (forget key r)
unfolding forget
Distinct-forget key [] d = tt
Distinct-forget key ((k, ts) ∷ rest) (first, d) = elim (Bool-cases (k == key)) [
  | inl same ↦ rw same (Distinct-forget key rest d)
  | inr other ↦ rw other (All-forget (λ f. f.0 ≢ k) key rest first, Distinct-forget key rest d)
]

pub Distinct-drop_stale :
    (window now : ℕ) (r : Requests) → Distinct r → Distinct (drop_stale window now r)
unfolding drop_stale
Distinct-drop_stale window now [] d = tt
Distinct-drop_stale window now ((k, ts) ∷ rest) (first, d) =
    elim (Bool-cases (is_stale window now ts)) [
      | inl old ↦ rw old (Distinct-drop_stale window now rest d)
      | inr kept ↦ rw kept (
        All-drop_stale (λ f. f.0 ≢ k) window now rest first,
        Distinct-drop_stale window now rest d,
      )
    ]

pub forgotten : (key : ℕ) (r : Requests) → All (λ f. f.0 ≢ key) (forget key r)
unfolding forget
forgotten key [] = tt
forgotten key ((k, ts) ∷ rest) = elim (Bool-cases (k == key)) [
  | inl same ↦ rw same (forgotten key rest)
  | inr other ↦ rw other ((λ e. ground (arith, other, e)), forgotten key rest)
]

pub times_of_absent : (key : ℕ) (r : Requests) → All (λ f. f.0 ≢ key) r → times_of key r ≡ []
unfolding times_of
times_of_absent key [] h = refl
times_of_absent key ((k, ts) ∷ rest) (here, h) = elim (Bool-cases (k == key)) [
  | inl same ↦ cc (absurd_eq here (ground (arith, same)))
  | inr other ↦ rw other (times_of_absent key rest h)
]
  where
    absurd_eq : k ≢ key → k ≡ key → true ≡ false
    absurd_eq no_eq e = ground (arith, no_eq, e)

pub times_of-forget :
    (key other : ℕ) (r : Requests) → other ≢ key → times_of other (forget key r) ≡ times_of other r
unfolding times_of forget
times_of-forget key other [] h = refl
times_of-forget key other ((k, ts) ∷ rest) h = elim (Bool-cases (k == key)) [
  | inl same ↦
      let away : (k == other) ≡ false = ground (arith, same, h) in
      rw (same, away) (times_of-forget key other rest h)
  | inr differs ↦ elim (Bool-cases (k == other)) [
    | inl found ↦ rw (differs, found) refl
    | inr missed ↦ rw (differs, missed) (times_of-forget key other rest h)
  ]
]

-- Dropping addresses with no recent request changes no count, now or later.
pub drop_stale_keeps :
    (window now later key : ℕ) (r : Requests)
    → now ≤ later
    → Distinct r
    → All (λ e. Ascending e.1) r
    → recent_count window later (times_of key (drop_stale window now r))
      ≡ recent_count window later (times_of key r)
unfolding times_of drop_stale
drop_stale_keeps window now later key [] le d a = refl
drop_stale_keeps window now later key ((k, ts) ∷ rest) le (first, d) (up, a) =
    elim (Bool-cases (is_stale window now ts)) [
      | inl old ↦ elim (Bool-cases (k == key)) [
        | inl same ↦
            let here : k ≡ key = ground (arith, same) in
            let gone : All (λ f. f.0 ≢ key) (drop_stale window now rest) =
              rw (← here) (All-drop_stale (λ f. f.0 ≢ k) window now rest first) in
            rw (old, same, times_of_absent key (drop_stale window now rest) gone)
              (sym (stale_count window now later ts up old le))
        | inr other ↦ rw (old, other) (drop_stale_keeps window now later key rest le d a)
      ]
      | inr kept ↦ elim (Bool-cases (k == key)) [
        | inl same ↦ rw (kept, same) refl
        | inr other ↦ rw (kept, other) (drop_stale_keeps window now later key rest le d a)
      ]
    ]
