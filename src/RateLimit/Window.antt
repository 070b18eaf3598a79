-- ===== src/RateLimit/Window.antt =====
-- The requests of an address in a window (backend/app/middleware/rate_limit.py).
use k_aikei.Prelude.{
  ℕ, ◌+◌, ◌≤◌, ◌<◌, ◌≡◌, refl, ap, true, List, [], ◌∷◌, ◌++◌, ◌==◌, length, if◌then◌else◌, All,
  Bool-cases, inl, inr, arith, All-Subseq, keep_if-Subseq, All-append,
}
use k_aikei.RateLimit.{Limits, is_recent, recent, is_stale}

-- The requests that were passed on: the address and the time.
abbrev pub Log : Type 0
Log = List (ℕ × ℕ)

-- how many of them an address made in the window that ends at `now`
abbrev pub passed : ℕ → ℕ → ℕ → Log → ℕ
passed window now key [] = 0
passed window now key ((k, t) ∷ log) =
    (if k == key then if is_recent window now t then 1 else 0 else 0) + passed window now key log

abbrev pub recent_count : ℕ → ℕ → List ℕ → ℕ
recent_count window now [] = 0
recent_count window now (t ∷ ts) =
    (if is_recent window now t then 1 else 0) + recent_count window now ts

-- Times in their order.
abbrev pub Ascending : List ℕ → Type 0
Ascending [] = Unit
Ascending (t ∷ ts) = All (λ u. t ≤ u) ts × Ascending ts

-- once the last of a list is not recent, none of it is, now or later
pub stale_count :
    (window now later : ℕ) (ts : List ℕ)
    → Ascending ts
    → is_stale window now ts ≡ true
    → now ≤ later
    → recent_count window later ts ≡ 0
unfolding is_stale
stale_count window now later [] a h le = refl
stale_count window now later (t ∷ []) a h le = ground arith
stale_count window now later (t ∷ u ∷ ts) (first, a) h le =
    let before : t ≤ u = first.0 in
    ground (arith, before, stale_count window now later (u ∷ ts) a h le)

-- what `recent` drops does not count later either
pub count-recent :
    (window now later : ℕ) (ts : List ℕ)
    → now ≤ later
    → recent_count window later (recent window now ts) ≡ recent_count window later ts
count-recent window now later [] le = refl
count-recent window now later (t ∷ ts) le = elim (Bool-cases (is_recent window now t)) [
  | inl still ↦ rw still (
      ap (λ n. (if is_recent window later t then 1 else 0) + n)
        (count-recent window now later ts le))
  | inr gone ↦ rw gone (ground (arith, count-recent window now later ts le))
]

pub count_le_length : (window now : ℕ) (ts : List ℕ) → recent_count window now ts ≤ length ts
count_le_length window now [] = omega arith
count_le_length window now (t ∷ ts) = ground (arith, count_le_length window now ts)

pub count-append :
    (window now t : ℕ) (ts : List ℕ)
    → recent_count window now (ts ++ t ∷ [])
      ≡ recent_count window now ts + (if is_recent window now t then 1 else 0)
count-append window now t [] = omega arith
count-append window now t (u ∷ ts) = omega (arith, count-append window now t ts)

-- What the table says of an address: its times are in their order, past, and within the limit.
abbrev pub Fits : Limits → ℕ → List ℕ → Type 0
Fits l now ts = Ascending ts × All (λ t. t ≤ now) ts × (length ts ≤ l.max_requests)

module _ (l : Limits) where
  pub All-later :
      (now later : ℕ) (ts : List ℕ) → now ≤ later → All (λ t. t ≤ now) ts → All (λ t. t ≤ later) ts
  All-later now later [] le h = tt
  All-later now later (t ∷ ts) le (first, h) = (omega (arith, first), All-later now later ts le h)

  recent-Ascending : (now : ℕ) (ts : List ℕ) → Ascending ts → Ascending (recent l.window now ts)
  recent-Ascending now [] a = tt
  recent-Ascending now (t ∷ ts) (first, a) = elim (Bool-cases (is_recent l.window now t)) [
    | inl still ↦ rw still (
      All-Subseq (λ u. t ≤ u) (keep_if-Subseq (is_recent l.window now) ts) first,
      recent-Ascending now ts a,
    )
    | inr gone ↦ rw gone (recent-Ascending now ts a)
  ]

  length-recent : (now : ℕ) (ts : List ℕ) → length (recent l.window now ts) ≤ length ts
  length-recent now [] = omega arith
  length-recent now (t ∷ ts) = elim (Bool-cases (is_recent l.window now t)) [
    | inl still ↦ rw still (omega (arith, length-recent now ts))
    | inr gone ↦ rw gone (omega (arith, length-recent now ts))
  ]

  pub recent-Fits : (now : ℕ) (ts : List ℕ) → Fits l now ts → Fits l now (recent l.window now ts)
  recent-Fits now ts (a, past, short) = (
    recent-Ascending now ts a,
    All-Subseq (λ t. t ≤ now) (keep_if-Subseq (is_recent l.window now) ts) past,
    omega (arith, length-recent now ts, short),
  )

  Ascending-append :
      (now : ℕ) (ts : List ℕ) → Ascending ts → All (λ t. t ≤ now) ts → Ascending (ts ++ now ∷ [])
  Ascending-append now [] a h = (tt, tt)
  Ascending-append now (t ∷ ts) (first, a) (here, h) =
      (All-append (λ u. t ≤ u) ts (now ∷ []) first (here, tt), Ascending-append now ts a h)

  length-append_one : (now : ℕ) (ts : List ℕ) → length (ts ++ now ∷ []) ≡ length ts + 1
  length-append_one now [] = refl
  length-append_one now (t ∷ ts) = omega (arith, length-append_one now ts)

  pub append-Fits :
      (now : ℕ) (ts : List ℕ)
      → Fits l now ts
      → length ts < l.max_requests
      → Fits l now (ts ++ now ∷ [])
  append-Fits now ts (a, past, short) room = (
    Ascending-append now ts a past,
    All-append (λ t. t ≤ now) ts (now ∷ []) past (omega arith, tt),
    omega (arith, length-append_one now ts, room),
  )
