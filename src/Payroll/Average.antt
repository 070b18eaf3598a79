-- ===== src/Payroll/Average.antt =====
-- backend/app/services/standard_remuneration.py: the average of the months that count. A
-- remuneration is in ten-thousandths of a yen.
use native.Mathlib.Nat.{div-mul-le_self, lt-mul-div-succ}
use k_aikei.Prelude.{
  ℕ, ◌+◌, ◌*◌, ◌/◌, ◌≤◌, ◌<◌, ◌≡◌, refl, Option, none, some, String, List, [], ◌∷◌, leb, length,
  if◌then◌else◌, arith, true, false, Bool-cases, inl, inr, keep_if,
}
use k_aikei.Prelude.Int.{ℤ, pos, negsuc, leb_ℤ, pos-+ℤ}
use k_aikei.Prelude.Totals.{sum_of}
use k_aikei.Result.{Result, ok, err, ◌>>=◌, bind_ok}
use k_aikei.Tax.Units.{per_yen}

pub record RemunerationMonth : Type 0 where
  pub payment_basis_days : ℤ
  pub remuneration : ℤ

abbrev negative_month : Result String (List ℕ)
negative_month = err "months must be non-negative"

-- the round of the loop for a month
abbrev pub add_month : ℕ → ℤ → ℤ → List ℕ → Result String (List ℕ)
add_month least (pos days) (pos paid) rest = ok (if leb least days then paid ∷ rest else rest)
add_month least (negsuc n) paid rest = negative_month
add_month least (pos days) (negsuc n) rest = negative_month

-- `qualifying`, what was paid in the months with at least `least` days
unfoldable pub qualifying : ℕ → List RemunerationMonth → Result String (List ℕ)
qualifying least [] = ok []
qualifying least (m ∷ months) = do
  rest ← qualifying least months
  add_month least m.payment_basis_days m.remuneration rest

abbrev pub sum_ℕ : List ℕ → ℕ
sum_ℕ [] = 0
sum_ℕ (n ∷ ns) = n + sum_ℕ ns

-- the average in whole yen, rounded down
unfoldable pub average : List ℕ → Option ℕ
average [] = none
average (n ∷ ns) = some (sum_ℕ (n ∷ ns) / (length (n ∷ ns) * per_yen))

-- `determine_remuneration_monthly`
unfoldable pub determine_remuneration_monthly :
    List RemunerationMonth → ℤ → Result String (Option ℕ)
determine_remuneration_monthly [] least = err "months must not be empty"
determine_remuneration_monthly (m ∷ months) (negsuc n) =
    err "min_payment_basis_days must be non-negative"
determine_remuneration_monthly (m ∷ months) (pos least) = do
  paid ← qualifying least (m ∷ months)
  ok (average paid)

abbrev pub paid_of : RemunerationMonth → ℤ
paid_of m = m.remuneration

-- the months with enough days
abbrev pub counted : ℕ → List RemunerationMonth → List RemunerationMonth
counted least months = keep_if (λ m. leb_ℤ (pos least) m.payment_basis_days) months

add_month_lem :
    (least : ℕ) (m : RemunerationMonth) (days paid : ℤ) (ns : List ℕ)
    (months : List RemunerationMonth) {out : List ℕ}
    → m.payment_basis_days ≡ days
    → m.remuneration ≡ paid
    → add_month least days paid ns ≡ ok out
    → sum_of paid_of (counted least months) ≡ pos (sum_ℕ ns)
    → length (counted least months) ≡ length ns
    → (sum_of paid_of (counted least (m ∷ months)) ≡ pos (sum_ℕ out))
      × (length (counted least (m ∷ months)) ≡ length out)
add_month_lem least m (negsuc n) paid ns months d p h sums same = cc
add_month_lem least m (pos n) (negsuc k) ns months d p h sums same = cc
add_month_lem least m (pos n) (pos k) ns months {out} d p h sums same =
    elim (Bool-cases (leb least n)) [
      | inl enough ↦
          let e : k ∷ ns ≡ out = ground (arith, rw enough at h) in
          let t : leb_ℤ (pos least) m.payment_basis_days ≡ true = rw d (ground (arith, enough)) in
          rw (← e) (rw t (rw (p, sums, pos-+ℤ k (sum_ℕ ns)) refl, ground (arith, same, t)))
      | inr few ↦
          let e : ns ≡ out = ground (arith, rw few at h) in
          let t : leb_ℤ (pos least) m.payment_basis_days ≡ false = rw d (ground (arith, few)) in
          rw (← e) (rw t (sums, same))
    ]

qualifying_lem :
    (least : ℕ) (months : List RemunerationMonth) {out : List ℕ}
    → qualifying least months ≡ ok out
    → (sum_of paid_of (counted least months) ≡ pos (sum_ℕ out))
      × (length (counted least months) ≡ length out)
unfolding qualifying
qualifying_lem least [] {out} h = let e : [] ≡ out = ground arith in rw (← e) (refl, refl)
qualifying_lem least (m ∷ months) h =
    let (ns, run, added) = bind_ok (qualifying least months) _ h in
    let (sums, same) = qualifying_lem least months run in
    add_month_lem least m m.payment_basis_days m.remuneration ns months refl refl added sums same

-- a whole number of yen that is the average of `total` over `months` months, rounded down
abbrev pub IsAverage : ℕ → ℕ → ℕ → Type 0
IsAverage a total months =
    (a * (months * per_yen) ≤ total) × (total < months * per_yen * (a + 1)) × (0 < months)

-- what the result says of the months that count
abbrev pub Describes : Option ℕ → ℕ → ℕ → Type 0
Describes none total months = months ≡ 0
Describes (some a) total months = IsAverage a total months

average_lem : (ns : List ℕ) → Describes (average ns) (sum_ℕ ns) (length ns)
unfolding average
average_lem [] = refl
average_lem (n ∷ ns) =
    let d = length (n ∷ ns) * per_yen in
    (
      div-mul-le_self (sum_ℕ (n ∷ ns)) d,
      lt-mul-div-succ (sum_ℕ (n ∷ ns)) {b = d} (omega arith),
      omega arith,
    )

-- When months are given and a result is returned, it is none exactly where no month has the least
-- number of days. Otherwise it is the average, in whole yen and rounded down, of what was paid in
-- those months that have it.
pub determine_remuneration_monthly_lem :
    (months : List RemunerationMonth) (least : ℕ) {out : Option ℕ}
    → determine_remuneration_monthly months (pos least) ≡ ok out
    → (total : ℕ) × (sum_of paid_of (counted least months) ≡ pos total)
      × Describes out total (length (counted least months))
unfolding determine_remuneration_monthly
determine_remuneration_monthly_lem [] least h = cc
determine_remuneration_monthly_lem (m ∷ months) least {out} h =
    let (ns, run, rest) = bind_ok (qualifying least (m ∷ months)) (λ x. ok (average x)) h in
    let (sums, same) = qualifying_lem least (m ∷ months) run in
    let e : average ns ≡ out = ground arith in (sum_ℕ ns, sums, rw (← e) (rw same (average_lem ns)))
