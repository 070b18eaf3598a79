-- ===== src/Receivables/Deposits.antt =====
-- How one deposit is allocated (backend/app/services/receivable_matching.py).
use k_aikei.Prelude.{
  ℕ, ◌≡◌, ◌≢◌, refl, sym, ap, ◌∙◌, true, false, Option, none, some, String, List, [], ◌∷◌, map, All,
  All-Subseq, All-keep_if, keep_if, keep_if-Subseq, map-Subseq, ◌==◌, Bool-cases, inl, inr, arith,
}
use k_aikei.Prelude.Int.{ℤ, pos, ◌+ℤ◌, ◌-ℤ◌, ◌≤ℤ◌, ◌<ℤ◌, ltb_ℤ, leb_ℤ, eqb_ℤ_iff, int_laws}
use k_aikei.Prelude.Totals.{sum_of, AllDistinct, AllDistinct-Subseq}
use k_aikei.Prelude.Sorting.{All-sort_by, AllDistinct-sort_by}
use k_aikei.Result.{ok}
use k_aikei.SubsetSum.{find_subset}
use k_aikei.SubsetSum.Sound.{find_subset_sound}
use k_aikei.Receivables.{
  Row, Deposit, Allocation, Allocated, row_id, row_outstanding, find_row, candidates, is_candidate,
  due_before, is_exact, is_near, allocation, aggregate, fee_adjusted, exact, aggregate_allocations,
  min_ℤ, partial_allocations, allocate_near, allocate_subset, allocate, applied_of,
}
use k_aikei.Receivables.Applied.{Fits, allocated_id, cleared}

-- A candidate is a row of the table that is open.
abbrev pub IsCandidate : List Row → Row → Type 0
IsCandidate rows c = (find_row (row_id c) rows ≡ some c) × (pos 0 <ℤ c.outstanding)

-- An allocation of a deposit: its parts fit the rows, go to different invoices, and with what
-- remains they are the amount of the deposit.
abbrev pub Allocates : ℤ → List Row → Allocated → Type 0
Allocates amount rows (allocations, remaining) =
    All (Fits rows) allocations
    × AllDistinct (map allocated_id allocations)
    × (amount ≡ sum_of applied_of allocations +ℤ remaining)
    × (pos 0 ≤ℤ remaining)

with_nothing : (a : ℤ) → a ≡ pos 0 +ℤ a
with_nothing a = omega int_laws

alone : (a : ℤ) → a ≡ a +ℤ pos 0 +ℤ pos 0
alone a = omega int_laws

no_fee : (a b : ℤ) → a ≤ℤ b → (a +ℤ pos 0) ≤ℤ b
no_fee a b h = omega int_laws

regroup : (a b : ℤ) → b ≡ a +ℤ (b -ℤ a)
regroup a b = omega int_laws

assoc : (a b c : ℤ) → a +ℤ (b +ℤ c) ≡ a +ℤ b +ℤ c
assoc a b c = omega int_laws

one_part : (a remaining s rest : ℤ) → remaining -ℤ a ≡ s +ℤ rest → remaining ≡ a +ℤ s +ℤ rest
one_part a remaining s rest h = regroup a remaining ∙ ap (λ x. a +ℤ x) h ∙ assoc a s rest

-- what `partial_allocations` takes of a row
min_ℤ_lem :
    (a b : ℤ)
    → pos 0 ≤ℤ a
    → pos 0 ≤ℤ b
    → (pos 0 ≤ℤ min_ℤ a b) × (min_ℤ a b ≤ℤ a) × (pos 0 ≤ℤ (b -ℤ min_ℤ a b))
min_ℤ_lem a b ha hb = elim (Bool-cases (leb_ℤ a b)) [
  | inl less ↦ rw less (ha, omega arith, less_by a b (ground (arith, less)))
  | inr more ↦ rw more (hb, ground (arith, more), less_by b b (omega arith))
]
  where
    less_by : (x y : ℤ) → x ≤ℤ y → pos 0 ≤ℤ (y -ℤ x)
    less_by x y h = omega int_laws

partial_ids :
    (k : ℕ) (cs : List Row) (remaining : ℤ)
    → All (λ i. i ≢ k) (map row_id cs)
    → All (λ i. i ≢ k) (map allocated_id (partial_allocations cs remaining).0)
unfolding partial_allocations
partial_ids k [] remaining apart = tt
partial_ids k (c ∷ cs) remaining (first, apart) = elim (Bool-cases (leb_ℤ remaining (pos 0))) [
  | inl spent ↦ rw spent tt
  | inr left ↦ rw left (first, partial_ids k cs (remaining -ℤ min_ℤ c.outstanding remaining) apart)
]

partial-Allocates :
    (cs rows : List Row) (remaining : ℤ)
    → All (IsCandidate rows) cs
    → AllDistinct (map row_id cs)
    → pos 0 ≤ℤ remaining
    → Allocates remaining rows (partial_allocations cs remaining)
unfolding partial_allocations
partial-Allocates [] rows remaining are apart held = (tt, tt, with_nothing remaining, held)
partial-Allocates (c ∷ cs) rows remaining ((found, owing), are) (first, apart) held =
    elim (Bool-cases (leb_ℤ remaining (pos 0))) [
      | inl spent ↦ rw spent (tt, tt, with_nothing remaining, held)
      | inr left ↦
          let amount = min_ℤ c.outstanding remaining in
          let (some_amount, enough, rest_held) =
            min_ℤ_lem c.outstanding remaining (omega (arith, owing)) held in
          let (fits, distinct, sums, kept) =
            partial-Allocates cs rows (remaining -ℤ amount) are apart rest_held in
          rw left (
            ((c, found, some_amount, omega arith, no_fee amount c.outstanding enough), fits),
            (partial_ids (row_id c) cs (remaining -ℤ amount) first, distinct),
            one_part amount remaining _ _ sums,
            kept,
          )
    ]

-- The allocations to the rows of a selection.
aggregate-Fits :
    (chosen rows : List Row)
    → All (IsCandidate rows) chosen
    → (out : List Allocation) × (aggregate_allocations (map row_id chosen) rows ≡ ok out)
      × All (Fits rows) out
      × (map allocated_id out ≡ map row_id chosen)
      × (sum_of applied_of out ≡ sum_of row_outstanding chosen)
unfolding aggregate_allocations
aggregate-Fits [] rows are = ([], refl, tt, refl, refl)
aggregate-Fits (c ∷ chosen) rows ((found, owing), are) =
    let (rest, run, fits, ids, sums) = aggregate-Fits chosen rows are in
    (
      allocation c c.outstanding (pos 0) aggregate ∷ rest,
      rw (found, run) refl,
      (
        (
          c,
          found,
          omega (arith, owing),
          omega arith,
          no_fee c.outstanding c.outstanding (omega arith),
        ),
        fits,
      ),
      ap (λ i. row_id c ∷ i) ids,
      ap (λ s. c.outstanding +ℤ s) sums,
    )

-- The three kinds of rows that a deposit is held against.
record Choices (d : Deposit) (rows exact_rows near cs : List Row) : Type 0 where
  positive : pos 0 <ℤ d.amount
  exact_ok : All (λ c. IsCandidate rows c × (c.outstanding ≡ d.amount)) exact_rows
  near_ok : All (λ c. IsCandidate rows c × (pos 0 ≤ℤ (c.outstanding -ℤ d.amount))) near
  are : All (IsCandidate rows) cs
  apart : AllDistinct (map row_id cs)

-- one allocation that clears its row
single-Allocates :
    (d : Deposit) (rows : List Row) (a : Allocation) (c : Row)
    → pos 0 <ℤ d.amount
    → a.applied_amount ≡ d.amount
    → find_row a.invoice_id rows ≡ some c
    → pos 0 ≤ℤ a.fee_absorbed
    → cleared a ≤ℤ c.outstanding
    → Allocates d.amount rows (a ∷ [], pos 0)
single-Allocates d rows a c positive same found fee enough = (
  ((c, found, rw same (omega (arith, positive)), fee, enough), tt),
  (tt, tt),
  rw same (alone d.amount),
  omega arith,
)

clears : (a b : ℤ) → (a +ℤ (b -ℤ a)) ≤ℤ b
clears a b = omega int_laws

near-Allocates :
    (d : Deposit) (rows exact_rows near cs : List Row)
    → Choices d rows exact_rows near cs
    → Allocates d.amount rows (allocate_near d near cs)
unfolding allocate_near
near-Allocates d rows es (c ∷ []) cs h =
    let (((found, owing), fee), _) = h.near_ok in
    single-Allocates d rows (allocation c d.amount (c.outstanding -ℤ d.amount) fee_adjusted) c
      h.positive refl found fee (clears d.amount c.outstanding)
near-Allocates d rows es [] cs h =
    partial-Allocates cs rows d.amount h.are h.apart (omega (arith, h.positive))
near-Allocates d rows es (c ∷ c' ∷ near) cs h =
    partial-Allocates cs rows d.amount h.are h.apart (omega (arith, h.positive))

subset-Allocates :
    (d : Deposit) (rows exact_rows near cs : List Row) (o : Option (List ℕ))
    → find_subset row_id row_outstanding d.amount none cs ≡ o
    → Choices d rows exact_rows near cs
    → (out : Allocated) × (allocate_subset d o near cs rows ≡ ok out) × Allocates d.amount rows out
unfolding allocate_subset
subset-Allocates d rows es near cs none run h =
    (allocate_near d near cs, refl, near-Allocates d rows es near cs h)
subset-Allocates d rows es near cs (some ids) run h =
    let (s, _) = find_subset_sound row_id row_outstanding d.amount none cs run in
    let (out, made, fits, same_ids, sums) =
      aggregate-Fits s.chosen rows (All-Subseq (IsCandidate rows) s.part h.are) in
    (
      (out, pos 0),
      rw (s.keys, made) refl,
      (
        fits,
        rw same_ids (AllDistinct-Subseq (map-Subseq row_id s.part) h.apart),
        s.sums ∙ sym sums ∙ plus_nothing (sum_of applied_of out),
        omega arith,
      ),
    )
  where
    plus_nothing : (a : ℤ) → a ≡ a +ℤ pos 0
    plus_nothing a = omega int_laws

allocate-Allocates :
    (d : Deposit) (rows exact_rows near cs : List Row)
    → Choices d rows exact_rows near cs
    → (out : Allocated) × (allocate d exact_rows near cs rows ≡ ok out)
      × Allocates d.amount rows out
unfolding allocate
allocate-Allocates d rows [] near cs h =
    subset-Allocates d rows [] near cs (find_subset row_id row_outstanding d.amount none cs) refl h
allocate-Allocates d rows (c ∷ es) near cs h =
    let (((found, owing), same), _) = h.exact_ok in
    (
      (allocation c d.amount (pos 0) exact ∷ [], pos 0),
      refl,
      single-Allocates d rows (allocation c d.amount (pos 0) exact) c h.positive refl found
          (omega arith) (rw same (no_fee d.amount d.amount (omega arith))),
    )

-- Where ids are distinct, a row is the one that its id finds.
self_found :
    (rows : List Row)
    → AllDistinct (map row_id rows)
    → All (λ c. find_row (row_id c) rows ≡ some c) rows
unfolding find_row
self_found [] d = tt
self_found (r ∷ rows) (apart, d) =
    let here : (row_id r == row_id r) ≡ true = ground arith in
    (rw here refl, behind rows apart (self_found rows d))
  where
    behind :
        (cs : List Row)
        → All (λ i. i ≢ row_id r) (map row_id cs)
        → All (λ c. find_row (row_id c) rows ≡ some c) cs
        → All (λ c. find_row (row_id c) (r ∷ rows) ≡ some c) cs
    behind [] away found = tt
    behind (c ∷ cs) (differs, away) (one, found) =
        let other : (row_id r == row_id c) ≡ false = ground (arith, differs) in
        (rw other one, behind cs away found)

All-both : (P Q : Row → Type 0) (cs : List Row) → All P cs → All Q cs → All (λ c. P c × Q c) cs
All-both P Q [] ps qs = tt
All-both P Q (c ∷ cs) (p, ps) (q, qs) = ((p, q), All-both P Q cs ps qs)

module _ (name_similarity : String → String → ℕ) (tolerance : ℤ) (threshold : ℕ) (d : Deposit)
    (rows : List Row) where
  candidates-IsCandidate :
      AllDistinct (map row_id rows)
      → All (IsCandidate rows) (candidates name_similarity threshold d rows)
        × AllDistinct (map row_id (candidates name_similarity threshold d rows))
  unfolding candidates
  candidates-IsCandidate apart =
      let test = is_candidate name_similarity threshold d in
      let kept = keep_if test rows in
      let part = keep_if-Subseq test rows in
      (
        All-sort_by due_before (IsCandidate rows) kept (
            All-both (λ c. find_row (row_id c) rows ≡ some c) (λ c. pos 0 <ℤ c.outstanding) kept
              (All-Subseq (λ c. find_row (row_id c) rows ≡ some c) part (self_found rows apart))
              (All-keep_if (λ c. pos 0 <ℤ c.outstanding) test (λ c t. ground (arith, t)) rows)),
        AllDistinct-sort_by due_before row_id kept
            (AllDistinct-Subseq (map-Subseq row_id part) apart),
      )

  near_fee : (a : ℤ) → ltb_ℤ (pos 0) a ≡ true → pos 0 ≤ℤ a
  near_fee a h = ground arith

  candidates-Choices :
      pos 0 <ℤ d.amount
      → AllDistinct (map row_id rows)
      → let cs = candidates name_similarity threshold d rows in
        Choices d rows (keep_if (is_exact d) cs) (keep_if (is_near tolerance d) cs) cs
  candidates-Choices positive apart =
      let cs = candidates name_similarity threshold d rows in
      let (are, distinct) = candidates-IsCandidate apart in
      let es = keep_if (is_exact d) cs in
      let near = keep_if (is_near tolerance d) cs in
      record {
        positive = positive;
        exact_ok =
            All-both (IsCandidate rows) (λ c. c.outstanding ≡ d.amount) es
              (All-Subseq (IsCandidate rows) (keep_if-Subseq (is_exact d) cs) are)
              (All-keep_if (λ c. c.outstanding ≡ d.amount) (is_exact d)
                (λ c t. (eqb_ℤ_iff c.outstanding d.amount).0 t) cs);
        near_ok =
            All-both (IsCandidate rows) (λ c. pos 0 ≤ℤ (c.outstanding -ℤ d.amount)) near
              (All-Subseq (IsCandidate rows) (keep_if-Subseq (is_near tolerance d) cs) are)
              (All-keep_if (λ c. pos 0 ≤ℤ (c.outstanding -ℤ d.amount)) (is_near tolerance d)
                (λ c t. near_fee (c.outstanding -ℤ d.amount) (ground (arith, t))) cs);
        are = are;
        apart = distinct;
      }

  -- Every deposit of a positive amount is allocated.
  pub allocated :
      pos 0 <ℤ d.amount
      → AllDistinct (map row_id rows)
      → let cs = candidates name_similarity threshold d rows in
        (out : Allocated) × (allocate d
            (keep_if (is_exact d) cs)
            (keep_if (is_near tolerance d) cs)
            cs
            rows
          ≡ ok out)
        × Allocates d.amount rows out
  allocated positive apart =
      let cs = candidates name_similarity threshold d rows in
      allocate-Allocates d rows (keep_if (is_exact d) cs) (keep_if (is_near tolerance d) cs) cs
        (candidates-Choices positive apart)
