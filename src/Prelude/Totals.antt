-- ===== src/Prelude/Totals.antt =====
-- Totals and counts over lists.
use Prim.Native.Nat.{ℕ, ◌+◌, ◌≤◌}
use mathlib.Core.Path.{◌≡◌, refl}
use mathlib.Core.Bool.{Bool, false, ◌||◌}
use mathlib.Core.Logic.{◌≢◌, inl, inr}
use mathlib.Core.List.{List, [], ◌∷◌, ◌++◌}
use native.Mathlib.Omega.{arith}
use k_aikei.Prelude.Tests.{◌==◌, ==_cases, if◌then◌else◌}
use k_aikei.Prelude.Int.{ℤ, pos, ◌+ℤ◌, int_laws}
use k_aikei.Prelude.Lists.{All, All-Subseq, Subseq, done, skip, keep}

-- The total of a list of items.
abbrev pub sum_of : {A : Type 0} → (A → ℤ) → List A → ℤ
sum_of amount [] = pos 0
sum_of amount (x ∷ xs) = amount x +ℤ sum_of amount xs

pub sum_of-append :
    {A : Type 0} (amount : A → ℤ) (xs ys : List A)
    → sum_of amount (xs ++ ys) ≡ sum_of amount xs +ℤ sum_of amount ys
sum_of-append amount [] ys = omega int_laws
sum_of-append amount (x ∷ xs) ys = rw (sum_of-append amount xs ys) (omega int_laws)

-- How often a number stands in a list.
abbrev pub count : ℕ → List ℕ → ℕ
count n [] = 0
count n (k ∷ ks) = count n ks + (if k == n then 1 else 0)

pub count-append : (n : ℕ) (ks ms : List ℕ) → count n (ks ++ ms) ≡ count n ks + count n ms
count-append n [] ms = omega arith
count-append n (k ∷ ks) ms = omega (arith, count-append n ks ms)

abbrev pub contains : ℕ → List ℕ → Bool
contains a [] = false
contains a (x ∷ xs) = x == a || contains a xs

-- `len(set(xs)) != len(xs)`
abbrev pub has_duplicates : List ℕ → Bool
has_duplicates [] = false
has_duplicates (x ∷ xs) = contains x xs || has_duplicates xs

abbrev pub AllDistinct : List ℕ → Type 0
AllDistinct [] = Unit
AllDistinct (x ∷ xs) = All (λ y. y ≢ x) xs × AllDistinct xs

contains_none : (a : ℕ) (xs : List ℕ) → contains a xs ≡ false → All (λ y. y ≢ a) xs
contains_none a [] h = tt
contains_none a (x ∷ xs) h = (ground arith, contains_none a xs (ground arith))

pub distinct_of_test : (xs : List ℕ) → has_duplicates xs ≡ false → AllDistinct xs
distinct_of_test [] h = tt
distinct_of_test (x ∷ xs) h =
    (contains_none x xs (ground arith), distinct_of_test xs (ground arith))

count_absent : (a : ℕ) (xs : List ℕ) → All (λ y. y ≢ a) xs → count a xs ≡ 0
count_absent a [] h = refl
count_absent a (x ∷ xs) h = ground (arith, count_absent a xs h.1)

pub count_distinct : (a : ℕ) (xs : List ℕ) → AllDistinct xs → count a xs ≤ 1
count_distinct a [] h = omega arith
count_distinct a (x ∷ xs) h = elim (==_cases x a) [
  | inl same ↦ ground (arith, count_absent a xs (rw (← same) h.0))
  | inr differ ↦ ground (arith, count_distinct a xs h.1)
]

pub AllDistinct-Subseq : {ys xs : List ℕ} → Subseq ys xs → AllDistinct xs → AllDistinct ys
AllDistinct-Subseq done d = tt
AllDistinct-Subseq (skip s) d = AllDistinct-Subseq s d.1
AllDistinct-Subseq (keep s) d = (All-Subseq _ s d.0, AllDistinct-Subseq s d.1)
