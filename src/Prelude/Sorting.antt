-- ===== src/Prelude/Sorting.antt =====
-- Sorting by insertion, which stands for `sorted` and `list.sort`: both keep the order of equals.
use Prim.Native.Nat.{ℕ}
use mathlib.Core.Path.{◌≡◌, refl, sym, ap, ◌∙◌}
use mathlib.Core.Bool.{Bool}
use mathlib.Core.Logic.{◌≢◌, inl, inr}
use mathlib.Core.List.{List, [], ◌∷◌, map}
use k_aikei.Prelude.Tests.{if◌then◌else◌, Bool-cases}
use k_aikei.Prelude.Lists.{All}
use k_aikei.Prelude.Int.{ℤ, ◌+ℤ◌, int_laws}
use k_aikei.Prelude.Totals.{sum_of, AllDistinct}

-- `first x y`: `x` may stand before `y`
module _ {A : Type 0} (first : A → A → Bool) where
  unfoldable pub insert_sorted : A → List A → List A
  insert_sorted x [] = x ∷ []
  insert_sorted x (y ∷ ys) = if first x y then x ∷ y ∷ ys else y ∷ insert_sorted x ys

  unfoldable pub sort_by : List A → List A
  sort_by [] = []
  sort_by (x ∷ xs) = insert_sorted x (sort_by xs)

  pub All-insert_sorted :
      (P : A → Type 0) (x : A) (ys : List A) → P x → All P ys → All P (insert_sorted x ys)
  unfolding insert_sorted
  All-insert_sorted P x [] here rest = (here, tt)
  All-insert_sorted P x (y ∷ ys) here (next, rest) = elim (Bool-cases (first x y)) [
    | inl before ↦ rw before (here, (next, rest))
    | inr later ↦ rw later (next, All-insert_sorted P x ys here rest)
  ]

  pub All-sort_by : (P : A → Type 0) (xs : List A) → All P xs → All P (sort_by xs)
  unfolding sort_by
  All-sort_by P [] held = tt
  All-sort_by P (x ∷ xs) (here, rest) =
      All-insert_sorted P x (sort_by xs) here (All-sort_by P xs rest)

  -- Sorting keeps totals.
  module _ (amount : A → ℤ) where
    sum_of-insert_sorted :
        (x : A) (ys : List A) → sum_of amount (insert_sorted x ys) ≡ amount x +ℤ sum_of amount ys
    unfolding insert_sorted
    sum_of-insert_sorted x [] = refl
    sum_of-insert_sorted x (y ∷ ys) = elim (Bool-cases (first x y)) [
      | inl before ↦ rw before refl
      | inr later ↦ rw (later, sum_of-insert_sorted x ys) (omega int_laws)
    ]

    pub sum_of-sort_by : (xs : List A) → sum_of amount (sort_by xs) ≡ sum_of amount xs
    unfolding sort_by
    sum_of-sort_by [] = refl
    sum_of-sort_by (x ∷ xs) =
        sum_of-insert_sorted x (sort_by xs) ∙ ap (λ t. amount x +ℤ t) (sum_of-sort_by xs)

  -- Sorting keeps distinct keys distinct.
  module _ (key : A → ℕ) where
    abbrev DifferFrom : ℕ → List A → Type 0
    DifferFrom k xs = All (λ i. i ≢ k) (map key xs)

    differ-insert_sorted :
        (k : ℕ) (x : A) (ys : List A)
        → key x ≢ k
        → DifferFrom k ys
        → DifferFrom k (insert_sorted x ys)
    unfolding insert_sorted
    differ-insert_sorted k x [] here rest = (here, tt)
    differ-insert_sorted k x (y ∷ ys) here (next, rest) = elim (Bool-cases (first x y)) [
      | inl before ↦ rw before (here, (next, rest))
      | inr later ↦ rw later (next, differ-insert_sorted k x ys here rest)
    ]

    differ-sort_by : (k : ℕ) (xs : List A) → DifferFrom k xs → DifferFrom k (sort_by xs)
    unfolding sort_by
    differ-sort_by k [] held = tt
    differ-sort_by k (x ∷ xs) (here, rest) =
        differ-insert_sorted k x (sort_by xs) here (differ-sort_by k xs rest)

    AllDistinct-insert_sorted :
        (x : A) (ys : List A)
        → DifferFrom (key x) ys
        → AllDistinct (map key ys)
        → AllDistinct (map key (insert_sorted x ys))
    unfolding insert_sorted
    AllDistinct-insert_sorted x [] new held = (tt, tt)
    AllDistinct-insert_sorted x (y ∷ ys) (apart, new) (first_apart, held) =
        elim (Bool-cases (first x y)) [
          | inl before ↦ rw before ((apart, new), (first_apart, held))
          | inr later ↦ rw later (
            differ-insert_sorted (key y) x ys (λ e. apart (sym e)) first_apart,
            AllDistinct-insert_sorted x ys new held,
          )
        ]

    pub AllDistinct-sort_by :
        (xs : List A) → AllDistinct (map key xs) → AllDistinct (map key (sort_by xs))
    unfolding sort_by
    AllDistinct-sort_by [] held = tt
    AllDistinct-sort_by (x ∷ xs) (apart, held) =
        AllDistinct-insert_sorted x (sort_by xs) (differ-sort_by (key x) xs apart)
          (AllDistinct-sort_by xs held)
