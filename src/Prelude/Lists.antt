-- ===== src/Prelude/Lists.antt =====
-- Lists measured by native numbers, and predicates over lists by recursion.
use Prim.Native.Nat.{ℕ, suc, ◌+◌}
use mathlib.Core.Path.{◌≡◌, refl, ap}
use mathlib.Core.Bool.{Bool, true, false, ◌||◌}
use mathlib.Core.List.{List, [], ◌∷◌, ◌++◌, map}
use native.Mathlib.Omega.{arith}

module _ {ℓ} {A : Type ℓ} where
  abbrev pub length : List A → ℕ
  length [] = 0
  length (x ∷ xs) = suc (length xs)

  -- The library's `any` and `filter` do not run in a test or take a decision.
  abbrev pub any : (A → Bool) → List A → Bool
  any p [] = false
  any p (x ∷ xs) = p x || any p xs

  abbrev pub cons_if : Bool → A → List A → List A
  cons_if true x xs = x ∷ xs
  cons_if false x xs = xs

  abbrev pub keep_if : (A → Bool) → List A → List A
  keep_if p [] = []
  keep_if p (x ∷ xs) = cons_if (p x) x (keep_if p xs)

  abbrev pub All {κ} : (A → Type κ) → List A → Type κ
  All P [] = Unit
  All P (x ∷ xs) = P x × All P xs

module _ {ℓ} {A : Type ℓ} where
  pub length-append : (xs ys : List A) → length (xs ++ ys) ≡ length xs + length ys
  length-append [] ys = omega arith
  length-append (x ∷ xs) ys = omega (arith, length-append xs ys)

  pub length-map {κ} : {B : Type κ} (xs : List A) (f : A → B) → length (map f xs) ≡ length xs
  length-map [] f = refl
  length-map (x ∷ xs) f = ap suc (length-map xs f)

  pub All-append {κ} :
      (Q : A → Type κ) (front back : List A) → All Q front → All Q back → All Q (front ++ back)
  All-append Q [] back _ held = held
  All-append Q (a ∷ front) back (here, more) held = (here, All-append Q front back more held)

-- `Subseq ys xs`: `ys` is `xs` with some elements left out.
pub data Subseq {ℓ} {A : Type ℓ} : List A → List A → Type ℓ where
  done : Subseq [] []
  skip : {x : A} {ys xs : List A} → Subseq ys xs → Subseq ys (x ∷ xs)
  keep : {x : A} {ys xs : List A} → Subseq ys xs → Subseq (x ∷ ys) (x ∷ xs)

module _ {ℓ} {A : Type ℓ} where
  pub Subseq-nil : (xs : List A) → Subseq [] xs
  Subseq-nil [] = done
  Subseq-nil (x ∷ xs) = skip (Subseq-nil xs)

  pub Subseq-skip_last : {ys xs : List A} (x : A) → Subseq ys xs → Subseq ys (xs ++ x ∷ [])
  Subseq-skip_last x done = skip done
  Subseq-skip_last x (skip s) = skip (Subseq-skip_last x s)
  Subseq-skip_last x (keep s) = keep (Subseq-skip_last x s)

  pub Subseq-keep_last :
      {ys xs : List A} (x : A) → Subseq ys xs → Subseq (ys ++ x ∷ []) (xs ++ x ∷ [])
  Subseq-keep_last x done = keep done
  Subseq-keep_last x (skip s) = skip (Subseq-keep_last x s)
  Subseq-keep_last x (keep s) = keep (Subseq-keep_last x s)

  pub Subseq-trans : {ys zs : List A} → Subseq ys zs → {xs : List A} → Subseq xs ys → Subseq xs zs
  Subseq-trans done s = s
  Subseq-trans (skip t) s = skip (Subseq-trans t s)
  Subseq-trans (keep t) (skip s) = skip (Subseq-trans t s)
  Subseq-trans (keep t) (keep s) = keep (Subseq-trans t s)

  cons_if-Subseq :
      (b : Bool) (x : A) {ys xs : List A} → Subseq ys xs → Subseq (cons_if b x ys) (x ∷ xs)
  cons_if-Subseq true x s = keep s
  cons_if-Subseq false x s = skip s

  pub keep_if-Subseq : (p : A → Bool) (xs : List A) → Subseq (keep_if p xs) xs
  keep_if-Subseq p [] = done
  keep_if-Subseq p (x ∷ xs) = cons_if-Subseq (p x) x (keep_if-Subseq p xs)

pub All-Subseq {ℓ κ} :
    {A : Type ℓ} (P : A → Type κ) {ys xs : List A} → Subseq ys xs → All P xs → All P ys
All-Subseq P done h = h
All-Subseq P (skip s) h = All-Subseq P s h.1
All-Subseq P (keep s) h = (h.0, All-Subseq P s h.1)

pub Subseq-refl {ℓ} : {A : Type ℓ} (xs : List A) → Subseq xs xs
Subseq-refl [] = done
Subseq-refl (x ∷ xs) = keep (Subseq-refl xs)

pub map-Subseq {ℓ κ} :
    {A : Type ℓ} {B : Type κ} (f : A → B) {ys xs : List A}
    → Subseq ys xs
    → Subseq (map f ys) (map f xs)
map-Subseq f done = done
map-Subseq f (skip s) = skip (map-Subseq f s)
map-Subseq f (keep s) = keep (map-Subseq f s)

pub All-keep_if {ℓ κ} :
    {A : Type ℓ} (P : A → Type κ) (p : A → Bool)
    → ((x : A) → p x ≡ true → P x)
    → (xs : List A) → All P (keep_if p xs)
All-keep_if P p h [] = tt
All-keep_if P p h (x ∷ xs) = go (p x) refl (All-keep_if P p h xs)
  where
    go : (b : Bool) → p x ≡ b → All P (keep_if p xs) → All P (cons_if b x (keep_if p xs))
    go true e rest = (h x e, rest)
    go false e rest = rest
