-- ===== src/SubsetSum.antt =====
-- The search for items whose amounts add up to a target, `_find_subset` of
-- backend/app/services/payment_matching.py and of backend/app/services/receivable_matching.py.
-- The first gives up when its table has more than `limit` totals; the second has no such limit.
-- A dict from totals to lists of keys is an association list in insertion order.
pub mod Sound
pub mod Complete
use k_aikei.Prelude.{
  ℕ, ◌+◌, Bool, true, false, ◌||◌, Option, none, some, List, [], ◌∷◌, ◌++◌, length, ltb,
  if◌then◌else◌,
}
use k_aikei.Prelude.Int.{ℤ, pos, ◌+ℤ◌, ltb_ℤ, eqb_ℤ}

-- MAX_SUBSET_CANDIDATES
abbrev pub max_subset_candidates : ℕ
max_subset_candidates = 24

abbrev pub Reachable : Type 0
Reachable = List (ℤ × List ℕ)

-- `reachable.get(total)`
unfoldable pub get_total : ℤ → Reachable → Option (List ℕ)
get_total t [] = none
get_total t ((u, ids) ∷ r) = if eqb_ℤ u t then some ids else get_total t r

abbrev pub is_some {ℓ} : {A : Type ℓ} → Option A → Bool
is_some none = false
is_some (some a) = true

abbrev pub and_then {ℓ κ} : {A : Type ℓ} {B : Type κ} → Option A → (A → Option B) → Option B
and_then none f = none
and_then (some a) f = f a

-- `total in updated`
unfoldable pub has_total : ℤ → Reachable → Bool
has_total t r = is_some (get_total t r)

-- `len(updated) > MAX_SUBSET_STATES`
abbrev pub exceeds : Option ℕ → ℕ → Bool
exceeds none n = false
exceeds (some m) n = ltb m n

-- `if found is None or len(found) < 2: return None`
abbrev pub two_or_more : List ℕ → Option (List ℕ)
two_or_more found = if ltb (length found) 2 then none else some found

module _ {A : Type 0} (key : A → ℕ) (amount : A → ℤ) (target : ℤ) (limit : Option ℕ) where
  -- One item is added to every total that was reachable without it.
  unfoldable pub extend : A → Reachable → Reachable → Option Reachable
  extend x [] updated = some updated
  extend x ((total, ids) ∷ rest) updated =
      let new_total = total +ℤ amount x in
      let skipped = extend x rest updated in
      let updated' = updated ++ (new_total, ids ++ key x ∷ []) ∷ [] in
      let more = extend x rest updated' in
      let added = if exceeds limit (length updated') then none else more in
      if ltb_ℤ target new_total || has_total new_total updated then skipped else added

  unfoldable pub reach : List A → Reachable → Option Reachable
  reach [] r = some r
  reach (x ∷ xs) r = and_then (extend x r r) (λ r'. reach xs r')

  unfoldable pub find_subset : List A → Option (List ℕ)
  find_subset xs =
      if ltb max_subset_candidates (length xs)
      then none
      else and_then (reach xs ((pos 0, []) ∷ [])) (λ r. and_then (get_total target r) two_or_more)
