-- ===== src/SubsetSum/Complete.antt =====
-- What `_find_subset` may miss
-- (backend/app/services/payment_matching.py and receivable_matching.py).
use mathlib.Core.Path.{subst}
use k_aikei.Prelude.{
  ℕ, ◌≤◌, ◌≡◌, ◌≢◌, refl, sym, ◌∙◌, true, false, ◌||◌, Option, none, some, List, [], ◌∷◌, ◌++◌, map,
  length, ltb, All, All-Subseq, Subseq, done, skip, keep, Bool-cases, Option-cases, inl, inr, arith,
}
use k_aikei.Prelude.Int.{ℤ, pos, ◌+ℤ◌, ◌≤ℤ◌, ◌<ℤ◌, ltb_ℤ, eqb_ℤ, int_laws, eqb_ℤ_iff}
use k_aikei.Prelude.Totals.{sum_of}
use k_aikei.SubsetSum.{
  Reachable, get_total, has_total, exceeds, extend, reach, find_subset, two_or_more,
  max_subset_candidates,
}
use k_aikei.SubsetSum.Sound.{get-Sound, reach-Sound, nothing_chosen}

has_append : (t : ℤ) (r s : Reachable) → has_total t r ≡ true → has_total t (r ++ s) ≡ true
unfolding has_total get_total
has_append t [] s h = cc
has_append t ((u, ids) ∷ r) s h = elim (Bool-cases (eqb_ℤ u t)) [
  | inl here ↦ rw here
  | inr there ↦ rw there (has_append t r s (rw there at h))
]

has_last : (t : ℤ) (ids : List ℕ) (r : Reachable) → has_total t (r ++ (t, ids) ∷ []) ≡ true
unfolding has_total get_total
has_last t ids [] = rw ((eqb_ℤ_iff t t).1 refl)
has_last t ids ((u, ks) ∷ r) = elim (Bool-cases (eqb_ℤ u t)) [
  | inl here ↦ rw here
  | inr there ↦ rw there (has_last t ids r)
]

sum_nonneg :
    {A : Type 0} (amount : A → ℤ) (xs : List A)
    → All (λ x. pos 0 ≤ℤ amount x) xs
    → pos 0 ≤ℤ sum_of amount xs
sum_nonneg amount [] h = omega arith
sum_nonneg amount (x ∷ xs) h = omega (int_laws, sum_nonneg amount xs h.1)

module _ {A : Type 0} (key : A → ℕ) (amount : A → ℤ) (target : ℤ) (limit : Option ℕ) where
  -- the table after one entry has been visited, where the loop goes on
  record Visited (x : A) (total : ℤ) (r u r' : Reachable) : Type 0 where
    v : Reachable
    run : extend key amount target limit x r v ≡ some r'
    grows : (t : ℤ) → has_total t u ≡ true → has_total t v ≡ true
    adds : total +ℤ amount x ≤ℤ target → has_total (total +ℤ amount x) v ≡ true

  visit :
      (x : A) (total : ℤ) (ids : List ℕ) (r u : Reachable) {r' : Reachable}
      → extend key amount target limit x ((total, ids) ∷ r) u ≡ some r'
      → Visited x total r u r'
  unfolding extend
  visit x total ids r u e =
      let n : ℤ = total +ℤ amount x in
      let u' : Reachable = u ++ (n, ids ++ key x ∷ []) ∷ [] in
      elim (Bool-cases (ltb_ℤ target n || has_total n u)) [
        | inl passed ↦ record {
          v = u;
          run = rw passed at e;
          grows = λ t h. h;
          adds = λ le. known n passed le;
        }
        | inr fresh ↦ elim (Bool-cases (exceeds limit (length u'))) [
          | inl full ↦ cc (rw (fresh, full) at e)
          | inr room ↦ record {
            v = u';
            run = rw (fresh, room) at e;
            grows = λ t h. has_append t u ((n, ids ++ key x ∷ []) ∷ []) h;
            adds = λ le. has_last n (ids ++ key x ∷ []) u;
          }
        ]
      ]
    where
      known :
          (n : ℤ) → (ltb_ℤ target n || has_total n u) ≡ true → n ≤ℤ target → has_total n u ≡ true
      known n h le = ground arith

  -- a total that is in the table stays in it
  extend_keeps :
      (t : ℤ) (x : A) (r u : Reachable) {r' : Reachable}
      → has_total t u ≡ true
      → extend key amount target limit x r u ≡ some r'
      → has_total t r' ≡ true
  extend_keeps t x [] u {r'} h e =
      let same : u ≡ r' = unfold extend in ground arith in rw (← same) h
  extend_keeps t x ((total, ids) ∷ r) u h e =
      let s = visit x total ids r u e in extend_keeps t x r s.v (s.grows t h) s.run

  -- with the item added, a total that was in the table gives one that is in the new table
  extend_adds :
      (t : ℤ) (x : A) (r u : Reachable) {r' : Reachable}
      → has_total t r ≡ true
      → t +ℤ amount x ≤ℤ target
      → extend key amount target limit x r u ≡ some r'
      → has_total (t +ℤ amount x) r' ≡ true
  unfolding has_total get_total
  extend_adds t x [] u h le e = cc
  extend_adds t x ((total, ids) ∷ r) u h le e =
      let s = visit x total ids r u e in
      elim (Bool-cases (eqb_ℤ total t)) [
        | inl here ↦
            let same : total ≡ t = (eqb_ℤ_iff total t).0 here in
            extend_keeps (t +ℤ amount x) x r s.v
              (subst (λ (z : ℤ). has_total (z +ℤ amount x) s.v ≡ true) same
                (s.adds (subst (λ (z : ℤ). z +ℤ amount x ≤ℤ target) (sym same) le)))
              s.run
        | inr there ↦ extend_adds t x r s.v (rw there at h) le s.run
      ]

  -- Every selection of what is left, added to a total that is there, gives a total that is there.
  reach_complete :
      (t : ℤ) (xs : List A) (r : Reachable) {chosen : List A} {r' : Reachable}
      → All (λ x. pos 0 ≤ℤ amount x) xs
      → has_total t r ≡ true
      → Subseq chosen xs
      → t +ℤ sum_of amount chosen ≤ℤ target
      → reach key amount target limit xs r ≡ some r'
      → has_total (t +ℤ sum_of amount chosen) r' ≡ true
  unfolding reach
  reach_complete t [] r {r' = r'} a h done le e =
      let same : r ≡ r' = ground arith in
      let same_total : t +ℤ pos 0 ≡ t = omega int_laws in rw (same_total, ← same) h
  reach_complete t (x ∷ xs) r {r' = r'} a h (skip {ys = ys} s) le e =
      elim (Option-cases (extend key amount target limit x r r)) [
        | inl full ↦ cc (rw full at e)
        | inr (r₁, step) ↦
            reach_complete t xs r₁ a.1 (extend_keeps t x r r h step) s le (rw step at e)
      ]
  reach_complete t (x ∷ xs) r {r' = r'} a h (keep {ys = ys} s) le e =
      elim (Option-cases (extend key amount target limit x r r)) [
        | inl full ↦ cc (rw full at e)
        | inr (r₁, step) ↦
            let rest = sum_nonneg amount ys (All-Subseq _ s a.1) in
            let regroup : (t +ℤ amount x) +ℤ sum_of amount ys
                ≡ t +ℤ (amount x +ℤ sum_of amount ys) =
              omega int_laws in
            subst (λ (z : ℤ). has_total z r' ≡ true) regroup
              (reach_complete (t +ℤ amount x) xs r₁ a.1
                (extend_adds t x r r h (omega (int_laws, rest)) step) s (omega int_laws)
                (rw step at e))
      ]

  -- one key, or none, is no selection for such a target
  two_chosen :
      (xs chosen : List A) (ids : List ℕ)
      → pos 0 <ℤ target
      → All (λ x. amount x ≢ target) chosen
      → ids ≡ map key chosen
      → target ≡ sum_of amount chosen
      → two_or_more ids ≡ some ids
  two_chosen xs [] ids p alone k s = absurd (omega (arith, rw s at p))
  two_chosen xs (x ∷ []) ids p alone k s = absurd (alone.0 (omega int_laws ∙ sym s))
  two_chosen xs (x ∷ y ∷ ys) ids p alone k s = rw k (ground arith)

  -- If the table does not outgrow its limit, a selection that adds up to a Positive target is
  -- found, unless one item is equal to the target alone.
  pub finds :
      (xs chosen : List A) {r : Reachable}
      → All (λ x. pos 0 ≤ℤ amount x) xs
      → pos 0 <ℤ target
      → All (λ x. amount x ≢ target) xs
      → length xs ≤ max_subset_candidates
      → Subseq chosen xs
      → sum_of amount chosen ≡ target
      → reach key amount target limit xs ((pos 0, []) ∷ []) ≡ some r
      → (ids : List ℕ) × (find_subset key amount target limit xs ≡ some ids)
  unfolding find_subset has_total get_total
  finds xs chosen {r} nonneg p alone few s sum run = elim (Option-cases (get_total target r)) [
    | inl absent ↦
        let there =
          reach_complete (pos 0) xs ((pos 0, []) ∷ []) nonneg refl s (rw sum (omega int_laws))
            run in
        let same : pos 0 +ℤ sum_of amount chosen ≡ target = rw sum (omega int_laws) in
        cc (subst (λ (z : ℤ). has_total z r ≡ true) same there, absent)
    | inr (ids, got) ↦
        let chosen_ids =
          get-Sound key amount target limit xs target r
            (reach-Sound key amount target limit [] xs ((pos 0, []) ∷ []) (nothing_chosen, tt) run)
            got in
        let two =
          two_chosen xs chosen_ids.chosen ids p (All-Subseq _ chosen_ids.part alone) chosen_ids.keys
            chosen_ids.sums in
        let few_enough : ltb max_subset_candidates (length xs) ≡ false = ground arith in
        (ids, rw (few_enough, run, got) two)
  ]

module _ {A : Type 0} (key : A → ℕ) (amount : A → ℤ) (target : ℤ) where
  -- Without a limit on the table the loop runs to its end.
  extend_unlimited :
      (x : A) (r u : Reachable) → (r' : Reachable) × (extend key amount target none x r u ≡ some r')
  unfolding extend
  extend_unlimited x [] u = (u, refl)
  extend_unlimited x ((total, ids) ∷ r) u =
      let n : ℤ = total +ℤ amount x in
      let u' : Reachable = u ++ (n, ids ++ key x ∷ []) ∷ [] in
      let skipped = extend_unlimited x r u in
      let added = extend_unlimited x r u' in
      elim (Bool-cases (ltb_ℤ target n || has_total n u)) [
        | inl passed ↦ (skipped.0, rw passed skipped.1)
        | inr fresh ↦ (added.0, rw fresh added.1)
      ]

  reach_unlimited :
      (xs : List A) (r : Reachable)
      → (r' : Reachable) × (reach key amount target none xs r ≡ some r')
  unfolding reach
  reach_unlimited [] r = (r, refl)
  reach_unlimited (x ∷ xs) r =
      let step = extend_unlimited x r r in
      let rest = reach_unlimited xs step.0 in (rest.0, rw step.1 rest.1)

  -- With no limit on the table, at most 24 items and no amount below zero: if some of the items add
  -- up to a Positive target, and no item is equal to it alone, such items are found.
  pub find_subset_complete :
      (xs chosen : List A)
      → All (λ x. pos 0 ≤ℤ amount x) xs
      → pos 0 <ℤ target
      → All (λ x. amount x ≢ target) xs
      → length xs ≤ max_subset_candidates
      → Subseq chosen xs
      → sum_of amount chosen ≡ target
      → (ids : List ℕ) × (find_subset key amount target none xs ≡ some ids)
  find_subset_complete xs chosen nonneg p alone few s sum =
      finds key amount target none xs chosen nonneg p alone few s sum
        (reach_unlimited xs ((pos 0, []) ∷ [])).1
