-- ===== src/SubsetSum/Sound.antt =====
-- What `_find_subset` returns (backend/app/services/payment_matching.py).
use mathlib.Core.Path.{subst, subst₂}
use mathlib.Core.List.{map-append, append-nil, append_assoc}
use k_aikei.Prelude.{
  ℕ, ◌≤◌, ◌≡◌, refl, ◌||◌, Option, some, List, [], ◌∷◌, ◌++◌, map, length, ltb, All, All-append,
  Subseq, done, Subseq-skip_last, Subseq-keep_last, Bool-cases, Option-cases, inl, inr, arith,
}
use k_aikei.Prelude.Int.{ℤ, pos, ◌+ℤ◌, ltb_ℤ, eqb_ℤ, int_laws, eqb_ℤ_iff}
use k_aikei.Prelude.Totals.{sum_of, sum_of-append}
use k_aikei.SubsetSum.{
  Reachable, get_total, has_total, exceeds, extend, reach, find_subset, two_or_more,
  max_subset_candidates,
}

module _ {A : Type 0} (key : A → ℕ) (amount : A → ℤ) where
  -- The keys are those of a selection from `xs`, which adds up to the total.
  pub record Selection (xs : List A) (total : ℤ) (ids : List ℕ) : Type 0 where
    pub chosen : List A
    pub part : Subseq chosen xs
    pub keys : ids ≡ map key chosen
    pub sums : total ≡ sum_of amount chosen

module _ {A : Type 0} {key : A → ℕ} {amount : A → ℤ} where
  pub nothing_chosen : Selection key amount [] (pos 0) []
  nothing_chosen = record { chosen = []; part = done; keys = refl; sums = refl }

  Selection-skip :
      {xs : List A} {total : ℤ} {ids : List ℕ} (x : A)
      → Selection key amount xs total ids
      → Selection key amount (xs ++ x ∷ []) total ids
  Selection-skip x s = record {
    chosen = s.chosen;
    part = Subseq-skip_last x s.part;
    keys = s.keys;
    sums = s.sums;
  }

  Selection-keep :
      {xs : List A} {total : ℤ} {ids : List ℕ} (x : A)
      → Selection key amount xs total ids
      → Selection key amount (xs ++ x ∷ []) (total +ℤ amount x) (ids ++ key x ∷ [])
  Selection-keep x s = record {
    chosen = s.chosen ++ x ∷ [];
    part = Subseq-keep_last x s.part;
    keys = rw (map-append, s.keys) refl;
    sums = rw (sum_of-append, s.sums) (omega int_laws);
  }

module _ {A : Type 0} (key : A → ℕ) (amount : A → ℤ) (target : ℤ) (limit : Option ℕ) where
  -- every entry of the table is a selection from the items seen so far
  abbrev pub Sound : List A → Reachable → Type 0
  Sound seen = All (λ e. Selection key amount seen e.0 e.1)

  extend-Sound :
      (seen : List A) (x : A) (r u : Reachable) {r' : Reachable}
      → Sound seen r
      → Sound (seen ++ x ∷ []) u
      → extend key amount target limit x r u ≡ some r'
      → Sound (seen ++ x ∷ []) r'
  unfolding extend
  extend-Sound seen x [] u {r'} hr hu e =
      let same : u ≡ r' = ground arith in subst (Sound (seen ++ x ∷ [])) same hu
  extend-Sound seen x ((total, ids) ∷ r) u {r'} hr hu e =
      let t : ℤ = total +ℤ amount x in
      let u' : Reachable = u ++ (t, ids ++ key x ∷ []) ∷ [] in
      elim (Bool-cases (ltb_ℤ target t || has_total t u)) [
        | inl passed ↦ extend-Sound seen x r u hr.1 hu (rw passed at e)
        | inr fresh ↦ elim (Bool-cases (exceeds limit (length u'))) [
          | inl full ↦ cc (rw (fresh, full) at e)
          | inr room ↦
              extend-Sound seen x r u' hr.1
                (All-append _ u ((t, ids ++ key x ∷ []) ∷ []) hu (Selection-keep x hr.0, tt))
                (rw (fresh, room) at e)
        ]
      ]

  skip_all : (seen : List A) (x : A) (r : Reachable) → Sound seen r → Sound (seen ++ x ∷ []) r
  skip_all seen x [] h = tt
  skip_all seen x (e ∷ r) h = (Selection-skip x h.0, skip_all seen x r h.1)

  pub reach-Sound :
      (seen xs : List A) (r : Reachable) {r' : Reachable}
      → Sound seen r
      → reach key amount target limit xs r ≡ some r'
      → Sound (seen ++ xs) r'
  unfolding reach
  reach-Sound seen [] r {r'} h e =
      let same : r ≡ r' = ground arith in rw append-nil (subst (Sound seen) same h)
  reach-Sound seen (x ∷ xs) r {r'} h e =
      elim (Option-cases (extend key amount target limit x r r)) [
        | inl full ↦ cc (rw full at e)
        | inr (r₁, step) ↦
            subst (λ l. Sound l r') (append_assoc seen (x ∷ []) xs)
              (reach-Sound (seen ++ x ∷ []) xs r₁
                (extend-Sound seen x r r h (skip_all seen x r h) step) (rw step at e))
      ]

  pub get-Sound :
      (seen : List A) (t : ℤ) (r : Reachable) {ids : List ℕ}
      → Sound seen r
      → get_total t r ≡ some ids
      → Selection key amount seen t ids
  unfolding get_total
  get-Sound seen t [] h e = cc
  get-Sound seen t ((u, ks) ∷ r) {ids} h e = elim (Bool-cases (eqb_ℤ u t)) [
    | inl here ↦
        let same_total : u ≡ t = (eqb_ℤ_iff u t).0 here in
        let same_ids : ks ≡ ids = ground arith in
        subst₂ (Selection key amount seen) same_total same_ids h.0
    | inr there ↦ get-Sound seen t r h.1 (rw there at e)
  ]

  -- The keys that are returned, two at least, are those of items in the order of the list, and the
  -- amounts of these items add up to the target exactly.
  pub find_subset_sound :
      (xs : List A) {ids : List ℕ}
      → find_subset key amount target limit xs ≡ some ids
      → Selection key amount xs target ids × (2 ≤ length ids)
  unfolding find_subset
  find_subset_sound xs {ids} h = elim (Bool-cases (ltb max_subset_candidates (length xs))) [
    | inl many ↦ cc (rw many at h)
    | inr few ↦ elim (Option-cases (reach key amount target limit xs ((pos 0, []) ∷ []))) [
      | inl full ↦ cc (rw (few, full) at h)
      | inr (r, run) ↦ elim (Option-cases (get_total target r)) [
        | inl absent ↦ cc (rw (few, run, absent) at h)
        | inr (found, got) ↦
            let counted : two_or_more found ≡ some ids = rw (few, run, got) at h in
            let same : found ≡ ids = ground arith in
            (
              subst (Selection key amount xs target) same (
                  get-Sound xs target r
                    (reach-Sound [] xs ((pos 0, []) ∷ []) (nothing_chosen, tt) run) got),
              ground arith,
            )
      ]
    ]
  ]
