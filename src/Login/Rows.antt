-- ===== src/Login/Rows.antt =====
-- The row of the user who logs in (backend/app/api/v1/endpoints/auth.py): the query by the address and
-- the write of the changed row.
use k_aikei.Prelude.{
  ap, sym, ◌∙◌, ℕ, ◌≡◌, ◌≢◌, refl, inl, inr, Bool-cases, map, All, false, not, ◌&&◌, some, List, [],
  ◌∷◌, ◌++◌, arith,
}
use k_aikei.Prelude.Digits.{Text, text_eq, text_eq_lem}
use k_aikei.Prelude.Totals.{AllDistinct}
use k_aikei.Login.{LoginUser, find_by_email, put_user}

-- `u` is a row for the address that is not deleted, and `u'` is in its place afterwards.
abbrev pub Replaced : Text → LoginUser → LoginUser → List LoginUser → List LoginUser → Type 0
Replaced email u u' before after =
    (u.email ≡ email)
    × (u.is_deleted ≡ false)
    × (front : List LoginUser) × (back : List LoginUser) × (before ≡ front ++ (u ∷ back))
    × (after ≡ front ++ (u' ∷ back))

differ_here :
    (id : ℕ) (u : LoginUser) (front back : List LoginUser)
    → All (λ k. k ≢ id) (map (λ v. v.user_id) (front ++ (u ∷ back)))
    → u.user_id ≢ id
differ_here id u [] back h = h.0
differ_here id u (v ∷ front) back h = differ_here id u front back h.1

put_user_first :
    (u' v : LoginUser) (vs : List LoginUser)
    → u'.user_id ≡ v.user_id
    → put_user u' (v ∷ vs) ≡ u' ∷ vs
unfolding put_user
put_user_first u' v vs e = ground (arith, e)

put_user_next :
    (u' v : LoginUser) (vs : List LoginUser)
    → u'.user_id ≢ v.user_id
    → put_user u' (v ∷ vs) ≡ v ∷ put_user u' vs
unfolding put_user
put_user_next u' v vs ne = ground (arith, ne)

pub find_by_email-Replaced :
    (email : Text) (us : List LoginUser) (u u' : LoginUser)
    → u'.user_id ≡ u.user_id
    → AllDistinct (map (λ v. v.user_id) us)
    → find_by_email email us ≡ some u
    → Replaced email u u' us (put_user u' us)
unfolding find_by_email
find_by_email-Replaced email [] u u' same apart found = cc
find_by_email-Replaced email (v ∷ vs) u u' same (first, apart) found =
    elim (Bool-cases (text_eq v.email email && not v.is_deleted)) [
      | inl this ↦
          let e : v ≡ u = ground (arith, rw this at found) in
          rw (← e) (
            text_eq_lem v.email email (ground (arith, this)),
            ground (arith, this),
            [],
            vs,
            refl,
            put_user_first u' v vs (same ∙ ap (λ x. x.user_id) (sym e)),
          )
      | inr passed ↦
          let (address, undeleted, front, back, split, put) =
            find_by_email-Replaced email vs u u' same apart (rw passed at found) in
          (
            address,
            undeleted,
            v ∷ front,
            back,
            ap (λ l. v ∷ l) split,
            put_user_next u' v vs
                  (λ e. differ_here v.user_id u front back (rw split at first) (sym same ∙ e))
                ∙ ap (λ l. v ∷ l) put,
          )
    ]
