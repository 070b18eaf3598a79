-- ===== src/Rbac/Separation.antt =====
-- Which roles may prepare, approve and post (backend/app/core/rbac.py).
use text.Mathlib.Text.{◌==◌ as str_eq}
use text.Mathlib.TextEquality.{eq_iff}
use k_aikei.Prelude.{
  String, ◌≡◌, refl, ap, ◌∙◌, ◌↔◌, Bool, true, Option, none, some, List, [], ◌∷◌, any, map, ◌⊎◌,
  inl, inr, arith,
}
use k_aikei.Rbac.{
  Role, admin, approver, Permission, value, journal_create, journal_approve, journal_post,
  role_permissions, permits, values_of, parse_role, grants, has_permission, get_role_permissions,
}

parse_role-admin : (s : String) → parse_role s ≡ some admin → s ≡ "admin"
unfolding parse_role
parse_role-admin s h = ground (arith, eq_iff s "admin")

parse_role-approver : (s : String) → parse_role s ≡ some approver → s ≡ "approver"
unfolding parse_role
parse_role-approver s h = ground (arith, eq_iff s "approver")

role_of_both :
    (r : Role) → grants r journal_create ≡ true → grants r journal_approve ≡ true → r ≡ admin
unfolding grants
role_of_both admin c a = refl
role_of_both _ c a = cc

role_of_approve : (r : Role) → grants r journal_approve ≡ true → (r ≡ admin) ⊎ (r ≡ approver)
unfolding grants
role_of_approve admin a = inl refl
role_of_approve approver a = inr refl
role_of_approve _ a = cc

role_of_post : (r : Role) → grants r journal_post ≡ grants r journal_approve
unfolding grants
role_of_post admin = refl
role_of_post _ = refl

create_and_approve :
    (s : String)
    → has_permission s journal_create ≡ true
    → has_permission s journal_approve ≡ true
    → s ≡ "admin"
unfolding has_permission
create_and_approve s = go (parse_role s) refl
  where
    go :
        (o : Option Role)
        → parse_role s ≡ o
        → permits o journal_create ≡ true
        → permits o journal_approve ≡ true
        → s ≡ "admin"
    go none e c a = cc
    go (some r) e c a = parse_role-admin s (e ∙ ap some (role_of_both r c a))

pub approvers :
    (s : String)
    → ((has_permission s journal_approve ≡ true) ↔ ((s ≡ "admin") ⊎ (s ≡ "approver")))
      × (has_permission s journal_post ≡ has_permission s journal_approve)
unfolding has_permission
approvers s = ((approves (parse_role s) refl, named), posts (parse_role s))
  where
    approves :
        (o : Option Role)
        → parse_role s ≡ o
        → permits o journal_approve ≡ true
        → (s ≡ "admin") ⊎ (s ≡ "approver")
    approves none e a = cc
    approves (some r) e a = elim (role_of_approve r a) [
      | inl is_admin ↦ inl (parse_role-admin s (e ∙ ap some is_admin))
      | inr is_approver ↦ inr (parse_role-approver s (e ∙ ap some is_approver))
    ]

    named : (s ≡ "admin") ⊎ (s ≡ "approver") → permits (parse_role s) journal_approve ≡ true
    named (inl e) = rw e (unfold parse_role grants in refl)
    named (inr e) = rw e (unfold parse_role grants in refl)

    posts : (o : Option Role) → permits o journal_post ≡ permits o journal_approve
    posts none = refl
    posts (some r) = role_of_post r

any-map :
    (p : String → Bool) (ps : List Permission) → any p (map value ps) ≡ any (λ q. p (value q)) ps
any-map p [] = refl
any-map p (q ∷ ps) = rw (any-map p ps)

reported_permissions :
    (s : String) (p : Permission)
    → any (λ v. str_eq v (value p)) (get_role_permissions s) ≡ has_permission s p
unfolding has_permission get_role_permissions
reported_permissions s p = go (parse_role s)
  where
    go : (o : Option Role) → any (λ v. str_eq v (value p)) (values_of o) ≡ permits o p
    go none = refl
    go (some r) = unfold grants in any-map (λ v. str_eq v (value p)) (role_permissions r)

admin_does_both :
    (s : String)
    → s ≡ "admin"
    → (has_permission s journal_create ≡ true) × (has_permission s journal_approve ≡ true)
unfolding has_permission
admin_does_both s e = rw e (unfold parse_role grants in (refl, refl))

-- Of every text as a role: only "admin" can both create a journal and approve one, exactly "admin" and
-- "approver" can approve, and a role that can approve can post. A permission is granted exactly when
-- its value is in the list that is reported for the role.
pub role_table :
    (s : String)
    → (((has_permission s journal_create ≡ true) × (has_permission s journal_approve ≡ true))
        ↔ (s ≡ "admin"))
      × ((has_permission s journal_approve ≡ true) ↔ ((s ≡ "admin") ⊎ (s ≡ "approver")))
      × (has_permission s journal_post ≡ has_permission s journal_approve)
      × ((p : Permission)
          → any (λ v. str_eq v (value p)) (get_role_permissions s) ≡ has_permission s p)
role_table s = (
  ((λ (c, a). create_and_approve s c a), admin_does_both s),
  (approvers s).0,
  (approvers s).1,
  reported_permissions s,
)
