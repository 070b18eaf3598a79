-- ===== src/Rbac/Tests.antt =====
-- Tests and witnesses for backend/app/core/rbac.py.
use text.Mathlib.Text.{◌==◌ as str_eq}
use k_aikei.Prelude.{◌≡◌, String, refl, ◌↔◌, ◌⊎◌, true, any}
use k_aikei.Rbac.{
  Permission, journal_create, value, has_permission, parse_role, grants, get_role_permissions,
  journal_approve, journal_post, user_manage,
}
use k_aikei.Rbac.Separation.{role_table}

admin_manages : has_permission "admin" user_manage ≡ true
unfolding has_permission parse_role grants
admin_manages = refl

abbrev approving_role : String
approving_role = "approver"

role_table_example :
    (((has_permission approving_role journal_create ≡ true)
        × (has_permission approving_role journal_approve ≡ true))
      ↔ (approving_role ≡ "admin"))
    × ((has_permission approving_role journal_approve ≡ true)
        ↔ ((approving_role ≡ "admin") ⊎ (approving_role ≡ "approver")))
    × (has_permission approving_role journal_post ≡ has_permission approving_role journal_approve)
    × ((p : Permission)
        → any (λ v. str_eq v (value p)) (get_role_permissions approving_role)
          ≡ has_permission approving_role p)
role_table_example = role_table approving_role
