-- ===== src/Rbac.antt =====
-- backend/app/core/rbac.py: the roles, their permissions, and the test that every guarded
-- operation makes. The enums are `str` enums, which Python compares by their values.
pub mod Separation
mod Tests
use text.Mathlib.Text.{◌==◌ as str_eq}
use k_aikei.Prelude.{
  String, Bool, false, Option, none, some, List, [], ◌∷◌, any, map, if◌then◌else◌,
}

pub data Role : Type 0 where
  admin accountant approver viewer : Role

pub data Permission : Type 0 where
  journal_create journal_read journal_update journal_delete : Permission
  journal_approve journal_post journal_void : Permission
  master_create master_read master_update master_delete : Permission
  ai_infer ai_review : Permission
  report_read report_export : Permission
  integration_import integration_config : Permission
  webhook_manage audit_review document_manage : Permission
  knowledge_search user_manage payroll_approve payroll_post : Permission

-- `Permission.….value`
unfoldable pub value : Permission → String
value journal_create = "journal:create"
value journal_read = "journal:read"
value journal_update = "journal:update"
value journal_delete = "journal:delete"
value journal_approve = "journal:approve"
value journal_post = "journal:post"
value journal_void = "journal:void"
value master_create = "master:create"
value master_read = "master:read"
value master_update = "master:update"
value master_delete = "master:delete"
value ai_infer = "ai:infer"
value ai_review = "ai:review"
value report_read = "report:read"
value report_export = "report:export"
value integration_import = "integration:import"
value integration_config = "integration:config"
value webhook_manage = "webhook:manage"
value audit_review = "audit:review"
value document_manage = "document:manage"
value knowledge_search = "knowledge:search"
value user_manage = "user:manage"
value payroll_approve = "payroll:approve"
value payroll_post = "payroll:post"

-- `set(Permission)`
abbrev pub all_permissions : List Permission
all_permissions =
    journal_create ∷ journal_read ∷ journal_update ∷ journal_delete ∷ journal_approve ∷ journal_post
    ∷ journal_void ∷ master_create ∷ master_read ∷ master_update ∷ master_delete ∷ ai_infer
    ∷ ai_review ∷ report_read ∷ report_export ∷ integration_import ∷ integration_config
    ∷ webhook_manage ∷ audit_review ∷ document_manage ∷ knowledge_search ∷ user_manage
    ∷ payroll_approve ∷ payroll_post ∷ []

-- ROLE_PERMISSIONS
unfoldable pub role_permissions : Role → List Permission
role_permissions admin = all_permissions
role_permissions accountant =
    journal_create ∷ journal_read ∷ journal_update ∷ journal_void ∷ master_create ∷ master_read
    ∷ master_update ∷ ai_infer ∷ report_read ∷ report_export ∷ integration_import ∷ knowledge_search
    ∷ document_manage ∷ []
role_permissions approver =
    journal_read ∷ journal_approve ∷ journal_post ∷ report_read ∷ ai_review ∷ knowledge_search
    ∷ payroll_approve ∷ payroll_post ∷ audit_review ∷ []
role_permissions viewer = journal_read ∷ master_read ∷ report_read ∷ knowledge_search ∷ []

-- `Role(role)`: none where Python raises ValueError
unfoldable pub parse_role : String → Option Role
parse_role s =
    if str_eq s "admin"
    then some admin
    else if str_eq s "accountant"
    then some accountant
    else if str_eq s "approver"
    then some approver
    else if str_eq s "viewer"
    then some viewer
    else none

-- `permission in ROLE_PERMISSIONS.get(r, set())`
unfoldable pub grants : Role → Permission → Bool
unfolding value role_permissions
grants r p = any (λ q. str_eq (value q) (value p)) (role_permissions r)

-- the two sides of the `try` on `Role(role)`
abbrev pub permits : Option Role → Permission → Bool
permits none p = false
permits (some r) p = grants r p

abbrev pub values_of : Option Role → List String
values_of none = []
values_of (some r) = map value (role_permissions r)

unfoldable pub has_permission : String → Permission → Bool
has_permission role p = permits (parse_role role) p

unfoldable pub get_role_permissions : String → List String
get_role_permissions role = values_of (parse_role role)
