-- ===== src/Approval/Workflow.antt =====
-- Which workflow applies to a journal and what an approval requires
-- (backend/app/services/approval_service.py).
use mathlib.Core.List.{Mem, mem-cons}
use mathlib.Core.Logic.Or
use k_aikei.Prelude.{
  ◌↔◌, ℕ, ◌≡◌, refl, ◌≢◌, ◌⊎◌, inl, inr, true, false, Option, none, some, List, [], ◌∷◌, All,
  keep_if, arith, Bool-cases, Option-cases, String,
}
use k_aikei.Prelude.Int.{ℤ, ◌≤ℤ◌, ltb_ℤ}
use k_aikei.Result.{ok}
use k_aikei.Rbac.{has_permission, journal_approve}
use k_aikei.Rbac.Separation.{approvers}
use k_aikei.Approval.{
  submitted, approved, JournalHeader, User, Db, ApprovalWorkflow, find_journal, find_user,
  journal_total, is_applicable, higher, highest, applicable_workflow, workflow_allows,
  approve_journal, after,
}

-- `w` is one of the workflows that apply, and none that applies has a higher threshold.
pub data Governs (company : ℕ) (amount : ℤ) (ws : List ApprovalWorkflow)
    : Option ApprovalWorkflow → Type 0 where
  nothing : All (λ v. is_applicable company amount v ≡ false) ws → Governs company amount ws none
  strictest :
      (w : ApprovalWorkflow)
      → Mem w ws
      → is_applicable company amount w ≡ true
      → All
          (λ v.
            (is_applicable company amount v ≡ false) ⊎ (v.threshold_amount ≤ℤ w.threshold_amount))
          ws
      → Governs company amount ws (some w)

module _ (company : ℕ) (amount : ℤ) where
  Governs-skip :
      (v : ApprovalWorkflow) (ws : List ApprovalWorkflow) {o : Option ApprovalWorkflow}
      → is_applicable company amount v ≡ false
      → Governs company amount ws o
      → Governs company amount (v ∷ ws) o
  Governs-skip v ws h (nothing a) = nothing (h, a)
  Governs-skip v ws h (strictest w m p a) = strictest w (mem-cons.1 (Or.inr m)) p (inl h, a)

  raise_bound :
      (b c : ℤ) (ws : List ApprovalWorkflow)
      → b ≤ℤ c
      → All (λ v. (is_applicable company amount v ≡ false) ⊎ (v.threshold_amount ≤ℤ b)) ws
      → All (λ v. (is_applicable company amount v ≡ false) ⊎ (v.threshold_amount ≤ℤ c)) ws
  raise_bound b c [] le h = tt
  raise_bound b c (v ∷ ws) le (inl p, h) = (inl p, raise_bound b c ws le h)
  raise_bound b c (v ∷ ws) le (inr p, h) = (inr (omega arith), raise_bound b c ws le h)

  no_bound :
      (c : ℤ) (ws : List ApprovalWorkflow)
      → All (λ v. is_applicable company amount v ≡ false) ws
      → All (λ v. (is_applicable company amount v ≡ false) ⊎ (v.threshold_amount ≤ℤ c)) ws
  no_bound c [] h = tt
  no_bound c (v ∷ ws) h = (inl h.0, no_bound c ws h.1)

  Governs-take :
      (v : ApprovalWorkflow) (ws : List ApprovalWorkflow) {o : Option ApprovalWorkflow}
      → is_applicable company amount v ≡ true
      → Governs company amount ws o
      → Governs company amount (v ∷ ws) (higher v o)
  Governs-take v ws h (nothing a) =
      strictest v (mem-cons.1 (Or.inl refl)) h (inr (omega arith), no_bound v.threshold_amount ws a)
  Governs-take v ws h (strictest w m p a) =
      elim (Bool-cases (ltb_ℤ v.threshold_amount w.threshold_amount)) [
        | inl below ↦ rw below (strictest w (mem-cons.1 (Or.inr m)) p (inr (ground arith), a))
        | inr above ↦ rw above (
            strictest v (mem-cons.1 (Or.inl refl)) h (
              inr (omega arith),
              raise_bound w.threshold_amount v.threshold_amount ws (ground arith) a,
            ))
      ]

  governs :
      (ws : List ApprovalWorkflow)
      → Governs company amount ws (highest (keep_if (is_applicable company amount) ws))
  unfolding highest
  governs [] = nothing tt
  governs (v ∷ ws) = elim (Bool-cases (is_applicable company amount v)) [
    | inl applies ↦ rw applies (Governs-take v ws applies (governs ws))
    | inr skipped ↦ rw skipped (Governs-skip v ws skipped (governs ws))
  ]

-- The workflow that is chosen applies to the company and the amount, and no workflow that applies
-- has a higher threshold; none is chosen only if none applies.
pub applicable_workflow_is_strictest :
    (company : ℕ) (amount : ℤ) (ws : List ApprovalWorkflow)
    → Governs company amount ws (applicable_workflow company amount ws)
unfolding applicable_workflow
applicable_workflow_is_strictest company amount ws = governs company amount ws

approval_requires :
    (db : Db) (id who : ℕ) (comment : Option String) {new : JournalHeader} {db' : Db}
    → approve_journal db id who comment ≡ ok (new, db')
    → (old : JournalHeader) × (u : User) × (find_journal id db.journals ≡ some old)
      × (old.approval_status ≡ submitted)
      × (old.created_by ≢ who)
      × (find_user who db.users ≡ some u)
      × ((u.role ≡ "admin") ⊎ (u.role ≡ "approver"))
      × (workflow_allows
            (applicable_workflow old.company_id (journal_total id db.lines) db.workflows)
            u.role
          ≡ true)
      × (new ≡ record old { approval_status = approved; approved_by = some who })
unfolding approve_journal
approval_requires db id who comment h = elim (Option-cases (find_journal id db.journals)) [
  | inl missing ↦ absurd (ground arith)
  | inr (old, e) ↦ elim (Option-cases (find_user who db.users)) [
    | inl unknown ↦ absurd (ground arith)
    | inr (u, f) ↦ (
      old,
      u,
      e,
      ground arith,
      ground arith,
      f,
      (approvers u.role).0.0 (ground arith),
      ground arith,
      ground arith,
    )
  ]
]

approval_succeeds :
    (db : Db) (id who : ℕ) (comment : Option String) {old : JournalHeader} {u : User}
    → find_journal id db.journals ≡ some old
    → old.approval_status ≡ submitted
    → old.created_by ≢ who
    → find_user who db.users ≡ some u
    → (u.role ≡ "admin") ⊎ (u.role ≡ "approver")
    → workflow_allows
        (applicable_workflow old.company_id (journal_total id db.lines) db.workflows)
        u.role
      ≡ true
    → (db' : Db) × (approve_journal db id who comment
        ≡ ok (record old { approval_status = approved; approved_by = some who }, db'))
unfolding approve_journal
approval_succeeds db id who comment {old} {u} e s ne f r w =
    let permitted : has_permission u.role journal_approve ≡ true = (approvers u.role).0.1 r in
    (after db (approve_journal db id who comment), ground arith)

-- What an approval needs: a submitted journal, and a known user who did not create it and whose role
-- may approve and is allowed by the workflow that applies.
abbrev pub MayApprove : Db → ℕ → ℕ → JournalHeader → User → Type 0
MayApprove db id who old u =
    (find_journal id db.journals ≡ some old)
    × (old.approval_status ≡ submitted)
    × (old.created_by ≢ who)
    × (find_user who db.users ≡ some u)
    × ((u.role ≡ "admin") ⊎ (u.role ≡ "approver"))
    × (workflow_allows (applicable_workflow old.company_id (journal_total id db.lines) db.workflows)
          u.role
        ≡ true)

-- An approval succeeds exactly for a submitted journal and a known user who did not create it, whose
-- role is "admin" or "approver" and is allowed by the workflow that applies. The journal that is
-- returned is then the one that was found, approved by that user and otherwise as it was.
pub approve_journal_lem :
    (db : Db) (id who : ℕ) (comment : Option String) (new : JournalHeader)
    → ((db' : Db) × (approve_journal db id who comment ≡ ok (new, db'))) ↔ (
        (old : JournalHeader) × (u : User) × MayApprove db id who old u
        × (new ≡ record old { approval_status = approved; approved_by = some who }))
approve_journal_lem db id who comment new = (
  (λ (db', run).
      let (old, u, found, submitted', other, known, role, allowed, same) =
        approval_requires db id who comment run in
      (old, u, (found, submitted', other, known, role, allowed), same)),
  λ (old, u, (found, submitted', other, known, role, allowed), same).
      rw same (approval_succeeds db id who comment found submitted' other known role allowed),
)
