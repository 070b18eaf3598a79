-- ===== src/Approval/Segregation.antt =====
-- Segregation of duties in backend/app/services/approval_service.py.
use mathlib.Core.Path.{subst}
use k_aikei.Prelude.{
  ℕ, ◌≡◌, ◌≢◌, Option, none, some, List, [], ◌∷◌, All, inl, inr, arith, Bool-cases, sym,
}
use k_aikei.Approval.{
  JournalStatus, approved, posted, JournalHeader, Db, Request, run, find_journal, put_journal,
  selects, ApprovalLog,
}
use k_aikei.Approval.Steps.{Transition, submits, approves, rejects, posts, Step, run_induction}

-- An approved journal has an approver, who is not its creator; a posted one too.
abbrev pub Approvers : JournalStatus → Option ℕ → ℕ → Type 0
Approvers approved (some a) c = a ≢ c
Approvers approved none c = ⊥
Approvers posted (some a) c = a ≢ c
Approvers posted none c = ⊥
Approvers _ _ c = Unit

abbrev pub IsSegregated : JournalHeader → Type 0
IsSegregated j = Approvers j.approval_status j.approved_by j.created_by

find-IsSegregated :
    {old : JournalHeader} (id : ℕ) (js : List JournalHeader)
    → All IsSegregated js
    → find_journal id js ≡ some old
    → IsSegregated old
unfolding find_journal
find-IsSegregated id [] h e = cc
find-IsSegregated {old} id (j ∷ js) h e = elim (Bool-cases (selects id j)) [
  | inl here ↦ let same : j ≡ old = ground arith in subst IsSegregated same h.0
  | inr there ↦ find-IsSegregated id js h.1 (rw there at e)
]

put-IsSegregated :
    (id : ℕ) (new : JournalHeader) (js : List JournalHeader)
    → All IsSegregated js
    → IsSegregated new
    → All IsSegregated (put_journal id new js)
unfolding put_journal
put-IsSegregated id new [] h n = tt
put-IsSegregated id new (j ∷ js) h n = elim (Bool-cases (selects id j)) [
  | inl here ↦ rw here (n, h.1)
  | inr there ↦ rw there (h.0, put-IsSegregated id new js h.1 n)
]

Transition-IsSegregated :
    {db : Db} {id : ℕ} {old new : JournalHeader} {row : ApprovalLog}
    → Transition db id old new row
    → IsSegregated old
    → IsSegregated new
Transition-IsSegregated (submits s n f t c) h = rw n tt
Transition-IsSegregated (approves u s n f t c w p a) h = rw n (λ e. c (sym e))
Transition-IsSegregated (rejects s n f t c) h = rw n tt
Transition-IsSegregated (posts u s n f t w p) h = rw n (rw s at h)

-- Whatever the requests, a journal that is approved or posted has been approved by a user other
-- than its creator, if that was so of the journals at the start.
pub run-IsSegregated :
    (rs : List Request) (db : Db)
    → All IsSegregated db.journals
    → All IsSegregated (run db rs).journals
run-IsSegregated rs db h = run_induction (λ s. All IsSegregated s.journals) keep rs db h
  where
    keep :
        (s s' : Db) (id : ℕ) (new : JournalHeader)
        → Step s id new s'
        → All IsSegregated s.journals
        → All IsSegregated s'.journals
    keep s s' id new st hs = rw st.stored (
        put-IsSegregated id new s.journals hs
          (Transition-IsSegregated st.transition (find-IsSegregated id s.journals hs st.found)))
