-- ===== src/Approval/Rejection.antt =====
-- What a rejection requires (backend/app/services/approval_service.py).
use k_aikei.Prelude.{
  ◌↔◌, ℕ, ◌≡◌, ◌≢◌, ◌⊎◌, inl, inr, Option, none, some, arith, Option-cases, String,
}
use k_aikei.Result.{ok}
use k_aikei.Approval.{
  submitted, approved, rejected, JournalHeader, Db, find_journal, reject_journal, after,
}

-- What a rejection needs: a journal that is submitted or approved, and another user than its creator.
abbrev pub MayReject : Db → ℕ → ℕ → JournalHeader → Type 0
MayReject db id who old =
    (find_journal id db.journals ≡ some old)
    × ((old.approval_status ≡ submitted) ⊎ (old.approval_status ≡ approved))
    × (old.created_by ≢ who)

rejection_requires :
    (db : Db) (id who : ℕ) (comment : Option String) {new : JournalHeader} {db' : Db}
    → reject_journal db id who comment ≡ ok (new, db')
    → (old : JournalHeader) × MayReject db id who old
      × (new ≡ record old { approval_status = rejected; approved_by = none })
unfolding reject_journal
rejection_requires db id who comment h = elim (Option-cases (find_journal id db.journals)) [
  | inl missing ↦ absurd (ground arith)
  | inr (old, e) ↦ (old, (e, ground arith, ground arith), ground arith)
]

rejection_succeeds :
    (db : Db) (id who : ℕ) (comment : Option String) {old : JournalHeader}
    → MayReject db id who old
    → (db' : Db) × (reject_journal db id who comment
        ≡ ok (record old { approval_status = rejected; approved_by = none }, db'))
unfolding reject_journal
rejection_succeeds db id who comment (found, inl open_, other) =
    (after db (reject_journal db id who comment), ground arith)
rejection_succeeds db id who comment (found, inr done, other) =
    (after db (reject_journal db id who comment), ground arith)

-- A rejection succeeds exactly for a journal that is submitted or approved, by a user who did not
-- create it. The journal that is returned is then the one that was found, rejected, without an
-- approver and otherwise as it was.
pub reject_journal_lem :
    (db : Db) (id who : ℕ) (comment : Option String) (new : JournalHeader)
    → ((db' : Db) × (reject_journal db id who comment ≡ ok (new, db'))) ↔ (
        (old : JournalHeader) × MayReject db id who old
        × (new ≡ record old { approval_status = rejected; approved_by = none }))
reject_journal_lem db id who comment new = (
  (λ (db', run). rejection_requires db id who comment run),
  λ (old, allowed, same). rw same (rejection_succeeds db id who comment allowed),
)
