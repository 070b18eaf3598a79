-- ===== src/Approval/Steps.antt =====
-- What a call of the approval service that returns has read and written
-- (backend/app/services/approval_service.py): one rule for each handler.
use k_aikei.Prelude.{
  ℕ, String, ◌≡◌, refl, ◌≢◌, ◌⊎◌, inl, inr, true, Option, none, some, List, [], ◌∷◌, ◌++◌,
  Option-cases, arith,
}
use k_aikei.Result.{ok, err}
use k_aikei.Rbac.{has_permission, journal_approve, journal_post}
use k_aikei.Approval.{
  draft, submitted, approved, posted, rejected, JournalHeader, User, Db, ApprovalLog,
  ApprovalAction, find_journal, put_journal, find_user, journal_total, applicable_workflow,
  workflow_allows, submit_for_approval, approve_journal, reject_journal, post_journal, Request,
  submit, approve, reject, post, handle, run, after, Outcome,
}

-- The new row, the log row and the checks that were passed.
pub data Transition (db : Db) (id : ℕ) (old new : JournalHeader) (row : ApprovalLog) : Type 0 where
  submits :
      old.approval_status ≡ draft
      → new ≡ record old { approval_status = submitted }
      → row.from_status ≡ draft
      → row.to_status ≡ submitted
      → old.created_by ≡ row.actor_id
      → Transition db id old new row
  approves :
      (u : User)
      → old.approval_status ≡ submitted
      → new ≡ record old { approval_status = approved; approved_by = some row.actor_id }
      → row.from_status ≡ submitted
      → row.to_status ≡ approved
      → old.created_by ≢ row.actor_id
      → find_user row.actor_id db.users ≡ some u
      → has_permission u.role journal_approve ≡ true
      → workflow_allows
          (applicable_workflow old.company_id (journal_total id db.lines) db.workflows)
          u.role
        ≡ true
      → Transition db id old new row
  rejects :
      (old.approval_status ≡ submitted) ⊎ (old.approval_status ≡ approved)
      → new ≡ record old { approval_status = rejected; approved_by = none }
      → row.from_status ≡ old.approval_status
      → row.to_status ≡ rejected
      → old.created_by ≢ row.actor_id
      → Transition db id old new row
  posts :
      (u : User)
      → old.approval_status ≡ approved
      → new ≡ record old { approval_status = posted }
      → row.from_status ≡ approved
      → row.to_status ≡ posted
      → find_user row.actor_id db.users ≡ some u
      → has_permission u.role journal_post ≡ true
      → Transition db id old new row

-- The whole effect on the store.
pub record Step (db : Db) (id : ℕ) (new : JournalHeader) (db' : Db) : Type 0 where
  pub old : JournalHeader
  pub row : ApprovalLog
  pub found : find_journal id db.journals ≡ some old
  pub about : row.journal_header_id ≡ id
  pub transition : Transition db id old new row
  pub stored :
      db' ≡ record db { journals = put_journal id new db.journals; log = db.log ++ row ∷ [] }

module _ {db : Db} {new : JournalHeader} {db' : Db} (id who : ℕ) where
  submit-Step : submit_for_approval db id who ≡ ok (new, db') → Step db id new db'
  unfolding submit_for_approval
  submit-Step h = elim (Option-cases (find_journal id db.journals)) [
    | inl missing ↦ absurd (ground arith)
    | inr (old, e) ↦ record {
      old = old;
      row = record {
        journal_header_id = id;
        action = ApprovalAction.submit;
        from_status = draft;
        to_status = submitted;
        actor_id = who;
        comment = none;
      };
      found = e;
      about = refl;
      transition = submits (ground arith) (ground arith) refl refl (ground arith);
      stored = ground arith;
    }
  ]

  approve-Step :
      (comment : Option String)
      → approve_journal db id who comment ≡ ok (new, db')
      → Step db id new db'
  unfolding approve_journal
  approve-Step comment h = elim (Option-cases (find_journal id db.journals)) [
    | inl missing ↦ absurd (ground arith)
    | inr (old, e) ↦ elim (Option-cases (find_user who db.users)) [
      | inl unknown ↦ absurd (ground arith)
      | inr (u, f) ↦ record {
        old = old;
        row = record {
          journal_header_id = id;
          action = ApprovalAction.approve;
          from_status = submitted;
          to_status = approved;
          actor_id = who;
          comment = comment;
        };
        found = e;
        about = refl;
        transition =
            approves u (ground arith) (ground arith) refl refl (ground arith) f (ground arith)
              (ground arith);
        stored = ground arith;
      }
    ]
  ]

  reject-Step :
      (comment : Option String)
      → reject_journal db id who comment ≡ ok (new, db')
      → Step db id new db'
  unfolding reject_journal
  reject-Step comment h = elim (Option-cases (find_journal id db.journals)) [
    | inl missing ↦ absurd (ground arith)
    | inr (old, e) ↦ record {
      old = old;
      row = record {
        journal_header_id = id;
        action = ApprovalAction.reject;
        from_status = old.approval_status;
        to_status = rejected;
        actor_id = who;
        comment = comment;
      };
      found = e;
      about = refl;
      transition = rejects (ground arith) (ground arith) refl refl (ground arith);
      stored = ground arith;
    }
  ]

  post-Step : post_journal db id who ≡ ok (new, db') → Step db id new db'
  unfolding post_journal
  post-Step h = elim (Option-cases (find_journal id db.journals)) [
    | inl missing ↦ absurd (ground arith)
    | inr (old, e) ↦ elim (Option-cases (find_user who db.users)) [
      | inl unknown ↦ absurd (ground arith)
      | inr (u, f) ↦ record {
        old = old;
        row = record {
          journal_header_id = id;
          action = ApprovalAction.post;
          from_status = approved;
          to_status = posted;
          actor_id = who;
          comment = none;
        };
        found = e;
        about = refl;
        transition = posts u (ground arith) (ground arith) refl refl f (ground arith);
        stored = ground arith;
      }
    ]
  ]

abbrev pub target : Request → ℕ
target (submit id who) = id
target (approve id who comment) = id
target (reject id who comment) = id
target (post id who) = id

-- A request that is served has made exactly one step, on the journal that it names.
pub handle-Step :
    {db : Db} {new : JournalHeader} {db' : Db} (r : Request)
    → handle db r ≡ ok (new, db')
    → Step db (target r) new db'
unfolding handle
handle-Step (submit id who) h = submit-Step id who h
handle-Step (approve id who comment) h = approve-Step id who comment h
handle-Step (reject id who comment) h = reject-Step id who comment h
handle-Step (post id who) h = post-Step id who h

-- Every sequence of requests is a sequence of such steps, with refused requests left out.
pub run_induction {ℓ} :
    (P : Db → Type ℓ)
    → ((db db' : Db) (id : ℕ) (new : JournalHeader) → Step db id new db' → P db → P db')
    → (rs : List Request) (db : Db) → P db
    → P (run db rs)
unfolding run
run_induction P keep [] db h = h
run_induction P keep (r ∷ rs) db h =
    run_induction P keep rs (after db (handle db r)) (go (handle db r) refl)
  where
    go : (o : Outcome) → handle db r ≡ o → P (after db o)
    go (ok (new, db')) e = keep db db' (target r) new (handle-Step r e) h
    go (err x) e = h
