-- ===== src/Approval/History.antt =====
-- The approval log and posted journals
-- (backend/app/services/approval_service.py).
use k_aikei.Prelude.{
  ℕ, ◌≡◌, refl, ◌≢◌, ◌⊎◌, inl, inr, true, some, List, [], ◌∷◌, ◌++◌, arith, sym, ap, ◌∙◌,
}
use k_aikei.Result.{ok}
use k_aikei.Approval.{
  approved, posted, rejected, JournalHeader, Db, Request, run, handle, ApprovalLog, find_journal,
  put_journal, selects, is_valid_transition,
}
use k_aikei.Approval.Steps.{
  Transition, submits, approves, rejects, posts, Step, handle-Step, run_induction, target,
}

module _ {db : Db} {id : ℕ} {old new : JournalHeader} {row : ApprovalLog} where
  logged_from : Transition db id old new row → row.from_status ≡ old.approval_status
  logged_from (submits s n f t c) = f ∙ sym s
  logged_from (approves u s n f t c w p a) = f ∙ sym s
  logged_from (rejects s n f t c) = f
  logged_from (posts u s n f t w p) = f ∙ sym s

  logged_to : Transition db id old new row → row.to_status ≡ new.approval_status
  logged_to (submits s n f t c) = ground arith
  logged_to (approves u s n f t c w p a) = ground arith
  logged_to (rejects s n f t c) = ground arith
  logged_to (posts u s n f t w p) = ground arith

  logged_valid :
      Transition db id old new row
      → (is_valid_transition row.from_status row.to_status ≡ true)
        ⊎ ((row.from_status ≡ approved) × (row.to_status ≡ rejected))
  unfolding is_valid_transition
  logged_valid (submits s n f t c) = inl (rw (f, t) refl)
  logged_valid (approves u s n f t c w p a) = inl (rw (f, t) refl)
  logged_valid (rejects (inl s) n f t c) = inl (rw (f, s, t) refl)
  logged_valid (rejects (inr s) n f t c) = inr (f ∙ s, t)
  logged_valid (posts u s n f t w p) = inl (rw (f, t) refl)

  not_from_posted : Transition db id old new row → old.approval_status ≢ posted
  not_from_posted (submits s n f t c) e = cc
  not_from_posted (approves u s n f t c w p a) e = cc
  not_from_posted (rejects (inl s) n f t c) e = cc
  not_from_posted (rejects (inr s) n f t c) e = cc
  not_from_posted (posts u s n f t w p) e = cc

  keeps_id : Transition db id old new row → new.journal_header_id ≡ old.journal_header_id
  keeps_id (submits s n f t c) = ground arith
  keeps_id (approves u s n f t c w p a) = ground arith
  keeps_id (rejects s n f t c) = ground arith
  keeps_id (posts u s n f t w p) = ground arith

-- A served request adds one row to the log: the row is about the journal of the request and names
-- the status before and the status after, and the change is one that the table of transitions
-- lists or the rejection of an approved journal.
pub logged_transition :
    (db : Db) (r : Request) {new : JournalHeader} {db' : Db}
    → handle db r ≡ ok (new, db')
    → (old : JournalHeader) × (row : ApprovalLog) × (find_journal (target r) db.journals ≡ some old)
      × (db'.log ≡ db.log ++ row ∷ [])
      × (row.journal_header_id ≡ target r)
      × (row.from_status ≡ old.approval_status)
      × (row.to_status ≡ new.approval_status)
      × ((is_valid_transition row.from_status row.to_status ≡ true)
          ⊎ ((row.from_status ≡ approved) × (row.to_status ≡ rejected)))
logged_transition db r h =
    let st = handle-Step r h in
    (
      st.old,
      st.row,
      st.found,
      ap (λ (s : Db). s.log) st.stored,
      st.about,
      logged_from st.transition,
      logged_to st.transition,
      logged_valid st.transition,
    )

pub id_of_found :
    {old : JournalHeader} (id : ℕ) (js : List JournalHeader)
    → find_journal id js ≡ some old
    → selects id old ≡ true
unfolding find_journal
id_of_found id [] h = cc
id_of_found {old} id (j ∷ js) h = ground (arith, id_of_found {old = old} id js)

pub find_put_other :
    (id other : ℕ) (new : JournalHeader) (js : List JournalHeader)
    → id ≢ other
    → new.journal_header_id ≡ other
    → find_journal id (put_journal other new js) ≡ find_journal id js
unfolding find_journal put_journal
find_put_other id other new [] ne e = refl
find_put_other id other new (j ∷ js) ne e = ground (arith, find_put_other id other new js ne e)

pub posted_kept :
    (rs : List Request) (db : Db) (id : ℕ) {j : JournalHeader}
    → find_journal id db.journals ≡ some j
    → j.approval_status ≡ posted
    → find_journal id (run db rs).journals ≡ some j
posted_kept rs db id {j} found final =
    run_induction (λ s. find_journal id s.journals ≡ some j) keep rs db found
  where
    other_id :
        (s : Db) (other : ℕ) (new : JournalHeader) (s' : Db)
        → Step s other new s'
        → find_journal id s.journals ≡ some j
        → id ≢ other
    other_id s other new s' st h same =
        let e : st.old ≡ j = ground (arith, st.found) in
        not_from_posted st.transition (ground arith)

    new_id :
        (s : Db) (other : ℕ) (new : JournalHeader) (s' : Db)
        → Step s other new s'
        → new.journal_header_id ≡ other
    new_id s other new s' st =
        keeps_id st.transition
        ∙ ground (arith, id_of_found {old = st.old} other s.journals st.found)

    keep :
        (s s' : Db) (other : ℕ) (new : JournalHeader)
        → Step s other new s'
        → find_journal id s.journals ≡ some j
        → find_journal id s'.journals ≡ some j
    keep s s' other new st h = rw (st.stored) (
        find_put_other id other new s.journals (other_id s other new s' st h)
          (new_id s other new s' st)
        ∙ h)
