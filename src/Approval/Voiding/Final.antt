-- ===== src/Approval/Voiding/Final.antt =====
-- A posted journal under later requests (backend/app/services/approval_service.py and void_journal of
-- backend/app/api/v1/endpoints/journals.py).
use k_aikei.Prelude.{
  ℕ, ◌≡◌, ◌≢◌, refl, ap, ◌∙◌, Bool, true, false, ◌&&◌, ◌||◌, Option, none, some, List, [], ◌∷◌,
  ◌==◌, any, if◌then◌else◌, arith, Bool-cases, inl, inr,
}
use k_aikei.Rbac.{has_permission, journal_void}
use k_aikei.Approval.{
  posted, JournalHeader, Db, run, handle, after, find_journal, put_journal, selects,
}
use k_aikei.Approval.History.{posted_kept, id_of_found, find_put_other}
use k_aikei.Approval.Voiding.{
  Caller, scoped, void_found, void_journal, after_void, JournalRequest, workflow, void,
  run_requests,
}

-- A request to void the journal by a caller who may and whose tenant has its company.
abbrev pub voids : ℕ → JournalHeader → JournalRequest → Bool
voids id j (workflow r) = false
voids id j (void caller other) =
    other == id
    && (has_permission caller.role journal_void
        && any (λ company. company == j.company_id) caller.companies)

abbrev pub voided_if : Bool → JournalHeader → JournalHeader
voided_if b j = record j { is_voided = j.is_voided || b }

find_put_same :
    (id : ℕ) (new : JournalHeader) (js : List JournalHeader) {old : JournalHeader}
    → find_journal id js ≡ some old
    → selects id new ≡ true
    → find_journal id (put_journal id new js) ≡ some new
unfolding find_journal put_journal
find_put_same id new [] h s = cc
find_put_same id new (j ∷ js) {old} h s = ground (arith, h, s, find_put_same id new js {old = old})

or_false : (b : Bool) → b ≡ b || false
or_false true = refl
or_false false = refl

or_true : (b : Bool) → b ≡ true → b ≡ b || true
or_true b h = rw h refl

or_assoc : (a b c : Bool) → (a || b) || c ≡ a || (b || c)
or_assoc true b c = refl
or_assoc false b c = refl

module _ (id : ℕ) where
  abbrev Holds : Db → JournalHeader → Type 0
  Holds db j = find_journal id db.journals ≡ some j

  unchanged : (db : Db) (j : JournalHeader) → Holds db j → Holds db (voided_if false j)
  unchanged db j h = h ∙ ap (λ b. some (record j { is_voided = b })) (or_false j.is_voided)

  found_voided :
      (db : Db) (j : JournalHeader) (voided : Bool)
      → j.is_voided ≡ voided
      → Holds db j
      → Holds (after_void db (void_found db id (some j))) (voided_if true j)
  found_voided db j true e h = rw e (h ∙ ap (λ b. some (record j { is_voided = b })) e)
  found_voided db j false e h = rw e (
      find_put_same id (record j { is_voided = true }) db.journals h
        (id_of_found {old = j} id db.journals h))

  scoped_voided :
      (db : Db) (j : JournalHeader) (own : Bool)
      → Holds db j
      → Holds (after_void db (void_found db id (if own then some j else none))) (voided_if own j)
  scoped_voided db j true h = found_voided db j j.is_voided refl h
  scoped_voided db j false h = unchanged db j h

  allowed_voided :
      (db : Db) (j : JournalHeader) (caller : Caller) (may : Bool)
      → has_permission caller.role journal_void ≡ may
      → Holds db j
      → Holds
          (after_void db (void_journal caller db id))
          (voided_if (may && any (λ company. company == j.company_id) caller.companies) j)
  unfolding void_journal
  allowed_voided db j caller false p h = rw p (unchanged db j h)
  allowed_voided db j caller true p h = rw (p, h) (scoped_voided db j _ h)

  other_found :
      (db : Db) (j : JournalHeader) (other : ℕ) (caller : Caller) (o : Option JournalHeader)
      → id ≢ other
      → find_journal other db.journals ≡ o
      → Holds db j
      → Holds (after_void db (void_found db other (scoped caller o))) j
  other_found db j other caller none ne found h = h
  other_found db j other caller (some k) ne found h =
      elim (Bool-cases (any (λ company. company == k.company_id) caller.companies)) [
        | inr foreign ↦ rw foreign h
        | inl own ↦ elim (Bool-cases k.is_voided) [
          | inl already ↦ rw (own, already) h
          | inr now ↦
              rw (own, now)
                (find_put_other id other (record k { is_voided = true }) db.journals ne
                    (ground (arith, id_of_found {old = k} other db.journals found))
                  ∙ h)
        ]
      ]

  other_voided :
      (db : Db) (j : JournalHeader) (other : ℕ) (caller : Caller)
      → id ≢ other
      → Holds db j
      → Holds (after_void db (void_journal caller db other)) j
  unfolding void_journal
  other_voided db j other caller ne h =
      elim (Bool-cases (has_permission caller.role journal_void)) [
        | inl may ↦ rw may (other_found db j other caller _ ne refl h)
        | inr shut ↦ rw shut h
      ]

  void-Holds :
      (db : Db) (j : JournalHeader) (caller : Caller) (other : ℕ)
      → Holds db j
      → Holds
          (after_void db (void_journal caller db other))
          (voided_if (voids id j (void caller other)) j)
  void-Holds db j caller other h = elim (Bool-cases (other == id)) [
    | inl same ↦
        let e : other ≡ id = ground (arith, same) in
        rw (same, e) (allowed_voided db j caller _ refl h)
    | inr differ ↦ rw differ (
        unchanged (after_void db (void_journal caller db other)) j
          (other_voided db j other caller (λ e. absurd (ground (arith, differ, e))) h))
  ]

-- Whatever requests to submit, approve, reject, post or void journals follow: a posted journal stays
-- in the table as it is, still posted, except that it is voided exactly if it was before or one of
-- the requests voids it, by a caller who has the permission and whose tenant has its company.
pub posted_is_final :
    (rs : List JournalRequest) (db : Db) (id : ℕ) {j : JournalHeader}
    → find_journal id db.journals ≡ some j
    → j.approval_status ≡ posted
    → find_journal id (run_requests db rs).journals
      ≡ some (record j { is_voided = j.is_voided || any (voids id j) rs })
unfolding run_requests run
posted_is_final [] db id {j} found final = unchanged id db j found
posted_is_final (workflow r ∷ rs) db id {j} found final =
    posted_is_final rs (after db (handle db r)) id {j = j}
      (posted_kept (r ∷ []) db id {j = j} found final) final
posted_is_final (void caller other ∷ rs) db id {j} found final =
    posted_is_final rs (after_void db (void_journal caller db other)) id
      {j = voided_if (voids id j (void caller other)) j} (void-Holds id db j caller other found)
      final
    ∙ ap (λ b. some (record j { is_voided = b }))
        (or_assoc j.is_voided (voids id j (void caller other)) (any (voids id j) rs))
