-- ===== src/JournalNumbering/Tests.antt =====
-- Tests and witnesses for backend/app/services/journal_numbering.py.
use k_aikei.Prelude.{ℕ, ◌≡◌, refl, List, [], ◌∷◌}
use k_aikei.Prelude.Digits.{Text, digits_of, digits_on, zero_padded}
use k_aikei.JournalNumbering.{
  JournalRow, after_prefix, highest_number, next_journal_number, numbered, max_attempts,
  insert_with_number,
}
use k_aikei.JournalNumbering.Fresh.{Inserted, insert_with_number_lem}

abbrev row : ℕ → Text → JournalRow
row company number = record { company_id = company; journal_number = number }

-- Two rows of company 1, one of them with a number of another form, and one of company 2.
abbrev ledger : List JournalRow
ledger = row 1 (numbered 41) ∷ row 1 (70 ∷ 45 ∷ 57 ∷ []) ∷ row 2 (numbered 99) ∷ []

next_of_ledger : next_journal_number 1 ledger ≡ numbered 42
unfolding next_journal_number highest_number after_prefix zero_padded digits_of digits_on
next_of_ledger = refl

insert_with_number_lem_example :
    Inserted max_attempts 1
      ((row 1 (numbered 42) ∷ []) ∷ [])
      (insert_with_number 1 ((row 1 (numbered 42) ∷ []) ∷ []) ledger)
insert_with_number_lem_example = insert_with_number_lem 1 ((row 1 (numbered 42) ∷ []) ∷ []) ledger
