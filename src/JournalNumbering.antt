-- ===== src/JournalNumbering.antt =====
-- backend/app/services/journal_numbering.py: the numbers of journals, which are texts. Other sessions
-- may write between the reading of the numbers and the writing of a journal; what they write before
-- each attempt is an argument. The unique constraint is on the company and the number. Numbers are ASCII
-- texts without a line break; a missing number is the empty text, which has another form than the rest.
pub mod Fresh
mod Tests
use k_aikei.Prelude.{
  ℕ, zero, suc, ◌+◌, max, Bool, true, false, ◌&&◌, ◌||◌, Option, none, some, List, [], ◌∷◌, ◌++◌,
  any, ◌==◌, if◌then◌else◌,
}
use k_aikei.Prelude.Digits.{Text, is_number, text_eq, digits_of, value_of, zero_padded}
use k_aikei.Result.{Result, ok, err}

-- the company and the number of a journal
pub record JournalRow : Type 0 where
  pub company_id : ℕ
  pub journal_number : Text

-- `JRN-`
abbrev pub prefix : Text
prefix = 74 ∷ 82 ∷ 78 ∷ 45 ∷ []

-- the digits after the prefix, where the text has the form of the pattern
unfoldable pub after_prefix : Text → Text → Option Text
after_prefix [] text = if is_number text then some text else none
after_prefix (p ∷ ps) [] = none
after_prefix (p ∷ ps) (c ∷ cs) = if p == c then after_prefix ps cs else none

abbrev pub higher : ℕ → Option Text → ℕ
higher highest none = highest
higher highest (some digits) = max highest (value_of digits)

-- the loop over the numbers of the company
unfoldable pub highest_number : ℕ → List JournalRow → ℕ
highest_number company [] = 0
highest_number company (r ∷ rows) =
    if r.company_id == company
    then higher (highest_number company rows) (after_prefix prefix r.journal_number)
    else highest_number company rows

-- `f"{PREFIX}{highest + 1:08d}"`
abbrev pub numbered : ℕ → Text
numbered n = prefix ++ zero_padded 8 (digits_of n)

unfoldable pub next_journal_number : ℕ → List JournalRow → Text
next_journal_number company rows = numbered (highest_number company rows + 1)

-- MAX_ATTEMPTS
abbrev pub max_attempts : ℕ
max_attempts = 8

-- the unique constraint
abbrev pub is_same : ℕ → Text → JournalRow → Bool
is_same company number r = r.company_id == company && text_eq r.journal_number number

abbrev pub is_taken : ℕ → Text → List JournalRow → Bool
is_taken company number rows = any (is_same company number) rows

-- IntegrityError, after the last attempt
pub data IntegrityError : Type 0 where
  number_taken : IntegrityError

-- what other sessions write during the next attempt, and during those after it
abbrev pub arriving : List (List JournalRow) → List JournalRow
arriving [] = []
arriving (rows ∷ later) = rows

abbrev pub later_arrivals : List (List JournalRow) → List (List JournalRow)
later_arrivals [] = []
later_arrivals (rows ∷ later) = later

-- the rounds of the loop of `insert_with_number`
unfoldable pub insert_attempts :
    ℕ
    → ℕ
    → List (List JournalRow)
    → List JournalRow
    → Result IntegrityError (Text × List JournalRow)
insert_attempts zero company arrivals rows = err number_taken
insert_attempts (suc left) company arrivals rows =
    let number = next_journal_number company rows in
    let rows' = arriving arrivals ++ rows in
    let again = insert_attempts left company (later_arrivals arrivals) rows' in
    if is_taken company number rows'
    then again
    else ok (number, record { company_id = company; journal_number = number } ∷ rows')

unfoldable pub insert_with_number :
    ℕ → List (List JournalRow) → List JournalRow → Result IntegrityError (Text × List JournalRow)
insert_with_number company arrivals rows = insert_attempts max_attempts company arrivals rows
