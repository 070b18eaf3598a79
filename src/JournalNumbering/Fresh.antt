-- ===== src/JournalNumbering/Fresh.antt =====
-- New numbers and the rows that have them (backend/app/services/journal_numbering.py).
use k_aikei.Prelude.{
  ℕ, zero, suc, ◌-◌, ◌≤◌, ◌<◌, ◌≡◌, ◌≢◌, refl, ap, ◌∙◌, Bool, true, false, ◌||◌, Option, none, some,
  List, [], ◌∷◌, ◌++◌, length, ◌==◌, Bool-cases, inl, inr, arith, length-append,
}
use k_aikei.Prelude.Digits.{
  Text, is_number, all_digits, text_eq, text_eq_lem, digits_of, value_of, zero_padded, repeated,
  length-repeated, value_of-zero_padded, value_of-digits_of, digits_of-all_digits,
}
use k_aikei.Result.{Result, ok, err}
use k_aikei.JournalNumbering.{
  JournalRow, prefix, after_prefix, higher, highest_number, numbered, next_journal_number,
  max_attempts, is_taken, IntegrityError, arriving, later_arrivals, insert_attempts,
  insert_with_number,
}

-- a number that has the digits of `n` after its prefix
abbrev number_value : Option Text → Option ℕ
number_value none = none
number_value (some digits) = some (value_of digits)

repeated-all_digits :
    (n : ℕ) (cs : Text) → all_digits cs ≡ true → all_digits (repeated n 48 ++ cs) ≡ true
repeated-all_digits zero cs h = h
repeated-all_digits (suc n) cs h = repeated-all_digits n cs h

some_digits : (cs : Text) → all_digits cs ≡ true → 1 ≤ length cs → is_number cs ≡ true
some_digits [] h long = absurd (omega (arith, long))
some_digits (c ∷ cs) h long = h

length-zero_padded_le : (w : ℕ) (cs : Text) → w ≤ length (zero_padded w cs)
unfolding zero_padded
length-zero_padded_le w cs =
    omega
      (arith, length-append (repeated (w - length cs) 48) cs, length-repeated (w - length cs) 48)

zero_padded-is_number : (n : ℕ) → is_number (zero_padded 8 (digits_of n)) ≡ true
unfolding zero_padded
zero_padded-is_number n =
    some_digits (zero_padded 8 (digits_of n))
      (repeated-all_digits (8 - length (digits_of n)) (digits_of n) (digits_of-all_digits n))
      (omega (arith, length-zero_padded_le 8 (digits_of n)))

-- The digits of a new number are read back.
numbered_lem : (n : ℕ) → number_value (after_prefix prefix (numbered n)) ≡ some n
unfolding after_prefix
numbered_lem n =
    rw (zero_padded-is_number n)
      (ap some (value_of-zero_padded 8 (digits_of n) ∙ value_of-digits_of n))

higher_le : (h n : ℕ) (o : Option Text) → number_value o ≡ some n → n ≤ higher h o
higher_le h n none e = cc
higher_le h n (some digits) e = ground (arith, e)

higher_keeps : (h : ℕ) (o : Option Text) → h ≤ higher h o
higher_keeps h none = omega arith
higher_keeps h (some digits) = omega arith

-- A number above the highest one is not that of a row.
not_own :
    (n highest : ℕ) (number : Text) (same rest : Bool)
    → text_eq number (numbered n) ≡ same
    → higher highest (after_prefix prefix number) < n
    → rest ≡ false
    → same || rest ≡ false
not_own n highest number false rest e above free = free
not_own n highest number true rest e above free =
    let reads =
      ap (λ t. number_value (after_prefix prefix t)) (text_eq_lem number (numbered n) e)
      ∙ numbered_lem n in
    absurd (omega (arith, above, higher_le highest n (after_prefix prefix number) reads))

-- A number above all that are in use is not taken.
not_taken :
    (company n : ℕ) (rows : List JournalRow)
    → highest_number company rows < n
    → is_taken company (numbered n) rows ≡ false
unfolding highest_number
not_taken company n [] above = refl
not_taken company n (r ∷ rows) above = elim (Bool-cases (r.company_id == company)) [
  | inr other ↦ rw other (not_taken company n rows (rw other at above))
  | inl own ↦
      let below = rw own at above in
      rw own (
        not_own n (highest_number company rows) r.journal_number _ _ refl below (
          not_taken company n rows (
            omega (
              arith,
              below,
              higher_keeps (highest_number company rows) (after_prefix prefix r.journal_number),
            ))))
]

next_is_fresh :
    (company : ℕ) (rows : List JournalRow)
    → is_taken company (next_journal_number company rows) rows ≡ false
unfolding next_journal_number
next_is_fresh company rows = not_taken company _ rows (omega arith)

-- In each of so many attempts another session wrote rows.
abbrev pub Interrupted : ℕ → List (List JournalRow) → Type 0
Interrupted zero arrivals = Unit
Interrupted (suc n) arrivals = (arriving arrivals ≢ []) × Interrupted n (later_arrivals arrivals)

-- Of the outcome of so many attempts.
abbrev pub Inserted :
    ℕ → ℕ → List (List JournalRow) → Result IntegrityError (Text × List JournalRow) → Type 0
Inserted n company arrivals (err e) = Interrupted n arrivals
Inserted n company arrivals (ok (number, rows)) =
    (others : List JournalRow) × (rows
      ≡ record { company_id = company; journal_number = number } ∷ others)
    × (is_taken company number others ≡ false)

Inserted-again :
    (n company : ℕ) (arrivals : List (List JournalRow))
    (r : Result IntegrityError (Text × List JournalRow))
    → arriving arrivals ≢ []
    → Inserted n company (later_arrivals arrivals) r
    → Inserted (suc n) company arrivals r
Inserted-again n company arrivals (err e) came h = (came, h)
Inserted-again n company arrivals (ok (number, rows)) came h = h

insert_attempts-Inserted :
    (n company : ℕ) (arrivals : List (List JournalRow)) (rows : List JournalRow)
    → Inserted n company arrivals (insert_attempts n company arrivals rows)
unfolding insert_attempts
insert_attempts-Inserted zero company arrivals rows = tt
insert_attempts-Inserted (suc n) company arrivals rows =
    let number = next_journal_number company rows in
    let rows' = arriving arrivals ++ rows in
    elim (Bool-cases (is_taken company number rows')) [
      | inr free ↦ rw free (rows', refl, free)
      | inl taken ↦ rw taken (
          Inserted-again n company arrivals _
            (λ quiet. cc (
              taken,
              ap (λ new. is_taken company number (new ++ rows)) quiet,
              next_is_fresh company rows,
            ))
            (insert_attempts-Inserted n company (later_arrivals arrivals) rows'))
    ]

-- Whatever other sessions write in between: a journal that is inserted has a number that no other
-- row of its company has by then. The insertion fails only if other sessions wrote rows in each of the
-- eight attempts.
pub insert_with_number_lem :
    (company : ℕ) (arrivals : List (List JournalRow)) (rows : List JournalRow)
    → Inserted max_attempts company arrivals (insert_with_number company arrivals rows)
unfolding insert_with_number
insert_with_number_lem company arrivals rows =
    insert_attempts-Inserted max_attempts company arrivals rows
