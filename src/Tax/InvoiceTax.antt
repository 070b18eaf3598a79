-- ===== src/Tax/InvoiceTax.antt =====
-- backend/app/services/invoice_tax.py: the consumption tax of an invoice, rounded once for each rate.
-- A line is its amount, in ten-thousandths of a yen, and its rate, in ten-thousandths.
use k_aikei.Prelude.{
  ℕ, ◌+◌, ◌≡◌, refl, ◌∙◌, Bool, false, not, ◌||◌, String, List, [], ◌∷◌, map, leb, ◌==◌,
  if◌then◌else◌, arith, Bool-cases, inl, inr,
}
use k_aikei.Prelude.Int.{ℤ, pos, negsuc, ◌+ℤ◌}
use k_aikei.Prelude.Totals.{sum_of}
use k_aikei.Result.{Result, ok, err, ◌>>=◌, ◌>>◌, raise_if}
use k_aikei.Tax.Units.{per_yen}
use k_aikei.Tax.Consumption.{calculate_tax, times}

abbrev pub InvoiceTaxLine : Type 0
InvoiceTaxLine = ℤ × ℕ

pub record InvoiceTaxRateBreakdown : Type 0 where
  pub tax_rate : ℕ
  pub taxable_base : ℕ
  pub tax : ℤ

pub record InvoiceTaxComputationResult : Type 0 where
  pub by_rate : List InvoiceTaxRateBreakdown
  pub total_taxable : ℕ
  pub total_tax : ℤ
  pub total_amount : ℤ

-- ALLOWED_INVOICE_TAX_RATES: 0.10, 0.08 and 0.00
abbrev pub is_allowed : ℕ → Bool
is_allowed rate = rate == 1000 || rate == 800 || rate == 0

-- `grouped`, a dict from a rate to the sum of the amounts
abbrev pub Groups : Type 0
Groups = List (ℕ × ℕ)

-- `grouped[tax_rate] += amount`
unfoldable pub add_amount : ℕ → ℕ → Groups → Groups
add_amount rate n [] = (rate, n) ∷ []
add_amount rate n ((r, m) ∷ g) = if r == rate then (r, m + n) ∷ g else (r, m) ∷ add_amount rate n g

unfoldable pub group_lines : List InvoiceTaxLine → Groups → Result String Groups
group_lines [] g = ok g
group_lines ((negsuc n, rate) ∷ lines) g = err "amount must be non-negative"
group_lines ((pos n, rate) ∷ lines) g = do
  raise_if (not (is_allowed rate)) "unsupported tax_rate"
  group_lines lines (add_amount rate n g)

-- `sorted(grouped)`
unfoldable pub insert_group : ℕ × ℕ → Groups → Groups
insert_group e [] = e ∷ []
insert_group e (f ∷ g) = if leb e.0 f.0 then e ∷ f ∷ g else f ∷ insert_group e g

unfoldable pub sort_groups : Groups → Groups
sort_groups [] = []
sort_groups (e ∷ g) = insert_group e (sort_groups g)

abbrev pub breakdown : ℕ × ℕ → InvoiceTaxRateBreakdown
breakdown (rate, base) = record {
  tax_rate = rate;
  taxable_base = base;
  tax = (calculate_tax (pos base) rate false).1;
}

abbrev pub bases : List InvoiceTaxRateBreakdown → ℕ
bases [] = 0
bases (b ∷ bs) = b.taxable_base + bases bs

abbrev pub tax_of : InvoiceTaxRateBreakdown → ℤ
tax_of b = b.tax

unfoldable pub computed : Groups → InvoiceTaxComputationResult
computed g =
    let by_rate = map breakdown (sort_groups g) in
    record {
      by_rate = by_rate;
      total_taxable = bases by_rate;
      total_tax = sum_of tax_of by_rate;
      total_amount = pos (bases by_rate) +ℤ times (sum_of tax_of by_rate) per_yen;
    }

-- `InvoiceTaxService.compute_invoice_tax`
unfoldable pub compute_invoice_tax : List InvoiceTaxLine → Result String InvoiceTaxComputationResult
compute_invoice_tax [] = err "lines must not be empty"
compute_invoice_tax (line ∷ lines) = do g ← group_lines (line ∷ lines) []; ok (computed g)

-- what the lines of a rate add up to, and what the breakdown says of it
abbrev pub line_total : ℕ → List InvoiceTaxLine → ℕ
line_total rate [] = 0
line_total rate ((negsuc n, r) ∷ lines) = line_total rate lines
line_total rate ((pos n, r) ∷ lines) = (if r == rate then n else 0) + line_total rate lines

abbrev pub base_at : ℕ → List InvoiceTaxRateBreakdown → ℕ
base_at rate [] = 0
base_at rate (b ∷ bs) = (if b.tax_rate == rate then b.taxable_base else 0) + base_at rate bs

abbrev group_total : ℕ → Groups → ℕ
group_total rate [] = 0
group_total rate ((r, n) ∷ g) = (if r == rate then n else 0) + group_total rate g

group_total-add_amount :
    (rate r n : ℕ) (g : Groups)
    → group_total rate (add_amount r n g) ≡ (if r == rate then n else 0) + group_total rate g
unfolding add_amount
group_total-add_amount rate r n [] = ground arith
group_total-add_amount rate r n ((q, m) ∷ g) = ground (arith, group_total-add_amount rate r n g)

group_total-insert_group :
    (rate : ℕ) (e : ℕ × ℕ) (g : Groups)
    → group_total rate (insert_group e g) ≡ group_total rate (e ∷ g)
unfolding insert_group
group_total-insert_group rate e [] = refl
group_total-insert_group rate e (f ∷ g) = ground (arith, group_total-insert_group rate e g)

group_total-sort_groups :
    (rate : ℕ) (g : Groups) → group_total rate (sort_groups g) ≡ group_total rate g
unfolding sort_groups
group_total-sort_groups rate [] = refl
group_total-sort_groups rate (e ∷ g) =
    omega (arith, group_total-insert_group rate e (sort_groups g), group_total-sort_groups rate g)

base_at-map : (rate : ℕ) (g : Groups) → base_at rate (map breakdown g) ≡ group_total rate g
base_at-map rate [] = refl
base_at-map rate (e ∷ g) = omega (arith, base_at-map rate g)

group_total-group_lines :
    (rate : ℕ) (lines : List InvoiceTaxLine) (g : Groups) {g' : Groups}
    → group_lines lines g ≡ ok g'
    → group_total rate g' ≡ group_total rate g + line_total rate lines
unfolding group_lines
group_total-group_lines rate [] g {g'} h = let e : g ≡ g' = ground arith in rw (← e) (omega arith)
group_total-group_lines rate ((negsuc n, r) ∷ lines) g h = cc
group_total-group_lines rate ((pos n, r) ∷ lines) g h = elim (Bool-cases (is_allowed r)) [
  | inl fine ↦ omega (
    arith,
    group_total-group_lines rate lines (add_amount r n g) (rw fine at h),
    group_total-add_amount rate r n g,
  )
  | inr other ↦ cc (rw other at h)
]

-- For every rate, the taxable base that is reported at that rate is the sum of the amounts of the
-- lines with that rate.
pub compute_invoice_tax_bases :
    (lines : List InvoiceTaxLine) {r : InvoiceTaxComputationResult}
    → compute_invoice_tax lines ≡ ok r
    → (rate : ℕ) → base_at rate r.by_rate ≡ line_total rate lines
unfolding compute_invoice_tax computed
compute_invoice_tax_bases [] h rate = cc
compute_invoice_tax_bases (line ∷ lines) {r} h rate = go (group_lines (line ∷ lines) []) refl h
  where
    go :
        (o : Result String Groups)
        → group_lines (line ∷ lines) [] ≡ o
        → (o >>= λ g. ok (computed g)) ≡ ok r
        → base_at rate r.by_rate ≡ line_total rate (line ∷ lines)
    go (err e) run h = cc
    go (ok g) run h =
        let same : computed g ≡ r = ground arith in
        let lines_total = group_total-group_lines rate (line ∷ lines) [] run in
        rw (← same) (
          base_at-map rate (sort_groups g)
          ∙ group_total-sort_groups rate g
          ∙ lines_total
          ∙ (omega arith))
