-- ===== src/Payroll.antt =====
-- src/modules/payroll/nigeria-payroll.calculator.ts: progressive income tax. Amounts are whole
-- kobo and rates are per cent, so that the exact decimal value of the source's sums is a number of
-- hundredths of a kobo, and `round2` rounds it half up to kobo.
pub mod Structures
pub mod Totals
pub mod Rows
pub mod Frozen
pub mod Runs
pub mod Segments
pub mod Timeline
pub mod Tax
use ai_hr_sytem.Base.{
  ℕ, zero, suc, ◌+◌, ◌-◌, ◌*◌, ◌/◌, Bool, true, false, Option, none, some, List, [], ◌∷◌, ltb, leb,
  ◌==◌, if◌then◌else◌, min,
}

-- A band ends at an annual amount, or never (`Infinity`).
pub record TaxBand : Type 0 where
  pub up_to : Option ℕ
  pub rate : ℕ

abbrev pub band : ℕ → ℕ → TaxBand
band naira rate = record { up_to = some (naira * 100); rate = rate }

-- NIGERIA_STATUTORY.taxBands
abbrev pub tax_bands : List TaxBand
tax_bands =
    band 800000 0
    ∷ band 3000000 15
    ∷ band 12000000 18
    ∷ band 25000000 21
    ∷ band 50000000 23
    ∷ record { up_to = none; rate = 25 }
    ∷ []

-- `Math.min(taxable, band.upTo)`
abbrev pub cap : Option ℕ → ℕ → ℕ
cap none taxable = taxable
cap (some n) taxable = min taxable n

-- The loop of `annualPaye`, in hundredths of a kobo; after `Infinity` there is no band.
unfoldable pub paye_loop : List TaxBand → ℕ → ℕ → ℕ → ℕ
paye_loop [] taxable lower tax = tax
paye_loop (b ∷ bands) taxable lower tax =
    let rest =
      paye_loop bands taxable (elim b.up_to [ none ↦ taxable | some n ↦ n ])
        (tax + (cap b.up_to taxable - lower) * b.rate) in
    if leb taxable lower then tax else rest

-- `round2`
abbrev pub round_kobo : ℕ → ℕ
round_kobo n = (n + 50) / 100

unfoldable pub annual_paye : ℕ → ℕ
annual_paye taxable = round_kobo (paye_loop tax_bands taxable 0 0)

-- Year-to-date figures from earlier runs.
pub record YearToDate : Type 0 where
  pub taxable : ℕ
  pub paye : ℕ
  pub periods : ℕ

-- `round2(max(0, a / b))` for a difference a = x - y of exact amounts.
abbrev pub round_ratio : ℕ → ℕ → ℕ
round_ratio a b = (2 * a + b) / (2 * b)

-- `cumulativePaye`: the history counts only when earlier runs exist.
abbrev pub with_history : Option YearToDate → Option YearToDate
with_history none = none
with_history (some y) = if ltb 0 y.periods then some y else none

unfoldable pub cumulative_paye : ℕ → Option YearToDate → ℕ → ℕ → ℕ → ℕ
cumulative_paye t ytd before after relief =
    let history : Option YearToDate = with_history ytd in
    let ytd_taxable : ℕ = elim history [ none ↦ t * before | some y ↦ y.taxable ] in
    let projected : ℕ = ytd_taxable + t * (1 + after) in
    let annual : ℕ = annual_paye (projected - relief) in
    let paid : ℕ = elim history [ none ↦ annual * ytd_taxable | some y ↦ y.paye * projected ] in
    if projected == 0 then 0 else round_ratio (annual * (ytd_taxable + t) - paid) projected
