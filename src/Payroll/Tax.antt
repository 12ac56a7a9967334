-- ===== src/Payroll/Tax.antt =====
-- The income tax as a function of the annual taxable amount.
use ai_hr_sytem.Base.{ℕ, ◌+◌, ◌-◌, ◌*◌, ◌≤◌, ◌≡◌, arith, min}
use ai_hr_sytem.Payroll.{tax_bands, paye_loop, round_kobo, annual_paye}

-- What of an amount lies between two bounds.
abbrev pub slice : ℕ → ℕ → ℕ → ℕ
slice lo hi t = min t hi - lo

-- The tax by bands: each band's rate on the part of the amount that lies in it.
abbrev pub tax_by_bands : ℕ → ℕ
tax_by_bands t =
    15 * slice 80000000 300000000 t
    + 18 * slice 300000000 1200000000 t
    + 21 * slice 1200000000 2500000000 t
    + 23 * slice 2500000000 5000000000 t
    + 25 * (t - 5000000000)

-- The loop that stops at the first band above the amount computes the sum over all bands.
paye_loop-tax_by_bands : (t : ℕ) → paye_loop tax_bands t 0 0 ≡ tax_by_bands t
unfolding paye_loop
paye_loop-tax_by_bands t = ground arith

-- The annual tax is the sum, over all bands, of each band's rate on the part of the amount that
-- lies in it, rounded to whole kobo.
pub annual_paye-tax_by_bands : (t : ℕ) → annual_paye t ≡ round_kobo (tax_by_bands t)
unfolding annual_paye
annual_paye-tax_by_bands t = rw paye_loop-tax_by_bands

-- Earning more never lowers the tax, and lowers what is left after it by no more than the one kobo
-- of rounding.
pub annual_paye_no_cliff :
    (t u : ℕ)
    → t ≤ u
    → (annual_paye t ≤ annual_paye u) × (annual_paye u + t ≤ annual_paye t + u + 1)
annual_paye_no_cliff t u h = omega (arith, annual_paye-tax_by_bands t, annual_paye-tax_by_bands u)

-- The tax is never more than a quarter of what exceeds 800,000 naira a year, up to the rounding to
-- whole kobo; so nothing is due up to that amount.
pub annual_paye_bounds : (t : ℕ) → 4 * annual_paye t ≤ (t - 80000000) + 2
annual_paye_bounds t = omega (arith, annual_paye-tax_by_bands t)
