-- ===== src/Tests/Tax.antt =====
-- The annual income tax on some amounts, in kobo.
use ai_hr_sytem.Base.{◌+◌, ◌≤◌, ◌≡◌, refl, arith}
use ai_hr_sytem.Payroll.{annual_paye, paye_loop}
use ai_hr_sytem.Payroll.Tax.{annual_paye-tax_by_bands, annual_paye_no_cliff}

-- 3,000,000 naira a year: 15 per cent of 2,200,000.
three_million : annual_paye 300000000 ≡ 33000000
unfolding annual_paye paye_loop
three_million = refl

up_to_four : 300000000 ≤ 400000000
up_to_four = omega arith

annual_paye_no_cliff_example :
    (annual_paye 300000000 ≤ annual_paye 400000000)
    × (annual_paye 400000000 + 300000000 ≤ annual_paye 300000000 + 400000000 + 1)
annual_paye_no_cliff_example = annual_paye_no_cliff 300000000 400000000 up_to_four

annual_paye-tax_by_bands_example : annual_paye 300000000 ≡ 33000000
annual_paye-tax_by_bands_example = annual_paye-tax_by_bands 300000000
