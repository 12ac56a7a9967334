-- ===== src/Payroll/Runs/Calculation.antt =====
-- `calculate` of src/modules/payroll/payroll.service.ts: the payslips of everyone in the scope of a
-- run. The calculator that the configuration selects, and the codes that spell PAYE or TAX, are
-- parameters.
use ai_hr_sytem.Base.{
  ℕ, ◌+◌, Bool, true, not, ◌&&◌, Option, none, some, List, [], ◌∷◌, ◌++◌, map, ltb, leb, ◌==◌,
  if◌then◌else◌, is_some, or_else, select, any, sum_of, length, Action, bad_request, ◌>>=◌, ◌>>◌,
  throw_if, modify,
}
use ai_hr_sytem.Base.Int.{pos, ◌+ℤ◌}
use ai_hr_sytem.Calendar.{year_of, iso}
use ai_hr_sytem.Employees.{Employee}
use ai_hr_sytem.Payroll.{YearToDate}
use ai_hr_sytem.Payroll.Structures.{is_earning, Period, PaySegment, segments_for, to_currency}
use ai_hr_sytem.Payroll.Runs.{
  EmployerCost, PayrollCalculator, PayrollRun, PayrollRunStatus, PayrollStore, Payslip,
  PayslipComputation, PayslipLine, RunTotals, find_run, is_open_run, of_run, save_run,
}

-- `run.fxRates[currency]`, where a missing rate and a rate of 0 count as none.
unfoldable pub rate_of : ℕ → List (ℕ × ℕ) → Option ℕ
rate_of currency [] = none
rate_of currency ((c, rate) ∷ rest) =
    if c == currency then (if rate == 0 then none else some rate) else rate_of currency rest

-- Everyone who was employed for a part of the period.
unfoldable pub is_in_scope : PayrollRun → Employee → Bool
is_in_scope run e =
    leb e.hire_date run.period_end
    && elim run.department_id [ none ↦ true | some d ↦ e.department_id == d ]
    && elim e.termination_date [ none ↦ true | some t ↦ leb run.period_start t ]
    && not e.is_deleted

pub data SkipReason : Type 0 where
  no_salary_structure no_fx_rate not_employed : SkipReason

pub data Outcome : Type 0 where
  skip : SkipReason → Outcome
  pay : PayslipComputation → Option ℕ → Outcome

-- `segments[segments.length - 1].structure.id`
unfoldable pub last_structure : List PaySegment → Option ℕ
last_structure [] = none
last_structure (g ∷ []) = some g.structure.id
last_structure (g ∷ (h ∷ rest)) = last_structure (h ∷ rest)

-- A segment in the currency of the run.
abbrev pub in_currency : PayrollRun → PaySegment → PaySegment
in_currency run g = record g {
  structure =
      to_currency run.currency (or_else (rate_of g.structure.currency run.fx_rates) 0) g.structure;
}

abbrev pub misses_rate : PayrollRun → PaySegment → Bool
misses_rate run g =
    not (g.structure.currency == run.currency)
    && not (is_some (rate_of g.structure.currency run.fx_rates))

-- The new totals after a payslip.
abbrev pub add_totals : RunTotals → PayslipComputation → RunTotals
add_totals t c = record t {
  employees = t.employees + 1;
  gross = t.gross + c.gross;
  deductions = t.deductions + c.total_deductions;
  net = t.net +ℤ c.net;
  employer_cost = t.employer_cost + sum_of EmployerCost.amount c.employer_costs;
}

abbrev pub no_totals : RunTotals
no_totals = record {
  employees = 0;
  gross = 0;
  deductions = 0;
  net = pos 0;
  employer_cost = 0;
  skipped = 0;
}

-- What the loop of `calculate` carries along.
pub record Tally : Type 0 where
  pub slips : List Payslip
  pub totals : RunTotals
  pub skipped : List (ℕ × SkipReason)
  pub next_id : ℕ

abbrev pub new_payslip : ℕ → PayrollRun → ℕ → PayslipComputation → Option ℕ → Payslip
new_payslip id run employee c structure = record {
  id = id;
  run_id = run.id;
  employee_id = employee;
  structure_id = structure;
  currency = run.currency;
  base_amount = c.base_amount;
  gross = c.gross;
  total_deductions = c.total_deductions;
  net = c.net;
  employer_costs = c.employer_costs;
  taxable_amount = c.taxable_amount;
  lines = c.lines;
  document_id = none;
}

unfoldable pub record_outcome : PayrollRun → ℕ → Outcome → Tally → Tally
record_outcome run employee (skip reason) t = record t {
  skipped = t.skipped ++ (employee, reason) ∷ [];
}
record_outcome run employee (pay c structure) t = record t {
  slips = t.slips ++ new_payslip t.next_id run employee c structure ∷ [];
  totals = add_totals t.totals c;
  next_id = t.next_id + 1;
}

abbrev pub start_tally : PayrollStore → Tally
start_tally s = record { slips = []; totals = no_totals; skipped = []; next_id = s.next_payslip_id }

-- The store once the earlier payslips of the run are deleted.
abbrev pub without_slips : ℕ → PayrollStore → PayrollStore
without_slips id s = record s { payslips = select (λ (p : Payslip). not (of_run id p)) s.payslips }

abbrev pub finished : PayrollRun → Tally → PayrollRun
finished run t = record run {
  totals = some (record t.totals { skipped = length t.skipped });
  status = PayrollRunStatus.calculated;
}

abbrev pub tax_year_slip : PayrollRun → PayrollRun → Bool
tax_year_slip run r =
    not (is_open_run r.status)
    && leb (iso (year_of run.period_end) 1 1) r.period_end
    && ltb r.period_end run.period_start

module _ (is_paye_code : ℕ → Bool) where
  -- The PAYE that a payslip deducted.
  abbrev pub paye_of : Payslip → ℕ
  paye_of p =
      sum_of
        (λ (l : PayslipLine).
          if not (is_earning l.type) && is_paye_code l.code then l.amount else 0)
        p.lines

  -- The payslips of earlier runs in the same tax year, with a taxable amount.
  unfoldable pub earlier_slips : PayrollRun → ℕ → PayrollStore → List Payslip
  earlier_slips run employee s =
      select
        (λ (p : Payslip).
          (p.employee_id == employee)
          && is_some p.taxable_amount
          && any (λ (r : PayrollRun). (r.id == p.run_id) && tax_year_slip run r) s.runs)
        s.payslips

  -- `yearToDate`, for one employee; there is no entry without a payslip.
  unfoldable pub year_to_date : PayrollRun → ℕ → PayrollStore → Option YearToDate
  unfolding earlier_slips
  year_to_date run employee s =
      let slips = earlier_slips run employee s in
      if length slips == 0
      then none
      else some (record {
        taxable = sum_of (λ (p : Payslip). or_else p.taxable_amount 0) slips;
        paye = sum_of paye_of slips;
        periods = length slips;
      })

  module _ (calculator : PayrollCalculator) where
    -- What the loop does with one employee.
    unfoldable pub pay_employee : PayrollRun → PayrollStore → Employee → Outcome
    pay_employee run s e =
        let period : Period = record { start = run.period_start; end = run.period_end } in
        let segments = segments_for e.id period s.structures in
        let c =
          calculator (map (in_currency run) segments) period
            (record { hire_date = e.hire_date; termination_date = e.termination_date })
            (year_to_date run e.id s) in
        if length segments == 0
        then skip no_salary_structure
        else if any (misses_rate run) segments
        then skip no_fx_rate
        else if c.employed_fraction == 0
        then skip not_employed
        else pay c (last_structure segments)

    unfoldable pub pay_all : PayrollRun → PayrollStore → List Employee → Tally → Tally
    pay_all run s [] t = t
    pay_all run s (e ∷ es) t = pay_all run s es (record_outcome run e.id (pay_employee run s e) t)

    -- The store with the results.
    unfoldable pub commit_run : PayrollRun → PayrollStore → PayrollStore
    commit_run run s =
        let u = without_slips run.id s in
        let t = pay_all run u (select (is_in_scope run) s.company.employees) (start_tally u) in
        save_run (finished run t)
          (record u { payslips = u.payslips ++ t.slips; next_payslip_id = t.next_id })

    -- `calculate`; the people that were skipped are counted in the totals, and not listed in the
    -- answer.
    unfoldable pub calculate : ℕ → Action PayrollStore PayrollRun
    calculate id = do
      run ← find_run id
      throw_if (not (is_open_run run.status)) (bad_request "Cannot recalculate this run")
      modify (commit_run run)
      find_run id
