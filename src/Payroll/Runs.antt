-- ===== src/Payroll/Runs.antt =====
-- src/modules/payroll/payroll.service.ts: the payroll runs and their tables, and how a run is created.
pub mod Calculation
pub mod Approval
use ai_hr_sytem.Base.{
  ℕ, ◌+◌, ◌*◌, ◌/◌, Bool, true, false, not, ◌&&◌, ◌||◌, Option, none, some, List, [], ◌∷◌, ◌++◌,
  map, String, ltb, leb, ◌==◌, if◌then◌else◌, is_some, or_else, opt_eq, find, select, any, sum_of,
  update_where, length, Action, bad_request, not_found, forbidden, pure, throw, gets, or_throw,
  ◌>>=◌, ◌>>◌, throw_if, modify,
}
use ai_hr_sytem.Base.Int.{ℤ, pos, ◌+ℤ◌}
use ai_hr_sytem.Calendar.{IsoDate, year_of, iso}
use ai_hr_sytem.Employees.{Company, Employee, find_employee, find_by_user_id, opt_same}
use ai_hr_sytem.Payroll.{YearToDate}
use ai_hr_sytem.Payroll.Structures.{
  LineType, is_earning, SalaryStructure, Period, PaySegment, segments_for, to_currency,
}

pub data PayrollRunStatus : Type 0 where
  draft calculated approved paid : PayrollRunStatus

pub record RunTotals : Type 0 where
  pub employees : ℕ
  pub gross : ℕ
  pub deductions : ℕ
  pub net : ℤ
  pub employer_cost : ℕ
  pub skipped : ℕ

pub record PayrollRun : Type 0 where
  pub id : ℕ
  pub period_start : IsoDate
  pub period_end : IsoDate
  pub pay_date : IsoDate
  pub status : PayrollRunStatus
  pub department_id : Option ℕ
  pub currency : ℕ
  pub totals : Option RunTotals
  pub fx_rates : List (ℕ × ℕ)
  pub notes : Option String
  pub created_by_user_id : Option ℕ
  pub approved_by_user_id : Option ℕ
  pub approved_at : Option ℕ
  pub paid_at : Option ℕ

pub record PayslipLine : Type 0 where
  pub code : ℕ
  pub label : String
  pub type : LineType
  pub amount : ℕ

pub record EmployerCost : Type 0 where
  pub code : ℕ
  pub label : String
  pub amount : ℕ

pub record Payslip : Type 0 where
  pub id : ℕ
  pub run_id : ℕ
  pub employee_id : ℕ
  pub structure_id : Option ℕ
  pub currency : ℕ
  pub base_amount : ℕ
  pub gross : ℕ
  pub total_deductions : ℕ
  pub net : ℤ
  pub employer_costs : List EmployerCost
  pub taxable_amount : Option ℕ
  pub lines : List PayslipLine
  pub document_id : Option ℕ

-- The share of the period that was employed, in days.
pub record PayslipComputation : Type 0 where
  pub base_amount : ℕ
  pub gross : ℕ
  pub total_deductions : ℕ
  pub net : ℤ
  pub lines : List PayslipLine
  pub employed_fraction : ℕ
  pub taxable_amount : Option ℕ
  pub employer_costs : List EmployerCost

pub record Employment : Type 0 where
  pub hire_date : IsoDate
  pub termination_date : Option IsoDate

abbrev pub PayrollCalculator : Type 0
PayrollCalculator = List PaySegment → Period → Employment → Option YearToDate → PayslipComputation

pub record PayrollStore : Type 0 where
  pub company : Company
  pub structures : List SalaryStructure
  pub runs : List PayrollRun
  pub payslips : List Payslip
  pub next_run_id : ℕ
  pub next_payslip_id : ℕ
  pub notices : List (ℕ × ℕ)  -- the login that is told of a payslip

pub record CreateRun : Type 0 where
  pub period_start : IsoDate
  pub period_end : IsoDate
  pub pay_date : IsoDate
  pub department_id : Option ℕ
  pub currency : Option ℕ
  pub fx_rates : Option (List (ℕ × ℕ))
  pub notes : Option String

-- DRAFT or CALCULATED.
abbrev pub is_open_run : PayrollRunStatus → Bool
is_open_run PayrollRunStatus.draft = true
is_open_run PayrollRunStatus.calculated = true
is_open_run _ = false

abbrev pub is_draft : PayrollRunStatus → Bool
is_draft PayrollRunStatus.draft = true
is_draft _ = false

abbrev pub is_calculated : PayrollRunStatus → Bool
is_calculated PayrollRunStatus.calculated = true
is_calculated _ = false

abbrev pub is_approved_run : PayrollRunStatus → Bool
is_approved_run PayrollRunStatus.approved = true
is_approved_run _ = false

-- A row of the run `id`.
abbrev pub of_run : ℕ → Payslip → Bool
of_run id p = p.run_id == id

unfoldable pub find_run : ℕ → Action PayrollStore PayrollRun
find_run id = do
  or_throw (← gets (λ (s : PayrollStore). find (λ (r : PayrollRun). r.id == id) s.runs))
      (not_found "Payroll run not found")

-- `runs.save(run)`
abbrev pub save_run : PayrollRun → PayrollStore → PayrollStore
save_run run s = record s {
  runs = update_where (λ (r : PayrollRun). r.id == run.id) (λ _. run) s.runs;
}

-- `setFxRates`
unfoldable pub set_fx_rates : ℕ → List (ℕ × ℕ) → Action PayrollStore PayrollRun
set_fx_rates id rates = do
  run ← find_run id
  throw_if (not (is_open_run run.status)) (bad_request "Cannot change rates on this run")
  modify (save_run (record run { fx_rates = rates }))
  find_run id

abbrev pub new_run : ℕ → ℕ → CreateRun → ℕ → PayrollRun
new_run id default_currency dto actor = record {
  id = id;
  period_start = dto.period_start;
  period_end = dto.period_end;
  pay_date = dto.pay_date;
  status = PayrollRunStatus.draft;
  department_id = dto.department_id;
  currency = or_else dto.currency default_currency;
  totals = none;
  fx_rates = or_else dto.fx_rates [];
  notes = dto.notes;
  created_by_user_id = some actor;
  approved_by_user_id = none;
  approved_at = none;
  paid_at = none;
}

-- A run past its draft, of the same scope, whose period meets the one asked for.
unfoldable pub overlapping_run : CreateRun → List PayrollRun → Option PayrollRun
overlapping_run dto = find λ (r : PayrollRun).
    not (is_draft r.status)
    && opt_same r.department_id dto.department_id
    && leb r.period_start dto.period_end
    && leb dto.period_start r.period_end

-- `createRun`
unfoldable pub create_run : ℕ → CreateRun → ℕ → Action PayrollStore (Unit {0})
create_run default_currency dto actor = do
  throw_if (ltb dto.period_end dto.period_start)
      (bad_request "periodEnd must be on or after periodStart")
  throw_if (is_some (← gets (λ (s : PayrollStore). overlapping_run dto s.runs)))
      (bad_request "Overlaps a run")
  modify (λ (s : PayrollStore). record s {
    runs = s.runs ++ new_run s.next_run_id default_currency dto actor ∷ [];
    next_run_id = s.next_run_id + 1;
  })
