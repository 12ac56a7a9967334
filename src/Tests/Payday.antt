-- ===== src/Tests/Payday.antt =====
-- A worker with two salary structures, and a run that pays the second one.
use ai_hr_sytem.Base.{
  ℕ, ◌≡◌, refl, arith, Bool, false, none, some, List, [], ◌∷◌, ◌==◌, find, ok, inl, inr, Bool-cases,
}
use ai_hr_sytem.Base.Int.{pos, ◌+ℤ◌}
use ai_hr_sytem.Calendar.{prev_day}
use ai_hr_sytem.Payroll.Structures.{
  PayFrequency, SalaryStructure, CreateStructure, StructureStore, Period, create_structure,
  segments_for, sort_structures, insert_structure, structure_on, to_currency,
}
use ai_hr_sytem.Payroll.Timeline.{HasTimelines, create_structure-HasTimelines}
use ai_hr_sytem.Payroll.Segments.{pays, structure_of, segments_for-structure_on}
use ai_hr_sytem.Payroll.Runs.{
  PayrollRunStatus, PayrollRun, Payslip, PayrollCalculator, PayrollStore, find_run,
}
use ai_hr_sytem.Payroll.Runs.Calculation.{
  calculate, commit_run, pay_all, pay_employee, record_outcome, is_in_scope, rate_of,
  last_structure, year_to_date, earlier_slips,
}
use ai_hr_sytem.Payroll.Totals.{IsAccounted, calculate_totals}
use ai_hr_sytem.Payroll.Frozen.{
  Op, rates_op, calculate_op, paid_op, delete_op, IsFrozen, apply_ops, closed_run-IsFrozen,
}
use ai_hr_sytem.Tests.Staff.{office}

abbrev first : SalaryStructure
first = record {
  id = 1;
  employee_id = 2;
  effective_from = 20240201;
  effective_to = some 20260110;
  currency = 1;
  pay_frequency = PayFrequency.monthly;
  base_amount = 40000000;
  lines = [];
  annual_rent = none;
  notes = none;
  created_by_user_id = some 10;
}

abbrev second : SalaryStructure
second = record first {
  id = 2;
  effective_from = 20260111;
  effective_to = none;
  base_amount = 50000000;
}

abbrev table : List SalaryStructure
table = first ∷ second ∷ []

table-HasTimelines : HasTimelines table
unfolding prev_day
table-HasTimelines e = elim (Bool-cases (2 == e)) [
  | inl k ↦ rw k (refl, omega arith, refl)
  | inr k ↦ rw k tt
]

abbrev rise : CreateStructure
rise = record {
  employee_id = 2;
  effective_from = 20260401;
  currency = none;
  pay_frequency = PayFrequency.monthly;
  base_amount = 60000000;
  annual_rent = none;
  lines = none;
  notes = none;
}

abbrev files : StructureStore
files = record { company = office; structures = table; next_id = 3 }

create_structure-HasTimelines_example : HasTimelines (create_structure 1 rise 10 files).1.structures
create_structure-HasTimelines_example =
    create_structure-HasTimelines 1 rise 10 files table-HasTimelines

abbrev january : Period
january = record { start = 20260101; end = 20260131 }

segments_for-structure_on_example :
    structure_of (find (pays 20260120) (segments_for 2 january table))
    ≡ structure_on 2 20260120 table
segments_for-structure_on_example =
    segments_for-structure_on 2 20260120 january table table-HasTimelines
      (omega arith, (omega arith, tt)) (omega arith) (omega arith)

abbrev flat : PayrollCalculator
flat segments period employment ytd = record {
  base_amount = 50000000;
  gross = 50000000;
  total_deductions = 8000000;
  net = pos 42000000;
  lines = [];
  employed_fraction = 31;
  taxable_amount = none;
  employer_costs = [];
}

abbrev january_run : PayrollRun
january_run = record {
  id = 7;
  period_start = 20260101;
  period_end = 20260131;
  pay_date = 20260128;
  status = PayrollRunStatus.draft;
  department_id = none;
  currency = 1;
  totals = none;
  fx_rates = [];
  notes = none;
  created_by_user_id = some 10;
  approved_by_user_id = none;
  approved_at = none;
  paid_at = none;
}

abbrev books : PayrollStore
books = record {
  company = office;
  structures = table;
  runs = january_run ∷ [];
  payslips = [];
  next_run_id = 8;
  next_payslip_id = 1;
  notices = [];
}

abbrev no_code : ℕ → Bool
no_code code = false

abbrev done : PayrollRun
done = record january_run {
  status = PayrollRunStatus.calculated;
  totals = some (record {
    employees = 1;
    gross = 50000000;
    deductions = 8000000;
    net = pos 42000000;
    employer_cost = 0;
    skipped = 2;
  });
}

calculates : (calculate no_code flat 7 books).0 ≡ ok done
unfolding calculate find_run commit_run pay_all pay_employee record_outcome is_in_scope rate_of
    last_structure segments_for sort_structures insert_structure year_to_date earlier_slips
    to_currency ◌+ℤ◌
calculates = refl

calculate_totals_example : IsAccounted 7 books (calculate no_code flat 7 books).1 done
calculate_totals_example = calculate_totals no_code flat 7 books done calculates

abbrev slip : Payslip
slip = record {
  id = 1;
  run_id = 7;
  employee_id = 2;
  structure_id = some 2;
  currency = 1;
  base_amount = 50000000;
  gross = 50000000;
  total_deductions = 8000000;
  net = pos 42000000;
  employer_costs = [];
  taxable_amount = none;
  lines = [];
  document_id = some 4;
}

abbrev approved_books : PayrollStore
approved_books = record books {
  runs = record done { status = PayrollRunStatus.approved } ∷ [];
  payslips = slip ∷ [];
}

abbrev tries : List Op
tries = rates_op 7 [] ∷ calculate_op 7 ∷ paid_op 99 7 ∷ delete_op 7 ∷ []

closed_run-IsFrozen_example :
    IsFrozen 7
      (record done { status = PayrollRunStatus.approved })
      (slip ∷ [])
      (apply_ops no_code flat tries approved_books)
closed_run-IsFrozen_example =
    closed_run-IsFrozen no_code flat tries 7 approved_books
      (record done { status = PayrollRunStatus.approved }) refl refl
