-- ===== src/Payroll/Runs/Approval.antt =====
-- `approve`, `markPaid`, `deleteRun` and `findPayslip` of src/modules/payroll/payroll.service.ts. The
-- documents that payslips are rendered into are a parameter.
use ai_hr_sytem.Base.{
  ℕ, Bool, false, not, ◌&&◌, Option, none, some, List, [], ◌∷◌, ◌++◌, ◌==◌, find, select, any,
  update_where, length, Action, bad_request, not_found, forbidden, pure, gets, or_throw, ◌>>=◌,
  ◌>>◌, throw_if, modify,
}
use ai_hr_sytem.Employees.{Employee, find_employee, find_by_user_id}
use ai_hr_sytem.Payroll.Runs.{
  PayrollRun, PayrollRunStatus, PayrollStore, Payslip, find_run, is_approved_run, is_calculated,
  is_open_run, of_run, save_run,
}

-- The login of the employee of a payslip.
abbrev pub login_of : List Employee → Payslip → Option ℕ
login_of es p = elim (find_employee p.employee_id es) [ none ↦ none | some e ↦ e.user_id ]

unfoldable pub slip_notices : List Employee → List Payslip → List (ℕ × ℕ)
slip_notices es [] = []
slip_notices es (p ∷ ps) = elim (login_of es p) [
  | none ↦ slip_notices es ps
  | some u ↦ (u, p.id) ∷ slip_notices es ps
]

module _ (document : Payslip → ℕ) (now id actor : ℕ) where
  -- `approve` once the run is found to be calculated: `document` is what a payslip is rendered into.
  abbrev pub approved_rest : PayrollRun → Action PayrollStore PayrollRun
  approved_rest run = do
    slips ← gets (λ (s : PayrollStore). select (of_run id) s.payslips)
    throw_if (length slips == 0) (bad_request "Run has no payslips")
    modify (λ (s : PayrollStore). record s {
      payslips =
          update_where (of_run id) (λ (p : Payslip). record p { document_id = some (document p) })
            s.payslips;
    })
    modify (
        save_run (record run {
          status = PayrollRunStatus.approved;
          approved_by_user_id = some actor;
          approved_at = some now;
        }))
    modify (λ (s : PayrollStore). record s {
      notices = s.notices ++ slip_notices s.company.employees slips;
    })
    find_run id

  -- `approve`, at the instant `now`.
  unfoldable pub approve : Action PayrollStore PayrollRun
  approve = do
    run ← find_run id
    throw_if (not (is_calculated run.status)) (bad_request "Calculate the run before approving")
    approved_rest run

-- `markPaid`
unfoldable pub mark_paid : ℕ → ℕ → Action PayrollStore (Unit {0})
mark_paid now id = do
  run ← find_run id
  throw_if (not (is_approved_run run.status)) (bad_request "Only approved runs can be marked paid")
  modify (save_run (record run { status = PayrollRunStatus.paid; paid_at = some now }))

-- `deleteRun`; the payslips go with the run.
unfoldable pub delete_run : ℕ → Action PayrollStore (Unit {0})
delete_run id = do
  run ← find_run id
  throw_if (not (is_open_run run.status)) (bad_request "Approved or paid runs cannot be deleted")
  modify (λ (s : PayrollStore). record s {
    runs = select (λ (r : PayrollRun). not (r.id == run.id)) s.runs;
    payslips = select (λ (p : Payslip). not (of_run run.id p)) s.payslips;
  })

-- `findPayslip` by a login that may manage payroll or not.
unfoldable pub find_payslip : ℕ → ℕ → Bool → Action PayrollStore Payslip
find_payslip id login can_manage = do
  p ←
      or_throw (← gets (λ (s : PayrollStore). find (λ (p : Payslip). p.id == id) s.payslips))
        (not_found "Payslip not found")
  s ← gets (λ (s : PayrollStore). s)
  let visible = any (λ (r : PayrollRun). (r.id == p.run_id) && not (is_open_run r.status)) s.runs
  let own = elim (find_by_user_id login s.company.employees) as (λ _. Bool) [
    | none ↦ false
    | some me ↦ me.id == p.employee_id
  ]
  throw_if (not can_manage && not (own && visible)) (forbidden "Forbidden")
  pure p
