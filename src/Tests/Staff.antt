-- ===== src/Tests/Staff.antt =====
-- A company of three: 2 reports to 1, and 3 to 2.
use ai_hr_sytem.Base.{
  ℕ, ◌+◌, ◌*◌, ◌≤◌, ◌<◌, ◌≡◌, refl, arith, true, false, Option, none, some, List, [], ◌∷◌, ok, err,
  bad_request,
}
use ai_hr_sytem.Employees.{
  Employee, EmployeeStatus, UserStatus, Company, EmploymentChangeType, AssignmentChange,
  ChangeStatus, TerminateEmployee, find_employee, find_by_id, manager_of, in_chain,
  is_in_reporting_chain, may_change, assert_not_terminated, assert_manager_assignable,
  commit_assignment, check_assignment, change_assignment, commit_status, change_status,
  commit_termination, suspend, suspend_user, suspend_login, terminate,
}
use ai_hr_sytem.Employees.Chain.{Reports, direct, above, levels, IsAcyclic, IsShallow, HasUniqueIds}
use ai_hr_sytem.Employees.Placement.{change_assignment-IsAcyclic}
use ai_hr_sytem.Employees.Termination.{terminate-IsAcyclic}
use ai_hr_sytem.Employees.Status.{Edge, change_status_follows}

abbrev pub worker : ℕ → Option ℕ → Employee
worker id manager = record {
  id = id;
  user_id = some (id * 10);
  hire_date = 20240115;
  termination_date = none;
  status = EmployeeStatus.active;
  department_id = 5;
  position_id = none;
  manager_id = manager;
  is_deleted = false;
}

abbrev pub staff : List Employee
staff = worker 1 none ∷ worker 2 (some 1) ∷ worker 3 (some 2) ∷ []

abbrev pub office : Company
office = record {
  employees = staff;
  history = [];
  departments = record { id = 5; head_employee_id = some 2 } ∷ [];
  positions = [];
  users =
      record { id = 10; status = UserStatus.user_active }
      ∷ record { id = 20; status = UserStatus.user_active }
      ∷ record { id = 30; status = UserStatus.user_active }
      ∷ [];
  events = [];
  logged_out = [];
}

-- A manager has a smaller id here, so a line has at most two levels.
older : (t m : ℕ) → manager_of staff t ≡ some m → (m < t) × (1 ≤ m) × (t ≤ 3)
unfolding manager_of
older t m h = ground arith

line : {t m : ℕ} (r : Reports staff t m) → (levels r + m ≤ t) × (1 ≤ m) × (t ≤ 3)
line {t} {m} (direct e) = omega (arith, older t m e)
line {t} {m} (above {k = k} e r) = omega (arith, older t k e, line r)

staff-IsAcyclic : IsAcyclic staff
staff-IsAcyclic t (direct e) = omega (arith, older t t e)
staff-IsAcyclic t (above {k = k} e r) = omega (arith, older t k e, line r)

staff-IsShallow : IsShallow staff
staff-IsShallow t m r = omega (arith, line r)

staff-HasUniqueIds : HasUniqueIds staff
staff-HasUniqueIds = (refl, (refl, (refl, tt)))

abbrev moves_up : AssignmentChange
moves_up = record {
  change_type = EmploymentChangeType.manager_change;
  effective_date = 20260302;
  department_id = none;
  position_id = none;
  manager_id = some (some 1);
  notes = none;
}

-- The loop that 1 under 3 would close is refused.
abbrev closes_loop : AssignmentChange
closes_loop = record moves_up { manager_id = some (some 3) }

change_moves : manager_of (change_assignment 3 moves_up 10 office).1.employees 3 ≡ some 1
unfolding manager_of change_assignment find_by_id find_employee check_assignment
    assert_not_terminated assert_manager_assignable is_in_reporting_chain in_chain commit_assignment
change_moves = refl

change_refused :
    (change_assignment 1 closes_loop 10 office).0
    ≡ err (bad_request "That would create a reporting cycle: the manager reports to this employee")
unfolding manager_of change_assignment find_by_id find_employee check_assignment
    assert_not_terminated assert_manager_assignable is_in_reporting_chain in_chain commit_assignment
change_refused = refl

change_assignment-IsAcyclic_example : IsAcyclic (change_assignment 3 moves_up 10 office).1.employees
change_assignment-IsAcyclic_example =
    change_assignment-IsAcyclic 3 moves_up 10 office staff-HasUniqueIds staff-IsShallow
      staff-IsAcyclic

abbrev leaves : TerminateEmployee
leaves = record { termination_date = 20260331; reason = none; suspend_login = none }

abbrev left : Employee
left = record (worker 2 (some 1)) {
  status = EmployeeStatus.terminated;
  termination_date = some 20260331;
}

terminate_returns : (terminate 2 leaves 10 office).0 ≡ ok left
unfolding terminate find_by_id find_employee assert_not_terminated commit_termination suspend
    suspend_user suspend_login
terminate_returns = refl

terminate-IsAcyclic_example : IsAcyclic (terminate 2 leaves 10 office).1.employees
terminate-IsAcyclic_example =
    terminate-IsAcyclic 2 leaves 10 office staff-HasUniqueIds staff-IsAcyclic

above_three : in_chain 50 staff 1 3 ≡ true
unfolding in_chain manager_of
above_three = refl

two_levels : Reports staff 3 1
unfolding manager_of
two_levels = above refl (direct refl)

two_levels_short : levels two_levels ≤ 50
two_levels_short = omega (arith, line two_levels)

abbrev goes_away : ChangeStatus
goes_away = record { status = EmployeeStatus.on_leave; effective_date = 20260302; notes = none }

found_two : find_employee 2 staff ≡ some (worker 2 (some 1))
unfolding find_employee
found_two = refl

goes_away_returns :
    (change_status 2 goes_away (some 10) office).0
    ≡ ok (record (worker 2 (some 1)) { status = EmployeeStatus.on_leave })
unfolding change_status find_by_id find_employee may_change commit_status
goes_away_returns = refl

change_status_follows_example :
    Edge EmployeeStatus.active EmployeeStatus.on_leave
    × (find_employee 3 (change_status 2 goes_away (some 10) office).1.employees
        ≡ find_employee 3 staff)
change_status_follows_example =
    change_status_follows 2 3 goes_away (some 10) office found_two refl goes_away_returns

abbrev starts_over : ChangeStatus
starts_over = record { status = EmployeeStatus.onboarding; effective_date = 20260302; notes = none }

starts_over_refused :
    (change_status 2 starts_over (some 10) office).0 ≡ err (bad_request "Cannot change status")
unfolding change_status find_by_id find_employee may_change commit_status
starts_over_refused = refl
