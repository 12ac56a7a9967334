-- ===== src/Employees.antt =====
-- src/modules/employees/employees.service.ts: placement in the organisation, status changes and
-- termination, handler by handler.
mod Defs
pub mod Chain
pub mod Placement
pub mod Termination
pub mod Status
pub use Defs.*
use ai_hr_sytem.Base.{
  ℕ, zero, suc, Bool, true, false, not, ◌&&◌, ◌||◌, Option, none, some, List, [], ◌∷◌, ◌++◌, ltb,
  leb, ◌==◌, if◌then◌else◌, opt_eq, or_else, find, any, update_where, length, Action, HttpError,
  bad_request, not_found, pure, throw, gets, or_throw, ◌>>=◌, ◌>>◌, throw_if, modify,
}

abbrev pub opt_same : Option ℕ → Option ℕ → Bool
opt_same none none = true
opt_same none (some b) = false
opt_same (some a) none = false
opt_same (some a) (some b) = a == b

-- `findOne` leaves out soft-deleted rows.
unfoldable pub find_employee : ℕ → List Employee → Option Employee
find_employee id = find (λ e. (e.id == id) && not e.is_deleted)

unfoldable pub find_by_id : ℕ → Action Company Employee
unfolding find_employee
find_by_id id = do
  or_throw (← gets (λ (c : Company). find_employee id c.employees)) (not_found "Employee not found")

unfoldable pub find_by_user_id : ℕ → List Employee → Option Employee
find_by_user_id user = find (λ e. opt_eq e.user_id user && not e.is_deleted)

-- The column `manager_id` of a row; the raw query reads soft-deleted rows too.
unfoldable pub manager_of : List Employee → ℕ → Option ℕ
manager_of [] id = none
manager_of (e ∷ es) id = if e.id == id then e.manager_id else manager_of es id

-- The recursive query: `n` levels above `target`, `manager` among them.
unfoldable pub in_chain : ℕ → List Employee → ℕ → ℕ → Bool
in_chain zero es manager target = false
in_chain (suc n) es manager target = elim (manager_of es target) [
  | none ↦ false
  | some k ↦ (k == manager) || in_chain n es manager k
]

-- `c.depth < 50`
abbrev pub max_depth : ℕ
max_depth = 50

unfoldable pub is_in_reporting_chain : List Employee → ℕ → ℕ → Bool
is_in_reporting_chain es manager target =
    if manager == target then false else in_chain max_depth es manager target

-- STATUS_TRANSITIONS
unfoldable pub may_change : EmployeeStatus → EmployeeStatus → Bool
may_change EmployeeStatus.onboarding EmployeeStatus.active = true
may_change EmployeeStatus.active EmployeeStatus.on_leave = true
may_change EmployeeStatus.on_leave EmployeeStatus.active = true
may_change _ _ = false

-- `em.update(Employee, id, change)`
abbrev pub update_employee : ℕ → (Employee → Employee) → List Employee → List Employee
update_employee id = update_where (λ e. e.id == id)

unfoldable pub assert_not_terminated : Employee → Action Company (Unit {0})
assert_not_terminated emp =
    throw_if (status_eq emp.status EmployeeStatus.terminated) (bad_request "Employee is terminated")

unfoldable pub assert_department_exists : ℕ → Action Company (Unit {0})
assert_department_exists id = do
  throw_if (not (any (λ (d : Department). d.id == id) (← gets Company.departments)))
      (not_found "Department not found")

unfoldable pub find_position : ℕ → List Position → Option Position
find_position id = find (λ p. p.id == id)

unfoldable pub assert_position_assignable : ℕ → ℕ → Action Company (Unit {0})
unfolding find_position
assert_position_assignable position_id department_id = do
  p ←
      or_throw (← gets (λ (c : Company). find_position position_id c.positions))
        (not_found "Position not found")
  throw_if (not p.is_active) (bad_request "Position is inactive")
  throw_if (elim p.department_id [ none ↦ false | some d ↦ not (d == department_id) ])
      (bad_request "Position belongs to a different department")

-- `where: { id, ...NOT_TERMINATED }`
abbrev pub is_employed : ℕ → Employee → Bool
is_employed id e =
    (e.id == id) && not (status_eq e.status EmployeeStatus.terminated) && not e.is_deleted

unfoldable pub assert_manager_assignable : ℕ → Option ℕ → Action Company (Unit {0})
assert_manager_assignable manager employee = do
  throw_if (opt_eq employee manager) (bad_request "An employee cannot manage themselves")
  es ← gets Company.employees
  throw_if (not (any (is_employed manager) es))
      (bad_request "Manager not found or no longer employed")
  throw_if (elim employee [ none ↦ false | some id ↦ is_in_reporting_chain es id manager ])
      (bad_request "That would create a reporting cycle: the manager reports to this employee")

-- `a !== b ? x : null`
abbrev changed_to : Option ℕ → Option ℕ → Option ℕ → Option ℕ
changed_to a b x = if opt_same a b then none else x

abbrev pub placed : ℕ → Option ℕ → Option ℕ → Employee → Employee
placed d p m e = record e { department_id = d; position_id = p; manager_id = m }

-- The transaction and the event of `changeAssignment`.
unfoldable pub commit_assignment :
    Employee → AssignmentChange → ℕ → Option ℕ → Option ℕ → ℕ → Company → Company
commit_assignment emp dto d p m actor c = record c {
  employees = update_employee emp.id (placed d p m) c.employees;
  history =
      c.history
      ++ record {
        employee_id = emp.id;
        change_type = dto.change_type;
        effective_date = dto.effective_date;
        from_department_id = changed_to (some d) (some emp.department_id) (some emp.department_id);
        to_department_id = changed_to (some d) (some emp.department_id) (some d);
        from_position_id = changed_to p emp.position_id emp.position_id;
        to_position_id = changed_to p emp.position_id p;
        from_manager_id = changed_to m emp.manager_id emp.manager_id;
        to_manager_id = changed_to m emp.manager_id m;
        from_status = none;
        to_status = none;
        notes = dto.notes;
        changed_by_user_id = some actor;
      }
        ∷ [];
  events =
      c.events
      ++ EmployeeEvent.assignment_changed emp.id dto.change_type dto.effective_date actor ∷ [];
}

-- `if (id && id !== old) await check(id)`
abbrev pub check_new :
    Option ℕ → Option ℕ → (ℕ → Action Company (Unit {0})) → Action Company (Unit {0})
check_new none old check = pure tt
check_new (some id) old check = if opt_eq old id then pure tt else check id

-- The placement asked for, with the columns that the request leaves alone.
abbrev pub next_department : Employee → AssignmentChange → ℕ
next_department emp dto = or_else dto.department_id emp.department_id

abbrev pub next_position : Employee → AssignmentChange → Option ℕ
next_position emp dto = or_else dto.position_id emp.position_id

abbrev pub next_manager : Employee → AssignmentChange → Option ℕ
next_manager emp dto = or_else dto.manager_id emp.manager_id

-- The checks of `changeAssignment`, in order.
unfoldable pub check_assignment : Employee → AssignmentChange → Action Company (Unit {0})
check_assignment emp dto = do
  let d = next_department emp dto
  let p = next_position emp dto
  let m = next_manager emp dto
  assert_not_terminated emp
  throw_if ((d == emp.department_id) && opt_same p emp.position_id && opt_same m emp.manager_id)
      (bad_request "Nothing changes: department, position and manager are unchanged")
  if d == emp.department_id then pure tt else assert_department_exists d
  check_new p emp.position_id (λ k. assert_position_assignable k d)
  check_new m emp.manager_id (λ k. assert_manager_assignable k (some emp.id))

unfoldable pub change_assignment : ℕ → AssignmentChange → ℕ → Action Company Employee
change_assignment id dto actor = do
  emp ← find_by_id id
  check_assignment emp dto
  modify (
      commit_assignment emp dto (next_department emp dto) (next_position emp dto)
        (next_manager emp dto) actor)
  find_by_id id

-- The transaction and the event of `changeStatus`.
unfoldable pub commit_status : Employee → ChangeStatus → Option ℕ → Company → Company
commit_status emp dto actor c = record c {
  employees = update_employee emp.id (λ e. record e { status = dto.status }) c.employees;
  history =
      c.history
      ++ record {
        employee_id = emp.id;
        change_type = EmploymentChangeType.status_change;
        effective_date = dto.effective_date;
        from_department_id = none;
        to_department_id = none;
        from_position_id = none;
        to_position_id = none;
        from_manager_id = none;
        to_manager_id = none;
        from_status = some emp.status;
        to_status = some dto.status;
        notes = dto.notes;
        changed_by_user_id = actor;
      }
        ∷ [];
  events =
      c.events
      ++ EmployeeEvent.status_changed emp.id emp.status dto.status dto.effective_date actor ∷ [];
}

unfoldable pub change_status : ℕ → ChangeStatus → Option ℕ → Action Company Employee
change_status id dto actor = do
  emp ← find_by_id id
  throw_if (not (may_change emp.status dto.status)) (bad_request "Cannot change status")
  modify (commit_status emp dto actor)
  find_by_id id

-- The transaction of `terminate`: the leaver's row, the direct reports, the headships, the log.
unfoldable pub commit_termination : Employee → TerminateEmployee → ℕ → Company → Company
commit_termination emp dto actor c = record c {
  employees =
      update_where (λ e. opt_eq e.manager_id emp.id) (λ e. record e { manager_id = emp.manager_id })
        (update_employee emp.id
          (λ e. record e {
            status = EmployeeStatus.terminated;
            termination_date = some dto.termination_date;
          })
          c.employees);
  departments =
      update_where (λ (d : Department). opt_eq d.head_employee_id emp.id)
        (λ d. record d { head_employee_id = none }) c.departments;
  history =
      c.history
      ++ record {
        employee_id = emp.id;
        change_type = EmploymentChangeType.termination;
        effective_date = dto.termination_date;
        from_department_id = none;
        to_department_id = none;
        from_position_id = none;
        to_position_id = none;
        from_manager_id = none;
        to_manager_id = none;
        from_status = some emp.status;
        to_status = some EmployeeStatus.terminated;
        notes = dto.reason;
        changed_by_user_id = some actor;
      }
        ∷ [];
}

abbrev is_user_active : UserStatus → Bool
is_user_active UserStatus.user_active = true
is_user_active _ = false

-- `users.setStatus(id, SUSPENDED)` of a login other than the actor's, and `auth.logoutAll(id)`.
unfoldable pub suspend : ℕ → Company → Company
suspend user c = record c {
  users =
      update_where (λ (u : User). u.id == user) (λ u. record u { status = UserStatus.suspended })
        c.users;
  logged_out = c.logged_out ++ user ∷ [];
}

-- The login of the leaver is suspended if it is in use.
unfoldable pub suspend_user : ℕ → Action Company (Unit {0})
suspend_user user = do
  u ←
      or_throw (← gets (λ (c : Company). find (λ (u : User). u.id == user) c.users))
        (not_found "User not found")
  if is_user_active u.status then modify (suspend user) else pure tt

unfoldable pub suspend_login : Option ℕ → Bool → ℕ → Action Company (Unit {0})
suspend_login none wanted actor = pure tt
suspend_login (some user) wanted actor =
    if wanted && not (user == actor) then suspend_user user else pure tt

unfoldable pub terminate : ℕ → TerminateEmployee → ℕ → Action Company Employee
terminate id dto actor = do
  emp ← find_by_id id
  assert_not_terminated emp
  throw_if (ltb dto.termination_date emp.hire_date)
      (bad_request "Termination date cannot precede the hire date")
  modify (commit_termination emp dto actor)
  suspend_login emp.user_id (or_else dto.suspend_login true) actor
  modify (λ c. record c {
    events =
        c.events
        ++ EmployeeEvent.employee_terminated emp.id emp.user_id dto.termination_date actor ∷ [];
  })
  find_by_id id
