-- ===== src/Employees/Placement.antt =====
-- `changeAssignment` keeps the reporting lines free of cycles.
use ai_hr_sytem.Base.{
  ℕ, ◌≡◌, refl, inl, inr, arith, true, false, Option, none, some, ◌==◌, opt_eq, any, Bool-cases,
  Option-cases, ok, err, HttpError, Result-cases,
}
use ai_hr_sytem.Employees.{
  Employee, Company, AssignmentChange, find_employee, manager_of, is_employed,
  is_in_reporting_chain, update_employee, placed, find_by_id, next_department, next_position,
  next_manager, check_assignment, assert_not_terminated, assert_department_exists,
  assert_position_assignable, assert_manager_assignable, commit_assignment, change_assignment,
  check_new,
}
use ai_hr_sytem.Employees.Chain.{
  IsAcyclic, IsShallow, AtOrUnder, placed-IsAcyclic, checked_manager, direct, Reports-trans,
  HasUniqueIds, own_row,
}

-- The checks leave the store as it is.
assert_position_assignable_reads :
    (p d : ℕ) (c : Company) → (assert_position_assignable p d c).1 ≡ c
unfolding assert_position_assignable
assert_position_assignable_reads p d c = ground arith

pub find_by_id_reads : (id : ℕ) (c : Company) → (find_by_id id c).1 ≡ c
unfolding find_by_id
find_by_id_reads id c = ground arith

assert_not_terminated_reads : (e : Employee) (c : Company) → (assert_not_terminated e c).1 ≡ c
unfolding assert_not_terminated
assert_not_terminated_reads e c = ground arith

assert_department_exists_reads : (d : ℕ) (c : Company) → (assert_department_exists d c).1 ≡ c
unfolding assert_department_exists
assert_department_exists_reads d c = ground arith

assert_manager_assignable_reads :
    (m : ℕ) (o : Option ℕ) (c : Company) → (assert_manager_assignable m o c).1 ≡ c
unfolding assert_manager_assignable
assert_manager_assignable_reads m o c = ground arith

-- A manager that passes the check.
assert_manager_assignable_passes :
    (m x : ℕ) (c : Company)
    → (assert_manager_assignable m (some x) c).0 ≡ ok tt
    → ((x == m) ≡ false)
      × (is_in_reporting_chain c.employees x m ≡ false)
      × (any (is_employed m) c.employees ≡ true)
unfolding assert_manager_assignable
assert_manager_assignable_passes m x c h = ground arith

position_reads :
    (emp : Employee) (d : ℕ) (c : Company) (p : Option ℕ)
    → (check_new p emp.position_id (λ k. assert_position_assignable k d) c).1 ≡ c
position_reads emp d c none = refl
position_reads emp d c (some p) = ground (arith, assert_position_assignable_reads p d c)

manager_reads :
    (emp : Employee) (c : Company) (m : Option ℕ)
    → (check_new m emp.manager_id (λ k. assert_manager_assignable k (some emp.id)) c).1 ≡ c
manager_reads emp c none = refl
manager_reads emp c (some m) = ground (arith, assert_manager_assignable_reads m (some emp.id) c)

check_assignment_reads :
    (emp : Employee) (dto : AssignmentChange) (c : Company) → (check_assignment emp dto c).1 ≡ c
unfolding check_assignment
check_assignment_reads emp dto c = ground (
  arith,
  assert_not_terminated_reads emp c,
  assert_department_exists_reads (next_department emp dto) c,
  position_reads emp (next_department emp dto) c (next_position emp dto),
  manager_reads emp c (next_manager emp dto),
)

check_assignment_passes :
    (emp : Employee) (dto : AssignmentChange) (c : Company)
    → (check_assignment emp dto c).0 ≡ ok tt
    → (check_new
        (next_manager emp dto)
        emp.manager_id
        (λ k. assert_manager_assignable k (some emp.id))
        c).0
      ≡ ok tt
unfolding check_assignment
check_assignment_passes emp dto c h = ground (
  arith,
  assert_not_terminated_reads emp c,
  assert_department_exists_reads (next_department emp dto) c,
  position_reads emp (next_department emp dto) c (next_position emp dto),
)

-- A new manager does not report to the employee.
new_manager_free :
    (emp : Employee) (c : Company) (m : Option ℕ) (k : ℕ)
    → IsAcyclic c.employees
    → IsShallow c.employees
    → manager_of c.employees emp.id ≡ emp.manager_id
    → (check_new m emp.manager_id (λ k. assert_manager_assignable k (some emp.id)) c).0 ≡ ok tt
    → m ≡ some k
    → ¬ AtOrUnder c.employees k emp.id
new_manager_free emp c m k acyclic shallow row passed new under =
    elim (Bool-cases (opt_eq emp.manager_id k)) [
      | inl same ↦ elim under [
        | inl q ↦ acyclic k (direct (ground arith))
        | inr r ↦ acyclic k (Reports-trans r (direct (ground arith)))
      ]
      | inr other ↦
          let fresh = assert_manager_assignable_passes k emp.id c (ground arith) in
          checked_manager c.employees emp.id k shallow fresh.0 fresh.1 under
    ]

module _ (id : ℕ) (dto : AssignmentChange) (actor : ℕ) (c : Company) where
  -- The three outcomes: nobody found, a check that fails, and a change.
  unknown_employee : find_employee id c.employees ≡ none → (change_assignment id dto actor c).1 ≡ c
  unfolding change_assignment find_by_id
  unknown_employee e = ground arith

  refused_change :
      (emp : Employee) (x : HttpError)
      → find_employee id c.employees ≡ some emp
      → (check_assignment emp dto c).0 ≡ err x
      → (change_assignment id dto actor c).1 ≡ c
  unfolding change_assignment find_by_id
  refused_change emp x e h = ground (arith, check_assignment_reads emp dto c)

  made_change :
      (emp : Employee)
      → find_employee id c.employees ≡ some emp
      → (check_assignment emp dto c).0 ≡ ok tt
      → (change_assignment id dto actor c).1.employees
        ≡ update_employee emp.id
            (placed (next_department emp dto) (next_position emp dto) (next_manager emp dto))
            c.employees
  unfolding change_assignment find_by_id commit_assignment
  made_change emp e h = ground (arith, check_assignment_reads emp dto c)

-- A change of assignment never closes a reporting cycle, whether it is refused or made, as long
-- as ids are unique and no reporting line is longer than the fifty levels that the check climbs.
pub change_assignment-IsAcyclic :
    (id : ℕ) (dto : AssignmentChange) (actor : ℕ) (c : Company)
    → HasUniqueIds c.employees
    → IsShallow c.employees
    → IsAcyclic c.employees
    → IsAcyclic (change_assignment id dto actor c).1.employees
change_assignment-IsAcyclic id dto actor c unique shallow acyclic =
    elim (Option-cases (find_employee id c.employees)) [
      | inl e ↦ rw (unknown_employee id dto actor c e) acyclic
      | inr (emp, e) ↦ elim (Result-cases (check_assignment emp dto c).0) [
        | inr (x, h) ↦ rw (refused_change id dto actor c emp x e h) acyclic
        | inl (tt, h) ↦ rw (made_change id dto actor c emp e h) (
            placed-IsAcyclic emp.id (next_department emp dto) (next_position emp dto)
              (next_manager emp dto) c.employees acyclic
              λ k new.
                new_manager_free emp c (next_manager emp dto) k acyclic shallow
                  (own_row c id emp unique e) (check_assignment_passes emp dto c h) new)
      ]
    ]
