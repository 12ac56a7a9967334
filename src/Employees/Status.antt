-- ===== src/Employees/Status.antt =====
-- The life of an employment: which status changes happen, and to whom.
use ai_hr_sytem.Base.{
  ℕ, ◌≡◌, refl, inl, inr, arith, true, Option, none, some, List, [], ◌∷◌, ◌==◌, if◌then◌else◌,
  Option-cases, ok, err, HttpError,
}
use ai_hr_sytem.Employees.{
  Employee, EmployeeStatus, Company, ChangeStatus, find_employee, may_change, find_by_id,
  update_employee, commit_status, change_status,
}

-- The edges of the status diagram that `changeStatus` may follow.
pub data Edge : EmployeeStatus → EmployeeStatus → Type 0 where
  started : Edge EmployeeStatus.onboarding EmployeeStatus.active
  went_on_leave : Edge EmployeeStatus.active EmployeeStatus.on_leave
  returned : Edge EmployeeStatus.on_leave EmployeeStatus.active

may_change-Edge : (a b : EmployeeStatus) → may_change a b ≡ true → Edge a b
unfolding may_change
may_change-Edge a b h = grind (arith, started, went_on_leave, returned)

change_status_ok :
    (id : ℕ) (dto : ChangeStatus) (actor : Option ℕ) (c : Company) (emp e : Employee)
    → find_employee id c.employees ≡ some emp
    → (change_status id dto actor c).0 ≡ ok e
    → (may_change emp.status dto.status ≡ true)
      × ((change_status id dto actor c).1 ≡ commit_status emp dto actor c)
unfolding change_status find_by_id
change_status_ok id dto actor c emp e f h = ground arith

-- The row that is found after the update of one row's status.
find_employee-update :
    (x j : ℕ) (s : EmployeeStatus) (es : List Employee)
    → find_employee j (update_employee x (λ e. record e { status = s }) es)
      ≡ (elim (find_employee j es) [
        | none ↦ none
        | some e ↦ some (if j == x then record e { status = s } else e)
      ])
unfolding find_employee
find_employee-update x j s [] = refl
find_employee-update x j s (e ∷ es) = ground (arith, find_employee-update x j s es)

-- A change of status that succeeds, of the employee on record, follows an edge of the diagram
-- from the status on record, and
-- afterwards a look-up finds the new status on the employee's row and every other row as it was.
pub change_status_follows :
    (id j : ℕ) (dto : ChangeStatus) (actor : Option ℕ) (c : Company) {emp e : Employee}
    → find_employee id c.employees ≡ some emp
    → emp.id ≡ id
    → (change_status id dto actor c).0 ≡ ok e
    → Edge emp.status dto.status
      × (find_employee j (change_status id dto actor c).1.employees ≡ (
          if j == id
          then some (record emp { status = dto.status })
          else find_employee j c.employees))
unfolding commit_status
change_status_follows id j dto actor c {emp} {e} f own h =
    let (edge, state) = change_status_ok id dto actor c emp e f h in
    (
      may_change-Edge emp.status dto.status edge,
      rw (state) (ground (arith, find_employee-update emp.id j dto.status c.employees)),
    )

-- A change of status that throws leaves every table as it was.
pub change_status_error_unchanged :
    (id : ℕ) (dto : ChangeStatus) (actor : Option ℕ) (c : Company) {x : HttpError}
    → (change_status id dto actor c).0 ≡ err x
    → (change_status id dto actor c).1 ≡ c
unfolding change_status find_by_id commit_status
change_status_error_unchanged id dto actor c {x} h =
    elim (Option-cases (find_employee id c.employees)) [
      | inl e ↦ ground arith
      | inr (emp, e) ↦ ground (arith, find_employee-update emp.id id dto.status c.employees)
    ]
