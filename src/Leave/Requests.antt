-- ===== src/Leave/Requests.antt =====
-- src/modules/leave/leave-requests.service.ts: submission, decisions, cancellation and the daily
-- change of status for long leave.
use ai_hr_sytem.Base.{
  ℕ, ◌+◌, Bool, true, false, not, ◌&&◌, ◌||◌, Option, none, some, List, [], ◌∷◌, ◌++◌, ltb, leb,
  ◌==◌, if◌then◌else◌, or_else, is_some, find, sum_of, Action, ok, bad_request, not_found, conflict,
  pure, gets, or_throw, ◌>>=◌, ◌>>◌, throw_if, modify,
}
use ai_hr_sytem.Base.Int.{ℤ, pos, ltb_ℤ}
use ai_hr_sytem.Calendar.{IsoDate, year_of, iso}
use ai_hr_sytem.Employees.{Employee, EmployeeStatus, status_eq, Company, find_employee, find_by_id}
use ai_hr_sytem.Leave.Defs.{
  HalfDay, LeaveRequestStatus, LeaveType, available, Allocation, LeaveRequest, Notice,
  leave_requested, LeaveStore, CreateLeaveRequest,
}
use ai_hr_sytem.Leave.Policy.{
  is_half, count_working_days, find_type, ensure_balance, apply_to_balance,
}

-- A call of the employees service on its tables.
abbrev pub on_company : {A : Type 0} → Action Company A → Action LeaveStore A
on_company m s = let (r, c) = m s.company in (r, record s { company = c })

abbrev pub is_pending : LeaveRequestStatus → Bool
is_pending LeaveRequestStatus.pending = true
is_pending _ = false

abbrev pub is_approved : LeaveRequestStatus → Bool
is_approved LeaveRequestStatus.approved = true
is_approved _ = false

-- ACTIVE_STATUSES
abbrev pub is_active_status : LeaveRequestStatus → Bool
is_active_status s = is_pending s || is_approved s

-- `allocate`: working days for each calendar year, split at the end of the first.
unfoldable pub allocate : IsoDate → IsoDate → HalfDay → Action LeaveStore (List Allocation)
allocate a b half =
    let y = year_of a in
    if year_of b == y
    then (count_working_days a b half >>= λ n. pure (record { year = y; days = n } ∷ []))
    else (count_working_days a (iso y 12 31) half >>= λ n.
        count_working_days (iso (y + 1) 1 1) b half >>= λ m. pure (
          (if ltb 0 n then record { year = y; days = n } ∷ [] else [])
          ++ (if ltb 0 m then record { year = y + 1; days = m } ∷ [] else [])))

-- `r.allocations?.length ? r.allocations : [{ year: r.year, days: r.days }]`
abbrev pub charged : List Allocation → ℕ → ℕ → List Allocation
charged [] year days = record { year = year; days = days } ∷ []
charged (a ∷ as') year days = a ∷ as'

abbrev pub zero_days : ℕ → ℤ
zero_days d = pos 0

-- `chargeBalances`: one change for each year that is charged.
unfoldable pub charge_balances :
    ℕ → ℕ → (ℕ → ℤ) → (ℕ → ℤ) → List Allocation → Action LeaveStore (Unit {0})
charge_balances e t d_pending d_used [] s = (ok tt, s)
charge_balances e t d_pending d_used (a ∷ rest) s =
    (ensure_balance e t a.year >>= λ b.
    apply_to_balance b (d_pending a.days) (d_used a.days) >>= λ _.
    charge_balances e t d_pending d_used rest)
      s

-- The check of `submit` that each year's balance covers its days.
unfoldable pub check_balances : ℕ → ℕ → ℕ → IsoDate → List Allocation → Action LeaveStore (Unit {0})
check_balances e t start_year start_date [] s = (ok tt, s)
check_balances e t start_year start_date (a ∷ rest) s =
    (ensure_balance e t a.year >>= λ b.
    throw_if
      (ltb_ℤ (available b (if a.year == start_year then start_date else iso a.year 1 1))
        (pos a.days))
      (bad_request "Insufficient balance")
    >> check_balances e t start_year start_date rest)
      s

-- Two spans of days meet.
abbrev pub overlaps : IsoDate → IsoDate → IsoDate → IsoDate → Bool
overlaps a b c d = leb a d && leb c b

unfoldable pub find_overlap : ℕ → IsoDate → IsoDate → List LeaveRequest → Option LeaveRequest
find_overlap e a b = find λ (r : LeaveRequest).
    (r.employee_id == e) && is_active_status r.status && overlaps r.start_date r.end_date a b

unfoldable pub find_request : ℕ → Action LeaveStore LeaveRequest
find_request id = do
  or_throw (← gets (λ (s : LeaveStore). find (λ (r : LeaveRequest). r.id == id) s.requests))
      (not_found "Leave request not found")

abbrev pub notify : Notice → Action LeaveStore (Unit {0})
notify n = modify (λ (s : LeaveStore). record s { notices = s.notices ++ n ∷ [] })

-- The login of the employee's manager.
unfoldable pub manager_login : Employee → List Employee → Option ℕ
manager_login emp es = elim emp.manager_id [
  | none ↦ none
  | some m ↦ elim (find_employee m es) [ none ↦ none | some k ↦ k.user_id ]
]

abbrev pub total_days : List Allocation → ℕ
total_days = sum_of Allocation.days

-- The checks of `submit` before the days are counted.
unfoldable pub check_submission :
    Employee → LeaveType → CreateLeaveRequest → Action LeaveStore (Unit {0})
check_submission emp type dto = do
  throw_if (not type.is_active) (bad_request "Leave type is inactive")
  throw_if (is_half (or_else dto.half_day HalfDay.none_half) && not type.allow_half_day)
      (bad_request "The leave type does not allow half days")
  throw_if (ltb (year_of dto.start_date + 1) (year_of dto.end_date))
      (bad_request "A request can span at most two calendar years")
  throw_if (ltb dto.start_date emp.hire_date)
      (bad_request "Leave cannot start before the hire date")

abbrev pub new_request :
    ℕ → Employee → LeaveType → List Employee → CreateLeaveRequest → List Allocation → LeaveRequest
new_request id emp type es dto allocations = record {
  id = id;
  employee_id = emp.id;
  leave_type_id = type.id;
  start_date = dto.start_date;
  end_date = dto.end_date;
  half_day = or_else dto.half_day HalfDay.none_half;
  days = total_days allocations;
  year = year_of dto.start_date;
  allocations = allocations;
  reason = dto.reason;
  status = LeaveRequestStatus.pending;
  approver_user_id = manager_login emp es;
  decided_by_user_id = none;
  decision_note = none;
  attachment_document_id = dto.attachment_document_id;
  status_applied = false;
}

-- `requests.save(create(…))` and the notice to the approver.
unfoldable pub file_request :
    Employee → LeaveType → CreateLeaveRequest → List Allocation → ℕ → LeaveStore → LeaveStore
file_request emp type dto allocations actor s =
    let r = new_request s.next_request_id emp type s.company.employees dto allocations in
    record s {
      requests = s.requests ++ r ∷ [];
      next_request_id = s.next_request_id + 1;
      notices = elim r.approver_user_id [
        | none ↦ s.notices
        | some u ↦ if u == actor then s.notices else s.notices ++ leave_requested u r.id ∷ []
      ];
    }

-- Reserves the days of a new request, if the leave type keeps a balance.
unfoldable pub reserve :
    Employee → LeaveType → CreateLeaveRequest → List Allocation → Action LeaveStore (Unit {0})
reserve emp type dto allocations =
    if type.requires_balance
    then (check_balances emp.id type.id (year_of dto.start_date) dto.start_date allocations
        >> charge_balances emp.id type.id pos zero_days
            (charged allocations (year_of dto.start_date) (total_days allocations)))
    else pure tt

-- The employee who asks, still employed.
unfoldable pub load_submitter : ℕ → Action LeaveStore Employee
load_submitter employee_id = do
  emp ← on_company (find_by_id employee_id)
  throw_if (status_eq emp.status EmployeeStatus.terminated) (bad_request "Employee is terminated")
  pure emp

-- The days that a request would be charged, once it has passed the checks.
unfoldable pub plan :
    Employee → LeaveType → CreateLeaveRequest → Action LeaveStore (List Allocation)
plan emp type dto = do
  check_submission emp type dto
  allocations ← allocate dto.start_date dto.end_date (or_else dto.half_day HalfDay.none_half)
  throw_if (total_days allocations == 0) (bad_request "The selected dates contain no working days")
  throw_if
      (is_some
        (← gets (λ (s : LeaveStore). find_overlap emp.id dto.start_date dto.end_date s.requests)))
      (conflict "Overlaps an existing request")
  pure allocations

unfoldable pub submit : ℕ → CreateLeaveRequest → ℕ → Action LeaveStore LeaveRequest
submit employee_id dto actor = do
  emp ← load_submitter employee_id
  type ← find_type dto.leave_type_id
  allocations ← plan emp type dto
  reserve emp type dto allocations
  id ← gets LeaveStore.next_request_id
  modify (file_request emp type dto allocations actor)
  find_request id
