-- ===== src/Leave/Decisions.antt =====
-- src/modules/leave/leave-requests.service.ts: decisions on a request, its cancellation, and the
-- daily job that follows long leave.
use ai_hr_sytem.Base.{
  ℕ, ◌+◌, Bool, true, false, not, ◌&&◌, ◌||◌, Option, none, some, List, [], ◌∷◌, String, leb, ◌==◌,
  if◌then◌else◌, opt_eq, select, update_where, Action, ok, bad_request, forbidden, pure, gets,
  ◌>>=◌, ◌>>◌, throw_if, modify,
}
use ai_hr_sytem.Base.Int.{ℤ, pos, ◌-ℤ◌}
use ai_hr_sytem.Calendar.{IsoDate, next_day, prev_day, day_number}
use ai_hr_sytem.Employees.{
  Employee, EmployeeStatus, status_eq, find_by_user_id, find_by_id, is_in_reporting_chain,
  change_status,
}
use ai_hr_sytem.Leave.Defs.{
  LeaveRequestStatus, LeaveRequest, leave_decided, leave_cancelled, LeaveStore, AuthUser,
}
use ai_hr_sytem.Leave.Policy.{find_type}
use ai_hr_sytem.Leave.Requests.{
  on_company, is_pending, is_approved, is_active_status, charged, charge_balances, find_request,
  notify, zero_days,
}

-- The employee of a request.
unfoldable pub employee_of : LeaveRequest → Action LeaveStore Employee
employee_of r = on_company (find_by_id r.employee_id)

-- `me && isInReportingChain(me.id, employeeId)`
unfoldable pub manages : AuthUser → ℕ → List Employee → Bool
manages actor employee_id es = elim (find_by_user_id actor.id es) [
  | none ↦ false
  | some me ↦ is_in_reporting_chain es me.id employee_id
]

-- The checks of `loadForDecision`: who may decide, and on what.
unfoldable pub check_decision : LeaveRequest → AuthUser → Action LeaveStore (Unit {0})
check_decision r actor = do
  throw_if (not (is_pending r.status)) (bad_request "Request is already decided")
  emp ← employee_of r
  throw_if (opt_eq emp.user_id actor.id) (forbidden "You cannot decide your own request")
  es ← gets (λ (s : LeaveStore). s.company.employees)
  throw_if
      (not actor.can_read_all
        && not (opt_eq r.approver_user_id actor.id)
        && not (manages actor r.employee_id es))
      (forbidden "Not your report")

-- `loadForDecision`
unfoldable pub load_for_decision : ℕ → AuthUser → Action LeaveStore LeaveRequest
load_for_decision id actor = do r ← find_request id; check_decision r actor; pure r

-- `0 - d`
abbrev pub minus : ℕ → ℤ
minus d = pos 0 -ℤ pos d

-- `chargeBalances` of a request that is on file.
unfoldable pub charge_request : LeaveRequest → (ℕ → ℤ) → (ℕ → ℤ) → Action LeaveStore (Unit {0})
charge_request r d_pending d_used =
    charge_balances r.employee_id r.leave_type_id d_pending d_used
      (charged r.allocations r.year r.days)

-- `releaseReservation`
unfoldable pub release_reservation : LeaveRequest → Action LeaveStore (Unit {0})
release_reservation r = do
  type ← find_type r.leave_type_id
  if not type.requires_balance
      then pure tt
      else if is_pending r.status
      then charge_request r minus zero_days
      else charge_request r zero_days minus

-- `requests.update(id, change)`
abbrev pub update_request : ℕ → (LeaveRequest → LeaveRequest) → LeaveStore → LeaveStore
update_request id f s = record s {
  requests = update_where (λ (r : LeaveRequest). r.id == id) f s.requests;
}

abbrev pub decided : LeaveRequestStatus → ℕ → Option String → LeaveRequest → LeaveRequest
decided status by note r = record r {
  status = status;
  decided_by_user_id = some by;
  decision_note = note;
}

-- `isLongLeave`: thirty calendar days or more.
unfoldable pub is_long_leave : LeaveRequest → Bool
is_long_leave r = leb (day_number r.start_date + 30) (day_number r.end_date + 1)

-- The two calls of `employees.changeStatus`.
unfoldable pub go_on_leave : LeaveRequest → Option ℕ → Action LeaveStore Employee
go_on_leave r actor = on_company (
    change_status r.employee_id
      (record {
        status = EmployeeStatus.on_leave;
        effective_date = r.start_date;
        notes = some "Leave request";
      })
      actor)

unfoldable pub come_back : LeaveRequest → Action LeaveStore Employee
come_back r = on_company (
    change_status r.employee_id
      (record {
        status = EmployeeStatus.active;
        effective_date = next_day r.end_date;
        notes = some "Returned from leave";
      })
      none)

-- `setOnLeave`: whether the status was changed.
unfoldable pub set_on_leave : LeaveRequest → Option ℕ → Action LeaveStore Bool
set_on_leave r actor = do
  emp ← employee_of r
  if not (status_eq emp.status EmployeeStatus.active)
      then pure false
      else (go_on_leave r actor >>= λ _.
          modify (update_request r.id (λ q. record q { status_applied = true })) >> pure true)

-- `applyLongLeaveStatus`
unfoldable pub apply_long_leave : IsoDate → LeaveRequest → Option ℕ → Action LeaveStore (Unit {0})
apply_long_leave today r actor =
    if is_long_leave r && leb r.start_date today && leb today r.end_date
    then (set_on_leave r actor >>= λ _. pure tt)
    else pure tt

-- `revertLongLeaveStatus`
unfoldable pub revert_long_leave : LeaveRequest → Action LeaveStore (Unit {0})
revert_long_leave r = do
  emp ← employee_of r
  if status_eq emp.status EmployeeStatus.on_leave then (come_back r >>= λ _. pure tt) else pure tt
  modify (update_request r.id (λ q. record q { status_applied = false }))

-- `notifyDecision`
unfoldable pub notify_decision : LeaveRequest → Bool → Action LeaveStore (Unit {0})
notify_decision r yes_no = do
  emp ← employee_of r
  elim emp.user_id [ none ↦ pure tt | some u ↦ notify (leave_decided u r.id yes_no) ]

-- The balance change of `approve`: reserved days become used days.
unfoldable pub settle : LeaveRequest → Action LeaveStore (Unit {0})
settle r = do
  type ← find_type r.leave_type_id
  if type.requires_balance then charge_request r minus pos else pure tt

unfoldable pub approve : IsoDate → ℕ → AuthUser → Option String → Action LeaveStore LeaveRequest
approve today id actor note = do
  r ← load_for_decision id actor
  settle r
  modify (update_request id (decided LeaveRequestStatus.approved actor.id note))
  apply_long_leave today r (some actor.id)
  notify_decision r true
  find_request id

unfoldable pub reject : ℕ → AuthUser → Option String → Action LeaveStore LeaveRequest
reject id actor note = do
  r ← load_for_decision id actor
  release_reservation r
  modify (update_request id (decided LeaveRequestStatus.rejected actor.id note))
  notify_decision r false
  find_request id

-- The checks of `cancel`.
unfoldable pub check_cancel : IsoDate → LeaveRequest → AuthUser → Action LeaveStore (Unit {0})
check_cancel today r actor = do
  emp ← employee_of r
  throw_if (not actor.can_read_all && not (opt_eq emp.user_id actor.id)) (forbidden "Forbidden")
  throw_if (not (is_active_status r.status)) (bad_request "Request is already closed")
  throw_if (is_approved r.status && not actor.can_read_all && leb r.start_date today)
      (bad_request "Approved leave that has started can only be cancelled by HR")

-- What follows a cancellation: the employee's status is put back, and the approver is told.
unfoldable pub after_cancel : LeaveRequest → AuthUser → Action LeaveStore (Unit {0})
after_cancel r actor = do
  if r.status_applied then revert_long_leave r else pure tt
  elim r.approver_user_id [
    | none ↦ pure tt
    | some u ↦ if u == actor.id then pure tt else notify (leave_cancelled u r.id)
  ]

unfoldable pub cancel : IsoDate → ℕ → AuthUser → Option String → Action LeaveStore LeaveRequest
cancel today id actor note = do
  r ← find_request id
  check_cancel today r actor
  release_reservation r
  modify (update_request id (decided LeaveRequestStatus.cancelled actor.id note))
  after_cancel r actor
  find_request id

-- The two loops of `syncEmployeeStatuses`.
unfoldable pub start_leaves : List LeaveRequest → ℕ → Action LeaveStore ℕ
start_leaves [] started s = (ok started, s)
start_leaves (r ∷ rs) started s =
    ((if is_long_leave r then set_on_leave r none else pure false) >>= λ flipped.
    start_leaves rs (if flipped then started + 1 else started))
      s

unfoldable pub end_leaves : List LeaveRequest → ℕ → Action LeaveStore ℕ
end_leaves [] ended s = (ok ended, s)
end_leaves (r ∷ rs) ended s = (revert_long_leave r >> end_leaves rs (ended + 1)) s

unfoldable pub sync_employee_statuses : IsoDate → Action LeaveStore (ℕ × ℕ)
sync_employee_statuses today = do
  starting ← gets λ (s : LeaveStore).
      select
        (λ (r : LeaveRequest).
          is_approved r.status
          && not r.status_applied
          && leb r.start_date today
          && leb today r.end_date)
        s.requests
  started ← start_leaves starting 0
  ending ← gets λ (s : LeaveStore).
      select
        (λ (r : LeaveRequest).
          is_approved r.status && r.status_applied && leb r.end_date (prev_day today))
        s.requests
  ended ← end_leaves ending 0
  pure (started, ended)

-- `canView`
unfoldable pub can_view : LeaveRequest → Employee → AuthUser → List Employee → Bool
can_view r emp actor es =
    actor.can_read_all
    || (opt_eq emp.user_id actor.id || opt_eq r.approver_user_id actor.id)
    || (actor.can_read_team && manages actor r.employee_id es)
