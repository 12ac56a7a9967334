-- ===== src/Tests/Absence.antt =====
-- A leave type with balances, and the requests of one employee of the company of three.
use ai_hr_sytem.Base.{
  ℕ, ◌*◌, ◌≤◌, ◌≡◌, refl, subst, arith, true, false, none, some, [], ◌∷◌, length, select, ok,
}
use ai_hr_sytem.Base.Int.{pos, ◌+ℤ◌, ◌-ℤ◌}
use ai_hr_sytem.Calendar.{
  IsValid, day_number, leaps_before, days_before, days_in_month, is_leap, next_day, day_of_week,
}
use ai_hr_sytem.Employees.{find_by_id, find_employee}
use ai_hr_sytem.Leave.Defs.{
  HalfDay, Notice, LeaveRequestStatus, LeaveType, LeaveBalance, effective_carry_over, available,
  LeaveRequest, LeaveStore, AuthUser, CreateLeaveRequest,
}
use ai_hr_sytem.Leave.Policy.{
  is_weekend, is_working, count_loop, count_working_days, find_type, pro_rate, carry_over,
  ensure_balance, apply_to_balance,
}
use ai_hr_sytem.Leave.Requests.{
  is_pending, allocate, charge_balances, check_balances, find_overlap, find_request, manager_login,
  check_submission, file_request, reserve, load_submitter, plan, submit,
}
use ai_hr_sytem.Leave.Decisions.{
  minus, employee_of, manages, check_decision, load_for_decision, charge_request,
  release_reservation, is_long_leave, apply_long_leave, notify_decision, settle, approve, reject,
  check_cancel, after_cancel, cancel,
}
use ai_hr_sytem.Leave.WorkingDays.{days_from, span, count_working_days_full}
use ai_hr_sytem.Leave.Ledger.{sum_days, IsBalanced, HasUniqueRequests}
use ai_hr_sytem.Leave.Shift.{KeepsBalance, gain}
use ai_hr_sytem.Leave.Balances.{pending_at, used_at}
use ai_hr_sytem.Leave.Loading.{on_file}
use ai_hr_sytem.Leave.Decided.{approve_moves_days, reject-IsBalanced}
use ai_hr_sytem.Leave.Cancelled.{cancel-IsBalanced}
use ai_hr_sytem.Leave.Submitted.{submit-IsBalanced}
use ai_hr_sytem.Tests.Staff.{office}
use ai_hr_sytem.Calendar.{prev_day}
use ai_hr_sytem.Employees.{change_status, may_change, commit_status}
use ai_hr_sytem.Leave.Decisions.{
  sync_employee_statuses, start_leaves, end_leaves, set_on_leave, is_long_leave, go_on_leave,
}
use ai_hr_sytem.Leave.Ledger.{sum_days, days_in}
use ai_hr_sytem.Leave.Numbered.{IsNumbered}

-- Twenty days a year.
abbrev annual_leave : LeaveType
annual_leave = record {
  id = 9;
  default_days = 40;
  requires_balance = true;
  carry_over_max_days = 10;
  carry_over_expires_on = some 331;
  allow_half_day = true;
  is_active = true;
}

-- 3 March 2026 is a holiday.
abbrev fresh : LeaveStore
fresh = record {
  company = office;
  types = annual_leave ∷ [];
  holidays = 20260303 ∷ [];
  balances = [];
  adjustments = [];
  requests = [];
  next_request_id = 1;
  notices = [];
}

-- From Monday 2 March to Thursday 5 March.
abbrev wish : CreateLeaveRequest
wish = record {
  leave_type_id = 9;
  start_date = 20260302;
  end_date = 20260305;
  half_day = none;
  reason = none;
  attachment_document_id = none;
}

monday : IsValid 20260302
unfolding days_in_month
monday = record {
  month_min = omega arith;
  month_max = omega arith;
  day_min = omega arith;
  day_max = omega arith;
}

thursday : IsValid 20260305
unfolding days_in_month
thursday = record {
  month_min = omega arith;
  month_max = omega arith;
  day_min = omega arith;
  day_max = omega arith;
}

in_order : 20260302 ≤ 20260305
in_order = omega arith

in_order_same : 20260302 ≤ 20260302
in_order_same = omega arith

three_days :
    2 * length (select (is_working (20260303 ∷ [])) (days_from 20260302 (span 20260302 20260305)))
    ≡ 6
unfolding is_working is_weekend next_day day_of_week day_number leaps_before days_before
    days_in_month is_leap
three_days = refl

count_working_days_full_example : count_working_days 20260302 20260305 HalfDay.none_half fresh ≡ (
  ok (
      2
      * length (select (is_working (20260303 ∷ [])) (days_from 20260302 (span 20260302 20260305)))),
  fresh,
)
count_working_days_full_example =
    count_working_days_full 20260302 20260305 fresh monday thursday in_order

fresh-KeepsBalance : KeepsBalance 9 fresh
fresh-KeepsBalance = (annual_leave, refl, refl)

fresh-IsBalanced : IsBalanced 9 fresh
unfolding sum_days
fresh-IsBalanced = record { reserved = λ e y. refl; consumed = λ e y. refl }

-- The request that is filed.
abbrev filed : LeaveRequest
filed = record {
  id = 1;
  employee_id = 2;
  leave_type_id = 9;
  start_date = 20260302;
  end_date = 20260305;
  half_day = HalfDay.none_half;
  days = 6;
  year = 2026;
  allocations = record { year = 2026; days = 6 } ∷ [];
  reason = none;
  status = LeaveRequestStatus.pending;
  approver_user_id = some 10;
  decided_by_user_id = none;
  decision_note = none;
  attachment_document_id = none;
  status_applied = false;
}

submits : (submit 2 wish 20 fresh).0 ≡ ok filed
unfolding submit load_submitter find_by_id find_employee find_type plan check_submission allocate
    count_working_days count_loop is_working is_weekend day_of_week next_day day_number leaps_before
    days_before days_in_month is_leap find_overlap reserve check_balances ensure_balance pro_rate
    carry_over available effective_carry_over charge_balances apply_to_balance file_request
    manager_login find_request ◌+ℤ◌ ◌-ℤ◌
submits = refl

submit-IsBalanced_example : IsBalanced 9 (submit 2 wish 20 fresh).1
submit-IsBalanced_example =
    submit-IsBalanced 9 2 wish 20 fresh fresh-KeepsBalance fresh-IsBalanced submits

-- The store with the request on file.
abbrev waiting : LeaveStore
waiting = record fresh {
  balances =
      record {
        employee_id = 2;
        leave_type_id = 9;
        year = 2026;
        entitled = pos 40;
        carried_over = pos 0;
        carry_over_expires_on = none;
        adjustment = pos 0;
        used = pos 0;
        pending = pos 6;
      }
      ∷ [];
  requests = filed ∷ [];
  next_request_id = 2;
  notices = Notice.leave_requested 10 1 ∷ [];
}

submit_gives_waiting : (submit 2 wish 20 fresh).1 ≡ waiting
unfolding submit load_submitter find_by_id find_employee find_type plan check_submission allocate
    count_working_days count_loop is_working is_weekend day_of_week next_day day_number leaps_before
    days_before days_in_month is_leap find_overlap reserve check_balances ensure_balance pro_rate
    carry_over available effective_carry_over charge_balances apply_to_balance file_request
    manager_login find_request ◌+ℤ◌ ◌-ℤ◌
submit_gives_waiting = refl

waiting-KeepsBalance : KeepsBalance 9 waiting
waiting-KeepsBalance = (annual_leave, refl, refl)

waiting-HasUniqueRequests : HasUniqueRequests waiting.requests
waiting-HasUniqueRequests = (refl, tt)

waiting-IsBalanced : IsBalanced 9 waiting
waiting-IsBalanced =
    subst (IsBalanced 9) submit_gives_waiting
      (submit-IsBalanced 9 2 wish 20 fresh fresh-KeepsBalance fresh-IsBalanced submits)

abbrev manager : AuthUser
manager = record { id = 10; can_read_all = false; can_read_team = true }

abbrev applicant : AuthUser
applicant = record { id = 20; can_read_all = false; can_read_team = false }

abbrev granted : LeaveRequest
granted = record filed { status = LeaveRequestStatus.approved; decided_by_user_id = some 10 }

approves : (approve 20260220 1 manager none waiting).0 ≡ ok granted
unfolding approve load_for_decision find_request check_decision employee_of find_by_id find_employee
    manages settle charge_request find_type charge_balances ensure_balance apply_to_balance
    apply_long_leave is_long_leave day_number leaps_before days_before days_in_month is_leap
    notify_decision
approves = refl

approve_moves_days_example :
    let u = (approve 20260220 1 manager none waiting).1 in
    (r : LeaveRequest) × (on_file 1 waiting ≡ some r)
    × (is_pending r.status ≡ true)
    × ((e y : ℕ) → pending_at e 9 y u ≡ pending_at e 9 y waiting +ℤ gain minus e 9 y r)
    × ((e y : ℕ) → used_at e 9 y u ≡ used_at e 9 y waiting +ℤ gain pos e 9 y r)
    × IsBalanced 9 u
approve_moves_days_example =
    approve_moves_days 9 20260220 1 manager none waiting waiting-KeepsBalance
      waiting-HasUniqueRequests waiting-IsBalanced approves

rejects :
    (reject 1 manager none waiting).0
    ≡ ok (record filed { status = LeaveRequestStatus.rejected; decided_by_user_id = some 10 })
unfolding reject load_for_decision find_request check_decision employee_of find_by_id find_employee
    manages release_reservation charge_request find_type charge_balances ensure_balance
    apply_to_balance notify_decision
rejects = refl

reject-IsBalanced_example : IsBalanced 9 (reject 1 manager none waiting).1
reject-IsBalanced_example =
    reject-IsBalanced 9 1 manager none waiting waiting-KeepsBalance waiting-HasUniqueRequests
      waiting-IsBalanced rejects

cancels :
    (cancel 20260220 1 applicant none waiting).0
    ≡ ok (record filed { status = LeaveRequestStatus.cancelled; decided_by_user_id = some 20 })
unfolding cancel find_request check_cancel employee_of find_by_id find_employee release_reservation
    charge_request find_type charge_balances ensure_balance apply_to_balance after_cancel
cancels = refl

cancel-IsBalanced_example : IsBalanced 9 (cancel 20260220 1 applicant none waiting).1
cancel-IsBalanced_example =
    cancel-IsBalanced 9 20260220 1 applicant none waiting waiting-KeepsBalance
      waiting-HasUniqueRequests waiting-IsBalanced cancels

-- The row of the year before: twelve days left, and five to carry over.
abbrev last_year : LeaveBalance
last_year = record {
  employee_id = 2;
  leave_type_id = 9;
  year = 2025;
  entitled = pos 40;
  carried_over = pos 0;
  carry_over_expires_on = none;
  adjustment = pos 0;
  used = pos 16;
  pending = pos 0;
}

abbrev after_a_year : LeaveStore
after_a_year = record fresh { balances = last_year ∷ [] }

abbrev this_year : LeaveBalance
this_year = record last_year {
  year = 2026;
  carried_over = pos 10;
  carry_over_expires_on = some 20260331;
  used = pos 0;
}

provisions : (ensure_balance 2 9 2026 after_a_year).0 ≡ ok this_year
unfolding ensure_balance find_type find_employee pro_rate carry_over effective_carry_over ◌+ℤ◌ ◌-ℤ◌
provisions = refl

-- A long leave that was approved ahead of time and starts today.
abbrev long_leave : LeaveRequest
long_leave = record filed {
  end_date = 20260409;
  days = 40;
  allocations = record { year = 2026; days = 40 } ∷ [];
  status = LeaveRequestStatus.approved;
}

abbrev long_granted : LeaveStore
long_granted = record fresh {
  balances = record this_year { used = pos 40 } ∷ [];
  requests = long_leave ∷ [];
}

long_granted-IsBalanced : IsBalanced 9 long_granted
unfolding sum_days days_in ◌+ℤ◌
long_granted-IsBalanced = record { reserved = λ e y. ground arith; consumed = λ e y. ground arith }

job_starts_one : (sync_employee_statuses 20260302 long_granted).0 ≡ ok (1, 0)
unfolding sync_employee_statuses start_leaves end_leaves set_on_leave is_long_leave employee_of
    find_by_id find_employee go_on_leave change_status may_change commit_status day_number
    leaps_before days_before days_in_month is_leap prev_day
job_starts_one = refl

waiting-IsNumbered : IsNumbered waiting
waiting-IsNumbered = record { below = (omega arith, tt); unique = waiting-HasUniqueRequests }

-- Monday 9 March, in the morning.
abbrev second_wish : CreateLeaveRequest
second_wish = record wish { start_date = 20260309; end_date = 20260309; half_day = some HalfDay.am }

abbrev second_filed : LeaveRequest
second_filed = record filed {
  id = 2;
  start_date = 20260309;
  end_date = 20260309;
  half_day = HalfDay.am;
  days = 1;
  allocations = record { year = 2026; days = 1 } ∷ [];
}

submits_again : (submit 2 second_wish 20 waiting).0 ≡ ok second_filed
unfolding submit load_submitter find_by_id find_employee find_type plan check_submission allocate
    count_working_days count_loop is_working is_weekend day_of_week next_day day_number leaps_before
    days_before days_in_month is_leap find_overlap reserve check_balances ensure_balance pro_rate
    carry_over available effective_carry_over charge_balances apply_to_balance file_request
    manager_login find_request ◌+ℤ◌ ◌-ℤ◌
submits_again = refl
