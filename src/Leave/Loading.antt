-- ===== src/Leave/Loading.antt =====
-- The steps of the request service that only read: loading a request, and the checks on it.
use ai_hr_sytem.Base.{
  ℕ, ◌≡◌, ap, subst, ◌∙◌, inl, inr, arith, true, Option, some, ◌==◌, find, Bool-cases, Option-cases,
  ok, Result-cases,
}
use ai_hr_sytem.Calendar.{IsoDate}
use ai_hr_sytem.Employees.Placement.{find_by_id_reads}
use ai_hr_sytem.Leave.Defs.{LeaveRequest, LeaveStore, AuthUser}
use ai_hr_sytem.Leave.Requests.{is_pending, is_active_status, find_request}
use ai_hr_sytem.Leave.Decisions.{check_decision, load_for_decision, employee_of, check_cancel}

abbrev pub on_file : ℕ → LeaveStore → Option LeaveRequest
on_file id s = find (λ (q : LeaveRequest). q.id == id) s.requests

pub employee_of_reads : (r : LeaveRequest) (s : LeaveStore) → (employee_of r s).1 ≡ s
unfolding employee_of
employee_of_reads r s = ground (arith, find_by_id_reads r.employee_id s.company)

pub check_decision_reads :
    (r : LeaveRequest) (actor : AuthUser) (s : LeaveStore) → (check_decision r actor s).1 ≡ s
unfolding check_decision
check_decision_reads r actor s = ground (arith, employee_of_reads r s)

check_decision_pending :
    (r : LeaveRequest) (actor : AuthUser) (s : LeaveStore)
    → (check_decision r actor s).0 ≡ ok tt
    → is_pending r.status ≡ true
unfolding check_decision
check_decision_pending r actor s h = elim (Bool-cases (is_pending r.status)) [
  | inl e ↦ e
  | inr e ↦ absurd (ground arith)
]

-- The loading step of a decision reads only, and gives a pending request on file.
pub load_reads : (id : ℕ) (actor : AuthUser) (s : LeaveStore) → (load_for_decision id actor s).1 ≡ s
unfolding load_for_decision find_request
load_reads id actor s = elim (Option-cases (on_file id s)) [
  | inl e ↦ ground arith
  | inr (r, e) ↦ ground (arith, check_decision_reads r actor s)
]

pub load_checked :
    (id : ℕ) (actor : AuthUser) (s : LeaveStore) (r : LeaveRequest)
    → (load_for_decision id actor s).0 ≡ ok r
    → (on_file id s ≡ some r) × ((check_decision r actor s).0 ≡ ok tt)
unfolding load_for_decision find_request
load_checked id actor s r h = elim (Option-cases (on_file id s)) [
  | inl e ↦ absurd (ground arith)
  | inr (q, e) ↦ elim (Result-cases (check_decision q actor s).0) [
    | inl (tt, k) ↦
        let same : q ≡ r = ground arith in
        (e ∙ ap some same, subst (λ v. (check_decision v actor s).0 ≡ ok tt) same k)
    | inr (x, k) ↦ absurd (ground arith)
  ]
]

pub load_found :
    (id : ℕ) (actor : AuthUser) (s : LeaveStore) (r : LeaveRequest)
    → (load_for_decision id actor s).0 ≡ ok r
    → (on_file id s ≡ some r) × (is_pending r.status ≡ true)
load_found id actor s r h =
    let (found, passed) = load_checked id actor s r h in
    (found, check_decision_pending r actor s passed)

pub check_cancel_reads :
    (today : IsoDate) (r : LeaveRequest) (actor : AuthUser) (s : LeaveStore)
    → (check_cancel today r actor s).1 ≡ s
unfolding check_cancel
check_cancel_reads today r actor s = ground (arith, employee_of_reads r s)

pub check_cancel_active :
    (today : IsoDate) (r : LeaveRequest) (actor : AuthUser) (s : LeaveStore)
    → (check_cancel today r actor s).0 ≡ ok tt
    → is_active_status r.status ≡ true
unfolding check_cancel
check_cancel_active today r actor s h = elim (Bool-cases (is_active_status r.status)) [
  | inl e ↦ e
  | inr e ↦ absurd (ground arith)
]
