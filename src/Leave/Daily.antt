-- ===== src/Leave/Daily.antt =====
-- `syncEmployeeStatuses`, the daily job that follows long leave.
use ai_hr_sytem.Base.{
  ℕ, ◌+◌, false, ◌&&◌, none, List, [], ◌∷◌, leb, if◌then◌else◌, select, pure, gets,
}
use ai_hr_sytem.Calendar.{IsoDate, prev_day}
use ai_hr_sytem.Leave.Defs.{LeaveRequest, LeaveStore}
use ai_hr_sytem.Leave.Requests.{is_approved}
use ai_hr_sytem.Leave.Decisions.{
  is_long_leave, set_on_leave, revert_long_leave, start_leaves, end_leaves, sync_employee_statuses,
}
use ai_hr_sytem.Leave.Ledger.{IsBalanced, SameLedger-refl, SameLedger-IsBalanced}
use ai_hr_sytem.Leave.Quiet.{
  Quiet, bind-Quiet, pure-Quiet, if-Quiet, set_on_leave-Quiet, revert_long_leave-Quiet,
}

start_leaves-Quiet : (rs : List LeaveRequest) (n : ℕ) → Quiet (start_leaves rs n)
unfolding start_leaves
start_leaves-Quiet [] n = pure-Quiet n
start_leaves-Quiet (r ∷ rs) n =
    bind-Quiet (if is_long_leave r then set_on_leave r none else pure false) _
      (if-Quiet (is_long_leave r) _ _ (set_on_leave-Quiet r none) (pure-Quiet false))
      λ flipped. start_leaves-Quiet rs (if flipped then n + 1 else n)

end_leaves-Quiet : (rs : List LeaveRequest) (n : ℕ) → Quiet (end_leaves rs n)
unfolding end_leaves
end_leaves-Quiet [] n = pure-Quiet n
end_leaves-Quiet (r ∷ rs) n =
    bind-Quiet (revert_long_leave r) _ (revert_long_leave-Quiet r)
      λ done. end_leaves-Quiet rs (n + 1)

-- The requests of the second loop.
abbrev returning : IsoDate → LeaveStore → List LeaveRequest
returning today s =
    select
      (λ (r : LeaveRequest).
        is_approved r.status && r.status_applied && leb r.end_date (prev_day today))
      s.requests

gets-Quiet : {A : Type 0} (f : LeaveStore → A) → Quiet (gets f)
gets-Quiet f = record { keeps = SameLedger-refl }

sync_employee_statuses-Quiet : (today : IsoDate) → Quiet (sync_employee_statuses today)
unfolding sync_employee_statuses
sync_employee_statuses-Quiet today = bind-Quiet (gets _) _ (gets-Quiet _) λ starting.
    bind-Quiet (start_leaves starting 0) _ (start_leaves-Quiet starting 0) λ started.
      bind-Quiet (gets (returning today)) _ (gets-Quiet (returning today)) λ ending.
        bind-Quiet (end_leaves ending 0) _ (end_leaves-Quiet ending 0)
          λ ended. pure-Quiet (started, ended)

-- The daily job, whether it goes through or stops at an error, keeps a leave type balanced.
pub sync_employee_statuses-IsBalanced :
    (t : ℕ) (today : IsoDate) (s : LeaveStore)
    → IsBalanced t s
    → IsBalanced t (sync_employee_statuses today s).1
sync_employee_statuses-IsBalanced t today s =
    SameLedger-IsBalanced t ((sync_employee_statuses-Quiet today).keeps s)
