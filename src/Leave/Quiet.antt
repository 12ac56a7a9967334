-- ===== src/Leave/Quiet.antt =====
-- The steps that follow a decision do not touch the ledger: changes of employee status, the mark
-- on the request, and notices.
use ai_hr_sytem.Base.{
  ℕ, refl, inl, inr, arith, Bool, true, false, not, Option, none, some, ◌==◌, if◌then◌else◌, subst,
  Action, pure, ◌>>=◌, modify, Result-cases,
}
use ai_hr_sytem.Calendar.{IsoDate}
use ai_hr_sytem.Leave.Defs.{
  LeaveRequest, LeaveStore, Notice, leave_decided, leave_cancelled, AuthUser,
}
use ai_hr_sytem.Employees.{Company, EmployeeStatus, status_eq, find_by_id}
use ai_hr_sytem.Leave.Requests.{on_company, notify}
use ai_hr_sytem.Leave.Decisions.{
  employee_of, update_request, go_on_leave, come_back, set_on_leave, apply_long_leave,
  revert_long_leave, notify_decision, after_cancel,
}
use ai_hr_sytem.Leave.Ledger.{days_in, sum_days-same, SameLedger, SameLedger-refl, SameLedger-trans}

-- The mark `statusApplied` is no part of the ledger.
mark-SameLedger :
    (id : ℕ) (b : Bool) (s : LeaveStore)
    → SameLedger s (update_request id (λ q. record q { status_applied = b }) s)
unfolding days_in
mark-SameLedger id b s = record {
  same_balances = refl;
  same_types = refl;
  same_sums = λ c e t y.
      sum_days-same c e t y (λ q. q.id == id) (λ q. record q { status_applied = b }) s.requests
        (λ r. refl);
}

-- A step that keeps the ledger from any store.
pub record Quiet {A : Type 0} (m : Action LeaveStore A) : Type 0 where
  pub keeps : (s : LeaveStore) → SameLedger s (m s).1

module _ {A B : Type 0} where
  pub bind-Quiet :
      (m : Action LeaveStore A) (f : A → Action LeaveStore B)
      → Quiet m
      → ((a : A) → Quiet (f a))
      → Quiet (m >>= f)
  bind-Quiet m f p q = record {
    keeps = λ s. elim (Result-cases (m s).0) [
      | inl (a, e) ↦
          subst (SameLedger s) (ground arith) (SameLedger-trans (p.keeps s) ((q a).keeps (m s).1))
      | inr (x, e) ↦ subst (SameLedger s) (ground arith) (p.keeps s)
    ];
  }

pub pure-Quiet : {A : Type 0} (a : A) → Quiet (pure a)
pure-Quiet a = record { keeps = SameLedger-refl }

on_company-Quiet : {A : Type 0} (m : Action Company A) → Quiet (on_company m)
on_company-Quiet m = record {
  keeps = λ s. record { same_balances = refl; same_types = refl; same_sums = λ c e t y. refl };
}

pub notify-Quiet : (n : Notice) → Quiet (notify n)
notify-Quiet n = record {
  keeps = λ s. record { same_balances = refl; same_types = refl; same_sums = λ c e t y. refl };
}

mark-Quiet :
    (id : ℕ) (b : Bool) → Quiet (modify (update_request id (λ q. record q { status_applied = b })))
mark-Quiet id b = record { keeps = mark-SameLedger id b }

pub if-Quiet :
    {A : Type 0} (b : Bool) (m k : Action LeaveStore A)
    → Quiet m
    → Quiet k
    → Quiet (if b then m else k)
if-Quiet true m k p q = p
if-Quiet false m k p q = q

pub employee_of-Quiet : (r : LeaveRequest) → Quiet (employee_of r)
unfolding employee_of
employee_of-Quiet r = on_company-Quiet (find_by_id r.employee_id)

go_on_leave-Quiet : (r : LeaveRequest) (actor : Option ℕ) → Quiet (go_on_leave r actor)
unfolding go_on_leave
go_on_leave-Quiet r actor = on_company-Quiet _

come_back-Quiet : (r : LeaveRequest) → Quiet (come_back r)
unfolding come_back
come_back-Quiet r = on_company-Quiet _

pub set_on_leave-Quiet : (r : LeaveRequest) (actor : Option ℕ) → Quiet (set_on_leave r actor)
unfolding set_on_leave
set_on_leave-Quiet r actor = bind-Quiet (employee_of r) _ (employee_of-Quiet r) λ emp.
    if-Quiet (not (status_eq emp.status EmployeeStatus.active)) _ _ (pure-Quiet false) (
      bind-Quiet (go_on_leave r actor) _ (go_on_leave-Quiet r actor) λ _.
        bind-Quiet (modify (update_request r.id (λ q. record q { status_applied = true }))) _
          (mark-Quiet r.id true) λ _. pure-Quiet true)

pub apply_long_leave-Quiet :
    (today : IsoDate) (r : LeaveRequest) (actor : Option ℕ) → Quiet (apply_long_leave today r actor)
unfolding apply_long_leave
apply_long_leave-Quiet today r actor =
    if-Quiet _ _ _
      (bind-Quiet (set_on_leave r actor) _ (set_on_leave-Quiet r actor) λ _. pure-Quiet tt)
      (pure-Quiet tt)

pub revert_long_leave-Quiet : (r : LeaveRequest) → Quiet (revert_long_leave r)
unfolding revert_long_leave
revert_long_leave-Quiet r = bind-Quiet (employee_of r) _ (employee_of-Quiet r) λ emp.
    bind-Quiet
      (if status_eq emp.status EmployeeStatus.on_leave
        then (come_back r >>= λ _. pure tt)
        else pure tt)
      _
      (if-Quiet (status_eq emp.status EmployeeStatus.on_leave) _ _
        (bind-Quiet (come_back r) _ (come_back-Quiet r) λ _. pure-Quiet tt) (pure-Quiet tt))
      λ _. mark-Quiet r.id false

pub notify_decision-Quiet : (r : LeaveRequest) (b : Bool) → Quiet (notify_decision r b)
unfolding notify_decision
notify_decision-Quiet r b =
    bind-Quiet (employee_of r) _ (employee_of-Quiet r) λ emp. told emp.user_id
  where
    told :
        (o : Option ℕ)
        → Quiet (elim o [ none ↦ pure tt | some u ↦ notify (leave_decided u r.id b) ])
    told none = pure-Quiet tt
    told (some u) = notify-Quiet (leave_decided u r.id b)

pub after_cancel-Quiet : (r : LeaveRequest) (actor : AuthUser) → Quiet (after_cancel r actor)
unfolding after_cancel
after_cancel-Quiet r actor =
    bind-Quiet (if r.status_applied then revert_long_leave r else pure tt) _
      (if-Quiet r.status_applied _ _ (revert_long_leave-Quiet r) (pure-Quiet tt))
      λ _. told r.approver_user_id
  where
    told :
        (o : Option ℕ)
        → Quiet (elim o [
          | none ↦ pure tt
          | some u ↦ if u == actor.id then pure tt else notify (leave_cancelled u r.id)
        ])
    told none = pure-Quiet tt
    told (some u) =
        if-Quiet (u == actor.id) _ _ (pure-Quiet tt) (notify-Quiet (leave_cancelled u r.id))
