-- ===== src/Onboarding/Completion.antt =====
-- src/modules/onboarding/onboarding.service.ts, complete and completeIfFinished: a checklist without an
-- open required task is completed, and the new employee becomes active.
use ai_hr_sytem.Base.{
  ℕ, Bool, not, ◌&&◌, ◌||◌, Option, none, some, List, [], ◌∷◌, ◌++◌, ltb, ◌==◌, if◌then◌else◌, find,
  any, update_where, Action, pure, gets, ◌>>=◌, ◌>>◌, modify,
}
use ai_hr_sytem.Calendar.{IsoDate}
use ai_hr_sytem.Employees.{
  Employee, EmployeeStatus, status_eq, Company, ChangeStatus, find_by_id, change_status,
}
use ai_hr_sytem.Onboarding.Defs.{
  ChecklistType, ChecklistStatus, is_in_progress, Checklist, is_open_status, ChecklistTask,
  checklist_completed, OnboardingStore,
}

-- A call of the employees service.
abbrev pub on_employees : {A : Type 0} → Action Company A → Action OnboardingStore A
on_employees m s = let (r, c) = m s.company in (r, record s { company = c })

abbrev pub checklist_at : ℕ → List Checklist → Option Checklist
checklist_at id = find (λ (c : Checklist). c.id == id)

-- `checklists.update(c.id, { status: COMPLETED, completedAt })` and the event.
abbrev pub mark_completed : ℕ → Checklist → OnboardingStore → OnboardingStore
mark_completed now c s = record s {
  checklists =
      update_where (λ (x : Checklist). x.id == c.id)
        (λ (x : Checklist). record x {
          status = ChecklistStatus.completed;
          completed_at = some now;
        })
        s.checklists;
  events = s.events ++ checklist_completed c.id c.employee_id c.type ∷ [];
}

-- The activation never predates the hire.
abbrev pub activation : IsoDate → Employee → ChangeStatus
activation today e = record {
  status = EmployeeStatus.active;
  effective_date = if ltb today e.hire_date then e.hire_date else today;
  notes = some "Onboarding checklist completed";
}

unfoldable pub activate : IsoDate → ℕ → Employee → Action OnboardingStore (Unit {0})
activate today employee e =
    if status_eq e.status EmployeeStatus.onboarding
    then (on_employees (change_status employee (activation today e) none) >> pure tt)
    else pure tt

-- The last part of `complete`, for a checklist of either type.
unfoldable pub after_completion : IsoDate → ChecklistType → ℕ → Action OnboardingStore (Unit {0})
after_completion today ChecklistType.onboarding employee =
    on_employees (find_by_id employee) >>= λ e. activate today employee e
after_completion today ChecklistType.offboarding employee = pure tt

-- `complete`
unfoldable pub complete : ℕ → IsoDate → Checklist → Action OnboardingStore (Unit {0})
complete now today c = modify (mark_completed now c) >> after_completion today c.type c.employee_id

-- A required task of the checklist that is still open.
abbrev pub blocks : ℕ → ChecklistTask → Bool
blocks id t = (t.checklist_id == id) && t.is_required && is_open_status t.status

abbrev pub is_blocked : ℕ → List ChecklistTask → Bool
is_blocked id = any (blocks id)

-- `completeIfFinished`
unfoldable pub finish :
    ℕ → IsoDate → Option Checklist → List ChecklistTask → Action OnboardingStore (Unit {0})
finish now today none ts = pure tt
finish now today (some c) ts =
    if not (is_in_progress c.status) || is_blocked c.id ts then pure tt else complete now today c

unfoldable pub complete_if_finished : ℕ → IsoDate → ℕ → Action OnboardingStore (Unit {0})
complete_if_finished now today id = do
  c ← gets (λ (s : OnboardingStore). checklist_at id s.checklists)
  ts ← gets (λ (s : OnboardingStore). s.tasks)
  finish now today c ts
