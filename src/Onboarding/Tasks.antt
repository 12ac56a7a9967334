-- ===== src/Onboarding/Tasks.antt =====
-- src/modules/onboarding/onboarding.service.ts: the life of a task, and the end of a checklist.
use ai_hr_sytem.Base.{
  ℕ, Bool, false, not, ◌||◌, Option, none, some, List, String, ◌==◌, if◌then◌else◌, opt_eq, or_else,
  is_some, find, includes, update_where, Action, ok, err, bad_request, not_found, forbidden,
  server_error, gets, or_throw, ◌>>=◌, ◌>>◌, throw_if, modify,
}
use ai_hr_sytem.Calendar.{IsoDate}
use ai_hr_sytem.Employees.{Employee, find_by_user_id, is_in_reporting_chain}
use ai_hr_sytem.Onboarding.Defs.{
  ChecklistStatus, is_in_progress, Checklist, TaskStatus, task_status_eq, is_open_status,
  ChecklistTask, OnboardingStore, AuthUser,
}
use ai_hr_sytem.Onboarding.Completion.{checklist_at, complete_if_finished}

abbrev pub task_at : ℕ → List ChecklistTask → Option ChecklistTask
task_at id = find (λ (t : ChecklistTask). t.id == id)

pub record TaskDetail : Type 0 where
  pub task : ChecklistTask
  pub checklist : Checklist

-- `loadTask`; the checklist is there, by the foreign key.
unfoldable pub load_task : ℕ → Action OnboardingStore TaskDetail
load_task id s = elim (task_at id s.tasks) [
  | none ↦ (err (not_found "Task not found"), s)
  | some t ↦ elim (checklist_at t.checklist_id s.checklists) [
    | none ↦ (err (server_error "No checklist"), s)
    | some c ↦ (ok (record { task = t; checklist = c }), s)
  ]
]

-- `canActOn`
unfoldable pub can_act_on : ChecklistTask → AuthUser → Bool
can_act_on t actor =
    actor.can_manage
    || opt_eq t.assignee_user_id actor.id
    || elim t.assignee_role_name [ none ↦ false | some r ↦ includes actor.roles r ]

-- A field that is absent is none; one that may be null is none or some of an option.
pub record UpdateTask : Type 0 where
  pub status : Option TaskStatus
  pub notes : Option (Option String)
  pub document_id : Option (Option ℕ)

abbrev pub with_task_status : ℕ → ℕ → Option TaskStatus → ChecklistTask → ChecklistTask
with_task_status now actor none t = t
with_task_status now actor (some st) t = if task_status_eq st t.status then t else (record t {
  status = st;
  completed_at = if is_open_status st then none else some now;
  completed_by_user_id = if is_open_status st then none else some actor;
})

abbrev pub changed_task : ℕ → ℕ → UpdateTask → ChecklistTask → ChecklistTask
changed_task now actor dto t = with_task_status now actor dto.status (record t {
  notes = or_else dto.notes t.notes;
  document_id = or_else dto.document_id t.document_id;
})

abbrev pub save_task : ChecklistTask → OnboardingStore → OnboardingStore
save_task t s = record s {
  tasks = update_where (λ (x : ChecklistTask). x.id == t.id) (λ _. t) s.tasks;
}

unfoldable pub check_task : AuthUser → TaskDetail → Action OnboardingStore (Unit {0})
check_task actor d = do
  throw_if (not (can_act_on d.task actor)) (forbidden "Not your task")
  throw_if (not (is_in_progress d.checklist.status))
      (bad_request "Checklist is no longer in progress")

-- `updateTask`
unfoldable pub update_task :
    ℕ → IsoDate → ℕ → UpdateTask → AuthUser → Action OnboardingStore (Unit {0})
update_task now today id dto actor = load_task id >>= λ d.
    check_task actor d
    >> (modify (save_task (changed_task now actor.id dto d.task))
        >> complete_if_finished now today d.task.checklist_id)

pub record ReassignTask : Type 0 where
  pub assignee_user_id : Option (Option ℕ)
  pub assignee_role_name : Option (Option ℕ)

abbrev pub reassigned_task : ReassignTask → ChecklistTask → ChecklistTask
reassigned_task dto t = record t {
  assignee_user_id = or_else dto.assignee_user_id t.assignee_user_id;
  assignee_role_name = or_else dto.assignee_role_name t.assignee_role_name;
}

abbrev pub has_assignee : ChecklistTask → Bool
has_assignee t = is_some t.assignee_user_id || is_some t.assignee_role_name

-- `reassignTask`
unfoldable pub reassign_task : ℕ → ReassignTask → Action OnboardingStore (Unit {0})
reassign_task id dto = load_task id >>= λ d.
    throw_if (not (has_assignee (reassigned_task dto d.task)))
      (bad_request "A task needs a user or a role assignee")
    >> modify (save_task (reassigned_task dto d.task))

-- `findById`, without what is loaded along with the row.
unfoldable pub find_checklist : ℕ → Action OnboardingStore Checklist
find_checklist id = do
  or_throw (← gets (λ (s : OnboardingStore). checklist_at id s.checklists))
      (not_found "Checklist not found")

abbrev pub mark_cancelled : ℕ → OnboardingStore → OnboardingStore
mark_cancelled id s = record s {
  checklists =
      update_where (λ (x : Checklist). x.id == id)
        (λ (x : Checklist). record x { status = ChecklistStatus.cancelled }) s.checklists;
}

-- `cancel`
unfoldable pub cancel_checklist : ℕ → Action OnboardingStore (Unit {0})
cancel_checklist id = find_checklist id >>= λ c.
    throw_if (not (is_in_progress c.status)) (bad_request "Checklist is not in progress")
    >> modify (mark_cancelled id)

-- `canView`; the employee is loaded with the checklist.
unfoldable pub can_view_checklist : List Employee → Employee → AuthUser → Bool
can_view_checklist es e actor =
    actor.can_read || opt_eq e.user_id actor.id || elim (find_by_user_id actor.id es) [
      | none ↦ false
      | some me ↦ is_in_reporting_chain es me.id e.id
    ]
