-- ===== src/Onboarding/Start.antt =====
-- src/modules/onboarding/onboarding.service.ts, start, with the template that it picks, and the listener
-- that starts checklists when people join or leave.
use ai_hr_sytem.Base.{
  ℕ, suc, ◌+◌, Bool, not, ◌&&◌, Option, none, some, List, [], ◌∷◌, ◌++◌, ◌==◌, if◌then◌else◌,
  opt_eq, or_else, is_some, find, any, length, Action, bad_request, not_found, conflict, pure, gets,
  or_throw, ◌>>=◌, ◌>>◌, throw_if, modify,
}
use ai_hr_sytem.Base.Int.{ℤ, pos, negsuc}
use ai_hr_sytem.Calendar.{IsoDate, add_days, sub_days}
use ai_hr_sytem.Employees.{Employee, EmployeeStatus, status_eq, find_employee, find_by_id}
use ai_hr_sytem.Onboarding.Defs.{
  ChecklistType, type_eq, AssigneeRule, ChecklistTemplateItem, ChecklistTemplate, ChecklistStatus,
  is_in_progress, Checklist, TaskStatus, ChecklistTask, checklist_started, OnboardingStore,
}
use ai_hr_sytem.Onboarding.Completion.{on_employees, complete}

-- `templates.findById`
unfoldable pub find_template : ℕ → Action OnboardingStore ChecklistTemplate
find_template id = do
  or_throw
      (← gets (λ (s : OnboardingStore). find (λ (t : ChecklistTemplate). t.id == id) s.templates))
      (not_found "Checklist template not found")

abbrev pub is_for : ChecklistType → Option ℕ → ChecklistTemplate → Bool
is_for type department t =
    type_eq t.type type
    && t.is_active
    && elim department [ none ↦ not (is_some t.department_id) | some d ↦ opt_eq t.department_id d ]

-- `templates.resolveFor`: the department's template, then the company-wide one.
unfoldable pub resolve_for : List ChecklistTemplate → ChecklistType → ℕ → Option ChecklistTemplate
resolve_for ts type department = elim (find (is_for type (some department)) ts) [
  | none ↦ find (is_for type none) ts
  | some t ↦ some t
]

-- `resolveAssignee`; the manager is loaded with the employee.
unfoldable pub resolve_assignee : List Employee → AssigneeRule → Employee → Option ℕ
resolve_assignee es AssigneeRule.employee e = e.user_id
resolve_assignee es AssigneeRule.manager e = elim e.manager_id [
  | none ↦ none
  | some m ↦ elim (find_employee m es) [ none ↦ none | some boss ↦ boss.user_id ]
]
resolve_assignee es _ e = none

-- `addDays(anchorDate, item.dueOffsetDays)`
unfoldable pub due_on : IsoDate → ℤ → IsoDate
due_on d (pos n) = add_days d n
due_on d (negsuc n) = sub_days d (suc n)

abbrev pub new_task :
    List Employee → Employee → IsoDate → ℕ → ℕ → ChecklistTemplateItem → ChecklistTask
new_task es e anchor checklist id item = record {
  id = id;
  checklist_id = checklist;
  template_item_id = some item.id;
  title = item.title;
  description = item.description;
  assignee_rule = item.assignee_rule;
  assignee_user_id = resolve_assignee es item.assignee_rule e;
  assignee_role_name = item.assignee_role_name;
  due_date = due_on anchor item.due_offset_days;
  status = TaskStatus.pending;
  is_required = item.is_required;
  sort_order = item.sort_order;
  notes = none;
  document_id = none;
  completed_at = none;
  completed_by_user_id = none;
  last_reminded_at = none;
}

-- The tasks of a checklist, numbered as they are stored.
unfoldable pub new_tasks :
    List Employee → Employee → IsoDate → ℕ → ℕ → List ChecklistTemplateItem → List ChecklistTask
new_tasks es e anchor checklist id [] = []
new_tasks es e anchor checklist id (item ∷ items) =
    new_task es e anchor checklist id item ∷ new_tasks es e anchor checklist (suc id) items

pub record StartOptions : Type 0 where
  pub template_id : Option ℕ
  pub anchor_date : Option IsoDate
  pub actor_user_id : Option ℕ

-- `anchorDate`
unfoldable pub anchor_of : IsoDate → ChecklistType → Option IsoDate → Employee → IsoDate
anchor_of today type (some d) e = d
anchor_of today ChecklistType.onboarding none e = e.hire_date
anchor_of today ChecklistType.offboarding none e = or_else e.termination_date today

abbrev pub new_checklist : ℕ → ℕ → ChecklistType → ℕ → IsoDate → Option ℕ → Checklist
new_checklist id employee type template anchor actor = record {
  id = id;
  employee_id = employee;
  template_id = some template;
  type = type;
  status = ChecklistStatus.in_progress;
  anchor_date = anchor;
  completed_at = none;
  created_by_user_id = actor;
}

abbrev pub is_running : ℕ → ChecklistType → Checklist → Bool
is_running employee type c =
    (c.employee_id == employee) && type_eq c.type type && is_in_progress c.status

-- What `start` stores.
abbrev pub add_checklist : Checklist → List ChecklistTask → OnboardingStore → OnboardingStore
add_checklist c ts s = record s {
  checklists = s.checklists ++ c ∷ [];
  next_checklist_id = s.next_checklist_id + 1;
  tasks = s.tasks ++ ts;
  next_task_id = s.next_task_id + length ts;
}

abbrev pub announce : Checklist → OnboardingStore → OnboardingStore
announce c s = record s { events = s.events ++ checklist_started c.id c.employee_id c.type ∷ [] }

-- From the template on.
unfoldable pub start_with :
    ℕ
    → IsoDate
    → ℕ
    → Employee
    → ChecklistType
    → StartOptions
    → ChecklistTemplate
    → Action OnboardingStore (Option ℕ)
start_with now today employee e type opts t s =
    let id = s.next_checklist_id in
    let anchor = anchor_of today type opts.anchor_date e in
    let c = new_checklist id employee type t.id anchor opts.actor_user_id in
    let ts = new_tasks s.company.employees e anchor id s.next_task_id t.items in
    (modify (add_checklist c ts)
        >> ((if length ts == 0 then complete now today c else pure tt)
            >> (modify (announce c) >> pure (some id))))
      s

unfoldable pub start_from :
    ℕ
    → IsoDate
    → ℕ
    → Employee
    → ChecklistType
    → StartOptions
    → Option ChecklistTemplate
    → Action OnboardingStore (Option ℕ)
start_from now today employee e type opts none = pure none
start_from now today employee e type opts (some t) =
    throw_if (not (type_eq t.type type)) (bad_request "Template is for the other type")
    >> start_with now today employee e type opts t

-- The template that is asked for, or the one that fits best.
unfoldable pub choose_template :
    Option ℕ → ChecklistType → Employee → Action OnboardingStore (Option ChecklistTemplate)
choose_template none type e =
    gets (λ (s : OnboardingStore). resolve_for s.templates type e.department_id)
choose_template (some id) type e = find_template id >>= λ t. pure (some t)

-- `start`; it answers with the new checklist, or with none where no template is configured.
unfoldable pub start :
    ℕ → IsoDate → ℕ → ChecklistType → StartOptions → Action OnboardingStore (Option ℕ)
start now today employee type opts = on_employees (find_by_id employee) >>= λ e.
    gets (λ (s : OnboardingStore). any (is_running employee type) s.checklists) >>= λ existing.
    throw_if existing (conflict "Employee already has an in-progress checklist")
    >> (choose_template opts.template_id type e >>= λ t.
        start_from now today employee e type opts t)

-- Somebody who is recorded as active already gets no checklist.
unfoldable pub start_for : ℕ → IsoDate → StartOptions → ℕ → Action OnboardingStore (Option ℕ)
start_for now today opts employee = on_employees (find_by_id employee) >>= λ e.
    if status_eq e.status EmployeeStatus.onboarding
    then start now today employee ChecklistType.onboarding opts
    else pure none

-- `onCreated` of the listener, which logs what is thrown.
unfoldable pub on_created : ℕ → IsoDate → ℕ → IsoDate → ℕ → OnboardingStore → OnboardingStore
on_created now today employee hire_date actor s =
    let opts : StartOptions = record {
      template_id = none;
      anchor_date = some hire_date;
      actor_user_id = some actor;
    } in
    (start_for now today opts employee s).1

-- `onTerminated` of the listener.
unfoldable pub on_terminated : ℕ → IsoDate → ℕ → IsoDate → ℕ → OnboardingStore → OnboardingStore
on_terminated now today employee termination_date actor s =
    (start now today employee ChecklistType.offboarding
      (record {
        template_id = none;
        anchor_date = some termination_date;
        actor_user_id = some actor;
      })
      s).1
