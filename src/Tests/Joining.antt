-- ===== src/Tests/Joining.antt =====
-- A new colleague, whose checklist is started, worked through and completed.
use ai_hr_sytem.Base.{
  length, select, ok, ◌≡◌, refl, arith, true, false, none, some, List, [], ◌∷◌, map,
}
use ai_hr_sytem.Base.Int.{pos, negsuc}
use ai_hr_sytem.Base.Groups.{put}
use ai_hr_sytem.Calendar.{sub_days, prev_day, days_in_month, is_leap, add_days, next_day}
use ai_hr_sytem.Employees.{
  Employee, EmployeeStatus, find_by_id, change_status, may_change, commit_status,
}
use ai_hr_sytem.Onboarding.Defs.{
  ChecklistType, AssigneeRule, ChecklistTemplateItem, ChecklistTemplate, Checklist, ChecklistStatus,
  TaskStatus, OnboardingStore, AuthUser,
}
use ai_hr_sytem.Onboarding.Completion.{
  complete_if_finished, finish, complete, after_completion, activate,
}
use ai_hr_sytem.Onboarding.Start.{
  start, start_from, start_with, start_for, on_created, choose_template, resolve_for,
  resolve_assignee, new_tasks, due_on, anchor_of,
}
use ai_hr_sytem.Onboarding.Tasks.{update_task, load_task, check_task, can_act_on}
use ai_hr_sytem.Onboarding.Progress.{tasks_of, progress_of}
use ai_hr_sytem.Onboarding.Progress.Completes.{is_over, completed_now, complete_if_finished_follows}
use ai_hr_sytem.Onboarding.Completion.{checklist_at}
use ai_hr_sytem.Onboarding.Reminders.{
  send_reminders, send_digests, by_user, assigned, due_tasks, sort_tasks, insert_task,
}
use ai_hr_sytem.Onboarding.Reminders.Once.{send_reminders_twice}
use ai_hr_sytem.Onboarding.Invariant.{IsOrderly}
use ai_hr_sytem.Onboarding.Runs.{
  OnboardingCall, joins, updates, reminds, serve, serve_all, serve_all-IsOrderly,
}
use ai_hr_sytem.Tests.Staff.{worker, office}

abbrev laptop : ChecklistTemplateItem
laptop = record {
  id = 1;
  title = "Hand over a laptop";
  description = none;
  assignee_rule = AssigneeRule.manager;
  assignee_role_name = none;
  due_offset_days = negsuc 2;
  sort_order = 1;
  is_required = true;
}

abbrev lunch : ChecklistTemplateItem
lunch = record laptop {
  id = 2;
  title = "Lunch with the team";
  assignee_rule = AssigneeRule.employee;
  due_offset_days = pos 4;
  sort_order = 2;
  is_required = false;
}

abbrev welcome : ChecklistTemplate
welcome = record {
  id = 1;
  name = "Welcome";
  type = ChecklistType.onboarding;
  description = none;
  department_id = none;
  is_active = true;
  items = laptop ∷ lunch ∷ [];
}

abbrev newcomer : Employee
newcomer = record (worker 3 (some 2)) { hire_date = 20260302; status = EmployeeStatus.onboarding }

abbrev before_day_one : OnboardingStore
before_day_one = record {
  company = record office { employees = worker 1 none ∷ worker 2 (some 1) ∷ newcomer ∷ [] };
  templates = welcome ∷ [];
  checklists = [];
  next_checklist_id = 1;
  tasks = [];
  next_task_id = 1;
  events = [];
  digests = [];
}

abbrev boss : AuthUser
boss = record { id = 20; roles = []; can_manage = false; can_read = false }

abbrev first_days : List OnboardingCall
first_days =
    joins 5 20260220 3 20260302 10
    ∷ reminds 20260227 6 7 1
    ∷ updates 8 20260227 1
        (record { status = some TaskStatus.done; notes = none; document_id = none }) boss
    ∷ []

abbrev settled_in : OnboardingStore
settled_in = serve_all first_days before_day_one

before_day_one-IsOrderly : IsOrderly before_day_one
before_day_one-IsOrderly = record {
  single = λ i j c d e. absurd (ground (arith, e));
  finished = λ i c e. absurd (ground (arith, e));
  numbered = λ i c e. absurd (ground (arith, e));
  owned = tt;
  stamped = tt;
}

-- The laptop is due three days before the first day, and its owner is reminded of it once.
digests_of_day : settled_in.digests ≡ record { user_id = 20; tasks = 1 ∷ []; overdue = 0 } ∷ []
unfolding serve_all serve on_created start_for find_by_id start start_from start_with
    choose_template resolve_for resolve_assignee new_tasks due_on anchor_of update_task load_task
    check_task can_act_on complete_if_finished finish complete after_completion activate
    change_status send_reminders send_digests by_user assigned due_tasks sort_tasks insert_task
    sub_days prev_day days_in_month is_leap add_days next_day put may_change commit_status
digests_of_day = refl

-- The only required task is done, so the checklist is completed and the newcomer is active.
completed_on_time : map Checklist.status settled_in.checklists ≡ ChecklistStatus.completed ∷ []
unfolding serve_all serve on_created start_for find_by_id start start_from start_with
    choose_template resolve_for resolve_assignee new_tasks due_on anchor_of update_task load_task
    check_task can_act_on complete_if_finished finish complete after_completion activate
    change_status send_reminders send_digests by_user assigned due_tasks sort_tasks insert_task
    sub_days prev_day days_in_month is_leap add_days next_day put may_change commit_status
completed_on_time = refl

serve_all-IsOrderly_example : IsOrderly settled_in
serve_all-IsOrderly_example = serve_all-IsOrderly first_days before_day_one before_day_one-IsOrderly

abbrev reminded_on_friday : OnboardingStore
reminded_on_friday =
    (send_reminders 20260227 6 7 1
      (serve_all (joins 5 20260220 3 20260302 10 ∷ []) before_day_one)).1

send_reminders_twice_example :
    send_reminders 20260227 6 9 1 reminded_on_friday ≡ (ok 0, reminded_on_friday)
send_reminders_twice_example =
    send_reminders_twice 20260227 6 7 1
      (serve_all (joins 5 20260220 3 20260302 10 ∷ []) before_day_one) 9 (omega arith)

-- The checklist on its first day, with the laptop still to be handed over.
abbrev first_day : OnboardingStore
first_day = serve_all (joins 5 20260220 3 20260302 10 ∷ []) before_day_one

abbrev first_checklist : Checklist
first_checklist = record {
  id = 1;
  employee_id = 3;
  template_id = some 1;
  type = ChecklistType.onboarding;
  status = ChecklistStatus.in_progress;
  anchor_date = 20260302;
  completed_at = none;
  created_by_user_id = some 10;
}

first_found : checklist_at 1 first_day.checklists ≡ some first_checklist
unfolding serve_all serve on_created start_for find_by_id start start_from start_with
    choose_template resolve_for resolve_assignee new_tasks due_on anchor_of
first_found = refl

complete_if_finished_follows_example :
    let own = tasks_of 1 first_day.tasks in
    let p = progress_of (λ n m. 50) 20260227 own in
    let u = (complete_if_finished 8 20260227 1 first_day).1 in
    (p.required_done ≡ length (select is_over own))
    × (p.required_done ≡ p.required
        → checklist_at 1 u.checklists ≡ some (completed_now 8 first_checklist))
    × (¬ (p.required_done ≡ p.required) → u ≡ first_day)
complete_if_finished_follows_example =
    complete_if_finished_follows (λ n m. 50) 8 20260227 1 first_checklist first_day first_found refl
