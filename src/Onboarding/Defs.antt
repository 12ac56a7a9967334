-- ===== src/Onboarding/Defs.antt =====
-- src/modules/onboarding/entities: templates and the checklists that are made from them. Ids and the
-- names of roles are only compared, so they are numbers.
use ai_hr_sytem.Base.{ℕ, Bool, true, false, String, Option, List}
use ai_hr_sytem.Base.Int.{ℤ}
use ai_hr_sytem.Calendar.{IsoDate}
use ai_hr_sytem.Employees.{Company}

pub data ChecklistType : Type 0 where
  onboarding offboarding : ChecklistType

abbrev pub type_eq : ChecklistType → ChecklistType → Bool
type_eq ChecklistType.onboarding ChecklistType.onboarding = true
type_eq ChecklistType.offboarding ChecklistType.offboarding = true
type_eq _ _ = false

pub data AssigneeRule : Type 0 where
  employee manager hr role : AssigneeRule

pub record ChecklistTemplateItem : Type 0 where
  pub id : ℕ
  pub title : String
  pub description : Option String
  pub assignee_rule : AssigneeRule
  pub assignee_role_name : Option ℕ
  pub due_offset_days : ℤ  -- relative to the anchor date
  pub sort_order : ℕ
  pub is_required : Bool

pub record ChecklistTemplate : Type 0 where
  pub id : ℕ
  pub name : String
  pub type : ChecklistType
  pub description : Option String
  pub department_id : Option ℕ
  pub is_active : Bool
  pub items : List ChecklistTemplateItem

pub data ChecklistStatus : Type 0 where
  in_progress completed cancelled : ChecklistStatus

abbrev pub is_in_progress : ChecklistStatus → Bool
is_in_progress ChecklistStatus.in_progress = true
is_in_progress _ = false

pub record Checklist : Type 0 where
  pub id : ℕ
  pub employee_id : ℕ
  pub template_id : Option ℕ
  pub type : ChecklistType
  pub status : ChecklistStatus
  pub anchor_date : IsoDate
  pub completed_at : Option ℕ
  pub created_by_user_id : Option ℕ

pub data TaskStatus : Type 0 where
  pending in_progress done skipped : TaskStatus

abbrev pub task_status_eq : TaskStatus → TaskStatus → Bool
task_status_eq TaskStatus.pending TaskStatus.pending = true
task_status_eq TaskStatus.in_progress TaskStatus.in_progress = true
task_status_eq TaskStatus.done TaskStatus.done = true
task_status_eq TaskStatus.skipped TaskStatus.skipped = true
task_status_eq _ _ = false

-- OPEN_TASK_STATUSES
abbrev pub is_open_status : TaskStatus → Bool
is_open_status TaskStatus.pending = true
is_open_status TaskStatus.in_progress = true
is_open_status _ = false

pub record ChecklistTask : Type 0 where
  pub id : ℕ
  pub checklist_id : ℕ
  pub template_item_id : Option ℕ
  pub title : String
  pub description : Option String
  pub assignee_rule : AssigneeRule
  pub assignee_user_id : Option ℕ
  pub assignee_role_name : Option ℕ
  pub due_date : IsoDate
  pub status : TaskStatus
  pub is_required : Bool
  pub sort_order : ℕ
  pub notes : Option String
  pub document_id : Option ℕ
  pub completed_at : Option ℕ
  pub completed_by_user_id : Option ℕ
  pub last_reminded_at : Option ℕ

pub data OnboardingEvent : Type 0 where
  checklist_started : ℕ → ℕ → ChecklistType → OnboardingEvent
  checklist_completed : ℕ → ℕ → ChecklistType → OnboardingEvent

-- One digest: the login, the tasks in it and how many of them are overdue.
pub record TasksDue : Type 0 where
  pub user_id : ℕ
  pub tasks : List ℕ
  pub overdue : ℕ

pub record OnboardingStore : Type 0 where
  pub company : Company
  pub templates : List ChecklistTemplate
  pub checklists : List Checklist
  pub next_checklist_id : ℕ
  pub tasks : List ChecklistTask
  pub next_task_id : ℕ
  pub events : List OnboardingEvent
  pub digests : List TasksDue

-- The caller: the login, its roles and the two permissions that the service asks about.
pub record AuthUser : Type 0 where
  pub id : ℕ
  pub roles : List ℕ
  pub can_manage : Bool  -- ONBOARDING_MANAGE
  pub can_read : Bool  -- ONBOARDING_READ
