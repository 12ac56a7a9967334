-- ===== src/Employees/Defs.antt =====
-- src/modules/employees: the rows that the employees service reads and writes. Ids are only
-- compared, so they are numbers.
use ai_hr_sytem.Base.{ℕ, Bool, true, false, String, Option, List}
use ai_hr_sytem.Calendar.{IsoDate}

pub data EmployeeStatus : Type 0 where
  onboarding active on_leave terminated : EmployeeStatus

abbrev pub status_eq : EmployeeStatus → EmployeeStatus → Bool
status_eq EmployeeStatus.onboarding EmployeeStatus.onboarding = true
status_eq EmployeeStatus.active EmployeeStatus.active = true
status_eq EmployeeStatus.on_leave EmployeeStatus.on_leave = true
status_eq EmployeeStatus.terminated EmployeeStatus.terminated = true
status_eq _ _ = false

pub record Employee : Type 0 where
  pub id : ℕ
  pub user_id : Option ℕ
  pub hire_date : IsoDate
  pub termination_date : Option IsoDate
  pub status : EmployeeStatus
  pub department_id : ℕ
  pub position_id : Option ℕ
  pub manager_id : Option ℕ
  pub is_deleted : Bool  -- deletedAt is set

pub data EmploymentChangeType : Type 0 where
  hire promotion transfer manager_change status_change termination : EmploymentChangeType

-- A row of the career log; a null column says that this dimension did not change.
pub record EmploymentHistory : Type 0 where
  pub employee_id : ℕ
  pub change_type : EmploymentChangeType
  pub effective_date : IsoDate
  pub from_department_id : Option ℕ
  pub to_department_id : Option ℕ
  pub from_position_id : Option ℕ
  pub to_position_id : Option ℕ
  pub from_manager_id : Option ℕ
  pub to_manager_id : Option ℕ
  pub from_status : Option EmployeeStatus
  pub to_status : Option EmployeeStatus
  pub notes : Option String
  pub changed_by_user_id : Option ℕ

pub record Department : Type 0 where
  pub id : ℕ
  pub head_employee_id : Option ℕ

pub record Position : Type 0 where
  pub id : ℕ
  pub department_id : Option ℕ
  pub is_active : Bool

pub data UserStatus : Type 0 where
  invited user_active suspended : UserStatus

pub record User : Type 0 where
  pub id : ℕ
  pub status : UserStatus

-- What the event bus is told.
pub data EmployeeEvent : Type 0 where
  assignment_changed : ℕ → EmploymentChangeType → IsoDate → ℕ → EmployeeEvent
  status_changed : ℕ → EmployeeStatus → EmployeeStatus → IsoDate → Option ℕ → EmployeeEvent
  employee_terminated : ℕ → Option ℕ → IsoDate → ℕ → EmployeeEvent

-- The tables that the service touches, the events that it emits, and the logins whose sessions
-- it ended.
pub record Company : Type 0 where
  pub employees : List Employee
  pub history : List EmploymentHistory
  pub departments : List Department
  pub positions : List Position
  pub users : List User
  pub events : List EmployeeEvent
  pub logged_out : List ℕ

pub record AssignmentChange : Type 0 where
  pub change_type : EmploymentChangeType
  pub effective_date : IsoDate
  pub department_id : Option ℕ
  pub position_id : Option (Option ℕ)  -- absent, null or an id
  pub manager_id : Option (Option ℕ)
  pub notes : Option String

pub record ChangeStatus : Type 0 where
  pub status : EmployeeStatus
  pub effective_date : IsoDate
  pub notes : Option String

pub record TerminateEmployee : Type 0 where
  pub termination_date : IsoDate
  pub reason : Option String
  pub suspend_login : Option Bool
