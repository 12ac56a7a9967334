-- ===== src/Leave/Defs.antt =====
-- src/modules/leave: the rows of the leave tables. Every quantity of days is a multiple of half a
-- day (the DTOs require it, and `round1` keeps it), so days are counted in half days.
use ai_hr_sytem.Base.{ℕ, Bool, String, Option, none, some, List, ltb, if◌then◌else◌}
use ai_hr_sytem.Base.Int.{ℤ, ◌+ℤ◌, ◌-ℤ◌}
use ai_hr_sytem.Calendar.{IsoDate}
use ai_hr_sytem.Employees.{Company}

pub data HalfDay : Type 0 where
  none_half am pm : HalfDay

pub data LeaveRequestStatus : Type 0 where
  pending approved rejected cancelled : LeaveRequestStatus

pub record LeaveType : Type 0 where
  pub id : ℕ
  pub default_days : ℕ  -- half days
  pub requires_balance : Bool
  pub carry_over_max_days : ℕ  -- half days
  pub carry_over_expires_on : Option ℕ  -- "MM-DD" as MMDD
  pub allow_half_day : Bool
  pub is_active : Bool

-- One row for each employee, leave type and calendar year; amounts in half days.
pub record LeaveBalance : Type 0 where
  pub employee_id : ℕ
  pub leave_type_id : ℕ
  pub year : ℕ
  pub entitled : ℤ
  pub carried_over : ℤ
  pub carry_over_expires_on : Option IsoDate
  pub adjustment : ℤ
  pub used : ℤ
  pub pending : ℤ

-- `effectiveCarryOver(asOf)`
unfoldable pub effective_carry_over : LeaveBalance → IsoDate → ℤ
effective_carry_over b as_of = elim b.carry_over_expires_on [
  | none ↦ b.carried_over
  | some last ↦ if ltb last as_of then ℤ.pos 0 else b.carried_over
]

-- `available(asOf)`
unfoldable pub available : LeaveBalance → IsoDate → ℤ
available b as_of =
    b.entitled +ℤ effective_carry_over b as_of +ℤ b.adjustment -ℤ b.used -ℤ b.pending

-- Half days charged to one calendar year.
pub record Allocation : Type 0 where
  pub year : ℕ
  pub days : ℕ

pub record LeaveRequest : Type 0 where
  pub id : ℕ
  pub employee_id : ℕ
  pub leave_type_id : ℕ
  pub start_date : IsoDate
  pub end_date : IsoDate
  pub half_day : HalfDay
  pub days : ℕ
  pub year : ℕ
  pub allocations : List Allocation  -- null reads as the empty list
  pub reason : Option String
  pub status : LeaveRequestStatus
  pub approver_user_id : Option ℕ
  pub decided_by_user_id : Option ℕ
  pub decision_note : Option String
  pub attachment_document_id : Option ℕ
  pub status_applied : Bool

pub record BalanceAdjustment : Type 0 where
  pub employee_id : ℕ
  pub leave_type_id : ℕ
  pub year : ℕ
  pub delta : ℤ
  pub by_user_id : ℕ

-- The mails and messages that are queued, by template and receiver.
pub data Notice : Type 0 where
  leave_requested : ℕ → ℕ → Notice
  leave_decided : ℕ → ℕ → Bool → Notice
  leave_cancelled : ℕ → ℕ → Notice

-- The tables of the module, those of the employees it reads and changes, and the queue.
pub record LeaveStore : Type 0 where
  pub company : Company
  pub types : List LeaveType
  pub holidays : List IsoDate
  pub balances : List LeaveBalance
  pub adjustments : List BalanceAdjustment
  pub requests : List LeaveRequest
  pub next_request_id : ℕ
  pub notices : List Notice

-- The caller, with the one permission that the service asks about and the one for teams.
pub record AuthUser : Type 0 where
  pub id : ℕ
  pub can_read_all : Bool  -- LEAVE_READ_ALL
  pub can_read_team : Bool  -- LEAVE_READ_TEAM

pub record CreateLeaveRequest : Type 0 where
  pub leave_type_id : ℕ
  pub start_date : IsoDate
  pub end_date : IsoDate
  pub half_day : Option HalfDay
  pub reason : Option String
  pub attachment_document_id : Option ℕ
