-- ===== src/Performance/Defs.antt =====
-- src/modules/performance/entities: the rows of the performance tables. Ids and the names of
-- competencies are only compared, so they are numbers; ratings are the integers 1 to 10 that the
-- DTOs let in.
use ai_hr_sytem.Base.{ℕ, Bool, true, false, String, Option, List}
use ai_hr_sytem.Calendar.{IsoDate}
use ai_hr_sytem.Employees.{Employee, User}
use ai_hr_sytem.Departments.{Department}

pub data CyclePhase : Type 0 where
  draft self_review manager_review calibration closed : CyclePhase

abbrev pub phase_eq : CyclePhase → CyclePhase → Bool
phase_eq CyclePhase.draft CyclePhase.draft = true
phase_eq CyclePhase.self_review CyclePhase.self_review = true
phase_eq CyclePhase.manager_review CyclePhase.manager_review = true
phase_eq CyclePhase.calibration CyclePhase.calibration = true
phase_eq CyclePhase.closed CyclePhase.closed = true
phase_eq _ _ = false

pub record RatingLevel : Type 0 where
  pub value : ℕ
  pub label : String

pub record ReviewCycle : Type 0 where
  pub id : ℕ
  pub name : String
  pub description : Option String
  pub period_start : IsoDate
  pub period_end : IsoDate
  pub phase : CyclePhase
  pub self_review_deadline : IsoDate
  pub manager_review_deadline : IsoDate
  pub department_id : Option ℕ
  pub rating_scale : List RatingLevel
  pub competencies : List ℕ
  pub launched_at : Option ℕ
  pub closed_at : Option ℕ
  pub created_by_user_id : Option ℕ

pub data ReviewStatus : Type 0 where
  pending_self pending_manager pending_calibration completed acknowledged : ReviewStatus

abbrev pub review_status_eq : ReviewStatus → ReviewStatus → Bool
review_status_eq ReviewStatus.pending_self ReviewStatus.pending_self = true
review_status_eq ReviewStatus.pending_manager ReviewStatus.pending_manager = true
review_status_eq ReviewStatus.pending_calibration ReviewStatus.pending_calibration = true
review_status_eq ReviewStatus.completed ReviewStatus.completed = true
review_status_eq ReviewStatus.acknowledged ReviewStatus.acknowledged = true
review_status_eq _ _ = false

-- A score as the body of the request holds it.
pub data Score : Type 0 where
  level : ℕ → Score
  other_number : Score  -- a number that is not a natural number
  not_number : Score

pub record Assessment : Type 0 where
  pub summary : String
  pub achievements : Option String
  pub challenges : Option String
  pub competencies : List (ℕ × Score)

pub record Review : Type 0 where
  pub id : ℕ
  pub cycle_id : ℕ
  pub employee_id : ℕ
  pub reviewer_user_id : Option ℕ
  pub status : ReviewStatus
  pub self_assessment : Option Assessment
  pub self_rating : Option ℕ
  pub self_submitted_at : Option ℕ
  pub manager_assessment : Option Assessment
  pub manager_rating : Option ℕ
  pub manager_submitted_at : Option ℕ
  pub final_rating : Option ℕ
  pub calibrated : Bool
  pub calibration_note : Option String
  pub acknowledged_at : Option ℕ
  pub employee_comment : Option String

pub data FeedbackStatus : Type 0 where
  requested submitted declined : FeedbackStatus

pub record FeedbackAnswers : Type 0 where
  pub strengths : String
  pub improvements : String
  pub rating : Option ℕ

pub record ReviewFeedback : Type 0 where
  pub id : ℕ
  pub review_id : ℕ
  pub giver_user_id : ℕ
  pub requested_by_user_id : Option ℕ
  pub status : FeedbackStatus
  pub answers : Option FeedbackAnswers
  pub submitted_at : Option ℕ

pub data GoalStatus : Type 0 where
  draft active completed cancelled : GoalStatus

abbrev pub goal_status_eq : GoalStatus → GoalStatus → Bool
goal_status_eq GoalStatus.draft GoalStatus.draft = true
goal_status_eq GoalStatus.active GoalStatus.active = true
goal_status_eq GoalStatus.completed GoalStatus.completed = true
goal_status_eq GoalStatus.cancelled GoalStatus.cancelled = true
goal_status_eq _ _ = false

pub record Goal : Type 0 where
  pub id : ℕ
  pub employee_id : ℕ
  pub cycle_id : Option ℕ
  pub title : String
  pub description : Option String
  pub weight : ℕ
  pub status : GoalStatus
  pub progress : ℕ
  pub due_date : Option IsoDate
  pub approved_by_user_id : Option ℕ
  pub approved_at : Option ℕ
  pub created_by_user_id : Option ℕ

-- The messages that are queued: the template, the receiver's login and what is told.
pub data Notice : Type 0 where
  review_cycle_launched : ℕ → ℕ → IsoDate → Notice  -- login, cycle, deadline
  review_completed : ℕ → ℕ → Option String → Notice  -- login, review, label of the rating
  feedback_requested : ℕ → ℕ → Notice  -- login, feedback
  self_review_due : ℕ → ℕ → IsoDate → Notice  -- login, review, deadline
  team_reviews_due : ℕ → ℕ → ℕ → Notice  -- login, cycle, how many

pub record PerformanceStore : Type 0 where
  pub employees : List Employee
  pub departments : List Department
  pub users : List User
  pub cycles : List ReviewCycle
  pub next_cycle_id : ℕ
  pub reviews : List Review
  pub next_review_id : ℕ
  pub feedback : List ReviewFeedback
  pub next_feedback_id : ℕ
  pub goals : List Goal
  pub next_goal_id : ℕ
  pub notices : List Notice

-- The caller, with the two permissions that the services ask about.
pub record AuthUser : Type 0 where
  pub id : ℕ
  pub can_manage_cycles : Bool  -- REVIEW_MANAGE_CYCLES
  pub can_write_team : Bool  -- REVIEW_WRITE_TEAM
