-- ===== src/Performance/Goals.antt =====
-- src/modules/performance/goals.service.ts: goals, who may change them, and their weights.
pub mod Weights
pub mod Steps
use ai_hr_sytem.Base.{
  ℕ, ◌+◌, Bool, true, false, not, ◌&&◌, ◌||◌, Option, none, some, List, [], ◌∷◌, ◌++◌, String, ltb,
  ◌==◌, if◌then◌else◌, opt_eq, or_else, is_some, find, select, update_where, sum_of, Action,
  bad_request, not_found, forbidden, pure, gets, or_throw, ◌>>=◌, ◌>>◌, throw_if, modify,
}
use ai_hr_sytem.Calendar.{IsoDate}
use ai_hr_sytem.Employees.{Employee, find_by_user_id, is_in_reporting_chain}
use ai_hr_sytem.Performance.Defs.{Goal, GoalStatus, goal_status_eq, PerformanceStore, AuthUser}

pub record CreateGoal : Type 0 where
  pub employee_id : Option ℕ
  pub cycle_id : Option ℕ
  pub title : String
  pub description : Option String
  pub weight : Option ℕ
  pub due_date : Option IsoDate

-- A field that is absent is none; one that may be null is none or some of an option.
pub record UpdateGoal : Type 0 where
  pub title : Option String
  pub description : Option (Option String)
  pub weight : Option ℕ
  pub progress : Option ℕ
  pub due_date : Option (Option IsoDate)
  pub status : Option GoalStatus  -- COMPLETED or CANCELLED

pub data GoalRole : Type 0 where
  hr manager owner outsider : GoalRole

-- `roleFor`
unfoldable pub goal_role : List Employee → ℕ → AuthUser → GoalRole
goal_role es employee actor =
    if actor.can_manage_cycles then GoalRole.hr else elim (find_by_user_id actor.id es) [
      | none ↦ GoalRole.outsider
      | some me ↦
          if me.id == employee
          then GoalRole.owner
          else if actor.can_write_team && is_in_reporting_chain es me.id employee
          then GoalRole.manager
          else GoalRole.outsider
    ]

abbrev pub is_outsider : GoalRole → Bool
is_outsider GoalRole.outsider = true
is_outsider _ = false

abbrev pub is_owner : GoalRole → Bool
is_owner GoalRole.owner = true
is_owner _ = false

-- `approved`: HR or the manager acts.
abbrev pub is_approver : GoalRole → Bool
is_approver GoalRole.hr = true
is_approver GoalRole.manager = true
is_approver _ = false

abbrev pub is_draft : Goal → Bool
is_draft g = goal_status_eq g.status GoalStatus.draft

-- The rows whose weights count.
abbrev pub weighs_for : ℕ → Goal → Bool
weighs_for employee g =
    (g.employee_id == employee) && (is_draft g || goal_status_eq g.status GoalStatus.active)

abbrev pub is_other : Option ℕ → Goal → Bool
is_other except g = not (opt_eq except g.id)

-- The weights that `assertWeight` adds up.
unfoldable pub weight_of_others : ℕ → Option ℕ → List Goal → ℕ
weight_of_others employee except gs =
    sum_of Goal.weight (select (is_other except) (select (weighs_for employee) gs))

-- `assertWeight`
unfoldable pub assert_weight : ℕ → ℕ → Option ℕ → Action PerformanceStore (Unit {0})
assert_weight employee weight except = do
  others ← gets (λ (s : PerformanceStore). weight_of_others employee except s.goals)
  throw_if (ltb 100 (others + weight)) (bad_request "Goal weights would total more than 100%")

abbrev pub goal_at : ℕ → List Goal → Option Goal
goal_at id = find (λ (g : Goal). g.id == id)

-- `findById`
unfoldable pub find_goal : ℕ → Action PerformanceStore Goal
find_goal id = do
  or_throw (← gets (λ (s : PerformanceStore). goal_at id s.goals)) (not_found "Goal not found")

abbrev pub new_goal : ℕ → ℕ → ℕ → CreateGoal → Bool → ℕ → Goal
new_goal now id employee dto approved actor = record {
  id = id;
  employee_id = employee;
  cycle_id = dto.cycle_id;
  title = dto.title;
  description = dto.description;
  weight = or_else dto.weight 0;
  status = if approved then GoalStatus.active else GoalStatus.draft;
  progress = 0;
  due_date = dto.due_date;
  approved_by_user_id = if approved then some actor else none;
  approved_at = if approved then some now else none;
  created_by_user_id = some actor;
}

abbrev pub add_goal : ℕ → ℕ → CreateGoal → Bool → ℕ → PerformanceStore → PerformanceStore
add_goal now employee dto approved actor s = record s {
  goals = s.goals ++ new_goal now s.next_goal_id employee dto approved actor ∷ [];
  next_goal_id = s.next_goal_id + 1;
}

-- `dto.employeeId ?? me?.id`
unfoldable pub goal_employee : CreateGoal → AuthUser → List Employee → Option ℕ
goal_employee dto actor es = elim dto.employee_id [
  | some id ↦ some id
  | none ↦ elim (find_by_user_id actor.id es) [ none ↦ none | some me ↦ some me.id ]
]

-- `create`
unfoldable pub create_goal : ℕ → CreateGoal → AuthUser → Action PerformanceStore (Unit {0})
create_goal now dto actor = do
  es ← gets (λ (s : PerformanceStore). s.employees)
  employee ←
      or_throw (goal_employee dto actor es)
        (not_found "No employee profile is linked to your login")
  let role = goal_role es employee actor
  throw_if (is_outsider role) (forbidden "You can only set goals for yourself or your reports")
  assert_weight employee (or_else dto.weight 0) none
  modify (add_goal now employee dto (is_approver role) actor.id)

-- An empty text counts as absent.
abbrev pub is_empty : String → Bool
is_empty String.[] = true
is_empty _ = false

-- A change of what the goal is, which its owner may make to a draft only.
abbrev pub rescopes : UpdateGoal → Bool
rescopes dto =
    elim dto.title [ none ↦ false | some t ↦ not (is_empty t) ]
    || is_some dto.description
    || is_some dto.weight
    || is_some dto.due_date

abbrev pub edited_goal : UpdateGoal → Goal → Goal
edited_goal dto g = record g {
  title = or_else dto.title g.title;
  description = or_else dto.description g.description;
  weight = or_else dto.weight g.weight;
  progress = or_else dto.progress g.progress;
  due_date = or_else dto.due_date g.due_date;
}

-- The weight of an update, where it has one.
unfoldable pub check_new_weight : Goal → Option ℕ → Action PerformanceStore (Unit {0})
check_new_weight g none = pure tt
check_new_weight g (some w) = assert_weight g.employee_id w (some g.id)

-- The last step of `update`: the status that is asked for.
unfoldable pub with_status : GoalRole → Option GoalStatus → Goal → Action PerformanceStore Goal
with_status role (some GoalStatus.completed) g =
    pure (record g { status = GoalStatus.completed; progress = 100 })
with_status role (some GoalStatus.cancelled) g =
    throw_if (is_owner role && not (is_draft g))
      (forbidden "Ask your manager to cancel an approved goal")
    >> pure (record g { status = GoalStatus.cancelled })
with_status role _ g = pure g

abbrev pub save_goal : Goal → PerformanceStore → PerformanceStore
save_goal g s = record s { goals = update_where (λ (x : Goal). x.id == g.id) (λ _. g) s.goals }

-- The checks of `update`, which end with the goal to save.
unfoldable pub check_goal_update : UpdateGoal → GoalRole → Goal → Action PerformanceStore Goal
check_goal_update dto role g = do
  throw_if (is_outsider role) (forbidden "Forbidden")
  throw_if (goal_status_eq g.status GoalStatus.cancelled) (bad_request "Goal is cancelled")
  throw_if (is_owner role && not (is_draft g) && rescopes dto)
      (bad_request "Approved goals can only be re-scoped by your manager")
  check_new_weight g dto.weight
  with_status role dto.status (edited_goal dto g)

-- `update`
unfoldable pub update_goal : ℕ → UpdateGoal → AuthUser → Action PerformanceStore (Unit {0})
update_goal id dto actor = find_goal id >>= λ g.
    gets (λ (s : PerformanceStore). goal_role s.employees g.employee_id actor) >>= λ role.
    check_goal_update dto role g >>= λ new. modify (save_goal new)

abbrev pub approved_goal : ℕ → ℕ → Goal → Goal
approved_goal now actor g = record g {
  status = GoalStatus.active;
  approved_by_user_id = some actor;
  approved_at = some now;
}

unfoldable pub check_approve : GoalRole → Goal → Action PerformanceStore (Unit {0})
check_approve role g = do
  throw_if (not (is_approver role)) (forbidden "Only the manager or HR can approve goals")
  throw_if (not (is_draft g)) (bad_request "Goal is not awaiting approval")

-- `approve`
unfoldable pub approve_goal : ℕ → ℕ → AuthUser → Action PerformanceStore (Unit {0})
approve_goal now id actor = find_goal id >>= λ g.
    gets (λ (s : PerformanceStore). goal_role s.employees g.employee_id actor) >>= λ role.
    check_approve role g >> modify (save_goal (approved_goal now actor.id g))

abbrev pub without_goal : ℕ → PerformanceStore → PerformanceStore
without_goal id s = record s { goals = select (λ (g : Goal). not (g.id == id)) s.goals }

unfoldable pub check_remove : GoalRole → Goal → Action PerformanceStore (Unit {0})
check_remove role g = do
  throw_if (is_outsider role) (forbidden "Forbidden")
  throw_if (is_owner role && not (is_draft g))
      (forbidden "Only draft goals can be deleted by their owner")

-- `remove`
unfoldable pub remove_goal : ℕ → AuthUser → Action PerformanceStore (Unit {0})
remove_goal id actor = find_goal id >>= λ g.
    gets (λ (s : PerformanceStore). goal_role s.employees g.employee_id actor) >>= λ role.
    check_remove role g >> modify (without_goal id)
