-- ===== src/Performance/Cycles/Phases.antt =====
-- src/modules/performance/cycles.service.ts, launch and advance: the phases of a cycle.
use ai_hr_sytem.Base.{
  ℕ, suc, ◌+◌, Bool, false, not, ◌&&◌, Option, none, some, List, [], ◌∷◌, ◌++◌, String, ◌==◌,
  if◌then◌else◌, find, select, update_where, length, Action, err, bad_request, server_error, pure,
  gets, ◌>>=◌, ◌>>◌, throw_if, modify,
}
use ai_hr_sytem.Employees.{Employee, find_employee}
use ai_hr_sytem.Performance.Defs.{
  CyclePhase, phase_eq, RatingLevel, ReviewCycle, Review, ReviewStatus, review_status_eq,
  PerformanceStore, Notice, review_cycle_launched, review_completed,
}
use ai_hr_sytem.Performance.Cycles.Scope.{department_subtree, in_cycle_scope}
use ai_hr_sytem.Performance.Cycles.{find_cycle, save_cycle}

-- `e.manager?.userId ?? null`
unfoldable pub reviewer_login : List Employee → Employee → Option ℕ
reviewer_login es e = elim e.manager_id [
  | none ↦ none
  | some m ↦ elim (find_employee m es) [ none ↦ none | some boss ↦ boss.user_id ]
]

abbrev pub new_review : ℕ → ℕ → ℕ → Option ℕ → Review
new_review id cycle employee reviewer = record {
  id = id;
  cycle_id = cycle;
  employee_id = employee;
  reviewer_user_id = reviewer;
  status = ReviewStatus.pending_self;
  self_assessment = none;
  self_rating = none;
  self_submitted_at = none;
  manager_assessment = none;
  manager_rating = none;
  manager_submitted_at = none;
  final_rating = none;
  calibrated = false;
  calibration_note = none;
  acknowledged_at = none;
  employee_comment = none;
}

-- One review for each employee, numbered as they are stored.
unfoldable pub new_reviews : List Employee → ℕ → ℕ → List Employee → List Review
new_reviews all id cycle [] = []
new_reviews all id cycle (e ∷ es) =
    new_review id cycle e.id (reviewer_login all e) ∷ new_reviews all (suc id) cycle es

unfoldable pub launch_notices : ReviewCycle → List Employee → List Notice
launch_notices c [] = []
launch_notices c (e ∷ es) =
    let rest = launch_notices c es in
    elim e.user_id [
      | none ↦ rest
      | some login ↦ review_cycle_launched login c.id c.self_review_deadline ∷ rest
    ]

abbrev pub launched : ℕ → ReviewCycle → ReviewCycle
launched now c = record c { phase = CyclePhase.self_review; launched_at = some now }

-- What a launch writes for the employees that it found.
abbrev pub commit_launch : ℕ → ReviewCycle → List Employee → PerformanceStore → PerformanceStore
commit_launch now c es s =
    let t = record s {
      reviews = s.reviews ++ new_reviews s.employees s.next_review_id c.id es;
      next_review_id = s.next_review_id + length es;
    } in
    record (save_cycle (launched now c) t) { notices = s.notices ++ launch_notices c es }

-- The scope: the whole company, or a department with what is below it. A query over departments
-- that form a ring does not come to an end; the database gives it up.
unfoldable pub cycle_scope : ReviewCycle → Action PerformanceStore (Option (List ℕ))
cycle_scope c s = elim c.department_id [
  | none ↦ pure none s
  | some d ↦ elim (department_subtree s.departments d) [
    | none ↦ (err (server_error "The recursive query was given up"), s)
    | some ids ↦ pure (some ids) s
  ]
]

-- `launch`; it answers with the number of reviews.
unfoldable pub launch_found : ℕ → ReviewCycle → Option (List ℕ) → Action PerformanceStore ℕ
launch_found now c scope = do
  es ← gets (λ (s : PerformanceStore). select (in_cycle_scope scope) s.employees)
  throw_if (length es == 0) (bad_request "No employees in scope")
  modify (commit_launch now c es)
  pure (length es)

unfoldable pub launch : ℕ → ℕ → Action PerformanceStore ℕ
launch now id = find_cycle id >>= λ c.
    throw_if (not (phase_eq c.phase CyclePhase.draft))
      (bad_request "Cycle has already been launched")
    >> (cycle_scope c >>= λ scope. launch_found now c scope)

-- PHASE_ORDER, one step on; the ends are declined_by before.
abbrev pub next_phase : CyclePhase → CyclePhase
next_phase CyclePhase.draft = CyclePhase.self_review
next_phase CyclePhase.self_review = CyclePhase.manager_review
next_phase CyclePhase.manager_review = CyclePhase.calibration
next_phase CyclePhase.calibration = CyclePhase.closed
next_phase CyclePhase.closed = CyclePhase.closed

abbrev pub has_status : ℕ → ReviewStatus → Review → Bool
has_status cycle status r = (r.cycle_id == cycle) && review_status_eq r.status status

-- `COALESCE(final_rating, manager_rating)`
abbrev pub coalesce : Option ℕ → Option ℕ → Option ℕ
coalesce none b = b
coalesce (some a) b = some a

abbrev pub finalised : Review → Review
finalised r = record r {
  final_rating = coalesce r.final_rating r.manager_rating;
  status = ReviewStatus.completed;
}

-- What entering a phase does to the reviews of the cycle.
unfoldable pub enter_phase : ℕ → CyclePhase → List Review → List Review
enter_phase id CyclePhase.manager_review =
    update_where (has_status id ReviewStatus.pending_self)
      (λ r. record r { status = ReviewStatus.pending_manager })
enter_phase id CyclePhase.calibration =
    update_where (has_status id ReviewStatus.pending_manager)
      (λ r. record r { status = ReviewStatus.pending_calibration })
enter_phase id CyclePhase.closed =
    update_where
      (λ r. (r.cycle_id == id) && not (review_status_eq r.status ReviewStatus.acknowledged))
      finalised
enter_phase id _ = λ rs. rs

-- The label of a rating on the scale.
unfoldable pub rating_label : List RatingLevel → ℕ → Option String
rating_label scale value = elim (find (λ (l : RatingLevel). l.value == value) scale) [
  | none ↦ none
  | some l ↦ some l.label
]

-- `notifyClosed`, for one review; its employee is there, by the foreign key.
unfoldable pub closed_notice : List Employee → ReviewCycle → Review → List Notice
closed_notice es c r = elim (find_employee r.employee_id es) [
  | none ↦ []
  | some e ↦ elim e.user_id [
    | none ↦ []
    | some login ↦ elim r.final_rating [
      | none ↦ []
      | some v ↦ review_completed login r.id (rating_label c.rating_scale v) ∷ []
    ]
  ]
]

-- `notifyClosed`
unfoldable pub notices_of_close : List Employee → ReviewCycle → List Review → List Notice
notices_of_close es c [] = []
notices_of_close es c (r ∷ rs) =
    let rest = notices_of_close es c rs in
    if r.cycle_id == c.id then closed_notice es c r ++ rest else rest

abbrev pub advanced : ℕ → ReviewCycle → ReviewCycle
advanced now c = record c {
  phase = next_phase c.phase;
  closed_at = if phase_eq (next_phase c.phase) CyclePhase.closed then some now else c.closed_at;
}

abbrev pub commit_advance : ℕ → ReviewCycle → PerformanceStore → PerformanceStore
commit_advance now c s =
    let rows = enter_phase c.id (next_phase c.phase) s.reviews in
    record (save_cycle (advanced now c) (record s { reviews = rows })) {
      notices =
          if phase_eq (next_phase c.phase) CyclePhase.closed
          then s.notices ++ notices_of_close s.employees c rows
          else s.notices;
    }

-- `advance`
unfoldable pub advance : ℕ → ℕ → Action PerformanceStore (Unit {0})
advance now id = find_cycle id >>= λ c.
    throw_if (phase_eq c.phase CyclePhase.draft) (bad_request "Launch the cycle first")
    >> (throw_if (phase_eq c.phase CyclePhase.closed) (bad_request "Cycle is already closed")
        >> modify (commit_advance now c))
