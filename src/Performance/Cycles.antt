-- ===== src/Performance/Cycles.antt =====
-- src/modules/performance/cycles.service.ts: a review cycle from its draft to its close.
pub mod Scope
pub mod Phases
pub mod Report
pub mod Checks
pub mod Outcomes
use ai_hr_sytem.Base.{
  ℕ, zero, suc, ◌+◌, Bool, true, false, not, ◌&&◌, ◌||◌, Option, none, some, List, [], ◌∷◌, ◌++◌,
  map, String, ltb, leb, ◌==◌, if◌then◌else◌, opt_eq, or_else, is_some, find, select, any,
  update_where, length, Action, bad_request, not_found, server_error, pure, gets, or_throw, ◌>>=◌,
  ◌>>◌, throw_if, modify,
}
use ai_hr_sytem.Calendar.{IsoDate}
use ai_hr_sytem.Employees.{Employee, EmployeeStatus, status_eq, find_employee}
use ai_hr_sytem.Performance.Defs.{
  CyclePhase, phase_eq, RatingLevel, ReviewCycle, Review, ReviewStatus, review_status_eq,
  ReviewFeedback, Goal, PerformanceStore, Notice, review_cycle_launched, review_completed,
}
use ai_hr_sytem.Performance.Cycles.Scope.{department_subtree, in_cycle_scope}

pub record CreateCycle : Type 0 where
  pub name : String
  pub description : Option String
  pub period_start : IsoDate
  pub period_end : IsoDate
  pub self_review_deadline : IsoDate
  pub manager_review_deadline : IsoDate
  pub department_id : Option ℕ  -- absent and null alike
  pub rating_scale : Option (List RatingLevel)
  pub competencies : Option (List ℕ)

-- A field that is absent is none; one that may be null is none or some of an option.
pub record UpdateCycle : Type 0 where
  pub name : Option String
  pub description : Option (Option String)
  pub period_start : Option IsoDate
  pub period_end : Option IsoDate
  pub self_review_deadline : Option IsoDate
  pub manager_review_deadline : Option IsoDate
  pub department_id : Option (Option ℕ)
  pub rating_scale : Option (List RatingLevel)
  pub competencies : Option (List ℕ)

-- DEFAULT_RATING_SCALE
abbrev pub default_rating_scale : List RatingLevel
default_rating_scale =
    record { value = 1; label = "Needs improvement" }
    ∷ record { value = 2; label = "Developing" }
    ∷ record { value = 3; label = "Meets expectations" }
    ∷ record { value = 4; label = "Exceeds expectations" }
    ∷ record { value = 5; label = "Exceptional" }
    ∷ []

-- The stable sort of `normaliseScale`.
unfoldable pub insert_level : RatingLevel → List RatingLevel → List RatingLevel
insert_level l [] = l ∷ []
insert_level l (x ∷ xs) =
    let rest = insert_level l xs in if leb l.value x.value then l ∷ x ∷ xs else x ∷ rest

unfoldable pub sort_levels : List RatingLevel → List RatingLevel
sort_levels [] = []
sort_levels (x ∷ xs) = insert_level x (sort_levels xs)

-- `new Set(values).size !== values.length`: some value stands twice.
unfoldable pub has_repeat : List RatingLevel → Bool
has_repeat [] = false
has_repeat (x ∷ xs) = any (λ (l : RatingLevel). l.value == x.value) xs || has_repeat xs

unfoldable pub normalise_scale : List RatingLevel → Action PerformanceStore (List RatingLevel)
normalise_scale scale = do
  let sorted = sort_levels scale
  throw_if (has_repeat sorted) (bad_request "Rating scale values must be unique")
  pure sorted

-- `validateDates`
unfoldable pub validate_dates :
    IsoDate → IsoDate → IsoDate → IsoDate → Action PerformanceStore (Unit {0})
validate_dates period_start period_end self_deadline manager_deadline = do
  throw_if (ltb period_end period_start) (bad_request "periodEnd must be on or after periodStart")
  throw_if (ltb manager_deadline self_deadline)
      (bad_request "managerReviewDeadline must be on or after selfReviewDeadline")

abbrev pub cycle_at : ℕ → List ReviewCycle → Option ReviewCycle
cycle_at id = find (λ (c : ReviewCycle). c.id == id)

-- `findById`
unfoldable pub find_cycle : ℕ → Action PerformanceStore ReviewCycle
find_cycle id = do
  or_throw (← gets (λ (s : PerformanceStore). cycle_at id s.cycles))
      (not_found "Review cycle not found")

abbrev pub save_cycle : ReviewCycle → PerformanceStore → PerformanceStore
save_cycle c s = record s {
  cycles = update_where (λ (x : ReviewCycle). x.id == c.id) (λ _. c) s.cycles;
}

abbrev pub new_cycle : ℕ → CreateCycle → List RatingLevel → ℕ → ReviewCycle
new_cycle id dto scale actor = record {
  id = id;
  name = dto.name;
  description = dto.description;
  period_start = dto.period_start;
  period_end = dto.period_end;
  phase = CyclePhase.draft;
  self_review_deadline = dto.self_review_deadline;
  manager_review_deadline = dto.manager_review_deadline;
  department_id = dto.department_id;
  rating_scale = scale;
  competencies = or_else dto.competencies [];
  launched_at = none;
  closed_at = none;
  created_by_user_id = some actor;
}

abbrev pub add_cycle : CreateCycle → ℕ → List RatingLevel → PerformanceStore → PerformanceStore
add_cycle dto actor scale s = record s {
  cycles = s.cycles ++ new_cycle s.next_cycle_id dto scale actor ∷ [];
  next_cycle_id = s.next_cycle_id + 1;
}

-- `create`
unfoldable pub create_cycle : CreateCycle → ℕ → Action PerformanceStore (Unit {0})
create_cycle dto actor =
    validate_dates dto.period_start dto.period_end dto.self_review_deadline
      dto.manager_review_deadline
    >> (normalise_scale (or_else dto.rating_scale default_rating_scale) >>= λ scale.
        modify (add_cycle dto actor scale))

-- The scale of an update, put in order; the old one where none is given.
unfoldable pub new_scale :
    Option (List RatingLevel) → List RatingLevel → Action PerformanceStore (List RatingLevel)
new_scale none old = pure old
new_scale (some scale) old = normalise_scale scale

abbrev pub changed_cycle : UpdateCycle → List RatingLevel → ReviewCycle → ReviewCycle
changed_cycle dto scale c = record c {
  name = or_else dto.name c.name;
  description = or_else dto.description c.description;
  period_start = or_else dto.period_start c.period_start;
  period_end = or_else dto.period_end c.period_end;
  self_review_deadline = or_else dto.self_review_deadline c.self_review_deadline;
  manager_review_deadline = or_else dto.manager_review_deadline c.manager_review_deadline;
  department_id = or_else dto.department_id c.department_id;
  rating_scale = scale;
  competencies = or_else dto.competencies c.competencies;
}

abbrev pub changes_structure : UpdateCycle → Bool
changes_structure dto =
    is_some dto.department_id || is_some dto.rating_scale || is_some dto.competencies

-- The changed cycle, if its dates are in order.
unfoldable pub checked_dates : ReviewCycle → Action PerformanceStore ReviewCycle
checked_dates d = do
  validate_dates d.period_start d.period_end d.self_review_deadline d.manager_review_deadline
  pure d

-- The checks of `update`, which end with the cycle to save.
unfoldable pub check_update : UpdateCycle → ReviewCycle → Action PerformanceStore ReviewCycle
check_update dto c =
    throw_if (not (phase_eq c.phase CyclePhase.draft) && changes_structure dto)
      (bad_request "Scope, rating scale and competencies cannot change after launch")
    >> (new_scale dto.rating_scale c.rating_scale >>= λ scale.
        checked_dates (changed_cycle dto scale c))

-- `update`
unfoldable pub update_cycle : ℕ → UpdateCycle → Action PerformanceStore (Unit {0})
update_cycle id dto = find_cycle id >>= λ c. check_update dto c >>= λ d. modify (save_cycle d)

abbrev has_feedback : ℕ → ReviewFeedback → Review → Bool
has_feedback id f r = (r.cycle_id == id) && (f.review_id == r.id)

-- The row with what the foreign keys do: ON DELETE CASCADE, and SET NULL for the goals.
abbrev pub without_cycle : ℕ → PerformanceStore → PerformanceStore
without_cycle id s = record s {
  cycles = select (λ (c : ReviewCycle). not (c.id == id)) s.cycles;
  reviews = select (λ (r : Review). not (r.cycle_id == id)) s.reviews;
  feedback = select (λ (f : ReviewFeedback). not (any (has_feedback id f) s.reviews)) s.feedback;
  goals =
      update_where (λ (g : Goal). opt_eq g.cycle_id id) (λ (g : Goal). record g { cycle_id = none })
        s.goals;
}

-- `remove`
unfoldable pub remove_cycle : ℕ → Action PerformanceStore (Unit {0})
remove_cycle id = find_cycle id >>= λ c.
    throw_if (not (phase_eq c.phase CyclePhase.draft))
      (bad_request "Only draft cycles can be deleted")
    >> modify (without_cycle id)
