-- ===== src/Performance/Reviews.antt =====
-- src/modules/performance/reviews.service.ts: who may do what with a review, and the assessments.
pub mod Handlers
pub mod View
pub mod Feedback
pub mod Reminders
use ai_hr_sytem.Base.{
  ℕ, Bool, true, false, not, ◌&&◌, ◌||◌, Option, none, some, List, [], ◌∷◌, String, ◌==◌,
  if◌then◌else◌, opt_eq, is_some, find, any, includes, update_where, Action, ok, err, bad_request,
  not_found, forbidden, server_error, pure, gets, or_throw, ◌>>=◌, ◌>>◌, throw_if, modify,
}
use ai_hr_sytem.Employees.{Employee, User, find_employee, find_by_user_id, is_in_reporting_chain}
use ai_hr_sytem.Performance.Defs.{
  CyclePhase, phase_eq, RatingLevel, ReviewCycle, Score, Assessment, Review, ReviewStatus,
  review_status_eq, PerformanceStore, AuthUser,
}
use ai_hr_sytem.Performance.Cycles.{cycle_at}

-- A review with the rows that it is loaded with.
pub record ReviewDetail : Type 0 where
  pub review : Review
  pub cycle : ReviewCycle
  pub employee : Employee

abbrev pub review_at : ℕ → List Review → Option Review
review_at id = find (λ (r : Review). r.id == id)

-- `findById`. The cycle and the employee are there, by the foreign keys.
unfoldable pub find_review : ℕ → Action PerformanceStore ReviewDetail
find_review id s = elim (review_at id s.reviews) [
  | none ↦ (err (not_found "Review not found"), s)
  | some r ↦ elim (cycle_at r.cycle_id s.cycles) [
    | none ↦ (err (server_error "No cycle"), s)
    | some c ↦ elim (find_employee r.employee_id s.employees) [
      | none ↦ (err (server_error "No employee"), s)
      | some e ↦ (ok (record { review = r; cycle = c; employee = e }), s)
    ]
  ]
]

abbrev pub save_review : Review → PerformanceStore → PerformanceStore
save_review r s = record s {
  reviews = update_where (λ (x : Review). x.id == r.id) (λ _. r) s.reviews;
}

-- The steps of a handler that loads a review, checks, changes the row and saves it.
unfoldable pub edit_review :
    ℕ
    → (ReviewDetail → Action PerformanceStore (Unit {0}))
    → (ReviewDetail → Review)
    → Action PerformanceStore (Unit {0})
edit_review id check change = find_review id >>= λ d. check d >> modify (save_review (change d))

pub data Role : Type 0 where
  hr reviewer employee no_role : Role

-- The last case of `roleFor`: a manager somewhere above the employee.
unfoldable pub is_above : List Employee → ℕ → ℕ → Bool
is_above es login target = elim (find_by_user_id login es) [
  | none ↦ false
  | some me ↦ is_in_reporting_chain es me.id target
]

-- `roleFor`
unfoldable pub role_for : List Employee → ReviewDetail → AuthUser → Role
role_for es d actor =
    if actor.can_manage_cycles
    then Role.hr
    else if opt_eq d.employee.user_id actor.id
    then Role.employee
    else if opt_eq d.review.reviewer_user_id actor.id
    then Role.reviewer
    else if actor.can_write_team && is_above es actor.id d.review.employee_id
    then Role.reviewer
    else Role.no_role

abbrev pub may_assess : Role → Bool
may_assess Role.hr = true
may_assess Role.reviewer = true
may_assess _ = false

-- `ratingScale.some((l) => l.value === value)`
unfoldable pub on_scale : List RatingLevel → ℕ → Bool
on_scale scale value = any (λ (l : RatingLevel). l.value == value) scale

-- `assertOnScale`
unfoldable pub assert_on_scale : ℕ → ReviewCycle → Action PerformanceStore (Unit {0})
assert_on_scale value c =
    throw_if (not (on_scale c.rating_scale value)) (bad_request "Rating must be on the scale")

abbrev pub is_number : Score → Bool
is_number Score.not_number = false
is_number _ = true

-- `typeof dto.competencies[c] === 'number'`; a key stands once.
unfoldable pub has_score : List (ℕ × Score) → ℕ → Bool
has_score [] c = false
has_score ((k, v) ∷ rest) c = if k == c then is_number v else has_score rest c

unfoldable pub all_scored : List ℕ → List (ℕ × Score) → Bool
all_scored [] scores = true
all_scored (c ∷ cs) scores = has_score scores c && all_scored cs scores

abbrev pub score_on_scale : List RatingLevel → Score → Bool
score_on_scale scale (Score.level v) = on_scale scale v
score_on_scale scale _ = false

-- The loop over the entries.
unfoldable pub check_scores : ReviewCycle → List (ℕ × Score) → Action PerformanceStore (Unit {0})
check_scores c [] = pure tt
check_scores c ((k, v) ∷ rest) =
    throw_if (not (includes c.competencies k)) (bad_request "Unknown competency")
    >> (throw_if (not (score_on_scale c.rating_scale v)) (bad_request "Rating must be on the scale")
        >> check_scores c rest)

pub record AssessmentForm : Type 0 where
  pub assessment : Assessment
  pub rating : ℕ

-- `validateAssessment`
unfoldable pub validate_assessment :
    AssessmentForm → ReviewCycle → Action PerformanceStore (Unit {0})
validate_assessment dto c = do
  assert_on_scale dto.rating c
  throw_if (not (all_scored c.competencies dto.assessment.competencies))
      (bad_request "Score every competency")
  check_scores c dto.assessment.competencies
