-- ===== src/Performance/Reviews/Handlers.antt =====
-- src/modules/performance/reviews.service.ts: the handlers that change a review.
use ai_hr_sytem.Base.{
  ℕ, Bool, true, false, not, Option, none, some, String, ◌==◌, if◌then◌else◌, opt_eq, is_some, find,
  Action, bad_request, not_found, forbidden, pure, gets, or_throw, ◌>>=◌, ◌>>◌, throw_if,
}
use ai_hr_sytem.Employees.{User}
use ai_hr_sytem.Performance.Defs.{
  CyclePhase, phase_eq, Review, ReviewStatus, review_status_eq, PerformanceStore, AuthUser,
}
use ai_hr_sytem.Performance.Reviews.{
  ReviewDetail, edit_review, role_for, may_assess, assert_on_scale, AssessmentForm,
  validate_assessment,
}

abbrev pub is_self_window : CyclePhase → Bool
is_self_window CyclePhase.self_review = true
is_self_window CyclePhase.manager_review = true
is_self_window _ = false

unfoldable pub check_self :
    AssessmentForm → AuthUser → ReviewDetail → Action PerformanceStore (Unit {0})
check_self dto actor d = do
  throw_if (not (opt_eq d.employee.user_id actor.id)) (forbidden "Not your review")
  throw_if (not (is_self_window d.cycle.phase)) (bad_request "Self-review window is closed")
  throw_if (is_some d.review.manager_submitted_at)
      (bad_request "Your manager has already submitted; self-review is locked")
  validate_assessment dto d.cycle

abbrev pub self_submitted : ℕ → AssessmentForm → ReviewDetail → Review
self_submitted now dto d = record d.review {
  self_assessment = some dto.assessment;
  self_rating = some dto.rating;
  self_submitted_at = some now;
  status =
      if review_status_eq d.review.status ReviewStatus.pending_self
      then ReviewStatus.pending_manager
      else d.review.status;
}

-- `submitSelf`
unfoldable pub submit_self : ℕ → ℕ → AssessmentForm → AuthUser → Action PerformanceStore (Unit {0})
submit_self now id dto actor = edit_review id (check_self dto actor) (self_submitted now dto)

abbrev pub is_manager_window : CyclePhase → Bool
is_manager_window CyclePhase.manager_review = true
is_manager_window CyclePhase.calibration = true
is_manager_window _ = false

unfoldable pub check_manager :
    AssessmentForm → AuthUser → ReviewDetail → Action PerformanceStore (Unit {0})
check_manager dto actor d = do
  es ← gets (λ (s : PerformanceStore). s.employees)
  throw_if (not (may_assess (role_for es d actor))) (forbidden "Only the reviewer or HR can assess")
  throw_if (not (is_manager_window d.cycle.phase)) (bad_request "Manager-review window is not open")
  validate_assessment dto d.cycle

abbrev pub manager_submitted : ℕ → AssessmentForm → ReviewDetail → Review
manager_submitted now dto d = record d.review {
  manager_assessment = some dto.assessment;
  manager_rating = some dto.rating;
  manager_submitted_at = some now;
  status =
      if phase_eq d.cycle.phase CyclePhase.calibration
      then ReviewStatus.pending_calibration
      else ReviewStatus.pending_manager;
}

-- `submitManager`
unfoldable pub submit_manager :
    ℕ → ℕ → AssessmentForm → AuthUser → Action PerformanceStore (Unit {0})
submit_manager now id dto actor =
    edit_review id (check_manager dto actor) (manager_submitted now dto)

unfoldable pub check_calibrate : ℕ → ReviewDetail → Action PerformanceStore (Unit {0})
check_calibrate rating d =
    throw_if (not (phase_eq d.cycle.phase CyclePhase.calibration))
      (bad_request "Cycle is not in calibration")
    >> assert_on_scale rating d.cycle

abbrev pub calibrated : ℕ → Option String → ReviewDetail → Review
calibrated rating note d = record d.review {
  final_rating = some rating;
  calibrated = true;
  calibration_note = note;
}

-- `calibrate`
unfoldable pub calibrate : ℕ → ℕ → Option String → Action PerformanceStore (Unit {0})
calibrate id rating note = edit_review id (check_calibrate rating) (calibrated rating note)

unfoldable pub check_acknowledge : AuthUser → ReviewDetail → Action PerformanceStore (Unit {0})
check_acknowledge actor d = do
  throw_if (not (opt_eq d.employee.user_id actor.id)) (forbidden "Not your review")
  throw_if (not (review_status_eq d.review.status ReviewStatus.completed))
      (bad_request "Review is not ready to acknowledge")

abbrev pub acknowledged : ℕ → Option String → ReviewDetail → Review
acknowledged now comment d = record d.review {
  status = ReviewStatus.acknowledged;
  acknowledged_at = some now;
  employee_comment = comment;
}

-- `acknowledge`
unfoldable pub acknowledge : ℕ → ℕ → Option String → AuthUser → Action PerformanceStore (Unit {0})
acknowledge now id comment actor =
    edit_review id (check_acknowledge actor) (acknowledged now comment)

-- `users.findById`
unfoldable pub find_login : ℕ → Action PerformanceStore User
find_login id = do
  or_throw (← gets (λ (s : PerformanceStore). find (λ (u : User). u.id == id) s.users))
      (not_found "User not found")

unfoldable pub check_reviewer : Option ℕ → ReviewDetail → Action PerformanceStore (Unit {0})
check_reviewer none d = pure tt
check_reviewer (some login) d =
    find_login login
    >> throw_if (opt_eq d.employee.user_id login)
        (bad_request "An employee cannot review themselves")

abbrev pub reassigned : Option ℕ → ReviewDetail → Review
reassigned login d = record d.review { reviewer_user_id = login }

-- `reassignReviewer`
unfoldable pub reassign_reviewer : ℕ → Option ℕ → Action PerformanceStore (Unit {0})
reassign_reviewer id login = edit_review id (check_reviewer login) (reassigned login)
