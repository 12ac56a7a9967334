-- ===== src/Performance/Reviews/Feedback.antt =====
-- src/modules/performance/reviews.service.ts: peer feedback.
use ai_hr_sytem.Base.{
  ℕ, ◌+◌, Bool, true, false, not, ◌&&◌, Option, none, some, List, [], ◌∷◌, ◌++◌, ◌==◌,
  if◌then◌else◌, opt_eq, find, any, update_where, Action, bad_request, not_found, forbidden,
  server_error, pure, gets, or_throw, ◌>>=◌, ◌>>◌, throw_if, modify,
}
use ai_hr_sytem.Performance.Defs.{
  CyclePhase, phase_eq, ReviewCycle, ReviewFeedback, FeedbackStatus, FeedbackAnswers,
  PerformanceStore, AuthUser, Notice,
}
use ai_hr_sytem.Performance.Cycles.{cycle_at}
use ai_hr_sytem.Performance.Reviews.{
  Role, ReviewDetail, find_review, role_for, review_at, assert_on_scale,
}
use ai_hr_sytem.Performance.Reviews.Handlers.{find_login}

abbrev pub has_role : Role → Bool
has_role Role.no_role = false
has_role _ = true

abbrev pub is_open_cycle : CyclePhase → Bool
is_open_cycle CyclePhase.closed = false
is_open_cycle CyclePhase.draft = false
is_open_cycle _ = true

abbrev pub asked_of : ℕ → ℕ → ReviewFeedback → Bool
asked_of review giver f = (f.review_id == review) && (f.giver_user_id == giver)

abbrev pub new_feedback : ℕ → ℕ → ℕ → ℕ → ReviewFeedback
new_feedback id review giver actor = record {
  id = id;
  review_id = review;
  giver_user_id = giver;
  requested_by_user_id = some actor;
  status = FeedbackStatus.requested;
  answers = none;
  submitted_at = none;
}

abbrev pub add_feedback : ℕ → ℕ → ℕ → PerformanceStore → PerformanceStore
add_feedback review giver actor s = record s {
  feedback = s.feedback ++ new_feedback s.next_feedback_id review giver actor ∷ [];
  next_feedback_id = s.next_feedback_id + 1;
  notices = s.notices ++ Notice.feedback_requested giver s.next_feedback_id ∷ [];
}

-- One turn of the loop: a giver who has been asked before is passed over.
unfoldable pub ask : ReviewDetail → ℕ → ℕ → Action PerformanceStore (Unit {0})
ask d actor giver = do
  throw_if (opt_eq d.employee.user_id giver)
      (bad_request "Cannot request feedback from the reviewee")
  find_login giver
  exists ← gets (λ (s : PerformanceStore). any (asked_of d.review.id giver) s.feedback)
  if exists then pure tt else modify (add_feedback d.review.id giver actor)

unfoldable pub ask_all : ReviewDetail → ℕ → List ℕ → Action PerformanceStore (Unit {0})
ask_all d actor [] = pure tt
ask_all d actor (giver ∷ givers) = ask d actor giver >> ask_all d actor givers

-- `requestFeedback`
unfoldable pub request_feedback : ℕ → List ℕ → AuthUser → Action PerformanceStore (Unit {0})
request_feedback id givers actor = do
  d ← find_review id
  es ← gets (λ (s : PerformanceStore). s.employees)
  throw_if (not (has_role (role_for es d actor))) (forbidden "Forbidden")
  throw_if (not (is_open_cycle d.cycle.phase))
      (bad_request "Feedback can only be requested while the cycle is open")
  ask_all d actor.id givers

abbrev pub feedback_at : ℕ → List ReviewFeedback → Option ReviewFeedback
feedback_at id = find (λ (f : ReviewFeedback). f.id == id)

-- The cycle that a request belongs to, by the foreign keys.
unfoldable pub cycle_of_feedback : ReviewFeedback → PerformanceStore → Option ReviewCycle
cycle_of_feedback f s = elim (review_at f.review_id s.reviews) [
  | none ↦ none
  | some r ↦ cycle_at r.cycle_id s.cycles
]

abbrev pub is_requested : FeedbackStatus → Bool
is_requested FeedbackStatus.requested = true
is_requested _ = false

-- The rating of an answer, where it has one.
unfoldable pub check_answer : Option ℕ → ReviewCycle → Action PerformanceStore (Unit {0})
check_answer none c = pure tt
check_answer (some v) c = assert_on_scale v c

abbrev pub save_feedback : ReviewFeedback → PerformanceStore → PerformanceStore
save_feedback f s = record s {
  feedback = update_where (λ (x : ReviewFeedback). x.id == f.id) (λ _. f) s.feedback;
}

abbrev pub answered : ℕ → FeedbackAnswers → ReviewFeedback → ReviewFeedback
answered now answers f = record f {
  status = FeedbackStatus.submitted;
  answers = some answers;
  submitted_at = some now;
}

abbrev pub declined_by : ℕ → ReviewFeedback → ReviewFeedback
declined_by now f = record f { status = FeedbackStatus.declined; submitted_at = some now }

-- What the answer is, none where the giver declines.
unfoldable pub settle_feedback :
    ℕ → Option FeedbackAnswers → ReviewFeedback → ReviewCycle → Action PerformanceStore (Unit {0})
settle_feedback now none f c = modify (save_feedback (declined_by now f))
settle_feedback now (some answers) f c =
    check_answer answers.rating c >> modify (save_feedback (answered now answers f))

-- `submitFeedback`
unfoldable pub submit_feedback :
    ℕ → ℕ → Option FeedbackAnswers → AuthUser → Action PerformanceStore (Unit {0})
submit_feedback now id dto actor = do
  f ←
      or_throw (← gets (λ (s : PerformanceStore). feedback_at id s.feedback))
        (not_found "Feedback request not found")
  throw_if (not (f.giver_user_id == actor.id)) (forbidden "Not your feedback request")
  throw_if (not (is_requested f.status)) (bad_request "Already answered")
  c ← or_throw (← gets (cycle_of_feedback f)) (server_error "No cycle")
  throw_if (phase_eq c.phase CyclePhase.closed) (bad_request "Cycle is closed")
  settle_feedback now dto f c
