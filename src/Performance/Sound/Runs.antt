-- ===== src/Performance/Sound/Runs.antt =====
-- The services of cycles and reviews through any sequence of their operations.
use ai_hr_sytem.Base.{
  ℕ, ◌≡◌, refl, sym, subst, All, ◌∙◌, inl, inr, arith, true, Option, none, some, List, [], ◌∷◌,
  String, Option-cases, Action, forbidden, bad_request, throw_if, not, check_then, ◌>>=◌, ◌>>◌,
  gets,
}
use ai_hr_sytem.Calendar.{IsoDate}
use ai_hr_sytem.Performance.Defs.{
  ReviewCycle, ReviewFeedback, FeedbackAnswers, PerformanceStore, AuthUser,
}
use ai_hr_sytem.Performance.Cycles.{
  CreateCycle, UpdateCycle, create_cycle, update_cycle, remove_cycle,
}
use ai_hr_sytem.Performance.Cycles.Phases.{launch, advance}
use ai_hr_sytem.Performance.Reviews.{
  ReviewDetail, AssessmentForm, find_review, role_for, assert_on_scale,
}
use ai_hr_sytem.Performance.Reviews.Handlers.{
  submit_self, submit_manager, calibrate, acknowledge, reassign_reviewer, find_login,
}
use ai_hr_sytem.Performance.Reviews.Feedback.{
  has_role, is_open_cycle, feedback_at, ask, ask_all, request_feedback, settle_feedback,
  check_answer, submit_feedback, cycle_of_feedback,
}
use ai_hr_sytem.Performance.Reviews.Reminders.{send_reminders}
use ai_hr_sytem.Performance.Sound.{IsSound, consistent_in}
use ai_hr_sytem.Performance.Sound.Edits.{
  submit_self-IsSound, submit_manager-IsSound, calibrate-IsSound, acknowledge-IsSound,
  reassign_reviewer-IsSound, find_review-store,
}
use ai_hr_sytem.Performance.Sound.Phases.{
  create_cycle-IsSound, update_cycle-IsSound, remove_cycle-IsSound, launch-IsSound,
}
use ai_hr_sytem.Performance.Sound.Advance.{advance-IsSound}

-- The operations that write, the clock's time first where the handler reads it.
pub data ReviewOp : Type 0 where
  create_op : CreateCycle → ℕ → ReviewOp
  update_op : ℕ → UpdateCycle → ReviewOp
  remove_op : ℕ → ReviewOp
  launch_op : ℕ → ℕ → ReviewOp
  advance_op : ℕ → ℕ → ReviewOp
  self_op : ℕ → ℕ → AssessmentForm → AuthUser → ReviewOp
  manager_op : ℕ → ℕ → AssessmentForm → AuthUser → ReviewOp
  calibrate_op : ℕ → ℕ → Option String → ReviewOp
  acknowledge_op : ℕ → ℕ → Option String → AuthUser → ReviewOp
  reassign_op : ℕ → Option ℕ → ReviewOp
  request_op : ℕ → List ℕ → AuthUser → ReviewOp
  answer_op : ℕ → ℕ → Option FeedbackAnswers → AuthUser → ReviewOp
  remind_op : IsoDate → ReviewOp

unfoldable pub apply_op : ReviewOp → PerformanceStore → PerformanceStore
apply_op (create_op dto actor) s = (create_cycle dto actor s).1
apply_op (update_op id dto) s = (update_cycle id dto s).1
apply_op (remove_op id) s = (remove_cycle id s).1
apply_op (launch_op now id) s = (launch now id s).1
apply_op (advance_op now id) s = (advance now id s).1
apply_op (self_op now id dto actor) s = (submit_self now id dto actor s).1
apply_op (manager_op now id dto actor) s = (submit_manager now id dto actor s).1
apply_op (calibrate_op id rating remark) s = (calibrate id rating remark s).1
apply_op (acknowledge_op now id comment actor) s = (acknowledge now id comment actor s).1
apply_op (reassign_op id login) s = (reassign_reviewer id login s).1
apply_op (request_op id givers actor) s = (request_feedback id givers actor s).1
apply_op (answer_op now id answers actor) s = (submit_feedback now id answers actor s).1
apply_op (remind_op today) s = (send_reminders today s).1

unfoldable pub apply_ops : List ReviewOp → PerformanceStore → PerformanceStore
apply_ops [] s = s
apply_ops (o ∷ os) s = apply_ops os (apply_op o s)

-- The same cycles and the same reviews.
abbrev pub SameRows : PerformanceStore → PerformanceStore → Type 0
SameRows s t = (t.cycles ≡ s.cycles) × (t.reviews ≡ s.reviews)

find_login-store : (login : ℕ) (s : PerformanceStore) → (find_login login s).1 ≡ s
unfolding find_login
find_login-store login s = ground arith

ask-SameRows :
    (d : ReviewDetail) (actor giver : ℕ) (s : PerformanceStore) → SameRows s (ask d actor giver s).1
unfolding ask
ask-SameRows d actor giver s =
    let q = find_login-store giver s in (ground (arith, q), ground (arith, q))

ask_all-SameRows :
    (d : ReviewDetail) (actor : ℕ) (givers : List ℕ) (s : PerformanceStore)
    → SameRows s (ask_all d actor givers s).1
unfolding ask_all
ask_all-SameRows d actor [] s = (refl, refl)
ask_all-SameRows d actor (g ∷ gs) s =
    let (a, b) = ask-SameRows d actor g s in
    let (x, y) = ask_all-SameRows d actor gs (ask d actor g s).1 in
    (ground (arith, a, x ∙ a), ground (arith, b, y ∙ b))

pub request_feedback-SameRows :
    (id : ℕ) (givers : List ℕ) (actor : AuthUser) (s : PerformanceStore)
    → SameRows s (request_feedback id givers actor s).1
unfolding request_feedback
request_feedback-SameRows id givers actor s =
    check_then (find_review id) (requested givers actor) s (SameRows s) (find_review-store id s)
      (refl, refl)
      λ d e.
        let (a, b) = ask_all-SameRows d actor.id givers s in
        (ground (arith, a, b), ground (arith, a, b))
  where
    requested : List ℕ → AuthUser → ReviewDetail → Action PerformanceStore (Unit {0})
    requested givers actor d = do
      es ← gets (λ (s : PerformanceStore). s.employees)
      throw_if (not (has_role (role_for es d actor))) (forbidden "Forbidden")
      throw_if (not (is_open_cycle d.cycle.phase))
          (bad_request "Feedback can only be requested while the cycle is open")
      ask_all d actor.id givers

settle-SameRows :
    (now : ℕ) (answers : Option FeedbackAnswers) (f : ReviewFeedback) (c : ReviewCycle)
    (s : PerformanceStore)
    → SameRows s (settle_feedback now answers f c s).1
unfolding settle_feedback check_answer assert_on_scale
settle-SameRows now none f c s = (refl, refl)
settle-SameRows now (some a) f c s = (ground arith, ground arith)

pub submit_feedback-SameRows :
    (now id : ℕ) (answers : Option FeedbackAnswers) (actor : AuthUser) (s : PerformanceStore)
    → SameRows s (submit_feedback now id answers actor s).1
unfolding submit_feedback
submit_feedback-SameRows now id answers actor s = elim (Option-cases (feedback_at id s.feedback)) [
  | inl n ↦ (ground (arith, n), ground (arith, n))
  | inr (f, e) ↦ elim (Option-cases (cycle_of_feedback f s)) [
    | inl n ↦ (ground (arith, n, e), ground (arith, n, e))
    | inr (c, k) ↦
        let (a, b) = settle-SameRows now answers f c s in
        (ground (arith, e, k, a, b), ground (arith, e, k, a, b))
  ]
]

pub send_reminders-SameRows :
    (today : IsoDate) (s : PerformanceStore) → SameRows s (send_reminders today s).1
unfolding send_reminders
send_reminders-SameRows today s = (refl, refl)

SameRows-IsSound : (s t : PerformanceStore) → SameRows s t → IsSound s → IsSound t
SameRows-IsSound s t (a, b) h = record {
  each =
      subst (λ cs. All (λ r. consistent_in cs r ≡ true) t.reviews) (sym a)
        (subst (λ rs. All (λ r. consistent_in s.cycles r ≡ true) rs) (sym b) h.each);
}

apply_op-IsSound : (o : ReviewOp) (s : PerformanceStore) → IsSound s → IsSound (apply_op o s)
unfolding apply_op
apply_op-IsSound (create_op dto actor) s h = create_cycle-IsSound s h dto actor
apply_op-IsSound (update_op id dto) s h = update_cycle-IsSound s h id dto
apply_op-IsSound (remove_op id) s h = remove_cycle-IsSound s h id
apply_op-IsSound (launch_op now id) s h = launch-IsSound s h now id
apply_op-IsSound (advance_op now id) s h = advance-IsSound s h now id
apply_op-IsSound (self_op now id dto actor) s h = submit_self-IsSound s h now id dto actor
apply_op-IsSound (manager_op now id dto actor) s h = submit_manager-IsSound s h now id dto actor
apply_op-IsSound (calibrate_op id rating remark) s h = calibrate-IsSound s h id rating remark
apply_op-IsSound (acknowledge_op now id comment actor) s h =
    acknowledge-IsSound s h now id comment actor
apply_op-IsSound (reassign_op id login) s h = reassign_reviewer-IsSound s h id login
apply_op-IsSound (request_op id givers actor) s h =
    SameRows-IsSound s (request_feedback id givers actor s).1
      (request_feedback-SameRows id givers actor s) h
apply_op-IsSound (answer_op now id answers actor) s h =
    SameRows-IsSound s (submit_feedback now id answers actor s).1
      (submit_feedback-SameRows now id answers actor s) h
apply_op-IsSound (remind_op today) s h =
    SameRows-IsSound s (send_reminders today s).1 (send_reminders-SameRows today s) h

-- Whatever sequence of the operations on cycles, reviews and feedback is asked for, each review
-- keeps a cycle that is not a draft, with a status that fits the cycle's phase, with a self rating,
-- a manager rating and a final rating that are unset or on the cycle's scale, and, once the cycle is
-- closed, with a final rating if the manager gave one, where this holds at the start.
pub apply_ops-IsSound :
    (os : List ReviewOp) (s : PerformanceStore) → IsSound s → IsSound (apply_ops os s)
unfolding apply_ops
apply_ops-IsSound [] s h = h
apply_ops-IsSound (o ∷ os) s h = apply_ops-IsSound os (apply_op o s) (apply_op-IsSound o s h)
