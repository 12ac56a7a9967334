-- ===== src/Performance/Reviews/View/Privacy.antt =====
-- What the reviewee is shown does not depend on what is kept from them.
use ai_hr_sytem.Base.{
  ℕ, ◌≡◌, refl, sym, ◌∙◌, arith, true, false, Option, String, some, List, [], ◌∷◌, map, ◌==◌,
  opt_eq, select, ok,
}
use ai_hr_sytem.Employees.{Employee, find_employee}
use ai_hr_sytem.Performance.Defs.{
  CyclePhase, phase_eq, ReviewCycle, Assessment, Review, ReviewFeedback, PerformanceStore, AuthUser,
}
use ai_hr_sytem.Performance.Cycles.{cycle_at}
use ai_hr_sytem.Performance.Reviews.{review_at, find_review, role_for}
use ai_hr_sytem.Performance.Reviews.View.{
  anonymised, is_submitted, without_note, employee_view, view_as, view,
}

-- The actor reads a review of their own, and does not manage the cycles.
pub record IsReviewee (id : ℕ) (actor : AuthUser) (r : Review) (c : ReviewCycle) (e : Employee)
    (s : PerformanceStore) : Type 0 where
  pub found : review_at id s.reviews ≡ some r
  pub cycle : cycle_at r.cycle_id s.cycles ≡ some c
  pub employee : find_employee r.employee_id s.employees ≡ some e
  pub own : opt_eq e.user_id actor.id ≡ true
  pub plain : actor.can_manage_cycles ≡ false

abbrev feedback_of : ℕ → PerformanceStore → List ReviewFeedback
feedback_of id s = select (λ (f : ReviewFeedback). f.review_id == id) s.feedback

-- The reviewee is shown the view of the employee.
view_own :
    (id : ℕ) (actor : AuthUser) (r : Review) (c : ReviewCycle) (e : Employee) (s : PerformanceStore)
    → IsReviewee id actor r c e s
    → (view id actor s).0
      ≡ ok (employee_view (record { review = r; cycle = c; employee = e }) (feedback_of id s))
unfolding view find_review role_for view_as
view_own id actor r c e s h = ground (arith, h.found, h.cycle, h.employee, h.own, h.plain)

-- What the manager and the calibration write, replaced.
abbrev pub rerated : Option Assessment → Option ℕ → Option ℕ → Option String → Review → Review
rerated assessment rating final remark r = record r {
  manager_assessment = assessment;
  manager_rating = rating;
  final_rating = final;
  calibration_note = remark;
}

-- Until the cycle is closed, the answer to the reviewee is the same whatever the manager's
-- assessment, the manager's rating, the final rating, the calibration note and the peer feedback
-- are, where the rest of the review is the same: when the manager submitted and whether the rating
-- was calibrated are shown.
pub view_hides_ratings :
    (id : ℕ) (actor : AuthUser) (r : Review) (c : ReviewCycle) (e : Employee)
    (s t : PerformanceStore) (assessment : Option Assessment) (rating final : Option ℕ)
    (remark : Option String)
    → IsReviewee id actor r c e s
    → IsReviewee id actor (rerated assessment rating final remark r) c e t
    → phase_eq c.phase CyclePhase.closed ≡ false
    → (view id actor s).0 ≡ (view id actor t).0
unfolding employee_view
view_hides_ratings id actor r c e s t assessment rating final remark a b open_cycle =
    view_own id actor r c e s a
    ∙ ground (arith, open_cycle)
    ∙ sym (view_own id actor (rerated assessment rating final remark r) c e t b)

-- Other people behind the feedback.
abbrev pub regiven :
    (ReviewFeedback → ℕ) → (ReviewFeedback → Option ℕ) → ReviewFeedback → ReviewFeedback
regiven giver requester f = record f { giver_user_id = giver f; requested_by_user_id = requester f }

regiven-anonymised :
    (giver : ReviewFeedback → ℕ) (requester : ReviewFeedback → Option ℕ) (id : ℕ)
    (fs : List ReviewFeedback)
    → map anonymised (
        select is_submitted
          (select (λ (f : ReviewFeedback). f.review_id == id) (map (regiven giver requester) fs)))
      ≡ map anonymised (select is_submitted (select (λ (f : ReviewFeedback). f.review_id == id) fs))
regiven-anonymised giver requester id [] = refl
regiven-anonymised giver requester id (f ∷ fs) =
    ground (arith, regiven-anonymised giver requester id fs)

-- In every phase the answer to the reviewee is the same whoever gave and whoever requested the
-- feedback, and whatever the calibration note is.
pub view_hides_givers :
    (id : ℕ) (actor : AuthUser) (r q : Review) (c : ReviewCycle) (e : Employee)
    (s t : PerformanceStore) (giver : ReviewFeedback → ℕ) (requester : ReviewFeedback → Option ℕ)
    → IsReviewee id actor r c e s
    → IsReviewee id actor q c e t
    → without_note r ≡ without_note q
    → t.feedback ≡ map (regiven giver requester) s.feedback
    → (view id actor s).0 ≡ (view id actor t).0
unfolding employee_view
view_hides_givers id actor r q c e s t giver requester a b same fb =
    view_own id actor r c e s a
    ∙ ground (arith, same, fb, regiven-anonymised giver requester id s.feedback)
    ∙ sym (view_own id actor q c e t b)
