-- ===== src/Performance/Sound/Edits.antt =====
-- The handlers that change one review keep it consistent with its cycle.
use ai_hr_sytem.Base.{
  ℕ, ◌≡◌, refl, sym, subst, inl, inr, arith, true, false, Option, none, some, List, [], ◌∷◌, String,
  ◌==◌, opt_eq, is_some, All, Bool-cases, Action, ok, ◌>>◌, modify, check_then,
}
use ai_hr_sytem.Base.Keyed.{saved}
use ai_hr_sytem.Performance.Defs.{ReviewCycle, Score, Review, PerformanceStore, AuthUser}
use ai_hr_sytem.Performance.Cycles.{cycle_at}
use ai_hr_sytem.Performance.Reviews.{
  ReviewDetail, review_at, find_review, save_review, edit_review, on_scale, assert_on_scale,
  AssessmentForm, check_scores, validate_assessment,
}
use ai_hr_sytem.Performance.Reviews.Handlers.{
  check_self, self_submitted, submit_self, check_manager, manager_submitted, submit_manager,
  check_calibrate, calibrated, calibrate, check_acknowledge, acknowledged, acknowledge, find_login,
  check_reviewer, reassigned, reassign_reviewer, is_self_window, is_manager_window,
}
use ai_hr_sytem.Performance.Sound.{
  fits, is_consistent, consistent_in, IsSound, consistent_with, consistent_by,
}

pub find_review-store : (id : ℕ) (s : PerformanceStore) → (find_review id s).1 ≡ s
unfolding find_review
find_review-store id s = ground arith

-- What a loaded review comes from.
pub find_review-ok :
    (id : ℕ) (s : PerformanceStore) (d : ReviewDetail)
    → (find_review id s).0 ≡ ok d
    → (review_at id s.reviews ≡ some d.review)
      × (cycle_at d.review.cycle_id s.cycles ≡ some d.cycle)
unfolding find_review
find_review-ok id s d h = ground arith

All-at :
    (P : Review → Type 0) (id : ℕ) (rs : List Review) (r : Review)
    → review_at id rs ≡ some r
    → All P rs
    → P r
All-at P id [] r e a = absurd (ground arith)
All-at P id (x ∷ xs) r e a = elim (Bool-cases (x.id == id)) [
  | inl k ↦ subst P (ground (arith, k, e)) a.0
  | inr k ↦ All-at P id xs r (ground (arith, k, e)) a.1
]

All-saved :
    (P : Review → Type 0) (new : Review) (rs : List Review)
    → P new
    → All P rs
    → All P (saved Review.id new rs)
All-saved P new [] k a = tt
All-saved P new (x ∷ xs) k a = elim (Bool-cases (x.id == new.id)) [
  | inl q ↦ rw q (k, All-saved P new xs k a.1)
  | inr q ↦ rw q (a.0, All-saved P new xs k a.1)
]

-- An edit of one review whose check lets through only what stays consistent.
edit_review-IsSound :
    (id : ℕ) (check : ReviewDetail → Action PerformanceStore (Unit {0}))
    (change : ReviewDetail → Review) (s : PerformanceStore)
    → IsSound s
    → ((d : ReviewDetail) → (check d s).1 ≡ s)
    → ((d : ReviewDetail) → (change d).cycle_id ≡ d.review.cycle_id)
    → ((d : ReviewDetail) (t : Unit {0})
        → (check d s).0 ≡ ok t
        → is_consistent d.cycle d.review ≡ true
        → is_consistent d.cycle (change d) ≡ true)
    → IsSound (edit_review id check change s).1
unfolding edit_review
edit_review-IsSound id check change s h reads same fit =
    check_then (find_review id) (λ d. check d >> modify (save_review (change d))) s IsSound
      (find_review-store id s) h
      λ d e.
        check_then (check d) (λ _. modify (save_review (change d))) s IsSound (reads d) h
          λ t k.
            let (found, cycle) = find_review-ok id s d e in
            let P = λ (r : Review). consistent_in s.cycles r ≡ true in
            let old =
              consistent_with s.cycles d.review d.cycle cycle
                (All-at P id s.reviews d.review found h.each) in
            let at_new : cycle_at (change d).cycle_id s.cycles ≡ some d.cycle =
              subst (λ j. cycle_at j s.cycles ≡ some d.cycle) (sym (same d)) cycle in
            record {
              each =
                  All-saved P (change d) s.reviews
                    (consistent_by s.cycles (change d) d.cycle at_new (fit d t k old)) h.each;
            }

-- The loop over the scores only reads.
check_scores-store :
    (c : ReviewCycle) (l : List (ℕ × Score)) (s : PerformanceStore) → (check_scores c l s).1 ≡ s
unfolding check_scores
check_scores-store c [] s = refl
check_scores-store c ((k, v) ∷ rest) s = ground (arith, check_scores-store c rest s)

validate-store :
    (dto : AssessmentForm) (c : ReviewCycle) (s : PerformanceStore)
    → (validate_assessment dto c s).1 ≡ s
unfolding validate_assessment assert_on_scale
validate-store dto c s = ground (arith, check_scores-store c dto.assessment.competencies s)

validate-on_scale :
    (dto : AssessmentForm) (c : ReviewCycle) (s : PerformanceStore) (t : Unit {0})
    → (validate_assessment dto c s).0 ≡ ok t
    → on_scale c.rating_scale dto.rating ≡ true
unfolding validate_assessment assert_on_scale
validate-on_scale dto c s t h = ground (arith, h)

module _ (dto : AssessmentForm) (actor : AuthUser) (d : ReviewDetail) (s : PerformanceStore) where
  pub check_self-store : (check_self dto actor d s).1 ≡ s
  unfolding check_self
  check_self-store = ground (arith, validate-store dto d.cycle s)

  pub check_self-inv :
      (t : Unit {0})
      → (check_self dto actor d s).0 ≡ ok t
      → (is_self_window d.cycle.phase ≡ true)
        × ((validate_assessment dto d.cycle s).0 ≡ ok t)
        × (is_some d.review.manager_submitted_at ≡ false)
        × (opt_eq d.employee.user_id actor.id ≡ true)
  unfolding check_self
  check_self-inv t h = (ground (arith, h), ground (arith, h), ground (arith, h), ground (arith, h))

  self_fit :
      (now : ℕ) (t : Unit {0})
      → (check_self dto actor d s).0 ≡ ok t
      → is_consistent d.cycle d.review ≡ true
      → is_consistent d.cycle (self_submitted now dto d) ≡ true
  unfolding is_consistent fits
  self_fit now t h k =
      let (w, v, _, _) = check_self-inv t h in
      ground (arith, validate-on_scale dto d.cycle s t v, w, k)

  pub check_manager-store : (check_manager dto actor d s).1 ≡ s
  unfolding check_manager
  check_manager-store = ground (arith, validate-store dto d.cycle s)

  pub check_manager-inv :
      (t : Unit {0})
      → (check_manager dto actor d s).0 ≡ ok t
      → (is_manager_window d.cycle.phase ≡ true) × ((validate_assessment dto d.cycle s).0 ≡ ok t)
  unfolding check_manager
  check_manager-inv t h = (ground (arith, h), ground (arith, h))

  manager_fit :
      (now : ℕ) (t : Unit {0})
      → (check_manager dto actor d s).0 ≡ ok t
      → is_consistent d.cycle d.review ≡ true
      → is_consistent d.cycle (manager_submitted now dto d) ≡ true
  unfolding is_consistent fits
  manager_fit now t h k =
      let (w, v) = check_manager-inv t h in
      ground (arith, validate-on_scale dto d.cycle s t v, w, k)

pub check_calibrate-store :
    (rating : ℕ) (d : ReviewDetail) (s : PerformanceStore) → (check_calibrate rating d s).1 ≡ s
unfolding check_calibrate assert_on_scale
check_calibrate-store rating d s = ground arith

calibrate_fit :
    (rating : ℕ) (remark : Option String) (d : ReviewDetail) (s : PerformanceStore) (t : Unit {0})
    → (check_calibrate rating d s).0 ≡ ok t
    → is_consistent d.cycle d.review ≡ true
    → is_consistent d.cycle (calibrated rating remark d) ≡ true
unfolding is_consistent fits check_calibrate assert_on_scale
calibrate_fit rating remark d s t h k = ground (arith, h, k)

pub check_acknowledge-store :
    (actor : AuthUser) (d : ReviewDetail) (s : PerformanceStore)
    → (check_acknowledge actor d s).1 ≡ s
unfolding check_acknowledge
check_acknowledge-store actor d s = ground arith

acknowledge_fit :
    (now : ℕ) (comment : Option String) (actor : AuthUser) (d : ReviewDetail) (s : PerformanceStore)
    (t : Unit {0})
    → (check_acknowledge actor d s).0 ≡ ok t
    → is_consistent d.cycle d.review ≡ true
    → is_consistent d.cycle (acknowledged now comment d) ≡ true
unfolding is_consistent fits check_acknowledge
acknowledge_fit now comment actor d s t h k = ground (arith, h, k)

pub check_reviewer-store :
    (login : Option ℕ) (d : ReviewDetail) (s : PerformanceStore) → (check_reviewer login d s).1 ≡ s
unfolding check_reviewer find_login
check_reviewer-store none d s = refl
check_reviewer-store (some login) d s = ground arith

module _ (s : PerformanceStore) (h : IsSound s) where
  pub submit_self-IsSound :
      (now id : ℕ) (dto : AssessmentForm) (actor : AuthUser)
      → IsSound (submit_self now id dto actor s).1
  unfolding submit_self
  submit_self-IsSound now id dto actor =
      edit_review-IsSound id (check_self dto actor) (self_submitted now dto) s h
        (λ d. check_self-store dto actor d s) (λ d. refl) (λ d t. self_fit dto actor d s now t)

  pub submit_manager-IsSound :
      (now id : ℕ) (dto : AssessmentForm) (actor : AuthUser)
      → IsSound (submit_manager now id dto actor s).1
  unfolding submit_manager
  submit_manager-IsSound now id dto actor =
      edit_review-IsSound id (check_manager dto actor) (manager_submitted now dto) s h
        (λ d. check_manager-store dto actor d s) (λ d. refl)
        (λ d t. manager_fit dto actor d s now t)

  pub calibrate-IsSound :
      (id rating : ℕ) (remark : Option String) → IsSound (calibrate id rating remark s).1
  unfolding calibrate
  calibrate-IsSound id rating remark =
      edit_review-IsSound id (check_calibrate rating) (calibrated rating remark) s h
        (λ d. check_calibrate-store rating d s) (λ d. refl)
        (λ d t. calibrate_fit rating remark d s t)

  pub acknowledge-IsSound :
      (now id : ℕ) (comment : Option String) (actor : AuthUser)
      → IsSound (acknowledge now id comment actor s).1
  unfolding acknowledge
  acknowledge-IsSound now id comment actor =
      edit_review-IsSound id (check_acknowledge actor) (acknowledged now comment) s h
        (λ d. check_acknowledge-store actor d s) (λ d. refl)
        (λ d t. acknowledge_fit now comment actor d s t)

  pub reassign_reviewer-IsSound :
      (id : ℕ) (login : Option ℕ) → IsSound (reassign_reviewer id login s).1
  unfolding reassign_reviewer
  reassign_reviewer-IsSound id login =
      edit_review-IsSound id (check_reviewer login) (reassigned login) s h
        (λ d. check_reviewer-store login d s) (λ d. refl) (λ d t _ k. same_consistent login d k)
    where
      same_consistent :
          (login : Option ℕ) (d : ReviewDetail)
          → is_consistent d.cycle d.review ≡ true
          → is_consistent d.cycle (reassigned login d) ≡ true
      same_consistent login d k = unfold is_consistent in k
