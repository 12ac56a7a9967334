-- ===== src/Performance/Closed.antt =====
-- A review in a closed cycle: the assessments and the ratings are final.
pub mod Runs
use ai_hr_sytem.Base.{
  ℕ, ◌+◌, ◌≤◌, ◌≡◌, refl, sym, subst, ◌∙◌, ap, ◌⊎◌, inl, inr, arith, Bool, true, false, not, ◌&&◌,
  Option, none, some, List, [], ◌∷◌, ◌++◌, ◌==◌, ==→eq, find, select, update_where, if◌then◌else◌,
  Bool-cases, Action, ok, check_then, ◌>>=◌, ◌>>◌, modify,
}
use ai_hr_sytem.Base.Keyed.{row_at-key, row_at-saved, row_at-saved_other, row_at-append, saved}
use ai_hr_sytem.Employees.{Employee}
use ai_hr_sytem.Performance.Defs.{
  CyclePhase, phase_eq, ReviewCycle, Review, ReviewStatus, review_status_eq, PerformanceStore,
}
use ai_hr_sytem.Performance.Cycles.{cycle_at}
use ai_hr_sytem.Performance.Cycles.Phases.{
  new_reviews, next_phase, enter_phase, has_status, finalised, commit_launch, commit_advance,
}
use ai_hr_sytem.Performance.Cycles.Outcomes.{
  create_cases, update_cases, remove_cases, launch_cases, advance_cases,
}
use ai_hr_sytem.Performance.Reviews.{ReviewDetail, review_at, find_review, edit_review, save_review}
use ai_hr_sytem.Performance.Sound.Edits.{
  find_review-store, find_review-ok, check_self-store, check_self-inv, check_manager-store,
  check_manager-inv, check_calibrate-store, check_acknowledge-store, check_reviewer-store,
}
use ai_hr_sytem.Performance.Sound.Runs.{
  ReviewOp, create_op, update_op, remove_op, launch_op, advance_op, self_op, manager_op,
  calibrate_op, acknowledge_op, reassign_op, request_op, answer_op, remind_op, apply_op, apply_ops,
  request_feedback-SameRows, submit_feedback-SameRows, send_reminders-SameRows,
}
use ai_hr_sytem.Performance.Launched.{IsLaunched, rank, apply_op-IsLaunched}

-- The row with the acknowledgement and the reviewer of `r`.
abbrev pub restored : Review → Review → Review
restored r row = record row {
  status = r.status;
  acknowledged_at = r.acknowledged_at;
  employee_comment = r.employee_comment;
  reviewer_user_id = r.reviewer_user_id;
}

-- The row is the review `r`, but for its acknowledgement and its reviewer.
abbrev pub Unchanged : Review → Review → Type 0
Unchanged r row = restored r row ≡ r

pub record IsKept (r : Review) (s : PerformanceStore) : Type 0 where
  pub row : Review
  pub found : review_at r.id s.reviews ≡ some row
  pub same : Unchanged r row

-- The review is there with what was written in it, and its cycle `c` is closed.
pub record IsFinal (c : ReviewCycle) (r : Review) (s : PerformanceStore) : Type 0 where
  pub cycle : IsLaunched c s
  pub row : Review
  pub found : review_at r.id s.reviews ≡ some row
  pub same : Unchanged r row

-- A cycle that was closed once is closed.
still_closed : (p q : CyclePhase) → p ≡ CyclePhase.closed → rank p ≤ rank q → q ≡ CyclePhase.closed
still_closed p CyclePhase.closed e h = refl
still_closed p CyclePhase.draft e h = absurd (ground (arith, e, h))
still_closed p CyclePhase.self_review e h = absurd (ground (arith, e, h))
still_closed p CyclePhase.manager_review e h = absurd (ground (arith, e, h))
still_closed p CyclePhase.calibration e h = absurd (ground (arith, e, h))

module _ (c : ReviewCycle) (r : Review) (mine : r.cycle_id ≡ c.id)
    (closed : c.phase ≡ CyclePhase.closed) (s : PerformanceStore) (h : IsFinal c r s) where
  pub row_cycle : h.row.cycle_id ≡ c.id
  row_cycle = ap Review.cycle_id h.same ∙ mine

  pub row_closed : h.cycle.row.phase ≡ CyclePhase.closed
  row_closed = still_closed c.phase h.cycle.row.phase closed h.cycle.later

  pub kept : IsKept r s
  kept = record { row = h.row; found = h.found; same = h.same }

  -- A store in which the row is found as it was.
  IsFinal-again :
      (t : PerformanceStore)
      → IsLaunched c t
      → review_at r.id t.reviews ≡ review_at r.id s.reviews
      → IsFinal c r t
  IsFinal-again t l e = record { cycle = l; row = h.row; found = e ∙ h.found; same = h.same }

  -- A review that is edited_goal while its cycle is not closed is another one.
  module _ (id : ℕ) (check : ReviewDetail → Action PerformanceStore (Unit {0}))
      (change : ReviewDetail → Review) (reads : (d : ReviewDetail) → (check d s).1 ≡ s)
      (keeps : (d : ReviewDetail) → (change d).id ≡ d.review.id) where
    pub edited-IsKept :
        ((d : ReviewDetail) (t : Unit {0})
          → (check d s).0 ≡ ok t
          → (phase_eq d.cycle.phase CyclePhase.closed ≡ false) ⊎ Unchanged d.review (change d))
        → IsKept r (edit_review id check change s).1
    unfolding edit_review
    edited-IsKept fit =
        check_then (find_review id) (λ d. check d >> modify (save_review (change d))) s (IsKept r)
          (find_review-store id s) kept
          λ d e.
            check_then (check d) (λ _. modify (save_review (change d))) s (IsKept r) (reads d) kept
              λ t k.
                let (at_id, at_cycle) = find_review-ok id s d e in
                let own = row_at-key Review.id id s.reviews d.review at_id in
                elim (Bool-cases (d.review.id == r.id)) [
                  | inr n ↦
                      let other : ((change d).id == r.id) ≡ false = ground (arith, n, keeps d) in
                      record {
                        row = h.row;
                        found =
                            row_at-saved_other Review.id r.id s.reviews (change d) other ∙ h.found;
                        same = h.same;
                      }
                  | inl y ↦
                      let here : id ≡ r.id = sym own ∙ ==→eq d.review.id r.id y in
                      let at_r : review_at r.id s.reviews ≡ some d.review =
                        subst (λ j. review_at j s.reviews ≡ some d.review) here at_id in
                      let is_row : d.review ≡ h.row = ground (arith, sym at_r ∙ h.found) in
                      let at_c : cycle_at c.id s.cycles ≡ some d.cycle =
                        subst (λ j. cycle_at j s.cycles ≡ some d.cycle)
                          (ap Review.cycle_id is_row ∙ row_cycle) at_cycle in
                      let is_cycle : d.cycle ≡ h.cycle.row =
                        ground (arith, sym at_c ∙ h.cycle.found) in
                      elim (fit d t k) [
                        | inl o ↦
                            absurd (ground (arith, ap ReviewCycle.phase is_cycle ∙ row_closed, o))
                        | inr u ↦ record {
                          row = change d;
                          found =
                              row_at-saved Review.id r.id s.reviews d.review (change d) at_r
                                (keeps d ∙ own ∙ here);
                          same = ap (restored r) u ∙ ap (restored r) is_row ∙ h.same;
                        }
                      ]
                ]

-- A row that an update passes over is found as it was.
pub passed_over :
    (id : ℕ) (p : Review → Bool) (f : Review → Review) (rs : List Review) (x : Review)
    → ((y : Review) → (f y).id ≡ y.id)
    → review_at id rs ≡ some x
    → p x ≡ false
    → review_at id (update_where p f rs) ≡ some x
passed_over id p f [] x keeps e n = e
passed_over id p f (y ∷ ys) x keeps e n = elim (Bool-cases (p y)) [
  | inr a ↦ ground (arith, a, e, passed_over id p f ys x keeps)
  | inl a ↦ ground (arith, a, e, n, keeps y, passed_over id p f ys x keeps)
]

pub selected :
    (id : ℕ) (q : Review → Bool) (rs : List Review) (x : Review)
    → review_at id rs ≡ some x
    → q x ≡ true
    → review_at id (select q rs) ≡ some x
selected id q [] x e n = e
selected id q (y ∷ ys) x e n = ground (arith, e, n, selected id q ys x)
