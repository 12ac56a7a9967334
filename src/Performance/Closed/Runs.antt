-- ===== src/Performance/Closed/Runs.antt =====
-- Through any sequence of operations a review in a closed cycle keeps what was written in it.
use ai_hr_sytem.Base.{
  ℕ, ◌≡◌, refl, sym, subst, ◌∙◌, ap, inl, inr, arith, true, false, not, ◌&&◌, some, List, [], ◌∷◌,
  ◌==◌, ==→eq, Bool-cases, ok,
}
use ai_hr_sytem.Base.Keyed.{row_at-key, row_at-append}
use ai_hr_sytem.Performance.Defs.{
  CyclePhase, phase_eq, ReviewCycle, Review, ReviewStatus, review_status_eq, PerformanceStore,
}
use ai_hr_sytem.Performance.Cycles.{add_cycle, save_cycle, cycle_at}
use ai_hr_sytem.Performance.Cycles.Phases.{
  new_reviews, next_phase, enter_phase, has_status, finalised,
}
use ai_hr_sytem.Performance.Cycles.Outcomes.{
  create_cases, update_cases, remove_cases, launch_cases, advance_cases,
}
use ai_hr_sytem.Performance.Reviews.{ReviewDetail, review_at}
use ai_hr_sytem.Performance.Reviews.Handlers.{
  check_self, self_submitted, submit_self, check_manager, manager_submitted, submit_manager,
  check_calibrate, calibrated, calibrate, check_acknowledge, acknowledged, acknowledge,
  check_reviewer, reassigned, reassign_reviewer,
}
use ai_hr_sytem.Performance.Sound.Edits.{
  check_self-store, check_self-inv, check_manager-store, check_manager-inv, check_calibrate-store,
  check_acknowledge-store, check_reviewer-store,
}
use ai_hr_sytem.Performance.Sound.Runs.{
  ReviewOp, create_op, update_op, remove_op, launch_op, advance_op, self_op, manager_op,
  calibrate_op, acknowledge_op, reassign_op, request_op, answer_op, remind_op, apply_op, apply_ops,
  request_feedback-SameRows, submit_feedback-SameRows, send_reminders-SameRows,
}
use ai_hr_sytem.Performance.Launched.{draft_is_other, apply_op-IsLaunched}
use ai_hr_sytem.Performance.Closed.{
  IsKept, IsFinal, row_cycle, row_closed, kept, edited-IsKept, passed_over, selected,
}

check_calibrate-inv :
    (rating : ℕ) (d : ReviewDetail) (s : PerformanceStore) (t : Unit {0})
    → (check_calibrate rating d s).0 ≡ ok t
    → phase_eq d.cycle.phase CyclePhase.calibration ≡ true
unfolding check_calibrate
check_calibrate-inv rating d s t h = ground (arith, h)

module _ (c : ReviewCycle) (r : Review) (mine : r.cycle_id ≡ c.id)
    (closed : c.phase ≡ CyclePhase.closed) (s : PerformanceStore) (h : IsFinal c r s) where
  same_reviews : (t : PerformanceStore) → t.reviews ≡ s.reviews → IsKept r t
  same_reviews t e = record { row = h.row; found = ap (review_at r.id) e ∙ h.found; same = h.same }

  remove-IsKept : (id : ℕ) → IsKept r (apply_op (remove_op id) s)
  unfolding apply_op
  remove-IsKept id = remove_cases s (IsKept r) (kept c r mine closed s h) id λ d e k.
      let own = row_at-key ReviewCycle.id id s.cycles d e in
      let at_own : cycle_at d.id s.cycles ≡ some d =
        subst (λ j. cycle_at j s.cycles ≡ some d) (sym own) e in
      let other = draft_is_other c s h.cycle d at_own k in
      record {
        row = h.row;
        found =
            selected r.id (λ (x : Review). not (x.cycle_id == id)) s.reviews h.row h.found
              (ground (arith, other, own, row_cycle c r mine closed s h));
        same = h.same;
      }

  launch-IsKept : (now id : ℕ) → IsKept r (apply_op (launch_op now id) s)
  unfolding apply_op
  launch-IsKept now id = launch_cases s (IsKept r) (kept c r mine closed s h) now id λ d es e k.
      record {
        row = h.row;
        found =
            row_at-append Review.id r.id s.reviews
              (new_reviews s.employees s.next_review_id d.id es) h.row h.found;
        same = h.same;
      }

  -- The reviews of a cycle that enters a phase; the row `h.row` belongs to another one.
  entered :
      (j : ℕ) (p : CyclePhase)
      → (h.row.cycle_id == j) ≡ false
      → review_at r.id (enter_phase j p s.reviews) ≡ some h.row
  unfolding enter_phase
  entered j CyclePhase.draft n = h.found
  entered j CyclePhase.self_review n = h.found
  entered j CyclePhase.manager_review n =
      passed_over r.id (has_status j ReviewStatus.pending_self)
        (λ x. record x { status = ReviewStatus.pending_manager }) s.reviews h.row (λ _. refl)
        h.found (ground (arith, n))
  entered j CyclePhase.calibration n =
      passed_over r.id (has_status j ReviewStatus.pending_manager)
        (λ x. record x { status = ReviewStatus.pending_calibration }) s.reviews h.row (λ _. refl)
        h.found (ground (arith, n))
  entered j CyclePhase.closed n =
      passed_over r.id
        (λ x. (x.cycle_id == j) && not (review_status_eq x.status ReviewStatus.acknowledged))
        finalised s.reviews h.row (λ _. refl) h.found (ground (arith, n))

  advance-IsKept : (now id : ℕ) → IsKept r (apply_op (advance_op now id) s)
  unfolding apply_op
  advance-IsKept now id = advance_cases s (IsKept r) (kept c r mine closed s h) now id λ d e a b.
      record { row = h.row; found = entered d.id (next_phase d.phase) (other d e b); same = h.same }
    where
      other :
          (d : ReviewCycle)
          → cycle_at d.id s.cycles ≡ some d
          → phase_eq d.phase CyclePhase.closed ≡ false
          → (h.row.cycle_id == d.id) ≡ false
      other d e b = elim (Bool-cases (h.row.cycle_id == d.id)) [
        | inr n ↦ n
        | inl y ↦
            let q : d.id ≡ c.id =
              sym (==→eq h.row.cycle_id d.id y) ∙ row_cycle c r mine closed s h in
            let at_c : cycle_at c.id s.cycles ≡ some d =
              subst (λ j. cycle_at j s.cycles ≡ some d) q e in
            let is_row : d ≡ h.cycle.row = ground (arith, sym at_c ∙ h.cycle.found) in
            absurd (ground (arith, ap ReviewCycle.phase is_row ∙ row_closed c r mine closed s h, b))
      ]

  apply_op-IsKept : (o : ReviewOp) → IsKept r (apply_op o s)
  unfolding apply_op submit_self submit_manager calibrate acknowledge reassign_reviewer
  apply_op-IsKept (create_op dto actor) =
      create_cases s (IsKept r) (kept c r mine closed s h) dto actor
        λ l. same_reviews (add_cycle dto actor l s) refl
  apply_op-IsKept (update_op id dto) =
      update_cases s (IsKept r) (kept c r mine closed s h) id dto
        λ d new e k. same_reviews (save_cycle new s) refl
  apply_op-IsKept (remove_op id) = remove-IsKept id
  apply_op-IsKept (launch_op now id) = launch-IsKept now id
  apply_op-IsKept (advance_op now id) = advance-IsKept now id
  apply_op-IsKept (self_op now id dto actor) =
      edited-IsKept c r mine closed s h id (check_self dto actor) (self_submitted now dto)
        (λ d. check_self-store dto actor d s) (λ _. refl)
        (λ d t k. inl (ground (arith, (check_self-inv dto actor d s t k).0)))
  apply_op-IsKept (manager_op now id dto actor) =
      edited-IsKept c r mine closed s h id (check_manager dto actor) (manager_submitted now dto)
        (λ d. check_manager-store dto actor d s) (λ _. refl)
        (λ d t k. inl (ground (arith, (check_manager-inv dto actor d s t k).0)))
  apply_op-IsKept (calibrate_op id rating remark) =
      edited-IsKept c r mine closed s h id (check_calibrate rating) (calibrated rating remark)
        (λ d. check_calibrate-store rating d s) (λ _. refl)
        (λ d t k. inl (ground (arith, check_calibrate-inv rating d s t k)))
  apply_op-IsKept (acknowledge_op now id comment actor) =
      edited-IsKept c r mine closed s h id (check_acknowledge actor) (acknowledged now comment)
        (λ d. check_acknowledge-store actor d s) (λ _. refl) (λ _ _ _. inr refl)
  apply_op-IsKept (reassign_op id login) =
      edited-IsKept c r mine closed s h id (check_reviewer login) (reassigned login)
        (λ d. check_reviewer-store login d s) (λ _. refl) (λ _ _ _. inr refl)
  apply_op-IsKept (request_op id givers actor) =
      same_reviews (apply_op (request_op id givers actor) s)
        (request_feedback-SameRows id givers actor s).1
  apply_op-IsKept (answer_op now id answers actor) =
      same_reviews (apply_op (answer_op now id answers actor) s)
        (submit_feedback-SameRows now id answers actor s).1
  apply_op-IsKept (remind_op today) =
      same_reviews (apply_op (remind_op today) s) (send_reminders-SameRows today s).1

  apply_op-IsFinal : (o : ReviewOp) → IsFinal c r (apply_op o s)
  apply_op-IsFinal o =
      let k = apply_op-IsKept o in
      record {
        cycle = apply_op-IsLaunched o c s h.cycle;
        row = k.row;
        found = k.found;
        same = k.same;
      }

-- Once the cycle of a review is closed, whatever sequence of the operations on cycles, reviews and
-- feedback is asked for, the review is still found under its id, with the same cycle, employee,
-- assessments, ratings, times of submission and calibration; only its acknowledgement and its
-- reviewer can be others.
pub closed_review-IsFinal :
    (os : List ReviewOp) (c : ReviewCycle) (r : Review)
    → r.cycle_id ≡ c.id
    → c.phase ≡ CyclePhase.closed
    → (s : PerformanceStore) → IsFinal c r s
    → IsFinal c r (apply_ops os s)
unfolding apply_ops
closed_review-IsFinal [] c r mine closed s h = h
closed_review-IsFinal (o ∷ os) c r mine closed s h =
    closed_review-IsFinal os c r mine closed (apply_op o s) (apply_op-IsFinal c r mine closed s h o)
