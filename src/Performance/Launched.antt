-- ===== src/Performance/Launched.antt =====
-- A cycle after its launch: the phases only move forward, and what its reviews are measured by stays.
use ai_hr_sytem.Base.{
  ℕ, ◌≤◌, ◌≡◌, refl, sym, subst, ◌∙◌, ap, inl, inr, arith, Bool, true, false, some, List, [], ◌∷◌,
  ◌==◌, ==→eq, Bool-cases, Action, check_then, ◌>>◌, modify,
}
use ai_hr_sytem.Base.Keyed.{
  row_at-saved, row_at-saved_other, row_at-append, row_at-dropped, row_at-key, saved,
}
use ai_hr_sytem.Performance.Defs.{CyclePhase, phase_eq, ReviewCycle, PerformanceStore}
use ai_hr_sytem.Performance.Cycles.{
  CreateCycle, UpdateCycle, cycle_at, save_cycle, new_cycle, add_cycle, create_cycle, update_cycle,
  without_cycle, remove_cycle,
}
use ai_hr_sytem.Performance.Cycles.Phases.{
  launched, commit_launch, launch, advanced, commit_advance, advance,
}
use ai_hr_sytem.Performance.Cycles.Checks.{check_update-kept}
use ai_hr_sytem.Performance.Cycles.Outcomes.{
  create_cases, update_cases, remove_cases, launch_cases, advance_cases,
}
use ai_hr_sytem.Performance.Reviews.Handlers.{
  check_self, self_submitted, submit_self, check_manager, manager_submitted, submit_manager,
  check_calibrate, calibrated, calibrate, check_acknowledge, acknowledged, acknowledge,
  check_reviewer, reassigned, reassign_reviewer,
}
use ai_hr_sytem.Performance.Sound.Runs.{
  ReviewOp, create_op, update_op, remove_op, launch_op, advance_op, self_op, manager_op,
  calibrate_op, acknowledge_op, reassign_op, request_op, answer_op, remind_op, apply_op, apply_ops,
  request_feedback-SameRows, submit_feedback-SameRows, send_reminders-SameRows,
}
use ai_hr_sytem.Performance.Reviews.{ReviewDetail, find_review, edit_review, save_review}
use ai_hr_sytem.Performance.Defs.{Review}
use ai_hr_sytem.Performance.Sound.Edits.{
  find_review-store, check_self-store, check_manager-store, check_calibrate-store,
  check_acknowledge-store, check_reviewer-store,
}

-- The place of a phase in PHASE_ORDER.
abbrev pub rank : CyclePhase → ℕ
rank CyclePhase.draft = 0
rank CyclePhase.self_review = 1
rank CyclePhase.manager_review = 2
rank CyclePhase.calibration = 3
rank CyclePhase.closed = 4

abbrev pub is_draft : ReviewCycle → Bool
is_draft c = phase_eq c.phase CyclePhase.draft

-- The cycle is there, past its launch and no phase before the one it had when it was `c`, with the
-- same scale, competencies and scope.
pub record IsLaunched (c : ReviewCycle) (s : PerformanceStore) : Type 0 where
  pub row : ReviewCycle
  pub found : cycle_at c.id s.cycles ≡ some row
  pub begun : is_draft row ≡ false
  pub later : rank c.phase ≤ rank row.phase
  pub scale : row.rating_scale ≡ c.rating_scale
  pub competencies : row.competencies ≡ c.competencies
  pub department : row.department_id ≡ c.department_id

-- What a save of a cycle must leave.
pub record IsForward (c new : ReviewCycle) : Type 0 where
  pub begun : is_draft new ≡ false
  pub later : rank c.phase ≤ rank new.phase
  pub scale : new.rating_scale ≡ c.rating_scale
  pub competencies : new.competencies ≡ c.competencies
  pub department : new.department_id ≡ c.department_id

module _ (c : ReviewCycle) (s : PerformanceStore) (h : IsLaunched c s) where
  -- Another store in which the cycle is found as it was.
  pub IsLaunched-again :
      (t : PerformanceStore) → cycle_at c.id t.cycles ≡ some h.row → IsLaunched c t
  IsLaunched-again t e = record {
    row = h.row;
    found = e;
    begun = h.begun;
    later = h.later;
    scale = h.scale;
    competencies = h.competencies;
    department = h.department;
  }

  -- A cycle that is a draft is another one.
  pub draft_is_other :
      (d : ReviewCycle)
      → cycle_at d.id s.cycles ≡ some d
      → is_draft d ≡ true
      → (d.id == c.id) ≡ false
  draft_is_other d e k = elim (Bool-cases (d.id == c.id)) [
    | inr n ↦ n
    | inl y ↦
        let same : cycle_at c.id s.cycles ≡ some d =
          subst (λ j. cycle_at j s.cycles ≡ some d) (==→eq d.id c.id y) e in
        ground (arith, sym h.found ∙ same, h.begun, k)
  ]

  save_step :
      (d new : ReviewCycle) (t : PerformanceStore)
      → cycle_at d.id s.cycles ≡ some d
      → new.id ≡ d.id
      → (is_draft d ≡ false → IsForward d new)
      → t.cycles ≡ saved ReviewCycle.id new s.cycles
      → IsLaunched c t
  save_step d new t e same fwd q = elim (Bool-cases (d.id == c.id)) [
    | inr n ↦
        let other : (new.id == c.id) ≡ false = ground (arith, n, same) in
        IsLaunched-again t (
          ap (cycle_at c.id) q
          ∙ row_at-saved_other ReviewCycle.id c.id s.cycles new other
          ∙ h.found)
    | inl y ↦
        let at_c : cycle_at c.id s.cycles ≡ some d =
          subst (λ j. cycle_at j s.cycles ≡ some d) (==→eq d.id c.id y) e in
        let is_row : d ≡ h.row = ground (arith, sym at_c ∙ h.found) in
        let f = fwd (ap is_draft is_row ∙ h.begun) in
        record {
          row = new;
          found =
              ap (cycle_at c.id) q
              ∙ row_at-saved ReviewCycle.id c.id s.cycles d new at_c (same ∙ ==→eq d.id c.id y);
          begun = f.begun;
          later = omega (arith, h.later, f.later, ap (λ (x : ReviewCycle). rank x.phase) is_row);
          scale = f.scale ∙ ap ReviewCycle.rating_scale is_row ∙ h.scale;
          competencies = f.competencies ∙ ap ReviewCycle.competencies is_row ∙ h.competencies;
          department = f.department ∙ ap ReviewCycle.department_id is_row ∙ h.department;
        }
  ]

  create_step : (dto : CreateCycle) (actor : ℕ) → IsLaunched c (create_cycle dto actor s).1
  create_step dto actor = create_cases s (IsLaunched c) h dto actor λ l.
      IsLaunched-again (add_cycle dto actor l s) (
        row_at-append ReviewCycle.id c.id s.cycles (new_cycle s.next_cycle_id dto l actor ∷ [])
          h.row h.found)

  update_step : (id : ℕ) (dto : UpdateCycle) → IsLaunched c (update_cycle id dto s).1
  update_step id dto = update_cases s (IsLaunched c) h id dto λ d new e k.
      let (same, phase, frozen) = check_update-kept dto d s new k in
      save_step d new (save_cycle new s) e same
        (λ b.
          let (l, m, n) = frozen b in
          record {
            begun = ap (λ p. phase_eq p CyclePhase.draft) phase ∙ b;
            later = omega (arith, ap rank phase);
            scale = l;
            competencies = m;
            department = n;
          })
        refl

  remove_step : (id : ℕ) → IsLaunched c (remove_cycle id s).1
  remove_step id = remove_cases s (IsLaunched c) h id λ d e k.
      let own = row_at-key ReviewCycle.id id s.cycles d e in
      let at_own : cycle_at d.id s.cycles ≡ some d =
        subst (λ j. cycle_at j s.cycles ≡ some d) (sym own) e in
      let other = draft_is_other d at_own k in
      IsLaunched-again (without_cycle id s)
        (row_at-dropped ReviewCycle.id c.id id s.cycles (ground (arith, other, own)) ∙ h.found)

  launch_step : (now id : ℕ) → IsLaunched c (launch now id s).1
  launch_step now id = launch_cases s (IsLaunched c) h now id λ d es e k.
      save_step d (launched now d) (commit_launch now d es s) e refl
        (λ b. absurd (ground (arith, b, k))) refl

  advance_step : (now id : ℕ) → IsLaunched c (advance now id s).1
  advance_step now id = advance_cases s (IsLaunched c) h now id λ d e a b.
      save_step d (advanced now d) (commit_advance now d s) e refl
        (λ _. record {
          begun = ground (arith, a);
          later = ground (arith, a, b);
          scale = refl;
          competencies = refl;
          department = refl;
        })
        refl

-- An edit of a review leaves the cycles.
edit_review-cycles :
    (id : ℕ) (check : ReviewDetail → Action PerformanceStore (Unit {0}))
    (change : ReviewDetail → Review) (s : PerformanceStore)
    → ((d : ReviewDetail) → (check d s).1 ≡ s)
    → (edit_review id check change s).1.cycles ≡ s.cycles
unfolding edit_review
edit_review-cycles id check change s reads =
    let P = λ (t : PerformanceStore). t.cycles ≡ s.cycles in
    check_then (find_review id) (λ d. check d >> modify (save_review (change d))) s P
      (find_review-store id s) refl
      λ d _.
        check_then (check d) (λ _. modify (save_review (change d))) s P (reads d) refl λ _ _. refl

-- Every operation leaves a launched cycle launched.
pub apply_op-IsLaunched :
    (o : ReviewOp) (c : ReviewCycle) (s : PerformanceStore)
    → IsLaunched c s
    → IsLaunched c (apply_op o s)
unfolding apply_op submit_self submit_manager calibrate acknowledge reassign_reviewer
apply_op-IsLaunched (create_op dto actor) c s h = create_step c s h dto actor
apply_op-IsLaunched (update_op id dto) c s h = update_step c s h id dto
apply_op-IsLaunched (remove_op id) c s h = remove_step c s h id
apply_op-IsLaunched (launch_op now id) c s h = launch_step c s h now id
apply_op-IsLaunched (advance_op now id) c s h = advance_step c s h now id
apply_op-IsLaunched (self_op now id dto actor) c s h =
    IsLaunched-again c s h (apply_op (self_op now id dto actor) s) (
      ap (cycle_at c.id) (
        edit_review-cycles id (check_self dto actor) (self_submitted now dto) s
          (λ d. check_self-store dto actor d s))
      ∙ h.found)
apply_op-IsLaunched (manager_op now id dto actor) c s h =
    IsLaunched-again c s h (apply_op (manager_op now id dto actor) s) (
      ap (cycle_at c.id) (
        edit_review-cycles id (check_manager dto actor) (manager_submitted now dto) s
          (λ d. check_manager-store dto actor d s))
      ∙ h.found)
apply_op-IsLaunched (calibrate_op id rating remark) c s h =
    IsLaunched-again c s h (apply_op (calibrate_op id rating remark) s) (
      ap (cycle_at c.id) (
        edit_review-cycles id (check_calibrate rating) (calibrated rating remark) s
          (λ d. check_calibrate-store rating d s))
      ∙ h.found)
apply_op-IsLaunched (acknowledge_op now id comment actor) c s h =
    IsLaunched-again c s h (apply_op (acknowledge_op now id comment actor) s) (
      ap (cycle_at c.id) (
        edit_review-cycles id (check_acknowledge actor) (acknowledged now comment) s
          (λ d. check_acknowledge-store actor d s))
      ∙ h.found)
apply_op-IsLaunched (reassign_op id login) c s h =
    IsLaunched-again c s h (apply_op (reassign_op id login) s) (
      ap (cycle_at c.id) (
        edit_review-cycles id (check_reviewer login) (reassigned login) s
          (λ d. check_reviewer-store login d s))
      ∙ h.found)
apply_op-IsLaunched (request_op id givers actor) c s h =
    IsLaunched-again c s h (apply_op (request_op id givers actor) s)
      (ap (cycle_at c.id) (request_feedback-SameRows id givers actor s).0 ∙ h.found)
apply_op-IsLaunched (answer_op now id answers actor) c s h =
    IsLaunched-again c s h (apply_op (answer_op now id answers actor) s)
      (ap (cycle_at c.id) (submit_feedback-SameRows now id answers actor s).0 ∙ h.found)
apply_op-IsLaunched (remind_op today) c s h =
    IsLaunched-again c s h (apply_op (remind_op today) s)
      (ap (cycle_at c.id) (send_reminders-SameRows today s).0 ∙ h.found)

-- Whatever sequence of the operations on cycles, reviews and feedback is asked for, a cycle that has
-- been launched is still there, in the phase that it had or a later one, with the same rating
-- scale, the same competencies and the same scope.
pub apply_ops-IsLaunched :
    (os : List ReviewOp) (c : ReviewCycle) (s : PerformanceStore)
    → IsLaunched c s
    → IsLaunched c (apply_ops os s)
unfolding apply_ops
apply_ops-IsLaunched [] c s h = h
apply_ops-IsLaunched (o ∷ os) c s h =
    apply_ops-IsLaunched os c (apply_op o s) (apply_op-IsLaunched o c s h)
