-- ===== src/Onboarding/Progress/Completes.antt =====
-- When an update completes a checklist, told by the progress that is shown of it.
use ai_hr_sytem.Base.{
  ℕ, ◌≡◌, refl, sym, ap, subst, ◌∙◌, arith, Bool, true, false, ◌&&◌, some, List, [], ◌∷◌, ◌==◌,
  ==→eq, select, length, update_where, Bool-cases, inl, inr,
}
use ai_hr_sytem.Calendar.{IsoDate}
use ai_hr_sytem.Onboarding.Defs.{
  ChecklistStatus, is_in_progress, Checklist, TaskStatus, ChecklistTask, OnboardingStore,
}
use ai_hr_sytem.Onboarding.Completion.{
  checklist_at, mark_completed, complete, is_blocked, finish, complete_if_finished,
}
use ai_hr_sytem.Onboarding.Steps.{after_completion-Keeps}
use ai_hr_sytem.Onboarding.Progress.{is_closed, progress_of, tasks_of, finished_iff_progress}

-- A required task of which nothing is left to do.
abbrev pub is_over : ChecklistTask → Bool
is_over t = t.is_required && elim t.status [
  | TaskStatus.pending ↦ false
  | TaskStatus.in_progress ↦ false
  | TaskStatus.done ↦ true
  | TaskStatus.skipped ↦ true
]

abbrev pub completed_now : ℕ → Checklist → Checklist
completed_now now c = record c { status = ChecklistStatus.completed; completed_at = some now }

over-length :
    (ts : List ChecklistTask)
    → length (select is_closed (select ChecklistTask.is_required ts)) ≡ length (select is_over ts)
over-length [] = refl
over-length (t ∷ ts) = ground (arith, over-length ts)

found_id : (id : ℕ) (cs : List Checklist) (c : Checklist) → checklist_at id cs ≡ some c → c.id ≡ id
found_id id [] c h = absurd (ground arith)
found_id id (x ∷ xs) c h = elim (Bool-cases (x.id == id)) [
  | inl e ↦ ground (arith, e, h, ==→eq x.id id)
  | inr e ↦ found_id id xs c (ground (arith, e, h))
]

marked_at :
    (now id : ℕ) (cs : List Checklist) (c : Checklist)
    → checklist_at id cs ≡ some c
    → checklist_at id (update_where (λ (x : Checklist). x.id == id) (completed_now now) cs)
      ≡ some (completed_now now c)
marked_at now id [] c h = absurd (ground arith)
marked_at now id (x ∷ xs) c h = ground (arith, h, marked_at now id xs c)

-- The row of the checklist after `complete`.
completed_at :
    (now : ℕ) (today : IsoDate) (id : ℕ) (c : Checklist) (s : OnboardingStore)
    → checklist_at id s.checklists ≡ some c
    → checklist_at id (complete now today c s).1.checklists ≡ some (completed_now now c)
unfolding complete
completed_at now today id c s h =
    ap (checklist_at id)
      (after_completion-Keeps today c.type c.employee_id (mark_completed now c s)).0
    ∙ subst
        (λ v.
          checklist_at id
            (update_where (λ (x : Checklist). x.id == v) (completed_now now) s.checklists)
          ≡ some (completed_now now c))
        (sym (found_id id s.checklists c h)) (marked_at now id s.checklists c h)

finish-open :
    (now : ℕ) (today : IsoDate) (c : Checklist) (ts : List ChecklistTask) (s : OnboardingStore)
    → is_in_progress c.status ≡ true
    → (is_blocked c.id ts ≡ true → (finish now today (some c) ts s).1 ≡ s)
      × (is_blocked c.id ts ≡ false → finish now today (some c) ts s ≡ complete now today c s)
unfolding finish
finish-open now today c ts s k = (λ b. rw (k, b) refl, λ b. rw (k, b) refl)

-- For a checklist in progress: the required tasks that its progress counts as done are those that
-- are done or skipped; where they are all of the required ones, completeIfFinished marks it as
-- completed at this instant, and otherwise it changes nothing.
pub complete_if_finished_follows :
    (percentage : ℕ → ℕ → ℕ) (now : ℕ) (today : IsoDate) (id : ℕ) (c : Checklist)
    (s : OnboardingStore)
    → checklist_at id s.checklists ≡ some c
    → is_in_progress c.status ≡ true
    → let own = tasks_of id s.tasks in
      let p = progress_of percentage today own in
      let u = (complete_if_finished now today id s).1 in
      (p.required_done ≡ length (select is_over own))
      × (p.required_done ≡ p.required → checklist_at id u.checklists ≡ some (completed_now now c))
      × (¬ (p.required_done ≡ p.required) → u ≡ s)
unfolding complete_if_finished progress_of
complete_if_finished_follows percentage now today id c s h k =
    let own : c.id ≡ id = found_id id s.checklists c h in
    let (all_done, none_open) = finished_iff_progress percentage today id s.tasks in
    let (stays, goes) = finish-open now today c s.tasks s k in
    let start : complete_if_finished now today id s ≡ finish now today (some c) s.tasks s =
      ap (λ o. finish now today o s.tasks s) h in
    (
      over-length (tasks_of id s.tasks),
      λ e.
          ap (λ x. checklist_at id x.1.checklists)
            (start ∙ goes (ap (λ v. is_blocked v s.tasks) own ∙ none_open e))
          ∙ completed_at now today id c s h,
      λ e. elim (Bool-cases (is_blocked id s.tasks)) [
        | inl b ↦ ap (λ x. x.1) start ∙ stays (ap (λ v. is_blocked v s.tasks) own ∙ b)
        | inr b ↦ absurd (e (all_done b))
      ],
    )
