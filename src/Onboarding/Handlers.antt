-- ===== src/Onboarding/Handlers.antt =====
-- The calls that change a task or end a checklist keep the checklists in order.
use ai_hr_sytem.Base.{
  ℕ, ◌<◌, ◌≡◌, refl, sym, subst, ◌∙◌, ap, inl, inr, arith, true, false, not, some, ◌==◌, ==→eq,
  Bool-cases, Action, bad_request, check_then, throw_if, throw_if-store, modify, ◌>>◌,
}
use ai_hr_sytem.Calendar.{IsoDate}
use ai_hr_sytem.Onboarding.Defs.{
  ChecklistStatus, is_in_progress, Checklist, ChecklistTask, OnboardingStore, AuthUser,
}
use ai_hr_sytem.Onboarding.Completion.{checklist_at, blocks, complete_if_finished}
use ai_hr_sytem.Onboarding.Tasks.{
  TaskDetail, task_at, load_task, UpdateTask, ReassignTask, check_task, changed_task, save_task,
  update_task, reassigned_task, has_assignee, reassign_task, find_checklist, mark_cancelled,
  cancel_checklist,
}
use ai_hr_sytem.Onboarding.Invariant.{is_finished, is_stamped, IsOrderly, ended-IsOrderly}
use ai_hr_sytem.Onboarding.Steps.{
  tasks-IsOrderly, finish-IsOrderly, load_task-store, load_task-ok, found-task, found-blocks,
  check_task-store, check_task-ok, All-after, blocked-after,
}

module _ (s : OnboardingStore) (h : IsOrderly s) where
  -- A task of a checklist that is not completed is saved.
  changed-IsOrderly :
      (new t : ChecklistTask) (id : ℕ)
      → task_at id s.tasks ≡ some t
      → new.checklist_id ≡ t.checklist_id
      → is_stamped new ≡ true
      → ((i : ℕ) (c : Checklist)
          → checklist_at i s.checklists ≡ some c
          → is_finished c.status ≡ true
          → blocks i new ≡ false)
      → IsOrderly (save_task new s)
  changed-IsOrderly new t id at_id same stamped clear =
      let below = λ (x : ChecklistTask). x.checklist_id < s.next_checklist_id in
      tasks-IsOrderly s (save_task new s) h refl refl
        (λ i c hi p. blocked-after new i s.tasks (clear i c hi p) (h.finished i c hi p))
        (All-after new below s.tasks
          (omega (arith, same, found-task below id s.tasks t at_id h.owned)) h.owned)
        (All-after new (λ x. is_stamped x ≡ true) s.tasks stamped h.stamped)

  pub update_task-IsOrderly :
      (now : ℕ) (today : IsoDate) (id : ℕ) (dto : UpdateTask) (actor : AuthUser)
      → IsOrderly (update_task now today id dto actor s).1
  unfolding update_task complete_if_finished
  update_task-IsOrderly now today id dto actor =
      check_then (load_task id) (acted now today dto actor) s IsOrderly (load_task-store id s) h
        λ d e.
          check_then (check_task actor d) (λ _. saved_and_finished now today dto actor d) s
            IsOrderly (check_task-store actor d s) h
            λ t k.
              let (at_id, at_list) = load_task-ok id s d e in
              let new = changed_task now actor.id dto d.task in
              let running = check_task-ok actor d s t k in
              let s' = save_task new s in
              finish-IsOrderly now today (checklist_at d.task.checklist_id s.checklists) s' (
                changed-IsOrderly new d.task id at_id (same_list now actor.id dto d.task)
                  (restamped now actor.id dto d.task
                    (found-task (λ x. is_stamped x ≡ true) id s.tasks d.task at_id h.stamped))
                  (λ i c hi p. elim (Bool-cases (new.checklist_id == i)) [
                    | inr n ↦ ground (arith, n)
                    | inl y ↦
                        let own : checklist_at i s.checklists ≡ some d.checklist =
                          subst (λ j. checklist_at j s.checklists ≡ some d.checklist)
                            (sym (same_list now actor.id dto d.task) ∙ ==→eq new.checklist_id i y)
                            at_list in
                        let twin : d.checklist ≡ c = ground (arith, sym own ∙ hi) in
                        absurd (ground (arith, ap Checklist.status twin, running, p))
                  ]))
    where
      same_list :
          (now actor : ℕ) (dto : UpdateTask) (t : ChecklistTask)
          → (changed_task now actor dto t).checklist_id ≡ t.checklist_id
      same_list now actor dto t = ground arith

      restamped :
          (now actor : ℕ) (dto : UpdateTask) (t : ChecklistTask)
          → is_stamped t ≡ true
          → is_stamped (changed_task now actor dto t) ≡ true
      restamped now actor dto t k = ground (arith, k)

      saved_and_finished :
          ℕ → IsoDate → UpdateTask → AuthUser → TaskDetail → Action OnboardingStore (Unit {0})
      saved_and_finished now today dto actor d =
          modify (save_task (changed_task now actor.id dto d.task))
          >> complete_if_finished now today d.task.checklist_id

      acted : ℕ → IsoDate → UpdateTask → AuthUser → TaskDetail → Action OnboardingStore (Unit {0})
      acted now today dto actor d = check_task actor d >> saved_and_finished now today dto actor d

  pub reassign_task-IsOrderly : (id : ℕ) (dto : ReassignTask) → IsOrderly (reassign_task id dto s).1
  unfolding reassign_task
  reassign_task-IsOrderly id dto =
      check_then (load_task id) (reassigned dto) s IsOrderly (load_task-store id s) h λ d e.
        let b = not (has_assignee (reassigned_task dto d.task)) in
        let x = bad_request "A task needs a user or a role assignee" in
        check_then (throw_if b x) (λ _. modify (save_task (reassigned_task dto d.task))) s IsOrderly
          (throw_if-store b x s) h
          λ _ _.
            let (at_id, _) = load_task-ok id s d e in
            changed-IsOrderly (reassigned_task dto d.task) d.task id at_id refl
              (found-task (λ y. is_stamped y ≡ true) id s.tasks d.task at_id h.stamped)
              (λ i c hi p. found-blocks i id s.tasks d.task at_id (h.finished i c hi p))
    where
      reassigned : ReassignTask → TaskDetail → Action OnboardingStore (Unit {0})
      reassigned dto d =
          throw_if (not (has_assignee (reassigned_task dto d.task)))
            (bad_request "A task needs a user or a role assignee")
          >> modify (save_task (reassigned_task dto d.task))

  find_checklist-store : (id : ℕ) → (find_checklist id s).1 ≡ s
  unfolding find_checklist
  find_checklist-store id = ground arith

  pub cancel_checklist-IsOrderly : (id : ℕ) → IsOrderly (cancel_checklist id s).1
  unfolding cancel_checklist
  cancel_checklist-IsOrderly id =
      check_then (find_checklist id) (ended_by id) s IsOrderly (find_checklist-store id) h λ c _.
        let b = not (is_in_progress c.status) in
        let x = bad_request "Checklist is not in progress" in
        check_then (throw_if b x) (λ _. modify (mark_cancelled id)) s IsOrderly
          (throw_if-store b x s) h
          λ _ _.
            let f = λ (y : Checklist). record y { status = ChecklistStatus.cancelled } in
            ended-IsOrderly id f (λ _. refl) (λ _. refl) s h (mark_cancelled id s) refl refl refl
              (λ y _ p. absurd (ground (arith, p)))
    where
      ended_by : ℕ → Checklist → Action OnboardingStore (Unit {0})
      ended_by id c =
          throw_if (not (is_in_progress c.status)) (bad_request "Checklist is not in progress")
          >> modify (mark_cancelled id)
