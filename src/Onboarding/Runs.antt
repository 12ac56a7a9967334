-- ===== src/Onboarding/Runs.antt =====
-- The onboarding service through any sequence of its operations.
use ai_hr_sytem.Base.{
  ℕ, ◌<◌, ◌≡◌, refl, ◌∙◌, inl, inr, arith, Bool, true, some, List, [], ◌∷◌, update_where, All,
  Bool-cases, includes, map,
}
use ai_hr_sytem.Calendar.{IsoDate}
use ai_hr_sytem.Onboarding.Defs.{ChecklistType, ChecklistTask, OnboardingStore, AuthUser}
use ai_hr_sytem.Onboarding.Completion.{is_blocked}
use ai_hr_sytem.Onboarding.Start.{StartOptions, start, on_created, on_terminated}
use ai_hr_sytem.Onboarding.Tasks.{
  UpdateTask, ReassignTask, update_task, reassign_task, cancel_checklist,
}
use ai_hr_sytem.Onboarding.Reminders.{send_digest, send_digests, send_reminders, by_user, due_tasks}
use ai_hr_sytem.Onboarding.Invariant.{is_stamped, IsOrderly}
use ai_hr_sytem.Onboarding.Steps.{tasks-IsOrderly}
use ai_hr_sytem.Onboarding.Handlers.{
  update_task-IsOrderly, reassign_task-IsOrderly, cancel_checklist-IsOrderly,
}
use ai_hr_sytem.Onboarding.Starts.{start-IsOrderly, start_for-IsOrderly}

-- The mark of a reminder changes no more than the mark.
module _ (now : ℕ) (p : ChecklistTask → Bool) where
  abbrev marked : List ChecklistTask → List ChecklistTask
  marked = update_where p (λ (t : ChecklistTask). record t { last_reminded_at = some now })

  marked-All :
      (P : ChecklistTask → Type 0) (ts : List ChecklistTask)
      → ((t : ChecklistTask) → P t → P (record t { last_reminded_at = some now }))
      → All P ts
      → All P (marked ts)
  marked-All P [] f h = tt
  marked-All P (t ∷ ts) f h = elim (Bool-cases (p t)) [
    | inl e ↦ rw e (f t h.0, marked-All P ts f h.1)
    | inr e ↦ rw e (h.0, marked-All P ts f h.1)
  ]

  marked-blocked : (i : ℕ) (ts : List ChecklistTask) → is_blocked i (marked ts) ≡ is_blocked i ts
  marked-blocked i [] = refl
  marked-blocked i (t ∷ ts) = ground (arith, marked-blocked i ts)

send_digest-IsOrderly :
    (today : IsoDate) (now : ℕ) (p : ℕ × List ChecklistTask) (s : OnboardingStore)
    → IsOrderly s
    → IsOrderly (send_digest today now p s)
send_digest-IsOrderly today now p s h =
    let test = λ (t : ChecklistTask). includes (map ChecklistTask.id p.1) t.id in
    tasks-IsOrderly s (send_digest today now p s) h refl refl
      (λ i c hi k. marked-blocked now test i s.tasks ∙ h.finished i c hi k)
      (marked-All now test (λ t. t.checklist_id < s.next_checklist_id) s.tasks (λ _ k. k) h.owned)
      (marked-All now test (λ t. is_stamped t ≡ true) s.tasks (λ _ k. k) h.stamped)

send_digests-IsOrderly :
    (today : IsoDate) (now : ℕ) (ps : List (ℕ × List ChecklistTask)) (s : OnboardingStore)
    → IsOrderly s
    → IsOrderly (send_digests today now ps s)
unfolding send_digests
send_digests-IsOrderly today now [] s h = h
send_digests-IsOrderly today now (p ∷ ps) s h =
    send_digests-IsOrderly today now ps (send_digest today now p s)
      (send_digest-IsOrderly today now p s h)

-- A call of the service; the clock is read by every call.
pub data OnboardingCall : Type 0 where
  starts : ℕ → IsoDate → ℕ → ChecklistType → StartOptions → OnboardingCall
  updates : ℕ → IsoDate → ℕ → UpdateTask → AuthUser → OnboardingCall
  reassigns : ℕ → ReassignTask → OnboardingCall
  cancels : ℕ → OnboardingCall
  reminds : IsoDate → ℕ → ℕ → ℕ → OnboardingCall
  joins : ℕ → IsoDate → ℕ → IsoDate → ℕ → OnboardingCall
  leaves : ℕ → IsoDate → ℕ → IsoDate → ℕ → OnboardingCall

unfoldable pub serve : OnboardingCall → OnboardingStore → OnboardingStore
serve (starts now today employee type opts) s = (start now today employee type opts s).1
serve (updates now today id dto actor) s = (update_task now today id dto actor s).1
serve (reassigns id dto) s = (reassign_task id dto s).1
serve (cancels id) s = (cancel_checklist id s).1
serve (reminds today start_of_day now horizon) s =
    (send_reminders today start_of_day now horizon s).1
serve (joins now today employee hire_date actor) s = on_created now today employee hire_date actor s
serve (leaves now today employee termination_date actor) s =
    on_terminated now today employee termination_date actor s

unfoldable pub serve_all : List OnboardingCall → OnboardingStore → OnboardingStore
serve_all [] s = s
serve_all (call ∷ calls) s = serve_all calls (serve call s)

serve-IsOrderly :
    (call : OnboardingCall) (s : OnboardingStore) → IsOrderly s → IsOrderly (serve call s)
unfolding serve send_reminders on_created on_terminated
serve-IsOrderly (starts now today employee type opts) s h =
    start-IsOrderly now today employee type opts s h
serve-IsOrderly (updates now today id dto actor) s h =
    update_task-IsOrderly s h now today id dto actor
serve-IsOrderly (reassigns id dto) s h = reassign_task-IsOrderly s h id dto
serve-IsOrderly (cancels id) s h = cancel_checklist-IsOrderly s h id
serve-IsOrderly (reminds today start_of_day now horizon) s h =
    send_digests-IsOrderly today now (by_user (due_tasks today start_of_day horizon s)) s h
serve-IsOrderly (joins now today employee hire_date actor) s h =
    start_for-IsOrderly now today _ employee s h
serve-IsOrderly (leaves now today employee termination_date actor) s h =
    start-IsOrderly now today employee ChecklistType.offboarding _ s h

-- Whatever calls are served, in any order and whether they succeed or fail: no employee has two
-- checklists of the same kind in progress, no completed checklist has a required task that is
-- still open, and a task has a time of completion exactly when it is done or skipped.
pub serve_all-IsOrderly :
    (calls : List OnboardingCall) (s : OnboardingStore)
    → IsOrderly s
    → IsOrderly (serve_all calls s)
unfolding serve_all
serve_all-IsOrderly [] s h = h
serve_all-IsOrderly (call ∷ calls) s h =
    serve_all-IsOrderly calls (serve call s) (serve-IsOrderly call s h)
