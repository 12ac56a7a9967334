-- ===== src/Onboarding/Reminders.antt =====
-- src/modules/onboarding/onboarding.service.ts, sendReminders: one digest for each assignee, at most once
-- a day for each task. The time at which the day began is a parameter beside the date, since both
-- come from the clock.
use ai_hr_sytem.Base.{
  ℕ, Bool, true, false, ◌&&◌, none, some, List, [], ◌∷◌, ◌++◌, map, ltb, leb, if◌then◌else◌, select,
  includes, update_where, length, Action, ok,
}
use ai_hr_sytem.Base.Groups.{group}
use ai_hr_sytem.Calendar.{IsoDate, add_days}
use ai_hr_sytem.Onboarding.Defs.{
  is_in_progress, is_open_status, Checklist, ChecklistTask, TasksDue, OnboardingStore,
}
use ai_hr_sytem.Onboarding.Completion.{checklist_at}
pub mod Once

-- The task's checklist is in progress.
abbrev pub is_under_way : List Checklist → ChecklistTask → Bool
is_under_way cs t = elim (checklist_at t.checklist_id cs) [
  | none ↦ false
  | some c ↦ is_in_progress c.status
]

-- The query, and the filter on what was reminded of today.
abbrev pub is_due : IsoDate → List Checklist → ChecklistTask → Bool
is_due cutoff cs t = is_open_status t.status && leb t.due_date cutoff && is_under_way cs t

abbrev pub is_fresh : ℕ → ChecklistTask → Bool
is_fresh start_of_day t = elim t.last_reminded_at [ none ↦ true | some at ↦ ltb at start_of_day ]

-- `order: { dueDate: 'ASC' }`
unfoldable pub insert_task : ChecklistTask → List ChecklistTask → List ChecklistTask
insert_task t [] = t ∷ []
insert_task t (x ∷ xs) =
    let rest = insert_task t xs in if leb t.due_date x.due_date then t ∷ x ∷ xs else x ∷ rest

unfoldable pub sort_tasks : List ChecklistTask → List ChecklistTask
sort_tasks [] = []
sort_tasks (x ∷ xs) = insert_task x (sort_tasks xs)

-- The tasks that have a login to remind.
unfoldable pub assigned : List ChecklistTask → List (ℕ × ChecklistTask)
assigned [] = []
assigned (t ∷ ts) =
    let rest = assigned ts in
    elim t.assignee_user_id [ none ↦ rest | some login ↦ (login, t) ∷ rest ]

abbrev pub assignee_of : ℕ × ChecklistTask → ℕ
assignee_of p = p.0

abbrev pub join_task : ℕ × ChecklistTask → List ChecklistTask → List ChecklistTask
join_task p ts = ts ++ p.1 ∷ []

-- `byUser`
unfoldable pub by_user : List ChecklistTask → List (ℕ × List ChecklistTask)
unfolding group
by_user ts = group assignee_of (λ _. []) join_task [] (assigned ts)

abbrev pub digest_of : IsoDate → ℕ × List ChecklistTask → TasksDue
digest_of today (login, ts) = record {
  user_id = login;
  tasks = map ChecklistTask.id ts;
  overdue = length (select (λ (t : ChecklistTask). ltb t.due_date today) ts);
}

-- The body of the last loop: the digest is queued and its tasks are marked.
abbrev pub send_digest : IsoDate → ℕ → ℕ × List ChecklistTask → OnboardingStore → OnboardingStore
send_digest today now p s = record s {
  digests = s.digests ++ digest_of today p ∷ [];
  tasks =
      update_where (λ (t : ChecklistTask). includes (map ChecklistTask.id p.1) t.id)
        (λ (t : ChecklistTask). record t { last_reminded_at = some now }) s.tasks;
}

unfoldable pub send_digests :
    IsoDate → ℕ → List (ℕ × List ChecklistTask) → OnboardingStore → OnboardingStore
send_digests today now [] s = s
send_digests today now (p ∷ ps) s = send_digests today now ps (send_digest today now p s)

unfoldable pub due_tasks : IsoDate → ℕ → ℕ → OnboardingStore → List ChecklistTask
due_tasks today start_of_day horizon s =
    select (is_fresh start_of_day)
      (sort_tasks (select (is_due (add_days today horizon) s.checklists) s.tasks))

-- `sendReminders`; it answers with the number of digests.
unfoldable pub send_reminders : IsoDate → ℕ → ℕ → ℕ → Action OnboardingStore ℕ
send_reminders today start_of_day now horizon s =
    let users = by_user (due_tasks today start_of_day horizon s) in
    (ok (length users), send_digests today now users s)
