-- ===== src/Onboarding/Reminders/Once.antt =====
-- Nobody is reminded of a task twice on a day.
use ai_hr_sytem.Base.{
  ℕ, ◌≤◌, ◌≡◌, refl, sym, subst, ◌∙◌, ap, ◌⊎◌, inl, inr, arith, Bool, true, false, not, ◌&&◌, ◌||◌,
  some, List, [], ◌∷◌, ◌++◌, map, leb, ◌==◌, ==_refl, is_some, length, ok, select, any, includes,
  update_where, All, Bool-cases,
}
use ai_hr_sytem.Base.Groups.{group, put}
use ai_hr_sytem.Calendar.{IsoDate, add_days}
use ai_hr_sytem.Onboarding.Defs.{Checklist, ChecklistTask, OnboardingStore}
use ai_hr_sytem.Onboarding.Reminders.{
  is_due, is_fresh, insert_task, sort_tasks, assigned, assignee_of, join_task, by_user, send_digest,
  send_digests, due_tasks, send_reminders,
}

-- The task is in the list.
abbrev IsIn : ChecklistTask → List ChecklistTask → Type 0
IsIn t [] = ⊥
IsIn t (x ∷ xs) = (t ≡ x) ⊎ IsIn t xs

select-IsIn :
    (p : ChecklistTask → Bool) (t : ChecklistTask) (ts : List ChecklistTask)
    → p t ≡ true
    → IsIn t ts
    → IsIn t (select p ts)
select-IsIn p t [] k h = h
select-IsIn p t (x ∷ xs) k (inl e) = rw (ap p (sym e) ∙ k) (inl e)
select-IsIn p t (x ∷ xs) k (inr h) = elim (Bool-cases (p x)) [
  | inl y ↦ rw y (inr (select-IsIn p t xs k h))
  | inr y ↦ rw y (select-IsIn p t xs k h)
]

insert_task-IsIn :
    (t x : ChecklistTask) (xs : List ChecklistTask) → IsIn t (x ∷ xs) → IsIn t (insert_task x xs)
unfolding insert_task
insert_task-IsIn t x [] h = h
insert_task-IsIn t x (y ∷ ys) (inl e) = elim (Bool-cases (leb x.due_date y.due_date)) [
  | inl k ↦ rw k (inl e)
  | inr k ↦ rw k (inr (insert_task-IsIn t x ys (inl e)))
]
insert_task-IsIn t x (y ∷ ys) (inr (inl e)) = elim (Bool-cases (leb x.due_date y.due_date)) [
  | inl k ↦ rw k (inr (inl e))
  | inr k ↦ rw k (inl e)
]
insert_task-IsIn t x (y ∷ ys) (inr (inr h)) = elim (Bool-cases (leb x.due_date y.due_date)) [
  | inl k ↦ rw k (inr (inr h))
  | inr k ↦ rw k (inr (insert_task-IsIn t x ys (inr h)))
]

sort_tasks-IsIn : (t : ChecklistTask) (ts : List ChecklistTask) → IsIn t ts → IsIn t (sort_tasks ts)
unfolding sort_tasks
sort_tasks-IsIn t [] h = h
sort_tasks-IsIn t (x ∷ xs) (inl e) = insert_task-IsIn t x (sort_tasks xs) (inl e)
sort_tasks-IsIn t (x ∷ xs) (inr h) =
    insert_task-IsIn t x (sort_tasks xs) (inr (sort_tasks-IsIn t xs h))

-- The id is among those of the digests.
abbrev is_covered : ℕ → List (ℕ × List ChecklistTask) → Bool
is_covered id = any (λ (p : ℕ × List ChecklistTask). includes (map ChecklistTask.id p.1) id)

includes-append :
    (id : ℕ) (t : ChecklistTask) (ts : List ChecklistTask)
    → includes (map ChecklistTask.id (ts ++ t ∷ [])) id
      ≡ ((t.id == id) || includes (map ChecklistTask.id ts) id)
includes-append id t [] = refl
includes-append id t (x ∷ xs) = ground (arith, includes-append id t xs)

is_covered-put :
    (id : ℕ) (p : ℕ × ChecklistTask) (m : List (ℕ × List ChecklistTask))
    → is_covered id (put assignee_of (λ _. []) join_task p m) ≡ ((p.1.id == id) || is_covered id m)
unfolding put
is_covered-put id p [] = ground arith
is_covered-put id p ((k, ts) ∷ m) = ground (arith, is_covered-put id p m, includes-append id p.1 ts)

is_covered-group :
    (id : ℕ) (m : List (ℕ × List ChecklistTask)) (ps : List (ℕ × ChecklistTask))
    → is_covered id (group assignee_of (λ _. []) join_task m ps)
      ≡ (any (λ p. p.1.id == id) ps || is_covered id m)
unfolding group
is_covered-group id m [] = refl
is_covered-group id m (p ∷ ps) =
    is_covered-group id (put assignee_of (λ _. []) join_task p m) ps
    ∙ ground (arith, is_covered-put id p m)

assigned-IsIn :
    (t : ChecklistTask) (ts : List ChecklistTask)
    → is_some t.assignee_user_id ≡ true
    → IsIn t ts
    → any (λ p. p.1.id == t.id) (assigned ts) ≡ true
unfolding assigned
assigned-IsIn t [] k h = absurd h
assigned-IsIn t (x ∷ xs) k (inl e) =
    subst (λ y. any (λ p. p.1.id == t.id) (assigned (y ∷ xs)) ≡ true) e
      (ground (arith, k, ==_refl t.id))
assigned-IsIn t (x ∷ xs) k (inr h) = ground (arith, assigned-IsIn t xs k h)

-- Nobody is to be reminded of the task.
abbrev is_quiet : IsoDate → ℕ → ℕ → List Checklist → ChecklistTask → Bool
is_quiet today start_of_day horizon cs t =
    not (is_due (add_days today horizon) cs t && is_fresh start_of_day t)
    || not (is_some t.assignee_user_id)

module _ (today : IsoDate) (start_of_day now horizon : ℕ) (cs : List Checklist)
    (of_today : start_of_day ≤ now) where
  digest-quiet :
      (p : ℕ × List ChecklistTask) (ps : List (ℕ × List ChecklistTask)) (ts : List ChecklistTask)
      → All (λ t. (is_quiet today start_of_day horizon cs t || is_covered t.id (p ∷ ps)) ≡ true) ts
      → All
          (λ t. (is_quiet today start_of_day horizon cs t || is_covered t.id ps) ≡ true)
          (update_where
            (λ (t : ChecklistTask). includes (map ChecklistTask.id p.1) t.id)
            (λ (t : ChecklistTask). record t { last_reminded_at = some now })
            ts)
  digest-quiet p ps [] h = tt
  digest-quiet p ps (t ∷ ts) h = elim (Bool-cases (includes (map ChecklistTask.id p.1) t.id)) [
    | inl y ↦ rw y (ground (arith, of_today), digest-quiet p ps ts h.1)
    | inr y ↦ rw y (ground (arith, y, h.0), digest-quiet p ps ts h.1)
  ]

  digests-quiet :
      (ps : List (ℕ × List ChecklistTask)) (s : OnboardingStore)
      → All (λ t. (is_quiet today start_of_day horizon cs t || is_covered t.id ps) ≡ true) s.tasks
      → All
          (λ t. (is_quiet today start_of_day horizon cs t || false) ≡ true)
          (send_digests today now ps s).tasks
  unfolding send_digests
  digests-quiet [] s h = h
  digests-quiet (p ∷ ps) s h =
      digests-quiet ps (send_digest today now p s) (digest-quiet p ps s.tasks h)

  same_checklists :
      (ps : List (ℕ × List ChecklistTask)) (s : OnboardingStore)
      → (send_digests today now ps s).checklists ≡ s.checklists
  unfolding send_digests
  same_checklists [] s = refl
  same_checklists (p ∷ ps) s = same_checklists ps (send_digest today now p s)

  selected-quiet :
      (ts : List ChecklistTask)
      → All (λ t. (is_quiet today start_of_day horizon cs t || false) ≡ true) ts
      → All
          (λ t. (not (is_fresh start_of_day t) || not (is_some t.assignee_user_id)) ≡ true)
          (select (is_due (add_days today horizon) cs) ts)
  selected-quiet [] h = tt
  selected-quiet (t ∷ ts) h = elim (Bool-cases (is_due (add_days today horizon) cs t)) [
    | inl y ↦ rw y (ground (arith, y, h.0), selected-quiet ts h.1)
    | inr y ↦ rw y (selected-quiet ts h.1)
  ]

-- A property of tasks through the query's order.
insert_task-All :
    (P : ChecklistTask → Type 0) (x : ChecklistTask) (xs : List ChecklistTask)
    → P x
    → All P xs
    → All P (insert_task x xs)
unfolding insert_task
insert_task-All P x [] k h = (k, tt)
insert_task-All P x (y ∷ ys) k h = elim (Bool-cases (leb x.due_date y.due_date)) [
  | inl e ↦ rw e (k, h)
  | inr e ↦ rw e (h.0, insert_task-All P x ys k h.1)
]

sort_tasks-All :
    (P : ChecklistTask → Type 0) (ts : List ChecklistTask) → All P ts → All P (sort_tasks ts)
unfolding sort_tasks
sort_tasks-All P [] h = tt
sort_tasks-All P (x ∷ xs) h = insert_task-All P x (sort_tasks xs) h.0 (sort_tasks-All P xs h.1)

assigned-none :
    (start_of_day : ℕ) (ts : List ChecklistTask)
    → All (λ t. (not (is_fresh start_of_day t) || not (is_some t.assignee_user_id)) ≡ true) ts
    → assigned (select (is_fresh start_of_day) ts) ≡ []
unfolding assigned
assigned-none start_of_day [] h = refl
assigned-none start_of_day (t ∷ ts) h = ground (arith, h.0, assigned-none start_of_day ts h.1)

-- Every task of a list, from what holds of its members.
from_members :
    (P : ChecklistTask → Type 0) (ts : List ChecklistTask)
    → ((t : ChecklistTask) → IsIn t ts → P t)
    → All P ts
from_members P [] f = tt
from_members P (x ∷ xs) f = (f x (inl refl), from_members P xs (λ t h. f t (inr h)))

module _ (today : IsoDate) (start_of_day now horizon : ℕ) (s : OnboardingStore) where
  -- A task of which somebody is to be reminded is in one of the digests.
  first_covered :
      (t : ChecklistTask)
      → IsIn t s.tasks
      → (is_quiet today start_of_day horizon s.checklists t
          || is_covered t.id (by_user (due_tasks today start_of_day horizon s)))
        ≡ true
  unfolding by_user due_tasks
  first_covered t h =
      let due = is_due (add_days today horizon) s.checklists in
      elim (Bool-cases (is_quiet today start_of_day horizon s.checklists t)) [
        | inl y ↦ ground (arith, y)
        | inr y ↦
            let is_due_now : due t ≡ true = ground (arith, y) in
            let fresh : is_fresh start_of_day t ≡ true = ground (arith, y) in
            let owned : is_some t.assignee_user_id ≡ true = ground (arith, y) in
            let found =
              select-IsIn (is_fresh start_of_day) t (sort_tasks (select due s.tasks)) fresh
                (sort_tasks-IsIn t (select due s.tasks) (select-IsIn due t s.tasks is_due_now h)) in
            let rows = select (is_fresh start_of_day) (sort_tasks (select due s.tasks)) in
            ground
              (arith, is_covered-group t.id [] (assigned rows), assigned-IsIn t rows owned found)
      ]

  send_reminders_once :
      start_of_day ≤ now
      → by_user
          (due_tasks today start_of_day horizon (send_reminders today start_of_day now horizon s).1)
        ≡ []
  unfolding send_reminders by_user due_tasks group
  send_reminders_once of_today =
      let users = by_user (due_tasks today start_of_day horizon s) in
      let t = send_digests today now users s in
      let same = same_checklists today start_of_day now horizon s.checklists of_today users s in
      let due = λ (cs : List Checklist). is_due (add_days today horizon) cs in
      let after = digests-quiet today start_of_day now horizon s.checklists of_today users s (
        from_members
          (λ t.
            (is_quiet today start_of_day horizon s.checklists t || is_covered t.id users) ≡ true)
          s.tasks first_covered) in
      let quiet =
        sort_tasks-All
          (λ x. (not (is_fresh start_of_day x) || not (is_some x.assignee_user_id)) ≡ true)
          (select (due s.checklists) t.tasks)
          (selected-quiet today start_of_day now horizon s.checklists of_today t.tasks after) in
      ap
        (λ cs.
          group assignee_of (λ _. []) join_task []
            (assigned (select (is_fresh start_of_day) (sort_tasks (select (due cs) t.tasks)))))
        same
      ∙ ap (group assignee_of (λ _. []) join_task [])
          (assigned-none start_of_day (sort_tasks (select (due s.checklists) t.tasks)) quiet)

  -- When reminders were sent at or after the start of a day, a second run on that day, at any time
  -- and for the same horizon, sends none and changes nothing.
  pub send_reminders_twice :
      (later : ℕ)
      → start_of_day ≤ now
      → let t = (send_reminders today start_of_day now horizon s).1 in
        send_reminders today start_of_day later horizon t ≡ (ok 0, t)
  unfolding send_reminders send_digests
  send_reminders_twice later of_today =
      let t = (send_reminders today start_of_day now horizon s).1 in
      ap (λ users. (ok (length users), send_digests today later users t))
        (send_reminders_once of_today)
