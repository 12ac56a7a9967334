-- ===== src/Onboarding/Steps.antt =====
-- The steps of the handlers keep the checklists in order.
use ai_hr_sytem.Base.{
  ℕ, ◌<◌, ◌≡◌, refl, sym, subst, ◌∙◌, ap, inl, inr, arith, true, false, not, ◌||◌, Option, none,
  some, List, [], ◌∷◌, ◌==◌, update_where, All, Bool-cases, Result-cases, >>=_ok, >>=_err, Action,
  ok, ◌>>=◌,
}
use ai_hr_sytem.Calendar.{IsoDate}
use ai_hr_sytem.Employees.{Employee, Company, find_by_id}
use ai_hr_sytem.Onboarding.Defs.{
  ChecklistType, ChecklistStatus, is_in_progress, Checklist, ChecklistTask, OnboardingStore,
  AuthUser,
}
use ai_hr_sytem.Onboarding.Completion.{
  on_employees, checklist_at, mark_completed, activate, after_completion, complete, blocks,
  is_blocked, finish,
}
use ai_hr_sytem.Onboarding.Tasks.{TaskDetail, task_at, load_task, check_task}
use ai_hr_sytem.Onboarding.Invariant.{is_finished, is_stamped, IsOrderly, ended-IsOrderly}

-- The same checklists and tasks.
abbrev pub SameRows : OnboardingStore → OnboardingStore → Type 0
SameRows s t =
    (t.checklists ≡ s.checklists)
    × (t.tasks ≡ s.tasks)
    × (t.next_checklist_id ≡ s.next_checklist_id)

abbrev pub Keeps : {A : Type 0} → Action OnboardingStore A → Type 0
Keeps m = (s : OnboardingStore) → SameRows s (m s).1

>>=-Keeps :
    {A B : Type 0} (m : Action OnboardingStore A) (f : A → Action OnboardingStore B)
    → Keeps m
    → ((a : A) → Keeps (f a))
    → Keeps (m >>= f)
>>=-Keeps {A = A} m f h k s =
    let t = (m s).1 in
    let (a, b, c) = h s in
    elim (Result-cases (m s).0) [
      | inl (x, e) ↦
          let (a', b', c') = k x t in
          subst (SameRows s) (sym (ap (λ p. p.1) (>>=_ok m f s t x (λ i. (e i, t)))))
            (a' ∙ a, b' ∙ b, c' ∙ c)
      | inr (x, e) ↦
          subst (SameRows s) (sym (ap (λ p. p.1) (>>=_err m f s t x (λ i. (e i, t))))) (a, b, c)
    ]

pub on_employees-Keeps : {A : Type 0} (m : Action Company A) → Keeps (on_employees m)
on_employees-Keeps m s = (refl, refl, refl)

activate-Keeps : (today : IsoDate) (id : ℕ) (e : Employee) → Keeps (activate today id e)
unfolding activate
activate-Keeps today id e s = (ground arith, ground arith, ground arith)

pub after_completion-Keeps :
    (today : IsoDate) (type : ChecklistType) (id : ℕ) → Keeps (after_completion today type id)
unfolding after_completion
after_completion-Keeps today ChecklistType.offboarding id s = (refl, refl, refl)
after_completion-Keeps today ChecklistType.onboarding id s =
    >>=-Keeps (on_employees (find_by_id id)) (λ e. activate today id e)
      (on_employees-Keeps (find_by_id id)) (λ e. activate-Keeps today id e) s

pub tasks-IsOrderly :
    (s t : OnboardingStore)
    → IsOrderly s
    → t.checklists ≡ s.checklists
    → t.next_checklist_id ≡ s.next_checklist_id
    → ((i : ℕ) (c : Checklist)
        → checklist_at i s.checklists ≡ some c
        → is_finished c.status ≡ true
        → is_blocked i t.tasks ≡ false)
    → All (λ (x : ChecklistTask). x.checklist_id < s.next_checklist_id) t.tasks
    → All (λ x. is_stamped x ≡ true) t.tasks
    → IsOrderly t
tasks-IsOrderly s t h rows next clear owned stamped = record {
  single = λ i j c d hi hj.
      h.single i j c d (ap (checklist_at i) (sym rows) ∙ hi) (ap (checklist_at j) (sym rows) ∙ hj);
  finished = λ i c hi. clear i c (ap (checklist_at i) (sym rows) ∙ hi);
  numbered = λ i c hi. omega (arith, h.numbered i c (ap (checklist_at i) (sym rows) ∙ hi), next);
  owned = subst (λ n. All (λ (x : ChecklistTask). x.checklist_id < n) t.tasks) (sym next) owned;
  stamped = stamped;
}

pub SameRows-IsOrderly : (s t : OnboardingStore) → IsOrderly s → SameRows s t → IsOrderly t
SameRows-IsOrderly s t h (rows, tasks, next) =
    tasks-IsOrderly s t h rows next (λ i c hi p. ap (is_blocked i) tasks ∙ h.finished i c hi p)
      (subst (All (λ (x : ChecklistTask). x.checklist_id < s.next_checklist_id)) (sym tasks)
        h.owned)
      (subst (All (λ x. is_stamped x ≡ true)) (sym tasks) h.stamped)

-- A checklist with nothing required left open can be completed.
pub complete-IsOrderly :
    (now : ℕ) (today : IsoDate) (c : Checklist) (s : OnboardingStore)
    → IsOrderly s
    → is_blocked c.id s.tasks ≡ false
    → IsOrderly (complete now today c s).1
unfolding complete
complete-IsOrderly now today c s h clear =
    let f =
      λ (x : Checklist). record x { status = ChecklistStatus.completed; completed_at = some now } in
    SameRows-IsOrderly (mark_completed now c s)
      (after_completion today c.type c.employee_id (mark_completed now c s)).1
      (ended-IsOrderly c.id f (λ _. refl) (λ _. refl) s h (mark_completed now c s) refl refl refl
        (λ _ _ _. clear))
      (after_completion-Keeps today c.type c.employee_id (mark_completed now c s))

pub finish-IsOrderly :
    (now : ℕ) (today : IsoDate) (o : Option Checklist) (s : OnboardingStore)
    → IsOrderly s
    → IsOrderly (finish now today o s.tasks s).1
unfolding finish
finish-IsOrderly now today none s h = h
finish-IsOrderly now today (some c) s h =
    elim (Bool-cases (not (is_in_progress c.status) || is_blocked c.id s.tasks)) [
      | inl b ↦ subst IsOrderly (ground (arith, b)) h
      | inr b ↦
          subst IsOrderly (ground (arith, b))
            (complete-IsOrderly now today c s h (ground (arith, b)))
    ]

-- The rows of the tasks after one is saved.
module _ (new : ChecklistTask) where
  abbrev pub after : List ChecklistTask → List ChecklistTask
  after = update_where (λ (x : ChecklistTask). x.id == new.id) (λ _. new)

  pub All-after :
      (P : ChecklistTask → Type 0) (ts : List ChecklistTask) → P new → All P ts → All P (after ts)
  All-after P [] k h = tt
  All-after P (t ∷ ts) k h = elim (Bool-cases (t.id == new.id)) [
    | inl e ↦ rw e (k, All-after P ts k h.1)
    | inr e ↦ rw e (h.0, All-after P ts k h.1)
  ]

  pub blocked-after :
      (i : ℕ) (ts : List ChecklistTask)
      → blocks i new ≡ false
      → is_blocked i ts ≡ false
      → is_blocked i (after ts) ≡ false
  blocked-after i [] k h = refl
  blocked-after i (t ∷ ts) k h = ground (arith, k, h, blocked-after i ts k)

pub load_task-store : (id : ℕ) (s : OnboardingStore) → (load_task id s).1 ≡ s
unfolding load_task
load_task-store id s = ground arith

pub load_task-ok :
    (id : ℕ) (s : OnboardingStore) (d : TaskDetail)
    → (load_task id s).0 ≡ ok d
    → (task_at id s.tasks ≡ some d.task)
      × (checklist_at d.task.checklist_id s.checklists ≡ some d.checklist)
unfolding load_task
load_task-ok id s d h = (ground (arith, h), ground (arith, h))

pub found-task :
    (P : ChecklistTask → Type 0) (id : ℕ) (ts : List ChecklistTask) (t : ChecklistTask)
    → task_at id ts ≡ some t
    → All P ts
    → P t
found-task P id [] t e a = absurd (ground arith)
found-task P id (x ∷ xs) t e a = elim (Bool-cases (x.id == id)) [
  | inl k ↦ subst P (ground (arith, k, e)) a.0
  | inr k ↦ found-task P id xs t (ground (arith, k, e)) a.1
]

pub found-blocks :
    (i id : ℕ) (ts : List ChecklistTask) (t : ChecklistTask)
    → task_at id ts ≡ some t
    → is_blocked i ts ≡ false
    → blocks i t ≡ false
found-blocks i id [] t e h = absurd (ground arith)
found-blocks i id (x ∷ xs) t e h = ground (arith, e, h, found-blocks i id xs t)

pub check_task-store :
    (actor : AuthUser) (d : TaskDetail) (s : OnboardingStore) → (check_task actor d s).1 ≡ s
unfolding check_task
check_task-store actor d s = ground arith

pub check_task-ok :
    (actor : AuthUser) (d : TaskDetail) (s : OnboardingStore) (t : Unit {0})
    → (check_task actor d s).0 ≡ ok t
    → is_in_progress d.checklist.status ≡ true
unfolding check_task
check_task-ok actor d s t h = ground (arith, h)
