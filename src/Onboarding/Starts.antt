-- ===== src/Onboarding/Starts.antt =====
-- The start of a checklist keeps the checklists in order.
use ai_hr_sytem.Base.{
  ℕ, suc, ◌<◌, ◌≡◌, refl, sym, subst, ap, inl, inr, arith, true, false, not, Option, none, some,
  List, [], ◌∷◌, ◌++◌, ◌==◌, any, length, All, Bool-cases, Result-cases, >>=_ok, >>=_err,
  if◌then◌else◌, Action, bad_request, conflict, check_then, throw_if, throw_if-store, throw_if-ok,
  modify, gets, pure, ◌>>=◌, ◌>>◌,
}
use ai_hr_sytem.Calendar.{IsoDate}
use ai_hr_sytem.Employees.{Employee, find_by_id, status_eq, EmployeeStatus}
use ai_hr_sytem.Onboarding.Defs.{
  ChecklistType, type_eq, Checklist, ChecklistTask, ChecklistTemplate, ChecklistTemplateItem,
  OnboardingStore,
}
use ai_hr_sytem.Onboarding.Completion.{on_employees, complete}
use ai_hr_sytem.Onboarding.Start.{
  StartOptions, find_template, is_running, new_tasks, new_checklist, anchor_of, add_checklist,
  announce, start_with, start_from, choose_template, start, start_for,
}
use ai_hr_sytem.Onboarding.Invariant.{
  is_stamped, IsOrderly, add_checklist-IsOrderly, not_blocked_yet, All-append,
}
use ai_hr_sytem.Onboarding.Steps.{Keeps, SameRows-IsOrderly, complete-IsOrderly}

new_tasks-fresh :
    (es : List Employee) (e : Employee) (anchor : IsoDate) (n id : ℕ)
    (items : List ChecklistTemplateItem)
    → All
        (λ (t : ChecklistTask). (t.checklist_id ≡ n) × (is_stamped t ≡ true))
        (new_tasks es e anchor n id items)
unfolding new_tasks
new_tasks-fresh es e anchor n id [] = tt
new_tasks-fresh es e anchor n id (item ∷ items) =
    ((refl, refl), new_tasks-fresh es e anchor n (suc id) items)

-- A call that goes on with a step that leaves the rows alone.
then-IsOrderly :
    {A B : Type 0} (m : Action OnboardingStore A) (k : Action OnboardingStore B)
    (s : OnboardingStore)
    → IsOrderly (m s).1
    → Keeps k
    → IsOrderly ((m >> k) s).1
then-IsOrderly m k s h keeps =
    let t = (m s).1 in
    elim (Result-cases (m s).0) [
      | inl (x, e) ↦
          subst IsOrderly (sym (ap (λ p. p.1) (>>=_ok m (λ _. k) s t x (λ i. (e i, t)))))
            (SameRows-IsOrderly t (k t).1 h (keeps t))
      | inr (x, e) ↦
          subst IsOrderly (sym (ap (λ p. p.1) (>>=_err m (λ _. k) s t x (λ i. (e i, t))))) h
    ]

none_left :
    (P : ChecklistTask → Type 0) (ts : List ChecklistTask) → (length ts == 0) ≡ true → All P ts
none_left P [] h = tt
none_left P (t ∷ ts) h = absurd (ground (arith, h))

-- A checklist without a task is completed when it is made.
completed_at_once :
    (now : ℕ) (today : IsoDate) (c : Checklist) (ts : List ChecklistTask) (s : OnboardingStore)
    → IsOrderly s
    → IsOrderly (add_checklist c ts s)
    → c.id ≡ s.next_checklist_id
    → IsOrderly
        ((if length ts == 0 then complete now today c else pure tt) (add_checklist c ts s)).1
completed_at_once now today c ts s h a same = elim (Bool-cases (length ts == 0)) [
  | inl e ↦
      let owned =
        All-append (λ (t : ChecklistTask). t.checklist_id < s.next_checklist_id) s.tasks ts h.owned
          (none_left (λ (t : ChecklistTask). t.checklist_id < s.next_checklist_id) ts e) in
      rw e (
        complete-IsOrderly now today c (add_checklist c ts s) a
          (not_blocked_yet s.next_checklist_id c.id (s.tasks ++ ts) (omega (arith, same)) owned))
  | inr e ↦ rw e a
]

module _ (now : ℕ) (today : IsoDate) (employee : ℕ) (e : Employee) (type : ChecklistType)
    (opts : StartOptions) (s : OnboardingStore) (h : IsOrderly s)
    (free : any (is_running employee type) s.checklists ≡ false) where
  start_with-IsOrderly :
      (t : ChecklistTemplate) → IsOrderly (start_with now today employee e type opts t s).1
  unfolding start_with
  start_with-IsOrderly t =
      let id = s.next_checklist_id in
      let anchor = anchor_of today type opts.anchor_date e in
      let c = new_checklist id employee type t.id anchor opts.actor_user_id in
      let ts = new_tasks s.company.employees e anchor id s.next_task_id t.items in
      let fresh = new_tasks-fresh s.company.employees e anchor id s.next_task_id t.items in
      let added = add_checklist-IsOrderly c ts s h refl refl free fresh in
      let middle : Action OnboardingStore (Unit {0}) =
        if length ts == 0 then complete now today c else pure tt in
      then-IsOrderly middle (modify (announce c) >> pure (some id)) (add_checklist c ts s)
        (completed_at_once now today c ts s h added refl) (λ u. (refl, refl, refl))

  start_from-IsOrderly :
      (o : Option ChecklistTemplate) → IsOrderly (start_from now today employee e type opts o s).1
  unfolding start_from
  start_from-IsOrderly none = h
  start_from-IsOrderly (some t) =
      let b = not (type_eq t.type type) in
      let x = bad_request "Template is for the other type" in
      check_then (throw_if b x) (λ _. start_with now today employee e type opts t) s IsOrderly
        (throw_if-store b x s) h (λ _ _. start_with-IsOrderly t)

choose_template-store :
    (o : Option ℕ) (type : ChecklistType) (e : Employee) (s : OnboardingStore)
    → (choose_template o type e s).1 ≡ s
unfolding choose_template find_template
choose_template-store none type e s = refl
choose_template-store (some id) type e s = ground arith

found_in-store : (id : ℕ) (s : OnboardingStore) → (on_employees (find_by_id id) s).1 ≡ s
unfolding find_by_id
found_in-store id s = ground arith

pub start-IsOrderly :
    (now : ℕ) (today : IsoDate) (employee : ℕ) (type : ChecklistType) (opts : StartOptions)
    (s : OnboardingStore)
    → IsOrderly s
    → IsOrderly (start now today employee type opts s).1
unfolding start
start-IsOrderly now today employee type opts s h =
    check_then (on_employees (find_by_id employee)) (loaded now today employee type opts) s
      IsOrderly (found_in-store employee s) h
      λ e _.
        let existing = any (is_running employee type) s.checklists in
        let x = conflict "Employee already has an in-progress checklist" in
        check_then (throw_if existing x) (λ _. chosen now today employee type opts e) s IsOrderly
          (throw_if-store existing x s) h
          λ u k.
            check_then (choose_template opts.template_id type e)
              (λ t. start_from now today employee e type opts t) s IsOrderly
              (choose_template-store opts.template_id type e s) h
              λ t _.
                start_from-IsOrderly now today employee e type opts s h
                  (throw_if-ok existing x s u k) t
  where
    chosen :
        ℕ
        → IsoDate
        → ℕ
        → ChecklistType
        → StartOptions
        → Employee
        → Action OnboardingStore (Option ℕ)
    chosen now today employee type opts e =
        choose_template opts.template_id type e >>= λ t. start_from now today employee e type opts t

    loaded :
        ℕ
        → IsoDate
        → ℕ
        → ChecklistType
        → StartOptions
        → Employee
        → Action OnboardingStore (Option ℕ)
    loaded now today employee type opts e =
        gets (λ (s : OnboardingStore). any (is_running employee type) s.checklists) >>= λ b.
        throw_if b (conflict "Employee already has an in-progress checklist")
        >> chosen now today employee type opts e

pub start_for-IsOrderly :
    (now : ℕ) (today : IsoDate) (opts : StartOptions) (employee : ℕ) (s : OnboardingStore)
    → IsOrderly s
    → IsOrderly (start_for now today opts employee s).1
unfolding start_for
start_for-IsOrderly now today opts employee s h =
    check_then (on_employees (find_by_id employee)) (begun now today opts employee) s IsOrderly
      (found_in-store employee s) h
      λ e _. elim (Bool-cases (status_eq e.status EmployeeStatus.onboarding)) [
        | inl y ↦ rw y (start-IsOrderly now today employee ChecklistType.onboarding opts s h)
        | inr y ↦ rw y h
      ]
  where
    begun : ℕ → IsoDate → StartOptions → ℕ → Employee → Action OnboardingStore (Option ℕ)
    begun now today opts employee e =
        if status_eq e.status EmployeeStatus.onboarding
        then start now today employee ChecklistType.onboarding opts
        else pure none
