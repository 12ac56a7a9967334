-- ===== src/Onboarding/Invariant.antt =====
-- What holds of the checklists: one at a time for each employee and kind, and nothing required left
-- open in a completed one.
use ai_hr_sytem.Base.{
  ℕ, ◌+◌, ◌≤◌, ◌<◌, ◌≡◌, refl, sym, subst, ◌∙◌, ap, ◌⊎◌, inl, inr, arith, Bool, true, false, not,
  ◌||◌, some, List, [], ◌∷◌, ◌++◌, ◌==◌, ==→eq, ==_refl, is_some, any, update_where, All,
  Bool-cases, if◌then◌else◌,
}
use ai_hr_sytem.Onboarding.Defs.{
  ChecklistType, ChecklistStatus, is_in_progress, Checklist, is_open_status, ChecklistTask,
  OnboardingStore,
}
use ai_hr_sytem.Onboarding.Completion.{checklist_at, blocks, is_blocked}
use ai_hr_sytem.Onboarding.Start.{is_running, add_checklist}

abbrev pub is_finished : ChecklistStatus → Bool
is_finished ChecklistStatus.completed = true
is_finished _ = false

-- A task is closed just when it has a time of completion.
abbrev pub is_stamped : ChecklistTask → Bool
is_stamped t =
    if is_open_status t.status then not (is_some t.completed_at) else is_some t.completed_at

pub record IsOrderly (s : OnboardingStore) : Type 0 where
  pub single :
      (i j : ℕ) (c d : Checklist)
      → checklist_at i s.checklists ≡ some c
      → checklist_at j s.checklists ≡ some d
      → is_in_progress c.status ≡ true
      → is_running c.employee_id c.type d ≡ true
      → i ≡ j
  pub finished :
      (i : ℕ) (c : Checklist)
      → checklist_at i s.checklists ≡ some c
      → is_finished c.status ≡ true
      → is_blocked i s.tasks ≡ false
  pub numbered :
      (i : ℕ) (c : Checklist) → checklist_at i s.checklists ≡ some c → i < s.next_checklist_id
  pub owned : All (λ (t : ChecklistTask). t.checklist_id < s.next_checklist_id) s.tasks
  pub stamped : All (λ t. is_stamped t ≡ true) s.tasks

-- A row after a change of the row `k`: the changed one, or an old one.
changed_at :
    (k i : ℕ) (f : Checklist → Checklist) (cs : List Checklist) (c : Checklist)
    → ((x : Checklist) → (f x).id ≡ x.id)
    → checklist_at i (update_where (λ (x : Checklist). x.id == k) f cs) ≡ some c
    → (x : Checklist) × (checklist_at i cs ≡ some x) × (c ≡ (if i == k then f x else x))
changed_at k i f [] c same h = absurd (ground arith)
changed_at k i f (x ∷ xs) c same h = elim (Bool-cases (x.id == i)) [
  | inl e ↦ (x, ground (arith, e), ground (arith, e, h, same x, ==→eq x.id i))
  | inr e ↦
      let later : checklist_at i (update_where (λ (y : Checklist). y.id == k) f xs) ≡ some c =
        ground (arith, e, h, same x) in
      let (y, a, b) = changed_at k i f xs c same later in (y, ground (arith, e, a), b)
]

-- A row after one is added.
added_at :
    (i : ℕ) (cs : List Checklist) (y c : Checklist)
    → checklist_at i (cs ++ y ∷ []) ≡ some c
    → (checklist_at i cs ≡ some c) ⊎ ((c ≡ y) × (y.id ≡ i))
added_at i [] y c h = inr (ground (arith, h), ground (arith, h, ==→eq y.id i))
added_at i (x ∷ xs) y c h = elim (Bool-cases (x.id == i)) [
  | inl e ↦ inl (ground (arith, e, h))
  | inr e ↦ elim (added_at i xs y c (ground (arith, e, h))) [
    | inl o ↦ inl (ground (arith, e, o))
    | inr o ↦ inr o
  ]
]

-- What does not hold of any row does not hold of a found one.
not_any :
    (p : Checklist → Bool) (i : ℕ) (cs : List Checklist) (c : Checklist)
    → any p cs ≡ false
    → checklist_at i cs ≡ some c
    → p c ≡ false
not_any p i [] c h e = absurd (ground arith)
not_any p i (x ∷ xs) c h e = ground (arith, h, e, not_any p i xs c)

any-append :
    (p : ChecklistTask → Bool) (xs ys : List ChecklistTask)
    → any p (xs ++ ys) ≡ (any p xs || any p ys)
any-append p [] ys = refl
any-append p (x ∷ xs) ys = ground (arith, any-append p xs ys)

-- No task belongs to a checklist that is still to come.
pub not_blocked_yet :
    (n i : ℕ) (ts : List ChecklistTask)
    → n ≤ i
    → All (λ (t : ChecklistTask). t.checklist_id < n) ts
    → is_blocked i ts ≡ false
not_blocked_yet n i [] le h = refl
not_blocked_yet n i (t ∷ ts) le h = ground (arith, h.0, not_blocked_yet n i ts le h.1)

not_blocked_by :
    (k i : ℕ) (ts : List ChecklistTask)
    → (k == i) ≡ false
    → All (λ (t : ChecklistTask). t.checklist_id ≡ k) ts
    → is_blocked i ts ≡ false
not_blocked_by k i [] n h = refl
not_blocked_by k i (t ∷ ts) n h = ground (arith, n, h.0, not_blocked_by k i ts n h.1)

-- The end of the checklist `k`, whether it is completed or cancelled.
module _ (k : ℕ) (f : Checklist → Checklist) (same : (x : Checklist) → (f x).id ≡ x.id)
    (ends : (x : Checklist) → is_in_progress (f x).status ≡ false) (s : OnboardingStore)
    (h : IsOrderly s) where
  abbrev ended : List Checklist
  ended = update_where (λ (x : Checklist). x.id == k) f s.checklists

  -- A row that is in progress afterwards is an old one.
  still_running :
      (i : ℕ) (c : Checklist)
      → checklist_at i ended ≡ some c
      → is_in_progress c.status ≡ true
      → checklist_at i s.checklists ≡ some c
  still_running i c e p =
      let (x, a, b) = changed_at k i f s.checklists c same e in
      elim (Bool-cases (i == k)) [
        | inl y ↦ absurd (ground (arith, y, b, p, ends x))
        | inr y ↦ ground (arith, y, b, a)
      ]

  running_is :
      (e : ℕ) (t : ChecklistType) (d : Checklist)
      → is_running e t d ≡ true
      → is_in_progress d.status ≡ true
  running_is e t d r = ground (arith, r)

  pub ended-IsOrderly :
      (t : OnboardingStore)
      → t.checklists ≡ ended
      → t.tasks ≡ s.tasks
      → t.next_checklist_id ≡ s.next_checklist_id
      → ((x : Checklist)
          → checklist_at k s.checklists ≡ some x
          → is_finished (f x).status ≡ true
          → is_blocked k s.tasks ≡ false)
      → IsOrderly t
  ended-IsOrderly t rows tasks next clear = record {
    single = λ i j c d hi hj p r.
        h.single i j c d (still_running i c (ap (checklist_at i) (sym rows) ∙ hi) p)
          (still_running j d (ap (checklist_at j) (sym rows) ∙ hj)
            (running_is c.employee_id c.type d r))
          p r;
    finished = λ i c hi p.
        let (x, a, b) =
          changed_at k i f s.checklists c same (ap (checklist_at i) (sym rows) ∙ hi) in
        ap (is_blocked i) tasks ∙ elim (Bool-cases (i == k)) [
          | inl y ↦
              let at_k : checklist_at k s.checklists ≡ some x =
                subst (λ v. checklist_at v s.checklists ≡ some x) (==→eq i k y) a in
              subst (λ v. is_blocked v s.tasks ≡ false) (sym (==→eq i k y))
                (clear x at_k (ground (arith, y, b, p)))
          | inr y ↦ h.finished i x a (ground (arith, y, b, p))
        ];
    numbered = λ i c hi.
        let (x, a, b) =
          changed_at k i f s.checklists c same (ap (checklist_at i) (sym rows) ∙ hi) in
        omega (arith, h.numbered i x a, next);
    owned =
        subst (λ n. All (λ (x : ChecklistTask). x.checklist_id < n) t.tasks) (sym next)
          (subst (All (λ (x : ChecklistTask). x.checklist_id < s.next_checklist_id)) (sym tasks)
            h.owned);
    stamped = subst (All (λ x. is_stamped x ≡ true)) (sym tasks) h.stamped;
  }

pub All-append :
    (P : ChecklistTask → Type 0) (xs ys : List ChecklistTask)
    → All P xs
    → All P ys
    → All P (xs ++ ys)
All-append P [] ys h k = k
All-append P (x ∷ xs) ys h k = (h.0, All-append P xs ys h.1 k)

pub All-map :
    (P Q : ChecklistTask → Type 0) (xs : List ChecklistTask)
    → ((x : ChecklistTask) → P x → Q x)
    → All P xs
    → All Q xs
All-map P Q [] f h = tt
All-map P Q (x ∷ xs) f h = (f x h.0, All-map P Q xs f h.1)

-- A new checklist, where no other one of the kind is in progress for the employee.
pub add_checklist-IsOrderly :
    (c : Checklist) (ts : List ChecklistTask) (s : OnboardingStore)
    → IsOrderly s
    → c.id ≡ s.next_checklist_id
    → is_in_progress c.status ≡ true
    → any (is_running c.employee_id c.type) s.checklists ≡ false
    → All (λ (t : ChecklistTask). (t.checklist_id ≡ s.next_checklist_id) × (is_stamped t ≡ true)) ts
    → IsOrderly (add_checklist c ts s)
add_checklist-IsOrderly c ts s h new running free fresh =
    let mine =
      λ (x : ChecklistTask). (x.checklist_id ≡ s.next_checklist_id) × (is_stamped x ≡ true) in
    record {
      single = λ i j a b hi hj p r. elim (added_at i s.checklists c a hi) [
        | inl o ↦ elim (added_at j s.checklists c b hj) [
          | inl q ↦ h.single i j a b o q p r
          | inr (q, _) ↦
              absurd (clash a i o p (subst (λ z. is_running a.employee_id a.type z ≡ true) q r))
        ]
        | inr (e, k) ↦ elim (added_at j s.checklists c b hj) [
          | inl q ↦
              let n = not_any (is_running c.employee_id c.type) j s.checklists b free q in
              absurd (ground (arith, n, subst (λ z. is_running z.employee_id z.type b ≡ true) e r))
          | inr (_, l) ↦ sym k ∙ l
        ]
      ];
      finished = λ i a hi p. elim (added_at i s.checklists c a hi) [
        | inl o ↦
            let other : (s.next_checklist_id == i) ≡ false = ground (arith, h.numbered i a o) in
            any-append (blocks i) s.tasks ts
            ∙ ground (
              arith,
              h.finished i a o p,
              not_blocked_by s.next_checklist_id i ts other (
                  All-map mine (λ (x : ChecklistTask). x.checklist_id ≡ s.next_checklist_id) ts
                    (λ x z. z.0) fresh),
            )
        | inr (e, _) ↦ absurd (ground (arith, e, running, p))
      ];
      numbered = λ i a hi. elim (added_at i s.checklists c a hi) [
        | inl o ↦ omega (arith, h.numbered i a o)
        | inr (_, k) ↦ omega (arith, k, new)
      ];
      owned =
          All-append (λ (x : ChecklistTask). x.checklist_id < s.next_checklist_id + 1) s.tasks ts
            (All-map (λ (x : ChecklistTask). x.checklist_id < s.next_checklist_id)
              (λ (x : ChecklistTask). x.checklist_id < s.next_checklist_id + 1) s.tasks
              (λ x z. omega (arith, z)) h.owned)
            (All-map mine (λ (x : ChecklistTask). x.checklist_id < s.next_checklist_id + 1) ts
              (λ x z. omega (arith, z.0)) fresh);
      stamped =
          All-append (λ x. is_stamped x ≡ true) s.tasks ts h.stamped
            (All-map mine (λ x. is_stamped x ≡ true) ts (λ x z. z.1) fresh);
    }
  where
    clash :
        (a : Checklist) (i : ℕ)
        → checklist_at i s.checklists ≡ some a
        → is_in_progress a.status ≡ true
        → ¬ (is_running a.employee_id a.type c ≡ true)
    clash a i o p r =
        let n = not_any (is_running c.employee_id c.type) i s.checklists a free o in
        ground (arith, n, p, r, ==→eq c.employee_id a.employee_id, ==_refl c.employee_id)
