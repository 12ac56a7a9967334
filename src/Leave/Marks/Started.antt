-- ===== src/Leave/Marks/Started.antt =====
-- The first loop of the daily job leaves no long leave of somebody active unmarked.
use ai_hr_sytem.Base.{
  ℕ, ◌+◌, ◌≡◌, refl, sym, ap, subst, ◌∙◌, ◌⊎◌, inl, inr, arith, Bool, true, false, not, ◌&&◌, ◌||◌,
  none, some, List, [], ◌∷◌, ◌==◌, ==→eq, if◌then◌else◌, any, All, Bool-cases, Action, ok, pure,
  modify, ◌>>=◌, ◌>>◌, >>=_inv,
}
use ai_hr_sytem.Calendar.{IsoDate}
use ai_hr_sytem.Employees.{
  Employee, EmployeeStatus, status_eq, find_employee, find_by_id, change_status, ChangeStatus,
  Company,
}
use ai_hr_sytem.Employees.Status.{change_status_follows}
use ai_hr_sytem.Leave.Defs.{LeaveRequest, LeaveStore}
use ai_hr_sytem.Leave.Decisions.{
  employee_of, update_request, go_on_leave, is_long_leave, set_on_leave, start_leaves,
}
use ai_hr_sytem.Leave.Marks.{is_on_long_leave, marked}

-- The employee is not at work: not on file as active.
abbrev pub is_away : List Employee → ℕ → Bool
is_away es id = elim (find_employee id es) [
  | none ↦ true
  | some e ↦ elim e.status [ EmployeeStatus.active ↦ false | _ ↦ true ]
]

-- What a call of setOnLeave that answers has done.
record Went (r : LeaveRequest) (s t : LeaveStore) : Type 0 where
  stays : (id : ℕ) → is_away s.company.employees id ≡ true → is_away t.company.employees id ≡ true
  done :
      ((t.requests ≡ s.requests) × (is_away t.company.employees r.employee_id ≡ true))
      ⊎ (t.requests ≡ marked r.id true s.requests)

found_own : (id : ℕ) (es : List Employee) (e : Employee) → find_employee id es ≡ some e → e.id ≡ id
unfolding find_employee
found_own id [] e h = absurd (ground arith)
found_own id (x ∷ xs) e h = elim (Bool-cases ((x.id == id) && not x.is_deleted)) [
  | inl k ↦
      let same : x ≡ e = ground (arith, k, h) in
      let own : (x.id == id) ≡ true = ground (arith, k) in
      sym (ap Employee.id same) ∙ ==→eq x.id id own
  | inr k ↦ found_own id xs e (ground (arith, k, h))
]

loaded :
    (r : LeaveRequest) (s : LeaveStore) (e : Employee)
    → (employee_of r s).0 ≡ ok e
    → find_employee r.employee_id s.company.employees ≡ some e
unfolding employee_of find_by_id
loaded r s e h = ground (arith, h)

loaded-store : (r : LeaveRequest) (s : LeaveStore) → (employee_of r s).1 ≡ s
unfolding employee_of find_by_id
loaded-store r s = ground arith

-- The change of status to on leave.
gone :
    (id j : ℕ) (dto : ChangeStatus) (c : Company) (emp e : Employee)
    → dto.status ≡ EmployeeStatus.on_leave
    → find_employee id c.employees ≡ some emp
    → (change_status id dto none c).0 ≡ ok e
    → is_away c.employees j ≡ true
    → is_away (change_status id dto none c).1.employees j ≡ true
gone id j dto c emp e away f h k =
    let (_, look) =
      change_status_follows id j dto none c {emp = emp} {e = e} f (found_own id c.employees emp f)
        h in
    ground (arith, look, away, k)

set_on_leave-Went :
    (r : LeaveRequest) (s : LeaveStore) (b : Bool)
    → (set_on_leave r none s).0 ≡ ok b
    → Went r s (set_on_leave r none s).1
unfolding set_on_leave go_on_leave
set_on_leave-Went r s b h =
    let mark = modify (update_request r.id (λ q. record q { status_applied = true })) in
    let go = λ (emp : Employee).
      if not (status_eq emp.status EmployeeStatus.active)
      then pure false
      else (go_on_leave r none >>= λ _. mark >> pure true) in
    let (emp, a, e) = >>=_inv (employee_of r) go s b h in
    let f = loaded r s emp a in
    let start : set_on_leave r none s ≡ go emp s = e ∙ ap (go emp) (loaded-store r s) in
    let h1 = sym (ap (λ x. x.0) start) ∙ h in
    subst (λ x. Went r s x.1) (sym start)
      (elim (Bool-cases (status_eq emp.status EmployeeStatus.active)) [
        | inr k ↦ rw k (record { stays = λ id w. w; done = inl (refl, ground (arith, f, k)) })
        | inl k ↦
            let leaving : go emp s ≡ (go_on_leave r none >>= λ _. mark >> pure true) s =
              rw k refl in
            let (x, d, g) =
              >>=_inv (go_on_leave r none) (λ _. mark >> pure true) s b
                (sym (ap (λ x. x.0) leaving) ∙ h1) in
            subst (λ x. Went r s x.1) (sym (leaving ∙ g))
              (record {
                stays = λ id w. gone r.employee_id id _ s.company emp x refl f d w;
                done = inr refl;
              })
      ])

-- Long leaves of the day are marked, or of somebody away, or still to come in the loop.
abbrev IsStarted : IsoDate → List LeaveRequest → LeaveStore → List LeaveRequest → Type 0
IsStarted today ps u rs =
    All
      (λ (q : LeaveRequest).
        (not (is_on_long_leave today q)
          || q.status_applied
          || is_away u.company.employees q.employee_id
          || any
              (λ (r : LeaveRequest).
                (r.id == q.id) && (r.employee_id == q.employee_id) && is_long_leave r)
              ps)
        ≡ true)
      rs

-- A request that is not long holds nothing back.
short-IsStarted :
    (today : IsoDate) (p : LeaveRequest) (ps : List LeaveRequest) (s : LeaveStore)
    (rs : List LeaveRequest)
    → is_long_leave p ≡ false
    → IsStarted today (p ∷ ps) s rs
    → IsStarted today ps s rs
short-IsStarted today p ps s [] k h = tt
short-IsStarted today p ps s (q ∷ rs) k h =
    (ground (arith, k, h.0), short-IsStarted today p ps s rs k h.1)

away-IsStarted :
    (today : IsoDate) (p : LeaveRequest) (ps : List LeaveRequest) (s t : LeaveStore)
    (rs : List LeaveRequest)
    → ((id : ℕ) → is_away s.company.employees id ≡ true → is_away t.company.employees id ≡ true)
    → is_away t.company.employees p.employee_id ≡ true
    → IsStarted today (p ∷ ps) s rs
    → IsStarted today ps t rs
away-IsStarted today p ps s t [] stays k h = tt
away-IsStarted today p ps s t (q ∷ rs) stays k h = (
  elim (Bool-cases (p.employee_id == q.employee_id)) [
    | inl e ↦
        let own =
          subst (λ v. is_away t.company.employees v ≡ true) (==→eq p.employee_id q.employee_id e)
            k in
        ground (arith, own)
    | inr e ↦ elim (Bool-cases (is_away s.company.employees q.employee_id)) [
      | inl w ↦ ground (arith, stays q.employee_id w)
      | inr w ↦ ground (arith, e, w, h.0)
    ]
  ],
  away-IsStarted today p ps s t rs stays k h.1,
)

marked-IsStarted :
    (today : IsoDate) (p : LeaveRequest) (ps : List LeaveRequest) (s t : LeaveStore)
    (rs : List LeaveRequest)
    → ((id : ℕ) → is_away s.company.employees id ≡ true → is_away t.company.employees id ≡ true)
    → IsStarted today (p ∷ ps) s rs
    → IsStarted today ps t (marked p.id true rs)
marked-IsStarted today p ps s t [] stays h = tt
marked-IsStarted today p ps s t (q ∷ rs) stays h = elim (Bool-cases (q.id == p.id)) [
  | inl e ↦ rw e (ground arith, marked-IsStarted today p ps s t rs stays h.1)
  | inr e ↦
      let other : (p.id == q.id) ≡ false = ground (arith, e) in
      rw e (
        elim (Bool-cases (is_away s.company.employees q.employee_id)) [
          | inl w ↦ ground (arith, stays q.employee_id w)
          | inr w ↦ ground (arith, other, w, h.0)
        ],
        marked-IsStarted today p ps s t rs stays h.1,
      )
]

Went-IsStarted :
    (today : IsoDate) (p : LeaveRequest) (ps : List LeaveRequest) (s t : LeaveStore)
    → Went p s t
    → IsStarted today (p ∷ ps) s s.requests
    → IsStarted today ps t t.requests
Went-IsStarted today p ps s t w h = elim w.done [
  | inl (same, away) ↦
      subst (IsStarted today ps t) (sym same)
        (away-IsStarted today p ps s t s.requests w.stays away h)
  | inr same ↦
      subst (IsStarted today ps t) (sym same) (marked-IsStarted today p ps s t s.requests w.stays h)
]

pub start_leaves-IsStarted :
    (today : IsoDate) (ps : List LeaveRequest) (n m : ℕ) (s : LeaveStore)
    → (start_leaves ps n s).0 ≡ ok m
    → IsStarted today ps s s.requests
    → IsStarted today [] (start_leaves ps n s).1 (start_leaves ps n s).1.requests
unfolding start_leaves
start_leaves-IsStarted today [] n m s h k = k
start_leaves-IsStarted today (p ∷ ps) n m s h k =
    let step : Action LeaveStore Bool =
      if is_long_leave p then set_on_leave p none else pure false in
    let rest = λ (flipped : Bool). start_leaves ps (if flipped then n + 1 else n) in
    let (b, a, e) = >>=_inv step rest s m h in
    let t = (step s).1 in
    let next : IsStarted today ps t t.requests = elim (Bool-cases (is_long_leave p)) [
      | inl l ↦
          let same : step s ≡ set_on_leave p none s = rw l refl in
          subst (λ x. IsStarted today ps x.1 x.1.requests) (sym same)
            (Went-IsStarted today p ps s (set_on_leave p none s).1
              (set_on_leave-Went p s b (sym (ap (λ x. x.0) same) ∙ a)) k)
      | inr l ↦
          let same : step s ≡ (ok false, s) = rw l refl in
          subst (λ x. IsStarted today ps x.1 x.1.requests) (sym same)
            (short-IsStarted today p ps s s.requests l k)
    ] in
    subst (λ x. IsStarted today [] x.1 x.1.requests) (sym e)
      (start_leaves-IsStarted today ps (if b then n + 1 else n) m t (sym (ap (λ x. x.0) e) ∙ h)
        next)
