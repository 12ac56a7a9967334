-- ===== src/Leave/Marks.antt =====
-- The mark `statusApplied` of long leaves through the daily job.
pub mod Started
use ai_hr_sytem.Base.{
  ℕ, ◌+◌, ◌-◌, ◌≡◌, refl, sym, ap, subst, ◌∙◌, inl, inr, arith, Bool, true, false, not, ◌&&◌, ◌||◌,
  none, List, [], ◌∷◌, leb, ◌==◌, ==→eq, ==_refl, if◌then◌else◌, select, any, update_where, All,
  Bool-cases, Result-cases, Action, ok, pure, gets, modify, ◌>>=◌, ◌>>◌, >>=_inv, >>=_ok, >>=_err,
}
use ai_hr_sytem.Calendar.{IsoDate, prev_day, day_number}
use ai_hr_sytem.Employees.{Company, Employee, EmployeeStatus, status_eq}
use ai_hr_sytem.Leave.Defs.{LeaveRequestStatus, LeaveRequest, LeaveStore}
use ai_hr_sytem.Leave.Requests.{on_company, is_approved}
use ai_hr_sytem.Leave.Decisions.{
  employee_of, update_request, go_on_leave, come_back, is_long_leave, set_on_leave,
  revert_long_leave, start_leaves, end_leaves, sync_employee_statuses,
}

abbrev pub was_approved : LeaveRequest → Bool
was_approved r = elim r.status [ LeaveRequestStatus.approved ↦ true | _ ↦ false ]

-- An approved leave of thirty calendar days at least that the day falls into.
abbrev pub is_on_long_leave : IsoDate → LeaveRequest → Bool
is_on_long_leave today r =
    was_approved r
    && leb r.start_date today
    && leb today r.end_date
    && leb 30 (day_number r.end_date + 1 - day_number r.start_date)

-- A marked leave that is over.
abbrev pub is_overdue : IsoDate → LeaveRequest → Bool
is_overdue today r = was_approved r && r.status_applied && leb r.end_date (prev_day today)

-- A request with this id was marked, or is such a leave.
abbrev pub has_reason : IsoDate → List LeaveRequest → ℕ → Bool
has_reason today rs id =
    any (λ (r : LeaveRequest). (r.id == id) && (r.status_applied || is_on_long_leave today r)) rs

abbrev pub marked : ℕ → Bool → List LeaveRequest → List LeaveRequest
marked id b =
    update_where (λ (q : LeaveRequest). q.id == id)
      (λ (q : LeaveRequest). record q { status_applied = b })

-- A step that keeps a property of the requests from any store.
record Keeps {A : Type 0} (P : List LeaveRequest → Type 0) (m : Action LeaveStore A) : Type 0 where
  keeps : (s : LeaveStore) → P s.requests → P (m s).1.requests

bind-Keeps :
    (P : List LeaveRequest → Type 0) {A B : Type 0} (m : Action LeaveStore A)
    (f : A → Action LeaveStore B)
    → Keeps P m
    → ((a : A) → Keeps P (f a))
    → Keeps P (m >>= f)
bind-Keeps P m f h k = record {
  keeps = λ s p.
      let t = (m s).1 in
      elim (Result-cases (m s).0) [
        | inl (a, e) ↦
            subst (λ x. P x.requests) (sym (ap (λ x. x.1) (>>=_ok m f s t a (λ i. (e i, t)))))
              ((k a).keeps t (h.keeps s p))
        | inr (x, e) ↦
            subst (λ x. P x.requests) (sym (ap (λ x. x.1) (>>=_err m f s t x (λ i. (e i, t)))))
              (h.keeps s p)
      ];
}

if-Keeps :
    (P : List LeaveRequest → Type 0) {A : Type 0} (b : Bool) (m k : Action LeaveStore A)
    → Keeps P m
    → Keeps P k
    → Keeps P (if b then m else k)
if-Keeps P true m k p q = p
if-Keeps P false m k p q = q

pure-Keeps : (P : List LeaveRequest → Type 0) {A : Type 0} (a : A) → Keeps P (pure a)
pure-Keeps P a = record { keeps = λ s p. p }

on_company-Keeps :
    (P : List LeaveRequest → Type 0) {A : Type 0} (m : Action Company A) → Keeps P (on_company m)
on_company-Keeps P m = record { keeps = λ s p. p }

mark-Keeps :
    (P : List LeaveRequest → Type 0) (id : ℕ) (b : Bool)
    → ((rs : List LeaveRequest) → P rs → P (marked id b rs))
    → Keeps P (modify (update_request id (λ q. record q { status_applied = b })))
mark-Keeps P id b k = record { keeps = λ s p. k s.requests p }

set_on_leave-Keeps :
    (P : List LeaveRequest → Type 0) (r : LeaveRequest)
    → ((rs : List LeaveRequest) → P rs → P (marked r.id true rs))
    → Keeps P (set_on_leave r none)
unfolding set_on_leave go_on_leave employee_of
set_on_leave-Keeps P r k = bind-Keeps P (employee_of r) _ (on_company-Keeps P _) λ emp.
    if-Keeps P (not (status_eq emp.status EmployeeStatus.active)) _ _ (pure-Keeps P false) (
      bind-Keeps P (go_on_leave r none) _ (on_company-Keeps P _) λ _.
        bind-Keeps P (modify (update_request r.id (λ q. record q { status_applied = true }))) _
          (mark-Keeps P r.id true k) λ _. pure-Keeps P true)

revert_long_leave-Keeps :
    (P : List LeaveRequest → Type 0) (r : LeaveRequest)
    → ((rs : List LeaveRequest) → P rs → P (marked r.id false rs))
    → Keeps P (revert_long_leave r)
unfolding revert_long_leave come_back employee_of
revert_long_leave-Keeps P r k = bind-Keeps P (employee_of r) _ (on_company-Keeps P _) λ emp.
    bind-Keeps P
      (if status_eq emp.status EmployeeStatus.on_leave
        then (come_back r >>= λ _. pure tt)
        else pure tt)
      _
      (if-Keeps P (status_eq emp.status EmployeeStatus.on_leave) _ _
        (bind-Keeps P (come_back r) _ (on_company-Keeps P _) λ _. pure-Keeps P tt)
        (pure-Keeps P tt))
      λ _. mark-Keeps P r.id false k

-- Every marked request has a reason among the requests of the start of the day.
abbrev IsReasoned : IsoDate → List LeaveRequest → List LeaveRequest → Type 0
IsReasoned today old rs =
    All (λ (q : LeaveRequest). q.status_applied ≡ true → has_reason today old q.id ≡ true) rs

unmarked-IsReasoned :
    (today : IsoDate) (old : List LeaveRequest) (id : ℕ) (rs : List LeaveRequest)
    → IsReasoned today old rs
    → IsReasoned today old (marked id false rs)
unmarked-IsReasoned today old id [] h = tt
unmarked-IsReasoned today old id (q ∷ rs) h = elim (Bool-cases (q.id == id)) [
  | inl e ↦ rw e (λ k. absurd (ground (arith, k)), unmarked-IsReasoned today old id rs h.1)
  | inr e ↦ rw e (h.0, unmarked-IsReasoned today old id rs h.1)
]

marked-IsReasoned :
    (today : IsoDate) (old : List LeaveRequest) (id : ℕ) (rs : List LeaveRequest)
    → has_reason today old id ≡ true
    → IsReasoned today old rs
    → IsReasoned today old (marked id true rs)
marked-IsReasoned today old id [] k h = tt
marked-IsReasoned today old id (q ∷ rs) k h = elim (Bool-cases (q.id == id)) [
  | inl e ↦ rw e (
    λ _. subst (λ i. has_reason today old i ≡ true) (sym (==→eq q.id id e)) k,
    marked-IsReasoned today old id rs k h.1,
  )
  | inr e ↦ rw e (h.0, marked-IsReasoned today old id rs k h.1)
]

start_leaves-IsReasoned :
    (today : IsoDate) (old rs : List LeaveRequest) (n : ℕ)
    → All (λ r. is_long_leave r ≡ true → has_reason today old r.id ≡ true) rs
    → Keeps (IsReasoned today old) (start_leaves rs n)
unfolding start_leaves
start_leaves-IsReasoned today old [] n h = record { keeps = λ s p. p }
start_leaves-IsReasoned today old (r ∷ rs) n h = record {
  keeps =
      (bind-Keeps (IsReasoned today old)
        (if is_long_leave r then set_on_leave r none else pure false)
        (λ flipped. start_leaves rs (if flipped then n + 1 else n))
        (elim (Bool-cases (is_long_leave r)) [
          | inl e ↦ rw e (
              set_on_leave-Keeps (IsReasoned today old) r
                (λ l. marked-IsReasoned today old r.id l (h.0 e)))
          | inr e ↦ rw e (pure-Keeps (IsReasoned today old) false)
        ])
        (λ flipped. start_leaves-IsReasoned today old rs (if flipped then n + 1 else n) h.1)).keeps;
}

end_leaves-Keeps :
    (P : List LeaveRequest → Type 0) (rs : List LeaveRequest) (n : ℕ)
    → ((id : ℕ) (l : List LeaveRequest) → P l → P (marked id false l))
    → Keeps P (end_leaves rs n)
unfolding end_leaves
end_leaves-Keeps P [] n k = record { keeps = λ s p. p }
end_leaves-Keeps P (r ∷ rs) n k = record {
  keeps =
      (bind-Keeps P (revert_long_leave r) (λ _. end_leaves rs (n + 1))
        (revert_long_leave-Keeps P r (k r.id)) (λ _. end_leaves-Keeps P rs (n + 1) k)).keeps;
}

-- The two queries.
abbrev pub is_starting : IsoDate → LeaveRequest → Bool
is_starting today r =
    is_approved r.status && not r.status_applied && leb r.start_date today && leb today r.end_date

abbrev pub is_ending : IsoDate → LeaveRequest → Bool
is_ending today r = is_approved r.status && r.status_applied && leb r.end_date (prev_day today)

pub thirty_days :
    (r : LeaveRequest)
    → is_long_leave r ≡ leb 30 (day_number r.end_date + 1 - day_number r.start_date)
unfolding is_long_leave
thirty_days r = ground arith

-- The requests that the first query finds have a reason, with the requests before them in hand.
starting-IsReasoned :
    (today : IsoDate) (rs : List LeaveRequest) (old : List LeaveRequest)
    → ((id : ℕ) → has_reason today rs id ≡ true → has_reason today old id ≡ true)
    → All
        (λ r. is_long_leave r ≡ true → has_reason today old r.id ≡ true)
        (select (is_starting today) rs)
starting-IsReasoned today [] old sub = tt
starting-IsReasoned today (r ∷ rs) old sub =
    let later = starting-IsReasoned today rs old (λ id k. sub id (ground (arith, k))) in
    elim (Bool-cases (is_starting today r)) [
      | inl e ↦
          rw e (λ k. sub r.id (ground (arith, e, sym (thirty_days r) ∙ k, ==_refl r.id)), later)
      | inr e ↦ rw e later
    ]

first-IsReasoned :
    (today : IsoDate) (rs old : List LeaveRequest)
    → ((id : ℕ) → has_reason today rs id ≡ true → has_reason today old id ≡ true)
    → IsReasoned today old rs
first-IsReasoned today [] old sub = tt
first-IsReasoned today (r ∷ rs) old sub = (
  λ k. sub r.id (ground (arith, k, ==_refl r.id)),
  first-IsReasoned today rs old (λ id k. sub id (ground (arith, k))),
)

-- No marked leave is over but those that are still to be ended.
abbrev IsCleared : IsoDate → List LeaveRequest → List LeaveRequest → Type 0
IsCleared today ps rs =
    All
      (λ (q : LeaveRequest).
        (not (is_overdue today q) || any (λ (r : LeaveRequest). r.id == q.id) ps) ≡ true)
      rs

ending-IsCleared :
    (today : IsoDate) (rs ps : List LeaveRequest)
    → ((id : ℕ)
        → any (λ (r : LeaveRequest). r.id == id) (select (is_ending today) rs) ≡ true
        → any (λ (r : LeaveRequest). r.id == id) ps ≡ true)
    → IsCleared today ps rs
ending-IsCleared today [] ps sub = tt
ending-IsCleared today (q ∷ rs) ps sub = (
  elim (Bool-cases (is_ending today q)) [
    | inl e ↦ ground (arith, sub q.id (rw e (ground (arith, ==_refl q.id))))
    | inr e ↦ ground (arith, e)
  ],
  ending-IsCleared today rs ps (λ id k. sub id (elim (Bool-cases (is_ending today q)) [
    | inl e ↦ rw e (ground (arith, k))
    | inr e ↦ rw e k
  ])),
)

IsCleared-once :
    (today : IsoDate) (p : LeaveRequest) (ps rs : List LeaveRequest)
    → IsCleared today (p ∷ ps) rs
    → IsCleared today ps (marked p.id false rs)
IsCleared-once today p ps [] h = tt
IsCleared-once today p ps (q ∷ rs) h = elim (Bool-cases (q.id == p.id)) [
  | inl e ↦ rw e (ground arith, IsCleared-once today p ps rs h.1)
  | inr e ↦ rw e (ground (arith, e, h.0), IsCleared-once today p ps rs h.1)
]

-- A return that succeeds takes the mark off.
revert-marks :
    (r : LeaveRequest) (s : LeaveStore) (u : Unit {0})
    → (revert_long_leave r s).0 ≡ ok u
    → (revert_long_leave r s).1.requests ≡ marked r.id false s.requests
unfolding revert_long_leave employee_of come_back
revert-marks r s u h =
    let turn = λ (emp : Employee).
      if status_eq emp.status EmployeeStatus.on_leave
      then (come_back r >>= λ _. pure tt)
      else pure tt in
    let clear = modify (update_request r.id (λ q. record q { status_applied = false })) in
    let s1 = (employee_of r s).1 in
    let (emp, a, b) = >>=_inv (employee_of r) (λ emp. turn emp >> clear) s u h in
    let (v, c, d) = >>=_inv (turn emp) (λ _. clear) s1 u (sym (ap (λ x. x.0) b) ∙ h) in
    let P = λ (l : List LeaveRequest). l ≡ s.requests in
    let quiet =
      if-Keeps P (status_eq emp.status EmployeeStatus.on_leave) (come_back r >>= λ _. pure tt)
        (pure tt)
        (bind-Keeps P (come_back r) (λ _. pure tt) (on_company-Keeps P _) λ _. pure-Keeps P tt)
        (pure-Keeps P tt) in
    ap (λ x. x.1.requests) (b ∙ d) ∙ ap (marked r.id false) (quiet.keeps s1 refl)

end_leaves-IsCleared :
    (today : IsoDate) (ps : List LeaveRequest) (n m : ℕ) (s : LeaveStore)
    → (end_leaves ps n s).0 ≡ ok m
    → IsCleared today ps s.requests
    → IsCleared today [] (end_leaves ps n s).1.requests
unfolding end_leaves
end_leaves-IsCleared today [] n m s h k = k
end_leaves-IsCleared today (p ∷ ps) n m s h k =
    let (u, a, b) = >>=_inv (revert_long_leave p) (λ _. end_leaves ps (n + 1)) s m h in
    let t = (revert_long_leave p s).1 in
    subst (λ x. IsCleared today [] x.1.requests) (sym b)
      (end_leaves-IsCleared today ps (n + 1) m t (sym (ap (λ x. x.0) b) ∙ h) (
        subst (IsCleared today ps) (sym (revert-marks p s u a))
          (IsCleared-once today p ps s.requests k)))

none_overdue :
    (today : IsoDate) (rs : List LeaveRequest)
    → IsCleared today [] rs
    → All (λ q. is_overdue today q ≡ false) rs
none_overdue today [] h = tt
none_overdue today (q ∷ rs) h = (ground (arith, h.0), none_overdue today rs h.1)

-- What follows the first loop.
abbrev pub ended_by : IsoDate → ℕ → Action LeaveStore (ℕ × ℕ)
ended_by today started =
    gets (λ (s : LeaveStore). select (is_ending today) s.requests) >>= λ ending.
    end_leaves ending 0 >>= λ ended. pure (started, ended)

pub sync_employee_statuses_marks :
    (today : IsoDate) (s : LeaveStore)
    → let (answer, u) = sync_employee_statuses today s in
      All (λ q. q.status_applied ≡ true → has_reason today s.requests q.id ≡ true) u.requests
      × ((n : ℕ × ℕ) → answer ≡ ok n → All (λ q. is_overdue today q ≡ false) u.requests)
unfolding sync_employee_statuses
sync_employee_statuses_marks today s =
    let P = IsReasoned today s.requests in
    let starting = select (is_starting today) s.requests in
    let first = start_leaves starting 0 in
    let ending = λ (x : LeaveStore). select (is_ending today) x.requests in
    let keeps =
      bind-Keeps P first (ended_by today)
        (start_leaves-IsReasoned today s.requests starting 0
          (starting-IsReasoned today s.requests s.requests (λ id k. k)))
        λ started.
          bind-Keeps P (gets ending) (λ rs. end_leaves rs 0 >>= λ ended. pure (started, ended))
            (record { keeps = λ x p. p })
            λ rs.
              bind-Keeps P (end_leaves rs 0) (λ ended. pure (started, ended))
                (end_leaves-Keeps P rs 0 (unmarked-IsReasoned today s.requests))
                λ ended. pure-Keeps P (started, ended) in
    (
      keeps.keeps s (first-IsReasoned today s.requests s.requests (λ id k. k)),
      λ n h.
          let (a, b, c) = >>=_inv first (ended_by today) s n h in
          let t = (first s).1 in
          let last = end_leaves (ending t) 0 in
          let (m, d, e) = >>=_inv last (λ ended. pure (a, ended)) t n (sym (ap (λ x. x.0) c) ∙ h) in
          subst (λ x. All (λ q. is_overdue today q ≡ false) x.1.requests) (sym (c ∙ e))
            (none_overdue today (last t).1.requests (
              end_leaves-IsCleared today (ending t) 0 m t d
                (ending-IsCleared today t.requests (ending t) (λ id k. k)))),
    )
