-- ===== src/Employees/Termination.antt =====
-- `terminate`: what becomes of the leaver's reports, and the reporting lines afterwards.
use ai_hr_sytem.Base.{
  ℕ, ◌≡◌, ◌≢◌, subst, refl, ◌∙◌, ◌⊎◌, inl, inr, arith, Bool, true, false, Option, none, some, List,
  [], ◌∷◌, ◌==◌, opt_eq, or_else, update_where, Bool-cases, Option-cases, ok,
}
use ai_hr_sytem.Calendar.{IsoDate}
use ai_hr_sytem.Employees.{
  Employee, EmployeeStatus, Company, TerminateEmployee, find_employee, manager_of, update_employee,
  find_by_id, assert_not_terminated, commit_termination, suspend, suspend_user, suspend_login,
  terminate,
}
use ai_hr_sytem.Employees.Chain.{
  Reports, direct, above, IsAcyclic, HasUniqueIds, found_row, own_row,
}

-- The rows after the transaction of a termination.
abbrev left_rows : ℕ → Option ℕ → IsoDate → List Employee → List Employee
left_rows x m date es =
    update_where (λ e. opt_eq e.manager_id x) (λ e. record e { manager_id = m })
      (update_employee x
        (λ e. record e { status = EmployeeStatus.terminated; termination_date = some date }) es)

-- A manager afterwards is the one from before, and not the leaver, or the leaver's own manager
-- in the leaver's place.
manager_of-left :
    (x : ℕ) (m : Option ℕ) (date : IsoDate) (es : List Employee) (t k : ℕ)
    → manager_of (left_rows x m date es) t ≡ some k
    → ((manager_of es t ≡ some k) × ((k == x) ≡ false))
      ⊎ ((manager_of es t ≡ some x) × (m ≡ some k))
unfolding manager_of
manager_of-left x m date [] t k h = absurd (ground arith)
manager_of-left x m date (e ∷ es) t k h = elim (Bool-cases (opt_eq e.manager_id x)) [
  | inl q ↦ ground (arith, manager_of-left x m date es t k)
  | inr q ↦ ground (arith, manager_of-left x m date es t k)
]

module _ (x : ℕ) (m : Option ℕ) (date : IsoDate) (es : List Employee)
    (own : manager_of es x ≡ m) where
  -- A line afterwards is a line from before.
  Reports-left : {t u : ℕ} → Reports (left_rows x m date es) t u → Reports es t u
  Reports-left {t} {u} (direct e) = elim (manager_of-left x m date es t u e) [
    | inl old ↦ direct old.0
    | inr new ↦ above new.0 (direct (own ∙ new.1))
  ]
  Reports-left {t} {u} (above {k = k} e r) = elim (manager_of-left x m date es t k e) [
    | inl old ↦ above old.0 (Reports-left r)
    | inr new ↦ above new.0 (above (own ∙ new.1) (Reports-left r))
  ]

  left-IsAcyclic : IsAcyclic es → IsAcyclic (left_rows x m date es)
  left-IsAcyclic acyclic t r = acyclic t (Reports-left r)

  nobody_left : IsAcyclic es → (t : ℕ) → ¬ (manager_of (left_rows x m date es) t ≡ some x)
  nobody_left acyclic t h = elim (manager_of-left x m date es t x h) [
    | inl old ↦ ground arith
    | inr new ↦ acyclic x (direct (own ∙ new.1))
  ]

suspend_login_keeps :
    (o : Option ℕ) (wanted : Bool) (actor : ℕ) (c : Company)
    → (suspend_login o wanted actor c).1.employees ≡ c.employees
unfolding suspend_login suspend_user suspend
suspend_login_keeps none wanted actor c = refl
suspend_login_keeps (some u) wanted actor c = ground arith

module _ (id : ℕ) (dto : TerminateEmployee) (actor : ℕ) (c : Company) where
  terminate_unknown : find_employee id c.employees ≡ none → (terminate id dto actor c).1 ≡ c
  unfolding terminate find_by_id
  terminate_unknown e = ground arith

  -- Somebody found: the rows are as they were, or the transaction has run.
  terminate_found :
      (emp : Employee)
      → find_employee id c.employees ≡ some emp
      → ((terminate id dto actor c).1.employees ≡ c.employees)
        ⊎ ((terminate id dto actor c).1.employees ≡ (commit_termination emp dto actor c).employees)
  unfolding terminate find_by_id assert_not_terminated
  terminate_found emp e = ground (
    arith,
    suspend_login_keeps emp.user_id (or_else dto.suspend_login true) actor
        (commit_termination emp dto actor c),
  )

commit_rows :
    (emp : Employee) (dto : TerminateEmployee) (actor : ℕ) (c : Company)
    → (commit_termination emp dto actor c).employees
      ≡ left_rows emp.id emp.manager_id dto.termination_date c.employees
unfolding commit_termination
commit_rows emp dto actor c = refl

-- A termination, refused or made, never closes a reporting cycle, as long as ids are unique.
pub terminate-IsAcyclic :
    (id : ℕ) (dto : TerminateEmployee) (actor : ℕ) (c : Company)
    → HasUniqueIds c.employees
    → IsAcyclic c.employees
    → IsAcyclic (terminate id dto actor c).1.employees
terminate-IsAcyclic id dto actor c unique acyclic =
    elim (Option-cases (find_employee id c.employees)) [
      | inl e ↦ rw (terminate_unknown id dto actor c e) acyclic
      | inr (emp, e) ↦ elim (terminate_found id dto actor c emp e) [
        | inl same ↦ rw same acyclic
        | inr new ↦ rw (new ∙ commit_rows emp dto actor c) (
            left-IsAcyclic emp.id emp.manager_id dto.termination_date c.employees
              (own_row c id emp unique e) acyclic)
      ]
    ]

terminate_ok_rows :
    (id : ℕ) (dto : TerminateEmployee) (actor : ℕ) (c : Company) (emp e : Employee)
    → find_employee id c.employees ≡ some emp
    → (terminate id dto actor c).0 ≡ ok e
    → (terminate id dto actor c).1.employees ≡ (commit_termination emp dto actor c).employees
unfolding terminate find_by_id assert_not_terminated
terminate_ok_rows id dto actor c emp e f h = ground (
  arith,
  suspend_login_keeps emp.user_id (or_else dto.suspend_login true) actor
      (commit_termination emp dto actor c),
)

terminate_ok_found :
    (id : ℕ) (dto : TerminateEmployee) (actor : ℕ) (c : Company) (e : Employee)
    → (terminate id dto actor c).0 ≡ ok e
    → find_employee id c.employees ≢ none
unfolding terminate find_by_id
terminate_ok_found id dto actor c e h = ground arith

-- After a termination that succeeds nobody reports directly to the leaver, as long as ids are
-- unique and there was no reporting cycle.
pub terminate_frees_reports :
    (id : ℕ) (dto : TerminateEmployee) (actor : ℕ) (c : Company) {e : Employee}
    → HasUniqueIds c.employees
    → IsAcyclic c.employees
    → (terminate id dto actor c).0 ≡ ok e
    → (t : ℕ) → manager_of (terminate id dto actor c).1.employees t ≢ some id
terminate_frees_reports id dto actor c {e} unique acyclic h t =
    elim (Option-cases (find_employee id c.employees)) [
      | inl out ↦ absurd (terminate_ok_found id dto actor c e h out)
      | inr (emp, f) ↦
          let row = found_row c.employees id unique f in
          λ q.
            nobody_left emp.id emp.manager_id dto.termination_date c.employees
              (own_row c id emp unique f) acyclic t
              (subst (λ es. manager_of es t ≡ some emp.id)
                (terminate_ok_rows id dto actor c emp e f h ∙ commit_rows emp dto actor c)
                (rw row.0 q))
    ]
