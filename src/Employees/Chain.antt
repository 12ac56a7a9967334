-- ===== src/Employees/Chain.antt =====
-- The reporting lines: what the recursive query decides, and why no placement closes a cycle.
use ai_hr_sytem.Base.{
  ℕ, zero, suc, ◌≤◌, ◌≡◌, refl, ◌∙◌, sym, ap, subst, ◌⊎◌, inl, inr, arith, true, false, Option,
  none, some, List, [], ◌∷◌, ◌==◌, ==→eq, any, Bool-cases, Option-cases,
}
use ai_hr_sytem.Employees.{
  Employee, Company, find_employee, manager_of, in_chain, is_in_reporting_chain, max_depth,
  update_employee, placed,
}

-- `m` stands above `t`, directly or through any number of levels.
pub data Reports (es : List Employee) : ℕ → ℕ → Type 0 where
  direct : {t m : ℕ} → manager_of es t ≡ some m → Reports es t m
  above : {t k m : ℕ} → manager_of es t ≡ some k → Reports es k m → Reports es t m

abbrev pub levels : {es : List Employee} {t m : ℕ} → Reports es t m → ℕ
levels (direct e) = 1
levels (above e r) = suc (levels r)

pub Reports-trans :
    {es : List Employee} {a b c : ℕ} → Reports es a b → Reports es b c → Reports es a c
Reports-trans (direct e) s = above e s
Reports-trans (above e r) s = above e (Reports-trans r s)

-- A manager that the query finds stands above the target.
pub in_chain_sound :
    (n : ℕ) (es : List Employee) (m t : ℕ) → in_chain n es m t ≡ true → Reports es t m
unfolding in_chain
in_chain_sound zero es m t h = absurd (ground arith)
in_chain_sound (suc n) es m t h = elim (Option-cases (manager_of es t)) [
  | inl e ↦ absurd (ground arith)
  | inr (k, e) ↦ elim (Bool-cases (k == m)) [
    | inl q ↦ direct (e ∙ ap some (==→eq k m q))
    | inr q ↦ above e (in_chain_sound n es m k (ground arith))
  ]
]

-- The query finds every manager who stands no more levels above the target than it climbs.
pub in_chain_complete :
    (n : ℕ) {es : List Employee} {m t : ℕ} (r : Reports es t m)
    → levels r ≤ n
    → in_chain n es m t ≡ true
unfolding in_chain
in_chain_complete zero (direct e) h = absurd (omega arith)
in_chain_complete zero (above e r) h = absurd (omega arith)
in_chain_complete (suc n) (direct e) h = ground arith
in_chain_complete (suc n) (above e r) h = ground (arith, in_chain_complete n r (omega arith))

-- After a placement only the placed employee has another manager.
manager_of-placed :
    (x d : ℕ) (p m : Option ℕ) (es : List Employee) (t k : ℕ)
    → manager_of (update_employee x (placed d p m) es) t ≡ some k
    → (manager_of es t ≡ some k) ⊎ ((t ≡ x) × (m ≡ some k))
unfolding manager_of
manager_of-placed x d p m [] t k h = absurd (ground arith)
manager_of-placed x d p m (e ∷ es) t k h = ground (arith, manager_of-placed x d p m es t k)

-- Nobody stands above themselves.
abbrev pub IsAcyclic : List Employee → Type 0
IsAcyclic es = (t : ℕ) → ¬ Reports es t t

-- No line is longer than the query climbs.
abbrev pub IsShallow : List Employee → Type 0
IsShallow es = (t m : ℕ) (r : Reports es t m) → levels r ≤ max_depth

-- `t` is `x` or reports to it.
abbrev pub AtOrUnder : List Employee → ℕ → ℕ → Type 0
AtOrUnder es t x = (t ≡ x) ⊎ Reports es t x

under_step :
    {es : List Employee} {t k x : ℕ}
    → manager_of es t ≡ some k
    → AtOrUnder es k x
    → AtOrUnder es t x
under_step e (inl q) = inr (direct (e ∙ ap some q))
under_step e (inr r) = inr (above e r)

-- A line after the placement is a line from before, or passes from `x` to its new manager.
Reports-placed :
    (x d : ℕ) (p : Option ℕ) (m : Option ℕ) {es : List Employee} {t u : ℕ}
    → Reports (update_employee x (placed d p m) es) t u
    → Reports es t u ⊎ ((k : ℕ) × (m ≡ some k) × AtOrUnder es t x × AtOrUnder es k u)
Reports-placed x d p m {es} {t} {u} (direct e) = elim (manager_of-placed x d p m es t u e) [
  | inl old ↦ inl (direct old)
  | inr (q, new) ↦ inr (u, new, inl q, inl refl)
]
Reports-placed x d p m {es} {t} {u} (above {k = j} e r) =
    elim (manager_of-placed x d p m es t j e) [
      | inl old ↦ elim (Reports-placed x d p m r) [
        | inl s ↦ inl (above old s)
        | inr (k, new, under, over) ↦ inr (k, new, under_step old under, over)
      ]
      | inr (q, new) ↦ elim (Reports-placed x d p m r) [
        | inl s ↦ inr (j, new, inl q, inr s)
        | inr (k, also, under, over) ↦ inr (k, also, inl q, over)
      ]
    ]

-- A manager who does not report to the placed employee closes no cycle.
pub placed-IsAcyclic :
    (x d : ℕ) (p : Option ℕ) (m : Option ℕ) (es : List Employee)
    → IsAcyclic es
    → ((k : ℕ) → m ≡ some k → ¬ AtOrUnder es k x)
    → IsAcyclic (update_employee x (placed d p m) es)
placed-IsAcyclic x d p m es acyclic free t r = elim (Reports-placed x d p m r) [
  | inl old ↦ acyclic t old
  | inr (k, new, under, over) ↦ free k new (joined k t over under)
]
  where
    joined : (k t : ℕ) → AtOrUnder es k t → AtOrUnder es t x → AtOrUnder es k x
    joined k t (inl q) (inl r) = inl (q ∙ r)
    joined k t (inl q) (inr r) = inr (subst (λ v. Reports es v x) (sym q) r)
    joined k t (inr q) (inl r) = inr (subst (λ v. Reports es k v) r q)
    joined k t (inr q) (inr r) = inr (Reports-trans q r)

-- A manager that the check lets through does not report to the employee.
pub checked_manager :
    (es : List Employee) (x k : ℕ)
    → IsShallow es
    → (x == k) ≡ false
    → is_in_reporting_chain es x k ≡ false
    → ¬ AtOrUnder es k x
unfolding is_in_reporting_chain
checked_manager es x k shallow other out (inl q) = ground arith
checked_manager es x k shallow other out (inr r) =
    ground (arith, in_chain_complete max_depth r (shallow k x r))

-- The primary key: no two rows have one id.
abbrev pub HasUniqueIds : List Employee → Type 0
HasUniqueIds [] = Unit
HasUniqueIds (e ∷ es) = (any (λ f. f.id == e.id) es ≡ false) × HasUniqueIds es

-- A row that is found has the id asked for, and the query reads its manager.
no_row :
    (es : List Employee) (id : ℕ) → any (λ f. f.id == id) es ≡ false → find_employee id es ≡ none
unfolding find_employee
no_row [] id h = refl
no_row (e ∷ es) id h = ground (arith, no_row es id)

pub found_row :
    (es : List Employee) (id : ℕ) {emp : Employee}
    → HasUniqueIds es
    → find_employee id es ≡ some emp
    → (emp.id ≡ id) × (manager_of es id ≡ emp.manager_id)
unfolding find_employee manager_of
found_row [] id u h = absurd (ground arith)
found_row (e ∷ es) id {emp} u h = elim (Bool-cases (e.id == id)) [
  | inl q ↦ ground (arith, no_row es id)
  | inr q ↦ ground (arith, found_row es id {emp = emp} u.1)
]

pub own_row :
    (c : Company) (id : ℕ) (emp : Employee)
    → HasUniqueIds c.employees
    → find_employee id c.employees ≡ some emp
    → manager_of c.employees emp.id ≡ emp.manager_id
own_row c id emp unique e = let row = found_row c.employees id unique e in rw (row.0) (row.1)
