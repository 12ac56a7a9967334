-- ===== src/Performance/Cycles/Scope.antt =====
-- src/modules/performance/cycles.service.ts, departmentSubtree: the recursive query, level by level,
-- and the employees that a cycle takes in.
pub mod Subtree
use ai_hr_sytem.Base.{
  ℕ, zero, suc, ◌+◌, ◌≤◌, ◌≡◌, refl, ap, arith, inl, inr, Bool, true, not, ◌&&◌, ◌||◌, Option, none,
  some, List, [], ◌∷◌, ◌++◌, map, ◌==◌, select, includes, length, Bool-cases, Option-cases,
}
use ai_hr_sytem.Employees.{Employee, EmployeeStatus, status_eq}
use ai_hr_sytem.Departments.{Department, next_level}

-- The rows of the query from a level downwards: none when the fuel ends before the levels do.
unfoldable pub collect_below : ℕ → List Department → List ℕ → Option (List ℕ)
collect_below n ds [] = some []
collect_below zero ds (x ∷ level) = none
collect_below (suc n) ds (x ∷ level) = elim (collect_below n ds (next_level (x ∷ level) ds)) [
  | none ↦ none
  | some rest ↦ some ((x ∷ level) ++ rest)
]

-- `SELECT id FROM departments WHERE id = $1`
abbrev pub root_level : List Department → ℕ → List ℕ
root_level ds root = map Department.id (select (λ (d : Department). d.id == root) ds)

-- `departmentSubtree`, on fuel for two levels more than there are departments.
unfoldable pub department_subtree : List Department → ℕ → Option (List ℕ)
department_subtree ds root = collect_below (suc (suc (length ds))) ds (root_level ds root)

-- The employees that a launch finds; a scope of none is the whole company.
unfoldable pub in_cycle_scope : Option (List ℕ) → Employee → Bool
in_cycle_scope scope e =
    not (status_eq e.status EmployeeStatus.terminated)
    && not e.is_deleted
    && elim scope [ none ↦ true | some ids ↦ includes ids e.department_id ]
