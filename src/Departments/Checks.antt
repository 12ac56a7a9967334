-- ===== src/Departments/Checks.antt =====
-- What the checks of the departments service read, and what they let pass.
use ai_hr_sytem.Base.{
  ℕ, ◌≡◌, refl, sym, subst, ◌∙◌, ◌⊎◌, inl, inr, arith, Bool, true, false, Option, none, some, ◌==◌,
  or_else, find, Bool-cases, Option-cases, ok, HttpError, throw_if,
}
use ai_hr_sytem.Departments.{
  check_parent, Department, DepartmentStore, is_descendant, find_department, assert_code_free,
  assert_employee_exists, check_move, same_parent, check_new_parent, check_new_code, check_new_head,
}
use ai_hr_sytem.Departments.Edges.{same_parent_eq, is_on_file, found_on_file}

-- The checks of a new parent leave a parent that is not below the department, or the old one.
pub checked_parent :
    (id : ℕ) (new : Option (Option ℕ)) (d : Department) (s : DepartmentStore) (k : ℕ)
    → (check_new_parent id new d s).0 ≡ ok tt
    → or_else new d.parent_id ≡ some k
    → (d.parent_id ≡ some k)
      ⊎ (((k == id) ≡ false)
          × (is_descendant s.departments k id ≡ false)
          × (is_on_file s.departments k ≡ true))
unfolding check_move find_department
checked_parent id none d s k h e = inl e
checked_parent id (some none) d s k h e = absurd (ground arith)
checked_parent id (some (some j)) d s k h e = elim (Bool-cases (same_parent (some j) d.parent_id)) [
  | inl q ↦ inl (sym (same_parent_eq (some j) d.parent_id q) ∙ e)
  | inr q ↦
      let same : j ≡ k = ground (arith, e) in
      elim (Bool-cases (j == id)) [
        | inl y ↦ absurd (ground (arith, h, q, y))
        | inr y ↦ elim (Option-cases (find (λ (x : Department). x.id == j) s.departments)) [
          | inl n ↦ absurd (ground (arith, h, q, y, n))
          | inr (x, f) ↦ elim (Bool-cases (is_descendant s.departments j id)) [
            | inl z ↦ absurd (ground (arith, h, q, y, f, z))
            | inr z ↦ inr (
                subst
                  (λ v.
                    ((v == id) ≡ false)
                    × (is_descendant s.departments v id ≡ false)
                    × (is_on_file s.departments v ≡ true))
                  same (y, z, found_on_file s.departments j x f))
          ]
        ]
      ]
]

pub check_new_code_store :
    (c : Option ℕ) (d : Department) (s : DepartmentStore) → (check_new_code c d s).1 ≡ s
unfolding assert_code_free
check_new_code_store none d s = refl
check_new_code_store (some c) d s = ground arith

pub check_new_parent_store :
    (id : ℕ) (new : Option (Option ℕ)) (d : Department) (s : DepartmentStore)
    → (check_new_parent id new d s).1 ≡ s
unfolding check_move find_department
check_new_parent_store id none d s = refl
check_new_parent_store id (some none) d s = ground arith
check_new_parent_store id (some (some p)) d s = ground arith

pub check_new_head_store :
    (h : Option (Option ℕ)) (s : DepartmentStore) → (check_new_head h s).1 ≡ s
unfolding assert_employee_exists
check_new_head_store none s = refl
check_new_head_store (some none) s = refl
check_new_head_store (some (some e)) s = ground arith

pub find_department_store : (id : ℕ) (s : DepartmentStore) → (find_department id s).1 ≡ s
unfolding find_department
find_department_store id s = ground arith

pub found_department :
    (id : ℕ) (s : DepartmentStore) (d : Department)
    → (find_department id s).0 ≡ ok d
    → find (λ (x : Department). x.id == id) s.departments ≡ some d
unfolding find_department
found_department id s d h =
    elim (Option-cases (find (λ (x : Department). x.id == id) s.departments)) [
      | inl n ↦ absurd (ground (arith, n, h))
      | inr (x, e) ↦ ground (arith, e, h)
    ]

pub throw_if_store : (b : Bool) (x : HttpError) (s : DepartmentStore) → (throw_if b x s).1 ≡ s
throw_if_store true x s = refl
throw_if_store false x s = refl

-- The parent of a new department is on file.
pub checked_first_parent :
    (parent : Option ℕ) (s : DepartmentStore) (k : ℕ)
    → (check_parent parent s).0 ≡ ok tt
    → parent ≡ some k
    → is_on_file s.departments k ≡ true
unfolding check_parent find_department
checked_first_parent none s k h e = absurd (ground arith)
checked_first_parent (some p) s k h e =
    elim (Option-cases (find (λ (x : Department). x.id == p) s.departments)) [
      | inl n ↦ absurd (ground (arith, n, h))
      | inr (x, f) ↦
          let same : p ≡ k = ground (arith, e) in
          subst (λ v. is_on_file s.departments v ≡ true) same (found_on_file s.departments p x f)
    ]

pub check_parent_store : (parent : Option ℕ) (s : DepartmentStore) → (check_parent parent s).1 ≡ s
unfolding check_parent find_department
check_parent_store none s = refl
check_parent_store (some p) s = ground arith

pub assert_code_free_store : (code : ℕ) (s : DepartmentStore) → (assert_code_free code s).1 ≡ s
unfolding assert_code_free
assert_code_free_store code s = ground arith
