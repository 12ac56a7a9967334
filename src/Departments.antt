-- ===== src/Departments.antt =====
-- src/modules/employees/departments.service.ts: the tree of departments. The recursive query that
-- looks below a department runs level by level.
pub mod Below
pub mod Query
pub mod Edges
pub mod Checks
pub mod Moves
use ai_hr_sytem.Base.{
  ℕ, zero, suc, ◌+◌, Bool, true, false, not, ◌&&◌, Option, none, some, List, [], ◌∷◌, ◌++◌, map,
  String, ltb, ◌==◌, if◌then◌else◌, opt_eq, or_else, find, select, any, includes, update_where,
  length, Action, bad_request, conflict, server_error, not_found, pure, gets, or_throw, ◌>>=◌, ◌>>◌,
  throw_if, modify,
}
use ai_hr_sytem.Employees.{Employee, EmployeeStatus, status_eq}

pub record Department : Type 0 where
  pub id : ℕ
  pub name : String
  pub code : ℕ
  pub description : Option String
  pub parent_id : Option ℕ
  pub head_employee_id : Option ℕ

pub record DepartmentStore : Type 0 where
  pub departments : List Department
  pub employees : List Employee
  pub next_id : ℕ

pub record CreateDepartment : Type 0 where
  pub name : String
  pub code : ℕ
  pub description : Option String
  pub parent_id : Option ℕ
  pub head_employee_id : Option ℕ

-- A field that is absent is none; one that may be null is none or some of an option.
pub record UpdateDepartment : Type 0 where
  pub name : Option String
  pub code : Option ℕ
  pub description : Option (Option String)
  pub parent_id : Option (Option ℕ)
  pub head_employee_id : Option (Option ℕ)

-- `findById`
unfoldable pub find_department : ℕ → Action DepartmentStore Department
find_department id = do
  or_throw (← gets (λ (s : DepartmentStore). find (λ (d : Department). d.id == id) s.departments))
      (not_found "Department not found")

-- `assertCodeFree`
unfoldable pub assert_code_free : ℕ → Action DepartmentStore (Unit {0})
assert_code_free code = do
  throw_if
      (← gets (λ (s : DepartmentStore). any (λ (d : Department). d.code == code) s.departments))
      (conflict "Department code is already in use")

-- `assertEmployeeExists`
unfoldable pub assert_employee_exists : Option ℕ → Action DepartmentStore (Unit {0})
assert_employee_exists none = pure tt
assert_employee_exists (some id) = do
  found ← gets (λ (s : DepartmentStore).
      any
        (λ (e : Employee).
          (e.id == id) && not (status_eq e.status EmployeeStatus.terminated) && not e.is_deleted)
        s.employees)
  throw_if (not found) (bad_request "Head employee not found or not active")

-- The next level of the query: the departments whose parent is on this one.
abbrev pub is_child_of : List ℕ → Department → Bool
is_child_of ids d = elim d.parent_id [ none ↦ false | some p ↦ includes ids p ]

abbrev pub next_level : List ℕ → List Department → List ℕ
next_level ids ds = map Department.id (select (is_child_of ids) ds)

-- The query from a level downwards: none when the fuel ends before the levels do.
unfoldable pub search_below : ℕ → List Department → ℕ → List ℕ → Option Bool
search_below n ds candidate [] = some false
search_below zero ds candidate (x ∷ level) = none
search_below (suc n) ds candidate (x ∷ level) =
    let rest = search_below n ds candidate (next_level (x ∷ level) ds) in
    if includes (x ∷ level) candidate then some true else rest

-- `isDescendant`, on fuel for one level more than there are departments.
unfoldable pub is_descendant : List Department → ℕ → ℕ → Bool
is_descendant ds candidate ancestor =
    or_else (search_below (suc (length ds)) ds candidate (next_level (ancestor ∷ []) ds)) false

abbrev pub save_department : Department → DepartmentStore → DepartmentStore
save_department d s = record s {
  departments = update_where (λ (x : Department). x.id == d.id) (λ _. d) s.departments;
}

-- The parent of a new department is looked up.
unfoldable pub check_parent : Option ℕ → Action DepartmentStore (Unit {0})
check_parent none = pure tt
check_parent (some p) = find_department p >> pure tt

abbrev pub new_department : ℕ → CreateDepartment → Department
new_department id dto = record {
  id = id;
  name = dto.name;
  code = dto.code;
  description = dto.description;
  parent_id = dto.parent_id;
  head_employee_id = dto.head_employee_id;
}

abbrev pub add_department : CreateDepartment → DepartmentStore → DepartmentStore
add_department dto s = record s {
  departments = s.departments ++ new_department s.next_id dto ∷ [];
  next_id = s.next_id + 1;
}

-- `create`
unfoldable pub create : CreateDepartment → Action DepartmentStore (Unit {0})
create dto =
    assert_code_free dto.code
    >> (check_parent dto.parent_id
        >> (assert_employee_exists dto.head_employee_id >> modify (add_department dto)))

-- The checks of `update` on a new parent, where it differs from the old one.
unfoldable pub check_move : ℕ → Option ℕ → Action DepartmentStore (Unit {0})
check_move id none = pure tt
check_move id (some p) = do
  throw_if (p == id) (bad_request "A department cannot be its own parent")
  found ← find_department p
  ds ← gets (λ (s : DepartmentStore). s.departments)
  throw_if (is_descendant ds p id)
      (bad_request "Cannot move a department under one of its own descendants")

abbrev pub same_parent : Option ℕ → Option ℕ → Bool
same_parent none none = true
same_parent (some p) (some q) = p == q
same_parent _ _ = false

abbrev pub check_new_parent : ℕ → Option (Option ℕ) → Department → Action DepartmentStore (Unit {0})
check_new_parent id none d = pure tt
check_new_parent id (some p) d = if same_parent p d.parent_id then pure tt else check_move id p

abbrev pub check_new_code : Option ℕ → Department → Action DepartmentStore (Unit {0})
check_new_code none d = pure tt
check_new_code (some c) d = if c == d.code then pure tt else assert_code_free c

abbrev pub check_new_head : Option (Option ℕ) → Action DepartmentStore (Unit {0})
check_new_head none = pure tt
check_new_head (some h) = assert_employee_exists h

-- The row with the changes.
abbrev pub changed : UpdateDepartment → Department → Department
changed dto d = record d {
  name = or_else dto.name d.name;
  code = or_else dto.code d.code;
  description = or_else dto.description d.description;
  parent_id = or_else dto.parent_id d.parent_id;
  head_employee_id = or_else dto.head_employee_id d.head_employee_id;
}

abbrev pub update_found : ℕ → UpdateDepartment → Department → Action DepartmentStore (Unit {0})
update_found id dto d =
    check_new_code dto.code d
    >> (check_new_parent id dto.parent_id d
        >> (check_new_head dto.head_employee_id >> modify (save_department (changed dto d))))

-- `update`
unfoldable pub update_department : ℕ → UpdateDepartment → Action DepartmentStore (Unit {0})
update_department id dto = find_department id >>= update_found id dto

-- `remove`: soft-deleted employees do not count.
abbrev pub has_children : ℕ → List Department → Bool
has_children id = any (λ (x : Department). opt_eq x.parent_id id)

abbrev pub has_members : ℕ → List Employee → Bool
has_members id = any (λ (e : Employee). (e.department_id == id) && not e.is_deleted)

-- A soft-deleted employee still has the foreign key, which is ON DELETE RESTRICT.
abbrev pub is_referenced : ℕ → List Employee → Bool
is_referenced id = any (λ (e : Employee). e.department_id == id)

-- The row goes. Other tables that may name a department (positions, histories, cycles and runs lose
-- the name, templates go with it) are no part of this store.
abbrev pub without_department : ℕ → DepartmentStore → DepartmentStore
without_department id s = record s {
  departments = select (λ (x : Department). not (x.id == id)) s.departments;
}

abbrev pub remove_found : ℕ → Department → Action DepartmentStore (Unit {0})
remove_found id d = do
  children ← gets (λ (s : DepartmentStore). has_children id s.departments)
  members ← gets (λ (s : DepartmentStore). has_members id s.employees)
  referenced ← gets (λ (s : DepartmentStore). is_referenced id s.employees)
  throw_if children (conflict "Department has sub-departments; move or delete them first")
  throw_if members (conflict "Department has employees; transfer them first")
  throw_if referenced (server_error "violates foreign key constraint")
  modify (without_department id)

unfoldable pub remove_department : ℕ → Action DepartmentStore (Unit {0})
remove_department id = find_department id >>= remove_found id
