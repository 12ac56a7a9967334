-- ===== src/Departments/Moves.antt =====
-- `create`, `update` and `remove` of the departments: no move closes a cycle.
use ai_hr_sytem.Base.{
  ℕ, ◌≡◌, ◌<◌, ◌++◌, sym, subst, ◌∙◌, inl, inr, arith, true, false, not, some, List, [], ◌∷◌, ◌==◌,
  find, ok, conflict, server_error, check_then, throw_if, modify, ◌>>◌,
}
use ai_hr_sytem.Departments.{
  CreateDepartment, new_department, add_department, create, check_parent, Department,
  DepartmentStore, UpdateDepartment, is_descendant, find_department, assert_code_free,
  assert_employee_exists, check_new_parent, check_new_code, check_new_head, changed,
  save_department, update_found, update_department, remove_department, remove_found, has_children,
  is_referenced, has_members, without_department,
}
use ai_hr_sytem.Departments.Below.{is_parent, IsTree}
use ai_hr_sytem.Departments.Edges.{
  AtOrBelow, graft-IsTree, saved_edges, found_edge, selected_edges, selected-Below, is_on_file,
  saved_rows, selected_rows, added_rows, added_edges, last_edge,
}
use ai_hr_sytem.Departments.Query.{is_descendant_correct}
use ai_hr_sytem.Departments.Checks.{
  checked_parent, check_new_code_store, check_new_parent_store, check_new_head_store,
  find_department_store, found_department, throw_if_store, checked_first_parent, check_parent_store,
  assert_code_free_store,
}

-- The tables of departments: a tree, with ids that were handed out.
pub record IsWellFormed (s : DepartmentStore) : Type 0 where
  pub tree : IsTree s.departments
  pub rows : (x : ℕ) → is_on_file s.departments x ≡ true → x < s.next_id
  pub parents : (t k : ℕ) → is_parent s.departments t k ≡ true → k < s.next_id

-- The departments once the checks have let the change pass.
changed-IsTree :
    (id : ℕ) (dto : UpdateDepartment) (d : Department) (s : DepartmentStore)
    → IsTree s.departments
    → find (λ (x : Department). x.id == id) s.departments ≡ some d
    → (check_new_parent id dto.parent_id d s).0 ≡ ok tt
    → IsTree (save_department (changed dto d) s).departments
changed-IsTree id dto d s tree f p =
    let ds = s.departments in
    let new = changed dto d in
    let (own, old_edge) = found_edge_of ds id d f in
    graft-IsTree ds (save_department new s).departments id
      (λ t k e. elim (saved_edges new ds t k e) [
        | inl old ↦ inl old
        | inr (q, parent) ↦ elim (checked_parent id dto.parent_id d s k p parent) [
          | inl kept ↦ inl (subst (λ v. is_parent ds v k ≡ true) (sym (q ∙ own)) (old_edge k kept))
          | inr (other, out, there) ↦ inr (q ∙ own, not_below ds id k tree other out)
        ]
      ])
      tree
  where
    found_edge_of :
        (ds : List Department) (id : ℕ) (d : Department)
        → find (λ (x : Department). x.id == id) ds ≡ some d
        → (d.id ≡ id) × ((k : ℕ) → d.parent_id ≡ some k → is_parent ds id k ≡ true)
    found_edge_of ds id d f = ((found_edge ds id 0 d f).0, λ k. (found_edge ds id k d f).1)

    not_below :
        (ds : List Department) (id k : ℕ)
        → IsTree ds
        → (k == id) ≡ false
        → is_descendant ds k id ≡ false
        → ¬ AtOrBelow ds k id
    not_below ds id k tree other out (inl q) = ground arith
    not_below ds id k tree other out (inr r) =
        ground (arith, (is_descendant_correct k id ds tree).1 r, out)

-- The parents that are named once a change has passed the checks.
changed_parents :
    (id : ℕ) (dto : UpdateDepartment) (d : Department) (s : DepartmentStore)
    → IsWellFormed s
    → find (λ (x : Department). x.id == id) s.departments ≡ some d
    → (check_new_parent id dto.parent_id d s).0 ≡ ok tt
    → (t k : ℕ) → is_parent (save_department (changed dto d) s).departments t k ≡ true
    → k < s.next_id
changed_parents id dto d s h f p t k e = elim (saved_edges (changed dto d) s.departments t k e) [
  | inl old ↦ h.parents t k old
  | inr (q, parent) ↦ elim (checked_parent id dto.parent_id d s k p parent) [
    | inl kept ↦ h.parents id k ((found_edge s.departments id k d f).1 kept)
    | inr (other, out, there) ↦ h.rows k there
  ]
]

update-IsWellFormed :
    (id : ℕ) (dto : UpdateDepartment) (s : DepartmentStore)
    → IsWellFormed s
    → IsWellFormed (update_department id dto s).1
unfolding update_department
update-IsWellFormed id dto s w =
    check_then (find_department id) (update_found id dto) s IsWellFormed
      (find_department_store id s) w
      λ d f.
        let new = changed dto d in
        let save = modify (save_department new) in
        let head = check_new_head dto.head_employee_id in
        let parent = check_new_parent id dto.parent_id d in
        let rest = parent >> (head >> save) in
        let row = found_department id s d f in
        check_then (check_new_code dto.code d) (λ _. rest) s IsWellFormed
          (check_new_code_store dto.code d s) w
          λ a c.
            check_then parent (λ _. head >> save) s IsWellFormed
              (check_new_parent_store id dto.parent_id d s) w
              λ b p.
                check_then head (λ _. save) s IsWellFormed
                  (check_new_head_store dto.head_employee_id s) w
                  λ g h. record {
                    tree = changed-IsTree id dto d s w.tree row p;
                    rows = λ x k. w.rows x (saved_rows new s.departments x k);
                    parents = changed_parents id dto d s w row p;
                  }

remove-IsWellFormed :
    (id : ℕ) (s : DepartmentStore) → IsWellFormed s → IsWellFormed (remove_department id s).1
unfolding remove_department
remove-IsWellFormed id s w =
    let cut = modify (without_department id) in
    let kids = has_children id s.departments in
    let members = has_members id s.employees in
    let parent_left = conflict "Department has sub-departments; move or delete them first" in
    let staffed = conflict "Department has employees; transfer them first" in
    let named = is_referenced id s.employees in
    let broken = server_error "violates foreign key constraint" in
    let stays = λ (x : Department). not (x.id == id) in
    let ds = s.departments in
    let still : IsWellFormed (without_department id s) = record {
      tree = λ t r. w.tree t (selected-Below stays ds r);
      rows = λ x k. w.rows x (selected_rows stays ds x k);
      parents = λ t k e. w.parents t k (selected_edges stays ds t k e);
    } in
    check_then (find_department id) (remove_found id) s IsWellFormed (find_department_store id s) w
      λ d f.
        check_then (throw_if kids parent_left)
          (λ _. throw_if members staffed >> (throw_if named broken >> cut)) s IsWellFormed
          (throw_if_store kids parent_left s) w
          λ a c.
            check_then (throw_if members staffed) (λ _. throw_if named broken >> cut) s IsWellFormed
              (throw_if_store members staffed s) w
              λ b g.
                check_then (throw_if named broken) (λ _. cut) s IsWellFormed
                  (throw_if_store named broken s) w λ i j. still

-- A new department, under one that is on file, is a new leaf.
added-IsWellFormed :
    (dto : CreateDepartment) (s : DepartmentStore)
    → IsWellFormed s
    → ((k : ℕ) → dto.parent_id ≡ some k → is_on_file s.departments k ≡ true)
    → IsWellFormed (add_department dto s)
added-IsWellFormed dto s w there =
    let ds = s.departments in
    let new = new_department s.next_id dto in
    record {
      tree =
          graft-IsTree ds (ds ++ new ∷ []) s.next_id
            (λ t k e. elim (added_edges ds new t k e) [
              | inl old ↦ inl old
              | inr (q, parent) ↦ inr (q, leaf k (w.rows k (there k parent)))
            ])
            w.tree;
      rows = λ x k. elim (added_rows ds new x k) [
        | inl old ↦ omega (arith, w.rows x old)
        | inr q ↦ omega (arith, q)
      ];
      parents = λ t k e. elim (added_edges ds new t k e) [
        | inl old ↦ omega (arith, w.parents t k old)
        | inr (q, parent) ↦ omega (arith, w.rows k (there k parent))
      ];
    }
  where
    leaf : (k : ℕ) → k < s.next_id → ¬ AtOrBelow s.departments k s.next_id
    leaf k less (inl q) = omega (arith, less, q)
    leaf k less (inr r) = let (j, e) = last_edge r in omega (arith, w.parents j s.next_id e)

create-IsWellFormed :
    (dto : CreateDepartment) (s : DepartmentStore) → IsWellFormed s → IsWellFormed (create dto s).1
unfolding create
create-IsWellFormed dto s w =
    let save = modify (add_department dto) in
    let head = assert_employee_exists dto.head_employee_id in
    let parent = check_parent dto.parent_id in
    let rest = parent >> (head >> save) in
    check_then (assert_code_free dto.code) (λ _. rest) s IsWellFormed
      (assert_code_free_store dto.code s) w
      λ a c.
        check_then parent (λ _. head >> save) s IsWellFormed (check_parent_store dto.parent_id s) w
          λ b p.
            check_then head (λ _. save) s IsWellFormed
              (check_new_head_store (some dto.head_employee_id) s) w
              λ g h. added-IsWellFormed dto s w (λ k e. checked_first_parent dto.parent_id s k p e)

-- A call that changes the tree.
pub data Change : Type 0 where
  creates : CreateDepartment → Change
  updates : ℕ → UpdateDepartment → Change
  removes : ℕ → Change

abbrev pub apply_change : Change → DepartmentStore → DepartmentStore
apply_change (creates dto) s = (create dto s).1
apply_change (updates id dto) s = (update_department id dto s).1
apply_change (removes id) s = (remove_department id s).1

abbrev pub apply_changes : List Change → DepartmentStore → DepartmentStore
apply_changes [] s = s
apply_changes (c ∷ cs) s = apply_changes cs (apply_change c s)

change-IsWellFormed :
    (c : Change) (s : DepartmentStore) → IsWellFormed s → IsWellFormed (apply_change c s)
change-IsWellFormed (creates dto) s w = create-IsWellFormed dto s w
change-IsWellFormed (updates id dto) s w = update-IsWellFormed id dto s w
change-IsWellFormed (removes id) s w = remove-IsWellFormed id s w

-- Any sequence of creations, updates and removals of departments, those that are refused included,
-- leaves the departments a tree, none of them below itself, with no id that was not handed out.
pub apply_changes-IsWellFormed :
    (cs : List Change) (s : DepartmentStore) → IsWellFormed s → IsWellFormed (apply_changes cs s)
apply_changes-IsWellFormed [] s w = w
apply_changes-IsWellFormed (c ∷ cs) s w =
    apply_changes-IsWellFormed cs (apply_change c s) (change-IsWellFormed c s w)
