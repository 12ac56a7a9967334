-- ===== src/Tests/Tree.antt =====
-- A company with two departments under the first one.
use ai_hr_sytem.Base.{
  ℕ, ◌≤◌, ◌<◌, ◌≡◌, refl, arith, Bool, true, Option, none, some, List, [], ◌∷◌, length, err,
  bad_request,
}
use ai_hr_sytem.Departments.{
  CreateDepartment, Department, DepartmentStore, UpdateDepartment, find_department, search_below,
  next_level, is_descendant, update_department, check_move,
}
use ai_hr_sytem.Departments.Below.{is_parent, Below, direct, above, IsTree}
use ai_hr_sytem.Departments.Query.{search_below_ends, is_descendant_correct}
use ai_hr_sytem.Departments.Moves.{
  Change, IsWellFormed, creates, updates, removes, apply_changes, apply_changes-IsWellFormed,
}
use ai_hr_sytem.Tests.Staff.{staff}

abbrev pub unit_under : ℕ → Option ℕ → Department
unit_under id parent = record {
  id = id;
  name = "unit";
  code = id;
  description = none;
  parent_id = parent;
  head_employee_id = none;
}

abbrev pub units : List Department
units = unit_under 1 none ∷ unit_under 2 (some 1) ∷ unit_under 3 (some 2) ∷ []

-- A parent has a smaller id here.
smaller : (t p : ℕ) → is_parent units t p ≡ true → p < t
smaller t p h = ground arith

lower : {t a : ℕ} → Below units t a → a < t
lower {t} {a} (direct e) = smaller t a e
lower {t} (above {k = k} e r) = omega (arith, smaller t k e, lower r)

pub units-IsTree : IsTree units
units-IsTree t r = omega (arith, lower r)

abbrev map_of_units : DepartmentStore
map_of_units = record { departments = units; employees = staff; next_id = 4 }

abbrev to_under : ℕ → UpdateDepartment
to_under p = record {
  name = none;
  code = none;
  description = none;
  parent_id = some (some p);
  head_employee_id = none;
}

map_of_units-IsWellFormed : IsWellFormed map_of_units
map_of_units-IsWellFormed = record {
  tree = units-IsTree;
  rows = λ x h. ground arith;
  parents = λ t k h. ground arith;
}

abbrev opens : CreateDepartment
opens = record {
  name = "unit";
  code = 9;
  description = none;
  parent_id = some 3;
  head_employee_id = none;
}

-- A unit is opened under the third; the first cannot go under the third; the third goes under the
-- first; and the second, which is left without units, has no members and is closed.
abbrev changes : List Change
changes = creates opens ∷ updates 1 (to_under 3) ∷ updates 3 (to_under 1) ∷ removes 2 ∷ []

apply_changes-IsWellFormed_example : IsWellFormed (apply_changes changes map_of_units)
apply_changes-IsWellFormed_example =
    apply_changes-IsWellFormed changes map_of_units map_of_units-IsWellFormed

loop_refused :
    (update_department 1 (to_under 3) map_of_units).0
    ≡ err (bad_request "Cannot move a department under one of its own descendants")
unfolding update_department find_department check_move is_descendant search_below
loop_refused = refl

enough_levels : length units ≤ 3
enough_levels = omega arith

search_below_ends_example :
    (found : Bool) × (search_below 3 units 3 (next_level (1 ∷ []) units) ≡ some found)
search_below_ends_example = search_below_ends 3 3 1 units units-IsTree enough_levels

is_descendant_correct_example :
    (is_descendant units 3 1 ≡ true → Below units 3 1)
    × (Below units 3 1 → is_descendant units 3 1 ≡ true)
is_descendant_correct_example = is_descendant_correct 3 1 units units-IsTree
