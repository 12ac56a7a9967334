-- ===== src/Performance/Cycles/Report.antt =====
-- src/modules/performance/cycles.service.ts, report: the reviews of a cycle by department. The rounded
-- average is a quotient of floating-point numbers and the final order is the platform's
-- `localeCompare`; both are parameters.
pub mod Counts
pub mod Rows
use ai_hr_sytem.Base.{
  ℕ, suc, ◌+◌, Bool, true, false, not, ◌||◌, Option, none, some, List, [], ◌∷◌, map, String, ◌==◌,
  if◌then◌else◌, or_else, is_some, find, Action, pure, gets, ◌>>=◌, ◌>>◌,
}
use ai_hr_sytem.Base.Groups.{put, group}
use ai_hr_sytem.Employees.{Employee, find_employee}
use ai_hr_sytem.Departments.{Department}
use ai_hr_sytem.Performance.Defs.{ReviewStatus, review_status_eq, Review, PerformanceStore}
use ai_hr_sytem.Performance.Cycles.{find_cycle}

-- A row of the query.
pub record ReportEntry : Type 0 where
  pub department_id : ℕ
  pub department : String
  pub status : ReviewStatus
  pub final_rating : Option ℕ

-- The row as it is counted up.
pub record DepartmentTally : Type 0 where
  pub department_id : ℕ
  pub department : String
  pub reviews : ℕ
  pub completed : ℕ
  pub acknowledged : ℕ
  pub distribution : List (ℕ × ℕ)
  pub sum : ℕ
  pub rated : ℕ

-- The inner joins with the employee and the department.
unfoldable pub entry_of : PerformanceStore → Review → Option ReportEntry
entry_of s r = elim (find_employee r.employee_id s.employees) [
  | none ↦ none
  | some e ↦ elim (find (λ (d : Department). d.id == e.department_id) s.departments) [
    | none ↦ none
    | some d ↦ some (record {
      department_id = d.id;
      department = d.name;
      status = r.status;
      final_rating = r.final_rating;
    })
  ]
]

unfoldable pub report_entries : PerformanceStore → ℕ → List Review → List ReportEntry
report_entries s id [] = []
report_entries s id (r ∷ rs) =
    let rest = report_entries s id rs in
    if r.cycle_id == id then elim (entry_of s r) [ none ↦ rest | some x ↦ x ∷ rest ] else rest

abbrev pub first_tally : ReportEntry → DepartmentTally
first_tally x = record {
  department_id = x.department_id;
  department = x.department;
  reviews = 0;
  completed = 0;
  acknowledged = 0;
  distribution = [];
  sum = 0;
  rated = 0;
}

abbrev pub is_completed : ReportEntry → Bool
is_completed x =
    review_status_eq x.status ReviewStatus.completed
    || review_status_eq x.status ReviewStatus.acknowledged

abbrev pub is_acknowledged : ReportEntry → Bool
is_acknowledged x = review_status_eq x.status ReviewStatus.acknowledged

-- `row.distribution[v] = (row.distribution[v] ?? 0) + 1`
unfoldable pub count_rating : ℕ → List (ℕ × ℕ) → List (ℕ × ℕ)
unfolding put
count_rating = put (λ (v : ℕ). v) (λ _. 0) (λ _ n. n + 1)

-- The rating of an entry, where it has one.
unfoldable pub rate : Option ℕ → DepartmentTally → DepartmentTally
rate none t = t
rate (some v) t = record t {
  sum = t.sum + v;
  rated = t.rated + 1;
  distribution = count_rating v t.distribution;
}

-- The body of the loop.
unfoldable pub count_entry : ReportEntry → DepartmentTally → DepartmentTally
count_entry x t = rate x.final_rating (record t {
  reviews = t.reviews + 1;
  completed = if is_completed x then t.completed + 1 else t.completed;
  acknowledged = if is_acknowledged x then t.acknowledged + 1 else t.acknowledged;
})

unfoldable pub by_department : List ReportEntry → List (ℕ × DepartmentTally)
unfolding group
by_department = group ReportEntry.department_id first_tally count_entry []

module _ {A : Type 0} (average : ℕ → ℕ → A)
    (sorted : List (DepartmentTally × Option A) → List (DepartmentTally × Option A)) where
  -- The row that is answered: the tally, and the average of the ratings where there are some.
  abbrev pub report_row : ℕ × DepartmentTally → DepartmentTally × Option A
  report_row (_, t) = (t, if t.rated == 0 then none else some (average t.sum t.rated))

  -- `report`
  unfoldable pub report : ℕ → Action PerformanceStore (List (DepartmentTally × Option A))
  report id =
      find_cycle id
      >> gets (λ (s : PerformanceStore).
        sorted (map report_row (by_department (report_entries s id s.reviews))))
