-- ===== src/Performance/Cycles/Report/Rows.antt =====
-- The report of a cycle against a direct count over its reviews.
use ai_hr_sytem.Base.{
  ℕ, ◌≡◌, Bool, true, false, ◌&&◌, Option, none, some, List, ◌==◌, opt_eq, or_else, is_some, find,
  select, sum_of, length,
}
use ai_hr_sytem.Base.Groups.{value_at}
use ai_hr_sytem.Employees.{find_employee}
use ai_hr_sytem.Departments.{Department}
use ai_hr_sytem.Performance.Defs.{ReviewStatus, Review, PerformanceStore}
use ai_hr_sytem.Performance.Cycles.Report.{ReportEntry, DepartmentTally, report_entries}
use ai_hr_sytem.Performance.Cycles.Report.Counts.{of_department}

-- The department of the employee under review, where both are on file.
abbrev pub department_of : PerformanceStore → Review → Option ℕ
department_of s r = elim (find_employee r.employee_id s.employees) [
  | none ↦ none
  | some e ↦ elim (find (λ (d : Department). d.id == e.department_id) s.departments) [
    | none ↦ none
    | some d ↦ some d.id
  ]
]

-- The reviews of a cycle in a department.
abbrev pub department_reviews : PerformanceStore → ℕ → ℕ → List Review → List Review
department_reviews s id d =
    select (λ (r : Review). (r.cycle_id == id) && opt_eq (department_of s r) d)

abbrev pub was_completed : Review → Bool
was_completed r = elim r.status [
  | ReviewStatus.pending_self ↦ false
  | ReviewStatus.pending_manager ↦ false
  | ReviewStatus.pending_calibration ↦ false
  | ReviewStatus.completed ↦ true
  | ReviewStatus.acknowledged ↦ true
]

abbrev pub was_acknowledged : Review → Bool
was_acknowledged r = elim r.status [
  | ReviewStatus.pending_self ↦ false
  | ReviewStatus.pending_manager ↦ false
  | ReviewStatus.pending_calibration ↦ false
  | ReviewStatus.completed ↦ false
  | ReviewStatus.acknowledged ↦ true
]

-- A row that agrees with the reviews it stands for.
pub record IsTallied (rs : List Review) (t : DepartmentTally) : Type 0 where
  pub reviews : t.reviews ≡ length rs
  pub completed : t.completed ≡ length (select was_completed rs)
  pub acknowledged : t.acknowledged ≡ length (select was_acknowledged rs)
  pub rated : t.rated ≡ length (select (λ (r : Review). is_some r.final_rating) rs)
  pub sum : t.sum ≡ sum_of (λ (r : Review). or_else r.final_rating 0) rs
  pub distribution :
      (v : ℕ)
      → or_else (value_at v t.distribution) 0
        ≡ length (select (λ (r : Review). opt_eq r.final_rating v) rs)

module _ (s : PerformanceStore) (id d : ℕ) where
  abbrev entries_in : List Review → List ReportEntry
  entries_in rs = of_department d (report_entries s id rs)

  abbrev reviews_in : List Review → List Review
  reviews_in = department_reviews s id d
