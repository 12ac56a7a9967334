-- ===== src/Performance/Reviews/Reminders.antt =====
-- src/modules/performance/reviews.service.ts, sendReminders: the daily job that nudges employees and
-- reviewers whose deadline is near.
pub mod Counts
pub mod Sent
use ai_hr_sytem.Base.{
  ℕ, ◌+◌, Bool, true, false, not, ◌&&◌, ◌||◌, Option, none, some, List, [], ◌∷◌, ◌++◌, leb, ◌==◌,
  if◌then◌else◌, is_some, select, length, Action, ok,
}
use ai_hr_sytem.Base.Groups.{group}
use ai_hr_sytem.Calendar.{IsoDate, add_days}
use ai_hr_sytem.Employees.{Employee, find_employee}
use ai_hr_sytem.Performance.Defs.{
  CyclePhase, phase_eq, ReviewCycle, Review, ReviewStatus, review_status_eq, PerformanceStore,
  Notice, self_review_due, team_reviews_due,
}
use ai_hr_sytem.Performance.Cycles.Phases.{has_status}

-- The first query: cycles whose self-reviews are due by a day.
abbrev pub is_self_due : IsoDate → ReviewCycle → Bool
is_self_due soon c = phase_eq c.phase CyclePhase.self_review && leb c.self_review_deadline soon

abbrev pub is_manager_due : IsoDate → ReviewCycle → Bool
is_manager_due soon c =
    phase_eq c.phase CyclePhase.manager_review && leb c.manager_review_deadline soon

-- `r.employee.userId`; the employee is there, by the foreign key.
abbrev pub reviewee_login : List Employee → Review → Option ℕ
reviewee_login es r = elim (find_employee r.employee_id es) [ none ↦ none | some e ↦ e.user_id ]

unfoldable pub self_notices : List Employee → ReviewCycle → List Review → List Notice
self_notices es c [] = []
self_notices es c (r ∷ rs) =
    let rest = self_notices es c rs in
    elim (reviewee_login es r) [
      | none ↦ rest
      | some login ↦ self_review_due login r.id c.self_review_deadline ∷ rest
    ]

unfoldable pub all_self_notices : List Employee → List Review → List ReviewCycle → List Notice
all_self_notices es rs [] = []
all_self_notices es rs (c ∷ cs) =
    self_notices es c (select (has_status c.id ReviewStatus.pending_self) rs)
    ++ all_self_notices es rs cs

-- The reviewer and the review that the loop counts; a review that is written is passed over.
unfoldable pub awaited : List Review → List (ℕ × Review)
awaited [] = []
awaited (r ∷ rs) =
    let rest = awaited rs in
    elim r.reviewer_user_id [
      | none ↦ rest
      | some login ↦ if is_some r.manager_submitted_at then rest else (login, r) ∷ rest
    ]

abbrev pub reviewer_of : ℕ × Review → ℕ
reviewer_of p = p.0

-- `byReviewer`
unfoldable pub by_reviewer : List Review → List (ℕ × ℕ)
unfolding group
by_reviewer rs = group reviewer_of (λ _. 0) (λ _ n. n + 1) [] (awaited rs)

unfoldable pub manager_notices : ReviewCycle → List (ℕ × ℕ) → List Notice
manager_notices c [] = []
manager_notices c ((login, n) ∷ rest) = team_reviews_due login c.id n ∷ manager_notices c rest

unfoldable pub all_manager_notices : List Review → List ReviewCycle → List Notice
all_manager_notices rs [] = []
all_manager_notices rs (c ∷ cs) =
    manager_notices c (by_reviewer (select (has_status c.id ReviewStatus.pending_manager) rs))
    ++ all_manager_notices rs cs

-- What the job queues on a day.
unfoldable pub due_notices : IsoDate → PerformanceStore → List Notice
due_notices today s =
    let soon = add_days today 2 in
    all_self_notices s.employees s.reviews (select (is_self_due soon) s.cycles)
    ++ all_manager_notices s.reviews (select (is_manager_due soon) s.cycles)

-- `sendReminders`; it answers with the number of messages.
unfoldable pub send_reminders : IsoDate → Action PerformanceStore ℕ
send_reminders today s =
    let due = due_notices today s in (ok (length due), record s { notices = s.notices ++ due })
