-- ===== src/Tests/Appraisal.antt =====
-- A review cycle with one review, from its launch to its close.
use ai_hr_sytem.Base.{
  Result, select, ◌++◌, ℕ, ◌≡◌, refl, arith, true, false, Option, none, some, List, [], ◌∷◌, map,
  includes,
}
use ai_hr_sytem.Performance.Defs.{
  CyclePhase, ReviewCycle, Score, Review, ReviewStatus, ReviewFeedback, FeedbackStatus,
  PerformanceStore, AuthUser, team_reviews_due,
}
use ai_hr_sytem.Performance.Cycles.{default_rating_scale, find_cycle}
use ai_hr_sytem.Performance.Cycles.Scope.{department_subtree}
use ai_hr_sytem.Performance.Cycles.Scope.Subtree.{InSubtree, department_subtree_correct}
use ai_hr_sytem.Performance.Cycles.Phases.{
  advance, enter_phase, notices_of_close, closed_notice, rating_label, new_review,
}
use ai_hr_sytem.Performance.Cycles.Report.{DepartmentTally, report}
use ai_hr_sytem.Performance.Reviews.{
  AssessmentForm, on_scale, edit_review, find_review, role_for, is_above, validate_assessment,
  assert_on_scale, all_scored, has_score, check_scores,
}
use ai_hr_sytem.Performance.Reviews.Handlers.{
  submit_self, check_self, submit_manager, check_manager, calibrate, check_calibrate, acknowledge,
  check_acknowledge,
}
use ai_hr_sytem.Performance.Reviews.View.{view}
use ai_hr_sytem.Performance.Reviews.View.Privacy.{regiven, view_hides_ratings, view_hides_givers}
use ai_hr_sytem.Performance.Reviews.Reminders.{due_notices, send_reminders}
use ai_hr_sytem.Performance.Reviews.Reminders.Sent.{
  tells_reviewer, team_notices, send_reminders_tells,
}
use ai_hr_sytem.Calendar.{add_days, next_day, days_in_month, is_leap}
use ai_hr_sytem.Performance.Goals.{CreateGoal}
use ai_hr_sytem.Performance.Goals.Weights.{IsBalanced}
use ai_hr_sytem.Performance.Goals.Steps.{create_op, approve_op, apply_goals, apply_goals-IsBalanced}
use ai_hr_sytem.Performance.Sound.{fits, is_consistent, IsSound}
use ai_hr_sytem.Performance.Sound.Runs.{
  ReviewOp, advance_op, self_op, manager_op, calibrate_op, acknowledge_op, reassign_op, apply_op,
  apply_ops, apply_ops-IsSound,
}
use ai_hr_sytem.Performance.Launched.{IsLaunched, apply_ops-IsLaunched}
use ai_hr_sytem.Performance.Closed.{IsFinal}
use ai_hr_sytem.Performance.Closed.Runs.{closed_review-IsFinal}
use ai_hr_sytem.Employees.{find_employee}
use ai_hr_sytem.Tests.Staff.{worker, staff, office}
use ai_hr_sytem.Tests.Tree.{units, units-IsTree}

abbrev half_year : ReviewCycle
half_year = record {
  id = 7;
  name = "H2 2026";
  description = none;
  period_start = 20260701;
  period_end = 20261231;
  phase = CyclePhase.self_review;
  self_review_deadline = 20270115;
  manager_review_deadline = 20270131;
  department_id = none;
  rating_scale = default_rating_scale;
  competencies = 1 ∷ [];
  launched_at = some 100;
  closed_at = none;
  created_by_user_id = some 10;
}

-- The review of worker 2, whose manager is worker 1.
abbrev started : Review
started = new_review 21 7 2 (some 10)

abbrev season : PerformanceStore
season = record {
  employees = staff;
  departments = units;
  users = office.users;
  cycles = half_year ∷ [];
  next_cycle_id = 8;
  reviews = started ∷ [];
  next_review_id = 22;
  feedback = [];
  next_feedback_id = 1;
  goals = [];
  next_goal_id = 1;
  notices = [];
}

abbrev reviewee : AuthUser
reviewee = record { id = 20; can_manage_cycles = false; can_write_team = false }

abbrev boss : AuthUser
boss = record { id = 10; can_manage_cycles = false; can_write_team = true }

abbrev form : ℕ → AssessmentForm
form n = record {
  assessment = record {
    summary = "steady";
    achievements = none;
    challenges = none;
    competencies = (1, Score.level 3) ∷ [];
  };
  rating = n;
}

-- From the self-review to the acknowledgement.
abbrev whole_year : List ReviewOp
whole_year =
    self_op 110 21 (form 5) reviewee
    ∷ advance_op 120 7
    ∷ manager_op 130 21 (form 3) boss
    ∷ advance_op 140 7
    ∷ calibrate_op 21 4 none
    ∷ advance_op 150 7
    ∷ acknowledge_op 160 21 none reviewee
    ∷ []

season-IsSound : IsSound season
unfolding is_consistent fits
season-IsSound = record { each = (refl, tt) }

apply_ops-IsSound_example : IsSound (apply_ops whole_year season)
apply_ops-IsSound_example = apply_ops-IsSound whole_year season season-IsSound

abbrev outcome : PerformanceStore → List (ReviewStatus × Option ℕ × Option ℕ × Option ℕ)
outcome s =
    map (λ (r : Review). (r.status, r.self_rating, r.manager_rating, r.final_rating)) s.reviews

-- The operations go through.
whole_year_runs :
    outcome (apply_ops whole_year season) ≡ (ReviewStatus.acknowledged, some 5, some 3, some 4) ∷ []
unfolding apply_ops apply_op submit_self submit_manager calibrate acknowledge advance edit_review
    find_review find_employee check_self check_manager check_calibrate check_acknowledge role_for
    is_above validate_assessment assert_on_scale on_scale all_scored has_score check_scores
    find_cycle enter_phase notices_of_close closed_notice rating_label
whole_year_runs = refl

season-IsLaunched : IsLaunched half_year season
season-IsLaunched = record {
  row = half_year;
  found = refl;
  begun = refl;
  later = omega arith;
  scale = refl;
  competencies = refl;
  department = refl;
}

apply_ops-IsLaunched_example : IsLaunched half_year (apply_ops whole_year season)
apply_ops-IsLaunched_example = apply_ops-IsLaunched whole_year half_year season season-IsLaunched

abbrev over : ReviewCycle
over = record half_year { phase = CyclePhase.closed; closed_at = some 150 }

abbrev rated : Review
rated = record started {
  status = ReviewStatus.completed;
  self_rating = some 5;
  manager_rating = some 3;
  final_rating = some 4;
  calibration_note = some "close call";
}

abbrev answer : ReviewFeedback
answer = record {
  id = 31;
  review_id = 21;
  giver_user_id = 30;
  requested_by_user_id = some 10;
  status = FeedbackStatus.submitted;
  answers = none;
  submitted_at = some 125;
}

abbrev archive : PerformanceStore
archive = record season { cycles = over ∷ []; reviews = rated ∷ []; feedback = answer ∷ [] }

archive-IsFinal : IsFinal over rated archive
archive-IsFinal = record {
  cycle = record {
    row = over;
    found = refl;
    begun = refl;
    later = omega arith;
    scale = refl;
    competencies = refl;
    department = refl;
  };
  row = rated;
  found = refl;
  same = refl;
}

abbrev late_ops : List ReviewOp
late_ops =
    manager_op 170 21 (form 1) boss ∷ acknowledge_op 180 21 none reviewee ∷ reassign_op 21 none ∷ []

closed_review-IsFinal_example : IsFinal over rated (apply_ops late_ops archive)
closed_review-IsFinal_example =
    closed_review-IsFinal late_ops over rated refl refl archive archive-IsFinal

-- The same season after the manager wrote.
abbrev written : Review
written = record started {
  manager_assessment = none;
  manager_rating = some 1;
  final_rating = some 2;
  calibration_note = some "hm";
}

abbrev season_written : PerformanceStore
season_written = record season { reviews = written ∷ []; feedback = answer ∷ [] }

view_hides_ratings_example : (view 21 reviewee season).0 ≡ (view 21 reviewee season_written).0
unfolding find_employee
view_hides_ratings_example =
    view_hides_ratings 21 reviewee started half_year (worker 2 (some 1)) season season_written none
      (some 1) (some 2) (some "hm")
      (record { found = refl; cycle = refl; employee = refl; own = refl; plain = refl })
      (record { found = refl; cycle = refl; employee = refl; own = refl; plain = refl }) refl

abbrev other_archive : PerformanceStore
other_archive = record archive {
  reviews = record rated { calibration_note = none } ∷ [];
  feedback = map (regiven (λ _. 10) (λ _. none)) (answer ∷ []);
}

view_hides_givers_example : (view 21 reviewee archive).0 ≡ (view 21 reviewee other_archive).0
unfolding find_employee
view_hides_givers_example =
    view_hides_givers 21 reviewee rated (record rated { calibration_note = none }) over
      (worker 2 (some 1)) archive other_archive (λ _. 10) (λ _. none)
      (record { found = refl; cycle = refl; employee = refl; own = refl; plain = refl })
      (record { found = refl; cycle = refl; employee = refl; own = refl; plain = refl }) refl refl

department_subtree_correct_example :
    (ids : List ℕ) × (department_subtree units 2 ≡ some ids)
    × ((c : ℕ) → includes ids c ≡ true → InSubtree units 2 c)
    × ((c : ℕ) → InSubtree units 2 c → includes ids c ≡ true)
department_subtree_correct_example = department_subtree_correct units 2 units-IsTree

season-IsBalanced : IsBalanced season
season-IsBalanced = record { keyed = tt; within = λ e. omega arith; signed = tt }

abbrev aim : CreateGoal
aim = record {
  employee_id = some 2;
  cycle_id = some 7;
  title = "Ship the billing service";
  description = none;
  weight = some 60;
  due_date = none;
}

apply_goals-IsBalanced_example : IsBalanced (
    apply_goals
      (create_op 100 aim reviewee ∷ create_op 101 aim boss ∷ approve_op 102 1 boss ∷ [])
      season)
apply_goals-IsBalanced_example =
    apply_goals-IsBalanced
      (create_op 100 aim reviewee ∷ create_op 101 aim boss ∷ approve_op 102 1 boss ∷ []) season
      season-IsBalanced

-- The report as it is counted, with no average and in no other order.
abbrev plain_report : PerformanceStore → Result (List (DepartmentTally × Option ℕ))
plain_report s = (report (λ sum n. 0) (λ rows. rows) 7 s).0

-- The manager is reminded of one review in the one cycle whose manager phase ends on the day.
abbrev season_late : PerformanceStore
season_late = record season {
  cycles = record half_year { phase = CyclePhase.manager_review } ∷ [];
  reviews = record started { status = ReviewStatus.pending_manager } ∷ [];
}

send_reminders_tells_example :
    let due = due_notices 20270131 season_late in
    ((send_reminders 20270131 season_late).1.notices ≡ season_late.notices ++ due)
    × (select (tells_reviewer 10) due
        ≡ team_notices 20270131 10 season_late.reviews season_late.cycles)
send_reminders_tells_example = send_reminders_tells 20270131 10 season_late

told_of_one :
    team_notices 20270131 10 season_late.reviews season_late.cycles ≡ team_reviews_due 10 7 1 ∷ []
unfolding team_notices add_days next_day days_in_month is_leap
told_of_one = refl
