-- ===== src/Performance/Reviews/Reminders/Sent.antt =====
-- The reminders that a reviewer is sent on a day.
use ai_hr_sytem.Base.{
  ℕ, ◌≡◌, refl, sym, ap, ◌∙◌, arith, Bool, true, false, not, ◌&&◌, Option, none, some, List, [],
  ◌∷◌, ◌++◌, leb, ◌==◌, ==→eq, if◌then◌else◌, opt_eq, is_some, select, length, Bool-cases, inl, inr,
}
use ai_hr_sytem.Base.Groups.{value_at, HasNewKeys}
use ai_hr_sytem.Calendar.{IsoDate, add_days}
use ai_hr_sytem.Employees.{Employee}
use ai_hr_sytem.Performance.Defs.{
  CyclePhase, ReviewCycle, Review, ReviewStatus, PerformanceStore, Notice, team_reviews_due,
}
use ai_hr_sytem.Performance.Cycles.Phases.{has_status}
use ai_hr_sytem.Performance.Reviews.Reminders.{
  is_self_due, is_manager_due, self_notices, all_self_notices, by_reviewer, manager_notices,
  all_manager_notices, due_notices, send_reminders,
}
use ai_hr_sytem.Performance.Reviews.Reminders.Counts.{waits_for, by_reviewer_counts}

-- A notice that tells this login about team reviews.
abbrev pub tells_reviewer : ℕ → Notice → Bool
tells_reviewer login (team_reviews_due to cycle n) = to == login
tells_reviewer login _ = false

-- A review that the reviewer has yet to write in the manager phase of a cycle.
abbrev pub is_unwritten : ℕ → ℕ → Review → Bool
is_unwritten login cycle r =
    (r.cycle_id == cycle)
    && elim r.status [ ReviewStatus.pending_manager ↦ true | _ ↦ false ]
    && opt_eq r.reviewer_user_id login
    && not (is_some r.manager_submitted_at)

-- The manager phase of the cycle ends in two days at most.
abbrev pub ends_soon : IsoDate → ReviewCycle → Bool
ends_soon today c =
    elim c.phase [ CyclePhase.manager_review ↦ true | _ ↦ false ]
    && leb c.manager_review_deadline (add_days today 2)

-- What a reviewer is to be sent: a notice for each such cycle in which something is unwritten.
unfoldable pub team_notices : IsoDate → ℕ → List Review → List ReviewCycle → List Notice
team_notices today login rs [] = []
team_notices today login rs (c ∷ cs) =
    let rest = team_notices today login rs cs in
    let n = length (select (is_unwritten login c.id) rs) in
    if ends_soon today c && not (n == 0) then team_reviews_due login c.id n ∷ rest else rest

select-append :
    (p : Notice → Bool) (xs ys : List Notice) → select p (xs ++ ys) ≡ select p xs ++ select p ys
select-append p [] ys = refl
select-append p (x ∷ xs) ys = ground (arith, select-append p xs ys)

self-select :
    (login : ℕ) (es : List Employee) (c : ReviewCycle) (rs : List Review)
    → select (tells_reviewer login) (self_notices es c rs) ≡ []
unfolding self_notices
self-select login es c [] = refl
self-select login es c (r ∷ rs) = ground (arith, self-select login es c rs)

all_self-select :
    (login : ℕ) (es : List Employee) (rs : List Review) (cs : List ReviewCycle)
    → select (tells_reviewer login) (all_self_notices es rs cs) ≡ []
unfolding all_self_notices
all_self-select login es rs [] = refl
all_self-select login es rs (c ∷ cs) =
    let rows = select (has_status c.id ReviewStatus.pending_self) rs in
    select-append (tells_reviewer login) (self_notices es c rows) (all_self_notices es rs cs)
    ∙ ground (arith, self-select login es c rows, all_self-select login es rs cs)

-- One notice at most for each key.
absent-select :
    (login : ℕ) (c : ReviewCycle) (m : List (ℕ × ℕ))
    → value_at login m ≡ none
    → select (tells_reviewer login) (manager_notices c m) ≡ []
unfolding manager_notices
absent-select login c [] h = refl
absent-select login c ((k, n) ∷ m) h = ground (arith, h, absent-select login c m)

abbrev told : ℕ → ReviewCycle → Option ℕ → List Notice
told login c none = []
told login c (some n) = team_reviews_due login c.id n ∷ []

manager-select :
    (login : ℕ) (c : ReviewCycle) (m : List (ℕ × ℕ))
    → HasNewKeys m
    → select (tells_reviewer login) (manager_notices c m) ≡ told login c (value_at login m)
unfolding manager_notices
manager-select login c [] h = refl
manager-select login c ((k, n) ∷ m) h = elim (Bool-cases (k == login)) [
  | inl e ↦
      let gone : value_at login m ≡ none = ap (λ v. value_at v m) (sym (==→eq k login e)) ∙ h.0 in
      let same : k ≡ login = ==→eq k login e in
      ground (arith, e, same, absent-select login c m gone)
  | inr e ↦ ground (arith, e, manager-select login c m h.1)
]

unwritten-length :
    (login cycle : ℕ) (rs : List Review)
    → length (select (waits_for login) (select (has_status cycle ReviewStatus.pending_manager) rs))
      ≡ length (select (is_unwritten login cycle) rs)
unwritten-length login cycle [] = refl
unwritten-length login cycle (r ∷ rs) = ground (arith, unwritten-length login cycle rs)

all_manager-select :
    (today : IsoDate) (login : ℕ) (rs : List Review) (cs : List ReviewCycle)
    → select
        (tells_reviewer login)
        (all_manager_notices rs (select (is_manager_due (add_days today 2)) cs))
      ≡ team_notices today login rs cs
unfolding all_manager_notices team_notices
all_manager-select today login rs [] = refl
all_manager-select today login rs (c ∷ cs) =
    let rows = select (has_status c.id ReviewStatus.pending_manager) rs in
    let later = all_manager_notices rs (select (is_manager_due (add_days today 2)) cs) in
    let (value, keys) = by_reviewer_counts login rows in
    let first : select (tells_reviewer login) (manager_notices c (by_reviewer rows))
        ≡ told login c (
            if length (select (is_unwritten login c.id) rs) == 0
            then none
            else some (length (select (is_unwritten login c.id) rs))) =
      manager-select login c (by_reviewer rows) keys
      ∙ ap (told login c) value
      ∙ ap (λ (n : ℕ). told login c (if n == 0 then none else some n))
          (unwritten-length login c.id rs) in
    ground (
      arith,
      first,
      select-append (tells_reviewer login) (manager_notices c (by_reviewer rows)) later,
      all_manager-select today login rs cs,
    )

-- The job adds notices to those that are queued; of the ones it adds, a reviewer is sent exactly one
-- for each cycle whose manager phase ends in two days at most and in which reviews of theirs in
-- that phase are unwritten, with the number of these reviews.
pub send_reminders_tells :
    (today : IsoDate) (login : ℕ) (s : PerformanceStore)
    → let due = due_notices today s in
      ((send_reminders today s).1.notices ≡ s.notices ++ due)
      × (select (tells_reviewer login) due ≡ team_notices today login s.reviews s.cycles)
unfolding send_reminders due_notices
send_reminders_tells today login s =
    let own =
      all_self_notices s.employees s.reviews (select (is_self_due (add_days today 2)) s.cycles) in
    let team =
      all_manager_notices s.reviews (select (is_manager_due (add_days today 2)) s.cycles) in
    (
      refl,
      select-append (tells_reviewer login) own team
          ∙ ap (λ xs. xs ++ select (tells_reviewer login) team)
              (all_self-select login s.employees s.reviews
                (select (is_self_due (add_days today 2)) s.cycles))
          ∙ all_manager-select today login s.reviews s.cycles,
    )
