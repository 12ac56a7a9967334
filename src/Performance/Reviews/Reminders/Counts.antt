-- ===== src/Performance/Reviews/Reminders/Counts.antt =====
-- The reminder of a reviewer counts the reviews that wait for them.
use ai_hr_sytem.Base.{
  ℕ, ◌+◌, ◌≡◌, refl, ◌∙◌, ap, arith, Bool, not, ◌&&◌, Option, none, some, List, [], ◌∷◌, ◌==◌,
  if◌then◌else◌, opt_eq, is_some, select, length,
}
use ai_hr_sytem.Base.Groups.{value_at, HasNewKeys, join_all, value_at-group, group-HasNewKeys}
use ai_hr_sytem.Performance.Defs.{Review}
use ai_hr_sytem.Performance.Reviews.Reminders.{awaited, reviewer_of, by_reviewer}

-- A review that waits for its reviewer `login`.
abbrev pub waits_for : ℕ → Review → Bool
waits_for login r = opt_eq r.reviewer_user_id login && not (is_some r.manager_submitted_at)

awaited-length :
    (login : ℕ) (rs : List Review)
    → length (select (λ p. reviewer_of p == login) (awaited rs))
      ≡ length (select (waits_for login) rs)
unfolding awaited
awaited-length login [] = refl
awaited-length login (r ∷ rs) = ground (arith, awaited-length login rs)

abbrev counted : List (ℕ × Review) → Option ℕ → Option ℕ
counted = join_all reviewer_of (λ _. 0) (λ _ n. n + 1)

counted-some : (ps : List (ℕ × Review)) (n : ℕ) → counted ps (some n) ≡ some (n + length ps)
counted-some [] n = ap some (omega arith)
counted-some (p ∷ ps) n = counted-some ps (n + 1) ∙ ap some (omega arith)

counted-none :
    (ps : List (ℕ × Review)) → counted ps none ≡ (if length ps == 0 then none else some (length ps))
counted-none [] = refl
counted-none (p ∷ ps) = counted-some ps 1 ∙ ground arith

-- The loop over the pending reviews holds each reviewer once: with the number of the reviews that
-- name this reviewer and that the manager has not submitted, where there are some, and not at all
-- where there are none.
pub by_reviewer_counts :
    (login : ℕ) (rs : List Review)
    → (value_at login (by_reviewer rs) ≡ (
        if length (select (waits_for login) rs) == 0
        then none
        else some (length (select (waits_for login) rs))))
      × HasNewKeys (by_reviewer rs)
unfolding by_reviewer
by_reviewer_counts login rs = (
  value_at-group reviewer_of (λ _. 0) (λ _ n. n + 1) login [] (awaited rs)
      ∙ counted-none (select (λ p. reviewer_of p == login) (awaited rs))
      ∙ ap (λ (n : ℕ). if n == 0 then none else some n) (awaited-length login rs),
  group-HasNewKeys reviewer_of (λ _. 0) (λ _ n. n + 1) [] (awaited rs) tt,
)
