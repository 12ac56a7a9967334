-- ===== src/Onboarding/Progress.antt =====
-- src/modules/onboarding/onboarding.service.ts, progressOf: how far a checklist is. The percentage is a
-- rounded quotient of floating-point numbers; its rounding is a parameter.
pub mod Completes
use ai_hr_sytem.Base.{
  ℕ, ◌≤◌, ◌≡◌, refl, arith, Bool, false, not, ◌&&◌, List, [], ◌∷◌, ltb, ◌==◌, if◌then◌else◌, select,
  length,
}
use ai_hr_sytem.Calendar.{IsoDate}
use ai_hr_sytem.Onboarding.Defs.{is_open_status, ChecklistTask}
use ai_hr_sytem.Onboarding.Completion.{is_blocked}

pub record ChecklistProgress : Type 0 where
  pub total : ℕ
  pub done : ℕ
  pub required : ℕ
  pub required_done : ℕ
  pub overdue : ℕ
  pub percent : ℕ

abbrev pub is_closed : ChecklistTask → Bool
is_closed t = not (is_open_status t.status)

abbrev pub is_late : IsoDate → ChecklistTask → Bool
is_late today t = not (is_closed t) && ltb t.due_date today

-- `progressOf`
unfoldable pub progress_of : (ℕ → ℕ → ℕ) → IsoDate → List ChecklistTask → ChecklistProgress
progress_of percentage today ts = record {
  total = length ts;
  done = length (select is_closed ts);
  required = length (select ChecklistTask.is_required ts);
  required_done = length (select is_closed (select ChecklistTask.is_required ts));
  overdue = length (select (is_late today) ts);
  percent = if length ts == 0 then 100 else percentage (length (select is_closed ts)) (length ts);
}

-- The tasks of one checklist.
abbrev pub tasks_of : ℕ → List ChecklistTask → List ChecklistTask
tasks_of id = select (λ (t : ChecklistTask). t.checklist_id == id)

select-le : {A : Type 0} (p : A → Bool) (xs : List A) → length (select p xs) ≤ length xs
select-le p [] = omega arith
select-le p (x ∷ xs) = ground (arith, select-le p xs)

-- With every required task closed nothing is left open, and conversely.
blocked_lem :
    (id : ℕ) (ts : List ChecklistTask)
    → (is_blocked id ts ≡ false
        → length (select is_closed (select ChecklistTask.is_required (tasks_of id ts)))
          ≡ length (select ChecklistTask.is_required (tasks_of id ts)))
      × (length (select is_closed (select ChecklistTask.is_required (tasks_of id ts)))
            ≡ length (select ChecklistTask.is_required (tasks_of id ts))
          → is_blocked id ts ≡ false)
blocked_lem id [] = (λ _. refl, λ _. refl)
blocked_lem id (t ∷ ts) =
    let (a, b) = blocked_lem id ts in
    let le = select-le is_closed (select ChecklistTask.is_required (tasks_of id ts)) in
    (λ h. ground (arith, h, a), λ h. ground (arith, h, b, le))

-- A checklist counts as finished exactly when its progress shows as many closed required tasks as
-- there are required tasks.
pub finished_iff_progress :
    (percentage : ℕ → ℕ → ℕ) (today : IsoDate) (id : ℕ) (ts : List ChecklistTask)
    → let p = progress_of percentage today (tasks_of id ts) in
      (is_blocked id ts ≡ false → p.required_done ≡ p.required)
      × (p.required_done ≡ p.required → is_blocked id ts ≡ false)
unfolding progress_of
finished_iff_progress percentage today id ts = blocked_lem id ts
