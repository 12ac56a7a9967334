-- ===== src/Performance/Goals/Weights.antt =====
-- The goals through any sequence of the service's operations: what their weights add up to.
use ai_hr_sytem.Base.{
  ℕ, ◌+◌, ◌≤◌, ◌≡◌, refl, subst, ◌⊎◌, inl, inr, arith, Bool, true, not, ◌||◌, Option, none, some,
  List, [], ◌∷◌, ◌==◌, ==→eq, if◌then◌else◌, is_some, sum_of, All, ok, Bool-cases, Option-cases,
}
use ai_hr_sytem.Base.Keyed.{dropped, IsKeyed}
use ai_hr_sytem.Performance.Defs.{Goal, GoalStatus, goal_status_eq, PerformanceStore}
use ai_hr_sytem.Performance.Goals.{
  UpdateGoal, GoalRole, weighs_for, weight_of_others, assert_weight, edited_goal, check_new_weight,
  with_status, check_goal_update,
}

-- What a goal adds to the weights of an employee.
abbrev pub share : ℕ → Goal → ℕ
share e g = if weighs_for e g then g.weight else 0

-- An active goal has somebody who approved it.
abbrev pub is_signed : Goal → Bool
is_signed g = not (goal_status_eq g.status GoalStatus.active) || is_some g.approved_by_user_id

pub record IsBalanced (s : PerformanceStore) : Type 0 where
  pub keyed : IsKeyed Goal.id s.next_goal_id s.goals
  pub within : (e : ℕ) → sum_of (share e) s.goals ≤ 100
  pub signed : All (λ g. is_signed g ≡ true) s.goals

pub others_none : (e : ℕ) (gs : List Goal) → weight_of_others e none gs ≡ sum_of (share e) gs
unfolding weight_of_others
others_none e [] = refl
others_none e (g ∷ gs) = ground (arith, others_none e gs)

pub others_some :
    (e id : ℕ) (gs : List Goal)
    → weight_of_others e (some id) gs ≡ sum_of (share e) (dropped Goal.id id gs)
unfolding weight_of_others
others_some e id [] = refl
others_some e id (g ∷ gs) = ground (arith, others_some e id gs, ==→eq id g.id, ==→eq g.id id)

pub assert_weight-ok :
    (e w : ℕ) (x : Option ℕ) (s : PerformanceStore) (t : Unit {0})
    → (assert_weight e w x s).0 ≡ ok t
    → weight_of_others e x s.goals + w ≤ 100
unfolding assert_weight
assert_weight-ok e w x s t h = ground (arith, h)

pub assert_weight-store :
    (e w : ℕ) (x : Option ℕ) (s : PerformanceStore) → (assert_weight e w x s).1 ≡ s
unfolding assert_weight
assert_weight-store e w x s = ground arith

check_new_weight-store :
    (g : Goal) (w : Option ℕ) (s : PerformanceStore) → (check_new_weight g w s).1 ≡ s
unfolding check_new_weight
check_new_weight-store g none s = refl
check_new_weight-store g (some w) s = assert_weight-store g.employee_id w (some g.id) s

-- What the checks of an update let through.
pub record IsFit (g new : Goal) (s : PerformanceStore) : Type 0 where
  pub same_id : new.id ≡ g.id
  pub bounded :
      (e : ℕ)
      → (share e new ≤ share e g) ⊎ (weight_of_others e (some g.id) s.goals + share e new ≤ 100)
  pub still_signed : is_signed g ≡ true → is_signed new ≡ true

-- The status that is asked for takes weight away at most.
with_status_less :
    (role : GoalRole) (st : Option GoalStatus) (h new : Goal) (s : PerformanceStore)
    → (with_status role st h s).0 ≡ ok new
    → (new.id ≡ h.id)
      × ((e : ℕ) → share e new ≤ share e h)
      × (is_signed h ≡ true → is_signed new ≡ true)
unfolding with_status
with_status_less role none h new s e =
    (ground (arith, e), λ k. ground (arith, e), λ k. ground (arith, e, k))
with_status_less role (some GoalStatus.draft) h new s e =
    (ground (arith, e), λ k. ground (arith, e), λ k. ground (arith, e, k))
with_status_less role (some GoalStatus.active) h new s e =
    (ground (arith, e), λ k. ground (arith, e), λ k. ground (arith, e, k))
with_status_less role (some GoalStatus.completed) h new s e =
    (ground (arith, e), λ k. ground (arith, e), λ k. ground (arith, e, k))
with_status_less role (some GoalStatus.cancelled) h new s e =
    (ground (arith, e), λ k. ground (arith, e), λ k. ground (arith, e, k))

with_status-store :
    (role : GoalRole) (st : Option GoalStatus) (h : Goal) (s : PerformanceStore)
    → (with_status role st h s).1 ≡ s
unfolding with_status
with_status-store role none h s = refl
with_status-store role (some GoalStatus.draft) h s = refl
with_status-store role (some GoalStatus.active) h s = refl
with_status-store role (some GoalStatus.completed) h s = refl
with_status-store role (some GoalStatus.cancelled) h s = ground arith

-- The edited_goal goal weighs as before, or its new weight has been checked.
edited_bounded :
    (dto : UpdateGoal) (g : Goal) (s : PerformanceStore) (t : Unit {0}) (e : ℕ)
    → (check_new_weight g dto.weight s).0 ≡ ok t
    → (share e (edited_goal dto g) ≤ share e g)
      ⊎ (weight_of_others e (some g.id) s.goals + share e (edited_goal dto g) ≤ 100)
unfolding check_new_weight
edited_bounded dto g s t e h = elim (Option-cases dto.weight) [
  | inl n ↦ inl (ground (arith, n))
  | inr (w, n) ↦ elim (Bool-cases (g.employee_id == e)) [
    | inr k ↦ inl (ground (arith, k))
    | inl k ↦
        let c : (assert_weight g.employee_id w (some g.id) s).0 ≡ ok t = rw n at h in
        let b = assert_weight-ok g.employee_id w (some g.id) s t c in
        let b' : weight_of_others e (some g.id) s.goals + w ≤ 100 =
          subst (λ j. weight_of_others j (some g.id) s.goals + w ≤ 100) (==→eq _ _ k) b in
        inr (ground (arith, n, b'))
  ]
]

module _ (dto : UpdateGoal) (role : GoalRole) (g : Goal) (s : PerformanceStore) where
  check_goal_update-inv :
      (new : Goal)
      → (check_goal_update dto role g s).0 ≡ ok new
      → ((check_new_weight g dto.weight s).0 ≡ ok tt)
        × ((with_status role dto.status (edited_goal dto g) s).0 ≡ ok new)
  unfolding check_goal_update
  check_goal_update-inv new h =
      let q = check_new_weight-store g dto.weight s in (ground (arith, h, q), ground (arith, h, q))

  pub check_goal_update-store : (check_goal_update dto role g s).1 ≡ s
  unfolding check_goal_update
  check_goal_update-store = ground (
    arith,
    check_new_weight-store g dto.weight s,
    with_status-store role dto.status (edited_goal dto g) s,
  )

  pub check_goal_update-IsFit :
      (new : Goal) → (check_goal_update dto role g s).0 ≡ ok new → IsFit g new s
  check_goal_update-IsFit new h =
      let (w, e) = check_goal_update-inv new h in
      let (same, less, signed) = with_status_less role dto.status (edited_goal dto g) new s e in
      record {
        same_id = same;
        bounded = λ k. elim (edited_bounded dto g s tt k w) [
          | inl a ↦ inl (omega (arith, a, less k))
          | inr a ↦ inr (omega (arith, a, less k))
        ];
        still_signed = λ a. signed a;
      }
