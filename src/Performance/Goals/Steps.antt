-- ===== src/Performance/Goals/Steps.antt =====
-- The handlers keep the weights of the goals within bounds, one by one and in any sequence.
use ai_hr_sytem.Base.{
  ℕ, ◌+◌, ◌≤◌, ◌≡◌, refl, sym, subst, ◌∙◌, inl, inr, arith, Bool, true, none, some, List, [], ◌∷◌,
  ◌++◌, ◌==◌, ==→eq, or_else, sum_of, sum_of-append, All, ok, Bool-cases, check_then,
  or_throw-store, throw_if-store, throw_if, forbidden, Action, gets, or_throw, not_found, ◌>>=◌,
  ◌>>◌, modify,
}
use ai_hr_sytem.Base.Keyed.{
  row_at, saved, dropped, row_at-key, saved-IsKeyed, append-IsKeyed, dropped-IsKeyed, sum_of-saved,
  sum_of-dropped, sum_of-split,
}
use ai_hr_sytem.Employees.{Employee}
use ai_hr_sytem.Performance.Defs.{Goal, PerformanceStore, AuthUser}
use ai_hr_sytem.Performance.Goals.{
  CreateGoal, UpdateGoal, GoalRole, goal_role, is_approver, is_outsider, is_draft, weight_of_others,
  assert_weight, goal_at, find_goal, new_goal, add_goal, goal_employee, create_goal, save_goal,
  check_goal_update, update_goal, approved_goal, check_approve, approve_goal, without_goal,
  check_remove, remove_goal,
}
use ai_hr_sytem.Performance.Goals.Weights.{
  share, is_signed, IsBalanced, IsFit, others_none, others_some, assert_weight-ok,
  assert_weight-store, check_goal_update-store, check_goal_update-IsFit,
}

module _ (s : PerformanceStore) (h : IsBalanced s) where
  All-saved :
      (g new : Goal) (gs : List Goal)
      → is_signed new ≡ true
      → All (λ x. is_signed x ≡ true) gs
      → All (λ x. is_signed x ≡ true) (saved Goal.id new gs)
  All-saved g new [] k a = tt
  All-saved g new (x ∷ xs) k a = (ground (arith, k, a.0), All-saved g new xs k a.1)

  All-dropped :
      (id : ℕ) (gs : List Goal)
      → All (λ x. is_signed x ≡ true) gs
      → All (λ x. is_signed x ≡ true) (dropped Goal.id id gs)
  All-dropped id [] a = tt
  All-dropped id (x ∷ xs) a = elim (Bool-cases (x.id == id)) [
    | inl k ↦ rw k (All-dropped id xs a.1)
    | inr k ↦ rw k (a.0, All-dropped id xs a.1)
  ]

  All-found :
      (id : ℕ) (gs : List Goal) (g : Goal)
      → row_at Goal.id id gs ≡ some g
      → All (λ x. is_signed x ≡ true) gs
      → is_signed g ≡ true
  All-found id [] g e a = absurd (ground arith)
  All-found id (x ∷ xs) g e a = ground (arith, a.0, All-found id xs g)

  -- A fit goal can be saved.
  save-IsBalanced :
      (id : ℕ) (g new : Goal)
      → goal_at id s.goals ≡ some g
      → IsFit g new s
      → IsBalanced (save_goal new s)
  save-IsBalanced id g new e f =
      let gid = row_at-key Goal.id id s.goals g e in
      let at_new : row_at Goal.id new.id s.goals ≡ some g =
        subst (λ k. row_at Goal.id k s.goals ≡ some g) (sym gid ∙ sym f.same_id) e in
      let at_own : row_at Goal.id g.id s.goals ≡ some g =
        subst (λ k. row_at Goal.id k s.goals ≡ some g) (sym gid) e in
      record {
        keyed = saved-IsKeyed Goal.id s.next_goal_id new s.goals h.keyed;
        within = λ k.
            let total =
              sum_of-saved Goal.id (share k) s.next_goal_id s.goals g new h.keyed at_new in
            elim (f.bounded k) [
              | inl a ↦ omega (arith, total, a, h.within k)
              | inr a ↦
                  let rest =
                    sum_of-split Goal.id (share k) s.next_goal_id g.id s.goals g h.keyed at_own in
                  omega (arith, total, a, rest, others_some k g.id s.goals)
            ];
        signed =
            All-saved g new s.goals (f.still_signed (All-found id s.goals g e h.signed)) h.signed;
      }

find_goal-store : (id : ℕ) (s : PerformanceStore) → (find_goal id s).1 ≡ s
unfolding find_goal
find_goal-store id s = ground arith

find_goal-ok :
    (id : ℕ) (s : PerformanceStore) (g : Goal)
    → (find_goal id s).0 ≡ ok g
    → goal_at id s.goals ≡ some g
unfolding find_goal
find_goal-ok id s g h = ground arith

check_approve-store :
    (role : GoalRole) (g : Goal) (s : PerformanceStore) → (check_approve role g s).1 ≡ s
unfolding check_approve
check_approve-store role g s = ground arith

check_approve-draft :
    (role : GoalRole) (g : Goal) (s : PerformanceStore) (t : Unit {0})
    → (check_approve role g s).0 ≡ ok t
    → is_draft g ≡ true
unfolding check_approve
check_approve-draft role g s t h = ground arith

check_remove-store :
    (role : GoalRole) (g : Goal) (s : PerformanceStore) → (check_remove role g s).1 ≡ s
unfolding check_remove
check_remove-store role g s = ground arith

module _ (s : PerformanceStore) (h : IsBalanced s) where
  approved-IsFit :
      (now actor : ℕ) (g : Goal) → is_draft g ≡ true → IsFit g (approved_goal now actor g) s
  approved-IsFit now actor g d = record {
    same_id = refl;
    bounded = λ e. inl (ground (arith, d));
    still_signed = λ _. refl;
  }

  update_goal-IsBalanced :
      (id : ℕ) (dto : UpdateGoal) (actor : AuthUser) → IsBalanced (update_goal id dto actor s).1
  unfolding update_goal
  update_goal-IsBalanced id dto actor =
      check_then (find_goal id) (update_found id dto actor) s IsBalanced (find_goal-store id s) h
        λ g e.
          let role = goal_role s.employees g.employee_id actor in
          check_then (check_goal_update dto role g) (λ new. modify (save_goal new)) s IsBalanced
            (check_goal_update-store dto role g s) h
            λ new k.
              save-IsBalanced s h id g new (find_goal-ok id s g e)
                (check_goal_update-IsFit dto role g s new k)
    where
      update_found : ℕ → UpdateGoal → AuthUser → Goal → Action PerformanceStore (Unit {0})
      update_found id dto actor g =
          gets (λ (s : PerformanceStore). goal_role s.employees g.employee_id actor) >>= λ role.
          check_goal_update dto role g >>= λ new. modify (save_goal new)

  approve_goal-IsBalanced :
      (now id : ℕ) (actor : AuthUser) → IsBalanced (approve_goal now id actor s).1
  unfolding approve_goal
  approve_goal-IsBalanced now id actor =
      check_then (find_goal id) (approve_found now actor) s IsBalanced (find_goal-store id s) h
        λ g e.
          let role = goal_role s.employees g.employee_id actor in
          check_then (check_approve role g) (λ _. modify (save_goal (approved_goal now actor.id g)))
            s IsBalanced (check_approve-store role g s) h
            λ t k.
              save-IsBalanced s h id g (approved_goal now actor.id g) (find_goal-ok id s g e)
                (approved-IsFit now actor.id g (check_approve-draft role g s t k))
    where
      approve_found : ℕ → AuthUser → Goal → Action PerformanceStore (Unit {0})
      approve_found now actor g =
          gets (λ (s : PerformanceStore). goal_role s.employees g.employee_id actor) >>= λ role.
          check_approve role g >> modify (save_goal (approved_goal now actor.id g))

  without-IsBalanced : (id : ℕ) → IsBalanced (without_goal id s)
  without-IsBalanced id = record {
    keyed = dropped-IsKeyed Goal.id s.next_goal_id id s.goals h.keyed;
    within = λ e. omega (arith, sum_of-dropped Goal.id (share e) id s.goals, h.within e);
    signed = All-dropped s h id s.goals h.signed;
  }

  remove_goal-IsBalanced : (id : ℕ) (actor : AuthUser) → IsBalanced (remove_goal id actor s).1
  unfolding remove_goal
  remove_goal-IsBalanced id actor =
      check_then (find_goal id) (remove_found id actor) s IsBalanced (find_goal-store id s) h λ g e.
        let role = goal_role s.employees g.employee_id actor in
        check_then (check_remove role g) (λ _. modify (without_goal id)) s IsBalanced
          (check_remove-store role g s) h λ t k. without-IsBalanced id
    where
      remove_found : ℕ → AuthUser → Goal → Action PerformanceStore (Unit {0})
      remove_found id actor g =
          gets (λ (s : PerformanceStore). goal_role s.employees g.employee_id actor) >>= λ role.
          check_remove role g >> modify (without_goal id)

  All-append_one :
      (gs : List Goal) (g : Goal)
      → All (λ x. is_signed x ≡ true) gs
      → is_signed g ≡ true
      → All (λ x. is_signed x ≡ true) (gs ++ g ∷ [])
  All-append_one [] g a k = (k, tt)
  All-append_one (x ∷ xs) g a k = (a.0, All-append_one xs g a.1 k)

  add-IsBalanced :
      (now e : ℕ) (dto : CreateGoal) (approved : Bool) (actor : ℕ)
      → weight_of_others e none s.goals + or_else dto.weight 0 ≤ 100
      → IsBalanced (add_goal now e dto approved actor s)
  add-IsBalanced now e dto approved actor b =
      let new = new_goal now s.next_goal_id e dto approved actor in
      record {
        keyed = append-IsKeyed Goal.id s.next_goal_id s.goals new h.keyed refl;
        within = λ k.
            let total = sum_of-append (share k) s.goals (new ∷ []) in
            elim (Bool-cases (e == k)) [
              | inl q ↦
                  let b' : sum_of (share k) s.goals + or_else dto.weight 0 ≤ 100 =
                    subst (λ j. sum_of (share j) s.goals + or_else dto.weight 0 ≤ 100) (==→eq e k q)
                      (omega (arith, b, others_none e s.goals)) in
                  ground (arith, total, b')
              | inr q ↦ ground (arith, total, q, h.within k)
            ];
        signed = All-append_one s.goals new h.signed (ground arith);
      }

  create_goal-IsBalanced :
      (now : ℕ) (dto : CreateGoal) (actor : AuthUser) → IsBalanced (create_goal now dto actor s).1
  unfolding create_goal
  create_goal-IsBalanced now dto actor =
      let es = s.employees in
      let nobody = not_found "No employee profile is linked to your login" in
      check_then (or_throw (goal_employee dto actor es) nobody) (create_for now dto actor es) s
        IsBalanced (or_throw-store (goal_employee dto actor es) nobody s) h
        λ e _.
          let stranger = forbidden "You can only set goals for yourself or your reports" in
          let outside = is_outsider (goal_role es e actor) in
          check_then (throw_if outside stranger) (λ _. weighed now dto actor es e) s IsBalanced
            (throw_if-store outside stranger s) h
            λ _ _.
              check_then (assert_weight e (or_else dto.weight 0) none)
                (λ _. modify (added now dto actor es e)) s IsBalanced
                (assert_weight-store e (or_else dto.weight 0) none s) h
                λ t k.
                  add-IsBalanced now e dto (is_approver (goal_role es e actor)) actor.id
                    (assert_weight-ok e (or_else dto.weight 0) none s t k)
    where
      added : ℕ → CreateGoal → AuthUser → List Employee → ℕ → PerformanceStore → PerformanceStore
      added now dto actor es e = add_goal now e dto (is_approver (goal_role es e actor)) actor.id

      weighed : ℕ → CreateGoal → AuthUser → List Employee → ℕ → Action PerformanceStore (Unit {0})
      weighed now dto actor es e =
          assert_weight e (or_else dto.weight 0) none >> modify (added now dto actor es e)

      create_for :
          ℕ → CreateGoal → AuthUser → List Employee → ℕ → Action PerformanceStore (Unit {0})
      create_for now dto actor es e =
          throw_if (is_outsider (goal_role es e actor))
            (forbidden "You can only set goals for yourself or your reports")
          >> weighed now dto actor es e

-- The operations of the service that write.
pub data GoalOp : Type 0 where
  create_op : ℕ → CreateGoal → AuthUser → GoalOp
  update_op : ℕ → UpdateGoal → AuthUser → GoalOp
  approve_op : ℕ → ℕ → AuthUser → GoalOp
  remove_op : ℕ → AuthUser → GoalOp

unfoldable pub apply_goal : GoalOp → PerformanceStore → PerformanceStore
apply_goal (create_op now dto actor) s = (create_goal now dto actor s).1
apply_goal (update_op id dto actor) s = (update_goal id dto actor s).1
apply_goal (approve_op now id actor) s = (approve_goal now id actor s).1
apply_goal (remove_op id actor) s = (remove_goal id actor s).1

unfoldable pub apply_goals : List GoalOp → PerformanceStore → PerformanceStore
apply_goals [] s = s
apply_goals (o ∷ os) s = apply_goals os (apply_goal o s)

apply_goal-IsBalanced :
    (o : GoalOp) (s : PerformanceStore) → IsBalanced s → IsBalanced (apply_goal o s)
unfolding apply_goal
apply_goal-IsBalanced (create_op now dto actor) s h = create_goal-IsBalanced s h now dto actor
apply_goal-IsBalanced (update_op id dto actor) s h = update_goal-IsBalanced s h id dto actor
apply_goal-IsBalanced (approve_op now id actor) s h = approve_goal-IsBalanced s h now id actor
apply_goal-IsBalanced (remove_op id actor) s h = remove_goal-IsBalanced s h id actor

-- Whatever sequence of creations, updates, approvals and deletions is asked for, and whoever asks,
-- the weights of the draft and active goals of each employee add up to 100 at most, every active
-- goal has an approver, and no id is used twice, where this holds at the start.
pub apply_goals-IsBalanced :
    (os : List GoalOp) (s : PerformanceStore) → IsBalanced s → IsBalanced (apply_goals os s)
unfolding apply_goals
apply_goals-IsBalanced [] s h = h
apply_goals-IsBalanced (o ∷ os) s h =
    apply_goals-IsBalanced os (apply_goal o s) (apply_goal-IsBalanced o s h)
