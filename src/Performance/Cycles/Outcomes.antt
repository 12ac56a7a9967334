-- ===== src/Performance/Cycles/Outcomes.antt =====
-- What a handler of the cycles service makes of the store: nothing, where a check refuses, or the one
-- change that it is there for. A property of the store after the call is shown in these two cases.
use ai_hr_sytem.Base.{
  ℕ, ◌≡◌, subst, inl, inr, arith, true, false, not, Option, some, List, or_else, ◌==◌, Bool-cases,
  Action, ok, bad_request, throw_if, throw_if-store, throw_if-ok, check_then, ◌>>=◌, ◌>>◌, modify,
  select, length,
}
use ai_hr_sytem.Employees.{Employee}
use ai_hr_sytem.Performance.Defs.{CyclePhase, phase_eq, RatingLevel, ReviewCycle, PerformanceStore}
use ai_hr_sytem.Performance.Cycles.{
  CreateCycle, UpdateCycle, default_rating_scale, normalise_scale, validate_dates, cycle_at,
  find_cycle, save_cycle, add_cycle, create_cycle, check_update, update_cycle, without_cycle,
  remove_cycle,
}
use ai_hr_sytem.Performance.Cycles.Scope.{in_cycle_scope}
use ai_hr_sytem.Performance.Cycles.Phases.{
  commit_launch, cycle_scope, launch_found, launch, commit_advance, advance,
}
use ai_hr_sytem.Performance.Cycles.Checks.{
  find_cycle-store, find_cycle-ok, found_own, validate_dates-store, normalise_scale-store,
  check_update-store,
}

cycle_scope-store : (c : ReviewCycle) (s : PerformanceStore) → (cycle_scope c s).1 ≡ s
unfolding cycle_scope
cycle_scope-store c s = ground arith

module _ (s : PerformanceStore) (P : PerformanceStore → Type 0) (before : P s) where
  pub create_cases :
      (dto : CreateCycle) (actor : ℕ)
      → ((scale : List RatingLevel) → P (add_cycle dto actor scale s))
      → P (create_cycle dto actor s).1
  unfolding create_cycle
  create_cases dto actor after =
      let scale = or_else dto.rating_scale default_rating_scale in
      check_then
        (validate_dates dto.period_start dto.period_end dto.self_review_deadline
          dto.manager_review_deadline)
        (λ _. normalise_scale scale >>= λ l. modify (add_cycle dto actor l)) s P
        (validate_dates-store dto.period_start dto.period_end dto.self_review_deadline
          dto.manager_review_deadline s)
        before
        λ _ _.
          check_then (normalise_scale scale) (λ l. modify (add_cycle dto actor l)) s P
            (normalise_scale-store scale s) before λ l _. after l

  pub update_cases :
      (id : ℕ) (dto : UpdateCycle)
      → ((c new : ReviewCycle)
          → cycle_at c.id s.cycles ≡ some c
          → (check_update dto c s).0 ≡ ok new
          → P (save_cycle new s))
      → P (update_cycle id dto s).1
  unfolding update_cycle
  update_cases id dto after =
      check_then (find_cycle id) (λ c. check_update dto c >>= λ d. modify (save_cycle d)) s P
        (find_cycle-store id s) before
        λ c e.
          check_then (check_update dto c) (λ d. modify (save_cycle d)) s P
            (check_update-store dto c s) before λ new k. after c new (found_own id s c e) k

  pub remove_cases :
      (id : ℕ)
      → ((c : ReviewCycle)
          → cycle_at id s.cycles ≡ some c
          → phase_eq c.phase CyclePhase.draft ≡ true
          → P (without_cycle id s))
      → P (remove_cycle id s).1
  unfolding remove_cycle
  remove_cases id after =
      check_then (find_cycle id) (remove_found id) s P (find_cycle-store id s) before λ c e.
        let b = not (phase_eq c.phase CyclePhase.draft) in
        let x = bad_request "Only draft cycles can be deleted" in
        check_then (throw_if b x) (λ _. modify (without_cycle id)) s P (throw_if-store b x s) before
          λ t k. after c (find_cycle-ok id s c e).0 (ground (arith, throw_if-ok b x s t k))
    where
      remove_found : ℕ → ReviewCycle → Action PerformanceStore (Unit {0})
      remove_found id c =
          throw_if (not (phase_eq c.phase CyclePhase.draft))
            (bad_request "Only draft cycles can be deleted")
          >> modify (without_cycle id)

  launch_found_cases :
      (now : ℕ) (c : ReviewCycle) (scope : Option (List ℕ))
      → ((es : List Employee) → P (commit_launch now c es s))
      → P (launch_found now c scope s).1
  unfolding launch_found
  launch_found_cases now c scope after =
      let es = select (in_cycle_scope scope) s.employees in
      elim (Bool-cases (length es == 0)) [
        | inl k ↦ subst P (ground (arith, k)) before
        | inr k ↦ subst P (ground (arith, k)) (after es)
      ]

  pub launch_cases :
      (now id : ℕ)
      → ((c : ReviewCycle) (es : List Employee)
          → cycle_at c.id s.cycles ≡ some c
          → phase_eq c.phase CyclePhase.draft ≡ true
          → P (commit_launch now c es s))
      → P (launch now id s).1
  unfolding launch
  launch_cases now id after =
      check_then (find_cycle id) (start now) s P (find_cycle-store id s) before λ c e.
        let b = not (phase_eq c.phase CyclePhase.draft) in
        let x = bad_request "Cycle has already been launched" in
        check_then (throw_if b x) (λ _. scoped now c) s P (throw_if-store b x s) before
          λ t k.
            check_then (cycle_scope c) (λ scope. launch_found now c scope) s P
              (cycle_scope-store c s) before
              λ scope _.
                launch_found_cases now c scope
                  λ es. after c es (found_own id s c e) (ground (arith, throw_if-ok b x s t k))
    where
      scoped : ℕ → ReviewCycle → Action PerformanceStore ℕ
      scoped now c = cycle_scope c >>= λ scope. launch_found now c scope

      start : ℕ → ReviewCycle → Action PerformanceStore ℕ
      start now c =
          throw_if (not (phase_eq c.phase CyclePhase.draft))
            (bad_request "Cycle has already been launched")
          >> scoped now c

  pub advance_cases :
      (now id : ℕ)
      → ((c : ReviewCycle)
          → cycle_at c.id s.cycles ≡ some c
          → phase_eq c.phase CyclePhase.draft ≡ false
          → phase_eq c.phase CyclePhase.closed ≡ false
          → P (commit_advance now c s))
      → P (advance now id s).1
  unfolding advance
  advance_cases now id after =
      check_then (find_cycle id) (started now) s P (find_cycle-store id s) before λ c e.
        let a = phase_eq c.phase CyclePhase.draft in
        let x = bad_request "Launch the cycle first" in
        check_then (throw_if a x) (λ _. not_closed now c) s P (throw_if-store a x s) before
          λ t k.
            let b = phase_eq c.phase CyclePhase.closed in
            let y = bad_request "Cycle is already closed" in
            check_then (throw_if b y) (λ _. modify (commit_advance now c)) s P
              (throw_if-store b y s) before
              λ u l. after c (found_own id s c e) (throw_if-ok a x s t k) (throw_if-ok b y s u l)
    where
      not_closed : ℕ → ReviewCycle → Action PerformanceStore (Unit {0})
      not_closed now c =
          throw_if (phase_eq c.phase CyclePhase.closed) (bad_request "Cycle is already closed")
          >> modify (commit_advance now c)

      started : ℕ → ReviewCycle → Action PerformanceStore (Unit {0})
      started now c =
          throw_if (phase_eq c.phase CyclePhase.draft) (bad_request "Launch the cycle first")
          >> not_closed now c
