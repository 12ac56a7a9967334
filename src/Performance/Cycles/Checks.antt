-- ===== src/Performance/Cycles/Checks.antt =====
-- The checks of the cycles service: they only read, and what they let through.
use ai_hr_sytem.Base.{
  ℕ, ◌≡◌, refl, sym, subst, ◌∙◌, arith, false, not, ◌&&◌, Option, none, some, List, Action, ok,
  bad_request, ◌>>=◌, throw_if, throw_if-store, throw_if-ok, check_then, throw_if_inv, >>=_inv, ap,
}
use ai_hr_sytem.Base.Keyed.{row_at-key}
use ai_hr_sytem.Calendar.{IsoDate}
use ai_hr_sytem.Performance.Defs.{CyclePhase, phase_eq, RatingLevel, ReviewCycle, PerformanceStore}
use ai_hr_sytem.Performance.Cycles.{
  UpdateCycle, normalise_scale, validate_dates, cycle_at, find_cycle, new_scale, changed_cycle,
  changes_structure, checked_dates, check_update,
}

pub find_cycle-store : (id : ℕ) (s : PerformanceStore) → (find_cycle id s).1 ≡ s
unfolding find_cycle
find_cycle-store id s = ground arith

pub find_cycle-ok :
    (id : ℕ) (s : PerformanceStore) (c : ReviewCycle)
    → (find_cycle id s).0 ≡ ok c
    → (cycle_at id s.cycles ≡ some c) × (c.id ≡ id)
unfolding find_cycle
find_cycle-ok id s c h =
    let e : cycle_at id s.cycles ≡ some c = ground (arith, h) in
    (e, row_at-key ReviewCycle.id id s.cycles c e)

-- The row is found by its own id.
pub found_own :
    (id : ℕ) (s : PerformanceStore) (c : ReviewCycle)
    → (find_cycle id s).0 ≡ ok c
    → cycle_at c.id s.cycles ≡ some c
found_own id s c h =
    let (e, k) = find_cycle-ok id s c h in subst (λ j. cycle_at j s.cycles ≡ some c) (sym k) e

pub validate_dates-store :
    (a b c d : IsoDate) (s : PerformanceStore) → (validate_dates a b c d s).1 ≡ s
unfolding validate_dates
validate_dates-store a b c d s = ground arith

pub normalise_scale-store :
    (l : List RatingLevel) (s : PerformanceStore) → (normalise_scale l s).1 ≡ s
unfolding normalise_scale
normalise_scale-store l s = ground arith

new_scale-store :
    (o : Option (List RatingLevel)) (l : List RatingLevel) (s : PerformanceStore)
    → (new_scale o l s).1 ≡ s
unfolding new_scale
new_scale-store none l s = refl
new_scale-store (some x) l s = normalise_scale-store x s

checked_dates-store : (d : ReviewCycle) (s : PerformanceStore) → (checked_dates d s).1 ≡ s
unfolding checked_dates
checked_dates-store d s = ground (
  arith,
  validate_dates-store d.period_start d.period_end d.self_review_deadline d.manager_review_deadline
      s,
)

checked_dates-ok :
    (d new : ReviewCycle) (s : PerformanceStore) → (checked_dates d s).0 ≡ ok new → new ≡ d
unfolding checked_dates validate_dates
checked_dates-ok d new s h = ground (arith, h)

module _ (dto : UpdateCycle) (c : ReviewCycle) (s : PerformanceStore) where
  scaled : List RatingLevel → Action PerformanceStore ReviewCycle
  scaled scale = checked_dates (changed_cycle dto scale c)

  pub check_update-store : (check_update dto c s).1 ≡ s
  unfolding check_update scaled
  check_update-store =
      let frozen = not (phase_eq c.phase CyclePhase.draft) && changes_structure dto in
      let x = bad_request "Scope, rating scale and competencies cannot change after launch" in
      let rest = new_scale dto.rating_scale c.rating_scale >>= scaled in
      let P = λ (t : PerformanceStore). t ≡ s in
      check_then (throw_if frozen x) (λ _. rest) s P (throw_if-store frozen x s) refl
        λ _ _.
          check_then (new_scale dto.rating_scale c.rating_scale) scaled s P
            (new_scale-store dto.rating_scale c.rating_scale s) refl
            λ scale _. checked_dates-store (changed_cycle dto scale c) s

  -- The cycle that is saved, and the scale that it was given.
  check_update-inv :
      (new : ReviewCycle)
      → (check_update dto c s).0 ≡ ok new
      → (scale : List RatingLevel) × (new ≡ changed_cycle dto scale c)
        × ((new_scale dto.rating_scale c.rating_scale s).0 ≡ ok scale)
        × (not (phase_eq c.phase CyclePhase.draft) && changes_structure dto ≡ false)
  unfolding check_update scaled
  check_update-inv new h =
      let frozen = not (phase_eq c.phase CyclePhase.draft) && changes_structure dto in
      let x = bad_request "Scope, rating scale and competencies cannot change after launch" in
      let rest = new_scale dto.rating_scale c.rating_scale >>= scaled in
      let (t, e, _) = >>=_inv (throw_if frozen x) (λ _. rest) s new h in
      let passed = throw_if_inv frozen x rest s new h in
      let after = ap (λ p. p.0) (sym passed) ∙ h in
      let (scale, f, k) = >>=_inv (new_scale dto.rating_scale c.rating_scale) scaled s new after in
      let last = ap (λ p. p.0) (sym k) ∙ after in
      (
        scale,
        checked_dates-ok (changed_cycle dto scale c) new
            (new_scale dto.rating_scale c.rating_scale s).1 last,
        f,
        throw_if-ok frozen x s t e,
      )

  -- What an update of a cycle leaves alone.
  pub check_update-kept :
      (new : ReviewCycle)
      → (check_update dto c s).0 ≡ ok new
      → (new.id ≡ c.id)
        × (new.phase ≡ c.phase)
        × (phase_eq c.phase CyclePhase.draft ≡ false
            → (new.rating_scale ≡ c.rating_scale)
              × (new.competencies ≡ c.competencies)
              × (new.department_id ≡ c.department_id))
  unfolding new_scale
  check_update-kept new h =
      let (scale, e, f, k) = check_update-inv new h in
      (
        ap ReviewCycle.id e,
        ap ReviewCycle.phase e,
        λ d. (
          ap ReviewCycle.rating_scale e ∙ ground (arith, d, k, f),
          ap ReviewCycle.competencies e ∙ ground (arith, d, k),
          ap ReviewCycle.department_id e ∙ ground (arith, d, k),
        ),
      )
