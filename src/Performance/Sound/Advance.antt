-- ===== src/Performance/Sound/Advance.antt =====
-- A cycle that moves on to its next phase keeps its reviews consistent.
use ai_hr_sytem.Base.{
  ℕ, ◌≡◌, refl, arith, Bool, true, false, not, ◌&&◌, some, List, [], ◌∷◌, ◌==◌, if◌then◌else◌, All,
  update_where,
}
use ai_hr_sytem.Base.Keyed.{saved}
use ai_hr_sytem.Performance.Defs.{
  CyclePhase, phase_eq, ReviewCycle, Review, ReviewStatus, review_status_eq, PerformanceStore,
}
use ai_hr_sytem.Performance.Cycles.{cycle_at}
use ai_hr_sytem.Performance.Cycles.Phases.{
  next_phase, enter_phase, has_status, finalised, advanced, advance,
}
use ai_hr_sytem.Performance.Cycles.Outcomes.{advance_cases}
use ai_hr_sytem.Performance.Sound.{fits, is_consistent, consistent_in, IsSound, consistent-saved}

-- Rows of one cycle that are changed where a test holds, while the cycle is saved.
module _ (cs : List ReviewCycle) (c new : ReviewCycle) (found : cycle_at c.id cs ≡ some c)
    (same : new.id ≡ c.id) (p : Review → Bool) (f : Review → Review) where
  update_rows :
      ((r : Review) → (if p r then f r else r).cycle_id ≡ r.cycle_id)
      → ((r : Review)
          → (r.cycle_id == c.id) ≡ true
          → is_consistent c r ≡ true
          → is_consistent new (if p r then f r else r) ≡ true)
      → ((r : Review) → (r.cycle_id == c.id) ≡ false → p r ≡ false)
      → (rs : List Review) → All (λ r. consistent_in cs r ≡ true) rs
      → All (λ r. consistent_in (saved ReviewCycle.id new cs) r ≡ true) (update_where p f rs)
  update_rows cycle inside outside [] h = tt
  update_rows cycle inside outside (r ∷ rs) h = (
    consistent-saved cs c new found same r (if p r then f r else r) (cycle r) (inside r)
        (λ k. ground (arith, outside r k)) h.0,
    update_rows cycle inside outside rs h.1,
  )

module _ (now : ℕ) (c : ReviewCycle) (r : Review) (mine : (r.cycle_id == c.id) ≡ true)
    (k : is_consistent c r ≡ true) where
  abbrev after : ReviewStatus → ReviewStatus → Review
  after x y = if has_status c.id x r then record r { status = y } else r

  to_manager :
      c.phase ≡ CyclePhase.self_review
      → is_consistent
          (advanced now c)
          (after ReviewStatus.pending_self ReviewStatus.pending_manager)
        ≡ true
  unfolding is_consistent fits
  to_manager p = ground (arith, mine, k, p)

  to_calibration :
      c.phase ≡ CyclePhase.manager_review
      → is_consistent
          (advanced now c)
          (after ReviewStatus.pending_manager ReviewStatus.pending_calibration)
        ≡ true
  unfolding is_consistent fits
  to_calibration p = ground (arith, mine, k, p)

  to_closed :
      c.phase ≡ CyclePhase.calibration
      → is_consistent (advanced now c) (
          if (r.cycle_id == c.id) && not (review_status_eq r.status ReviewStatus.acknowledged)
          then finalised r
          else r)
        ≡ true
  unfolding is_consistent fits
  to_closed p = ground (arith, mine, k, p)

module _ (now : ℕ) (c : ReviewCycle) (s : PerformanceStore) (h : IsSound s)
    (found : cycle_at c.id s.cycles ≡ some c) where
  enter-each :
      (p : CyclePhase)
      → c.phase ≡ p
      → phase_eq p CyclePhase.draft ≡ false
      → phase_eq p CyclePhase.closed ≡ false
      → All
          (λ r. consistent_in (saved ReviewCycle.id (advanced now c) s.cycles) r ≡ true)
          (enter_phase c.id (next_phase p) s.reviews)
  unfolding enter_phase
  enter-each CyclePhase.draft q d e = absurd (ground (arith, d))
  enter-each CyclePhase.closed q d e = absurd (ground (arith, e))
  enter-each CyclePhase.self_review q d e =
      update_rows s.cycles c (advanced now c) found refl (has_status c.id ReviewStatus.pending_self)
        (λ r. record r { status = ReviewStatus.pending_manager }) (λ r. ground arith)
        (λ r m k. to_manager now c r m k q) (λ r k. ground (arith, k)) s.reviews h.each
  enter-each CyclePhase.manager_review q d e =
      update_rows s.cycles c (advanced now c) found refl
        (has_status c.id ReviewStatus.pending_manager)
        (λ r. record r { status = ReviewStatus.pending_calibration }) (λ r. ground arith)
        (λ r m k. to_calibration now c r m k q) (λ r k. ground (arith, k)) s.reviews h.each
  enter-each CyclePhase.calibration q d e =
      update_rows s.cycles c (advanced now c) found refl
        (λ r. (r.cycle_id == c.id) && not (review_status_eq r.status ReviewStatus.acknowledged))
        finalised (λ r. ground arith) (λ r m k. to_closed now c r m k q) (λ r k. ground (arith, k))
        s.reviews h.each

module _ (s : PerformanceStore) (h : IsSound s) where
  pub advance-IsSound : (now id : ℕ) → IsSound (advance now id s).1
  advance-IsSound now id =
      advance_cases s IsSound h now id
        λ c e a b. record { each = enter-each now c s h e c.phase refl a b }
