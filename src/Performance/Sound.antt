-- ===== src/Performance/Sound.antt =====
-- What holds of every review beside its cycle: its status fits the phase, and each rating that it
-- carries is a value of the cycle's scale.
pub mod Edits
pub mod Phases
pub mod Advance
pub mod Runs
use ai_hr_sytem.Base.{
  ℕ, ◌≡◌, refl, sym, subst, ◌∙◌, inl, inr, arith, Bool, true, false, not, ◌&&◌, ◌||◌, Option, none,
  some, List, [], ◌∷◌, ◌++◌, ◌==◌, ==→eq, is_some, All, Bool-cases, Option-cases,
}
use ai_hr_sytem.Base.Keyed.{row_at-saved, row_at-saved_other, saved}
use ai_hr_sytem.Performance.Defs.{
  CyclePhase, phase_eq, RatingLevel, ReviewCycle, Review, ReviewStatus, PerformanceStore,
}
use ai_hr_sytem.Performance.Cycles.{cycle_at}
use ai_hr_sytem.Performance.Reviews.{on_scale}

-- The statuses that a review can have in a phase.
unfoldable pub fits : CyclePhase → ReviewStatus → Bool
fits CyclePhase.self_review ReviewStatus.pending_self = true
fits CyclePhase.self_review ReviewStatus.pending_manager = true
fits CyclePhase.manager_review ReviewStatus.pending_manager = true
fits CyclePhase.calibration ReviewStatus.pending_calibration = true
fits CyclePhase.closed ReviewStatus.completed = true
fits CyclePhase.closed ReviewStatus.acknowledged = true
fits _ _ = false

abbrev pub is_rated : List RatingLevel → Option ℕ → Bool
is_rated scale none = true
is_rated scale (some v) = on_scale scale v

-- In a closed cycle a review that the manager rated has a final rating.
abbrev pub is_final : CyclePhase → Review → Bool
is_final phase r =
    not (phase_eq phase CyclePhase.closed)
    || not (is_some r.manager_rating)
    || is_some r.final_rating

unfoldable pub is_consistent : ReviewCycle → Review → Bool
is_consistent c r =
    fits c.phase r.status
    && is_rated c.rating_scale r.self_rating
    && is_rated c.rating_scale r.manager_rating
    && is_rated c.rating_scale r.final_rating
    && is_final c.phase r

-- The review has its cycle, and is consistent with it.
abbrev pub consistent_in : List ReviewCycle → Review → Bool
consistent_in cs r = elim (cycle_at r.cycle_id cs) [ none ↦ false | some c ↦ is_consistent c r ]

pub record IsSound (s : PerformanceStore) : Type 0 where
  pub each : All (λ r. consistent_in s.cycles r ≡ true) s.reviews

pub consistent_with :
    (cs : List ReviewCycle) (r : Review) (c : ReviewCycle)
    → cycle_at r.cycle_id cs ≡ some c
    → consistent_in cs r ≡ true
    → is_consistent c r ≡ true
consistent_with cs r c e h = ground (arith, e, h)

pub consistent_by :
    (cs : List ReviewCycle) (r : Review) (c : ReviewCycle)
    → cycle_at r.cycle_id cs ≡ some c
    → is_consistent c r ≡ true
    → consistent_in cs r ≡ true
consistent_by cs r c e h = ground (arith, e, h)

-- A consistent review has its cycle.
pub has_cycle :
    (cs : List ReviewCycle) (r : Review)
    → consistent_in cs r ≡ true
    → (c : ReviewCycle) × (cycle_at r.cycle_id cs ≡ some c) × (is_consistent c r ≡ true)
has_cycle cs r h = elim (Option-cases (cycle_at r.cycle_id cs)) [
  | inl n ↦ absurd (ground (arith, n))
  | inr (c, e) ↦ (c, e, consistent_with cs r c e h)
]

-- No review belongs to a draft.
pub draft_has_none :
    (c : ReviewCycle) (r : Review) → c.phase ≡ CyclePhase.draft → ¬ (is_consistent c r ≡ true)
unfolding is_consistent fits
draft_has_none c r e h = ground (arith, e, h)

pub draft_phase : (p : CyclePhase) → phase_eq p CyclePhase.draft ≡ true → p ≡ CyclePhase.draft
draft_phase p h = ground arith

-- A cycle is saved, and a review of it changes along with it.
module _ (cs : List ReviewCycle) (c new : ReviewCycle) (found : cycle_at c.id cs ≡ some c)
    (same : new.id ≡ c.id) where
  pub consistent-saved :
      (r r' : Review)
      → r'.cycle_id ≡ r.cycle_id
      → ((r.cycle_id == c.id) ≡ true → is_consistent c r ≡ true → is_consistent new r' ≡ true)
      → ((r.cycle_id == c.id) ≡ false → r' ≡ r)
      → consistent_in cs r ≡ true
      → consistent_in (saved ReviewCycle.id new cs) r' ≡ true
  consistent-saved r r' k inside outside h = elim (Bool-cases (r.cycle_id == c.id)) [
    | inl q ↦
        let e : cycle_at r.cycle_id cs ≡ some c =
          subst (λ j. cycle_at j cs ≡ some c) (sym (==→eq _ _ q)) found in
        let own : new.id ≡ r'.cycle_id = same ∙ sym (==→eq _ _ q) ∙ sym k in
        let e' : cycle_at r'.cycle_id cs ≡ some c = subst (λ j. cycle_at j cs ≡ some c) (sym k) e in
        consistent_by (saved ReviewCycle.id new cs) r' new
          (row_at-saved ReviewCycle.id r'.cycle_id cs c new e' own)
          (inside q (consistent_with cs r c e h))
    | inr q ↦
        let other : (new.id == r.cycle_id) ≡ false = ground (arith, q, same) in
        let (x, e, f) = has_cycle cs r h in
        subst (λ z. consistent_in (saved ReviewCycle.id new cs) z ≡ true) (sym (outside q))
          (consistent_by (saved ReviewCycle.id new cs) r x
            (row_at-saved_other ReviewCycle.id r.cycle_id cs new other ∙ e) f)
  ]
