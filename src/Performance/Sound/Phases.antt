-- ===== src/Performance/Sound/Phases.antt =====
-- The phases of a cycle keep its reviews consistent: creation, update, deletion, launch and advance.
use ai_hr_sytem.Base.{
  ℕ, suc, ◌≡◌, refl, ◌∙◌, inl, inr, arith, true, false, not, Option, some, List, [], ◌∷◌, ◌++◌,
  ◌==◌, All, Bool-cases, select,
}
use ai_hr_sytem.Base.Keyed.{row_at-append, row_at-dropped, row_at-saved, saved, dropped}
use ai_hr_sytem.Employees.{Employee}
use ai_hr_sytem.Performance.Defs.{CyclePhase, phase_eq, ReviewCycle, Review, PerformanceStore}
use ai_hr_sytem.Performance.Cycles.{
  CreateCycle, UpdateCycle, cycle_at, new_cycle, create_cycle, update_cycle, remove_cycle,
}
use ai_hr_sytem.Performance.Cycles.Phases.{
  new_review, new_reviews, reviewer_login, launched, commit_launch, launch,
}
use ai_hr_sytem.Performance.Sound.{
  fits, is_consistent, consistent_in, IsSound, consistent_by, has_cycle, draft_has_none,
  draft_phase, consistent-saved,
}
use ai_hr_sytem.Performance.Cycles.Checks.{check_update-kept}
use ai_hr_sytem.Performance.Cycles.Outcomes.{create_cases, update_cases, remove_cases, launch_cases}

pub All-map :
    (P Q : Review → Type 0) (rs : List Review) → ((r : Review) → P r → Q r) → All P rs → All Q rs
All-map P Q [] f h = tt
All-map P Q (r ∷ rs) f h = (f r h.0, All-map P Q rs f h.1)

All-append : (P : Review → Type 0) (xs ys : List Review) → All P xs → All P ys → All P (xs ++ ys)
All-append P [] ys h k = k
All-append P (x ∷ xs) ys h k = (h.0, All-append P xs ys h.1 k)

-- A consistent review stays so while its cycle stays.
consistent_more :
    (cs ds : List ReviewCycle) (r : Review)
    → consistent_in cs r ≡ true
    → consistent_in (cs ++ ds) r ≡ true
consistent_more cs ds r h =
    let (c, e, k) = has_cycle cs r h in
    consistent_by (cs ++ ds) r c (row_at-append ReviewCycle.id r.cycle_id cs ds c e) k

module _ (s : PerformanceStore) (h : IsSound s) where
  pub create_cycle-IsSound : (dto : CreateCycle) (actor : ℕ) → IsSound (create_cycle dto actor s).1
  create_cycle-IsSound dto actor = create_cases s IsSound h dto actor λ l.
      let more = new_cycle s.next_cycle_id dto l actor ∷ [] in
      record {
        each =
            All-map (λ r. consistent_in s.cycles r ≡ true)
              (λ r. consistent_in (s.cycles ++ more) r ≡ true) s.reviews
              (consistent_more s.cycles more) h.each;
      }

  -- An update of a cycle leaves its reviews consistent: a draft has none, and later the scale stays.
  updated_fit :
      (c new : ReviewCycle) (r : Review)
      → (new.phase ≡ c.phase)
      → (phase_eq c.phase CyclePhase.draft ≡ false → new.rating_scale ≡ c.rating_scale)
      → is_consistent c r ≡ true
      → is_consistent new r ≡ true
  updated_fit c new r p e k = elim (Bool-cases (phase_eq c.phase CyclePhase.draft)) [
    | inl d ↦ absurd (draft_has_none c r (draft_phase c.phase d) k)
    | inr d ↦ let l = e d in unfold is_consistent in ground (arith, k, p, l)
  ]

  pub update_cycle-IsSound : (id : ℕ) (dto : UpdateCycle) → IsSound (update_cycle id dto s).1
  update_cycle-IsSound id dto = update_cases s IsSound h id dto λ c new e k.
      let (same, phase, frozen) = check_update-kept dto c s new k in
      record {
        each =
            All-map (λ r. consistent_in s.cycles r ≡ true)
              (λ r. consistent_in (saved ReviewCycle.id new s.cycles) r ≡ true) s.reviews
              (λ r.
                consistent-saved s.cycles c new e same r r refl
                  (λ _. updated_fit c new r phase (λ d. (frozen d).0)) (λ _. refl))
              h.each;
      }

  kept_reviews :
      (id : ℕ) (rs : List Review)
      → All (λ r. consistent_in s.cycles r ≡ true) rs
      → All
          (λ r. consistent_in (dropped ReviewCycle.id id s.cycles) r ≡ true)
          (select (λ (r : Review). not (r.cycle_id == id)) rs)
  kept_reviews id [] a = tt
  kept_reviews id (r ∷ rs) a = elim (Bool-cases (r.cycle_id == id)) [
    | inl k ↦ rw k (kept_reviews id rs a.1)
    | inr k ↦
        let (c, e, f) = has_cycle s.cycles r a.0 in
        let other : (id == r.cycle_id) ≡ false = ground (arith, k) in
        rw k (
          consistent_by (dropped ReviewCycle.id id s.cycles) r c
              (row_at-dropped ReviewCycle.id r.cycle_id id s.cycles other ∙ e) f,
          kept_reviews id rs a.1,
        )
  ]

  pub remove_cycle-IsSound : (id : ℕ) → IsSound (remove_cycle id s).1
  remove_cycle-IsSound id =
      remove_cases s IsSound h id λ c e d. record { each = kept_reviews id s.reviews h.each }

  -- The reviews that a launch writes.
  launched_fit :
      (c : ReviewCycle) (now id e : ℕ) (m : Option ℕ)
      → is_consistent (launched now c) (new_review id c.id e m) ≡ true
  unfolding is_consistent fits
  launched_fit c now id e m = refl

  launched_reviews :
      (now : ℕ) (c : ReviewCycle) (found : cycle_at c.id s.cycles ≡ some c) (all : List Employee)
      (id : ℕ) (es : List Employee)
      → All
          (λ r. consistent_in (saved ReviewCycle.id (launched now c) s.cycles) r ≡ true)
          (new_reviews all id c.id es)
  unfolding new_reviews
  launched_reviews now c found all id [] = tt
  launched_reviews now c found all id (e ∷ es) = (
    consistent_by (saved ReviewCycle.id (launched now c) s.cycles)
        (new_review id c.id e.id (reviewer_login all e)) (launched now c)
        (row_at-saved ReviewCycle.id c.id s.cycles c (launched now c) found refl)
        (launched_fit c now id e.id (reviewer_login all e)),
    launched_reviews now c found all (suc id) es,
  )

  commit_launch-IsSound :
      (now : ℕ) (c : ReviewCycle)
      → cycle_at c.id s.cycles ≡ some c
      → c.phase ≡ CyclePhase.draft
      → (es : List Employee) → IsSound (commit_launch now c es s)
  commit_launch-IsSound now c found d es = record {
    each =
        All-append (λ r. consistent_in (saved ReviewCycle.id (launched now c) s.cycles) r ≡ true)
          s.reviews (new_reviews s.employees s.next_review_id c.id es)
          (All-map (λ r. consistent_in s.cycles r ≡ true)
            (λ r. consistent_in (saved ReviewCycle.id (launched now c) s.cycles) r ≡ true) s.reviews
            (λ r.
              consistent-saved s.cycles c (launched now c) found refl r r refl
                (λ _ k. absurd (draft_has_none c r d k)) (λ _. refl))
            h.each)
          (launched_reviews now c found s.employees s.next_review_id es);
  }

  pub launch-IsSound : (now id : ℕ) → IsSound (launch now id s).1
  launch-IsSound now id =
      launch_cases s IsSound h now id
        λ c es e d. commit_launch-IsSound now c e (draft_phase c.phase d) es
