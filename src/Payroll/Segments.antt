-- ===== src/Payroll/Segments.antt =====
-- The segments of a period against the structure in force on each of its days.
use ai_hr_sytem.Base.{
  ℕ, ◌≤◌, ◌<◌, ◌≡◌, refl, sym, inl, inr, arith, Bool, true, ◌&&◌, Option, none, some, List, [], ◌∷◌,
  map, leb, find, select, All, Bool-cases, Option-cases,
}
use ai_hr_sytem.Calendar.{IsoDate, year_of, days_in_month, prev_day}
use ai_hr_sytem.Payroll.Structures.{
  SalaryStructure, Period, PaySegment, is_of, lasts_to, starts_by, insert_structure,
  sort_structures, clipped, segments_for, latest_structure, structure_on,
}
use ai_hr_sytem.Payroll.Timeline.{IsTimeline, HasTimelines}

prev_day_lt : (d : IsoDate) → 1 ≤ year_of d → prev_day d < d
unfolding prev_day days_in_month
prev_day_lt d h = ground arith

-- A structure is in force on a day.
abbrev pub covers : IsoDate → SalaryStructure → Bool
covers d s = starts_by d s && lasts_to d s

abbrev meets : Period → SalaryStructure → Bool
meets p s = starts_by p.end s && lasts_to p.start s

-- The part that a segment pays for.
abbrev pub pays : IsoDate → PaySegment → Bool
pays d g = leb g.start d && leb d g.end

abbrev pub structure_of : Option PaySegment → Option SalaryStructure
structure_of none = none
structure_of (some g) = some g.structure

pays-clipped :
    (d : IsoDate) (p : Period) (s : SalaryStructure)
    → p.start ≤ d
    → d ≤ p.end
    → pays d (clipped p s) ≡ covers d s
pays-clipped d p s a b = elim (Option-cases s.effective_to) [
  | inl k ↦ ground arith
  | inr (last, k) ↦ ground arith
]

meets_of_covers :
    (d : IsoDate) (p : Period) (s : SalaryStructure)
    → p.start ≤ d
    → d ≤ p.end
    → covers d s ≡ true
    → meets p s ≡ true
meets_of_covers d p s a b h = elim (Option-cases s.effective_to) [
  | inl k ↦ ground arith
  | inr (last, k) ↦ ground arith
]

find-clipped :
    (d : IsoDate) (p : Period) (xs : List SalaryStructure)
    → p.start ≤ d
    → d ≤ p.end
    → structure_of (find (pays d) (map (clipped p) xs)) ≡ find (covers d) xs
find-clipped d p [] a b = refl
find-clipped d p (x ∷ xs) a b = elim (Bool-cases (covers d x)) [
  | inl k ↦ rw (pays-clipped d p x a b, k) refl
  | inr k ↦ rw (pays-clipped d p x a b, k) (find-clipped d p xs a b)
]

find-meets :
    (d : IsoDate) (p : Period) (xs : List SalaryStructure)
    → p.start ≤ d
    → d ≤ p.end
    → find (covers d) (select (meets p) xs) ≡ find (covers d) xs
find-meets d p [] a b = refl
find-meets d p (x ∷ xs) a b = ground (arith, meets_of_covers d p x a b, find-meets d p xs a b)

select-select :
    (e : ℕ) (q r : SalaryStructure → Bool) (xs : List SalaryStructure)
    → select (λ s. is_of e s && q s && r s) xs ≡ select (λ s. q s && r s) (select (is_of e) xs)
select-select e q r [] = refl
select-select e q r (x ∷ xs) = ground (arith, select-select e q r xs)

-- The starts come one after the other.
abbrev IsAscending : List SalaryStructure → Type 0
IsAscending [] = Unit
IsAscending (x ∷ xs) =
    All (λ (y : SalaryStructure). x.effective_from < y.effective_from) xs × IsAscending xs

after_trans :
    (a b : ℕ) (xs : List SalaryStructure)
    → a < b
    → All (λ (y : SalaryStructure). b < y.effective_from) xs
    → All (λ (y : SalaryStructure). a < y.effective_from) xs
after_trans a b [] h k = tt
after_trans a b (x ∷ xs) h k = (omega (arith, k.0), after_trans a b xs h k.1)

timeline-IsAscending : (xs : List SalaryStructure) → IsTimeline xs → IsAscending xs
timeline-IsAscending [] t = tt
timeline-IsAscending (x ∷ []) t = (tt, tt)
timeline-IsAscending (x ∷ (y ∷ r)) t =
    let rest = timeline-IsAscending (y ∷ r) t.2 in
    ((t.1, after_trans x.effective_from y.effective_from r t.1 rest.0), rest)

after-select :
    (a : ℕ) (p : SalaryStructure → Bool) (xs : List SalaryStructure)
    → All (λ (y : SalaryStructure). a < y.effective_from) xs
    → All (λ (y : SalaryStructure). a < y.effective_from) (select p xs)
after-select a p [] h = tt
after-select a p (x ∷ xs) h = elim (Bool-cases (p x)) [
  | inl k ↦ rw k (h.0, after-select a p xs h.1)
  | inr k ↦ rw k (after-select a p xs h.1)
]

IsAscending-select :
    (p : SalaryStructure → Bool) (xs : List SalaryStructure)
    → IsAscending xs
    → IsAscending (select p xs)
IsAscending-select p [] h = tt
IsAscending-select p (x ∷ xs) h = elim (Bool-cases (p x)) [
  | inl k ↦ rw k (after-select x.effective_from p xs h.0, IsAscending-select p xs h.1)
  | inr k ↦ rw k (IsAscending-select p xs h.1)
]

-- Structures that start one after the other are in order.
insert-first :
    (x : SalaryStructure) (xs : List SalaryStructure)
    → All (λ (y : SalaryStructure). x.effective_from < y.effective_from) xs
    → insert_structure x xs ≡ x ∷ xs
unfolding insert_structure
insert-first x [] h = refl
insert-first x (y ∷ ys) h = let first = h.0 in ground arith

sort_ascending : (xs : List SalaryStructure) → IsAscending xs → sort_structures xs ≡ xs
unfolding sort_structures
sort_ascending [] h = refl
sort_ascending (x ∷ xs) h = rw (sort_ascending xs h.1) (insert-first x xs h.0)

-- Nothing that starts after a day is in force on it.
none_later :
    (d : ℕ) (xs : List SalaryStructure)
    → All (λ (y : SalaryStructure). d < y.effective_from) xs
    → select (covers d) xs ≡ []
none_later d [] k = refl
none_later d (x ∷ xs) k = let first = k.0 in ground (arith, none_later d xs k.1)

latest-find :
    (d : IsoDate) (xs : List SalaryStructure)
    → IsTimeline xs
    → All (λ (s : SalaryStructure). 1 ≤ year_of s.effective_from) xs
    → latest_structure (select (covers d) xs) ≡ find (covers d) xs
unfolding latest_structure
latest-find d [] t v = refl
latest-find d (x ∷ []) t v = ground arith
latest-find d (x ∷ (y ∷ r)) t v = elim (Bool-cases (covers d x)) [
  | inr k ↦ rw k (latest-find d (y ∷ r) t.2 v.1)
  | inl k ↦
      let earlier = prev_day_lt y.effective_from v.1.0 in
      let ends = t.0 in
      let before : d < y.effective_from = ground arith in
      let rest = timeline-IsAscending (y ∷ r) t.2 in
      let later : select (covers d) (y ∷ r) ≡ [] =
        none_later d (y ∷ r) (before, after_trans d y.effective_from r before rest.0) in
      rw (k, later) refl
]

dated-select :
    (p : SalaryStructure → Bool) (xs : List SalaryStructure)
    → All (λ (s : SalaryStructure). 1 ≤ year_of s.effective_from) xs
    → All (λ (s : SalaryStructure). 1 ≤ year_of s.effective_from) (select p xs)
dated-select p [] h = tt
dated-select p (x ∷ xs) h = elim (Bool-cases (p x)) [
  | inl k ↦ rw k (h.0, dated-select p xs h.1)
  | inr k ↦ rw k (dated-select p xs h.1)
]

-- On every day of a period, where the structures of each employee follow one another and start
-- after year 0, the segment that pays for the day is that of the structure in force on it, and no
-- segment pays for a day with no structure in force.
pub segments_for-structure_on :
    (e : ℕ) (d : IsoDate) (p : Period) (l : List SalaryStructure)
    → HasTimelines l
    → All (λ (s : SalaryStructure). 1 ≤ year_of s.effective_from) l
    → p.start ≤ d
    → d ≤ p.end
    → structure_of (find (pays d) (segments_for e p l)) ≡ structure_on e d l
unfolding segments_for structure_on
segments_for-structure_on e d p l h v a b =
    let xs = select (is_of e) l in
    let t = h e in
    rw
      (
        select-select e (starts_by p.end) (lasts_to p.start) l,
        select-select e (starts_by d) (lasts_to d) l,
        sort_ascending (select (meets p) xs)
            (IsAscending-select (meets p) xs (timeline-IsAscending xs t)),
        find-clipped d p (select (meets p) xs) a b,
        find-meets d p xs a b,
      )
      (sym (latest-find d xs t (dated-select (is_of e) l v)))
