-- ===== src/Payroll/Timeline.antt =====
-- The salary structures of an employee follow one another without gap or overlap.
use ai_hr_sytem.Base.{
  ℕ, ◌<◌, ◌≡◌, refl, sym, subst, ◌∙◌, inl, inr, arith, Bool, false, ◌&&◌, none, some, List, [], ◌∷◌,
  ◌++◌, leb, ◌==◌, ==→eq, ==_refl, or_else, find, select, update_where, Bool-cases, Option-cases,
  Result-cases,
}
use ai_hr_sytem.Calendar.{IsoDate, prev_day}
use mathlib.Core.List.{append-nil}
use ai_hr_sytem.Employees.{find_by_id}
use ai_hr_sytem.Employees.Placement.{find_by_id_reads}
use ai_hr_sytem.Payroll.Structures.{
  StructureLine, SalaryStructure, CreateStructure, StructureStore, is_of, is_current, closed_before,
  check_lines, close_current, new_structure, create_structure,
}

-- Each structure ends on the day before the next one starts, and the last one is open.
abbrev pub IsTimeline : List SalaryStructure → Type 0
IsTimeline [] = Unit
IsTimeline (x ∷ []) = x.effective_to ≡ none
IsTimeline (x ∷ (y ∷ r)) =
    (x.effective_to ≡ some (prev_day y.effective_from))
    × (x.effective_from < y.effective_from)
    × IsTimeline (y ∷ r)

abbrev pub HasTimelines : List SalaryStructure → Type 0
HasTimelines l = (e : ℕ) → IsTimeline (select (is_of e) l)

-- A change of the current structure of an employee, seen by the structures of one employee.
select-update_own :
    (e : ℕ) (from : IsoDate) (xs : List SalaryStructure)
    → select (is_of e) (update_where (λ x. is_of e x && is_current x) (closed_before from) xs)
      ≡ update_where is_current (closed_before from) (select (is_of e) xs)
select-update_own e from [] = refl
select-update_own e from (x ∷ xs) = ground (arith, select-update_own e from xs)

select-update_other :
    (e i : ℕ) (from : IsoDate) (xs : List SalaryStructure)
    → (i == e) ≡ false
    → select (is_of e) (update_where (λ x. is_of i x && is_current x) (closed_before from) xs)
      ≡ select (is_of e) xs
select-update_other e i from [] h = refl
select-update_other e i from (x ∷ xs) h = ground (arith, select-update_other e i from xs h)

select-append :
    (p : SalaryStructure → Bool) (xs ys : List SalaryStructure)
    → select p (xs ++ ys) ≡ select p xs ++ select p ys
select-append p [] ys = refl
select-append p (x ∷ xs) ys = ground (arith, select-append p xs ys)

find-select :
    (e : ℕ) (xs : List SalaryStructure)
    → find (λ x. is_of e x && is_current x) xs ≡ find is_current (select (is_of e) xs)
find-select e [] = refl
find-select e (x ∷ xs) = ground (arith, find-select e xs)

-- The end of a timeline is closed, and another structure is put behind it.
extend :
    (xs : List SalaryStructure) (n c : SalaryStructure)
    → IsTimeline xs
    → find is_current xs ≡ some c
    → c.effective_from < n.effective_from
    → n.effective_to ≡ none
    → IsTimeline (update_where is_current (closed_before n.effective_from) xs ++ n ∷ [])
extend [] n c t f lt o = absurd (ground arith)
extend (x ∷ []) n c t f lt o = ground arith
extend (x ∷ (y ∷ r)) n c t f lt o =
    let rest = extend (y ∷ r) n c t.2 (ground arith) lt o in (ground arith, ground arith, rest)

no_current : (xs : List SalaryStructure) → IsTimeline xs → find is_current xs ≡ none → xs ≡ []
no_current [] t f = refl
no_current (x ∷ []) t f = absurd (ground arith)
no_current (x ∷ (y ∷ r)) t f = absurd (impossible (no_current (y ∷ r) t.2 (ground arith)))
  where
    impossible : (y ∷ r) ≡ [] → ⊥
    impossible e = cc

-- The structures with the current one of employee `i` closed, and a new one of the same employee.
followed-HasTimelines :
    (l : List SalaryStructure) (n c : SalaryStructure)
    → HasTimelines l
    → find (λ x. is_of n.employee_id x && is_current x) l ≡ some c
    → c.effective_from < n.effective_from
    → n.effective_to ≡ none
    → HasTimelines (
        update_where (λ x. is_of n.employee_id x && is_current x) (closed_before n.effective_from) l
        ++ n ∷ [])
followed-HasTimelines l n c h f lt o e =
    let i = n.employee_id in
    let l' = update_where (λ x. is_of i x && is_current x) (closed_before n.effective_from) l in
    elim (Bool-cases (i == e)) [
      | inl k ↦
          let same : i ≡ e = ==→eq i e k in
          subst (λ j. IsTimeline (select (is_of j) (l' ++ n ∷ []))) same
            (rw
              (
                select-append (is_of i) l' (n ∷ []),
                select-update_own i n.effective_from l,
                ==_refl i,
              )
              (extend (select (is_of i) l) n c (h i) (sym (find-select i l) ∙ f) lt o))
      | inr k ↦
          rw (select-append (is_of e) l' (n ∷ []), select-update_other e i n.effective_from l k, k)
            (rw append-nil (h e))
    ]

-- A first structure of an employee.
first-HasTimelines :
    (l : List SalaryStructure) (n : SalaryStructure)
    → HasTimelines l
    → find (λ x. is_of n.employee_id x && is_current x) l ≡ none
    → n.effective_to ≡ none
    → HasTimelines (l ++ n ∷ [])
first-HasTimelines l n h f o e =
    let i = n.employee_id in
    elim (Bool-cases (i == e)) [
      | inl k ↦
          let same : i ≡ e = ==→eq i e k in
          subst (λ j. IsTimeline (select (is_of j) (l ++ n ∷ []))) same
            (rw
              (
                select-append (is_of i) l (n ∷ []),
                ==_refl i,
                no_current (select (is_of i) l) (h i) (sym (find-select i l) ∙ f),
              )
              o)
      | inr k ↦ rw (select-append (is_of e) l (n ∷ []), k) (rw append-nil (h e))
    ]

check_lines_reads : (ls : List StructureLine) (s : StructureStore) → (check_lines ls s).1 ≡ s
unfolding check_lines
check_lines_reads ls s = ground arith

-- Creating a structure, whether it goes through or is refused, keeps the structures of every
-- employee one behind the other: each ends on the day before the next one starts, and only the
-- last one is open.
pub create_structure-HasTimelines :
    (currency : ℕ) (dto : CreateStructure) (actor : ℕ) (s : StructureStore)
    → HasTimelines s.structures
    → HasTimelines (create_structure currency dto actor s).1.structures
unfolding create_structure close_current
create_structure-HasTimelines currency dto actor s h =
    let reads = find_by_id_reads dto.employee_id s.company in
    let checks = check_lines_reads (or_else dto.lines []) s in
    let n = new_structure s.next_id currency dto actor in
    elim (Result-cases (find_by_id dto.employee_id s.company).0) [
      | inr (x, e) ↦ subst HasTimelines (ground arith) h
      | inl (emp, e) ↦ elim (Result-cases (check_lines (or_else dto.lines []) s).0) [
        | inr (x, q) ↦ subst HasTimelines (ground arith) h
        | inl (u, q) ↦
            elim (Option-cases (find (λ x. is_of dto.employee_id x && is_current x) s.structures)) [
              | inl f ↦
                  subst HasTimelines (ground arith) (first-HasTimelines s.structures n h f refl)
              | inr (c, f) ↦ elim (Bool-cases (leb dto.effective_from c.effective_from)) [
                | inl late ↦ subst HasTimelines (ground arith) h
                | inr early ↦
                    subst HasTimelines (ground arith)
                      (followed-HasTimelines s.structures n c h f (ground arith) refl)
              ]
            ]
      ]
    ]
