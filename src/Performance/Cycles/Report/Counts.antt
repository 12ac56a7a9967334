-- ===== src/Performance/Cycles/Report/Counts.antt =====
-- The rows of the report are what a direct count over the reviews of each department gives.
use ai_hr_sytem.Base.{
  ℕ, ◌+◌, ◌≡◌, refl, sym, ◌∙◌, subst, arith, Bool, Option, none, some, List, [], ◌∷◌, ◌==◌,
  if◌then◌else◌, opt_eq, or_else, is_some, select, sum_of, length, Option-cases, inl, inr,
}
use ai_hr_sytem.Base.Groups.{
  value_at, HasNewKeys, join_all, value_at-put, value_at-group, group-HasNewKeys,
}
use ai_hr_sytem.Performance.Cycles.Report.{
  ReportEntry, DepartmentTally, first_tally, is_completed, is_acknowledged, count_rating, rate,
  count_entry, by_department,
}

abbrev pub rating_of : ReportEntry → ℕ
rating_of x = or_else x.final_rating 0

abbrev pub is_rated : ReportEntry → Bool
is_rated x = is_some x.final_rating

abbrev pub has_rating : ℕ → ReportEntry → Bool
has_rating v x = opt_eq x.final_rating v

-- What the tally of a list of entries says.
pub record IsCounted (xs : List ReportEntry) (t : DepartmentTally) : Type 0 where
  pub reviews : t.reviews ≡ length xs
  pub completed : t.completed ≡ length (select is_completed xs)
  pub acknowledged : t.acknowledged ≡ length (select is_acknowledged xs)
  pub rated : t.rated ≡ length (select is_rated xs)
  pub sum : t.sum ≡ sum_of rating_of xs
  pub distribution :
      (v : ℕ) → or_else (value_at v t.distribution) 0 ≡ length (select (has_rating v) xs)

-- How the tally of some entries differs from the one it started from.
record IsAdded (xs : List ReportEntry) (a t : DepartmentTally) : Type 0 where
  reviews : t.reviews ≡ a.reviews + length xs
  completed : t.completed ≡ a.completed + length (select is_completed xs)
  acknowledged : t.acknowledged ≡ a.acknowledged + length (select is_acknowledged xs)
  rated : t.rated ≡ a.rated + length (select is_rated xs)
  sum : t.sum ≡ a.sum + sum_of rating_of xs
  distribution :
      (v : ℕ)
      → or_else (value_at v t.distribution) 0
        ≡ or_else (value_at v a.distribution) 0 + length (select (has_rating v) xs)

abbrev tallied : List ReportEntry → Option DepartmentTally → Option DepartmentTally
tallied = join_all ReportEntry.department_id first_tally count_entry

count_one :
    (v w : ℕ) (m : List (ℕ × ℕ))
    → or_else (value_at v (count_rating w m)) 0
      ≡ or_else (value_at v m) 0 + (if w == v then 1 else 0)
unfolding count_rating
count_one v w m = ground (arith, value_at-put (λ (n : ℕ). n) (λ _. 0) (λ _ n. n + 1) v w m)

one-IsAdded : (x : ReportEntry) (a : DepartmentTally) → IsAdded (x ∷ []) a (count_entry x a)
unfolding count_entry rate
one-IsAdded x a = elim (Option-cases x.final_rating) [
  | inl n ↦ record {
    reviews = ground (arith, n);
    completed = ground (arith, n);
    acknowledged = ground (arith, n);
    rated = ground (arith, n);
    sum = ground (arith, n);
    distribution = λ v. ground (arith, n);
  }
  | inr (w, n) ↦ record {
    reviews = ground (arith, n);
    completed = ground (arith, n);
    acknowledged = ground (arith, n);
    rated = ground (arith, n);
    sum = ground (arith, n);
    distribution = λ v. ground (arith, n, count_one v w a.distribution);
  }
]

tallied-IsAdded :
    (xs : List ReportEntry) (a t : DepartmentTally) → tallied xs (some a) ≡ some t → IsAdded xs a t
tallied-IsAdded [] a t h =
    let e : a ≡ t = ground (arith, h) in
    subst (IsAdded [] a) e (record {
      reviews = omega arith;
      completed = omega arith;
      acknowledged = omega arith;
      rated = omega arith;
      sum = omega arith;
      distribution = λ v. omega arith;
    })
tallied-IsAdded (x ∷ xs) a t h =
    let b = one-IsAdded x a in
    let r = tallied-IsAdded xs (count_entry x a) t h in
    record {
      reviews = ground (arith, b.reviews, r.reviews);
      completed = ground (arith, b.completed, r.completed);
      acknowledged = ground (arith, b.acknowledged, r.acknowledged);
      rated = ground (arith, b.rated, r.rated);
      sum = ground (arith, b.sum, r.sum);
      distribution = λ v. ground (arith, b.distribution v, r.distribution v);
    }

tallied-IsCounted :
    (xs : List ReportEntry) (t : DepartmentTally) → tallied xs none ≡ some t → IsCounted xs t
tallied-IsCounted [] t h = absurd (ground arith)
tallied-IsCounted (x ∷ xs) t h =
    let b = one-IsAdded x (first_tally x) in
    let r = tallied-IsAdded xs (count_entry x (first_tally x)) t h in
    record {
      reviews = ground (arith, b.reviews, r.reviews);
      completed = ground (arith, b.completed, r.completed);
      acknowledged = ground (arith, b.acknowledged, r.acknowledged);
      rated = ground (arith, b.rated, r.rated);
      sum = ground (arith, b.sum, r.sum);
      distribution = λ v. ground (arith, b.distribution v, r.distribution v);
    }

tallied-none : (xs : List ReportEntry) → tallied xs none ≡ none → xs ≡ []
tallied-none [] h = refl
tallied-none (x ∷ xs) h = absurd (never xs (count_entry x (first_tally x)) h)
  where
    never : (xs : List ReportEntry) (a : DepartmentTally) → ¬ (tallied xs (some a) ≡ none)
    never [] a h = ground arith
    never (x ∷ xs) a h = never xs (count_entry x a) h

abbrev pub of_department : ℕ → List ReportEntry → List ReportEntry
of_department d = select (λ (x : ReportEntry). x.department_id == d)

-- The loop over the entries has one row at most for each department, which counts its entries.
pub by_department_counts :
    (xs : List ReportEntry)
    → HasNewKeys (by_department xs)
      × ((d : ℕ) → value_at d (by_department xs) ≡ none → of_department d xs ≡ [])
      × ((d : ℕ) (t : DepartmentTally)
          → value_at d (by_department xs) ≡ some t
          → IsCounted (of_department d xs) t)
unfolding by_department
by_department_counts xs =
    let look =
      λ (d : ℕ). value_at-group ReportEntry.department_id first_tally count_entry d [] xs in
    (
      group-HasNewKeys ReportEntry.department_id first_tally count_entry [] xs tt,
      λ d h. tallied-none (of_department d xs) (sym (look d) ∙ h),
      λ d t h. tallied-IsCounted (of_department d xs) t (sym (look d) ∙ h),
    )
