-- ===== src/Departments/Query.antt =====
-- The recursive query: its levels run out, and it finds what is below a department and nothing else.
use ai_hr_sytem.Base.{
  ℕ, zero, suc, ◌+◌, ◌≤◌, ◌≡◌, refl, sym, ap, subst, ◌∙◌, ◌⊎◌, inl, inr, arith, Bool, true, false,
  ◌&&◌, none, some, List, [], ◌∷◌, ◌==◌, ==→eq, ==_refl, includes, length, Bool-cases, Option-cases,
}
use ai_hr_sytem.Departments.{Department, next_level, search_below, is_descendant}
use ai_hr_sytem.Departments.Below.{is_parent, Below, direct, above, depth, IsTree, tree_depth}

-- Every member of a level has its parent on the level before.
pub parent_before :
    (ids : List ℕ) (ds : List Department) (t : ℕ)
    → includes (next_level ids ds) t ≡ true
    → (p : ℕ) × (is_parent ds t p ≡ true) × (includes ids p ≡ true)
parent_before ids [] t h = absurd (ground arith)
parent_before ids (d ∷ ds) t h = elim (Option-cases d.parent_id) [
  | inl n ↦ older (parent_before ids ds t (ground (arith, n, h)))
  | inr (p, e) ↦ elim (Bool-cases ((d.id == t) && includes ids p)) [
    | inl y ↦ (p, ground (arith, y, e, ==_refl p), ground (arith, y))
    | inr k ↦ older (parent_before ids ds t (ground (arith, k, e, h)))
  ]
]
  where
    older :
        (p : ℕ) × (is_parent ds t p ≡ true) × (includes ids p ≡ true)
        → (p : ℕ) × (is_parent (d ∷ ds) t p ≡ true) × (includes ids p ≡ true)
    older (p, e, q) = (p, ground (arith, e), q)

pub child_after :
    (ids : List ℕ) (ds : List Department) (t p : ℕ)
    → is_parent ds t p ≡ true
    → includes ids p ≡ true
    → includes (next_level ids ds) t ≡ true
child_after ids [] t p e h = e
child_after ids (d ∷ ds) t p e h = elim (Option-cases d.parent_id) [
  | inl n ↦ ground (arith, n, e, h, child_after ids ds t p)
  | inr (q, k) ↦ elim (Bool-cases (q == p)) [
    | inl y ↦
        let same : includes ids q ≡ true = rw (==→eq q p y) h in
        ground (arith, k, e, same, child_after ids ds t p)
    | inr y ↦ ground (arith, k, e, y, h, child_after ids ds t p)
  ]
]

-- A level of departments below `a`.
abbrev IsUnder : List Department → ℕ → List ℕ → Type 0
IsUnder ds a level = (t : ℕ) → includes level t ≡ true → Below ds t a

next-IsUnder :
    (ds : List Department) (a : ℕ) (level : List ℕ)
    → IsUnder ds a level
    → IsUnder ds a (next_level level ds)
next-IsUnder ds a level h t k = let (p, e, q) = parent_before level ds t k in above e (h p q)

search_sound :
    (n : ℕ) (ds : List Department) (c a : ℕ) (level : List ℕ)
    → IsUnder ds a level
    → search_below n ds c level ≡ some true
    → Below ds c a
unfolding search_below
search_sound n ds c a [] u h = absurd (ground arith)
search_sound zero ds c a (x ∷ level) u h = absurd (ground arith)
search_sound (suc n) ds c a (x ∷ level) u h = elim (Bool-cases (includes (x ∷ level) c)) [
  | inl y ↦ u c y
  | inr k ↦
      search_sound n ds c a (next_level (x ∷ level) ds) (next-IsUnder ds a (x ∷ level) u)
        (ground arith)
]

-- `c` is on the level, or below it.
pub data Reaches (ds : List Department) (level : List ℕ) : ℕ → Type 0 where
  at : {c : ℕ} → includes level c ≡ true → Reaches ds level c
  under : {c k : ℕ} → is_parent ds c k ≡ true → Reaches ds level k → Reaches ds level c

pub next-Reaches :
    (ds : List Department) (level : List ℕ) (c : ℕ)
    → Reaches ds level c
    → (includes level c ≡ true) ⊎ Reaches ds (next_level level ds) c
next-Reaches ds level c (at h) = inl h
next-Reaches ds level c (under {k = k} e r) = elim (next-Reaches ds level k r) [
  | inl h ↦ inr (at (child_after level ds c k e h))
  | inr s ↦ inr (under e s)
]

pub empty-Reaches : (ds : List Department) (c : ℕ) → ¬ Reaches ds [] c
empty-Reaches ds c (at h) = ground arith
empty-Reaches ds c (under {k = k} e r) = empty-Reaches ds k r

search_complete :
    (n : ℕ) (ds : List Department) (c : ℕ) (level : List ℕ)
    → search_below n ds c level ≡ some false
    → ¬ Reaches ds level c
unfolding search_below
search_complete n ds c [] h r = empty-Reaches ds c r
search_complete zero ds c (x ∷ level) h r = absurd (ground arith)
search_complete (suc n) ds c (x ∷ level) h r = elim (next-Reaches ds (x ∷ level) c r) [
  | inl y ↦ ground arith
  | inr s ↦ search_complete n ds c (next_level (x ∷ level) ds) (ground arith) s
]

Below-Reaches :
    (ds : List Department) (c a : ℕ) → Below ds c a → Reaches ds (next_level (a ∷ []) ds) c
Below-Reaches ds c a (direct e) = at (child_after (a ∷ []) ds c a e (ground (arith, ==_refl a)))
Below-Reaches ds c a (above {k = k} e r) = under e (Below-Reaches ds k a r)

-- A level of departments that are `k` steps below `a`.
abbrev pub IsAt : List Department → ℕ → ℕ → List ℕ → Type 0
IsAt ds a k level = (t : ℕ) → includes level t ≡ true → (r : Below ds t a) × (depth r ≡ k)

pub next-IsAt :
    (ds : List Department) (a k : ℕ) (level : List ℕ)
    → IsAt ds a k level
    → IsAt ds a (suc k) (next_level level ds)
next-IsAt ds a k level h t q =
    let (p, e, i) = parent_before level ds t q in let (r, d) = h p i in (above e r, ap suc d)

first-IsAt : (ds : List Department) (a : ℕ) → IsAt ds a 1 (next_level (a ∷ []) ds)
first-IsAt ds a t q =
    let (p, e, i) = parent_before (a ∷ []) ds t q in
    let same : a ≡ p = ground (arith, i, ==→eq a p) in
    (direct (subst (λ v. is_parent ds t v ≡ true) (sym same) e), refl)

-- A search that uses its fuel up has gone one level down for each of it.
search_deep :
    (n : ℕ) (ds : List Department) (c a k : ℕ) (level : List ℕ)
    → IsAt ds a k level
    → search_below n ds c level ≡ none
    → (t : ℕ) × (r : Below ds t a) × (depth r ≡ k + n)
unfolding search_below
search_deep n ds c a k [] u h = absurd (ground arith)
search_deep zero ds c a k (x ∷ level) u h =
    let (r, d) = u x (ground (arith, ==_refl x)) in (x, r, omega (arith, d))
search_deep (suc n) ds c a k (x ∷ level) u h =
    let below = next_level (x ∷ level) ds in
    let (t, r, d) =
      search_deep n ds c a (suc k) below (next-IsAt ds a k (x ∷ level) u) (ground arith) in
    (t, r, omega (arith, d))

-- In a tree of departments the query comes to an end: with fuel for as many levels as there are
-- departments, and any fuel beyond that, it answers.
pub search_below_ends :
    (n c a : ℕ) (ds : List Department)
    → IsTree ds
    → length ds ≤ n
    → (found : Bool) × (search_below n ds c (next_level (a ∷ []) ds) ≡ some found)
search_below_ends n c a ds tree h =
    elim (Option-cases (search_below n ds c (next_level (a ∷ []) ds))) [
      | inr found ↦ found
      | inl none_left ↦
          let (t, r, d) =
            search_deep n ds c a 1 (next_level (a ∷ []) ds) (first-IsAt ds a) none_left in
          absurd (omega (arith, tree_depth ds tree r, d, h))
    ]

-- In a tree of departments isDescendant answers true just for what is below the department.
pub is_descendant_correct :
    (c a : ℕ) (ds : List Department)
    → IsTree ds
    → (is_descendant ds c a ≡ true → Below ds c a) × (Below ds c a → is_descendant ds c a ≡ true)
unfolding is_descendant
is_descendant_correct c a ds tree =
    let first = next_level (a ∷ []) ds in
    let under = λ (t : ℕ) (q : includes first t ≡ true). (first-IsAt ds a t q).0 in
    let (found, e) = search_below_ends (suc (length ds)) c a ds tree (omega arith) in
    elim (Bool-cases found) [
      | inl y ↦
          let yes = e ∙ ap some y in
          (λ _. search_sound (suc (length ds)) ds c a first under yes, λ _. ground (arith, yes))
      | inr k ↦
          let no = e ∙ ap some k in
          (
            λ h. ground (arith, no, h),
            λ r. absurd (search_complete (suc (length ds)) ds c first no (Below-Reaches ds c a r)),
          )
    ]
