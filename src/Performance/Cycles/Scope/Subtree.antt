-- ===== src/Performance/Cycles/Scope/Subtree.antt =====
-- The scope of a cycle for one department: the department and everything below it.
use ai_hr_sytem.Base.{
  ℕ, zero, suc, ◌+◌, ◌≡◌, refl, sym, ap, subst, ◌∙◌, ◌⊎◌, inl, inr, arith, true, ◌||◌, none, some,
  List, [], ◌∷◌, ◌++◌, ◌==◌, ==→eq, ==_refl, any, includes, length, Bool-cases, Option-cases,
}
use ai_hr_sytem.Departments.{Department, next_level}
use ai_hr_sytem.Departments.Below.{is_parent, Below, direct, above, depth, IsTree, tree_depth}
use ai_hr_sytem.Departments.Query.{
  parent_before, Reaches, at, under, next-Reaches, empty-Reaches, IsAt, next-IsAt,
}
use ai_hr_sytem.Performance.Cycles.Scope.{collect_below, root_level, department_subtree}

includes-append :
    (xs ys : List ℕ) (c : ℕ) → includes (xs ++ ys) c ≡ (includes xs c || includes ys c)
includes-append [] ys c = refl
includes-append (x ∷ xs) ys c = ground (arith, includes-append xs ys c)

-- A level below the first is reached from it.
Reaches-next :
    (ds : List Department) (level : List ℕ) (c : ℕ)
    → Reaches ds (next_level level ds) c
    → Reaches ds level c
Reaches-next ds level c (at h) = let (p, e, q) = parent_before level ds c h in under e (at q)
Reaches-next ds level c (under {k = k} e r) = under e (Reaches-next ds level k r)

collect_sound :
    (n : ℕ) (ds : List Department) (level l : List ℕ) (c : ℕ)
    → collect_below n ds level ≡ some l
    → includes l c ≡ true
    → Reaches ds level c
unfolding collect_below
collect_sound n ds [] l c h k = absurd (ground (arith, h, k))
collect_sound zero ds (x ∷ level) l c h k = absurd (ground arith)
collect_sound (suc n) ds (x ∷ level) l c h k =
    elim (Option-cases (collect_below n ds (next_level (x ∷ level) ds))) [
      | inl e ↦ absurd (ground (arith, e, h))
      | inr (rest, e) ↦ elim (Bool-cases (includes (x ∷ level) c)) [
        | inl y ↦ at y
        | inr o ↦
            let whole : l ≡ (x ∷ level) ++ rest = ground (arith, e, h) in
            let later : includes rest c ≡ true =
              ground
                (arith, includes-append (x ∷ level) rest c, o, ap (λ m. includes m c) whole, k) in
            Reaches-next ds (x ∷ level) c
              (collect_sound n ds (next_level (x ∷ level) ds) rest c e later)
      ]
    ]

collect_complete :
    (n : ℕ) (ds : List Department) (level l : List ℕ) (c : ℕ)
    → collect_below n ds level ≡ some l
    → Reaches ds level c
    → includes l c ≡ true
unfolding collect_below
collect_complete n ds [] l c h r = absurd (empty-Reaches ds c r)
collect_complete zero ds (x ∷ level) l c h r = absurd (ground arith)
collect_complete (suc n) ds (x ∷ level) l c h r =
    elim (Option-cases (collect_below n ds (next_level (x ∷ level) ds))) [
      | inl e ↦ absurd (ground (arith, e, h))
      | inr (rest, e) ↦
          let whole : l ≡ (x ∷ level) ++ rest = ground (arith, e, h) in
          let split = ap (λ m. includes m c) whole ∙ includes-append (x ∷ level) rest c in
          elim (next-Reaches ds (x ∷ level) c r) [
            | inl y ↦ split ∙ ground (arith, y)
            | inr s ↦
                split ∙ ground (arith, collect_complete n ds (next_level (x ∷ level) ds) rest c e s)
          ]
    ]

-- A query that uses its fuel up has gone one level down for each of it.
collect_deep :
    (n : ℕ) (ds : List Department) (a k : ℕ) (level : List ℕ)
    → IsAt ds a k level
    → collect_below n ds level ≡ none
    → (t : ℕ) × (r : Below ds t a) × (depth r ≡ k + n)
unfolding collect_below
collect_deep n ds a k [] u h = absurd (ground arith)
collect_deep zero ds a k (x ∷ level) u h =
    let (r, d) = u x (ground (arith, ==_refl x)) in (x, r, omega (arith, d))
collect_deep (suc n) ds a k (x ∷ level) u h =
    let below = next_level (x ∷ level) ds in
    let none_left : collect_below n ds below ≡ none = ground (arith, h) in
    let (t, r, d) = collect_deep n ds a (suc k) below (next-IsAt ds a k (x ∷ level) u) none_left in
    (t, r, omega (arith, d))

root_only :
    (ds : List Department) (root c : ℕ)
    → includes (root_level ds root) c ≡ true
    → (c ≡ root) × (any (λ (d : Department). d.id == root) ds ≡ true)
root_only [] root c h = absurd (ground arith)
root_only (d ∷ ds) root c h = elim (Bool-cases (d.id == root)) [
  | inr n ↦ let (a, b) = root_only ds root c (ground (arith, n, h)) in (a, ground (arith, b, n))
  | inl y ↦ elim (Bool-cases (d.id == c)) [
    | inl z ↦ (sym (==→eq d.id c z) ∙ ==→eq d.id root y, ground (arith, y))
    | inr z ↦ let (a, b) = root_only ds root c (ground (arith, y, z, h)) in (a, ground (arith, y))
  ]
]

root_there :
    (ds : List Department) (root : ℕ)
    → any (λ (d : Department). d.id == root) ds ≡ true
    → includes (root_level ds root) root ≡ true
root_there [] root h = absurd (ground arith)
root_there (d ∷ ds) root h = ground (arith, h, root_there ds root)

below_root-IsAt :
    (ds : List Department) (root : ℕ) → IsAt ds root 1 (next_level (root_level ds root) ds)
below_root-IsAt ds root t q =
    let (p, e, i) = parent_before (root_level ds root) ds t q in
    let (same, _) = root_only ds root p i in
    (direct (subst (λ v. is_parent ds t v ≡ true) same e), refl)

-- The department, which is there, or one below it.
abbrev pub InSubtree : List Department → ℕ → ℕ → Type 0
InSubtree ds root c =
    (any (λ (d : Department). d.id == root) ds ≡ true) × ((c ≡ root) ⊎ Below ds c root)

reached :
    (ds : List Department) (root c : ℕ) → Reaches ds (root_level ds root) c → InSubtree ds root c
reached ds root c (at h) = let (same, there) = root_only ds root c h in (there, inl same)
reached ds root c (under {k = k} e r) =
    let (there, way) = reached ds root k r in (there, longer way)
  where
    longer : (k ≡ root) ⊎ Below ds k root → (c ≡ root) ⊎ Below ds c root
    longer (inl same) = inr (direct (subst (λ v. is_parent ds c v ≡ true) same e))
    longer (inr b) = inr (above e b)

reaches :
    (ds : List Department) (root c : ℕ) → InSubtree ds root c → Reaches ds (root_level ds root) c
reaches ds root c (there, inl same) =
    at (subst (λ v. includes (root_level ds root) v ≡ true) (sym same) (root_there ds root there))
reaches ds root c (there, inr (direct e)) = under e (at (root_there ds root there))
reaches ds root c (there, inr (above {k = k} e b)) = under e (reaches ds root k (there, inr b))

-- The query over the first level goes at least as deep as its fuel, where that does not suffice.
top_deep :
    (n : ℕ) (ds : List Department) (a : ℕ) (level : List ℕ)
    → IsAt ds a 1 (next_level level ds)
    → collect_below (suc n) ds level ≡ none
    → (t : ℕ) × (r : Below ds t a) × (depth r ≡ 1 + n)
unfolding collect_below
top_deep n ds a [] u h = absurd (ground arith)
top_deep n ds a (x ∷ level) u h =
    collect_deep n ds a 1 (next_level (x ∷ level) ds) u (ground (arith, h))

-- Over departments without a ring the recursive query comes to an end, and what it finds is the
-- department, if it is there, and everything below it, and nothing else.
pub department_subtree_correct :
    (ds : List Department) (root : ℕ)
    → IsTree ds
    → (ids : List ℕ) × (department_subtree ds root ≡ some ids)
      × ((c : ℕ) → includes ids c ≡ true → InSubtree ds root c)
      × ((c : ℕ) → InSubtree ds root c → includes ids c ≡ true)
unfolding department_subtree
department_subtree_correct ds root tree =
    let n = suc (length ds) in
    let top = root_level ds root in
    elim (Option-cases (collect_below (suc n) ds top)) [
      | inl h ↦
          let (t, r, d) = top_deep n ds root top (below_root-IsAt ds root) h in
          absurd (omega (arith, d, tree_depth ds tree r))
      | inr (l, e) ↦ (
        l,
        e,
        λ c h. reached ds root c (collect_sound (suc n) ds top l c e h),
        λ c h. collect_complete (suc n) ds top l c e (reaches ds root c h),
      )
    ]
