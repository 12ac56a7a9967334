-- ===== src/Departments/Below.antt =====
-- The tree of departments as a relation, and how deep a tree without a cycle can be.
use ai_hr_sytem.Base.{
  ℕ, suc, ◌+◌, ◌≤◌, ◌≡◌, refl, ap, subst, ◌⊎◌, inl, inr, arith, Bool, true, false, not, ◌&&◌, List,
  [], ◌∷◌, map, ◌==◌, ==→eq, opt_eq, select, any, includes, All, length, Bool-cases,
}
use ai_hr_sytem.Departments.{Department}

-- The row of `t` names `p` as its parent.
abbrev pub is_parent : List Department → ℕ → ℕ → Bool
is_parent ds t p = any (λ (d : Department). (d.id == t) && opt_eq d.parent_id p) ds

-- `t` is somewhere below `a` in the tree.
pub data Below (ds : List Department) : ℕ → ℕ → Type 0 where
  direct : {t a : ℕ} → is_parent ds t a ≡ true → Below ds t a
  above : {t k a : ℕ} → is_parent ds t k ≡ true → Below ds k a → Below ds t a

abbrev pub depth : {ds : List Department} {t a : ℕ} → Below ds t a → ℕ
depth (direct e) = 1
depth (above e r) = suc (depth r)

pub Below-trans : {ds : List Department} {a b c : ℕ} → Below ds a b → Below ds b c → Below ds a c
Below-trans (direct e) s = above e s
Below-trans (above e r) s = above e (Below-trans r s)

-- No department is below itself.
abbrev pub IsTree : List Department → Type 0
IsTree ds = (t : ℕ) → ¬ Below ds t t

-- The departments on the way up, the last one left out.
abbrev path : {ds : List Department} {t a : ℕ} → Below ds t a → List ℕ
path {t = t} (direct e) = t ∷ []
path {t = t} (above e r) = t ∷ path r

abbrev AllDistinct : List ℕ → Type 0
AllDistinct [] = Unit
AllDistinct (x ∷ xs) = (includes xs x ≡ false) × AllDistinct xs

without : ℕ → List ℕ → List ℕ
without x = select (λ y. not (y == x))

length-without : (x : ℕ) (ys : List ℕ) → length (select (λ y. not (y == x)) ys) ≤ length ys
length-without x [] = omega arith
length-without x (y ∷ ys) = ground (arith, length-without x ys)

shorter_without :
    (x : ℕ) (ys : List ℕ)
    → includes ys x ≡ true
    → length (select (λ y. not (y == x)) ys) + 1 ≤ length ys
shorter_without x [] h = absurd (ground arith)
shorter_without x (y ∷ ys) h = ground (arith, length-without x ys, shorter_without x ys)

still_in :
    (x z : ℕ) (ys : List ℕ)
    → includes ys z ≡ true
    → (z == x) ≡ false
    → includes (select (λ y. not (y == x)) ys) z ≡ true
still_in x z [] h k = h
still_in x z (y ∷ ys) h k = ground (arith, still_in x z ys)

All-still_in :
    (x : ℕ) (xs ys : List ℕ)
    → All (λ z. includes ys z ≡ true) xs
    → includes xs x ≡ false
    → All (λ z. includes (select (λ y. not (y == x)) ys) z ≡ true) xs
All-still_in x [] ys h k = tt
All-still_in x (z ∷ xs) ys (h, hs) k =
    (still_in x z ys h (ground arith), All-still_in x xs ys hs (ground arith))

-- Different values that all stand in a list are no more than the list is long.
pigeonhole :
    (xs ys : List ℕ) → AllDistinct xs → All (λ z. includes ys z ≡ true) xs → length xs ≤ length ys
pigeonhole [] ys d h = omega arith
pigeonhole (x ∷ xs) ys (n, d) (h, hs) = omega (
  arith,
  shorter_without x ys h,
  pigeonhole xs (select (λ y. not (y == x)) ys) d (All-still_in x xs ys hs n),
)

abbrev ids : List Department → List ℕ
ids = map Department.id

is_row : (ds : List Department) (t p : ℕ) → is_parent ds t p ≡ true → includes (ids ds) t ≡ true
is_row [] t p h = h
is_row (d ∷ ds) t p h = ground (arith, is_row ds t p)

path_rows :
    {ds : List Department} {t a : ℕ} (r : Below ds t a)
    → All (λ z. includes (ids ds) z ≡ true) (path r)
path_rows {ds} {t} {a} (direct e) = (is_row ds t a e, tt)
path_rows {ds} {t} (above {k = k} e r) = (is_row ds t k e, path_rows r)

-- What stands on the way up from `t` is `t`, or `t` is below it.
on_path :
    {ds : List Department} {t a : ℕ} (r : Below ds t a) (x : ℕ)
    → includes (path r) x ≡ true
    → (t ≡ x) ⊎ Below ds t x
on_path {t = t} (direct e) x h = inl (ground (arith, ==→eq t x))
on_path {ds} {t} (above {k = k} e r) x h = elim (Bool-cases (t == x)) [
  | inl q ↦ inl (==→eq t x q)
  | inr q ↦ elim (on_path r x (ground arith)) [
    | inl y ↦ inr (direct (subst (λ v. is_parent ds t v ≡ true) y e))
    | inr s ↦ inr (above e s)
  ]
]

path_distinct :
    {ds : List Department} {t a : ℕ} → IsTree ds → (r : Below ds t a) → AllDistinct (path r)
path_distinct tree (direct e) = (refl, tt)
path_distinct {ds} {t} tree (above {k = k} e r) = (
  elim (Bool-cases (includes (path r) t)) [
    | inr n ↦ n
    | inl y ↦ elim (on_path r t y) [
      | inl q ↦ absurd (tree t (direct (subst (λ v. is_parent ds t v ≡ true) q e)))
      | inr s ↦ absurd (tree t (above e s))
    ]
  ],
  path_distinct tree r,
)

length-path : {ds : List Department} {t a : ℕ} (r : Below ds t a) → length (path r) ≡ depth r
length-path (direct e) = refl
length-path (above e r) = ap suc (length-path r)

length-ids : (ds : List Department) → length (ids ds) ≡ length ds
length-ids [] = refl
length-ids (d ∷ ds) = ap suc (length-ids ds)

-- A tree is no deeper than it has departments.
pub tree_depth :
    (ds : List Department) {t a : ℕ} → IsTree ds → (r : Below ds t a) → depth r ≤ length ds
tree_depth ds tree r =
    let p = pigeonhole (path r) (ids ds) (path_distinct tree r) (path_rows r) in
    omega (arith, p, length-path r, length-ids ds)
