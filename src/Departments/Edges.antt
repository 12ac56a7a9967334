-- ===== src/Departments/Edges.antt =====
-- The edges of the tree after a row is saved, added or removed.
use ai_hr_sytem.Base.{
  ℕ, ◌≡◌, refl, sym, ap, subst, ◌∙◌, ◌⊎◌, inl, inr, arith, Bool, true, ◌&&◌, Option, none, some,
  List, [], ◌∷◌, ◌++◌, ◌==◌, ==→eq, ==_refl, opt_eq, find, select, any, update_where, Bool-cases,
}
use ai_hr_sytem.Departments.{Department, same_parent}
use ai_hr_sytem.Departments.Below.{is_parent, Below, direct, above, IsTree, Below-trans}

-- `t` is `x` or below it.
abbrev pub AtOrBelow : List Department → ℕ → ℕ → Type 0
AtOrBelow ds t x = (t ≡ x) ⊎ Below ds t x

below_step :
    {ds : List Department} {t k x : ℕ}
    → is_parent ds t k ≡ true
    → AtOrBelow ds k x
    → AtOrBelow ds t x
below_step {ds} {t} e (inl q) = inr (direct (subst (λ v. is_parent ds t v ≡ true) q e))
below_step e (inr r) = inr (above e r)

-- The edges of `ds2` are those of `ds`, and some from `x` to departments that are not below it.
abbrev pub IsGraft : List Department → List Department → ℕ → Type 0
IsGraft ds ds2 x =
    (t k : ℕ)
    → is_parent ds2 t k ≡ true
    → (is_parent ds t k ≡ true) ⊎ ((t ≡ x) × (¬ AtOrBelow ds k x))

module _ (ds ds2 : List Department) (x : ℕ) (graft : IsGraft ds ds2 x) where
  Below-graft :
      {t u : ℕ}
      → Below ds2 t u
      → Below ds t u ⊎ ((k : ℕ) × (¬ AtOrBelow ds k x) × AtOrBelow ds t x × AtOrBelow ds k u)
  Below-graft {t} {u} (direct e) = elim (graft t u e) [
    | inl old ↦ inl (direct old)
    | inr (q, free) ↦ inr (u, free, inl q, inl refl)
  ]
  Below-graft {t} {u} (above {k = j} e r) = elim (graft t j e) [
    | inl old ↦ elim (Below-graft r) [
      | inl s ↦ inl (above old s)
      | inr (k, free, under, over) ↦ inr (k, free, below_step old under, over)
    ]
    | inr (q, free) ↦ elim (Below-graft r) [
      | inl s ↦ inr (j, free, inl q, inr s)
      | inr (k, also, under, over) ↦ inr (k, also, inl q, over)
    ]
  ]

  joined : (k t : ℕ) → AtOrBelow ds k t → AtOrBelow ds t x → AtOrBelow ds k x
  joined k t (inl q) (inl r) = inl (q ∙ r)
  joined k t (inl q) (inr r) = inr (subst (λ v. Below ds v x) (sym q) r)
  joined k t (inr q) (inl r) = inr (subst (λ v. Below ds k v) r q)
  joined k t (inr q) (inr r) = inr (Below-trans q r)

  pub graft-IsTree : IsTree ds → IsTree ds2
  graft-IsTree tree t r = elim (Below-graft r) [
    | inl old ↦ tree t old
    | inr (k, free, under, over) ↦ free (joined k t over under)
  ]

pub opt_eq-some : (o : Option ℕ) (k : ℕ) → opt_eq o k ≡ true → o ≡ some k
opt_eq-some none k h = absurd (ground arith)
opt_eq-some (some j) k h = ap some (==→eq j k h)

pub same_parent_eq : (p q : Option ℕ) → same_parent p q ≡ true → p ≡ q
same_parent_eq none none h = refl
same_parent_eq none (some q) h = absurd (ground arith)
same_parent_eq (some p) none h = absurd (ground arith)
same_parent_eq (some p) (some q) h = ap some (==→eq p q h)

-- The edges after a row is saved.
pub saved_edges :
    (d : Department) (ds : List Department) (t k : ℕ)
    → is_parent (update_where (λ (x : Department). x.id == d.id) (λ _. d) ds) t k ≡ true
    → (is_parent ds t k ≡ true) ⊎ ((t ≡ d.id) × (d.parent_id ≡ some k))
saved_edges d [] t k h = absurd (ground arith)
saved_edges d (x ∷ ds) t k h =
    elim (Bool-cases
      (is_parent (update_where (λ (x : Department). x.id == d.id) (λ _. d) ds) t k)) [
        | inl r ↦ elim (saved_edges d ds t k r) [
          | inl old ↦ inl (ground (arith, old))
          | inr new ↦ inr new
        ]
        | inr r ↦ elim (Bool-cases (x.id == d.id)) [
          | inl q ↦
              let y : ((d.id == t) && opt_eq d.parent_id k) ≡ true = ground (arith, h, q, r) in
              inr (ground (arith, y), opt_eq-some d.parent_id k (ground (arith, y)))
          | inr q ↦ inl (ground (arith, h, q, r))
        ]
      ]

pub found_edge :
    (ds : List Department) (id k : ℕ) (d : Department)
    → find (λ (x : Department). x.id == id) ds ≡ some d
    → (d.id ≡ id) × (d.parent_id ≡ some k → is_parent ds id k ≡ true)
found_edge [] id k d h = absurd (ground arith)
found_edge (x ∷ ds) id k d h = elim (Bool-cases (x.id == id)) [
  | inl q ↦ (ground (arith, q, h), λ e. ground (arith, q, h, e, ==_refl k))
  | inr q ↦
      let (i, old) = found_edge ds id k d (ground (arith, q, h)) in (i, λ e. ground (arith, old e))
]

-- The edges of some of the rows.
pub selected_edges :
    (p : Department → Bool) (ds : List Department) (t k : ℕ)
    → is_parent (select p ds) t k ≡ true
    → is_parent ds t k ≡ true
selected_edges p [] t k h = h
selected_edges p (d ∷ ds) t k h = ground (arith, selected_edges p ds t k)

pub selected-Below :
    (p : Department → Bool) (ds : List Department) {t a : ℕ}
    → Below (select p ds) t a
    → Below ds t a
selected-Below p ds {t} {a} (direct e) = direct (selected_edges p ds t a e)
selected-Below p ds {t} (above {k = k} e r) =
    above (selected_edges p ds t k e) (selected-Below p ds r)

-- An id of a row.
abbrev pub is_on_file : List Department → ℕ → Bool
is_on_file ds x = any (λ (d : Department). d.id == x) ds

pub found_on_file :
    (ds : List Department) (x : ℕ) (d : Department)
    → find (λ (y : Department). y.id == x) ds ≡ some d
    → is_on_file ds x ≡ true
found_on_file [] x d h = absurd (ground arith)
found_on_file (y ∷ ds) x d h = ground (arith, h, found_on_file ds x d)

pub saved_rows :
    (d : Department) (ds : List Department) (x : ℕ)
    → is_on_file (update_where (λ (y : Department). y.id == d.id) (λ _. d) ds) x ≡ true
    → is_on_file ds x ≡ true
saved_rows d [] x h = h
saved_rows d (y ∷ ds) x h = ground (arith, h, saved_rows d ds x)

pub selected_rows :
    (p : Department → Bool) (ds : List Department) (x : ℕ)
    → is_on_file (select p ds) x ≡ true
    → is_on_file ds x ≡ true
selected_rows p [] x h = h
selected_rows p (d ∷ ds) x h = ground (arith, h, selected_rows p ds x)

pub added_rows :
    (ds : List Department) (d : Department) (x : ℕ)
    → is_on_file (ds ++ d ∷ []) x ≡ true
    → (is_on_file ds x ≡ true) ⊎ (x ≡ d.id)
added_rows [] d x h = inr (ground (arith, h, ==→eq d.id x))
added_rows (y ∷ ds) d x h = ground (arith, h, added_rows ds d x)

pub added_edges :
    (ds : List Department) (d : Department) (t k : ℕ)
    → is_parent (ds ++ d ∷ []) t k ≡ true
    → (is_parent ds t k ≡ true) ⊎ ((t ≡ d.id) × (d.parent_id ≡ some k))
added_edges [] d t k h =
    inr (ground (arith, h, ==→eq d.id t), opt_eq-some d.parent_id k (ground (arith, h)))
added_edges (y ∷ ds) d t k h = elim (Bool-cases (is_parent (ds ++ d ∷ []) t k)) [
  | inl r ↦ elim (added_edges ds d t k r) [
    | inl old ↦ inl (ground (arith, old))
    | inr new ↦ inr new
  ]
  | inr r ↦ inl (ground (arith, h, r))
]

-- What is below `a` leads to a row that names `a`.
pub last_edge :
    {ds : List Department} {t a : ℕ} → Below ds t a → (k : ℕ) × (is_parent ds k a ≡ true)
last_edge {t = t} (direct e) = (t, e)
last_edge (above e r) = last_edge r
