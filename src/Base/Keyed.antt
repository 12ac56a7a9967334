-- ===== src/Base/Keyed.antt =====
-- A table: rows with a primary key, found by it, saved over the old row, added and deleted.
use Prim.Native.Nat.{ℕ, ◌+◌, ◌≤◌, ◌<◌}
use mathlib.Core.Path.{◌≡◌, refl, ◌∙◌, subst}
use mathlib.Core.Logic.{inl, inr}
use mathlib.Core.Bool.{false, not}
use mathlib.Core.Option.{Option, some}
use mathlib.Core.List.{List, [], ◌∷◌, ◌++◌}
use native.Mathlib.Omega.{arith}
use ai_hr_sytem.Base.Tests.{◌==◌, ==→eq, Bool-cases}
use ai_hr_sytem.Base.Lists.{find, select, any, update_where, sum_of}

module _ {A : Type 0} (key : A → ℕ) where
  abbrev pub row_at : ℕ → List A → Option A
  row_at id = find (λ x. key x == id)

  abbrev pub saved : A → List A → List A
  saved y = update_where (λ x. key x == key y) (λ _. y)

  abbrev pub dropped : ℕ → List A → List A
  dropped id = select (λ x. not (key x == id))

  -- Every key is below the next one, and none stands twice.
  abbrev pub IsKeyed : ℕ → List A → Type 0
  IsKeyed next [] = Unit
  IsKeyed next (x ∷ xs) = (key x < next) × (any (λ y. key y == key x) xs ≡ false) × IsKeyed next xs

  pub row_at-key : (id : ℕ) (xs : List A) (x : A) → row_at id xs ≡ some x → key x ≡ id
  row_at-key id [] x h = ground arith
  row_at-key id (y ∷ ys) x h = ground (arith, ==→eq (key y) id, row_at-key id ys x)

  pub row_at-saved :
      (id : ℕ) (xs : List A) (x y : A)
      → row_at id xs ≡ some x
      → key y ≡ id
      → row_at id (saved y xs) ≡ some y
  row_at-saved id [] x y h k = ground arith
  row_at-saved id (z ∷ zs) x y h k = ground (arith, row_at-saved id zs x y)

  pub row_at-saved_other :
      (id : ℕ) (xs : List A) (y : A) → (key y == id) ≡ false → row_at id (saved y xs) ≡ row_at id xs
  row_at-saved_other id [] y k = refl
  row_at-saved_other id (z ∷ zs) y k =
      ground (arith, row_at-saved_other id zs y k, ==→eq (key z) (key y))

  pub row_at-append :
      (id : ℕ) (xs ys : List A) (x : A) → row_at id xs ≡ some x → row_at id (xs ++ ys) ≡ some x
  row_at-append id [] ys x h = ground arith
  row_at-append id (z ∷ zs) ys x h = ground (arith, row_at-append id zs ys x)

  pub row_at-dropped :
      (id j : ℕ) (xs : List A) → (j == id) ≡ false → row_at id (dropped j xs) ≡ row_at id xs
  row_at-dropped id j [] k = refl
  row_at-dropped id j (z ∷ zs) k = ground (arith, row_at-dropped id j zs k, ==→eq (key z) j)

  pub IsKeyed-le : (m n : ℕ) (xs : List A) → m ≤ n → IsKeyed m xs → IsKeyed n xs
  IsKeyed-le m n [] h k = tt
  IsKeyed-le m n (x ∷ xs) h k = (omega (arith, k.0), k.1, IsKeyed-le m n xs h k.2)

  any-saved :
      (y : A) (k : ℕ) (xs : List A) → any (λ x. key x == k) (saved y xs) ≡ any (λ x. key x == k) xs
  any-saved y k [] = refl
  any-saved y k (x ∷ xs) = ground (arith, any-saved y k xs, ==→eq (key x) (key y))

  pub saved-IsKeyed : (next : ℕ) (y : A) (xs : List A) → IsKeyed next xs → IsKeyed next (saved y xs)
  saved-IsKeyed next y [] h = tt
  saved-IsKeyed next y (x ∷ xs) h = elim (Bool-cases (key x == key y)) [
    | inl e ↦ rw e (
      ground (arith, h.0, ==→eq (key x) (key y)),
      any-saved y (key y) xs ∙ subst (λ k. any (λ z. key z == k) xs ≡ false) (==→eq _ _ e) h.1,
      saved-IsKeyed next y xs h.2,
    )
    | inr e ↦ rw e (h.0, any-saved y (key x) xs ∙ h.1, saved-IsKeyed next y xs h.2)
  ]

  any-append_one :
      (k : ℕ) (xs : List A) (y : A)
      → any (λ x. key x == k) xs ≡ false
      → (key y == k) ≡ false
      → any (λ x. key x == k) (xs ++ y ∷ []) ≡ false
  any-append_one k [] y h e = ground arith
  any-append_one k (x ∷ xs) y h e = ground (arith, any-append_one k xs y)

  -- A new row takes the next key.
  pub append-IsKeyed :
      (next : ℕ) (xs : List A) (y : A)
      → IsKeyed next xs
      → key y ≡ next
      → IsKeyed (next + 1) (xs ++ y ∷ [])
  append-IsKeyed next [] y h e = (omega arith, refl, tt)
  append-IsKeyed next (x ∷ xs) y h e = (
    omega (arith, h.0),
    any-append_one (key x) xs y h.1 (ground (arith, h.0)),
    append-IsKeyed next xs y h.2 e,
  )

  any-dropped :
      (id k : ℕ) (xs : List A)
      → any (λ x. key x == k) xs ≡ false
      → any (λ x. key x == k) (dropped id xs) ≡ false
  any-dropped id k [] h = refl
  any-dropped id k (x ∷ xs) h = ground (arith, any-dropped id k xs)

  pub dropped-IsKeyed : (next id : ℕ) (xs : List A) → IsKeyed next xs → IsKeyed next (dropped id xs)
  dropped-IsKeyed next id [] h = tt
  dropped-IsKeyed next id (x ∷ xs) h = elim (Bool-cases (key x == id)) [
    | inl e ↦ rw e (dropped-IsKeyed next id xs h.2)
    | inr e ↦ rw e (h.0, any-dropped id (key x) xs h.1, dropped-IsKeyed next id xs h.2)
  ]

  module _ (f : A → ℕ) where
    sum_of-absent :
        (y : A) (xs : List A)
        → any (λ x. key x == key y) xs ≡ false
        → sum_of f (saved y xs) ≡ sum_of f xs
    sum_of-absent y [] h = refl
    sum_of-absent y (x ∷ xs) h = ground (arith, sum_of-absent y xs)

    -- A saved row counts in place of the old one.
    pub sum_of-saved :
        (next : ℕ) (xs : List A) (x y : A)
        → IsKeyed next xs
        → row_at (key y) xs ≡ some x
        → sum_of f (saved y xs) + f x ≡ sum_of f xs + f y
    sum_of-saved next [] x y h e = ground arith
    sum_of-saved next (z ∷ zs) x y h e = elim (Bool-cases (key z == key y)) [
      | inl k ↦
          let absent : any (λ w. key w == key y) zs ≡ false =
            subst (λ j. any (λ w. key w == j) zs ≡ false) (==→eq _ _ k) h.1 in
          ground (arith, k, e, sum_of-absent y zs absent)
      | inr k ↦ ground (arith, k, e, sum_of-saved next zs x y h.2)
    ]

    pub sum_of-dropped : (id : ℕ) (xs : List A) → sum_of f (dropped id xs) ≤ sum_of f xs
    sum_of-dropped id [] = omega arith
    sum_of-dropped id (x ∷ xs) = ground (arith, sum_of-dropped id xs)

    -- The rows but one, and that one.
    pub sum_of-split :
        (next id : ℕ) (xs : List A) (x : A)
        → IsKeyed next xs
        → row_at id xs ≡ some x
        → sum_of f (dropped id xs) + f x ≡ sum_of f xs
    sum_of-split next id [] x h e = ground arith
    sum_of-split next id (z ∷ zs) x h e = elim (Bool-cases (key z == id)) [
      | inl k ↦
          let absent : any (λ w. key w == id) zs ≡ false =
            subst (λ j. any (λ w. key w == j) zs ≡ false) (==→eq _ _ k) h.1 in
          ground (arith, k, e, kept id zs absent)
      | inr k ↦ ground (arith, k, e, sum_of-split next id zs x h.2)
    ]
      where
        kept :
            (id : ℕ) (xs : List A)
            → any (λ w. key w == id) xs ≡ false
            → sum_of f (dropped id xs) ≡ sum_of f xs
        kept id [] h = refl
        kept id (y ∷ ys) h = ground (arith, kept id ys)
