-- ===== src/Payroll/Rows.antt =====
-- The rows of the payroll tables: a run that is found by its id, and rows that are kept or dropped.
use ai_hr_sytem.Base.{
  ℕ, ◌≡◌, refl, ap, arith, Bool, true, false, not, Option, none, some, List, [], ◌∷◌, ◌++◌, ◌==◌,
  ==→eq, find, select, All, inl, inr, update_where, ok, err, not_found, or_throw, Bool-cases,
  Option-cases, subst, Action, HttpError, throw_if, ◌>>=◌, ◌>>◌,
}
use ai_hr_sytem.Payroll.Runs.{Payslip, of_run, PayrollRun, PayrollStore, find_run}

abbrev pub run_at : ℕ → List PayrollRun → Option PayrollRun
run_at id = find (λ (r : PayrollRun). r.id == id)

pub found_id : (id : ℕ) (l : List PayrollRun) (r : PayrollRun) → run_at id l ≡ some r → r.id ≡ id
found_id id [] r h = ground arith
found_id id (q ∷ l) r h = ground (arith, ==→eq q.id id, found_id id l r)

-- A run that is saved is found in place of the old one, and the others are found as before.
pub run_at_saved :
    (id : ℕ) (l : List PayrollRun) (r q : PayrollRun)
    → run_at id l ≡ some r
    → q.id ≡ id
    → run_at id (update_where (λ (x : PayrollRun). x.id == q.id) (λ _. q) l) ≡ some q
run_at_saved id [] r q h k = ground arith
run_at_saved id (x ∷ l) r q h k = ground (arith, run_at_saved id l r q)

pub run_at_other :
    (id : ℕ) (l : List PayrollRun) (q : PayrollRun)
    → (q.id == id) ≡ false
    → run_at id (update_where (λ (x : PayrollRun). x.id == q.id) (λ _. q) l) ≡ run_at id l
run_at_other id [] q k = refl
run_at_other id (x ∷ l) q k = ground (arith, run_at_other id l q k)

module _ (id : ℕ) (s : PayrollStore) where
  -- What `find_run` answers.
  pub find_run_at : (r : PayrollRun) → run_at id s.runs ≡ some r → find_run id s ≡ (ok r, s)
  unfolding find_run
  find_run_at r c = rw c refl

  pub find_run-none :
      run_at id s.runs ≡ none → find_run id s ≡ (err (not_found "Payroll run not found"), s)
  unfolding find_run
  find_run-none c = ap (λ o. or_throw {S = PayrollStore} o (not_found "Payroll run not found") s) c

pub append-nil : {A : Type 0} (xs : List A) → xs ++ [] ≡ xs
append-nil [] = refl
append-nil (x ∷ xs) = ap (λ ys. x ∷ ys) (append-nil xs)

module _ {A : Type 0} (p : A → Bool) where
  pub select-append : (xs ys : List A) → select p (xs ++ ys) ≡ select p xs ++ select p ys
  select-append [] ys = refl
  select-append (x ∷ xs) ys = ground (arith, select-append xs ys)

  pub select-All : (xs : List A) → All (λ x. p x ≡ true) xs → select p xs ≡ xs
  select-All [] h = refl
  select-All (x ∷ xs) (h, k) = rw h (ap (λ ys. x ∷ ys) (select-All xs k))

  pub reject_All : (xs : List A) → All (λ x. p x ≡ true) xs → select (λ x. not (p x)) xs ≡ []
  reject_All [] h = refl
  reject_All (x ∷ xs) (h, k) = rw h (reject_All xs k)

  pub select_rejected : (xs : List A) → select p (select (λ x. not (p x)) xs) ≡ []
  select_rejected [] = refl
  select_rejected (x ∷ xs) = elim (Bool-cases (p x)) [
    | inl c ↦ rw c (select_rejected xs)
    | inr c ↦ rw (c, c) (select_rejected xs)
  ]

  pub reject_twice :
      (xs : List A)
      → select (λ x. not (p x)) (select (λ x. not (p x)) xs) ≡ select (λ x. not (p x)) xs
  reject_twice [] = refl
  reject_twice (x ∷ xs) = elim (Bool-cases (p x)) [
    | inl c ↦ rw c (reject_twice xs)
    | inr c ↦ rw (c, c) (ap (λ ys. x ∷ ys) (reject_twice xs))
  ]

-- What holds of the store before a guarded step, and after it where the guard lets it pass.
pub guarded :
    {A : Type 0} (id : ℕ) (g : PayrollRun → Bool) (x : HttpError)
    (k : PayrollRun → Action PayrollStore A) (s : PayrollStore) (P : PayrollStore → Type 0)
    → P s
    → ((r : PayrollRun) → run_at id s.runs ≡ some r → g r ≡ false → P (k r s).1)
    → P ((find_run id >>= λ run. throw_if (g run) x >> k run) s).1
guarded id g x k s P a b = elim (Option-cases (run_at id s.runs)) [
  | inl c ↦ subst P (ground (arith, find_run-none id s c)) a
  | inr (r, c) ↦ elim (Bool-cases (g r)) [
    | inl o ↦ subst P (ground (arith, find_run_at id s r c, o)) a
    | inr o ↦ subst P (ground (arith, find_run_at id s r c, o)) (b r c o)
  ]
]

pub find_run_store : (id : ℕ) (s : PayrollStore) → (find_run id s).1 ≡ s
find_run_store id s = elim (Option-cases (run_at id s.runs)) [
  | inl c ↦ ap (λ x. x.1) (find_run-none id s c)
  | inr (r, c) ↦ ap (λ x. x.1) (find_run_at id s r c)
]

pub run_at_more :
    (id : ℕ) (l m : List PayrollRun) (r : PayrollRun)
    → run_at id l ≡ some r
    → run_at id (l ++ m) ≡ some r
run_at_more id [] m r h = ground arith
run_at_more id (q ∷ l) m r h = ground (arith, run_at_more id l m r)

pub run_at_dropped :
    (id j : ℕ) (l : List PayrollRun) (r : PayrollRun)
    → (j == id) ≡ false
    → run_at id l ≡ some r
    → run_at id (select (λ (x : PayrollRun). not (x.id == j)) l) ≡ some r
run_at_dropped id j [] r k h = ground arith
run_at_dropped id j (q ∷ l) r k h = ground (arith, run_at_dropped id j l r)

module _ (id j : ℕ) (k : (j == id) ≡ false) where
  pub slips_dropped :
      (l : List Payslip)
      → select (of_run id) (select (λ (p : Payslip). not (of_run j p)) l) ≡ select (of_run id) l
  slips_dropped [] = refl
  slips_dropped (p ∷ l) = ground (arith, slips_dropped l)

  pub slips_of_other :
      (l : List Payslip) → All (λ (p : Payslip). of_run j p ≡ true) l → select (of_run id) l ≡ []
  slips_of_other [] h = refl
  slips_of_other (p ∷ l) h = ground (arith, h.0, slips_of_other l h.1)

  pub slips_rendered :
      (document : Payslip → ℕ) (l : List Payslip)
      → select (of_run id) (
          update_where (of_run j) (λ (p : Payslip). record p { document_id = some (document p) }) l)
        ≡ select (of_run id) l
  slips_rendered document [] = refl
  slips_rendered document (p ∷ l) = ground (arith, slips_rendered document l)
