-- ===== src/Leave/Balances.antt =====
-- What the balance operations do to every key of the table.
use ai_hr_sytem.Base.{
  ℕ, ◌-◌, ◌≡◌, refl, subst, inl, inr, arith, true, none, some, List, [], ◌∷◌, ◌++◌, ◌==◌,
  if◌then◌else◌, find, Option-cases, ok,
}
use ai_hr_sytem.Base.Int.{ℤ, pos}
use ai_hr_sytem.Employees.{Employee, find_employee}
use ai_hr_sytem.Leave.Defs.{LeaveType, LeaveBalance, LeaveStore}
use ai_hr_sytem.Leave.Policy.{
  has_key, find_balance, save_balance, new_balance, carry_over, find_type, ensure_balance,
}

-- The row that is found after a row of some key was saved.
pub find_balance-save :
    (b : LeaveBalance) (e t y : ℕ) (bs : List LeaveBalance)
    → find_balance e t y (save_balance b bs) ≡ (elim (find_balance e t y bs) [
      | none ↦ none
      | some old ↦ some (if has_key e t y b then b else old)
    ])
find_balance-save b e t y [] = refl
find_balance-save b e t y (x ∷ bs) = ground (arith, find_balance-save b e t y bs)

-- The row that is found after a row was added.
find_balance-add :
    (b : LeaveBalance) (e t y : ℕ) (bs : List LeaveBalance)
    → find_balance e t y (bs ++ b ∷ []) ≡ (elim (find_balance e t y bs) [
      | none ↦ if has_key e t y b then some b else none
      | some old ↦ some old
    ])
find_balance-add b e t y [] = refl
find_balance-add b e t y (x ∷ bs) = ground (arith, find_balance-add b e t y bs)

pub find_balance-key :
    (e t y : ℕ) (bs : List LeaveBalance) (b : LeaveBalance)
    → find_balance e t y bs ≡ some b
    → has_key e t y b ≡ true
find_balance-key e t y [] b h = absurd (ground arith)
find_balance-key e t y (x ∷ bs) b h = ground (arith, find_balance-key e t y bs b)

-- The reserved and the used half days on record for a key.
abbrev pub pending_at : ℕ → ℕ → ℕ → LeaveStore → ℤ
pending_at e t y s = elim (find_balance e t y s.balances) [ none ↦ pos 0 | some b ↦ b.pending ]

abbrev pub used_at : ℕ → ℕ → ℕ → LeaveStore → ℤ
used_at e t y s = elim (find_balance e t y s.balances) [ none ↦ pos 0 | some b ↦ b.used ]

-- Two stores that agree on what is reserved and used.
pub record SameDays (s u : LeaveStore) : Type 0 where
  pub same_pending : (e t y : ℕ) → pending_at e t y u ≡ pending_at e t y s
  pub same_used : (e t y : ℕ) → used_at e t y u ≡ used_at e t y s

new_row :
    (e t y : ℕ) (s : LeaveStore) (type : LeaveType) (emp : Employee) (n : ℕ)
    → find_balance e t y s.balances ≡ none
    → let u = record s { balances = s.balances ++ new_balance e t y type emp n ∷ [] } in
      SameDays s u × (find_balance e t y u.balances ≡ some (new_balance e t y type emp n))
new_row e t y s type emp n h = (
  record {
    same_pending =
        λ i j k. ground (arith, find_balance-add (new_balance e t y type emp n) i j k s.balances);
    same_used =
        λ i j k. ground (arith, find_balance-add (new_balance e t y type emp n) i j k s.balances);
  },
  ground (arith, find_balance-add (new_balance e t y type emp n) e t y s.balances),
)

pub SameDays-refl : (s : LeaveStore) → SameDays s s
SameDays-refl s = record { same_pending = λ e t y. refl; same_used = λ e t y. refl }

-- The tables that balance operations do not touch.
pub record SameTables (s u : LeaveStore) : Type 0 where
  pub same_company : u.company ≡ s.company
  pub same_types : u.types ≡ s.types
  pub same_requests : u.requests ≡ s.requests
  pub same_next : u.next_request_id ≡ s.next_request_id

-- What provisioning a balance gives: the row of the key, no change of reserved or used days.
pub record Provisioned (e t y : ℕ) (s u : LeaveStore) (b : LeaveBalance) : Type 0 where
  pub found : find_balance e t y u.balances ≡ some b
  pub days : SameDays s u
  pub tables : SameTables s u

Provisioned-old :
    (e t y : ℕ) (s : LeaveStore) (b : LeaveBalance)
    → find_balance e t y s.balances ≡ some b
    → Provisioned e t y s s b
Provisioned-old e t y s b h = record {
  found = h;
  days = SameDays-refl s;
  tables = record {
    same_company = refl;
    same_types = refl;
    same_requests = refl;
    same_next = refl;
  };
}

Provisioned-new :
    (e t y : ℕ) (s : LeaveStore) (type : LeaveType) (emp : Employee) (n : ℕ)
    → find_balance e t y s.balances ≡ none
    → Provisioned e t y s
        (record s { balances = s.balances ++ new_balance e t y type emp n ∷ [] })
        (new_balance e t y type emp n)
Provisioned-new e t y s type emp n h =
    let (days, found) = new_row e t y s type emp n h in
    record {
      found = found;
      days = days;
      tables = record {
        same_company = refl;
        same_types = refl;
        same_requests = refl;
        same_next = refl;
      };
    }

-- The three outcomes on a key with no row yet.
ensure_balance_new :
    (e t y : ℕ) (s : LeaveStore) (b : LeaveBalance)
    → find_balance e t y s.balances ≡ none
    → (ensure_balance e t y s).0 ≡ ok b
    → (type : LeaveType) × (emp : Employee) × (n : ℕ) × (b ≡ new_balance e t y type emp n)
      × ((ensure_balance e t y s).1
          ≡ record s { balances = s.balances ++ new_balance e t y type emp n ∷ [] })
unfolding ensure_balance find_type
ensure_balance_new e t y s b none_yet h =
    elim (Option-cases (find (λ (x : LeaveType). x.id == t) s.types)) [
      | inl no_type ↦ absurd (ground arith)
      | inr (type, q) ↦ elim (Option-cases (find_employee e s.company.employees)) [
        | inl no_employee ↦ absurd (ground arith)
        | inr (emp, p) ↦ (
          type,
          emp,
          carry_over type (find_balance e t (y - 1) s.balances),
          ground arith,
          ground arith,
        )
      ]
    ]

ensure_balance_old :
    (e t y : ℕ) (s : LeaveStore) (b : LeaveBalance)
    → find_balance e t y s.balances ≡ some b
    → ensure_balance e t y s ≡ (ok b, s)
unfolding ensure_balance
ensure_balance_old e t y s b h = ground arith

pub ensure_balance_lem :
    (e t y : ℕ) (s : LeaveStore) {b : LeaveBalance}
    → (ensure_balance e t y s).0 ≡ ok b
    → Provisioned e t y s (ensure_balance e t y s).1 b
ensure_balance_lem e t y s {b} h = elim (Option-cases (find_balance e t y s.balances)) [
  | inl none_yet ↦
      let (type, emp, n, row, state) = ensure_balance_new e t y s b none_yet h in
      rw (row, state) (Provisioned-new e t y s type emp n none_yet)
  | inr (old, q) ↦
      let same = ensure_balance_old e t y s old q in
      subst (λ v. Provisioned e t y s (ensure_balance e t y s).1 v) (ground arith)
        (subst (λ u. Provisioned e t y s u old) (ground arith) (Provisioned-old e t y s old q))
]

-- Once a key is provisioned, a second provision of it returns the row of the first and changes
-- nothing.
pub ensure_balance_idempotent :
    (e t y : ℕ) (s : LeaveStore) {b : LeaveBalance}
    → (ensure_balance e t y s).0 ≡ ok b
    → ensure_balance e t y (ensure_balance e t y s).1 ≡ (ok b, (ensure_balance e t y s).1)
ensure_balance_idempotent e t y s {b} h =
    ensure_balance_old e t y (ensure_balance e t y s).1 b (ensure_balance_lem e t y s h).found
