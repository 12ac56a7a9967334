-- ===== src/Leave/Ledger.antt =====
-- The ledger of a leave type that keeps balances: what is reserved and used on record is what the
-- open and the approved requests add up to.
use ai_hr_sytem.Base.{
  ℕ, ◌≡◌, refl, sym, ap, ◌∙◌, inl, inr, arith, Bool, false, ◌&&◌, some, List, [], ◌∷◌, ◌++◌, ◌==◌,
  if◌then◌else◌, find, any, update_where, Bool-cases,
}
use ai_hr_sytem.Base.Int.{ℤ, pos, ◌+ℤ◌, int_laws, +ℤ_assoc}
use ai_hr_sytem.Leave.Defs.{LeaveRequestStatus, LeaveRequest, LeaveStore}
use ai_hr_sytem.Leave.Requests.{is_pending, is_approved, charged}
use ai_hr_sytem.Leave.Balances.{pending_at, used_at}
use ai_hr_sytem.Leave.Charging.{charge_sum}

-- The half days of year `y` that a request holds, if it is in a status that counts.
unfoldable pub days_in : (LeaveRequestStatus → Bool) → ℕ → ℕ → ℕ → LeaveRequest → ℤ
days_in counts e t y r =
    if (e == r.employee_id) && (t == r.leave_type_id) && counts r.status
    then charge_sum pos y (charged r.allocations r.year r.days)
    else pos 0

unfoldable pub sum_days : (LeaveRequestStatus → Bool) → ℕ → ℕ → ℕ → List LeaveRequest → ℤ
sum_days counts e t y [] = pos 0
sum_days counts e t y (r ∷ rs) = days_in counts e t y r +ℤ sum_days counts e t y rs

-- The balances of leave type `t` agree with its requests, for every employee and year.
pub record IsBalanced (t : ℕ) (s : LeaveStore) : Type 0 where
  pub reserved : (e y : ℕ) → pending_at e t y s ≡ sum_days is_pending e t y s.requests
  pub consumed : (e y : ℕ) → used_at e t y s ≡ sum_days is_approved e t y s.requests

abbrev pub HasUniqueRequests : List LeaveRequest → Type 0
HasUniqueRequests [] = Unit
HasUniqueRequests (r ∷ rs) = (any (λ q. q.id == r.id) rs ≡ false) × HasUniqueRequests rs

pub sum_days-add :
    (counts : LeaveRequestStatus → Bool) (e t y : ℕ) (r : LeaveRequest) (rs : List LeaveRequest)
    → sum_days counts e t y (rs ++ r ∷ []) ≡ sum_days counts e t y rs +ℤ days_in counts e t y r
unfolding sum_days
sum_days-add counts e t y r [] = omega int_laws
sum_days-add counts e t y r (q ∷ rs) = rw (sum_days-add counts e t y r rs) (omega int_laws)

update-absent :
    (id : ℕ) (f : LeaveRequest → LeaveRequest) (rs : List LeaveRequest)
    → any (λ (q : LeaveRequest). q.id == id) rs ≡ false
    → update_where (λ (q : LeaveRequest). q.id == id) f rs ≡ rs
update-absent id f [] h = refl
update-absent id f (q ∷ rs) h = ground (arith, update-absent id f rs)

-- A change of one request moves a sum by the change of that request.
pub sum_days-update :
    (counts : LeaveRequestStatus → Bool) (e t y id : ℕ) (f : LeaveRequest → LeaveRequest)
    (rs : List LeaveRequest) (r : LeaveRequest)
    → HasUniqueRequests rs
    → find (λ (q : LeaveRequest). q.id == id) rs ≡ some r
    → sum_days counts e t y (update_where (λ (q : LeaveRequest). q.id == id) f rs)
        +ℤ days_in counts e t y r
      ≡ sum_days counts e t y rs +ℤ days_in counts e t y (f r)
unfolding sum_days
sum_days-update counts e t y id f [] r u h = absurd (ground arith)
sum_days-update counts e t y id f (q ∷ rs) r u h = elim (Bool-cases (q.id == id)) [
  | inl k ↦
      let same : q ≡ r = ground arith in
      let tail = update-absent id f rs (ground arith) in rw (k, tail, same) (omega int_laws)
  | inr k ↦ rw k (
      +ℤ_assoc (days_in counts e t y q) _ _
      ∙ ap (λ v. days_in counts e t y q +ℤ v)
          (sum_days-update counts e t y id f rs r u.1 (ground arith))
      ∙ sym (+ℤ_assoc (days_in counts e t y q) _ _))
]

-- A change that leaves every request's days alone leaves the sums alone.
pub sum_days-same :
    (counts : LeaveRequestStatus → Bool) (e t y : ℕ) (p : LeaveRequest → Bool)
    (f : LeaveRequest → LeaveRequest) (rs : List LeaveRequest)
    → ((r : LeaveRequest) → days_in counts e t y (f r) ≡ days_in counts e t y r)
    → sum_days counts e t y (update_where p f rs) ≡ sum_days counts e t y rs
unfolding sum_days
sum_days-same counts e t y p f [] h = refl
sum_days-same counts e t y p f (r ∷ rs) h = ground (arith, h r, sum_days-same counts e t y p f rs h)

-- Two stores whose requests hold the same days, over the same balances.
pub record SameLedger (s u : LeaveStore) : Type 0 where
  pub same_balances : u.balances ≡ s.balances
  pub same_types : u.types ≡ s.types
  pub same_sums :
      (counts : LeaveRequestStatus → Bool) (e t y : ℕ)
      → sum_days counts e t y u.requests ≡ sum_days counts e t y s.requests

pub SameLedger-refl : (s : LeaveStore) → SameLedger s s
SameLedger-refl s = record { same_balances = refl; same_types = refl; same_sums = λ c e t y. refl }

pub SameLedger-trans : {s u v : LeaveStore} → SameLedger s u → SameLedger u v → SameLedger s v
SameLedger-trans a b = record {
  same_balances = b.same_balances ∙ a.same_balances;
  same_types = b.same_types ∙ a.same_types;
  same_sums = λ c e t y. b.same_sums c e t y ∙ a.same_sums c e t y;
}

-- Such a store is as balanced as the other.
pub SameLedger-IsBalanced :
    (t : ℕ) {s u : LeaveStore} → SameLedger s u → IsBalanced t s → IsBalanced t u
SameLedger-IsBalanced t {s} {u} same b = record {
  reserved = λ e y. rw (same.same_balances, same.same_sums is_pending e t y) (b.reserved e y);
  consumed = λ e y. rw (same.same_balances, same.same_sums is_approved e t y) (b.consumed e y);
}

pub SameLedger-pending :
    {s u : LeaveStore} → SameLedger s u → (e t y : ℕ) → pending_at e t y u ≡ pending_at e t y s
SameLedger-pending {s} {u} same e t y = rw same.same_balances refl

pub SameLedger-used :
    {s u : LeaveStore} → SameLedger s u → (e t y : ℕ) → used_at e t y u ≡ used_at e t y s
SameLedger-used {s} {u} same e t y = rw same.same_balances refl
