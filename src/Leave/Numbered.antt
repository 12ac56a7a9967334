-- ===== src/Leave/Numbered.antt =====
-- The ids of the requests: `submit` numbers each request anew.
use ai_hr_sytem.Base.{
  ℕ, ◌+◌, ◌<◌, ◌≡◌, refl, inl, inr, arith, false, List, [], ◌∷◌, ◌++◌, ◌==◌, any, All, ok,
  Result-cases,
}
use ai_hr_sytem.Base.Int.{ℤ, pos}
use ai_hr_sytem.Calendar.{IsoDate, year_of}
use ai_hr_sytem.Employees.{Employee}
use ai_hr_sytem.Leave.Defs.{LeaveType, LeaveRequest, LeaveStore, Allocation, CreateLeaveRequest}
use ai_hr_sytem.Leave.Policy.{ensure_balance, apply_to_balance, find_type}
use ai_hr_sytem.Leave.Requests.{
  check_balances, charge_balances, reserve, file_request, submit, charged, total_days, zero_days,
}
use ai_hr_sytem.Leave.Ledger.{HasUniqueRequests}
use ai_hr_sytem.Leave.Submitted.{submit-Submitted}

-- The ids on file are all different, and below the next one.
pub record IsNumbered (s : LeaveStore) : Type 0 where
  pub below : All (λ (r : LeaveRequest). r.id < s.next_request_id) s.requests
  pub unique : HasUniqueRequests s.requests

abbrev SameIds : LeaveStore → LeaveStore → Type 0
SameIds s u = (u.requests ≡ s.requests) × (u.next_request_id ≡ s.next_request_id)

ensure_balance-SameIds : (e t y : ℕ) (s : LeaveStore) → SameIds s (ensure_balance e t y s).1
unfolding ensure_balance find_type
ensure_balance-SameIds e t y s = ground arith

check_balances-SameIds :
    (e t y : ℕ) (d : IsoDate) (l : List Allocation) (s : LeaveStore)
    → SameIds s (check_balances e t y d l s).1
unfolding check_balances
check_balances-SameIds e t y d [] s = (refl, refl)
check_balances-SameIds e t y d (a ∷ l) s =
    let m = (ensure_balance e t a.year s).1 in
    let here = ensure_balance-SameIds e t a.year s in
    let later = check_balances-SameIds e t y d l m in ground arith

charge_balances-SameIds :
    (e t : ℕ) (p u : ℕ → ℤ) (l : List Allocation) (s : LeaveStore)
    → SameIds s (charge_balances e t p u l s).1
unfolding charge_balances apply_to_balance
charge_balances-SameIds e t p u [] s = (refl, refl)
charge_balances-SameIds e t p u (a ∷ l) s = elim (Result-cases (ensure_balance e t a.year s).0) [
  | inr (x, q) ↦ let here = ensure_balance-SameIds e t a.year s in ground arith
  | inl (b, q) ↦
      let m = (apply_to_balance b (p a.days) (u a.days) (ensure_balance e t a.year s).1).1 in
      let here = ensure_balance-SameIds e t a.year s in
      let later = charge_balances-SameIds e t p u l m in ground arith
]

reserve-SameIds :
    (emp : Employee) (type : LeaveType) (dto : CreateLeaveRequest) (l : List Allocation)
    (s : LeaveStore)
    → SameIds s (reserve emp type dto l s).1
unfolding reserve
reserve-SameIds emp type dto l s =
    let year : ℕ = year_of dto.start_date in
    let m = (check_balances emp.id type.id year dto.start_date l s).1 in
    let checked = check_balances-SameIds emp.id type.id year dto.start_date l s in
    let done =
      charge_balances-SameIds emp.id type.id pos zero_days (charged l year (total_days l)) m in
    ground arith

below_more :
    (n : ℕ) (rs : List LeaveRequest) (r : LeaveRequest)
    → All (λ (q : LeaveRequest). q.id < n) rs
    → r.id ≡ n
    → All (λ (q : LeaveRequest). q.id < n + 1) (rs ++ r ∷ [])
below_more n [] r h e = (omega arith, tt)
below_more n (q ∷ rs) r h e = (omega (arith, h.0), below_more n rs r h.1 e)

absent_more :
    (n : ℕ) (rs : List LeaveRequest) (r q : LeaveRequest)
    → any (λ (x : LeaveRequest). x.id == q.id) rs ≡ false
    → q.id < n
    → r.id ≡ n
    → any (λ (x : LeaveRequest). x.id == q.id) (rs ++ r ∷ []) ≡ false
absent_more n [] r q a b e = ground arith
absent_more n (x ∷ rs) r q a b e = ground (arith, absent_more n rs r q)

unique_more :
    (n : ℕ) (rs : List LeaveRequest) (r : LeaveRequest)
    → All (λ (q : LeaveRequest). q.id < n) rs
    → r.id ≡ n
    → HasUniqueRequests rs
    → HasUniqueRequests (rs ++ r ∷ [])
unique_more n [] r h e u = (refl, tt)
unique_more n (q ∷ rs) r h e u = (absent_more n rs r q u.0 h.0 e, unique_more n rs r h.1 e u.1)

-- A submission that succeeds keeps the ids on file all different and below the next one.
pub submit-IsNumbered :
    (id : ℕ) (dto : CreateLeaveRequest) (actor : ℕ) (s : LeaveStore) {x : LeaveRequest}
    → IsNumbered s
    → (submit id dto actor s).0 ≡ ok x
    → IsNumbered (submit id dto actor s).1
unfolding file_request
submit-IsNumbered id dto actor s n h =
    let a = submit-Submitted id dto actor s h in
    let (rows, next) = reserve-SameIds a.emp a.type dto a.l s in
    rw (a.final, rows, next)
      (record {
        below = below_more s.next_request_id s.requests _ n.below refl;
        unique = unique_more s.next_request_id s.requests _ n.below refl n.unique;
      })
