-- ===== src/Leave/Invariant.antt =====
-- The ledger stays balanced through approvals, rejections and cancellations.
use ai_hr_sytem.Base.{
  ℕ, ◌≡◌, refl, ap, ◌∙◌, inl, inr, arith, Bool, true, false, ◌&&◌, Option, some, List, [], ◌∷◌,
  String, ◌==◌, if◌then◌else◌, find, Bool-cases,
}
use ai_hr_sytem.Base.Int.{ℤ, pos, pos_part, neg_part, ◌+ℤ◌, int_laws}
use ai_hr_sytem.Leave.Defs.{LeaveRequestStatus, LeaveRequest, LeaveStore, Allocation}
use ai_hr_sytem.Leave.Requests.{is_pending, is_approved, charged, zero_days}
use ai_hr_sytem.Leave.Decisions.{minus, update_request, decided}
use ai_hr_sytem.Leave.Balances.{pending_at, used_at}
use ai_hr_sytem.Leave.Charging.{charge_sum}
use ai_hr_sytem.Leave.Ledger.{days_in, sum_days, sum_days-update, IsBalanced, HasUniqueRequests}
use ai_hr_sytem.Leave.Shift.{gain, Shift}

pub combine : (p s q d d' x : ℤ) → p ≡ s → x +ℤ d ≡ s +ℤ d' → q +ℤ d ≡ d' → p +ℤ q ≡ x
combine p s q d d' x h k l = omega (
  int_laws,
  ap pos_part h,
  ap neg_part h,
  ap pos_part k,
  ap neg_part k,
  ap pos_part l,
  ap neg_part l,
)

module _ (t id : ℕ) (r : LeaveRequest) (F : LeaveRequest → LeaveRequest) (f g : ℕ → ℤ)
    (s u : LeaveStore) where
  -- A decision that shifts the balances by what it changes in the request keeps the balance.
  pub rebalance :
      Shift t r f g s u
      → IsBalanced t s
      → HasUniqueRequests s.requests
      → find (λ (q : LeaveRequest). q.id == id) s.requests ≡ some r
      → ((e y : ℕ) → gain f e t y r +ℤ days_in is_pending e t y r ≡ days_in is_pending e t y (F r))
      → ((e y : ℕ)
          → gain g e t y r +ℤ days_in is_approved e t y r ≡ days_in is_approved e t y (F r))
      → IsBalanced t (update_request id F u)
  rebalance shift b unique found hp hu = record {
    reserved = λ e y. rw (shift.same_requests) (
        shift.shift_pending e y
        ∙ combine (pending_at e t y s) (sum_days is_pending e t y s.requests) (gain f e t y r)
            (days_in is_pending e t y r) (days_in is_pending e t y (F r)) _ (b.reserved e y)
            (sum_days-update is_pending e t y id F s.requests r unique found) (hp e y));
    consumed = λ e y. rw (shift.same_requests) (
        shift.shift_used e y
        ∙ combine (used_at e t y s) (sum_days is_approved e t y s.requests) (gain g e t y r)
            (days_in is_approved e t y r) (days_in is_approved e t y (F r)) _ (b.consumed e y)
            (sum_days-update is_approved e t y id F s.requests r unique found) (hu e y));
  }

cancel_step : (m p c d : ℤ) → c +ℤ d ≡ pos 0 → m +ℤ p ≡ pos 0 → m +ℤ c +ℤ (p +ℤ d) ≡ pos 0
cancel_step m p c d h k =
    omega (int_laws, ap pos_part h, ap neg_part h, ap pos_part k, ap neg_part k)

minus_lem : (d : ℕ) → minus d +ℤ pos d ≡ pos 0
minus_lem d = omega int_laws

-- What is given back is what was charged.
charge_sum-minus :
    (y : ℕ) (l : List Allocation) → charge_sum minus y l +ℤ charge_sum pos y l ≡ pos 0
charge_sum-minus y [] = omega int_laws
charge_sum-minus y (a ∷ l) =
    cancel_step (if a.year == y then minus a.days else pos 0)
      (if a.year == y then pos a.days else pos 0) (charge_sum minus y l) (charge_sum pos y l)
      (charge_sum-minus y l) (head (a.year == y))
  where
    head :
        (b : Bool)
        → (if b then minus a.days else pos 0) +ℤ (if b then pos a.days else pos 0) ≡ pos 0
    head true = minus_lem a.days
    head false = omega int_laws

pub charge_sum-zero : (y : ℕ) (l : List Allocation) → charge_sum zero_days y l ≡ pos 0
charge_sum-zero y [] = refl
charge_sum-zero y (a ∷ l) = rw (head (a.year == y), charge_sum-zero y l) (omega int_laws)
  where
    head : (b : Bool) → (if b then zero_days a.days else pos 0) ≡ pos 0
    head true = refl
    head false = refl

zero_zero : pos 0 +ℤ pos 0 ≡ pos 0
zero_zero = omega int_laws

right_zero : (a : ℤ) → a +ℤ pos 0 ≡ a
right_zero a = omega int_laws

module _ (counts : LeaveRequestStatus → Bool) (e t y : ℕ) (r : LeaveRequest)
    (status : LeaveRequestStatus) (by : ℕ) (note : Option String) where
  -- A request leaves the counted statuses, and its days are given back.
  pub leaves :
      counts r.status ≡ true
      → counts status ≡ false
      → gain minus e t y r +ℤ days_in counts e t y r
        ≡ days_in counts e t y (decided status by note r)
  unfolding gain days_in
  leaves a b = elim (Bool-cases ((e == r.employee_id) && (t == r.leave_type_id))) [
    | inl k ↦ ground (arith, charge_sum-minus y (charged r.allocations r.year r.days))
    | inr k ↦ ground (arith, zero_zero)
  ]

  -- A request is not counted before nor after, and nothing is charged.
  pub stays_out :
      counts r.status ≡ false
      → counts status ≡ false
      → gain zero_days e t y r +ℤ days_in counts e t y r
        ≡ days_in counts e t y (decided status by note r)
  unfolding gain days_in
  stays_out a b = elim (Bool-cases ((e == r.employee_id) && (t == r.leave_type_id))) [
    | inl k ↦ ground (arith, zero_zero, charge_sum-zero y (charged r.allocations r.year r.days))
    | inr k ↦ ground (arith, zero_zero)
  ]

  -- A request enters the counted statuses, and its days are charged.
  pub enters :
      counts r.status ≡ false
      → counts status ≡ true
      → gain pos e t y r +ℤ days_in counts e t y r ≡ days_in counts e t y (decided status by note r)
  unfolding gain days_in
  enters a b = elim (Bool-cases ((e == r.employee_id) && (t == r.leave_type_id))) [
    | inl k ↦ ground (arith, right_zero (charge_sum pos y (charged r.allocations r.year r.days)))
    | inr k ↦ ground (arith, zero_zero)
  ]
