-- ===== src/Leave/Shift.antt =====
-- The change of the balances that a decision on one request makes, key by key.
use ai_hr_sytem.Base.{
  ℕ, ◌≡◌, refl, sym, ap, subst, ◌∙◌, ◌⊎◌, inl, inr, arith, true, false, ◌&&◌, some, ◌==◌, ==→eq,
  if◌then◌else◌, find, Bool-cases, Option-cases, ok,
}
use ai_hr_sytem.Base.Int.{ℤ, pos, ◌+ℤ◌, int_laws}
use ai_hr_sytem.Leave.Defs.{LeaveType, LeaveRequest, LeaveStore}
use ai_hr_sytem.Leave.Policy.{find_type}
use ai_hr_sytem.Leave.Requests.{is_pending, charged, zero_days}
use ai_hr_sytem.Leave.Decisions.{minus, charge_request, release_reservation, settle}
use ai_hr_sytem.Leave.Balances.{pending_at, used_at}
use ai_hr_sytem.Leave.Charging.{charge_sum, Charged, charge_balances-Charged}

-- What a key gains when a request's allocations are charged by `f`.
unfoldable pub gain : (ℕ → ℤ) → ℕ → ℕ → ℕ → LeaveRequest → ℤ
gain f e t y r =
    if (e == r.employee_id) && (t == r.leave_type_id)
    then charge_sum f y (charged r.allocations r.year r.days)
    else pos 0

pub record Shift (t : ℕ) (r : LeaveRequest) (f g : ℕ → ℤ) (s u : LeaveStore) : Type 0 where
  pub shift_pending : (e y : ℕ) → pending_at e t y u ≡ pending_at e t y s +ℤ gain f e t y r
  pub shift_used : (e y : ℕ) → used_at e t y u ≡ used_at e t y s +ℤ gain g e t y r
  pub same_requests : u.requests ≡ s.requests
  pub same_types : u.types ≡ s.types

add_zero : (a : ℤ) → a +ℤ pos 0 ≡ a
add_zero a = omega int_laws

-- The leave type with this id keeps balances.
abbrev pub KeepsBalance : ℕ → LeaveStore → Type 0
KeepsBalance t s =
    (type : LeaveType) × (find (λ (x : LeaveType). x.id == t) s.types ≡ some type)
    × (type.requires_balance ≡ true)

module _ (t : ℕ) (r : LeaveRequest) (f g : ℕ → ℤ) (s : LeaveStore) where
  charge_request-Charged :
      (charge_request r f g s).0 ≡ ok tt
      → Charged r.employee_id r.leave_type_id
          (λ y. charge_sum f y (charged r.allocations r.year r.days))
          (λ y. charge_sum g y (charged r.allocations r.year r.days))
          s
          (charge_request r f g s).1
  unfolding charge_request
  charge_request-Charged h =
      charge_balances-Charged r.employee_id r.leave_type_id f g
        (charged r.allocations r.year r.days) s h

  pub charge_request-Shift :
      (charge_request r f g s).0 ≡ ok tt → Shift t r f g s (charge_request r f g s).1
  unfolding gain
  charge_request-Shift h =
      let c = charge_request-Charged h in
      record {
        shift_pending = λ e y. elim (Bool-cases ((e == r.employee_id) && (t == r.leave_type_id))) [
          | inl k ↦ ground (arith, c.own_pending y)
          | inr k ↦ ground (arith, c.other_pending e t y k, add_zero (pending_at e t y s))
        ];
        shift_used = λ e y. elim (Bool-cases ((e == r.employee_id) && (t == r.leave_type_id))) [
          | inl k ↦ ground (arith, c.own_used y)
          | inr k ↦ ground (arith, c.other_used e t y k, add_zero (used_at e t y s))
        ];
        same_requests = c.tables.same_requests;
        same_types = c.tables.same_types;
      }

  other_type :
      KeepsBalance t s
      → (type : LeaveType) → find (λ (x : LeaveType). x.id == r.leave_type_id) s.types ≡ some type
      → type.requires_balance ≡ false
      → (t == r.leave_type_id) ≡ false
  other_type (own, p, q) type h k = elim (Bool-cases (t == r.leave_type_id)) [
    | inl same ↦
        let moved =
          subst (λ v. find (λ (x : LeaveType). x.id == v) s.types ≡ some own)
            (==→eq t r.leave_type_id same) p in
        absurd (ground arith)
    | inr o ↦ o
  ]

  -- Nothing is charged to a request of a type without balances.
  pub other-Shift :
      KeepsBalance t s
      → (type : LeaveType) → find (λ (x : LeaveType). x.id == r.leave_type_id) s.types ≡ some type
      → type.requires_balance ≡ false
      → Shift t r f g s s
  unfolding gain
  other-Shift own type h k =
      let other = other_type own type h k in
      record {
        shift_pending = λ e y. ground (arith, other, add_zero (pending_at e t y s));
        shift_used = λ e y. ground (arith, other, add_zero (used_at e t y s));
        same_requests = refl;
        same_types = refl;
      }

-- What a successful change of the balances has looked at.
settle_cases :
    (r : LeaveRequest) (s : LeaveStore)
    → (settle r s).0 ≡ ok tt
    → (type : LeaveType) × (find (λ (x : LeaveType). x.id == r.leave_type_id) s.types ≡ some type)
      × (((type.requires_balance ≡ true) × (settle r s ≡ charge_request r minus pos s))
          ⊎ ((type.requires_balance ≡ false) × (settle r s ≡ (ok tt, s))))
unfolding settle find_type
settle_cases r s h =
    elim (Option-cases (find (λ (x : LeaveType). x.id == r.leave_type_id) s.types)) [
      | inl e ↦ absurd (ground arith)
      | inr (type, e) ↦ (type, e, ground arith)
    ]

release_cases :
    (r : LeaveRequest) (s : LeaveStore)
    → (release_reservation r s).0 ≡ ok tt
    → (type : LeaveType) × (find (λ (x : LeaveType). x.id == r.leave_type_id) s.types ≡ some type)
      × (((type.requires_balance ≡ true)
            × (release_reservation r s ≡ (
                if is_pending r.status
                then charge_request r minus zero_days s
                else charge_request r zero_days minus s)))
          ⊎ ((type.requires_balance ≡ false) × (release_reservation r s ≡ (ok tt, s))))
unfolding release_reservation find_type
release_cases r s h =
    elim (Option-cases (find (λ (x : LeaveType). x.id == r.leave_type_id) s.types)) [
      | inl e ↦ absurd (ground arith)
      | inr (type, e) ↦ (type, e, ground arith)
    ]

-- An approval turns reserved days into used days.
pub settle-Shift :
    (t : ℕ) (r : LeaveRequest) (s : LeaveStore)
    → KeepsBalance t s
    → (settle r s).0 ≡ ok tt
    → Shift t r minus pos s (settle r s).1
settle-Shift t r s own h =
    let (type, e, c) = settle_cases r s h in
    elim c [
      | inl (q, same) ↦
          rw same (charge_request-Shift t r minus pos s (ap (λ v. v.0) (sym same) ∙ h))
      | inr (q, same) ↦ rw same (other-Shift t r minus pos s own type e q)
    ]

-- A release gives back reserved days, or used days.
pub release-Shift :
    (t : ℕ) (r : LeaveRequest) (s : LeaveStore)
    → KeepsBalance t s
    → (release_reservation r s).0 ≡ ok tt
    → ((is_pending r.status ≡ true) × Shift t r minus zero_days s (release_reservation r s).1)
      ⊎ ((is_pending r.status ≡ false) × Shift t r zero_days minus s (release_reservation r s).1)
release-Shift t r s own h =
    let (type, e, c) = release_cases r s h in
    elim (Bool-cases (is_pending r.status)) [
      | inl b ↦ inl (
        b,
        elim c [
          | inl (q, same) ↦
              let now = same ∙ pick_true b in
              rw now (charge_request-Shift t r minus zero_days s (ap (λ v. v.0) (sym now) ∙ h))
          | inr (q, same) ↦ rw same (other-Shift t r minus zero_days s own type e q)
        ],
      )
      | inr b ↦ inr (
        b,
        elim c [
          | inl (q, same) ↦
              let now = same ∙ pick_false b in
              rw now (charge_request-Shift t r zero_days minus s (ap (λ v. v.0) (sym now) ∙ h))
          | inr (q, same) ↦ rw same (other-Shift t r zero_days minus s own type e q)
        ],
      )
    ]
  where
    pick_true :
        is_pending r.status ≡ true
        → (if is_pending r.status
            then charge_request r minus zero_days s
            else charge_request r zero_days minus s)
          ≡ charge_request r minus zero_days s
    pick_true b = rw b

    pick_false :
        is_pending r.status ≡ false
        → (if is_pending r.status
            then charge_request r minus zero_days s
            else charge_request r zero_days minus s)
          ≡ charge_request r zero_days minus s
    pick_false b = rw b
