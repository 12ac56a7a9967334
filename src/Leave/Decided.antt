-- ===== src/Leave/Decided.antt =====
-- Approvals and rejections keep the ledger balanced.
use ai_hr_sytem.Base.{
  ℕ, ◌≡◌, refl, ap, ◌∙◌, inl, inr, arith, true, false, Option, some, String, ok, Result-cases,
}
use ai_hr_sytem.Base.Int.{pos, ◌+ℤ◌}
use ai_hr_sytem.Calendar.{IsoDate}
use ai_hr_sytem.Leave.Defs.{LeaveRequestStatus, LeaveRequest, LeaveStore, AuthUser}
use ai_hr_sytem.Leave.Requests.{is_pending, is_approved, is_active_status, find_request, zero_days}
use ai_hr_sytem.Leave.Decisions.{
  minus, release_reservation, settle, update_request, decided, load_for_decision, approve, reject,
  apply_long_leave, notify_decision,
}
use ai_hr_sytem.Leave.Ledger.{
  IsBalanced, HasUniqueRequests, SameLedger-trans, SameLedger-IsBalanced, SameLedger-pending,
  SameLedger-used,
}
use ai_hr_sytem.Leave.Shift.{KeepsBalance, gain, settle-Shift, release-Shift}
use ai_hr_sytem.Leave.Balances.{pending_at, used_at}
use ai_hr_sytem.Leave.Quiet.{apply_long_leave-Quiet, notify_decision-Quiet}
use ai_hr_sytem.Leave.Invariant.{rebalance, leaves, stays_out, enters}
use ai_hr_sytem.Leave.Loading.{on_file, load_reads, load_found}

-- The parts of an approval that returned.
record Approved (today : IsoDate) (id : ℕ) (actor : AuthUser) (remark : Option String)
    (s : LeaveStore) : Type 0 where
  r : LeaveRequest
  found : on_file id s ≡ some r
  open_request : is_pending r.status ≡ true
  settled : (settle r s).0 ≡ ok tt
  final :
      (approve today id actor remark s).1
      ≡ (notify_decision r true
          (apply_long_leave today r (some actor.id) (
            update_request id
              (decided LeaveRequestStatus.approved actor.id remark)
              (settle r s).1)).1).1

approve-Approved :
    (today : IsoDate) (id : ℕ) (actor : AuthUser) (remark : Option String) (s : LeaveStore)
    {x : LeaveRequest}
    → (approve today id actor remark s).0 ≡ ok x
    → Approved today id actor remark s
unfolding approve find_request
approve-Approved today id actor remark s {x} h =
    elim (Result-cases (load_for_decision id actor s).0) [
      | inr (thrown, e) ↦ absurd (ground arith)
      | inl (r, e) ↦
          let (found, open_request) = load_found id actor s r e in
          let reads = load_reads id actor s in
          record {
            r = r;
            found = found;
            open_request = open_request;
            settled = ground arith;
            final = ground arith;
          }
    ]

-- A pending request is not an approved one.
pending_only : (s : LeaveRequestStatus) → is_pending s ≡ true → is_approved s ≡ false
pending_only s h = ground arith

-- An approval that succeeds keeps a balance-keeping leave type balanced, where request ids are
-- unique.
pub approve-IsBalanced :
    (t : ℕ) (today : IsoDate) (id : ℕ) (actor : AuthUser) (remark : Option String) (s : LeaveStore)
    {x : LeaveRequest}
    → KeepsBalance t s
    → HasUniqueRequests s.requests
    → IsBalanced t s
    → (approve today id actor remark s).0 ≡ ok x
    → IsBalanced t (approve today id actor remark s).1
approve-IsBalanced t today id actor remark s keeps unique b h =
    let a = approve-Approved today id actor remark s h in
    let r = a.r in
    let waiting = pending_only r.status a.open_request in
    let F = decided LeaveRequestStatus.approved actor.id remark in
    let u = (settle r s).1 in
    let m = update_request id F u in
    let balanced =
      rebalance t id r F minus pos s u (settle-Shift t r s keeps a.settled) b unique a.found
        (λ e y.
          leaves is_pending e t y r LeaveRequestStatus.approved actor.id remark a.open_request refl)
        (λ e y.
          enters is_approved e t y r LeaveRequestStatus.approved actor.id remark waiting refl) in
    let n = (apply_long_leave today r (some actor.id) m).1 in
    rw a.final (
      SameLedger-IsBalanced t
        (SameLedger-trans ((apply_long_leave-Quiet today r (some actor.id)).keeps m)
          ((notify_decision-Quiet r true).keeps n))
        balanced)

-- An approval that succeeds finds a pending request, and for every employee and year it takes the
-- half days of that request off the reserved ones and adds them to the used ones. A balance-keeping
-- leave type stays balanced, where request ids are unique.
pub approve_moves_days :
    (t : ℕ) (today : IsoDate) (id : ℕ) (actor : AuthUser) (remark : Option String) (s : LeaveStore)
    {x : LeaveRequest}
    → KeepsBalance t s
    → HasUniqueRequests s.requests
    → IsBalanced t s
    → (approve today id actor remark s).0 ≡ ok x
    → let u = (approve today id actor remark s).1 in
      (r : LeaveRequest) × (on_file id s ≡ some r)
      × (is_pending r.status ≡ true)
      × ((e y : ℕ) → pending_at e t y u ≡ pending_at e t y s +ℤ gain minus e t y r)
      × ((e y : ℕ) → used_at e t y u ≡ used_at e t y s +ℤ gain pos e t y r)
      × IsBalanced t u
approve_moves_days t today id actor remark s keeps unique b h =
    let a = approve-Approved today id actor remark s h in
    let m =
      update_request id (decided LeaveRequestStatus.approved actor.id remark) (settle a.r s).1 in
    let n = (apply_long_leave today a.r (some actor.id) m).1 in
    let quiet =
      SameLedger-trans ((apply_long_leave-Quiet today a.r (some actor.id)).keeps m)
        ((notify_decision-Quiet a.r true).keeps n) in
    let shift = settle-Shift t a.r s keeps a.settled in
    (
      a.r,
      a.found,
      a.open_request,
      λ e y.
          ap (pending_at e t y) a.final ∙ SameLedger-pending quiet e t y ∙ shift.shift_pending e y,
      λ e y. ap (used_at e t y) a.final ∙ SameLedger-used quiet e t y ∙ shift.shift_used e y,
      approve-IsBalanced t today id actor remark s keeps unique b h,
    )

record Rejected (id : ℕ) (actor : AuthUser) (remark : Option String) (s : LeaveStore) : Type 0 where
  r : LeaveRequest
  found : on_file id s ≡ some r
  open_request : is_pending r.status ≡ true
  released : (release_reservation r s).0 ≡ ok tt
  final :
      (reject id actor remark s).1
      ≡ (notify_decision r false (
          update_request id
            (decided LeaveRequestStatus.rejected actor.id remark)
            (release_reservation r s).1)).1

reject-Rejected :
    (id : ℕ) (actor : AuthUser) (remark : Option String) (s : LeaveStore) {x : LeaveRequest}
    → (reject id actor remark s).0 ≡ ok x
    → Rejected id actor remark s
unfolding reject find_request
reject-Rejected id actor remark s {x} h = elim (Result-cases (load_for_decision id actor s).0) [
  | inr (thrown, e) ↦ absurd (ground arith)
  | inl (r, e) ↦
      let (found, open_request) = load_found id actor s r e in
      let reads = load_reads id actor s in
      record {
        r = r;
        found = found;
        open_request = open_request;
        released = ground arith;
        final = ground arith;
      }
]

-- A release of a pending or of an approved request, followed by the change of its status to one
-- that holds no days, keeps the balance.
pub released-IsBalanced :
    (t id : ℕ) (r : LeaveRequest) (status : LeaveRequestStatus) (by : ℕ) (remark : Option String)
    (s : LeaveStore)
    → is_active_status r.status ≡ true
    → is_active_status status ≡ false
    → KeepsBalance t s
    → HasUniqueRequests s.requests
    → IsBalanced t s
    → on_file id s ≡ some r
    → (release_reservation r s).0 ≡ ok tt
    → IsBalanced t (update_request id (decided status by remark) (release_reservation r s).1)
released-IsBalanced t id r status by remark s active closed keeps unique b found h =
    let u = (release_reservation r s).1 in
    let F = decided status by remark in
    elim (release-Shift t r s keeps h) [
      | inl (p, shift) ↦
          rebalance t id r F minus zero_days s u shift b unique found
            (λ e y. leaves is_pending e t y r status by remark p (closed_pending status closed))
            (λ e y.
              stays_out is_approved e t y r status by remark (pending_only r.status p)
                (closed_approved status closed))
      | inr (p, shift) ↦
          rebalance t id r F zero_days minus s u shift b unique found
            (λ e y. stays_out is_pending e t y r status by remark p (closed_pending status closed))
            (λ e y.
              leaves is_approved e t y r status by remark (other_active r.status p active)
                (closed_approved status closed))
    ]
  where
    closed_pending : (s : LeaveRequestStatus) → is_active_status s ≡ false → is_pending s ≡ false
    closed_pending s h = ground arith

    closed_approved : (s : LeaveRequestStatus) → is_active_status s ≡ false → is_approved s ≡ false
    closed_approved s h = ground arith

    other_active :
        (s : LeaveRequestStatus)
        → is_pending s ≡ false
        → is_active_status s ≡ true
        → is_approved s ≡ true
    other_active s h k = ground arith

-- A rejection that succeeds keeps a balance-keeping leave type balanced, where request ids are
-- unique.
pub reject-IsBalanced :
    (t id : ℕ) (actor : AuthUser) (remark : Option String) (s : LeaveStore) {x : LeaveRequest}
    → KeepsBalance t s
    → HasUniqueRequests s.requests
    → IsBalanced t s
    → (reject id actor remark s).0 ≡ ok x
    → IsBalanced t (reject id actor remark s).1
reject-IsBalanced t id actor remark s keeps unique b h =
    let a = reject-Rejected id actor remark s h in
    let r = a.r in
    let m =
      update_request id (decided LeaveRequestStatus.rejected actor.id remark)
        (release_reservation r s).1 in
    rw a.final (
      SameLedger-IsBalanced t ((notify_decision-Quiet r false).keeps m) (
        released-IsBalanced t id r LeaveRequestStatus.rejected actor.id remark s
          (pending_active r.status a.open_request) refl keeps unique b a.found a.released))
  where
    pending_active : (s : LeaveRequestStatus) → is_pending s ≡ true → is_active_status s ≡ true
    pending_active s h = ground arith
