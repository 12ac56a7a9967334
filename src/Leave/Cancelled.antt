-- ===== src/Leave/Cancelled.antt =====
-- Cancellations keep the ledger balanced.
use ai_hr_sytem.Base.{ℕ, ◌≡◌, refl, inl, inr, arith, Option, some, String, Option-cases, ok}
use ai_hr_sytem.Calendar.{IsoDate}
use ai_hr_sytem.Leave.Defs.{LeaveRequestStatus, LeaveRequest, LeaveStore, AuthUser}
use ai_hr_sytem.Leave.Requests.{find_request}
use ai_hr_sytem.Leave.Decisions.{
  release_reservation, update_request, decided, check_cancel, after_cancel, cancel,
}
use ai_hr_sytem.Leave.Ledger.{IsBalanced, HasUniqueRequests, SameLedger-IsBalanced}
use ai_hr_sytem.Leave.Shift.{KeepsBalance}
use ai_hr_sytem.Leave.Quiet.{after_cancel-Quiet}
use ai_hr_sytem.Leave.Loading.{on_file, check_cancel_reads, check_cancel_active}
use ai_hr_sytem.Leave.Decided.{released-IsBalanced}

-- The parts of a cancellation that returned.
record Cancelled (today : IsoDate) (id : ℕ) (actor : AuthUser) (remark : Option String)
    (s : LeaveStore) : Type 0 where
  r : LeaveRequest
  found : on_file id s ≡ some r
  checked : (check_cancel today r actor s).0 ≡ ok tt
  released : (release_reservation r s).0 ≡ ok tt
  final :
      (cancel today id actor remark s).1
      ≡ (after_cancel r actor (
          update_request id
            (decided LeaveRequestStatus.cancelled actor.id remark)
            (release_reservation r s).1)).1

cancel-Cancelled :
    (today : IsoDate) (id : ℕ) (actor : AuthUser) (remark : Option String) (s : LeaveStore)
    {x : LeaveRequest}
    → (cancel today id actor remark s).0 ≡ ok x
    → Cancelled today id actor remark s
unfolding cancel find_request
cancel-Cancelled today id actor remark s {x} h = elim (Option-cases (on_file id s)) [
  | inl e ↦ absurd (ground arith)
  | inr (r, e) ↦
      let reads = check_cancel_reads today r actor s in
      record {
        r = r;
        found = e;
        checked = ground arith;
        released = ground arith;
        final = ground arith;
      }
]

-- A cancellation that succeeds, of a pending or of an approved request, keeps a balance-keeping
-- leave type balanced, where request ids are unique.
pub cancel-IsBalanced :
    (t : ℕ) (today : IsoDate) (id : ℕ) (actor : AuthUser) (remark : Option String) (s : LeaveStore)
    {x : LeaveRequest}
    → KeepsBalance t s
    → HasUniqueRequests s.requests
    → IsBalanced t s
    → (cancel today id actor remark s).0 ≡ ok x
    → IsBalanced t (cancel today id actor remark s).1
cancel-IsBalanced t today id actor remark s keeps unique b h =
    let a = cancel-Cancelled today id actor remark s h in
    let r = a.r in
    let m =
      update_request id (decided LeaveRequestStatus.cancelled actor.id remark)
        (release_reservation r s).1 in
    rw a.final (
      SameLedger-IsBalanced t ((after_cancel-Quiet r actor).keeps m) (
        released-IsBalanced t id r LeaveRequestStatus.cancelled actor.id remark s
          (check_cancel_active today r actor s a.checked) refl keeps unique b a.found a.released))
