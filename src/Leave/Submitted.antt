-- ===== src/Leave/Submitted.antt =====
-- `submit` as a whole: its parts when it returns, and the ledger afterwards.
use ai_hr_sytem.Base.{
  ℕ, ◌≡◌, subst, ◌∙◌, inl, inr, arith, false, some, List, ◌==◌, ==→eq, find, Bool-cases,
  Option-cases, ok, Result-cases, or_else, [], ◌∷◌, ◌+◌,
}
use ai_hr_sytem.Calendar.{IsoDate, year_of, iso}
use ai_hr_sytem.Employees.{Employee}
use ai_hr_sytem.Employees.Placement.{find_by_id_reads}
use ai_hr_sytem.Leave.Defs.{
  HalfDay, LeaveType, LeaveRequest, LeaveStore, Allocation, CreateLeaveRequest,
}
use ai_hr_sytem.Leave.Policy.{find_type, count_working_days}
use ai_hr_sytem.Leave.Requests.{
  allocate, check_submission, find_request, load_submitter, plan, file_request, reserve, submit,
}
use ai_hr_sytem.Leave.Ledger.{IsBalanced}
use ai_hr_sytem.Leave.Shift.{KeepsBalance}
use ai_hr_sytem.Leave.Submission.{reserve-Reserved, unreserved-Reserved, file-IsBalanced}

count_reads : (a b : IsoDate) (h : HalfDay) (s : LeaveStore) → (count_working_days a b h s).1 ≡ s
unfolding count_working_days
count_reads a b h s = ground arith

allocate_reads : (a b : IsoDate) (h : HalfDay) (s : LeaveStore) → (allocate a b h s).1 ≡ s
unfolding allocate
allocate_reads a b h s = ground (
  arith,
  count_reads a b h s,
  count_reads a (iso (year_of a) 12 31) h s,
  count_reads (iso (year_of a + 1) 1 1) b h s,
)

check_submission_reads :
    (e : Employee) (type : LeaveType) (dto : CreateLeaveRequest) (s : LeaveStore)
    → (check_submission e type dto s).1 ≡ s
unfolding check_submission
check_submission_reads e type dto s = ground arith

plan_reads :
    (e : Employee) (type : LeaveType) (dto : CreateLeaveRequest) (s : LeaveStore)
    → (plan e type dto s).1 ≡ s
unfolding plan
plan_reads e type dto s = ground (
  arith,
  check_submission_reads e type dto s,
  allocate_reads dto.start_date dto.end_date (or_else dto.half_day HalfDay.none_half) s,
)

load_submitter_reads : (id : ℕ) (s : LeaveStore) → (load_submitter id s).1 ≡ s
unfolding load_submitter
load_submitter_reads id s = ground (arith, find_by_id_reads id s.company)

-- The parts of a submission that returned.
pub record Submitted (id : ℕ) (dto : CreateLeaveRequest) (actor : ℕ) (s : LeaveStore) : Type 0 where
  pub emp : Employee
  pub type : LeaveType
  pub l : List Allocation
  pub found : find (λ (x : LeaveType). x.id == dto.leave_type_id) s.types ≡ some type
  pub reserved : (reserve emp type dto l s).0 ≡ ok tt
  pub final :
      (submit id dto actor s).1 ≡ file_request emp type dto l actor (reserve emp type dto l s).1

pub submit-Submitted :
    (id : ℕ) (dto : CreateLeaveRequest) (actor : ℕ) (s : LeaveStore) {x : LeaveRequest}
    → (submit id dto actor s).0 ≡ ok x
    → Submitted id dto actor s
unfolding submit find_type find_request
submit-Submitted id dto actor s {x} h = elim (Result-cases (load_submitter id s).0) [
  | inr (thrown, e) ↦ absurd (ground arith)
  | inl (emp, e) ↦
      let same = load_submitter_reads id s in
      elim (Option-cases (find (λ (x : LeaveType). x.id == dto.leave_type_id) s.types)) [
        | inl unknown ↦ absurd (ground arith)
        | inr (type, q) ↦ elim (Result-cases (plan emp type dto s).0) [
          | inr (thrown, k) ↦ absurd (ground (arith, plan_reads emp type dto s))
          | inl (l, k) ↦
              let kept = plan_reads emp type dto s in
              record {
                emp = emp;
                type = type;
                l = l;
                found = q;
                reserved = ground arith;
                final = ground arith;
              }
        ]
      ]
]

found_id :
    (id : ℕ) (ts : List LeaveType) (type : LeaveType)
    → find (λ (x : LeaveType). x.id == id) ts ≡ some type
    → type.id ≡ id
found_id id [] type h = absurd (ground arith)
found_id id (x ∷ ts) type h = ground (arith, found_id id ts type)

other_type :
    (t id : ℕ) (s : LeaveStore) (type : LeaveType)
    → KeepsBalance t s
    → find (λ (x : LeaveType). x.id == id) s.types ≡ some type
    → type.requires_balance ≡ false
    → (t == type.id) ≡ false
other_type t id s type (own, p, q) h k = elim (Bool-cases (t == type.id)) [
  | inl same ↦
      let moved =
        subst (λ v. find (λ (x : LeaveType). x.id == v) s.types ≡ some own)
          (==→eq t type.id same ∙ found_id id s.types type h) p in
      absurd (ground arith)
  | inr o ↦ o
]

-- A submission that succeeds keeps a balance-keeping leave type balanced: on every key the days
-- on reserve and in use stay what the pending and the approved requests add up to.
pub submit-IsBalanced :
    (t id : ℕ) (dto : CreateLeaveRequest) (actor : ℕ) (s : LeaveStore) {x : LeaveRequest}
    → KeepsBalance t s
    → IsBalanced t s
    → (submit id dto actor s).0 ≡ ok x
    → IsBalanced t (submit id dto actor s).1
submit-IsBalanced t id dto actor s keeps b h =
    let a = submit-Submitted id dto actor s h in
    rw a.final (
      file-IsBalanced t a.emp a.type dto a.l actor s (reserve a.emp a.type dto a.l s).1
        (elim (Bool-cases a.type.requires_balance) [
          | inl q ↦ reserve-Reserved t a.emp a.type dto a.l actor s q a.reserved
          | inr q ↦
              unreserved-Reserved t a.emp a.type dto a.l actor s q
                (other_type t dto.leave_type_id s a.type keeps a.found q)
        ])
        b)
