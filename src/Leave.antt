-- ===== src/Leave.antt =====
-- src/modules/leave: leave policy and the workflow of leave requests. `Defs` holds the rows,
-- `Policy` the policy service, `Requests` the request service.
pub mod Defs
pub mod Policy
pub mod Requests
pub mod Decisions
pub mod WorkingDays
pub mod Balances
pub mod Charging
pub mod Holidays
pub mod Ledger
pub mod Marks
pub mod Numbered
pub mod Quiet
pub mod Shift
pub mod Invariant
pub mod Loading
pub mod Daily
pub mod Decided
pub mod Cancelled
pub mod Submission
pub mod Submitted
