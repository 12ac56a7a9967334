-- ===== src/Onboarding.antt =====
-- src/modules/onboarding: checklists for people who join or leave.
pub mod Defs
pub mod Completion
pub mod Start
pub mod Tasks
pub mod Progress
pub mod Reminders
pub mod Invariant
pub mod Steps
pub mod Handlers
pub mod Starts
pub mod Runs
pub mod Templates
