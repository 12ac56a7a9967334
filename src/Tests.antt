-- ===== src/Tests.antt =====
-- Runs of the modelled operations on small data, and the theorems at them.
mod Staff
mod Absence
mod Sessions
mod Dates
mod Tax
mod Payday
mod Clocking
mod SignIn
mod Tree
mod Appraisal
mod Joining
mod Templates
