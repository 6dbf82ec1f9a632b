-- ===== src/Publication/Tests.antt =====
-- Concrete runs of publication, and its theorems at concrete inputs.
mod Data
mod Cohorts
mod Approvals
mod Preparations
mod Runs
mod Attempts
