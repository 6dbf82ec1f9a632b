-- ===== src/Publication.antt =====
-- Publication of approved edits: what decides what is written to a site.
pub mod Rows
pub mod Progress
pub mod Artifact
pub mod Cohort
pub mod Approval
pub mod Preparation
pub mod Connector
pub mod Worker
mod Tests
