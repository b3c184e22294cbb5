-- ===== src/Tests.antt =====
-- The theorems of the library at concrete documents, CRs and statuses.
mod Copies
mod Documents
mod Conflicts
mod Statuses
mod Drifts
mod Driven
mod Cluster
mod Applies
mod Reconciles
mod Checks
mod Passes
mod Starts
