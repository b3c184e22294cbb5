-- ===== src/Reconciler.antt =====
-- internal/controller/loki_controller.go and mimir_controller.go: the reconcile loop. The two files
-- are one program under two sets of names; here the target is a field of the reconciler.
pub mod OutputWrite
pub mod Written
pub mod Forward
pub mod Notices
pub mod Returns
pub mod Objects
pub mod Finishing
pub mod Rests
pub mod Specified
pub mod Refines
pub mod SameHashes
pub mod Remembered
pub mod Failing
pub mod CutLabel
pub mod Announced
pub mod Quiet
pub mod Idle
pub mod Mimir
pub mod LeftOut
pub mod Listed
pub mod Settled
pub mod OwnWrites
pub mod Total
pub mod OrderFree
pub mod Isolation
pub mod Gather
pub mod Output
pub mod Desired
pub mod Statuses
pub mod Loop
