-- ===== src/Store/NextActions.antt =====
-- run_next_actions.py: the durable next action of a run that has not ended.
pub mod Backing
pub mod Liveness
pub mod Reconcile
pub mod Tables
pub mod ReadOnly
pub mod Persisted
pub mod Reconciled
