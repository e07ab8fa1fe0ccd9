-- ===== src/Store.antt =====
-- The orchestration store of src/projectos/store.py: its tables, jobs, leases and job queries.
pub mod Schema
pub mod Action
pub mod Rows
pub mod Leases
pub mod NextActions
pub mod Lifecycle
pub mod Creation
pub mod Selection
pub mod Framing
pub mod Consistency
pub mod Isolation
pub mod Recovery
pub mod Operations
