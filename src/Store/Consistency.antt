-- ===== src/Store/Consistency.antt =====
-- What holds of the job and lease tables between two operations.
pub mod Updates
pub mod Frames
pub mod Kept
pub mod Lifecycle
pub mod Recovery
pub mod Claims
pub mod Creation
use project_os_agentic_agile.Base.{
  ℕ, suc, ◌≤◌, Bool, true, false, List, [], ◌∷◌, Option, none, some, ◌≡◌, ◌↔◌, ◌==◌, find, any,
  count, In,
}
use project_os_agentic_agile.Store.Schema.{Job, Lease, Db, is_active}
use project_os_agentic_agile.Store.Rows.{has_id}
use project_os_agentic_agile.Store.Consistency.Updates.{has_open, is_active_id}

-- A job is LEASED or RUNNING exactly while it holds an unreleased lease.
abbrev pub Held : List Lease → List Job → Type 0
Held leases jobs = (id : ℕ) → has_open id leases ≡ is_active_id id jobs

pub record IsConsistent (db : Db) : Type 0 where
  pub held : Held db.leases db.jobs
  -- the columns that SQL keeps unique, and AUTOINCREMENT
  pub job_unique : (id : ℕ) → count (has_id id) db.jobs ≤ 1
  pub job_fresh : (id : ℕ) → suc db.job_seq ≤ id → find (has_id id) db.jobs ≡ none
  pub lease_unique :
      (l r : Lease) → In l db.leases → In r db.leases → (l.id ≡ r.id) ↔ (l.job_id ≡ r.job_id)
  pub lease_fresh : (l : Lease) → In l db.leases → l.id ≤ db.lease_seq
