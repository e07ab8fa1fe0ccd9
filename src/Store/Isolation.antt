-- ===== src/Store/Isolation.antt =====
-- Projects stay apart: a project has one repository root and a root one project, and the edges of
-- the dependency graph join two different jobs of one project.
pub mod Identity
pub mod Kept
pub mod Edges
pub mod Preserved
use project_os_agentic_agile.Base.{String, Option, none, some, ◌≡◌, ◌≢◌, ◌↔◌, In, find, ℕ}
use project_os_agentic_agile.Store.Schema.{Job, Dependency, Db}
use project_os_agentic_agile.Store.Isolation.Identity.{project_at}

pub record IsIsolated (root_key : String → String) (db : Db) : Type 0 where
  pub bound :
      (i j : Job)
      → In i db.jobs
      → In j db.jobs
      → (i.project_human_id ≡ j.project_human_id)
        ↔ (root_key i.repository_root ≡ root_key j.repository_root)
  pub edges :
      (e : Dependency)
      → In e db.dependencies
      → (e.job_id ≢ e.depends_on_job_id)
        × (p : String) × (project_at e.job_id db.jobs ≡ some p)
        × (project_at e.depends_on_job_id db.jobs ≡ some p)
