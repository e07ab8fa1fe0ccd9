-- ===== src/Store/Action.antt =====
-- Actions on the database that may raise. What was written before a raise stays written until the
-- connection rolls back (src/projectos/db.py), so the database comes back beside an error too.
use project_os_agentic_agile.Base.{Bool, true, false}
use project_os_agentic_agile.Store.Schema.{Db}

-- The exceptions that the operations raise, one constructor for each `raise`.
pub data Error : Type 0 where
  invalid_job_status job_not_found no_jobs_provided self_dependency : Error
  expected_retry_wait retry_in_future expected_blocked expected_leased expected_active : Error
  lease_seconds_not_positive not_ready lease_conflict : Error
  snapshot_project snapshot_root project_bound_elsewhere root_taken : Error
  payload_project jobs_span_projects : Error
  action_without_run action_without_work action_work_missing action_run_mismatch : Error
  action_job_missing action_without_job action_job_terminal action_without_sha : Error
  action_not_scheduled : Error
  integrity : Error

pub data Result (A : Type 0) : Type 0 where
  ok : A → Result A
  err : Error → Result A

abbrev pub Action : Type 0 → Type 0
Action A = Db → Result A × Db

module _ {A : Type 0} where
  pub pure : A → Action A
  pure a db = (ok a, db)

  pub raise : Error → Action A
  raise e db = (err e, db)

  pub gets : (Db → A) → Action A
  gets f db = (ok (f db), db)

pub modify : (Db → Db) → Action (Unit {0})
modify f db = (ok tt, f db)

-- `if not c: raise e`.
pub require : Bool → Error → Action (Unit {0})
require true e db = (ok tt, db)
require false e db = (err e, db)

-- An exception skips the rest of the block.
abbrev pub continue : {A B : Type 0} → Result A → (A → Action B) → Action B
continue (ok a) f db = f a db
continue (err e) f db = (err e, db)

infixl 5 ◌>>=◌ ◌>>◌
-- Opening this opens the actions above.
unfoldable pub ◌>>=◌ : {A B : Type 0} → Action A → (A → Action B) → Action B
unfolding pure raise gets modify require
◌>>=◌ m f db = let (r, db') = m db in continue r f db'

abbrev pub ◌>>◌ : {A B : Type 0} → Action A → Action B → Action B
m >> n = m >>= λ _. n

-- db.connection: commits when the block returns, and rolls back when it raises.
unfoldable pub connection : {A : Type 0} → Action A → Action A
connection m db = let (r, db') = m db in elim r [ ok a ↦ (ok a, db') | err e ↦ (err e, db) ]
