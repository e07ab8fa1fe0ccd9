-- ===== src/Store/Operations.antt =====
-- The operations of the orchestration store as one type, and any sequence of them: what the daemon,
-- the workers and the PM agent make of the database, in whatever order. An operation that raises
-- leaves what it had written, as inside one transaction.
pub mod Consistent
use project_os_agentic_agile.Base.{ℕ, String, Bool, List, [], ◌∷◌, Option, none, some, ◌≡◌, false}
use project_os_agentic_agile.Store.Schema.{Job, JobStatus, Db, Message, job_status, is_active}
use project_os_agentic_agile.Store.Leases.{recover_expired_leases, acquire_lease}
use project_os_agentic_agile.Store.Lifecycle.{
  mark_running, promote_retry_wait_to_ready, promote_queued_to_ready, mark_blocked,
  mark_ready_from_blocked, mark_succeeded, mark_cancelled, mark_failure,
}
use project_os_agentic_agile.Store.Creation.{
  NewJob, create_job, add_job_dependency, update_job_worktree, set_job_outcome, set_job_assignment,
  set_job_source_provenance,
}

pub data Operation : Type 0 where
  create : (now : ℕ) → NewJob → Operation
  acquire : Job → String → (lease_seconds recovery moment : ℕ) → Operation
  recover : (moment : ℕ) → Option String → Operation
  start : (now job_id : ℕ) → Operation
  promote_retry promote_queued unblock : (now job_id : ℕ) → (reason : String) → Operation
  block : (now later job_id : ℕ) → (error reason : Message) → Operation
  cancel : (now later job_id : ℕ) → (reason : String) → Operation
  succeed :
      (now later sync_at : ℕ)
      → (fresh : String) → (job_id : ℕ) → (output_ref candidate_git_sha outcome : Option String)
      → Operation
  fail :
      (now read later sync_at : ℕ)
      → (fresh : String) → (job_id : ℕ) → (error : Message) → (output_ref : Option String)
      → (blocked : Bool) → Operation
  depend : (job_id depends_on_job_id : ℕ) → Operation
  place : (now job_id : ℕ) → (name path : String) → Option String → Operation
  settle : (now job_id : ℕ) → String → Option ℕ → Operation
  assign : (now job_id : ℕ) → String → Operation
  trace : (now job_id : ℕ) → Option ℕ → Option String → Operation

module _ (root_key : String → String) where
  unfoldable pub apply : Operation → Db → Db
  apply (create now n) db = (create_job root_key now n db).1
  apply (acquire job worker seconds recovery moment) db =
      (acquire_lease job worker seconds recovery moment db).1
  apply (recover moment project) db = (recover_expired_leases moment project db).1
  apply (start now k) db = (mark_running now k db).1
  apply (promote_retry now k reason) db = (promote_retry_wait_to_ready now k reason db).1
  apply (promote_queued now k reason) db = (promote_queued_to_ready now k reason db).1
  apply (unblock now k reason) db = (mark_ready_from_blocked now k reason db).1
  apply (block now later k error reason) db = (mark_blocked now later k error reason db).1
  apply (cancel now later k reason) db = (mark_cancelled now later k reason db).1
  apply (succeed now later sync_at fresh k output sha outcome) db =
      (mark_succeeded now later sync_at fresh k output sha outcome db).1
  apply (fail now read later sync_at fresh k error output blocked) db =
      (mark_failure now read later sync_at fresh k error output blocked db).1
  apply (depend i d) db = (add_job_dependency i d db).1
  apply (place now k name path sha) db = (update_job_worktree now k name path sha db).1
  apply (settle now k outcome by) db = (set_job_outcome now k outcome by db).1
  apply (assign now k assignment) db = (set_job_assignment now k assignment db).1
  apply (trace now k source sha) db = (set_job_source_provenance now k source sha db).1

  unfoldable pub apply_all : List Operation → Db → Db
  apply_all [] db = db
  apply_all (o ∷ os) db = apply_all os (apply o db)

-- A job is created in no status that a lease goes with.
abbrev pub IsAllowed : Operation → Type 0
IsAllowed (create now n) = (s : JobStatus) → job_status n.status ≡ some s → is_active s ≡ false
IsAllowed _ = Unit

abbrev pub AllAllowed : List Operation → Type 0
AllAllowed [] = Unit
AllAllowed (o ∷ os) = IsAllowed o × AllAllowed os
