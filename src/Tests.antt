-- ===== src/Tests.antt =====
-- Scenarios: a small database, a sequence of operations on it, and each result at concrete input.
mod Selection
mod NextActions
mod Outbox
mod Runs
mod Requests
mod Delivery
mod Governance
mod Quality
mod Budget
use project_os_agentic_agile.Base.{
  suc, String, List, [], ◌∷◌, ◌&&◌, not, none, some, ◌≡◌, refl, inl, true, false, In, arith, length,
  ◌↔◌,
}
use project_os_agentic_agile.Store.Schema.{
  Job, Lease, Db, Message, RunStatus, ExecutionRun, ActionType, NextAction, empty, JobStatus,
  job_status, is_active,
}
use project_os_agentic_agile.Store.Action.{Result, ok, err, not_ready, retry_in_future}
use project_os_agentic_agile.Store.Rows.{find_job, row_actions}
use project_os_agentic_agile.Store.Leases.{
  iso, new_lease, insert_lease, claim_ready, acquire_lease, recover_row, recover_rows,
  recover_expired_leases, list_expired_lease_job_ids,
}
use project_os_agentic_agile.Store.Lifecycle.{
  mark_failure, promote_retry_wait_to_ready, mark_succeeded, mark_cancelled, mark_blocked,
}
use project_os_agentic_agile.Store.Lifecycle.Ends.{EndsIn, end_job-EndsIn}
use project_os_agentic_agile.Store.Lifecycle.Retry.{
  Outcome, mark_failure-policy, promote-after_failure_refused, promote-after_failure,
}
use project_os_agentic_agile.Store.Creation.{
  NewJob, new_row, insert_row, insert_job, check_snapshot, assert_create_job_isolation, create_with,
  create_job,
}
use project_os_agentic_agile.Store.Selection.{
  satisfied, dependencies_satisfied, is_candidate, first_satisfied, select_ready_job, runs_before,
  list_job_dependencies, list_dependent_job_ids, list_eligible_ready_jobs, is_eligible_row,
}
use project_os_agentic_agile.Store.Selection.Dependents.{
  list_job_dependencies-list_dependent_job_ids,
}
use project_os_agentic_agile.Store.Selection.Choice.{select_ready_job-first}
use project_os_agentic_agile.Store.Selection.Eligible.{
  AllRunnable, WithinLimit, list_eligible_ready_jobs-runnable,
}
use project_os_agentic_agile.Store.NextActions.Backing.{
  persist_run_next_action, insert_action, insert_unless, backing_checks,
}
use project_os_agentic_agile.Store.NextActions.Liveness.{list_active_next_actions}
use project_os_agentic_agile.Store.NextActions.Persisted.{persist_run_next_action-listed}
use project_os_agentic_agile.Store.NextActions.Reconcile.{reconcile_run_next_actions}
use project_os_agentic_agile.Store.NextActions.Reconciled.{
  HasLive, is_taken, reconcile_run_next_actions-live,
}
use project_os_agentic_agile.Store.Operations.{
  Operation, create, recover, start, depend, apply, apply_all,
}
use project_os_agentic_agile.Store.Consistency.{IsConsistent}
use project_os_agentic_agile.Store.Consistency.Updates.{has_open, is_active_id}
use project_os_agentic_agile.Store.Operations.Consistent.{
  apply_all-IsConsistent, empty-IsConsistent,
}
use project_os_agentic_agile.Store.Isolation.{IsIsolated}
use project_os_agentic_agile.Store.Isolation.Preserved.{apply_all-IsIsolated, empty-IsIsolated}
use project_os_agentic_agile.Store.Recovery.Effect.{
  lists, recover_expired_leases-ends_listed, recover_expired_leases-leaves,
}
use project_os_agentic_agile.Store.Recovery.Exclusive.{acquire_lease-excludes}

-- Paths that name themselves.
abbrev as_written : String → String
as_written s = s

abbrev new_job : String → String → NewJob
new_job human_id status = record {
  human_id = human_id;
  project_human_id = "PRJ-1";
  repository_root = "/repo";
  agent_role = "developer";
  queue = "implementation";
  status = status;
  priority = 50;
  attempt = 0;
  max_attempts = 3;
  iteration_human_id = none;
  work_item_type = none;
  work_item_human_id = none;
  worktree_name = none;
  worktree_path = none;
  base_git_sha = none;
  requires_worktree = false;
  identity_snapshot = none;
  assignment = none;
  allows_no_change = false;
  run_id = none;
  retry_at = none;
}

abbrev two_jobs : List Operation
two_jobs =
    create 1000000 (new_job "JOB-1" "READY")
    ∷ create 2000000 (new_job "JOB-2" "QUEUED")
    ∷ depend 2 1
    ∷ start 3000000 1
    ∷ recover 4000000 none
    ∷ []

starts_ready : (s : JobStatus) → job_status "READY" ≡ some s → is_active s ≡ false
unfolding job_status
starts_ready s e = let q : s ≡ JobStatus.ready = cc in rw q refl

starts_queued : (s : JobStatus) → job_status "QUEUED" ≡ some s → is_active s ≡ false
unfolding job_status
starts_queued s e = let q : s ≡ JobStatus.queued = cc in rw q refl

apply_all-IsConsistent_example : IsConsistent (apply_all as_written two_jobs empty)
apply_all-IsConsistent_example =
    apply_all-IsConsistent as_written two_jobs empty
      (starts_ready, (starts_queued, (tt, (tt, (tt, tt))))) empty-IsConsistent

-- Opening this opens the operations that the scenarios run.
unfoldable steps : Unit {0}
unfolding row_actions apply apply_all create_job create_with assert_create_job_isolation
    check_snapshot insert_job insert_row job_status acquire_lease claim_ready insert_lease
    recover_expired_leases recover_rows recover_row list_expired_lease_job_ids satisfied
    dependencies_satisfied first_satisfied select_ready_job
steps = tt

abbrev tables : Db
tables = apply_all as_written two_jobs empty

tables-IsIsolated : IsIsolated as_written tables
tables-IsIsolated = apply_all-IsIsolated as_written two_jobs empty (empty-IsIsolated as_written)

apply_all-IsIsolated_example : IsIsolated as_written (apply_all as_written two_jobs empty)
apply_all-IsIsolated_example =
    apply_all-IsIsolated as_written two_jobs empty (empty-IsIsolated as_written)

abbrev first_job : Job
first_job = new_row 1 (iso 1000000) JobStatus.ready (new_job "JOB-1" "READY")

abbrev one_job : Db
one_job = apply_all as_written (create 1000000 (new_job "JOB-1" "READY") ∷ []) empty

one_job-IsConsistent : IsConsistent one_job
one_job-IsConsistent =
    apply_all-IsConsistent as_written (create 1000000 (new_job "JOB-1" "READY") ∷ []) empty
      (starts_ready, tt) empty-IsConsistent

-- A lease of 60 seconds given at 2 s, and a rival at 30 s.
abbrev leased : Result Lease × Db
leased = acquire_lease first_job "worker-1" 60 2000000 2000000 one_job

abbrev given : Lease
given = new_lease 1 1 "worker-1" (iso 2000000) (iso 62000000)

leased-ok : leased.0 ≡ ok given
unfolding steps
leased-ok = refl

acquire_lease-excludes_example :
    (acquire_lease first_job "worker-2" 60 30000000 30000000 leased.1).0 ≡ err not_ready
acquire_lease-excludes_example =
    acquire_lease-excludes first_job first_job "worker-1" "worker-2" 60 60 2000000 2000000 30000000
      30000000 one_job given one_job-IsConsistent refl leased-ok refl refl

recover_expired_leases-ends_listed_example :
    ((recover_expired_leases 90000000 none leased.1).0
      ≡ (list_expired_lease_job_ids 90000000 none leased.1).0)
    × (is_active_id 1 (recover_expired_leases 90000000 none leased.1).1.jobs ≡ (
        is_active_id 1 leased.1.jobs
        && not (lists 1 (list_expired_lease_job_ids 90000000 none leased.1).0)))
recover_expired_leases-ends_listed_example =
    recover_expired_leases-ends_listed 90000000 none leased.1 1

not_listed_yet : lists 1 (list_expired_lease_job_ids 30000000 none leased.1).0 ≡ false
unfolding steps
not_listed_yet = refl

recover_expired_leases-leaves_example :
    find_job 1 (recover_expired_leases 30000000 none leased.1).1 ≡ find_job 1 leased.1
recover_expired_leases-leaves_example =
    recover_expired_leases-leaves 30000000 none leased.1 1 not_listed_yet

first_found : find_job 1 one_job ≡ some first_job
unfolding steps
first_found = refl

mark_failure-policy_example :
    (i : Job) × (let (r, after) =
        mark_failure 5000000 5000000 5000000 5000000 "RNA-1" 1
          (Message.text "tests failed")
          none
          false
          one_job in
      (r ≡ ok i)
      × (find_job 1 after ≡ some i)
      × (has_open 1 after.leases ≡ false)
      × (i.attempt ≡ suc first_job.attempt)
      × Outcome false 5000000 first_job i)
mark_failure-policy_example =
    mark_failure-policy 5000000 5000000 5000000 5000000 "RNA-1" 1 (Message.text "tests failed") none
      false one_job first_job first_found

abbrev failed : Db
failed =
    (mark_failure 5000000 5000000 5000000 5000000 "RNA-1" 1 (Message.text "tests failed") none false
      one_job).1

promote-after_failure_refused_example :
    (promote_retry_wait_to_ready 34999999 1 "due" failed).0 ≡ err retry_in_future
promote-after_failure_refused_example =
    promote-after_failure_refused 5000000 5000000 5000000 5000000 "RNA-1" 1
      (Message.text "tests failed") none one_job first_job 34999999 "due" first_found (omega arith)
      refl

promote-after_failure_example :
    (i : Job) × ((promote_retry_wait_to_ready 35000000 1 "due" failed).0 ≡ ok i)
    × (i.status ≡ JobStatus.ready)
    × (i.attempt ≡ suc first_job.attempt)
    × (i.retry_at ≡ none)
    × (i.last_error ≡ none)
promote-after_failure_example =
    promote-after_failure 5000000 5000000 5000000 5000000 "RNA-1" 1 (Message.text "tests failed")
      none one_job first_job 35000000 "due" one_job-IsConsistent first_found (omega arith) refl

end_job-EndsIn_example :
    EndsIn 1 JobStatus.succeeded
      (iso 5000000)
      first_job
      (mark_succeeded 5000000 5000000 5000000 "RNA-1" 1 none (some "abc123") none one_job)
    × EndsIn 1 JobStatus.cancelled
        (iso 5000000)
        first_job
        (mark_cancelled 5000000 5000000 1 "no longer needed" one_job)
    × EndsIn 1 JobStatus.blocked
        (iso 5000000)
        first_job
        (mark_blocked 5000000 5000000 1 (Message.text "no base") (Message.text "blocked") one_job)
end_job-EndsIn_example =
    end_job-EndsIn 5000000 5000000 5000000 "RNA-1" 1 none (some "abc123") none "no longer needed"
      (Message.text "no base") (Message.text "blocked") one_job first_job first_found
