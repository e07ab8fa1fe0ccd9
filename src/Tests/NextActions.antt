-- ===== src/Tests/NextActions.antt =====
-- The next actions of a run at concrete input.
use project_os_agentic_agile.Base.{List, [], ◌∷◌, none, some, ◌≡◌, refl, inl, false, In}
use project_os_agentic_agile.Store.Schema.{
  Job, Db, RunStatus, ExecutionRun, ActionType, NextAction, empty, JobStatus,
}
use project_os_agentic_agile.Store.Action.{ok}
use project_os_agentic_agile.Store.Leases.{iso}
use project_os_agentic_agile.Store.Creation.{NewJob, new_row}
use project_os_agentic_agile.Store.NextActions.Backing.{
  persist_run_next_action, insert_action, insert_unless, backing_checks,
}
use project_os_agentic_agile.Store.NextActions.Liveness.{list_active_next_actions}
use project_os_agentic_agile.Store.NextActions.Persisted.{persist_run_next_action-listed}
use project_os_agentic_agile.Store.NextActions.Reconcile.{reconcile_run_next_actions}
use project_os_agentic_agile.Store.NextActions.Reconciled.{
  HasLive, is_taken, reconcile_run_next_actions-live,
}
use project_os_agentic_agile.Store.Operations.{create, apply_all}
use project_os_agentic_agile.Store.Consistency.{IsConsistent}
use project_os_agentic_agile.Store.Operations.Consistent.{
  apply_all-IsConsistent, empty-IsConsistent,
}
use project_os_agentic_agile.Tests.{as_written, new_job, starts_ready, steps, one_job}

abbrev the_run : ExecutionRun
the_run = record {
  run_id = "RUN-1";
  project_id = "PRJ-1";
  handoff_id = none;
  request_type = "implement";
  objective = "a feature";
  status = RunStatus.running;
  current_phase = none;
  current_agent = none;
  progress = 0;
  result_summary = none;
  evidence = none;
  started_at = none;
  completed_at = none;
  created_at = 1;
}

abbrev with_run : Db
with_run = record one_job { runs = the_run ∷ [] }

accepted :
    (persist_run_next_action "RNA-1" 5000000 "RUN-1" "PRJ-1" ActionType.executable_job
      (some 1)
      none
      none
      false
      with_run).0
    ≡ ok "RNA-1"
unfolding steps persist_run_next_action insert_action insert_unless backing_checks
accepted = refl

persist_run_next_action-listed_example :
    (rows : List NextAction) × (row : NextAction) × ((list_active_next_actions "RUN-1"
        (persist_run_next_action "RNA-1" 5000000 "RUN-1" "PRJ-1" ActionType.executable_job
          (some 1)
          none
          none
          false
          with_run).1).0
      ≡ ok rows)
    × In row rows
    × (row.action_id ≡ "RNA-1")
    × (row.action_type ≡ ActionType.executable_job)
    × (row.orchestration_job_id ≡ some 1)
persist_run_next_action-listed_example =
    persist_run_next_action-listed ActionType.executable_job "RNA-1" 5000000 "RUN-1" "PRJ-1" 1 none
      false with_run "RNA-1" refl accepted

-- A job of the run, and no action yet.
abbrev run_job : NewJob
run_job = record (new_job "JOB-1" "READY") { run_id = some "RUN-1" }

abbrev created : Db
created = apply_all as_written (create 1000000 run_job ∷ []) empty

abbrev run_tables : Db
run_tables = record created { runs = the_run ∷ [] }

run_tables-IsConsistent : IsConsistent run_tables
run_tables-IsConsistent =
    let c =
      apply_all-IsConsistent as_written (create 1000000 run_job ∷ []) empty (starts_ready, tt)
        empty-IsConsistent in
    record {
      held = c.held;
      job_unique = c.job_unique;
      job_fresh = c.job_fresh;
      lease_unique = c.lease_unique;
      lease_fresh = c.lease_fresh;
    }

abbrev job_of_run : Job
job_of_run = new_row 1 (iso 1000000) JobStatus.ready run_job

run_job_listed : In job_of_run run_tables.jobs
unfolding steps
run_job_listed = inl refl

free_id : is_taken "RNA-1" run_tables.actions ≡ false
unfolding steps
free_id = refl

reconcile_run_next_actions-live_example :
    HasLive "RUN-1" (reconcile_run_next_actions "RNA-1" 5000000 "RUN-1" "PRJ-1" run_tables).1
reconcile_run_next_actions-live_example =
    reconcile_run_next_actions-live "RNA-1" 5000000 "RUN-1" "PRJ-1" the_run job_of_run run_tables
      run_tables-IsConsistent refl refl run_job_listed refl refl free_id
