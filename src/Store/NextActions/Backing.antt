-- ===== src/Store/NextActions/Backing.antt =====
-- run_next_actions.py: the checks of what backs an action, and the action that is persisted. The table
-- is that of migrations/031, so `ensure_run_next_actions_table` changes nothing. An argument `fresh` is
-- the text that `_new_action_id` draws.
use project_os_agentic_agile.Base.{
  ℕ, String, Bool, true, false, not, ◌&&◌, ◌||◌, [], ◌∷◌, ◌++◌, Option, none, some, str_eq,
  if◌then◌else◌, find, any, truthy, is_some, is_none,
}
use project_os_agentic_agile.Store.Schema.{
  Job, JobStatus, Db, ExecutionRun, RunStatus, Work, ActionType, ActionStatus, NextAction,
  is_terminal, same_status,
}
use project_os_agentic_agile.Store.Action.{
  Action, ok, err, ◌>>=◌, ◌>>◌, pure, raise, gets, require, integrity, action_without_run,
  action_without_work, action_work_missing, action_run_mismatch, action_job_missing,
  action_without_job, action_job_terminal, action_without_sha, action_not_scheduled,
}
use project_os_agentic_agile.Store.Rows.{find_job}
use project_os_agentic_agile.Store.Leases.{iso}

abbrev pub get_execution_run : String → Db → Option ExecutionRun
get_execution_run run_id db = find (λ r. str_eq r.run_id run_id) db.runs

abbrev pub find_work : String → Db → Option Work
find_work work_id db = find (λ w. str_eq w.work_item_id work_id) db.works

-- _EXECUTABLE_JOB
abbrev pub is_executable : JobStatus → Bool
is_executable JobStatus.ready = true
is_executable JobStatus.leased = true
is_executable JobStatus.running = true
is_executable JobStatus.queued = true
is_executable JobStatus.retry_wait = true
is_executable _ = false

-- _TERMINAL_WORK
abbrev pub is_terminal_work : String → Bool
is_terminal_work s =
    str_eq s "SUCCEEDED"
    || (str_eq s "FAILED" || (str_eq s "CANCELLED" || (str_eq s "BLOCKED" || str_eq s "COMPLETED")))

-- TERMINAL_RUN_STATUSES of run_outcomes.py.
abbrev pub is_terminal_run : RunStatus → Bool
is_terminal_run RunStatus.completed = true
is_terminal_run RunStatus.blocked = true
is_terminal_run RunStatus.escalated = true
is_terminal_run RunStatus.cancelled = true
is_terminal_run RunStatus.failed = true
is_terminal_run _ = false

abbrev pub is_waiting_for_sponsor : RunStatus → Bool
is_waiting_for_sponsor RunStatus.waiting_for_sponsor = true
is_waiting_for_sponsor _ = false

-- Not `job["run_id"] and str(job["run_id"]) != str(run_id)`.
abbrev pub job_in_run : String → Job → Bool
job_in_run run_id j = elim (truthy j.run_id) [ none ↦ true | some r ↦ str_eq r run_id ]

unfoldable pub found_backing : Option Job → Action Job
found_backing none = raise action_job_missing
found_backing (some j) = pure j

unfoldable pub require_job : Option ℕ → Action Job
require_job none db = (err action_without_job, db)
require_job (some id) db = found_backing (find_job id db) db

unfoldable pub validate_job : String → Option ℕ → Action Job
validate_job run_id job_id = do
  j ← require_job job_id
  require (job_in_run run_id j) action_run_mismatch
  require (not (is_terminal j.status)) action_job_terminal
  pure j

unfoldable pub validate_work_row : String → Option Work → Action (Unit {0})
validate_work_row run_id none = raise action_work_missing
validate_work_row run_id (some w) = require (str_eq w.run_id run_id) action_run_mismatch

unfoldable pub validate_work : String → Option String → Action (Unit {0})
validate_work run_id none db = (err action_without_work, db)
validate_work run_id (some work_id) db = validate_work_row run_id (find_work work_id db) db

unfoldable pub validate_work_job : String → Option ℕ → Action (Unit {0})
validate_work_job run_id none = pure tt
validate_work_job run_id (some id) = do
  j ← require_job (some id)
  require (job_in_run run_id j) action_run_mismatch

-- _validate_action_backing, after the run was found: one clause for each action type.
unfoldable pub validate_backing :
    ActionType → ExecutionRun → String → Option ℕ → Option String → Option ℕ → Action (Unit {0})
validate_backing ActionType.remediation_work run run_id job_id work_id due_at = do
  validate_work run_id (truthy work_id)
  validate_work_job run_id job_id
validate_backing ActionType.active_assessment run run_id job_id work_id due_at = do
  j ← validate_job run_id job_id
  require (is_some (truthy j.source_candidate_sha)) action_without_sha
validate_backing ActionType.pm_queue run run_id job_id work_id due_at =
    if is_none job_id && is_waiting_for_sponsor run.status
    then pure tt
    else do validate_job run_id job_id; pure tt
validate_backing ActionType.scheduled_retry run run_id job_id work_id due_at = do
  j ← validate_job run_id job_id
  require (same_status j.status JobStatus.retry_wait || is_some due_at) action_not_scheduled
validate_backing ActionType.executable_job run run_id job_id work_id due_at = do
  validate_job run_id job_id
  pure tt

unfoldable pub validate_run :
    Option ExecutionRun → (ExecutionRun → Action (Unit {0})) → Action (Unit {0})
validate_run none k db = (err action_without_run, db)
validate_run (some run) k db = k run db

unfoldable pub validate_action_backing :
    ActionType → String → Option ℕ → Option String → Option ℕ → Action (Unit {0})
validate_action_backing action_type run_id job_id work_id due_at db =
    validate_run (get_execution_run run_id db)
      (λ run. validate_backing action_type run run_id job_id work_id due_at) db

-- The row that `persist_run_next_action` inserts.
abbrev pub new_action :
    String
    → ℕ
    → String
    → String
    → ActionType
    → Option ℕ
    → Option String
    → Option ℕ
    → Bool
    → NextAction
new_action fresh now run_id project_id action_type job_id work_id due_at sponsor_wait = record {
  action_id = fresh;
  run_id = run_id;
  project_id = project_id;
  action_type = action_type;
  status = ActionStatus.pending;
  orchestration_job_id = job_id;
  remediation_work_id = work_id;
  due_at = due_at;
  sponsor_wait = sponsor_wait;
  created_at = iso now;
  updated_at = iso now;
}

-- The INSERT, which PRIMARY KEY (action_id) refuses.
unfoldable pub insert_unless : Bool → NextAction → Action String
insert_unless true a db = (err integrity, db)
insert_unless false a db = (ok a.action_id, record db { actions = db.actions ++ a ∷ [] })

unfoldable pub insert_action : NextAction → Action String
insert_action a = do
  taken ← gets (λ db. any (λ b. str_eq b.action_id a.action_id) db.actions)
  insert_unless taken a

unfoldable pub persist_run_next_action :
    String
    → ℕ
    → String
    → String
    → ActionType
    → Option ℕ
    → Option String
    → Option ℕ
    → Bool
    → Action String
persist_run_next_action fresh now run_id project_id action_type job_id work_id due_at sponsor_wait =
    do
      validate_action_backing action_type run_id job_id work_id due_at
      insert_action
          (new_action fresh now run_id project_id action_type job_id work_id due_at sponsor_wait)

-- Opening these opens the checks of an action's backing, and all the operations.
unfoldable pub backing_checks : Unit {0}
unfolding ◌>>=◌ found_backing require_job validate_job validate_work_row validate_work
    validate_work_job validate_backing validate_run validate_action_backing
backing_checks = tt
