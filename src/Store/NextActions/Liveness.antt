-- ===== src/Store/NextActions/Liveness.antt =====
-- run_next_actions.py: which actions are live.
use project_os_agentic_agile.Base.{
  String, Bool, true, false, not, ◌&&◌, ◌||◌, List, Option, none, some, leb, str_eq, select, truthy,
  order_by,
}
use project_os_agentic_agile.Store.Schema.{
  Job, JobStatus, Db, ExecutionRun, Work, ActionType, NextAction, is_terminal, same_status, is_open,
}
use project_os_agentic_agile.Store.Action.{Action, ok}
use project_os_agentic_agile.Store.Rows.{find_job}
use project_os_agentic_agile.Store.NextActions.Backing.{
  get_execution_run, find_work, is_executable, is_terminal_work, is_waiting_for_sponsor, job_in_run,
}

abbrev pub is_pm_queue : ActionType → Bool
is_pm_queue ActionType.pm_queue = true
is_pm_queue _ = false

-- The types whose action stands on a job, and the tests that each makes of the job's status.
abbrev pub needs_job : ActionType → Bool
needs_job ActionType.remediation_work = false
needs_job _ = true

abbrev pub status_fits : ActionType → JobStatus → Bool
status_fits ActionType.active_assessment s = is_executable s
status_fits ActionType.scheduled_retry s =
    same_status s JobStatus.retry_wait
    || (same_status s JobStatus.ready
        || (same_status s JobStatus.leased || same_status s JobStatus.running))
status_fits _ s = true

abbrev pub waits_for_sponsor : Option ExecutionRun → NextAction → Bool
waits_for_sponsor none a = false
waits_for_sponsor (some run) a =
    is_pm_queue a.action_type && (a.sponsor_wait && is_waiting_for_sponsor run.status)

abbrev pub job_row_live : NextAction → Option Job → Bool
job_row_live a none = false
job_row_live a (some j) =
    job_in_run a.run_id j && (not (is_terminal j.status) && status_fits a.action_type j.status)

abbrev pub job_live : Db → NextAction → Bool
job_live db a = elim a.orchestration_job_id [
  | none ↦ not (needs_job a.action_type)
  | some id ↦ job_row_live a (find_job id db)
]

abbrev pub work_row_live : NextAction → Option Work → Bool
work_row_live a none = false
work_row_live a (some w) = str_eq w.run_id a.run_id && not (is_terminal_work w.status)

abbrev pub work_live : Db → NextAction → Bool
work_live db a = elim (truthy a.remediation_work_id) [
  | none ↦ needs_job a.action_type
  | some id ↦ work_row_live a (find_work id db)
]

-- _next_action_is_live
unfoldable pub next_action_is_live : Db → NextAction → Bool
next_action_is_live db a =
    waits_for_sponsor (get_execution_run a.run_id db) a || (job_live db a && work_live db a)

unfoldable pub list_active_next_actions : String → Action (List NextAction)
list_active_next_actions run_id db = (
  ok (
      select (next_action_is_live db) (
        order_by (λ a b. leb a.created_at b.created_at)
          (select (λ a. str_eq a.run_id run_id && is_open a.status) db.actions))),
  db,
)
