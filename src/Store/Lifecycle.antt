-- ===== src/Store/Lifecycle.antt =====
-- store.py: the operations that move a job from one status to another. `now`, `read` and `later`
-- are readings of the clock in the order in which the operation makes them.
pub mod Failure
pub mod Retry
pub mod Ends
use project_os_agentic_agile.Base.{
  ℕ, ◌+◌, ◌-◌, ◌*◌, String, Bool, true, false, not, ◌&&◌, List, [], ◌∷◌, Option, none, some, ◌==◌,
  ltb, leb, if◌then◌else◌, coalesce, first_some, truthy, min,
}
use project_os_agentic_agile.Store.Schema.{Job, JobStatus, Message, Payload, is_active, same_status}
use project_os_agentic_agile.Store.Action.{
  Action, ◌>>=◌, ◌>>◌, pure, raise, require, job_not_found, expected_retry_wait, retry_in_future,
  expected_blocked, expected_leased, expected_active,
}
use project_os_agentic_agile.Store.Rows.{
  has_id, row_to_job, get_job_by_human_id, append_run_event, update_jobs, update_leases,
}
use project_os_agentic_agile.Store.Leases.{
  iso, parse_iso, is_open_for, release_lease, recover_expired_leases,
}
use project_os_agentic_agile.Store.NextActions.Reconcile.{sync_next_actions_for_terminal_job}

-- WHERE id = ? AND status = ?
abbrev pub has_id_in : ℕ → JobStatus → Job → Bool
has_id_in id s j = has_id id j && same_status j.status s

abbrev pub start_job : ℕ → Job → Job
start_job at j = record j { status = JobStatus.running; started_at = some at; updated_at = at }

unfoldable pub mark_running : (now : ℕ) → ℕ → Action Job
mark_running now job_id = do
  n ← update_jobs (has_id_in job_id JobStatus.leased) (start_job (iso now))
  require (n == 1) expected_leased
  append_run_event job_id "job.running" (some JobStatus.running) none none
  row_to_job job_id

-- The test of `retry_at` against the clock.
abbrev pub retry_is_due : ℕ → Option ℕ → Bool
retry_is_due moment none = true
retry_is_due moment (some at) = not (ltb moment (parse_iso at))

abbrev pub promote_retry : ℕ → Job → Job
promote_retry at j = record j {
  status = JobStatus.ready;
  ready_at = some at;
  updated_at = at;
  last_error = none;
  retry_at = none;
}

unfoldable pub promote_retry_wait_to_ready : (moment : ℕ) → ℕ → (reason : String) → Action Job
promote_retry_wait_to_ready moment job_id reason = do
  job ← row_to_job job_id
  require (same_status job.status JobStatus.retry_wait) expected_retry_wait
  require (retry_is_due moment job.retry_at) retry_in_future
  n ← update_jobs (has_id_in job_id JobStatus.retry_wait) (promote_retry (iso moment))
  require (n == 1) expected_retry_wait
  append_run_event job_id "job.promoted_ready" (some JobStatus.ready) (some (Message.text reason))
      none
  row_to_job job_id

abbrev pub promote_queued : ℕ → Job → Job
promote_queued at j = record j {
  status = JobStatus.ready;
  ready_at = some (coalesce j.ready_at at);
  updated_at = at;
  last_error = none;
}

unfoldable pub promote_queued_to_ready : (now : ℕ) → ℕ → (reason : String) → Action Job
promote_queued_to_ready now job_id reason = do
  job ← row_to_job job_id
  if not (same_status job.status JobStatus.queued) then pure job else do
    update_jobs (has_id_in job_id JobStatus.queued) (promote_queued (iso now))
    append_run_event job_id "job.promoted_ready" (some JobStatus.ready) (some (Message.text reason))
        (some (Payload.previous_status JobStatus.queued))
    row_to_job job_id

abbrev pub block_job : ℕ → Message → Job → Job
block_job at error j = record j {
  status = JobStatus.blocked;
  last_error = some error;
  completed_at = some at;
  updated_at = at;
  started_at = none;
}

-- The end that four operations share: the UPDATE, the event, the release of the lease, the row.
unfoldable pub end_job :
    ℕ
    → (Job → Job)
    → String
    → JobStatus
    → Message
    → Option Payload
    → (later : ℕ) → Message
    → Action Job
end_job job_id f event_type status message payload later reason = do
  update_jobs (has_id job_id) f
  append_run_event job_id event_type (some status) (some message) payload
  release_lease later job_id reason
  row_to_job job_id

unfoldable pub mark_blocked : (now later : ℕ) → ℕ → (error release_reason : Message) → Action Job
mark_blocked now later job_id error release_reason =
    end_job job_id (block_job (iso now) error) "job.blocked" JobStatus.blocked error none later
      release_reason

abbrev pub unblock_job : ℕ → Job → Job
unblock_job at j = record j {
  status = JobStatus.ready;
  ready_at = some at;
  completed_at = none;
  started_at = none;
  last_error = none;
  updated_at = at;
}

unfoldable pub mark_ready_from_blocked : (now : ℕ) → ℕ → (reason : String) → Action Job
mark_ready_from_blocked now job_id reason = do
  job ← row_to_job job_id
  require (same_status job.status JobStatus.blocked) expected_blocked
  update_jobs (has_id_in job_id JobStatus.blocked) (unblock_job (iso now))
  append_run_event job_id "job.revalidated_ready" (some JobStatus.ready)
      (some (Message.text reason)) (some (Payload.revalidated job))
  row_to_job job_id

abbrev pub succeed_job : ℕ → Option String → Option String → Option String → Job → Job
succeed_job at output_ref candidate_git_sha outcome j = record j {
  status = JobStatus.succeeded;
  output_ref = output_ref;
  candidate_git_sha = first_some candidate_git_sha j.candidate_git_sha;
  outcome = first_some outcome j.outcome;
  completed_at = some at;
  updated_at = at;
  last_error = none;
}

abbrev pub outcome_payload : Option String → Option Payload
outcome_payload none = none
outcome_payload (some o) = some (Payload.outcome_of o)

unfoldable pub mark_succeeded :
    (now later sync_at : ℕ)
    → (fresh : String) → ℕ
    → (output_ref candidate_git_sha outcome : Option String) → Action Job
mark_succeeded now later sync_at fresh job_id output_ref candidate_git_sha outcome = do
  updated ←
      end_job job_id (succeed_job (iso now) output_ref candidate_git_sha outcome) "job.succeeded"
        JobStatus.succeeded (Message.text "Worker task completed (not QA/release acceptance)")
        (outcome_payload (truthy outcome)) later (Message.text "succeeded")
  sync_next_actions_for_terminal_job fresh sync_at updated
  pure updated

abbrev pub cancel_job : ℕ → String → Job → Job
cancel_job at reason j = record j {
  status = JobStatus.cancelled;
  last_error = some (Message.text reason);
  completed_at = some at;
  updated_at = at;
}

unfoldable pub mark_cancelled : (now later : ℕ) → ℕ → (reason : String) → Action Job
mark_cancelled now later job_id reason =
    end_job job_id (cancel_job (iso now) reason) "job.cancelled" JobStatus.cancelled
      (Message.text reason) none later (Message.text "cancelled")

-- The status of a failed job, and the seconds that it waits for its next attempt.
abbrev pub failure_status : Bool → (attempt max_attempts : ℕ) → JobStatus
failure_status blocked attempt max_attempts =
    if blocked
    then JobStatus.blocked
    else if leb max_attempts attempt
    then JobStatus.failed
    else JobStatus.retry_wait

abbrev pub retry_delay : ℕ → ℕ
retry_delay attempt = min (30 * attempt) 300

abbrev pub failure_retry_at : JobStatus → (read attempt : ℕ) → Option ℕ
failure_retry_at status read attempt =
    if same_status status JobStatus.retry_wait
    then some (iso (read + retry_delay attempt * 1000000))
    else none

abbrev pub fail_job : (at read : ℕ) → Message → Option String → Bool → Job → Job → Job
fail_job at read error output_ref blocked job j =
    let attempt = job.attempt + 1 in
    let status = failure_status blocked attempt job.max_attempts in
    record j {
      status = status;
      attempt = attempt;
      last_error = some error;
      output_ref = first_some output_ref j.output_ref;
      completed_at = if same_status status JobStatus.retry_wait then j.completed_at else some at;
      updated_at = at;
      retry_at = failure_retry_at status read attempt;
    }

abbrev pub failure_event : JobStatus → String
failure_event status =
    if same_status status JobStatus.retry_wait then "job.retry_wait" else "job.failed"

unfoldable pub mark_failure :
    (now read later sync_at : ℕ)
    → (fresh : String) → ℕ
    → (error : Message) → (output_ref : Option String) → (blocked : Bool) → Action Job
mark_failure now read later sync_at fresh job_id error output_ref blocked = do
  job ← row_to_job job_id
  let attempt = job.attempt + 1
  let status = failure_status blocked attempt job.max_attempts
  updated ←
      end_job job_id (fail_job (iso now) read error output_ref blocked job) (failure_event status)
        status error (some (Payload.attempts attempt job.max_attempts)) later
        (Message.failure status)
  sync_next_actions_for_terminal_job fresh sync_at updated
  pure updated

abbrev pub includes : ℕ → List ℕ → Bool
includes i [] = false
includes i (j ∷ js) = if j == i then true else includes i js

unfoldable pub found_job : Option Job → Action Job
found_job none = raise job_not_found
found_job (some j) = pure j

-- `read` is the reading for the time past, `recovery` that of `recover_expired_leases`.
unfoldable pub reclaim_interrupted_running_job :
    (read recovery : ℕ)
    → (now next later sync_at : ℕ) → (fresh : String) → (job_human_id : String) → (reason : String)
    → Action Job
reclaim_interrupted_running_job read recovery now next later sync_at fresh job_human_id reason = do
  found ← get_job_by_human_id job_human_id
  job ← found_job found
  require (is_active job.status) expected_active
  update_leases (is_open_for job.id) (λ l. record l { expires_at = iso (read - 5000000) })
  append_run_event job.id "lease.reclaim_requested" (some job.status) (some (Message.text reason))
      (some (Payload.previous_status job.status))
  recovered ← recover_expired_leases recovery none
  if includes job.id recovered then row_to_job job.id else do
    release_lease now job.id (Message.text "reclaim_interrupted")
    mark_failure now next later sync_at fresh job.id (Message.text reason) none false
