-- ===== src/Store/Schema.antt =====
-- The tables behind src/projectos/store.py, run_next_actions.py and execution_run.py (their columns
-- are those of migrations/), one record for a row and one for the database.
-- A stored time is a number of seconds, and the clock counts microseconds. A JSON column is the
-- value that was encoded, and a message is a value in place of its wording.
use project_os_agentic_agile.Base.{
  ℕ, String, Bool, true, false, List, [], Option, none, ◌≡◌, ◌==◌, str_eq, if◌then◌else◌, some,
  arith, ◌↔◌,
}

pub data JobStatus : Type 0 where
  queued ready leased running succeeded failed blocked retry_wait cancelled : JobStatus

abbrev pub status_code : JobStatus → ℕ
status_code JobStatus.queued = 0
status_code JobStatus.ready = 1
status_code JobStatus.leased = 2
status_code JobStatus.running = 3
status_code JobStatus.succeeded = 4
status_code JobStatus.failed = 5
status_code JobStatus.blocked = 6
status_code JobStatus.retry_wait = 7
status_code JobStatus.cancelled = 8

-- Two statuses are the same text.
abbrev pub same_status : JobStatus → JobStatus → Bool
same_status a b = status_code a == status_code b

-- JOB_STATUSES, as the statuses that a text names.
unfoldable pub job_status : String → Option JobStatus
job_status s =
    if str_eq s "QUEUED"
    then some JobStatus.queued
    else if str_eq s "READY"
    then some JobStatus.ready
    else if str_eq s "LEASED"
    then some JobStatus.leased
    else if str_eq s "RUNNING"
    then some JobStatus.running
    else if str_eq s "SUCCEEDED"
    then some JobStatus.succeeded
    else if str_eq s "FAILED"
    then some JobStatus.failed
    else if str_eq s "BLOCKED"
    then some JobStatus.blocked
    else if str_eq s "RETRY_WAIT"
    then some JobStatus.retry_wait
    else if str_eq s "CANCELLED"
    then some JobStatus.cancelled
    else none

-- ACTIVE_WORKTREE_STATUSES.
abbrev pub is_active : JobStatus → Bool
is_active JobStatus.leased = true
is_active JobStatus.running = true
is_active _ = false

-- TERMINAL_STATUSES of store.py, and _TERMINAL_JOB of run_next_actions.py.
abbrev pub is_terminal : JobStatus → Bool
is_terminal JobStatus.succeeded = true
is_terminal JobStatus.failed = true
is_terminal JobStatus.blocked = true
is_terminal JobStatus.cancelled = true
is_terminal _ = false

-- The texts that the store writes into `last_error` and into events.
pub data Message : Type 0 where
  text : String → Message
  lease_acquired_by : String → Message
  expired_before_start : Message
  expired_exhausted expired_retry : (attempt max_attempts : ℕ) → Message
  failure : JobStatus → Message

-- `identity_snapshot`: the two keys that the store reads, and the others as they were encoded.
pub record Snapshot : Type 0 where
  pub project_human_id : Option String
  pub repository_root : Option String
  pub others : String

pub record Job : Type 0 where
  pub id : ℕ
  pub human_id : String
  pub project_human_id : String
  pub repository_root : String
  pub iteration_human_id : Option String
  pub work_item_type : Option String
  pub work_item_human_id : Option String
  pub agent_role : String
  pub queue : String
  pub status : JobStatus
  pub priority : ℕ
  pub attempt : ℕ
  pub max_attempts : ℕ
  pub worktree_name : Option String
  pub worktree_path : Option String
  pub base_git_sha : Option String
  pub candidate_git_sha : Option String
  pub requires_worktree : Bool
  pub identity_snapshot : Option Snapshot
  pub output_ref : Option String
  pub last_error : Option Message
  pub created_at : ℕ
  pub ready_at : Option ℕ
  pub started_at : Option ℕ
  pub completed_at : Option ℕ
  pub updated_at : ℕ
  pub source_delivery_job_id : Option ℕ
  pub source_candidate_sha : Option String
  pub sponsor_authority : Option String
  pub outcome : Option String
  pub superseded_by_job_id : Option ℕ
  pub assignment : Option String
  pub allows_no_change : Bool
  pub run_id : Option String
  pub retry_at : Option ℕ

pub record Lease : Type 0 where
  pub id : ℕ
  pub job_id : ℕ
  pub worker_id : String
  pub leased_at : ℕ
  pub expires_at : ℕ
  pub released_at : Option ℕ
  pub release_reason : Option Message

pub data Payload : Type 0 where
  recovered : JobStatus → (attempt max_attempts : ℕ) → Payload
  previous_status : JobStatus → Payload
  lease_until : (expires_at lease_seconds : ℕ) → Payload
  outcome_of : String → Payload
  attempts : (attempt max_attempts : ℕ) → Payload
  revalidated : Job → Payload

pub record RunEvent : Type 0 where
  pub job_id : ℕ
  pub event_type : String
  pub status : Option JobStatus
  pub message : Option Message
  pub payload : Option Payload

pub record Dependency : Type 0 where
  pub job_id : ℕ
  pub depends_on_job_id : ℕ

pub record Control : Type 0 where
  pub project_human_id : String
  pub paused : Bool
  pub paused_reason : Option String
  pub updated_at : Option ℕ

-- RUN_STATUSES of execution_run.py, with the CHECK of migrations/026.
pub data RunStatus : Type 0 where
  planning waiting_approval waiting_for_sponsor running blocked failed completed cancelled
        escalated :
      RunStatus

pub record ExecutionRun : Type 0 where
  pub run_id : String
  pub project_id : String
  pub handoff_id : Option String
  pub request_type : String
  pub objective : String
  pub status : RunStatus
  pub current_phase : Option String
  pub current_agent : Option String
  pub progress : ℕ
  pub result_summary : Option String
  pub evidence : Option String
  pub started_at : Option ℕ
  pub completed_at : Option ℕ
  pub created_at : ℕ

-- The columns of `remediation_work` that the store's modules read.
pub record Work : Type 0 where
  pub work_item_id : String
  pub run_id : String
  pub status : String

pub data ActionType : Type 0 where
  executable_job scheduled_retry remediation_work active_assessment pm_queue : ActionType

pub data ActionStatus : Type 0 where
  pending claimed completed cancelled : ActionStatus

-- `status IN ('pending', 'claimed')`.
abbrev pub is_open : ActionStatus → Bool
is_open ActionStatus.pending = true
is_open ActionStatus.claimed = true
is_open _ = false

-- A row of `run_next_actions`; of its payload, whether `sponsor_wait` is true.
pub record NextAction : Type 0 where
  pub action_id : String
  pub run_id : String
  pub project_id : String
  pub action_type : ActionType
  pub status : ActionStatus
  pub orchestration_job_id : Option ℕ
  pub remediation_work_id : Option String
  pub due_at : Option ℕ
  pub sponsor_wait : Bool
  pub created_at : ℕ
  pub updated_at : ℕ

-- `job_seq` and `lease_seq` are the last ids that AUTOINCREMENT gave.
pub record Db : Type 0 where
  pub jobs : List Job
  pub leases : List Lease
  pub events : List RunEvent
  pub dependencies : List Dependency
  pub controls : List Control
  pub runs : List ExecutionRun
  pub works : List Work
  pub actions : List NextAction
  pub job_seq : ℕ
  pub lease_seq : ℕ

abbrev pub empty : Db
empty = record {
  jobs = [];
  leases = [];
  events = [];
  dependencies = [];
  controls = [];
  runs = [];
  works = [];
  actions = [];
  job_seq = 0;
  lease_seq = 0;
}

pub same_status_iff : (a b : JobStatus) → (same_status a b ≡ true) ↔ (a ≡ b)
same_status_iff a b = ground arith
