-- ===== src/Runs.antt =====
-- execution_run.py and run_state.py: the rows of execution runs, and how the domain events change them.
pub mod Outcomes
pub mod Terminal
use project_os_agentic_agile.Base.{
  ℕ, String, append, Bool, true, false, ◌&&◌, not, List, [], ◌∷◌, Option, none, some, str_eq,
  if◌then◌else◌, update, coalesce, first_some, truthy, prefix, ◌++◌, is_some,
}
use project_os_agentic_agile.Store.Schema.{RunStatus, ExecutionRun, Db}
use project_os_agentic_agile.Store.NextActions.Backing.{get_execution_run, is_terminal_run}
use project_os_agentic_agile.Runs.Outcomes.{is_terminal_run_event, is_pm_terminal_run_event}

-- create_execution_run; `run_id` is the random id, which is the table's key.
abbrev pub new_run :
    (run_id : String) (now : ℕ) (project_id : String) (handoff_id : Option String)
    (request_type objective : String)
    → ExecutionRun
new_run run_id now project_id handoff_id request_type objective = record {
  run_id = run_id;
  project_id = project_id;
  handoff_id = handoff_id;
  request_type = request_type;
  objective = prefix 2000 objective;
  status = RunStatus.planning;
  current_phase = some "intake";
  current_agent = some "PM Agent";
  progress = 0;
  result_summary = none;
  evidence = none;
  started_at = some now;
  completed_at = none;
  created_at = now;
}

unfoldable pub create_execution_run :
    (run_id : String) (now : ℕ) (project_id : String) (handoff_id : Option String)
    (request_type objective : String)
    → Db
    → Db
create_execution_run run_id now project_id handoff_id request_type objective db = record db {
  runs = db.runs ++ new_run run_id now project_id handoff_id request_type objective ∷ [];
}

-- The arguments of update_execution_run; `evidence` is the JSON text of the dictionary.
pub record RunUpdate : Type 0 where
  pub status : Option RunStatus
  pub current_phase : Option String
  pub current_agent : Option String
  pub progress : Option ℕ
  pub result_summary : Option String
  pub evidence : Option String

abbrev pub completion : ℕ → Option RunStatus → Option ℕ → Option ℕ
completion now none completed_at = completed_at
completion now (some s) completed_at = if is_terminal_run s then some now else completed_at

abbrev pub shorten : ℕ → Option String → Option String
shorten n none = none
shorten n (some s) = some (prefix n s)

-- A column whose argument is None keeps its value.
abbrev pub updated_run : ℕ → RunUpdate → ExecutionRun → ExecutionRun
updated_run now u run = record run {
  status = coalesce u.status run.status;
  completed_at = completion now u.status run.completed_at;
  current_phase = first_some u.current_phase run.current_phase;
  current_agent = first_some u.current_agent run.current_agent;
  progress = coalesce u.progress run.progress;
  result_summary = first_some (shorten 4000 u.result_summary) run.result_summary;
  evidence = first_some (shorten 8000 u.evidence) run.evidence;
}

abbrev pub is_run : String → ExecutionRun → Bool
is_run run_id run = str_eq run.run_id run_id

unfoldable pub update_execution_run : (now : ℕ) → (run_id : String) → RunUpdate → Db → Db
update_execution_run now run_id u db = record db {
  runs = update (is_run run_id) (updated_run now u) db.runs;
}

-- An entry of the two dictionaries: the status or phase, the agent and the progress.
pub data Step (A : Type 0) : Type 0 where
  step : A → (agent : Option String) → (progress : ℕ) → Step A

-- _PM_TERMINAL_PROGRESSION: status, agent and progress.
abbrev pub pm_terminal_progression : List (String × Step RunStatus)
pm_terminal_progression =
    ("RUN_COMPLETED", step RunStatus.completed (some "pm-agent") 100)
    ∷ ("RUN_BLOCKED", step RunStatus.blocked none 85)
    ∷ ("RUN_ESCALATED", step RunStatus.escalated (some "pm-agent") 88)
    ∷ ("RUN_CANCELLED", step RunStatus.cancelled (some "pm-agent") 0)
    ∷ ("RUN_FAILED", step RunStatus.failed none 90)
    ∷ []

-- _OPERATIONAL_PROGRESSION: phase, agent and progress.
abbrev pub operational_progression : List (String × Step String)
operational_progression =
    ("HANDOFF_ACCEPTED", step "PLANNING" (some "pm-agent") 5)
    ∷ ("PM_PLAN_CREATED", step "PLANNING" (some "pm-agent") 15)
    ∷ ("PM_REPLAN", step "PLANNING" (some "pm-agent") 20)
    ∷ ("AGENT_ASSIGNED", step "RUNNING" none 25)
    ∷ ("WORK_STARTED", step "RUNNING" none 35)
    ∷ ("WORK_PROGRESS", step "RUNNING" none 50)
    ∷ ("WORK_COMPLETED", step "RUNNING" none 55)
    ∷ ("PACKAGE_STARTED", step "RUNNING" (some "delivery-agent") 55)
    ∷ ("PACKAGE_COMPLETED", step "RUNNING" (some "delivery-agent") 75)
    ∷ ("INSTALLER_BUILT", step "RUNNING" (some "delivery-agent") 80)
    ∷ ("INSTALLER_SIGNED", step "RUNNING" (some "delivery-agent") 85)
    ∷ ("QA_STARTED", step "RUNNING" (some "qa-agent") 45)
    ∷ ("QA_GATE_PASSED", step "RUNNING" (some "qa-agent") 50)
    ∷ ("QA_RETEST_STARTED", step "RUNNING" (some "qa-agent") 48)
    ∷ ("QA_GATE_FAILED", step "QA_GATE" (some "qa-agent") 40)
    ∷ ("REMEDIATION_REQUIRED", step "REMEDIATION" (some "pm-agent") 42)
    ∷ ("REMEDIATION_STARTED", step "REMEDIATION" none 45)
    ∷ ("PACKAGE_FAILED", step "PACKAGE_GATE" (some "delivery-agent") 65)
    ∷ ("PUBLICATION_FAILED", step "PUBLICATION_GATE" (some "release-agent") 88)
    ∷ ("WORK_FAILED", step "WORK" none 45)
    ∷ ("WORK_BLOCKED", step "WORK" none 45)
    ∷ ("RELEASE_PREPARATION_BLOCKED", step "RELEASE_PREPARATION" (some "delivery-agent") 60)
    ∷ ("CAPABILITY_GAP_DETECTED", step "CAPABILITY" (some "pm-agent") 55)
    ∷ ("RELEASE_PUBLISHED", step "RUNNING" (some "release-agent") 90)
    ∷ ("SPONSOR_DIRECTIVE_RECEIVED", step "RUNNING" (some "pm-agent") 30)
    ∷ ("PLAN_UPDATED", step "RUNNING" (some "pm-agent") 32)
    ∷ ("OPERATION_FAILED", step "execution_recovery" (some "pm-agent") 40)
    ∷ ("WAITING_FOR_SPONSOR", step "WAITING_FOR_SPONSOR" (some "pm-agent") 40)
    ∷ ("SPONSOR_DECISION_REQUIRED", step "WAITING_FOR_SPONSOR" (some "pm-agent") 40)
    ∷ []

module _ {ℓ} {A : Type ℓ} where
  abbrev pub look_up : String → List (String × A) → Option A
  look_up k [] = none
  look_up k ((j, a) ∷ rest) = if str_eq k j then some a else look_up k rest

-- The payload that emit_projectos_event passes on, whose key `phase` is never missing and which has no
-- key `event_type`; `evidence` is the JSON text of the dictionary.
pub record EventPayload : Type 0 where
  pub phase : String
  pub actor_id : String
  pub progress : Option ℕ
  pub summary : String
  pub evidence : Option String

-- status, phase, agent and progress, as the branches set them.
pub record Change : Type 0 where
  pub status : Option RunStatus
  pub phase : Option String
  pub agent : Option String
  pub progress : Option ℕ

abbrev pub payload_change : EventPayload → Change
payload_change p = record {
  status = none;
  phase = truthy (some p.phase);
  agent = truthy (some p.actor_id);
  progress = p.progress;
}

abbrev pub terminal_change : Change → Option (Step RunStatus) → Change
terminal_change c none = c
terminal_change c (some (step s agent progress)) = record c {
  status = some s;
  agent = first_some c.agent agent;
  progress = some (coalesce c.progress progress);
}

abbrev pub asks_sponsor : String → Bool
asks_sponsor event_type =
    if str_eq event_type "WAITING_FOR_SPONSOR"
    then true
    else str_eq event_type "SPONSOR_DECISION_REQUIRED"

abbrev pub operational_change : String → Change → Option (Step String) → Change
operational_change event_type c none = c
operational_change event_type c (some (step phase agent progress)) = record c {
  status = if asks_sponsor event_type then some RunStatus.waiting_for_sponsor else none;
  phase = some phase;
  agent = first_some c.agent agent;
  progress = some (coalesce c.progress progress);
}

unfoldable pub event_change : String → EventPayload → Change
event_change event_type p =
    if is_pm_terminal_run_event event_type
    then terminal_change (payload_change p) (look_up event_type pm_terminal_progression)
    else operational_change event_type (payload_change p)
        (look_up event_type operational_progression)

abbrev pub change_update : EventPayload → Change → RunUpdate
change_update p c = record {
  status = c.status;
  current_phase = shorten 120 c.phase;
  current_agent = shorten 80 c.agent;
  progress = c.progress;
  result_summary = truthy (some (prefix 4000 p.summary));
  evidence = p.evidence;
}

-- `is_terminal_run_status(run.status) and event_type not in TERMINAL_RUN_EVENTS`
abbrev pub is_ignored : RunStatus → String → Bool
is_ignored s event_type = is_terminal_run s && not (is_terminal_run_event event_type)

abbrev pub apply_to : ℕ → String → String → EventPayload → Option ExecutionRun → Db → Db
apply_to now run_id event_type p none db = db
apply_to now run_id event_type p (some run) db =
    if is_ignored run.status event_type
    then db
    else update_execution_run now run_id (change_update p (event_change event_type p)) db

unfoldable pub apply_event_to_run :
    (now : ℕ) → (run_id event_type : String) → EventPayload → Db → Db
apply_event_to_run now run_id event_type p db =
    if str_eq run_id ""
    then db
    else apply_to now run_id event_type p (get_execution_run run_id db) db
