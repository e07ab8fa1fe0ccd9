-- ===== src/Runs/Outcomes.antt =====
-- run_outcomes.py: the outcomes of a run, their events and statuses, and the texts that name them.
use project_os_agentic_agile.Base.{
  ℕ, String, Bool, true, false, ◌||◌, List, [], ◌∷◌, Option, none, some, str_eq, if◌then◌else◌, any,
  codes, same_codes, strip, upper,
}
use project_os_agentic_agile.Store.Schema.{RunStatus}

pub data RunOutcome : Type 0 where
  success sponsor_decision_required unrecoverable_technical max_remediation_exceeded
        cancelled_by_sponsor :
      RunOutcome

-- The texts of the categories, and the statuses that are read as outcomes.
abbrev pub outcome_names : List (String × RunOutcome)
outcome_names =
    ("SUCCESS", RunOutcome.success)
    ∷ ("SPONSOR_DECISION_REQUIRED", RunOutcome.sponsor_decision_required)
    ∷ ("UNRECOVERABLE_TECHNICAL_CONDITION", RunOutcome.unrecoverable_technical)
    ∷ ("MAX_REMEDIATION_POLICY_EXCEEDED", RunOutcome.max_remediation_exceeded)
    ∷ ("CANCELLED_BY_SPONSOR", RunOutcome.cancelled_by_sponsor)
    ∷ []

abbrev pub legacy_outcomes : List (String × RunOutcome)
legacy_outcomes =
    ("COMPLETED", RunOutcome.success)
    ∷ ("BLOCKED", RunOutcome.unrecoverable_technical)
    ∷ ("FAILED", RunOutcome.unrecoverable_technical)
    ∷ ("CANCELLED", RunOutcome.cancelled_by_sponsor)
    ∷ ("ESCALATED", RunOutcome.max_remediation_exceeded)
    ∷ []

abbrev pub find_outcome : List ℕ → List (String × RunOutcome) → Option RunOutcome
find_outcome key [] = none
find_outcome key ((name, o) ∷ rest) =
    if same_codes key (codes name) then some o else find_outcome key rest

abbrev pub or_legacy : List ℕ → Option RunOutcome → Option RunOutcome
or_legacy key none = find_outcome key legacy_outcomes
or_legacy key (some o) = some o

-- `none` stands for the ValueError.
unfoldable pub resolve_outcome : String → Option RunOutcome
resolve_outcome outcome =
    let key = upper (strip (codes outcome)) in or_legacy key (find_outcome key outcome_names)

abbrev pub event_of : RunOutcome → String
event_of RunOutcome.success = "RUN_COMPLETED"
event_of RunOutcome.sponsor_decision_required = "WAITING_FOR_SPONSOR"
event_of RunOutcome.unrecoverable_technical = "RUN_BLOCKED"
event_of RunOutcome.max_remediation_exceeded = "RUN_ESCALATED"
event_of RunOutcome.cancelled_by_sponsor = "RUN_CANCELLED"

abbrev pub status_of : RunOutcome → RunStatus
status_of RunOutcome.success = RunStatus.completed
status_of RunOutcome.sponsor_decision_required = RunStatus.waiting_for_sponsor
status_of RunOutcome.unrecoverable_technical = RunStatus.blocked
status_of RunOutcome.max_remediation_exceeded = RunStatus.escalated
status_of RunOutcome.cancelled_by_sponsor = RunStatus.cancelled

abbrev pub ends_run : RunOutcome → Bool
ends_run RunOutcome.sponsor_decision_required = false
ends_run _ = true

unfoldable pub event_for_outcome : String → Option String
event_for_outcome outcome = elim (resolve_outcome outcome) [
  | none ↦ none
  | some o ↦ some (event_of o)
]

unfoldable pub run_status_for_outcome : String → Option RunStatus
run_status_for_outcome outcome = elim (resolve_outcome outcome) [
  | none ↦ none
  | some o ↦ some (status_of o)
]

unfoldable pub is_terminal_outcome : String → Option Bool
is_terminal_outcome outcome = elim (resolve_outcome outcome) [
  | none ↦ none
  | some o ↦ some (ends_run o)
]

-- TERMINAL_RUN_EVENTS
abbrev pub terminal_run_events : List String
terminal_run_events = "RUN_COMPLETED" ∷ "RUN_BLOCKED" ∷ "RUN_ESCALATED" ∷ "RUN_CANCELLED" ∷ []

-- OPERATIONAL_EVIDENCE_EVENTS
abbrev pub operational_evidence_events : List String
operational_evidence_events =
    "QA_GATE_FAILED" ∷ "QA_FINDING_CREATED" ∷ "PACKAGE_FAILED" ∷ "PUBLICATION_FAILED"
    ∷ "WORK_FAILED" ∷ "WORK_BLOCKED" ∷ "RELEASE_PREPARATION_BLOCKED" ∷ "DELIVERY_BLOCKED"
    ∷ "RELEASE_BLOCKED" ∷ "CAPABILITY_GAP_DETECTED" ∷ "DELIVERY_CONTRACT_MISSING"
    ∷ "REMEDIATION_REQUIRED" ∷ "REMEDIATION_LIMIT_REACHED" ∷ "OPERATION_FAILED" ∷ []

unfoldable pub is_terminal_run_event : String → Bool
is_terminal_run_event event_type = any (λ e. str_eq event_type e) terminal_run_events

-- PM_TERMINAL_RUN_EVENTS has RUN_FAILED too.
unfoldable pub is_pm_terminal_run_event : String → Bool
unfolding is_terminal_run_event
is_pm_terminal_run_event event_type =
    is_terminal_run_event event_type || str_eq event_type "RUN_FAILED"

unfoldable pub is_operational_evidence_event : String → Bool
is_operational_evidence_event event_type =
    any (λ e. str_eq event_type e) operational_evidence_events

unfoldable pub normalize_waiting_status : RunStatus → RunStatus
normalize_waiting_status RunStatus.waiting_approval = RunStatus.waiting_for_sponsor
normalize_waiting_status s = s
