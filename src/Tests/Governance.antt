-- ===== src/Tests/Governance.antt =====
-- A decision at concrete input: a job's cancellation is asked for, approved, and answered again.
use project_os_agentic_agile.Base.{true, List, [], ◌∷◌, none, some, ◌≡◌, refl, find, coalesce}
use project_os_agentic_agile.Store.Leases.{release_lease}
use project_os_agentic_agile.Store.Lifecycle.{mark_cancelled, end_job}
use project_os_agentic_agile.Tests.{one_job, one_job-IsConsistent, steps}
use project_os_agentic_agile.Governance.{
  GovernedAction, TargetKind, DecisionStatus, Decision, Governance, is_decision,
  get_governance_decision, update_governance_decision, append_governance_decision_event,
  require_target_job,
}
use project_os_agentic_agile.Governance.Texts.{require_safe_id, is_safe_id, clean_text, clean_actor}
use project_os_agentic_agile.Governance.Answers.{require_open, approve_decision, execute}
use project_os_agentic_agile.Governance.Once.{
  Request, opens, approves, rejects, apply_requests, apply_requests-find,
}
use project_os_agentic_agile.Governance.Effect.{IsCancelled, approve_decision-IsCancelled}

abbrev asked : Decision
asked = record {
  decision_human_id = "DEC-1";
  project_human_id = "PRJ-1";
  action = GovernedAction.cancel_job;
  target_kind = TargetKind.job;
  target_human_id = some "JOB-1";
  reason = "no longer needed";
  impact = "the job ends";
  requested_by = "pm";
  status = DecisionStatus.is_open;
  decided_by = none;
  decision_reason = none;
  execution_result = none;
  created_at = 1;
  updated_at = 1;
  decided_at = none;
}

abbrev waiting : Governance
waiting = record { db = one_job; decisions = asked ∷ []; events = [] }

abbrev refused : Decision
refused = record asked {
  status = DecisionStatus.rejected;
  decided_by = some "sponsor";
  decision_reason = some "keep it";
  decided_at = some 2;
  updated_at = 2;
}

abbrev told : Governance
told = record waiting { decisions = refused ∷ [] }

abbrev again : List Request
again =
    approves 3000000 3000000 "PRJ-1" "DEC-1" true "sponsor" "after all"
    ∷ opens 4000000 "DEC-2" "PRJ-1" "cancel_job" "again" "the job ends" "pm" "job" (some "JOB-1")
    ∷ rejects 5000000 "PRJ-1" "DEC-2" true "sponsor" "no"
    ∷ []

apply_requests-find_example :
    find (is_decision "DEC-1") (apply_requests again told).decisions ≡ some refused
apply_requests-find_example = apply_requests-find "DEC-1" refused again told refl refl

open_found : require_open "PRJ-1" "DEC-1" waiting ≡ some asked
unfolding require_open get_governance_decision require_safe_id is_safe_id
open_found = refl

abbrev approved_tables : Governance
approved_tables =
    coalesce
      (approve_decision 5000000 5000000 "PRJ-1" "DEC-1" true "sponsor" "no longer needed" waiting)
      waiting

answered :
    approve_decision 5000000 5000000 "PRJ-1" "DEC-1" true "sponsor" "no longer needed" waiting
    ≡ some approved_tables
unfolding steps approve_decision execute require_target_job require_open get_governance_decision
    require_safe_id is_safe_id clean_actor clean_text update_governance_decision
    append_governance_decision_event mark_cancelled end_job release_lease
answered = refl

approve_decision-IsCancelled_example : (true ≡ true) × IsCancelled asked one_job approved_tables.db
approve_decision-IsCancelled_example =
    approve_decision-IsCancelled 5000000 5000000 "PRJ-1" "DEC-1" true "sponsor" "no longer needed"
      asked waiting approved_tables open_found refl one_job-IsConsistent answered
