-- ===== src/Governance/Answers.antt =====
-- decisions.py: the Sponsor's approval and rejection, and what an approval carries out.
use project_os_agentic_agile.Base.{ℕ, String, Bool, true, not, Option, none, some, str_eq, coalesce}
use project_os_agentic_agile.Store.Schema.{Db, is_terminal}
use project_os_agentic_agile.Store.Action.{Result, ok, err}
use project_os_agentic_agile.Store.Lifecycle.{mark_cancelled}
use project_os_agentic_agile.Store.Selection.{set_project_paused}
use project_os_agentic_agile.Governance.{
  GovernedAction, DecisionStatus, is_open_status, Execution, reservation_granted, cancelled,
  release_granted, paused, recovery_authorized, Decision, was_approved, was_executed, was_rejected,
  because, executed, Governance, ◌>>=◌, check, get_governance_decision,
  append_governance_decision_event, update_governance_decision, require_target_job,
}
use project_os_agentic_agile.Governance.Texts.{clean_text, clean_actor}
use project_os_agentic_agile.Governance.Sponsor.{set_job_sponsor_authority}

-- An action of the store on the database, whose exception goes on.
abbrev pub returned : {A : Type 0} → Governance → Result A × Db → Option (A × Governance)
returned g (ok a, db) = some (a, record g { db = db })
returned g (err e, db) = none

-- The branches of _apply_approved_action; a decision without a target has the target "None".
unfoldable pub execute :
    GovernedAction
    → (now later : ℕ) → Decision
    → (reason : String) → Governance
    → Option (Execution × Governance)
execute GovernedAction.sponsor_reserved now later d reason g = some (reservation_granted, g)
execute GovernedAction.cancel_job now later d reason g = do
  j ← require_target_job d.project_human_id (coalesce d.target_human_id "None") g
  _ ← check (not (is_terminal j.status))
  (_, after) ← returned g (mark_cancelled now later j.id reason g.db)
  some (cancelled j.human_id, after)
execute GovernedAction.release_approve now later d reason g = do
  j ← require_target_job d.project_human_id (coalesce d.target_human_id "None") g
  _ ← check (str_eq j.queue "RELEASE")
  (_, after) ← returned g (set_job_sponsor_authority now j.id "approved" g.db)
  some (release_granted j.human_id, after)
execute GovernedAction.governance_change now later d reason g = do
  (_, after) ← returned g (set_project_paused now d.project_human_id true (some reason) g.db)
  some (paused d.project_human_id, after)
execute GovernedAction.recover_salvage now later d reason g =
    some (recovery_authorized GovernedAction.recover_salvage d.target_human_id, g)
execute GovernedAction.recover_reconcile now later d reason g =
    some (recovery_authorized GovernedAction.recover_reconcile d.target_human_id, g)

abbrev pub apply_approved_action :
    (now later : ℕ) → Decision → (reason : String) → Governance → Option (Execution × Governance)
apply_approved_action now later d reason g = execute d.action now later d reason g

-- The decision, which must be there and open.
unfoldable pub require_open :
    (project_human_id decision_human_id : String) → Governance → Option Decision
require_open project_human_id decision_human_id g = do
  found ← get_governance_decision project_human_id decision_human_id g
  d ← found
  _ ← check (is_open_status d.status)
  some d

unfoldable pub approve_decision :
    (now later : ℕ)
    → (project_human_id decision_human_id : String) → (confirmed : Bool) → (actor reason : String)
    → Governance
    → Option Governance
approve_decision now later project_human_id decision_human_id confirmed actor reason g = do
  _ ← check confirmed
  by ← clean_actor actor
  why ← clean_text reason
  d ← require_open project_human_id decision_human_id g
  (outcome, after) ← apply_approved_action now later d why g
  let pid = d.project_human_id
  let hid = d.decision_human_id
  let told =
      update_governance_decision later pid hid DecisionStatus.approved by why (some outcome) after
  some (
      append_governance_decision_event later pid hid was_executed by (executed outcome)
        (append_governance_decision_event later pid hid was_approved by (because why) told))

unfoldable pub reject_decision :
    (now : ℕ)
    → (project_human_id decision_human_id : String) → (confirmed : Bool) → (actor reason : String)
    → Governance
    → Option Governance
reject_decision now project_human_id decision_human_id confirmed actor reason g = do
  _ ← check confirmed
  by ← clean_actor actor
  why ← clean_text reason
  d ← require_open project_human_id decision_human_id g
  some (
      append_governance_decision_event now d.project_human_id d.decision_human_id was_rejected by
        (because why)
        (update_governance_decision now d.project_human_id d.decision_human_id
          DecisionStatus.rejected by why none g))
