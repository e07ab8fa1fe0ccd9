-- ===== src/Governance.antt =====
-- decisions.py, with the tables of governance decisions of store.py: what the Sponsor is asked, and what
-- an answer does. An exception undoes what its request wrote, so a function that raises answers `none`.
pub mod Texts
pub mod Sponsor
pub mod Opening
pub mod Answers
pub mod Inversion
pub mod Decided
pub mod Once
pub mod Effect
use project_os_agentic_agile.Base.{
  ℕ, String, Bool, true, false, ◌&&◌, ◌||◌, not, List, [], ◌∷◌, ◌++◌, Option, none, some, str_eq,
  if◌then◌else◌, find, update, coalesce, is_some, strip_text, truthy, any, first_some, ◌==◌, ◌*◌,
}
use project_os_agentic_agile.Store.Schema.{Job, Db, Message, is_terminal}
use project_os_agentic_agile.Store.Action.{Action, Result, ok, err}
use project_os_agentic_agile.Store.Rows.{get_job_by_human_id}
use project_os_agentic_agile.Store.Leases.{iso}
use project_os_agentic_agile.Store.Lifecycle.{mark_cancelled}
use project_os_agentic_agile.Store.Selection.{set_project_paused}
use project_os_agentic_agile.Governance.Sponsor.{set_job_sponsor_authority}
use project_os_agentic_agile.Governance.Texts.{require_safe_id, clean_text, clean_actor}

-- ACTIONS and TARGET_KINDS
pub data GovernedAction : Type 0 where
  sponsor_reserved release_approve cancel_job recover_salvage recover_reconcile governance_change :
      GovernedAction

pub data TargetKind : Type 0 where
  job release project no_target : TargetKind

abbrev pub action_named : String → Option GovernedAction
action_named key =
    if str_eq key "sponsor_reserved"
    then some GovernedAction.sponsor_reserved
    else if str_eq key "release_approve"
    then some GovernedAction.release_approve
    else if str_eq key "cancel_job"
    then some GovernedAction.cancel_job
    else if str_eq key "recover_salvage"
    then some GovernedAction.recover_salvage
    else if str_eq key "recover_reconcile"
    then some GovernedAction.recover_reconcile
    else if str_eq key "governance_change"
    then some GovernedAction.governance_change
    else none

abbrev pub kind_named : String → Option TargetKind
kind_named key =
    if str_eq key "job"
    then some TargetKind.job
    else if str_eq key "release"
    then some TargetKind.release
    else if str_eq key "project"
    then some TargetKind.project
    else if str_eq key "none"
    then some TargetKind.no_target
    else none

abbrev pub action_code : GovernedAction → ℕ
action_code GovernedAction.sponsor_reserved = 0
action_code GovernedAction.release_approve = 1
action_code GovernedAction.cancel_job = 2
action_code GovernedAction.recover_salvage = 3
action_code GovernedAction.recover_reconcile = 4
action_code GovernedAction.governance_change = 5

pub data DecisionStatus : Type 0 where
  is_open approved rejected : DecisionStatus

abbrev pub is_open_status : DecisionStatus → Bool
is_open_status DecisionStatus.is_open = true
is_open_status _ = false

-- The text of `execution_result`, by what it names.
pub data Execution : Type 0 where
  reservation_granted : Execution
  cancelled release_granted : (job_human_id : String) → Execution
  paused : (project_human_id : String) → Execution
  recovery_authorized : GovernedAction → (target_human_id : Option String) → Execution

pub record Decision : Type 0 where
  pub decision_human_id : String
  pub project_human_id : String
  pub action : GovernedAction
  pub target_kind : TargetKind
  pub target_human_id : Option String
  pub reason : String
  pub impact : String
  pub requested_by : String
  pub status : DecisionStatus
  pub decided_by : Option String
  pub decision_reason : Option String
  pub execution_result : Option Execution
  pub created_at : ℕ
  pub updated_at : ℕ
  pub decided_at : Option ℕ

pub data DecisionEventType : Type 0 where
  opened was_approved was_executed was_rejected : DecisionEventType

-- The column `reason`: a text, or the result of the execution.
pub data Note : Type 0 where
  because : String → Note
  executed : Execution → Note

pub record DecisionEvent : Type 0 where
  pub project_human_id : String
  pub decision_human_id : String
  pub event_type : DecisionEventType
  pub actor : String
  pub reason : Note
  pub created_at : ℕ

-- The tables; decisions and their events stand in the order of insertion.
pub record Governance : Type 0 where
  pub db : Db
  pub decisions : List Decision
  pub events : List DecisionEvent

infixl 5 ◌>>=◌
abbrev pub ◌>>=◌ : {A B : Type 0} → Option A → (A → Option B) → Option B
none >>= f = none
some a >>= f = f a

-- `if not c: raise`.
abbrev pub check : Bool → Option (Unit {0})
check true = some tt
check false = none

abbrev pub is_decision : String → Decision → Bool
is_decision hid d = str_eq d.decision_human_id hid

abbrev pub is_decision_of : String → String → Decision → Bool
is_decision_of pid hid d = str_eq d.project_human_id pid && is_decision hid d

abbrev pub is_of_project : String → Option Decision → Bool
is_of_project pid none = true
is_of_project pid (some d) = str_eq d.project_human_id pid

-- The inner `none` is the answer None.
unfoldable pub get_governance_decision :
    (project_human_id decision_human_id : String) → Governance → Option (Option Decision)
get_governance_decision project_human_id decision_human_id g = do
  pid ← require_safe_id project_human_id
  hid ← require_safe_id decision_human_id
  _ ← check (is_of_project pid (find (is_decision hid) g.decisions))
  some (find (is_decision_of pid hid) g.decisions)

unfoldable pub append_governance_decision_event :
    (now : ℕ)
    → (project_human_id decision_human_id : String) → DecisionEventType
    → (actor : String) → Note
    → Governance
    → Governance
append_governance_decision_event now pid hid event_type actor reason g = record g {
  events =
      g.events
      ++ record {
        project_human_id = pid;
        decision_human_id = hid;
        event_type = event_type;
        actor = actor;
        reason = reason;
        created_at = iso now;
      }
        ∷ [];
}

abbrev pub decided :
    ℕ → DecisionStatus → (actor reason : String) → Option Execution → Decision → Decision
decided now status actor reason result d = record d {
  status = status;
  decided_by = some actor;
  decision_reason = some reason;
  execution_result = result;
  decided_at = some (iso now);
  updated_at = iso now;
}

-- The UPDATE; the row is read again afterwards, which finds it.
unfoldable pub update_governance_decision :
    (now : ℕ)
    → (project_human_id decision_human_id : String) → DecisionStatus
    → (decided_by decision_reason : String) → Option Execution
    → Governance
    → Governance
update_governance_decision now pid hid status actor reason result g = record g {
  decisions = update (is_decision_of pid hid) (decided now status actor reason result) g.decisions;
}

abbrev pub belongs_to : String → Option Job → Option Job
belongs_to pid none = none
belongs_to pid (some j) = if str_eq j.project_human_id pid then some j else none

unfoldable pub require_target_job :
    (project_human_id job_human_id : String) → Governance → Option Job
require_target_job pid job_human_id g =
    belongs_to pid (find (λ j. str_eq j.human_id job_human_id) g.db.jobs)
