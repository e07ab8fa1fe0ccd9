-- ===== src/Governance/Opening.antt =====
-- decisions.py: open_decision, by which something is put to the Sponsor.
use project_os_agentic_agile.Base.{
  ℕ, String, Bool, true, false, ◌&&◌, ◌||◌, not, List, [], ◌∷◌, ◌++◌, Option, none, some, str_eq,
  if◌then◌else◌, coalesce, is_some, strip_text, truthy, any, first_some, ◌==◌, ◌*◌,
}
use project_os_agentic_agile.Store.Leases.{iso}
use project_os_agentic_agile.Governance.{
  GovernedAction, TargetKind, action_named, kind_named, action_code, DecisionStatus, is_open_status,
  Decision, opened, because, Governance, ◌>>=◌, check, is_decision,
  append_governance_decision_event, require_target_job,
}
use project_os_agentic_agile.Governance.Texts.{require_safe_id, clean_text, clean_actor}

abbrev pub as_text : Option String → String
as_text none = ""
as_text (some s) = s

-- find_open_governance_decision: the last row that fits.
abbrev pub is_pending_request : String → GovernedAction → Option String → Decision → Bool
is_pending_request pid action target d =
    str_eq d.project_human_id pid
    && (action_code d.action == action_code action)
    && is_open_status d.status
    && str_eq (as_text d.target_human_id) (as_text target)

abbrev pub find_last : {A : Type 0} → (A → Bool) → List A → Option A
find_last p [] = none
find_last p (x ∷ xs) = first_some (find_last p xs) (if p x then some x else none)

-- The test of `action` in the set of those that name a job: on the text as it was given.
abbrev pub names_job : String → Bool
names_job action =
    str_eq action "cancel_job"
    || str_eq action "release_approve"
    || str_eq action "recover_salvage"
    || str_eq action "recover_reconcile"

abbrev pub is_job_kind : TargetKind → Bool
is_job_kind TargetKind.job = true
is_job_kind TargetKind.release = true
is_job_kind _ = false

abbrev pub is_project_kind : TargetKind → Bool
is_project_kind TargetKind.project = true
is_project_kind TargetKind.no_target = true
is_project_kind _ = false

-- `if target_human_id:`
abbrev pub safe_target : Option String → Option (Option String)
safe_target none = some none
safe_target (some t) = do hid ← require_safe_id t; some (some hid)

abbrev pub check_job : TargetKind → String → Option String → Governance → Option (Unit {0})
check_job kind pid target g = do
  _ ← check (is_job_kind kind && is_some target)
  _ ← require_target_job pid (as_text target) g
  some tt

unfoldable pub check_target :
    (action : String)
    → TargetKind
    → (project_human_id : String) → (target : Option String) → Governance
    → Option (Unit {0})
check_target action kind pid target g =
    if names_job action
    then check_job kind pid target g
    else check (not (str_eq action "governance_change") || is_project_kind kind)

-- insert_governance_decision, whose id is UNIQUE.
unfoldable pub insert_governance_decision : Decision → Governance → Option Governance
insert_governance_decision d g = do
  _ ← check (not (any (is_decision d.decision_human_id) g.decisions))
  some (
      append_governance_decision_event (d.created_at * 1000000) d.project_human_id
        d.decision_human_id opened d.requested_by (because d.reason)
        (record g { decisions = g.decisions ++ d ∷ [] }))

-- A new row, of what the caller was asked to put to the Sponsor.
unfoldable pub put_decision :
    (now : ℕ)
    → (fresh pid : String) → GovernedAction
    → TargetKind
    → (target : Option String) → (reason impact requested_by : String) → Governance
    → Option (Decision × Governance)
put_decision now fresh pid key kind target reason impact requested_by g = do
  why ← clean_text reason
  what ← clean_text impact
  who ← clean_actor requested_by
  let d : Decision = record {
    decision_human_id = fresh;
    project_human_id = pid;
    action = key;
    target_kind = kind;
    target_human_id = target;
    reason = why;
    impact = what;
    requested_by = who;
    status = DecisionStatus.is_open;
    decided_by = none;
    decision_reason = none;
    execution_result = none;
    created_at = iso now;
    updated_at = iso now;
    decided_at = none;
  }
  after ← insert_governance_decision d g
  some (d, after)

abbrev pub existing_or :
    Governance → Option Decision → Option (Decision × Governance) → Option (Decision × Governance)
existing_or g (some existing) new = some (existing, g)
existing_or g none new = new

-- `fresh` is the random id of the decision, which is safe.
unfoldable pub open_decision :
    (now : ℕ)
    → (fresh project_human_id action reason impact requested_by target_kind : String)
    → (target_human_id : Option String) → Governance
    → Option (Decision × Governance)
open_decision now fresh project_human_id action reason impact requested_by target_kind
      target_human_id g =
    do
      pid ← require_safe_id project_human_id
      key ← action_named (strip_text action)
      kind ← kind_named (strip_text (coalesce (truthy (some target_kind)) "none"))
      target ← safe_target (truthy target_human_id)
      _ ← check_target action kind pid target g
      existing_or g (find_last (is_pending_request pid key target) g.decisions)
          (put_decision now fresh pid key kind target reason impact requested_by g)
