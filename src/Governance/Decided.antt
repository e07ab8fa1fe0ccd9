-- ===== src/Governance/Decided.antt =====
-- A decision that was approved or rejected: no answer to any decision changes it.
use project_os_agentic_agile.Base.{
  ℕ, String, Bool, true, false, not, Option, none, some, ◌≡◌, refl, sym, ◌∙◌, inl, inr, str_eq,
  eq_iff, find, find-In, find-update, coalesce, arith, Bool-cases,
}
use project_os_agentic_agile.Store.Schema.{Db, Job, is_terminal}
use project_os_agentic_agile.Store.Action.{Result, ok, err}
use project_os_agentic_agile.Store.Lifecycle.{mark_cancelled}
use project_os_agentic_agile.Store.Selection.{set_project_paused}
use project_os_agentic_agile.Governance.{
  GovernedAction, DecisionStatus, is_open_status, Execution, paused, cancelled, release_granted,
  Decision, Governance, ◌>>=◌, check, is_decision, is_decision_of, append_governance_decision_event,
  decided, update_governance_decision, require_target_job,
}
use project_os_agentic_agile.Governance.Texts.{clean_text, clean_actor}
use project_os_agentic_agile.Governance.Sponsor.{set_job_sponsor_authority}
use project_os_agentic_agile.Governance.Answers.{
  returned, execute, require_open, approve_decision, reject_decision,
}
use project_os_agentic_agile.Governance.Inversion.{require_open-other}

-- An execution leaves the decisions alone.
abbrev KeepsDecisions : Governance → Option (Execution × Governance) → Type 0
KeepsDecisions g none = Unit
KeepsDecisions g (some (x, after)) = after.decisions ≡ g.decisions

returned-KeepsDecisions :
    {A : Type 0} (g : Governance) (x : Execution) (r : Result A × Db)
    → KeepsDecisions g (returned g r >>= λ (y : A × Governance). some (x, y.1))
returned-KeepsDecisions g x (ok a, db) = refl
returned-KeepsDecisions g x (err e, db) = tt

checked-KeepsDecisions :
    (g : Governance) (b : Bool) (o : Option (Execution × Governance))
    → KeepsDecisions g o
    → KeepsDecisions g (check b >>= λ (u : Unit {0}). o)
checked-KeepsDecisions g true o h = h
checked-KeepsDecisions g false o h = tt

of_job-KeepsDecisions :
    (g : Governance) (m : Option Job) (f : Job → Option (Execution × Governance))
    → ((j : Job) → KeepsDecisions g (f j))
    → KeepsDecisions g (m >>= f)
of_job-KeepsDecisions g none f h = tt
of_job-KeepsDecisions g (some j) f h = h j

execute-KeepsDecisions :
    (a : GovernedAction) (now later : ℕ) (d : Decision) (reason : String) (g : Governance)
    → KeepsDecisions g (execute a now later d reason g)
unfolding execute
execute-KeepsDecisions GovernedAction.sponsor_reserved now later d reason g = refl
execute-KeepsDecisions GovernedAction.recover_salvage now later d reason g = refl
execute-KeepsDecisions GovernedAction.recover_reconcile now later d reason g = refl
execute-KeepsDecisions GovernedAction.governance_change now later d reason g =
    returned-KeepsDecisions g (paused d.project_human_id)
      (set_project_paused now d.project_human_id true (some reason) g.db)
execute-KeepsDecisions GovernedAction.cancel_job now later d reason g =
    of_job-KeepsDecisions g
      (require_target_job d.project_human_id (coalesce d.target_human_id "None") g) _
      (λ j. checked-KeepsDecisions g (not (is_terminal j.status)) _ (
        returned-KeepsDecisions g (cancelled j.human_id)
          (mark_cancelled now later j.id reason g.db)))
execute-KeepsDecisions GovernedAction.release_approve now later d reason g =
    of_job-KeepsDecisions g
      (require_target_job d.project_human_id (coalesce d.target_human_id "None") g) _
      (λ j. checked-KeepsDecisions g (str_eq j.queue "RELEASE") _ (
        returned-KeepsDecisions g (release_granted j.human_id)
          (set_job_sponsor_authority now j.id "approved" g.db)))

-- What holds of the answer, where there is one.
abbrev pub Holds : {B : Type 0} → (B → Type 0) → Option B → Type 0
Holds P none = Unit
Holds P (some b) = P b

pub Holds-bind :
    {A B : Type 0} (P : B → Type 0) (m : Option A) (f : A → Option B)
    → ((a : A) → m ≡ some a → Holds P (f a))
    → Holds P (m >>= f)
Holds-bind P none f h = tt
Holds-bind P (some a) f h = h a refl

-- The row of that id is as it was decided.
abbrev pub Stays : String → Decision → Governance → Type 0
Stays k d g = find (is_decision k) g.decisions ≡ some d

-- The UPDATE of another decision.
update_governance_decision-Stays :
    (k : String) (d e : Decision) (now : ℕ) (status : DecisionStatus) (by why : String)
    (x : Option Execution) (g : Governance)
    → str_eq e.decision_human_id k ≡ false
    → Stays k d g
    → Stays k d
        (update_governance_decision now e.project_human_id e.decision_human_id status by why x g)
unfolding update_governance_decision
update_governance_decision-Stays k d e now status by why x g other found =
    let p = is_decision_of e.project_human_id e.decision_human_id in
    let f = decided now status by why x in
    let (m, named) = find-In (is_decision k) g.decisions found in
    let off : p d ≡ false = elim (Bool-cases (is_decision e.decision_human_id d)) [
      | inr t ↦ ground (arith, t)
      | inl t ↦
          let q : e.decision_human_id ≡ k =
            sym ((eq_iff d.decision_human_id e.decision_human_id).0 t)
            ∙ (eq_iff d.decision_human_id k).0 named in
          absurd (ground (arith, other, (eq_iff e.decision_human_id k).1 q))
    ] in
    find-update (is_decision k) p f g.decisions (λ r. refl) ∙ rw (found, off) refl

pub approve_decision-Stays :
    (k : String) (d : Decision) (now later : ℕ) (pid hid : String) (confirmed : Bool)
    (actor reason : String) (g : Governance)
    → is_open_status d.status ≡ false
    → Stays k d g
    → Holds (Stays k d) (approve_decision now later pid hid confirmed actor reason g)
unfolding approve_decision append_governance_decision_event
approve_decision-Stays k d now later pid hid confirmed actor reason g closed found =
    Holds-bind (Stays k d) (check confirmed) _ (λ _ _.
      Holds-bind (Stays k d) (clean_actor actor) _ (λ by _.
        Holds-bind (Stays k d) (clean_text reason) _ (λ why _.
          Holds-bind (Stays k d) (require_open pid hid g) _ (λ e he.
            Holds-bind (Stays k d) (execute e.action now later e why g) _ (λ (x, after) hx.
              let kept = execute-KeepsDecisions e.action now later e why g in
              let same : after.decisions ≡ g.decisions = rw hx at kept in
              update_governance_decision-Stays k d e later DecisionStatus.approved by why (some x)
                after (require_open-other pid hid k g d e found closed he) (rw same found))))))

pub reject_decision-Stays :
    (k : String) (d : Decision) (now : ℕ) (pid hid : String) (confirmed : Bool)
    (actor reason : String) (g : Governance)
    → is_open_status d.status ≡ false
    → Stays k d g
    → Holds (Stays k d) (reject_decision now pid hid confirmed actor reason g)
unfolding reject_decision append_governance_decision_event
reject_decision-Stays k d now pid hid confirmed actor reason g closed found =
    Holds-bind (Stays k d) (check confirmed) _ (λ _ _.
      Holds-bind (Stays k d) (clean_actor actor) _ (λ by _.
        Holds-bind (Stays k d) (clean_text reason) _ (λ why _.
          Holds-bind (Stays k d) (require_open pid hid g) _ (λ e he.
            update_governance_decision-Stays k d e now DecisionStatus.rejected by why none g
              (require_open-other pid hid k g d e found closed he) found))))
