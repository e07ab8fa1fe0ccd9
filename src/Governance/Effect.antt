-- ===== src/Governance/Effect.antt =====
-- What an approval does to the jobs.
use project_os_agentic_agile.Base.{
  ℕ, String, Bool, true, false, not, Option, none, some, ◌≡◌, refl, ap, sym, ◌∙◌, inl, inr, str_eq,
  find, find-In, find-of_In, ==_refl, coalesce, arith, Bool-cases,
}
use project_os_agentic_agile.Store.Schema.{Job, JobStatus, Db, Message, is_terminal}
use project_os_agentic_agile.Store.Action.{Result, ok, err}
use project_os_agentic_agile.Store.Rows.{find_job, has_id}
use project_os_agentic_agile.Store.Lifecycle.{mark_cancelled}
use project_os_agentic_agile.Store.Lifecycle.Ends.{end_job-EndsIn}
use project_os_agentic_agile.Store.Consistency.{IsConsistent}
use project_os_agentic_agile.Governance.{
  GovernedAction, Execution, cancelled, Decision, Governance, ◌>>=◌, check, belongs_to,
  require_target_job, append_governance_decision_event, update_governance_decision,
}
use project_os_agentic_agile.Governance.Texts.{clean_text, clean_actor}
use project_os_agentic_agile.Governance.Answers.{returned, execute, require_open, approve_decision}
use project_os_agentic_agile.Governance.Decided.{Holds, Holds-bind}

-- The decision's target was a job of its project that had not ended, and it is cancelled.
pub record IsCancelled (d : Decision) (before after : Db) : Type 0 where
  pub job : Job
  pub row : Job
  pub found :
      find (λ j. str_eq j.human_id (coalesce d.target_human_id "None")) before.jobs ≡ some job
  pub own : str_eq job.project_human_id d.project_human_id ≡ true
  pub was_open : is_terminal job.status ≡ false
  pub left : find_job job.id after ≡ some row
  pub status : row.status ≡ JobStatus.cancelled

require_target_job-inv :
    (pid hid : String) (g : Governance) (j : Job)
    → require_target_job pid hid g ≡ some j
    → (find (λ i. str_eq i.human_id hid) g.db.jobs ≡ some j)
      × (str_eq j.project_human_id pid ≡ true)
unfolding require_target_job
require_target_job-inv pid hid g j h = go (find (λ i. str_eq i.human_id hid) g.db.jobs) h
  where
    go :
        (o : Option Job)
        → belongs_to pid o ≡ some j
        → (o ≡ some j) × (str_eq j.project_human_id pid ≡ true)
    go none h = cc
    go (some i) h = elim (Bool-cases (str_eq i.project_human_id pid)) [
      | inl t ↦
          let q : some i ≡ some j = rw t at h in
          let same : i ≡ j = cc in
          (q, sym (ap (λ (x : Job). str_eq x.project_human_id pid) same) ∙ t)
      | inr t ↦ let q : none ≡ some j = rw t at h in cc
    ]

check-true : (b : Bool) {u : Unit {0}} → check b ≡ some u → b ≡ true
check-true true h = refl
check-true false h = cc

returned-Holds :
    {A : Type 0} (P : Db → Type 0) (g : Governance) (x : Execution) (r : Result A × Db)
    → P r.1
    → Holds
        (λ (y : Execution × Governance). P (y.1.db))
        (returned g r >>= λ (y : A × Governance). some (x, y.1))
returned-Holds P g x (ok a, db) h = h
returned-Holds P g x (err e, db) h = tt

execute-IsCancelled :
    (now later : ℕ) (d : Decision) (reason : String) (g : Governance)
    → IsConsistent g.db
    → Holds
        (λ (y : Execution × Governance). IsCancelled d g.db y.1.db)
        (execute GovernedAction.cancel_job now later d reason g)
unfolding execute
execute-IsCancelled now later d reason g c =
    let P = λ (y : Execution × Governance). IsCancelled d g.db y.1.db in
    Holds-bind P (require_target_job d.project_human_id (coalesce d.target_human_id "None") g) _
      (λ j h. Holds-bind P (check (not (is_terminal j.status))) _ (λ u checked.
        let (found, own) =
          require_target_job-inv d.project_human_id (coalesce d.target_human_id "None") g j h in
        let (m, _) =
          find-In (λ i. str_eq i.human_id (coalesce d.target_human_id "None")) g.db.jobs found in
        let by_id = find-of_In (has_id j.id) j g.db.jobs m (==_refl j.id) (c.job_unique j.id) in
        let (_, ends, _) =
          end_job-EndsIn now later 0 "" j.id none none none reason (Message.text "")
            (Message.text "") g.db j by_id in
        let (i, _, left, _, status, _, _) = ends in
        returned-Holds (λ db. IsCancelled d g.db db) g (cancelled j.human_id)
          (mark_cancelled now later j.id reason g.db)
          (record {
            job = j;
            row = i;
            found = found;
            own = own;
            was_open = ground (arith, check-true (not (is_terminal j.status)) checked);
            left = left;
            status = status;
          })))

approve_decision-Holds :
    (now later : ℕ) (pid hid : String) (confirmed : Bool) (actor reason : String) (d : Decision)
    (g : Governance)
    → require_open pid hid g ≡ some d
    → d.action ≡ GovernedAction.cancel_job
    → IsConsistent g.db
    → Holds
        (λ (after : Governance). (confirmed ≡ true) × IsCancelled d g.db after.db)
        (approve_decision now later pid hid confirmed actor reason g)
unfolding approve_decision append_governance_decision_event update_governance_decision execute
approve_decision-Holds now later pid hid confirmed actor reason d g found cancels c =
    let P = λ (after : Governance). (confirmed ≡ true) × IsCancelled d g.db after.db in
    Holds-bind P (check confirmed) _ (λ _ yes. Holds-bind P (clean_actor actor) _ (λ by _.
      Holds-bind P (clean_text reason) _ (λ why _. Holds-bind P (require_open pid hid g) _ (λ e he.
        let both : some d ≡ some e = sym found ∙ he in
        let same : d ≡ e = cc in
        let act : e.action ≡ GovernedAction.cancel_job =
          sym (ap (λ (x : Decision). x.action) same) ∙ cancels in
        Holds-bind P (execute e.action now later e why g) _ (λ (x, after) hx.
          let kept = execute-IsCancelled now later e why g c in
          let hx' : execute GovernedAction.cancel_job now later e why g ≡ some (x, after) =
            rw act at hx in
          let done : IsCancelled e g.db after.db = rw hx' at kept in
          (check-true confirmed yes, rw same done))))))

-- On consistent tables, where approve_decision of an open decision to cancel a job answers, it was
-- confirmed, the decision's target was a job of its project that had not ended, and the job is cancelled.
pub approve_decision-IsCancelled :
    (now later : ℕ) (pid hid : String) (confirmed : Bool) (actor reason : String) (d : Decision)
    (g after : Governance)
    → require_open pid hid g ≡ some d
    → d.action ≡ GovernedAction.cancel_job
    → IsConsistent g.db
    → approve_decision now later pid hid confirmed actor reason g ≡ some after
    → (confirmed ≡ true) × IsCancelled d g.db after.db
approve_decision-IsCancelled now later pid hid confirmed actor reason d g after found cancels c h =
    let kept =
      approve_decision-Holds now later pid hid confirmed actor reason d g found cancels c in
    rw h at kept
