-- ===== src/Store/NextActions/Reconcile.antt =====
-- run_next_actions.py: the end of actions, and the reconciliation of a run with its actions.
use project_os_agentic_agile.Base.{
  ℕ, String, Bool, true, false, not, ◌&&◌, ◌||◌, List, [], ◌∷◌, ◌++◌, Option, none, some, ◌==◌, leb,
  ltb, str_eq, if◌then◌else◌, select, update, truthy, order_by,
}
use project_os_agentic_agile.Store.Schema.{
  Job, JobStatus, Db, ExecutionRun, ActionType, ActionStatus, NextAction, is_terminal, is_open,
}
use project_os_agentic_agile.Store.Action.{Action, ok, ◌>>=◌, ◌>>◌, pure, gets}
use project_os_agentic_agile.Store.Rows.{find_job}
use project_os_agentic_agile.Store.Leases.{iso}
use project_os_agentic_agile.Store.NextActions.Backing.{
  get_execution_run, is_executable, is_terminal_run, persist_run_next_action,
}
use project_os_agentic_agile.Store.NextActions.Liveness.{list_active_next_actions}

unfoldable pub update_actions : (NextAction → Bool) → (NextAction → NextAction) → Action (Unit {0})
update_actions p f db = (ok tt, record db { actions = update p f db.actions })

abbrev pub set_action : ActionStatus → ℕ → NextAction → NextAction
set_action s now a = record a { status = s; updated_at = iso now }

unfoldable pub complete_run_next_action : ℕ → String → Action (Unit {0})
complete_run_next_action now action_id =
    update_actions (λ a. str_eq a.action_id action_id) (set_action ActionStatus.completed now)

unfoldable pub cancel_run_next_action : ℕ → String → Action (Unit {0})
cancel_run_next_action now action_id =
    update_actions (λ a. str_eq a.action_id action_id) (set_action ActionStatus.cancelled now)

abbrev pub acts_on_job : ℕ → NextAction → Bool
acts_on_job job_id a = elim a.orchestration_job_id [ none ↦ false | some i ↦ i == job_id ]

abbrev pub acts_on_work : String → NextAction → Bool
acts_on_work work_id a = elim a.remediation_work_id [ none ↦ false | some w ↦ str_eq w work_id ]

unfoldable pub complete_run_next_action_for_job : ℕ → ℕ → Action (Unit {0})
complete_run_next_action_for_job now job_id =
    update_actions (λ a. acts_on_job job_id a && is_open a.status)
      (set_action ActionStatus.completed now)

unfoldable pub complete_run_next_action_for_work : ℕ → String → Action (Unit {0})
complete_run_next_action_for_work now work_id =
    update_actions (λ a. acts_on_work work_id a && is_open a.status)
      (set_action ActionStatus.completed now)

abbrev pub backs_ended_job : Db → NextAction → Bool
backs_ended_job db a = elim a.orchestration_job_id [
  | none ↦ false
  | some id ↦ elim (find_job id db) [ none ↦ false | some j ↦ is_terminal j.status ]
]

unfoldable pub complete_if : Bool → ℕ → String → Action (Unit {0})
complete_if true now action_id = complete_run_next_action now action_id
complete_if false now action_id = pure tt

-- The loop over the open actions of the run: those of ended jobs are completed.
unfoldable pub complete_stale : ℕ → List NextAction → Action (List String)
complete_stale now [] = pure []
complete_stale now (a ∷ rest) = do
  ended ← gets (λ db. backs_ended_job db a)
  complete_if ended now a.action_id
  done ← complete_stale now rest
  pure (if ended then a.action_id ∷ done else done)

unfoldable pub list_jobs_for_run : String → (JobStatus → Bool) → Db → List Job
list_jobs_for_run run_id statuses db =
    order_by (λ i j. leb i.id j.id)
      (select (λ j. elim j.run_id [ none ↦ false | some r ↦ str_eq r run_id ] && statuses j.status)
        db.jobs)

-- `sorted(…, key=lambda j: (j.priority, j.id))`
abbrev pub by_priority : Job → Job → Bool
by_priority i j = ltb i.priority j.priority || (i.priority == j.priority && leb i.id j.id)

unfoldable pub persist_first :
    String → ℕ → String → String → List String → List Job → Action (List String)
persist_first fresh now run_id project_id done [] = pure done
persist_first fresh now run_id project_id done (j ∷ _) = do
  a ←
      persist_run_next_action fresh now run_id project_id ActionType.executable_job (some j.id) none
        none false
  pure (done ++ a ∷ [])

unfoldable pub unless_live :
    String → ℕ → String → String → List String → List NextAction → Action (List String)
unless_live fresh now run_id project_id done [] db =
    persist_first fresh now run_id project_id done
      (order_by by_priority (list_jobs_for_run run_id is_executable db)) db
unless_live fresh now run_id project_id done (_ ∷ _) db = (ok done, db)

unfoldable pub reconcile_run : String → ℕ → String → String → Action (List String)
reconcile_run fresh now run_id project_id = do
  open_actions ← gets (λ db.
      order_by (λ a b. leb a.created_at b.created_at)
        (select (λ a. str_eq a.run_id run_id && is_open a.status) db.actions))
  done ← complete_stale now open_actions
  live ← list_active_next_actions run_id
  unless_live fresh now run_id project_id done live

-- The early return: a run that is missing or has ended.
abbrev pub run_goes_on : Option ExecutionRun → Bool
run_goes_on none = false
run_goes_on (some run) = not (is_terminal_run run.status)

unfoldable pub reconcile_run_next_actions : String → ℕ → String → String → Action (List String)
reconcile_run_next_actions fresh now run_id project_id db =
    (if run_goes_on (get_execution_run run_id db)
        then reconcile_run fresh now run_id project_id
        else pure [])
      db

-- `if job.run_id:`
unfoldable pub reconcile_of : String → ℕ → Option String → String → Action (List String)
reconcile_of fresh now none project_id = pure []
reconcile_of fresh now (some run_id) project_id =
    reconcile_run_next_actions fresh now run_id project_id

-- store.py's _sync_next_actions_for_terminal_job: an exception inside it is dropped, and what was
-- written before it stays.
unfoldable pub ignoring_errors : {A : Type 0} → Action A → Action (Unit {0})
ignoring_errors m db = (ok tt, (m db).1)

unfoldable pub sync_next_actions_for_terminal_job : String → ℕ → Job → Action (Unit {0})
sync_next_actions_for_terminal_job fresh now job =
    if is_terminal job.status
    then ignoring_errors (do
      complete_run_next_action_for_job now job.id
      reconcile_of fresh now (truthy job.run_id) job.project_human_id)
    else pure tt
