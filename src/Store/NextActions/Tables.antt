-- ===== src/Store/NextActions/Tables.antt =====
-- The operations on next actions write no other table, errors included.
use project_os_agentic_agile.Base.{
  ℕ, Bool, true, false, String, List, [], ◌∷◌, Option, none, some, ◌≡◌, refl, ◌∙◌, update, order_by,
  ◌++◌,
}
use project_os_agentic_agile.Store.Schema.{Job, Db, NextAction, ActionType}
use project_os_agentic_agile.Store.Action.{Action}
use project_os_agentic_agile.Store.Framing.{
  Framing, Frames, Frames-pure, Frames-gets, Frames-bind, Frames-if, Frames-ReadOnly, action_rules,
}
use project_os_agentic_agile.Store.NextActions.ReadOnly.{
  ReadOnly-validate_action_backing, ReadOnly-list_active_next_actions,
}
use project_os_agentic_agile.Store.NextActions.Backing.{
  insert_action, persist_run_next_action, get_execution_run, insert_unless, is_executable,
  validate_action_backing,
}
use project_os_agentic_agile.Store.NextActions.Liveness.{list_active_next_actions}
use project_os_agentic_agile.Store.NextActions.Reconcile.{
  update_actions, complete_run_next_action, complete_run_next_action_for_job, complete_stale,
  persist_first, unless_live, reconcile_run, reconcile_run_next_actions, ignoring_errors,
  sync_next_actions_for_terminal_job, complete_if, run_goes_on, list_jobs_for_run, by_priority,
  reconcile_of,
}

pub record OnlyActions (a b : Db) : Type 0 where
  pub jobs : b.jobs ≡ a.jobs
  pub leases : b.leases ≡ a.leases
  pub events : b.events ≡ a.events
  pub dependencies : b.dependencies ≡ a.dependencies
  pub runs : b.runs ≡ a.runs
  pub works : b.works ≡ a.works
  pub job_seq : b.job_seq ≡ a.job_seq
  pub lease_seq : b.lease_seq ≡ a.lease_seq

pub OnlyActions-refl : (a : Db) → OnlyActions a a
OnlyActions-refl a = record {
  jobs = refl;
  leases = refl;
  events = refl;
  dependencies = refl;
  runs = refl;
  works = refl;
  job_seq = refl;
  lease_seq = refl;
}

pub OnlyActions-trans : (a b c : Db) → OnlyActions a b → OnlyActions b c → OnlyActions a c
OnlyActions-trans a b c p q = record {
  jobs = q.jobs ∙ p.jobs;
  leases = q.leases ∙ p.leases;
  events = q.events ∙ p.events;
  dependencies = q.dependencies ∙ p.dependencies;
  runs = q.runs ∙ p.runs;
  works = q.works ∙ p.works;
  job_seq = q.job_seq ∙ p.job_seq;
  lease_seq = q.lease_seq ∙ p.lease_seq;
}

abbrev pub only_actions : Framing
only_actions = record {
  Rel = OnlyActions;
  rel_refl = OnlyActions-refl;
  rel_trans = OnlyActions-trans;
}

only :
    (f : List NextAction → List NextAction) (db : Db)
    → OnlyActions db (record db { actions = f db.actions })
only f db = record {
  jobs = refl;
  leases = refl;
  events = refl;
  dependencies = refl;
  runs = refl;
  works = refl;
  job_seq = refl;
  lease_seq = refl;
}

Frames-update_actions :
    (p : NextAction → Bool) (f : NextAction → NextAction) → Frames only_actions (update_actions p f)
unfolding update_actions
Frames-update_actions p f = record { at = λ db. only (update p f) db }

Frames-insert_unless : (b : Bool) (a : NextAction) → Frames only_actions (insert_unless b a)
unfolding insert_unless
Frames-insert_unless true a = record { at = λ db. OnlyActions-refl db }
Frames-insert_unless false a = record { at = λ db. only (λ l. l ++ a ∷ []) db }

Frames-insert_action : (a : NextAction) → Frames only_actions (insert_action a)
unfolding insert_action
Frames-insert_action a = search (action_rules, Frames-insert_unless)

Frames-validate :
    (t : ActionType) (r : String) (j : Option ℕ) (w : Option String) (d : Option ℕ)
    → Frames only_actions (validate_action_backing t r j w d)
Frames-validate t r j w d = Frames-ReadOnly _ (ReadOnly-validate_action_backing t r j w d)

Frames-list_active : (r : String) → Frames only_actions (list_active_next_actions r)
Frames-list_active r = Frames-ReadOnly _ (ReadOnly-list_active_next_actions r)

Frames-persist :
    (fresh : String) (now : ℕ) (run project : String) (t : ActionType) (j : Option ℕ)
    (w : Option String) (d : Option ℕ) (s : Bool)
    → Frames only_actions (persist_run_next_action fresh now run project t j w d s)
unfolding persist_run_next_action
Frames-persist fresh now run project t j w d s =
    search (action_rules, Frames-validate, Frames-insert_action)

Frames-persist_first :
    (fresh : String) (now : ℕ) (run project : String) (done : List String) (js : List Job)
    → Frames only_actions (persist_first fresh now run project done js)
unfolding persist_first
Frames-persist_first fresh now run project done [] = Frames-pure done
Frames-persist_first fresh now run project done (j ∷ js) = search (action_rules, Frames-persist)

Frames-unless_live :
    (fresh : String) (now : ℕ) (run project : String) (done : List String) (live : List NextAction)
    → Frames only_actions (unless_live fresh now run project done live)
unfolding unless_live
Frames-unless_live fresh now run project done [] = record {
  at = λ db.
      (Frames-persist_first fresh now run project done
          (order_by by_priority (list_jobs_for_run run is_executable db))).at
        db;
}
Frames-unless_live fresh now run project done (a ∷ live) = record { at = λ db. OnlyActions-refl db }

Frames-complete_if : (b : Bool) (now : ℕ) (id : String) → Frames only_actions (complete_if b now id)
unfolding complete_if complete_run_next_action
Frames-complete_if true now id = Frames-update_actions _ _
Frames-complete_if false now id = Frames-pure tt

pub Frames-complete_stale :
    (now : ℕ) (actions : List NextAction) → Frames only_actions (complete_stale now actions)
unfolding complete_stale
Frames-complete_stale now [] = Frames-pure []
Frames-complete_stale now (a ∷ rest) =
    let ih = Frames-complete_stale now rest in
    Frames-bind _ _ (Frames-gets _) λ ended.
      Frames-bind _ _ (Frames-complete_if ended now a.action_id)
        λ _. Frames-bind _ _ ih (λ done. Frames-pure _)

Frames-reconcile_run :
    (fresh : String) (now : ℕ) (run project : String)
    → Frames only_actions (reconcile_run fresh now run project)
unfolding reconcile_run
Frames-reconcile_run fresh now run project =
    search (action_rules, Frames-complete_stale, Frames-list_active, Frames-unless_live) depth 8

pub Frames-reconcile :
    (fresh : String) (now : ℕ) (run project : String)
    → Frames only_actions (reconcile_run_next_actions fresh now run project)
unfolding reconcile_run_next_actions
Frames-reconcile fresh now run project = record {
  at = λ db.
      (Frames-if (run_goes_on (get_execution_run run db)) _ _
          (Frames-reconcile_run fresh now run project) (Frames-pure [])).at
        db;
}

Frames-reconcile_of :
    (fresh : String) (now : ℕ) (run : Option String) (project : String)
    → Frames only_actions (reconcile_of fresh now run project)
unfolding reconcile_of
Frames-reconcile_of fresh now none project = Frames-pure []
Frames-reconcile_of fresh now (some run) project = Frames-reconcile fresh now run project

Frames-ignoring_errors :
    {A : Type 0} (m : Action A) → Frames only_actions m → Frames only_actions (ignoring_errors m)
unfolding ignoring_errors
Frames-ignoring_errors m f = record { at = f.at }

pub Frames-sync :
    (fresh : String) (now : ℕ) (job : Job)
    → Frames only_actions (sync_next_actions_for_terminal_job fresh now job)
unfolding sync_next_actions_for_terminal_job complete_run_next_action_for_job
Frames-sync fresh now job =
    search (action_rules, Frames-ignoring_errors, Frames-update_actions, Frames-reconcile_of) depth
      8
