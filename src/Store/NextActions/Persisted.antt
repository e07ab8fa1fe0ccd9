-- ===== src/Store/NextActions/Persisted.antt =====
-- What `persist_run_next_action` accepts is live: it is in the list of the run's active actions.
use project_os_agentic_agile.Base.{
  ℕ, String, Bool, true, false, ◌||◌, ◌&&◌, List, [], ◌∷◌, ◌++◌, Option, none, some, ◌≡◌, refl, ap,
  sym, ◌∙◌, inl, inr, str_eq, eq_refl, leb, any, select, In, In-select_intro, In-append_right,
  In-order_by_intro, order_by, arith, Bool-cases,
}
use project_os_agentic_agile.Store.Schema.{ActionType, NextAction, Db, is_open}
use project_os_agentic_agile.Store.Action.{ok, ◌>>=◌}
use project_os_agentic_agile.Store.Framing.{bind_inv, bind_returns}
use project_os_agentic_agile.Store.Rows.{find_job}
use project_os_agentic_agile.Store.NextActions.Backing.{
  validate_action_backing, backing_checks, new_action, insert_unless, insert_action,
  persist_run_next_action,
}
use project_os_agentic_agile.Store.NextActions.Liveness.{
  needs_job, job_row_live, next_action_is_live, list_active_next_actions,
}
use project_os_agentic_agile.Store.NextActions.ReadOnly.{ReadOnly-validate_action_backing}

-- The types whose validation and liveness ask the same of a job.
abbrev pub stands_on_job : ActionType → Bool
stands_on_job ActionType.executable_job = true
stands_on_job ActionType.active_assessment = true
stands_on_job ActionType.pm_queue = true
stands_on_job _ = false

validated-live :
    (t : ActionType) (fresh : String) (now : ℕ) (run_id project : String) (id : ℕ)
    (due_at : Option ℕ) (sponsor_wait : Bool) (db : Db)
    → stands_on_job t ≡ true
    → (validate_action_backing t run_id (some id) none due_at db).0 ≡ ok tt
    → job_row_live
        (new_action fresh now run_id project t (some id) none due_at sponsor_wait)
        (find_job id db)
      ≡ true
unfolding backing_checks
validated-live ActionType.executable_job fresh now run_id project id due_at sponsor_wait db s h =
    ground arith
validated-live ActionType.active_assessment fresh now run_id project id due_at sponsor_wait db s h =
    ground arith
validated-live ActionType.pm_queue fresh now run_id project id due_at sponsor_wait db s h =
    ground arith
validated-live ActionType.remediation_work fresh now run_id project id due_at sponsor_wait db s h =
    cc s
validated-live ActionType.scheduled_retry fresh now run_id project id due_at sponsor_wait db s h =
    cc s

abbrev with_action : NextAction → Db → Db
with_action a db = record db { actions = db.actions ++ a ∷ [] }

insert_action-ok :
    (a : NextAction) (db : Db) (id : String)
    → (insert_action a db).0 ≡ ok id
    → (id ≡ a.action_id) × ((insert_action a db).1 ≡ with_action a db)
unfolding insert_action insert_unless ◌>>=◌
insert_action-ok a db id h =
    elim (Bool-cases (any (λ b. str_eq b.action_id a.action_id) db.actions)) [
      | inl e ↦ cc (rw e at h)
      | inr e ↦ rw e (cc (rw e at h), refl)
    ]

needs_of_stands : (t : ActionType) → stands_on_job t ≡ true → needs_job t ≡ true
needs_of_stands t s = ground arith

or_true : (b c : Bool) → c ≡ true → (b || c) ≡ true
or_true b c h = ground arith

new_action-live :
    (t : ActionType) (fresh : String) (now : ℕ) (run_id project : String) (id : ℕ)
    (due_at : Option ℕ) (sponsor_wait : Bool) (db : Db) (other : NextAction)
    → stands_on_job t ≡ true
    → (validate_action_backing t run_id (some id) none due_at db).0 ≡ ok tt
    → next_action_is_live
        (with_action other db)
        (new_action fresh now run_id project t (some id) none due_at sponsor_wait)
      ≡ true
unfolding next_action_is_live
new_action-live t fresh now run_id project id due_at sponsor_wait db other s h =
    let l = validated-live t fresh now run_id project id due_at sponsor_wait db s h in
    rw l (or_true _ _ (needs_of_stands t s))

-- The list of active actions, in its order.
abbrev pub live_rows : String → Db → List NextAction
live_rows run_id db = select (next_action_is_live db) (
    order_by (λ a b. leb a.created_at b.created_at)
      (select (λ a. str_eq a.run_id run_id && is_open a.status) db.actions))

listed :
    (run_id : String) (a : NextAction) (db : Db)
    → str_eq a.run_id run_id && is_open a.status ≡ true
    → next_action_is_live (with_action a db) a ≡ true
    → In a (live_rows run_id (with_action a db))
listed run_id a db e live =
    let actions = db.actions ++ a ∷ [] in
    let rows = select (λ b. str_eq b.run_id run_id && is_open b.status) actions in
    In-select_intro a (next_action_is_live (with_action a db)) _
      (In-order_by_intro (λ b c. leb b.created_at c.created_at) a rows
        (In-select_intro a (λ b. str_eq b.run_id run_id && is_open b.status) actions
          (In-append_right a db.actions (a ∷ []) (inl refl)) e))
      live

-- Where `persist_run_next_action` accepts a job as the backing of an EXECUTABLE_JOB, ACTIVE_ASSESSMENT
-- or PM_QUEUE action, with no remediation work, the run's list of active actions has the action at
-- once, under the id returned, with its type and its job.
pub persist_run_next_action-listed :
    (t : ActionType) (fresh : String) (now : ℕ) (run_id project : String) (id : ℕ)
    (due_at : Option ℕ) (sponsor_wait : Bool) (db : Db) (a : String)
    → stands_on_job t ≡ true
    → (persist_run_next_action fresh now run_id project t (some id) none due_at sponsor_wait db).0
      ≡ ok a
    → (rows : List NextAction) × (row : NextAction) × ((list_active_next_actions run_id
          (persist_run_next_action fresh now run_id project t
            (some id)
            none
            due_at
            sponsor_wait
            db).1).0
        ≡ ok rows)
      × In row rows
      × (row.action_id ≡ a)
      × (row.action_type ≡ t)
      × (row.orchestration_job_id ≡ some id)
unfolding persist_run_next_action list_active_next_actions
persist_run_next_action-listed t fresh now run_id project id due_at sponsor_wait db a s h =
    let new = new_action fresh now run_id project t (some id) none due_at sponsor_wait in
    let check = validate_action_backing t run_id (some id) none due_at in
    let same = (ReadOnly-validate_action_backing t run_id (some id) none due_at).at db in
    let (_, v, h1) = bind_inv check (λ _. insert_action new) db a h in
    let (q, left) = insert_action-ok new db a (rw same at h1) in
    let after =
      bind_returns check (λ _. insert_action new) db tt v ∙ ap (λ d. insert_action new d) same in
    let live = new_action-live t fresh now run_id project id due_at sponsor_wait db new s v in
    (
      live_rows run_id (with_action new db),
      new,
      rw (after, left) refl,
      listed run_id new db (rw (eq_refl run_id) refl) live,
      sym q,
      refl,
      refl,
    )
