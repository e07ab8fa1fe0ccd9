-- ===== src/Store/NextActions/Reconciled.antt =====
-- After `reconcile_run_next_actions`, a run that goes on and has an executable job has a live action.
use project_os_agentic_agile.Base.{
  ℕ, ◌≤◌, String, Bool, true, false, ◌&&◌, List, [], ◌∷◌, ◌++◌, Option, none, some, ◌≡◌, refl, ap,
  sym, ◌∙◌, inl, inr, ==_refl, str_eq, eq_refl, eq_iff, leb, any, count, update, select, In,
  In-select, find-of_In, In-select_intro, In-order_by, In-order_by_intro, order_by, arith,
  Bool-cases,
}
use project_os_agentic_agile.Store.Schema.{
  ActionType, ActionStatus, ExecutionRun, Job, NextAction, Db, is_open,
}
use project_os_agentic_agile.Store.Action.{Result, ok, pure, ◌>>=◌}
use project_os_agentic_agile.Store.Framing.{Frames-pure, unchanged, bind_returns}
use project_os_agentic_agile.Store.Rows.{has_id, find_job}
use project_os_agentic_agile.Store.Consistency.{IsConsistent}
use project_os_agentic_agile.Store.NextActions.Backing.{
  get_execution_run, is_executable, is_terminal_run, persist_run_next_action, insert_action,
  insert_unless, backing_checks,
}
use project_os_agentic_agile.Store.NextActions.Reconcile.{
  backs_ended_job, complete_if, complete_stale, complete_run_next_action, update_actions,
  set_action, list_jobs_for_run, by_priority, persist_first, unless_live, reconcile_run,
  run_goes_on, reconcile_run_next_actions,
}
use project_os_agentic_agile.Store.NextActions.Liveness.{list_active_next_actions}
use project_os_agentic_agile.Store.NextActions.Tables.{Frames-complete_stale}
use project_os_agentic_agile.Store.NextActions.Persisted.{live_rows, persist_run_next_action-listed}

-- Whether an action has that id.
abbrev pub is_taken : String → List NextAction → Bool
is_taken fresh actions = any (λ a. str_eq a.action_id fresh) actions

is_taken-update :
    (fresh : String) (p : NextAction → Bool) (s : ActionStatus) (now : ℕ)
    (actions : List NextAction)
    → is_taken fresh (update p (set_action s now) actions) ≡ is_taken fresh actions
is_taken-update fresh p s now [] = refl
is_taken-update fresh p s now (a ∷ bs) = ground (arith, is_taken-update fresh p s now bs)

-- The loop over stale actions returns, and gives no action another id.
complete_stale-ok :
    (fresh : String) (now : ℕ) (actions : List NextAction) (db : Db)
    → (done : List String) × ((complete_stale now actions db).0 ≡ ok done)
      × (is_taken fresh (complete_stale now actions db).1.actions ≡ is_taken fresh db.actions)
unfolding complete_stale complete_if complete_run_next_action update_actions ◌>>=◌
complete_stale-ok fresh now [] db = ([], refl, refl)
complete_stale-ok fresh now (a ∷ bs) db = elim (Bool-cases (backs_ended_job db a)) [
  | inl e ↦
      let p = λ (b : NextAction). str_eq b.action_id a.action_id in
      let db1 = record db {
        actions = update p (set_action ActionStatus.completed now) db.actions;
      } in
      let (done, r, t) = complete_stale-ok fresh now bs db1 in
      (
        a.action_id ∷ done,
        rw (e, r) refl,
        rw (e, r) (t ∙ is_taken-update fresh p ActionStatus.completed now db.actions),
      )
  | inr e ↦
      let (done, r, t) = complete_stale-ok fresh now bs db in (done, rw (e, r) refl, rw (e, r) t)
]

-- An executable job of the run backs an action of a fresh id.
persist-ok :
    (fresh : String) (now : ℕ) (run_id project : String) (run : ExecutionRun) (j : Job) (db : Db)
    → get_execution_run run_id db ≡ some run
    → find_job j.id db ≡ some j
    → j.run_id ≡ some run_id
    → is_executable j.status ≡ true
    → is_taken fresh db.actions ≡ false
    → (persist_run_next_action fresh now run_id project ActionType.executable_job
        (some j.id)
        none
        none
        false
        db).0
      ≡ ok fresh
unfolding backing_checks persist_run_next_action insert_action insert_unless
persist-ok fresh now run_id project run j db r f e x t = ground (arith, eq_refl run_id)

run_of :
    (o : Option String) (run_id : String)
    → elim o [ none ↦ false | some r ↦ str_eq r run_id ] ≡ true
    → o ≡ some run_id
run_of none run_id h = cc
run_of (some r) run_id h = ap some ((eq_iff r run_id).0 h)

and_left : (b c : Bool) → (b && c) ≡ true → b ≡ true
and_left b c h = ground arith

and_right : (b c : Bool) → (b && c) ≡ true → c ≡ true
and_right b c h = ground arith

-- The run has a live action.
abbrev pub HasLive : String → Db → Type 0
HasLive run_id db =
    (rows : List NextAction) × (row : NextAction) × ((list_active_next_actions run_id db).0
      ≡ ok rows)
    × In row rows

module _ (fresh : String) (now : ℕ) (run_id project : String) (run : ExecutionRun) where
  persist_first-live :
      (done : List String) (h : Job) (hs : List Job) (db : Db)
      → get_execution_run run_id db ≡ some run
      → find_job h.id db ≡ some h
      → h.run_id ≡ some run_id
      → is_executable h.status ≡ true
      → is_taken fresh db.actions ≡ false
      → HasLive run_id (persist_first fresh now run_id project done (h ∷ hs) db).1
  unfolding persist_first
  persist_first-live done h hs db r f e x t =
      let m =
        persist_run_next_action fresh now run_id project ActionType.executable_job (some h.id) none
          none false in
      let kept = persist-ok fresh now run_id project run h db r f e x t in
      let (rows, row, l, i, _, _, _) =
        persist_run_next_action-listed ActionType.executable_job fresh now run_id project h.id none
          false db fresh refl kept in
      let after =
        ap (λ (y : Result (List String) × Db). y.1)
          (bind_returns m (λ a. pure (done ++ a ∷ [])) db fresh kept)
        ∙ (Frames-pure {F = unchanged} (done ++ fresh ∷ [])).at (m db).1 in
      rw after (rows, row, l, i)

  chosen-live :
      (done : List String) (js : List Job) (j : Job) (db : Db)
      → get_execution_run run_id db ≡ some run
      → ((h : Job)
          → In h js
          → (find_job h.id db ≡ some h)
            × (h.run_id ≡ some run_id)
            × (is_executable h.status ≡ true))
      → In j js
      → is_taken fresh db.actions ≡ false
      → HasLive run_id (persist_first fresh now run_id project done js db).1
  chosen-live done [] j db r each m t = absurd m
  chosen-live done (h ∷ hs) j db r each m t =
      let (f, e, x) = each h (inl refl) in persist_first-live done h hs db r f e x t

  unless_live-live :
      (done : List String) (live : List NextAction) (j : Job) (db : Db)
      → live ≡ live_rows run_id db
      → get_execution_run run_id db ≡ some run
      → ((id : ℕ) → count (has_id id) db.jobs ≤ 1)
      → In j db.jobs
      → j.run_id ≡ some run_id
      → is_executable j.status ≡ true
      → is_taken fresh db.actions ≡ false
      → HasLive run_id (unless_live fresh now run_id project done live db).1
  unfolding unless_live list_active_next_actions list_jobs_for_run
  unless_live-live done (a ∷ rest) j db q r u m e x t = (a ∷ rest, a, rw q refl, inl refl)
  unless_live-live done [] j db q r u m e x t =
      let p = λ (i : Job).
        elim i.run_id [ none ↦ false | some s ↦ str_eq s run_id ] && is_executable i.status in
      let rows = select p db.jobs in
      let sorted = order_by (λ (i k : Job). leb i.id k.id) rows in
      chosen-live done (order_by by_priority sorted) j db r
        (λ h n.
          let (k, g) =
            In-select h p db.jobs (In-order_by _ h rows (In-order_by by_priority h sorted n)) in
          (
            find-of_In (has_id h.id) h db.jobs k (==_refl h.id) (u h.id),
            run_of h.run_id run_id (and_left _ _ g),
            and_right _ (is_executable h.status) g,
          ))
        (In-order_by_intro by_priority j sorted (
          In-order_by_intro _ j rows
            (In-select_intro j p db.jobs m (rw (e, eq_refl run_id, x) refl))))
        t

  -- The parts of `reconcile_run` in turn.
  reconcile_run-eq :
      (db : Db) (done : List String) (opened : List NextAction)
      → opened
        ≡ order_by
            (λ a b. leb a.created_at b.created_at)
            (select (λ a. str_eq a.run_id run_id && is_open a.status) db.actions)
      → (complete_stale now opened db).0 ≡ ok done
      → let after = (complete_stale now opened db).1 in
        (reconcile_run fresh now run_id project db)
        ≡ unless_live fresh now run_id project done (live_rows run_id after) after
  unfolding reconcile_run list_active_next_actions ◌>>=◌
  reconcile_run-eq db done opened q r = rw (sym q, r) refl

-- For a run that has not ended and has an executable job, on consistent tables and with an action id
-- that is not taken, `reconcile_run_next_actions` leaves the run with a live next action.
pub reconcile_run_next_actions-live :
    (fresh : String) (now : ℕ) (run_id project : String) (run : ExecutionRun) (j : Job) (db : Db)
    → IsConsistent db
    → get_execution_run run_id db ≡ some run
    → is_terminal_run run.status ≡ false
    → In j db.jobs
    → j.run_id ≡ some run_id
    → is_executable j.status ≡ true
    → is_taken fresh db.actions ≡ false
    → HasLive run_id (reconcile_run_next_actions fresh now run_id project db).1
unfolding reconcile_run_next_actions
reconcile_run_next_actions-live fresh now run_id project run j db c r goes m e x t =
    let opened =
      order_by (λ (a b : NextAction). leb a.created_at b.created_at)
        (select (λ a. str_eq a.run_id run_id && is_open a.status) db.actions) in
    let after = (complete_stale now opened db).1 in
    let (done, ok_done, same) = complete_stale-ok fresh now opened db in
    let o = (Frames-complete_stale now opened).at db in
    let on : run_goes_on (get_execution_run run_id db) ≡ true = rw (r, goes) refl in
    rw (on, reconcile_run-eq fresh now run_id project run db done opened refl ok_done)
      (unless_live-live fresh now run_id project run done (live_rows run_id after) j after refl
        (rw o.runs r) (λ id. rw o.jobs (c.job_unique id)) (rw o.jobs m) e x (same ∙ t))
