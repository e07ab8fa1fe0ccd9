-- ===== src/Runs/Terminal.antt =====
-- Which events end a run, and that no other does.
use project_os_agentic_agile.Base.{
  ℕ, String, Bool, true, false, List, [], ◌∷◌, Option, none, some, str_eq, ◌≡◌, refl, sym, inl, inr,
  arith, Bool-cases, Option-cases, find-In, ◌||◌, if◌then◌else◌, coalesce, find-update,
}
use project_os_agentic_agile.Store.Schema.{RunStatus, ExecutionRun, Db}
use project_os_agentic_agile.Store.NextActions.Backing.{get_execution_run, is_terminal_run}
use project_os_agentic_agile.Runs.Outcomes.{
  RunOutcome, resolve_outcome, event_for_outcome, run_status_for_outcome, is_terminal_outcome,
  event_of, status_of, ends_run, is_terminal_run_event, is_pm_terminal_run_event,
}
use project_os_agentic_agile.Runs.{
  RunUpdate, updated_run, is_run, update_execution_run, EventPayload, event_change, change_update,
  is_ignored, apply_event_to_run, look_up, operational_progression, operational_change,
  payload_change, Step, step, asks_sponsor,
}

-- Whether a status that may be set ends the run.
abbrev sets_terminal : Option RunStatus → Bool
sets_terminal none = false
sets_terminal (some s) = is_terminal_run s

operational_change-open :
    (event_type : String) (p : EventPayload) (o : Option (Step String))
    → sets_terminal (operational_change event_type (payload_change p) o).status ≡ false
operational_change-open event_type p none = refl
operational_change-open event_type p (some (step phase agent progress)) =
    elim (Bool-cases (asks_sponsor event_type)) [ inl t ↦ rw t refl | inr t ↦ rw t refl ]

-- The events of PM_TERMINAL_RUN_EVENTS set a status that ends the run, and no other event does.
event_change-ends :
    (event_type : String) (p : EventPayload)
    → sets_terminal (event_change event_type p).status ≡ is_pm_terminal_run_event event_type
unfolding event_change is_pm_terminal_run_event is_terminal_run_event
event_change-ends event_type p = elim (Bool-cases (is_pm_terminal_run_event event_type)) [
  | inl t ↦ ground (arith, t)
  | inr t ↦
      rw (t, operational_change-open event_type p (look_up event_type operational_progression)) refl
]

update_execution_run-find :
    (now : ℕ) (run_id : String) (u : RunUpdate) (db : Db) (run : ExecutionRun)
    → get_execution_run run_id db ≡ some run
    → get_execution_run run_id (update_execution_run now run_id u db) ≡ some (updated_run now u run)
unfolding update_execution_run
update_execution_run-find now run_id u db run h =
    let (m, e) = find-In (is_run run_id) db.runs h in
    let after =
      find-update (is_run run_id) (is_run run_id) (updated_run now u) db.runs (λ r. refl) in
    rw (after, h, e) refl

-- The row after an event.
abbrev pub run_after : ℕ → String → EventPayload → ExecutionRun → ExecutionRun
run_after now event_type p run =
    if is_ignored run.status event_type
    then run
    else updated_run now (change_update p (event_change event_type p)) run

pub apply_event_to_run-find :
    (now : ℕ) (run_id event_type : String) (p : EventPayload) (db : Db) (run : ExecutionRun)
    → str_eq run_id "" ≡ false
    → get_execution_run run_id db ≡ some run
    → get_execution_run run_id (apply_event_to_run now run_id event_type p db)
      ≡ some (run_after now event_type p run)
unfolding apply_event_to_run
apply_event_to_run-find now run_id event_type p db run named h =
    elim (Bool-cases (is_ignored run.status event_type)) [
      | inl t ↦ rw (named, h, t) h
      | inr t ↦
          rw (named, h, t)
            (update_execution_run-find now run_id (change_update p (event_change event_type p)) db
              run h)
    ]

coalesce-ends :
    (o : Option RunStatus) (s : RunStatus) (pm : Bool)
    → sets_terminal o ≡ pm
    → (is_terminal_run s ≡ true → pm ≡ true)
    → is_terminal_run (coalesce o s) ≡ (is_terminal_run s || pm)
coalesce-ends none s pm h open_before = ground (arith, h, open_before)
coalesce-ends (some t) s pm h open_before = ground (arith, h, open_before)

run_after-ends :
    (now : ℕ) (event_type : String) (p : EventPayload) (run : ExecutionRun)
    → is_terminal_run (run_after now event_type p run).status
      ≡ (is_terminal_run run.status || is_pm_terminal_run_event event_type)
unfolding is_pm_terminal_run_event
run_after-ends now event_type p run = elim (Bool-cases (is_ignored run.status event_type)) [
  | inl t ↦ rw t (ground (arith, t))
  | inr t ↦ rw t (
      coalesce-ends (event_change event_type p).status run.status
        (is_pm_terminal_run_event event_type) (event_change-ends event_type p)
        (λ e. ground (arith, e, t)))
]

-- Events of one run, in the order in which they are emitted.
pub record Emitted : Type 0 where
  pub now : ℕ
  pub event_type : String
  pub payload : EventPayload

abbrev pub apply_events : String → List Emitted → Db → Db
apply_events run_id [] db = db
apply_events run_id (e ∷ es) db =
    apply_events run_id es (apply_event_to_run e.now run_id e.event_type e.payload db)

abbrev pub any_ends : List Emitted → Bool
any_ends [] = false
any_ends (e ∷ es) = is_pm_terminal_run_event e.event_type || any_ends es

-- After any sequence of events of a run, the run has ended exactly if it had ended before, or one of the
-- events is in PM_TERMINAL_RUN_EVENTS: no operational event ends a run, and none takes one up again.
pub apply_events-ends :
    (run_id : String) (es : List Emitted) (db : Db) (run : ExecutionRun)
    → str_eq run_id "" ≡ false
    → get_execution_run run_id db ≡ some run
    → (after : ExecutionRun) × (get_execution_run run_id (apply_events run_id es db) ≡ some after)
      × (is_terminal_run after.status ≡ (is_terminal_run run.status || any_ends es))
apply_events-ends run_id [] db run named h = (run, h, ground arith)
apply_events-ends run_id (e ∷ es) db run named h =
    let next = run_after e.now e.event_type e.payload run in
    let (after, found, ends) =
      apply_events-ends run_id es (apply_event_to_run e.now run_id e.event_type e.payload db) next
        named (apply_event_to_run-find e.now run_id e.event_type e.payload db run named h) in
    let one = run_after-ends e.now e.event_type e.payload run in
    (after, found, ground (arith, one, ends))

run_after-event_of :
    (now : ℕ) (o : RunOutcome) (p : EventPayload) (run : ExecutionRun)
    → is_terminal_run run.status ≡ false
    → (run_after now (event_of o) p run).status ≡ status_of o
unfolding event_change is_pm_terminal_run_event is_terminal_run_event
run_after-event_of now RunOutcome.success p run h = rw h refl
run_after-event_of now RunOutcome.sponsor_decision_required p run h = rw h refl
run_after-event_of now RunOutcome.unrecoverable_technical p run h = rw h refl
run_after-event_of now RunOutcome.max_remediation_exceeded p run h = rw h refl
run_after-event_of now RunOutcome.cancelled_by_sponsor p run h = rw h refl

status_of-ends : (o : RunOutcome) → is_terminal_run (status_of o) ≡ ends_run o
status_of-ends RunOutcome.success = refl
status_of-ends RunOutcome.sponsor_decision_required = refl
status_of-ends RunOutcome.unrecoverable_technical = refl
status_of-ends RunOutcome.max_remediation_exceeded = refl
status_of-ends RunOutcome.cancelled_by_sponsor = refl

-- The event of an outcome, as event_for_outcome gives it, takes a run that has not ended to the status of
-- the same outcome, as run_status_for_outcome gives it; and it ends the run exactly if
-- is_terminal_outcome says so. This holds of every text that is read as an outcome.
pub apply_event_to_run-event_for_outcome :
    (now : ℕ) (run_id outcome event_type : String) (p : EventPayload) (db : Db) (run : ExecutionRun)
    → str_eq run_id "" ≡ false
    → get_execution_run run_id db ≡ some run
    → is_terminal_run run.status ≡ false
    → event_for_outcome outcome ≡ some event_type
    → (after : ExecutionRun) × (get_execution_run run_id
          (apply_event_to_run now run_id event_type p db)
        ≡ some after)
      × (run_status_for_outcome outcome ≡ some after.status)
      × (is_terminal_outcome outcome ≡ some (is_terminal_run after.status))
unfolding event_for_outcome run_status_for_outcome is_terminal_outcome
apply_event_to_run-event_for_outcome now run_id outcome event_type p db run named h open_run
      named_by =
    elim (Option-cases (resolve_outcome outcome)) [
      | inl e ↦ let q : none ≡ some event_type = rw (e, event_for_outcome) at named_by in cc
      | inr (o, e) ↦
          let q : some (event_of o) ≡ some event_type = rw (e, event_for_outcome) at named_by in
          let same : event_of o ≡ event_type = cc in
          let s : (run_after now event_type p run).status ≡ status_of o =
            rw (sym same) (run_after-event_of now o p run open_run) in
          (
            run_after now event_type p run,
            apply_event_to_run-find now run_id event_type p db run named h,
            rw (e, run_status_for_outcome, s) refl,
            rw (e, is_terminal_outcome, s, status_of-ends o) refl,
          )
    ]
