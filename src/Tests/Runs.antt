-- ===== src/Tests/Runs.antt =====
-- A run at concrete input: it works, is blocked, and hears of a failure afterwards.
use project_os_agentic_agile.Base.{List, [], ◌∷◌, ◌||◌, none, some, ◌≡◌, refl}
use project_os_agentic_agile.Store.Schema.{ExecutionRun, Db, empty}
use project_os_agentic_agile.Store.NextActions.Backing.{get_execution_run, is_terminal_run}
use project_os_agentic_agile.Runs.{EventPayload, new_run, apply_event_to_run}
use project_os_agentic_agile.Runs.Outcomes.{
  event_for_outcome, resolve_outcome, run_status_for_outcome, is_terminal_outcome,
}
use project_os_agentic_agile.Runs.Terminal.{
  Emitted, apply_events, any_ends, apply_events-ends, apply_event_to_run-event_for_outcome,
}

abbrev the_run : ExecutionRun
the_run = new_run "RUN-1" 1 "PRJ-1" none "implement" "a feature"

abbrev db : Db
db = record empty { runs = the_run ∷ [] }

abbrev payload : EventPayload
payload = record {
  phase = "WORK";
  actor_id = "";
  progress = none;
  summary = "work";
  evidence = none;
}

abbrev events : List Emitted
events =
    record { now = 2; event_type = "WORK_STARTED"; payload = payload }
    ∷ record { now = 3; event_type = "RUN_BLOCKED"; payload = payload }
    ∷ record { now = 4; event_type = "RUN_FAILED"; payload = payload }
    ∷ []

apply_events-ends_example :
    (after : ExecutionRun) × (get_execution_run "RUN-1" (apply_events "RUN-1" events db)
      ≡ some after)
    × (is_terminal_run after.status ≡ (is_terminal_run the_run.status || any_ends events))
apply_events-ends_example = apply_events-ends "RUN-1" events db the_run refl refl

blocks : event_for_outcome " failed " ≡ some "RUN_BLOCKED"
unfolding event_for_outcome resolve_outcome
blocks = refl

apply_event_to_run-event_for_outcome_example :
    (after : ExecutionRun) × (get_execution_run "RUN-1"
        (apply_event_to_run 2 "RUN-1" "RUN_BLOCKED" payload db)
      ≡ some after)
    × (run_status_for_outcome " failed " ≡ some after.status)
    × (is_terminal_outcome " failed " ≡ some (is_terminal_run after.status))
apply_event_to_run-event_for_outcome_example =
    apply_event_to_run-event_for_outcome 2 "RUN-1" " failed " "RUN_BLOCKED" payload db the_run refl
      refl refl blocks
