-- ===== src/Store/NextActions/ReadOnly.antt =====
-- The checks of an action's backing only read.
use project_os_agentic_agile.Base.{ℕ, String, Option, arith}
use project_os_agentic_agile.Store.Schema.{ActionType}
use project_os_agentic_agile.Store.Framing.{ReadOnly}
use project_os_agentic_agile.Store.NextActions.Backing.{validate_action_backing, backing_checks}
use project_os_agentic_agile.Store.NextActions.Liveness.{list_active_next_actions}

pub ReadOnly-validate_action_backing :
    (t : ActionType) (run_id : String) (job_id : Option ℕ) (work_id : Option String)
    (due_at : Option ℕ)
    → ReadOnly (validate_action_backing t run_id job_id work_id due_at)
unfolding backing_checks
ReadOnly-validate_action_backing ActionType.executable_job r j w d = record {
  at = λ db. ground arith;
}
ReadOnly-validate_action_backing t r j w d = record { at = λ db. ground arith }

pub ReadOnly-list_active_next_actions : (r : String) → ReadOnly (list_active_next_actions r)
unfolding list_active_next_actions
ReadOnly-list_active_next_actions r = record { at = λ db. ground arith }
