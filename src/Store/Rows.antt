-- ===== src/Store/Rows.antt =====
-- store.py: the row accessors that every operation uses, and the log of run events.
use project_os_agentic_agile.Base.{
  ℕ, String, Bool, true, [], ◌∷◌, ◌++◌, Option, none, some, ◌==◌, str_eq, if◌then◌else◌, find,
  count, update,
}
use project_os_agentic_agile.Store.Schema.{Job, JobStatus, Lease, Db, Message, Payload}
use project_os_agentic_agile.Store.Action.{
  Action, ok, ◌>>=◌, ◌>>◌, pure, raise, modify, require, job_not_found, payload_project,
}

-- WHERE id = ?
abbrev pub has_id : ℕ → Job → Bool
has_id id j = j.id == id

abbrev pub find_job : ℕ → Db → Option Job
find_job id db = find (has_id id) db.jobs

unfoldable pub get_or_raise : Option Job → Action Job
get_or_raise none = raise job_not_found
get_or_raise (some j) = pure j

unfoldable pub row_to_job : ℕ → Action Job
row_to_job id db = get_or_raise (find_job id db) db

unfoldable pub get_job_by_human_id : String → Action (Option Job)
get_job_by_human_id human_id db = (ok (find (λ j. str_eq j.human_id human_id) db.jobs), db)

unfoldable pub job_project_human_id : ℕ → Action String
job_project_human_id id = do j ← row_to_job id; pure j.project_human_id

-- The key `project_human_id` of an event's payload; one event has it.
abbrev pub payload_project_of : Option Payload → Option String
payload_project_of (some (Payload.revalidated j)) = some j.project_human_id
payload_project_of _ = none

abbrev pub project_agrees : Option String → String → Bool
project_agrees none pid = true
project_agrees (some p) pid = if str_eq p "" then true else str_eq p pid

unfoldable pub append_run_event :
    ℕ → String → Option JobStatus → Option Message → Option Payload → Action (Unit {0})
append_run_event job_id event_type status message payload = do
  pid ← job_project_human_id job_id
  require (project_agrees (payload_project_of payload) pid) payload_project
  modify (λ db. record db {
    events =
        db.events
        ++ record {
          job_id = job_id;
          event_type = event_type;
          status = status;
          message = message;
          payload = payload;
        }
          ∷ [];
  })

-- UPDATE orchestration_jobs SET … WHERE …, with `cur.rowcount`.
unfoldable pub update_jobs : (Job → Bool) → (Job → Job) → Action ℕ
update_jobs p f db = (ok (count p db.jobs), record db { jobs = update p f db.jobs })

unfoldable pub update_leases : (Lease → Bool) → (Lease → Lease) → Action (Unit {0})
update_leases p f db = (ok tt, record db { leases = update p f db.leases })

-- Opening this opens the actions above.
unfoldable pub row_actions : Unit {0}
unfolding ◌>>=◌ get_or_raise row_to_job get_job_by_human_id job_project_human_id append_run_event
    update_jobs update_leases
row_actions = tt
