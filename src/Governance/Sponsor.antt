-- ===== src/Governance/Sponsor.antt =====
-- store.py: the Sponsor's grant on a job.
use project_os_agentic_agile.Base.{ℕ, String, none, some}
use project_os_agentic_agile.Store.Schema.{Job, Message}
use project_os_agentic_agile.Store.Action.{Action, ◌>>=◌, ◌>>◌}
use project_os_agentic_agile.Store.Rows.{append_run_event, row_to_job, update_jobs, has_id}
use project_os_agentic_agile.Store.Leases.{iso}

abbrev pub grant : ℕ → String → Job → Job
grant at authority j = record j { sponsor_authority = some authority; updated_at = at }

unfoldable pub set_job_sponsor_authority : (now : ℕ) → ℕ → (authority : String) → Action Job
set_job_sponsor_authority now job_id authority = do
  _ ← update_jobs (has_id job_id) (grant (iso now) authority)
  append_run_event job_id "sponsor.granted" none (some (Message.text authority)) none
  row_to_job job_id
