-- ===== src/Store/Leases.antt =====
-- store.py: worker leases. An argument `now`, `read`, `later` is one reading of the clock, in
-- microseconds; what is stored of it is its whole seconds.
use project_os_agentic_agile.Base.{
  ℕ, suc, ◌+◌, ◌*◌, ◌/◌, String, Bool, true, false, not, ◌&&◌, List, [], ◌∷◌, ◌++◌, Option, none,
  some, ◌==◌, ltb, leb, str_eq, if◌then◌else◌, select, any, coalesce, truthy, is_some, is_none,
}
use project_os_agentic_agile.Store.Schema.{
  Job, JobStatus, Lease, Db, Message, Payload, is_active, same_status,
}
use project_os_agentic_agile.Store.Action.{
  Action, ok, ◌>>=◌, ◌>>◌, pure, raise, gets, modify, require, lease_seconds_not_positive,
  not_ready, lease_conflict,
}
use project_os_agentic_agile.Store.Rows.{
  find_job, has_id, append_run_event, update_jobs, update_leases,
}

-- `moment.replace(microsecond=0).isoformat()`, and `parse_iso` of it.
abbrev pub iso : ℕ → ℕ
iso moment = moment / 1000000

abbrev pub parse_iso : ℕ → ℕ
parse_iso seconds = seconds * 1000000

-- WHERE job_id = ? AND released_at IS NULL
abbrev pub is_open_for : ℕ → Lease → Bool
is_open_for id l = l.job_id == id && is_none l.released_at

abbrev pub close_lease : ℕ → Message → Lease → Lease
close_lease at reason l = record l { released_at = some at; release_reason = some reason }

unfoldable pub release_lease : (now : ℕ) → ℕ → Message → Action (Unit {0})
release_lease now job_id reason = do
  update_leases (is_open_for job_id) (close_lease (iso now) reason)
  append_run_event job_id "lease.released" none (some reason) none

-- The outcome of an expired lease: LEASED goes back to READY and burns no attempt; RUNNING burns
-- one, and waits for a retry or fails.
abbrev pub expired_status : Job → JobStatus
expired_status j =
    if same_status j.status JobStatus.leased
    then JobStatus.ready
    else if leb j.max_attempts (j.attempt + 1)
    then JobStatus.failed
    else JobStatus.retry_wait

abbrev pub expired_attempt : Job → ℕ
expired_attempt j = if same_status j.status JobStatus.leased then j.attempt else j.attempt + 1

abbrev pub expired_message : Job → Message
expired_message j =
    if same_status j.status JobStatus.leased
    then Message.expired_before_start
    else if leb j.max_attempts (j.attempt + 1)
    then Message.expired_exhausted (j.attempt + 1) j.max_attempts
    else Message.expired_retry (j.attempt + 1) j.max_attempts

-- The UPDATE of the job, with the values that were read of the row `j`.
abbrev pub expire_job : ℕ → Job → Job → Job
expire_job at j r = record r {
  status = expired_status j;
  attempt = expired_attempt j;
  started_at = none;
  completed_at =
      if same_status (expired_status j) JobStatus.failed then some at else r.completed_at;
  updated_at = at;
  last_error = some (expired_message j);
  ready_at =
      if same_status (expired_status j) JobStatus.ready
      then some (coalesce r.ready_at at)
      else r.ready_at;
}

-- The rows of the join: an unreleased lease with its job, which is LEASED or RUNNING.
abbrev pub active_row : Lease → Option Job → Option Job
active_row l none = none
active_row l (some j) = if is_active j.status && is_none l.released_at then some j else none

abbrev pub active_job_of : Db → Lease → Option Job
active_job_of db l = active_row l (find_job l.job_id db)

abbrev pub join_row : Lease → Option Job → List (Lease × Job) → List (Lease × Job)
join_row l none rows = rows
join_row l (some j) rows = (l, j) ∷ rows

abbrev pub lease_rows : Db → List Lease → List (Lease × Job)
lease_rows db [] = []
lease_rows db (l ∷ ls) = join_row l (active_job_of db l) (lease_rows db ls)

-- The two tests that skip a row of the loop.
abbrev pub is_expired : (moment : ℕ) → Option String → Lease × Job → Bool
is_expired moment project (l, j) =
    not (ltb moment (parse_iso l.expires_at))
    && elim (truthy project) [ none ↦ true | some p ↦ str_eq j.project_human_id p ]

unfoldable pub recover_row : (moment : ℕ) → Lease × Job → Action (Unit {0})
recover_row moment (l, j) = do
  update_leases (λ r. r.id == l.id && is_none r.released_at)
      (close_lease (iso moment) (Message.text "expired"))
  update_jobs (has_id l.job_id) (expire_job (iso moment) j)
  append_run_event l.job_id "lease.expired_recovered" (some (expired_status j))
      (some (expired_message j))
      (some (Payload.recovered j.status (expired_attempt j) j.max_attempts))

unfoldable pub recover_rows : (moment : ℕ) → List (Lease × Job) → Action (List ℕ)
recover_rows moment [] = pure []
recover_rows moment (r ∷ rs) = do
  recover_row moment r
  rest ← recover_rows moment rs
  pure (r.0.job_id ∷ rest)

-- The SELECT is read whole before the loop.
unfoldable pub recover_expired_leases : (moment : ℕ) → Option String → Action (List ℕ)
recover_expired_leases moment project db =
    recover_rows moment (select (is_expired moment project) (lease_rows db db.leases)) db

abbrev pub job_ids : List (Lease × Job) → List ℕ
job_ids [] = []
job_ids (r ∷ rs) = r.0.job_id ∷ job_ids rs

unfoldable pub list_expired_lease_job_ids : (moment : ℕ) → Option String → Action (List ℕ)
list_expired_lease_job_ids moment project db =
    (ok (job_ids (select (is_expired moment project) (lease_rows db db.leases))), db)

abbrev pub new_lease : (id job_id : ℕ) → String → (leased_at expires_at : ℕ) → Lease
new_lease id job_id worker_id leased_at expires_at = record {
  id = id;
  job_id = job_id;
  worker_id = worker_id;
  leased_at = leased_at;
  expires_at = expires_at;
  released_at = none;
  release_reason = none;
}

-- The INSERT, which UNIQUE (job_id) refuses; then `except IntegrityError` sets the job READY again.
unfoldable pub insert_lease : Bool → ℕ → String → (leased_at expires_at : ℕ) → Action Lease
insert_lease true job_id worker_id leased_at expires_at = do
  update_jobs (has_id job_id) (λ j. record j { status = JobStatus.ready; updated_at = leased_at })
  raise lease_conflict
insert_lease false job_id worker_id leased_at expires_at = do
  l ← gets (λ db. new_lease (suc db.lease_seq) job_id worker_id leased_at expires_at)
  modify (λ db. record db { leases = db.leases ++ l ∷ []; lease_seq = suc db.lease_seq })
  pure l

-- `DELETE FROM worker_leases WHERE job_id = ? AND released_at IS NOT NULL`
abbrev pub is_kept : ℕ → Lease → Bool
is_kept job_id l = not (l.job_id == job_id && is_some l.released_at)

abbrev pub is_ready_row : ℕ → Job → Bool
is_ready_row job_id j = has_id job_id j && same_status j.status JobStatus.ready

abbrev pub lease_job : ℕ → Job → Job
lease_job at j = record j { status = JobStatus.leased; updated_at = at }

-- The part of `acquire_lease` after the recovery of expired leases.
unfoldable pub claim_ready : ℕ → String → (leased_at expires_at lease_seconds : ℕ) → Action Lease
claim_ready job_id worker_id leased_at expires_at lease_seconds = do
  modify (λ db. record db { leases = select (is_kept job_id) db.leases })
  n ← update_jobs (is_ready_row job_id) (lease_job leased_at)
  require (n == 1) not_ready
  taken ← gets (λ db. any (λ l. l.job_id == job_id) db.leases)
  lease ← insert_lease taken job_id worker_id leased_at expires_at
  append_run_event job_id "lease.acquired" (some JobStatus.leased)
      (some (Message.lease_acquired_by worker_id))
      (some (Payload.lease_until expires_at lease_seconds))
  pure lease

unfoldable pub acquire_lease :
    Job → String → (lease_seconds : ℕ) → (recovery moment : ℕ) → Action Lease
acquire_lease job worker_id lease_seconds recovery moment = do
  require (ltb 0 lease_seconds) lease_seconds_not_positive
  recover_expired_leases recovery none
  claim_ready job.id worker_id (iso moment) (iso (moment + lease_seconds * 1000000)) lease_seconds
