-- ===== src/Store/Recovery.antt =====
-- What `recover_expired_leases` leaves: `recovered` is the database after it, without the monad.
pub mod Effect
pub mod Exclusive
use project_os_agentic_agile.Base.{
  ℕ, String, Bool, List, [], ◌∷◌, ◌++◌, none, some, ◌&&◌, ◌==◌, update, is_none,
}
use project_os_agentic_agile.Store.Schema.{Job, Lease, Db, Message, Payload}
use project_os_agentic_agile.Store.Rows.{has_id}
use project_os_agentic_agile.Store.Leases.{
  iso, close_lease, expired_status, expired_attempt, expired_message, expire_job,
}

abbrev pub recovered : (moment : ℕ) → Lease × Job → Db → Db
recovered moment (l, j) db = record db {
  leases =
      update (λ r. r.id == l.id && is_none r.released_at)
        (close_lease (iso moment) (Message.text "expired")) db.leases;
  jobs = update (has_id l.job_id) (expire_job (iso moment) j) db.jobs;
  events =
      db.events
      ++ record {
        job_id = l.job_id;
        event_type = "lease.expired_recovered";
        status = some (expired_status j);
        message = some (expired_message j);
        payload = some (Payload.recovered j.status (expired_attempt j) j.max_attempts);
      }
        ∷ [];
}

abbrev pub recovered_all : (moment : ℕ) → List (Lease × Job) → Db → Db
recovered_all moment [] db = db
recovered_all moment (r ∷ rs) db = recovered_all moment rs (recovered moment r db)
