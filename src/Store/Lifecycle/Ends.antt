-- ===== src/Store/Lifecycle/Ends.antt =====
-- The operations that end a job: `mark_succeeded`, `mark_cancelled` and `mark_blocked`.
use project_os_agentic_agile.Base.{ℕ, String, false, truthy, Option, none, some, ◌≡◌, refl}
use project_os_agentic_agile.Store.Schema.{Job, JobStatus, Db, Message}
use project_os_agentic_agile.Store.Action.{Result, ok}
use project_os_agentic_agile.Store.Rows.{find_job, payload_project_of}
use project_os_agentic_agile.Store.Leases.{iso}
use project_os_agentic_agile.Store.Consistency.Updates.{has_open}
use project_os_agentic_agile.Store.Lifecycle.{
  block_job, mark_blocked, succeed_job, outcome_payload, mark_succeeded, cancel_job, mark_cancelled,
}
use project_os_agentic_agile.Store.Lifecycle.Failure.{
  IsEndedAs, end_job-Ended, bind-after_ok, pure_returns, sync-ok, sync-Ended,
}

-- The operation returned the row it left, of that status, completed at that time, without a lease.
abbrev pub EndsIn : (k : ℕ) → JobStatus → (at : ℕ) → Job → Result Job × Db → Type 0
EndsIn k s at j (r, db) =
    (i : Job) × (r ≡ ok i)
    × (find_job k db ≡ some i)
    × (has_open k db.leases ≡ false)
    × (i.status ≡ s)
    × (i.completed_at ≡ some at)
    × (i.attempt ≡ j.attempt)

outcome_payload-free : (o : Option String) → payload_project_of (outcome_payload o) ≡ none
outcome_payload-free none = refl
outcome_payload-free (some o) = refl

mark_succeeded-Ended :
    (now later sync_at : ℕ) (fresh : String) (k : ℕ) (output sha outcome : Option String) (db : Db)
    (j : Job)
    → find_job k db ≡ some j
    → IsEndedAs k
        (succeed_job (iso now) output sha outcome j)
        (mark_succeeded now later sync_at fresh k output sha outcome db)
unfolding mark_succeeded
mark_succeeded-Ended now later sync_at fresh k output sha outcome db j h =
    let f = succeed_job (iso now) output sha outcome in
    let i = f j in
    let (r, e) =
      end_job-Ended k f "job.succeeded" JobStatus.succeeded
        (Message.text "Worker task completed (not QA/release acceptance)")
        (outcome_payload (truthy outcome)) later (Message.text "succeeded") db j (λ x. refl)
        (outcome_payload-free (truthy outcome)) h in
    bind-after_ok (IsEndedAs k i) _ _ db i r (
      bind-after_ok (IsEndedAs k i) _ _ _ tt (sync-ok fresh sync_at i _)
        (pure_returns k i _ (sync-Ended fresh sync_at i k i _ e)))

-- Where the job is found, each of the three operations returns the row that it leaves, with the status
-- of the operation and the time of completion, the attempts as they were, and no unreleased lease.
pub end_job-EndsIn :
    (now later sync_at : ℕ) (fresh : String) (k : ℕ) (output sha outcome : Option String)
    (reason : String) (error release : Message) (db : Db) (j : Job)
    → find_job k db ≡ some j
    → EndsIn k JobStatus.succeeded
        (iso now)
        j
        (mark_succeeded now later sync_at fresh k output sha outcome db)
      × EndsIn k JobStatus.cancelled (iso now) j (mark_cancelled now later k reason db)
      × EndsIn k JobStatus.blocked (iso now) j (mark_blocked now later k error release db)
unfolding mark_cancelled mark_blocked
end_job-EndsIn now later sync_at fresh k output sha outcome reason error release db j h =
    let (r, e) = mark_succeeded-Ended now later sync_at fresh k output sha outcome db j h in
    let (r1, e1) =
      end_job-Ended k (cancel_job (iso now) reason) "job.cancelled" JobStatus.cancelled
        (Message.text reason) none later (Message.text "cancelled") db j (λ x. refl) refl h in
    let (r2, e2) =
      end_job-Ended k (block_job (iso now) error) "job.blocked" JobStatus.blocked error none later
        release db j (λ x. refl) refl h in
    (
      (succeed_job (iso now) output sha outcome j, r, e.row, e.closed, refl, refl, refl),
      (cancel_job (iso now) reason j, r1, e1.row, e1.closed, refl, refl, refl),
      (block_job (iso now) error j, r2, e2.row, e2.closed, refl, refl, refl),
    )
