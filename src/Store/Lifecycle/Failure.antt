-- ===== src/Store/Lifecycle/Failure.antt =====
-- A failed job: what `mark_failure` leaves, and when its retry may start.
use project_os_agentic_agile.Base.{
  ℕ, ◌+◌, String, Bool, false, List, [], ◌∷◌, ◌++◌, Option, none, some, ◌≡◌, refl, ◌∙◌, inl, inr,
  find, find-update, update, arith, find-In, ==_refl, Bool-cases,
}
use project_os_agentic_agile.Store.Schema.{Job, JobStatus, Db, Message, Payload, is_terminal}
use project_os_agentic_agile.Store.Action.{Action, Result, ok, ◌>>=◌, pure}
use project_os_agentic_agile.Store.Rows.{
  has_id, find_job, row_to_job, row_actions, payload_project_of,
}
use project_os_agentic_agile.Store.Leases.{iso, release_lease, is_open_for, close_lease}
use project_os_agentic_agile.Store.NextActions.Reconcile.{
  sync_next_actions_for_terminal_job, ignoring_errors,
}
use project_os_agentic_agile.Store.NextActions.Tables.{Frames-sync}
use project_os_agentic_agile.Store.Framing.{unchanged}
use project_os_agentic_agile.Store.Consistency.Frames.{Frames-row_to_job}
use project_os_agentic_agile.Store.Consistency.Updates.{has_open, has_open-close}
use project_os_agentic_agile.Store.Lifecycle.{
  end_job, failure_status, failure_event, fail_job, mark_failure,
}

-- The row of job `k` is `j`, and no lease of it is unreleased.
pub record Ended (k : ℕ) (j : Job) (db : Db) : Type 0 where
  pub row : find_job k db ≡ some j
  pub closed : has_open k db.leases ≡ false

update-found :
    (k : ℕ) (f : Job → Job) (jobs : List Job) (j : Job)
    → ((i : Job) → (f i).id ≡ i.id)
    → find (has_id k) jobs ≡ some j
    → find (has_id k) (update (has_id k) f jobs) ≡ some (f j)
update-found k f jobs j keeps h =
    find-update (has_id k) (has_id k) f jobs (λ i. rw (keeps i))
    ∙ rw (h, (find-In (has_id k) jobs h).1) refl

abbrev pub IsEndedAs : (k : ℕ) → Job → Result Job × Db → Type 0
IsEndedAs k j (r, db) = (r ≡ ok j) × Ended k j db

module _ (k : ℕ) (f : Job → Job) (t : String) (s : JobStatus) (m : Message) (p : Option Payload)
    (later : ℕ) (reason : Message) (db : Db) (j : Job) (keeps : (i : Job) → (f i).id ≡ i.id)
    (free : payload_project_of p ≡ none) (h : find_job k db ≡ some j) where
  end_job-eq : end_job k f t s m p later reason db ≡ (
    ok (f j),
    record db {
      jobs = update (has_id k) f db.jobs;
      leases = update (is_open_for k) (close_lease (iso later) reason) db.leases;
      events =
          (db.events
            ++ record { job_id = k; event_type = t; status = some s; message = some m; payload = p }
              ∷ [])
          ++ record {
            job_id = k;
            event_type = "lease.released";
            status = none;
            message = some reason;
            payload = none;
          }
            ∷ [];
    },
  )
  unfolding end_job release_lease row_actions
  end_job-eq = ground (arith, update-found k f db.jobs j keeps h, free)

  pub end_job-Ended : IsEndedAs k (f j) (end_job k f t s m p later reason db)
  end_job-Ended = rw end_job-eq (
    refl,
    record {
      row = update-found k f db.jobs j keeps h;
      closed = has_open-close k (iso later) reason k db.leases ∙ rw (==_refl k) refl;
    },
  )

pub sync-ok :
    (fresh : String) (now : ℕ) (job : Job) (db : Db)
    → (sync_next_actions_for_terminal_job fresh now job db).0 ≡ ok tt
unfolding sync_next_actions_for_terminal_job ignoring_errors ◌>>=◌
sync-ok fresh now job db = elim (Bool-cases (is_terminal job.status)) [
  | inl e ↦ rw e refl
  | inr e ↦ rw e refl
]

pub sync-Ended :
    (fresh : String) (now : ℕ) (job : Job) (k : ℕ) (j : Job) (db : Db)
    → Ended k j db
    → Ended k j (sync_next_actions_for_terminal_job fresh now job db).1
sync-Ended fresh now job k j db e =
    let o = (Frames-sync fresh now job).at db in
    record { row = rw o.jobs e.row; closed = rw o.leases e.closed }

-- What a block leaves whose first action returns.
pub bind-after_ok :
    {A B : Type 0} (P : Result B × Db → Type 0) (m : Action A) (f : A → Action B) (db : Db) (a : A)
    → (m db).0 ≡ ok a
    → P (f a (m db).1)
    → P ((m >>= f) db)
unfolding ◌>>=◌
bind-after_ok P m f db a e h = rw e h

row_to_job-ok : (k : ℕ) (db : Db) (j : Job) → find_job k db ≡ some j → (row_to_job k db).0 ≡ ok j
unfolding row_actions
row_to_job-ok k db j h = rw h refl

row_to_job-unchanged : (k : ℕ) (db : Db) → (row_to_job k db).1 ≡ db
row_to_job-unchanged k db = (Frames-row_to_job {F = unchanged} k).at db

pub pure_returns : (k : ℕ) (j : Job) (db : Db) → Ended k j db → IsEndedAs k j (pure j db)
unfolding ◌>>=◌
pure_returns k j db e = (refl, e)

module _ (now read later sync_at : ℕ) (fresh : String) (k : ℕ) (error : Message)
    (output_ref : Option String) (blocked : Bool) (db : Db) (j : Job)
    (h : find_job k db ≡ some j) where
  abbrev pub failed_job : Job
  failed_job = fail_job (iso now) read error output_ref blocked j j

  pub mark_failure-Ended :
      IsEndedAs k failed_job
        (mark_failure now read later sync_at fresh k error output_ref blocked db)
  unfolding mark_failure
  mark_failure-Ended =
      let attempt = j.attempt + 1 in
      let status = failure_status blocked attempt j.max_attempts in
      let (r, e) =
        end_job-Ended k (fail_job (iso now) read error output_ref blocked j) (failure_event status)
          status error (some (Payload.attempts attempt j.max_attempts)) later
          (Message.failure status) db j (λ i. refl) refl h in
      bind-after_ok (IsEndedAs k failed_job) (row_to_job k) _ db j (row_to_job-ok k db j h) (
        rw (row_to_job-unchanged k db) (
          bind-after_ok (IsEndedAs k failed_job) _ _ db failed_job r (
            bind-after_ok (IsEndedAs k failed_job) _ _ _ tt (sync-ok fresh sync_at failed_job _) (
              pure_returns k failed_job _ (sync-Ended fresh sync_at failed_job k failed_job _ e)))))
