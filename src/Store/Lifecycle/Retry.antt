-- ===== src/Store/Lifecycle/Retry.antt =====
-- A failed job's next attempt: the policy of `mark_failure`, and when the retry may start.
use project_os_agentic_agile.Base.{
  ℕ, suc, ◌+◌, ◌*◌, ◌≤◌, ◌<◌, min, String, Bool, true, false, List, [], ◌∷◌, Option, none, some,
  ◌≡◌, refl, ap, ◌∙◌, ◌⊎◌, inl, inr, ltb, leb, find, find-update, find-In, count, update, arith,
  Bool-cases,
}
use project_os_agentic_agile.Store.Schema.{Job, JobStatus, Db, Message, same_status}
use project_os_agentic_agile.Store.Action.{ok, err, retry_in_future}
use project_os_agentic_agile.Store.Rows.{has_id, find_job, row_actions}
use project_os_agentic_agile.Store.Leases.{iso, parse_iso}
use project_os_agentic_agile.Store.Consistency.{IsConsistent}
use project_os_agentic_agile.Store.Consistency.Updates.{has_open}
use project_os_agentic_agile.Store.Consistency.Lifecycle.{Kept-mark_failure}
use project_os_agentic_agile.Store.Lifecycle.{
  has_id_in, retry_is_due, fail_job, mark_failure, promote_retry, promote_retry_wait_to_ready,
}
use project_os_agentic_agile.Store.Lifecycle.Failure.{mark_failure-Ended}

-- The three ways a failed job `j` may go on, as `i`.
abbrev pub Outcome : (blocked : Bool) (read : ℕ) → (j i : Job) → Type 0
Outcome blocked read j i =
    ((blocked ≡ true) × (i.status ≡ JobStatus.blocked) × (i.retry_at ≡ none))
    ⊎ (((blocked ≡ false)
          × (j.max_attempts ≤ suc j.attempt)
          × (i.status ≡ JobStatus.failed)
          × (i.retry_at ≡ none))
        ⊎ ((blocked ≡ false)
            × (suc j.attempt < j.max_attempts)
            × (i.status ≡ JobStatus.retry_wait)
            × (i.retry_at ≡ some (iso (read + min (30 * suc j.attempt) 300 * 1000000)))))

plus_one :
    (read n : ℕ)
    → some (iso (read + min (30 * (n + 1)) 300 * 1000000))
      ≡ some (iso (read + min (30 * suc n) 300 * 1000000))
plus_one read n = ap (λ m. some (iso (read + min (30 * m) 300 * 1000000))) (omega arith)

fail_job-Outcome :
    (at read : ℕ) (error : Message) (output_ref : Option String) (blocked : Bool) (j : Job)
    → Outcome blocked read j (fail_job at read error output_ref blocked j j)
fail_job-Outcome at read error output_ref true j = inl (refl, refl, refl)
fail_job-Outcome at read error output_ref false j =
    elim (Bool-cases (leb j.max_attempts (j.attempt + 1))) [
      | inl e ↦ inr (inl (refl, ground arith, rw e refl, rw e refl))
      | inr e ↦ inr (inr (refl, ground arith, rw e refl, rw e (plus_one read j.attempt)))
    ]

count_in-le :
    (k : ℕ) (s : JobStatus) (jobs : List Job) → count (has_id_in k s) jobs ≤ count (has_id k) jobs
count_in-le k s [] = omega arith
count_in-le k s (j ∷ js) = ground (arith, count_in-le k s js)

count_in :
    (k : ℕ) (s : JobStatus) (jobs : List Job) (j : Job)
    → count (has_id k) jobs ≤ 1
    → find (has_id k) jobs ≡ some j
    → same_status j.status s ≡ true
    → count (has_id_in k s) jobs ≡ 1
count_in k s [] j u h e = cc
count_in k s (i ∷ is) j u h e = ground (arith, count_in k s is j, count_in-le k s is)

find-update_in :
    (k : ℕ) (s : JobStatus) (f : Job → Job) (jobs : List Job) (j : Job)
    → ((i : Job) → (f i).id ≡ i.id)
    → find (has_id k) jobs ≡ some j
    → same_status j.status s ≡ true
    → find (has_id k) (update (has_id_in k s) f jobs) ≡ some (f j)
find-update_in k s f jobs j keeps h e =
    find-update (has_id k) (has_id_in k s) f jobs (λ i. rw (keeps i))
    ∙ rw (h, (find-In (has_id k) jobs h).1, e) refl

module _ (moment k : ℕ) (reason : String) (db : Db) (j : Job) (h : find_job k db ≡ some j)
    (waits : j.status ≡ JobStatus.retry_wait) where
  promote_refused :
      retry_is_due moment j.retry_at ≡ false
      → (promote_retry_wait_to_ready moment k reason db).0 ≡ err retry_in_future
  unfolding promote_retry_wait_to_ready row_actions
  promote_refused off = ground (arith, h, off, waits)

  promote_done :
      count (has_id k) db.jobs ≤ 1
      → retry_is_due moment j.retry_at ≡ true
      → (promote_retry_wait_to_ready moment k reason db).0 ≡ ok (promote_retry (iso moment) j)
  unfolding promote_retry_wait_to_ready row_actions
  promote_done one due =
      let s : same_status j.status JobStatus.retry_wait ≡ true = rw waits refl in
      ground (
        arith,
        h,
        due,
        s,
        count_in k JobStatus.retry_wait db.jobs j one h s,
        find-update_in k JobStatus.retry_wait (promote_retry (iso moment)) db.jobs j (λ i. refl) h
            s,
      )

module _ (now read later sync_at : ℕ) (fresh : String) (k : ℕ) (error : Message)
    (output_ref : Option String) where
  -- Where the job is found, `mark_failure` returns its row: one attempt more, no unreleased lease, and
  -- BLOCKED where the caller says so, FAILED where the attempts are used up, and otherwise RETRY_WAIT
  -- with a retry min(30 * attempt, 300) seconds after the reading of the clock.
  pub mark_failure-policy :
      (blocked : Bool) (db : Db) (j : Job)
      → find_job k db ≡ some j
      → (i : Job) × (let (r, after) =
            mark_failure now read later sync_at fresh k error output_ref blocked db in
          (r ≡ ok i)
          × (find_job k after ≡ some i)
          × (has_open k after.leases ≡ false)
          × (i.attempt ≡ suc j.attempt)
          × Outcome blocked read j i)
  mark_failure-policy blocked db j h =
      let (r, e) =
        mark_failure-Ended now read later sync_at fresh k error output_ref blocked db j h in
      (
        fail_job (iso now) read error output_ref blocked j j,
        (
          r,
          e.row,
          e.closed,
          omega arith,
          fail_job-Outcome (iso now) read error output_ref blocked j,
        ),
      )

  abbrev after_failure : Db → Db
  after_failure db = (mark_failure now read later sync_at fresh k error output_ref false db).1

  abbrev retry_time : Job → ℕ
  retry_time j = iso (read + min (30 * suc j.attempt) 300 * 1000000)

  -- What the failure leaves of a job with attempts to spare.
  waiting_row :
      (db : Db) (j : Job)
      → find_job k db ≡ some j
      → suc j.attempt < j.max_attempts
      → (i : Job) × (find_job k (after_failure db) ≡ some i)
        × (i.status ≡ JobStatus.retry_wait)
        × (i.retry_at ≡ some (retry_time j))
        × (i.attempt ≡ suc j.attempt)
  waiting_row db j h spare =
      let (i, (_, row, _, a, o)) = mark_failure-policy false db j h in
      elim o [
        | inl (b, _, _) ↦ cc b
        | inr (inl (_, le, _, _)) ↦ absurd (omega (arith, le, spare))
        | inr (inr (_, _, s, t)) ↦ (i, row, s, t, a)
      ]

  -- A job that failed with an attempt to spare is not promoted before its retry time.
  pub promote-after_failure_refused :
      (db : Db) (j : Job) (moment : ℕ) (reason : String)
      → find_job k db ≡ some j
      → suc j.attempt < j.max_attempts
      → ltb moment (parse_iso (iso (read + min (30 * suc j.attempt) 300 * 1000000))) ≡ true
      → (promote_retry_wait_to_ready moment k reason (after_failure db)).0 ≡ err retry_in_future
  promote-after_failure_refused db j moment reason h spare early =
      let (i, row, s, t, a) = waiting_row db j h spare in
      promote_refused moment k reason (after_failure db) i row s (rw (t, early) refl)

  -- From the retry time on it is promoted, on consistent tables: READY, one attempt used, and with no
  -- retry time or error left.
  pub promote-after_failure :
      (db : Db) (j : Job) (moment : ℕ) (reason : String)
      → IsConsistent db
      → find_job k db ≡ some j
      → suc j.attempt < j.max_attempts
      → ltb moment (parse_iso (iso (read + min (30 * suc j.attempt) 300 * 1000000))) ≡ false
      → (i : Job) × ((promote_retry_wait_to_ready moment k reason (after_failure db)).0 ≡ ok i)
        × (i.status ≡ JobStatus.ready)
        × (i.attempt ≡ suc j.attempt)
        × (i.retry_at ≡ none)
        × (i.last_error ≡ none)
  promote-after_failure db j moment reason c h spare due =
      let (i, row, s, t, a) = waiting_row db j h spare in
      let c' = (Kept-mark_failure now read later sync_at fresh k error output_ref false).at db c in
      (
        promote_retry (iso moment) i,
        promote_done moment k reason (after_failure db) i row s (c'.job_unique k)
            (rw (t, due) refl),
        refl,
        a,
        refl,
        refl,
      )
