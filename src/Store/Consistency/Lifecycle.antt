-- ===== src/Store/Consistency/Lifecycle.antt =====
-- Each operation of Store/Lifecycle.antt keeps the tables consistent.
use project_os_agentic_agile.Base.{ℕ, String, Bool, false, Option, none, some, ◌≡◌, refl, arith}
use project_os_agentic_agile.Store.Schema.{JobStatus, Message, is_active}
use project_os_agentic_agile.Store.Framing.{Frames}
use project_os_agentic_agile.Store.Rows.{update_jobs, payload_project_of}
use project_os_agentic_agile.Store.Lifecycle.{
  mark_running, promote_retry_wait_to_ready, promote_queued_to_ready, mark_blocked,
  mark_ready_from_blocked, mark_succeeded, mark_cancelled, mark_failure, has_id_in, start_job,
  promote_retry, promote_queued, unblock_job, failure_status, outcome_payload,
}
use project_os_agentic_agile.Store.Consistency.Kept.{
  keeps_consistent, kept_rules, Kept-update_jobs, Kept-end_job,
}

Kept-start :
    (k at : ℕ) → Frames keeps_consistent (update_jobs (has_id_in k JobStatus.leased) (start_job at))
Kept-start k at = Kept-update_jobs _ _ (λ j. refl) (λ j h. ground arith)

pub Kept-mark_running : (now k : ℕ) → Frames keeps_consistent (mark_running now k)
unfolding mark_running
Kept-mark_running now k = search (kept_rules, Kept-start) depth 12

Kept-promote_retry :
    (k at : ℕ)
    → Frames keeps_consistent (update_jobs (has_id_in k JobStatus.retry_wait) (promote_retry at))
Kept-promote_retry k at = Kept-update_jobs _ _ (λ j. refl) (λ j h. ground arith)

pub Kept-promote_retry_wait_to_ready :
    (moment k : ℕ) (reason : String)
    → Frames keeps_consistent (promote_retry_wait_to_ready moment k reason)
unfolding promote_retry_wait_to_ready
Kept-promote_retry_wait_to_ready moment k reason = search (kept_rules, Kept-promote_retry) depth 12

Kept-promote_queued :
    (k at : ℕ)
    → Frames keeps_consistent (update_jobs (has_id_in k JobStatus.queued) (promote_queued at))
Kept-promote_queued k at = Kept-update_jobs _ _ (λ j. refl) (λ j h. ground arith)

pub Kept-promote_queued_to_ready :
    (now k : ℕ) (reason : String) → Frames keeps_consistent (promote_queued_to_ready now k reason)
unfolding promote_queued_to_ready
Kept-promote_queued_to_ready now k reason = search (kept_rules, Kept-promote_queued) depth 12

Kept-unblock :
    (k at : ℕ)
    → Frames keeps_consistent (update_jobs (has_id_in k JobStatus.blocked) (unblock_job at))
Kept-unblock k at = Kept-update_jobs _ _ (λ j. refl) (λ j h. ground arith)

pub Kept-mark_ready_from_blocked :
    (now k : ℕ) (reason : String) → Frames keeps_consistent (mark_ready_from_blocked now k reason)
unfolding mark_ready_from_blocked
Kept-mark_ready_from_blocked now k reason = search (kept_rules, Kept-unblock) depth 12

pub Kept-mark_blocked :
    (now later k : ℕ) (error reason : Message)
    → Frames keeps_consistent (mark_blocked now later k error reason)
unfolding mark_blocked
Kept-mark_blocked now later k error reason =
    Kept-end_job k _ _ _ _ _ _ _ (λ j. refl) (λ j. refl) refl

pub Kept-mark_cancelled :
    (now later k : ℕ) (reason : String)
    → Frames keeps_consistent (mark_cancelled now later k reason)
unfolding mark_cancelled
Kept-mark_cancelled now later k reason = Kept-end_job k _ _ _ _ _ _ _ (λ j. refl) (λ j. refl) refl

outcome_free : (o : Option String) → payload_project_of (outcome_payload o) ≡ none
outcome_free none = refl
outcome_free (some o) = refl

pub Kept-mark_succeeded :
    (now later sync_at : ℕ) (fresh : String) (k : ℕ) (output sha outcome : Option String)
    → Frames keeps_consistent (mark_succeeded now later sync_at fresh k output sha outcome)
unfolding mark_succeeded
Kept-mark_succeeded now later sync_at fresh k output sha outcome =
    search (kept_rules, Kept-end_job, outcome_free) depth 12

failure_status-off :
    (blocked : Bool) (attempt max_attempts : ℕ)
    → is_active (failure_status blocked attempt max_attempts) ≡ false
failure_status-off blocked attempt max_attempts = ground arith

pub Kept-mark_failure :
    (now read later sync_at : ℕ) (fresh : String) (k : ℕ) (error : Message) (output : Option String)
    (blocked : Bool)
    → Frames keeps_consistent (mark_failure now read later sync_at fresh k error output blocked)
unfolding mark_failure
Kept-mark_failure now read later sync_at fresh k error output blocked =
    search (kept_rules, Kept-end_job, failure_status-off) depth 12
