-- ===== src/Store/Isolation/Kept.antt =====
-- The operations that leave the projects, the roots and the edges alone.
use project_os_agentic_agile.Base.{
  ℕ, Bool, true, false, String, List, [], ◌∷◌, Option, none, some, refl,
}
use project_os_agentic_agile.Store.Schema.{Job, Lease, Message}
use project_os_agentic_agile.Store.Framing.{
  Frames, Frames-pure, Frames-bind, Frames-raise, Frames-modify, action_rules,
}
use project_os_agentic_agile.Store.Rows.{job_project_human_id}
use project_os_agentic_agile.Store.Leases.{
  release_lease, recover_row, recover_rows, recover_expired_leases, insert_lease, claim_ready,
  acquire_lease,
}
use project_os_agentic_agile.Store.Lifecycle.{
  mark_running, promote_retry_wait_to_ready, promote_queued_to_ready, mark_blocked,
  mark_ready_from_blocked, mark_succeeded, mark_cancelled, mark_failure, end_job,
}
use project_os_agentic_agile.Store.Creation.{
  projects_of, single_project, require_same_project, require_reference, update_job_worktree,
  set_job_outcome, set_job_assignment, set_job_source_provenance,
}
use project_os_agentic_agile.Store.Isolation.Identity.{same_identity, untouched, same_rules}

pub Same-recover_row : (moment : ℕ) (x : Lease × Job) → Frames same_identity (recover_row moment x)
unfolding recover_row
Same-recover_row moment (l, j) = search same_rules depth 12

pub Same-recover_rows :
    (moment : ℕ) (rows : List (Lease × Job)) → Frames same_identity (recover_rows moment rows)
unfolding recover_rows
Same-recover_rows moment [] = Frames-pure []
Same-recover_rows moment (x ∷ xs) =
    Frames-bind _ _ (Same-recover_row moment x)
      λ _. Frames-bind _ _ (Same-recover_rows moment xs) (λ ids. Frames-pure _)

pub Same-recover_expired_leases :
    (moment : ℕ) (project : Option String)
    → Frames same_identity (recover_expired_leases moment project)
unfolding recover_expired_leases
Same-recover_expired_leases moment project = record {
  at = λ db. (Same-recover_rows moment _).at db;
}

Same-insert_lease :
    (taken : Bool) (k : ℕ) (worker : String) (leased_at expires_at : ℕ)
    → Frames same_identity (insert_lease taken k worker leased_at expires_at)
unfolding insert_lease
Same-insert_lease true k worker leased_at expires_at = search same_rules depth 12
Same-insert_lease false k worker leased_at expires_at =
    Frames-bind _ _ (search same_rules)
      λ l. Frames-bind _ _ (Frames-modify _ (λ db. untouched db _ refl refl)) (λ _. Frames-pure l)

Same-claim_ready :
    (k : ℕ) (worker : String) (leased_at expires_at seconds : ℕ)
    → Frames same_identity (claim_ready k worker leased_at expires_at seconds)
unfolding claim_ready
Same-claim_ready k worker leased_at expires_at seconds =
    Frames-bind _ _ (Frames-modify _ (λ db. untouched db _ refl refl))
      λ _. search (same_rules, Same-insert_lease) depth 12

pub Same-acquire_lease :
    (job : Job) (worker : String) (seconds recovery moment : ℕ)
    → Frames same_identity (acquire_lease job worker seconds recovery moment)
unfolding acquire_lease
Same-acquire_lease job worker seconds recovery moment =
    search (action_rules, Same-recover_expired_leases, Same-claim_ready)

pub Same-mark_running : (now k : ℕ) → Frames same_identity (mark_running now k)
unfolding mark_running
Same-mark_running now k = search same_rules depth 12

pub Same-promote_retry_wait_to_ready :
    (moment k : ℕ) (reason : String)
    → Frames same_identity (promote_retry_wait_to_ready moment k reason)
unfolding promote_retry_wait_to_ready
Same-promote_retry_wait_to_ready moment k reason = search same_rules depth 12

pub Same-promote_queued_to_ready :
    (now k : ℕ) (reason : String) → Frames same_identity (promote_queued_to_ready now k reason)
unfolding promote_queued_to_ready
Same-promote_queued_to_ready now k reason = search same_rules depth 12

pub Same-mark_ready_from_blocked :
    (now k : ℕ) (reason : String) → Frames same_identity (mark_ready_from_blocked now k reason)
unfolding mark_ready_from_blocked
Same-mark_ready_from_blocked now k reason = search same_rules depth 12

pub Same-mark_blocked :
    (now later k : ℕ) (error reason : Message)
    → Frames same_identity (mark_blocked now later k error reason)
unfolding mark_blocked end_job release_lease
Same-mark_blocked now later k error reason = search same_rules depth 12

pub Same-mark_cancelled :
    (now later k : ℕ) (reason : String) → Frames same_identity (mark_cancelled now later k reason)
unfolding mark_cancelled end_job release_lease
Same-mark_cancelled now later k reason = search same_rules depth 12

pub Same-mark_succeeded :
    (now later sync_at : ℕ) (fresh : String) (k : ℕ) (output sha outcome : Option String)
    → Frames same_identity (mark_succeeded now later sync_at fresh k output sha outcome)
unfolding mark_succeeded end_job release_lease
Same-mark_succeeded now later sync_at fresh k output sha outcome = search same_rules depth 12

pub Same-mark_failure :
    (now read later sync_at : ℕ) (fresh : String) (k : ℕ) (error : Message) (output : Option String)
    (blocked : Bool)
    → Frames same_identity (mark_failure now read later sync_at fresh k error output blocked)
unfolding mark_failure end_job release_lease
Same-mark_failure now read later sync_at fresh k error output blocked = search same_rules depth 12

Same-projects_of : (ids : List ℕ) → Frames same_identity (projects_of ids)
unfolding projects_of job_project_human_id
Same-projects_of [] = Frames-pure []
Same-projects_of (i ∷ is) =
    Frames-bind _ _ (search same_rules)
      λ p. Frames-bind _ _ (Same-projects_of is) (λ ps. Frames-pure (p ∷ ps))

Same-single_project : (ps : List String) → Frames same_identity (single_project ps)
unfolding single_project
Same-single_project [] = Frames-raise _
Same-single_project (p ∷ ps) = search action_rules

Same-require_reference : (k : ℕ) (o : Option ℕ) → Frames same_identity (require_reference k o)
unfolding require_reference require_same_project
Same-require_reference k none = Frames-pure tt
Same-require_reference k (some i) =
    search (action_rules, Same-projects_of, Same-single_project) depth 8

pub Same-update_job_worktree :
    (now k : ℕ) (name path : String) (sha : Option String)
    → Frames same_identity (update_job_worktree now k name path sha)
unfolding update_job_worktree
Same-update_job_worktree now k name path sha = search same_rules depth 12

pub Same-set_job_outcome :
    (now k : ℕ) (outcome : String) (by : Option ℕ)
    → Frames same_identity (set_job_outcome now k outcome by)
unfolding set_job_outcome
Same-set_job_outcome now k outcome by = search (same_rules, Same-require_reference) depth 12

pub Same-set_job_assignment :
    (now k : ℕ) (assignment : String) → Frames same_identity (set_job_assignment now k assignment)
unfolding set_job_assignment
Same-set_job_assignment now k assignment = search same_rules depth 12

pub Same-set_job_source_provenance :
    (now k : ℕ) (source : Option ℕ) (sha : Option String)
    → Frames same_identity (set_job_source_provenance now k source sha)
unfolding set_job_source_provenance
Same-set_job_source_provenance now k source sha =
    search (same_rules, Same-require_reference) depth 12
