-- ===== src/Store/Operations/Consistent.antt =====
-- Consistency through every operation, and through every sequence of operations.
use project_os_agentic_agile.Base.{
  ℕ, String, List, [], ◌∷◌, Option, none, some, ◌≡◌, refl, arith, ap, Bool, true, false, ◌++◌,
}
use project_os_agentic_agile.Store.Schema.{Job, Db, Dependency, empty, is_active}
use project_os_agentic_agile.Store.Framing.{
  Frames, Frames-bind, Frames-pure, Frames-raise, Frames-modify, action_rules,
}
use project_os_agentic_agile.Store.Leases.{acquire_lease, claim_ready}
use project_os_agentic_agile.Store.Creation.{
  projects_of, single_project, require_same_project, require_reference, insert_dependency,
  insert_edge, add_job_dependency, update_job_worktree, set_job_outcome, set_job_assignment,
  set_job_source_provenance,
}
use project_os_agentic_agile.Store.Rows.{job_project_human_id, update_jobs}
use project_os_agentic_agile.Store.Consistency.{IsConsistent}
use project_os_agentic_agile.Store.Consistency.Updates.{has_open, is_active_id}
use project_os_agentic_agile.Store.Consistency.Kept.{keeps_consistent, kept_rules, Kept-update_jobs}
use project_os_agentic_agile.Store.Consistency.Lifecycle
use project_os_agentic_agile.Store.Consistency.Recovery.{Kept-recover_expired_leases}
use project_os_agentic_agile.Store.Consistency.Claims.{claim_ready-IsConsistent}
use project_os_agentic_agile.Store.Consistency.Creation.{Kept-create_job}
use project_os_agentic_agile.Store.Operations.{
  Operation, create, acquire, recover, start, promote_retry, promote_queued, unblock, block, cancel,
  succeed, fail, depend, place, settle, assign, trace, apply, apply_all, IsAllowed, AllAllowed,
}

Kept-claim_ready :
    (k : ℕ) (worker : String) (leased_at expires_at seconds : ℕ)
    → Frames keeps_consistent (claim_ready k worker leased_at expires_at seconds)
Kept-claim_ready k worker leased_at expires_at seconds = record {
  at = λ db c. claim_ready-IsConsistent k worker leased_at expires_at seconds db c;
}

Kept-acquire_lease :
    (job : Job) (worker : String) (seconds recovery moment : ℕ)
    → Frames keeps_consistent (acquire_lease job worker seconds recovery moment)
unfolding acquire_lease
Kept-acquire_lease job worker seconds recovery moment =
    search (action_rules, Kept-recover_expired_leases, Kept-claim_ready)

Frames-projects_of : (ids : List ℕ) → Frames keeps_consistent (projects_of ids)
unfolding projects_of job_project_human_id
Frames-projects_of [] = Frames-pure []
Frames-projects_of (i ∷ is) =
    Frames-bind _ _ (search kept_rules)
      λ p. Frames-bind _ _ (Frames-projects_of is) (λ ps. Frames-pure (p ∷ ps))

Frames-single_project : (ps : List String) → Frames keeps_consistent (single_project ps)
unfolding single_project
Frames-single_project [] = Frames-raise _
Frames-single_project (p ∷ ps) = search action_rules

Frames-require_same_project : (ids : List ℕ) → Frames keeps_consistent (require_same_project ids)
unfolding require_same_project
Frames-require_same_project ids = search (action_rules, Frames-projects_of, Frames-single_project)

Frames-require_reference : (k : ℕ) (o : Option ℕ) → Frames keeps_consistent (require_reference k o)
unfolding require_reference
Frames-require_reference k none = Frames-pure tt
Frames-require_reference k (some i) = search (action_rules, Frames-require_same_project)

add_edge-Kept :
    (e : Dependency) (db : Db)
    → IsConsistent db
    → IsConsistent (record db { dependencies = db.dependencies ++ e ∷ [] })
add_edge-Kept e db c = record {
  held = c.held;
  job_unique = c.job_unique;
  job_fresh = c.job_fresh;
  lease_unique = c.lease_unique;
  lease_fresh = c.lease_fresh;
}

Frames-insert_edge : (b : Bool) (e : Dependency) → Frames keeps_consistent (insert_edge b e)
unfolding insert_edge
Frames-insert_edge true e = Frames-raise _
Frames-insert_edge false e = Frames-modify _ (add_edge-Kept e)

Kept-add_job_dependency : (i d : ℕ) → Frames keeps_consistent (add_job_dependency i d)
unfolding add_job_dependency insert_dependency
Kept-add_job_dependency i d =
    search (action_rules, Frames-require_same_project, Frames-insert_edge) depth 8

-- The updates that leave the status alone.
Kept-quiet :
    (p : Job → Bool) (f : Job → Job)
    → ((j : Job) → (f j).id ≡ j.id)
    → ((j : Job) → (f j).status ≡ j.status)
    → Frames keeps_consistent (update_jobs p f)
Kept-quiet p f keeps same = Kept-update_jobs p f keeps (λ j _. ap is_active (same j))

ruleset quiet_rules = (kept_rules, Frames-require_reference, Kept-quiet)

Kept-update_job_worktree :
    (now k : ℕ) (name path : String) (sha : Option String)
    → Frames keeps_consistent (update_job_worktree now k name path sha)
unfolding update_job_worktree
Kept-update_job_worktree now k name path sha = search quiet_rules depth 8

Kept-set_job_outcome :
    (now k : ℕ) (outcome : String) (by : Option ℕ)
    → Frames keeps_consistent (set_job_outcome now k outcome by)
unfolding set_job_outcome
Kept-set_job_outcome now k outcome by = search quiet_rules depth 8

Kept-set_job_assignment :
    (now k : ℕ) (assignment : String)
    → Frames keeps_consistent (set_job_assignment now k assignment)
unfolding set_job_assignment
Kept-set_job_assignment now k assignment = search quiet_rules depth 8

Kept-set_job_source_provenance :
    (now k : ℕ) (source : Option ℕ) (sha : Option String)
    → Frames keeps_consistent (set_job_source_provenance now k source sha)
unfolding set_job_source_provenance
Kept-set_job_source_provenance now k source sha = search quiet_rules depth 8

module _ (root_key : String → String) where
  pub apply-IsConsistent :
      (o : Operation) (db : Db) → IsAllowed o → IsConsistent db → IsConsistent (apply root_key o db)
  unfolding apply
  apply-IsConsistent (create now n) db h = (Kept-create_job root_key now n h).at db
  apply-IsConsistent (acquire job worker seconds recovery moment) db h =
      (Kept-acquire_lease job worker seconds recovery moment).at db
  apply-IsConsistent (recover moment project) db h =
      (Kept-recover_expired_leases moment project).at db
  apply-IsConsistent (start now k) db h = (Lifecycle.Kept-mark_running now k).at db
  apply-IsConsistent (promote_retry now k r) db h =
      (Lifecycle.Kept-promote_retry_wait_to_ready now k r).at db
  apply-IsConsistent (promote_queued now k r) db h =
      (Lifecycle.Kept-promote_queued_to_ready now k r).at db
  apply-IsConsistent (unblock now k r) db h = (Lifecycle.Kept-mark_ready_from_blocked now k r).at db
  apply-IsConsistent (block now later k e r) db h =
      (Lifecycle.Kept-mark_blocked now later k e r).at db
  apply-IsConsistent (cancel now later k r) db h =
      (Lifecycle.Kept-mark_cancelled now later k r).at db
  apply-IsConsistent (succeed now later sync_at fresh k output sha outcome) db h =
      (Lifecycle.Kept-mark_succeeded now later sync_at fresh k output sha outcome).at db
  apply-IsConsistent (fail now read later sync_at fresh k e output blocked) db h =
      (Lifecycle.Kept-mark_failure now read later sync_at fresh k e output blocked).at db
  apply-IsConsistent (depend i d) db h = (Kept-add_job_dependency i d).at db
  apply-IsConsistent (place now k name path sha) db h =
      (Kept-update_job_worktree now k name path sha).at db
  apply-IsConsistent (settle now k outcome by) db h = (Kept-set_job_outcome now k outcome by).at db
  apply-IsConsistent (assign now k a) db h = (Kept-set_job_assignment now k a).at db
  apply-IsConsistent (trace now k source sha) db h =
      (Kept-set_job_source_provenance now k source sha).at db

  -- From consistent tables, after any sequence of these operations, raising or not, a job is LEASED
  -- or RUNNING exactly while it holds an unreleased lease, ids of jobs are unique, and no two
  -- leases are of one job, where no job is created LEASED or RUNNING.
  pub apply_all-IsConsistent :
      (os : List Operation) (db : Db)
      → AllAllowed os
      → IsConsistent db
      → IsConsistent (apply_all root_key os db)
  unfolding apply_all
  apply_all-IsConsistent [] db h c = c
  apply_all-IsConsistent (o ∷ os) db (h, hs) c =
      apply_all-IsConsistent os (apply root_key o db) hs (apply-IsConsistent o db h c)

pub empty-IsConsistent : IsConsistent empty
unfolding has_open is_active_id
empty-IsConsistent = record {
  held = λ id. refl;
  job_unique = λ id. omega arith;
  job_fresh = λ id le. refl;
  lease_unique = λ l r m n. absurd m;
  lease_fresh = λ l m. absurd m;
}
