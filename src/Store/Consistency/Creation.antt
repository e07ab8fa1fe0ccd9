-- ===== src/Store/Consistency/Creation.antt =====
-- `create_job` keeps the tables consistent where the new job is not LEASED or RUNNING.
use project_os_agentic_agile.Base.{
  ℕ, suc, ◌≤◌, String, Bool, true, false, List, [], ◌∷◌, ◌++◌, Option, none, some, ◌≡◌, refl, sym,
  ◌∙◌, ◌==◌, any, str_eq, if◌then◌else◌, find, count, arith,
}
use project_os_agentic_agile.Store.Schema.{Job, JobStatus, Db, Snapshot, job_status, is_active}
use project_os_agentic_agile.Store.Action.{◌>>=◌}
use project_os_agentic_agile.Store.Rows.{has_id}
use project_os_agentic_agile.Store.Framing.{Frames, Frames-raise, action_rules}
use project_os_agentic_agile.Store.Creation.{
  NewJob, new_row, insert_row, insert_job, check_snapshot, assert_create_job_isolation, create_with,
  create_job,
}
use project_os_agentic_agile.Store.Consistency.{IsConsistent}
use project_os_agentic_agile.Store.Consistency.Updates.{is_active_id}
use project_os_agentic_agile.Store.Consistency.Kept.{keeps_consistent}

find_snoc :
    (id : ℕ) (jobs : List Job) (j : Job)
    → (j.id == id) ≡ false
    → find (has_id id) (jobs ++ j ∷ []) ≡ find (has_id id) jobs
find_snoc id [] j e = ground arith
find_snoc id (i ∷ is) j e = ground (arith, find_snoc id is j e)

is_active_id-snoc :
    (id : ℕ) (jobs : List Job) (j : Job)
    → is_active j.status ≡ false
    → is_active_id id (jobs ++ j ∷ []) ≡ is_active_id id jobs
unfolding is_active_id
is_active_id-snoc id [] j e = ground arith
is_active_id-snoc id (i ∷ is) j e = ground (arith, is_active_id-snoc id is j e)

count_snoc :
    (id : ℕ) (jobs : List Job) (j : Job)
    → count (has_id id) (jobs ++ j ∷ [])
      ≡ (if j.id == id then suc (count (has_id id) jobs) else count (has_id id) jobs)
count_snoc id [] j = refl
count_snoc id (i ∷ is) j = ground (arith, count_snoc id is j)

count-of_none :
    (id : ℕ) (jobs : List Job) → find (has_id id) jobs ≡ none → count (has_id id) jobs ≡ 0
count-of_none id [] h = refl
count-of_none id (i ∷ is) h = ground (arith, count-of_none id is)

inserted-IsConsistent :
    (db : Db) (j : Job)
    → j.id ≡ suc db.job_seq
    → is_active j.status ≡ false
    → IsConsistent db
    → IsConsistent (record db { jobs = db.jobs ++ j ∷ []; job_seq = suc db.job_seq })
inserted-IsConsistent db j e off c = record {
  held = λ id. c.held id ∙ sym (is_active_id-snoc id db.jobs j off);
  job_unique = λ id. ground (
    arith,
    count_snoc id db.jobs j,
    c.job_unique id,
    λ (le : suc db.job_seq ≤ id). count-of_none id db.jobs (c.job_fresh id le),
  );
  job_fresh = λ id le. find_snoc id db.jobs j (ground arith) ∙ c.job_fresh id (omega arith);
  lease_unique = c.lease_unique;
  lease_fresh = c.lease_fresh;
}

insert_job-Kept :
    (now : ℕ) (s : JobStatus) (n : NewJob)
    → is_active s ≡ false
    → Frames keeps_consistent (insert_job now s n)
unfolding insert_job insert_row ◌>>=◌
insert_job-Kept now s n off = record {
  at = λ db c. go (any (λ j. str_eq j.human_id n.human_id) db.jobs) db c;
}
  where
    go :
        (b : Bool) (db : Db)
        → IsConsistent db
        → IsConsistent (insert_row b (new_row (suc db.job_seq) now s n) db).1
    go true db c = c
    go false db c = inserted-IsConsistent db (new_row (suc db.job_seq) now s n) refl off c

module _ (root_key : String → String) where
  Frames-check_snapshot :
      (pid root : String) (s : Option Snapshot)
      → Frames keeps_consistent (check_snapshot root_key pid root s)
  unfolding check_snapshot
  Frames-check_snapshot pid root none = search action_rules
  Frames-check_snapshot pid root (some s) = search action_rules

  Kept-create_with :
      (now : ℕ) (n : NewJob) (s : Option JobStatus)
      → ((t : JobStatus) → s ≡ some t → is_active t ≡ false)
      → Frames keeps_consistent (create_with root_key now n s)
  unfolding create_with assert_create_job_isolation
  Kept-create_with now n none h = Frames-raise _
  Kept-create_with now n (some t) h =
      search (action_rules, Frames-check_snapshot, insert_job-Kept, h t refl) depth 12

  pub Kept-create_job :
      (now : ℕ) (n : NewJob)
      → ((t : JobStatus) → job_status n.status ≡ some t → is_active t ≡ false)
      → Frames keeps_consistent (create_job root_key now n)
  unfolding create_job
  Kept-create_job now n h = Kept-create_with now n (job_status n.status) h
