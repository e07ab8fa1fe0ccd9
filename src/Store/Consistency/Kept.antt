-- ===== src/Store/Consistency/Kept.antt =====
-- Which actions keep the tables consistent: the UPDATEs, and the end that jobs share.
use project_os_agentic_agile.Base.{
  ℕ, suc, ◌≤◌, String, Bool, true, false, List, [], ◌∷◌, Option, none, some, ◌≡◌, refl, sym, ◌∙◌,
  ◌==◌, find, In, arith, update,
}
use project_os_agentic_agile.Store.Schema.{Job, JobStatus, Db, Message, Payload, is_active}
use project_os_agentic_agile.Store.Framing.{
  Framing, Frames, Frames-ReadOnly, ReadOnly, action_rules,
}
use project_os_agentic_agile.Store.Rows.{
  has_id, payload_project_of, row_actions, append_run_event, update_jobs,
}
use project_os_agentic_agile.Store.Leases.{iso, release_lease}
use project_os_agentic_agile.Store.NextActions.Reconcile.{sync_next_actions_for_terminal_job}
use project_os_agentic_agile.Store.NextActions.Tables.{OnlyActions, Frames-sync}
use project_os_agentic_agile.Store.Lifecycle.{end_job}
use project_os_agentic_agile.Store.Consistency.{IsConsistent, Held}
use project_os_agentic_agile.Store.Consistency.Frames.{
  SameRows, SameRows-refl, same_rows, frame_rules, Frames-update_jobs, Frames-row_to_job,
  Frames-get_job_by_human_id, Frames-append_run_event,
}
use project_os_agentic_agile.Store.Consistency.Updates.{
  has_open, is_active_id, is_active_id-update_same, is_active_id-update_off, is_active_id-missing,
  has_open-close,
}

pub SameRows-IsConsistent :
    (a b : Db) → SameRows a b → Held b.leases b.jobs → IsConsistent a → IsConsistent b
SameRows-IsConsistent a b s held c = record {
  held = held;
  job_unique = λ id. omega (arith, s.counts id, c.job_unique id);
  job_fresh = λ id le. s.absent id (c.job_fresh id (omega (arith, s.job_seq)));
  lease_unique = λ l r m n.
      let (l', m', e, f) = s.leases l m in
      let (r', n', e', f') = s.leases r n in
      let u = c.lease_unique l' r' m' n' in ((λ q. cc (u.0 (cc))), (λ q. cc (u.1 (cc))));
  lease_fresh =
      λ l m. let (l', m', e, f) = s.leases l m in omega (arith, c.lease_fresh l' m', s.lease_seq);
}

OnlyActions-IsConsistent : (a b : Db) → OnlyActions a b → IsConsistent a → IsConsistent b
OnlyActions-IsConsistent a b o c = record {
  held = λ id. rw (o.leases, o.jobs) (c.held id);
  job_unique = λ id. rw (o.jobs) (c.job_unique id);
  job_fresh = λ id le. rw (o.jobs) (c.job_fresh id (rw (o.job_seq) at le));
  lease_unique = λ l r m n. c.lease_unique l r (rw (o.leases) at m) (rw (o.leases) at n);
  lease_fresh = λ l m. rw (o.lease_seq) (c.lease_fresh l (rw (o.leases) at m));
}

held_append :
    (db : Db) (id : ℕ) (t : String) (s : Option JobStatus) (m : Option Message) (p : Option Payload)
    (i : ℕ)
    → has_open i db.leases ≡ is_active_id i db.jobs
    → let db' = (append_run_event id t s m p db).1 in
      has_open i db'.leases ≡ is_active_id i db'.jobs
unfolding row_actions
held_append db id t s m p i h = ground arith

abbrev pub keeps_consistent : Framing
keeps_consistent = record {
  Rel = λ a b. IsConsistent a → IsConsistent b;
  rel_refl = λ a c. c;
  rel_trans = λ a b c p q h. q (p h);
}

pub Kept-update_jobs :
    (p : Job → Bool) (f : Job → Job)
    → ((j : Job) → (f j).id ≡ j.id)
    → ((j : Job) → p j ≡ true → is_active (f j).status ≡ is_active j.status)
    → Frames keeps_consistent (update_jobs p f)
unfolding update_jobs
Kept-update_jobs p f keeps same = record {
  at = λ db c.
      SameRows-IsConsistent db _ ((Frames-update_jobs p f keeps).at db)
        (λ id. c.held id ∙ sym (is_active_id-update_same p f keeps same id db.jobs)) c;
}

pub Kept-append_run_event :
    (id : ℕ) (t : String) (s : Option JobStatus) (m : Option Message) (p : Option Payload)
    → Frames keeps_consistent (append_run_event id t s m p)
Kept-append_run_event id t s m p = record {
  at = λ db c.
      SameRows-IsConsistent db _ ((Frames-append_run_event id t s m p).at db)
        (λ i. held_append db id t s m p i (c.held i)) c;
}

pub Kept-sync :
    (fresh : String) (now : ℕ) (job : Job)
    → Frames keeps_consistent (sync_next_actions_for_terminal_job fresh now job)
Kept-sync fresh now job = record {
  at = λ db c. OnlyActions-IsConsistent db _ ((Frames-sync fresh now job).at db) c;
}

-- Where the UPDATE leaves no row active, the lease is released too, unless the job is missing.
end_job-Held :
    (k : ℕ) (f : Job → Job) (t : String) (s : JobStatus) (m : Message) (p : Option Payload)
    (later : ℕ) (reason : Message) (db : Db)
    → ((j : Job) → (f j).id ≡ j.id)
    → ((j : Job) → is_active (f j).status ≡ false)
    → payload_project_of p ≡ none
    → Held db.leases db.jobs
    → let db' = (end_job k f t s m p later reason db).1 in Held db'.leases db'.jobs
unfolding end_job release_lease row_actions
end_job-Held k f t s m p later reason db keeps off free h id = ground (
  arith,
  h id,
  is_active_id-update_off k f keeps off id db.jobs,
  has_open-close k (iso later) reason id db.leases,
  λ (q : find (has_id k) (update (has_id k) f db.jobs) ≡ none) (e : (id == k) ≡ true).
      is_active_id-missing k (has_id k) f keeps id e db.jobs q,
)

Frames-end_job :
    (k : ℕ) (f : Job → Job) (t : String) (s : JobStatus) (m : Message) (p : Option Payload)
    (later : ℕ) (reason : Message)
    → ((j : Job) → (f j).id ≡ j.id)
    → Frames same_rows (end_job k f t s m p later reason)
unfolding end_job release_lease
Frames-end_job k f t s m p later reason keeps = search (frame_rules, keeps) depth 12

pub Kept-end_job :
    (k : ℕ) (f : Job → Job) (t : String) (s : JobStatus) (m : Message) (p : Option Payload)
    (later : ℕ) (reason : Message)
    → ((j : Job) → (f j).id ≡ j.id)
    → ((j : Job) → is_active (f j).status ≡ false)
    → payload_project_of p ≡ none
    → Frames keeps_consistent (end_job k f t s m p later reason)
Kept-end_job k f t s m p later reason keeps off free = record {
  at = λ db c.
      SameRows-IsConsistent db _ ((Frames-end_job k f t s m p later reason keeps).at db)
        (end_job-Held k f t s m p later reason db keeps off free c.held) c;
}

pub ruleset kept_rules = (
  action_rules, Frames-row_to_job, Frames-get_job_by_human_id, Kept-append_run_event, Kept-sync,
  refl,
)
