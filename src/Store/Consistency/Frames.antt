-- ===== src/Store/Consistency/Frames.antt =====
-- Actions that insert no job and no lease: the rows keep their identities.
use project_os_agentic_agile.Base.{
  ℕ, Bool, true, false, String, List, [], ◌∷◌, ◌++◌, Option, none, some, ◌≡◌, refl, ◌∙◌, ◌==◌, find,
  count, In, update, update_row, arith, if◌then◌else◌, find-update, In-update,
}
use project_os_agentic_agile.Store.Schema.{
  Job, JobStatus, Lease, Db, Message, Payload, NextAction, RunEvent,
}
use project_os_agentic_agile.Store.Rows.{
  has_id, find_job, get_or_raise, row_to_job, get_job_by_human_id, job_project_human_id,
  append_run_event, update_jobs, update_leases,
}
use project_os_agentic_agile.Store.NextActions.Reconcile.{update_actions}
use project_os_agentic_agile.Store.Framing.{
  Framing, Frames, Frames-pure, Frames-raise, Frames-modify, action_rules,
}
use project_os_agentic_agile.Store.Consistency.Updates.{count-update}

pub record SameRows (a b : Db) : Type 0 where
  pub counts : (id : ℕ) → count (has_id id) b.jobs ≡ count (has_id id) a.jobs
  pub absent : (id : ℕ) → find (has_id id) a.jobs ≡ none → find (has_id id) b.jobs ≡ none
  pub job_seq : b.job_seq ≡ a.job_seq
  pub leases :
      (l : Lease)
      → In l b.leases
      → (k : Lease) × In k a.leases × (l.id ≡ k.id) × (l.job_id ≡ k.job_id)
  pub lease_seq : b.lease_seq ≡ a.lease_seq

pub SameRows-refl : (a : Db) → SameRows a a
SameRows-refl a = record {
  counts = λ id. refl;
  absent = λ id h. h;
  job_seq = refl;
  leases = λ l m. (l, m, refl, refl);
  lease_seq = refl;
}

pub SameRows-trans : (a b c : Db) → SameRows a b → SameRows b c → SameRows a c
SameRows-trans a b c p q = record {
  counts = λ id. q.counts id ∙ p.counts id;
  absent = λ id h. q.absent id (p.absent id h);
  job_seq = q.job_seq ∙ p.job_seq;
  leases = λ l m.
      let (k, n, e, f) = q.leases l m in
      let (h, o, e', f') = p.leases k n in (h, o, e ∙ e', f ∙ f');
  lease_seq = q.lease_seq ∙ p.lease_seq;
}

abbrev pub same_rows : Framing
same_rows = record { Rel = SameRows; rel_refl = SameRows-refl; rel_trans = SameRows-trans }

Frames-get_or_raise : {F : Framing} (o : Option Job) → Frames F (get_or_raise o)
unfolding get_or_raise
Frames-get_or_raise none = Frames-raise _
Frames-get_or_raise (some j) = Frames-pure j

pub Frames-row_to_job : {F : Framing} (id : ℕ) → Frames F (row_to_job id)
unfolding row_to_job
Frames-row_to_job {F} id = record {
  at = λ db. (Frames-get_or_raise {F = F} (find_job id db)).at db;
}

pub Frames-get_job_by_human_id : {F : Framing} (h : String) → Frames F (get_job_by_human_id h)
unfolding get_job_by_human_id
Frames-get_job_by_human_id {F} h = record { at = F.rel_refl }

pub ruleset basic_rules = (action_rules, Frames-row_to_job, Frames-get_job_by_human_id)

add_event : RunEvent → Db → Db
add_event e db = record db { events = db.events ++ e ∷ [] }

add_event-SameRows : (e : RunEvent) (db : Db) → SameRows db (add_event e db)
unfolding add_event
add_event-SameRows e db = record {
  counts = λ id. refl;
  absent = λ id h. h;
  job_seq = refl;
  leases = λ l m. (l, m, refl, refl);
  lease_seq = refl;
}

pub Frames-append_run_event :
    (id : ℕ) (t : String) (s : Option JobStatus) (m : Option Message) (p : Option Payload)
    → Frames same_rows (append_run_event id t s m p)
unfolding append_run_event job_project_human_id add_event
Frames-append_run_event id t s m p = search (
  basic_rules,
  λ (e : RunEvent). Frames-modify {F = same_rows} (add_event e) (add_event-SameRows e),
)

pub Frames-update_jobs :
    (p : Job → Bool) (f : Job → Job)
    → ((j : Job) → (f j).id ≡ j.id)
    → Frames same_rows (update_jobs p f)
unfolding update_jobs
Frames-update_jobs p f keeps = record {
  at = λ db. record {
    counts = λ id. count-update p f keeps id db.jobs;
    absent = λ id h. find-update (has_id id) p f db.jobs (λ j. rw (keeps j)) ∙ rw h;
    job_seq = refl;
    leases = λ l m. (l, m, refl, refl);
    lease_seq = refl;
  };
}

pub Frames-update_leases :
    (p : Lease → Bool) (f : Lease → Lease)
    → ((l : Lease) → ((f l).id ≡ l.id) × ((f l).job_id ≡ l.job_id))
    → Frames same_rows (update_leases p f)
unfolding update_leases
Frames-update_leases p f keeps = record {
  at = λ db. record {
    counts = λ id. refl;
    absent = λ id h. h;
    job_seq = refl;
    leases = λ l m.
        let (k, n, e) = In-update l p f db.leases m in
        (k, n, ground (arith, keeps k), ground (arith, keeps k));
    lease_seq = refl;
  };
}

pub Frames-update_actions :
    (p : NextAction → Bool) (f : NextAction → NextAction) → Frames same_rows (update_actions p f)
unfolding update_actions
Frames-update_actions p f = record {
  at = λ db. record {
    counts = λ id. refl;
    absent = λ id h. h;
    job_seq = refl;
    leases = λ l m. (l, m, refl, refl);
    lease_seq = refl;
  };
}

pub ruleset frame_rules = (
  basic_rules, Frames-append_run_event, Frames-update_jobs, Frames-update_leases,
  Frames-update_actions, refl,
)
