-- ===== src/Store/Isolation/Identity.antt =====
-- What every operation but `create_job` and `add_job_dependency` leaves alone: which jobs there are,
-- their projects and roots, and the edges between them.
use project_os_agentic_agile.Base.{
  ℕ, suc, Bool, true, false, String, List, [], ◌∷◌, ◌++◌, Option, none, some, ◌≡◌, refl, ◌∙◌, ◌==◌,
  if◌then◌else◌, find, In, In-update, update, update_row, arith,
}
use project_os_agentic_agile.Store.Schema.{Job, JobStatus, Lease, Db, Message, Payload, RunEvent}
use project_os_agentic_agile.Store.Rows.{
  has_id, job_project_human_id, append_run_event, update_jobs, update_leases,
}
use project_os_agentic_agile.Store.Framing.{Framing, Frames, Frames-modify, action_rules}
use project_os_agentic_agile.Store.Consistency.Frames.{
  Frames-row_to_job, Frames-get_job_by_human_id,
}
use project_os_agentic_agile.Store.NextActions.Reconcile.{sync_next_actions_for_terminal_job}
use project_os_agentic_agile.Store.NextActions.Tables.{Frames-sync}

abbrev pub project_of : Option Job → Option String
project_of none = none
project_of (some j) = some j.project_human_id

-- The project of the job of that id.
abbrev pub project_at : ℕ → List Job → Option String
project_at id jobs = project_of (find (has_id id) jobs)

pub record SameIdentity (a b : Db) : Type 0 where
  pub rows :
      (j : Job)
      → In j b.jobs
      → (i : Job) × In i a.jobs
        × (j.project_human_id ≡ i.project_human_id)
        × (j.repository_root ≡ i.repository_root)
  pub projects : (id : ℕ) → project_at id b.jobs ≡ project_at id a.jobs
  pub dependencies : b.dependencies ≡ a.dependencies

pub SameIdentity-refl : (a : Db) → SameIdentity a a
SameIdentity-refl a = record {
  rows = λ j m. (j, m, refl, refl);
  projects = λ id. refl;
  dependencies = refl;
}

pub SameIdentity-trans : (a b c : Db) → SameIdentity a b → SameIdentity b c → SameIdentity a c
SameIdentity-trans a b c p q = record {
  rows = λ j m.
      let (i, n, e, f) = q.rows j m in let (h, o, e', f') = p.rows i n in (h, o, e ∙ e', f ∙ f');
  projects = λ id. q.projects id ∙ p.projects id;
  dependencies = q.dependencies ∙ p.dependencies;
}

abbrev pub same_identity : Framing
same_identity = record {
  Rel = SameIdentity;
  rel_refl = SameIdentity-refl;
  rel_trans = SameIdentity-trans;
}

-- The tables of jobs and of edges are not written.
pub untouched : (a b : Db) → b.jobs ≡ a.jobs → b.dependencies ≡ a.dependencies → SameIdentity a b
untouched a b jobs dependencies = record {
  rows = λ j m. (j, rw jobs at m, refl, refl);
  projects = λ id. rw jobs;
  dependencies = dependencies;
}

abbrev pub KeepsIdentity : (Job → Job) → Type 0
KeepsIdentity f =
    (j : Job)
    → ((f j).id ≡ j.id)
      × ((f j).project_human_id ≡ j.project_human_id)
      × ((f j).repository_root ≡ j.repository_root)

project_at-update :
    (p : Job → Bool) (f : Job → Job)
    → KeepsIdentity f
    → (id : ℕ) (jobs : List Job) → project_at id (update p f jobs) ≡ project_at id jobs
project_at-update p f keeps id [] = refl
project_at-update p f keeps id (j ∷ js) = ground (arith, keeps j, project_at-update p f keeps id js)

pub Same-update_jobs :
    (p : Job → Bool) (f : Job → Job) → KeepsIdentity f → Frames same_identity (update_jobs p f)
unfolding update_jobs
Same-update_jobs p f keeps = record {
  at = λ db. record {
    rows = λ j m.
        let (i, n, e) = In-update j p f db.jobs m in
        (i, n, ground (arith, keeps i), ground (arith, keeps i));
    projects = λ id. project_at-update p f keeps id db.jobs;
    dependencies = refl;
  };
}

pub Same-update_leases :
    (p : Lease → Bool) (f : Lease → Lease) → Frames same_identity (update_leases p f)
unfolding update_leases
Same-update_leases p f = record { at = λ db. untouched db _ refl refl }

-- A row of the log, a new list of leases: neither writes the jobs.
log_event : RunEvent → Db → Db
log_event e db = record db { events = db.events ++ e ∷ [] }

log_event-same : (e : RunEvent) (db : Db) → SameIdentity db (log_event e db)
unfolding log_event
log_event-same e db = untouched db _ refl refl

pub Same-append_run_event :
    (id : ℕ) (t : String) (s : Option JobStatus) (m : Option Message) (p : Option Payload)
    → Frames same_identity (append_run_event id t s m p)
unfolding append_run_event job_project_human_id log_event
Same-append_run_event id t s m p = search (
  action_rules,
  Frames-row_to_job,
  λ (e : RunEvent). Frames-modify {F = same_identity} (log_event e) (log_event-same e),
)

pub Same-sync :
    (fresh : String) (now : ℕ) (job : Job)
    → Frames same_identity (sync_next_actions_for_terminal_job fresh now job)
Same-sync fresh now job = record {
  at = λ db. let o = (Frames-sync fresh now job).at db in untouched db _ o.jobs o.dependencies;
}

pub ruleset same_rules = (
  action_rules, Frames-row_to_job, Frames-get_job_by_human_id, Same-append_run_event,
  Same-update_jobs, Same-update_leases, Same-sync, refl,
)
