-- ===== src/Store/Selection.antt =====
-- store.py: which job runs next, and the queries that look for one. Rows come back by ORDER BY.
pub mod Choice
pub mod Eligible
pub mod Dependents
use project_os_agentic_agile.Base.{
  ℕ, suc, String, Bool, true, false, not, ◌&&◌, ◌||◌, List, [], ◌∷◌, Option, none, some, ◌==◌, leb,
  ltb, str_eq, if◌then◌else◌, find, select, any, coalesce, truthy, order_by,
}
use project_os_agentic_agile.Store.Schema.{
  Job, JobStatus, Dependency, Control, Db, same_status, is_active,
}
use project_os_agentic_agile.Store.Action.{Action, ok, ◌>>=◌, ◌>>◌, pure, gets, modify}
use project_os_agentic_agile.Store.Rows.{row_to_job}
use project_os_agentic_agile.Store.Leases.{iso}

abbrev pub depends_on : List Dependency → List ℕ
depends_on [] = []
depends_on (e ∷ es) = e.depends_on_job_id ∷ depends_on es

abbrev pub list_job_dependencies : Db → ℕ → List ℕ
list_job_dependencies db job_id = depends_on (select (λ e. e.job_id == job_id) db.dependencies)

abbrev pub dependents : List Dependency → List ℕ
dependents [] = []
dependents (e ∷ es) = e.job_id ∷ dependents es

abbrev pub list_dependent_job_ids : Db → ℕ → List ℕ
list_dependent_job_ids db job_id =
    dependents (select (λ e. e.depends_on_job_id == job_id) db.dependencies)

abbrev pub voids : String → Bool
voids o = str_eq o "INVALIDATED" || (str_eq o "SUPERSEDED" || str_eq o "NO_CHANGE")

unfoldable pub job_satisfies_dependency : Job → Bool
job_satisfies_dependency dep =
    if same_status dep.status JobStatus.succeeded
    then elim dep.outcome [ none ↦ true | some o ↦ not (voids o) ]
    else false

-- The loop over the dependencies; a missing job raises.
unfoldable pub satisfied : List ℕ → Action Bool
satisfied [] db = (ok true, db)
satisfied (d ∷ ds) db =
    (do dep ← row_to_job d; if job_satisfies_dependency dep then satisfied ds else pure false) db

unfoldable pub dependencies_satisfied : ℕ → Action Bool
dependencies_satisfied job_id db = satisfied (list_job_dependencies db job_id) db

-- ORDER BY priority DESC, COALESCE(ready_at, created_at) ASC, id ASC
abbrev pub waiting_since : Job → ℕ
waiting_since j = coalesce j.ready_at j.created_at

abbrev pub runs_before : Job → Job → Bool
runs_before i j =
    ltb j.priority i.priority
    || (i.priority == j.priority
        && (ltb (waiting_since i) (waiting_since j)
            || (waiting_since i == waiting_since j && leb i.id j.id)))

-- A clause that is added only for a non-empty argument.
abbrev pub matches : Option String → String → Bool
matches o x = elim (truthy o) [ none ↦ true | some y ↦ str_eq x y ]

abbrev pub is_candidate : (queue role job_human_id : Option String) → Job → Bool
is_candidate queue role job_human_id j =
    same_status j.status JobStatus.ready
    && (matches job_human_id j.human_id && (matches queue j.queue && matches role j.agent_role))

-- The loop that returns at the first row whose dependencies are satisfied.
unfoldable pub first_satisfied : List Job → Action (Option Job)
first_satisfied [] db = (ok none, db)
first_satisfied (j ∷ js) db =
    (do met ← dependencies_satisfied j.id; if met then pure (some j) else first_satisfied js) db

unfoldable pub select_ready_job : (queue role job_human_id : Option String) → Action (Option Job)
select_ready_job queue role job_human_id db =
    first_satisfied (order_by runs_before (select (is_candidate queue role job_human_id) db.jobs))
      db

abbrev pub is_paused : Db → String → Bool
is_paused db pid = any (λ c. str_eq c.project_human_id pid && c.paused) db.controls

abbrev pub is_eligible_row : Db → (queue project : Option String) → Job → Bool
is_eligible_row db queue project j =
    same_status j.status JobStatus.ready
    && (matches queue j.queue
        && (matches project j.project_human_id && not (is_paused db j.project_human_id)))

abbrev pub is_full : Option ℕ → ℕ → Bool
is_full none n = false
is_full (some limit) n = leb limit n

-- The loop that collects; `n` jobs were collected before.
unfoldable pub collect : Option ℕ → ℕ → List Job → Action (List Job)
collect limit n [] db = (ok [], db)
collect limit n (j ∷ js) db =
    (do
      met ← dependencies_satisfied j.id
      if met
          then (if is_full limit (suc n)
              then pure (j ∷ [])
              else do rest ← collect limit (suc n) js; pure (j ∷ rest))
          else collect limit n js)
      db

unfoldable pub list_eligible_ready_jobs :
    (limit : Option ℕ) → (queue project : Option String) → Action (List Job)
list_eligible_ready_jobs limit queue project db =
    collect limit 0 (order_by runs_before (select (is_eligible_row db queue project) db.jobs)) db

-- get_orchestration_control, with the answer for a project that has no row.
unfoldable pub get_orchestration_control : String → Db → Control
get_orchestration_control pid db = elim (find (λ c. str_eq c.project_human_id pid) db.controls) [
  | none ↦ record {
    project_human_id = pid;
    paused = false;
    paused_reason = none;
    updated_at = none;
  }
  | some c ↦ c
]

unfoldable pub is_project_paused : String → Db → Bool
is_project_paused pid db = (get_orchestration_control pid db).paused

-- INSERT … ON CONFLICT(project_human_id) DO UPDATE
abbrev pub upsert_control : Control → List Control → List Control
upsert_control c [] = c ∷ []
upsert_control c (d ∷ ds) =
    if str_eq d.project_human_id c.project_human_id then c ∷ ds else d ∷ upsert_control c ds

unfoldable pub set_project_paused : (now : ℕ) → String → Bool → Option String → Action Control
set_project_paused now pid paused reason = do
  modify (λ db. record db {
    controls =
        upsert_control
          (record {
            project_human_id = pid;
            paused = paused;
            paused_reason = if paused then reason else none;
            updated_at = some (iso now);
          })
          db.controls;
  })
  gets (get_orchestration_control pid)

abbrev pub by_id : Job → Job → Bool
by_id i j = leb i.id j.id

abbrev pub head? : List Job → Option Job
head? [] = none
head? (j ∷ js) = some j

abbrev pub names : Option String → String → Bool
names none x = false
names (some y) x = str_eq y x

abbrev pub is_not : Option ℕ → ℕ → Bool
is_not none i = true
is_not (some k) i = not (i == k)

unfoldable pub find_active_worktree_holder : String → (exclude_job_id : Option ℕ) → Db → Option Job
find_active_worktree_holder worktree_name exclude_job_id db = head? (
    order_by by_id (
      select
        (λ j.
          names j.worktree_name worktree_name && (is_active j.status && is_not exclude_job_id j.id))
        db.jobs))

-- The five statuses of a job that was not ended.
abbrev pub is_assigned : JobStatus → Bool
is_assigned JobStatus.queued = true
is_assigned JobStatus.ready = true
is_assigned JobStatus.leased = true
is_assigned JobStatus.running = true
is_assigned JobStatus.retry_wait = true
is_assigned _ = false

unfoldable pub find_active_assignment : (project work_item queue : String) → Db → Option Job
find_active_assignment project work_item queue db = head? (
    order_by (λ i j. by_id j i)
      (select
        (λ j.
          str_eq j.project_human_id project
          && (names j.work_item_human_id work_item
              && (str_eq j.queue queue && is_assigned j.status)))
        db.jobs))
