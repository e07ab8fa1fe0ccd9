-- ===== src/Store/Creation.antt =====
-- store.py: the isolation of projects, the creation of jobs, and the single-column updates.
-- `root_key` stands for _root_key, which asks the file system for the path that a text names.
use project_os_agentic_agile.Base.{
  ℕ, suc, String, Bool, true, false, not, ◌&&◌, List, [], ◌∷◌, ◌++◌, Option, none, some, ◌==◌,
  str_eq, if◌then◌else◌, find, any, truthy, first_some,
}
use project_os_agentic_agile.Store.Schema.{
  Job, JobStatus, Snapshot, Dependency, job_status, same_status,
}
use project_os_agentic_agile.Store.Action.{
  Action, ◌>>=◌, ◌>>◌, pure, raise, gets, modify, require, invalid_job_status, snapshot_project,
  snapshot_root, project_bound_elsewhere, root_taken, integrity, no_jobs_provided,
  jobs_span_projects, self_dependency,
}
use project_os_agentic_agile.Store.Rows.{has_id, row_to_job, job_project_human_id, update_jobs}
use project_os_agentic_agile.Store.Leases.{iso}

-- The arguments of `create_job` that it stores as they come.
pub record NewJob : Type 0 where
  pub human_id : String
  pub project_human_id : String
  pub repository_root : String
  pub agent_role : String
  pub queue : String
  pub status : String
  pub priority : ℕ
  pub attempt : ℕ
  pub max_attempts : ℕ
  pub iteration_human_id : Option String
  pub work_item_type : Option String
  pub work_item_human_id : Option String
  pub worktree_name : Option String
  pub worktree_path : Option String
  pub base_git_sha : Option String
  pub requires_worktree : Bool
  pub identity_snapshot : Option Snapshot
  pub assignment : Option String
  pub allows_no_change : Bool
  pub run_id : Option String
  pub retry_at : Option ℕ

-- `x and x != y` is false.
abbrev pub agrees : Option String → (String → Bool) → Bool
agrees o same = elim (truthy o) [ none ↦ true | some x ↦ same x ]

abbrev pub same_project : String → Job → Bool
same_project pid j = str_eq j.project_human_id pid

abbrev pub new_row : (id now : ℕ) → JobStatus → NewJob → Job
new_row id now status n = record {
  id = id;
  human_id = n.human_id;
  project_human_id = n.project_human_id;
  repository_root = n.repository_root;
  iteration_human_id = n.iteration_human_id;
  work_item_type = n.work_item_type;
  work_item_human_id = n.work_item_human_id;
  agent_role = n.agent_role;
  queue = n.queue;
  status = status;
  priority = n.priority;
  attempt = n.attempt;
  max_attempts = n.max_attempts;
  worktree_name = n.worktree_name;
  worktree_path = n.worktree_path;
  base_git_sha = n.base_git_sha;
  candidate_git_sha = none;
  requires_worktree = n.requires_worktree;
  identity_snapshot = n.identity_snapshot;
  output_ref = none;
  last_error = none;
  created_at = now;
  ready_at = if same_status status JobStatus.ready then some now else none;
  started_at = none;
  completed_at = none;
  updated_at = now;
  source_delivery_job_id = none;
  source_candidate_sha = none;
  sponsor_authority = none;
  outcome = none;
  superseded_by_job_id = none;
  assignment = n.assignment;
  allows_no_change = n.allows_no_change;
  run_id = n.run_id;
  retry_at = n.retry_at;
}

-- The INSERT, which UNIQUE (human_id) refuses.
unfoldable pub insert_row : Bool → Job → Action Job
insert_row true j = raise integrity
insert_row false j = do
  modify (λ db. record db { jobs = db.jobs ++ j ∷ []; job_seq = suc db.job_seq })
  pure j

unfoldable pub insert_job : ℕ → JobStatus → NewJob → Action Job
insert_job now status n = do
  taken ← gets (λ db. any (λ j. str_eq j.human_id n.human_id) db.jobs)
  j ← gets (λ db. new_row (suc db.job_seq) now status n)
  insert_row taken j

module _ (root_key : String → String) where
  abbrev pub same_root : String → String → Bool
  same_root a b = str_eq (root_key a) (root_key b)

  unfoldable pub check_snapshot : String → String → Option Snapshot → Action (Unit {0})
  check_snapshot pid root none = pure tt
  check_snapshot pid root (some s) = do
    require (agrees s.project_human_id (λ p. str_eq p pid)) snapshot_project
    require (agrees s.repository_root (λ r. same_root r root)) snapshot_root

  abbrev pub bound_here : String → Option Job → Bool
  bound_here root none = true
  bound_here root (some j) = same_root j.repository_root root

  -- Another project's job stands on the same root.
  abbrev pub takes_root : String → String → Job → Bool
  takes_root pid root j = not (same_project pid j) && same_root j.repository_root root

  unfoldable pub assert_create_job_isolation : String → String → Option Snapshot → Action (Unit {0})
  assert_create_job_isolation pid root snapshot = do
    check_snapshot pid root snapshot
    bound ← gets (λ db. bound_here root (find (same_project pid) db.jobs))
    require bound project_bound_elsewhere
    taken ← gets (λ db. any (takes_root pid root) db.jobs)
    require (not taken) root_taken

  unfoldable pub create_with : ℕ → NewJob → Option JobStatus → Action Job
  create_with now n none = raise invalid_job_status
  create_with now n (some status) = do
    assert_create_job_isolation n.project_human_id n.repository_root n.identity_snapshot
    insert_job (iso now) status n

  unfoldable pub create_job : (now : ℕ) → NewJob → Action Job
  create_job now n = create_with now n (job_status n.status)

-- The projects of the given jobs, in order.
unfoldable pub projects_of : List ℕ → Action (List String)
projects_of [] = pure []
projects_of (i ∷ is) = do p ← job_project_human_id i; ps ← projects_of is; pure (p ∷ ps)

abbrev pub all_same : String → List String → Bool
all_same p [] = true
all_same p (q ∷ qs) = if str_eq q p then all_same p qs else false

unfoldable pub single_project : List String → Action String
single_project [] = raise no_jobs_provided
single_project (p ∷ ps) = if all_same p ps then pure p else raise jobs_span_projects

unfoldable pub require_same_project : List ℕ → Action String
require_same_project ids = do projects ← projects_of ids; single_project projects

abbrev pub same_edge : ℕ → ℕ → Dependency → Bool
same_edge i d e = e.job_id == i && e.depends_on_job_id == d

-- The INSERT, which UNIQUE (job_id, depends_on_job_id) refuses.
unfoldable pub insert_edge : Bool → Dependency → Action (Unit {0})
insert_edge true e = raise integrity
insert_edge false e = modify (λ db. record db { dependencies = db.dependencies ++ e ∷ [] })

unfoldable pub insert_dependency : ℕ → ℕ → Action (Unit {0})
insert_dependency i d = do
  taken ← gets (λ db. any (same_edge i d) db.dependencies)
  insert_edge taken (record { job_id = i; depends_on_job_id = d })

unfoldable pub add_job_dependency : ℕ → ℕ → Action (Unit {0})
add_job_dependency job_id depends_on_job_id = do
  require (not (job_id == depends_on_job_id)) self_dependency
  require_same_project (job_id ∷ depends_on_job_id ∷ [])
  insert_dependency job_id depends_on_job_id

unfoldable pub update_job_worktree :
    (now : ℕ) → ℕ → (name path : String) → Option String → Action Job
update_job_worktree now job_id name path base_git_sha = do
  update_jobs (has_id job_id) (λ j. record j {
    worktree_name = some name;
    worktree_path = some path;
    base_git_sha = first_some base_git_sha j.base_git_sha;
    updated_at = iso now;
  })
  row_to_job job_id

-- The check that a job's reference stays in its project.
unfoldable pub require_reference : ℕ → Option ℕ → Action (Unit {0})
require_reference job_id none = pure tt
require_reference job_id (some other) = do require_same_project (job_id ∷ other ∷ []); pure tt

unfoldable pub set_job_outcome : (now : ℕ) → ℕ → String → Option ℕ → Action Job
set_job_outcome now job_id outcome superseded_by = do
  require_reference job_id superseded_by
  update_jobs (has_id job_id) (λ j. record j {
    outcome = some outcome;
    superseded_by_job_id = first_some superseded_by j.superseded_by_job_id;
    updated_at = iso now;
  })
  row_to_job job_id

unfoldable pub set_job_assignment : (now : ℕ) → ℕ → String → Action Job
set_job_assignment now job_id assignment = do
  update_jobs (has_id job_id) (λ j. record j { assignment = some assignment; updated_at = iso now })
  row_to_job job_id

unfoldable pub set_job_source_provenance : (now : ℕ) → ℕ → Option ℕ → Option String → Action Job
set_job_source_provenance now job_id source_delivery_job_id source_candidate_sha = do
  require_reference job_id source_delivery_job_id
  update_jobs (has_id job_id) (λ j. record j {
    source_delivery_job_id = source_delivery_job_id;
    source_candidate_sha = source_candidate_sha;
    updated_at = iso now;
  })
  row_to_job job_id
