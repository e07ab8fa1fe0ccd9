-- ===== src/Store/Selection/Choice.antt =====
-- `select_ready_job` finds a job whenever one can run, and the first of those in its order.
use project_os_agentic_agile.Base.{
  ℕ, String, Bool, true, false, List, [], ◌∷◌, Option, none, some, ◌≡◌, refl, ap, ◌∙◌, ◌==◌, inl,
  inr, select, In, In-select, In-select_intro, order_by, In-order_by, In-order_by_intro, IsOrdered,
  order_by-IsOrdered, arith, Bool-cases,
}
use project_os_agentic_agile.Store.Schema.{Job, Dependency, Db}
use project_os_agentic_agile.Store.Action.{Action, ok, ◌>>=◌}
use project_os_agentic_agile.Store.Rows.{find_job, row_actions}
use project_os_agentic_agile.Store.Selection.{
  depends_on, list_job_dependencies, job_satisfies_dependency, satisfied, dependencies_satisfied,
  runs_before, is_candidate, first_satisfied, select_ready_job,
}
use project_os_agentic_agile.Store.Isolation.{IsIsolated}
use project_os_agentic_agile.Store.Isolation.Identity.{project_of, project_at}

runs_before_trans :
    (i j k : Job) → runs_before i j ≡ true → runs_before j k ≡ true → runs_before i k ≡ true
runs_before_trans i j k a b = ground arith

runs_before_total : (i j : Job) → runs_before i j ≡ false → runs_before j i ≡ true
runs_before_total i j a = ground arith

runs_before_refl : (i : Job) → runs_before i i ≡ true
runs_before_refl i = ground arith

-- Every id has its row.
abbrev AllFound : Db → List ℕ → Type 0
AllFound db [] = Unit
AllFound db (d ∷ ds) = ((j : Job) × (find_job d db ≡ some j)) × AllFound db ds

-- The test answers, and writes nothing.
abbrev Answers : Action Bool → Db → Type 0
Answers m db = (b : Bool) × (m db ≡ (ok b, db))

satisfied-Answers : (ds : List ℕ) (db : Db) → AllFound db ds → Answers (satisfied ds) db
unfolding satisfied row_actions
satisfied-Answers [] db h = (true, refl)
satisfied-Answers (d ∷ ds) db ((j, e), h) =
    let (b, rest) = satisfied-Answers ds db h in
    elim (Bool-cases (job_satisfies_dependency j)) [
      | inl s ↦ (b, rw (e, s, rest) refl)
      | inr s ↦ (false, rw (e, s) refl)
    ]

found_of_project : (o : Option Job) (p : String) → project_of o ≡ some p → (j : Job) × (o ≡ some j)
found_of_project none p h = cc
found_of_project (some j) p h = (j, refl)

edges-AllFound :
    (db : Db) (edges : List Dependency)
    → ((e : Dependency)
        → In e edges
        → (p : String) × (project_at e.depends_on_job_id db.jobs ≡ some p))
    → AllFound db (depends_on edges)
edges-AllFound db [] h = tt
edges-AllFound db (e ∷ es) h =
    let (p, q) = h e (inl refl) in
    (
      found_of_project (find_job e.depends_on_job_id db) p q,
      edges-AllFound db es (λ f m. h f (inr m)),
    )

module _ {root_key : String → String} where
  pub dependencies_satisfied-Answers :
      (db : Db) → IsIsolated root_key db → (id : ℕ) → Answers (dependencies_satisfied id) db
  unfolding dependencies_satisfied
  dependencies_satisfied-Answers db c id = satisfied-Answers (list_job_dependencies db id) db (
      edges-AllFound db (select (λ e. e.job_id == id) db.dependencies) λ e m.
        let (n, _) = In-select e (λ f. f.job_id == id) db.dependencies m in
        let (_, p, _, q) = c.edges e n in (p, q))

-- The first row that answers `true`.
first_satisfied-first :
    (js : List Job) (db : Db)
    → ((id : ℕ) → Answers (dependencies_satisfied id) db)
    → IsOrdered runs_before js
    → (i : Job) → In i js
    → dependencies_satisfied i.id db ≡ (ok true, db)
    → (j : Job) × (first_satisfied js db ≡ (ok (some j), db))
      × In j js
      × (dependencies_satisfied j.id db ≡ (ok true, db))
      × (runs_before j i ≡ true)
unfolding first_satisfied ◌>>=◌
first_satisfied-first [] db h o i m e = absurd m
first_satisfied-first (j ∷ js) db h (after, o) i m e =
    let (b, a) = h j.id in
    elim (Bool-cases b) [
      | inl t ↦
          let yes : dependencies_satisfied j.id db ≡ (ok true, db) = a ∙ rw t refl in
          (
            j,
            rw yes refl,
            inl refl,
            yes,
            elim m as (λ _. runs_before j i ≡ true) [
              | inl q ↦ ap (runs_before j) q ∙ runs_before_refl j
              | inr n ↦ after i n
            ],
          )
      | inr f ↦
          let no : dependencies_satisfied j.id db ≡ (ok false, db) = a ∙ rw f refl in
          elim m [
            | inl q ↦ cc (e, no, ap (λ (x : Job). dependencies_satisfied x.id db) q)
            | inr n ↦
                let (k, r, l, s, t) = first_satisfied-first js db h o i n e in
                (k, rw (no, r) refl, inr l, s, t)
          ]
    ]

-- On isolated tables, where a READY job that fits the arguments has all dependencies satisfied,
-- `select_ready_job` returns a job, which is READY, fits the arguments, has all dependencies
-- satisfied, and stands before every such job in the order of priority, waiting time and id.
pub select_ready_job-first :
    (root_key : String → String) (queue role job_human_id : Option String) (db : Db) (i : Job)
    → IsIsolated root_key db
    → In i db.jobs
    → is_candidate queue role job_human_id i ≡ true
    → dependencies_satisfied i.id db ≡ (ok true, db)
    → (j : Job) × (select_ready_job queue role job_human_id db ≡ (ok (some j), db))
      × In j db.jobs
      × (is_candidate queue role job_human_id j ≡ true)
      × (dependencies_satisfied j.id db ≡ (ok true, db))
      × (runs_before j i ≡ true)
unfolding select_ready_job
select_ready_job-first root_key queue role job_human_id db i c m fits met =
    let rows = select (is_candidate queue role job_human_id) db.jobs in
    let (j, e, n, s, t) =
      first_satisfied-first (order_by runs_before rows) db (dependencies_satisfied-Answers db c)
        (order_by-IsOrdered runs_before runs_before_trans runs_before_total rows) i
        (In-order_by_intro runs_before i rows
          (In-select_intro i (is_candidate queue role job_human_id) db.jobs m fits))
        met in
    let (k, g) =
      In-select j (is_candidate queue role job_human_id) db.jobs
        (In-order_by runs_before j rows n) in
    (j, e, k, g, s, t)
