-- ===== src/Store/Isolation/Edges.antt =====
-- Isolation through `add_job_dependency`: the new edge joins two different jobs of one project.
use project_os_agentic_agile.Base.{
  ℕ, true, false, not, String, List, [], ◌∷◌, some, ◌≡◌, ◌≢◌, inl, inr, ap, ◌∙◌, ◌==◌, ==_iff,
  str_eq, eq_iff, any, In-append, arith, Bool-cases,
}
use project_os_agentic_agile.Store.Schema.{Db}
use project_os_agentic_agile.Store.Action.{ok, ◌>>=◌, pure, require, self_dependency}
use project_os_agentic_agile.Store.Rows.{row_actions, job_project_human_id}
use project_os_agentic_agile.Store.Creation.{
  projects_of, single_project, require_same_project, same_edge, insert_edge, insert_dependency,
  add_job_dependency,
}
use project_os_agentic_agile.Store.Framing.{
  Frames, Frames-pure, Frames-raise, Frames-bind, Frames-require, bind_ok, bind_inv, require_inv,
  unchanged, action_rules,
}
use project_os_agentic_agile.Store.Consistency.Frames.{Frames-row_to_job}
use project_os_agentic_agile.Store.Isolation.{IsIsolated}
use project_os_agentic_agile.Store.Isolation.Identity.{project_at}

projects_of-unchanged : (ids : List ℕ) → Frames unchanged (projects_of ids)
unfolding projects_of job_project_human_id
projects_of-unchanged [] = Frames-pure []
projects_of-unchanged (i ∷ is) =
    Frames-bind _ _ (search (action_rules, Frames-row_to_job))
      λ p. Frames-bind _ _ (projects_of-unchanged is) (λ ps. Frames-pure (p ∷ ps))

single_project-unchanged : (ps : List String) → Frames unchanged (single_project ps)
unfolding single_project
single_project-unchanged [] = Frames-raise _
single_project-unchanged (p ∷ ps) = search action_rules

pub require_same_project-unchanged : (ids : List ℕ) → Frames unchanged (require_same_project ids)
unfolding require_same_project
require_same_project-unchanged ids =
    search (action_rules, projects_of-unchanged, single_project-unchanged)

job_project_human_id-ok :
    (i : ℕ) (db : Db) (p : String)
    → (job_project_human_id i db).0 ≡ ok p
    → project_at i db.jobs ≡ some p
unfolding row_actions
job_project_human_id-ok i db p h = ground arith

job_project_human_id-unchanged : (i : ℕ) → Frames unchanged (job_project_human_id i)
unfolding job_project_human_id
job_project_human_id-unchanged i = search (action_rules, Frames-row_to_job)

single_project-pair :
    (a b p : String) (db : Db) → (single_project (a ∷ b ∷ []) db).0 ≡ ok p → (a ≡ p) × (b ≡ p)
unfolding single_project ◌>>=◌
single_project-pair a b p db h = elim (Bool-cases (str_eq b a)) [
  | inl e ↦ let q : a ≡ p = ground arith in (q, (eq_iff b a).0 e ∙ q)
  | inr e ↦ ground arith
]

pair_list :
    (a b : String) (bs ps : List String) (x y : Db)
    → (pure (a ∷ bs) x).0 ≡ ok ps
    → ((do rest ← pure []; pure (b ∷ rest)) y).0 ≡ ok bs
    → ps ≡ a ∷ b ∷ []
unfolding ◌>>=◌
pair_list a b bs ps x y h k = cc

projects_of-pair :
    (i d : ℕ) (db : Db) (ps : List String)
    → (projects_of (i ∷ d ∷ []) db).0 ≡ ok ps
    → (a : String) × (b : String) × (ps ≡ a ∷ b ∷ [])
      × (project_at i db.jobs ≡ some a)
      × (project_at d db.jobs ≡ some b)
unfolding projects_of
projects_of-pair i d db ps h =
    let (a, e, h1) = bind_inv (job_project_human_id i) _ db ps h in
    let h2 = rw ((job_project_human_id-unchanged i).at db) at h1 in
    let (bs, f, h3) = bind_inv (job_project_human_id d >>= _) _ db ps h2 in
    let (b, g, h4) = bind_inv (job_project_human_id d) _ db bs f in
    (
      a,
      b,
      pair_list a b bs ps _ _ h3 h4,
      job_project_human_id-ok i db a e,
      job_project_human_id-ok d db b g,
    )

-- Two jobs that pass are of one project.
pub require_same_project-ok :
    (i d : ℕ) (db : Db) (p : String)
    → (require_same_project (i ∷ d ∷ []) db).0 ≡ ok p
    → (project_at i db.jobs ≡ some p) × (project_at d db.jobs ≡ some p)
unfolding require_same_project
require_same_project-ok i d db p h =
    let (ps, e, h1) = bind_inv (projects_of (i ∷ d ∷ [])) _ db p h in
    let (a, b, q, x, y) = projects_of-pair i d db ps e in
    let (u, v) =
      single_project-pair a b p _ (rw (q, (projects_of-unchanged (i ∷ d ∷ [])).at db) at h1) in
    (x ∙ ap some u, y ∙ ap some v)

added-IsIsolated :
    (root_key : String → String) (i d : ℕ) (p : String) (db : Db)
    → i ≢ d
    → project_at i db.jobs ≡ some p
    → project_at d db.jobs ≡ some p
    → IsIsolated root_key db
    → IsIsolated root_key (insert_dependency i d db).1
unfolding insert_dependency insert_edge ◌>>=◌
added-IsIsolated root_key i d p db differ x y c =
    elim (any (same_edge i d) db.dependencies)
      as (λ b.
        IsIsolated root_key (insert_edge b (record { job_id = i; depends_on_job_id = d }) db).1) [
          | true ↦ c
          | false ↦ record {
            bound = c.bound;
            edges = λ e m. elim (In-append e db.dependencies _ m) [
              | inl a ↦ c.edges e a
              | inr (inl q) ↦ rw q (differ, p, x, y)
              | inr (inr a) ↦ absurd a
            ];
          }
        ]

pub add_job_dependency-IsIsolated :
    (root_key : String → String) (i d : ℕ) (db : Db)
    → IsIsolated root_key db
    → IsIsolated root_key (add_job_dependency i d db).1
unfolding add_job_dependency
add_job_dependency-IsIsolated root_key i d db c =
    let guard = not (i == d) in
    let same = require_same_project-unchanged (i ∷ d ∷ []) in
    bind_ok (IsIsolated root_key) (require guard self_dependency) _ db
      (λ _ e.
        let differ : i ≢ d =
          λ q. ground (arith, require_inv guard self_dependency db e, (==_iff i d).1 q) in
        rw ((Frames-require {F = unchanged} guard self_dependency).at db) (
          bind_ok (IsIsolated root_key) (require_same_project (i ∷ d ∷ [])) _ db
            (λ p f.
              let (x, y) = require_same_project-ok i d db p f in
              rw (same.at db) (added-IsIsolated root_key i d p db differ x y c))
            (rw (same.at db) c)))
      (rw ((Frames-require {F = unchanged} guard self_dependency).at db) c)
