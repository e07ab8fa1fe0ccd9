-- ===== src/Store/Selection/Dependents.antt =====
-- The two readings of the dependency edges agree.
use project_os_agentic_agile.Base.{
  ℕ, List, [], ◌∷◌, ◌≡◌, refl, ap, sym, ◌↔◌, inl, inr, ◌==◌, ==_iff, In, In-select, In-select_intro,
  select,
}
use project_os_agentic_agile.Store.Schema.{Dependency, Db}
use project_os_agentic_agile.Store.Selection.{
  depends_on, dependents, list_job_dependencies, list_dependent_job_ids,
}

-- An id of a column is that of a row, and the other way round.
depends_on-edge :
    (d : ℕ) (es : List Dependency)
    → In d (depends_on es)
    → (e : Dependency) × In e es × (d ≡ e.depends_on_job_id)
depends_on-edge d [] m = absurd m
depends_on-edge d (e ∷ es) (inl q) = (e, inl refl, q)
depends_on-edge d (e ∷ es) (inr m) = let (f, n, q) = depends_on-edge d es m in (f, inr n, q)

dependents-edge :
    (j : ℕ) (es : List Dependency)
    → In j (dependents es)
    → (e : Dependency) × In e es × (j ≡ e.job_id)
dependents-edge j [] m = absurd m
dependents-edge j (e ∷ es) (inl q) = (e, inl refl, q)
dependents-edge j (e ∷ es) (inr m) = let (f, n, q) = dependents-edge j es m in (f, inr n, q)

In-depends_on :
    (e : Dependency) (es : List Dependency) → In e es → In e.depends_on_job_id (depends_on es)
In-depends_on e [] m = absurd m
In-depends_on e (f ∷ fs) (inl q) = inl (ap (λ (x : Dependency). x.depends_on_job_id) q)
In-depends_on e (f ∷ fs) (inr m) = inr (In-depends_on e fs m)

In-dependents : (e : Dependency) (es : List Dependency) → In e es → In e.job_id (dependents es)
In-dependents e [] m = absurd m
In-dependents e (f ∷ fs) (inl q) = inl (ap (λ (x : Dependency). x.job_id) q)
In-dependents e (f ∷ fs) (inr m) = inr (In-dependents e fs m)

-- A job lists another among its dependencies exactly when it is listed among the other's dependents.
pub list_job_dependencies-list_dependent_job_ids :
    (db : Db) (j d : ℕ) → In d (list_job_dependencies db j) ↔ In j (list_dependent_job_ids db d)
list_job_dependencies-list_dependent_job_ids db j d = (
  (λ m.
      let (e, n, q) = depends_on-edge d (select (λ e. e.job_id == j) db.dependencies) m in
      let (k, s) = In-select e (λ e. e.job_id == j) db.dependencies n in
      let r = In-dependents e (select (λ e. e.depends_on_job_id == d) db.dependencies) (
        In-select_intro e (λ e. e.depends_on_job_id == d) db.dependencies k
          ((==_iff e.depends_on_job_id d).1 (sym q))) in
      rw ((==_iff e.job_id j).0 s) at r),
  λ m.
      let (e, n, q) =
        dependents-edge j (select (λ e. e.depends_on_job_id == d) db.dependencies) m in
      let (k, s) = In-select e (λ e. e.depends_on_job_id == d) db.dependencies n in
      let r = In-depends_on e (select (λ e. e.job_id == j) db.dependencies) (
        In-select_intro e (λ e. e.job_id == j) db.dependencies k ((==_iff e.job_id j).1 (sym q))) in
      rw ((==_iff e.depends_on_job_id d).0 s) at r,
)
