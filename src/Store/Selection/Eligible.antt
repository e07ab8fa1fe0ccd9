-- ===== src/Store/Selection/Eligible.antt =====
-- `list_eligible_ready_jobs` returns jobs that may run, and no more than its limit.
use project_os_agentic_agile.Base.{
  ℕ, suc, ◌+◌, ◌≤◌, String, Bool, true, false, List, [], ◌∷◌, Option, none, some, ◌≡◌, refl, ◌∙◌,
  ◌⊎◌, inl, inr, length, select, In, In-select, order_by, In-order_by, arith, Bool-cases,
}
use project_os_agentic_agile.Store.Schema.{Job, Db}
use project_os_agentic_agile.Store.Action.{ok, ◌>>=◌}
use project_os_agentic_agile.Store.Selection.{
  dependencies_satisfied, runs_before, is_eligible_row, is_full, collect, list_eligible_ready_jobs,
}
use project_os_agentic_agile.Store.Selection.Choice.{dependencies_satisfied-Answers}
use project_os_agentic_agile.Store.Isolation.{IsIsolated}

-- The jobs all pass a test that the rows passed, and have their dependencies satisfied.
abbrev pub AllRunnable : (Job → Type 0) → Db → List Job → Type 0
AllRunnable P db [] = Unit
AllRunnable P db (j ∷ js) =
    (P j × (dependencies_satisfied j.id db ≡ (ok true, db))) × AllRunnable P db js

-- At most `limit` rows, where one is always allowed.
abbrev pub WithinLimit : Option ℕ → ℕ → Type 0
WithinLimit none n = Unit
WithinLimit (some limit) n = (n ≤ 1) ⊎ (n ≤ limit)

abbrev Within : Option ℕ → (n more : ℕ) → Type 0
Within none n more = Unit
Within (some limit) n more = (more ≤ 1) ⊎ (n + more ≤ limit)

Within-one : (limit : Option ℕ) (n : ℕ) → Within limit n 1
Within-one none n = tt
Within-one (some l) n = inl (omega arith)

Within-zero : (limit : Option ℕ) (n : ℕ) → Within limit n 0
Within-zero none n = tt
Within-zero (some l) n = inl (omega arith)

Within-next :
    (limit : Option ℕ) (n more : ℕ)
    → is_full limit (suc n) ≡ false
    → Within limit (suc n) more
    → Within limit n (suc more)
Within-next none n more e w = tt
Within-next (some l) n more e w = inr (ground arith)

Within-WithinLimit : (limit : Option ℕ) (n : ℕ) → Within limit 0 n → WithinLimit limit n
Within-WithinLimit none n w = tt
Within-WithinLimit (some l) n w = ground arith

collect-lem :
    (P : Job → Type 0) (limit : Option ℕ) (n : ℕ) (js : List Job) (db : Db)
    → ((id : ℕ) → (b : Bool) × (dependencies_satisfied id db ≡ (ok b, db)))
    → ((j : Job) → In j js → P j)
    → (rs : List Job) × (collect limit n js db ≡ (ok rs, db))
      × AllRunnable P db rs
      × Within limit n (length rs)
unfolding collect ◌>>=◌
collect-lem P limit n [] db h each = ([], refl, tt, Within-zero limit n)
collect-lem P limit n (j ∷ js) db h each =
    let (b, a) = h j.id in
    elim (Bool-cases b) [
      | inr f ↦
          let no : dependencies_satisfied j.id db ≡ (ok false, db) = a ∙ rw f refl in
          let (rs, e, r, w) = collect-lem P limit n js db h (λ i m. each i (inr m)) in
          (rs, rw (no, e) refl, r, w)
      | inl t ↦
          let yes : dependencies_satisfied j.id db ≡ (ok true, db) = a ∙ rw t refl in
          elim (Bool-cases (is_full limit (suc n))) [
            | inl full ↦
                (j ∷ [], rw (yes, full) refl, ((each j (inl refl), yes), tt), Within-one limit n)
            | inr free ↦
                let (rs, e, r, w) = collect-lem P limit (suc n) js db h (λ i m. each i (inr m)) in
                (
                  j ∷ rs,
                  rw (yes, free, e) refl,
                  ((each j (inl refl), yes), r),
                  Within-next limit n (length rs) free w,
                )
          ]
    ]

-- On isolated tables `list_eligible_ready_jobs` returns, writes nothing, and each job it returns is a
-- READY job of the table in the queue and project asked for, whose project is not paused and whose
-- dependencies are satisfied; they are no more than the limit, where one is always allowed.
pub list_eligible_ready_jobs-runnable :
    (root_key : String → String) (limit : Option ℕ) (queue project : Option String) (db : Db)
    → IsIsolated root_key db
    → (rs : List Job) × (list_eligible_ready_jobs limit queue project db ≡ (ok rs, db))
      × AllRunnable (λ j. In j db.jobs × (is_eligible_row db queue project j ≡ true)) db rs
      × WithinLimit limit (length rs)
unfolding list_eligible_ready_jobs
list_eligible_ready_jobs-runnable root_key limit queue project db c =
    let rows = select (is_eligible_row db queue project) db.jobs in
    let (rs, e, r, w) =
      collect-lem (λ j. In j db.jobs × (is_eligible_row db queue project j ≡ true)) limit 0
        (order_by runs_before rows) db (dependencies_satisfied-Answers db c)
        (λ j m.
          In-select j (is_eligible_row db queue project) db.jobs
            (In-order_by runs_before j rows m)) in
    (rs, e, r, Within-WithinLimit limit (length rs) w)
