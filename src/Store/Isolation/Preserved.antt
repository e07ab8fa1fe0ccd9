-- ===== src/Store/Isolation/Preserved.antt =====
-- Isolation through `create_job`, through `add_job_dependency`, and through any sequence of operations.
use project_os_agentic_agile.Base.{
  ℕ, suc, Bool, true, false, not, String, List, [], ◌∷◌, ◌++◌, Option, none, some, ◌≡◌, ◌↔◌, inl,
  inr, refl, sym, ap, ◌∙◌, str_eq, eq_iff, find, any, In, In-append, find-In, find-none, arith,
  Option-cases,
}
use project_os_agentic_agile.Store.Schema.{Job, JobStatus, Snapshot, Db, empty, job_status}
use project_os_agentic_agile.Store.Action.{
  ok, ◌>>=◌, ◌>>◌, gets, require, project_bound_elsewhere, root_taken,
}
use project_os_agentic_agile.Store.Leases.{iso}
use project_os_agentic_agile.Store.Creation.{
  NewJob, new_row, same_project, insert_row, insert_job, check_snapshot, bound_here, takes_root,
  assert_create_job_isolation, create_with, create_job,
}
use project_os_agentic_agile.Store.Isolation.{IsIsolated}
use project_os_agentic_agile.Store.Operations.{
  Operation, create, acquire, recover, start, promote_retry, promote_queued, unblock, block, cancel,
  succeed, fail, depend, place, settle, assign, trace, apply, apply_all,
}
use project_os_agentic_agile.Store.Isolation.Kept
use project_os_agentic_agile.Store.Isolation.Edges.{add_job_dependency-IsIsolated}
use project_os_agentic_agile.Store.Isolation.Identity.{SameIdentity, project_at}
use project_os_agentic_agile.Store.Framing.{Frames, bind_ok, bind_inv, unchanged, action_rules}

find_snoc_some :
    (id : ℕ) (jobs : List Job) (j : Job) (p : String)
    → project_at id jobs ≡ some p
    → project_at id (jobs ++ j ∷ []) ≡ some p
find_snoc_some id [] j p h = cc
find_snoc_some id (i ∷ is) j p h = ground (arith, find_snoc_some id is j p)

any-false :
    {A : Type 0} (p : A → Bool) (xs : List A) → any p xs ≡ false → (x : A) → In x xs → p x ≡ false
any-false p [] h x m = absurd m
any-false p (y ∷ ys) h x (inl q) = ap p q ∙ ground arith
any-false p (y ∷ ys) h x (inr m) = any-false p ys (ground arith) x m

module _ {root_key : String → String} where
  pub SameIdentity-IsIsolated :
      (a b : Db) → SameIdentity a b → IsIsolated root_key a → IsIsolated root_key b
  SameIdentity-IsIsolated a b s c = record {
    bound = λ i j m n.
        let (i', m', e, f) = s.rows i m in
        let (j', n', g, h) = s.rows j n in
        let (to, from) = c.bound i' j' m' n' in
        (
          (λ q. ap root_key f ∙ to (sym e ∙ q ∙ g) ∙ ap root_key (sym h)),
          (λ q. e ∙ from (ap root_key (sym f) ∙ q ∙ ap root_key h) ∙ sym g),
        );
    edges = λ e m.
        let (differ, p, x, y) = c.edges e (rw s.dependencies at m) in
        (differ, p, s.projects e.job_id ∙ x, s.projects e.depends_on_job_id ∙ y);
  }

  -- What the two checks of `_assert_create_job_isolation` on the jobs say of each of them.
  checks-bound :
      (pid root : String) (db : Db)
      → IsIsolated root_key db
      → bound_here root_key root (find (same_project pid) db.jobs) ≡ true
      → any (takes_root root_key pid root) db.jobs ≡ false
      → (i : Job) → In i db.jobs
      → (i.project_human_id ≡ pid) ↔ (root_key i.repository_root ≡ root_key root)
  checks-bound pid root db c here free i m = (
    (λ q. elim (Option-cases (find (same_project pid) db.jobs)) [
      | inl e ↦ cc (find-none _ _ e i m, (eq_iff i.project_human_id pid).1 q)
      | inr (k, e) ↦
          let (n, same) = find-In (same_project pid) db.jobs e in
          (c.bound i k m n).0 (q ∙ sym ((eq_iff k.project_human_id pid).0 same))
          ∙ (eq_iff (root_key k.repository_root) (root_key root)).0 (rw e at here)
    ]),
    λ q.
        let t = any-false (takes_root root_key pid root) db.jobs free i m in
        let s = (eq_iff (root_key i.repository_root) (root_key root)).1 q in
        (eq_iff i.project_human_id pid).0 (ground (arith, t, s)),
  )

  inserted-IsIsolated :
      (db : Db) (j : Job)
      → IsIsolated root_key db
      → ((i : Job)
          → In i db.jobs
          → (i.project_human_id ≡ j.project_human_id)
            ↔ (root_key i.repository_root ≡ root_key j.repository_root))
      → IsIsolated root_key (record db { jobs = db.jobs ++ j ∷ []; job_seq = suc db.job_seq })
  inserted-IsIsolated db j c fits = record {
    bound = λ h i m n. elim (In-append h db.jobs (j ∷ []) m) [
      | inl a ↦ elim (In-append i db.jobs (j ∷ []) n) [
        | inl b ↦ c.bound h i a b
        | inr (inl q) ↦ rw q (fits h a)
        | inr (inr b) ↦ absurd b
      ]
      | inr (inl q) ↦ elim (In-append i db.jobs (j ∷ []) n) [
        | inl b ↦
            let (to, from) = fits i b in rw q ((λ x. sym (to (sym x))), (λ x. sym (from (sym x))))
        | inr (inl r) ↦ rw (q, r) ((λ _. refl), (λ _. refl))
        | inr (inr b) ↦ absurd b
      ]
      | inr (inr a) ↦ absurd a
    ];
    edges = λ e m.
        let (differ, p, x, y) = c.edges e m in
        (
          differ,
          p,
          find_snoc_some e.job_id db.jobs j p x,
          find_snoc_some e.depends_on_job_id db.jobs j p y,
        );
  }

module _ (root_key : String → String) where
  check_snapshot-unchanged :
      (pid root : String) (s : Option Snapshot)
      → Frames unchanged (check_snapshot root_key pid root s)
  unfolding check_snapshot
  check_snapshot-unchanged pid root none = search action_rules
  check_snapshot-unchanged pid root (some s) = search action_rules

  assert_create_job_isolation-unchanged :
      (pid root : String) (s : Option Snapshot)
      → Frames unchanged (assert_create_job_isolation root_key pid root s)
  unfolding assert_create_job_isolation
  assert_create_job_isolation-unchanged pid root s =
      search (action_rules, check_snapshot-unchanged) depth 8

  checked :
      (pid root : String) (db : Db)
      → ((do
        bound ← gets (λ db. bound_here root_key root (find (same_project pid) db.jobs))
        require bound project_bound_elsewhere
        taken ← gets (λ db. any (takes_root root_key pid root) db.jobs)
        require (not taken) root_taken)
          db).0
        ≡ ok tt
      → (bound_here root_key root (find (same_project pid) db.jobs) ≡ true)
        × (any (takes_root root_key pid root) db.jobs ≡ false)
  unfolding ◌>>=◌
  checked pid root db h = ground arith

  assert_create_job_isolation-ok :
      (pid root : String) (s : Option Snapshot) (db : Db)
      → (assert_create_job_isolation root_key pid root s db).0 ≡ ok tt
      → (bound_here root_key root (find (same_project pid) db.jobs) ≡ true)
        × (any (takes_root root_key pid root) db.jobs ≡ false)
  unfolding assert_create_job_isolation
  assert_create_job_isolation-ok pid root s db h =
      let (_, _, h1) = bind_inv (check_snapshot root_key pid root s) _ db tt h in
      checked pid root db (rw ((check_snapshot-unchanged pid root s).at db) at h1)

  insert_job-IsIsolated :
      (now : ℕ) (s : JobStatus) (n : NewJob) (db : Db)
      → IsIsolated root_key db
      → ((i : Job)
          → In i db.jobs
          → (i.project_human_id ≡ n.project_human_id)
            ↔ (root_key i.repository_root ≡ root_key n.repository_root))
      → IsIsolated root_key (insert_job now s n db).1
  unfolding insert_job insert_row ◌>>=◌
  insert_job-IsIsolated now s n db c fits =
      elim (any (λ j. str_eq j.human_id n.human_id) db.jobs)
        as (λ b. IsIsolated root_key (insert_row b (new_row (suc db.job_seq) now s n) db).1) [
          | true ↦ c
          | false ↦ inserted-IsIsolated db (new_row (suc db.job_seq) now s n) c fits
        ]

  create_some-IsIsolated :
      (now : ℕ) (n : NewJob) (s : JobStatus) (db : Db)
      → IsIsolated root_key db
      → IsIsolated root_key (create_with root_key now n (some s) db).1
  unfolding create_with
  create_some-IsIsolated now n s db c =
      let pid = n.project_human_id in
      let root = n.repository_root in
      let same = (assert_create_job_isolation-unchanged pid root n.identity_snapshot).at db in
      bind_ok (IsIsolated root_key)
        (assert_create_job_isolation root_key pid root n.identity_snapshot) _ db
        (λ _ e.
          let (here, free) = assert_create_job_isolation-ok pid root n.identity_snapshot db e in
          rw same (insert_job-IsIsolated (iso now) s n db c (checks-bound pid root db c here free)))
        (rw same c)

  create_with-IsIsolated :
      (now : ℕ) (n : NewJob) (s : Option JobStatus) (db : Db)
      → IsIsolated root_key db
      → IsIsolated root_key (create_with root_key now n s db).1
  unfolding create_with ◌>>=◌
  create_with-IsIsolated now n none db c = c
  create_with-IsIsolated now n (some s) db c = create_some-IsIsolated now n s db c

  pub create_job-IsIsolated :
      (now : ℕ) (n : NewJob) (db : Db)
      → IsIsolated root_key db
      → IsIsolated root_key (create_job root_key now n db).1
  unfolding create_job
  create_job-IsIsolated now n db c = create_with-IsIsolated now n (job_status n.status) db c

  apply-IsIsolated :
      (o : Operation) (db : Db) → IsIsolated root_key db → IsIsolated root_key (apply root_key o db)
  unfolding apply
  apply-IsIsolated (create now n) db c = create_job-IsIsolated now n db c
  apply-IsIsolated (depend i d) db c = add_job_dependency-IsIsolated root_key i d db c
  apply-IsIsolated (acquire job worker seconds recovery moment) db c =
      SameIdentity-IsIsolated db _
        ((Kept.Same-acquire_lease job worker seconds recovery moment).at db) c
  apply-IsIsolated (recover moment project) db c =
      SameIdentity-IsIsolated db _ ((Kept.Same-recover_expired_leases moment project).at db) c
  apply-IsIsolated (start now k) db c =
      SameIdentity-IsIsolated db _ ((Kept.Same-mark_running now k).at db) c
  apply-IsIsolated (promote_retry now k r) db c =
      SameIdentity-IsIsolated db _ ((Kept.Same-promote_retry_wait_to_ready now k r).at db) c
  apply-IsIsolated (promote_queued now k r) db c =
      SameIdentity-IsIsolated db _ ((Kept.Same-promote_queued_to_ready now k r).at db) c
  apply-IsIsolated (unblock now k r) db c =
      SameIdentity-IsIsolated db _ ((Kept.Same-mark_ready_from_blocked now k r).at db) c
  apply-IsIsolated (block now later k e r) db c =
      SameIdentity-IsIsolated db _ ((Kept.Same-mark_blocked now later k e r).at db) c
  apply-IsIsolated (cancel now later k r) db c =
      SameIdentity-IsIsolated db _ ((Kept.Same-mark_cancelled now later k r).at db) c
  apply-IsIsolated (succeed now later sync_at fresh k output sha outcome) db c =
      SameIdentity-IsIsolated db _
        ((Kept.Same-mark_succeeded now later sync_at fresh k output sha outcome).at db) c
  apply-IsIsolated (fail now read later sync_at fresh k e output blocked) db c =
      SameIdentity-IsIsolated db _
        ((Kept.Same-mark_failure now read later sync_at fresh k e output blocked).at db) c
  apply-IsIsolated (place now k name path sha) db c =
      SameIdentity-IsIsolated db _ ((Kept.Same-update_job_worktree now k name path sha).at db) c
  apply-IsIsolated (settle now k outcome by) db c =
      SameIdentity-IsIsolated db _ ((Kept.Same-set_job_outcome now k outcome by).at db) c
  apply-IsIsolated (assign now k a) db c =
      SameIdentity-IsIsolated db _ ((Kept.Same-set_job_assignment now k a).at db) c
  apply-IsIsolated (trace now k source sha) db c =
      SameIdentity-IsIsolated db _ ((Kept.Same-set_job_source_provenance now k source sha).at db) c

  -- From isolated tables, after any sequence of operations, raising or not, a project has one
  -- repository root and a root one project, and every edge joins two different jobs of one project.
  pub apply_all-IsIsolated :
      (os : List Operation) (db : Db)
      → IsIsolated root_key db
      → IsIsolated root_key (apply_all root_key os db)
  unfolding apply_all
  apply_all-IsIsolated [] db c = c
  apply_all-IsIsolated (o ∷ os) db c =
      apply_all-IsIsolated os (apply root_key o db) (apply-IsIsolated o db c)

  pub empty-IsIsolated : IsIsolated root_key empty
  empty-IsIsolated = record { bound = λ i j m n. absurd m; edges = λ e m. absurd m }
