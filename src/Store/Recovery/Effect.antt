-- ===== src/Store/Recovery/Effect.antt =====
-- `recover_expired_leases` computed: what it returns, which jobs it ends and which it leaves alone.
use project_os_agentic_agile.Base.{
  ℕ, String, Bool, false, not, List, [], ◌∷◌, Option, none, some, ◌≡◌, refl, ◌∙◌, ◌&&◌, ◌==◌, find,
  any, select, In, In-select, inl, inr, find-update, update, update_row, arith,
}
use project_os_agentic_agile.Store.Schema.{Job, Lease, Db, is_active}
use project_os_agentic_agile.Store.Action.{Result, ok, err}
use project_os_agentic_agile.Store.Rows.{has_id, find_job, row_actions}
use project_os_agentic_agile.Store.Leases.{
  iso, expired_status, expire_job, active_row, lease_rows, is_expired, recover_row, recover_rows,
  recover_expired_leases, job_ids, list_expired_lease_job_ids,
}
use project_os_agentic_agile.Store.Consistency.Updates.{is_active_id, is_active_id-update_off}
use project_os_agentic_agile.Store.Consistency.Recovery.{lease_rows-In}
use project_os_agentic_agile.Store.Recovery.{recovered, recovered_all}

-- The job of that id is there.
abbrev IsThere : List Job → ℕ → Type 0
IsThere jobs k = (j : Job) × (find (has_id k) jobs ≡ some j)

recover_row-eq :
    (moment : ℕ) (x : Lease × Job) (db : Db)
    → IsThere db.jobs x.0.job_id
    → recover_row moment x db ≡ (ok tt, recovered moment x db)
unfolding recover_row row_actions
recover_row-eq moment (l, j) db (i, e) = ground (
  arith,
  find-update (has_id l.job_id) (has_id l.job_id) (expire_job (iso moment) j) db.jobs (λ r. refl),
)

IsThere-after :
    (moment : ℕ) (x : Lease × Job) (db : Db) (k : ℕ)
    → IsThere db.jobs k
    → IsThere (recovered moment x db).jobs k
IsThere-after moment (l, j) db k (i, e) = (
  update_row (has_id l.job_id) (expire_job (iso moment) j) i,
  find-update (has_id k) (has_id l.job_id) (expire_job (iso moment) j) db.jobs (λ r. refl) ∙ rw e,
)

recover_rows-eq :
    (moment : ℕ) (rows : List (Lease × Job)) (db : Db)
    → ((x : Lease × Job) → In x rows → IsThere db.jobs x.0.job_id)
    → recover_rows moment rows db ≡ (ok (job_ids rows), recovered_all moment rows db)
unfolding recover_rows row_actions
recover_rows-eq moment [] db h = refl
recover_rows-eq moment (x ∷ xs) db h =
    let e = recover_row-eq moment x db (h x (inl refl)) in
    let rest =
      recover_rows-eq moment xs (recovered moment x db)
        (λ y m. IsThere-after moment x db y.0.job_id (h y (inr m))) in
    rw (e, rest) refl

-- Which jobs the rows end, and which they leave as they were.
expired_status-off : (j : Job) → is_active (expired_status j) ≡ false
expired_status-off j = ground arith

find-update_other :
    (i k : ℕ) (f : Job → Job) (jobs : List Job)
    → ((j : Job) → (f j).id ≡ j.id)
    → (i == k) ≡ false
    → find (has_id k) (update (has_id i) f jobs) ≡ find (has_id k) jobs
find-update_other i k f [] keeps e = refl
find-update_other i k f (j ∷ js) keeps e =
    ground (arith, keeps j, find-update_other i k f js keeps e)

there : (l : Lease) (o : Option Job) {j : Job} → active_row l o ≡ some j → (i : Job) × (o ≡ some i)
there l none h = cc
there l (some i) h = (i, refl)

is_active_id-recovered_all :
    (moment k : ℕ) (rows : List (Lease × Job)) (db : Db)
    → is_active_id k (recovered_all moment rows db).jobs
      ≡ (is_active_id k db.jobs && not (any (λ i. i == k) (job_ids rows)))
is_active_id-recovered_all moment k [] db = ground arith
is_active_id-recovered_all moment k ((l, j) ∷ xs) db = ground (
  arith,
  is_active_id-recovered_all moment k xs (recovered moment (l, j) db),
  is_active_id-update_off l.job_id (expire_job (iso moment) j) (λ r. refl)
      (λ r. expired_status-off j) k db.jobs,
)

find-recovered_all :
    (moment k : ℕ) (rows : List (Lease × Job)) (db : Db)
    → any (λ i. i == k) (job_ids rows) ≡ false
    → find (has_id k) (recovered_all moment rows db).jobs ≡ find (has_id k) db.jobs
find-recovered_all moment k [] db h = refl
find-recovered_all moment k ((l, j) ∷ xs) db h =
    find-recovered_all moment k xs (recovered moment (l, j) db) (ground arith)
    ∙ find-update_other l.job_id k (expire_job (iso moment) j) db.jobs (λ r. refl) (ground arith)

-- The rows that the recovery reads.
abbrev pub expired_rows : (moment : ℕ) → Option String → Db → List (Lease × Job)
expired_rows moment project db = select (is_expired moment project) (lease_rows db db.leases)

expired_rows-IsThere :
    (moment : ℕ) (project : Option String) (db : Db) (x : Lease × Job)
    → In x (expired_rows moment project db)
    → IsThere db.jobs x.0.job_id
expired_rows-IsThere moment project db x m =
    let (n, _) = In-select x (is_expired moment project) (lease_rows db db.leases) m in
    let (_, e) = lease_rows-In db db.leases x n in there x.0 (find_job x.0.job_id db) e

pub recover_expired_leases-eq :
    (moment : ℕ) (project : Option String) (db : Db)
    → recover_expired_leases moment project db ≡ (
      ok (job_ids (expired_rows moment project db)),
      recovered_all moment (expired_rows moment project db) db,
    )
unfolding recover_expired_leases
recover_expired_leases-eq moment project db =
    recover_rows-eq moment _ db (expired_rows-IsThere moment project db)

-- Whether an answer of ids has that id.
abbrev pub lists : ℕ → Result (List ℕ) → Bool
lists k (ok ids) = any (λ i. i == k) ids
lists k (err e) = false

-- Recovery answers what `list_expired_lease_job_ids` answers before it, at the same moment and for
-- the same project, and exactly the jobs of these ids stop being LEASED or RUNNING.
pub recover_expired_leases-ends_listed :
    (moment : ℕ) (project : Option String) (db : Db) (k : ℕ)
    → ((recover_expired_leases moment project db).0
        ≡ (list_expired_lease_job_ids moment project db).0)
      × (is_active_id k (recover_expired_leases moment project db).1.jobs ≡ (
          is_active_id k db.jobs && not (lists k (list_expired_lease_job_ids moment project db).0)))
unfolding list_expired_lease_job_ids
recover_expired_leases-ends_listed moment project db k =
    rw (recover_expired_leases-eq moment project db)
      (refl, is_active_id-recovered_all moment k (expired_rows moment project db) db)

-- The row of a job that is not listed as expired is found after the recovery as it was.
pub recover_expired_leases-leaves :
    (moment : ℕ) (project : Option String) (db : Db) (k : ℕ)
    → lists k (list_expired_lease_job_ids moment project db).0 ≡ false
    → find_job k (recover_expired_leases moment project db).1 ≡ find_job k db
unfolding list_expired_lease_job_ids
recover_expired_leases-leaves moment project db k h =
    rw (recover_expired_leases-eq moment project db)
      (find-recovered_all moment k (expired_rows moment project db) db h)
