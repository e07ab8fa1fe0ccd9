-- ===== src/Store/Consistency/Claims.antt =====
-- What `claim_ready` does on consistent tables: it claims a READY job, and refuses any other.
use project_os_agentic_agile.Base.{
  ℕ, suc, ◌≤◌, String, Bool, true, false, List, [], ◌∷◌, ◌++◌, none, some, ◌≡◌, ◌≢◌, ◌↔◌, inl, inr,
  refl, sym, ap, ◌∙◌, ◌==◌, if◌then◌else◌, find, any, count, select, update, In, In-select,
  In-append, find-update, arith, Bool-cases,
}
use project_os_agentic_agile.Store.Schema.{Job, JobStatus, Lease, Db, Message, Payload, same_status}
use project_os_agentic_agile.Store.Action.{ok, err, not_ready}
use project_os_agentic_agile.Store.Rows.{has_id, row_actions}
use project_os_agentic_agile.Store.Leases.{
  is_kept, is_ready_row, lease_job, new_lease, insert_lease, claim_ready,
}
use project_os_agentic_agile.Store.Consistency.{IsConsistent}
use project_os_agentic_agile.Store.Consistency.Updates.{
  has_open, is_active_id, has_open-purge, count-update,
}

-- The row of that id is READY.
abbrev pub is_ready_id : ℕ → List Job → Bool
is_ready_id k jobs = elim (find (has_id k) jobs) [
  | none ↦ false
  | some j ↦ same_status j.status JobStatus.ready
]

count_ready-le : (k : ℕ) (jobs : List Job) → count (is_ready_row k) jobs ≤ count (has_id k) jobs
count_ready-le k [] = omega arith
count_ready-le k (j ∷ js) = ground (arith, count_ready-le k js)

-- The row count of the UPDATE says whether the job is READY.
count_ready :
    (k : ℕ) (jobs : List Job)
    → count (has_id k) jobs ≤ 1
    → count (is_ready_row k) jobs ≡ (if is_ready_id k jobs then 1 else 0)
count_ready k [] h = refl
count_ready k (j ∷ js) h = ground (arith, count_ready k js, count_ready-le k js)

update_none :
    (k at : ℕ) (jobs : List Job)
    → count (is_ready_row k) jobs ≡ 0
    → update (is_ready_row k) (lease_job at) jobs ≡ jobs
update_none k at [] h = refl
update_none k at (j ∷ js) h = ground (arith, update_none k at js)

is_active_id-claim :
    (k at id : ℕ) (jobs : List Job)
    → count (has_id k) jobs ≤ 1
    → is_ready_id k jobs ≡ true
    → is_active_id id (update (is_ready_row k) (lease_job at) jobs)
      ≡ (if id == k then true else is_active_id id jobs)
unfolding is_active_id
is_active_id-claim k at id [] h r = cc
is_active_id-claim k at id (j ∷ js) h r =
    ground (arith, is_active_id-claim k at id js, update_none k at js, count_ready-le k js)

pub not_active_of_ready :
    (k : ℕ) (jobs : List Job) → is_ready_id k jobs ≡ true → is_active_id k jobs ≡ false
unfolding is_active_id
not_active_of_ready k jobs r = ground arith

pub purge_frees :
    (k : ℕ) (leases : List Lease)
    → has_open k leases ≡ false
    → any (λ l. l.job_id == k) (select (is_kept k) leases) ≡ false
unfolding has_open
purge_frees k [] h = refl
purge_frees k (l ∷ ls) h = ground (arith, purge_frees k ls)

find-claim :
    (k at : ℕ) (jobs : List Job)
    → is_ready_id k jobs ≡ true
    → (j : Job) × (find (has_id k) (update (is_ready_row k) (lease_job at) jobs) ≡ some j)
find-claim k at [] r = cc
find-claim k at (j ∷ js) r = elim (Bool-cases (j.id == k)) [
  | inl e ↦ (lease_job at j, ground arith)
  | inr e ↦ let (i, f) = find-claim k at js (ground arith) in (i, ground arith)
]

abbrev pub claimed_lease : Db → ℕ → String → (leased_at expires_at : ℕ) → Lease
claimed_lease db k worker leased_at expires_at =
    new_lease (suc db.lease_seq) k worker leased_at expires_at

-- The tables after a claim.
abbrev pub claimed : Db → ℕ → String → (leased_at expires_at lease_seconds : ℕ) → Db
claimed db k worker leased_at expires_at lease_seconds = record db {
  jobs = update (is_ready_row k) (lease_job leased_at) db.jobs;
  leases = select (is_kept k) db.leases ++ claimed_lease db k worker leased_at expires_at ∷ [];
  lease_seq = suc db.lease_seq;
  events =
      db.events
      ++ record {
        job_id = k;
        event_type = "lease.acquired";
        status = some JobStatus.leased;
        message = some (Message.lease_acquired_by worker);
        payload = some (Payload.lease_until expires_at lease_seconds);
      }
        ∷ [];
}

module _ (k : ℕ) (worker : String) (leased_at expires_at lease_seconds : ℕ) (db : Db)
    (c : IsConsistent db) where
  pub claim_ready-eq-claimed :
      is_ready_id k db.jobs ≡ true
      → claim_ready k worker leased_at expires_at lease_seconds db ≡ (
        ok (claimed_lease db k worker leased_at expires_at),
        claimed db k worker leased_at expires_at lease_seconds,
      )
  unfolding claim_ready row_actions insert_lease
  claim_ready-eq-claimed r =
      let (j, f) = find-claim k leased_at db.jobs r in
      ground (
        arith,
        count_ready k db.jobs (c.job_unique k),
        purge_frees k db.leases (c.held k ∙ not_active_of_ready k db.jobs r),
        f,
      )

  pub claim_ready_refused :
      is_ready_id k db.jobs ≡ false
      → claim_ready k worker leased_at expires_at lease_seconds db
        ≡ (err not_ready, record db { leases = select (is_kept k) db.leases })
  unfolding claim_ready row_actions
  claim_ready_refused r =
      let n = count_ready k db.jobs (c.job_unique k) in
      ground (arith, n, update_none k leased_at db.jobs)

has_open-claim :
    (id : ℕ) (leases : List Lease) (l : Lease)
    → l.released_at ≡ none
    → has_open id (leases ++ l ∷ []) ≡ (if id == l.job_id then true else has_open id leases)
unfolding has_open
has_open-claim id [] l e = ground arith
has_open-claim id (r ∷ rs) l e = ground (arith, has_open-claim id rs l e)

-- No kept lease has the job's id.
no_lease_of :
    (k : ℕ) (leases : List Lease)
    → any (λ l. l.job_id == k) leases ≡ false
    → (l : Lease) → In l leases
    → l.job_id ≢ k
no_lease_of k [] h l m = absurd m
no_lease_of k (r ∷ rs) h l (inl q) = ground (arith, ap (λ (x : Lease). x.job_id) q)
no_lease_of k (r ∷ rs) h l (inr m) = no_lease_of k rs (ground arith) l m

-- One lease more, of an id and a job that the others do not have.
unique_snoc :
    (leases : List Lease) (new : Lease)
    → ((l r : Lease) → In l leases → In r leases → (l.id ≡ r.id) ↔ (l.job_id ≡ r.job_id))
    → ((l : Lease) → In l leases → l.id ≢ new.id)
    → ((l : Lease) → In l leases → l.job_id ≢ new.job_id)
    → (l r : Lease) → In l (leases ++ new ∷ [])
    → In r (leases ++ new ∷ [])
    → (l.id ≡ r.id) ↔ (l.job_id ≡ r.job_id)
unique_snoc leases new u ids jobs l r m n = elim (In-append l leases (new ∷ []) m) [
  | inl a ↦ elim (In-append r leases (new ∷ []) n) [
    | inl b ↦ u l r a b
    | inr (inl q) ↦ (
      (λ e. absurd (ids l a (e ∙ ap (λ x. x.id) q))),
      (λ e. absurd (jobs l a (e ∙ ap (λ x. x.job_id) q))),
    )
    | inr (inr b) ↦ absurd b
  ]
  | inr (inl p) ↦ elim (In-append r leases (new ∷ []) n) [
    | inl b ↦ (
      (λ e. absurd (ids r b (sym e ∙ ap (λ x. x.id) p))),
      (λ e. absurd (jobs r b (sym e ∙ ap (λ x. x.job_id) p))),
    )
    | inr (inl q) ↦ ((λ _. ap (λ x. x.job_id) (p ∙ sym q)), (λ _. ap (λ x. x.id) (p ∙ sym q)))
    | inr (inr b) ↦ absurd b
  ]
  | inr (inr a) ↦ absurd a
]

module _ (k : ℕ) (worker : String) (leased_at expires_at lease_seconds : ℕ) (db : Db)
    (c : IsConsistent db) where
  purged-IsConsistent : IsConsistent (record db { leases = select (is_kept k) db.leases })
  purged-IsConsistent = record {
    held = λ id. has_open-purge k id db.leases ∙ c.held id;
    job_unique = c.job_unique;
    job_fresh = c.job_fresh;
    lease_unique =
        λ l r m n. c.lease_unique l r (In-select l _ db.leases m).0 (In-select r _ db.leases n).0;
    lease_fresh = λ l m. c.lease_fresh l (In-select l _ db.leases m).0;
  }

  pub claimed-IsConsistent :
      is_ready_id k db.jobs ≡ true
      → IsConsistent (claimed db k worker leased_at expires_at lease_seconds)
  claimed-IsConsistent r =
      let purged = select (is_kept k) db.leases in
      let new = claimed_lease db k worker leased_at expires_at in
      let p = purged-IsConsistent in
      let free = purge_frees k db.leases (c.held k ∙ not_active_of_ready k db.jobs r) in
      record {
        held = λ id. ground (
          arith,
          p.held id,
          has_open-claim id purged new refl,
          is_active_id-claim k leased_at id db.jobs (c.job_unique k) r,
        );
        job_unique = λ id. omega (
          arith,
          count-update (is_ready_row k) (lease_job leased_at) (λ j. refl) id db.jobs,
          c.job_unique id,
        );
        job_fresh = λ id le.
            find-update (has_id id) (is_ready_row k) (lease_job leased_at) db.jobs (λ j. refl)
            ∙ rw (c.job_fresh id le);
        lease_unique =
            unique_snoc purged new p.lease_unique
              (λ l m e. absurd (omega (arith, p.lease_fresh l m, e))) (no_lease_of k purged free);
        lease_fresh = λ l m. elim (In-append l purged (new ∷ []) m) [
          | inl a ↦ omega (arith, p.lease_fresh l a)
          | inr (inl q) ↦ omega (arith, ap (λ (x : Lease). x.id) q)
          | inr (inr b) ↦ absurd b
        ];
      }

  pub claim_ready-IsConsistent :
      IsConsistent (claim_ready k worker leased_at expires_at lease_seconds db).1
  claim_ready-IsConsistent = elim (Bool-cases (is_ready_id k db.jobs)) [
    | inl r ↦
        rw (claim_ready-eq-claimed k worker leased_at expires_at lease_seconds db c r)
          (claimed-IsConsistent r)
    | inr r ↦
        rw (claim_ready_refused k worker leased_at expires_at lease_seconds db c r)
          purged-IsConsistent
  ]
