-- ===== src/Store/Recovery/Exclusive.antt =====
-- One worker at a time: a job that is leased cannot be leased again before its lease expires.
use project_os_agentic_agile.Base.{
  ℕ, ◌+◌, ◌*◌, String, Bool, true, false, List, [], ◌∷◌, ◌++◌, Option, none, ◌≡◌, refl, ap, sym,
  ◌∙◌, ◌&&◌, ◌==◌, ltb, if◌then◌else◌, find, any, select, inl, inr, update, arith, Option-cases,
  Bool-cases,
}
use project_os_agentic_agile.Store.Schema.{Job, Lease, Db}
use project_os_agentic_agile.Store.Action.{
  ok, err, ◌>>=◌, require, not_ready, lease_seconds_not_positive,
}
use project_os_agentic_agile.Store.Rows.{has_id}
use project_os_agentic_agile.Store.Framing.{bind_inv, require_inv}
use project_os_agentic_agile.Store.Leases.{
  iso, parse_iso, active_job_of, lease_rows, is_expired, job_ids, is_kept, is_ready_row, lease_job,
  claim_ready, acquire_lease, recover_expired_leases, list_expired_lease_job_ids,
}
use project_os_agentic_agile.Store.Consistency.{IsConsistent}
use project_os_agentic_agile.Store.Consistency.Recovery.{Kept-recover_expired_leases}
use project_os_agentic_agile.Store.Consistency.Claims.{
  is_ready_id, claimed, claimed_lease, claim_ready-eq-claimed, claim_ready_refused,
  claimed-IsConsistent, purge_frees, not_active_of_ready,
}
use project_os_agentic_agile.Store.Recovery.Effect.{
  lists, recover_expired_leases-eq, recover_expired_leases-leaves,
}

-- The leases of job `k` all last beyond `moment`.
abbrev last_beyond : ℕ → ℕ → List Lease → Bool
last_beyond moment k [] = true
last_beyond moment k (l ∷ ls) =
    if l.job_id == k
    then ltb moment (parse_iso l.expires_at) && last_beyond moment k ls
    else last_beyond moment k ls

not_listed :
    (moment : ℕ) (project : Option String) (k : ℕ) (db : Db) (leases : List Lease)
    → last_beyond moment k leases ≡ true
    → any (λ i. i == k) (job_ids (select (is_expired moment project) (lease_rows db leases)))
      ≡ false
not_listed moment project k db [] h = refl
not_listed moment project k db (l ∷ ls) h = elim (Option-cases (active_job_of db l)) [
  | inl e ↦ rw e (not_listed moment project k db ls (ground arith))
  | inr (j, e) ↦ rw e (ground (arith, not_listed moment project k db ls))
]

last_beyond-claim :
    (moment k : ℕ) (leases : List Lease) (new : Lease)
    → any (λ l. l.job_id == k) leases ≡ false
    → ltb moment (parse_iso new.expires_at) ≡ true
    → last_beyond moment k (leases ++ new ∷ []) ≡ true
last_beyond-claim moment k [] new h e = ground arith
last_beyond-claim moment k (l ∷ ls) new h e = ground (arith, last_beyond-claim moment k ls new)

is_ready_id-claim :
    (k at : ℕ) (jobs : List Job)
    → is_ready_id k (update (is_ready_row k) (lease_job at) jobs) ≡ false
is_ready_id-claim k at [] = refl
is_ready_id-claim k at (j ∷ js) = ground (arith, is_ready_id-claim k at js)

-- A lease was given: the job was READY, and the database is that after the claim.
module _ (k : ℕ) (worker : String) (leased_at expires_at seconds : ℕ) (db : Db)
    (c : IsConsistent db) where
  claim_ready-ok :
      (lease : Lease)
      → (claim_ready k worker leased_at expires_at seconds db).0 ≡ ok lease
      → is_ready_id k db.jobs ≡ true
  claim_ready-ok lease h = elim (Bool-cases (is_ready_id k db.jobs)) [
    | inl r ↦ r
    | inr r ↦ cc (rw (claim_ready_refused k worker leased_at expires_at seconds db c r) at h)
  ]

  -- After the claim, neither a recovery at a moment before the expiry nor a second claim.
  claimed_refuses :
      (moment : ℕ) (project : Option String)
      → is_ready_id k db.jobs ≡ true
      → ltb moment (parse_iso expires_at) ≡ true
      → (lists k
            (list_expired_lease_job_ids moment project
              (claimed db k worker leased_at expires_at seconds)).0
          ≡ false)
        × (is_ready_id k (claimed db k worker leased_at expires_at seconds).jobs ≡ false)
  unfolding list_expired_lease_job_ids
  claimed_refuses moment project r e =
      let free = purge_frees k db.leases (c.held k ∙ not_active_of_ready k db.jobs r) in
      (
        not_listed moment project k (claimed db k worker leased_at expires_at seconds) _ (
            last_beyond-claim moment k (select (is_kept k) db.leases)
              (claimed_lease db k worker leased_at expires_at) free e),
        is_ready_id-claim k leased_at db.jobs,
      )

acquire_lease-eq :
    (job : Job) (worker : String) (seconds recovery moment : ℕ) (db : Db)
    → ltb 0 seconds ≡ true
    → acquire_lease job worker seconds recovery moment db
      ≡ claim_ready job.id worker
          (iso moment)
          (iso (moment + seconds * 1000000))
          seconds
          (recover_expired_leases recovery none db).1
unfolding acquire_lease ◌>>=◌
acquire_lease-eq job worker seconds recovery moment db h =
    rw (h, recover_expired_leases-eq recovery none db) refl

acquire_lease-positive :
    (job : Job) (worker : String) (seconds recovery moment : ℕ) (db : Db) (lease : Lease)
    → (acquire_lease job worker seconds recovery moment db).0 ≡ ok lease
    → ltb 0 seconds ≡ true
unfolding acquire_lease
acquire_lease-positive job worker seconds recovery moment db lease h =
    let (_, e, _) = bind_inv (require (ltb 0 seconds) lease_seconds_not_positive) _ db lease h in
    require_inv (ltb 0 seconds) lease_seconds_not_positive db e

is_ready_id-of_find :
    (k : ℕ) (xs ys : List Job)
    → find (has_id k) xs ≡ find (has_id k) ys
    → is_ready_id k ys ≡ false
    → is_ready_id k xs ≡ false
is_ready_id-of_find k xs ys e h = rw (e, is_ready_id) h

ok-injective : {A : Type 0} {a b : A} → ok a ≡ ok b → a ≡ b
ok-injective h = cc

refused_again :
    (job : Job) (worker : String) (seconds recovery moment k : ℕ) (db : Db)
    → IsConsistent db
    → job.id ≡ k
    → lists k (list_expired_lease_job_ids recovery none db).0 ≡ false
    → is_ready_id k db.jobs ≡ false
    → ltb 0 seconds ≡ true
    → (acquire_lease job worker seconds recovery moment db).0 ≡ err not_ready
refused_again job worker seconds recovery moment k db c same off busy positive =
    let db1 = (recover_expired_leases recovery none db).1 in
    let still =
      is_ready_id-of_find k db1.jobs db.jobs (recover_expired_leases-leaves recovery none db k off)
        busy in
    let refused =
      claim_ready_refused k worker (iso moment) (iso (moment + seconds * 1000000)) seconds db1
        ((Kept-recover_expired_leases recovery none).at db c) still in
    rw (acquire_lease-eq job worker seconds recovery moment db positive, same, refused) refl

-- On consistent tables, after a worker was given a lease on a job, nobody is given another on it
-- before the lease expires: a second call of `acquire_lease`, whose recovery reads the clock before
-- the expiry of the first lease and whose `lease_seconds` is positive, raises "not READY".
pub acquire_lease-excludes :
    (job again : Job) (worker rival : String) (seconds more recovery moment recovery' moment' : ℕ)
    (db : Db) (lease : Lease)
    → IsConsistent db
    → again.id ≡ job.id
    → (acquire_lease job worker seconds recovery moment db).0 ≡ ok lease
    → ltb recovery' (parse_iso lease.expires_at) ≡ true
    → ltb 0 more ≡ true
    → (acquire_lease again rival more recovery' moment'
        (acquire_lease job worker seconds recovery moment db).1).0
      ≡ err not_ready
acquire_lease-excludes job again worker rival seconds more recovery moment recovery' moment' db
      lease c same h before positive =
    let k = job.id in
    let at = iso moment in
    let until = iso (moment + seconds * 1000000) in
    let db1 = (recover_expired_leases recovery none db).1 in
    let c1 = (Kept-recover_expired_leases recovery none).at db c in
    let first =
      acquire_lease-eq job worker seconds recovery moment db
        (acquire_lease-positive job worker seconds recovery moment db lease h) in
    let r = claim_ready-ok k worker at until seconds db1 c1 lease (rw first at h) in
    let won = first ∙ claim_ready-eq-claimed k worker at until seconds db1 c1 r in
    let after = claimed db1 k worker at until seconds in
    let given : claimed_lease db1 k worker at until ≡ lease =
      ok-injective (sym (ap (λ r. r.0) won) ∙ h) in
    let (off, busy) =
      claimed_refuses k worker at until seconds db1 c1 recovery' none r
        (rw (sym given) at before) in
    let kept = claimed-IsConsistent k worker at until seconds db1 c1 r in
    rw won (refused_again again rival more recovery' moment' k after kept same off busy positive)
