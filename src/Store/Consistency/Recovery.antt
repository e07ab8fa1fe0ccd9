-- ===== src/Store/Consistency/Recovery.antt =====
-- The recovery of expired leases keeps the tables consistent.
use project_os_agentic_agile.Base.{
  ℕ, String, false, ◌&&◌, List, [], ◌∷◌, Option, some, ◌≡◌, ◌↔◌, inl, inr, refl, sym, ap, ◌∙◌,
  Option-cases, ◌==◌, if◌then◌else◌, update, In, In-select, arith, is_none,
}
use project_os_agentic_agile.Store.Schema.{Job, Lease, Db, Message, is_active}
use project_os_agentic_agile.Store.Rows.{row_actions}
use project_os_agentic_agile.Store.Framing.{Frames, Frames-pure, bind_after}
use project_os_agentic_agile.Store.Leases.{
  iso, close_lease, expired_status, expire_job, active_job_of, lease_rows, is_expired, recover_row,
  recover_rows, recover_expired_leases,
}
use project_os_agentic_agile.Store.Consistency.{IsConsistent, Held}
use project_os_agentic_agile.Store.Consistency.Updates.{has_open, is_active_id-update_off}
use project_os_agentic_agile.Store.Consistency.Frames.{SameRows, same_rows, frame_rules}
use project_os_agentic_agile.Store.Consistency.Kept.{SameRows-IsConsistent, keeps_consistent}

-- Among the leases, those of that id are those of that job.
abbrev Owns : Lease → List Lease → Type 0
Owns l leases = (r : Lease) → In r leases → (r.id ≡ l.id) ↔ (r.job_id ≡ l.job_id)

has_open-close_id :
    (l : Lease) (at : ℕ) (m : Message) (id : ℕ) (leases : List Lease)
    → Owns l leases
    → has_open id (update (λ r. r.id == l.id && is_none r.released_at) (close_lease at m) leases)
      ≡ (if id == l.job_id then false else has_open id leases)
unfolding has_open
has_open-close_id l at m id [] o = ground arith
has_open-close_id l at m id (r ∷ rs) o =
    ground (arith, o r (inl refl), has_open-close_id l at m id rs (λ s n. o s (inr n)))

expired_status-off : (j : Job) → is_active (expired_status j) ≡ false
expired_status-off j = ground arith

Frames-recover_row :
    (moment : ℕ) (l : Lease) (j : Job) → Frames same_rows (recover_row moment (l, j))
unfolding recover_row
Frames-recover_row moment l j = search frame_rules depth 12

recover_row-Held :
    (moment : ℕ) (l : Lease) (j : Job) (db : Db)
    → Owns l db.leases
    → Held db.leases db.jobs
    → let db' = (recover_row moment (l, j) db).1 in Held db'.leases db'.jobs
unfolding recover_row row_actions
recover_row-Held moment l j db o h id = ground (
  arith,
  h id,
  has_open-close_id l (iso moment) (Message.text "expired") id db.leases o,
  is_active_id-update_off l.job_id (expire_job (iso moment) j) (λ r. refl)
      (λ r. expired_status-off j) id db.jobs,
)

SameRows-Owns : (l : Lease) (a b : Db) → SameRows a b → Owns l a.leases → Owns l b.leases
SameRows-Owns l a b s o r m =
    let (r', m', e, f) = s.leases r m in
    let u = o r' m' in ((λ q. f ∙ u.0 (sym e ∙ q)), (λ q. e ∙ u.1 (sym f ∙ q)))

recover_row-Kept :
    (moment : ℕ) (x : Lease × Job) (db : Db)
    → Owns x.0 db.leases
    → IsConsistent db
    → IsConsistent (recover_row moment x db).1
recover_row-Kept moment (l, j) db o c =
    SameRows-IsConsistent db _ ((Frames-recover_row moment l j).at db)
      (recover_row-Held moment l j db o c.held) c

recover_rows-Kept :
    (moment : ℕ) (rows : List (Lease × Job)) (db : Db)
    → ((x : Lease × Job) → In x rows → Owns x.0 db.leases)
    → IsConsistent db
    → IsConsistent (recover_rows moment rows db).1
unfolding recover_rows
recover_rows-Kept moment [] db o c = (Frames-pure {F = keeps_consistent} []).at db c
recover_rows-Kept moment ((l, j) ∷ rs) db o c =
    let s = (Frames-recover_row moment l j).at db in
    let c1 = recover_row-Kept moment (l, j) db (o _ (inl refl)) c in
    let rest =
      recover_rows-Kept moment rs (recover_row moment (l, j) db).1
        (λ x m. SameRows-Owns x.0 db _ s (o x (inr m))) c1 in
    bind_after IsConsistent (recover_row moment (l, j)) _ db
      (λ _.
        bind_after IsConsistent (recover_rows moment rs) _ _
          (λ ids. (Frames-pure {F = keeps_consistent} _).at _ rest) rest)
      c1

-- Every row of the join is a lease of the table.
pub lease_rows-In :
    (db : Db) (leases : List Lease) (x : Lease × Job)
    → In x (lease_rows db leases)
    → In x.0 leases × (active_job_of db x.0 ≡ some x.1)
lease_rows-In db [] x m = absurd m
lease_rows-In db (l ∷ ls) x m = elim (Option-cases (active_job_of db l)) [
  | inl e ↦ let (n, f) = lease_rows-In db ls x (rw (e, In) at m) in (inr n, f)
  | inr (j, e) ↦
      elim (rw (e, In) at m) as (λ _. In x.0 (l ∷ ls) × (active_job_of db x.0 ≡ some x.1)) [
        | inl q ↦ (inl (ap (λ y. y.0) q), rw q e)
        | inr n ↦ let (n', f) = lease_rows-In db ls x n in (inr n', f)
      ]
]

pub Kept-recover_expired_leases :
    (moment : ℕ) (project : Option String)
    → Frames keeps_consistent (recover_expired_leases moment project)
unfolding recover_expired_leases
Kept-recover_expired_leases moment project = record {
  at = λ db c.
      recover_rows-Kept moment _ db
        (λ x m.
          let (n, _) = In-select x (is_expired moment project) (lease_rows db db.leases) m in
          let (k, _) = lease_rows-In db db.leases x n in λ r i. c.lease_unique r x.0 i k)
        c;
}
