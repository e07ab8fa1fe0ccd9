-- ===== src/Store/Consistency/Updates.antt =====
-- Which jobs are LEASED or RUNNING and which hold an unreleased lease, after each kind of UPDATE.
use project_os_agentic_agile.Base.{
  ℕ, Bool, true, false, not, ◌&&◌, List, [], ◌∷◌, Option, none, some, ◌≡◌, refl, ◌==◌,
  if◌then◌else◌, find, any, count, update, select, arith, is_some,
}
use project_os_agentic_agile.Store.Schema.{Job, Lease, Message, is_active}
use project_os_agentic_agile.Store.Rows.{has_id}
use project_os_agentic_agile.Store.Leases.{is_open_for, close_lease}

abbrev pub active_of : Option Job → Bool
active_of none = false
active_of (some j) = is_active j.status

-- The job of that id is LEASED or RUNNING.
unfoldable pub is_active_id : ℕ → List Job → Bool
is_active_id id jobs = active_of (find (has_id id) jobs)

-- Some lease of that job is not released.
unfoldable pub has_open : ℕ → List Lease → Bool
has_open id leases = any (is_open_for id) leases

module _ (p : Job → Bool) (f : Job → Job) (keeps : (j : Job) → (f j).id ≡ j.id) where
  pub is_active_id-update_same :
      ((j : Job) → p j ≡ true → is_active (f j).status ≡ is_active j.status)
      → (id : ℕ) (jobs : List Job) → is_active_id id (update p f jobs) ≡ is_active_id id jobs
  unfolding is_active_id
  is_active_id-update_same same id [] = refl
  is_active_id-update_same same id (j ∷ js) =
      ground (arith, keeps j, same j, is_active_id-update_same same id js)

  pub count-update :
      (id : ℕ) (jobs : List Job) → count (has_id id) (update p f jobs) ≡ count (has_id id) jobs
  count-update id [] = refl
  count-update id (j ∷ js) = ground (arith, keeps j, count-update id js)

pub is_active_id-update_off :
    (k : ℕ) (f : Job → Job)
    → ((j : Job) → (f j).id ≡ j.id)
    → ((j : Job) → is_active (f j).status ≡ false)
    → (id : ℕ) (jobs : List Job)
    → is_active_id id (update (has_id k) f jobs) ≡ (if id == k then false else is_active_id id jobs)
unfolding is_active_id
is_active_id-update_off k f keeps off id [] = ground arith
is_active_id-update_off k f keeps off id (j ∷ js) =
    ground (arith, keeps j, off j, is_active_id-update_off k f keeps off id js)

pub has_open-close :
    (k at : ℕ) (m : Message) (id : ℕ) (leases : List Lease)
    → has_open id (update (is_open_for k) (close_lease at m) leases)
      ≡ (if id == k then false else has_open id leases)
unfolding has_open
has_open-close k at m id [] = ground arith
has_open-close k at m id (l ∷ ls) = ground (arith, has_open-close k at m id ls)

pub has_open-purge :
    (k id : ℕ) (leases : List Lease)
    → has_open id (select (λ l. not (l.job_id == k && is_some l.released_at)) leases)
      ≡ has_open id leases
unfolding has_open
has_open-purge k id [] = refl
has_open-purge k id (l ∷ ls) = ground (arith, has_open-purge k id ls)

-- A job that is not in the table after an UPDATE was not active before it.
pub is_active_id-missing :
    (k : ℕ) (p : Job → Bool) (f : Job → Job)
    → ((j : Job) → (f j).id ≡ j.id)
    → (id : ℕ) → (id == k) ≡ true
    → (jobs : List Job) → find (has_id k) (update p f jobs) ≡ none
    → is_active_id id jobs ≡ false
unfolding is_active_id
is_active_id-missing k p f keeps id e [] h = refl
is_active_id-missing k p f keeps id e (j ∷ js) h =
    ground (arith, keeps j, is_active_id-missing k p f keeps id e js)
