-- ===== src/Requests.antt =====
-- The records of store.py that make a request run once: the locks of operations, the idempotency keys
-- with the calls of services/control.py, and the keys of Slack events.
pub mod Locks
pub mod Idempotency
pub mod Slack
use project_os_agentic_agile.Base.{
  ℕ, ◌+◌, ◌*◌, String, append, Bool, true, false, ◌&&◌, ◌||◌, not, List, [], ◌∷◌, ◌++◌, Option,
  none, some, str_eq, ltb, if◌then◌else◌, select, find, any, codes, same_codes, strip, prefix,
}
use project_os_agentic_agile.Store.Leases.{iso}

pub record OperationLock : Type 0 where
  pub lock_name : String
  pub owner : String
  pub acquired_at : ℕ

abbrev pub is_lock : String → OperationLock → Bool
is_lock name l = str_eq l.lock_name name

abbrev pub without_lock : String → List OperationLock → List OperationLock
without_lock name locks = select (λ l. not (is_lock name l)) locks

-- `age < stale_seconds`, of a clock in microseconds.
abbrev pub is_fresh : ℕ → ℕ → OperationLock → Bool
is_fresh now stale_seconds l = ltb now ((l.acquired_at + stale_seconds) * 1000000)

abbrev pub has_fresh : ℕ → ℕ → Option OperationLock → Bool
has_fresh now stale_seconds none = false
has_fresh now stale_seconds (some l) = is_fresh now stale_seconds l

abbrev pub new_lock : String → String → ℕ → OperationLock
new_lock lock_name owner later = record {
  lock_name = lock_name;
  owner = owner;
  acquired_at = iso later;
}

-- `none` stands for the ConflictError; `now` and `later` are the two readings of the clock.
unfoldable pub acquire_operation_lock :
    (now later : ℕ) (lock_name owner : String) (stale_seconds : ℕ)
    → List OperationLock
    → Option (List OperationLock)
acquire_operation_lock now later lock_name owner stale_seconds locks =
    if has_fresh now stale_seconds (find (is_lock lock_name) locks)
    then none
    else some (without_lock lock_name locks ++ new_lock lock_name owner later ∷ [])

unfoldable pub release_operation_lock :
    (lock_name : String) → List OperationLock → List OperationLock
release_operation_lock lock_name locks = without_lock lock_name locks

-- api_idempotency_keys
pub record IdempotencyRecord : Type 0 where
  pub scope : String
  pub idempotency_key : String
  pub fingerprint : String
  pub status_code : ℕ
  pub response_json : String
  pub created_at : ℕ

abbrev pub is_key : String → String → IdempotencyRecord → Bool
is_key scope key r = str_eq r.scope scope && str_eq r.idempotency_key key

unfoldable pub get_idempotency_record :
    (scope idempotency_key : String) → List IdempotencyRecord → Option IdempotencyRecord
get_idempotency_record scope key table = find (is_key scope key) table

-- `none` stands for the IntegrityError of the primary key.
unfoldable pub put_idempotency_record :
    IdempotencyRecord → List IdempotencyRecord → Option (List IdempotencyRecord)
put_idempotency_record r table =
    if any (is_key r.scope r.idempotency_key) table then none else some (table ++ r ∷ [])

-- f"{project_human_id}:{operation}"
abbrev pub scope_of : (project_human_id operation : String) → String
scope_of project_human_id operation = append project_human_id (append ":" operation)

-- What replay_or_begin answers; `begin` is its None, and `conflict` the ConflictError.
pub data Replay (P : Type 0) : Type 0 where
  begin conflict : Replay P
  replayed : (status_code : ℕ) → (payload : P) → Replay P

-- `dumps` and `loads` are json.dumps with sorted keys and json.loads, on payloads.
module _ {P : Type 0} (dumps : P → String) (loads : String → P) where
  abbrev pub replay_record : (fingerprint : String) → Option IdempotencyRecord → Replay P
  replay_record fingerprint none = begin
  replay_record fingerprint (some r) =
      if str_eq r.fingerprint fingerprint
      then replayed r.status_code (loads r.response_json)
      else conflict

  -- The key is none where the request has none; `fingerprint` is the fingerprint's text.
  unfoldable pub replay_or_begin :
      (project_human_id operation : String) (idempotency_key : String) (fingerprint : String)
      → List IdempotencyRecord
      → Replay P
  replay_or_begin project_human_id operation key fingerprint table =
      if str_eq key ""
      then begin
      else replay_record fingerprint
          (get_idempotency_record (scope_of project_human_id operation) key table)

  unfoldable pub remember :
      (now : ℕ) (project_human_id operation : String) (idempotency_key : String)
      (fingerprint : String) (status_code : ℕ) (payload : P)
      → List IdempotencyRecord
      → Option (List IdempotencyRecord)
  remember now project_human_id operation key fingerprint status_code payload table =
      if str_eq key ""
      then some table
      else put_idempotency_record
          (record {
            scope = scope_of project_human_id operation;
            idempotency_key = key;
            fingerprint = fingerprint;
            status_code = status_code;
            response_json = dumps payload;
            created_at = iso now;
          })
          table

-- slack_event_dedup, of which the key is read; a key is stripped, and stands as its code points.
pub record SlackEvent : Type 0 where
  pub dedup_key : List ℕ
  pub team_id : String
  pub channel_id : String
  pub message_ts : String
  pub event_id : String

abbrev pub has_key : List ℕ → SlackEvent → Bool
has_key key e = same_codes e.dedup_key key

abbrev pub is_blank : List ℕ → Bool
is_blank [] = true
is_blank (_ ∷ _) = false

-- `keys`, in both functions.
unfoldable pub stripped_keys : List String → List (List ℕ)
stripped_keys [] = []
stripped_keys (k ∷ ks) =
    let key = strip (codes k) in if is_blank key then stripped_keys ks else key ∷ stripped_keys ks

module _ (row : List ℕ → SlackEvent) where
  -- One INSERT; `none` stands for the IntegrityError.
  abbrev pub insert_key : List ℕ → List SlackEvent → Option (List SlackEvent)
  insert_key key table = if any (has_key key) table then none else some (table ++ row key ∷ [])

  -- The loop of INSERTs, which the first error ends.
  unfoldable pub insert_keys : List (List ℕ) → List SlackEvent → Option (List SlackEvent)
  insert_keys [] table = some table
  insert_keys (k ∷ ks) table = elim (insert_key k table) [
    | none ↦ none
    | some next ↦ insert_keys ks next
  ]

abbrev pub event_row : (team_id channel_id message_ts event_id : String) → List ℕ → SlackEvent
event_row team_id channel_id message_ts event_id key = record {
  dedup_key = key;
  team_id = prefix 80 team_id;
  channel_id = prefix 80 channel_id;
  message_ts = prefix 80 message_ts;
  event_id = prefix 120 event_id;
}

-- The answer beside the table: an error leaves the table as it was.
abbrev pub claimed_or : List SlackEvent → Option (List SlackEvent) → Bool × List SlackEvent
claimed_or table none = (false, table)
claimed_or table (some next) = (true, next)

abbrev pub claim_keys :
    (List ℕ → SlackEvent) → List (List ℕ) → List SlackEvent → Bool × List SlackEvent
claim_keys row [] table = (false, table)
claim_keys row (k ∷ ks) table = claimed_or table (insert_keys row (k ∷ ks) table)

unfoldable pub claim_slack_events :
    (dedup_keys : List String) (team_id channel_id message_ts event_id : String)
    → List SlackEvent
    → Bool × List SlackEvent
claim_slack_events dedup_keys team_id channel_id message_ts event_id table =
    claim_keys (event_row team_id channel_id message_ts event_id) (stripped_keys dedup_keys) table

unfoldable pub claim_slack_event :
    (dedup_key team_id channel_id message_ts event_id : String)
    → List SlackEvent
    → Bool × List SlackEvent
claim_slack_event dedup_key team_id channel_id message_ts event_id table =
    let key = strip (codes dedup_key) in
    if is_blank key
    then (false, table)
    else claimed_or table (insert_key (event_row team_id channel_id message_ts event_id) key table)

abbrev pub without_key : List ℕ → List SlackEvent → List SlackEvent
without_key key table = select (λ e. not (has_key key e)) table

unfoldable pub delete_keys : List (List ℕ) → List SlackEvent → List SlackEvent
delete_keys [] table = table
delete_keys (k ∷ ks) table = delete_keys ks (without_key k table)

unfoldable pub release_slack_events : (dedup_keys : List String) → List SlackEvent → List SlackEvent
release_slack_events dedup_keys table = delete_keys (stripped_keys dedup_keys) table
