-- ===== src/Outbox.antt =====
-- event_dispatcher.py: the outbox of domain events, one row for each event and subscriber, and the
-- operations on its rows. A column of times is in seconds, as SQLite's datetime gives them, and an
-- `error` is the first 500 characters of the exception's text.
pub mod Emission
pub mod Dispatch
pub mod Claims
pub mod Order
pub mod Holds
use project_os_agentic_agile.Base.{
  ℕ, suc, ◌+◌, String, Bool, true, false, ◌&&◌, List, [], ◌∷◌, Option, none, some, ◌==◌, ltb, leb,
  str_eq, if◌then◌else◌, select, update, any, ◌++◌, order_by, take,
}

-- The CHECK of migrations/031.
pub data OutboxStatus : Type 0 where
  pending claimed delivered unroutable dead blocked : OutboxStatus

abbrev pub outbox_code : OutboxStatus → ℕ
outbox_code OutboxStatus.pending = 0
outbox_code OutboxStatus.claimed = 1
outbox_code OutboxStatus.delivered = 2
outbox_code OutboxStatus.unroutable = 3
outbox_code OutboxStatus.dead = 4
outbox_code OutboxStatus.blocked = 5

abbrev pub is_status : OutboxStatus → OutboxStatus → Bool
is_status s t = outbox_code s == outbox_code t

-- The keys of the payload that the dispatcher reads; a level is the text in lower case, and `none`
-- stands for a level that is none of the three. `metadata_error` is what reading the key
-- `response_url` of `metadata` raises, where `metadata` is no object.
pub data DetailLevel : Type 0 where
  milestone normal verbose : DetailLevel

pub record RowPayload : Type 0 where
  pub detail_level : Option DetailLevel
  pub visibility : String
  pub slack_channel_id : String
  pub slack_thread_ts : String
  pub run_id : String
  pub metadata_error : Option String

-- A row; its payload is `none` where the column holds no JSON. An empty object, and a JSON value that is no
-- object, are not among the payloads: emit_projectos_event writes neither. A value of the second kind
-- that counts as true would make _stream_key raise in the handler as well, and end the pass.
pub record OutboxRow : Type 0 where
  pub id : ℕ
  pub event_id : String
  pub subscriber : String
  pub idempotency_key : String
  pub payload : Option RowPayload
  pub status : OutboxStatus
  pub attempts : ℕ
  pub last_error : Option String
  pub created_at : ℕ
  pub delivered_at : Option ℕ
  pub claimed_by : Option String
  pub claim_expires_at : Option ℕ
  pub blocked_by_outbox_id : Option ℕ

abbrev pub has_row_id : ℕ → OutboxRow → Bool
has_row_id id r = r.id == id

-- `claim_expires_at IS NOT NULL AND claim_expires_at < now`
abbrev pub claim_expired : ℕ → Option ℕ → Bool
claim_expired now none = false
claim_expired now (some at) = ltb at now

abbrev pub is_lapsed : ℕ → String → OutboxRow → Bool
is_lapsed now subscriber r =
    str_eq r.subscriber subscriber
    && (is_status r.status OutboxStatus.claimed && claim_expired now r.claim_expires_at)

abbrev pub reset_row : OutboxRow → OutboxRow
reset_row r = record r {
  status = OutboxStatus.pending;
  claimed_by = none;
  claim_expires_at = none;
  blocked_by_outbox_id = none;
}

abbrev pub is_listed : String → OutboxRow → Bool
is_listed subscriber r =
    str_eq r.subscriber subscriber && (is_status r.status OutboxStatus.pending && ltb r.attempts 10)

unfoldable pub list_pending_subscriber_outbox :
    (subscriber : String) → (limit : ℕ) → List OutboxRow → List OutboxRow
list_pending_subscriber_outbox subscriber limit table =
    take limit
      (order_by (λ a b. leb a.created_at b.created_at) (select (is_listed subscriber) table))

abbrev pub is_pending_id : ℕ → OutboxRow → Bool
is_pending_id id r = has_row_id id r && is_status r.status OutboxStatus.pending

abbrev pub claim_row : String → ℕ → OutboxRow → OutboxRow
claim_row by expires r = record r {
  status = OutboxStatus.claimed;
  claimed_by = some by;
  claim_expires_at = some expires;
}

-- The loop of the claims; `cur.rowcount == 1` holds of each row, whose id is the table's key.
unfoldable pub claim_rows : String → ℕ → List OutboxRow → List OutboxRow → List OutboxRow
claim_rows by expires [] table = table
claim_rows by expires (r ∷ rs) table =
    claim_rows by expires rs (update (is_pending_id r.id) (claim_row by expires) table)

unfoldable pub reset_lapsed : (now : ℕ) → String → List OutboxRow → List OutboxRow
reset_lapsed now subscriber table = update (is_lapsed now subscriber) reset_row table

-- What is claimed, as it was read, and the table after. `now` is Python's reading of the clock, in
-- whole seconds, and `sql_now` the database's.
unfoldable pub claim_pending_outbox :
    (now sql_now : ℕ)
    → (subscriber claimed_by : String) → (limit lease_seconds : ℕ) → List OutboxRow
    → List OutboxRow × List OutboxRow
claim_pending_outbox now sql_now subscriber claimed_by limit lease_seconds table =
    let open_table = reset_lapsed sql_now subscriber table in
    let rows = list_pending_subscriber_outbox subscriber limit open_table in
    (rows, claim_rows claimed_by (now + lease_seconds) rows open_table)

abbrev pub delivered_row : ℕ → OutboxRow → OutboxRow
delivered_row now r = record r {
  status = OutboxStatus.delivered;
  delivered_at = some now;
  claimed_by = none;
  claim_expires_at = none;
  blocked_by_outbox_id = none;
}

unfoldable pub mark_subscriber_delivered : (now outbox_id : ℕ) → List OutboxRow → List OutboxRow
mark_subscriber_delivered now outbox_id = update (has_row_id outbox_id) (delivered_row now)

abbrev pub unroutable_row : String → OutboxRow → OutboxRow
unroutable_row error r = record r {
  status = OutboxStatus.unroutable;
  last_error = some error;
  claimed_by = none;
  claim_expires_at = none;
}

unfoldable pub mark_subscriber_unroutable : ℕ → String → List OutboxRow → List OutboxRow
mark_subscriber_unroutable outbox_id error = update (has_row_id outbox_id) (unroutable_row error)

-- A failure counts an attempt, and the tenth is the last.
abbrev pub failed_row : String → OutboxRow → OutboxRow
failed_row error r = record r {
  attempts = r.attempts + 1;
  last_error = some error;
  status = if leb 10 (r.attempts + 1) then OutboxStatus.dead else OutboxStatus.pending;
  claimed_by = none;
  claim_expires_at = none;
}

unfoldable pub mark_subscriber_failed : ℕ → String → List OutboxRow → List OutboxRow
mark_subscriber_failed outbox_id error = update (has_row_id outbox_id) (failed_row error)

abbrev pub blocked_row : ℕ → String → OutboxRow → OutboxRow
blocked_row by error r = record r {
  status = OutboxStatus.blocked;
  blocked_by_outbox_id = some by;
  last_error = some error;
  claimed_by = none;
  claim_expires_at = none;
}

unfoldable pub mark_subscriber_blocked :
    (outbox_id blocked_by : ℕ) → String → List OutboxRow → List OutboxRow
mark_subscriber_blocked outbox_id blocked_by error =
    update (has_row_id outbox_id) (blocked_row blocked_by error)

abbrev pub is_held_by : ℕ → Option ℕ → Bool
is_held_by id none = false
is_held_by id (some by) = by == id

abbrev pub is_hold : ℕ → OutboxRow → Bool
is_hold by r = is_held_by by r.blocked_by_outbox_id && is_status r.status OutboxStatus.blocked

abbrev pub released_row : OutboxRow → OutboxRow
released_row r = record r {
  status = OutboxStatus.pending;
  blocked_by_outbox_id = none;
  last_error = none;
}

unfoldable pub release_blocked_outbox : (blocked_by : ℕ) → List OutboxRow → List OutboxRow
release_blocked_outbox blocked_by = update (is_hold blocked_by) released_row
