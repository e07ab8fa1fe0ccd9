-- ===== src/Outbox/Emission.antt =====
-- domain_events.py: the outbox rows that emit_projectos_event inserts for an event.
use project_os_agentic_agile.Base.{
  ℕ, ◌+◌, String, append, ◌&&◌, List, [], ◌∷◌, Option, none, str_eq, if◌then◌else◌, any, ◌++◌,
}
use project_os_agentic_agile.Outbox.{OutboxStatus, RowPayload, OutboxRow}

-- f"{subscriber}:{event_id}"
abbrev pub outbox_key : (event_id subscriber : String) → String
outbox_key event_id subscriber = append subscriber (append ":" event_id)

abbrev pub new_outbox_row :
    (id now : ℕ) → (event_id subscriber : String) → Option RowPayload → OutboxRow
new_outbox_row id now event_id subscriber payload = record {
  id = id;
  event_id = event_id;
  subscriber = subscriber;
  idempotency_key = outbox_key event_id subscriber;
  payload = payload;
  status = OutboxStatus.pending;
  attempts = 0;
  last_error = none;
  created_at = now;
  delivered_at = none;
  claimed_by = none;
  claim_expires_at = none;
  blocked_by_outbox_id = none;
}

-- The INSERT, whose conflict on the idempotency key is passed over. `id` is the key that AUTOINCREMENT
-- gives.
unfoldable pub enqueue :
    (id now : ℕ)
    → (event_id subscriber : String) → Option RowPayload
    → List OutboxRow
    → List OutboxRow
enqueue id now event_id subscriber payload table =
    if any (λ r. str_eq r.idempotency_key (outbox_key event_id subscriber)) table
    then table
    else table ++ new_outbox_row id now event_id subscriber payload ∷ []

-- The loop over the subscribers; Slack is not told of what only the audit sees.
unfoldable pub enqueue_all :
    (id now : ℕ)
    → (event_id visibility : String) → Option RowPayload
    → (subscribers : List String) → List OutboxRow
    → List OutboxRow
enqueue_all id now event_id visibility payload [] table = table
enqueue_all id now event_id visibility payload (s ∷ ss) table =
    let next =
      if str_eq visibility "AUDIT" && str_eq s "slack"
      then table
      else enqueue id now event_id s payload table in
    enqueue_all (id + 1) now event_id visibility payload ss next
