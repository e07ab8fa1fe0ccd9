-- ===== src/Outbox/Dispatch.antt =====
-- event_dispatcher.py's dispatch_event_outbox: one pass over the claimed rows. `post` stands for what
-- formatting and Slack's post_message make of a row: an exception's text, or nothing.
use project_os_agentic_agile.Base.{
  ℕ, ◌+◌, String, append, Bool, ◌&&◌, not, List, [], ◌∷◌, Option, none, some, is_some, leb, str_eq,
  if◌then◌else◌,
}
use project_os_agentic_agile.Outbox.{
  DetailLevel, RowPayload, OutboxRow, claim_pending_outbox, mark_subscriber_delivered,
  mark_subscriber_unroutable, mark_subscriber_failed, mark_subscriber_blocked,
  release_blocked_outbox,
}

-- The dictionary `order`, whose default is 1.
abbrev pub level_order : Option DetailLevel → ℕ
level_order none = 1
level_order (some DetailLevel.milestone) = 0
level_order (some DetailLevel.normal) = 1
level_order (some DetailLevel.verbose) = 2

-- _should_project
unfoldable pub should_project : RowPayload → (sponsor_level : Option DetailLevel) → Bool
should_project p sponsor_level =
    leb (level_order p.detail_level) (level_order sponsor_level)
    && not (str_eq p.visibility "AUDIT")

-- _stream_key
abbrev pub stream_key : (subscriber : String) → RowPayload → String
stream_key subscriber p = append subscriber (
    append "|"
      (append p.slack_channel_id (append "|" (append p.slack_thread_ts (append "|" p.run_id)))))

-- The dictionary `blocked_streams`, the latest entry first.
abbrev pub find_stream : String → List (String × ℕ) → Option ℕ
find_stream k [] = none
find_stream k ((j, id) ∷ rest) = if str_eq j k then some id else find_stream k rest

-- What a pass does with a row.
pub data Verdict : Type 0 where
  held : (blocked_by : ℕ) → Verdict
  hidden sent missing_channel : Verdict
  failed : (error : String) → Verdict

-- `blocked_streams` after the row.
abbrev pub block_stream :
    (subscriber : String)
    → List (String × ℕ)
    → OutboxRow
    → Option RowPayload
    → Verdict
    → List (String × ℕ)
block_stream subscriber streams r (some p) (failed error) =
    (stream_key subscriber p, r.id) ∷ streams
block_stream subscriber streams r _ _ = streams

module _ (subscriber : String) (sponsor_level : Option DetailLevel)
    (post : OutboxRow → RowPayload → Option String) where
  abbrev pub posted : Option String → Verdict
  posted none = sent
  posted (some error) = failed error

  -- The tests that follow the one on the stream, in order. Reading `metadata` may raise.
  unfoldable pub judge_open : OutboxRow → RowPayload → Verdict
  judge_open r p =
      if str_eq subscriber "slack"
      then if not (should_project p sponsor_level)
        then hidden
        else if is_some p.metadata_error
        then posted p.metadata_error
        else if str_eq p.slack_channel_id ""
        then missing_channel
        else posted (post r p)
      else sent

  abbrev pub judge_stream : Option ℕ → OutboxRow → RowPayload → Verdict
  judge_stream (some by) r p = held by
  judge_stream none r p = judge_open r p

  unfoldable pub judge : List (String × ℕ) → OutboxRow → Option RowPayload → Verdict
  judge streams r none = failed "invalid JSON"
  judge streams r (some p) = judge_stream (find_stream (stream_key subscriber p) streams) r p

  -- The verdicts of the loop, row by row.
  unfoldable pub judge_rows : List (String × ℕ) → List OutboxRow → List (OutboxRow × Verdict)
  judge_rows streams [] = []
  judge_rows streams (r ∷ rs) =
      let v = judge streams r r.payload in
      (r, v) ∷ judge_rows (block_stream subscriber streams r r.payload v) rs

-- What is written for a verdict; `now id` is the clock when the row of that id is written. A row that is not shown is delivered too, and nothing is released.
unfoldable pub carry_out : (now : ℕ → ℕ) → OutboxRow × Verdict → List OutboxRow → List OutboxRow
carry_out now (r, held by) table = mark_subscriber_blocked r.id by "causal ordering hold" table
carry_out now (r, hidden) table = mark_subscriber_delivered (now r.id) r.id table
carry_out now (r, missing_channel) table =
    mark_subscriber_unroutable r.id "missing slack_channel_id" table
carry_out now (r, sent) table =
    release_blocked_outbox r.id (mark_subscriber_delivered (now r.id) r.id table)
carry_out now (r, failed error) table = mark_subscriber_failed r.id error table

unfoldable pub carry_out_all :
    (now : ℕ → ℕ) → List (OutboxRow × Verdict) → List OutboxRow → List OutboxRow
carry_out_all now [] table = table
carry_out_all now (v ∷ vs) table = carry_out_all now vs (carry_out now v table)

-- The counters that a pass returns.
pub record Counts : Type 0 where
  pub delivered : ℕ
  pub failures : ℕ
  pub unroutable : ℕ
  pub blocked : ℕ

abbrev pub count_verdict : Verdict → Counts → Counts
count_verdict (held by) c = record c { blocked = c.blocked + 1 }
count_verdict hidden c = record c { delivered = c.delivered + 1 }
count_verdict sent c = record c { delivered = c.delivered + 1 }
count_verdict missing_channel c = record c { unroutable = c.unroutable + 1 }
count_verdict (failed error) c = record c { failures = c.failures + 1 }

unfoldable pub count_verdicts : List (OutboxRow × Verdict) → Counts
count_verdicts [] = record { delivered = 0; failures = 0; unroutable = 0; blocked = 0 }
count_verdicts ((r, v) ∷ vs) = count_verdict v (count_verdicts vs)

module _ (post : OutboxRow → RowPayload → Option String) (sponsor_level : Option DetailLevel) where
  unfoldable pub dispatch_event_outbox :
      (claimed_at sql_now : ℕ)
      → (now : ℕ → ℕ) → (subscriber : String) → (limit : ℕ) → (claimed_by : String) → List OutboxRow
      → Counts × List OutboxRow
  dispatch_event_outbox claimed_at sql_now now subscriber limit claimed_by table =
      let (rows, open_table) =
        claim_pending_outbox claimed_at sql_now subscriber claimed_by limit 300 table in
      let verdicts = judge_rows subscriber sponsor_level post [] rows in
      (count_verdicts verdicts, carry_out_all now verdicts open_table)
