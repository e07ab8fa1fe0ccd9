-- ===== src/Outbox/Holds.antt =====
-- Rows that are held behind a row that was given up: no pass of the dispatcher touches them.
use project_os_agentic_agile.Base.{
  ℕ, ◌+◌, String, false, List, [], ◌∷◌, Option, some, ◌≡◌, refl, ap, sym, inl, inr, ◌==◌, In,
  In-update_off, update, arith, Bool-cases, ==_iff,
}
use project_os_agentic_agile.Outbox.{
  OutboxStatus, DetailLevel, RowPayload, OutboxRow, is_status, has_row_id, is_hold, is_pending_id,
  claim_row, claim_rows, reset_lapsed, reset_row, is_lapsed, claim_pending_outbox,
  list_pending_subscriber_outbox, delivered_row, mark_subscriber_delivered,
  mark_subscriber_unroutable, mark_subscriber_failed, mark_subscriber_blocked, released_row,
  release_blocked_outbox,
}
use project_os_agentic_agile.Outbox.Dispatch.{
  Verdict, held, hidden, sent, missing_channel, failed, judge_rows, judge, block_stream, carry_out,
  carry_out_all, dispatch_event_outbox,
}
use project_os_agentic_agile.Outbox.Claims.{
  HasUniqueIds, update-HasUniqueIds, list_pending-inv, reset_lapsed-HasUniqueIds,
}

-- The UPDATEs of a pass.
update-opened :
    (x : OutboxRow) (id : ℕ) (f : OutboxRow → OutboxRow) (table : List OutboxRow)
    → (x.id == id) ≡ false
    → In x table
    → In x (update (has_row_id id) f table)
update-opened x id f table off m = In-update_off x (has_row_id id) f table off m

carry_out-keeps :
    (now : ℕ → ℕ) (x r : OutboxRow) (v : Verdict) (table : List OutboxRow)
    → (x.id == r.id) ≡ false
    → is_hold r.id x ≡ false
    → In x table
    → In x (carry_out now (r, v) table)
unfolding carry_out mark_subscriber_delivered mark_subscriber_blocked mark_subscriber_unroutable
    mark_subscriber_failed release_blocked_outbox
carry_out-keeps now x r (held by) table off free m = update-opened x r.id _ table off m
carry_out-keeps now x r hidden table off free m = update-opened x r.id _ table off m
carry_out-keeps now x r missing_channel table off free m = update-opened x r.id _ table off m
carry_out-keeps now x r (failed error) table off free m = update-opened x r.id _ table off m
carry_out-keeps now x r sent table off free m =
    In-update_off x (is_hold r.id) released_row (mark_subscriber_delivered (now r.id) r.id table)
      free (update-opened x r.id (delivered_row (now r.id)) table off m)

carry_out-HasUniqueIds :
    (now : ℕ → ℕ) (r : OutboxRow) (v : Verdict) (table : List OutboxRow)
    → HasUniqueIds table
    → HasUniqueIds (carry_out now (r, v) table)
unfolding carry_out mark_subscriber_delivered mark_subscriber_blocked mark_subscriber_unroutable
    mark_subscriber_failed release_blocked_outbox
carry_out-HasUniqueIds now r (held by) table u = update-HasUniqueIds _ _ table (λ x. refl) u
carry_out-HasUniqueIds now r hidden table u = update-HasUniqueIds _ _ table (λ x. refl) u
carry_out-HasUniqueIds now r missing_channel table u = update-HasUniqueIds _ _ table (λ x. refl) u
carry_out-HasUniqueIds now r (failed error) table u = update-HasUniqueIds _ _ table (λ x. refl) u
carry_out-HasUniqueIds now r sent table u =
    update-HasUniqueIds (is_hold r.id) released_row _ (λ x. refl)
      (update-HasUniqueIds (has_row_id r.id) (delivered_row (now r.id)) table (λ x. refl) u)

-- A row that no row of the pass names or had held.
abbrev IsApart : OutboxRow → OutboxRow → Type 0
IsApart x r = ((x.id == r.id) ≡ false) × (is_hold r.id x ≡ false)

carry_out_all-keeps :
    (now : ℕ → ℕ) (x : OutboxRow) (vs : List (OutboxRow × Verdict)) (table : List OutboxRow)
    → ((r : OutboxRow) → (v : Verdict) → In (r, v) vs → IsApart x r)
    → In x table
    → In x (carry_out_all now vs table)
unfolding carry_out_all
carry_out_all-keeps now x [] table apart m = m
carry_out_all-keeps now x ((r, v) ∷ vs) table apart m =
    let (off, free) = apart r v (inl refl) in
    carry_out_all-keeps now x vs (carry_out now (r, v) table) (λ s w n. apart s w (inr n))
      (carry_out-keeps now x r v table off free m)

carry_out_all-HasUniqueIds :
    (now : ℕ → ℕ) (vs : List (OutboxRow × Verdict)) (table : List OutboxRow)
    → HasUniqueIds table
    → HasUniqueIds (carry_out_all now vs table)
unfolding carry_out_all
carry_out_all-HasUniqueIds now [] table u = u
carry_out_all-HasUniqueIds now ((r, v) ∷ vs) table u =
    carry_out_all-HasUniqueIds now vs (carry_out now (r, v) table)
      (carry_out-HasUniqueIds now r v table u)

claim_rows-keeps_other :
    (by : String) (expires : ℕ) (x : OutboxRow) (rs table : List OutboxRow)
    → is_status x.status OutboxStatus.pending ≡ false
    → In x table
    → In x (claim_rows by expires rs table)
unfolding claim_rows
claim_rows-keeps_other by expires x [] table off m = m
claim_rows-keeps_other by expires x (r ∷ rs) table off m =
    claim_rows-keeps_other by expires x rs
      (update (is_pending_id r.id) (claim_row by expires) table) off
      (In-update_off x (is_pending_id r.id) (claim_row by expires) table (ground (arith, off)) m)

claim_rows-HasUniqueIds :
    (by : String) (expires : ℕ) (rs table : List OutboxRow)
    → HasUniqueIds table
    → HasUniqueIds (claim_rows by expires rs table)
unfolding claim_rows
claim_rows-HasUniqueIds by expires [] table u = u
claim_rows-HasUniqueIds by expires (r ∷ rs) table u =
    claim_rows-HasUniqueIds by expires rs (update (is_pending_id r.id) (claim_row by expires) table)
      (update-HasUniqueIds (is_pending_id r.id) (claim_row by expires) table (λ x. refl) u)

judge_rows-In :
    (subscriber : String) (level : Option DetailLevel)
    (post : OutboxRow → RowPayload → Option String) (streams : List (String × ℕ))
    (rows : List OutboxRow) (r : OutboxRow) (v : Verdict)
    → In (r, v) (judge_rows subscriber level post streams rows)
    → In r rows
unfolding judge_rows
judge_rows-In subscriber level post streams [] r v m = absurd m
judge_rows-In subscriber level post streams (s ∷ rows) r v (inl e) =
    inl (ap (λ (x : OutboxRow × Verdict). x.0) e)
judge_rows-In subscriber level post streams (s ∷ rows) r v (inr m) = inr (
    judge_rows-In subscriber level post
      (block_stream subscriber streams s s.payload
        (judge subscriber level post streams s s.payload))
      rows r v m)

-- The row `x` waits behind `d`, which was given up.
pub record IsStuck (x d : OutboxRow) (table : List OutboxRow) : Type 0 where
  pub ids : HasUniqueIds table
  pub waits : In x table
  pub given_up : In d table
  pub blocked_status : x.status ≡ OutboxStatus.blocked
  pub blocker : x.blocked_by_outbox_id ≡ some d.id
  pub dead_status : d.status ≡ OutboxStatus.dead

-- What is neither pending nor claimed stays through a claim.
claim_pending_outbox-keeps :
    (now sql_now : ℕ) (subscriber by : String) (limit lease_seconds : ℕ) (x : OutboxRow)
    (table : List OutboxRow)
    → is_status x.status OutboxStatus.pending ≡ false
    → is_status x.status OutboxStatus.claimed ≡ false
    → In x table
    → In x (claim_pending_outbox now sql_now subscriber by limit lease_seconds table).1
unfolding claim_pending_outbox reset_lapsed
claim_pending_outbox-keeps now sql_now subscriber by limit lease_seconds x table np nc m =
    claim_rows-keeps_other by (now + lease_seconds) x
      (list_pending_subscriber_outbox subscriber limit (reset_lapsed sql_now subscriber table))
      (reset_lapsed sql_now subscriber table) np
      (In-update_off x (is_lapsed sql_now subscriber) reset_row table (ground (arith, nc)) m)

claim_pending_outbox-HasUniqueIds :
    (now sql_now : ℕ) (subscriber by : String) (limit lease_seconds : ℕ) (table : List OutboxRow)
    → HasUniqueIds table
    → HasUniqueIds (claim_pending_outbox now sql_now subscriber by limit lease_seconds table).1
unfolding claim_pending_outbox
claim_pending_outbox-HasUniqueIds now sql_now subscriber by limit lease_seconds table u =
    claim_rows-HasUniqueIds by (now + lease_seconds)
      (list_pending_subscriber_outbox subscriber limit (reset_lapsed sql_now subscriber table))
      (reset_lapsed sql_now subscriber table) (reset_lapsed-HasUniqueIds sql_now subscriber table u)

-- A claimed row has another id than a row that is neither pending nor claimed.
claim_pending_outbox-apart :
    (now sql_now : ℕ) (subscriber by : String) (limit lease_seconds : ℕ) (x r : OutboxRow)
    (table : List OutboxRow)
    → HasUniqueIds table
    → is_status x.status OutboxStatus.pending ≡ false
    → is_status x.status OutboxStatus.claimed ≡ false
    → In x table
    → In r (claim_pending_outbox now sql_now subscriber by limit lease_seconds table).0
    → (x.id == r.id) ≡ false
unfolding claim_pending_outbox reset_lapsed
claim_pending_outbox-apart now sql_now subscriber by limit lease_seconds x r table u np nc m n =
    let open_table = reset_lapsed sql_now subscriber table in
    let (k, listed) = list_pending-inv subscriber limit r open_table n in
    let v = reset_lapsed-HasUniqueIds sql_now subscriber table u in
    let here : In x open_table =
      In-update_off x (is_lapsed sql_now subscriber) reset_row table (ground (arith, nc)) m in
    elim (Bool-cases (x.id == r.id)) [
      | inl e ↦
          let same : x ≡ r = v.same x r here k ((==_iff x.id r.id).0 e) in
          absurd (ground (arith, np, rw (sym same) at listed))
      | inr e ↦ e
    ]

module _ (post : OutboxRow → RowPayload → Option String) (level : Option DetailLevel)
    (claimed_at sql_now : ℕ) (now : ℕ → ℕ) (subscriber : String) (limit : ℕ) (by : String) where
  abbrev claimed_rows : List OutboxRow → List OutboxRow
  claimed_rows table = (claim_pending_outbox claimed_at sql_now subscriber by limit 300 table).0

  -- A row that is neither pending nor claimed stays, where no claimed row holds it.
  dispatch_event_outbox-keeps :
      (x : OutboxRow) (table : List OutboxRow)
      → HasUniqueIds table
      → is_status x.status OutboxStatus.pending ≡ false
      → is_status x.status OutboxStatus.claimed ≡ false
      → ((r : OutboxRow) → In r (claimed_rows table) → is_hold r.id x ≡ false)
      → In x table
      → In x (dispatch_event_outbox post level claimed_at sql_now now subscriber limit by table).1
  unfolding dispatch_event_outbox
  dispatch_event_outbox-keeps x table u np nc free m =
      let verdicts = judge_rows subscriber level post [] (claimed_rows table) in
      carry_out_all-keeps now x verdicts
        (claim_pending_outbox claimed_at sql_now subscriber by limit 300 table).1
        (λ r v n.
          let k = judge_rows-In subscriber level post [] (claimed_rows table) r v n in
          (
            claim_pending_outbox-apart claimed_at sql_now subscriber by limit 300 x r table u np nc
                m k,
            free r k,
          ))
        (claim_pending_outbox-keeps claimed_at sql_now subscriber by limit 300 x table np nc m)

  dispatch_event_outbox-HasUniqueIds :
      (table : List OutboxRow)
      → HasUniqueIds table
      → HasUniqueIds
          (dispatch_event_outbox post level claimed_at sql_now now subscriber limit by table).1
  unfolding dispatch_event_outbox
  dispatch_event_outbox-HasUniqueIds table u =
      carry_out_all-HasUniqueIds now (judge_rows subscriber level post [] (claimed_rows table))
        (claim_pending_outbox claimed_at sql_now subscriber by limit 300 table).1
        (claim_pending_outbox-HasUniqueIds claimed_at sql_now subscriber by limit 300 table u)

  -- A pass of dispatch_event_outbox, for any subscriber, limit and answers of Slack, leaves a row that
  -- is blocked behind a dead row blocked and behind it, and the dead row dead.
  pub dispatch_event_outbox-leaves-IsStuck :
      (x d : OutboxRow) (table : List OutboxRow)
      → IsStuck x d table
      → IsStuck x d
          (dispatch_event_outbox post level claimed_at sql_now now subscriber limit by table).1
  dispatch_event_outbox-leaves-IsStuck x d table s =
      let np : is_status x.status OutboxStatus.pending ≡ false = rw (s.blocked_status) refl in
      let nc : is_status x.status OutboxStatus.claimed ≡ false = rw (s.blocked_status) refl in
      let dp : is_status d.status OutboxStatus.pending ≡ false = rw (s.dead_status) refl in
      let dc : is_status d.status OutboxStatus.claimed ≡ false = rw (s.dead_status) refl in
      let apart = λ (r : OutboxRow).
        claim_pending_outbox-apart claimed_at sql_now subscriber by limit 300 d r table s.ids dp dc
          s.given_up in
      record {
        ids = dispatch_event_outbox-HasUniqueIds table s.ids;
        waits =
            dispatch_event_outbox-keeps x table s.ids np nc
              (λ r k. rw (s.blocker) (ground (arith, apart r k))) s.waits;
        given_up =
            dispatch_event_outbox-keeps d table s.ids dp dc
              (λ r k. rw (s.dead_status) (ground arith)) s.given_up;
        blocked_status = s.blocked_status;
        blocker = s.blocker;
        dead_status = s.dead_status;
      }
