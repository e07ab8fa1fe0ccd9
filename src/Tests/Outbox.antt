-- ===== src/Tests/Outbox.antt =====
-- The outbox at concrete input: two rows of one stream.
use project_os_agentic_agile.Base.{
  ℕ, String, [], ◌∷◌, ◌++◌, Option, none, some, ◌≡◌, ◌≢◌, refl, sym, ◌∙◌, inl, inr, In, arith,
}
use project_os_agentic_agile.Outbox.{
  OutboxStatus, DetailLevel, RowPayload, OutboxRow, claim_pending_outbox, claim_rows, reset_lapsed,
  list_pending_subscriber_outbox,
}
use project_os_agentic_agile.Outbox.Emission.{new_outbox_row}
use project_os_agentic_agile.Outbox.Dispatch.{
  held, failed, judge_rows, judge, judge_open, should_project, dispatch_event_outbox,
}
use project_os_agentic_agile.Outbox.Claims.{HasUniqueIds, claim_pending_outbox-excludes}
use project_os_agentic_agile.Outbox.Order.{judge_rows-holds_after_failure}
use project_os_agentic_agile.Outbox.Holds.{IsStuck, dispatch_event_outbox-leaves-IsStuck}

abbrev payload : RowPayload
payload = record {
  detail_level = some DetailLevel.normal;
  visibility = "SPONSOR";
  slack_channel_id = "C1";
  slack_thread_ts = "1.0";
  run_id = "RUN-1";
  metadata_error = none;
}

abbrev first_row : OutboxRow
first_row = new_outbox_row 1 10 "EVT-1" "slack" (some payload)

abbrev second_row : OutboxRow
second_row = new_outbox_row 2 11 "EVT-2" "slack" (some payload)

two_rows-HasUniqueIds : (a b : OutboxRow) → a.id ≢ b.id → HasUniqueIds (a ∷ b ∷ [])
two_rows-HasUniqueIds a b differ = record {
  same = λ x y m n e. elim m [
    | inl p ↦ elim n [
      | inl q ↦ p ∙ sym q
      | inr k ↦ elim k [ inl q ↦ absurd (differ (cc)) | inr k' ↦ absurd k' ]
    ]
    | inr k ↦ elim k [
      | inl p ↦ elim n [
        | inl q ↦ absurd (differ (cc))
        | inr k' ↦ elim k' [ inl q ↦ p ∙ sym q | inr k'' ↦ absurd k'' ]
      ]
      | inr k' ↦ absurd k'
    ]
  ];
}

first_claimed :
    In first_row (claim_pending_outbox 20 20 "slack" "a" 1 300 (first_row ∷ second_row ∷ [])).0
unfolding claim_pending_outbox reset_lapsed list_pending_subscriber_outbox
first_claimed = inl refl

second_claimed :
    In second_row
      (claim_pending_outbox 30 30 "slack" "b" 5 300
        (claim_pending_outbox 20 20 "slack" "a" 1 300 (first_row ∷ second_row ∷ [])).1).0
unfolding claim_pending_outbox reset_lapsed list_pending_subscriber_outbox claim_rows
second_claimed = inl refl

claim_pending_outbox-excludes_example : second_row.id ≢ first_row.id
claim_pending_outbox-excludes_example =
    claim_pending_outbox-excludes 20 20 "slack" "a" 1 300 30 30 "slack" "b" 5 300
      (first_row ∷ second_row ∷ []) first_row second_row
      (two_rows-HasUniqueIds first_row second_row (λ e. omega (arith, e))) (omega arith)
      first_claimed second_claimed

-- Slack does not answer.
abbrev no_answer : OutboxRow → RowPayload → Option String
no_answer r p = some "timeout"

first_fails :
    judge_rows "slack" none no_answer [] (first_row ∷ second_row ∷ [])
    ≡ [] ++ (first_row, failed "timeout") ∷ ((second_row, held 1) ∷ [])
unfolding judge_rows judge judge_open should_project
first_fails = refl

judge_rows-holds_after_failure_example : (by : ℕ) × (held 1 ≡ held by)
judge_rows-holds_after_failure_example =
    judge_rows-holds_after_failure "slack" none no_answer [] (first_row ∷ second_row ∷ []) []
      ((second_row, held 1) ∷ []) first_row second_row payload payload "timeout" (held 1)
      first_fails refl (inl refl) refl refl

abbrev dead_row : OutboxRow
dead_row = record first_row { status = OutboxStatus.dead; attempts = 10 }

abbrev stuck_row : OutboxRow
stuck_row = record second_row { status = OutboxStatus.blocked; blocked_by_outbox_id = some 1 }

stuck : IsStuck stuck_row dead_row (dead_row ∷ stuck_row ∷ [])
stuck = record {
  ids = two_rows-HasUniqueIds dead_row stuck_row (λ e. omega (arith, e));
  waits = inr (inl refl);
  given_up = inl refl;
  blocked_status = refl;
  blocker = refl;
  dead_status = refl;
}

dispatch_event_outbox-leaves-IsStuck_example :
    IsStuck stuck_row dead_row
      (dispatch_event_outbox no_answer none 20 20
        (λ id. 21)
        "slack"
        25
        "dispatcher"
        (dead_row ∷ stuck_row ∷ [])).1
dispatch_event_outbox-leaves-IsStuck_example =
    dispatch_event_outbox-leaves-IsStuck no_answer none 20 20 (λ id. 21) "slack" 25 "dispatcher"
      stuck_row dead_row (dead_row ∷ stuck_row ∷ []) stuck
