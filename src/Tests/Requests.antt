-- ===== src/Tests/Requests.antt =====
-- Locks, idempotency keys and Slack events at concrete input.
use project_os_agentic_agile.Base.{
  String, List, [], ◌∷◌, ◌++◌, map, not, ◌&&◌, true, false, none, some, ◌≡◌, refl, find, arith,
  if◌then◌else◌,
}
use project_os_agentic_agile.Requests.{
  OperationLock, is_lock, new_lock, acquire_operation_lock, release_operation_lock, replayed,
  conflict, replay_or_begin, remember, put_idempotency_record, event_row, stripped_keys,
  claim_slack_events, release_slack_events, insert_keys,
}
use project_os_agentic_agile.Requests.Locks.{
  LockOp, acquire, release, apply_ops, acquire_operation_lock-excludes,
  acquire_operation_lock-after_release,
}
use project_os_agentic_agile.Requests.Idempotency.{
  Answer, remember_answer, remember_answers, remember-replay_or_begin,
}
use project_os_agentic_agile.Requests.Slack.{
  are_new, is_empty, claim_slack_events-are_new, claim_slack_events-release_slack_events,
}

abbrev held_lock : List OperationLock
held_lock = new_lock "project:PRJ-1:control" "a" 5000000 ∷ []

first_acquired :
    acquire_operation_lock 5000000 5000000 "project:PRJ-1:control" "a" 7200 [] ≡ some held_lock
unfolding acquire_operation_lock
first_acquired = refl

abbrev others : List LockOp
others =
    acquire 6000000 6000000 "project:PRJ-2:control" "b" 7200
    ∷ release "project:PRJ-2:control"
    ∷ acquire 7000000 7000000 "project:PRJ-1:control" "c" 7200
    ∷ []

acquire_operation_lock-excludes_example :
    acquire_operation_lock 8000000 8000000 "project:PRJ-1:control" "d" 7200
      (apply_ops others held_lock)
    ≡ none
acquire_operation_lock-excludes_example =
    acquire_operation_lock-excludes 5000000 5000000 "project:PRJ-1:control" "a" 7200 [] held_lock
      others 8000000 8000000 "d" 7200 first_acquired refl (omega arith)

acquire_operation_lock-after_release_example :
    (after : List OperationLock) × (acquire_operation_lock 6000000 6000000 "project:PRJ-1:control"
        "b" 7200
        (release_operation_lock "project:PRJ-1:control" held_lock)
      ≡ some after)
    × (find (is_lock "project:PRJ-1:control") after
        ≡ some (new_lock "project:PRJ-1:control" "b" 6000000))
    × (find (is_lock "project:PRJ-2:control") after
        ≡ find (is_lock "project:PRJ-2:control") held_lock)
acquire_operation_lock-after_release_example =
    acquire_operation_lock-after_release 6000000 6000000 "project:PRJ-1:control" "b"
      "project:PRJ-2:control" 7200 held_lock refl

-- Payloads that are texts already.
abbrev as_text : String → String
as_text s = s

abbrev answer : Answer as_text as_text
answer = record {
  now = 5000000;
  project_human_id = "PRJ-1";
  operation = "recover";
  idempotency_key = "K1";
  fingerprint = "{}";
  status_code = 200;
  payload = "done";
}

stored_answer :
    remember_answer as_text as_text answer []
    ≡ some (
        record {
          scope = "PRJ-1:recover";
          idempotency_key = "K1";
          fingerprint = "{}";
          status_code = 200;
          response_json = "done";
          created_at = 5;
        }
        ∷ [])
unfolding remember put_idempotency_record
stored_answer = refl

remember-replay_or_begin_example :
    (replay_or_begin as_text as_text "PRJ-1" "recover" "K1" "{}" (
        remember_answers as_text as_text (answer ∷ []) (
          record {
            scope = "PRJ-1:recover";
            idempotency_key = "K1";
            fingerprint = "{}";
            status_code = 200;
            response_json = "done";
            created_at = 5;
          }
          ∷ []))
      ≡ replayed 200 "done")
    × (replay_or_begin as_text as_text "PRJ-1" "recover" "K1" "[]" (
          remember_answers as_text as_text (answer ∷ []) (
            record {
              scope = "PRJ-1:recover";
              idempotency_key = "K1";
              fingerprint = "{}";
              status_code = 200;
              response_json = "done";
              created_at = 5;
            }
            ∷ []))
        ≡ conflict)
remember-replay_or_begin_example =
    remember-replay_or_begin as_text as_text answer (answer ∷ []) "[]" [] _ (λ p. refl) refl
      stored_answer refl

abbrev keys : List String
keys = "T1:C1:1.0" ∷ " " ∷ "EV1" ∷ []

claim_slack_events-are_new_example : claim_slack_events keys "T1" "C1" "1.0" "EV1" [] ≡ (
    if not (is_empty (stripped_keys keys)) && are_new (stripped_keys keys) []
    then (true, [] ++ map (event_row "T1" "C1" "1.0" "EV1") (stripped_keys keys))
    else (false, []))
claim_slack_events-are_new_example = claim_slack_events-are_new keys "T1" "C1" "1.0" "EV1" []

both_claimed :
    claim_slack_events keys "T1" "C1" "1.0" "EV1" []
    ≡ (true, map (event_row "T1" "C1" "1.0" "EV1") (stripped_keys keys))
unfolding claim_slack_events stripped_keys insert_keys
both_claimed = refl

claim_slack_events-release_slack_events_example :
    release_slack_events keys (map (event_row "T1" "C1" "1.0" "EV1") (stripped_keys keys)) ≡ []
claim_slack_events-release_slack_events_example =
    claim_slack_events-release_slack_events keys "T1" "C1" "1.0" "EV1" []
      (map (event_row "T1" "C1" "1.0" "EV1") (stripped_keys keys)) both_claimed
