-- ===== src/Requests/Slack.antt =====
-- The claims of Slack events: all keys of a delivery or none, and a release that undoes a claim.
use project_os_agentic_agile.Base.{
  ℕ, String, Bool, true, false, ◌&&◌, ◌||◌, not, List, [], ◌∷◌, ◌++◌, map, Option, none, some, ◌≡◌,
  refl, ap, sym, ◌∙◌, inl, inr, any, select, same_codes, if◌then◌else◌, arith, Bool-cases, ==_refl,
}
use project_os_agentic_agile.Requests.{
  SlackEvent, event_row, has_key, stripped_keys, insert_keys, claim_keys, claimed_or,
  claim_slack_events, without_key, delete_keys, release_slack_events,
}

select-select :
    {A : Type 0} (p q : A → Bool) (xs : List A) → select p (select q xs) ≡ select q (select p xs)
select-select p q [] = refl
select-select p q (x ∷ xs) = ground (arith, select-select p q xs)

append_none : {A : Type 0} (xs : List A) → xs ++ [] ≡ xs
append_none [] = refl
append_none (x ∷ xs) = ap (λ l. x ∷ l) (append_none xs)

append_one : {A : Type 0} (xs : List A) (y : A) (ys : List A) → (xs ++ y ∷ []) ++ ys ≡ xs ++ y ∷ ys
append_one [] y ys = refl
append_one (x ∷ xs) y ys = ap (λ l. x ∷ l) (append_one xs y ys)

any-append :
    {A : Type 0} (p : A → Bool) (xs : List A) (y : A) → any p (xs ++ y ∷ []) ≡ (any p xs || p y)
any-append p [] y = ground arith
any-append p (x ∷ xs) y = ground (arith, any-append p xs y)

same_codes_refl : (k : List ℕ) → same_codes k k ≡ true
same_codes_refl [] = refl
same_codes_refl (c ∷ k) = rw (==_refl c) (same_codes_refl k)

without_key-inserted :
    (k : List ℕ) (table : List SlackEvent) (e : SlackEvent)
    → any (has_key k) table ≡ false
    → has_key k e ≡ true
    → without_key k (table ++ e ∷ []) ≡ table
without_key-inserted k [] e h d = rw d refl
without_key-inserted k (x ∷ table) e h d = ground (arith, h, without_key-inserted k table e, d)

-- The keys that can be claimed together: none is taken, and no two are the same.
abbrev pub are_new : List (List ℕ) → List SlackEvent → Bool
are_new [] table = true
are_new (k ∷ ks) table =
    not (any (has_key k) table) && (not (any (same_codes k) ks) && are_new ks table)

abbrev pub is_empty : List (List ℕ) → Bool
is_empty [] = true
is_empty (_ ∷ _) = false

claimed_or-inv :
    (table after : List SlackEvent) (o : Option (List SlackEvent))
    → claimed_or table o ≡ (true, after)
    → o ≡ some after
claimed_or-inv table after none h =
    let q : false ≡ true = ap (λ (x : Bool × List SlackEvent). x.0) h in cc
claimed_or-inv table after (some t) h = ap (λ (x : Bool × List SlackEvent). some (x.1)) h

module _ (team_id channel_id message_ts event_id : String) where
  abbrev row_of : List ℕ → SlackEvent
  row_of k = event_row team_id channel_id message_ts event_id k

  are_new-inserted :
      (k : List ℕ) (ks : List (List ℕ)) (table : List SlackEvent)
      → are_new ks (table ++ row_of k ∷ []) ≡ (not (any (same_codes k) ks) && are_new ks table)
  are_new-inserted k [] table = refl
  are_new-inserted k (j ∷ ks) table =
      ground (arith, are_new-inserted k ks table, any-append (has_key j) table (row_of k))

  insert_keys-are_new :
      (ks : List (List ℕ)) (table : List SlackEvent)
      → insert_keys row_of ks table
        ≡ (if are_new ks table then some (table ++ map row_of ks) else none)
  unfolding insert_keys
  insert_keys-are_new [] table = ap some (sym (append_none table))
  insert_keys-are_new (k ∷ ks) table = elim (Bool-cases (any (has_key k) table)) [
    | inl t ↦ rw (t, insert_keys) refl
    | inr t ↦ ground (
      arith,
      t,
      insert_keys-are_new ks (table ++ row_of k ∷ []),
      are_new-inserted k ks table,
      append_one table (row_of k) (map row_of ks),
    )
  ]

  delete_keys-without_key :
      (k : List ℕ) (ks : List (List ℕ)) (table : List SlackEvent)
      → delete_keys ks (without_key k table) ≡ without_key k (delete_keys ks table)
  unfolding delete_keys
  delete_keys-without_key k [] table = refl
  delete_keys-without_key k (j ∷ ks) table =
      ap (delete_keys ks) (select-select (λ e. not (has_key j e)) (λ e. not (has_key k e)) table)
      ∙ delete_keys-without_key k ks (without_key j table)

  insert_keys-delete_keys :
      (ks : List (List ℕ)) (table after : List SlackEvent)
      → insert_keys row_of ks table ≡ some after
      → delete_keys ks after ≡ table
  unfolding insert_keys delete_keys
  insert_keys-delete_keys [] table after h = cc
  insert_keys-delete_keys (k ∷ ks) table after h = elim (Bool-cases (any (has_key k) table)) [
    | inl t ↦ let q : none ≡ some after = rw (t, insert_keys) at h in cc
    | inr t ↦
        let rest =
          insert_keys-delete_keys ks (table ++ row_of k ∷ []) after (rw (t, insert_keys) at h) in
        delete_keys-without_key k ks after
        ∙ ap (without_key k) rest
        ∙ without_key-inserted k table (row_of k) t (same_codes_refl k)
  ]

-- claim_slack_events answers True exactly where some key is not blank, no two are the same after
-- stripping, and none is taken: then every key has a row, in order; else the table is as it was.
pub claim_slack_events-are_new :
    (dedup_keys : List String) (team_id channel_id message_ts event_id : String)
    (table : List SlackEvent)
    → let keys = stripped_keys dedup_keys in
      claim_slack_events dedup_keys team_id channel_id message_ts event_id table ≡ (
        if not (is_empty keys) && are_new keys table
        then (true, table ++ map (event_row team_id channel_id message_ts event_id) keys)
        else (false, table))
unfolding claim_slack_events
claim_slack_events-are_new dedup_keys team_id channel_id message_ts event_id table =
    go (stripped_keys dedup_keys)
  where
    go :
        (keys : List (List ℕ))
        → claim_keys (event_row team_id channel_id message_ts event_id) keys table ≡ (
            if not (is_empty keys) && are_new keys table
            then (true, table ++ map (event_row team_id channel_id message_ts event_id) keys)
            else (false, table))
    go [] = refl
    go (k ∷ ks) =
        ground (arith, insert_keys-are_new team_id channel_id message_ts event_id (k ∷ ks) table)

-- Where claim_slack_events answered True, release_slack_events of the same keys leaves the table as it
-- was before the claim, so that Slack may send the event again.
pub claim_slack_events-release_slack_events :
    (dedup_keys : List String) (team_id channel_id message_ts event_id : String)
    (table after : List SlackEvent)
    → claim_slack_events dedup_keys team_id channel_id message_ts event_id table ≡ (true, after)
    → release_slack_events dedup_keys after ≡ table
unfolding claim_slack_events release_slack_events
claim_slack_events-release_slack_events dedup_keys team_id channel_id message_ts event_id table
      after h =
    go (stripped_keys dedup_keys) h
  where
    go :
        (keys : List (List ℕ))
        → claim_keys (event_row team_id channel_id message_ts event_id) keys table ≡ (true, after)
        → delete_keys keys after ≡ table
    go [] h = cc
    go (k ∷ ks) h =
        insert_keys-delete_keys team_id channel_id message_ts event_id (k ∷ ks) table after (
          claimed_or-inv table after
            (insert_keys (event_row team_id channel_id message_ts event_id) (k ∷ ks) table) h)
