-- ===== src/Outbox/Order.antt =====
-- The order of delivery in one pass of dispatch_event_outbox: a failure holds what follows it in its
-- stream.
use project_os_agentic_agile.Base.{
  ℕ, String, true, List, [], ◌∷◌, ◌++◌, Option, none, some, is_some, ◌≡◌, refl, ap, ◌∙◌, inl, inr,
  str_eq, eq_refl, In, Bool-cases,
}
use project_os_agentic_agile.Outbox.{DetailLevel, RowPayload, OutboxRow}
use project_os_agentic_agile.Outbox.Dispatch.{
  stream_key, find_stream, Verdict, held, hidden, sent, missing_channel, failed, judge,
  block_stream, judge_rows,
}

-- A stream that is blocked stays so.
block_stream-blocks :
    (subscriber k : String) (streams : List (String × ℕ)) (r : OutboxRow) (p : Option RowPayload)
    (v : Verdict)
    → is_some (find_stream k streams) ≡ true
    → is_some (find_stream k (block_stream subscriber streams r p v)) ≡ true
block_stream-blocks subscriber k streams r none v h = h
block_stream-blocks subscriber k streams r (some p) (held by) h = h
block_stream-blocks subscriber k streams r (some p) hidden h = h
block_stream-blocks subscriber k streams r (some p) sent h = h
block_stream-blocks subscriber k streams r (some p) missing_channel h = h
block_stream-blocks subscriber k streams r (some p) (failed error) h =
    elim (Bool-cases (str_eq (stream_key subscriber p) k)) [ inl t ↦ rw t refl | inr t ↦ rw t h ]

-- A failure blocks its stream.
failed-blocks :
    (subscriber : String) (streams : List (String × ℕ)) (r : OutboxRow) (p : RowPayload)
    (error : String)
    → is_some (
        find_stream
          (stream_key subscriber p)
          (block_stream subscriber streams r (some p) (failed error)))
      ≡ true
failed-blocks subscriber streams r p error = rw (eq_refl (stream_key subscriber p)) refl

is_some-inv : {A : Type 0} (o : Option A) → is_some o ≡ true → (a : A) × (o ≡ some a)
is_some-inv none h = cc
is_some-inv (some a) h = (a, refl)

∷-injective : {A : Type 0} {x y : A} {xs ys : List A} → x ∷ xs ≡ y ∷ ys → (x ≡ y) × (xs ≡ ys)
∷-injective h = (cc, cc)

module _ (subscriber : String) (sponsor_level : Option DetailLevel)
    (post : OutboxRow → RowPayload → Option String) where
  -- The row of a blocked stream is held.
  judge-holds :
      (k : String) (streams : List (String × ℕ)) (r : OutboxRow) (p : RowPayload)
      → is_some (find_stream k streams) ≡ true
      → r.payload ≡ some p
      → stream_key subscriber p ≡ k
      → (by : ℕ) × (judge subscriber sponsor_level post streams r r.payload ≡ held by)
  unfolding judge
  judge-holds k streams r p h e s =
      let (by, f) = is_some-inv (find_stream k streams) h in (by, rw (e, s, f) refl)

  judge_rows-holds :
      (k : String) (streams : List (String × ℕ)) (rows : List OutboxRow) (q : OutboxRow)
      (v : Verdict) (p : RowPayload)
      → is_some (find_stream k streams) ≡ true
      → In (q, v) (judge_rows subscriber sponsor_level post streams rows)
      → q.payload ≡ some p
      → stream_key subscriber p ≡ k
      → (by : ℕ) × (v ≡ held by)
  unfolding judge_rows
  judge_rows-holds k streams [] q v p h m e s = absurd m
  judge_rows-holds k streams (r ∷ rows) q v p h (inl i) e s =
      let same : q ≡ r = ap (λ (x : OutboxRow × Verdict). x.0) i in
      let (by, f) = judge-holds k streams r p h (rw same at e) s in
      (by, ap (λ (x : OutboxRow × Verdict). x.1) i ∙ f)
  judge_rows-holds k streams (r ∷ rows) q v p h (inr m) e s =
      let verdict = judge subscriber sponsor_level post streams r r.payload in
      judge_rows-holds k (block_stream subscriber streams r r.payload verdict) rows q v p
        (block_stream-blocks subscriber k streams r r.payload verdict h) m e s

  -- In one pass, once posting a row has failed, every later row of its stream (the same channel, thread
  -- and run) is held, whatever posting it would have given.
  pub judge_rows-holds_after_failure :
      (streams : List (String × ℕ)) (rows : List OutboxRow)
      (before after : List (OutboxRow × Verdict)) (r q : OutboxRow) (p pq : RowPayload)
      (error : String) (v : Verdict)
      → judge_rows subscriber sponsor_level post streams rows ≡ before ++ (r, failed error) ∷ after
      → r.payload ≡ some p
      → In (q, v) after
      → q.payload ≡ some pq
      → stream_key subscriber pq ≡ stream_key subscriber p
      → (by : ℕ) × (v ≡ held by)
  unfolding judge_rows
  judge_rows-holds_after_failure streams [] [] after r q p pq error v h e m eq s = cc
  judge_rows-holds_after_failure streams [] (b ∷ before) after r q p pq error v h e m eq s = cc
  judge_rows-holds_after_failure streams (x ∷ rows) [] after r q p pq error v h e m eq s =
      let (first, rest) = ∷-injective h in
      let same : x ≡ r = ap (λ (y : OutboxRow × Verdict). y.0) first in
      let fails = ap (λ (y : OutboxRow × Verdict). y.1) first in
      let full : x.payload ≡ some p = ap (λ (y : OutboxRow). y.payload) same ∙ e in
      judge_rows-holds (stream_key subscriber p)
        (block_stream subscriber streams x x.payload
          (judge subscriber sponsor_level post streams x x.payload))
        rows q v pq (rw (fails, full) (failed-blocks subscriber streams x p error)) (rw rest m) eq s
  judge_rows-holds_after_failure streams (x ∷ rows) (b ∷ before) after r q p pq error v h e m eq s =
      let verdict = judge subscriber sponsor_level post streams x x.payload in
      judge_rows-holds_after_failure (block_stream subscriber streams x x.payload verdict) rows
        before after r q p pq error v (∷-injective h).1 e m eq s
