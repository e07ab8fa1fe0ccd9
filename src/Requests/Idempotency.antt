-- ===== src/Requests/Idempotency.antt =====
-- A request that is repeated under its idempotency key is answered as the first time.
use project_os_agentic_agile.Base.{
  ℕ, String, Bool, true, false, List, [], ◌∷◌, ◌++◌, Option, none, some, ◌≡◌, refl, sym, inl, inr,
  str_eq, eq_refl, find, find-append, any, coalesce, arith, Bool-cases,
}
use project_os_agentic_agile.Store.Leases.{iso}
use project_os_agentic_agile.Requests.{
  IdempotencyRecord, is_key, get_idempotency_record, put_idempotency_record, scope_of, replayed,
  conflict, replay_or_begin, remember,
}

-- The query of a key that no row has finds the row that is inserted.
find-inserted :
    {A : Type 0} (p : A → Bool) (xs : List A) (y : A)
    → any p xs ≡ false
    → p y ≡ true
    → find p (xs ++ y ∷ []) ≡ some y
find-inserted p [] y h e = rw e refl
find-inserted p (x ∷ xs) y h e = ground (arith, h, find-inserted p xs y)

put_idempotency_record-keeps :
    (p : IdempotencyRecord → Bool) (r s : IdempotencyRecord) (table : List IdempotencyRecord)
    → find p table ≡ some r
    → find p (coalesce (put_idempotency_record s table) table) ≡ some r
unfolding put_idempotency_record
put_idempotency_record-keeps p r s table h =
    elim (Bool-cases (any (is_key s.scope s.idempotency_key) table)) [
      | inl t ↦ rw t h
      | inr t ↦ rw t (find-append p table (s ∷ []) h)
    ]

module _ {P : Type 0} (dumps : P → String) (loads : String → P) where
  -- An answer to remember, under any key.
  pub record Answer : Type 0 where
    pub now : ℕ
    pub project_human_id : String
    pub operation : String
    pub idempotency_key : String
    pub fingerprint : String
    pub status_code : ℕ
    pub payload : P

  abbrev pub remember_answer : Answer → List IdempotencyRecord → Option (List IdempotencyRecord)
  remember_answer a table =
      remember dumps loads a.now a.project_human_id a.operation a.idempotency_key a.fingerprint
        a.status_code a.payload table

  -- Answers in order; one that raises leaves the table.
  abbrev pub remember_answers : List Answer → List IdempotencyRecord → List IdempotencyRecord
  remember_answers [] table = table
  remember_answers (a ∷ as_later) table =
      remember_answers as_later (coalesce (remember_answer a table) table)

  remember_answer-keeps :
      (p : IdempotencyRecord → Bool) (r : IdempotencyRecord) (a : Answer)
      (table : List IdempotencyRecord)
      → find p table ≡ some r
      → find p (coalesce (remember_answer a table) table) ≡ some r
  unfolding remember
  remember_answer-keeps p r a table h = elim (Bool-cases (str_eq a.idempotency_key "")) [
    | inl t ↦ rw t h
    | inr t ↦ rw t (put_idempotency_record-keeps p r _ table h)
  ]

  remember_answers-keeps :
      (p : IdempotencyRecord → Bool) (r : IdempotencyRecord) (later : List Answer)
      (table : List IdempotencyRecord)
      → find p table ≡ some r
      → find p (remember_answers later table) ≡ some r
  remember_answers-keeps p r [] table h = h
  remember_answers-keeps p r (a ∷ later) table h =
      remember_answers-keeps p r later (coalesce (remember_answer a table) table)
        (remember_answer-keeps p r a table h)

  abbrev stored : Answer → IdempotencyRecord
  stored a = record {
    scope = scope_of a.project_human_id a.operation;
    idempotency_key = a.idempotency_key;
    fingerprint = a.fingerprint;
    status_code = a.status_code;
    response_json = dumps a.payload;
    created_at = iso a.now;
  }

  remember-find :
      (a : Answer) (table after : List IdempotencyRecord)
      → str_eq a.idempotency_key "" ≡ false
      → remember_answer a table ≡ some after
      → get_idempotency_record (scope_of a.project_human_id a.operation) a.idempotency_key after
        ≡ some (stored a)
  unfolding remember put_idempotency_record get_idempotency_record
  remember-find a table after named h =
      let p = is_key (scope_of a.project_human_id a.operation) a.idempotency_key in
      elim (Bool-cases (any p table)) [
        | inl t ↦ let q : none ≡ some after = rw (named, t) at h in cc
        | inr t ↦
            let q : some (table ++ stored a ∷ []) ≡ some after = rw (named, t) at h in
            let e : table ++ stored a ∷ [] ≡ after = cc in
            rw (sym e) (
              find-inserted p table (stored a) t (
                rw (eq_refl (scope_of a.project_human_id a.operation), eq_refl a.idempotency_key)
                  refl))
      ]

  -- Where json.loads undoes json.dumps: after `remember` stored an answer under a key that is not empty,
  -- and any later answers, the same request under the key is answered with the stored status and payload,
  -- and a request of the project and operation with another fingerprint is refused.
  pub remember-replay_or_begin :
      (a : Answer) (later : List Answer) (other : String) (table after : List IdempotencyRecord)
      → ((p : P) → loads (dumps p) ≡ p)
      → str_eq a.idempotency_key "" ≡ false
      → remember_answer a table ≡ some after
      → str_eq a.fingerprint other ≡ false
      → (replay_or_begin dumps loads a.project_human_id a.operation a.idempotency_key a.fingerprint
            (remember_answers later after)
          ≡ replayed a.status_code a.payload)
        × (replay_or_begin dumps loads a.project_human_id a.operation a.idempotency_key other
              (remember_answers later after)
            ≡ conflict)
  unfolding replay_or_begin get_idempotency_record
  remember-replay_or_begin a later other table after undo named h differ =
      let p = is_key (scope_of a.project_human_id a.operation) a.idempotency_key in
      let found =
        remember_answers-keeps p (stored a) later after (remember-find a table after named h) in
      (
        rw (named, found, eq_refl a.fingerprint, undo a.payload) refl,
        rw (named, found, differ) refl,
      )
