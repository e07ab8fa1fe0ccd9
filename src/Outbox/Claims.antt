-- ===== src/Outbox/Claims.antt =====
-- claim_pending_outbox of event_dispatcher.py: while a claim lasts, no other claim takes its rows.
use project_os_agentic_agile.Base.{
  ℕ, ◌+◌, ◌≤◌, String, Bool, true, false, List, [], ◌∷◌, some, ◌≡◌, refl, ap, sym, ◌∙◌, ◌≢◌, ◌⊎◌,
  inl, inr, update, update_row, select, In, In-update, update-cases, In-select, In-take,
  In-order_by, order_by, leb, arith,
}
use project_os_agentic_agile.Outbox.{
  OutboxStatus, OutboxRow, is_status, is_lapsed, reset_row, reset_lapsed, is_listed,
  list_pending_subscriber_outbox, is_pending_id, claim_row, claim_rows, claim_pending_outbox,
}

-- The key `id` of the table.
pub record HasUniqueIds (table : List OutboxRow) : Type 0 where
  pub same : (x y : OutboxRow) → In x table → In y table → x.id ≡ y.id → x ≡ y

pub update-HasUniqueIds :
    (p : OutboxRow → Bool) (f : OutboxRow → OutboxRow) (table : List OutboxRow)
    → ((r : OutboxRow) → (f r).id ≡ r.id)
    → HasUniqueIds table
    → HasUniqueIds (update p f table)
update-HasUniqueIds p f table keep u = record {
  same = λ x y m n e.
      let (a, ma, qa) = In-update x p f table m in
      let (b, mb, qb) = In-update y p f table n in
      let same_id : a.id ≡ b.id =
        ground (
          arith,
          keep a,
          keep b,
          ap (λ (r : OutboxRow). r.id) qa,
          ap (λ (r : OutboxRow). r.id) qb,
        ) in
      qa ∙ ap (update_row p f) (u.same a b ma mb same_id) ∙ sym qb;
}

-- A row that a claim holds until then.
pub record IsHeld (claimed_by : String) (expires : ℕ) (r : OutboxRow) : Type 0 where
  pub status : r.status ≡ OutboxStatus.claimed
  pub claimant : r.claimed_by ≡ some claimed_by
  pub expiry : r.claim_expires_at ≡ some expires

claim_row-IsHeld :
    (by : String) (expires : ℕ) (r : OutboxRow) → IsHeld by expires (claim_row by expires r)
claim_row-IsHeld by expires r = record { status = refl; claimant = refl; expiry = refl }

module _ (by : String) (expires : ℕ) where
  -- Every row of that id is held.
  abbrev HoldsId : ℕ → List OutboxRow → Type 0
  HoldsId id table = (x : OutboxRow) → In x table → x.id ≡ id → IsHeld by expires x

  -- Every row of that id is pending or held.
  abbrev OpenId : ℕ → List OutboxRow → Type 0
  OpenId id table =
      (x : OutboxRow)
      → In x table
      → x.id ≡ id
      → (is_status x.status OutboxStatus.pending ≡ true) ⊎ IsHeld by expires x

  update-OpenId :
      (id k : ℕ) (table : List OutboxRow)
      → OpenId id table
      → OpenId id (update (is_pending_id k) (claim_row by expires) table)
  update-OpenId id k table o x m e =
      let (a, n, c) = update-cases x (is_pending_id k) (claim_row by expires) table m in
      elim c [
        | inl (t, q) ↦ inr (rw q (claim_row-IsHeld by expires a))
        | inr (t, q) ↦ rw q (o a n (rw q at e))
      ]

  update-HoldsId :
      (id : ℕ) (table : List OutboxRow)
      → OpenId id table
      → HoldsId id (update (is_pending_id id) (claim_row by expires) table)
  update-HoldsId id table o x m e =
      let (a, n, c) = update-cases x (is_pending_id id) (claim_row by expires) table m in
      elim c [
        | inl (t, q) ↦ rw q (claim_row-IsHeld by expires a)
        | inr (t, q) ↦
            let e' : a.id ≡ id = rw q at e in
            elim (o a n e') as (λ _. IsHeld by expires x) [
              | inl pending ↦ absurd (ground (arith, t, pending, e'))
              | inr h ↦ rw q h
            ]
      ]

  HoldsId-OpenId : (id : ℕ) (table : List OutboxRow) → HoldsId id table → OpenId id table
  HoldsId-OpenId id table h x m e = inr (h x m e)

  not_pending :
      (r : OutboxRow) → IsHeld by expires r → is_status r.status OutboxStatus.pending ≡ false
  not_pending r h = rw (h.status) refl

  claim_rows-keeps :
      (id : ℕ) (rs table : List OutboxRow)
      → HoldsId id table
      → HoldsId id (claim_rows by expires rs table)
  unfolding claim_rows
  claim_rows-keeps id [] table h = h
  claim_rows-keeps id (r ∷ rs) table h =
      claim_rows-keeps id rs (update (is_pending_id r.id) (claim_row by expires) table) (λ x m e.
        let (a, n, c) = update-cases x (is_pending_id r.id) (claim_row by expires) table m in
        elim c [
          | inl (t, q) ↦ rw q (claim_row-IsHeld by expires a)
          | inr (t, q) ↦ rw q (h a n (rw q at e))
        ])

  claim_rows-holds :
      (r : OutboxRow) (rs table : List OutboxRow)
      → In r rs
      → OpenId r.id table
      → HoldsId r.id (claim_rows by expires rs table)
  unfolding claim_rows
  claim_rows-holds r [] table m o = absurd m
  claim_rows-holds r (s ∷ rs) table (inl q) o =
      let i : r.id ≡ s.id = ap (λ (x : OutboxRow). x.id) q in
      claim_rows-keeps r.id rs (update (is_pending_id s.id) (claim_row by expires) table)
        (rw (sym i) (update-HoldsId r.id table o))
  claim_rows-holds r (s ∷ rs) table (inr m) o =
      claim_rows-holds r rs (update (is_pending_id s.id) (claim_row by expires) table) m
        (update-OpenId r.id s.id table o)

pub list_pending-inv :
    (subscriber : String) (limit : ℕ) (r : OutboxRow) (table : List OutboxRow)
    → In r (list_pending_subscriber_outbox subscriber limit table)
    → In r table × (is_listed subscriber r ≡ true)
unfolding list_pending_subscriber_outbox
list_pending-inv subscriber limit r table m =
    let before = λ (a b : OutboxRow). leb a.created_at b.created_at in
    let rows = select (is_listed subscriber) table in
    In-select r (is_listed subscriber) table
      (In-order_by before r rows (In-take limit r (order_by before rows) m))

pub reset_lapsed-HasUniqueIds :
    (now : ℕ) (subscriber : String) (table : List OutboxRow)
    → HasUniqueIds table
    → HasUniqueIds (reset_lapsed now subscriber table)
unfolding reset_lapsed
reset_lapsed-HasUniqueIds now subscriber table =
    update-HasUniqueIds (is_lapsed now subscriber) reset_row table (λ r. refl)

reset_lapsed-inv :
    (now : ℕ) (subscriber : String) (table : List OutboxRow) (s : OutboxRow)
    → In s (reset_lapsed now subscriber table)
    → (a : OutboxRow) × In a table × (s ≡ update_row (is_lapsed now subscriber) reset_row a)
unfolding reset_lapsed
reset_lapsed-inv now subscriber table s m = In-update s (is_lapsed now subscriber) reset_row table m

-- What a claim returns was pending with attempts to spare, and is held from then on.
pub claim_pending_outbox-holds :
    (now sql_now : ℕ) (subscriber by : String) (limit lease_seconds : ℕ) (table : List OutboxRow)
    (r : OutboxRow)
    → HasUniqueIds table
    → let (rows, after) =
        claim_pending_outbox now sql_now subscriber by limit lease_seconds table in
      In r rows
      → (is_listed subscriber r ≡ true)
        × ((x : OutboxRow) → In x after → x.id ≡ r.id → IsHeld by (now + lease_seconds) x)
unfolding claim_pending_outbox
claim_pending_outbox-holds now sql_now subscriber by limit lease_seconds table r u m =
    let open_table = reset_lapsed sql_now subscriber table in
    let (n, listed) = list_pending-inv subscriber limit r open_table m in
    let v = reset_lapsed-HasUniqueIds sql_now subscriber table u in
    (
      listed,
      claim_rows-holds by (now + lease_seconds) r
          (list_pending_subscriber_outbox subscriber limit open_table) open_table m
          (λ x k e. inl (rw (v.same x r k n e) (ground (arith, listed)))),
    )

-- A row that is held has not lapsed at its expiry, and is not listed.
held-unavailable :
    (by : String) (expires now : ℕ) (subscriber : String) (a s : OutboxRow)
    → now ≤ expires
    → IsHeld by expires a
    → is_listed subscriber s ≡ true
    → s ≢ update_row (is_lapsed now subscriber) reset_row a
held-unavailable by expires now subscriber a s le h listed q =
    let open_row : is_lapsed now subscriber a ≡ false =
      rw (h.status, h.expiry) (ground (arith, le)) in
    let same : s ≡ a = rw open_row at q in
    ground (arith, not_pending by expires a h, rw same at listed)

-- On a table whose ids are unique, a row that a claim returned is not returned by a second claim, of
-- any subscriber and at any limit, while the database's clock has not passed the first one's expiry.
pub claim_pending_outbox-excludes :
    (now sql_now : ℕ) (subscriber by : String) (limit lease_seconds : ℕ) (later sql_later : ℕ)
    (other by_other : String) (limit_other lease_other : ℕ) (table : List OutboxRow)
    (r s : OutboxRow)
    → HasUniqueIds table
    → sql_later ≤ now + lease_seconds
    → let (rows, after) =
        claim_pending_outbox now sql_now subscriber by limit lease_seconds table in
      let (others, last) =
        claim_pending_outbox later sql_later other by_other limit_other lease_other after in
      In r rows → In s others → s.id ≢ r.id
unfolding claim_pending_outbox
claim_pending_outbox-excludes now sql_now subscriber by limit lease_seconds later sql_later other
      by_other limit_other lease_other table r s u le m n e =
    let (listed, held) =
      claim_pending_outbox-holds now sql_now subscriber by limit lease_seconds table r u m in
    let after = (claim_pending_outbox now sql_now subscriber by limit lease_seconds table).1 in
    let (k, pending) =
      list_pending-inv other limit_other s (reset_lapsed sql_later other after) n in
    let (a, ma, qa) = reset_lapsed-inv sql_later other after s k in
    let same_id : a.id ≡ r.id = ground (arith, e, ap (λ (x : OutboxRow). x.id) qa) in
    held-unavailable by (now + lease_seconds) sql_later other a s le (held a ma same_id) pending qa
