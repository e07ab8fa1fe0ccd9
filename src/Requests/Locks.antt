-- ===== src/Requests/Locks.antt =====
-- One operation at a time: while a lock is fresh and not released, no other owner acquires it.
use project_os_agentic_agile.Base.{
  ℕ, ◌+◌, ◌*◌, ◌<◌, String, Bool, true, false, ◌||◌, not, inl, inr, find-append, find-append_off,
  find-select, find-deleted, List, [], ◌∷◌, ◌++◌, none, some, ◌≡◌, refl, sym, ◌∙◌, str_eq, eq_refl,
  eq_iff, ltb, find, select, all, coalesce, arith, Bool-cases,
}
use project_os_agentic_agile.Store.Leases.{iso}
use project_os_agentic_agile.Requests.{
  OperationLock, is_lock, without_lock, new_lock, is_fresh, has_fresh, acquire_operation_lock,
  release_operation_lock,
}

-- What other requests do with the locks; one that raises leaves them as they were.
pub data LockOp : Type 0 where
  acquire : (now later : ℕ) → (lock_name owner : String) → (stale_seconds : ℕ) → LockOp
  release : (lock_name : String) → LockOp

abbrev pub apply_op : LockOp → List OperationLock → List OperationLock
apply_op (acquire now later name owner stale) locks =
    coalesce (acquire_operation_lock now later name owner stale locks) locks
apply_op (release name) locks = release_operation_lock name locks

abbrev pub apply_ops : List LockOp → List OperationLock → List OperationLock
apply_ops [] locks = locks
apply_ops (o ∷ os) locks = apply_ops os (apply_op o locks)

-- An operation that does not release that lock, nor finds a lock of that time stale.
abbrev pub respects : String → (acquired_at : ℕ) → LockOp → Bool
respects name at (acquire now later n owner stale) =
    not (str_eq n name) || ltb now ((at + stale) * 1000000)
respects name at (release n) = not (str_eq n name)

other_name :
    (n name : String) (l : OperationLock)
    → str_eq n name ≡ false
    → is_lock name l ≡ true
    → not (is_lock n l) ≡ true
other_name n name l differ h = elim (Bool-cases (is_lock n l)) [
  | inl t ↦
      let q : n ≡ name = sym ((eq_iff l.lock_name n).0 t) ∙ (eq_iff l.lock_name name).0 h in
      let e : str_eq n name ≡ true = (eq_iff n name).1 q in cc
  | inr t ↦ rw t refl
]

-- The lock of a name, through operations on other names.
without_lock-other :
    (n name : String) (locks : List OperationLock) (l : OperationLock)
    → str_eq n name ≡ false
    → find (is_lock name) locks ≡ some l
    → find (is_lock name) (without_lock n locks) ≡ some l
without_lock-other n name locks l differ h =
    find-select (is_lock name) (λ x. not (is_lock n x)) locks (λ x e. other_name n name x differ e)
    ∙ h

find-deleted_none :
    (p : OperationLock → Bool) (xs : List OperationLock)
    → find p (select (λ x. not (p x)) xs) ≡ none
find-deleted_none p [] = refl
find-deleted_none p (x ∷ xs) = ground (arith, find-deleted_none p xs)

apply_op-keeps :
    (name : String) (l : OperationLock) (o : LockOp) (locks : List OperationLock)
    → respects name l.acquired_at o ≡ true
    → find (is_lock name) locks ≡ some l
    → find (is_lock name) (apply_op o locks) ≡ some l
unfolding acquire_operation_lock release_operation_lock
apply_op-keeps name l (release n) locks r h =
    without_lock-other n name locks l (ground (arith, r)) h
apply_op-keeps name l (acquire now later n owner stale) locks r h =
    elim (Bool-cases (has_fresh now stale (find (is_lock n) locks))) [
      | inl t ↦ rw t h
      | inr t ↦ elim (Bool-cases (str_eq n name)) [
        | inl e ↦
            let same : n ≡ name = (eq_iff n name).0 e in
            let stale_lock : is_fresh now stale l ≡ false = rw (same, h) at t in
            absurd (ground (arith, r, e, stale_lock))
        | inr e ↦ rw t (
            find-append (is_lock name) (without_lock n locks) _
              (without_lock-other n name locks l e h))
      ]
    ]

apply_ops-keeps :
    (name : String) (l : OperationLock) (os : List LockOp) (locks : List OperationLock)
    → all (respects name l.acquired_at) os ≡ true
    → find (is_lock name) locks ≡ some l
    → find (is_lock name) (apply_ops os locks) ≡ some l
apply_ops-keeps name l [] locks r h = h
apply_ops-keeps name l (o ∷ os) locks r h =
    apply_ops-keeps name l os (apply_op o locks) (ground (arith, r))
      (apply_op-keeps name l o locks (ground (arith, r)) h)

acquire_operation_lock-find :
    (now later : ℕ) (name owner : String) (stale : ℕ) (locks after : List OperationLock)
    → acquire_operation_lock now later name owner stale locks ≡ some after
    → find (is_lock name) after ≡ some (new_lock name owner later)
unfolding acquire_operation_lock
acquire_operation_lock-find now later name owner stale locks after h =
    elim (Bool-cases (has_fresh now stale (find (is_lock name) locks))) [
      | inl t ↦ let q : none ≡ some after = rw t at h in cc
      | inr t ↦
          let l = new_lock name owner later in
          let q : some (without_lock name locks ++ l ∷ []) ≡ some after = rw t at h in
          let e : without_lock name locks ++ l ∷ [] ≡ after = cc in
          rw (sym e) (find-deleted (is_lock name) locks (l ∷ []) ∙ rw (eq_refl name) refl)
    ]

-- After acquire_operation_lock gave a lock, and any operations on locks that neither release it nor find
-- it stale, another acquisition that does not find it stale raises, whoever asks.
pub acquire_operation_lock-excludes :
    (now later : ℕ) (name owner : String) (stale : ℕ) (locks after : List OperationLock)
    (os : List LockOp) (now_other later_other : ℕ) (other : String) (stale_other : ℕ)
    → acquire_operation_lock now later name owner stale locks ≡ some after
    → all (respects name (iso later)) os ≡ true
    → now_other < (iso later + stale_other) * 1000000
    → acquire_operation_lock now_other later_other name other stale_other (apply_ops os after)
      ≡ none
unfolding acquire_operation_lock
acquire_operation_lock-excludes now later name owner stale locks after os now_other later_other
      other stale_other h r le =
    let l = new_lock name owner later in
    let held =
      apply_ops-keeps name l os after r
        (acquire_operation_lock-find now later name owner stale locks after h) in
    let fresh : is_fresh now_other stale_other l ≡ true = ground (arith, le) in
    rw (held, fresh) refl

-- A lock that is released by its name, whoever holds it and however fresh it is, is acquired by the next
-- who asks, and is then that owner's; the lock of another name stays as it was.
pub acquire_operation_lock-after_release :
    (now later : ℕ) (name owner n : String) (stale : ℕ) (locks : List OperationLock)
    → str_eq name n ≡ false
    → (after : List OperationLock) × (acquire_operation_lock now later name owner stale
          (release_operation_lock name locks)
        ≡ some after)
      × (find (is_lock name) after ≡ some (new_lock name owner later))
      × (find (is_lock n) after ≡ find (is_lock n) locks)
unfolding acquire_operation_lock release_operation_lock
acquire_operation_lock-after_release now later name owner n stale locks differ =
    let open_locks = without_lock name locks in
    let after = without_lock name open_locks ++ new_lock name owner later ∷ [] in
    let gone : find (is_lock name) open_locks ≡ none = find-deleted_none (is_lock name) locks in
    let keep = λ (x : OperationLock) (e : is_lock n x ≡ true). other_name name n x differ e in
    let acquired : acquire_operation_lock now later name owner stale
          (release_operation_lock name locks)
        ≡ some after =
      rw gone refl in
    (
      after,
      acquired,
      acquire_operation_lock-find now later name owner stale open_locks after acquired,
      find-append_off (is_lock n) (without_lock name open_locks) (new_lock name owner later) differ
          ∙ find-select (is_lock n) (λ x. not (is_lock name x)) open_locks keep
          ∙ find-select (is_lock n) (λ x. not (is_lock name x)) locks keep,
    )
