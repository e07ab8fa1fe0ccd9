-- ===== src/Delivery/Gates/Statuses.antt =====
-- The status of a gate, from the calls of upsert_gate_status.
use project_os_agentic_agile.Base.{
  String, true, false, ◌&&◌, List, [], ◌∷◌, ◌++◌, Option, none, some, ◌≡◌, refl, ap, sym, ◌∙◌, inl,
  inr, str_eq, eq_iff, eq_refl, if◌then◌else◌, any, update, first_some, arith, Bool-cases,
}
use project_os_agentic_agile.Delivery.Gates.{
  GateStatus, Gates, GateRow, is_gate_row, upsert_gate_status, GateUpdate, upsert_all, add_item,
  gate_items, read_row, read_rows,
}

-- The last status that the calls give a gate of the release.
abbrev pub last_update : String → String → List GateUpdate → Option GateStatus
last_update release gate [] = none
last_update release gate (u ∷ us) =
    first_some (last_update release gate us) (
      if str_eq release u.release_record_id && str_eq gate u.gate_name then some u.status else none)

-- The status that the rows give a gate of a release.
abbrev pub last_status : String → String → List GateRow → Option GateStatus
last_status release gate [] = none
last_status release gate (row ∷ rows) =
    first_some (last_status release gate rows)
      (if is_gate_row release gate row then some row.status else none)

first_some_assoc :
    {A : Type 0} (a b c : Option A) → first_some (first_some a b) c ≡ first_some a (first_some b c)
first_some_assoc none b c = refl
first_some_assoc (some a) b c = refl

pub read_rows-last_status :
    (release gate : String) (rows : List GateRow) (gates : Gates)
    → read_rows release rows gates gate ≡ first_some (last_status release gate rows) (gates gate)
unfolding read_rows
read_rows-last_status release gate [] gates = refl
read_rows-last_status release gate (row ∷ rows) gates =
    read_rows-last_status release gate rows (read_row release row gates)
    ∙ (ap (first_some (last_status release gate rows)) (one release gate row gates)
        ∙ sym (first_some_assoc (last_status release gate rows) _ (gates gate)))
  where
    one :
        (release gate : String) (row : GateRow) (gates : Gates)
        → read_row release row gates gate
          ≡ first_some (if is_gate_row release gate row then some row.status else none) (gates gate)
    one release gate row gates = ground arith

-- A row of one key has no other.
is_gate_row-same :
    (r g release gate : String) (row : GateRow)
    → is_gate_row r g row ≡ true
    → is_gate_row release gate row ≡ (str_eq release r && str_eq gate g)
is_gate_row-same r g release gate row h =
    let e : r ≡ row.release_record_id = (eq_iff r row.release_record_id).0 (ground (arith, h)) in
    let f : g ≡ row.gate_name = (eq_iff g row.gate_name).0 (ground (arith, h)) in rw (e, f) refl

abbrev with_status : GateStatus → GateRow → GateRow
with_status s row = record row { status = s }

update-last_status_on :
    (r g : String) (s : GateStatus) (rows : List GateRow)
    → last_status r g (update (is_gate_row r g) (with_status s) rows)
      ≡ (if any (is_gate_row r g) rows then some s else none)
update-last_status_on r g s [] = refl
update-last_status_on r g s (row ∷ rows) = elim (Bool-cases (is_gate_row r g row)) [
  | inl t ↦ rw t (
      rw (update-last_status_on r g s rows) (elim (Bool-cases (any (is_gate_row r g) rows)) [
        | inl a ↦ rw a refl
        | inr a ↦ rw (a, t) refl
      ]))
  | inr t ↦ rw t (
      rw (update-last_status_on r g s rows) (elim (Bool-cases (any (is_gate_row r g) rows)) [
        | inl a ↦ rw a refl
        | inr a ↦ rw (a, t) refl
      ]))
]

update-last_status_off :
    (r g release gate : String) (s : GateStatus) (rows : List GateRow)
    → (str_eq release r && str_eq gate g) ≡ false
    → last_status release gate (update (is_gate_row r g) (with_status s) rows)
      ≡ last_status release gate rows
update-last_status_off r g release gate s [] off = refl
update-last_status_off r g release gate s (row ∷ rows) off =
    elim (Bool-cases (is_gate_row r g row)) [
      | inl t ↦
          let no : is_gate_row release gate row ≡ false =
            is_gate_row-same r g release gate row t ∙ off in
          rw (t, update-last_status_off r g release gate s rows off) (rw no refl)
      | inr t ↦ rw (t, update-last_status_off r g release gate s rows off) refl
    ]

last_status-append :
    (release gate : String) (rows : List GateRow) (x : GateRow)
    → last_status release gate (rows ++ x ∷ [])
      ≡ first_some
          (if is_gate_row release gate x then some x.status else none)
          (last_status release gate rows)
last_status-append release gate [] x = ground arith
last_status-append release gate (row ∷ rows) x =
    rw (last_status-append release gate rows x)
      (first_some_assoc _ (last_status release gate rows) _)

-- An upsert is what is read of its key afterwards, and leaves the other keys.
upsert_gate_status-last_status :
    (r g release gate : String) (s : GateStatus) (table : List GateRow)
    → last_status release gate (upsert_gate_status r g s table)
      ≡ first_some
          (if str_eq release r && str_eq gate g then some s else none)
          (last_status release gate table)
unfolding upsert_gate_status
upsert_gate_status-last_status r g release gate s table =
    elim (Bool-cases (any (is_gate_row r g) table)) [
      | inr a ↦ rw a (
          last_status-append release gate table
            (record { release_record_id = r; gate_name = g; status = s }))
      | inl a ↦ elim (Bool-cases (str_eq release r && str_eq gate g)) [
        | inr off ↦ rw (a, off) (update-last_status_off r g release gate s table off)
        | inl on ↦
            let e : release ≡ r = (eq_iff release r).0 (ground (arith, on)) in
            let f : gate ≡ g = (eq_iff gate g).0 (ground (arith, on)) in
            rw (a, on) (rw (e, f) (update-last_status_on r g s table ∙ rw a refl))
      ]
    ]

pub upsert_all-last_status :
    (release gate : String) (us : List GateUpdate) (table : List GateRow)
    → last_status release gate (upsert_all us table)
      ≡ first_some (last_update release gate us) (last_status release gate table)
unfolding upsert_all
upsert_all-last_status release gate [] table = refl
upsert_all-last_status release gate (u ∷ us) table =
    upsert_all-last_status release gate us
      (upsert_gate_status u.release_record_id u.gate_name u.status table)
    ∙ (ap (first_some (last_update release gate us)) (
          upsert_gate_status-last_status u.release_record_id u.gate_name release gate u.status
            table)
        ∙ sym (first_some_assoc (last_update release gate us) _ _))

first_some-none : {A : Type 0} (o : Option A) → first_some o none ≡ o
first_some-none none = refl
first_some-none (some a) = refl

first_some_same : {A : Type 0} (o : Option A) → first_some o o ≡ o
first_some_same none = refl
first_some_same (some a) = refl

add_item-last_update :
    (release gate n : String) (o : Option GateStatus) (rest : List GateUpdate)
    → last_update release gate (add_item release n o rest)
      ≡ first_some (last_update release gate rest) (if str_eq gate n then o else none)
add_item-last_update release gate n none rest = elim (Bool-cases (str_eq gate n)) [
  | inl t ↦ rw t (sym (first_some-none (last_update release gate rest)))
  | inr t ↦ rw t (sym (first_some-none (last_update release gate rest)))
]
add_item-last_update release gate n (some s) rest = rw (eq_refl release) refl

-- The release begins with the statuses of the dictionary.
pub gate_items-last_update :
    (release gate : String) (gates : Gates) (names : List String)
    → last_update release gate (gate_items release gates names)
      ≡ (if any (str_eq gate) names then gates gate else none)
gate_items-last_update release gate gates [] = refl
gate_items-last_update release gate gates (n ∷ ns) =
    let step = add_item-last_update release gate n (gates n) (gate_items release gates ns) in
    let ih = gate_items-last_update release gate gates ns in
    step
    ∙ rw ih (elim (Bool-cases (str_eq gate n)) [
      | inl t ↦
          let same : n ≡ gate = sym ((eq_iff gate n).0 t) in
          rw t (
            rw same (elim (Bool-cases (any (str_eq gate) ns)) [
              | inl a ↦ rw a (first_some_same (gates gate))
              | inr a ↦ rw a refl
            ]))
      | inr t ↦ rw t (first_some-none _)
    ])
