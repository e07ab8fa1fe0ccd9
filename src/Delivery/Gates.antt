-- ===== src/Delivery/Gates.antt =====
-- delivery/gates.py, and the table delivery_gate_status of delivery/store.py. A release that a row names
-- is there, as the foreign key asks.
pub mod Statuses
pub mod Blocking
use project_os_agentic_agile.Base.{
  String, Bool, true, false, not, List, [], ◌∷◌, Option, none, some, ◌≡◌, refl, ap, ◌∙◌, str_eq,
  if◌then◌else◌, select, all, any, update, ◌&&◌, ◌++◌,
}

abbrev pub release_gates : List String
release_gates =
    "QA_GATE" ∷ "SOURCE_GATE" ∷ "BUILD_GATE" ∷ "PACKAGE_GATE" ∷ "CHECKSUM_GATE" ∷ "SBOM_GATE"
    ∷ "SIGNATURE_GATE" ∷ "PUBLICATION_GATE" ∷ "DELIVERY_GATE" ∷ []

pub data GateStatus : Type 0 where
  pending passed failed skipped not_required : GateStatus

-- A dictionary of statuses: `none` where the gate has no entry.
abbrev pub Gates : Type 0
Gates = String → Option GateStatus

abbrev pub set_gate : String → GateStatus → Gates → Gates
set_gate gate status gates name = if str_eq name gate then some status else gates name

abbrev pub set_unless : Bool → String → GateStatus → Gates → Gates
set_unless required gate status gates = if required then gates else set_gate gate status gates

abbrev pub all_pending : Gates
all_pending name = if any_gate name then some GateStatus.pending else none
  where
    any_gate : String → Bool
    any_gate name = not (all (λ g. not (str_eq name g)) release_gates)

unfoldable pub initial_gate_statuses :
    (signing_required sbom_required github_enabled : Bool) → Gates
initial_gate_statuses signing_required sbom_required github_enabled =
    set_unless github_enabled "PUBLICATION_GATE" GateStatus.skipped (
      set_unless sbom_required "SBOM_GATE" GateStatus.not_required
        (set_unless signing_required "SIGNATURE_GATE" GateStatus.not_required all_pending))

-- `status in {GATE_STATUS_FAILED, GATE_STATUS_PENDING}`, where a missing gate is pending.
abbrev pub is_blocking : Option GateStatus → Bool
is_blocking none = true
is_blocking (some GateStatus.pending) = true
is_blocking (some GateStatus.failed) = true
is_blocking (some _) = false

unfoldable pub all_required_gates_passed : Gates → Bool
all_required_gates_passed gates = all (λ g. not (is_blocking (gates g))) release_gates

unfoldable pub blocking_gates : Gates → List String
blocking_gates gates = select (λ g. is_blocking (gates g)) release_gates

-- A row of the table, without its detail and evidence.
pub record GateRow : Type 0 where
  pub release_record_id : String
  pub gate_name : String
  pub status : GateStatus

abbrev pub is_gate_row : String → String → GateRow → Bool
is_gate_row release gate row = str_eq release row.release_record_id && str_eq gate row.gate_name

-- INSERT … ON CONFLICT DO UPDATE.
unfoldable pub upsert_gate_status :
    (release_record_id gate_name : String) → GateStatus → List GateRow → List GateRow
upsert_gate_status release gate status table =
    if any (is_gate_row release gate) table
    then update (is_gate_row release gate) (λ (row : GateRow). record row { status = status }) table
    else table ++ record { release_record_id = release; gate_name = gate; status = status } ∷ []

-- One call of upsert_gate_status, and several in order.
pub record GateUpdate : Type 0 where
  pub release_record_id : String
  pub gate_name : String
  pub status : GateStatus

unfoldable pub upsert_all : List GateUpdate → List GateRow → List GateRow
upsert_all [] table = table
upsert_all (u ∷ us) table =
    upsert_all us (upsert_gate_status u.release_record_id u.gate_name u.status table)

-- The items of the dictionary initial_gate_statuses, each for the release.
abbrev pub add_item : String → String → Option GateStatus → List GateUpdate → List GateUpdate
add_item release gate none rest = rest
add_item release gate (some status) rest =
    record { release_record_id = release; gate_name = gate; status = status } ∷ rest

abbrev pub gate_items : String → Gates → List String → List GateUpdate
gate_items release gates [] = []
gate_items release gates (g ∷ gs) = add_item release g (gates g) (gate_items release gates gs)

-- The loop of insert_delivery_release.
unfoldable pub insert_gate_statuses :
    (signing_required sbom_required github_enabled : Bool)
    → (release_record_id : String) → List GateRow
    → List GateRow
insert_gate_statuses signing sbom github release table =
    upsert_all (gate_items release (initial_gate_statuses signing sbom github) release_gates) table

-- `out[gate_name] = status`, for the rows of the release.
abbrev pub read_row : String → GateRow → Gates → Gates
read_row release row gates =
    if str_eq release row.release_record_id then set_gate row.gate_name row.status gates else gates

unfoldable pub read_rows : String → List GateRow → Gates → Gates
read_rows release [] gates = gates
read_rows release (row ∷ rows) gates = read_rows release rows (read_row release row gates)

unfoldable pub list_gate_statuses : (release_record_id : String) → List GateRow → Gates
list_gate_statuses release table = read_rows release table all_pending
