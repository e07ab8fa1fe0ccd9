-- ===== src/Tests/Delivery.antt =====
-- Versions and gates at concrete input.
use project_os_agentic_agile.Base.{
  ℕ, ◌+◌, List, [], ◌∷◌, true, false, none, some, ◌≡◌, ◌⊎◌, refl, length, codes,
}
use project_os_agentic_agile.Delivery.{
  Version, parse_semver, format_semver, match_semver, read_number, read_digits, read_code,
  read_prerelease, propose_bump, bump, decimal, decimal_in, resolve_release_version,
}
use project_os_agentic_agile.Delivery.Semver.{parse_semver-format_semver}
use project_os_agentic_agile.Delivery.Release.{
  IsDeclared, IsRefused, IsNext, resolve_release_version-cases, precedes, propose_bump-precedes,
}
use project_os_agentic_agile.Delivery.Gates.{
  GateStatus, initial_gate_statuses, all_required_gates_passed, blocking_gates, GateUpdate,
  upsert_all, upsert_gate_status, insert_gate_statuses, read_rows, list_gate_statuses,
}
use project_os_agentic_agile.Delivery.Gates.Blocking.{
  gate_plan, open_gates, is_nil, blocking_gates-open_gates,
}

parse_semver-format_semver_example :
    parse_semver (format_semver 1 20 3 (some (codes "rc.1")))
    ≡ some (record { major = 1; minor = 20; patch = 3; prerelease = some (codes "rc.1") })
parse_semver-format_semver_example = parse_semver-format_semver 1 20 3 (some (codes "rc.1")) refl

abbrev declared : Version
declared = record { major = 0; minor = 1; patch = 0; prerelease = none }

declared_text : parse_semver (codes "v0.1.0") ≡ some declared
unfolding parse_semver match_semver read_number read_digits read_code read_prerelease
declared_text = refl

abbrev taken : List (List ℕ)
taken = codes "v0.1.0" ∷ codes "0.1.1" ∷ []

resolve_release_version-cases_example :
    let result = resolve_release_version (length taken + 1) (codes "v0.1.0") false taken in
    IsDeclared (codes "v0.1.0") false taken result
    ⊎ (IsRefused declared (codes "v0.1.0") false taken result
        ⊎ IsNext declared (codes "v0.1.0") false taken result)
resolve_release_version-cases_example =
    resolve_release_version-cases (codes "v0.1.0") declared false taken declared_text

minor_bump : propose_bump (codes "v0.1.0") (codes "Feature ") ≡ some (codes "0.2.0")
unfolding propose_bump bump format_semver decimal decimal_in parse_semver match_semver read_number
    read_digits read_code read_prerelease
minor_bump = refl

propose_bump-precedes_example :
    (u : Version) × (parse_semver (codes "0.2.0") ≡ some u)
    × (u.prerelease ≡ none)
    × (precedes declared u ≡ true)
propose_bump-precedes_example =
    propose_bump-precedes (codes "v0.1.0") (codes "Feature ") (codes "0.2.0") declared declared_text
      minor_bump

abbrev written : List GateUpdate
written =
    record { release_record_id = "REL-1"; gate_name = "QA_GATE"; status = GateStatus.passed }
    ∷ record { release_record_id = "REL-2"; gate_name = "SBOM_GATE"; status = GateStatus.failed }
    ∷ record { release_record_id = "REL-1"; gate_name = "BUILD_GATE"; status = GateStatus.failed }
    ∷ []

still_open :
    blocking_gates (
      list_gate_statuses "REL-1"
        (upsert_all written (insert_gate_statuses false false true "REL-1" [])))
    ≡ "SOURCE_GATE" ∷ "BUILD_GATE" ∷ "PACKAGE_GATE" ∷ "CHECKSUM_GATE" ∷ "PUBLICATION_GATE"
      ∷ "DELIVERY_GATE" ∷ []
unfolding blocking_gates list_gate_statuses read_rows upsert_all upsert_gate_status
    insert_gate_statuses initial_gate_statuses
still_open = refl

blocking_gates-open_gates_example :
    let gates =
      list_gate_statuses "REL-1"
        (upsert_all written (insert_gate_statuses false false true "REL-1" [])) in
    let left = open_gates "REL-1" written (gate_plan false false true) in
    (blocking_gates gates ≡ left) × (all_required_gates_passed gates ≡ is_nil left)
blocking_gates-open_gates_example = blocking_gates-open_gates false false true "REL-1" [] written
