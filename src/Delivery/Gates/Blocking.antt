-- ===== src/Delivery/Gates/Blocking.antt =====
-- Which gates block a release, from the statuses that were written for it.
use project_os_agentic_agile.Base.{
  String, Bool, true, false, not, ◌&&◌, List, [], ◌∷◌, Option, none, some, ◌≡◌, refl, ap, ◌∙◌,
  str_eq, if◌then◌else◌, select, all, any, first_some, arith,
}
use project_os_agentic_agile.Delivery.Gates.{
  release_gates, GateStatus, Gates, all_pending, initial_gate_statuses, is_blocking,
  all_required_gates_passed, blocking_gates, GateRow, GateUpdate, upsert_all, gate_items,
  insert_gate_statuses, list_gate_statuses,
}
use project_os_agentic_agile.Delivery.Gates.Statuses.{
  last_update, last_status, read_rows-last_status, upsert_all-last_status, gate_items-last_update,
}

-- The nine gates, and whether the release waits for a result of each.
abbrev pub gate_plan : (signing_required sbom_required github_enabled : Bool) → List (String × Bool)
gate_plan signing sbom github =
    ("QA_GATE", true)
    ∷ ("SOURCE_GATE", true)
    ∷ ("BUILD_GATE", true)
    ∷ ("PACKAGE_GATE", true)
    ∷ ("CHECKSUM_GATE", true)
    ∷ ("SBOM_GATE", sbom)
    ∷ ("SIGNATURE_GATE", signing)
    ∷ ("PUBLICATION_GATE", github)
    ∷ ("DELIVERY_GATE", true)
    ∷ []

-- A gate is settled by a result that lets the release pass, and without any where none is waited for.
abbrev pub settles : (needed : Bool) → Option GateStatus → Bool
settles needed none = not needed
settles needed (some GateStatus.passed) = true
settles needed (some GateStatus.skipped) = true
settles needed (some GateStatus.not_required) = true
settles needed (some GateStatus.pending) = false
settles needed (some GateStatus.failed) = false

abbrev pub open_gates : String → List GateUpdate → List (String × Bool) → List String
open_gates release results [] = []
open_gates release results ((g, needed) ∷ plan) =
    if settles needed (last_update release g results)
    then open_gates release results plan
    else g ∷ open_gates release results plan

abbrev pub is_nil : List String → Bool
is_nil [] = true
is_nil (_ ∷ _) = false

-- Whether the plan says of the gates what the dictionary begins with.
abbrev fits_start : Option GateStatus → Bool → Bool
fits_start none needed = false
fits_start o true = is_blocking o
fits_start o false = not (is_blocking o)

abbrev all_fit : Gates → List (String × Bool) → Bool
all_fit gates [] = true
all_fit gates ((g, needed) ∷ plan) =
    (fits_start (gates g) needed && any (str_eq g) release_gates) && all_fit gates plan

gate_plan-all_fit :
    (signing sbom github : Bool)
    → all_fit (initial_gate_statuses signing sbom github) (gate_plan signing sbom github) ≡ true
unfolding initial_gate_statuses
gate_plan-all_fit true true true = refl
gate_plan-all_fit true true false = refl
gate_plan-all_fit true false true = refl
gate_plan-all_fit true false false = refl
gate_plan-all_fit false true true = refl
gate_plan-all_fit false true false = refl
gate_plan-all_fit false false true = refl
gate_plan-all_fit false false false = refl

-- A gate blocks by its last result, and by the status that it began with where there is none.
is_blocking-settles :
    (needed : Bool) (result start before default : Option GateStatus)
    → fits_start start needed ≡ true
    → is_blocking (first_some (first_some result (first_some start before)) default)
      ≡ not (settles needed result)
is_blocking-settles needed result none before default h = cc
is_blocking-settles true none (some s) before default h = h
is_blocking-settles false none (some s) before default h = ground (arith, h)
is_blocking-settles needed (some GateStatus.passed) (some s) before default h = refl
is_blocking-settles needed (some GateStatus.skipped) (some s) before default h = refl
is_blocking-settles needed (some GateStatus.not_required) (some s) before default h = refl
is_blocking-settles needed (some GateStatus.pending) (some s) before default h = refl
is_blocking-settles needed (some GateStatus.failed) (some s) before default h = refl

abbrev names : List (String × Bool) → List String
names [] = []
names ((g, needed) ∷ plan) = g ∷ names plan

all-select : (p : String → Bool) (xs : List String) → all (λ g. not (p g)) xs ≡ is_nil (select p xs)
all-select p [] = refl
all-select p (x ∷ xs) = ground (arith, all-select p xs)

listed_step :
    (blocks settled : Bool) (g : String) {xs ys : List String}
    → blocks ≡ not settled
    → xs ≡ ys
    → (if blocks then g ∷ xs else xs) ≡ (if settled then ys else g ∷ ys)
listed_step blocks true g h e = rw h e
listed_step blocks false g h e = rw h (ap (λ l. g ∷ l) e)

fit_parts :
    (fits listed rest : Bool)
    → ((fits && listed) && rest) ≡ true
    → (fits ≡ true) × (listed ≡ true) × (rest ≡ true)
fit_parts fits listed rest h = (ground arith, ground arith, ground arith)

module _ (signing sbom github : Bool) (release : String) (table : List GateRow)
    (results : List GateUpdate) where
  abbrev gates_after : Gates
  gates_after =
      list_gate_statuses release
        (upsert_all results (insert_gate_statuses signing sbom github release table))

  -- The status of a gate is its last result, or what the release began with.
  status_after :
      (g : String)
      → any (str_eq g) release_gates ≡ true
      → gates_after g
        ≡ first_some
            (first_some (last_update release g results) (
              first_some
                (initial_gate_statuses signing sbom github g)
                (last_status release g table)))
            (all_pending g)
  unfolding list_gate_statuses insert_gate_statuses
  status_after g listed =
      let start = initial_gate_statuses signing sbom github in
      let items = gate_items release start release_gates in
      let begun = gate_items-last_update release g start release_gates in
      read_rows-last_status release g (upsert_all results (upsert_all items table)) all_pending
      ∙ ap (λ o. first_some o (all_pending g))
          (upsert_all-last_status release g results (upsert_all items table)
            ∙ ap (first_some (last_update release g results)) (
                upsert_all-last_status release g items table
                ∙ ap (λ o. first_some o (last_status release g table)) (begun ∙ rw listed refl)))

  select-open_gates :
      (plan : List (String × Bool))
      → all_fit (initial_gate_statuses signing sbom github) plan ≡ true
      → select (λ g. is_blocking (gates_after g)) (names plan) ≡ open_gates release results plan
  select-open_gates [] h = refl
  select-open_gates ((g, needed) ∷ plan) h =
      let start = initial_gate_statuses signing sbom github g in
      let result = last_update release g results in
      let (fits, listed, rest) =
        fit_parts (fits_start start needed) (any (str_eq g) release_gates)
          (all_fit (initial_gate_statuses signing sbom github) plan) h in
      listed_step (is_blocking (gates_after g)) (settles needed result) g
        (ap is_blocking (status_after g listed)
          ∙ is_blocking-settles needed result start (last_status release g table) (all_pending g)
              fits)
        (select-open_gates plan rest)

  -- A release that was inserted with its options, and any results of gates that were written afterwards,
  -- for it or another release, in any order: blocking_gates lists exactly those of the nine gates whose
  -- last result for this release is pending or failed, and those that have no result but need one, where
  -- SBOM_GATE, SIGNATURE_GATE and PUBLICATION_GATE need one only if the option asks for it; and
  -- all_required_gates_passed says True exactly when there is none.
  pub blocking_gates-open_gates :
      let gates =
        list_gate_statuses release
          (upsert_all results (insert_gate_statuses signing sbom github release table)) in
      let left = open_gates release results (gate_plan signing sbom github) in
      (blocking_gates gates ≡ left) × (all_required_gates_passed gates ≡ is_nil left)
  unfolding blocking_gates all_required_gates_passed
  blocking_gates-open_gates =
      let plan = gate_plan signing sbom github in
      let left = select-open_gates plan (gate_plan-all_fit signing sbom github) in
      (left, all-select (λ g. is_blocking (gates_after g)) release_gates ∙ ap is_nil left)
