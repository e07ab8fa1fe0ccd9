-- ===== src/Remediation.antt =====
-- finding_routing.py and remediation_capability.py: who owns a finding, who works on it, and the groups
-- of findings that become one work item each. A key that a finding lacks is the empty text.
pub mod Groups
use project_os_agentic_agile.Base.{
  ℕ, String, Bool, true, false, ◌&&◌, ◌||◌, not, List, [], ◌∷◌, ◌++◌, Option, none, some, str_eq,
  if◌then◌else◌, ◌==◌, leb, any, codes, same_codes, upper, lower,
}

pub record Finding : Type 0 where
  pub finding_id : String
  pub category : String
  pub source_gate_or_review : String
  pub assurance_role : String
  pub actual_condition : String
  pub recommended_owner_role : String

abbrev pub or_else : String → String → String
or_else a b = if str_eq a "" then b else a

-- Whether the text goes on with the word, and whether it has it.
abbrev pub goes_on : List ℕ → List ℕ → Bool
goes_on [] text = true
goes_on (w ∷ ws) [] = false
goes_on (w ∷ ws) (c ∷ text) = (w == c) && goes_on ws text

abbrev pub has_word : List ℕ → List ℕ → Bool
has_word word [] = goes_on word []
has_word word (c ∷ text) = if goes_on word (c ∷ text) then true else has_word word text

abbrev pub says : List ℕ → String → Bool
says text word = has_word (codes word) text

abbrev pub is_digit_code : ℕ → Bool
is_digit_code c = leb 48 c && leb c 57

-- \d*$ ; `$` matches before a last newline too.
abbrev pub ends_digits : List ℕ → Bool
ends_digits [] = true
ends_digits (c ∷ []) = is_digit_code c || (c == 10)
ends_digits (c ∷ d ∷ s) = is_digit_code c && ends_digits (d ∷ s)

abbrev pub after_word : List ℕ → List ℕ → Option (List ℕ)
after_word [] text = some text
after_word (w ∷ ws) [] = none
after_word (w ∷ ws) (c ∷ text) = if w == c then after_word ws text else none

abbrev pub is_number_text : Option (List ℕ) → Bool
is_number_text none = false
is_number_text (some []) = false
is_number_text (some (c ∷ s)) = is_digit_code c && ends_digits s

-- _LEGACY_PREFIX_RE
abbrev pub is_legacy_role : List ℕ → Bool
is_legacy_role role = is_number_text (after_word (codes "ASSURANCE_") role)

-- _ASSURANCE_ROLE_CATEGORY
abbrev pub role_category : List ℕ → Option String
role_category role =
    if same_codes role (codes "ASSURANCE_FUNCTIONAL")
    then some "SOURCE_CODE_DEFECT"
    else if same_codes role (codes "ASSURANCE_INTEGRATION")
    then some "SOURCE_CODE_DEFECT"
    else if same_codes role (codes "ASSURANCE_SECURITY")
    then some "SECURITY_FINDING"
    else if same_codes role (codes "ASSURANCE_QUALITY")
    then some "TEST_INFRASTRUCTURE"
    else none

abbrev pub condition_category : List ℕ → List ℕ → String
condition_category role lowered =
    if says lowered "security" || says lowered "vuln"
    then "SECURITY_FINDING"
    else if says lowered "architecture" || says lowered "design"
    then "ARCHITECTURE_VIOLATION"
    else if says lowered "package" || (says lowered "installer" || says lowered "artifact")
    then "PACKAGING_DEFECT"
    else if says lowered "delivery.json" || says lowered "configuration"
    then "DELIVERY_CONFIGURATION"
    else if says lowered "release"
    then "RELEASE_CONFIGURATION"
    else if says lowered "documentation" || says lowered "governance"
    then "DOCUMENTATION_GOVERNANCE"
    else if is_legacy_role role
    then "SOURCE_CODE_DEFECT"
    else "UNKNOWN"

unfoldable pub classify_finding_category : (assurance_role actual_condition : String) → String
classify_finding_category assurance_role actual_condition =
    let role = upper (codes assurance_role) in
    elim (role_category role) [
      | some c ↦ c
      | none ↦ condition_category role (lower (codes actual_condition))
    ]

-- _CATEGORY_TO_AGENT, whose default is the PM.
abbrev pub category_agent : String → String
category_agent c =
    if str_eq c "SOURCE_CODE_DEFECT" || str_eq c "TEST_INFRASTRUCTURE"
    then "developer-agent"
    else if str_eq c "ARCHITECTURE_VIOLATION"
    then "architecture-agent"
    else if str_eq c "SECURITY_FINDING"
    then "security-agent"
    else if str_eq c "PACKAGING_DEFECT" || str_eq c "DELIVERY_CONFIGURATION"
    then "delivery-agent"
    else if str_eq c "RELEASE_CONFIGURATION"
    then "release-agent"
    else "pm-agent"

-- The mapping of recommended roles.
abbrev pub recommended_agent : List ℕ → Option String
recommended_agent r =
    if same_codes r (codes "developer")
    then some "developer-agent"
    else if same_codes r (codes "delivery")
    then some "delivery-agent"
    else if same_codes r (codes "architecture")
    then some "architecture-agent"
    else if same_codes r (codes "security")
    then some "security-agent"
    else if same_codes r (codes "qa")
    then some "qa-agent"
    else if same_codes r (codes "release")
    then some "release-agent"
    else none

-- The reason that is given, by what its text names.
pub data Reason : Type 0 where
  qa_recommended : (recommended : List ℕ) → (category : String) → Reason
  unknown_category : Reason
  routed : (category agent : String) → Reason
  executes_for : (owner executor : String) → Reason

abbrev pub finding_category : Finding → String
finding_category f = or_else f.category (
    classify_finding_category (or_else f.source_gate_or_review f.assurance_role) f.actual_condition)

-- The agent of route_finding_to_agent, and its reason.
unfoldable pub route_finding_to_agent : Finding → String × Reason
route_finding_to_agent f =
    let category = finding_category f in
    let recommended = lower (codes f.recommended_owner_role) in
    elim (recommended_agent recommended) [
      | some agent ↦ (agent, qa_recommended recommended category)
      | none ↦
          if str_eq category "UNKNOWN"
          then ("pm-agent", unknown_category)
          else (category_agent category, routed category (category_agent category))
    ]

-- The agent of _EXECUTION_CAPABILITY, whose queue is DELIVERY everywhere.
abbrev pub executor_of : String → String
executor_of c =
    if str_eq c "PACKAGING_DEFECT" || str_eq c "DELIVERY_CONFIGURATION"
    then "delivery-agent"
    else if str_eq c "RELEASE_CONFIGURATION"
    then "release-agent"
    else "developer-agent"

pub record Assignment : Type 0 where
  pub owner : String
  pub assigned_agent : String
  pub execution_queue : String
  pub reason : Reason

abbrev pub is_advised : (category : String) → Bool
is_advised category = str_eq category "SECURITY_FINDING" || str_eq category "ARCHITECTURE_VIOLATION"

abbrev pub assign_agent : (category owner : String) → String
assign_agent category owner =
    if is_advised category
    then executor_of category
    else if str_eq owner "delivery-agent" || str_eq owner "release-agent"
    then owner
    else executor_of category

unfoldable pub resolve_remediation_execution : Finding → Assignment
resolve_remediation_execution f =
    let (owner, reason) = route_finding_to_agent f in
    let category = or_else f.category "UNKNOWN" in
    record {
      owner = owner;
      assigned_agent = assign_agent category owner;
      execution_queue = "DELIVERY";
      reason = if is_advised category then executes_for owner (executor_of category) else reason;
    }

-- A finding with its owner, and a bucket of them.
pub record Owned : Type 0 where
  pub finding : Finding
  pub finding_owner : String

pub record Group : Type 0 where
  pub assigned_agent : String
  pub execution_queue : String
  pub items : List Owned
  pub reason : Reason

abbrev pub is_bucket : String → String → Group → Bool
is_bucket agent queue b = str_eq b.assigned_agent agent && str_eq b.execution_queue queue

-- buckets.setdefault(key, []).append(item) and reasons.setdefault(key, reason)
unfoldable pub append_to : String → String → Reason → Owned → List Group → List Group
append_to agent queue reason item [] =
    record { assigned_agent = agent; execution_queue = queue; items = item ∷ []; reason = reason }
    ∷ []
append_to agent queue reason item (b ∷ bs) =
    let rest = append_to agent queue reason item bs in
    if is_bucket agent queue b then record b { items = b.items ++ item ∷ [] } ∷ bs else b ∷ rest

abbrev pub own : Finding → Owned
own f = record { finding = f; finding_owner = (resolve_remediation_execution f).owner }

-- The loop over the findings, into the buckets.
unfoldable pub group_into : List Group → List Finding → List Group
group_into buckets [] = buckets
group_into buckets (f ∷ fs) =
    let a = resolve_remediation_execution f in
    group_into (append_to a.assigned_agent a.execution_queue a.reason (own f) buckets) fs

unfoldable pub group_findings_for_remediation : List Finding → List Group
group_findings_for_remediation findings = group_into [] findings
