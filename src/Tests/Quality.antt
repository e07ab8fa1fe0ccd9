-- ===== src/Tests/Quality.antt =====
-- Reviews, a verdict and findings at concrete input.
use project_os_agentic_agile.Base.{
  ◌+◌, String, true, List, [], ◌∷◌, map, none, some, ◌≡◌, select, Bool, ◌↔◌, count, inr, refl,
}
use project_os_agentic_agile.Tests.{first_job}
use project_os_agentic_agile.Store.Schema.{Job}
use project_os_agentic_agile.Quality.{
  EvidenceResult, QaEvidence, is_reviewed, gate_failed, gate_inconclusive, gate_passed,
  collect_qa_gate_facts, AssuranceResult, valid, validate_assurance_result,
  verdict_to_evidence_result,
}
use project_os_agentic_agile.Quality.Reviewed.{is_reviewed-Concerns}
use project_os_agentic_agile.Quality.Gate.{Found, AllPassed, IsFailing, collect_qa_gate_facts-Found}
use project_os_agentic_agile.Quality.Counts.{shown, number_of, collect_qa_gate_facts-number_of}
use project_os_agentic_agile.Quality.Verdict.{Recorded, validate_assurance_result-Recorded}
use project_os_agentic_agile.Remediation.{Finding, own, group_findings_for_remediation}
use project_os_agentic_agile.Remediation.Groups.{
  items_of, is_for, are_distinct, group_findings_for_remediation-items_of,
}

abbrev review : EvidenceResult → QaEvidence
review result = record {
  project_human_id = "PRJ-1";
  assurance_job_id = some 1;
  candidate_git_sha = "abc";
  assurance_role = "ASSURANCE_FUNCTIONAL";
  result = result;
  run_id = some "RUN-1";
  created_at = 1;
}

abbrev reviews : List QaEvidence
reviews = review EvidenceResult.pass ∷ review EvidenceResult.inconclusive ∷ []

collect_qa_gate_facts-Found_example :
    let gate = (collect_qa_gate_facts "PRJ-1" (some "abc") none reviews).gate in
    ((gate ≡ gate_failed) ↔ Found "PRJ-1" (some "abc") none reviews IsFailing)
    × ((gate ≡ gate_inconclusive) ↔ (
        (¬ Found "PRJ-1" (some "abc") none reviews IsFailing)
        × Found "PRJ-1" (some "abc") none reviews (λ r. r ≡ EvidenceResult.inconclusive)))
    × ((gate ≡ gate_passed) ↔ AllPassed "PRJ-1" (some "abc") none reviews)
collect_qa_gate_facts-Found_example = collect_qa_gate_facts-Found "PRJ-1" (some "abc") none reviews

abbrev asked : QaEvidence → Bool
asked = is_reviewed "PRJ-1" (some "abc") none

collect_qa_gate_facts-number_of_example :
    let facts = collect_qa_gate_facts "PRJ-1" (some "abc") none reviews in
    let number = count asked reviews in
    (facts.reviews_total ≡ shown number number)
    × (facts.reviews_completed ≡ shown number (number_of asked EvidenceResult.pass reviews))
    × (facts.reviews_need_attention
        ≡ shown number (
            number_of asked EvidenceResult.fail reviews
            + number_of asked EvidenceResult.stale_rejected reviews))
    × (facts.reviews_pending ≡ shown number (number_of asked EvidenceResult.pending reviews))
    × (facts.reviews_inconclusive
        ≡ shown number (number_of asked EvidenceResult.inconclusive reviews))
collect_qa_gate_facts-number_of_example =
    collect_qa_gate_facts-number_of "PRJ-1" (some "abc") none asked
      (is_reviewed-Concerns "PRJ-1" (some "abc") none) reviews

abbrev verdict : AssuranceResult
verdict = record {
  verdict = "FAIL";
  summary = "";
  findings = 1;
  candidate_id = "abc";
  assurance_job_id = "JOB-1";
  assessor_role = "implementation";
}

abbrev job_with_candidate : Job
job_with_candidate = record first_job { source_candidate_sha = some "abc" }

accepted : validate_assurance_result verdict job_with_candidate ≡ valid
unfolding validate_assurance_result
accepted = refl

validate_assurance_result-Recorded_example :
    Recorded "PRJ-1" (some "abc") none reviews (review EvidenceResult.pending) verdict
validate_assurance_result-Recorded_example =
    validate_assurance_result-Recorded verdict job_with_candidate "PRJ-1" (some "abc") none
      (review EvidenceResult.pending) reviews accepted (refl, inr refl, tt)

in_lower_case : verdict_to_evidence_result "pass" ≡ some EvidenceResult.pass
unfolding verdict_to_evidence_result
in_lower_case = refl

abbrev finding : String → String → Finding
finding id category = record {
  finding_id = id;
  category = category;
  source_gate_or_review = "";
  assurance_role = "";
  actual_condition = "";
  recommended_owner_role = "";
}

abbrev findings : List Finding
findings =
    finding "F1" "SECURITY_FINDING"
    ∷ finding "F2" "PACKAGING_DEFECT"
    ∷ finding "F3" "SOURCE_CODE_DEFECT"
    ∷ []

group_findings_for_remediation-items_of_example :
    (items_of "developer-agent" "DELIVERY" (group_findings_for_remediation findings)
      ≡ map own (select (is_for "developer-agent" "DELIVERY") findings))
    × (are_distinct (group_findings_for_remediation findings) ≡ true)
group_findings_for_remediation-items_of_example =
    group_findings_for_remediation-items_of "developer-agent" "DELIVERY" findings
