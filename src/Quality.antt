-- ===== src/Quality.antt =====
-- qa_gate.py's facts, and the checks of an assurance verdict in assurance_verdict.py.
pub mod Reviewed
pub mod Rule
pub mod Gate
pub mod Counts
pub mod Verdict
use project_os_agentic_agile.Base.{
  ℕ, String, Bool, true, false, ◌&&◌, ◌||◌, not, List, [], ◌∷◌, ◌++◌, Option, none, some, str_eq,
  if◌then◌else◌, ◌==◌, select, find, length, truthy, coalesce, first_some, leb, order_by, upper,
  codes, same_codes,
}
use project_os_agentic_agile.Store.Schema.{Job, JobStatus, Db}
use project_os_agentic_agile.Store.Rows.{find_job}

-- The CHECK of migrations/028.
pub data EvidenceResult : Type 0 where
  pass fail stale_rejected pending inconclusive : EvidenceResult

-- The columns of qa_evidence that are read.
pub record QaEvidence : Type 0 where
  pub project_human_id : String
  pub assurance_job_id : Option ℕ
  pub candidate_git_sha : String
  pub assurance_role : String
  pub result : EvidenceResult
  pub run_id : Option String
  pub created_at : ℕ

-- One clause of the WHERE, where the argument is given.
abbrev pub asks : Option String → String → Bool
asks none value = true
asks (some s) value = str_eq value s

abbrev pub asks_run : Option String → Option String → Bool
asks_run none value = true
asks_run (some s) none = false
asks_run (some s) (some value) = str_eq value s

abbrev pub is_reviewed : String → Option String → Option String → QaEvidence → Bool
is_reviewed project_id candidate run_id e =
    str_eq e.project_human_id project_id
    && (asks (truthy candidate) e.candidate_git_sha && asks_run (truthy run_id) e.run_id)

-- Where a review is counted.
pub data Side : Type 0 where
  passed failed waiting undecided : Side

abbrev pub is_side : Side → Side → Bool
is_side Side.passed Side.passed = true
is_side Side.failed Side.failed = true
is_side Side.waiting Side.waiting = true
is_side Side.undecided Side.undecided = true
is_side _ _ = false

-- The branches of the loop. `pending`, the only other result, is tested before the job's status is.
unfoldable pub side_of : EvidenceResult → Side
side_of EvidenceResult.fail = Side.failed
side_of EvidenceResult.stale_rejected = Side.failed
side_of EvidenceResult.pass = Side.passed
side_of EvidenceResult.inconclusive = Side.undecided
side_of EvidenceResult.pending = Side.waiting

abbrev pub on_side : Side → List QaEvidence → List QaEvidence
on_side s rows = select (λ (e : QaEvidence). is_side s (side_of e.result)) rows

pub data QaGate : Type 0 where
  gate_failed gate_inconclusive gate_passed gate_pending : QaGate

abbrev pub no_rows : List QaEvidence → Bool
no_rows [] = true
no_rows (_ ∷ _) = false

-- The chain of tests on the four lists.
unfoldable pub gate_of : (total : ℕ) → (done bad open_reviews unsure : List QaEvidence) → QaGate
gate_of total done bad open_reviews unsure =
    if not (no_rows bad)
    then gate_failed
    else if not (no_rows unsure)
    then gate_inconclusive
    else if not (total == 0) && (no_rows open_reviews && (length done == total))
    then gate_passed
    else gate_pending

-- A count, which is None where there is no review.
abbrev pub count_or_none : ℕ → ℕ → Option ℕ
count_or_none total n = if total == 0 then none else some n

pub record QaFacts : Type 0 where
  pub reviews_total : Option ℕ
  pub reviews_completed : Option ℕ
  pub reviews_need_attention : Option ℕ
  pub reviews_pending : Option ℕ
  pub reviews_inconclusive : Option ℕ
  pub gate : QaGate
  pub candidate_git_sha : Option String
  pub run_id : Option String

unfoldable pub collect_qa_gate_facts :
    (project_id : String) → (candidate_git_sha run_id : Option String) → List QaEvidence → QaFacts
collect_qa_gate_facts project_id candidate_git_sha run_id evidence =
    let rows = select (is_reviewed project_id candidate_git_sha run_id) evidence in
    let total = length rows in
    let done = on_side Side.passed rows in
    let bad = on_side Side.failed rows in
    let open_reviews = on_side Side.waiting rows in
    let unsure = on_side Side.undecided rows in
    record {
      reviews_total = count_or_none total total;
      reviews_completed = count_or_none total (length done);
      reviews_need_attention = count_or_none total (length bad);
      reviews_pending = count_or_none total (length open_reviews);
      reviews_inconclusive = count_or_none total (length unsure);
      gate = gate_of total done bad open_reviews unsure;
      candidate_git_sha = candidate_git_sha;
      run_id = run_id;
    }

-- AssuranceResult, with the parts that are checked; `findings` is their number.
pub record AssuranceResult : Type 0 where
  pub verdict : String
  pub summary : String
  pub findings : ℕ
  pub candidate_id : String
  pub assurance_job_id : String
  pub assessor_role : String

-- The AssuranceValidationErrors, in the order of their tests.
pub data Invalid : Type 0 where
  invalid_verdict no_candidate candidate_mismatch job_mismatch role_mismatch no_findings : Invalid

pub data Validation : Type 0 where
  valid : Validation
  refused : Invalid → Validation

-- `assurance.source_candidate_sha or assurance.base_git_sha or ""`
abbrev pub expected_candidate : Job → String
expected_candidate j =
    coalesce (first_some (truthy j.source_candidate_sha) (truthy j.base_git_sha)) ""

abbrev pub is_valid_verdict : String → Bool
is_valid_verdict v = str_eq v "PASS" || str_eq v "FAIL" || str_eq v "INCONCLUSIVE"

unfoldable pub validate_assurance_result : AssuranceResult → Job → Validation
validate_assurance_result r j =
    if not (is_valid_verdict r.verdict)
    then refused invalid_verdict
    else if str_eq (expected_candidate j) ""
    then refused no_candidate
    else if not (str_eq r.candidate_id (expected_candidate j))
    then refused candidate_mismatch
    else if not (str_eq r.assurance_job_id j.human_id)
    then refused job_mismatch
    else if not (str_eq r.assessor_role j.queue)
    then refused role_mismatch
    else if str_eq r.verdict "FAIL" && ((r.findings == 0) && str_eq r.summary "")
    then refused no_findings
    else valid

-- The result that is recorded for a verdict, in whatever case its letters are; `none` stands for the
-- AssuranceValidationError.
unfoldable pub verdict_to_evidence_result : String → Option EvidenceResult
verdict_to_evidence_result v =
    let normalized = upper (codes v) in
    if same_codes normalized (codes "PASS")
    then some EvidenceResult.pass
    else if same_codes normalized (codes "FAIL")
    then some EvidenceResult.fail
    else if same_codes normalized (codes "INCONCLUSIVE")
    then some EvidenceResult.inconclusive
    else none
