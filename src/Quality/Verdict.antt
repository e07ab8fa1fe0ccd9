-- ===== src/Quality/Verdict.antt =====
-- What an accepted assurance result does to the gate, once it is recorded.
use project_os_agentic_agile.Base.{
  String, true, List, ◌∷◌, Option, some, ◌≡◌, ◌⊎◌, refl, inl, inr, str_eq, eq_iff, any, select,
  arith, Bool-cases,
}
use project_os_agentic_agile.Store.Schema.{Job}
use project_os_agentic_agile.Quality.{
  EvidenceResult, QaEvidence, is_reviewed, Side, gate_failed, gate_inconclusive,
  collect_qa_gate_facts, AssuranceResult, valid, is_valid_verdict, validate_assurance_result,
  verdict_to_evidence_result,
}
use project_os_agentic_agile.Quality.Reviewed.{Concerns}
use project_os_agentic_agile.Quality.Rule.{falls_on}
use project_os_agentic_agile.Quality.Gate.{
  IsFailing, side_of-IsFailing, any-Found, nothing-Found, collect_qa_gate_facts-Found,
}

valid_verdict :
    (r : AssuranceResult) (j : Job)
    → validate_assurance_result r j ≡ valid
    → is_valid_verdict r.verdict ≡ true
unfolding validate_assurance_result
valid_verdict r j h = elim (Bool-cases (is_valid_verdict r.verdict)) [
  | inl t ↦ t
  | inr t ↦ cc (rw t at h)
]

verdict_cases :
    (v : String) → is_valid_verdict v ≡ true → (v ≡ "PASS") ⊎ ((v ≡ "FAIL") ⊎ (v ≡ "INCONCLUSIVE"))
verdict_cases v h = elim (Bool-cases (str_eq v "PASS")) [
  | inl a ↦ inl ((eq_iff v "PASS").0 a)
  | inr a ↦ elim (Bool-cases (str_eq v "FAIL")) [
    | inl b ↦ inr (inl ((eq_iff v "FAIL").0 b))
    | inr b ↦ inr (inr ((eq_iff v "INCONCLUSIVE").0 (ground (arith, h, a, b))))
  ]
]

-- The outcome of recording a result.
abbrev pub Recorded :
    String → Option String → Option String → List QaEvidence → QaEvidence → AssuranceResult → Type 0
Recorded pid candidate run_id others row r =
    (x : EvidenceResult) × (verdict_to_evidence_result r.verdict ≡ some x)
    × (let gate =
          (collect_qa_gate_facts pid candidate run_id (record row { result = x } ∷ others)).gate in
        ((r.verdict ≡ "PASS") × (x ≡ EvidenceResult.pass))
        ⊎ (((r.verdict ≡ "FAIL") × (x ≡ EvidenceResult.fail) × (gate ≡ gate_failed))
            ⊎ ((r.verdict ≡ "INCONCLUSIVE")
                × (x ≡ EvidenceResult.inconclusive)
                × ((gate ≡ gate_failed) ⊎ (gate ≡ gate_inconclusive)))))

recorded_fail : verdict_to_evidence_result "FAIL" ≡ some EvidenceResult.fail
unfolding verdict_to_evidence_result
recorded_fail = refl

recorded_pass : verdict_to_evidence_result "PASS" ≡ some EvidenceResult.pass
unfolding verdict_to_evidence_result
recorded_pass = refl

recorded_inconclusive : verdict_to_evidence_result "INCONCLUSIVE" ≡ some EvidenceResult.inconclusive
unfolding verdict_to_evidence_result
recorded_inconclusive = refl

-- A result that validate_assurance_result accepts can be recorded as evidence, whatever other evidence
-- there is: its verdict is PASS, FAIL or INCONCLUSIVE and is recorded as the result of this name. Recorded
-- in a row that the gate's call asks for, a FAIL makes the gate FAILED, and an INCONCLUSIVE makes it
-- FAILED or INCONCLUSIVE.
pub validate_assurance_result-Recorded :
    (r : AssuranceResult) (j : Job) (pid : String) (candidate run_id : Option String)
    (row : QaEvidence) (others : List QaEvidence)
    → validate_assurance_result r j ≡ valid
    → Concerns pid candidate run_id row
    → Recorded pid candidate run_id others row r
validate_assurance_result-Recorded r j pid candidate run_id row others accepted (p, c, u) =
    elim (verdict_cases r.verdict (valid_verdict r j accepted)) [
      | inl q ↦ (EvidenceResult.pass, rw q recorded_pass, inl (q, refl))
      | inr (inl q) ↦
          let new = record row { result = EvidenceResult.fail } in
          let (f, i, g) = collect_qa_gate_facts-Found pid candidate run_id (new ∷ others) in
          (
            EvidenceResult.fail,
            rw q recorded_fail,
            inr (inl (q, refl, f.1 (new, inl refl, (p, c, u), inl refl))),
          )
      | inr (inr q) ↦
          let new = record row { result = EvidenceResult.inconclusive } in
          let evidence = new ∷ others in
          let (f, i, g) = collect_qa_gate_facts-Found pid candidate run_id evidence in
          let rows = select (is_reviewed pid candidate run_id) evidence in
          (
            EvidenceResult.inconclusive,
            rw q recorded_inconclusive,
            inr (
                inr (
                  q,
                  refl,
                  elim (Bool-cases (any (falls_on Side.failed) rows)) [
                    | inl t ↦ inl (
                        f.1 (
                          (any-Found pid candidate run_id evidence Side.failed IsFailing
                              side_of-IsFailing).0
                            t))
                    | inr t ↦ inr (
                        i.1 (
                          (nothing-Found pid candidate run_id evidence Side.failed IsFailing
                                side_of-IsFailing).0
                              t,
                          (new, inl refl, (p, c, u), refl),
                        ))
                  ],
                )),
          )
    ]
