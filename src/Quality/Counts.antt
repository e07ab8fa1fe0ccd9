-- ===== src/Quality/Counts.antt =====
-- The counts that collect_qa_gate_facts shows.
use project_os_agentic_agile.Base.{
  ℕ, ◌+◌, String, Bool, true, false, ◌&&◌, List, [], ◌∷◌, Option, none, some, ◌≡◌, ◌↔◌, ◌⊎◌, refl,
  sym, inl, inr, if◌then◌else◌, ◌==◌, select, length, count, arith, Bool-cases,
}
use project_os_agentic_agile.Quality.{
  EvidenceResult, QaEvidence, is_reviewed, Side, side_of, on_side, collect_qa_gate_facts,
}
use project_os_agentic_agile.Quality.Reviewed.{Concerns, is_reviewed-Concerns}

abbrev pub result_code : EvidenceResult → ℕ
result_code EvidenceResult.pass = 0
result_code EvidenceResult.fail = 1
result_code EvidenceResult.stale_rejected = 2
result_code EvidenceResult.pending = 3
result_code EvidenceResult.inconclusive = 4

-- How many rows pass a test and have that result.
abbrev pub number_of : (QaEvidence → Bool) → EvidenceResult → List QaEvidence → ℕ
number_of p r evidence = count (λ e. p e && (result_code e.result == result_code r)) evidence

-- A count, which is not shown where there is no review.
abbrev pub shown : (reviews n : ℕ) → Option ℕ
shown reviews n = if reviews == 0 then none else some n

both_ways : (a b : Bool) → ((a ≡ true) → b ≡ true) → ((b ≡ true) → a ≡ true) → a ≡ b
both_ways true b f g = sym (f refl)
both_ways false true f g = g refl
both_ways false false f g = refl

EvidenceResult-cases :
    (r : EvidenceResult)
    → (r ≡ EvidenceResult.pass)
      ⊎ ((r ≡ EvidenceResult.fail)
          ⊎ ((r ≡ EvidenceResult.stale_rejected)
              ⊎ ((r ≡ EvidenceResult.pending) ⊎ (r ≡ EvidenceResult.inconclusive))))
EvidenceResult-cases EvidenceResult.pass = inl refl
EvidenceResult-cases EvidenceResult.fail = inr (inl refl)
EvidenceResult-cases EvidenceResult.stale_rejected = inr (inr (inl refl))
EvidenceResult-cases EvidenceResult.pending = inr (inr (inr (inl refl)))
EvidenceResult-cases EvidenceResult.inconclusive = inr (inr (inr (inr refl)))

module _ (p : QaEvidence → Bool) (asked : QaEvidence → Bool)
    (same : (e : QaEvidence) → asked e ≡ p e) where
  length-count : (evidence : List QaEvidence) → length (select asked evidence) ≡ count p evidence
  length-count [] = refl
  length-count (e ∷ es) = ground (arith, same e, length-count es)

  on_side-number_of :
      (evidence : List QaEvidence)
      → (length (on_side Side.passed (select asked evidence))
          ≡ number_of p EvidenceResult.pass evidence)
        × (length (on_side Side.failed (select asked evidence))
            ≡ number_of p EvidenceResult.fail evidence
              + number_of p EvidenceResult.stale_rejected evidence)
        × (length (on_side Side.waiting (select asked evidence))
            ≡ number_of p EvidenceResult.pending evidence)
        × (length (on_side Side.undecided (select asked evidence))
            ≡ number_of p EvidenceResult.inconclusive evidence)
  unfolding side_of
  on_side-number_of [] = (refl, omega arith, refl, refl)
  on_side-number_of (e ∷ es) =
      let (a, b, c, d) = on_side-number_of es in
      elim (Bool-cases (p e)) [
        | inr t ↦ rw (same e, t) (a, b, c, d)
        | inl t ↦
            rw (same e, t)
              (elim (EvidenceResult-cases e.result) [
                | inl q ↦
                    rw q (omega (arith, a), omega (arith, b), omega (arith, c), omega (arith, d))
                | inr (inl q) ↦
                    rw q (omega (arith, a), omega (arith, b), omega (arith, c), omega (arith, d))
                | inr (inr (inl q)) ↦
                    rw q (omega (arith, a), omega (arith, b), omega (arith, c), omega (arith, d))
                | inr (inr (inr (inl q))) ↦
                    rw q (omega (arith, a), omega (arith, b), omega (arith, c), omega (arith, d))
                | inr (inr (inr (inr q))) ↦
                    rw q (omega (arith, a), omega (arith, b), omega (arith, c), omega (arith, d))
              ])
      ]

module _ (pid : String) (candidate run_id : Option String) (p : QaEvidence → Bool)
    (decides : (e : QaEvidence) → (p e ≡ true) ↔ Concerns pid candidate run_id e)
    (evidence : List QaEvidence) where
  asked-same : (e : QaEvidence) → is_reviewed pid candidate run_id e ≡ p e
  asked-same e =
      let (to, from) = is_reviewed-Concerns pid candidate run_id e in
      both_ways (is_reviewed pid candidate run_id e) (p e) (λ h. (decides e).1 (to h))
        (λ h. from ((decides e).0 h))

  -- For any test that decides which reviews the call asks for: the counts are those of the reviews that
  -- pass it, in all and with the result pass, with fail or stale_rejected, with pending and with
  -- inconclusive; and all five are None where there is no such review.
  pub collect_qa_gate_facts-number_of :
      let facts = collect_qa_gate_facts pid candidate run_id evidence in
      let reviews = count p evidence in
      (facts.reviews_total ≡ shown reviews reviews)
      × (facts.reviews_completed ≡ shown reviews (number_of p EvidenceResult.pass evidence))
      × (facts.reviews_need_attention
          ≡ shown reviews (
              number_of p EvidenceResult.fail evidence
              + number_of p EvidenceResult.stale_rejected evidence))
      × (facts.reviews_pending ≡ shown reviews (number_of p EvidenceResult.pending evidence))
      × (facts.reviews_inconclusive
          ≡ shown reviews (number_of p EvidenceResult.inconclusive evidence))
  unfolding collect_qa_gate_facts
  collect_qa_gate_facts-number_of =
      let asked = is_reviewed pid candidate run_id in
      let total = length-count p asked asked-same evidence in
      let (a, b, c, d) = on_side-number_of p asked asked-same evidence in
      (
        rw total refl,
        rw (total, a) refl,
        rw (total, b) refl,
        rw (total, c) refl,
        rw (total, d) refl,
      )
