-- ===== src/Quality/Gate.antt =====
-- The QA gate, by the results of the reviews that the call asks for.
use project_os_agentic_agile.Base.{
  ap, String, Bool, ◌&&◌, not, List, [], ◌∷◌, Option, ◌≡◌, ◌⊎◌, refl, inl, inr, select, all, any,
  arith, Bool-cases, true, false, ◌↔◌, In, In-select, In-select_intro, any-In, all-In, sym, ◌∙◌,
}
use project_os_agentic_agile.Quality.{
  QaEvidence, is_reviewed, Side, is_side, side_of, gate_failed, gate_inconclusive, gate_passed,
  no_rows, collect_qa_gate_facts, EvidenceResult,
}
use project_os_agentic_agile.Quality.Reviewed.{Concerns, is_reviewed-Concerns}
use project_os_agentic_agile.Quality.Rule.{falls_on, gate_of-gate_rule, rule-tests}

abbrev pub IsFailing : EvidenceResult → Type 0
IsFailing r = (r ≡ EvidenceResult.fail) ⊎ (r ≡ EvidenceResult.stale_rejected)

pub side_of-IsFailing :
    (r : EvidenceResult) → (is_side Side.failed (side_of r) ≡ true) ↔ IsFailing r
unfolding side_of
side_of-IsFailing EvidenceResult.fail = (λ h. inl refl, λ h. refl)
side_of-IsFailing EvidenceResult.stale_rejected = (λ h. inr refl, λ h. refl)
side_of-IsFailing EvidenceResult.pass = (λ h. cc, λ h. elim h [ inl q ↦ cc | inr q ↦ cc ])
side_of-IsFailing EvidenceResult.pending = (λ h. cc, λ h. elim h [ inl q ↦ cc | inr q ↦ cc ])
side_of-IsFailing EvidenceResult.inconclusive = (λ h. cc, λ h. elim h [ inl q ↦ cc | inr q ↦ cc ])

pub side_of-inconclusive :
    (r : EvidenceResult)
    → (is_side Side.undecided (side_of r) ≡ true) ↔ (r ≡ EvidenceResult.inconclusive)
unfolding side_of
side_of-inconclusive EvidenceResult.inconclusive = (λ h. refl, λ h. refl)
side_of-inconclusive EvidenceResult.fail = (λ h. cc, λ h. cc)
side_of-inconclusive EvidenceResult.stale_rejected = (λ h. cc, λ h. cc)
side_of-inconclusive EvidenceResult.pass = (λ h. cc, λ h. cc)
side_of-inconclusive EvidenceResult.pending = (λ h. cc, λ h. cc)

side_of-pass :
    (r : EvidenceResult) → (is_side Side.passed (side_of r) ≡ true) ↔ (r ≡ EvidenceResult.pass)
unfolding side_of
side_of-pass EvidenceResult.pass = (λ h. refl, λ h. refl)
side_of-pass EvidenceResult.inconclusive = (λ h. cc, λ h. cc)
side_of-pass EvidenceResult.fail = (λ h. cc, λ h. cc)
side_of-pass EvidenceResult.stale_rejected = (λ h. cc, λ h. cc)
side_of-pass EvidenceResult.pending = (λ h. cc, λ h. cc)

side_of_pass : side_of EvidenceResult.pass ≡ Side.passed
unfolding side_of
side_of_pass = refl

and_left : (b c : Bool) → (b && c) ≡ true → b ≡ true
and_left b c h = ground arith

and_right : (b c : Bool) → (b && c) ≡ true → c ≡ true
and_right b c h = ground arith

no_rows-In : (rows : List QaEvidence) → (not (no_rows rows) ≡ true) ↔ ((e : QaEvidence) × In e rows)
no_rows-In [] = (λ h. cc, λ (e, m). absurd m)
no_rows-In (e ∷ rows) = (λ h. (e, inl refl), λ h. refl)

module _ (pid : String) (candidate run_id : Option String) (evidence : List QaEvidence) where
  -- A review that the call asks for, with such a result.
  abbrev pub Found : (EvidenceResult → Type 0) → Type 0
  Found P = (e : QaEvidence) × In e evidence × Concerns pid candidate run_id e × P e.result

  abbrev rows : List QaEvidence
  rows = select (is_reviewed pid candidate run_id) evidence

  In-rows : (e : QaEvidence) → In e rows ↔ (In e evidence × Concerns pid candidate run_id e)
  In-rows e = (
    λ m.
        let (n, t) = In-select e (is_reviewed pid candidate run_id) evidence m in
        (n, (is_reviewed-Concerns pid candidate run_id e).0 t),
    λ (m, c).
        In-select_intro e (is_reviewed pid candidate run_id) evidence m
          ((is_reviewed-Concerns pid candidate run_id e).1 c),
  )

  pub any-Found :
      (s : Side) (P : EvidenceResult → Type 0)
      → ((r : EvidenceResult) → (is_side s (side_of r) ≡ true) ↔ P r)
      → (any (falls_on s) rows ≡ true) ↔ Found P
  any-Found s P means = (
    λ h.
        let (e, m, t) = (any-In (falls_on s) rows).0 h in
        let (n, c) = (In-rows e).0 m in (e, n, c, (means e.result).0 t),
    λ (e, n, c, t). (any-In (falls_on s) rows).1 (e, (In-rows e).1 (n, c), (means e.result).1 t),
  )

  pub nothing-Found :
      (s : Side) (P : EvidenceResult → Type 0)
      → ((r : EvidenceResult) → (is_side s (side_of r) ≡ true) ↔ P r)
      → (any (falls_on s) rows ≡ false) ↔ (¬ Found P)
  nothing-Found s P means = (
    λ h f. let on = (any-Found s P means).1 f in let k : true ≡ false = sym on ∙ h in cc,
    λ no. elim (Bool-cases (any (falls_on s) rows)) [
      | inl t ↦ absurd (no ((any-Found s P means).0 t))
      | inr t ↦ t
    ],
  )

  -- There are reviews, and all passed.
  abbrev pub AllPassed : Type 0
  AllPassed =
      Found (λ r. Unit {0})
      × ((e : QaEvidence)
          → In e evidence
          → Concerns pid candidate run_id e
          → e.result ≡ EvidenceResult.pass)

  abbrev passes : Bool
  passes = not (no_rows rows) && all (falls_on Side.passed) rows

  passes-AllPassed : (passes ≡ true) ↔ AllPassed
  passes-AllPassed = (
    λ h.
        let (e, m) = (no_rows-In rows).0 (and_left _ (all (falls_on Side.passed) rows) h) in
        let (n, c) = (In-rows e).0 m in
        let every = (all-In (falls_on Side.passed) rows).0 (and_right (not (no_rows rows)) _ h) in
        ((e, n, c, tt), λ x k d. (side_of-pass x.result).0 (every x ((In-rows x).1 (k, d)))),
    λ ((e, n, c, u), every).
        let some_row = (no_rows-In rows).1 (e, (In-rows e).1 (n, c)) in
        let all_rows =
          (all-In (falls_on Side.passed) rows).1
            (λ x m. let (k, d) = (In-rows x).0 m in (side_of-pass x.result).1 (every x k d)) in
        rw (some_row, all_rows) refl,
  )

  -- Where all passed, no review has another result.
  AllPassed-none :
      (s : Side) → is_side s Side.passed ≡ false → AllPassed → any (falls_on s) rows ≡ false
  AllPassed-none s other (found, every) = elim (Bool-cases (any (falls_on s) rows)) [
    | inl t ↦
        let (e, m, on) = (any-In (falls_on s) rows).0 t in
        let (n, c) = (In-rows e).0 m in
        let passed = every e n c in
        let side : side_of e.result ≡ Side.passed = ap side_of passed ∙ side_of_pass in
        let k : true ≡ false = sym on ∙ ap (is_side s) side ∙ other in cc
    | inr t ↦ t
  ]

  -- The gate of collect_qa_gate_facts, by the reviews of the project, and of the candidate and the run where
  -- these are given and not empty: it is FAILED exactly if the result of one is fail or stale_rejected;
  -- INCONCLUSIVE exactly if none is, and one is inconclusive; PASSED exactly if there are reviews and each
  -- result is pass; and so PENDING in every other case.
  pub collect_qa_gate_facts-Found :
      let gate = (collect_qa_gate_facts pid candidate run_id evidence).gate in
      ((gate ≡ gate_failed) ↔ Found IsFailing)
      × ((gate ≡ gate_inconclusive)
          ↔ ((¬ Found IsFailing) × Found (λ r. r ≡ EvidenceResult.inconclusive)))
      × ((gate ≡ gate_passed) ↔ AllPassed)
  unfolding collect_qa_gate_facts
  collect_qa_gate_facts-Found =
      let same = gate_of-gate_rule rows in
      let (f, i, p) =
        rule-tests (any (falls_on Side.failed) rows) (any (falls_on Side.undecided) rows) passes in
      let bad = any-Found Side.failed IsFailing side_of-IsFailing in
      let fine = nothing-Found Side.failed IsFailing side_of-IsFailing in
      let unsure =
        any-Found Side.undecided (λ r. r ≡ EvidenceResult.inconclusive) side_of-inconclusive in
      (
        (λ h. bad.0 (f.0 (sym same ∙ h)), λ x. same ∙ f.1 (bad.1 x)),
        (
          λ h. let (a, b) = i.0 (sym same ∙ h) in (fine.0 a, unsure.0 b),
          λ (a, b). same ∙ i.1 (fine.1 a, unsure.1 b),
        ),
        (
          λ h. let (a, b, c) = p.0 (sym same ∙ h) in passes-AllPassed.0 c,
          λ x.
              same
              ∙ p.1 (
                AllPassed-none Side.failed refl x,
                AllPassed-none Side.undecided refl x,
                passes-AllPassed.1 x,
              ),
        ),
      )
