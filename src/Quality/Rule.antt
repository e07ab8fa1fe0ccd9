-- ===== src/Quality/Rule.antt =====
-- The chain of tests of the QA gate, as one rule on the reviews.
use project_os_agentic_agile.Base.{
  ◌+◌, Bool, ◌&&◌, not, List, [], ◌∷◌, ◌≡◌, ◌⊎◌, refl, inl, inr, if◌then◌else◌, ◌==◌, length, all,
  any, arith, true, false, ◌↔◌,
}
use project_os_agentic_agile.Quality.{
  QaEvidence, Side, is_side, side_of, on_side, QaGate, gate_failed, gate_inconclusive, gate_passed,
  gate_pending, no_rows, gate_of,
}

abbrev pub falls_on : Side → QaEvidence → Bool
falls_on s e = is_side s (side_of e.result)

any-no_rows :
    (s : Side) (rows : List QaEvidence) → no_rows (on_side s rows) ≡ not (any (falls_on s) rows)
any-no_rows s [] = refl
any-no_rows s (e ∷ rows) = ground (arith, any-no_rows s rows)

Side-cases :
    (s : Side)
    → (s ≡ Side.passed) ⊎ ((s ≡ Side.failed) ⊎ ((s ≡ Side.waiting) ⊎ (s ≡ Side.undecided)))
Side-cases Side.passed = inl refl
Side-cases Side.failed = inr (inl refl)
Side-cases Side.waiting = inr (inr (inl refl))
Side-cases Side.undecided = inr (inr (inr refl))

-- Each review is on one side.
on_side-length :
    (rows : List QaEvidence)
    → length (on_side Side.passed rows)
        + (length (on_side Side.failed rows)
            + (length (on_side Side.waiting rows) + length (on_side Side.undecided rows)))
      ≡ length rows
on_side-length [] = refl
on_side-length (e ∷ rows) = elim (Side-cases (side_of e.result)) [
  | inl q ↦ rw q (omega (arith, on_side-length rows))
  | inr (inl q) ↦ rw q (omega (arith, on_side-length rows))
  | inr (inr (inl q)) ↦ rw q (omega (arith, on_side-length rows))
  | inr (inr (inr q)) ↦ rw q (omega (arith, on_side-length rows))
]

all-any :
    (rows : List QaEvidence)
    → all (falls_on Side.passed) rows ≡ (
        not (any (falls_on Side.failed) rows)
        && (not (any (falls_on Side.undecided) rows) && not (any (falls_on Side.waiting) rows)))
all-any [] = refl
all-any (e ∷ rows) = elim (Side-cases (side_of e.result)) [
  | inl q ↦ rw q (all-any rows)
  | inr (inl q) ↦ rw q refl
  | inr (inr (inl q)) ↦ rw q (ground arith)
  | inr (inr (inr q)) ↦ rw q (ground arith)
]

-- The gate, as a rule on the reviews.
abbrev pub gate_rule : List QaEvidence → QaGate
gate_rule rows =
    if any (falls_on Side.failed) rows
    then gate_failed
    else if any (falls_on Side.undecided) rows
    then gate_inconclusive
    else if not (no_rows rows) && all (falls_on Side.passed) rows
    then gate_passed
    else gate_pending

nil-length : (rows : List QaEvidence) → no_rows rows ≡ (length rows == 0)
nil-length [] = refl
nil-length (e ∷ rows) = ground arith

pub gate_of-gate_rule :
    (rows : List QaEvidence)
    → gate_of
        (length rows)
        (on_side Side.passed rows)
        (on_side Side.failed rows)
        (on_side Side.waiting rows)
        (on_side Side.undecided rows)
      ≡ gate_rule rows
unfolding gate_of
gate_of-gate_rule rows = ground (
  arith,
  any-no_rows Side.failed rows,
  any-no_rows Side.undecided rows,
  any-no_rows Side.waiting rows,
  all-any rows,
  on_side-length rows,
  nil-length rows,
  nil-length (on_side Side.failed rows),
  nil-length (on_side Side.undecided rows),
  nil-length (on_side Side.waiting rows),
)

-- What a rule of four tests in order says of its tests.
pub rule-tests :
    (f i g : Bool)
    → let x =
        if f
        then gate_failed
        else if i
        then gate_inconclusive
        else if g
        then gate_passed
        else gate_pending in
      ((x ≡ gate_failed) ↔ (f ≡ true))
      × ((x ≡ gate_inconclusive) ↔ ((f ≡ false) × (i ≡ true)))
      × ((x ≡ gate_passed) ↔ ((f ≡ false) × (i ≡ false) × (g ≡ true)))
rule-tests true i g = ((λ h. refl, λ h. refl), (λ h. cc, λ (a, b). cc), (λ h. cc, λ (a, b, c). cc))
rule-tests false true g =
    ((λ h. cc, λ h. cc), (λ h. (refl, refl), λ h. refl), (λ h. cc, λ (a, b, c). cc))
rule-tests false false true =
    ((λ h. cc, λ h. cc), (λ h. cc, λ (a, b). cc), (λ h. (refl, refl, refl), λ h. refl))
rule-tests false false false =
    ((λ h. cc, λ h. cc), (λ h. cc, λ (a, b). cc), (λ h. cc, λ (a, b, c). cc))
