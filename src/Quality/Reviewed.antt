-- ===== src/Quality/Reviewed.antt =====
-- Which reviews a call of collect_qa_gate_facts asks for.
use project_os_agentic_agile.Base.{
  String, true, false, Option, none, some, ◌≡◌, ◌⊎◌, ◌↔◌, refl, ap, inl, inr, str_eq, eq_iff,
  truthy, arith, Bool-cases,
}
use project_os_agentic_agile.Quality.{QaEvidence, asks, asks_run, is_reviewed}

-- A review that the call asks for: of the project, and of the candidate and the run where they are given
-- and not empty.
abbrev pub IsFor : Option String → String → Type 0
IsFor none value = Unit {0}
IsFor (some s) value = (s ≡ "") ⊎ (value ≡ s)

abbrev pub IsForRun : Option String → Option String → Type 0
IsForRun none value = Unit {0}
IsForRun (some s) value = (s ≡ "") ⊎ (value ≡ some s)

abbrev pub Concerns : String → Option String → Option String → QaEvidence → Type 0
Concerns project_id candidate run_id e =
    (e.project_human_id ≡ project_id)
    × IsFor candidate e.candidate_git_sha
    × IsForRun run_id e.run_id

asks-IsFor : (o : Option String) (value : String) → (asks (truthy o) value ≡ true) ↔ IsFor o value
asks-IsFor none value = (λ h. tt, λ h. refl)
asks-IsFor (some s) value = elim (Bool-cases (str_eq s "")) [
  | inl e ↦ let q : s ≡ "" = (eq_iff s "").0 e in (λ h. inl q, λ h. rw e refl)
  | inr e ↦ (
    λ h. inr ((eq_iff value s).0 (rw e at h)),
    λ h. elim h [
      | inl q ↦ let t : str_eq s "" ≡ true = (eq_iff s "").1 q in cc
      | inr q ↦ rw e ((eq_iff value s).1 q)
    ],
  )
]

asks_run-IsForRun :
    (o value : Option String) → (asks_run (truthy o) value ≡ true) ↔ IsForRun o value
asks_run-IsForRun none value = (λ h. tt, λ h. refl)
asks_run-IsForRun (some s) none = elim (Bool-cases (str_eq s "")) [
  | inl e ↦ let q : s ≡ "" = (eq_iff s "").0 e in (λ h. inl q, λ h. rw e refl)
  | inr e ↦ (
    λ h. let k : false ≡ true = rw e at h in cc,
    λ h. elim h [ inl q ↦ let t : str_eq s "" ≡ true = (eq_iff s "").1 q in cc | inr q ↦ cc ],
  )
]
asks_run-IsForRun (some s) (some v) = elim (Bool-cases (str_eq s "")) [
  | inl e ↦ let q : s ≡ "" = (eq_iff s "").0 e in (λ h. inl q, λ h. rw e refl)
  | inr e ↦ (
    λ h. inr (ap some ((eq_iff v s).0 (rw e at h))),
    λ h. elim h [
      | inl q ↦ let t : str_eq s "" ≡ true = (eq_iff s "").1 q in cc
      | inr q ↦ let q' : v ≡ s = cc in rw e ((eq_iff v s).1 q')
    ],
  )
]

pub is_reviewed-Concerns :
    (pid : String) (candidate run_id : Option String) (e : QaEvidence)
    → (is_reviewed pid candidate run_id e ≡ true) ↔ Concerns pid candidate run_id e
is_reviewed-Concerns pid candidate run_id e = (
  λ h. (
    (eq_iff e.project_human_id pid).0 (ground (arith, h)),
    (asks-IsFor candidate e.candidate_git_sha).0 (ground (arith, h)),
    (asks_run-IsForRun run_id e.run_id).0 (ground (arith, h)),
  ),
  λ (p, c, r).
      let p' = (eq_iff e.project_human_id pid).1 p in
      let c' = (asks-IsFor candidate e.candidate_git_sha).1 c in
      let r' = (asks_run-IsForRun run_id e.run_id).1 r in rw (p', c', r') refl,
)
