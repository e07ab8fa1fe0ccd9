-- ===== src/Governance/Inversion.antt =====
-- What it means that require_open gives a decision.
use project_os_agentic_agile.Base.{
  String, Bool, true, false, List, [], ◌∷◌, Option, none, some, ◌≡◌, refl, ap, sym, ◌∙◌, inl, inr,
  str_eq, eq_iff, find, find-In, arith, Bool-cases,
}
use project_os_agentic_agile.Governance.{
  is_open_status, Decision, Governance, ◌>>=◌, check, is_decision, is_decision_of, is_of_project,
  get_governance_decision,
}
use project_os_agentic_agile.Governance.Texts.{require_safe_id}
use project_os_agentic_agile.Governance.Answers.{require_open}

find-stronger :
    {A : Type 0} (p q : A → Bool) (xs : List A) {x : A}
    → ((y : A) → q y ≡ true → p y ≡ true)
    → find p xs ≡ some x
    → q x ≡ true
    → find q xs ≡ some x
find-stronger p q [] w h e = cc
find-stronger p q (y ∷ xs) {x} w h e = elim (Bool-cases (p y)) [
  | inl t ↦
      let first : some y ≡ some x = rw t at h in
      let same : y ≡ x = cc in rw (ap q same ∙ e) (ap some same)
  | inr t ↦
      let off : q y ≡ false = ground (arith, t, w y) in
      rw off (find-stronger p q xs {x = x} w (rw t at h) e)
]

-- What require_open answers, from what its steps answer.
abbrev read_decision : Option String → Option String → Governance → Option (Option Decision)
read_decision p i g = do
  pid ← p
  hid ← i
  _ ← check (is_of_project pid (find (is_decision hid) g.decisions))
  some (find (is_decision_of pid hid) g.decisions)

abbrev when_open : Option Decision → Option Decision
when_open found = do d ← found; _ ← check (is_open_status d.status); some d

read_decision-inv :
    (p i : Option String) (g : Governance) (o : Option Decision)
    → read_decision p i g ≡ some o
    → (pid : String) × (hid : String) × (is_of_project pid (find (is_decision hid) g.decisions)
        ≡ true)
      × (o ≡ find (is_decision_of pid hid) g.decisions)
read_decision-inv none i g o h = cc
read_decision-inv (some pid) none g o h = cc
read_decision-inv (some pid) (some hid) g o h =
    elim (Bool-cases (is_of_project pid (find (is_decision hid) g.decisions))) [
      | inl t ↦
          let q : some (find (is_decision_of pid hid) g.decisions) ≡ some o = rw t at h in
          (pid, hid, t, cc)
      | inr t ↦ let q : none ≡ some o = rw t at h in cc
    ]

when_open-inv :
    (found : Option Decision) (e : Decision)
    → when_open found ≡ some e
    → (found ≡ some e) × (is_open_status e.status ≡ true)
when_open-inv none e h = cc
when_open-inv (some d) e h = elim (Bool-cases (is_open_status d.status)) [
  | inl t ↦
      let q : some d ≡ some e = rw t at h in
      let same : d ≡ e = cc in (q, sym (ap (λ (x : Decision). is_open_status x.status) same) ∙ t)
  | inr t ↦ let q : none ≡ some e = rw t at h in cc
]

pub require_open-inv :
    (pid hid : String) (g : Governance) (e : Decision)
    → require_open pid hid g ≡ some e
    → (p : String) × (i : String) × (is_of_project p (find (is_decision i) g.decisions) ≡ true)
      × (find (is_decision_of p i) g.decisions ≡ some e)
      × (is_open_status e.status ≡ true)
unfolding require_open get_governance_decision
require_open-inv pid hid g e h =
    go (read_decision (require_safe_id pid) (require_safe_id hid) g) refl h
  where
    go :
        (r : Option (Option Decision))
        → read_decision (require_safe_id pid) (require_safe_id hid) g ≡ r
        → (r >>= when_open) ≡ some e
        → (p : String) × (i : String) × (is_of_project p (find (is_decision i) g.decisions) ≡ true)
          × (find (is_decision_of p i) g.decisions ≡ some e)
          × (is_open_status e.status ≡ true)
    go none q k = cc
    go (some o) q k =
        let (p, i, here, same) =
          read_decision-inv (require_safe_id pid) (require_safe_id hid) g o q in
        let (found, open_status) = when_open-inv o e k in
        (p, i, here, sym same ∙ found, open_status)

-- A decision that is closed is not the one that require_open gives.
pub require_open-other :
    (pid hid k : String) (g : Governance) (d e : Decision)
    → find (is_decision k) g.decisions ≡ some d
    → is_open_status d.status ≡ false
    → require_open pid hid g ≡ some e
    → str_eq e.decision_human_id k ≡ false
require_open-other pid hid k g d e found closed h =
    let (p, i, here, got, open_status) = require_open-inv pid hid g e h in
    let (m, fits) = find-In (is_decision_of p i) g.decisions got in
    elim (Bool-cases (str_eq e.decision_human_id k)) [
      | inr t ↦ t
      | inl t ↦
          let fits_i : str_eq e.decision_human_id i ≡ true = ground (arith, fits) in
          let same : i ≡ k =
            sym ((eq_iff e.decision_human_id i).0 fits_i) ∙ (eq_iff e.decision_human_id k).0 t in
          let found_i : find (is_decision i) g.decisions ≡ some d = rw same found in
          let of_p : str_eq d.project_human_id p ≡ true = rw found_i at here in
          let (m', is_i) = find-In (is_decision i) g.decisions found_i in
          let also : find (is_decision_of p i) g.decisions ≡ some d =
            find-stronger (is_decision i) (is_decision_of p i) g.decisions {x = d}
              (λ y q. ground (arith, q)) found_i (rw (of_p, is_i) refl) in
          let both : some e ≡ some d = sym got ∙ also in
          let one : e ≡ d = cc in
          cc (sym (ap (λ (x : Decision). is_open_status x.status) one) ∙ open_status, closed)
    ]
