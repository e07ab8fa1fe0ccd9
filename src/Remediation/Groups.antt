-- ===== src/Remediation/Groups.antt =====
-- The groups of findings: each holds exactly the findings of its agent and queue, in their order.
use project_os_agentic_agile.Base.{
  String, Bool, true, false, ◌&&◌, not, List, [], ◌∷◌, ◌++◌, map, ◌≡◌, refl, ap, sym, ◌∙◌, inl, inr,
  str_eq, eq_iff, if◌then◌else◌, select, arith, Bool-cases,
}
use project_os_agentic_agile.Remediation.{
  Finding, Reason, resolve_remediation_execution, Owned, Group, is_bucket, append_to, own,
  group_into, group_findings_for_remediation,
}

-- What the groups hold for an agent and a queue.
abbrev pub items_of : String → String → List Group → List Owned
items_of agent queue [] = []
items_of agent queue (b ∷ bs) =
    if is_bucket agent queue b then b.items ++ items_of agent queue bs else items_of agent queue bs

-- Whether a finding is worked on by that agent in that queue.
abbrev pub is_for : String → String → Finding → Bool
is_for agent queue f =
    let a = resolve_remediation_execution f in
    str_eq a.assigned_agent agent && str_eq a.execution_queue queue

-- No bucket after one of the same key.
abbrev pub no_bucket : String → String → List Group → Bool
no_bucket agent queue [] = true
no_bucket agent queue (b ∷ bs) = not (is_bucket agent queue b) && no_bucket agent queue bs

abbrev pub are_distinct : List Group → Bool
are_distinct [] = true
are_distinct (b ∷ bs) = no_bucket b.assigned_agent b.execution_queue bs && are_distinct bs

str_eq_sym : (a b : String) → str_eq a b ≡ str_eq b a
str_eq_sym a b = elim (Bool-cases (str_eq a b)) [
  | inl t ↦ let e : a ≡ b = (eq_iff a b).0 t in rw e refl
  | inr t ↦ elim (Bool-cases (str_eq b a)) [
    | inl u ↦ let e : a ≡ b = sym ((eq_iff b a).0 u) in rw e refl
    | inr u ↦ t ∙ sym u
  ]
]

append_nil : (xs : List Owned) → xs ++ [] ≡ xs
append_nil [] = refl
append_nil (x ∷ xs) = ap (λ l. x ∷ l) (append_nil xs)

append_assoc_owned : (xs ys zs : List Owned) → (xs ++ ys) ++ zs ≡ xs ++ (ys ++ zs)
append_assoc_owned [] ys zs = refl
append_assoc_owned (x ∷ xs) ys zs = ap (λ l. x ∷ l) (append_assoc_owned xs ys zs)

-- The bucket of a key is the bucket of another exactly if the keys are the same.
is_bucket-same :
    (agent queue a q : String) (b : Group)
    → is_bucket a q b ≡ true
    → is_bucket agent queue b ≡ (str_eq a agent && str_eq q queue)
is_bucket-same agent queue a q b h =
    let e : b.assigned_agent ≡ a = (eq_iff b.assigned_agent a).0 (ground (arith, h)) in
    let f : b.execution_queue ≡ q = (eq_iff b.execution_queue q).0 (ground (arith, h)) in
    rw (e, f) refl

no_bucket-items_of :
    (agent queue : String) (bs : List Group)
    → no_bucket agent queue bs ≡ true
    → items_of agent queue bs ≡ []
no_bucket-items_of agent queue [] h = refl
no_bucket-items_of agent queue (b ∷ bs) h = ground (arith, h, no_bucket-items_of agent queue bs)

no_bucket-append_to :
    (agent queue a q : String) (w : Reason) (x : Owned) (bs : List Group)
    → (str_eq a agent && str_eq q queue) ≡ false
    → no_bucket agent queue (append_to a q w x bs) ≡ no_bucket agent queue bs
unfolding append_to
no_bucket-append_to agent queue a q w x [] h = rw h refl
no_bucket-append_to agent queue a q w x (b ∷ bs) h =
    ground (arith, no_bucket-append_to agent queue a q w x bs h)

append_to-are_distinct :
    (a q : String) (w : Reason) (x : Owned) (bs : List Group)
    → are_distinct bs ≡ true
    → are_distinct (append_to a q w x bs) ≡ true
unfolding append_to
append_to-are_distinct a q w x [] h = refl
append_to-are_distinct a q w x (b ∷ bs) h = elim (Bool-cases (is_bucket a q b)) [
  | inl t ↦ rw t h
  | inr t ↦
      let differ : (str_eq a b.assigned_agent && str_eq q b.execution_queue) ≡ false =
        rw (str_eq_sym a b.assigned_agent, str_eq_sym q b.execution_queue) t in
      rw (t, no_bucket-append_to b.assigned_agent b.execution_queue a q w x bs differ)
        (ground (arith, h, append_to-are_distinct a q w x bs))
]

append_to-items_of :
    (agent queue a q : String) (w : Reason) (x : Owned) (bs : List Group)
    → are_distinct bs ≡ true
    → items_of agent queue (append_to a q w x bs)
      ≡ items_of agent queue bs ++ (if str_eq a agent && str_eq q queue then x ∷ [] else [])
unfolding append_to
append_to-items_of agent queue a q w x [] h = elim (Bool-cases (str_eq a agent && str_eq q queue)) [
  | inl t ↦ rw t refl
  | inr t ↦ rw t refl
]
append_to-items_of agent queue a q w x (b ∷ bs) h = elim (Bool-cases (is_bucket a q b)) [
  | inl t ↦
      let same = is_bucket-same agent queue a q b t in
      elim (Bool-cases (is_bucket agent queue b)) [
        | inl u ↦
            let on : (str_eq a agent && str_eq q queue) ≡ true = sym same ∙ u in
            let rest : items_of agent queue bs ≡ [] =
              no_bucket-items_of agent queue bs (moved agent queue b bs u (ground (arith, h))) in
            rw (t, u, on, rest)
              (append_nil (b.items ++ x ∷ []) ∙ ap (λ l. l ++ x ∷ []) (sym (append_nil b.items)))
        | inr u ↦
            let off : (str_eq a agent && str_eq q queue) ≡ false = sym same ∙ u in
            rw (t, u, off) (sym (append_nil (items_of agent queue bs)))
      ]
  | inr t ↦
      let ih = append_to-items_of agent queue a q w x bs (ground (arith, h)) in
      elim (Bool-cases (is_bucket agent queue b)) [
        | inl u ↦
            rw (t, u, ih)
              (sym (
                append_assoc_owned b.items (items_of agent queue bs)
                  (if str_eq a agent && str_eq q queue then x ∷ [] else [])))
        | inr u ↦ rw (t, u) ih
      ]
]
  where
    moved :
        (agent queue : String) (b : Group) (bs : List Group)
        → is_bucket agent queue b ≡ true
        → no_bucket b.assigned_agent b.execution_queue bs ≡ true
        → no_bucket agent queue bs ≡ true
    moved agent queue b bs u h =
        let e : b.assigned_agent ≡ agent = (eq_iff b.assigned_agent agent).0 (ground (arith, u)) in
        let f : b.execution_queue ≡ queue =
          (eq_iff b.execution_queue queue).0 (ground (arith, u)) in
        rw (sym e, sym f) h

group_into-items_of :
    (agent queue : String) (bs : List Group) (fs : List Finding)
    → are_distinct bs ≡ true
    → (items_of agent queue (group_into bs fs)
        ≡ items_of agent queue bs ++ map own (select (is_for agent queue) fs))
      × (are_distinct (group_into bs fs) ≡ true)
unfolding group_into
group_into-items_of agent queue bs [] h = (sym (append_nil (items_of agent queue bs)), h)
group_into-items_of agent queue bs (f ∷ fs) h =
    let r = resolve_remediation_execution f in
    let next = append_to r.assigned_agent r.execution_queue r.reason (own f) bs in
    let (items, distinct) =
      group_into-items_of agent queue next fs
        (append_to-are_distinct r.assigned_agent r.execution_queue r.reason (own f) bs h) in
    let one =
      append_to-items_of agent queue r.assigned_agent r.execution_queue r.reason (own f) bs h in
    (
      items
          ∙ ap (λ l. l ++ map own (select (is_for agent queue) fs)) one
          ∙ elim (Bool-cases (is_for agent queue f)) [
            | inl t ↦ rw t (
                append_assoc_owned (items_of agent queue bs) (own f ∷ [])
                  (map own (select (is_for agent queue) fs)))
            | inr t ↦ rw t (
                ap (λ l. l ++ map own (select (is_for agent queue) fs))
                  (append_nil (items_of agent queue bs)))
          ],
      distinct,
    )

-- group_findings_for_remediation divides the findings: for every agent and queue, the groups of this key
-- hold the findings that are resolved to it, each once, with its owner and in order, and nothing else;
-- and no two groups have the same agent and queue.
pub group_findings_for_remediation-items_of :
    (agent queue : String) (findings : List Finding)
    → (items_of agent queue (group_findings_for_remediation findings)
        ≡ map own (select (is_for agent queue) findings))
      × (are_distinct (group_findings_for_remediation findings) ≡ true)
unfolding group_findings_for_remediation
group_findings_for_remediation-items_of agent queue findings =
    group_into-items_of agent queue [] findings refl
