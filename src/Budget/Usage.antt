-- ===== src/Budget/Usage.antt =====
-- The usage of one run, and what it adds to the loop of a budget report.
use project_os_agentic_agile.Base.{
  ℕ, suc, ◌+◌, ◌≤◌, String, Bool, true, false, not, ◌&&◌, ◌||◌, List, [], ◌∷◌, Option, none, some,
  str_eq, eq_iff, if◌then◌else◌, is_some, ℤ, pos, ◌+ℤ◌, ◌≡◌, ◌⊎◌, inl, inr, refl, sym, ap, ◌∙◌,
  length, arith, Bool-cases,
}
use project_os_agentic_agile.Budget.{
  get, get_or, Document, object, not_object, Count, absent, unusable, counted, count_of, UsageCount,
  usage_of, is_text, usage_of_document, add_role, add_to, next_unreported, some_if,
}

-- The count of a role in the report.
abbrev pub role_count : String → List (String × ℕ) → ℕ
role_count role [] = 0
role_count role ((r, n) ∷ counts) = if str_eq r role then n else role_count role counts

abbrev pub role_sum : List (String × ℕ) → ℕ
role_sum [] = 0
role_sum ((r, n) ∷ counts) = n + role_sum counts

-- The numbers that are given, and their sum, which is none where there is no number.
abbrev pub given : List (Option ℤ) → List ℤ
given [] = []
given (none ∷ ns) = given ns
given (some n ∷ ns) = n ∷ given ns

abbrev pub sum_from : ℤ → List ℤ → ℤ
sum_from n [] = n
sum_from n (m ∷ ms) = sum_from (n +ℤ m) ms

abbrev pub is_given : List ℤ → Bool
is_given [] = false
is_given (_ ∷ _) = true

abbrev pub total : List ℤ → Option ℤ
total ns = some_if (is_given ns) (sum_from (pos 0) ns)

-- Usage that is not reported has no numbers.
abbrev pub IsHonest : UsageCount → Type 0
IsHonest u = (u.reported ≡ true) ⊎ ((u.reported ≡ false) × (u.input ≡ none) × (u.output ≡ none))

usage_of-IsHonest : (i o : Count) → IsHonest (usage_of i o)
unfolding usage_of
usage_of-IsHonest (counted i) (counted o) = inl refl
usage_of-IsHonest (counted i) absent = inl refl
usage_of-IsHonest (counted i) unusable = inr (refl, refl, refl)
usage_of-IsHonest absent (counted o) = inl refl
usage_of-IsHonest absent absent = inr (refl, refl, refl)
usage_of-IsHonest absent unusable = inr (refl, refl, refl)
usage_of-IsHonest unusable (counted o) = inr (refl, refl, refl)
usage_of-IsHonest unusable absent = inr (refl, refl, refl)
usage_of-IsHonest unusable unusable = inr (refl, refl, refl)

pub usage_of_document-IsHonest : (d : Option Document) → IsHonest (usage_of_document d)
unfolding usage_of_document
usage_of_document-IsHonest none = inr (refl, refl, refl)
usage_of_document-IsHonest (some not_object) = inr (refl, refl, refl)
usage_of_document-IsHonest (some (object fields)) =
    elim (Bool-cases (is_text "unknown" (get "status" fields))) [
      | inl e ↦ rw e (inr (refl, refl, refl))
      | inr e ↦ rw e (
          usage_of-IsHonest (count_of (get_or "input_tokens" "prompt_tokens" fields))
            (count_of (get_or "output_tokens" "completion_tokens" fields)))
    ]

-- A role's count goes up by one, and no other.
pub add_role-count :
    (q role : String) (counts : List (String × ℕ))
    → role_count q (add_role role counts)
      ≡ (if str_eq role q then suc (role_count q counts) else role_count q counts)
add_role-count q role [] = elim (Bool-cases (str_eq role q)) [
  | inl e ↦ rw e refl
  | inr e ↦ rw e refl
]
add_role-count q role ((r, n) ∷ counts) = elim (Bool-cases (str_eq r role)) [
  | inl e ↦ rw e (
      let same : str_eq r q ≡ str_eq role q = ap (λ s. str_eq s q) ((eq_iff r role).0 e) in
      rw same (elim (Bool-cases (str_eq role q)) [ inl f ↦ rw f refl | inr f ↦ rw f refl ]))
  | inr e ↦ rw e (elim (Bool-cases (str_eq r q)) [
    | inl f ↦
        let off : str_eq role q ≡ false = elim (Bool-cases (str_eq role q)) [
          | inl g ↦
              let same : str_eq r role ≡ str_eq r q = ap (str_eq r) ((eq_iff role q).0 g) in
              let on : true ≡ false = sym f ∙ sym same ∙ e in cc
          | inr g ↦ g
        ] in
        rw f (rw off refl)
    | inr f ↦ rw f (add_role-count q role counts)
  ])
]

pub add_role-sum :
    (role : String) (counts : List (String × ℕ))
    → role_sum (add_role role counts) ≡ suc (role_sum counts)
add_role-sum role [] = refl
add_role-sum role ((r, n) ∷ counts) = ground (arith, add_role-sum role counts)

pub input-honest : {u : UsageCount} → IsHonest u → (u.reported ≡ true) ⊎ (u.input ≡ none)
input-honest (inl e) = inl e
input-honest (inr (e, i, o)) = inr i

pub output-honest : {u : UsageCount} → IsHonest u → (u.reported ≡ true) ⊎ (u.output ≡ none)
output-honest (inl e) = inl e
output-honest (inr (e, i, o)) = inr o

-- What a row does to a sum and its flag.
pub number_step :
    (r : Bool) (o : Option ℤ)
    → (r ≡ true) ⊎ (o ≡ none)
    → (n : ℤ) (b : Bool) (os : List (Option ℤ))
    → (sum_from (if r then add_to n o else n) (given os) ≡ sum_from n (given (o ∷ os)))
      × (((b || (r && is_some o)) || is_given (given os)) ≡ (b || is_given (given (o ∷ os))))
number_step true none h n b os = (refl, ground arith)
number_step true (some m) h n b os = (refl, ground arith)
number_step false none h n b os = (refl, ground arith)
number_step false (some m) (inl e) n b os = absurd (cc e)
number_step false (some m) (inr e) n b os = absurd (cc e)

pub silent_step :
    (r : Bool) (c n : ℕ) {a : ℕ}
    → a ≡ c + next_unreported r n
    → a ≡ (if not r then suc c else c) + n
silent_step true c n h = h
silent_step false c n h = omega (arith, h)

pub total-none : (ns : List ℤ) → length ns ≡ 0 → total ns ≡ none
total-none [] h = refl
total-none (n ∷ ns) h = absurd (omega (arith, h))

-- A row is silent, or may give a number.
pub given_step :
    (r : Bool) (o : Option ℤ)
    → (r ≡ true) ⊎ (o ≡ none)
    → (os : List (Option ℤ)) (c n : ℕ) → c + length (given os) ≤ n
    → (if not r then suc c else c) + length (given (o ∷ os)) ≤ suc n
given_step true none h os c n le = omega (arith, le)
given_step true (some m) h os c n le = omega (arith, le)
given_step false none h os c n le = omega (arith, le)
given_step false (some m) (inl e) os c n le = absurd (cc e)
given_step false (some m) (inr e) os c n le = absurd (cc e)
