-- ===== src/Base/Tables.antt =====
-- Tables as lists of rows: SQL's WHERE, UPDATE, DELETE and COUNT over them.
use Prim.Native.Nat.{ℕ, zero, suc, ◌≤◌}
use mathlib.Core.Path.{◌≡◌, refl, ap, sym, ◌∙◌}
use mathlib.Core.Logic.{◌⊎◌, inl, inr, ◌↔◌}
use mathlib.Core.Bool.{Bool, true, false, not}
use mathlib.Core.Option.{Option, none, some}
use mathlib.Core.Option
use mathlib.Core.List.{List, [], ◌∷◌, ◌++◌}
use native.Mathlib.Omega.{arith}
use project_os_agentic_agile.Base.Tests.{if◌then◌else◌, Bool-cases}

-- Membership by recursion, which the tactics take apart.
abbrev pub In : {A : Type 0} → A → List A → Type 0
In a [] = ⊥
In a (x ∷ xs) = (a ≡ x) ⊎ In a xs

module _ {ℓ} {A : Type ℓ} where
  abbrev pub length : List A → ℕ
  length [] = 0
  length (x ∷ xs) = suc (length xs)

  -- LIMIT
  abbrev pub take : ℕ → List A → List A
  take zero xs = []
  take (suc n) [] = []
  take (suc n) (x ∷ xs) = x ∷ take n xs

  -- The rows that a WHERE clause keeps.
  abbrev pub select : (A → Bool) → List A → List A
  select p [] = []
  select p (x ∷ xs) = if p x then x ∷ select p xs else select p xs

  -- The first of them: `fetchone`.
  abbrev pub find : (A → Bool) → List A → Option A
  find p [] = none
  find p (x ∷ xs) = if p x then some x else find p xs

  abbrev pub any : (A → Bool) → List A → Bool
  any p [] = false
  any p (x ∷ xs) = if p x then true else any p xs

  abbrev pub all : (A → Bool) → List A → Bool
  all p [] = true
  all p (x ∷ xs) = if p x then all p xs else false

  -- `cur.rowcount` of an UPDATE.
  abbrev pub count : (A → Bool) → List A → ℕ
  count p [] = 0
  count p (x ∷ xs) = if p x then suc (count p xs) else count p xs

  -- UPDATE … SET … WHERE …, on one row and on the table.
  abbrev pub update_row : (A → Bool) → (A → A) → A → A
  update_row p f x = if p x then f x else x

  abbrev pub update : (A → Bool) → (A → A) → List A → List A
  update p f [] = []
  update p f (x ∷ xs) = update_row p f x ∷ update p f xs

-- ORDER BY: a stable insertion sort. `before x y` says that `x` may stand before `y`.
module _ {ℓ} {A : Type ℓ} (before : A → A → Bool) where
  abbrev pub insert_by : A → List A → List A
  insert_by x [] = x ∷ []
  insert_by x (y ∷ ys) = if before x y then x ∷ y ∷ ys else y ∷ insert_by x ys

  abbrev pub order_by : List A → List A
  order_by [] = []
  order_by (x ∷ xs) = insert_by x (order_by xs)

module _ {A : Type 0} where
  pub In-update :
      (y : A) (p : A → Bool) (f : A → A) (xs : List A)
      → In y (update p f xs)
      → (x : A) × In x xs × (y ≡ update_row p f x)
  In-update y p f [] m = absurd m
  In-update y p f (x ∷ xs) (inl e) = (x, inl refl, e)
  In-update y p f (x ∷ xs) (inr m) = let (x', m', e) = In-update y p f xs m in (x', inr m', e)

  -- What a row of the table after an UPDATE was before it.
  pub update-cases :
      (y : A) (p : A → Bool) (f : A → A) (xs : List A)
      → In y (update p f xs)
      → (x : A) × In x xs × (((p x ≡ true) × (y ≡ f x)) ⊎ ((p x ≡ false) × (y ≡ x)))
  update-cases y p f xs m =
      let (x, n, e) = In-update y p f xs m in
      (x, n, elim (Bool-cases (p x)) [ inl t ↦ inl (t, rw t at e) | inr t ↦ inr (t, rw t at e) ])

  pub In-update_intro :
      (x : A) (p : A → Bool) (f : A → A) (xs : List A)
      → In x xs
      → In (update_row p f x) (update p f xs)
  In-update_intro x p f [] m = absurd m
  In-update_intro x p f (y ∷ xs) (inl e) = inl (ap (update_row p f) e)
  In-update_intro x p f (y ∷ xs) (inr m) = inr (In-update_intro x p f xs m)

  -- A row that the WHERE clause leaves out stays as it is.
  pub In-update_off :
      (x : A) (p : A → Bool) (f : A → A) (xs : List A)
      → p x ≡ false
      → In x xs
      → In x (update p f xs)
  In-update_off x p f xs off m =
      let same : update_row p f x ≡ x = rw off refl in
      let n = In-update_intro x p f xs m in rw same at n

  pub In-append : (y : A) (xs ys : List A) → In y (xs ++ ys) → In y xs ⊎ In y ys
  In-append y [] ys m = inr m
  In-append y (x ∷ xs) ys (inl e) = inl (inl e)
  In-append y (x ∷ xs) ys (inr m) = ground (arith, In-append y xs ys m)

  pub In-append_left : (y : A) (xs ys : List A) → In y xs → In y (xs ++ ys)
  In-append_left y [] ys m = absurd m
  In-append_left y (x ∷ xs) ys (inl e) = inl e
  In-append_left y (x ∷ xs) ys (inr m) = inr (In-append_left y xs ys m)

  pub In-append_right : (y : A) (xs ys : List A) → In y ys → In y (xs ++ ys)
  In-append_right y [] ys m = m
  In-append_right y (x ∷ xs) ys m = inr (In-append_right y xs ys m)

  -- A row of a selection is a row of the table that passes the test.
  pub In-select : (y : A) (p : A → Bool) (xs : List A) → In y (select p xs) → In y xs × (p y ≡ true)
  In-select y p [] m = absurd m
  In-select y p (x ∷ xs) m = elim (Bool-cases (p x)) [
    | inl e ↦ elim (rw e at m) as (λ _. In y (x ∷ xs) × (p y ≡ true)) [
      | inl q ↦ (inl q, ap p q ∙ e)
      | inr n ↦ let (h, k) = In-select y p xs n in (inr h, k)
    ]
    | inr e ↦ let (h, k) = In-select y p xs (rw e at m) in (inr h, k)
  ]

  pub In-select_intro :
      (y : A) (p : A → Bool) (xs : List A) → In y xs → p y ≡ true → In y (select p xs)
  In-select_intro y p [] m e = absurd m
  In-select_intro y p (x ∷ xs) (inl q) e = rw (sym (ap p q) ∙ e) (inl q)
  In-select_intro y p (x ∷ xs) (inr m) e = elim (Bool-cases (p x)) [
    | inl d ↦ rw d (inr (In-select_intro y p xs m e))
    | inr d ↦ rw d (In-select_intro y p xs m e)
  ]

  -- `fetchone` gives a row of the table that passes the test, and nothing if there is none.
  pub find-In : (p : A → Bool) (xs : List A) {x : A} → find p xs ≡ some x → In x xs × (p x ≡ true)
  find-In p [] h = cc
  find-In p (y ∷ xs) {x} h = elim (Bool-cases (p y)) [
    | inl e ↦ let h' : some y ≡ some x = rw e at h in let q : x ≡ y = cc in (inl q, ap p q ∙ e)
    | inr e ↦ let (m, k) = find-In p xs (rw e at h) in (inr m, k)
  ]

  pub find-none : (p : A → Bool) (xs : List A) → find p xs ≡ none → (x : A) → In x xs → p x ≡ false
  find-none p [] h x m = absurd m
  find-none p (y ∷ xs) h x m = elim (Bool-cases (p y)) [
    | inl e ↦ cc (rw e at h)
    | inr e ↦ elim m [ inl q ↦ ap p q ∙ e | inr n ↦ find-none p xs (rw e at h) x n ]
  ]

  -- An UPDATE that leaves the test's outcome alone changes the row that is found, and no other.
  pub find-update :
      (q p : A → Bool) (f : A → A) (xs : List A)
      → ((x : A) → q (f x) ≡ q x)
      → find q (update p f xs) ≡ Option.map (update_row p f) (find q xs)
  find-update q p f [] keep = refl
  find-update q p f (x ∷ xs) keep = ground (arith, keep x, find-update q p f xs keep)

  -- A DELETE of rows that the query does not ask for leaves what it finds.
  pub find-select :
      (p q : A → Bool) (xs : List A)
      → ((x : A) → p x ≡ true → q x ≡ true)
      → find p (select q xs) ≡ find p xs
  find-select p q [] keep = refl
  find-select p q (x ∷ xs) keep = ground (arith, keep x, find-select p q xs keep)

  -- After a DELETE of the rows that a query asks for, it finds what is inserted later.
  pub find-deleted :
      (p : A → Bool) (xs ys : List A) → find p (select (λ x. not (p x)) xs ++ ys) ≡ find p ys
  find-deleted p [] ys = refl
  find-deleted p (x ∷ xs) ys = ground (arith, find-deleted p xs ys)

  pub find-append :
      (p : A → Bool) (xs ys : List A) {x : A} → find p xs ≡ some x → find p (xs ++ ys) ≡ some x
  find-append p [] ys h = cc
  find-append p (y ∷ xs) ys {x} h = ground (arith, h, find-append p xs ys {x = x})

  pub find-append_off :
      (p : A → Bool) (xs : List A) (y : A) → p y ≡ false → find p (xs ++ y ∷ []) ≡ find p xs
  find-append_off p [] y off = rw off refl
  find-append_off p (x ∷ xs) y off = ground (arith, find-append_off p xs y off)

  pub count-eq-zero : (p : A → Bool) (xs : List A) → find p xs ≡ none → count p xs ≡ 0
  count-eq-zero p [] h = refl
  count-eq-zero p (x ∷ xs) h = ground (arith, count-eq-zero p xs)

  -- Where at most one row passes, a row that passes is the one found, and the only one.
  pub count-of_In : (p : A → Bool) (x : A) (xs : List A) → In x xs → p x ≡ true → 1 ≤ count p xs
  count-of_In p x [] m e = absurd m
  count-of_In p x (y ∷ ys) (inl q) e = let f : p y ≡ true = sym (ap p q) ∙ e in ground arith
  count-of_In p x (y ∷ ys) (inr m) e = ground (arith, count-of_In p x ys m)

  pub find-of_In :
      (p : A → Bool) (x : A) (xs : List A)
      → In x xs
      → p x ≡ true
      → count p xs ≤ 1
      → find p xs ≡ some x
  find-of_In p x [] m e u = absurd m
  find-of_In p x (y ∷ ys) (inl q) e u = rw (sym q, e) refl
  find-of_In p x (y ∷ ys) (inr m) e u = ground (arith, find-of_In p x ys m, count-of_In p x ys m)

  some-injective : {a b : A} → some a ≡ some b → a ≡ b
  some-injective h = cc

  pub In-unique :
      (p : A → Bool) (x y : A) (xs : List A)
      → In x xs
      → In y xs
      → p x ≡ true
      → p y ≡ true
      → count p xs ≤ 1
      → x ≡ y
  In-unique p x y xs m n e f u =
      some-injective (sym (find-of_In p x xs m e u) ∙ find-of_In p y xs n f u)

  pub In-take : (n : ℕ) (x : A) (xs : List A) → In x (take n xs) → In x xs
  In-take zero x xs m = absurd m
  In-take (suc n) x [] m = absurd m
  In-take (suc n) x (y ∷ ys) (inl q) = inl q
  In-take (suc n) x (y ∷ ys) (inr m) = inr (In-take n x ys m)

  pub any-In : (p : A → Bool) (xs : List A) → (any p xs ≡ true) ↔ ((x : A) × In x xs × (p x ≡ true))
  any-In p [] = (λ h. cc, λ (x, m, e). absurd m)
  any-In p (y ∷ ys) = elim (Bool-cases (p y)) [
    | inl t ↦ (λ h. (y, inl refl, t), λ h. rw t refl)
    | inr t ↦ (
      λ h. let (x, m, e) = (any-In p ys).0 (rw t at h) in (x, inr m, e),
      λ (x, m, e). elim m [
        | inl q ↦ let on : p y ≡ true = sym (ap p q) ∙ e in cc
        | inr n ↦ rw t ((any-In p ys).1 (x, n, e))
      ],
    )
  ]

  pub all-In : (p : A → Bool) (xs : List A) → (all p xs ≡ true) ↔ ((x : A) → In x xs → p x ≡ true)
  all-In p [] = (λ h x m. absurd m, λ h. refl)
  all-In p (y ∷ ys) = elim (Bool-cases (p y)) [
    | inl t ↦ (
      λ h x m. elim m [ inl q ↦ ap p q ∙ t | inr n ↦ (all-In p ys).0 (rw t at h) x n ],
      λ h. rw t ((all-In p ys).1 (λ x m. h x (inr m))),
    )
    | inr t ↦ (
      λ h x m. let k : false ≡ true = rw t at h in cc,
      λ h. let on : p y ≡ true = h y (inl refl) in cc,
    )
  ]
