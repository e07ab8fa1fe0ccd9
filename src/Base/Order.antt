-- ===== src/Base/Order.antt =====
-- ORDER BY: it keeps the rows, and each stands before those that follow.
use mathlib.Core.Path.{◌≡◌, refl, ap, ◌∙◌}
use mathlib.Core.Logic.{◌⊎◌, inl, inr}
use mathlib.Core.Bool.{Bool, true, false}
use mathlib.Core.List.{List, [], ◌∷◌}
use project_os_agentic_agile.Base.Tests.{Bool-cases}
use project_os_agentic_agile.Base.Tables.{In, insert_by, order_by}

module _ {A : Type 0} (before : A → A → Bool) where
  pub In-insert_by : (y x : A) (xs : List A) → In y (insert_by before x xs) → (y ≡ x) ⊎ In y xs
  In-insert_by y x [] (inl e) = inl e
  In-insert_by y x [] (inr m) = absurd m
  In-insert_by y x (z ∷ zs) m = elim (Bool-cases (before x z)) [
    | inl e ↦ rw e at m
    | inr e ↦ elim (rw e at m) as (λ _. (y ≡ x) ⊎ In y (z ∷ zs)) [
      | inl q ↦ inr (inl q)
      | inr n ↦ elim (In-insert_by y x zs n) [ inl q ↦ inl q | inr k ↦ inr (inr k) ]
    ]
  ]

  insert_by-In_new : (x : A) (xs : List A) → In x (insert_by before x xs)
  insert_by-In_new x [] = inl refl
  insert_by-In_new x (z ∷ zs) = elim (Bool-cases (before x z)) [
    | inl e ↦ rw e (inl refl)
    | inr e ↦ rw e (inr (insert_by-In_new x zs))
  ]

  insert_by-In_old : (y x : A) (xs : List A) → In y xs → In y (insert_by before x xs)
  insert_by-In_old y x [] m = absurd m
  insert_by-In_old y x (z ∷ zs) m = elim (Bool-cases (before x z)) [
    | inl e ↦ rw e (inr m)
    | inr e ↦ rw e (elim m as (λ _. In y (z ∷ insert_by before x zs)) [
      | inl q ↦ inl q
      | inr n ↦ inr (insert_by-In_old y x zs n)
    ])
  ]

  pub In-order_by : (y : A) (xs : List A) → In y (order_by before xs) → In y xs
  In-order_by y [] m = m
  In-order_by y (x ∷ xs) m = elim (In-insert_by y x (order_by before xs) m) [
    | inl q ↦ inl q
    | inr n ↦ inr (In-order_by y xs n)
  ]

  pub In-order_by_intro : (y : A) (xs : List A) → In y xs → In y (order_by before xs)
  In-order_by_intro y [] m = m
  In-order_by_intro y (x ∷ xs) (inl q) = rw q (insert_by-In_new x (order_by before xs))
  In-order_by_intro y (x ∷ xs) (inr m) =
      insert_by-In_old y x (order_by before xs) (In-order_by_intro y xs m)

  -- Each row may stand before every later one.
  abbrev pub IsOrdered : List A → Type 0
  IsOrdered [] = Unit
  IsOrdered (x ∷ xs) = ((y : A) → In y xs → before x y ≡ true) × IsOrdered xs

  module _ (trans : (x y z : A) → before x y ≡ true → before y z ≡ true → before x z ≡ true)
      (total : (x y : A) → before x y ≡ false → before y x ≡ true) where
    insert_by-IsOrdered : (x : A) (xs : List A) → IsOrdered xs → IsOrdered (insert_by before x xs)
    insert_by-IsOrdered x [] o = ((λ y m. absurd m), tt)
    insert_by-IsOrdered x (z ∷ zs) (h, o) = elim (Bool-cases (before x z)) [
      | inl e ↦
          rw e (
            (λ y m. elim m [ inl q ↦ ap (before x) q ∙ e | inr n ↦ trans x z y e (h y n) ]),
            (h, o),
          )
      | inr e ↦ rw e (
        (λ y m. elim (In-insert_by y x zs m) [
          | inl q ↦ ap (before z) q ∙ total x z e
          | inr n ↦ h y n
        ]),
        insert_by-IsOrdered x zs o,
      )
    ]

    pub order_by-IsOrdered : (xs : List A) → IsOrdered (order_by before xs)
    order_by-IsOrdered [] = tt
    order_by-IsOrdered (x ∷ xs) = insert_by-IsOrdered x (order_by before xs) (order_by-IsOrdered xs)
