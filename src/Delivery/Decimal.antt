-- ===== src/Delivery/Decimal.antt =====
-- Decimal texts: what is printed is read back.
use project_os_agentic_agile.Base.{
  ℕ, zero, suc, ◌+◌, ◌*◌, ◌-◌, ◌/◌, ◌%◌, ◌≤◌, ◌<◌, Bool, true, not, ◌&&◌, List, [], ◌∷◌, ◌++◌, some,
  ◌≡◌, refl, ap, sym, ◌∙◌, inl, inr, ltb, arith, Bool-cases,
}
use project_os_agentic_agile.Delivery.{
  is_digit, decimal_in, decimal, read_digits, read_number, all_codes,
}

pub all_codes-append :
    (p : ℕ → Bool) (xs ys : List ℕ) → all_codes p (xs ++ ys) ≡ (all_codes p xs && all_codes p ys)
all_codes-append p [] ys = refl
all_codes-append p (x ∷ xs) ys = ground (arith, all_codes-append p xs ys)

pub append_assoc : (xs ys zs : List ℕ) → (xs ++ ys) ++ zs ≡ xs ++ ys ++ zs
append_assoc [] ys zs = refl
append_assoc (x ∷ xs) ys zs = ap (λ l. x ∷ l) (append_assoc xs ys zs)

-- The number that digits read onto `n`.
abbrev value : ℕ → List ℕ → ℕ
value n [] = n
value n (c ∷ s) = value (n * 10 + (c - 48)) s

value-append : (n : ℕ) (xs : List ℕ) (c : ℕ) → value n (xs ++ c ∷ []) ≡ value n xs * 10 + (c - 48)
value-append n [] c = refl
value-append n (x ∷ xs) c = value-append (n * 10 + (x - 48)) xs c

decimal_in-value : (fuel n : ℕ) → n < fuel → value 0 (decimal_in fuel n) ≡ n
unfolding decimal_in
decimal_in-value zero n h = absurd (omega (arith, h))
decimal_in-value (suc fuel) n h = elim (Bool-cases (ltb n 10)) [
  | inl t ↦ rw t (omega arith)
  | inr t ↦
      let big : 10 ≤ n = ground (arith, t) in
      let small : n / 10 < fuel = omega (arith, h, big) in
      rw t (
        value-append 0 (decimal_in fuel (n / 10)) (48 + n % 10)
        ∙ rw (decimal_in-value fuel (n / 10) small) (omega arith))
]

digit_of : (d : ℕ) → d < 10 → is_digit (48 + d) ≡ true
digit_of d h = ground (arith, h)

decimal_in-digits : (fuel n : ℕ) → all_codes is_digit (decimal_in fuel n) ≡ true
unfolding decimal_in
decimal_in-digits zero n = refl
decimal_in-digits (suc fuel) n = elim (Bool-cases (ltb n 10)) [
  | inl t ↦ rw t (rw (digit_of n (ground (arith, t))) refl)
  | inr t ↦
      let small : n % 10 < 10 = omega arith in
      rw t (
        all_codes-append is_digit (decimal_in fuel (n / 10)) ((48 + n % 10) ∷ [])
        ∙ rw (decimal_in-digits fuel (n / 10), digit_of (n % 10) small) refl)
]

pub decimal-digits : (n : ℕ) → all_codes is_digit (decimal n) ≡ true
unfolding decimal
decimal-digits n = decimal_in-digits (suc n) n

-- A text of digits has one.
nonempty_snoc : (xs : List ℕ) (c : ℕ) → (d : ℕ) × (ys : List ℕ) × (xs ++ c ∷ [] ≡ d ∷ ys)
nonempty_snoc [] c = (c, [], refl)
nonempty_snoc (x ∷ xs) c = (x, xs ++ c ∷ [], refl)

pub decimal-first : (n : ℕ) → (c : ℕ) × (s : List ℕ) × (decimal n ≡ c ∷ s) × (is_digit c ≡ true)
unfolding decimal decimal_in
decimal-first n =
    let first : (c : ℕ) × (s : List ℕ) × (decimal n ≡ c ∷ s) = elim (Bool-cases (ltb n 10)) [
      | inl t ↦ (48 + n, [], rw t refl)
      | inr t ↦
          let (c, s, e) = nonempty_snoc (decimal_in n (n / 10)) (48 + n % 10) in (c, s, rw t e)
    ] in
    let (c, s, e) = first in
    let all : all_codes is_digit (c ∷ s) ≡ true =
      sym (ap (all_codes is_digit) e) ∙ decimal-digits n in
    (c, s, e, ground (arith, all))

-- Whether a text goes on with no digit.
abbrev pub no_digit : List ℕ → Bool
no_digit [] = true
no_digit (c ∷ s) = not (is_digit c)

read_digits-all :
    (n : ℕ) (xs ys : List ℕ)
    → all_codes is_digit xs ≡ true
    → no_digit ys ≡ true
    → read_digits n (xs ++ ys) ≡ (value n xs, ys)
unfolding read_digits
read_digits-all n [] [] d e = refl
read_digits-all n [] (y ∷ ys) d e = ground (arith, e)
read_digits-all n (x ∷ xs) ys d e =
    let here : is_digit x ≡ true = ground (arith, d) in
    rw here (read_digits-all (n * 10 + (x - 48)) xs ys (ground (arith, d)) e)

-- A decimal that is followed by no digit is read as its number.
pub read_number-decimal :
    (n : ℕ) (ys : List ℕ) → no_digit ys ≡ true → read_number (decimal n ++ ys) ≡ some (n, ys)
unfolding read_number decimal
read_number-decimal n ys e =
    let (c, s, q, d) = decimal-first n in
    let v : value 0 (decimal n) ≡ n = decimal_in-value (suc n) n (omega arith) in
    let read : read_digits 0 (decimal n ++ ys) ≡ (n, ys) =
      read_digits-all 0 (decimal n) ys (decimal-digits n) e ∙ ap (λ m. (m, ys)) v in
    let opened : read_digits 0 (c ∷ s ++ ys) ≡ (n, ys) = rw q at read in rw (q, d, opened) refl
