-- ===== src/Delivery/Semver.antt =====
-- Version texts: what format_semver writes, parse_semver reads, and what a bump gives.
use project_os_agentic_agile.Base.{
  ℕ, Bool, true, false, ◌&&◌, not, List, [], ◌∷◌, ◌++◌, Option, none, some, ◌≡◌, refl, ap, ◌∙◌,
  arith, is_space, strip, lstrip, reverse_codes,
}
use project_os_agentic_agile.Delivery.{
  is_digit, is_prerelease_code, decimal, read_code, all_codes, read_prerelease, match_semver, is_v,
  parse_semver, prerelease_suffix, format_semver,
}
use project_os_agentic_agile.Delivery.Decimal.{
  all_codes-append, decimal-digits, decimal-first, no_digit, read_number-decimal,
}

abbrev no_space : ℕ → Bool
no_space c = not (is_space c)

lstrip-none : (p : ℕ → Bool) (s : List ℕ) → all_codes (λ c. not (p c)) s ≡ true → lstrip p s ≡ s
lstrip-none p [] h = refl
lstrip-none p (c ∷ s) h = ground (arith, h)

reverse_codes-all :
    (p : ℕ → Bool) (s done : List ℕ)
    → all_codes p (reverse_codes s done) ≡ (all_codes p s && all_codes p done)
reverse_codes-all p [] done = refl
reverse_codes-all p (c ∷ s) done = ground (arith, reverse_codes-all p s (c ∷ done))

reverse_codes-twice :
    (s done : List ℕ) → reverse_codes (reverse_codes s done) [] ≡ reverse_codes done s
reverse_codes-twice [] done = refl
reverse_codes-twice (c ∷ s) done = reverse_codes-twice s (c ∷ done)

-- A text without white space is not stripped.
strip-none : (s : List ℕ) → all_codes no_space s ≡ true → strip s ≡ s
strip-none s h =
    let back : all_codes no_space (reverse_codes s []) ≡ true =
      reverse_codes-all no_space s [] ∙ rw h refl in
    rw (lstrip-none is_space s h, lstrip-none is_space (reverse_codes s []) back)
      (reverse_codes-twice s [])

all_codes-weaken :
    (p q : ℕ → Bool) (s : List ℕ)
    → ((c : ℕ) → p c ≡ true → q c ≡ true)
    → all_codes p s ≡ true
    → all_codes q s ≡ true
all_codes-weaken p q [] w h = refl
all_codes-weaken p q (c ∷ s) w h = ground (arith, h, w c, all_codes-weaken p q s w)

digit-no_space : (c : ℕ) → is_digit c ≡ true → no_space c ≡ true
digit-no_space c h = ground (arith, h)

prerelease-no_space : (c : ℕ) → is_prerelease_code c ≡ true → no_space c ≡ true
prerelease-no_space c h = ground (arith, h)

-- What a version's text may hold behind the dash.
abbrev pub is_prerelease : Option (List ℕ) → Bool
is_prerelease none = true
is_prerelease (some []) = false
is_prerelease (some (c ∷ s)) = all_codes is_prerelease_code (c ∷ s)

suffix-no_space :
    (pre : Option (List ℕ))
    → is_prerelease pre ≡ true
    → all_codes no_space (prerelease_suffix pre) ≡ true
suffix-no_space none h = refl
suffix-no_space (some []) h = cc
suffix-no_space (some (c ∷ s)) h =
    all_codes-weaken is_prerelease_code no_space (c ∷ s) prerelease-no_space h

suffix-no_digit : (pre : Option (List ℕ)) → no_digit (prerelease_suffix pre) ≡ true
suffix-no_digit none = refl
suffix-no_digit (some []) = refl
suffix-no_digit (some (c ∷ s)) = refl

read_prerelease-suffix :
    (pre : Option (List ℕ))
    → is_prerelease pre ≡ true
    → read_prerelease (prerelease_suffix pre) ≡ some pre
unfolding read_prerelease
read_prerelease-suffix none h = refl
read_prerelease-suffix (some []) h = cc
read_prerelease-suffix (some (c ∷ s)) h = rw h refl

decimal-no_space : (n : ℕ) → all_codes no_space (decimal n) ≡ true
decimal-no_space n =
    all_codes-weaken is_digit no_space (decimal n) digit-no_space (decimal-digits n)

all_codes-join :
    (p : ℕ → Bool) (xs ys : List ℕ)
    → all_codes p xs ≡ true
    → all_codes p ys ≡ true
    → all_codes p (xs ++ ys) ≡ true
all_codes-join p xs ys h k = all_codes-append p xs ys ∙ rw (h, k) refl

abbrev at_patch : ℕ → Option (List ℕ) → List ℕ
at_patch patch pre = 46 ∷ (decimal patch ++ prerelease_suffix pre)

abbrev at_minor : ℕ → ℕ → Option (List ℕ) → List ℕ
at_minor minor patch pre = 46 ∷ (decimal minor ++ at_patch patch pre)

format_semver-no_space :
    (major minor patch : ℕ) (pre : Option (List ℕ))
    → is_prerelease pre ≡ true
    → all_codes no_space (format_semver major minor patch pre) ≡ true
unfolding format_semver
format_semver-no_space major minor patch pre h =
    let third =
      all_codes-join no_space (decimal patch) (prerelease_suffix pre) (decimal-no_space patch)
        (suffix-no_space pre h) in
    let second =
      all_codes-join no_space (decimal minor) (at_patch patch pre) (decimal-no_space minor) third in
    all_codes-join no_space (decimal major) (at_minor minor patch pre) (decimal-no_space major)
      second

-- A text that starts with a decimal has no v to take off.
lstrip-decimal : (n : ℕ) (s : List ℕ) → lstrip is_v (decimal n ++ s) ≡ decimal n ++ s
lstrip-decimal n s =
    let (c, rest, q, d) = decimal-first n in
    let off : is_v c ≡ false = ground (arith, d) in rw (q, off) refl

-- parse_semver reads what format_semver writes, for all numbers, without a prerelease or with one of
-- letters, digits, dots and dashes.
pub parse_semver-format_semver :
    (major minor patch : ℕ) (pre : Option (List ℕ))
    → is_prerelease pre ≡ true
    → parse_semver (format_semver major minor patch pre)
      ≡ some (record { major = major; minor = minor; patch = patch; prerelease = pre })
unfolding parse_semver format_semver match_semver read_code
parse_semver-format_semver major minor patch pre h =
    let clean =
      strip-none (format_semver major minor patch pre)
        (format_semver-no_space major minor patch pre h) in
    let text : parse_semver (format_semver major minor patch pre)
        ≡ match_semver (decimal major ++ at_minor minor patch pre) =
      ap match_semver (ap (lstrip is_v) clean ∙ lstrip-decimal major (at_minor minor patch pre)) in
    text
    ∙ rw
        (
          read_number-decimal major (at_minor minor patch pre) refl,
          read_number-decimal minor (at_patch patch pre) refl,
          read_number-decimal patch (prerelease_suffix pre) (suffix-no_digit pre),
          read_prerelease-suffix pre h,
        )
        refl
