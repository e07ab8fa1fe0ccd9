-- ===== src/Delivery.antt =====
-- delivery/semver.py, delivery/release_version.py and delivery/gates.py: version texts, the version of the
-- next release, and the release gates. A text is its list of code points, for ASCII texts.
pub mod Decimal
pub mod Semver
pub mod Search
pub mod Release
pub mod Gates
use project_os_agentic_agile.Base.{
  ℕ, zero, suc, ◌+◌, ◌*◌, ◌-◌, ◌/◌, ◌%◌, String, Bool, true, false, ◌&&◌, ◌||◌, not, List, [], ◌∷◌,
  ◌++◌, Option, none, some, ◌==◌, ltb, leb, if◌then◌else◌, any, codes, same_codes, strip, lstrip,
  lower,
}

abbrev pub is_digit : ℕ → Bool
is_digit c = leb 48 c && leb c 57

-- A character of [0-9A-Za-z.-].
abbrev pub is_prerelease_code : ℕ → Bool
is_prerelease_code c =
    is_digit c || (leb 65 c && leb c 90) || (leb 97 c && leb c 122) || ((c == 46) || (c == 45))

-- str(n), on fuel: a number has at most as many digits as it counts, and one.
unfoldable pub decimal_in : (fuel : ℕ) → ℕ → List ℕ
decimal_in zero n = []
decimal_in (suc fuel) n =
    let rest = decimal_in fuel (n / 10) in
    if ltb n 10 then (48 + n) ∷ [] else rest ++ (48 + n % 10) ∷ []

unfoldable pub decimal : ℕ → List ℕ
decimal n = decimal_in (suc n) n

-- The digits that follow, onto the number read, and the rest.
unfoldable pub read_digits : ℕ → List ℕ → ℕ × List ℕ
read_digits n [] = (n, [])
read_digits n (c ∷ s) = if is_digit c then read_digits (n * 10 + (c - 48)) s else (n, c ∷ s)

-- (\d+), read as a number.
unfoldable pub read_number : List ℕ → Option (ℕ × List ℕ)
read_number [] = none
read_number (c ∷ s) = if is_digit c then some (read_digits 0 (c ∷ s)) else none

-- The character, and what is after it.
unfoldable pub read_code : ℕ → List ℕ → Option (List ℕ)
read_code c [] = none
read_code c (d ∷ s) = if d == c then some s else none

abbrev pub all_codes : (ℕ → Bool) → List ℕ → Bool
all_codes p [] = true
all_codes p (c ∷ s) = p c && all_codes p s

-- (?:-([0-9A-Za-z.-]+))?$ ; the inner `none` is a release without a prerelease.
unfoldable pub read_prerelease : List ℕ → Option (Option (List ℕ))
read_prerelease [] = some none
read_prerelease (c ∷ []) = none
read_prerelease (c ∷ d ∷ s) =
    if (c == 45) && all_codes is_prerelease_code (d ∷ s) then some (some (d ∷ s)) else none

pub record Version : Type 0 where
  pub major : ℕ
  pub minor : ℕ
  pub patch : ℕ
  pub prerelease : Option (List ℕ)

infixl 5 ◌>>=◌
abbrev pub ◌>>=◌ : {A B : Type 0} → Option A → (A → Option B) → Option B
none >>= f = none
some a >>= f = f a

-- SEMVER_RE.match
unfoldable pub match_semver : List ℕ → Option Version
match_semver text = do
  (major, at_dot) ← read_number text
  at_minor ← read_code 46 at_dot
  (minor, at_next) ← read_number at_minor
  at_patch ← read_code 46 at_next
  (patch, at_end) ← read_number at_patch
  prerelease ← read_prerelease at_end
  some (record { major = major; minor = minor; patch = patch; prerelease = prerelease })

abbrev pub is_v : ℕ → Bool
is_v c = (c == 118) || (c == 86)

-- `none` stands for the OrchestrationError.
unfoldable pub parse_semver : List ℕ → Option Version
parse_semver value = match_semver (lstrip is_v (strip value))

abbrev pub prerelease_suffix : Option (List ℕ) → List ℕ
prerelease_suffix none = []
prerelease_suffix (some []) = []
prerelease_suffix (some (c ∷ s)) = 45 ∷ c ∷ s

unfoldable pub format_semver : (major minor patch : ℕ) → (prerelease : Option (List ℕ)) → List ℕ
format_semver major minor patch prerelease =
    decimal major
    ++ (46 ∷ (decimal minor ++ (46 ∷ (decimal patch ++ prerelease_suffix prerelease))))

abbrev pub starts_v : List ℕ → Bool
starts_v [] = false
starts_v (c ∷ s) = c == 118

unfoldable pub format_tag : List ℕ → List ℕ
format_tag version = let text = strip version in if starts_v text then text else 118 ∷ text

abbrev pub is_kind : List ℕ → List String → Bool
is_kind kind names = any (λ n. same_codes kind (codes n)) names

-- `if prerelease:`
abbrev pub has_prerelease : Option (List ℕ) → Bool
has_prerelease none = false
has_prerelease (some []) = false
has_prerelease (some (_ ∷ _)) = true

unfoldable pub bump : Version → List ℕ → Option (List ℕ)
bump v kind =
    if has_prerelease v.prerelease
    then none
    else if is_kind kind ("patch" ∷ "bugfix" ∷ "fix" ∷ [])
    then some (format_semver v.major v.minor (v.patch + 1) none)
    else if is_kind kind ("minor" ∷ "feature" ∷ [])
    then some (format_semver v.major (v.minor + 1) 0 none)
    else if is_kind kind ("major" ∷ "breaking" ∷ [])
    then some (format_semver (v.major + 1) 0 0 none)
    else none

-- `none` stands for each OrchestrationError.
unfoldable pub propose_bump : (current change_type : List ℕ) → Option (List ℕ)
propose_bump current change_type = do v ← parse_semver current; bump v (lower (strip change_type))

-- What resolve_release_version gives; `invalid` stands for the OrchestrationError of propose_bump.
pub data Resolved : Type 0 where
  resolved : (version : List ℕ) → Resolved
  invalid : Resolved

abbrev pub is_published : List ℕ → List (List ℕ) → Bool
is_published version published = any (same_codes version) published

-- The loop, on fuel, which runs out at `none`.
unfoldable pub next_unpublished : (fuel : ℕ) → List ℕ → List (List ℕ) → Option Resolved
next_unpublished zero version published = none
next_unpublished (suc fuel) version published =
    if is_published version published
    then elim (propose_bump version (codes "patch")) [
      | none ↦ some invalid
      | some next ↦ next_unpublished fuel next published
    ]
    else some (resolved version)

-- `declared` is what read_declared_version finds, or "0.1.0"; `published` are the versions of the
-- project's releases that are published.
unfoldable pub resolve_release_version :
    (fuel : ℕ)
    → (declared : List ℕ) → (allow_republish : Bool) → (published : List (List ℕ)) → Option Resolved
resolve_release_version fuel declared allow_republish published =
    if is_published declared published && not allow_republish
    then next_unpublished fuel declared published
    else some (resolved declared)
