-- ===== src/Delivery/Search.antt =====
-- The loop of release_version.py: it ends, at an unpublished version.
use project_os_agentic_agile.Base.{
  ℕ, zero, suc, ◌+◌, ◌≤◌, ◌<◌, Bool, true, false, List, [], ◌∷◌, Option, none, some, ◌≡◌, refl, inl,
  inr, ==_iff, leb, arith, Bool-cases, count, length, same_codes, codes,
}
use project_os_agentic_agile.Delivery.{
  Version, parse_semver, format_semver, bump, propose_bump, has_prerelease, resolved, is_published,
  next_unpublished,
}
use project_os_agentic_agile.Delivery.Semver.{parse_semver-format_semver}

same_codes-eq : (k j : List ℕ) → same_codes k j ≡ true → k ≡ j
same_codes-eq [] [] h = refl
same_codes-eq [] (d ∷ j) h = cc
same_codes-eq (c ∷ k) [] h = cc
same_codes-eq (c ∷ k) (d ∷ j) h =
    let e : c ≡ d = (==_iff c d).0 (ground (arith, h)) in
    let r : k ≡ j = same_codes-eq k j (ground (arith, h)) in cc

-- A text of a version without a prerelease whose patch is at least `n`.
abbrev pub version_from : ℕ → Option Version → Bool
version_from n none = false
version_from n (some v) = leb n v.patch

abbrev pub is_from : ℕ → List ℕ → Bool
is_from n text = version_from n (parse_semver text)

version_from-weaken :
    (n : ℕ) (o : Option Version) → version_from (n + 1) o ≡ true → version_from n o ≡ true
version_from-weaken n none h = h
version_from-weaken n (some v) h = ground (arith, h)

count-le :
    (p q : List ℕ → Bool) (xs : List (List ℕ))
    → ((x : List ℕ) → p x ≡ true → q x ≡ true)
    → count p xs ≤ count q xs
count-le p q [] w = omega arith
count-le p q (x ∷ xs) w = ground (arith, w x, count-le p q xs w)

pub count-le-length : (p : List ℕ → Bool) (xs : List (List ℕ)) → count p xs ≤ length xs
count-le-length p [] = omega arith
count-le-length p (x ∷ xs) = ground (arith, count-le-length p xs)

-- Each version that is tried and published leaves fewer published ones to try.
count-published :
    (version : List ℕ) (v : Version) (published : List (List ℕ))
    → parse_semver version ≡ some v
    → is_published version published ≡ true
    → count (is_from (v.patch + 1)) published < count (is_from v.patch) published
count-published version v [] parsed h = cc
count-published version v (x ∷ xs) parsed h = elim (Bool-cases (same_codes version x)) [
  | inl t ↦
      let same : version ≡ x = same_codes-eq version x t in
      let px : parse_semver x ≡ some v = rw same at parsed in
      let off : is_from (v.patch + 1) x ≡ false = rw px (ground arith) in
      let on : is_from v.patch x ≡ true = rw px (ground arith) in
      ground (
        arith,
        off,
        on,
        count-le (is_from (v.patch + 1)) (is_from v.patch) xs
            (λ y. version_from-weaken v.patch (parse_semver y)),
      )
  | inr t ↦ ground (
    arith,
    t,
    h,
    count-published version v xs parsed,
    version_from-weaken v.patch (parse_semver x),
  )
]

propose_bump-patch :
    (version : List ℕ) (v : Version)
    → parse_semver version ≡ some v
    → has_prerelease v.prerelease ≡ false
    → propose_bump version (codes "patch") ≡ some (format_semver v.major v.minor (v.patch + 1) none)
unfolding propose_bump bump
propose_bump-patch version v parsed plain = rw (parsed, plain) refl

-- A version of the same major and minor number, whose patch is no less.
pub record Follows (v : Version) (text : List ℕ) : Type 0 where
  pub patch : ℕ
  pub prerelease : Option (List ℕ)
  pub parsed :
      parse_semver text
      ≡ some (record { major = v.major; minor = v.minor; patch = patch; prerelease = prerelease })
  pub later : v.patch ≤ patch

pub next_unpublished-Follows :
    (fuel : ℕ) (version : List ℕ) (v : Version) (published : List (List ℕ))
    → parse_semver version ≡ some v
    → has_prerelease v.prerelease ≡ false
    → count (is_from v.patch) published < fuel
    → (w : List ℕ) × (next_unpublished fuel version published ≡ some (resolved w))
      × (is_published w published ≡ false)
      × Follows v w
unfolding next_unpublished
next_unpublished-Follows zero version v published parsed plain h = absurd (omega (arith, h))
next_unpublished-Follows (suc fuel) version v published parsed plain h =
    elim (Bool-cases (is_published version published)) [
      | inr t ↦ (
        version,
        rw t refl,
        t,
        record { patch = v.patch; prerelease = v.prerelease; parsed = parsed; later = omega arith },
      )
      | inl t ↦
          let next = format_semver v.major v.minor (v.patch + 1) none in
          let less = count-published version v published parsed t in
          let u : Version = record {
            major = v.major;
            minor = v.minor;
            patch = v.patch + 1;
            prerelease = none;
          } in
          let (w, found, free, follows) =
            next_unpublished-Follows fuel next u published
              (parse_semver-format_semver v.major v.minor (v.patch + 1) none refl) refl
              (omega (arith, less, h)) in
          (
            w,
            rw (t, propose_bump-patch version v parsed plain) found,
            free,
            record {
              patch = follows.patch;
              prerelease = follows.prerelease;
              parsed = follows.parsed;
              later = omega (arith, follows.later);
            },
          )
    ]
