-- ===== src/Delivery/Release.antt =====
-- The version of the next release: what the search gives, and what a bump does.
use project_os_agentic_agile.Base.{
  ℕ, suc, ◌+◌, Bool, true, false, ◌&&◌, ◌||◌, List, [], ◌∷◌, Option, none, some, ◌≡◌, refl, sym,
  inl, inr, ◌⊎◌, not, ◌==◌, ltb, arith, Bool-cases, length, strip, lower,
}
use project_os_agentic_agile.Delivery.{
  Version, parse_semver, format_semver, bump, propose_bump, has_prerelease, is_kind, resolved,
  invalid, Resolved, is_published, next_unpublished, resolve_release_version,
}
use project_os_agentic_agile.Delivery.Semver.{parse_semver-format_semver}
use project_os_agentic_agile.Delivery.Search.{
  is_from, count-le-length, Follows, next_unpublished-Follows,
}

-- A prerelease that is published cannot be bumped.
next_unpublished-invalid :
    (fuel : ℕ) (version : List ℕ) (v : Version) (published : List (List ℕ))
    → parse_semver version ≡ some v
    → has_prerelease v.prerelease ≡ true
    → is_published version published ≡ true
    → next_unpublished (suc fuel) version published ≡ some invalid
unfolding next_unpublished propose_bump bump
next_unpublished-invalid fuel version v published parsed pre t = rw (t, parsed, pre) refl

-- The declared version is used where it is not published or may be published again.
pub record IsDeclared (declared : List ℕ) (allow_republish : Bool) (published : List (List ℕ))
    (result : Option Resolved) : Type 0 where
  pub usable : (is_published declared published && not allow_republish) ≡ false
  pub result_is : result ≡ some (resolved declared)

-- A prerelease that is published and may not be published again is refused.
pub record IsRefused (v : Version) (declared : List ℕ) (allow_republish : Bool)
    (published : List (List ℕ)) (result : Option Resolved) : Type 0 where
  pub taken : (is_published declared published && not allow_republish) ≡ true
  pub is_prerelease : has_prerelease v.prerelease ≡ true
  pub result_is : result ≡ some invalid

-- Any other version that is published makes way for one of its line that is not.
pub record IsNext (v : Version) (declared : List ℕ) (allow_republish : Bool)
    (published : List (List ℕ)) (result : Option Resolved) : Type 0 where
  pub taken : (is_published declared published && not allow_republish) ≡ true
  pub is_plain : has_prerelease v.prerelease ≡ false
  pub version : List ℕ
  pub result_is : result ≡ some (resolved version)
  pub is_free : is_published version published ≡ false
  pub follows : Follows v version

-- resolve_release_version ends for every declared version that can be read, on one step more than there
-- are published versions. If it is not published, or may be published again, the result is the declared
-- version. Else, if it has a prerelease, the call raises; and if it has none, the result is a version that
-- is not published, of the same major and minor number, whose patch is no less.
pub resolve_release_version-cases :
    (declared : List ℕ) (v : Version) (allow_republish : Bool) (published : List (List ℕ))
    → parse_semver declared ≡ some v
    → let result =
        resolve_release_version (length published + 1) declared allow_republish published in
      IsDeclared declared allow_republish published result
      ⊎ (IsRefused v declared allow_republish published result
          ⊎ IsNext v declared allow_republish published result)
unfolding resolve_release_version
resolve_release_version-cases declared v allow published parsed =
    elim (Bool-cases (is_published declared published && not allow)) [
      | inr free ↦ inl (record { usable = free; result_is = rw free refl })
      | inl taken ↦ inr (
          let on : is_published declared published ≡ true = ground (arith, taken) in
          elim (Bool-cases (has_prerelease v.prerelease)) [
            | inl pre ↦ inl (record {
              taken = taken;
              is_prerelease = pre;
              result_is = rw taken (
                  rw fuel_is (
                    next_unpublished-invalid (length published) declared v published parsed pre
                      on));
            })
            | inr plain ↦
                let small = count-le-length (is_from v.patch) published in
                let (w, found, free, follows) =
                  next_unpublished-Follows (length published + 1) declared v published parsed plain
                    (omega (arith, small)) in
                inr (record {
                  taken = taken;
                  is_plain = plain;
                  version = w;
                  result_is = rw taken found;
                  is_free = free;
                  follows = follows;
                })
          ])
    ]
  where
    fuel_is : length published + 1 ≡ suc (length published)
    fuel_is = omega arith

-- The order of versions without a prerelease.
abbrev pub precedes : Version → Version → Bool
precedes v w =
    ltb v.major w.major
    || ((v.major == w.major)
        && (ltb v.minor w.minor || ((v.minor == w.minor) && ltb v.patch w.patch)))

abbrev plain_version : ℕ → ℕ → ℕ → Version
plain_version major minor patch = record {
  major = major;
  minor = minor;
  patch = patch;
  prerelease = none;
}

Bumped : Version → List ℕ → Type 0
Bumped v next =
    (u : Version) × (parse_semver next ≡ some u) × (u.prerelease ≡ none) × (precedes v u ≡ true)

bumped :
    (v : Version) (major minor patch : ℕ) (next : List ℕ)
    → precedes v (plain_version major minor patch) ≡ true
    → some (format_semver major minor patch none) ≡ some next
    → Bumped v next
unfolding Bumped
bumped v major minor patch next later h =
    let e : format_semver major minor patch none ≡ next = cc in
    (
      plain_version major minor patch,
      rw (sym e) (parse_semver-format_semver major minor patch none refl),
      refl,
      later,
    )

bump-Bumped : (v : Version) (kind next : List ℕ) → bump v kind ≡ some next → Bumped v next
unfolding bump
bump-Bumped v kind next h = elim (Bool-cases (has_prerelease v.prerelease)) [
  | inl t ↦ let q : none ≡ some next = rw (t, bump) at h in cc
  | inr t ↦ elim (Bool-cases (is_kind kind ("patch" ∷ "bugfix" ∷ "fix" ∷ []))) [
    | inl a ↦ bumped v v.major v.minor (v.patch + 1) next (ground arith) (rw (t, a, bump) at h)
    | inr a ↦ elim (Bool-cases (is_kind kind ("minor" ∷ "feature" ∷ []))) [
      | inl b ↦ bumped v v.major (v.minor + 1) 0 next (ground arith) (rw (t, a, b, bump) at h)
      | inr b ↦ elim (Bool-cases (is_kind kind ("major" ∷ "breaking" ∷ []))) [
        | inl c ↦ bumped v (v.major + 1) 0 0 next (ground arith) (rw (t, a, b, c, bump) at h)
        | inr c ↦ let q : none ≡ some next = rw (t, a, b, c, bump) at h in cc
      ]
    ]
  ]
]

-- Whatever text the change type is, a version that propose_bump gives is read by parse_semver, has no
-- prerelease, and comes after the version that it was given.
pub propose_bump-precedes :
    (current change_type next : List ℕ) (v : Version)
    → parse_semver current ≡ some v
    → propose_bump current change_type ≡ some next
    → (u : Version) × (parse_semver next ≡ some u) × (u.prerelease ≡ none) × (precedes v u ≡ true)
unfolding propose_bump Bumped
propose_bump-precedes current change_type next v parsed h =
    bump-Bumped v (lower (strip change_type)) next (rw (parsed, propose_bump) at h)
