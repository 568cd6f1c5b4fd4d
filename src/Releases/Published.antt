-- ===== src/Releases/Published.antt =====
-- Proofs on what the update manifest lists, what the cache answers, and what a client makes of it.
use skype7_reborn.Prelude.{
  ℕ, ◌+◌, ◌≤◌, ◌<◌, ◌/◌, String, Bool, true, false, Option, none, some, List, [], ◌∷◌, ◌≡◌, ◌≢◌,
  refl, sym, ap, ◌∙◌, arith, ◌==◌, if◌then◌else◌, eq_iff, Bool-cases, inl, inr, ◌⊎◌,
}
use skype7_reborn.Prelude.Text.{trim_space}
use skype7_reborn.Prelude.Dict.{lookup, lookup-insert}
use skype7_reborn.Prelude.Table.{query_row}
use skype7_reborn.Prelude.Table.Rows.{or_else}
use skype7_reborn.Releases.{
  PlatformAsset, UpdateManifest, UpdateCache, GhAsset, GhRelease, Github, update_ttl,
  classify_asset, fetch_checksums, checksums_url, entry, add_platform, add_platforms,
  release_manifest, env_manifest, refresh_update_manifest, is_fresh, version_handler, or_default,
}

-- The asset that is published for a platform, if there is one.
abbrev pub published : List (String × String) → Option GhAsset → Option PlatformAsset
published sums none = none
published sums (some a) = some (entry sums a)

abbrev pub is_for : String → GhAsset → Bool
is_for platform a = classify_asset a.name == platform

lookup-add_platform :
    (sums : List (String × String)) (platform : String) (a : GhAsset)
    (ps : List (String × PlatformAsset))
    → platform ≢ ""
    → lookup platform (add_platform sums a ps)
      ≡ or_else (lookup platform ps) (if is_for platform a then some (entry sums a) else none)
unfolding add_platform
lookup-add_platform sums platform a ps h = ground (
  arith,
  h,
  lookup-insert (classify_asset a.name) platform (entry sums a) ps,
  eq_iff (classify_asset a.name) platform,
  eq_iff (classify_asset a.name) "",
)

lookup-add_platforms :
    (sums : List (String × String)) (platform : String) (assets : List GhAsset)
    (ps : List (String × PlatformAsset))
    → platform ≢ ""
    → lookup platform (add_platforms sums assets ps)
      ≡ or_else (lookup platform ps) (published sums (query_row (is_for platform) assets))
unfolding add_platforms query_row
lookup-add_platforms sums platform [] ps h = or_none (lookup platform ps)
  where
    or_none : (o : Option PlatformAsset) → o ≡ or_else o none
    or_none none = refl
    or_none (some a) = refl
lookup-add_platforms sums platform (a ∷ assets) ps h =
    lookup-add_platforms sums platform assets (add_platform sums a ps) h
    ∙ ap (λ o. or_else o (published sums (query_row (is_for platform) assets)))
        (lookup-add_platform sums platform a ps h)
    ∙ joined (lookup platform ps) (is_for platform a)
  where
    joined :
        (o : Option PlatformAsset) (b : Bool)
        → or_else
            (or_else o (if b then some (entry sums a) else none))
            (published sums (query_row (is_for platform) assets))
          ≡ or_else o (published sums (if b then some a else query_row (is_for platform) assets))
    joined none true = refl
    joined none false = refl
    joined (some p) b = refl

-- The manifest of a release lists, for each platform, the first of the release's assets whose name is
-- classified as that platform's, with the SHA-256 that the release's checksums list for that name, and
-- nothing where no asset is.
pub lookup-release_manifest :
    (gh : Github) (rel : GhRelease) (now : ℕ) (platform : String)
    → platform ≢ ""
    → lookup platform (release_manifest gh rel now).platforms
      ≡ published
          (fetch_checksums gh (checksums_url rel.assets))
          (query_row (is_for platform) rel.assets)
unfolding release_manifest lookup
lookup-release_manifest gh rel now platform h =
    lookup-add_platforms (fetch_checksums gh (checksums_url rel.assets)) platform rel.assets [] h

refreshed_at-refresh_update_manifest :
    (gh : Github) (repo : String) (now : ℕ)
    → (refresh_update_manifest gh repo now).refreshed_at ≡ now / 1000000000
unfolding refresh_update_manifest env_manifest release_manifest
refreshed_at-refresh_update_manifest gh repo now = ground arith

version_handler-cases :
    (gh : Github) (now : ℕ) (c : UpdateCache)
    → ((version_handler gh now c ≡ (c.manifest, c))
        × (now < c.expires)
        × (0 < c.manifest.refreshed_at))
      ⊎ ((m : UpdateManifest) × (version_handler gh now c
            ≡ (m, record { manifest = m; expires = now + update_ttl }))
          × (m.refreshed_at ≡ now / 1000000000))
unfolding version_handler is_fresh
version_handler-cases gh now c = elim (Bool-cases (is_fresh now c)) [
  | inl e ↦ inl (cc, ground (arith, e), ground (arith, e))
  | inr e ↦
      let m =
        refresh_update_manifest gh
          (or_default (trim_space gh.release_repo) "jakes1345/skype7-reborn") now in
      inr (
        m,
        cc,
        refreshed_at-refresh_update_manifest gh
            (or_default (trim_space gh.release_repo) "jakes1345/skype7-reborn") now,
      )
]

version_handler-kept :
    (gh : Github) (now : ℕ) (c : UpdateCache)
    → 1000000000 ≤ now
    → ((version_handler gh now c).0 ≡ (version_handler gh now c).1.manifest)
      × (0 < (version_handler gh now c).1.manifest.refreshed_at)
version_handler-kept gh now c started = elim (version_handler-cases gh now c) [
  | inl (e, fresh, positive) ↦ (
    ap (λ x. x.0) e ∙ sym (ap (λ x. x.1.manifest) e),
    omega (arith, positive, ap (λ x. x.1.manifest.refreshed_at) e),
  )
  | inr (m, e, refreshed) ↦ (
    ap (λ x. x.0) e ∙ sym (ap (λ x. x.1.manifest) e),
    omega (arith, refreshed, started, ap (λ x. x.1.manifest.refreshed_at) e),
  )
]

version_handler-fresh :
    (gh : Github) (now : ℕ) (c : UpdateCache)
    → now < c.expires
    → 0 < c.manifest.refreshed_at
    → version_handler gh now c ≡ (c.manifest, c)
unfolding version_handler is_fresh
version_handler-fresh gh now c h k = answered (ground (arith, h, k))
  where
    answered : is_fresh now c ≡ true → version_handler gh now c ≡ (c.manifest, c)
    answered e = cc

-- Once a request was answered, every request before the cache expires is answered with the same
-- manifest, whatever GitHub says by then, and the cache does not change. The clock is past its first
-- second.
pub version_handler-cached :
    (gh later_gh : Github) (now later : ℕ) (c : UpdateCache)
    → 1000000000 ≤ now
    → later < (version_handler gh now c).1.expires
    → version_handler later_gh later (version_handler gh now c).1
      ≡ ((version_handler gh now c).0, (version_handler gh now c).1)
version_handler-cached gh later_gh now later c started soon =
    let after = (version_handler gh now c).1 in
    let (same, positive) = version_handler-kept gh now c started in
    version_handler-fresh later_gh later after soon positive ∙ ap (λ m. (m, after)) (sym same)
