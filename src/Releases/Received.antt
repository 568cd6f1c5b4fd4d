-- ===== src/Releases/Received.antt =====
-- The manifest of versionHandler as the client's updater decodes it, and a proof on the way from a
-- release's checksums to a file on the client's disk.
use skype7_reborn.Prelude.{
  ℕ, String, Option, none, some, List, [], ◌∷◌, ◌≡◌, ◌≢◌, refl, sym, ap, ◌∙◌, arith, ◌==◌, ok,
  Bool-cases, inl, inr,
}
use skype7_reborn.Prelude.Dict.{lookup}
use skype7_reborn.Prelude.Table.{query_row}
use skype7_reborn.Prelude.Text.{to_lower, hex_encode}
use skype7_reborn.Releases.{
  PlatformAsset, UpdateManifest, GhAsset, GhRelease, Github, fetch_checksums, checksums_url, sum_of,
  entry, release_manifest,
}
use skype7_reborn.Releases.Published.{published, is_for, lookup-release_manifest}
use skype7_reborn.Client.Updater.{
  Machine, Files, Bytes, platform_asset_for, download_and_verify, PlatformAsset as ClientAsset,
  Manifest,
}
use skype7_reborn.Client.Updater.Verified.{download_and_verify-Matches}

-- The JSON names of the two PlatformAsset structs agree.
unfoldable pub received_asset : PlatformAsset → ClientAsset
received_asset a = record { url = a.url; sha256 = a.sha256; size = a.size; name = a.name }

unfoldable pub received_platforms : List (String × PlatformAsset) → List (String × ClientAsset)
unfolding received_asset
received_platforms [] = []
received_platforms (e ∷ es) = (e.0, received_asset e.1) ∷ received_platforms es

-- The server sends the release's URL under the legacy name too.
unfoldable pub received : UpdateManifest → Manifest
unfolding received_platforms
received m = record {
  version = m.version;
  release_url = m.release_url;
  url = m.release_url;
  release_notes = m.release_notes;
  platforms = received_platforms m.platforms;
}

lookup-received_platforms :
    (key : String) (es : List (String × PlatformAsset)) (a : ClientAsset)
    → lookup key (received_platforms es) ≡ some a
    → (p : PlatformAsset) × (lookup key es ≡ some p) × (received_asset p ≡ a)
unfolding received_platforms lookup
lookup-received_platforms key [] a h = absurd (none_some h)
  where
    none_some : Path (Option ClientAsset) none (some a) → ⊥
    none_some e = cc
lookup-received_platforms key (e ∷ es) a h = elim (Bool-cases (e.0 == key)) [
  | inl k ↦ (e.1, ground (arith, k, h), ground (arith, k, h))
  | inr k ↦
      let (p, found, same) = lookup-received_platforms key es a (ground (arith, k, h)) in
      (p, ground (arith, k, found), same)
]

lookup-platform_asset_for :
    (m : Manifest) (key : String) (a : ClientAsset)
    → platform_asset_for m key ≡ some a
    → lookup key m.platforms ≡ some a
unfolding platform_asset_for
lookup-platform_asset_for m key a h = ground arith

published-some :
    (sums : List (String × String)) (o : Option GhAsset) (p : PlatformAsset)
    → published sums o ≡ some p
    → (g : GhAsset) × (o ≡ some g) × (p.sha256 ≡ sum_of sums g.name)
unfolding entry
published-some sums none p h = absurd (none_some h)
  where
    none_some : Path (Option PlatformAsset) none (some p) → ⊥
    none_some e = cc
published-some sums (some g) p h = (g, refl, cc)

-- When a client downloads the asset that the manifest of a release lists for its platform, without an
-- error, the file has the SHA-256 that the release's checksums list for the first of the release's
-- assets for that platform.
pub download_and_verify-release_manifest :
    (gh : Github) (rel : GhRelease) (now : ℕ) (key : String) (a : ClientAsset) (w : Machine)
    (dest_dir path : String) (fs : Files)
    → key ≢ ""
    → platform_asset_for (received (release_manifest gh rel now)) key ≡ some a
    → (download_and_verify w a dest_dir fs).0 ≡ ok path
    → (g : GhAsset) × (query_row (is_for key) rel.assets ≡ some g)
      × ((content : Bytes) × (lookup path (download_and_verify w a dest_dir fs).1 ≡ some content)
          × (to_lower (hex_encode (w.sum256 content))
              ≡ to_lower (sum_of (fetch_checksums gh (checksums_url rel.assets)) g.name)))
unfolding received received_asset
download_and_verify-release_manifest gh rel now key a w dest_dir path fs some_key listed done =
    let m = release_manifest gh rel now in
    let sums = fetch_checksums gh (checksums_url rel.assets) in
    let in_map = lookup-platform_asset_for (received m) key a listed in
    let (p, found, same) = lookup-received_platforms key m.platforms a in_map in
    let (g, first, sum) =
      published-some sums (query_row (is_for key) rel.assets) p
        (sym (lookup-release_manifest gh rel now key some_key) ∙ found) in
    let (_, (content, there, (hash, _, _))) =
      download_and_verify-Matches w a dest_dir path fs done in
    (g, first, (content, there, hash ∙ ap to_lower (sym (ap (λ x. x.sha256) same) ∙ sum)))
