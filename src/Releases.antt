-- ===== src/Releases.antt =====
-- The update manifest of nexus_server/main.go: classifyAsset, fetchChecksums, refreshUpdateManifest,
-- versionHandler. GitHub's answers and the environment are parameters.
pub mod Published
pub mod Received
use skype7_reborn.Prelude.{
  ℕ, ◌+◌, ◌*◌, ◌/◌, String, Bool, ◌&&◌, ◌||◌, Option, none, some, List, [], ◌∷◌, ◌==◌, ltb, nat_eq,
  if◌then◌else◌, Result, ok, err,
}
use skype7_reborn.Prelude.Int.{ℤ}
use skype7_reborn.Prelude.Dict.{lookup, insert}
use skype7_reborn.Prelude.Text.{
  append, len, contains, starts_with, ends_with, to_lower, fold_text, trim_space, trim_prefix,
  split, fields,
}
use skype7_reborn.Prelude.Table.{query_row}

pub record PlatformAsset : Type 0 where
  pub url : String
  pub sha256 : String
  pub size : ℤ
  pub name : String

pub record UpdateManifest : Type 0 where
  pub version : String
  pub release_url : String
  pub release_notes : String
  pub published_at : String
  pub platforms : List (String × PlatformAsset)
  pub refreshed_at : ℕ
  pub source : String

pub record UpdateCache : Type 0 where
  pub manifest : UpdateManifest
  pub expires : ℕ

pub record GhAsset : Type 0 where
  pub name : String
  pub browser_download_url : String
  pub size : ℤ

pub record GhRelease : Type 0 where
  pub tag_name : String
  pub body : String
  pub html_url : String
  pub published_at : String
  pub assets : List GhAsset

pub record Github : Type 0 where
  -- The environment
  pub release_repo : String
  pub latest_version : String
  pub update_url : String
  -- The release as decoded, or what failed: the request, its status, the decoding
  pub latest_release : String → Result GhRelease
  -- The text at a URL, at most 1 MiB of it, unless the request or its status fails
  pub get_text : String → Option String

-- In nanoseconds
abbrev pub update_ttl : ℕ
update_ttl = 300000000000

unfoldable pub classify_asset : String → String
classify_asset name =
    let low = to_lower name in
    if ends_with low ".exe" || contains low "windows"
    then "windows"
    else if ends_with low ".apk"
    then "android"
    else if ends_with low ".linux" || contains low "linux"
    then "linux"
    else ""

-- What a line of two words adds to the map.
unfoldable pub add_sum : String → String → List (String × String) → List (String × String)
add_sum sum name sums =
    if nat_eq (len sum) 64 then insert (trim_prefix "*" name) (to_lower sum) sums else sums

unfoldable pub add_words : List String → List (String × String) → List (String × String)
unfolding add_sum
add_words (sum ∷ name ∷ []) sums = add_sum sum name sums
add_words _ sums = sums

unfoldable pub add_line : String → List (String × String) → List (String × String)
unfolding add_words
add_line line sums =
    let line = trim_space line in
    if line == "" || starts_with line "#" then sums else add_words (fields line) sums

unfoldable pub add_lines : List String → List (String × String) → List (String × String)
unfolding add_line
add_lines [] sums = sums
add_lines (line ∷ lines) sums = add_lines lines (add_line line sums)

-- A nil map has no entry.
unfoldable pub fetch_checksums : Github → String → List (String × String)
unfolding add_lines
fetch_checksums gh url =
    if url == ""
    then []
    else elim (gh.get_text url) [ none ↦ [] | some body ↦ add_lines (split 10 body) [] ]

unfoldable pub is_checksums : GhAsset → Bool
is_checksums a = fold_text a.name == "checksums.txt"

unfoldable pub checksums_url : List GhAsset → String
unfolding is_checksums
checksums_url assets = elim (query_row is_checksums assets) [
  | none ↦ ""
  | some a ↦ a.browser_download_url
]

-- sums[name]
unfoldable pub sum_of : List (String × String) → String → String
sum_of sums name = elim (lookup name sums) [ none ↦ "" | some sum ↦ sum ]

unfoldable pub entry : List (String × String) → GhAsset → PlatformAsset
unfolding sum_of
entry sums a = record {
  url = a.browser_download_url;
  sha256 = sum_of sums a.name;
  size = a.size;
  name = a.name;
}

unfoldable pub add_platform :
    List (String × String) → GhAsset → List (String × PlatformAsset) → List (String × PlatformAsset)
unfolding entry
add_platform sums a platforms =
    if classify_asset a.name == ""
    then platforms
    else elim (lookup (classify_asset a.name) platforms) [
      | some taken ↦ platforms
      | none ↦ insert (classify_asset a.name) (entry sums a) platforms
    ]

unfoldable pub add_platforms :
    List (String × String)
    → List GhAsset
    → List (String × PlatformAsset)
    → List (String × PlatformAsset)
unfolding add_platform
add_platforms sums [] platforms = platforms
add_platforms sums (a ∷ assets) platforms =
    add_platforms sums assets (add_platform sums a platforms)

unfoldable pub or_default : String → String → String
or_default s d = if s == "" then d else s

unfoldable pub env_manifest : Github → String → ℕ → UpdateManifest
unfolding or_default
env_manifest gh repo now = record {
  version = trim_space gh.latest_version;
  release_url =
      or_default (trim_space gh.update_url)
        (append "https://github.com/" (append repo "/releases/latest"));
  release_notes = "";
  published_at = "";
  platforms = [];
  refreshed_at = now / 1000000000;
  source = "env";
}

unfoldable pub release_manifest : Github → GhRelease → ℕ → UpdateManifest
unfolding or_default add_platforms checksums_url fetch_checksums
release_manifest gh rel now = record {
  version = or_default (trim_prefix "v" rel.tag_name) (trim_space gh.latest_version);
  release_url = rel.html_url;
  release_notes = rel.body;
  published_at = rel.published_at;
  platforms = add_platforms (fetch_checksums gh (checksums_url rel.assets)) rel.assets [];
  refreshed_at = now / 1000000000;
  source = "github";
}

unfoldable pub refresh_update_manifest : Github → String → ℕ → UpdateManifest
unfolding env_manifest release_manifest
refresh_update_manifest gh repo now =
    if repo == "" then env_manifest gh repo now else elim (gh.latest_release repo) [
      | err e ↦ env_manifest gh repo now
      | ok rel ↦ release_manifest gh rel now
    ]

unfoldable pub is_fresh : ℕ → UpdateCache → Bool
is_fresh now c = ltb now c.expires && ltb 0 c.manifest.refreshed_at

-- The manifest that is sent, and the cache.
unfoldable pub version_handler : Github → ℕ → UpdateCache → UpdateManifest × UpdateCache
unfolding is_fresh refresh_update_manifest or_default
version_handler gh now c =
    if is_fresh now c
    then (c.manifest, c)
    else let m =
        refresh_update_manifest gh
          (or_default (trim_space gh.release_repo) "jakes1345/skype7-reborn") now in
      (m, record { manifest = m; expires = now + update_ttl })
