-- ===== src/Tests/Updates.antt =====
-- The theorems on updates at concrete inputs: a file server with one asset and a release with its
-- checksums stand for what lies outside the program.
use skype7_reborn.Prelude.{
  String, ℕ, zero, suc, true, false, none, some, List, [], ◌∷◌, ◌==◌, ◌≡◌, refl, length,
  if◌then◌else◌, ok, err, ◌≢◌, text-apart,
}
use skype7_reborn.Prelude.Int.{pos}
use skype7_reborn.Prelude.Dict.{lookup}
use skype7_reborn.Client.Version.{is_newer, parse_version}
use skype7_reborn.Client.Version.Order.{is_newer_trans}
use skype7_reborn.Client.Updater.{
  Machine, PlatformAsset, Manifest, Files, Bytes, download_and_verify, final_path,
  platform_asset_for,
}
use skype7_reborn.Client.Updater.Verified.{
  Matches, download_and_verify-Matches, download_and_verify-untouched,
}
use skype7_reborn.Client.Updater.Prompt.{Desktop, scheduled, check_for_updates}
use skype7_reborn.Client.Updater.Prompt.Verified.{applied, check_for_updates-Matches}
use skype7_reborn.Prelude.Table.{query_row}
use skype7_reborn.Prelude.Text.{to_lower, hex_encode}
use skype7_reborn.Releases.{GhAsset, GhRelease, Github, fetch_checksums, checksums_url, sum_of}
use skype7_reborn.Releases.Published.{is_for}
use skype7_reborn.Releases.Received.{download_and_verify-release_manifest}

is_newer_trans_example : (is_newer "v1.10.0" "1.9" ≡ true) × (is_newer "1.9" "v1.10.0" ≡ false)
unfolding parse_version skype7_reborn.Prelude.Text.cut skype7_reborn.Prelude.Text.trim_space
    skype7_reborn.Prelude.Text.trim_prefix skype7_reborn.Prelude.Text.is_digit is_newer
    skype7_reborn.Client.Version.newer_numbers skype7_reborn.Client.Version.pre_release
is_newer_trans_example =
    is_newer_trans "v1.10.0" "1.10.0-rc1" "1.9" (record { major = 1; minor = 10; patch = 0 })
      (record { major = 1; minor = 10; patch = 0 }) (record { major = 1; minor = 9; patch = 0 })
      refl refl refl refl refl

abbrev server : Machine
server = record {
  separator = "/";
  get = λ u.
      if u == "https://h/phaze"
      then ok (record { status = 200; body = 1 ∷ 2 ∷ []; read_error = none })
      else err "refused";
  sum256 = λ bs. length bs ∷ [];
  mkdir_error = none;
  create_error = none;
  close_error = none;
  rename_error = none;
  can_remove = true;
}

abbrev asset : PlatformAsset
asset = record { url = "https://h/phaze"; sha256 = "02"; size = pos 2; name = "phaze" }

-- Listed with another hash.
abbrev forged : PlatformAsset
forged = record asset { sha256 = "0F" }

abbrev old_files : Files
old_files = ("/tmp/phaze", 9 ∷ []) ∷ []

download_and_verify-Matches_example :
    ("/tmp/phaze" ≡ final_path server asset "/tmp")
    × ((content : Bytes) × (lookup "/tmp/phaze"
            (download_and_verify server asset "/tmp" old_files).1
          ≡ some content)
        × Matches server asset content)
unfolding download_and_verify skype7_reborn.Client.Updater.obtain
    skype7_reborn.Prelude.Text.contains skype7_reborn.Prelude.Text.to_lower
    skype7_reborn.Prelude.Text.hex_encode
download_and_verify-Matches_example =
    download_and_verify-Matches server asset "/tmp" "/tmp/phaze" old_files refl

download_and_verify-untouched_example :
    lookup "/tmp/phaze" (download_and_verify server forged "/tmp" old_files).1
    ≡ lookup "/tmp/phaze" old_files
unfolding lookup skype7_reborn.Client.Updater.tmp_path download_and_verify
    skype7_reborn.Client.Updater.obtain skype7_reborn.Prelude.Text.contains
    skype7_reborn.Prelude.Text.to_lower skype7_reborn.Prelude.Text.hex_encode
download_and_verify-untouched_example =
    download_and_verify-untouched server forged "/tmp" "/tmp/phaze" old_files refl refl refl

abbrev desktop : Desktop
desktop = record {
  machine = server;
  version = "1.0.0";
  platform_key = "linux";
  api = "https://h";
  staging_dir = "/tmp";
  answer = true;
  url_parses = λ u. true;
  apply_outcome = λ p. scheduled;
}

abbrev manifest : Manifest
manifest = record {
  version = "1.1.0";
  release_url = "";
  url = "";
  release_notes = "";
  platforms = ("linux", asset) ∷ [];
}

check_for_updates-Matches_example :
    (desktop.answer ≡ true)
    × (is_newer "1.1.0" "1.0.0" ≡ true)
    × ((a : PlatformAsset) × (platform_asset_for manifest "linux" ≡ some a)
        × ((content : Bytes) × (lookup "/tmp/phaze" (check_for_updates desktop (ok manifest) []).1
              ≡ some content)
            × Matches server a content))
unfolding applied check_for_updates is_newer parse_version skype7_reborn.Prelude.Text.cut
    skype7_reborn.Prelude.Text.trim_space skype7_reborn.Prelude.Text.trim_prefix
    skype7_reborn.Prelude.Text.is_digit skype7_reborn.Client.Version.newer_numbers
    skype7_reborn.Client.Updater.Prompt.offer_update skype7_reborn.Client.Updater.Prompt.verifiable
    platform_asset_for lookup skype7_reborn.Client.Updater.Prompt.perform_update download_and_verify
    skype7_reborn.Client.Updater.obtain skype7_reborn.Prelude.Text.contains
    skype7_reborn.Client.Updater.Prompt.after_apply
    skype7_reborn.Client.Updater.Prompt.finish_update skype7_reborn.Client.Updater.asset_error
    skype7_reborn.Client.Updater.equal_fold final_path skype7_reborn.Client.Updater.rejection
    skype7_reborn.Client.Updater.tmp_path skype7_reborn.Client.Updater.write_and_rename
    skype7_reborn.Client.Updater.wrong_size skype7_reborn.Client.Version.atoi
    skype7_reborn.Client.Version.bare skype7_reborn.Client.Version.compare_part
    skype7_reborn.Client.Version.cut_suffix skype7_reborn.Client.Version.digits_from
    skype7_reborn.Client.Version.numbers skype7_reborn.Client.Version.pre_release
    skype7_reborn.Client.Version.release skype7_reborn.Client.Version.split_n
    skype7_reborn.Client.Version.then_part skype7_reborn.Prelude.Dict.erase
    skype7_reborn.Prelude.Dict.insert skype7_reborn.Prelude.Table.limit
    skype7_reborn.Prelude.Text.hex_digit skype7_reborn.Prelude.Text.hex_encode
    skype7_reborn.Prelude.Text.lower skype7_reborn.Prelude.Text.to_lower
    skype7_reborn.Prelude.Text.trim_left skype7_reborn.Prelude.Text.trim_right
check_for_updates-Matches_example = check_for_updates-Matches desktop manifest [] "/tmp/phaze" refl

abbrev linux_asset : GhAsset
linux_asset = record { name = "phaze"; browser_download_url = "https://h/phaze"; size = pos 2 }

-- Its name says the platform.
abbrev release : GhRelease
release = record {
  tag_name = "v1.1.0";
  body = "";
  html_url = "https://h";
  published_at = "";
  assets =
      record { name = "checksums.txt"; browser_download_url = "https://h/sums"; size = pos 1 }
      ∷ record linux_asset { name = "phaze.linux" }
      ∷ [];
}

-- The sum of the file server's hash of two bytes, in 64 digits.
abbrev github : Github
github = record {
  release_repo = "";
  latest_version = "";
  update_url = "";
  latest_release = λ r. ok release;
  get_text = λ u.
      some
        "# sums\n0202020202020202020202020202020202020202020202020202020202020202  phaze.linux\n";
}

-- Hashes are 32 bytes.
abbrev long_hashes : Machine
long_hashes = record server { sum256 = λ bs. repeat 32 (length bs) }
  where
    repeat : ℕ → ℕ → List ℕ
    repeat zero b = []
    repeat (suc n) b = b ∷ repeat n b

abbrev linux : String
linux = "linux"

linux_named : linux ≢ ""
linux_named = text-apart linux "" refl

download_and_verify-release_manifest_example :
    (g : GhAsset) × (query_row (is_for "linux") release.assets ≡ some g)
    × ((content : Bytes) × (lookup "/tmp/phaze.linux"
            (download_and_verify long_hashes
              (record asset {
                sha256 = "0202020202020202020202020202020202020202020202020202020202020202";
                name = "phaze.linux";
              })
              "/tmp"
              []).1
          ≡ some content)
        × (to_lower (hex_encode (long_hashes.sum256 content))
            ≡ to_lower (sum_of (fetch_checksums github (checksums_url release.assets)) g.name)))
unfolding platform_asset_for lookup skype7_reborn.Releases.Received.received
    skype7_reborn.Releases.release_manifest skype7_reborn.Releases.classify_asset
    skype7_reborn.Prelude.Text.ends_with to_lower skype7_reborn.Prelude.Text.contains
    skype7_reborn.Prelude.Dict.insert query_row skype7_reborn.Prelude.Text.fold_text
    skype7_reborn.Prelude.Text.split skype7_reborn.Prelude.Text.trim_space
    skype7_reborn.Prelude.Text.fields skype7_reborn.Prelude.Text.trim_prefix download_and_verify
    skype7_reborn.Client.Updater.obtain skype7_reborn.Client.Updater.asset_error
    skype7_reborn.Client.Updater.equal_fold final_path skype7_reborn.Client.Updater.rejection
    skype7_reborn.Client.Updater.remove_file skype7_reborn.Client.Updater.tmp_path
    skype7_reborn.Client.Updater.write_and_rename skype7_reborn.Client.Updater.wrong_size
    skype7_reborn.Prelude.Dict.erase skype7_reborn.Prelude.Table.limit
    skype7_reborn.Prelude.Text.fold skype7_reborn.Prelude.Text.hex_digit hex_encode
    skype7_reborn.Prelude.Text.lower skype7_reborn.Prelude.Text.split_where
    skype7_reborn.Prelude.Text.trim_left skype7_reborn.Prelude.Text.trim_right
    skype7_reborn.Prelude.Text.without_empty skype7_reborn.Releases.Received.received_asset
    skype7_reborn.Releases.Received.received_platforms skype7_reborn.Releases.add_line
    skype7_reborn.Releases.add_lines skype7_reborn.Releases.add_platform
    skype7_reborn.Releases.add_platforms skype7_reborn.Releases.add_sum
    skype7_reborn.Releases.add_words checksums_url skype7_reborn.Releases.entry fetch_checksums
    skype7_reborn.Releases.is_checksums skype7_reborn.Releases.or_default sum_of
download_and_verify-release_manifest_example =
    download_and_verify-release_manifest github release 5000000000 "linux"
      (record asset {
        sha256 = "0202020202020202020202020202020202020202020202020202020202020202";
        name = "phaze.linux";
      })
      long_hashes "/tmp" "/tmp/phaze.linux" [] linux_named refl refl
