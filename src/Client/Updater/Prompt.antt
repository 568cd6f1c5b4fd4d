-- ===== src/Client/Updater/Prompt.antt =====
-- CheckForUpdates and performUpdate of native_client/main.go. What the user answers, what
-- updater.Fetch returns and what Apply does to the verified file are parameters. The prompt's wording
-- is left out; what the app shows, opens and installs is a list of acts in their order.
pub mod Verified
use skype7_reborn.Prelude.{
  String, Bool, not, ◌||◌, Option, none, some, List, [], ◌∷◌, ◌++◌, ◌==◌, if◌then◌else◌, Result, ok,
  err,
}
use skype7_reborn.Prelude.Text.{append}
use skype7_reborn.Client.Version.{is_newer}
use skype7_reborn.Client.Updater.{
  Machine, Manifest, PlatformAsset, Files, platform_asset_for, download_and_verify,
}

pub data Act : Type 0 where
  notify : String → Act
  -- The question whether to open the download page, and the one whether to install.
  ask_page : String → Act
  ask_install : PlatformAsset → Act
  open_url : String → Act
  -- updater.Apply of a path
  apply : String → Act
  show_error : String → Act
  show_information : String → Act

-- What Apply returns: nil, NeedsUserActionError with its path, or another error.
pub data Applied : Type 0 where
  scheduled : Applied
  needs_user_action : String → Applied
  refused : String → Applied

pub record Desktop : Type 0 where
  pub machine : Machine
  pub version : String
  pub platform_key : String
  pub api : String
  pub staging_dir : String
  pub answer : Bool
  pub url_parses : String → Bool
  pub apply_outcome : String → Applied

unfoldable pub open_page : Desktop → String → List Act
open_page d u = if d.url_parses u then open_url u ∷ [] else []

unfoldable pub download_page : Desktop → Manifest → String
download_page d m =
    if not (m.release_url == "")
    then m.release_url
    else if not (m.url == "")
    then m.url
    else append d.api "/download"

-- What performUpdate shows once Apply has returned.
unfoldable pub after_apply : Desktop → Applied → List Act
unfolding open_page
after_apply d scheduled =
    show_information
      "Update staged. Quit Phaze when ready — the new version will start automatically."
    ∷ []
after_apply d (needs_user_action apk) =
    open_page d (append "file://" apk)
    ++ show_information "Update downloaded. Approve the install prompt from Android to apply it."
      ∷ []
after_apply d (refused e) = show_error (append "update install failed: " e) ∷ []

unfoldable pub finish_update : Desktop → Result String × Files → List Act × Files
unfolding after_apply
finish_update d (err e, fs) = (show_error (append "update download failed: " e) ∷ [], fs)
finish_update d (ok path, fs) = (apply path ∷ after_apply d (d.apply_outcome path), fs)

unfoldable pub perform_update : Desktop → PlatformAsset → Files → List Act × Files
unfolding finish_update
perform_update d a fs = finish_update d (download_and_verify d.machine a d.staging_dir fs)

-- The asset for the platform, when it can be verified.
unfoldable pub verifiable : Desktop → Manifest → Option PlatformAsset
verifiable d m = elim (platform_asset_for m d.platform_key) [
  | none ↦ none
  | some a ↦ if a.sha256 == "" then none else some a
]

-- The choice between installing the asset and opening the page, once a newer version is known.
unfoldable pub offer_update : Desktop → Manifest → Files → List Act × Files
unfolding open_page download_page
offer_update d m fs = elim (verifiable d m) [
  | none ↦ (ask_page m.version ∷ (if d.answer then open_page d (download_page d m) else []), fs)
  | some a ↦
      if not d.answer
      then (ask_install a ∷ [], fs)
      else let done = perform_update d a fs in (ask_install a ∷ done.0, done.1)
]

unfoldable pub check_for_updates : Desktop → Result Manifest → Files → List Act × Files
check_for_updates d (err e) fs = ([], fs)
check_for_updates d (ok m) fs =
    if m.version == "" || not (is_newer m.version d.version)
    then ([], fs)
    else let done = offer_update d m fs in (notify m.version ∷ done.0, done.1)
