-- ===== src/Client/Updater.antt =====
-- The updater of native_client: Manifest, PlatformAssetFor (internal/updater/manifest.go),
-- DownloadAndVerify (internal/updater/download.go), and CheckForUpdates with performUpdate (main.go).
-- The answer of the web server, the outcome of each call of the operating system, SHA-256 and Apply
-- are parameters. A file system is a list of paths with their contents.
pub mod Prompt
pub mod Verified
use skype7_reborn.Prelude.Table.{limit}
use skype7_reborn.Prelude.{
  ℕ, suc, ◌/◌, String, Bool, false, not, ◌&&◌, ◌||◌, Option, none, some, List, ◌==◌, ltb, nat_eq,
  if◌then◌else◌, length, Result, ok, err,
}
use skype7_reborn.Prelude.Int.{ℤ, pos, negsuc}
use skype7_reborn.Prelude.Dict.{lookup, insert, erase}
use skype7_reborn.Prelude.Text.{append, contains, to_lower, hex_encode}

pub record PlatformAsset : Type 0 where
  pub url : String
  pub sha256 : String
  pub size : ℤ
  pub name : String

pub record Manifest : Type 0 where
  pub version : String
  pub release_url : String
  pub url : String
  pub release_notes : String
  pub platforms : List (String × PlatformAsset)

-- A map that is nil has no entry.
unfoldable pub platform_asset_for : Manifest → String → Option PlatformAsset
platform_asset_for m key = elim (lookup key m.platforms) [
  | none ↦ none
  | some a ↦ if a.url == "" then none else some a
]

abbrev pub Bytes : Type 0
Bytes = List ℕ

abbrev pub Files : Type 0
Files = List (String × Bytes)

pub record Response : Type 0 where
  pub status : ℕ
  -- What arrives, and the error that ends it early.
  pub body : Bytes
  pub read_error : Option String

-- What DownloadAndVerify asks of its surroundings.
pub record Machine : Type 0 where
  pub separator : String
  pub get : String → Result Response
  pub sum256 : Bytes → Bytes
  pub mkdir_error : Option String
  pub create_error : Option String
  pub close_error : Option String
  pub rename_error : Option String
  -- os.Remove's error is not looked at.
  pub can_remove : Bool

abbrev pub max_bytes : ℕ
max_bytes = 0x10000000

-- strings.EqualFold of a text in lower-case hexadecimal digits, none of which folds outside ASCII.
unfoldable pub equal_fold : String → String → Bool
equal_fold got want = to_lower got == to_lower want

unfoldable pub remove_file : Machine → String → Files → Files
remove_file w path fs = if w.can_remove then erase path fs else fs

-- a.Size > 0 && written != a.Size
unfoldable pub wrong_size : ℤ → ℕ → Bool
wrong_size (pos n) written = ltb 0 n && not (nat_eq written n)
wrong_size (negsuc n) written = false

-- What is wrong with a file that was written, by the checks in their order.
unfoldable pub rejection : Machine → PlatformAsset → Response → Bytes → Option String
unfolding equal_fold wrong_size
rejection w a r content = elim r.read_error [
  | some e ↦ some e
  | none ↦ elim w.close_error [
    | some e ↦ some e
    | none ↦
        if ltb max_bytes (length content)
        then some "download exceeded 268435456 bytes"
        else if wrong_size a.size (length content)
        then some "size mismatch"
        else if equal_fold (hex_encode (w.sum256 content)) a.sha256
        then w.rename_error
        else some "SHA-256 mismatch"
  ]
]

unfoldable pub final_path : Machine → PlatformAsset → String → String
final_path w a dest_dir = append (append dest_dir w.separator) a.name

unfoldable pub tmp_path : Machine → PlatformAsset → String → String
unfolding final_path
tmp_path w a dest_dir = append (final_path w a dest_dir) ".part"

-- What follows os.Create, down to os.Rename.
unfoldable pub write_and_rename :
    Machine → PlatformAsset → String → Response → Files → Result String × Files
unfolding rejection final_path tmp_path remove_file limit
write_and_rename w a dest_dir r fs =
    let final = final_path w a dest_dir in
    let tmp = tmp_path w a dest_dir in
    let content = limit (suc max_bytes) r.body in
    elim (rejection w a r content) [
      | some e ↦ (err e, remove_file w tmp (insert tmp content fs))
      | none ↦ (ok final, insert final content (erase tmp (insert tmp content fs)))
    ]

-- The guards on the asset.
unfoldable pub asset_error : PlatformAsset → Option String
asset_error a =
    if a.url == ""
    then some "updater: empty URL"
    else if a.sha256 == ""
    then some "updater: manifest has no SHA-256, refusing to auto-install"
    else if a.name == ""
    then some "updater: manifest has no asset name"
    else if contains a.name "/" || contains a.name "\\"
    then some "updater: asset name contains path separator"
    else none

-- What comes before a file is written, down to os.Create; no step of it touches a file.
unfoldable pub obtain : Machine → PlatformAsset → Result Response
unfolding asset_error
obtain w a = elim (asset_error a) [
  | some e ↦ err e
  | none ↦ elim w.mkdir_error [
    | some e ↦ err e
    | none ↦ elim (w.get a.url) [
      | err e ↦ err e
      | ok r ↦
          if not (nat_eq r.status 200)
          then err "download status"
          else elim w.create_error [ some e ↦ err e | none ↦ ok r ]
    ]
  ]
]

unfoldable pub download_and_verify :
    Machine → PlatformAsset → String → Files → Result String × Files
unfolding write_and_rename
download_and_verify w a dest_dir fs = elim (obtain w a) [
  | err e ↦ (err e, fs)
  | ok r ↦ write_and_rename w a dest_dir r fs
]
