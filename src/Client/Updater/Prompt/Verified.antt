-- ===== src/Client/Updater/Prompt/Verified.antt =====
-- Proofs on CheckForUpdates together with DownloadAndVerify.
use skype7_reborn.Prelude.{
  String, true, false, Option, none, some, List, [], ◌∷◌, ◌≡◌, refl, sym, ap, ◌∙◌, inl, inr, arith,
  Result, ok, err, Option-cases, Bool-cases,
}
use skype7_reborn.Prelude.Dict.{lookup}
use skype7_reborn.Client.Version.{is_newer}
use skype7_reborn.Client.Updater.{
  Manifest, PlatformAsset, Files, Bytes, platform_asset_for, download_and_verify,
}
use skype7_reborn.Client.Updater.Verified.{Matches, download_and_verify-Matches}
use skype7_reborn.Client.Updater.Prompt.{
  Act, apply, Desktop, verifiable, finish_update, open_page, perform_update, offer_update,
  check_for_updates,
}

-- The path of the first call of Apply among the acts.
unfoldable pub applied : List Act → Option String
applied [] = none
applied (apply path ∷ more) = some path
applied (a ∷ more) = applied more

none-some {ℓ} : {A : Type ℓ} {a : A} (o : Option A) → o ≡ none → o ≡ some a → ⊥
none-some o e h = cc

applied-finish_update :
    (d : Desktop) (done : Result String × Files) (path : String)
    → applied (finish_update d done).0 ≡ some path
    → (done.0 ≡ ok path) × ((finish_update d done).1 ≡ done.1)
unfolding finish_update applied
applied-finish_update d (err e, fs) path h = absurd (none-some none refl h)
applied-finish_update d (ok p, fs) path h = (cc, refl)

applied-offer_update :
    (d : Desktop) (m : Manifest) (fs : Files) (path : String)
    → applied (offer_update d m fs).0 ≡ some path
    → (a : PlatformAsset) × (verifiable d m ≡ some a)
      × (d.answer ≡ true)
      × (applied (perform_update d a fs).0 ≡ some path)
      × ((offer_update d m fs).1 ≡ (perform_update d a fs).1)
unfolding offer_update applied open_page
applied-offer_update d m fs path h = elim (Option-cases (verifiable d m)) [
  | inl e ↦ absurd (none-some _ (closed e) h)
  | inr (a, e) ↦ elim (Bool-cases d.answer) [
    | inl agreed ↦ (a, e, agreed, sym (accepted e agreed).0 ∙ h, (accepted e agreed).1)
    | inr declines ↦ absurd (none-some _ (declined e declines) h)
  ]
]
  where
    closed : verifiable d m ≡ none → applied (offer_update d m fs).0 ≡ none
    closed e = ground (arith, e)

    accepted :
        {a : PlatformAsset}
        → verifiable d m ≡ some a
        → d.answer ≡ true
        → (applied (offer_update d m fs).0 ≡ applied (perform_update d a fs).0)
          × ((offer_update d m fs).1 ≡ (perform_update d a fs).1)
    accepted e agreed = (cc, cc)

    declined :
        {a : PlatformAsset}
        → verifiable d m ≡ some a
        → d.answer ≡ false
        → applied (offer_update d m fs).0 ≡ none
    declined e declines = cc

verifiable-platform_asset_for :
    (d : Desktop) (m : Manifest) (a : PlatformAsset)
    → verifiable d m ≡ some a
    → platform_asset_for m d.platform_key ≡ some a
unfolding verifiable
verifiable-platform_asset_for d m a h = ground arith

applied-check_for_updates :
    (d : Desktop) (m : Manifest) (fs : Files) (path : String)
    → applied (check_for_updates d (ok m) fs).0 ≡ some path
    → (is_newer m.version d.version ≡ true)
      × (applied (offer_update d m fs).0 ≡ some path)
      × ((check_for_updates d (ok m) fs).1 ≡ (offer_update d m fs).1)
unfolding check_for_updates applied
applied-check_for_updates d m fs path h = ground arith

-- When CheckForUpdates calls Apply on a path, the user has agreed, the manifest's version is newer
-- than the running one by IsNewer, and the file at that path has the SHA-256 that the manifest
-- lists for the platform, in upper or lower case, the size that it lists when that is positive, and at
-- most 256 MiB.
pub check_for_updates-Matches :
    (d : Desktop) (m : Manifest) (fs : Files) (path : String)
    → applied (check_for_updates d (ok m) fs).0 ≡ some path
    → (d.answer ≡ true)
      × (is_newer m.version d.version ≡ true)
      × ((a : PlatformAsset) × (platform_asset_for m d.platform_key ≡ some a)
          × ((content : Bytes) × (lookup path (check_for_updates d (ok m) fs).1 ≡ some content)
              × Matches d.machine a content))
unfolding perform_update
check_for_updates-Matches d m fs path h =
    let (newer, offered, kept) = applied-check_for_updates d m fs path h in
    let (a, found, agreed, performed, same) = applied-offer_update d m fs path offered in
    let (done, left) =
      applied-finish_update d (download_and_verify d.machine a d.staging_dir fs) path performed in
    let (_, (content, there, fits)) =
      download_and_verify-Matches d.machine a d.staging_dir path fs done in
    (
      agreed,
      newer,
      (
        a,
        verifiable-platform_asset_for d m a found,
        (content, ap (lookup path) (kept ∙ same ∙ left) ∙ there, fits),
      ),
    )
