-- ===== src/Client/Updater/Verified.antt =====
-- Proofs on what DownloadAndVerify leaves on disk.
use skype7_reborn.Prelude.Table.{limit}
use skype7_reborn.Prelude.{
  ◌≤◌, String, true, false, ◌&&◌, ◌≡◌, refl, some, none, ◌==◌, arith, if◌then◌else◌, length, Result,
  ok, err, is_ok, ◌⊎◌, inl, inr, eq_iff, Option-cases, suc, sym, ap, ◌∙◌, subst,
}
use skype7_reborn.Prelude.Dict.{lookup, insert, erase, lookup-insert, lookup-erase}
use skype7_reborn.Prelude.Text.{to_lower, hex_encode}
use skype7_reborn.Client.Updater.{
  Machine, PlatformAsset, Files, Bytes, Response, rejection, max_bytes, wrong_size,
  write_and_rename, download_and_verify, obtain, final_path, tmp_path, equal_fold, remove_file,
}

-- What the manifest says of a file.
abbrev pub Matches : Machine → PlatformAsset → Bytes → Type 0
Matches w a content =
    (to_lower (hex_encode (w.sum256 content)) ≡ to_lower a.sha256)
    × (wrong_size a.size (length content) ≡ false)
    × (length content ≤ max_bytes)

rejection-none :
    (w : Machine) (a : PlatformAsset) (r : Response) (content : Bytes)
    → rejection w a r content ≡ none
    → Matches w a content
unfolding rejection equal_fold
rejection-none w a r content h =
    ground (arith, eq_iff (to_lower (hex_encode (w.sum256 content))) (to_lower a.sha256))

Result-cases : (x : Result Response) → ((e : String) × (x ≡ err e)) ⊎ ((r : Response) × (x ≡ ok r))
Result-cases (err e) = inl (e, refl)
Result-cases (ok r) = inr (r, refl)

-- A file system in which DownloadAndVerify has failed: unchanged, or with the .part file removed.
abbrev Cleaned : Machine → PlatformAsset → String → Files → Files → Type 0
Cleaned w a dest_dir fs after =
    (after ≡ fs)
    ⊎ ((content : Bytes) × (after
          ≡ remove_file w (tmp_path w a dest_dir) (insert (tmp_path w a dest_dir) content fs)))

-- The file system in which it has succeeded.
abbrev placed : Machine → PlatformAsset → String → Bytes → Files → Files
placed w a dest_dir content fs =
    insert (final_path w a dest_dir) content
      (erase (tmp_path w a dest_dir) (insert (tmp_path w a dest_dir) content fs))

write_and_rename-cases :
    (w : Machine) (a : PlatformAsset) (dest_dir : String) (r : Response) (fs : Files)
    → ((e : String) × ((write_and_rename w a dest_dir r fs).0 ≡ err e)
        × Cleaned w a dest_dir fs (write_and_rename w a dest_dir r fs).1)
      ⊎ ((content : Bytes) × Matches w a content
          × (write_and_rename w a dest_dir r fs
              ≡ (ok (final_path w a dest_dir), placed w a dest_dir content fs)))
unfolding write_and_rename
write_and_rename-cases w a dest_dir r fs =
    let content = limit (suc max_bytes) r.body in
    elim (Option-cases (rejection w a r content)) [
      | inl h ↦ inr (content, rejection-none w a r content h, cc)
      | inr (e, h) ↦ inl (e, cc, inr (content, cc))
    ]

download_and_verify-cases :
    (w : Machine) (a : PlatformAsset) (dest_dir : String) (fs : Files)
    → ((e : String) × ((download_and_verify w a dest_dir fs).0 ≡ err e)
        × Cleaned w a dest_dir fs (download_and_verify w a dest_dir fs).1)
      ⊎ ((content : Bytes) × Matches w a content
          × (download_and_verify w a dest_dir fs
              ≡ (ok (final_path w a dest_dir), placed w a dest_dir content fs)))
unfolding download_and_verify
download_and_verify-cases w a dest_dir fs = elim (Result-cases (obtain w a)) [
  | inl (e, h) ↦ inl (e, cc, inl cc)
  | inr (r, h) ↦ elim (write_and_rename-cases w a dest_dir r fs) [
    | inl (e, failed, cleaned) ↦ inl (e, cc, subst (Cleaned w a dest_dir fs) (same h) cleaned)
    | inr (content, fits, done) ↦ inr (content, fits, cc)
  ]
]
  where
    same :
        {r : Response}
        → obtain w a ≡ ok r
        → (write_and_rename w a dest_dir r fs).1 ≡ (download_and_verify w a dest_dir fs).1
    same h = cc

lookup-placed :
    (w : Machine) (a : PlatformAsset) (dest_dir p : String) (content : Bytes) (fs : Files)
    → lookup p (placed w a dest_dir content fs) ≡ (
        if final_path w a dest_dir == p
        then some content
        else if tmp_path w a dest_dir == p
        then none
        else lookup p fs)
lookup-placed w a dest_dir p content fs =
    let final = final_path w a dest_dir in
    let tmp = tmp_path w a dest_dir in
    ground (
      arith,
      lookup-insert final p content (erase tmp (insert tmp content fs)),
      lookup-erase tmp p (insert tmp content fs),
      lookup-insert tmp p content fs,
    )

lookup-Cleaned :
    (w : Machine) (a : PlatformAsset) (dest_dir p : String) (fs after : Files)
    → w.can_remove ≡ true
    → lookup (tmp_path w a dest_dir) fs ≡ none
    → Cleaned w a dest_dir fs after
    → lookup p after ≡ lookup p fs
unfolding remove_file
lookup-Cleaned w a dest_dir p fs after can clear (inl h) = ap (lookup p) h
lookup-Cleaned w a dest_dir p fs after can clear (inr (content, h)) = ap (lookup p) h ∙ removed
  where
    removed :
        lookup p (remove_file w (tmp_path w a dest_dir) (insert (tmp_path w a dest_dir) content fs))
        ≡ lookup p fs
    removed =
        let tmp = tmp_path w a dest_dir in
        ground (
          arith,
          lookup-erase tmp p (insert tmp content fs),
          lookup-insert tmp p content fs,
          eq_iff tmp p,
        )

err-ok {ℓ} : {A : Type ℓ} {e : String} {a : A} → err e ≡ ok a → ⊥
err-ok h = cc

-- When DownloadAndVerify returns a path, it is the asset's name under the staging directory, and the
-- file there has the SHA-256 that the manifest lists, in upper or lower case, the size that the
-- manifest lists when that is positive, and at most 256 MiB.
pub download_and_verify-Matches :
    (w : Machine) (a : PlatformAsset) (dest_dir path : String) (fs : Files)
    → (download_and_verify w a dest_dir fs).0 ≡ ok path
    → (path ≡ final_path w a dest_dir)
      × ((content : Bytes) × (lookup path (download_and_verify w a dest_dir fs).1 ≡ some content)
          × Matches w a content)
download_and_verify-Matches w a dest_dir path fs h =
    elim (download_and_verify-cases w a dest_dir fs) [
      | inl (e, failed, cleaned) ↦ absurd (err-ok (sym failed ∙ h))
      | inr (content, fits, done) ↦ (
        cc,
        (
          content,
          ap (λ x. lookup path x.1) done
              ∙ lookup-placed w a dest_dir path content fs
              ∙ found content done,
          fits,
        ),
      )
    ]
  where
    found :
        (content : Bytes)
        → download_and_verify w a dest_dir fs
          ≡ (ok (final_path w a dest_dir), placed w a dest_dir content fs)
        → (if final_path w a dest_dir == path
            then some content
            else if tmp_path w a dest_dir == path
            then none
            else lookup path fs)
          ≡ some content
    found content done = ground (arith, eq_iff (final_path w a dest_dir) path)

-- Whatever DownloadAndVerify returns, every file stays as it was but the .part file and, when a path
-- is returned, the file at that path. When files can be removed and there was no .part file before,
-- there is none after an error.
pub download_and_verify-untouched :
    (w : Machine) (a : PlatformAsset) (dest_dir p : String) (fs : Files)
    → w.can_remove ≡ true
    → lookup (tmp_path w a dest_dir) fs ≡ none
    → (is_ok (download_and_verify w a dest_dir fs).0 && p == final_path w a dest_dir) ≡ false
    → lookup p (download_and_verify w a dest_dir fs).1 ≡ lookup p fs
download_and_verify-untouched w a dest_dir p fs can clear quiet =
    elim (download_and_verify-cases w a dest_dir fs) [
      | inl (e, failed, cleaned) ↦ lookup-Cleaned w a dest_dir p fs _ can clear cleaned
      | inr (content, fits, done) ↦
          ap (λ x. lookup p x.1) done ∙ lookup-placed w a dest_dir p content fs ∙ kept content done
    ]
  where
    kept :
        (content : Bytes)
        → download_and_verify w a dest_dir fs
          ≡ (ok (final_path w a dest_dir), placed w a dest_dir content fs)
        → (if final_path w a dest_dir == p
            then some content
            else if tmp_path w a dest_dir == p
            then none
            else lookup p fs)
          ≡ lookup p fs
    kept content done = ground (
      arith,
      eq_iff p (final_path w a dest_dir),
      eq_iff (final_path w a dest_dir) p,
      eq_iff (tmp_path w a dest_dir) p,
    )
