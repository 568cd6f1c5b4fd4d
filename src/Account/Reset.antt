-- ===== src/Account/Reset.antt =====
-- createPasswordReset, consumePasswordReset.
use skype7_reborn.Prelude.{
  ◌+◌, String, Bool, true, false, ◌||◌, none, some, ◌==◌, ltb, if◌then◌else◌, Result, ok, err,
}
use skype7_reborn.Prelude.Table.{update_where}
use skype7_reborn.Prelude.Text.{len}
use skype7_reborn.World.{World, Draw, Site, hour, rand_hex}
use skype7_reborn.Db.{Db, User, PasswordReset}
use skype7_reborn.Sql.{fetch, insert_unique}
use skype7_reborn.Account.Login.{named, rand_failed, bcrypt_failed, err_short_password}

abbrev pub err_reset_invalid : String
err_reset_invalid = "password reset token invalid or expired"

unfoldable pub addressed : String → User → Bool
addressed email u = u.email == email

unfoldable pub resets : String → PasswordReset → Bool
resets token r = r.token == token

-- (token, username)
unfoldable pub create_password_reset : World → String → Db → Result (String × String) × Db
create_password_reset w email db = elim (fetch w Site.reset_user (addressed email) db.users) [
  | err e ↦ (err e, db)
  | ok u ↦ elim (rand_hex w Draw.reset_draw 24) [
    | none ↦ (err rand_failed, db)
    | some tok ↦
        elim (insert_unique w Site.reset_insert (resets tok)
          (record { token = tok; username = u.username; expires_at = w.now + hour; used = false })
          db.password_resets) [
            | err e ↦ (err e, db)
            | ok rows ↦ (ok (tok, u.username), record db { password_resets = rows })
          ]
  ]
]

unfoldable pub set_password : String → User → User
set_password hash u = record u { password_hash = hash }

unfoldable pub set_used : PasswordReset → PasswordReset
set_used r = record r { used = true }

-- The transaction of consumePasswordReset; each failure rolls back.
unfoldable pub reset_transaction : World → String → String → String → Db → Result (Unit {0}) × Db
reset_transaction w token username hash db =
    if w.fails Site.reset_begin
    then (err (w.error_text Site.reset_begin), db)
    else if w.fails Site.reset_password
    then (err (w.error_text Site.reset_password), db)
    else if w.fails Site.reset_used
    then (err (w.error_text Site.reset_used), db)
    else if w.fails Site.reset_commit
    then (err (w.error_text Site.reset_commit), db)
    else (
      ok tt,
      record db {
        users = update_where (named username) (set_password hash) db.users;
        password_resets = update_where (resets token) set_used db.password_resets;
      },
    )

unfoldable pub consume_password_reset : World → String → String → Db → Result (Unit {0}) × Db
consume_password_reset w token password db =
    if ltb (len password) 8
    then (err err_short_password, db)
    else elim (fetch w Site.reset_select (resets token) db.password_resets) [
      | err e ↦ (err e, db)
      | ok r ↦
          if r.used || ltb r.expires_at w.now
          then (err err_reset_invalid, db)
          else elim (w.bcrypt_generate password) [
            | none ↦ (err bcrypt_failed, db)
            | some hash ↦ reset_transaction w token r.username hash db
          ]
    ]
