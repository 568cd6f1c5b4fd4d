-- ===== src/Account/Totp.antt =====
-- totpStatus, generateTOTPURI, enableTOTP, disableTOTP, verifyTOTP.
use skype7_reborn.Prelude.{
  String, Bool, true, false, not, ◌||◌, ◌==◌, if◌then◌else◌, Option, ok, err,
}
use skype7_reborn.Prelude.Table.{update_where}
use skype7_reborn.World.{World, Site}
use skype7_reborn.Db.{Db, User}
use skype7_reborn.Sql.{fetch}
use skype7_reborn.Account.Login.{named}

-- (secret, enabled)
unfoldable pub totp_status : World → String → Db → String × Bool
totp_status w username db = elim (fetch w Site.totp_select (named username) db.users) [
  | err e ↦ ("", false)
  | ok u ↦ (u.totp_secret, u.totp_enabled)
]

-- (uri, secret)
unfoldable pub generate_totp_uri : World → String → Option (String × String)
generate_totp_uri w username = w.totp_generate username

unfoldable pub set_totp : String → Bool → User → User
set_totp secret on u = record u { totp_secret = secret; totp_enabled = on }

unfoldable pub enable_totp : World → String → String → String → Db → Bool × Db
enable_totp w username secret code db =
    if not (w.totp_validate code secret) || w.fails Site.totp_update
    then (false, db)
    else (true, record db { users = update_where (named username) (set_totp secret true) db.users })

unfoldable pub disable_totp : World → String → Db → Db
disable_totp w username db =
    if w.fails Site.totp_update
    then db
    else record db { users = update_where (named username) (set_totp "" false) db.users }

unfoldable pub verify_totp : World → String → String → Db → Bool
unfolding totp_status
verify_totp w username code db =
    let (secret, enabled) = totp_status w username db in
    if not enabled || secret == "" then true else w.totp_validate code secret
