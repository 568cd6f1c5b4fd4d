-- ===== src/Account/Qr.antt =====
-- createQRLogin, approveQRLogin, checkQRLogin.
use skype7_reborn.Prelude.{
  ◌+◌, ◌*◌, String, Bool, true, false, not, ◌&&◌, Option, none, some, ◌==◌, ltb, if◌then◌else◌,
  Result, ok, err,
}
use skype7_reborn.Prelude.Table.{update_where, any_row}
use skype7_reborn.World.{World, Draw, Site, minute, rand_hex, current_timestamp}
use skype7_reborn.Db.{Db, QrLogin}
use skype7_reborn.Sql.{fetch, insert_unique}
use skype7_reborn.Account.Login.{rand_failed}
use skype7_reborn.Account.Session.{issue_session_token}

abbrev pub err_qr_invalid : String
err_qr_invalid = "qr login token invalid or expired"

unfoldable pub shows : String → QrLogin → Bool
shows token q = q.token == token

unfoldable pub create_qr_login : World → Db → Result String × Db
create_qr_login w db = elim (rand_hex w Draw.qr_draw 16) [
  | none ↦ (err rand_failed, db)
  | some tok ↦
      elim (insert_unique w Site.qr_insert (shows tok)
        (record {
          token = tok;
          username = "";
          session_token = "";
          device_info = "";
          expires_at = w.now + 5 * minute;
          approved = false;
        })
        db.qr_login_tokens) [
          | err e ↦ (err e, db)
          | ok rows ↦ (ok tok, record db { qr_login_tokens = rows })
        ]
]

-- token = ? AND approved = 0 AND expires_at > CURRENT_TIMESTAMP
unfoldable pub approvable : World → String → QrLogin → Bool
unfolding shows current_timestamp
approvable w token q = shows token q && not q.approved && ltb (current_timestamp w) q.expires_at

unfoldable pub set_approved : String → String → String → QrLogin → QrLogin
set_approved username sess device q = record q {
  username = username;
  session_token = sess;
  device_info = device;
  approved = true;
}

-- What follows the session (token, error, database) that approveQRLogin issues first.
unfoldable pub finish_approve :
    World → String → String → String → String × Option String × Db → Result (Unit {0}) × Db
finish_approve w token username device (sess, some e, db) = (err e, db)
finish_approve w token username device (sess, none, db) =
    if w.fails Site.qr_approve
    then (err (w.error_text Site.qr_approve), db)
    else if any_row (approvable w token) db.qr_login_tokens
    then (
      ok tt,
      record db {
        qr_login_tokens =
            update_where (approvable w token) (set_approved username sess device)
              db.qr_login_tokens;
      },
    )
    else (err err_qr_invalid, db)

-- The session is issued before the code is looked at.
unfoldable pub approve_qr_login : World → String → String → String → Db → Result (Unit {0}) × Db
unfolding finish_approve
approve_qr_login w token username device db =
    finish_approve w token username device (issue_session_token w username device db)

-- (username, session token, approved)
unfoldable pub check_qr_login : World → String → Db → String × String × Bool
check_qr_login w token db = elim (fetch w Site.qr_select (shows token) db.qr_login_tokens) [
  | err e ↦ ("", "", false)
  | ok q ↦
      if ltb q.expires_at w.now then ("", "", false) else (q.username, q.session_token, q.approved)
]
