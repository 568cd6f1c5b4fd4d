-- ===== src/Handlers/Accounts.antt =====
-- The cases register, verify_email, resend_verification, update_profile, delete_account,
-- enable_totp, confirm_totp, disable_totp, forgot_password, reset_password, change_password,
-- qr_login_create and qr_login_approve.
use skype7_reborn.Prelude.{
  ℕ, String, false, not, ◌||◌, List, [], ◌∷◌, none, some, ◌==◌, ltb, if◌then◌else◌, ok, err,
}
use skype7_reborn.Prelude.Table.{update_where}
use skype7_reborn.Prelude.Text.{append, cut, len}
use skype7_reborn.World.{World, Site, rand_digits}
use skype7_reborn.Wire.{NexusMessage, MsgType, blank, with_status, with_error}
use skype7_reborn.Db.{User}
use skype7_reborn.Sql.{fetch}
use skype7_reborn.Server.{Server, Mail, send, close, set_db, send_mail, user_of}
use skype7_reborn.Account.Login.{register_user, verify_user, authenticate_user, named}
use skype7_reborn.Account.Totp.{totp_status, generate_totp_uri, enable_totp, disable_totp, set_totp}
use skype7_reborn.Account.Reset.{create_password_reset, consume_password_reset, set_password}
use skype7_reborn.Account.Qr.{create_qr_login, approve_qr_login}
use skype7_reborn.Account.Erase.{delete_account}
use skype7_reborn.Social.Friends.{broadcast_presence}
use skype7_reborn.Handlers.Login.{drop_client}

unfoldable pub handle_register : World → ℕ → NexusMessage → Server → Server
handle_register w c m s =
    let (r, db) = register_user w m.sender m.email m.mood m.body s.db in
    elim r [
      | err e ↦
          send c (with_error MsgType.register_result "Username already taken or database error")
            (set_db db s)
      | ok code ↦
          send c (with_status MsgType.register_result "pending_verification")
            (send_mail m.email (Mail.activation code) (set_db db s))
    ]

unfoldable pub handle_verify_email : World → ℕ → NexusMessage → Server → Server
handle_verify_email w c m s =
    let (done, db) = verify_user w m.sender m.body s.db in
    if done
    then send c (with_status MsgType.verify_result "ok") (set_db db s)
    else send c (with_error MsgType.verify_result "Invalid verification code") (set_db db s)

unfoldable pub set_code : String → User → User
set_code code u = record u { verification_code = some code }

unfoldable pub handle_resend_verification : World → ℕ → NexusMessage → Server → Server
handle_resend_verification w c m s = elim (fetch w Site.resend_select (named m.sender) s.db.users) [
  | err e ↦ send c (with_error MsgType.register_result "User not found") s
  | ok u ↦
      if u.email == ""
      then send c (with_error MsgType.register_result "User not found") s
      else elim (rand_digits w 6) [
        | none ↦ send c (with_error MsgType.register_result "Internal error") s
        | some code ↦
            if w.fails Site.resend_update
            then send c (with_error MsgType.register_result "Database error") s
            else send c (with_status MsgType.register_result "code_resent") (
                send_mail u.email (Mail.new_code code) (
                  set_db
                    (record s.db {
                      users = update_where (named m.sender) (set_code code) s.db.users;
                    })
                    s))
      ]
]

unfoldable pub set_profile : String → String → User → User
set_profile mood name u = record u { mood = mood; display_name = some name }

-- The loop of broadcastProfileUpdate over s.Clients.
unfoldable pub send_profile : String → NexusMessage → List (String × ℕ) → Server → Server
send_profile u m [] s = s
send_profile u m ((_, c) ∷ cs) s = send_profile u m cs (if user_of s c == u then s else send c m s)

unfoldable pub broadcast_profile_update : String → String → String → Server → Server
broadcast_profile_update u name mood s =
    send_profile u
      (record (blank MsgType.profile_update) { sender = u; display_name = name; mood = mood })
      s.clients s

unfoldable pub handle_update_profile : World → ℕ → NexusMessage → Server → Server
handle_update_profile w c m s =
    if w.fails Site.profile_update
    then send c (with_error MsgType.update_result "Update failed") s
    else let users = update_where (named m.sender) (set_profile m.mood m.display_name) s.db.users in
      broadcast_profile_update m.sender m.display_name m.mood
        (send c (with_status MsgType.update_result "ok") (set_db (record s.db { users = users }) s))

unfoldable pub handle_delete_account : World → ℕ → NexusMessage → Server → Server
handle_delete_account w c m s =
    let u = user_of s c in
    if u == ""
    then send c (with_error MsgType.delete_account_result "Not authenticated") s
    else if m.body == "" || not (authenticate_user w u m.body s.db)
    then send c (with_error MsgType.delete_account_result "Password confirmation required") s
    else let (r, db) = delete_account w u s.db in
      elim r [
        | err e ↦
            send c (with_error MsgType.delete_account_result "Internal error — try again")
              (set_db db s)
        | ok _ ↦ close c (
            drop_client c u (
              send c (with_status MsgType.delete_account_result "ok")
                (broadcast_presence w u "Offline" (set_db db s))))
      ]

unfoldable pub handle_enable_totp : World → ℕ → NexusMessage → Server → Server
handle_enable_totp w c m s =
    let u = user_of s c in
    if u == ""
    then send c (with_error MsgType.totp_result "Not authenticated") s
    else elim (generate_totp_uri w u) [
      | none ↦ send c (with_error MsgType.totp_result "Could not generate secret") s
      | some (uri, secret) ↦
          send c (record (with_status MsgType.totp_result "pending_confirm") { totp_uri = uri })
            (if w.fails Site.totp_stash
              then s
              else set_db
                  (record s.db {
                    users = update_where (named u) (set_totp secret false) s.db.users;
                  })
                  s)
    ]

unfoldable pub handle_confirm_totp : World → ℕ → NexusMessage → Server → Server
handle_confirm_totp w c m s =
    let u = user_of s c in
    if u == ""
    then send c (with_error MsgType.totp_result "Not authenticated") s
    else let secret = (totp_status w u s.db).0 in
      if secret == ""
      then send c (with_error MsgType.totp_result "No pending TOTP enrollment") s
      else let (done, db) = enable_totp w u secret m.totp_code s.db in
        if done
        then send c (with_status MsgType.totp_result "enabled") (set_db db s)
        else send c (with_error MsgType.totp_result "Invalid code") (set_db db s)

unfoldable pub handle_disable_totp : World → ℕ → NexusMessage → Server → Server
handle_disable_totp w c m s =
    let u = user_of s c in
    if u == ""
    then s
    else if not (authenticate_user w u m.body s.db)
    then send c (with_error MsgType.totp_result "Password required") s
    else send c (with_status MsgType.totp_result "disabled") (set_db (disable_totp w u s.db) s)

-- The goroutine that makes the token runs at once here; the reply does not depend on it.
unfoldable pub handle_forgot_password : World → ℕ → NexusMessage → Server → Server
handle_forgot_password w c m s =
    let (r, db) = create_password_reset w m.email s.db in
    let t = set_db db s in
    send c (with_status MsgType.forgot_password_result "sent")
      (elim r [ err e ↦ t | ok (token, user) ↦ send_mail m.email (Mail.reset_link user token) t ])

unfoldable pub handle_reset_password : World → ℕ → NexusMessage → Server → Server
handle_reset_password w c m s =
    let (r, db) = consume_password_reset w m.qr_token m.body s.db in
    elim r [
      | err e ↦ send c (with_error MsgType.reset_password_result e) (set_db db s)
      | ok _ ↦ send c (with_status MsgType.reset_password_result "ok") (set_db db s)
    ]

unfoldable pub store_password : World → ℕ → String → Server → Server
store_password w c hash s =
    if w.fails Site.password_update
    then send c (with_error MsgType.change_password_result "Database error") s
    else send c (with_status MsgType.change_password_result "ok") (
        set_db
          (record s.db {
            users = update_where (named (user_of s c)) (set_password hash) s.db.users;
          })
          s)

-- The checks on the two passwords, and the update.
unfoldable pub check_passwords : World → ℕ → String → String → Server → Server
check_passwords w c old new s =
    if not (authenticate_user w (user_of s c) old s.db)
    then send c (with_error MsgType.change_password_result "Current password incorrect") s
    else if ltb (len new) 8
    then send c
        (with_error MsgType.change_password_result "New password must be at least 8 characters") s
    else elim (w.bcrypt_generate new) [
      | none ↦ send c (with_error MsgType.change_password_result "Internal error") s
      | some hash ↦ store_password w c hash s
    ]

-- A colon at either end of the body leaves one password empty.
unfoldable pub change_password_to : World → ℕ → String → String → Server → Server
change_password_to w c old new s =
    if old == "" || new == ""
    then send c (with_error MsgType.change_password_result "Malformed request") s
    else check_passwords w c old new s

-- The body is "old:new", cut at the first colon.
unfoldable pub handle_change_password : World → ℕ → NexusMessage → Server → Server
handle_change_password w c m s =
    if user_of s c == ""
    then send c (with_error MsgType.change_password_result "Not authenticated") s
    else elim (cut b':' m.body) [
      | none ↦ send c (with_error MsgType.change_password_result "Malformed request") s
      | some (old, new) ↦ change_password_to w c old new s
    ]

unfoldable pub handle_qr_login_create : World → ℕ → NexusMessage → Server → Server
handle_qr_login_create w c m s =
    let (r, db) = create_qr_login w s.db in
    elim r [
      | err e ↦
          send c (with_error MsgType.qr_login_result "Could not create QR token") (set_db db s)
      | ok token ↦
          send c
            (record (with_status MsgType.qr_login_result "pending") {
              qr_token = token;
              qr_data = append "phaze://login?token=" token;
            })
            (set_db db s)
    ]

unfoldable pub handle_qr_login_approve : World → ℕ → NexusMessage → Server → Server
handle_qr_login_approve w c m s =
    let u = user_of s c in
    if u == ""
    then send c (with_error MsgType.qr_login_result "Not authenticated") s
    else let (r, db) = approve_qr_login w m.qr_token u m.device_info s.db in
      elim r [
        | err e ↦ send c (with_error MsgType.qr_login_result e) (set_db db s)
        | ok _ ↦ send c (with_status MsgType.qr_login_result "approved") (set_db db s)
      ]
