-- ===== src/Handlers/Phone.antt =====
-- The cases pstn_call, request_phone_link and verify_phone_link.
use skype7_reborn.Prelude.{
  ℕ, ◌+◌, ◌%◌, String, Bool, true, false, not, ◌&&◌, none, some, ◌==◌, if◌then◌else◌, ok, err,
}
use skype7_reborn.Prelude.Table.{update_where}
use skype7_reborn.Prelude.Text.{append, six_digits}
use skype7_reborn.World.{World, Site}
use skype7_reborn.Wire.{NexusMessage, MsgType, with_status, with_error}
use skype7_reborn.Db.{User}
use skype7_reborn.Sql.{fetch}
use skype7_reborn.Server.{Server, Mail, send, set_db, send_mail, user_of}
use skype7_reborn.Account.Login.{named, code_matches}

-- username = ? AND phone_number = ?
unfoldable pub has_number : String → String → User → Bool
unfolding named
has_number username number u =
    named username u && elim u.phone_number [ none ↦ false | some n ↦ n == number ]

abbrev pub count_attempt : Server → Server
count_attempt s = record s {
  metrics = record s.metrics { pstn_attempts = s.metrics.pstn_attempts + 1 };
}

abbrev pub count_rejected : Server → Server
count_rejected s = record s {
  metrics = record s.metrics { pstn_rejected = s.metrics.pstn_rejected + 1 };
}

abbrev pub pstn_disabled : String
pstn_disabled =
    "PSTN bridge is disabled on this relay. Use in-app voice/video (WebRTC) with Phaze contacts — no phone network or Twilio required."

abbrev pub not_verified : String
not_verified = "Caller identity not verified. Please link your phone in Settings."

abbrev pub connecting : String
connecting = "Connecting via Sovereign Bridge..."

unfoldable pub place_call : World → ℕ → String → Server → Server
place_call w c number s = elim (w.twilio_call number) [
  | some e ↦ send c (with_error MsgType.pstn_status (append "Telephony error: " e)) s
  | none ↦ send c (with_status MsgType.pstn_status connecting) s
]

unfoldable pub handle_pstn_call : World → ℕ → NexusMessage → Server → Server
unfolding place_call
handle_pstn_call w c m s =
    let t = count_attempt s in
    if not w.pstn_enabled
    then send c (with_error MsgType.pstn_status pstn_disabled) (count_rejected t)
    else elim (fetch w Site.pstn_select (has_number (user_of s c) m.body) s.db.users) [
      | err e ↦ send c (with_error MsgType.pstn_status not_verified) t
      | ok u ↦
          if not u.phone_verified
          then send c (with_error MsgType.pstn_status not_verified) t
          else place_call w c m.body t
    ]

unfoldable pub set_phone : String → String → User → User
set_phone code number u = record u { verification_code = some code; phone_number = some number }

-- time.Now().UnixNano() % 1000000
unfoldable pub phone_code : World → String
phone_code w = six_digits (w.now % 1000000)

unfoldable pub handle_request_phone_link : World → ℕ → NexusMessage → Server → Server
handle_request_phone_link w c m s =
    if w.fails Site.phone_update
    then send c (with_error MsgType.phone_link_result "Update failed") s
    else send c (with_status MsgType.phone_link_result "code_sent") (
        send_mail m.body (Mail.sms_code (phone_code w)) (
          set_db
            (record s.db {
              users =
                  update_where (named (user_of s c)) (set_phone (phone_code w) m.body) s.db.users;
            })
            s))

unfoldable pub set_phone_verified : User → User
set_phone_verified u = record u { phone_verified = true; verification_code = none }

unfoldable pub clear_code : User → User
clear_code u = record u { verification_code = none }

abbrev pub phone_lockout : String
phone_lockout = "Invalid code. Security lockout: please request a new code."

-- An UPDATE that fails changes nothing, and its error is not looked at.
unfoldable pub update_user : World → Site → String → (User → User) → Server → Server
update_user w site u f s =
    if w.fails site
    then s
    else set_db (record s.db { users = update_where (named u) f s.db.users }) s

unfoldable pub handle_verify_phone_link : World → ℕ → NexusMessage → Server → Server
unfolding update_user
handle_verify_phone_link w c m s =
    let u = user_of s c in
    let matched : Bool = elim (fetch w Site.phone_select (named u) s.db.users) [
      | err e ↦ false
      | ok r ↦ code_matches m.body r
    ] in
    if matched
    then send c (with_status MsgType.phone_link_result "verified")
        (update_user w Site.phone_verified u set_phone_verified s)
    else send c (with_error MsgType.phone_link_result phone_lockout)
        (update_user w Site.phone_cleared u clear_code s)
