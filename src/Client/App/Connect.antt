-- ===== src/Client/App/Connect.antt =====
-- connect and ConnectToServer of native_client/main.go. Which addresses answer, what arrives on authChan
-- within five seconds, and a fresh pair of keys are parameters. Starting the peer-to-peer network, the
-- sentinel and the check for updates, which only start goroutines, is left out.
use skype7_reborn.Prelude.{
  String, Bool, not, ◌&&◌, Option, none, some, List, [], ◌∷◌, ◌==◌, if◌then◌else◌, Result, ok, err,
}
use skype7_reborn.Prelude.Dict.{insert}
use skype7_reborn.Prelude.Table.{query_row}
use skype7_reborn.Prelude.Text.{contains}
use skype7_reborn.Wire.{NexusMessage, MsgType, blank}
use skype7_reborn.Client.Crypto.{Key, fingerprint}
use skype7_reborn.Client.App.{PhazeApp, Host, AuthResult, play_sound, write, act}
use skype7_reborn.Client.App.Sending.{send_message}
use skype7_reborn.Client.App.Keys.{load_keys}

pub record Dialer : Type 0 where
  pub gateway : String
  pub device : String
  pub answers : String → Bool
  pub result : Option AuthResult
  pub fresh : Key × Key

-- The addresses in the order in which they are tried.
unfoldable pub targets : Dialer → PhazeApp → List String
targets d s =
    let known = d.gateway ∷ "ws://localhost:8080/ws" ∷ "wss://phazechat.world/ws" ∷ [] in
    if not (s.server_address == "")
      && not (contains s.server_address "localhost")
      && not (s.server_address == d.gateway)
    then s.server_address ∷ known
    else known

unfoldable pub auth_message : Dialer → PhazeApp → String → String → String → NexusMessage
unfolding blank
auth_message d s password totp_code session_token =
    if session_token == ""
    then record (blank MsgType.auth) {
      sender = s.username;
      body = password;
      totp_code = totp_code;
      device_info = d.device;
    }
    else record (blank MsgType.session_auth) { qr_token = session_token; device_info = d.device }

-- A session token that came is kept, in the app and in the keyring.
unfoldable pub keep_session : AuthResult → PhazeApp → PhazeApp
keep_session r s = if r.session_token == "" then s else record s {
  session_token = r.session_token;
  keyring = insert s.username r.session_token s.keyring;
}

unfoldable pub announce : Host → PhazeApp → PhazeApp
unfolding send_message blank
announce h s = elim s.pub_key [
  | none ↦ s
  | some key ↦
      send_message h
        (record (blank MsgType.presence) {
          sender = s.username;
          status = "Online";
          public_key = key;
          key_fingerprint = fingerprint h.box key;
        })
        s
]

-- What follows an accepted login.
unfoldable pub logged_in : Host → Dialer → AuthResult → PhazeApp → PhazeApp
unfolding keep_session act load_keys announce
logged_in h d r s =
    announce h (load_keys h d.fresh (act (play_sound "Login.wav") (keep_session r s)))

unfoldable pub await_result : Host → Dialer → PhazeApp → Result AuthResult × PhazeApp
unfolding logged_in
await_result h d s = elim d.result [
  | none ↦ (err "authentication timeout", s)
  | some r ↦ (ok r, if r.status == "ok" then logged_in h d r s else s)
]

unfoldable pub connect :
    Host → Dialer → String → String → String → PhazeApp → Result AuthResult × PhazeApp
unfolding targets auth_message await_result act
connect h d password totp_code session_token s = elim (query_row d.answers (targets d s)) [
  | none ↦ (err "could not reach any Phaze Nexus", s)
  | some addr ↦
      let dialled = record s { server_address = addr; auth_chan = none } in
      await_result h d
        (act (write (auth_message d dialled password totp_code session_token)) dialled)
]

-- ConnectToServer: the error text of a login that is not accepted.
unfoldable pub connect_to_server : Host → Dialer → String → PhazeApp → Option String × PhazeApp
unfolding connect
connect_to_server h d password s =
    let done = connect h d password "" "" s in
    elim done.0 [
      | err e ↦ (some e, done.1)
      | ok r ↦
          if r.status == "ok"
          then (none, done.1)
          else if r.error == ""
          then (some "authentication failed", done.1)
          else (some r.error, done.1)
    ]
