-- ===== src/Handlers/Login.antt =====
-- The cases auth, session_auth, qr_login_check and revoke_session, and the end of a connection.
use skype7_reborn.Prelude.{
  ℕ, ◌+◌, String, Bool, false, not, ◌||◌, List, [], ◌∷◌, none, some, ◌==◌, nat_eq, if◌then◌else◌,
}
use skype7_reborn.Prelude.Dict.{lookup, insert, erase}
use skype7_reborn.Prelude.Text.{append}
use skype7_reborn.World.{World, Site}
use skype7_reborn.Wire.{NexusMessage, MsgType, blank, with_status, with_error}
use skype7_reborn.Server.{Server, send, set_conn, close, set_db, generate_media_token, user_of}
use skype7_reborn.Account.Login.{authenticate_user, user_ban_info}
use skype7_reborn.Account.Session.{issue_session_token, session_username, revoke_session}
use skype7_reborn.Account.Totp.{verify_totp}
use skype7_reborn.Account.Qr.{check_qr_login}
use skype7_reborn.Social.Friends.{get_friends, get_pending_requests, broadcast_presence}
use skype7_reborn.Social.Convos.{user_conversations}
use skype7_reborn.Social.Offline.{deliver_offline_messages}

abbrev pub count_auth_success : Server → Server
count_auth_success s = record s {
  metrics = record s.metrics { auth_success = s.metrics.auth_success + 1 };
}

abbrev pub count_auth_failure : Server → Server
count_auth_failure s = record s {
  metrics = record s.metrics { auth_failure = s.metrics.auth_failure + 1 };
}

unfoldable pub kicked_message : String → NexusMessage
kicked_message body = record (blank MsgType.kicked) { body = body }

-- A connection that the user already has is told and closed.
unfoldable pub kick_existing : String → Server → Server
kick_existing u s = elim (lookup u s.clients) [
  | none ↦ s
  | some e ↦ close e (send e (kicked_message "Logged in from another location") s)
]

-- The locked block of the three logins: the user's entry now is this connection.
unfoldable pub install : ℕ → String → Server → Server
unfolding kick_existing
install c u s =
    let t = kick_existing u s in
    record (set_conn c (record (t.conns c) { username = u; status = "Online" }) t) {
      clients = insert u c t.clients;
    }

unfoldable pub login_reply : World → String → String → NexusMessage
login_reply w u token = record (with_status MsgType.auth_result "ok") {
  sender = u;
  qr_token = token;
  turn_config = generate_media_token w u;
}

unfoldable pub suspended : String → String
suspended reason = if reason == "" then "Account suspended" else append "Account suspended: " reason

unfoldable pub banned_message : String → NexusMessage
banned_message reason = record (with_error MsgType.auth_result (suspended reason)) {
  status = "banned";
}

unfoldable pub send_list : ℕ → List NexusMessage → Server → Server
send_list c [] s = s
send_list c (m ∷ ms) s = send_list c ms (send c m s)

-- The status of each friend, read from the friend's connection.
unfoldable pub friend_statuses : ℕ → List String → Server → Server
friend_statuses c [] s = s
friend_statuses c (f ∷ fs) s =
    let status : String = elim (lookup f s.clients) [
      | none ↦ "Offline"
      | some d ↦ (s.conns d).status
    ] in
    friend_statuses c fs
      (send c (record (blank MsgType.friend_status) { sender = f; status = status }) s)

unfoldable pub send_pending : World → ℕ → String → Server → Server
send_pending w c u s = elim (get_pending_requests w u s.db) [
  | [] ↦ s
  | r ∷ rs ↦ send c (record (blank MsgType.pending_requests) { results = r ∷ rs }) s
]

-- What follows the checks of `auth`.
unfoldable pub complete_auth : World → ℕ → NexusMessage → Server → Server
complete_auth w c m s =
    let (token, failed, db) = issue_session_token w m.sender m.device_info s.db in
    let s1 = install c m.sender (set_db db (count_auth_success s)) in
    let s2 = send c (login_reply w m.sender token) s1 in
    let s3 = deliver_offline_messages w m.sender (broadcast_presence w m.sender "Online" s2) in
    let s4 = send_pending w c m.sender s3 in
    let s5 = send_list c (user_conversations w m.sender s4.db) s4 in
    friend_statuses c (get_friends w Site.friends_list m.sender s5.db) s5

unfoldable pub handle_auth : World → ℕ → NexusMessage → Server → Server
handle_auth w c m s =
    if m.body == ""
    then send c (with_error MsgType.auth_result "Password required") (count_auth_failure s)
    else if not (authenticate_user w m.sender m.body s.db)
    then send c (with_error MsgType.auth_result "Invalid username or password")
        (count_auth_failure s)
    else let (banned, reason) = user_ban_info w m.sender s.db in
      if banned
      then send c (banned_message reason) (count_auth_failure s)
      else if not (verify_totp w m.sender m.totp_code s.db)
      then send c
          (record (with_error MsgType.auth_result "2FA code required or invalid") {
            status = "totp_required";
          })
          (count_auth_failure s)
      else complete_auth w c m s

-- The end of session_auth and of qr_login_check.
unfoldable pub resume : World → ℕ → String → String → Server → Server
resume w c u token s =
    let s1 = send c (login_reply w u token) (install c u s) in
    deliver_offline_messages w u (broadcast_presence w u "Online" s1)

unfoldable pub handle_session_auth : World → ℕ → NexusMessage → Server → Server
handle_session_auth w c m s =
    let u = session_username w m.qr_token s.db in
    if u == ""
    then send c (with_error MsgType.auth_result "Session expired, please log in") s
    else let (banned, reason) = user_ban_info w u s.db in
      if banned
      then send c (banned_message reason) (set_db (revoke_session w m.qr_token s.db) s)
      else resume w c u m.qr_token s

unfoldable pub handle_qr_login_check : World → ℕ → NexusMessage → Server → Server
handle_qr_login_check w c m s =
    let (u, session, approved) = check_qr_login w m.qr_token s.db in
    if not approved
    then send c (record (with_status MsgType.qr_login_result "pending") { qr_token = m.qr_token }) s
    else resume w c u session s

unfoldable pub handle_revoke_session : World → ℕ → NexusMessage → Server → Server
handle_revoke_session w c m s =
    if user_of s c == "" || m.qr_token == ""
    then s
    else send c (with_status MsgType.session_revoked "ok")
        (set_db (revoke_session w m.qr_token s.db) s)

-- The entry of `u` goes only while it is this connection.
unfoldable pub drop_client : ℕ → String → Server → Server
drop_client c u s = elim (lookup u s.clients) [
  | none ↦ s
  | some d ↦ if nat_eq d c then record s { clients = erase u s.clients } else s
]

unfoldable pub was_replaced : ℕ → String → Server → Bool
was_replaced c u s = elim (lookup u s.clients) [ none ↦ false | some d ↦ not (nat_eq d c) ]

-- A read error ends the loop, and the deferred Close runs.
unfoldable pub disconnect : World → ℕ → Server → Server
disconnect w c s =
    let u = user_of s c in
    if u == ""
    then close c s
    else let t = drop_client c u s in
      close c (if was_replaced c u s then t else broadcast_presence w u "Offline" t)
