-- ===== src/Handlers/Chat.antt =====
-- The cases msg (with handleBotMessage), block, unblock, list_blocks, report_abuse, typing,
-- status_update, presence and search.
use skype7_reborn.Prelude.{
  ℕ, String, not, ◌&&◌, ◌||◌, none, some, ◌==◌, nat_eq, length, if◌then◌else◌, ok, err,
}
use skype7_reborn.Prelude.Dict.{lookup}
use skype7_reborn.Prelude.Text.{append, decimal, to_lower, trim_space}
use skype7_reborn.World.{World}
use skype7_reborn.Wire.{NexusMessage, MsgType, blank, with_status, with_error}
use skype7_reborn.Server.{Server, send, send_to_user, set_conn, set_db, user_of}
use skype7_reborn.Social.Blocks.{
  is_blocked, block_user, unblock_user, list_blocks, record_abuse_report,
}
use skype7_reborn.Social.Friends.{are_friends, broadcast_presence}
use skype7_reborn.Social.Offline.{store_offline_message}
use skype7_reborn.Social.Search.{search_users}

abbrev bot_help : String
bot_help = "I am the Phaze Mesh Assistant. Try: /mesh, /version, /pstn (PSTN status), /webrtc"

abbrev bot_webrtc : String
bot_webrtc =
    "Phaze voice/video uses WebRTC (Pion on desktop, browser APIs on web). Signaling goes over Nexus; media is peer-to-peer when possible, with TURN from your relay when NAT blocks direct paths."

abbrev bot_version : String
bot_version = "Nexus Server v1.0.0-Phaze | Build: Enterprise-Mesh"

abbrev bot_pstn_on : String
bot_pstn_on =
    "PSTN bridge is ON for this relay (Twilio). Link your phone in Settings for verified outbound. Otherwise use WebRTC calls in chat."

abbrev bot_pstn_off : String
bot_pstn_off =
    "PSTN bridge is OFF. Voice/video is WebRTC between Phaze users only — no carrier charges."

unfoldable pub bot_answer : World → String → Server → String
bot_answer w command s =
    if command == "/mesh"
    then append "The Phaze Mesh currently has "
        (append (decimal (length s.clients)) " active sovereign peers.")
    else if command == "/webrtc"
    then bot_webrtc
    else if command == "/version"
    then bot_version
    else if command == "/pstn"
    then (if w.pstn_enabled then bot_pstn_on else bot_pstn_off)
    else bot_help

unfoldable pub handle_bot_message : World → ℕ → NexusMessage → Server → Server
handle_bot_message w c m s =
    send c
      (record (blank MsgType.msg) {
        sender = "PhazeBot";
        recipient = m.sender;
        body = bot_answer w (to_lower (trim_space m.body)) s;
      })
      s

unfoldable pub delivered_offline : String → NexusMessage
delivered_offline u = record (blank MsgType.msg_status) { body = "delivered_offline"; sender = u }

-- What happens to a message that no block stops.
unfoldable pub deliver_message : World → ℕ → NexusMessage → Server → Server
deliver_message w c m s = elim (lookup m.recipient s.clients) [
  | some d ↦ send d m s
  | none ↦
      send c (delivered_offline m.recipient)
        (set_db (store_offline_message w m.sender m.recipient m.body MsgType.msg s.db) s)
]

unfoldable pub handle_msg : World → ℕ → NexusMessage → Server → Server
handle_msg w c m s =
    let u = user_of s c in
    let m' = record m { sender = u } in
    if u == ""
    then s
    else if m.recipient == "PhazeBot"
    then handle_bot_message w c m' s
    else if is_blocked w m.recipient u s.db || is_blocked w u m.recipient s.db
    then send c (delivered_offline m.recipient) s
    else deliver_message w c m' s

unfoldable pub block_result : String → String → NexusMessage
block_result status recipient = record (with_status MsgType.block_result status) {
  recipient = recipient;
}

unfoldable pub handle_block : World → ℕ → NexusMessage → Server → Server
handle_block w c m s =
    if user_of s c == ""
    then s
    else let (r, db) = block_user w (user_of s c) m.recipient s.db in
      elim r [
        | err e ↦ send c (with_error MsgType.block_result e) (set_db db s)
        | ok _ ↦ send c (block_result "blocked" m.recipient) (set_db db s)
      ]

unfoldable pub handle_unblock : World → ℕ → NexusMessage → Server → Server
handle_unblock w c m s =
    if user_of s c == ""
    then s
    else let (r, db) = unblock_user w (user_of s c) m.recipient s.db in
      elim r [
        | err e ↦ send c (with_error MsgType.block_result e) (set_db db s)
        | ok _ ↦ send c (block_result "unblocked" m.recipient) (set_db db s)
      ]

unfoldable pub handle_list_blocks : World → ℕ → NexusMessage → Server → Server
handle_list_blocks w c m s =
    if user_of s c == ""
    then s
    else send c (record (blank MsgType.blocks) { results = list_blocks w (user_of s c) s.db }) s

unfoldable pub handle_report_abuse : World → ℕ → NexusMessage → Server → Server
handle_report_abuse w c m s =
    if user_of s c == ""
    then s
    else let (r, db) = record_abuse_report w (user_of s c) m.recipient m.status m.body s.db in
      elim r [
        | err e ↦ send c (with_error MsgType.report_result e) (set_db db s)
        | ok _ ↦ send c (with_status MsgType.report_result "received") (set_db db s)
      ]

unfoldable pub handle_typing : World → ℕ → NexusMessage → Server → Server
handle_typing w c m s =
    if user_of s c == ""
    then s
    else send_to_user m.recipient (record (blank MsgType.typing) { sender = user_of s c }) s

-- if client, ok := s.Clients[u]; ok { client.Status = status }
unfoldable pub set_status : String → String → Server → Server
set_status u status s = elim (lookup u s.clients) [
  | none ↦ s
  | some d ↦ set_conn d (record (s.conns d) { status = status }) s
]

unfoldable pub handle_status_update : World → ℕ → NexusMessage → Server → Server
handle_status_update w c m s =
    broadcast_presence w (user_of s c) m.body (set_status (user_of s c) m.body s)

-- The directed handoff of a public key.
unfoldable pub hand_over_key : World → String → NexusMessage → Server → Server
hand_over_key w u m s =
    if not (m.recipient == "")
      && nat_eq (length m.public_key) 32
      && are_friends w u m.recipient s.db
    then send_to_user m.recipient (record m { sender = u }) s
    else s

unfoldable pub handle_presence : World → ℕ → NexusMessage → Server → Server
handle_presence w c m s =
    let u = user_of s c in
    if u == ""
    then s
    else broadcast_presence w u m.status (set_status u m.status (hand_over_key w u m s))

unfoldable pub handle_search : World → ℕ → NexusMessage → Server → Server
handle_search w c m s =
    if user_of s c == ""
    then s
    else send c
        (record (blank MsgType.search_results) {
          results = search_users w m.body (user_of s c) s.db;
        })
        s
