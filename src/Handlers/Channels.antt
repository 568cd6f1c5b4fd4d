-- ===== src/Handlers/Channels.antt =====
-- The cases channel_create, channel_msg and channel_history.
pub mod Privacy
use skype7_reborn.Prelude.{
  ℕ, suc, ◌+◌, String, Bool, not, ◌||◌, List, [], ◌∷◌, none, some, ◌==◌, ltb, if◌then◌else◌, Result,
  ok, err,
}
use skype7_reborn.Prelude.Table.{insert_row, select}
use skype7_reborn.Prelude.Text.{append, len, to_lower, trim_space}
use skype7_reborn.World.{World, Site, Draw, rand_hex, current_timestamp}
use skype7_reborn.Wire.{NexusMessage, MsgType, blank, with_status, with_error}
use skype7_reborn.Db.{Db, Channel, ChannelMessage}
use skype7_reborn.Sql.{fetch, insert_unique}
use skype7_reborn.Server.{Server, send, set_db, user_of}
use skype7_reborn.Spaces.{
  valid_channel_name, user_is_server_member, user_server_role, list_server_channels,
  channel_history, broadcast_channel_msg,
}

-- COALESCE(MAX(position), 0)
unfoldable pub max_position : List Channel → ℕ
max_position [] = 0
max_position (ch ∷ chs) =
    let rest = max_position chs in if ltb rest ch.position then ch.position else rest

unfoldable pub next_position : World → String → Db → ℕ
next_position w server db =
    if w.fails Site.position_select
    then 1
    else max_position (select (λ ch. ch.server_id == server) db.channels) + 1

unfoldable pub channel_kind : String → String
channel_kind k =
    let t = to_lower (trim_space k) in if t == "text" || t == "voice" then t else "text"

abbrev pub channel_name_rule : String
channel_name_rule = "channel name: lowercase a-z 0-9 - _ , 2-32 chars"

unfoldable pub new_channel : World → String → NexusMessage → Db → Channel
new_channel w cid m db = record {
  id = cid;
  server_id = m.server_id;
  name = to_lower (trim_space m.channel_name);
  topic = trim_space m.topic;
  kind = channel_kind m.kind;
  position = next_position w m.server_id db;
}

unfoldable pub channels_updated : World → String → Db → NexusMessage
channels_updated w server db = record (blank MsgType.server_channels_updated) {
  server_id = server;
  channels = list_server_channels w server db;
}

unfoldable pub may_create_channel : String → Bool
may_create_channel role = role == "owner" || role == "admin"

-- What follows the checks of channel_create, for the new channel's id.
unfoldable pub create_channel : World → ℕ → String → NexusMessage → Server → Server
create_channel w c cid m s =
    elim (insert_unique w Site.channel_insert (λ ch. ch.id == cid) (new_channel w cid m s.db)
      s.db.channels) [
        | err e ↦ send c (with_error MsgType.channel_result (append "db: " e)) s
        | ok rows ↦
            let db = record s.db { channels = rows } in
            send c
              (record (with_status MsgType.channel_result "ok") {
                server_id = m.server_id;
                channel_id = cid;
              })
              (broadcast_channel_msg w m.server_id (channels_updated w m.server_id db)
                (set_db db s))
      ]

unfoldable pub handle_channel_create : World → ℕ → NexusMessage → Server → Server
handle_channel_create w c m s =
    let u = user_of s c in
    if u == "" || m.server_id == ""
    then s
    else if not (may_create_channel (user_server_role w m.server_id u s.db))
    then send c (with_error MsgType.channel_result "admin only") s
    else if not (valid_channel_name (to_lower (trim_space m.channel_name)))
    then send c (with_error MsgType.channel_result channel_name_rule) s
    else elim (rand_hex w Draw.channel_draw 12) [
      | none ↦ send c (with_error MsgType.channel_result "rand failure") s
      | some cid ↦ create_channel w c cid m s
    ]

-- The server of a channel, and whether the user may use the channel: an error text if not.
unfoldable pub channel_server : World → String → String → Db → Result String
channel_server w channel u db =
    elim (fetch w Site.channel_select (λ ch. ch.id == channel) db.channels) [
      | err e ↦ err "no such channel"
      | ok ch ↦
          if user_is_server_member w ch.server_id u db then ok ch.server_id else err "not a member"
    ]

unfoldable pub channel_row : World → NexusMessage → String → Db → ChannelMessage
channel_row w m u db = record {
  id = suc db.messages_last;
  channel_id = m.channel_id;
  sender = u;
  body = trim_space m.body;
  created_at = current_timestamp w;
}

unfoldable pub channel_msg_in : World → String → ChannelMessage → NexusMessage
channel_msg_in w server r = record (blank MsgType.channel_msg_in) {
  server_id = server;
  channel_id = r.channel_id;
  sender = r.sender;
  body = r.body;
  messages =
      record {
        id = r.id;
        channel_id = r.channel_id;
        sender = r.sender;
        body = r.body;
        created_at = current_timestamp w;
      }
      ∷ [];
}

unfoldable pub post_message : World → ℕ → NexusMessage → String → String → Server → Server
post_message w c m server u s =
    if w.fails Site.message_insert
    then send c
        (with_error MsgType.channel_msg_result (append "db: " (w.error_text Site.message_insert))) s
    else let row = channel_row w m u s.db in
      broadcast_channel_msg w server (channel_msg_in w server row) (
        set_db
          (record s.db {
            channel_messages = insert_row row s.db.channel_messages;
            messages_last = suc s.db.messages_last;
          })
          s)

unfoldable pub bad_body : String → Bool
bad_body t = t == "" || ltb 8000 (len t)

unfoldable pub handle_channel_msg : World → ℕ → NexusMessage → Server → Server
handle_channel_msg w c m s =
    let u = user_of s c in
    if u == "" || m.channel_id == "" then s else elim (channel_server w m.channel_id u s.db) [
      | err e ↦ send c (with_error MsgType.channel_msg_result e) s
      | ok server ↦
          if bad_body (trim_space m.body)
          then send c (with_error MsgType.channel_msg_result "body 1-8000 chars") s
          else post_message w c m server u s
    ]

unfoldable pub handle_channel_history : World → ℕ → NexusMessage → Server → Server
handle_channel_history w c m s =
    let u = user_of s c in
    if u == "" || m.channel_id == "" then s else elim (channel_server w m.channel_id u s.db) [
      | err e ↦ send c (with_error MsgType.channel_history_result e) s
      | ok server ↦ elim (channel_history w m.channel_id m.history_from 50 s.db) [
        | none ↦
            send c
              (with_error MsgType.channel_history_result
                (append "db: " (w.error_text Site.history_select)))
              s
        | some history ↦
            send c
              (record (with_status MsgType.channel_history_result "ok") {
                server_id = server;
                channel_id = m.channel_id;
                messages = history;
              })
              s
      ]
    ]
