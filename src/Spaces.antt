-- ===== src/Spaces.antt =====
-- Servers and channels ("Spaces") of nexus_server/main.go: userIsServerMember, userServerRole,
-- listUserServers, listServerChannels, channelHistory, broadcastChannelMsg, and the two names' rules.
pub mod History
use Prim.Native.Char.{Char, code}
use Prim.Native.String.{String as Text, count, compare}
use mathlib.Core.List.{reverse}
use text.Mathlib.Text.{is_le}
use skype7_reborn.Prelude.{
  ℕ, String, Bool, false, ◌&&◌, ◌||◌, List, [], Option, none, some, map, ◌==◌, leb, ltb, nat_eq,
  if◌then◌else◌, ok, err,
}
use skype7_reborn.Prelude.Table.{select, any_row, order_by, limit, join}
use skype7_reborn.Prelude.Text.{all_chars}
use skype7_reborn.World.{World, Site}
use skype7_reborn.Wire.{NexusMessage, ServerSummary, ChannelInfo, ChannelMsg}
use skype7_reborn.Db.{Db, Space, Channel, ServerMember, ChannelMessage}
use skype7_reborn.Sql.{fetch}
use skype7_reborn.Server.{Server, send_to_all}

-- [\p{L}\p{N} _\-\.']
server_name_char : World → Char → Bool
server_name_char w c =
    w.is_letter_or_number c
    || nat_eq n 32
    || nat_eq n b'_'
    || nat_eq n b'-'
    || nat_eq n b'.'
    || nat_eq n 39
  where
    n : ℕ
    n = code c

unfoldable pub valid_server_name : World → String → Bool
unfolding server_name_char
valid_server_name w Text.[] = false
valid_server_name w (Text.◌∷◌ c s) =
    w.is_letter_or_number c
    && all_chars (server_name_char w) s
    && leb 1 (count s)
    && leb (count s) 63

-- [a-z0-9]
lower_or_digit : Char → Bool
lower_or_digit c =
    (leb b'a' (code c) && leb (code c) b'z') || (leb b'0' (code c) && leb (code c) b'9')

channel_name_char : Char → Bool
unfolding lower_or_digit
channel_name_char c = lower_or_digit c || nat_eq (code c) b'-' || nat_eq (code c) b'_'

unfoldable pub valid_channel_name : String → Bool
unfolding channel_name_char
valid_channel_name Text.[] = false
valid_channel_name (Text.◌∷◌ c s) =
    lower_or_digit c && all_chars channel_name_char s && leb 1 (count s) && leb (count s) 31

unfoldable pub membership : String → String → ServerMember → Bool
membership server user m = m.server_id == server && m.username == user

unfoldable pub user_is_server_member : World → String → String → Db → Bool
user_is_server_member w server user db =
    if w.fails Site.member_select then false else any_row (membership server user) db.server_members

unfoldable pub user_server_role : World → String → String → Db → String
user_server_role w server user db =
    elim (fetch w Site.role_select (membership server user) db.server_members) [
      | err e ↦ ""
      | ok m ↦ m.role
    ]

unfoldable pub summary : ServerMember → Space → ServerSummary
summary m s = record {
  id = s.id;
  name = s.name;
  description = s.description;
  icon = s.icon;
  owner = s.owner;
  visibility = s.visibility;
  role = m.role;
  invite_code = s.invite_code;
}

-- `none` when the query fails.
unfoldable pub list_user_servers : World → String → Db → Option (List ServerSummary)
list_user_servers w u db =
    if w.fails Site.servers_select
    then none
    else some (
        join (λ m. map (summary m) (select (λ s. s.id == m.server_id) db.servers))
          (order_by (λ m n. leb m.joined_at n.joined_at)
            (select (λ m. m.username == u) db.server_members)))

-- ORDER BY position ASC, name ASC
channel_before : Channel → Channel → Bool
channel_before a b =
    ltb a.position b.position || (nat_eq a.position b.position && is_le (compare a.name b.name))

unfoldable pub channel_info : Channel → ChannelInfo
channel_info c = record {
  id = c.id;
  server_id = c.server_id;
  name = c.name;
  topic = c.topic;
  kind = c.kind;
  position = c.position;
}

-- The callers take an error for an empty list.
unfoldable pub list_server_channels : World → String → Db → List ChannelInfo
unfolding channel_before
list_server_channels w server db =
    if w.fails Site.channels_select
    then []
    else map channel_info
        (order_by channel_before (select (λ c. c.server_id == server) db.channels))

unfoldable pub channel_msg_of : ChannelMessage → ChannelMsg
channel_msg_of m = record {
  id = m.id;
  channel_id = m.channel_id;
  sender = m.sender;
  body = m.body;
  created_at = m.created_at;
}

-- WHERE channel_id = ? AND id < ?, the second only for a cursor above 0
unfoldable pub in_history : String → ℕ → ChannelMessage → Bool
in_history channel before m = m.channel_id == channel && (nat_eq before 0 || ltb m.id before)

unfoldable pub page_size : ℕ → ℕ
page_size limit = if nat_eq limit 0 || ltb 200 limit then 50 else limit

-- A cursor below 0 is treated as 0 is. The loop that swaps the ends of the page inwards is `reverse`.
unfoldable pub channel_history : World → String → ℕ → ℕ → Db → Option (List ChannelMsg)
unfolding page_size
channel_history w channel before limit_ db =
    if w.fails Site.history_select
    then none
    else some (
        reverse (
          map channel_msg_of (
            limit (page_size limit_) (
              order_by (λ a b. leb b.id a.id)
                (select (in_history channel before) db.channel_messages)))))

unfoldable pub server_members_of : String → Db → List String
server_members_of server db =
    map (λ m. m.username) (select (λ m. m.server_id == server) db.server_members)

unfoldable pub broadcast_channel_msg : World → String → NexusMessage → Server → Server
broadcast_channel_msg w server payload s =
    if w.fails Site.broadcast_select
    then s
    else send_to_all (server_members_of server s.db) payload s
