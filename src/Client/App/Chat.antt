-- ===== src/Client/App/Chat.antt =====
-- The chats of native_client/main.go: what OpenChat loads and its OnSend does, the callbacks of
-- showNewGroupDialog and showAddContactDialog, loadRecentChats, and updateStatus where the app is a
-- desktop app.
use skype7_reborn.Prelude.{
  String, Bool, true, false, ◌||◌, none, some, List, [], ◌∷◌, ◌++◌, ◌==◌, leb, if◌then◌else◌,
}
use skype7_reborn.Prelude.Dict.{lookup, insert}
use skype7_reborn.Prelude.Table.{select, delete_where, order_by, query_row, limit}
use skype7_reborn.Prelude.Text.{append, starts_with, trim_prefix, trim_space}
use skype7_reborn.Wire.{MsgType, blank}
use skype7_reborn.Client.App.{
  PhazeApp, Host, Message, Conversation, FriendInfo, Bubble, in_envelope, show_information,
  notification, act, message_select,
}
use skype7_reborn.Client.App.Sending.{send_message, encrypt_for_peer, request_peer_key}
use skype7_reborn.Client.App.Messages.{insert_message}

unfoldable pub is_group_of : String → Conversation → Bool
is_group_of name c = c.identity == name

-- The title of the group, or "" where the chat is none.
unfoldable pub group_name : String → PhazeApp → String
unfolding is_group_of
group_name name s = elim (query_row (is_group_of name) s.conversations) [
  | none ↦ ""
  | some c ↦ c.displayname
]

unfoldable pub in_chat : String → Message → Bool
in_chat name m = m.chatname == name

unfoldable pub not_later : Message → Message → Bool
not_later a b = leb a.timestamp b.timestamp

unfoldable pub bubbles : String → List Message → List Bubble
bubbles username [] = []
bubbles username (m ∷ ms) =
    record { author = m.author; text = m.body_xml; is_me = m.author == username }
    ∷ bubbles username ms

-- The history that OpenChat shows, by time; the sort is stable.
unfoldable pub open_chat : String → PhazeApp → PhazeApp
unfolding in_chat not_later bubbles
open_chat name s = record s {
  chat_logs =
      insert name (bubbles s.username (order_by not_later (select (in_chat name) s.messages)))
        s.chat_logs;
  chat_typing_labels = insert name false s.chat_typing_labels;
}

-- `/me waves` is sent as an action.
unfoldable pub body_of : PhazeApp → String → String
body_of s text =
    if starts_with text "/me "
    then append "* " (append s.username (append " " (trim_prefix "/me " text)))
    else text

-- One round of the loop over the members: a key that is missing is asked for.
unfoldable pub ask_key : Host → String → PhazeApp → PhazeApp
unfolding request_peer_key
ask_key h member s = elim (lookup member s.peer_keys) [
  | some key ↦ s
  | none ↦ request_peer_key h member s
]

unfoldable pub ask_keys : Host → List String → PhazeApp → PhazeApp
unfolding ask_key
ask_keys h [] s = s
ask_keys h (m ∷ ms) s = ask_keys h ms (if m == "" || m == s.username then s else ask_key h m s)

unfoldable pub envelopes_for :
    Host → PhazeApp → String → List String → List (String × String) → List (String × String)
unfolding encrypt_for_peer
envelopes_for h s body [] es = es
envelopes_for h s body (m ∷ ms) es = envelopes_for h s body ms (
    if m == "" || m == s.username
    then es
    else insert m (encrypt_for_peer h s (in_envelope m) body m) es)

unfoldable pub members_of : String → PhazeApp → List String
members_of name s = elim (lookup name s.convo_members) [ none ↦ [] | some ms ↦ ms ]

unfoldable pub send_to_group : Host → String → String → PhazeApp → PhazeApp
unfolding ask_keys envelopes_for members_of send_message insert_message blank
send_to_group h name body s =
    let members = members_of name s in
    let envelopes = envelopes_for h s body members [] in
    let sent =
      send_message h
        (record (blank MsgType.convo_msg) {
          sender = s.username;
          convo_id = name;
          envelopes = envelopes;
        })
        (ask_keys h members s) in
    insert_message h name s.username body 61 sent

-- historyContainer.Add
unfoldable pub add_bubble : String → Bubble → PhazeApp → PhazeApp
add_bubble name b s = elim (lookup name s.chat_logs) [
  | none ↦ s
  | some bs ↦ record s { chat_logs = insert name (bs ++ b ∷ []) s.chat_logs }
]

-- OnSend of the chat that was opened.
unfoldable pub on_send : Host → String → String → PhazeApp → PhazeApp
unfolding body_of send_to_group send_message blank add_bubble group_name
on_send h name text s =
    if trim_space text == ""
    then s
    else let body = body_of s text in
      add_bubble name (record { author = s.username; text = body; is_me = true })
        (if group_name name s == ""
          then send_message h
              (record (blank MsgType.msg) { sender = s.username; recipient = name; body = body }) s
          else send_to_group h name body s)

-- The callback of showNewGroupDialog, with the id that it makes of the time.
unfoldable pub create_group : Host → String → String → List String → PhazeApp → PhazeApp
unfolding act send_message blank
create_group h convo name members s = if trim_space name == "" then s else elim members [
  | [] ↦ act (show_information "Select at least one contact") s
  | m ∷ ms ↦
      send_message h
        (record (blank MsgType.convo_create) {
          sender = s.username;
          convo_id = convo;
          convo_name = name;
          members = m ∷ ms;
        })
        s
]

unfoldable pub add_contact : Host → String → PhazeApp → PhazeApp
unfolding act send_message blank
add_contact h name s =
    if name == ""
    then s
    else act (show_information (append "Friend request sent to " name)) (
        send_message h
          (record (blank MsgType.friend_request) { sender = s.username; recipient = name }) s)

unfoldable pub update_status : Host → String → PhazeApp → PhazeApp
unfolding act send_message blank
update_status h status s =
    let known = record s { status = status } in
    act (notification "Phaze" (append "Status changed to " status)) (
      send_message h (record (blank MsgType.status_update) { sender = s.username; body = status })
        known)

unfoldable pub is_name : String → String → Bool
is_name name other = other == name

-- The chats by their latest message, from one end of the table to the other.
unfoldable pub distinct_chats : List Message → List String
unfolding is_name
distinct_chats [] = []
distinct_chats (m ∷ ms) = m.chatname ∷ delete_where (is_name m.chatname) (distinct_chats ms)

unfoldable pub newest_first : List Message → List Message → List Message
newest_first [] done = done
newest_first (m ∷ ms) done = newest_first ms (m ∷ done)

unfoldable pub has_username : String → FriendInfo → Bool
has_username name f = f.username == name

unfoldable pub chat_info : List FriendInfo → String → FriendInfo
unfolding has_username
chat_info friends name = elim (query_row (has_username name) friends) [
  | some f ↦ f
  | none ↦ record { username = name; display_name = ""; status = "Offline"; mood = "" }
]

unfoldable pub chat_infos : List FriendInfo → List String → List FriendInfo
unfolding chat_info
chat_infos friends [] = []
chat_infos friends (name ∷ names) =
    let rest = chat_infos friends names in
    if name == "Echo / Sound Test Service" then rest else chat_info friends name ∷ rest

-- Ids grow with the order of insertion.
unfoldable pub load_recent_chats : Host → PhazeApp → List FriendInfo
unfolding distinct_chats newest_first chat_infos
load_recent_chats h s =
    record {
      username = "Echo / Sound Test Service";
      display_name = "Echo / Sound Test Service";
      status = "Online";
      mood = "";
    }
    ∷ (if h.fails message_select
        then []
        else chat_infos s.friends (limit 20 (distinct_chats (newest_first s.messages []))))
