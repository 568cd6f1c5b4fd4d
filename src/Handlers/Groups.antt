-- ===== src/Handlers/Groups.antt =====
-- The cases convo_create, convo_msg and convo_leave.
use skype7_reborn.Prelude.{
  ℕ, ◌+◌, String, ◌||◌, List, [], ◌∷◌, none, some, ◌==◌, if◌then◌else◌, ok, err,
}
use skype7_reborn.Prelude.Dict.{lookup}
use skype7_reborn.World.{World, Site}
use skype7_reborn.Wire.{NexusMessage, MsgType, blank, with_error}
use skype7_reborn.Server.{Server, send, send_to_all, set_db, user_of}
use skype7_reborn.Social.Friends.{get_friends}
use skype7_reborn.Social.Convos.{
  create_conversation, conversation_members, leave_conversation, eligible_members,
}
use skype7_reborn.Social.Offline.{store_offline_row}

abbrev pub no_members : String
no_members = "No eligible members — add friends first"

unfoldable pub created_notice : NexusMessage → String → List String → NexusMessage
created_notice m u members = record (blank MsgType.convo_created) {
  convo_id = m.convo_id;
  convo_name = m.convo_name;
  members = members;
  sender = u;
}

unfoldable pub eligible : World → String → NexusMessage → Server → List String
eligible w u m s = eligible_members u (get_friends w Site.friends_select u s.db) m.members

unfoldable pub handle_convo_create : World → ℕ → NexusMessage → Server → Server
handle_convo_create w c m s =
    let u = user_of s c in
    if u == "" then s else elim (eligible w u m s) [
      | [] ↦ send c (with_error MsgType.convo_error no_members) s
      | e ∷ es ↦
          let (r, db) = create_conversation w m.convo_id m.convo_name u (e ∷ es) s.db in
          elim r [
            | err x ↦ send c (with_error MsgType.convo_error x) (set_db db s)
            | ok _ ↦
                let members = conversation_members w m.convo_id db in
                send_to_all members (created_notice m u members) (set_db db s)
          ]
    ]

abbrev pub count_convo_message : Server → Server
count_convo_message s = record s {
  metrics = record s.metrics { convo_messages = s.metrics.convo_messages + 1 };
}

-- The body for one member: the member's envelope, or the plain body where there is none.
unfoldable pub body_for : NexusMessage → String → String
body_for m u = elim (lookup u m.envelopes) [ some e ↦ e | none ↦ m.body ]

unfoldable pub fanout : NexusMessage → String → String → NexusMessage
fanout m sender u = record (blank MsgType.convo_msg) {
  sender = sender;
  body = body_for m u;
  convo_id = m.convo_id;
}

-- To one member: the frame if online, a row of offline_messages if not.
unfoldable pub fan_out_to : World → NexusMessage → String → String → Server → Server
fan_out_to w m sender u s = elim (lookup u s.clients) [
  | some d ↦ send d (fanout m sender u) s
  | none ↦ set_db (store_offline_row w sender u (body_for m u) MsgType.convo_msg m.convo_id s.db) s
]

unfoldable pub fan_out : World → NexusMessage → String → List String → Server → Server
fan_out w m sender [] s = s
fan_out w m sender (u ∷ us) s =
    fan_out w m sender us (if u == sender then s else fan_out_to w m sender u s)

unfoldable pub handle_convo_msg : World → ℕ → NexusMessage → Server → Server
handle_convo_msg w c m s =
    let u = user_of s c in
    if u == "" || m.convo_id == ""
    then s
    else fan_out w m u (conversation_members w m.convo_id s.db) (count_convo_message s)

unfoldable pub left_notice : NexusMessage → String → NexusMessage
left_notice m u = record (blank MsgType.convo_left) { sender = u; convo_id = m.convo_id }

unfoldable pub handle_convo_leave : World → ℕ → NexusMessage → Server → Server
handle_convo_leave w c m s =
    let u = user_of s c in
    if u == ""
    then s
    else let db = leave_conversation w m.convo_id u s.db in
      send_to_all (conversation_members w m.convo_id db) (left_notice m u) (set_db db s)
