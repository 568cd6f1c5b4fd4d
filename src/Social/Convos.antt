-- ===== src/Social/Convos.antt =====
-- createConversation, conversationMembers, userConversations, leaveConversation, and the choice of
-- the members whom convo_create accepts.
use skype7_reborn.Prelude.{
  String, Bool, true, false, ◌&&◌, List, [], ◌∷◌, Option, none, some, map, ◌==◌, if◌then◌else◌,
  Result, ok, err,
}
use skype7_reborn.Prelude.Table.{select, any_row, insert_row, delete_where}
use skype7_reborn.World.{World, Site}
use skype7_reborn.Wire.{NexusMessage, MsgType, blank}
use skype7_reborn.Db.{Db, ConversationMember}
use skype7_reborn.Sql.{insert_unique}

unfoldable pub mem_text : String → List String → Bool
mem_text u [] = false
mem_text u (v ∷ vs) = if v == u then true else mem_text u vs

unfoldable pub member_row : String → String → ConversationMember → Bool
member_row id u m = m.convo_id == id && m.username == u

-- INSERT OR IGNORE
unfoldable pub add_member : String → String → List ConversationMember → List ConversationMember
add_member id u rows =
    if any_row (member_row id u) rows
    then rows
    else insert_row (record { convo_id = id; username = u }) rows

-- The loop over creator and members with the map `seen`; `none` when an insert fails.
unfoldable pub add_members :
    World
    → String
    → List String
    → List String
    → List ConversationMember
    → Option (List ConversationMember)
add_members w id seen [] rows = some rows
add_members w id seen (m ∷ ms) rows = elim (mem_text m seen) [
  | true ↦ add_members w id seen ms rows
  | false ↦ elim (w.fails (Site.convo_member m)) [
    | true ↦ none
    | false ↦ add_members w id (m ∷ seen) ms (add_member id m rows)
  ]
]

abbrev pub convo_failed : String
convo_failed = "insert into conversation_members failed"

unfoldable pub create_conversation :
    World → String → String → String → List String → Db → Result (Unit {0}) × Db
create_conversation w id name creator members db =
    if w.fails Site.convo_begin
    then (err (w.error_text Site.convo_begin), db)
    else elim (insert_unique w Site.convo_insert (λ c. c.id == id)
        (record { id = id; name = name; created_by = creator }) db.conversations) [
          | err e ↦ (err e, db)
          | ok convos ↦ elim (add_members w id [] (creator ∷ members) db.conversation_members) [
            | none ↦ (err convo_failed, db)
            | some rows ↦
                if w.fails Site.convo_commit
                then (err (w.error_text Site.convo_commit), db)
                else (ok tt, record db { conversations = convos; conversation_members = rows })
          ]
        ]

unfoldable pub conversation_members : World → String → Db → List String
conversation_members w id db =
    if w.fails (Site.convo_members id)
    then []
    else map (λ m. m.username) (select (λ m. m.convo_id == id) db.conversation_members)

unfoldable pub leave_conversation : World → String → String → Db → Db
leave_conversation w id u db =
    if w.fails Site.leave_delete
    then db
    else record db { conversation_members = delete_where (member_row id u) db.conversation_members }

-- conversations JOIN conversation_members, in the order of the conversations
unfoldable pub user_conversations : World → String → Db → List NexusMessage
user_conversations w u db =
    if w.fails Site.convos_select
    then []
    else map
        (λ c. record (blank MsgType.convo_info) {
          convo_id = c.id;
          convo_name = c.name;
          members = conversation_members w c.id db;
        })
        (select (λ c. any_row (member_row c.id u) db.conversation_members) db.conversations)

-- Only the creator and the creator's friends are eligible.
unfoldable pub eligible_members : String → List String → List String → List String
eligible_members creator friends [] = []
eligible_members creator friends (m ∷ ms) =
    let rest = eligible_members creator friends ms in
    if mem_text m (creator ∷ friends) then m ∷ rest else rest
