-- ===== src/Integrity/Convos.antt =====
-- The constraints of the tables under the operations on conversations.
use skype7_reborn.Prelude.{
  String, false, ◌≡◌, refl, some, ◌==◌, eq_iff, arith, Result, ok, err, List, [], ◌∷◌,
}
use skype7_reborn.Prelude.Table.{any_row, insert_row}
use skype7_reborn.Prelude.Table.Keys.{Distinct, Distinct-insert, Distinct-delete}
use skype7_reborn.World.{World}
use skype7_reborn.Db.{Db, ConversationMember, Conversation}
use skype7_reborn.Db.Keys.{IsWellFormed, same_member, same_convo, with_members}
use skype7_reborn.Social.Convos.{
  member_row, add_member, add_members, create_conversation, leave_conversation,
}
use skype7_reborn.Social.Founding.{create_conversation_inv, create_conversation_unchanged}

add_member-Distinct :
    (id u : String) (rows : List ConversationMember)
    → Distinct same_member rows
    → Distinct same_member (add_member id u rows)
unfolding add_member member_row
add_member-Distinct id u rows h = ground (
  arith,
  Distinct-insert same_member (record { convo_id = id; username = u }) rows
      (λ a b. ground (
        arith,
        eq_iff a.convo_id b.convo_id,
        eq_iff b.convo_id a.convo_id,
        eq_iff a.username b.username,
        eq_iff b.username a.username,
      )),
)

add_members-Distinct :
    (w : World) (id : String) (seen ms : List String) (rows : List ConversationMember)
    {rows' : List ConversationMember}
    → add_members w id seen ms rows ≡ some rows'
    → Distinct same_member rows
    → Distinct same_member rows'
unfolding add_members
add_members-Distinct w id seen [] rows {rows'} e h = ground arith
add_members-Distinct w id seen (m ∷ ms) rows {rows'} e h = ground (
  arith,
  add_members-Distinct w id seen ms rows {rows' = rows'},
  add_members-Distinct w id (m ∷ seen) ms (add_member id m rows) {rows' = rows'},
  add_member-Distinct id m rows,
)

create_both-IsWellFormed :
    (convos : List Conversation) (rows : List ConversationMember) (db : Db)
    → IsWellFormed db
    → Distinct same_convo convos
    → Distinct same_member rows
    → IsWellFormed (record db { conversations = convos; conversation_members = rows })
create_both-IsWellFormed convos rows db h c r = assumption

insert_convo-Distinct :
    (c : Conversation) (rows : List Conversation)
    → any_row (λ d. d.id == c.id) rows ≡ false
    → Distinct same_convo rows
    → Distinct same_convo (insert_row c rows)
insert_convo-Distinct c rows free h =
    Distinct-insert same_convo c rows (λ a b. ground (arith, eq_iff a.id b.id, eq_iff b.id a.id))
      free h

pub create_conversation-IsWellFormed :
    (w : World) (id name creator : String) (members : List String) (db : Db)
    → IsWellFormed db
    → IsWellFormed (create_conversation w id name creator members db).1
create_conversation-IsWellFormed w id name creator members db h =
    go (create_conversation w id name creator members db) refl
  where
    go :
        (r : Result (Unit {0}) × Db)
        → create_conversation w id name creator members db ≡ r
        → IsWellFormed r.1
    go (ok _, db') e =
        let (rows, made, free, same) = create_conversation_inv w id name creator members db e in
        rw same (
          create_both-IsWellFormed _ rows db h
            (insert_convo-Distinct (record { id = id; name = name; created_by = creator })
              db.conversations free h.conversations)
            (add_members-Distinct w id [] (creator ∷ members) db.conversation_members made
              h.members))
    go (err x, db') e =
        ground (arith, create_conversation_unchanged w id name creator members db {e = x})

pub leave_conversation-IsWellFormed :
    (w : World) (id u : String) (db : Db)
    → IsWellFormed db
    → IsWellFormed (leave_conversation w id u db)
unfolding leave_conversation
leave_conversation-IsWellFormed w id u db h = ground (
  arith,
  with_members h (Distinct-delete same_member (member_row id u) db.conversation_members h.members),
)
