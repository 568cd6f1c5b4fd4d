-- ===== src/Social/Founding.antt =====
-- Proofs on createConversation.
use skype7_reborn.Prelude.{
  String, true, false, ◌≡◌, ◌⊎◌, inl, inr, none, some, List, [], ◌∷◌, ◌==◌, ◌||◌, eq_iff, eq_refl,
  arith, ok, err, is_ok, failed_result, refl,
}
use skype7_reborn.Prelude.Table.{any_row, insert_row}
use skype7_reborn.Prelude.Table.Rows.{any_row-insert}
use skype7_reborn.World.{World, Site}
use skype7_reborn.Db.{Db, ConversationMember}
use skype7_reborn.Sql.{insert_unique}
use skype7_reborn.Social.Convos.{create_conversation, add_member, add_members, member_row, mem_text}

pub create_conversation_inv :
    (w : World) (id name creator : String) (members : List String) (db : Db) {db' : Db}
    → create_conversation w id name creator members db ≡ (ok tt, db')
    → (rows : List ConversationMember) × (add_members w id []
          (creator ∷ members)
          db.conversation_members
        ≡ some rows)
      × (any_row (λ c. c.id == id) db.conversations ≡ false)
      × (db' ≡ record db {
        conversations =
            insert_row (record { id = id; name = name; created_by = creator }) db.conversations;
        conversation_members = rows;
      })
unfolding create_conversation insert_unique
create_conversation_inv w id name creator members db {db'} h = ground arith

add_members-fails :
    (w : World) (id v : String) (seen ms : List String) (rows : List ConversationMember)
    → mem_text v ms ≡ true
    → mem_text v seen ≡ false
    → w.fails (Site.convo_member v) ≡ true
    → add_members w id seen ms rows ≡ none
unfolding add_members mem_text
add_members-fails w id v seen [] rows there new f = ground arith
add_members-fails w id v seen (m ∷ ms) rows there new f = ground (
  arith,
  add_members-fails w id v seen ms rows,
  add_members-fails w id v (m ∷ seen) ms (add_member id m rows),
  eq_iff m v,
)

-- An error comes without a change.
pub create_conversation_unchanged :
    (w : World) (id name creator : String) (members : List String) (db : Db) {e : String}
    → (create_conversation w id name creator members db).0 ≡ err e
    → (create_conversation w id name creator members db).1 ≡ db
unfolding create_conversation
create_conversation_unchanged w id name creator members db {e} h = ground arith

create_conversation_fails :
    (w : World) (id name creator : String) (members : List String) (db : Db)
    → (w.fails Site.convo_begin ≡ true)
      ⊎ ((w.fails Site.convo_insert ≡ true)
          ⊎ ((w.fails Site.convo_commit ≡ true)
              ⊎ ((v : String) × (mem_text v (creator ∷ members) ≡ true)
                  × (w.fails (Site.convo_member v) ≡ true))))
    → is_ok (create_conversation w id name creator members db).0 ≡ false
unfolding create_conversation insert_unique
create_conversation_fails w id name creator members db (inl h) = ground (arith, h)
create_conversation_fails w id name creator members db (inr (inl h)) = ground (arith, h)
create_conversation_fails w id name creator members db (inr (inr (inl h))) = ground (arith, h)
create_conversation_fails w id name creator members db (inr (inr (inr (v, there, f)))) = ground (
  arith,
  add_members-fails w id v [] (creator ∷ members) db.conversation_members there
      (unfold mem_text in refl) f,
)

-- When the transaction cannot be begun, the conversation's row cannot be inserted, the insertion of any
-- member fails, the creator's included, or the commit fails, the creation returns an error and the
-- database stays as it was.
pub create_conversation_atomic :
    (w : World) (id name creator : String) (members : List String) (db : Db)
    → (w.fails Site.convo_begin ≡ true)
      ⊎ ((w.fails Site.convo_insert ≡ true)
          ⊎ ((w.fails Site.convo_commit ≡ true)
              ⊎ ((v : String) × (mem_text v (creator ∷ members) ≡ true)
                  × (w.fails (Site.convo_member v) ≡ true))))
    → (e : String) × (create_conversation w id name creator members db ≡ (err e, db))
create_conversation_atomic w id name creator members db h =
    failed_result (create_conversation w id name creator members db) db
      (create_conversation_fails w id name creator members db h)
      (λ e. create_conversation_unchanged w id name creator members db {e = e})

any_row-add_member :
    (id v u : String) (rows : List ConversationMember)
    → any_row (member_row id v) (add_member id u rows) ≡ (any_row (member_row id v) rows || u == v)
unfolding add_member member_row
any_row-add_member id v u rows = ground (
  arith,
  any_row-insert (member_row id v) (record { convo_id = id; username = u }) rows,
  eq_refl id,
  eq_iff u v,
)

any_row-add_members :
    (w : World) (id v : String) (seen ms : List String) (rows : List ConversationMember)
    {rows' : List ConversationMember}
    → (mem_text v seen ≡ true → any_row (member_row id v) rows ≡ true)
    → add_members w id seen ms rows ≡ some rows'
    → any_row (member_row id v) rows' ≡ (any_row (member_row id v) rows || mem_text v ms)
unfolding add_members mem_text
any_row-add_members w id v seen [] rows {rows'} k h = ground arith
any_row-add_members w id v seen (m ∷ ms) rows {rows'} k h = ground (
  arith,
  any_row-add_members w id v seen ms rows {rows' = rows'} k,
  any_row-add_members w id v (m ∷ seen) ms (add_member id m rows) {rows' = rows'},
  any_row-add_member id v m rows,
  eq_iff m v,
  k,
)

-- A conversation that was created has its creator and the members given, and beyond them only who was
-- a member under its id before.
pub conversation_members-create_conversation :
    (w : World) (id name creator : String) (members : List String) (v : String) (db : Db) {db' : Db}
    → create_conversation w id name creator members db ≡ (ok tt, db')
    → any_row (member_row id v) db'.conversation_members
      ≡ (any_row (member_row id v) db.conversation_members || mem_text v (creator ∷ members))
conversation_members-create_conversation w id name creator members v db {db'} h =
    let (rows, added, free, after) = create_conversation_inv w id name creator members db h in
    rw after (
      any_row-add_members w id v [] (creator ∷ members) db.conversation_members
        (λ k. unfold mem_text in absurd (ground (arith, k))) added)
