-- ===== src/Integrity/Spaces.antt =====
-- The constraints of the tables under the handlers of servers and channels.
use skype7_reborn.Prelude.{
  ℕ, suc, String, Bool, false, ◌≡◌, refl, List, [], ◌∷◌, ◌==◌, eq_iff, arith, ok,
}
use skype7_reborn.Prelude.Table.{any_row, insert_row, delete_where}
use skype7_reborn.Prelude.Table.Keys.{Distinct, Distinct-insert, Distinct-delete}
use skype7_reborn.World.{World}
use skype7_reborn.Db.{Db, Space, Channel, ServerMember, ChannelMessage}
use skype7_reborn.Db.Keys.{
  IsWellFormed, same_server, same_invite, same_channel, same_server_member, with_channels,
  with_server_members,
}
use skype7_reborn.Sql.{insert_unique}
use skype7_reborn.Spaces.{membership}
use skype7_reborn.Handlers.Space.{
  same_space, owner_row, bootstrap_channels, create_space, join_space,
}
use skype7_reborn.Integrity.Social.{Every-next, Distinct-next}

insert_channel-Distinct :
    (c : Channel) (rows : List Channel)
    → any_row (λ d. d.id == c.id) rows ≡ false
    → Distinct same_channel rows
    → Distinct same_channel (insert_row c rows)
insert_channel-Distinct c rows free h =
    Distinct-insert same_channel c rows (λ a b. ground (arith, eq_iff a.id b.id, eq_iff b.id a.id))
      free h

pub insert_channel-IsWellFormed :
    (c : Channel) (db : Db)
    → IsWellFormed db
    → any_row (λ d. d.id == c.id) db.channels ≡ false
    → IsWellFormed (record db { channels = insert_row c db.channels })
insert_channel-IsWellFormed c db h free =
    with_channels h (insert_channel-Distinct c db.channels free h.channels)

insert_member-Distinct :
    (m : ServerMember) (rows : List ServerMember)
    → any_row (membership m.server_id m.username) rows ≡ false
    → Distinct same_server_member rows
    → Distinct same_server_member (insert_row m rows)
unfolding membership
insert_member-Distinct m rows free h =
    Distinct-insert same_server_member m rows
      (λ a b. ground (
        arith,
        eq_iff a.server_id b.server_id,
        eq_iff b.server_id a.server_id,
        eq_iff a.username b.username,
        eq_iff b.username a.username,
      ))
      free h

pub insert_member-IsWellFormed :
    (m : ServerMember) (db : Db)
    → IsWellFormed db
    → any_row (membership m.server_id m.username) db.server_members ≡ false
    → IsWellFormed (record db { server_members = insert_row m db.server_members })
insert_member-IsWellFormed m db h free =
    with_server_members h (insert_member-Distinct m db.server_members free h.server_members)

pub delete_members-IsWellFormed :
    (p : ServerMember → Bool) (db : Db)
    → IsWellFormed db
    → IsWellFormed (record db { server_members = delete_where p db.server_members })
delete_members-IsWellFormed p db h =
    with_server_members h (Distinct-delete same_server_member p db.server_members h.server_members)

pub insert_message-IsWellFormed :
    (m : ChannelMessage) (db : Db)
    → IsWellFormed db
    → m.id ≡ suc db.messages_last
    → IsWellFormed (record db {
      channel_messages = insert_row m db.channel_messages;
      messages_last = suc db.messages_last;
    })
insert_message-IsWellFormed m db h e =
    let ids =
      Every-next (λ (x : ChannelMessage). x.id) db.messages_last m db.channel_messages e
        h.message_ids in
    let keys =
      Distinct-next (λ (x : ChannelMessage). x.id) db.messages_last m db.channel_messages e
        h.message_ids h.message_keys in
    assumption

bootstrap_channels-Distinct :
    (w : World) (server : String) (i : ℕ) (names : List String) (rows : List Channel)
    {rows' : List Channel}
    → bootstrap_channels w server i names rows ≡ ok rows'
    → Distinct same_channel rows
    → Distinct same_channel rows'
unfolding bootstrap_channels insert_unique
bootstrap_channels-Distinct w server i [] rows {rows'} e h = ground arith
bootstrap_channels-Distinct w server i (name ∷ names) rows {rows'} e h =
    grind (arith, insert_channel-Distinct, bootstrap_channels-Distinct w server (suc i) names)

-- The rows that a successful transaction of server_create leaves.
pub create_space_inv :
    (w : World) (sp : Space) (db : Db) {db' : Db}
    → create_space w sp db ≡ ok db'
    → (channels : List Channel) × (any_row (same_space sp) db.servers ≡ false)
      × (any_row (membership sp.id sp.owner) db.server_members ≡ false)
      × (bootstrap_channels w sp.id 0 ("general" ∷ "random" ∷ []) db.channels ≡ ok channels)
      × (db' ≡ record db {
        servers = insert_row sp db.servers;
        server_members = insert_row (owner_row w sp) db.server_members;
        channels = channels;
      })
unfolding create_space insert_unique
create_space_inv w sp db {db'} h = ground arith

any_row-same_space :
    (sp : Space) (rows : List Space)
    → any_row (same_space sp) rows ≡ false
    → (any_row (same_server sp) rows ≡ false) × (any_row (same_invite sp) rows ≡ false)
unfolding any_row same_space
any_row-same_space sp [] h = (refl, refl)
any_row-same_space sp (r ∷ rows) h = ground (arith, any_row-same_space sp rows)

space_rows-IsWellFormed :
    (servers : List Space) (members : List ServerMember) (channels : List Channel) (db : Db)
    → IsWellFormed db
    → Distinct same_server servers
    → Distinct same_invite servers
    → Distinct same_server_member members
    → Distinct same_channel channels
    → IsWellFormed (record db { servers = servers; server_members = members; channels = channels })
space_rows-IsWellFormed servers members channels db h a b c d = assumption

pub create_space-IsWellFormed :
    (w : World) (sp : Space) (db : Db) {db' : Db}
    → create_space w sp db ≡ ok db'
    → IsWellFormed db
    → IsWellFormed db'
unfolding owner_row
create_space-IsWellFormed w sp db {db'} e h =
    let (channels, free, alone, made, same) = create_space_inv w sp db e in
    let (ids, invites) = any_row-same_space sp db.servers free in
    rw same (
      space_rows-IsWellFormed _ _ channels db h
        (Distinct-insert same_server sp db.servers
          (λ a b. ground (arith, eq_iff a.id b.id, eq_iff b.id a.id)) ids h.servers)
        (Distinct-insert same_invite sp db.servers
          (λ a b.
            ground (arith, eq_iff a.invite_code b.invite_code, eq_iff b.invite_code a.invite_code))
          invites h.invites)
        (insert_member-Distinct (owner_row w sp) db.server_members alone h.server_members)
        (bootstrap_channels-Distinct w sp.id 0 _ db.channels made h.channels))

pub join_space-IsWellFormed :
    (w : World) (server u : String) (db : Db) {db' : Db}
    → join_space w server u db ≡ ok db'
    → IsWellFormed db
    → IsWellFormed db'
unfolding join_space
join_space-IsWellFormed w server u db {db'} e h = grind (arith, insert_member-IsWellFormed)
