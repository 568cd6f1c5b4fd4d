-- ===== src/Handlers/Space/Owner.antt =====
-- Proofs on the role of the owner in server_create and server_leave.
use skype7_reborn.Prelude.{
  ℕ, String, true, false, ◌≡◌, ◌≢◌, refl, ◌⊎◌, inl, inr, some, eq_iff, eq_refl, arith, Bool-cases,
  ok, ◌∙◌,
}
use skype7_reborn.Prelude.Table.{any_row, query_row, delete_where, insert_row}
use skype7_reborn.Prelude.Table.Rows.{query_row-delete, query_row-insert, query_row-none}
use skype7_reborn.World.{World, Site}
use skype7_reborn.Wire.{NexusMessage}
use skype7_reborn.Db.{Db, Space, ServerMember}
use skype7_reborn.Sql.{insert_unique, fetch-eq_ok}
use skype7_reborn.Server.{Server, user_of}
use skype7_reborn.Server.Effects.{db_effects}
use skype7_reborn.Spaces.{membership, user_server_role}
use skype7_reborn.Handlers.Space.{handle_server_leave, create_space, owner_row}

membership-owner_row : (w : World) (sp : Space) → membership sp.id sp.owner (owner_row w sp) ≡ true
unfolding membership owner_row
membership-owner_row w sp = ground (arith, eq_refl sp.id, eq_refl sp.owner)

create_space_inv :
    (w : World) (sp : Space) (db : Db) {db' : Db}
    → create_space w sp db ≡ ok db'
    → (any_row (membership sp.id sp.owner) db.server_members ≡ false)
      × (db'.server_members ≡ insert_row (owner_row w sp) db.server_members)
unfolding create_space insert_unique
create_space_inv w sp db {db'} h = ground arith

-- Once a server was created its creator is in it, with the role of the owner.
pub user_server_role-create_space :
    (w w' : World) (sp : Space) (db : Db) {db' : Db}
    → create_space w sp db ≡ ok db'
    → w'.fails Site.role_select ≡ false
    → user_server_role w' sp.id sp.owner db' ≡ "owner"
unfolding user_server_role owner_row
user_server_role-create_space w w' sp db {db'} h live =
    let (free, rows) = create_space_inv w sp db h in
    let row : query_row (membership sp.id sp.owner) db'.server_members ≡ some (owner_row w sp) =
      rw (rows, query_row-insert)
        (rw (query_row-none (membership sp.id sp.owner) db.server_members free)
          (rw (membership-owner_row w sp))) in
    rw
      (
        fetch-eq_ok w' Site.role_select (membership sp.id sp.owner) db'.server_members live row,
        user_server_role,
      )
      refl

membership-apart :
    (server v u : String) (server' : String) (x : ServerMember)
    → membership server v x ≡ true
    → membership server' u x ≡ true
    → (server' ≡ server) × (u ≡ v)
unfolding membership
membership-apart server v u server' x h k = ground (
  arith,
  eq_iff x.server_id server,
  eq_iff x.server_id server',
  eq_iff x.username u,
  eq_iff x.username v,
)

leave_cases :
    (w : World) (c : ℕ) (m : NexusMessage) (s : Server)
    → ((handle_server_leave w c m s).db.server_members ≡ s.db.server_members)
      ⊎ ((user_server_role w m.server_id (user_of s c) s.db ≢ "owner")
          × ((handle_server_leave w c m s).db.server_members
              ≡ delete_where (membership m.server_id (user_of s c)) s.db.server_members))
unfolding handle_server_leave
leave_cases w c m s = grind (arith, db_effects, eq_iff)

role-owner :
    (w : World) (server v : String) (db : Db) (r : ServerMember)
    → query_row (membership server v) db.server_members ≡ some r
    → r.role ≡ "owner"
    → w.fails Site.role_select ≡ false
    → user_server_role w server v db ≡ "owner"
unfolding user_server_role
role-owner w server v db r found role live =
    rw
      (
        fetch-eq_ok w Site.role_select (membership server v) db.server_members live found,
        user_server_role,
      )
      role

-- A server's owner stays its owner whoever leaves whatever server, the owner included, as long as the
-- query of the role does not fail.
pub handle_server_leave-keeps_owner :
    (w : World) (c : ℕ) (m : NexusMessage) (s : Server) (server v : String) (r : ServerMember)
    → query_row (membership server v) s.db.server_members ≡ some r
    → r.role ≡ "owner"
    → w.fails Site.role_select ≡ false
    → query_row (membership server v) (handle_server_leave w c m s).db.server_members ≡ some r
handle_server_leave-keeps_owner w c m s server v r found role live = elim (leave_cases w c m s) [
  | inl same ↦ rw same found
  | inr (guest, rows) ↦ rw rows (
      query_row-delete (membership server v) (membership m.server_id (user_of s c))
        s.db.server_members (spare guest)
      ∙ found)
]
  where
    spare :
        user_server_role w m.server_id (user_of s c) s.db ≢ "owner"
        → (x : ServerMember) → membership server v x ≡ true
        → membership m.server_id (user_of s c) x ≡ false
    spare guest x h = elim (Bool-cases (membership m.server_id (user_of s c) x)) [
      | inl k ↦
          let (same, same') = membership-apart server v (user_of s c) m.server_id x h k in
          absurd (guest (rw (same, same') (role-owner w server v s.db r found role live)))
      | inr k ↦ k
    ]
