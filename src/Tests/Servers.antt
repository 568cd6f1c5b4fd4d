-- ===== src/Tests/Servers.antt =====
-- The theorems on connections, servers, moderation and limits at concrete inputs.
use skype7_reborn.Prelude.{
  ℕ, suc, ◌+◌, ◌-◌, ◌≤◌, ◌<◌, String, true, not, ◌≡◌, refl, ◌⊎◌, inl, [], ◌∷◌, some, ok, err, ◌==◌,
  nat_eq, length, arith, text-apart, if◌then◌else◌,
}
use skype7_reborn.Prelude.Table.{query_row, any_row}
use skype7_reborn.Prelude.Table.Rows.{Every}
use skype7_reborn.Prelude.Dict.{lookup}
use skype7_reborn.World.{World, current_timestamp}
use skype7_reborn.Prelude.Text.{trim_space}
use skype7_reborn.Wire.{NexusMessage, MsgType, blank}
use skype7_reborn.Db.{Db, Space, Channel, ServerMember, empty_db}
use skype7_reborn.Db.Keys.{IsWellFormed, empty_db-IsWellFormed}
use skype7_reborn.Server.{Server, new_server, close}
use skype7_reborn.Spaces.{channel_history, membership, user_server_role}
use skype7_reborn.Spaces.History.{channel_history-Every, in_page}
use skype7_reborn.Handlers.Login.{install, disconnect, complete_auth, resume}
use skype7_reborn.Handlers.Space.{handle_server_leave, create_space}
use skype7_reborn.Handlers.Channels.{handle_channel_msg, channel_msg_in, channel_row}
use skype7_reborn.Handlers.Channels.Privacy.{handle_channel_msg-members, Logged}
use skype7_reborn.Handlers.Space.Owner.{
  handle_server_leave-keeps_owner, user_server_role-create_space,
}
use skype7_reborn.Handlers.Replacement.{lookup-login, disconnect-install}
use skype7_reborn.Loop.{here, next, message, receive}
use skype7_reborn.Integrity.Steps.{Reach-IsWellFormed}
use skype7_reborn.Admin.{Request, admin_ban_handler, admin_resolve_report_handler}
use skype7_reborn.Admin.Access.{Authorized, admin_handlers-Authorized}
use skype7_reborn.Limiter.{Bucket, IpLimiter, Entry, allow, max_size}
use skype7_reborn.Limiter.Bounds.{length-allow, lookup-allow}
use skype7_reborn.Tests.Data.{morning, noon, three_users, two_online, session_text}

abbrev register_dave : NexusMessage
register_dave = record (blank MsgType.register) {
  sender = "dave";
  email = "dave@example.org";
  body = "correct horse";
}

Reach-IsWellFormed_example : IsWellFormed (receive morning 1 register_dave (new_server empty_db)).db
unfolding new_server empty_db
Reach-IsWellFormed_example =
    Reach-IsWellFormed {s = new_server empty_db} empty_db-IsWellFormed
      (next here (message morning 1 register_dave refl))

disconnect-install_example :
    disconnect noon 1 (install 3 "alice" (two_online three_users))
    ≡ close 1 (install 3 "alice" (two_online three_users))
disconnect-install_example =
    disconnect-install noon 1 3 "alice" (two_online three_users) refl (text-apart "alice" "" refl)
      (omega arith)

abbrev login : NexusMessage
login = record (blank MsgType.auth) { sender = "alice"; body = "correct horse" }

lookup-login_example :
    (lookup "alice" (complete_auth noon 3 login (two_online three_users)).clients
      ≡ (if "alice" == "alice" then some 3 else lookup "alice" (two_online three_users).clients))
    × (lookup "alice" (resume noon 3 "alice" session_text (two_online three_users)).clients
        ≡ (if "alice" == "alice" then some 3 else lookup "alice" (two_online three_users).clients))
lookup-login_example =
    lookup-login noon 3 login "alice" "alice" session_text (two_online three_users)

abbrev ban_bob : Request
ban_bob = record {
  method = "POST";
  path = "/api/v1/admin/users/bob/ban";
  authorization = "Bearer x1";
  content_length = 0;
  reason = "";
}

admin_handlers-Authorized_example :
    Authorized morning ban_bob
      (two_online three_users)
      (admin_ban_handler morning ban_bob (two_online three_users))
    × Authorized morning ban_bob
        (two_online three_users)
        (admin_resolve_report_handler morning ban_bob (two_online three_users))
admin_handlers-Authorized_example =
    admin_handlers-Authorized morning ban_bob (two_online three_users)

abbrev club : Space
club = record {
  id = "s1";
  name = "Club";
  description = "";
  icon = "";
  owner = "alice";
  visibility = "private";
  invite_code = "i1";
}

abbrev owner_of_club : ServerMember
owner_of_club = record { server_id = "s1"; username = "alice"; role = "owner"; joined_at = 1 }

abbrev in_club : Db
in_club = record three_users {
  servers = club ∷ [];
  channels =
      record {
        id = "h1";
        server_id = "s1";
        name = "general";
        topic = "";
        kind = "text";
        position = 0;
      }
      ∷ [];
  server_members =
      owner_of_club
      ∷ record { server_id = "s1"; username = "bob"; role = "member"; joined_at = 2 }
      ∷ [];
  channel_messages =
      record { id = 1; channel_id = "h1"; sender = "bob"; body = "hi"; created_at = 3 } ∷ [];
  messages_last = 1;
}

abbrev created : Db
created = elim (create_space morning club three_users) [ ok db ↦ db | err e ↦ three_users ]

user_server_role-create_space_example : user_server_role noon "s1" "alice" created ≡ "owner"
unfolding create_space skype7_reborn.Sql.insert_unique empty_db
    skype7_reborn.Handlers.Space.bootstrap_channels skype7_reborn.World.rand_hex
    skype7_reborn.Prelude.Text.hex_encode
user_server_role-create_space_example =
    user_server_role-create_space morning noon club three_users {db' = created} refl refl

abbrev leave : NexusMessage
leave = record (blank MsgType.server_leave) { server_id = "s1" }

handle_server_leave-keeps_owner_example :
    query_row
      (membership "s1" "alice")
      (handle_server_leave noon 1 leave (two_online in_club)).db.server_members
    ≡ some owner_of_club
unfolding query_row new_server membership
handle_server_leave-keeps_owner_example =
    handle_server_leave-keeps_owner noon 1 leave (two_online in_club) "s1" "alice" owner_of_club
      refl refl refl

abbrev asked : ℕ
asked = 50

channel_history-Every_example :
    Every
      (in_page "h1" 9)
      (record { id = 1; channel_id = "h1"; sender = "bob"; body = "hi"; created_at = 3 } ∷ [])
    × (((1 ≤ asked) × (asked ≤ 200)) ⊎ ((1 ≤ 50) × ((asked ≡ 0) ⊎ (200 < asked))))
unfolding channel_history skype7_reborn.Prelude.Table.limit skype7_reborn.Prelude.Table.order_by
    skype7_reborn.Prelude.Table.select skype7_reborn.Spaces.in_history
    skype7_reborn.Spaces.channel_msg_of
channel_history-Every_example = channel_history-Every noon "h1" 9 asked in_club refl

abbrev post : NexusMessage
post = record (blank MsgType.channel_msg) { channel_id = "h1"; body = "hello" }

abbrev posted : NexusMessage
posted = channel_msg_in morning "s1" (channel_row morning post "alice" in_club)

abbrev bobs : ℕ
bobs = 2

handle_channel_msg-members_example :
    (Logged 2 posted [] ⊎ (bobs ≡ 1))
    ⊎ ((ch : Channel) × (query_row (λ k. k.id == "h1") in_club.channels ≡ some ch)
        × (any_row (membership ch.server_id "alice") in_club.server_members ≡ true)
        × (posted ≡ record (blank MsgType.channel_msg_in) {
          server_id = ch.server_id;
          channel_id = post.channel_id;
          sender = "alice";
          body = trim_space post.body;
          messages =
              record {
                id = suc in_club.messages_last;
                channel_id = post.channel_id;
                sender = "alice";
                body = trim_space post.body;
                created_at = current_timestamp morning;
              }
              ∷ [];
        })
        × (v : String) × (any_row (membership ch.server_id v) in_club.server_members ≡ true)
        × (lookup v (two_online in_club).clients ≡ some 2))
unfolding handle_channel_msg skype7_reborn.Handlers.Channels.channel_server skype7_reborn.Sql.fetch
    new_server skype7_reborn.Spaces.user_is_server_member any_row membership
    skype7_reborn.Handlers.Channels.bad_body skype7_reborn.Prelude.Text.trim_space
    skype7_reborn.Handlers.Channels.post_message skype7_reborn.Spaces.broadcast_channel_msg
    skype7_reborn.Server.send_to_all skype7_reborn.Spaces.server_members_of
    skype7_reborn.Prelude.Table.select skype7_reborn.Server.set_db skype7_reborn.Server.send_to_user
    lookup channel_msg_in channel_row skype7_reborn.Prelude.Table.insert_row query_row
    skype7_reborn.Prelude.Text.trim_left skype7_reborn.Prelude.Text.trim_right
    skype7_reborn.Server.send blank skype7_reborn.Wire.with_error
    skype7_reborn.World.current_timestamp empty_db
handle_channel_msg-members_example =
    handle_channel_msg-members morning 1 post (two_online in_club) 2 posted (inl (refl, refl))

-- Five tokens that are never filled up.
abbrev five : Bucket
five = record { State = ℕ; fresh = 5; take = λ now n. (not (nat_eq n 0), n - 1) }

abbrev home : Entry five
home = record { lim = 3; last = 1000 }

abbrev limits : IpLimiter five
limits = record { entries = ("192.0.2.1", home) ∷ []; last_gc = 0 }

length-allow_example : length (allow five 2000 "192.0.2.7" limits).1.entries ≤ max_size + 1
length-allow_example = length-allow five 2000 "192.0.2.7" limits

lookup-allow_example : lookup "192.0.2.1" (allow five 2000 "192.0.2.7" limits).1.entries ≡ some home
unfolding lookup
lookup-allow_example =
    lookup-allow five 2000 "192.0.2.7" "192.0.2.1" limits home
      (text-apart "192.0.2.7" "192.0.2.1" refl) refl (omega arith) (omega arith)
