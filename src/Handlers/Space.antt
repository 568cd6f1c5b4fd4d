-- ===== src/Handlers/Space.antt =====
-- The cases server_create, server_list, server_join, server_leave and server_info.
pub mod Owner
use skype7_reborn.Prelude.{
  ℕ, suc, String, Bool, not, ◌||◌, List, [], ◌∷◌, Option, none, some, ◌==◌, if◌then◌else◌, Result,
  ok, err,
}
use skype7_reborn.Prelude.Table.{any_row, delete_where, insert_row}
use skype7_reborn.Prelude.Text.{append, to_lower, trim_space}
use skype7_reborn.World.{World, Site, Draw, rand_hex, current_timestamp}
use skype7_reborn.Wire.{NexusMessage, MsgType, with_status, with_error}
use skype7_reborn.Db.{Db, Space, Channel, ServerMember}
use skype7_reborn.Sql.{fetch, insert_unique}
use skype7_reborn.Server.{Server, send, set_db, user_of}
use skype7_reborn.Spaces.{
  valid_server_name, membership, user_is_server_member, user_server_role, list_user_servers,
  list_server_channels, server_members_of,
}

abbrev pub server_name_rule : String
server_name_rule = "Server name: 2-64 chars, letters/digits/space/-_.'"

unfoldable pub visibility_of : String → String
visibility_of v =
    let t = to_lower (trim_space v) in if t == "public" || t == "private" then t else "private"

-- The same id, or the same invite code, which is UNIQUE.
unfoldable pub same_space : Space → Space → Bool
same_space a b = b.id == a.id || b.invite_code == a.invite_code

-- The loop over "general" and "random"; an error text when a draw or an INSERT fails.
unfoldable pub bootstrap_channels :
    World → String → ℕ → List String → List Channel → Result (List Channel)
bootstrap_channels w server i [] rows = ok rows
bootstrap_channels w server i (name ∷ names) rows = elim (rand_hex w (Draw.bootstrap_draw i) 12) [
  | none ↦ err "rand failure"
  | some cid ↦
      elim (insert_unique w (Site.bootstrap_insert i) (λ ch. ch.id == cid)
        (record {
          id = cid;
          server_id = server;
          name = name;
          topic = "";
          kind = "text";
          position = i;
        })
        rows) [
          | err e ↦ err (append "channel: " e)
          | ok rows' ↦ bootstrap_channels w server (suc i) names rows'
        ]
]

unfoldable pub owner_row : World → Space → ServerMember
owner_row w sp = record {
  server_id = sp.id;
  username = sp.owner;
  role = "owner";
  joined_at = current_timestamp w;
}

-- The transaction of server_create, which rolls back on an error.
unfoldable pub create_space : World → Space → Db → Result Db
create_space w sp db = elim (insert_unique w Site.space_insert (same_space sp) sp db.servers) [
  | err e ↦ err (append "create server: " e)
  | ok servers ↦
      elim (insert_unique w Site.owner_insert (membership sp.id sp.owner) (owner_row w sp)
        db.server_members) [
          | err e ↦ err (append "add owner: " e)
          | ok members ↦
              elim (bootstrap_channels w sp.id 0 ("general" ∷ "random" ∷ []) db.channels) [
                | err e ↦ err e
                | ok channels ↦
                    if w.fails Site.space_commit
                    then err (append "commit: " (w.error_text Site.space_commit))
                    else ok (record db {
                      servers = servers;
                      server_members = members;
                      channels = channels;
                    })
              ]
        ]
]

unfoldable pub created_reply : World → Space → Db → NexusMessage
created_reply w sp db = record (with_status MsgType.server_result "ok") {
  server_id = sp.id;
  server_name = sp.name;
  invite_code = sp.invite_code;
  role = "owner";
  visibility = sp.visibility;
  channels = list_server_channels w sp.id db;
}

-- The two random draws of server_create.
unfoldable pub draw_space : World → NexusMessage → String → Option Space
draw_space w m owner = elim (rand_hex w Draw.space_draw 16) [
  | none ↦ none
  | some id ↦ elim (rand_hex w Draw.invite_draw 8) [
    | none ↦ none
    | some invite ↦ some (record {
      id = id;
      name = trim_space m.server_name;
      description = trim_space m.topic;
      icon = "";
      owner = owner;
      visibility = visibility_of m.visibility;
      invite_code = invite;
    })
  ]
]

unfoldable pub handle_server_create : World → ℕ → NexusMessage → Server → Server
handle_server_create w c m s =
    let u = user_of s c in
    if u == ""
    then s
    else if not (valid_server_name w (trim_space m.server_name))
    then send c (with_error MsgType.server_result server_name_rule) s
    else elim (draw_space w m u) [
      | none ↦ send c (with_error MsgType.server_result "rand failure") s
      | some sp ↦
          if w.fails Site.space_begin
          then send c (with_error MsgType.server_result "db error") s
          else elim (create_space w sp s.db) [
            | err e ↦ send c (with_error MsgType.server_result e) s
            | ok db ↦ send c (created_reply w sp db) (set_db db s)
          ]
    ]

unfoldable pub handle_server_list : World → ℕ → NexusMessage → Server → Server
handle_server_list w c m s =
    if user_of s c == "" then s else elim (list_user_servers w (user_of s c) s.db) [
      | none ↦
          send c
            (with_error MsgType.server_list_result
              (append "db: " (w.error_text Site.servers_select)))
            s
      | some servers ↦
          send c (record (with_status MsgType.server_list_result "ok") { servers = servers }) s
    ]

-- INSERT OR IGNORE with the role 'member'
unfoldable pub join_space : World → String → String → Db → Result Db
join_space w server u db =
    if w.fails Site.join_insert
    then err (append "db: " (w.error_text Site.join_insert))
    else if any_row (membership server u) db.server_members
    then ok db
    else ok (record db {
      server_members =
          insert_row
            (record {
              server_id = server;
              username = u;
              role = "member";
              joined_at = current_timestamp w;
            })
            db.server_members;
    })

-- What follows the server that an invite code names.
unfoldable pub join_found : World → ℕ → Space → String → Server → Server
join_found w c sp u s = elim (join_space w sp.id u s.db) [
  | err e ↦ send c (with_error MsgType.server_join_result e) s
  | ok db ↦
      send c
        (record (with_status MsgType.server_join_result "ok") {
          server_id = sp.id;
          server_name = sp.name;
          channels = list_server_channels w sp.id db;
        })
        (set_db db s)
]

unfoldable pub handle_server_join : World → ℕ → NexusMessage → Server → Server
handle_server_join w c m s =
    let u = user_of s c in
    let code = trim_space m.invite_code in
    if u == ""
    then s
    else if code == ""
    then send c (with_error MsgType.server_join_result "invite_code required") s
    else elim (fetch w Site.invite_select (λ sp. sp.invite_code == code) s.db.servers) [
      | err e ↦ send c (with_error MsgType.server_join_result "invite invalid") s
      | ok sp ↦ join_found w c sp u s
    ]

abbrev pub owners_stay : String
owners_stay = "owners can't leave; delete the server or transfer ownership first"

unfoldable pub handle_server_leave : World → ℕ → NexusMessage → Server → Server
handle_server_leave w c m s =
    let u = user_of s c in
    if u == "" || m.server_id == ""
    then s
    else if user_server_role w m.server_id u s.db == "owner"
    then send c (with_error MsgType.server_leave_result owners_stay) s
    else if w.fails Site.space_leave
    then send c
        (with_error MsgType.server_leave_result (append "db: " (w.error_text Site.space_leave))) s
    else send c (record (with_status MsgType.server_leave_result "ok") { server_id = m.server_id })
        (set_db
          (record s.db {
            server_members = delete_where (membership m.server_id u) s.db.server_members;
          })
          s)

unfoldable pub handle_server_info : World → ℕ → NexusMessage → Server → Server
handle_server_info w c m s =
    let u = user_of s c in
    if u == "" || m.server_id == ""
    then s
    else if not (user_is_server_member w m.server_id u s.db)
    then send c (with_error MsgType.server_info_result "not a member") s
    else let members : List String =
        (if w.fails Site.members_select then [] else server_members_of m.server_id s.db) in
      send c
        (record (with_status MsgType.server_info_result "ok") {
          server_id = m.server_id;
          channels = list_server_channels w m.server_id s.db;
          members = members;
        })
        s
