-- ===== src/Handlers/Channels/Privacy.antt =====
-- Proofs on the connections to which the case channel_msg sends.
use skype7_reborn.Prelude.{
  ℕ, suc, String, true, false, ◌≡◌, refl, ◌⊎◌, inl, inr, some, ◌==◌, eq_refl, arith, List, [], ◌∷◌,
  map, Bool-cases, Result, ok, err, ◌||◌,
}
use skype7_reborn.Prelude.Dict.{lookup}
use skype7_reborn.Prelude.Text.{trim_space}
use skype7_reborn.Prelude.Table.{any_row, query_row, select}
use skype7_reborn.World.{World, Site, current_timestamp}
use skype7_reborn.Wire.{NexusMessage, MsgType, with_error, blank}
use skype7_reborn.Db.{Db, Channel, ServerMember}
use skype7_reborn.Sql.{fetch}
use skype7_reborn.Server.{Server, send, set_db, user_of, send_to_user, send_to_all}
use skype7_reborn.Server.Effects.{clients-send_to_user}
use skype7_reborn.Spaces.{
  membership, user_is_server_member, server_members_of, broadcast_channel_msg,
}
use skype7_reborn.Handlers.Channels.{
  handle_channel_msg, bad_body, post_message, channel_server, channel_row, channel_msg_in,
}

-- The frame is in the log.
abbrev pub Logged : ℕ → NexusMessage → List (ℕ × NexusMessage) → Type 0
Logged d x [] = ⊥
Logged d x ((e, y) ∷ out) = ((d ≡ e) × (x ≡ y)) ⊎ Logged d x out

-- A frame of the second log is of the first or goes, as `x`, to the connection of a member of the
-- server.
abbrev pub ToMember : Server → String → ℕ → NexusMessage → NexusMessage → Type 0
ToMember s server d x payload =
    (v : String) × (any_row (membership server v) s.db.server_members ≡ true)
    × (lookup v s.clients ≡ some d)
    × (x ≡ payload)

Logged-send_to_user :
    (u : String) (m : NexusMessage) (s : Server) (d : ℕ) (x : NexusMessage)
    → Logged d x (send_to_user u m s).out
    → Logged d x s.out ⊎ ((lookup u s.clients ≡ some d) × (x ≡ m))
unfolding send_to_user send
Logged-send_to_user u m s d x h = ground arith

Logged-send_to_all :
    (us : List String) (m : NexusMessage) (s : Server) (d : ℕ) (x : NexusMessage)
    → Logged d x (send_to_all us m s).out
    → Logged d x s.out
      ⊎ ((v : String) × (any_row (λ u. u == v) us ≡ true) × (lookup v s.clients ≡ some d) × (x ≡ m))
unfolding send_to_all any_row
Logged-send_to_all [] m s d x h = inl h
Logged-send_to_all (u ∷ us) m s d x h = elim (Logged-send_to_all us m (send_to_user u m s) d x h) [
  | inl k ↦ elim (Logged-send_to_user u m s d x k) [
    | inl old ↦ inl old
    | inr (found, same) ↦ inr (u, rw (eq_refl u) refl, found, same)
  ]
  | inr (v, there, found, same) ↦
      inr (v, ground (arith, there), rw (clients-send_to_user u m s) at found, same)
]

any_row-members :
    (server v : String) (rows : List ServerMember)
    → any_row (λ u. u == v) (map (λ m. m.username) (select (λ m. m.server_id == server) rows))
      ≡ true
    → any_row (membership server v) rows ≡ true
unfolding any_row select membership
any_row-members server v [] h = h
any_row-members server v (r ∷ rows) h = ground (arith, any_row-members server v rows)

Logged-broadcast :
    (w : World) (server : String) (payload : NexusMessage) (s : Server) (d : ℕ) (x : NexusMessage)
    → Logged d x (broadcast_channel_msg w server payload s).out
    → Logged d x s.out ⊎ ToMember s server d x payload
unfolding broadcast_channel_msg server_members_of
Logged-broadcast w server payload s d x h = elim (Bool-cases (w.fails Site.broadcast_select)) [
  | inl e ↦ inl (rw e at h)
  | inr e ↦ elim (Logged-send_to_all (server_members_of server s.db) payload s d x (rw e at h)) [
    | inl old ↦ inl old
    | inr (v, there, found, same) ↦
        inr (v, any_row-members server v s.db.server_members there, found, same)
  ]
]

channel_server_inv :
    (w : World) (channel u : String) (db : Db) {server : String}
    → channel_server w channel u db ≡ ok server
    → (ch : Channel) × (query_row (λ k. k.id == channel) db.channels ≡ some ch)
      × (ch.server_id ≡ server)
      × (any_row (membership server u) db.server_members ≡ true)
unfolding channel_server user_is_server_member fetch
channel_server_inv w channel u db {server} h = ground arith

Logged-send :
    (c : ℕ) (m : NexusMessage) (s : Server) (d : ℕ) (x : NexusMessage)
    → Logged d x (send c m s).out
    → Logged d x s.out ⊎ (d ≡ c)
unfolding send
Logged-send c m s d x h = ground arith

Logged-post_message :
    (w : World) (c : ℕ) (m : NexusMessage) (server u : String) (s : Server) (d : ℕ)
    (x : NexusMessage)
    → Logged d x (post_message w c m server u s).out
    → (Logged d x s.out ⊎ (d ≡ c))
      ⊎ ToMember s server d x (channel_msg_in w server (channel_row w m u s.db))
unfolding post_message set_db
Logged-post_message w c m server u s d x h = elim (Bool-cases (w.fails Site.message_insert)) [
  | inl e ↦ inl (Logged-send c _ s d x (rw e at h))
  | inr e ↦ elim (Logged-broadcast w server _ _ d x (rw e at h)) [
    | inl old ↦ inl (inl old)
    | inr to ↦ inr to
  ]
]

channel_msg_cases :
    (w : World) (c : ℕ) (m : NexusMessage) (s : Server)
    → ((handle_channel_msg w c m s ≡ s)
        ⊎ ((t : String) × (handle_channel_msg w c m s
              ≡ send c (with_error MsgType.channel_msg_result t) s)))
      ⊎ ((server : String) × (channel_server w m.channel_id (user_of s c) s.db ≡ ok server)
          × (handle_channel_msg w c m s ≡ post_message w c m server (user_of s c) s))
unfolding handle_channel_msg
channel_msg_cases w c m s = elim (Bool-cases (user_of s c == "" || m.channel_id == "")) [
  | inl e ↦ inl (inl (rw (e, handle_channel_msg) refl))
  | inr e ↦ go (channel_server w m.channel_id (user_of s c) s.db) refl e
]
  where
    go :
        (r : Result String)
        → channel_server w m.channel_id (user_of s c) s.db ≡ r
        → (user_of s c == "" || m.channel_id == "") ≡ false
        → ((handle_channel_msg w c m s ≡ s)
            ⊎ ((t : String) × (handle_channel_msg w c m s
                  ≡ send c (with_error MsgType.channel_msg_result t) s)))
          ⊎ ((server : String) × (channel_server w m.channel_id (user_of s c) s.db ≡ ok server)
              × (handle_channel_msg w c m s ≡ post_message w c m server (user_of s c) s))
    go (err t) may e = inl (inr (t, rw (e, handle_channel_msg) (rw may refl)))
    go (ok server) may e = elim (Bool-cases (bad_body (trim_space m.body))) [
      | inl bad ↦ inl (inr ("body 1-8000 chars", rw (e, handle_channel_msg) (rw may (rw bad refl))))
      | inr good ↦ inr (server, may, rw (e, handle_channel_msg) (rw may (rw good refl)))
    ]

-- Every frame that the case channel_msg adds goes to the connection that asked, or it goes to the
-- connection of a member of the channel's server, and then it is the posted message: the trimmed body
-- with the channel, its server, the next message's id and the time, in the name of the user who posted
-- and who is a member of that server too.
pub handle_channel_msg-members :
    (w : World) (c : ℕ) (m : NexusMessage) (s : Server) (d : ℕ) (x : NexusMessage)
    → Logged d x (handle_channel_msg w c m s).out
    → (Logged d x s.out ⊎ (d ≡ c))
      ⊎ ((ch : Channel) × (query_row (λ k. k.id == m.channel_id) s.db.channels ≡ some ch)
          × (any_row (membership ch.server_id (user_of s c)) s.db.server_members ≡ true)
          × (x ≡ record (blank MsgType.channel_msg_in) {
            server_id = ch.server_id;
            channel_id = m.channel_id;
            sender = user_of s c;
            body = trim_space m.body;
            messages =
                record {
                  id = suc s.db.messages_last;
                  channel_id = m.channel_id;
                  sender = user_of s c;
                  body = trim_space m.body;
                  created_at = current_timestamp w;
                }
                ∷ [];
          })
          × (v : String) × (any_row (membership ch.server_id v) s.db.server_members ≡ true)
          × (lookup v s.clients ≡ some d))
handle_channel_msg-members w c m s d x h = elim (channel_msg_cases w c m s) [
  | inl (inl e) ↦ inl (inl (rw e at h))
  | inl (inr (_, e)) ↦ inl (Logged-send c _ s d x (rw e at h))
  | inr (server, may, e) ↦
      let (ch, found, there, member) = channel_server_inv w m.channel_id (user_of s c) s.db may in
      elim (Logged-post_message w c m server (user_of s c) s d x (rw e at h)) [
        | inl old ↦ inl old
        | inr (v, reader, online, same) ↦ inr (
          ch,
          found,
          rw there member,
          rw (same, there) (unfold channel_msg_in channel_row in refl),
          v,
          rw there reader,
          online,
        )
      ]
]
